-- ===== src/Bits.antt =====
-- The bits of a byte, through division and remainder, as the masks of the interrupt controllers and the
-- free bitmap of the disk use them.
use class_example.Prelude.{
  ℕ, zero, suc, ◌+◌, ◌-◌, ◌*◌, ◌/◌, ◌%◌, ◌^◌, ◌≤◌, ◌<◌, ◌≡◌, ◌≢◌, refl, Bool, true, ◌&&◌, ◌||◌,
  arith, if◌then◌else◌, ◌==◌,
}

-- The bit `1 << n` of a mask, 0 or 1.
abbrev pub bit_of : ℕ → ℕ → ℕ
bit_of mask n = mask / 2 ^ n % 2

-- `mask & ~(1 << n)`
abbrev pub clear_bit : ℕ → ℕ → ℕ
clear_bit mask n = mask - bit_of mask n * 2 ^ n

-- `mask | (1 << n)`
abbrev pub set_bit : ℕ → ℕ → ℕ
set_bit mask n = if bit_of mask n == 0 then mask + 2 ^ n else mask

-- A property of the eight lines of a controller, or of the eight bits of a byte, is one of each of them.
pub below_8 {κ} :
    (P : ℕ → Type κ) → P 0 → P 1 → P 2 → P 3 → P 4 → P 5 → P 6 → P 7 → (n : ℕ) → n < 8 → P n
below_8 P a b c d e f g h zero lt = a
below_8 P a b c d e f g h (suc zero) lt = b
below_8 P a b c d e f g h (suc (suc zero)) lt = c
below_8 P a b c d e f g h (suc (suc (suc zero))) lt = d
below_8 P a b c d e f g h (suc (suc (suc (suc zero)))) lt = e
below_8 P a b c d e f g h (suc (suc (suc (suc (suc zero))))) lt = f
below_8 P a b c d e f g h (suc (suc (suc (suc (suc (suc zero)))))) lt = g
below_8 P a b c d e f g h (suc (suc (suc (suc (suc (suc (suc zero))))))) lt = h
below_8 P a b c d e f g h (suc (suc (suc (suc (suc (suc (suc (suc n)))))))) lt =
    absurd (omega arith)

pub clear-bit_of : (mask n : ℕ) → n < 8 → bit_of (clear_bit mask n) n ≡ 0
clear-bit_of mask =
    below_8 (λ n. bit_of (clear_bit mask n) n ≡ 0) (omega arith) (omega arith) (omega arith)
      (omega arith) (omega arith) (omega arith) (omega arith) (omega arith)

pub set-bit_of : (mask n : ℕ) → n < 8 → bit_of (set_bit mask n) n ≡ 1
set-bit_of mask =
    below_8 (λ n. bit_of (set_bit mask n) n ≡ 1) (ground arith) (ground arith) (ground arith)
      (ground arith) (ground arith) (ground arith) (ground arith) (ground arith)

-- Every byte and every pair of bits, by evaluation.
all_below : ℕ → (ℕ → Bool) → Bool
all_below zero p = true
all_below (suc n) p = p n && all_below n p

all_below_lem : (n : ℕ) (p : ℕ → Bool) (x : ℕ) → all_below n p ≡ true → x < n → p x ≡ true
unfolding all_below
all_below_lem zero p x h lt = absurd (omega arith)
all_below_lem (suc n) p x h lt = ground (arith, all_below_lem n p x)

others_kept : ℕ → ℕ → ℕ → Bool
others_kept mask n j =
    n == j
    || ((bit_of (set_bit mask n) j == bit_of mask j)
        && (bit_of (clear_bit mask n) j == bit_of mask j))

table : all_below 256 (λ mask. all_below 8 (λ n. all_below 8 (others_kept mask n))) ≡ true
unfolding all_below others_kept
table = refl

-- The other bits of a byte stay when one is set or cleared.
pub bits-other :
    (mask n j : ℕ)
    → mask < 256
    → n < 8
    → j < 8
    → n ≢ j
    → (bit_of (set_bit mask n) j ≡ bit_of mask j) × (bit_of (clear_bit mask n) j ≡ bit_of mask j)
unfolding others_kept
bits-other mask n j hm hn hj ne =
    let row =
      all_below_lem 256 (λ mask. all_below 8 (λ n. all_below 8 (others_kept mask n))) mask table
        hm in
    let cell = all_below_lem 8 (λ n. all_below 8 (others_kept mask n)) n row hn in
    let t = all_below_lem 8 (others_kept mask n) j cell hj in ground (arith, t, ne)

-- Setting a clear bit of a byte leaves a byte, and clearing it again gives the first one.
pub clear-set : (mask n : ℕ) → bit_of mask n ≡ 0 → n < 8 → clear_bit (set_bit mask n) n ≡ mask
clear-set mask n h lt =
    below_8 (λ n. bit_of mask n ≡ 0 → clear_bit (set_bit mask n) n ≡ mask) (λ h. ground (arith, h))
      (λ h. ground (arith, h)) (λ h. ground (arith, h)) (λ h. ground (arith, h))
      (λ h. ground (arith, h)) (λ h. ground (arith, h)) (λ h. ground (arith, h))
      (λ h. ground (arith, h)) n lt h

-- A byte stays a byte.
pub set-lt : (mask n : ℕ) → mask < 256 → n < 8 → set_bit mask n < 256
set-lt mask n h =
    below_8 (λ n. set_bit mask n < 256) (ground (arith, h)) (ground (arith, h)) (ground (arith, h))
      (ground (arith, h)) (ground (arith, h)) (ground (arith, h)) (ground (arith, h))
      (ground (arith, h)) n

pub clear-le : (mask n : ℕ) → clear_bit mask n ≤ mask
clear-le mask n = omega arith
