-- ===== src/Memory/Words.antt =====
-- 16-bit words, and rows of 32-bit words, in memory.
use class_example.Prelude.{
  ℕ, zero, suc, ◌+◌, ◌*◌, ◌/◌, ◌%◌, ◌^◌, ◌≤◌, ◌<◌, ◌≡◌, ◌⊎◌, inl, refl, ◌∙◌, List, [], ◌∷◌, arith,
  if◌then◌else◌, ◌==◌, All, length, ap,
}
use class_example.Memory.{Memory, load32, store32, load-store_self}

unfoldable pub load16 : Memory → ℕ → ℕ
load16 mem a = mem a + 256 * mem (a + 1)

unfoldable pub store16 : Memory → ℕ → ℕ → Memory
store16 mem a v b = if b == a then v % 256 else if b == a + 1 then v / 256 % 256 else mem b

-- `n` words from `a` on.
unfoldable pub load_words : Memory → (a n : ℕ) → List ℕ
load_words mem a zero = []
load_words mem a (suc n) = load32 mem a ∷ load_words mem (a + 4) n

unfoldable pub store_words : Memory → (a : ℕ) → List ℕ → Memory
store_words mem a [] = mem
store_words mem a (w ∷ ws) = store_words (store32 mem a w) (a + 4) ws

pub load-store16_self : (mem : Memory) (a v : ℕ) → v < 2 ^ 16 → load16 (store16 mem a v) a ≡ v
unfolding load16 store16
load-store16_self mem a v h = ground arith

pub load-store16_ne :
    (mem : Memory) (a b v : ℕ)
    → (a + 2 ≤ b) ⊎ (b + 2 ≤ a)
    → load16 (store16 mem a v) b ≡ load16 mem b
unfolding load16 store16
load-store16_ne mem a b v h = ground arith

pub store32-other : (mem : Memory) (a v b : ℕ) → (b < a) ⊎ (a + 4 ≤ b) → store32 mem a v b ≡ mem b
unfolding store32
store32-other mem a v b h = ground arith

pub store16-other : (mem : Memory) (a v b : ℕ) → (b < a) ⊎ (a + 2 ≤ b) → store16 mem a v b ≡ mem b
unfolding store16
store16-other mem a v b h = ground arith

-- A word is read as before when its bytes are as before.
pub load32-same :
    (mem mem' : Memory) (a : ℕ)
    → ((b : ℕ) → a ≤ b → b < a + 4 → mem' b ≡ mem b)
    → load32 mem' a ≡ load32 mem a
unfolding load32
load32-same mem mem' a same = ground (arith, same a, same (a + 1), same (a + 2), same (a + 3))

pub load16-same :
    (mem mem' : Memory) (a : ℕ)
    → ((b : ℕ) → a ≤ b → b < a + 2 → mem' b ≡ mem b)
    → load16 mem' a ≡ load16 mem a
unfolding load16
load16-same mem mem' a same = ground (arith, same a, same (a + 1))

pub store_words-other :
    (mem : Memory) (a : ℕ) (ws : List ℕ) (b : ℕ)
    → (b < a) ⊎ (a + 4 * length ws ≤ b)
    → store_words mem a ws b ≡ mem b
unfolding store_words
store_words-other mem a [] b h = refl
store_words-other mem a (w ∷ ws) b h =
    store_words-other (store32 mem a w) (a + 4) ws b (ground (arith, h))
    ∙ store32-other mem a w b (ground (arith, h))

-- Words below 2 ^ 32 that are stored in a row are read back.
pub load-store_words :
    (mem : Memory) (a : ℕ) (ws : List ℕ)
    → All (λ w. w < 2 ^ 32) ws
    → load_words (store_words mem a ws) a (length ws) ≡ ws
unfolding load_words store_words
load-store_words mem a [] h = refl
load-store_words mem a (w ∷ ws) h =
    let mem1 = store32 mem a w in
    let first : load32 (store_words mem1 (a + 4) ws) a ≡ w =
      load32-same mem1 (store_words mem1 (a + 4) ws) a
        (λ b _ lt. store_words-other mem1 (a + 4) ws b (inl (omega arith)))
      ∙ load-store_self mem a w h.0 in
    rw first (ap (λ t. w ∷ t) (load-store_words mem1 (a + 4) ws h.1))
