-- ===== src/Ide/Fs/Bitmap.antt =====
-- What the searches of `balloc` in A.ide/src/fs.c find, and what marking a bit does to the others.
use class_example.Prelude.{
  ℕ, zero, suc, ◌+◌, ◌/◌, ◌%◌, ◌≤◌, ◌<◌, ◌≡◌, ◌≢◌, inl, inr, refl, true, Option, none, some, arith,
  ◌==◌, ◌&&◌, ltb, Bool-cases,
}
use native.Mathlib.Decide.{ℕ_discrete}
use class_example.Bits.{set-bit_of, clear-set, bits-other}
use class_example.Memory.{Memory}
use class_example.Ide.Fs.{Blocks, bblock, bpb}
use class_example.Ide.Fs.Blocks.{map_bit, mark, unmark, free_bit}

-- The bit of block `b` in the bitmap, 0 when it is free.
abbrev pub used : (dev ninodes : ℕ) → Blocks → ℕ → ℕ
used dev ninodes blocks b = map_bit (blocks dev (bblock b ninodes)) (b % bpb)

pub mark_self : (k : ℕ) (bytes : Memory) → map_bit (mark k bytes) k ≡ 1
mark_self k bytes =
    let here : (k / 8 == k / 8) ≡ true = ground arith in
    rw here (set-bit_of (bytes (k / 8)) (k % 8) (omega arith))

pub mark_other :
    (k j : ℕ) (bytes : Memory)
    → ((i : ℕ) → bytes i < 256)
    → j ≢ k
    → map_bit (mark k bytes) j ≡ map_bit bytes j
mark_other k j bytes small ne = elim (Bool-cases (j / 8 == k / 8)) [
  | inl same ↦
      rw same
        (bits-other (bytes (j / 8)) (k % 8) (j % 8) (small (j / 8)) (omega arith) (omega arith)
          (ground (arith, same, ne))).0
  | inr apart ↦ rw apart refl
]

pub unmark-mark :
    (k : ℕ) (bytes : Memory) → map_bit bytes k ≡ 0 → (i : ℕ) → unmark k (mark k bytes) i ≡ bytes i
unmark-mark k bytes free i = elim (Bool-cases (i == k / 8)) [
  | inl here ↦
      let e : i ≡ k / 8 = ground (arith, here) in
      rw here (clear-set (bytes i) (k % 8) (rw e free) (omega arith))
  | inr other ↦ rw other refl
]

-- The inner loop finds the first free bit in its range, or there is none.
abbrev pub FirstFree : (left bi b size : ℕ) → Memory → Option ℕ → Type 0
FirstFree left bi b size bytes none =
    (j : ℕ) → bi ≤ j → j < bi + left → j < bpb → b + j < size → map_bit bytes j ≢ 0
FirstFree left bi b size bytes (some k) =
    (bi ≤ k)
    × ((k < bpb)
        × ((b + k < size)
            × ((map_bit bytes k ≡ 0) × ((j : ℕ) → bi ≤ j → j < k → map_bit bytes j ≢ 0))))

pub free_bit-FirstFree :
    (left bi b size : ℕ) (bytes : Memory)
    → FirstFree left bi b size bytes (free_bit left bi b size bytes)
unfolding free_bit
free_bit-FirstFree zero bi b size bytes = λ j lo hi. absurd (omega arith)
free_bit-FirstFree (suc left) bi b size bytes =
    elim (Bool-cases (ltb bi bpb && ltb (b + bi) size)) [
      | inr out ↦ rw out (λ j lo hi lt_b lt_s. ground (arith, out))
      | inl inside ↦ elim (Bool-cases (map_bit bytes bi == 0)) [
        | inl free ↦
            rw (inside, free)
              (
                omega arith,
                (
                  ground (arith, inside),
                  (ground (arith, inside), (ground (arith, free), λ j lo hi. absurd (omega arith))),
                ),
              )
        | inr taken ↦
            let now : map_bit bytes bi ≢ 0 = ground (arith, taken) in
            rw (inside, taken)
              (next (free_bit left (bi + 1) b size bytes) now
                (free_bit-FirstFree left (bi + 1) b size bytes))
      ]
    ]
  where
    next :
        (o : Option ℕ)
        → map_bit bytes bi ≢ 0
        → FirstFree left (bi + 1) b size bytes o
        → FirstFree (suc left) bi b size bytes o
    next none now f = λ j lo hi lt_b lt_s. elim (ℕ_discrete j bi) [
      | yes e ↦ rw e now
      | no ne ↦ f j (omega arith) (omega arith) lt_b lt_s
    ]
    next (some k) now (lo, (lt, (size_ok, (free, before)))) = (
      omega arith,
      (
        lt,
        (
          size_ok,
          (
            free,
            λ j from to. elim (ℕ_discrete j bi) [
              | yes e ↦ rw e now
              | no ne ↦ before j (omega arith) to
            ],
          ),
        ),
      ),
    )
