-- ===== src/Ide/Fs/Alloc.antt =====
-- `balloc` and `bfree` of A.ide/src/fs.c on the bitmap of a well laid out disk.
use class_example.Prelude.{
  ℕ, zero, suc, ◌+◌, ◌-◌, ◌*◌, ◌/◌, ◌%◌, ◌≤◌, ◌<◌, ◌≡◌, ◌≢◌, inl, inr, refl, ap₂, sym, ◌∙◌, none,
  some, arith, ltb, leb, Bool-cases, Option-cases,
}
use class_example.Ide.Fs.{Blocks, Superblock, edit, bblock, bpb}
use class_example.Ide.Fs.Blocks.{readsb, bzero1, map_bit, mark, free_bit, balloc_loop, balloc}
use class_example.Ide.Fs.Bitmap.{used, FirstFree, free_bit-FirstFree}

-- The disk after block `r` is marked and zeroed.
abbrev pub claimed : (dev ninodes r : ℕ) → Blocks → Blocks
claimed dev ninodes r blocks = bzero1 dev r (edit dev (bblock r ninodes) (mark (r % bpb)) blocks)

-- Nothing is free from `b` on, and the answer is 0; or the answer is the first free block.
pub data Search (dev b : ℕ) (sb : Superblock) (blocks : Blocks) (out : ℕ × Blocks) : Type 0 where
  full :
      ((j : ℕ) → b ≤ j → j < sb.size → used dev sb.ninodes blocks j ≢ 0)
      → out ≡ (0, blocks)
      → Search dev b sb blocks out
  found :
      (r : ℕ)
      → r < sb.size
      → used dev sb.ninodes blocks r ≡ 0
      → ((j : ℕ) → b ≤ j → j < r → used dev sb.ninodes blocks j ≢ 0)
      → out ≡ (r, claimed dev sb.ninodes r blocks)
      → Search dev b sb blocks out

module _ (dev : ℕ) (sb : Superblock) (blocks : Blocks) where
  -- The bits of one block of the bitmap are those of the blocks from `b` on.
  in_block :
      (b j : ℕ)
      → b % bpb ≡ 0
      → b ≤ j
      → j < b + bpb
      → used dev sb.ninodes blocks j ≡ map_bit (blocks dev (bblock b sb.ninodes)) (j - b)
  in_block b j aligned lo hi =
      let e1 : j / bpb ≡ b / bpb = omega arith in
      let e2 : j % bpb ≡ j - b = omega arith in rw (e1, e2) refl

  -- With nothing free in its block of the bitmap, only a later block can be free.
  still :
      (b j : ℕ)
      → b % bpb ≡ 0
      → FirstFree bpb 0 b sb.size (blocks dev (bblock b sb.ninodes)) none
      → b ≤ j
      → j < sb.size
      → (b + bpb ≤ j → used dev sb.ninodes blocks j ≢ 0)
      → used dev sb.ninodes blocks j ≢ 0
  still b j aligned taken lo lt rest = elim (Bool-cases (leb (b + bpb) j)) [
    | inl beyond ↦ rest (ground (arith, beyond))
    | inr here ↦
        rw (in_block b j aligned lo (ground (arith, here)))
          (taken (j - b) (omega arith) (ground (arith, here)) (ground (arith, here)) (omega arith))
  ]

  later :
      (b : ℕ) (out : ℕ × Blocks)
      → b % bpb ≡ 0
      → FirstFree bpb 0 b sb.size (blocks dev (bblock b sb.ninodes)) none
      → Search dev (b + bpb) sb blocks out
      → Search dev b sb blocks out
  later b out aligned taken (full rest e) =
      full (λ j lo lt. still b j aligned taken lo lt (λ beyond. rest j beyond lt)) e
  later b out aligned taken (found r lt free before e) =
      found r lt free
        (λ j lo to. still b j aligned taken lo (omega arith) (λ beyond. before j beyond to)) e

  here :
      (b k : ℕ)
      → b % bpb ≡ 0
      → FirstFree bpb 0 b sb.size (blocks dev (bblock b sb.ninodes)) (some k)
      → Search dev b sb blocks
          (b + k, bzero1 dev (b + k) (edit dev (bblock b sb.ninodes) (mark k) blocks))
  here b k aligned (_, (lt, (size_ok, (free, before)))) =
      let e1 : b + k - b ≡ k = omega arith in
      let e2 : bblock (b + k) sb.ninodes ≡ bblock b sb.ninodes = omega arith in
      let e3 : (b + k) % bpb ≡ k = omega arith in
      found (b + k) size_ok (in_block b (b + k) aligned (omega arith) (omega arith) ∙ rw e1 free)
        (λ j lo to.
          rw (in_block b j aligned lo (omega arith)) (before (j - b) (omega arith) (omega arith)))
        (ap₂ (λ m i. (b + k, bzero1 dev (b + k) (edit dev m (mark i) blocks))) (sym e2) (sym e3))

  balloc_loop-Search :
      (fuel b : ℕ)
      → b % bpb ≡ 0
      → sb.size ≤ b + fuel * bpb
      → Search dev b sb blocks (balloc_loop fuel b dev sb blocks)
  unfolding balloc_loop
  balloc_loop-Search zero b aligned enough = full (λ j lo lt. absurd (omega arith)) refl
  balloc_loop-Search (suc fuel) b aligned enough =
      let t = free_bit-FirstFree bpb 0 b sb.size (blocks dev (bblock b sb.ninodes)) in
      elim (Bool-cases (ltb b sb.size)) [
        | inr over ↦ rw over (full (λ j lo lt. absurd (ground (arith, over))) refl)
        | inl more ↦
            elim (Option-cases (free_bit bpb 0 b sb.size (blocks dev (bblock b sb.ninodes)))) [
              | inl nothing ↦
                  rw (more, nothing)
                    (later b _ aligned (rw nothing at t)
                      (balloc_loop-Search fuel (b + bpb) (omega arith) (omega arith)))
              | inr (k, hit) ↦ rw (more, hit) (here b k aligned (rw hit at t))
            ]
      ]

pub balloc-Search :
    (dev : ℕ) (blocks : Blocks) → Search dev 0 (readsb dev blocks) blocks (balloc dev blocks)
unfolding balloc
balloc-Search dev blocks =
    let sb = readsb dev blocks in
    balloc_loop-Search dev sb blocks (sb.size / bpb + 1) 0 (omega arith) (omega arith)
