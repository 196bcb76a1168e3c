-- ===== src/Ide/Fs/Claim.antt =====
-- What a block that `balloc` of A.ide/src/fs.c returns is, and that `bfree` gives it back.
use class_example.Prelude.{
  ℕ, ◌/◌, ◌%◌, ◌<◌, ◌≡◌, ◌≢◌, ◌⊎◌, inl, inr, refl, ap, subst, sym, ◌∙◌, true, false, arith, ◌==◌,
}
use native.Mathlib.Decide.{ℕ_discrete}
use class_example.Bits.{bit_of, set-lt}
use class_example.Memory.{Memory, memset, memset_in}
use class_example.Ide.Fs.{Blocks, Superblock, edit, bblock, bpb, bsize}
use class_example.Ide.Fs.Blocks.{readsb, bzero1, map_bit, mark, unmark, balloc, bfree}
use class_example.Ide.Fs.Bitmap.{used, mark_self, mark_other, unmark-mark}
use class_example.Ide.Fs.Alloc.{full, found, claimed, balloc-Search}

-- A disk whose blocks 0 and 1 and whose bitmap are marked as used, and whose data are bytes; `sb` is its
-- superblock.
pub record IsMarked (dev : ℕ) (sb : Superblock) (blocks : Blocks) : Type 0 where
  pub boot_used : used dev sb.ninodes blocks 0 ≢ 0
  pub super_used : used dev sb.ninodes blocks 1 ≢ 0
  pub map_used : (b : ℕ) → b < sb.size → used dev sb.ninodes blocks (bblock b sb.ninodes) ≢ 0
  pub map_inside : (b : ℕ) → b < sb.size → bblock b sb.ninodes < sb.size
  pub bytes : (b i : ℕ) → blocks dev b i < 256

abbrev pub IsLayout : (dev : ℕ) → Blocks → Type 0
IsLayout dev blocks = IsMarked dev (readsb dev blocks) blocks

-- What changes when block `r` is allocated.
pub record Claimed (dev : ℕ) (blocks : Blocks) (r : ℕ) (blocks' : Blocks) : Type 0 where
  pub not_null : r ≢ 0
  pub inside : r < (readsb dev blocks).size
  pub was_free : used dev (readsb dev blocks).ninodes blocks r ≡ 0
  pub now_used : used dev (readsb dev blocks).ninodes blocks' r ≡ 1
  pub zeroed : (i : ℕ) → i < bsize → blocks' dev r i ≡ 0
  pub other_bits :
      (j : ℕ)
      → j < (readsb dev blocks).size
      → j ≢ r
      → used dev (readsb dev blocks).ninodes blocks' j
        ≡ used dev (readsb dev blocks).ninodes blocks j
  pub other_blocks :
      (b i : ℕ)
      → b ≢ r
      → b ≢ bblock r (readsb dev blocks).ninodes
      → blocks' dev b i ≡ blocks dev b i
  pub layout : IsLayout dev blocks'

edit_here :
    (dev b : ℕ) (f : Memory → Memory) (blocks : Blocks)
    → edit dev b f blocks dev b ≡ f (blocks dev b)
edit_here dev b f blocks =
    let e1 : (dev == dev) ≡ true = ground arith in
    let e2 : (b == b) ≡ true = ground arith in rw (e1, e2) refl

edit_other :
    (dev b c : ℕ) (f : Memory → Memory) (blocks : Blocks)
    → c ≢ b
    → edit dev b f blocks dev c ≡ blocks dev c
edit_other dev b c f blocks ne =
    let e1 : (dev == dev) ≡ true = ground arith in
    let e2 : (c == b) ≡ false = ground (arith, ne) in rw (e1, e2) refl

module _ (dev : ℕ) (blocks : Blocks) (v : IsLayout dev blocks) (r : ℕ) where
  abbrev sb : Superblock
  sb = readsb dev blocks

  abbrev here : ℕ
  here = bblock r sb.ninodes

  abbrev blocks' : Blocks
  blocks' = claimed dev sb.ninodes r blocks

  module _ (inside : r < sb.size) (free : used dev sb.ninodes blocks r ≡ 0) where
    apart : here ≢ r
    apart e = v.map_used r inside (rw e free)

    at_map : blocks' dev here ≡ mark (r % bpb) (blocks dev here)
    unfolding bzero1
    at_map =
        edit_other dev r here (λ bytes. memset bytes 0 0 bsize)
          (edit dev here (mark (r % bpb)) blocks) apart
        ∙ edit_here dev here (mark (r % bpb)) blocks

    at_other : (b : ℕ) → b ≢ r → b ≢ here → blocks' dev b ≡ blocks dev b
    unfolding bzero1
    at_other b ne ne' =
        edit_other dev r b (λ bytes. memset bytes 0 0 bsize) (edit dev here (mark (r % bpb)) blocks)
          ne
        ∙ edit_other dev here b (mark (r % bpb)) blocks ne'

    at_new : (i : ℕ) → i < bsize → blocks' dev r i ≡ 0
    unfolding bzero1
    at_new i lt =
        ap (λ (f : Memory). f i)
          (edit_here dev r (λ bytes. memset bytes 0 0 bsize)
            (edit dev here (mark (r % bpb)) blocks))
        ∙ memset_in (edit dev here (mark (r % bpb)) blocks dev r) 0 0 bsize i (omega arith)
            (omega arith)

    same_super : readsb dev blocks' ≡ sb
    unfolding readsb
    same_super =
        let e =
          at_other 1
            (λ q. v.super_used (subst (λ x. used dev sb.ninodes blocks x ≡ 0) (sym q) free))
            (omega arith) in
        rw e refl

    same_bit :
        (j : ℕ) → j < sb.size → j ≢ r → used dev sb.ninodes blocks' j ≡ used dev sb.ninodes blocks j
    same_bit j lt ne = elim (ℕ_discrete (bblock j sb.ninodes) here) [
      | yes same ↦
          let e = at_map in
          let ne' : j % bpb ≢ r % bpb = omega arith in
          rw (same, e) (mark_other (r % bpb) (j % bpb) (blocks dev here) (v.bytes here) ne')
      | no other ↦
          let e = at_other (bblock j sb.ninodes) (λ q. v.map_used j lt (rw q free)) other in
          rw e refl
    ]

    own_bit : used dev sb.ninodes blocks' r ≡ 1
    own_bit = let e = at_map in rw e (mark_self (r % bpb) (blocks dev here))

    still_bytes : (b i : ℕ) → blocks' dev b i < 256
    unfolding bzero1 memset
    still_bytes b i =
        ground
          (arith, v.bytes b i, set-lt (blocks dev b i) (r % bpb % 8) (v.bytes b i) (omega arith))

    kept :
        (j : ℕ) → j < sb.size → used dev sb.ninodes blocks j ≢ 0 → used dev sb.ninodes blocks' j ≢ 0
    kept j lt was = rw (same_bit j lt (λ q. was (rw q free))) was

    still-IsLayout : IsLayout dev blocks'
    still-IsLayout =
        subst (λ s. IsMarked dev s blocks') (sym same_super)
          (record {
            boot_used = kept 0 (omega arith) v.boot_used;
            super_used = kept 1 (omega (arith, v.map_inside r inside)) v.super_used;
            map_used = λ b lt. kept (bblock b sb.ninodes) (v.map_inside b lt) (v.map_used b lt);
            map_inside = v.map_inside;
            bytes = still_bytes;
          })

    claim : Claimed dev blocks r blocks'
    claim = record {
      not_null = λ e. v.boot_used (subst (λ x. used dev sb.ninodes blocks x ≡ 0) e free);
      inside = inside;
      was_free = free;
      now_used = own_bit;
      zeroed = at_new;
      other_bits = same_bit;
      other_blocks = λ b i ne ne'. ap (λ (f : Memory). f i) (at_other b ne ne');
      layout = still-IsLayout;
    }

    freed : bfree dev r blocks' ≡ edit dev here (unmark (r % bpb)) blocks'
    unfolding bfree
    freed =
        let e = same_super in
        let marked : (used dev sb.ninodes blocks' r == 0) ≡ false = ground (arith, own_bit) in
        rw (e, marked) refl

    given_back :
        (j : ℕ)
        → j < sb.size
        → used dev sb.ninodes (bfree dev r blocks') j ≡ used dev sb.ninodes blocks j
    given_back j lt = elim (ℕ_discrete (bblock j sb.ninodes) here) [
      | yes same ↦
          let k = r % bpb in
          let e1 = edit_here dev here (unmark k) blocks' in
          let e2 = at_map in
          let e3 = unmark-mark k (blocks dev here) free (j % bpb / 8) in
          ap (λ (x : Blocks). used dev sb.ninodes x j) freed
          ∙ ap (λ b. map_bit (edit dev here (unmark k) blocks' dev b) (j % bpb)) same
          ∙ ap (λ (f : Memory). map_bit f (j % bpb)) (e1 ∙ ap (unmark k) e2)
          ∙ ap (λ x. bit_of x (j % bpb % 8)) e3
          ∙ ap (λ b. map_bit (blocks dev b) (j % bpb)) (sym same)
      | no other ↦
          let b = bblock j sb.ninodes in
          let e1 = edit_other dev here b (unmark (r % bpb)) blocks' other in
          let e2 = at_other b (λ q. v.map_used j lt (rw q free)) other in
          ap (λ (x : Blocks). used dev sb.ninodes x j) freed
          ∙ ap (λ (f : Memory). map_bit f (j % bpb)) (e1 ∙ e2)
    ]

-- On a well laid out disk `balloc` returns 0, with no block free and nothing changed; or a block that was
-- free, is marked now and holds zeros, with no other bit and no block but this one and its bitmap changed,
-- and the disk well laid out again.
pub balloc-Claimed :
    (dev : ℕ) (blocks : Blocks)
    → IsLayout dev blocks
    → ((balloc dev blocks ≡ (0, blocks))
        × ((j : ℕ)
            → j < (readsb dev blocks).size
            → used dev (readsb dev blocks).ninodes blocks j ≢ 0))
      ⊎ Claimed dev blocks ((balloc dev blocks).0) ((balloc dev blocks).1)
balloc-Claimed dev blocks v = elim (balloc-Search dev blocks) [
  | full taken e ↦ inl (e, λ j lt. taken j (omega arith) lt)
  | found r lt free before e ↦ inr (rw e (claim dev blocks v r lt free))
]

-- On a well laid out disk `bfree` of the block that `balloc` has just returned makes every bit of the bitmap
-- what it was.
pub bfree-balloc :
    (dev : ℕ) (blocks : Blocks)
    → IsLayout dev blocks
    → (balloc dev blocks).0 ≢ 0
    → (j : ℕ) → j < (readsb dev blocks).size
    → used dev
        (readsb dev blocks).ninodes
        (bfree dev ((balloc dev blocks).0) ((balloc dev blocks).1))
        j
      ≡ used dev (readsb dev blocks).ninodes blocks j
bfree-balloc dev blocks v some_block j lt = elim (balloc-Search dev blocks) [
  | full taken e ↦ absurd (some_block (ap (λ (x : ℕ × Blocks). x.0) e))
  | found r inside free before e ↦ rw e (given_back dev blocks v r inside free j lt)
]
