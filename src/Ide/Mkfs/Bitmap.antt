-- ===== src/Ide/Mkfs/Bitmap.antt =====
-- The bitmap that balloc of A.ide/tools/mkfs.c writes, as A.ide/src/fs.c reads it.
use class_example.Prelude.{
  ℕ, zero, suc, ◌+◌, ◌-◌, ◌*◌, ◌%◌, ◌≤◌, ◌<◌, ◌≡◌, ◌≢◌, ◌⊎◌, inl, inr, refl, ap, subst, sym, ◌∙◌,
  Bool, true, arith, ltb,
}
use native.Mathlib.Decide.{ℕ_discrete}
use class_example.Prelude.Returns.{Returns, returns}
use class_example.Bits.{bit_of, below_8, set-lt}
use class_example.Memory.{Memory, load32, store32}
use class_example.Ide.Fs.{Blocks, bsize, bblock, bpb, iblock}
use class_example.Ide.Fs.Inode.{dinode_at}
use class_example.Ide.Fs.Blocks.{readsb, map_bit, mark}
use class_example.Ide.Fs.Bitmap.{used, mark_self, mark_other}
use class_example.Ide.Fs.Claim.{IsMarked, IsLayout}
use class_example.Ide.Drive.{fssize}
use class_example.Ide.Mkfs.{
  Image, ninodes, nlog, nmeta, super_block, mark_used, zeroes, wsect, balloc, addr,
}
use class_example.Ide.Mkfs.Sound.{Sound, Entry, dinode, room, wsect_other}
use class_example.Ide.Mkfs.Fill.{Made}

-- The bits that the loop of `balloc` sets.
mark-lt : (i : ℕ) (buf : Memory) → ((a : ℕ) → buf a < 256) → (a : ℕ) → mark i buf a < 256
mark-lt i buf h a = ground (arith, h a, set-lt (buf a) (i % 8) (h a) (omega arith))

mark_used-lt :
    (left i : ℕ) (buf : Memory) → ((a : ℕ) → buf a < 256) → (a : ℕ) → mark_used left i buf a < 256
unfolding mark_used
mark_used-lt zero i buf h a = h a
mark_used-lt (suc left) i buf h a = mark_used-lt left (i + 1) (mark i buf) (mark-lt i buf h) a

mark_used_out :
    (left i : ℕ) (buf : Memory) (j : ℕ)
    → ((a : ℕ) → buf a < 256)
    → (j < i) ⊎ (i + left ≤ j)
    → map_bit (mark_used left i buf) j ≡ map_bit buf j
unfolding mark_used
mark_used_out zero i buf j h out = refl
mark_used_out (suc left) i buf j h out =
    mark_used_out left (i + 1) (mark i buf) j (mark-lt i buf h) (ground (arith, out))
    ∙ mark_other i j buf h (ground (arith, out))

mark_used_in :
    (left i : ℕ) (buf : Memory) (j : ℕ)
    → ((a : ℕ) → buf a < 256)
    → i ≤ j
    → j < i + left
    → map_bit (mark_used left i buf) j ≡ 1
unfolding mark_used
mark_used_in zero i buf j h low high = absurd (omega arith)
mark_used_in (suc left) i buf j h low high = elim (ℕ_discrete j i) [
  | yes e ↦
      mark_used_out left (i + 1) (mark i buf) j (mark-lt i buf h) (inl (omega (arith, e)))
      ∙ ap (map_bit (mark i buf)) e
      ∙ mark_self i buf
  | no ne ↦
      mark_used_in left (i + 1) (mark i buf) j (mark-lt i buf h) (omega (arith, ne)) (omega arith)
]

-- The disk whose one device has this image.
abbrev pub on : Image → Blocks
on img d b = img.sectors b

-- What the kernel finds on the image.
pub record Formatted (dev b i : ℕ) (img : Image) : Type 0 where
  pub superblock :
      readsb dev (on img)
      ≡ record { size = fssize; nblocks = fssize - nlog - nmeta; ninodes = ninodes; nlog = nlog }
  pub layout : IsLayout dev (on img)
  pub in_use : (j : ℕ) → j < img.freeblock → used dev ninodes (on img) j ≡ 1
  pub unused : (j : ℕ) → img.freeblock ≤ j → j < fssize → used dev ninodes (on img) j ≡ 0
  pub blocks : img.freeblock ≤ b
  pub next_inode : img.freeinode ≡ i
  pub low : nmeta ≤ img.freeblock
  pub owned : (inum : ℕ) → inum < room → (i : ℕ) → i < 11 → addr (dinode inum img) i < img.freeblock
  pub listed :
      (inum : ℕ)
      → inum < room
      → addr (dinode inum img) 10 ≢ 0
      → (j : ℕ) → j < 128
      → load32 (img.sectors (addr (dinode inum img) 10)) (4 * j) < img.freeblock

super_read :
    (dev : ℕ) (img : Image)
    → img.sectors 1 ≡ super_block
    → readsb dev (on img)
      ≡ record { size = fssize; nblocks = fssize - nlog - nmeta; ninodes = ninodes; nlog = nlog }
unfolding readsb load32 store32
super_read dev img e = rw e refl

pub no_bit : (j : ℕ) → map_bit zeroes j ≡ 0
no_bit j =
    below_8 (λ n. bit_of 0 n ≡ 0) refl refl refl refl refl refl refl refl (j % 8) (omega arith)

pub one_zero : ◌≢◌ {A = ℕ} 1 0
one_zero e = ground (arith, e)

Entry-lt :
    (kind : ℕ → Bool) (free a : ℕ) (table : Bool) → 0 < free → Entry kind free a table → a < free
Entry-lt kind free a table pos (inl e) = omega (arith, e)
Entry-lt kind free a table pos (inr (low, lt, k)) = lt

-- What the inodes hold, behind another sector that is neither one of theirs nor one of their blocks.
module _ (kind : ℕ → Bool) (img : Image) (v : Sound kind img) (buf : Memory) where
  abbrev out : Image
  out = wsect 28 buf img

  same_dinode : (inum : ℕ) → inum < room → dinode inum out ≡ dinode inum img
  same_dinode inum lt =
      ap (λ (f : Memory). λ i. f (dinode_at inum + i))
        (wsect_other 28 (iblock inum) buf img (omega arith))

  owned_after :
      (inum : ℕ) → inum < room → (i : ℕ) → i < 11 → addr (dinode inum out) i < img.freeblock
  owned_after inum lt i i_lt =
      subst (λ (d : Memory). addr d i < img.freeblock) (sym (same_dinode inum lt))
        (Entry-lt kind img.freeblock _ _ (omega (arith, v.low)) (v.inodes inum lt i i_lt))

  listed_in :
      (a : ℕ)
      → Entry kind img.freeblock a true
      → a ≢ 0
      → (j : ℕ) → j < 128
      → load32 (out.sectors a) (4 * j) < img.freeblock
  listed_in a (inl e) ne j lt = absurd (ne e)
  listed_in a (inr (low, below, k)) ne j lt =
      subst (λ (f : Memory). load32 f (4 * j) < img.freeblock)
        (sym (wsect_other 28 a buf img (omega (arith, low))))
        (Entry-lt kind img.freeblock _ _ (omega (arith, v.low)) (v.tables a low below k j lt))

  listed_after :
      (inum : ℕ)
      → inum < room
      → addr (dinode inum out) 10 ≢ 0
      → (j : ℕ) → j < 128
      → load32 (out.sectors (addr (dinode inum out) 10)) (4 * j) < img.freeblock
  listed_after inum lt =
      subst
        (λ (d : Memory).
          addr d 10 ≢ 0
          → (j : ℕ) → j < 128
          → load32 (out.sectors (addr d 10)) (4 * j) < img.freeblock)
        (sym (same_dinode inum lt))
        (listed_in (addr (dinode inum img) 10) (v.inodes inum lt 10 (omega arith)))

-- The bitmap is written when all blocks below `img.freeblock` are taken.
pub balloc-Formatted :
    (dev b i r : ℕ) (img : Image)
    → Made b i r img
    → Returns (Formatted dev b i) (balloc img.freeblock img)
unfolding balloc
balloc-Formatted dev b i r img m =
    let n = img.freeblock in
    let buf = mark_used n 0 zeroes in
    let out = wsect 28 buf img in
    let low = m.sound.low in
    let high = m.sound.high in
    let fits : ltb n (bsize * 8) ≡ true = ground (arith, high) in
    let at : (j : ℕ) → j < fssize → (bblock j ninodes ≡ 28) × (j % bpb ≡ j) =
      λ j lt. (omega (arith, lt), omega (arith, lt)) in
    let bit_in : (j : ℕ) → j < n → used dev ninodes (on out) j ≡ 1 = λ j lt.
      let (e1, e2) = at j (omega (arith, lt, high)) in
      rw (e1, e2)
        (mark_used_in n 0 zeroes j (λ a. omega arith) (omega arith) (omega (arith, lt))) in
    let set : (j : ℕ) → j < n → used dev ninodes (on out) j ≢ 0 =
      λ j lt q. one_zero (sym (bit_in j lt) ∙ q) in
    let super = wsect_other 28 1 buf img (omega arith) ∙ m.sound.superblock in
    let read = super_read dev out super in
    rw (balloc, fits)
      (returns (record {
        superblock = read;
        layout =
            subst (λ s. IsMarked dev s (on out)) (sym read)
              (record {
                boot_used = set 0 (omega (arith, low));
                super_used = set 1 (omega (arith, low));
                map_used = λ j lt. set (bblock j ninodes) (omega (arith, low, lt));
                map_inside = λ j lt. omega (arith, lt);
                bytes = λ c a.
                    ground (arith, mark_used-lt n 0 zeroes (λ x. omega arith) a, m.sound.bytes c a);
              });
        in_use = bit_in;
        unused = λ j ge lt.
            let (e1, e2) = at j lt in
            rw (e1, e2)
              (mark_used_out n 0 zeroes j (λ a. omega arith) (inr (omega (arith, ge))) ∙ no_bit j);
        blocks = m.blocks;
        next_inode = m.inode;
        low = m.sound.low;
        owned = owned_after m.kind img m.sound buf;
        listed = listed_after m.kind img m.sound buf;
      }))
