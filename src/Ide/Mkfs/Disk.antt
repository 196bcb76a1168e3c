-- ===== src/Ide/Mkfs/Disk.antt =====
-- The image of A.ide/tools/mkfs.c is a disk that A.ide/src/fs.c can work with.
use class_example.Prelude.{
  ℕ, ◌+◌, ◌-◌, ◌*◌, ◌/◌, ◌≤◌, ◌<◌, ◌≡◌, ◌≢◌, inl, inr, refl, ap, subst, sym, ◌∙◌, false, List, [],
  ◌∷◌, arith, ltb, ltb→lt, All, length, Bool-cases,
}
use class_example.Prelude.Returns.{Returns, returns, Returns-bind, Returns-mono}
use class_example.Memory.{Memory, load32, store32}
use class_example.Ide.Fs.{Superblock, bsize, rootino}
use class_example.Ide.Fs.Blocks
use class_example.Ide.Fs.Blocks.{readsb, map_bit, mark}
use class_example.Ide.Fs.Bitmap.{used}
use class_example.Ide.Fs.Claim.{balloc-Claimed}
use class_example.Ide.Fs.Dir.{t_dir, dirent_size}
use class_example.Ide.Drive.{fssize}
use class_example.Ide.Mkfs.{Image, addr, ninodes, nmeta, blank, fix_root, finish, fill_root, mkfs}
use class_example.Ide.Mkfs.Sound.{
  Sound, dinode, room, load32-zero, winode_lem, rinode_lem, with_dinode, Sound-winode,
}
use class_example.Ide.Mkfs.Append.{store32-lt}
use class_example.Ide.Mkfs.Inodes.{size_of, Addresses-size, ialloc-Created}
use class_example.Ide.Mkfs.Fill.{Made, IsFile, cost, root-Made, add_files-Made}
use class_example.Ide.Mkfs.Bitmap.{on, Formatted, balloc-Formatted, one_zero}

blank-Sound : Sound (λ s. false) blank
unfolding store32
blank-Sound = record {
  superblock = refl;
  low = omega arith;
  high = omega arith;
  inodes = λ inum lt i i_lt. inl (load32-zero (dinode inum blank) (20 + 4 * i) (λ a. ground arith));
  tables = λ s low below is j lt. absurd (omega (arith, low, below));
  unused = λ s i le. ground (arith, le);
  bytes = λ s i. ground arith;
}

fix_root-Made :
    (b i r : ℕ) (img : Image)
    → Made b i r img
    → Returns (λ img'. (r' : ℕ) × Made b i r' img') (fix_root img)
fix_root-Made b i r img m =
    let size = (size_of rootino img / bsize + 1) * bsize in
    let din = store32 (dinode rootino img) 16 size in
    rw (rinode_lem rootino img (omega arith), winode_lem rootino din img (omega arith))
      (returns (
        size_of rootino (with_dinode rootino din img),
        record {
          kind = m.kind;
          sound =
              Sound-winode m.kind img rootino din m.sound (omega arith)
                (Addresses-size m.kind img.freeblock size (dinode rootino img)
                  (m.sound.inodes rootino (omega arith)))
                (λ a. store32-lt (dinode rootino img) 16 size a (λ x. m.sound.bytes 2 (64 + x)));
          blocks = m.blocks;
          inode = m.inode;
          root = omega arith;
        },
      ))

-- At most 198 files, each of at most 138 reads. Four blocks for each file and four more for each read that it
-- takes, which is more than they need, lie inside the disk behind the first 37 blocks.
pub record Fits (files : List (List ℕ × List (Memory × ℕ))) : Type 0 where
  pub count : length files ≤ ninodes - 2
  pub room_for : nmeta + 8 + cost files ≤ fssize
  pub good : All IsFile files

finish-Formatted :
    (dev : ℕ) (files : List (List ℕ × List (Memory × ℕ))) (img : Image)
    → Fits files
    → Made (nmeta + 8) 2 32 img
    → Returns (Formatted dev (nmeta + 8 + cost files) (2 + length files)) (finish files img)
unfolding finish
finish-Formatted dev files img fits m =
    Returns-bind
      (add_files-Made files (nmeta + 8) 2 32 img m (omega arith) (omega (arith, fits.count))
        (omega (arith, fits.count)) fits.room_for fits.good)
      (λ img1 m1.
        Returns-bind
          (fix_root-Made (nmeta + 8 + cost files) (2 + length files)
            (32 + dirent_size * length files) img1 m1)
          (λ img2 (r, m2).
            balloc-Formatted dev (nmeta + 8 + cost files) (2 + length files) r img2 m2))

root-Formatted :
    (dev : ℕ) (files : List (List ℕ × List (Memory × ℕ))) (img : Image)
    → Fits files
    → Made nmeta 2 0 img
    → Returns
        (Formatted dev (nmeta + 8 + cost files) (2 + length files))
        (fill_root rootino files img)
unfolding fill_root
root-Formatted dev files img fits m =
    Returns-bind
      (root-Made nmeta 2 0 rootino (b'.' ∷ []) img m (omega arith, tt) (omega arith) (omega arith))
      (λ img1 (m1, _).
        Returns-bind
          (root-Made (nmeta + 4) 2 16 rootino (b'.' ∷ b'.' ∷ []) img1 m1
            (omega arith, (omega arith, tt)) (omega arith) (omega arith))
          (λ img2 (m2, _). finish-Formatted dev files img2 fits m2))

-- For files that fit in this sense, `mkfs` makes an image. On it the kernel reads the superblock with the numbers of `mkfs`, the
-- disk is well laid out for `balloc`, and a block of the disk is marked as used exactly when it lies below
-- `freeblock`, which the cost of the files bounds. The root directory and each file have taken one inode, and all
-- blocks of the inodes lie below `freeblock`.
pub mkfs-Formatted :
    (dev : ℕ) (files : List (List ℕ × List (Memory × ℕ)))
    → Fits files
    → Returns (Formatted dev (nmeta + 8 + cost files) (2 + length files)) (mkfs files)
unfolding mkfs
mkfs-Formatted dev files fits =
    Returns-bind (ialloc-Created (λ s. false) t_dir blank blank-Sound (omega arith))
      (λ (root, img) t.
        subst
          (λ x.
            Returns (Formatted dev (nmeta + 8 + cost files) (2 + length files))
              (fill_root x files img))
          (sym t.number)
          (root-Formatted dev files img fits (record {
            kind = t.kind;
            sound = t.sound;
            blocks = omega (arith, t.freeblock_kept);
            inode = t.next;
            root = omega (arith, ap (λ x. size_of x img) (sym t.number) ∙ t.size_now);
          })))

found_free :
    (dev : ℕ) {b i : ℕ} (img : Image)
    → Formatted dev b i img
    → b < fssize
    → (img.freeblock ≤ (Blocks.balloc dev (on img)).0) × ((Blocks.balloc dev (on img)).0 < fssize)
found_free dev img t lt =
    let size_is : (readsb dev (on img)).size ≡ fssize =
      ap (λ (x : Superblock). x.size) t.superblock in
    let count_is : (readsb dev (on img)).ninodes ≡ ninodes =
      ap (λ (x : Superblock). x.ninodes) t.superblock in
    let n = img.freeblock in
    let bits : (j : ℕ)
        → used dev (readsb dev (on img)).ninodes (on img) j ≡ used dev ninodes (on img) j =
      λ j. ap (λ x. used dev x (on img) j) count_is in
    elim (balloc-Claimed dev (on img) t.layout) [
      | inl (_, all_used) ↦ absurd (
          all_used n (omega (arith, size_is, t.blocks, lt))
            (bits n ∙ t.unused n (omega arith) (omega (arith, t.blocks, lt))))
      | inr c ↦
          let r = (Blocks.balloc dev (on img)).0 in
          elim (Bool-cases (ltb r n)) [
            | inl below ↦
                absurd (one_zero (sym (t.in_use r (ltb→lt r n below)) ∙ sym (bits r) ∙ c.was_free))
            | inr above ↦ (ground (arith, above), omega (arith, c.inside, size_is))
          ]
    ]

-- Block `r` lies inside the disk and behind the superblock, the inodes and the bitmap, and is not a block of any
-- inode, nor one that its block of addresses lists.
pub record Unowned (r : ℕ) (img : Image) : Type 0 where
  pub inside : r < fssize
  pub behind : nmeta ≤ r
  pub direct : (inum : ℕ) → inum < room → (i : ℕ) → i < 11 → addr (dinode inum img) i ≢ r
  pub indirect :
      (inum : ℕ)
      → inum < room
      → addr (dinode inum img) 10 ≢ 0
      → (j : ℕ) → j < 128
      → load32 (img.sectors (addr (dinode inum img) 10)) (4 * j) ≢ r

-- For files that fit, with at least one block left behind four blocks for each file and for each read, the kernel's
-- first allocation on the image takes a block inside the disk, behind the superblock, the inodes and the bitmap, that
-- no inode has, neither as a block of its own nor through its block of addresses.
pub mkfs-balloc :
    (dev : ℕ) (files : List (List ℕ × List (Memory × ℕ)))
    → Fits files
    → nmeta + 8 + cost files < fssize
    → Returns (λ img. Unowned (Blocks.balloc dev (on img)).0 img) (mkfs files)
mkfs-balloc dev files fits room_left = Returns-mono (mkfs-Formatted dev files fits) (λ img t.
    let (above, inside) = found_free dev img t room_left in
    record {
      inside = inside;
      behind = omega (arith, t.low, above);
      direct = λ inum lt i i_lt. omega (arith, t.owned inum lt i i_lt, above);
      indirect = λ inum lt ne j j_lt. omega (arith, t.listed inum lt ne j j_lt, above);
    })
