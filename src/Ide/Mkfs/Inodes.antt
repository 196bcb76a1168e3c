-- ===== src/Ide/Mkfs/Inodes.antt =====
-- What ialloc and iappend of A.ide/tools/mkfs.c do to the inodes.
use class_example.Prelude.{ℕ, ◌+◌, ◌*◌, ◌≤◌, ◌<◌, ◌≡◌, ◌≢◌, inl, refl, ap, ◌∙◌, Bool, arith}
use class_example.Prelude.Returns.{Returns, returns, Returns-bind}
use class_example.Memory.{Memory, load32, store32, load-store_self, load-store_ne}
use class_example.Memory.Words.{store16}
use class_example.Ide.Fs.{bsize, maxfile, iblock, dinode_size}
use class_example.Ide.Fs.Inode.{dinode_at}
use class_example.Ide.Drive.{fssize}
use class_example.Ide.Mkfs.{Image, new_dinode, ialloc, iappend}
use class_example.Ide.Mkfs.Sound.{
  Addresses, dinode, room, Sound, with_dinode, winode_lem, rinode_lem, dinode_self, dinode_other,
  load32-ext, Sound-winode,
}
use class_example.Ide.Mkfs.Append.{Filled, store32-lt}
use class_example.Ide.Mkfs.Grow.{rounds, append_loop-Filled}

-- The size of inode `inum`.
abbrev pub size_of : ℕ → Image → ℕ
size_of inum img = load32 (dinode inum img) 16

-- What stands in the inodes after one of them is written.
size_written :
    (inum : ℕ) (din : Memory) (img : Image)
    → size_of inum (with_dinode inum din img) ≡ load32 din 16
size_written inum din img =
    load32-ext (dinode inum (with_dinode inum din img)) din 16 dinode_size
      (dinode_self inum din img) (omega arith)

size_other :
    (inum j : ℕ) (din : Memory) (img : Image)
    → j ≢ inum
    → size_of j (with_dinode inum din img) ≡ size_of j img
size_other inum j din img ne =
    load32-ext (dinode j (with_dinode inum din img)) (dinode j img) 16 dinode_size
      (λ i lt. dinode_other inum j din img i lt ne) (omega arith)

-- What an append of `n` bytes, at most a block, leaves.
pub record Appended (inum n : ℕ) (img img' : Image) : Type 0 where
  pub kind : ℕ → Bool
  pub sound : Sound kind img'
  pub most : img'.freeblock ≤ img.freeblock + 4
  pub freeinode_kept : img'.freeinode ≡ img.freeinode
  pub size_now : size_of inum img' ≡ size_of inum img + n
  pub others : (j : ℕ) → j < room → j ≢ inum → size_of j img' ≡ size_of j img

pub Addresses-size :
    (kind : ℕ → Bool) (free off : ℕ) (din : Memory)
    → Addresses kind free din
    → Addresses kind free (store32 din 16 off)
Addresses-size kind free off din v i lt =
    rw (load-store_ne din 16 (20 + 4 * i) off (inl (omega arith))) (v i lt)

pub iappend-Appended :
    (kind : ℕ → Bool) (inum : ℕ) (p : Memory) (n : ℕ) (img : Image)
    → Sound kind img
    → inum < room
    → ((i : ℕ) → p i < 256)
    → n ≤ bsize
    → size_of inum img + n ≤ maxfile * bsize
    → img.freeblock + 4 ≤ fssize
    → Returns (Appended inum n img) (iappend inum p n img)
unfolding iappend
iappend-Appended kind inum p n img v lt small short fits budget =
    let off = size_of inum img in
    let two : rounds off n ≤ 2 = ground (arith, short) in
    let start : Filled img 0 (dinode inum img) img = record {
      kind = kind;
      sound = v;
      addresses = v.inodes inum lt;
      small = λ i. v.bytes (iblock inum) (dinode_at inum + i);
      most = omega arith;
      freeinode_kept = refl;
      kept = λ s s_lt. refl;
    } in
    rw (iappend, rinode_lem inum img lt)
      (Returns-bind
        (append_loop-Filled img n n off 0 p 0 (dinode inum img) img (omega arith) start small fits
          (omega (arith, two, budget)))
        (λ (off', din, img') (e, f).
          let din' = store32 din 16 off' in
          let small' : (i : ℕ) → din' i < 256 = λ i. store32-lt din 16 off' i f.small in
          rw (winode_lem inum din' img' lt) (
            returns (record {
              kind = f.kind;
              sound =
                  Sound-winode f.kind img' inum din' f.sound lt
                    (Addresses-size f.kind img'.freeblock off' din f.addresses) small';
              most = omega (arith, f.most, two);
              freeinode_kept = f.freeinode_kept;
              size_now =
                  size_written inum din' img'
                  ∙ load-store_self din 16 off' (omega (arith, e, fits))
                  ∙ e;
              others = λ j j_lt ne.
                  size_other inum j din' img' ne
                  ∙ ap (λ (s : Memory). load32 (λ i. s (dinode_at j + i)) 16)
                      (f.kept (iblock j) (omega (arith, j_lt)));
            }))))

new_dinode-lt : (type i : ℕ) → new_dinode type i < 256
unfolding store16 store32
new_dinode-lt type i = ground arith

new_dinode_addr : (type a : ℕ) → 20 ≤ a → load32 (new_dinode type) a ≡ 0
unfolding store16 store32 load32
new_dinode_addr type a le = ground arith

new_dinode_size : (type : ℕ) → load32 (new_dinode type) 16 ≡ 0
unfolding store16 store32 load32
new_dinode_size type = ground arith

-- What the allocation of an inode leaves.
pub record Created (img : Image) (inum : ℕ) (img' : Image) : Type 0 where
  pub kind : ℕ → Bool
  pub sound : Sound kind img'
  pub number : inum ≡ img.freeinode
  pub freeblock_kept : img'.freeblock ≡ img.freeblock
  pub next : img'.freeinode ≡ img.freeinode + 1
  pub size_now : size_of inum img' ≡ 0
  pub others : (j : ℕ) → j ≢ inum → size_of j img' ≡ size_of j img

pub ialloc-Created :
    (kind : ℕ → Bool) (type : ℕ) (img : Image)
    → Sound kind img
    → img.freeinode < room
    → Returns (λ (inum, img'). Created img inum img') (ialloc type img)
unfolding ialloc
ialloc-Created kind type img v lt =
    let inum = img.freeinode in
    let img1 = record img { freeinode = inum + 1 } in
    let v1 : Sound kind img1 = record {
      superblock = v.superblock;
      low = v.low;
      high = v.high;
      inodes = v.inodes;
      tables = v.tables;
      unused = v.unused;
      bytes = v.bytes;
    } in
    rw (ialloc, winode_lem inum (new_dinode type) img1 lt)
      (returns (record {
        kind = kind;
        sound =
            Sound-winode kind img1 inum (new_dinode type) v1 lt
              (λ i i_lt. inl (new_dinode_addr type (20 + 4 * i) (omega arith)))
              (new_dinode-lt type);
        number = refl;
        freeblock_kept = refl;
        next = refl;
        size_now = size_written inum (new_dinode type) img1 ∙ new_dinode_size type;
        others = λ j ne. size_other inum j (new_dinode type) img1 ne;
      }))
