-- ===== src/Ide/Mkfs.antt =====
-- A.ide/tools/mkfs.c: the program that makes the image of the disk. The image is a file of `FSSIZE` sectors; the
-- host's calls for it succeed inside this file, and a read behind its end, like an assertion that fails, ends the
-- program: `none`. `xshort` and `xint` put numbers into the byte order of `load32` and `store32`.
-- A file of the host is its name and what the calls of `read` return, each at most 512 bytes.
pub mod Sound
pub mod Append
pub mod Grow
pub mod Inodes
pub mod Fill
pub mod Bitmap
pub mod Disk
mod Examples
use class_example.Prelude.{
  ℕ, zero, suc, ◌+◌, ◌-◌, ◌*◌, ◌/◌, ◌%◌, Bool, true, false, not, Option, none, some, List, [], ◌∷◌,
  ◌>>=◌, if◌then◌else◌, ◌==◌, ◌&&◌, ◌||◌, ltb, leb, min,
}
use class_example.Memory.{Memory, load32, store32}
use class_example.Memory.Words.{store16}
use class_example.Ide.Path.{slash, dirsiz}
use class_example.Ide.Fs.{bsize, ndirect, nindirect, maxfile, ipb, iblock, dinode_size, rootino}
use class_example.Ide.Fs.Blocks.{mark}
use class_example.Ide.Fs.Inode.{dinode_at}
use class_example.Ide.Fs.Content.{copy}
use class_example.Ide.Fs.Dir.{t_dir, dirent_size, copy_name}
use class_example.Ide.Drive.{fssize}

-- `NINODES`
abbrev pub ninodes : ℕ
ninodes = 200

abbrev pub nbitmap : ℕ
nbitmap = fssize / (bsize * 8) + 1

abbrev pub ninodeblocks : ℕ
ninodeblocks = ninodes / ipb + 1

-- `LOGSIZE`
abbrev pub nlog : ℕ
nlog = 30

abbrev pub nmeta : ℕ
nmeta = 2 + ninodeblocks + nbitmap

-- `T_FILE`
abbrev pub t_file : ℕ
t_file = 2

-- The sectors of the image, `freeinode` and `freeblock`.
pub record Image : Type 0 where
  pub sectors : ℕ → Memory
  pub freeinode : ℕ
  pub freeblock : ℕ

abbrev pub zeroes : Memory
zeroes i = 0

abbrev pub wsect : (sec : ℕ) → Memory → Image → Image
wsect sec buf img = record img { sectors = λ s i. if s == sec then buf i else img.sectors s i }

abbrev pub rsect : (sec : ℕ) → Image → Option Memory
rsect sec img = if leb fssize sec then none else some (img.sectors sec)

-- The 64 bytes of `struct dinode` are a memory of their own.
unfoldable pub winode : (inum : ℕ) → Memory → Image → Option Image
winode inum din img = do
  buf ← rsect (iblock inum) img
  some (wsect (iblock inum) (copy din 0 buf (dinode_at inum) dinode_size) img)

unfoldable pub rinode : (inum : ℕ) → Image → Option Memory
rinode inum img = do buf ← rsect (iblock inum) img; some (λ i. buf (dinode_at inum + i))

-- The inode that `ialloc` writes.
abbrev pub new_dinode : (type : ℕ) → Memory
new_dinode type =
    let d1 = store16 zeroes 0 type in
    let d2 = store16 d1 6 1 in
    let d3 = store32 d2 16 0 in
    let d4 = store16 d3 8 99 in let d5 = store16 d4 10 1 in store32 d5 12 0x700

unfoldable pub ialloc : (type : ℕ) → Image → Option (ℕ × Image)
ialloc type img =
    let inum = img.freeinode in
    do img' ← winode inum (new_dinode type) (record img { freeinode = inum + 1 }); some (inum, img')

-- The loop of `balloc` from bit `i` on.
unfoldable pub mark_used : (left i : ℕ) → Memory → Memory
mark_used zero i buf = buf
mark_used (suc left) i buf = mark_used left (i + 1) (mark i buf)

unfoldable pub balloc : (used : ℕ) → Image → Option Image
balloc used img =
    if ltb used (bsize * 8)
    then some (wsect (ninodeblocks + 2) (mark_used used 0 zeroes) img)
    else none

-- `din.addrs[i]`
abbrev pub addr : Memory → ℕ → ℕ
addr din i = load32 din (20 + 4 * i)

-- Entry `i` of `din.addrs`, with a new block when there is none.
unfoldable pub take_block : (i : ℕ) → Memory × Image → Memory × Image
take_block i (din, img) =
    if addr din i == 0
    then (store32 din (20 + 4 * i) img.freeblock, record img { freeblock = img.freeblock + 1 })
    else (din, img)

-- Entry `i` of the block of addresses `table`.
unfoldable pub take_indirect : (table i : ℕ) → Image → Option (ℕ × Image)
take_indirect table i img = do
  indirect ← rsect table img
  some (
      if load32 indirect (4 * i) == 0
      then (
        img.freeblock,
        wsect table (store32 indirect (4 * i) img.freeblock)
            (record img { freeblock = img.freeblock + 1 }),
      )
      else (load32 indirect (4 * i), img))

-- The sector `x` of block `fbn` of the file.
unfoldable pub block_for : (fbn : ℕ) → Memory × Image → Option (ℕ × Memory × Image)
block_for fbn (din, img) =
    if ltb fbn ndirect
    then (let (din', img') = take_block fbn (din, img) in some (addr din' fbn, din', img'))
    else (let (din1, img1) = take_block ndirect (din, img) in
        do (x, img2) ← take_indirect (addr din1 ndirect) (fbn - ndirect) img1; some (x, din1, img2))

-- The loop of `iappend`: `n` bytes from `source` of `p` are left, and `off` is where they go. Each round writes
-- at least one byte.
unfoldable pub append_loop :
    (fuel n off source : ℕ) (p : Memory) → Memory × Image → Option (ℕ × Memory × Image)
append_loop zero n off source p (din, img) = some (off, din, img)
append_loop (suc fuel) n off source p (din, img) = elim (ltb 0 n) [
  | false ↦ some (off, din, img)
  | true ↦ elim (ltb (off / bsize) maxfile) [
    | false ↦ none
    | true ↦
        let n1 = min n ((off / bsize + 1) * bsize - off) in
        (do
          (x, din', img') ← block_for (off / bsize) (din, img)
          buf ← rsect x img'
          append_loop fuel (n - n1) (off + n1) (source + n1) p
              (din', wsect x (copy p source buf (off - off / bsize * bsize) n1) img'))
  ]
]

unfoldable pub iappend : (inum : ℕ) (p : Memory) (n : ℕ) → Image → Option Image
iappend inum p n img = do
  din ← rinode inum img
  (off, din', img') ← append_loop n n (load32 din 16) 0 p (din, img)
  winode inum (store32 din' 16 off) img'

-- A directory entry for `inum`.
abbrev pub new_dirent : (inum : ℕ) (name : List ℕ) → Memory
new_dirent inum name = copy_name dirsiz 0 name (store16 zeroes 0 inum)

-- `if (!strncmp(name, ".fs/", 4)) name += 4`
abbrev pub base_name : List ℕ → List ℕ
base_name (a ∷ b ∷ c ∷ d ∷ rest) =
    if a == b'.' && (b == b'f' && (c == b's' && d == slash)) then rest else a ∷ b ∷ c ∷ d ∷ rest
base_name name = name

-- `index(name, '/') != 0`
unfoldable pub has_slash : List ℕ → Bool
has_slash [] = false
has_slash (c ∷ cs) = let rest = has_slash cs in c == slash || rest

-- The loop over what `read` returns.
unfoldable pub append_chunks : (inum : ℕ) → List (Memory × ℕ) → Image → Option Image
append_chunks inum [] img = some img
append_chunks inum ((buf, cc) ∷ chunks) img = do
  img' ← iappend inum buf cc img
  append_chunks inum chunks img'

-- One file of the command line.
unfoldable pub add_file : List ℕ × List (Memory × ℕ) → Image → Option Image
add_file (arg, chunks) img = if has_slash (base_name arg) then none else (do
  (inum, img1) ← ialloc t_file img
  img2 ← iappend rootino (new_dirent inum (base_name arg)) dirent_size img1
  append_chunks inum chunks img2)

unfoldable pub add_files : List (List ℕ × List (Memory × ℕ)) → Image → Option Image
add_files [] img = some img
add_files (file ∷ files) img = do img' ← add_file file img; add_files files img'

-- `memmove(buf, &sb, sizeof(sb))`
abbrev pub super_block : Memory
super_block =
    let s1 = store32 zeroes 0 fssize in
    let s2 = store32 s1 4 (fssize - nlog - nmeta) in
    let s3 = store32 s2 8 ninodes in store32 s3 12 nlog

-- The image with nothing but the superblock.
abbrev pub blank : Image
blank = wsect 1 super_block (record { sectors = λ s. zeroes; freeinode = 1; freeblock = nmeta })

-- The size of the root directory is rounded up to whole blocks, at least one more byte than it had.
abbrev pub fix_root : Image → Option Image
fix_root img = do
  din ← rinode rootino img
  winode rootino (store32 din 16 ((load32 din 16 / bsize + 1) * bsize)) img

-- The files after the root directory, its size, and the bitmap.
unfoldable pub finish : List (List ℕ × List (Memory × ℕ)) → Image → Option Image
finish files img = do img1 ← add_files files img; img2 ← fix_root img1; balloc img2.freeblock img2

-- The root directory, whose inode has to be `ROOTINO`, and all that follows.
unfoldable pub fill_root : (root : ℕ) → List (List ℕ × List (Memory × ℕ)) → Image → Option Image
fill_root root files img = if not (root == rootino) then none else (do
  img1 ← iappend root (new_dirent root (b'.' ∷ [])) dirent_size img
  img2 ← iappend root (new_dirent root (b'.' ∷ b'.' ∷ [])) dirent_size img1
  finish files img2)

unfoldable pub mkfs : List (List ℕ × List (Memory × ℕ)) → Option Image
mkfs files = do (root, img) ← ialloc t_dir blank; fill_root root files img
