-- ===== src/Ide/Fs.antt =====
-- A.ide/include/fs.h, the format of the disk, and A.ide/src/fs.c in the modules below.
-- The data of a block is what `bread` finds: that of its buffer, or that of the disk. A `bread`, the changes through
-- `bp->data` and the `brelse` that follows are a change of that block. It is not written to the disk, so it lasts
-- until the buffer is recycled. The model is that of a run in which no changed buffer is recycled: one that uses at
-- most 30 blocks, as many as there are buffers, after all buffers agreed with the disk. Buffers has this step over
-- the buffers themselves, Bcache the search for them.
pub mod Blocks
pub mod Inode
pub mod Content
pub mod Icache
pub mod Dir
pub mod Namex
pub mod Files
mod Examples
pub mod Bitmap
pub mod Alloc
pub mod Claim
pub mod File
pub mod Buffers
use class_example.Prelude.{ℕ, ◌+◌, ◌*◌, ◌/◌, ◌%◌, if◌then◌else◌, ◌==◌, ◌&&◌}
use class_example.Memory.{Memory, load32}

abbrev pub rootino : ℕ
rootino = 1

-- `ROOTDEV`
abbrev pub rootdev : ℕ
rootdev = 1

abbrev pub bsize : ℕ
bsize = 512

abbrev pub ndirect : ℕ
ndirect = 10

abbrev pub nindirect : ℕ
nindirect = 128

abbrev pub maxfile : ℕ
maxfile = ndirect + nindirect

-- `IPB`, with 64 bytes for a `struct dinode`.
abbrev pub ipb : ℕ
ipb = 8

abbrev pub dinode_size : ℕ
dinode_size = 64

abbrev pub iblock : ℕ → ℕ
iblock i = i / ipb + 2

abbrev pub bpb : ℕ
bpb = bsize * 8

abbrev pub bblock : (b ninodes : ℕ) → ℕ
bblock b ninodes = b / bpb + ninodes / ipb + 3

-- `struct superblock`
pub record Superblock : Type 0 where
  pub size : ℕ
  pub nblocks : ℕ
  pub ninodes : ℕ
  pub nlog : ℕ

-- The blocks of the devices as `bread` finds them, by device and block number.
abbrev pub Blocks : Type 0
Blocks = ℕ → ℕ → Memory

-- `bread` of a block, a change of its data by `f`, and `brelse`, while the buffer of the block is not recycled, nor
-- for it a buffer that was changed.
abbrev pub edit : (dev bno : ℕ) → (Memory → Memory) → Blocks → Blocks
edit dev bno f blocks d b = if d == dev && b == bno then f (blocks d b) else blocks d b
