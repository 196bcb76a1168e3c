-- ===== src/Ide/Fs/Buffers.antt =====
-- `bread`, a change and `brelse` of a block over the buffers of A.ide/src/bio.c, when no buffer is busy in between.
-- A.ide/src/fs.c never calls `bwrite` and never sets B_DIRTY, so a change is only in its buffer, and it is lost when
-- `bget` recycles the buffer for another block.
pub mod Lasting
pub mod Front
pub mod Run
use class_example.Prelude.{ℕ, Bool, true, false, ◌&&◌, ◌||◌, List, [], ◌∷◌, if◌then◌else◌, ◌==◌}
use class_example.Memory.{Memory}
use class_example.Ide.Fs.{Blocks}

-- A buffer that is not busy, with the block that it holds, and the buffers in the order of the ring, the one that
-- was used last in front.
pub record Buffer : Type 0 where
  pub dev : ℕ
  pub blockno : ℕ
  pub bytes : Memory

pub record Buffers : Type 0 where
  pub disk : Blocks
  pub ring : List Buffer

abbrev pub is_of : (dev blockno : ℕ) → Buffer → Bool
is_of dev blockno b = b.dev == dev && b.blockno == blockno

unfoldable pub is_held : (dev blockno : ℕ) → List Buffer → Bool
is_held dev blockno [] = false
is_held dev blockno (b ∷ bs) = is_of dev blockno b || is_held dev blockno bs

-- What `bread` finds: the data of the buffer of the block, or that of the disk.
unfoldable pub shown : Blocks → List Buffer → Blocks
shown disk [] d b = disk d b
shown disk (x ∷ xs) d b = if is_of d b x then x.bytes else shown disk xs d b

-- The ring without the buffer of the block, and without its last buffer.
unfoldable pub without : (dev blockno : ℕ) → List Buffer → List Buffer
without dev blockno [] = []
without dev blockno (b ∷ bs) = if is_of dev blockno b then bs else b ∷ without dev blockno bs

unfoldable pub recycle : List Buffer → List Buffer
recycle [] = []
recycle (b ∷ []) = []
recycle (b ∷ c ∷ bs) = b ∷ recycle (c ∷ bs)

-- The buffers that are not that of the block when it is in use.
abbrev pub left : (dev blockno : ℕ) → List Buffer → List Buffer
left dev blockno ring = if is_held dev blockno ring then without dev blockno ring else recycle ring

-- `bread` of a block, a change of its data by `f`, and `brelse`.
unfoldable pub change : (dev blockno : ℕ) → (Memory → Memory) → Buffers → Buffers
change dev blockno f s = record s {
  ring =
      record { dev = dev; blockno = blockno; bytes = f (shown s.disk s.ring dev blockno) }
      ∷ left dev blockno s.ring;
}

abbrev pub view : Buffers → Blocks
view s = shown s.disk s.ring
