-- ===== src/Ide/Fs/Namex/Unread.antt =====
-- `namei` of A.ide/src/fs.c right after the kernel has started, when no inode is cached.
use class_example.Prelude.{ℕ, ◌≡◌, refl, none, some, List, [], ◌∷◌, replicate}
use class_example.Ide.Path.{name_bytes, slash}
use class_example.Ide.Path.Names.{IsElement, joined, skipelem-joined, skipelem-slashes}
use class_example.Ide.Fs.{Blocks}
use class_example.Ide.Fs.Inode.{Inode}
use class_example.Ide.Fs.Content.{Devices}
use class_example.Ide.Fs.Icache.{Fs, iget, iget_scan, recycled, ninode}
use class_example.Ide.Fs.Namex.{walk, namex, namei}

-- What zeroed memory holds.
abbrev pub zero_inode : Inode
zero_inode = record {
  dev = 0;
  inum = 0;
  ref = 0;
  flags = 0;
  type = 0;
  major = 0;
  minor = 0;
  nlink = 0;
  ownerid = 0;
  groupid = 0;
  mode = 0;
  size = 0;
  addrs = replicate 11 0;
}

abbrev pub started : Blocks → Fs
started blocks = record { blocks = blocks; icache = replicate ninode zero_inode }

-- The root has the first entry then, and has not been read from the disk.
abbrev pub with_root : Blocks → Fs
with_root blocks = record {
  blocks = blocks;
  icache = recycled 1 1 zero_inode ∷ replicate 49 zero_inode;
}

iget_root : (blocks : Blocks) → iget 1 1 (started blocks) ≡ some (some 0, with_root blocks)
unfolding iget iget_scan
iget_root blocks = refl

-- After the start `namei` of slashes alone returns the entry of the root.
pub namei_root :
    (devsw : Devices) (blocks : Blocks) (n : ℕ)
    → namei devsw (replicate n slash) (started blocks) ≡ some (some 0, [], with_root blocks)
unfolding namei namex walk
namei_root devsw blocks n = rw (iget_root blocks, walk, skipelem-slashes n) refl

-- After the start `namei` of a path with at least one element returns null, whatever the disk holds: the type
-- of the root is tested although it has not been read.
pub namei_unread :
    (devsw : Devices) (blocks : Blocks) (leading : ℕ) (e : List ℕ) (es : List (ℕ × List ℕ))
    (trailing : ℕ)
    → IsElement e
    → namei devsw (joined leading e es trailing) (started blocks)
      ≡ some (none, name_bytes e, with_root blocks)
unfolding namei namex walk
namei_unread devsw blocks leading e es trailing h =
    rw (iget_root blocks, walk, skipelem-joined leading e es trailing h) refl
