-- ===== src/Ide/Fs/Icache.antt =====
-- The cache of in-memory inodes: `iget`, `idup`, `iput`, `iunlockput` and `ialloc` of A.ide/src/fs.c. A pointer
-- to an inode is its index in `icache.inode`; `none` for an index outside it.
pub mod Get
use class_example.Prelude.{
  ℕ, zero, suc, ◌+◌, ◌-◌, ◌*◌, ◌%◌, Bool, Option, none, some, List, [], ◌∷◌, ◌>>=◌, if◌then◌else◌,
  ◌==◌, ◌&&◌, ltb, is_positive, increment, decrement, get_elem?, set, replicate,
}
use class_example.Memory.{Memory, memset}
use class_example.Memory.Words.{load16, store16}
use class_example.Ide.Fs.{Blocks, edit, iblock, dinode_size}
use class_example.Ide.Fs.Blocks.{readsb}
use class_example.Ide.Fs.Inode.{Inode, is_locked, lock_flag, is_valid, dinode_at, iupdate, iunlock}
use class_example.Ide.Fs.Content.{itrunc}

-- `NINODE`
abbrev pub ninode : ℕ
ninode = 50

-- The blocks, and `icache`.
pub record Fs : Type 0 where
  pub blocks : Blocks
  pub icache : List Inode

abbrev pub set_inode : ℕ → Inode → Fs → Fs
set_inode i ip s = record s { icache = set s.icache i ip }

-- `ip->ref > 0 && ip->dev == dev && ip->inum == inum`
abbrev pub is_cached : (dev inum : ℕ) → Inode → Bool
is_cached dev inum ip = is_positive ip.ref && (ip.dev == dev && ip.inum == inum)

-- `if(empty == 0 && ip->ref == 0) empty = ip`
abbrev pub remember : Option ℕ → ℕ → Inode → Option ℕ
remember (some e) i ip = some e
remember none i ip = if ip.ref == 0 then some i else none

-- The loop of `iget` from entry `i` on: the cached entry, and the empty slot that it remembers.
unfoldable pub iget_scan : (dev inum : ℕ) → List Inode → (i : ℕ) → Option ℕ → Option ℕ × Option ℕ
iget_scan dev inum [] i empty = (none, empty)
iget_scan dev inum (ip ∷ ips) i empty =
    let rest = iget_scan dev inum ips (i + 1) (remember empty i ip) in
    if is_cached dev inum ip then (some i, empty) else rest

-- The inode in a recycled entry; what `ilock` reads from the disk is still that of the old one.
abbrev pub recycled : (dev inum : ℕ) → Inode → Inode
recycled dev inum ip = record ip { dev = dev; inum = inum; ref = 1; flags = 0 }

abbrev pub take_entry : (dev inum : ℕ) → Option ℕ × Option ℕ → Fs → Option (Option ℕ × Fs)
take_entry dev inum (some i, _) s = do
  ip ← get_elem? s.icache i
  some (some i, set_inode i (record ip { ref = increment ip.ref }) s)
take_entry dev inum (none, none) s = some (none, s)
take_entry dev inum (none, some i) s = do
  ip ← get_elem? s.icache i
  some (some i, set_inode i (recycled dev inum ip) s)

-- The entry, `none` inside for the null pointer.
unfoldable pub iget : (dev inum : ℕ) → Fs → Option (Option ℕ × Fs)
iget dev inum s = take_entry dev inum (iget_scan dev inum s.icache 0 none) s

unfoldable pub idup : ℕ → Fs → Option (ℕ × Fs)
idup i s = do
  ip ← get_elem? s.icache i
  some (i, set_inode i (record ip { ref = increment ip.ref }) s)

-- The inode, whose last reference goes and which no directory names, is truncated and freed.
abbrev pub release : Inode → Blocks → Inode × Blocks
release ip blocks =
    let (ip1, blocks1) = itrunc (record ip { flags = lock_flag ip.flags }) blocks in
    let ip2 = record ip1 { type = 0 } in (record ip2 { flags = 0 }, iupdate ip2 blocks1)

unfoldable pub iput : ℕ → Fs → Option Fs
iput i s = do
  ip ← get_elem? s.icache i
  if ip.ref == 1 && (is_valid ip.flags && ip.nlink == 0)
      then if is_locked ip.flags
        then some s
        else (let (ip', blocks') = release ip s.blocks in
            some (
              set_inode i (record ip' { ref = decrement ip'.ref }) (record s { blocks = blocks' })))
      else some (set_inode i (record ip { ref = decrement ip.ref }) s)

unfoldable pub iunlockput : ℕ → Fs → Option Fs
iunlockput i s = do ip ← get_elem? s.icache i; iput i (set_inode i (iunlock ip) s)

-- `memset(dip, 0, sizeof(*dip)); dip->type = type`
abbrev pub fresh_dinode : (at type : ℕ) → Memory → Memory
fresh_dinode at type bytes = store16 (memset bytes at 0 dinode_size) at type

-- The loop of `ialloc` from `inum` on, `left` rounds: the first inode of type 0.
unfoldable pub free_inode : (left inum dev : ℕ) → Blocks → Option ℕ
free_inode zero inum dev blocks = none
free_inode (suc left) inum dev blocks =
    let rest = free_inode left (inum + 1) dev blocks in
    if load16 (blocks dev (iblock inum)) (dinode_at inum) == 0 then some inum else rest

unfoldable pub ialloc : (dev type : ℕ) → Fs → Option (Option ℕ × Fs)
ialloc dev type s = elim (free_inode ((readsb dev s.blocks).ninodes - 1) 1 dev s.blocks) [
  | none ↦ some (none, s)
  | some inum ↦
      iget dev inum
        (record s { blocks = edit dev (iblock inum) (fresh_dinode (dinode_at inum) type) s.blocks })
]
