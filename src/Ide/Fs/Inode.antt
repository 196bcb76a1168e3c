-- ===== src/Ide/Fs/Inode.antt =====
-- In-memory inodes and their copies on the disk: `struct inode` of A.ide/include/file.h, `struct dinode` of
-- include/fs.h, and `iupdate`, `ilock`, `iunlock` and `stati` of src/fs.c. A `short` is its 16-bit pattern.
pub mod Copy
use class_example.Prelude.{
  ℕ, ◌+◌, ◌*◌, ◌/◌, ◌%◌, Bool, Option, none, some, List, if◌then◌else◌, ◌==◌, ◌||◌, not,
  is_positive,
}
use class_example.Memory.{Memory, load32, store32}
use class_example.Memory.Words.{load16, store16, load_words, store_words}
use class_example.Ide.Fs.{Blocks, edit, iblock, ipb, dinode_size}

pub record Inode : Type 0 where
  pub dev : ℕ
  pub inum : ℕ
  pub ref : ℕ
  pub flags : ℕ
  pub type : ℕ
  pub major : ℕ
  pub minor : ℕ
  pub nlink : ℕ
  pub ownerid : ℕ
  pub groupid : ℕ
  pub mode : ℕ
  pub size : ℕ
  pub addrs : List ℕ

-- `I_BUSY` is the lowest bit of the flags and `I_VALID` the next one.
abbrev pub is_locked : ℕ → Bool
is_locked flags = flags % 2 == 1

abbrev pub lock_flag : ℕ → ℕ
lock_flag flags = flags / 2 * 2 + 1

abbrev pub unlock_flag : ℕ → ℕ
unlock_flag flags = flags / 2 * 2

abbrev pub is_valid : ℕ → Bool
is_valid flags = flags / 2 % 2 == 1

abbrev pub valid_flag : ℕ → ℕ
valid_flag flags = flags / 4 * 4 + 2 + flags % 2

-- Where inode `inum` begins in its block.
abbrev pub dinode_at : ℕ → ℕ
dinode_at inum = inum % ipb * dinode_size

-- The assignments of `iupdate` to `*dip`.
unfoldable pub put_dinode : (at : ℕ) → Inode → Memory → Memory
put_dinode at ip bytes =
    let d1 = store16 bytes at ip.type in
    let d2 = store16 d1 (at + 2) ip.major in
    let d3 = store16 d2 (at + 4) ip.minor in
    let d4 = store16 d3 (at + 6) ip.nlink in
    let d5 = store32 d4 (at + 16) ip.size in
    let d6 = store32 d5 (at + 12) ip.mode in store_words d6 (at + 20) ip.addrs

unfoldable pub iupdate : Inode → Blocks → Blocks
iupdate ip = edit ip.dev (iblock ip.inum) (put_dinode (dinode_at ip.inum) ip)

-- The assignments of `ilock` from `*dip`.
unfoldable pub get_dinode : (at : ℕ) → Memory → Inode → Inode
get_dinode at bytes ip = record ip {
  type = load16 bytes at;
  major = load16 bytes (at + 2);
  minor = load16 bytes (at + 4);
  nlink = load16 bytes (at + 6);
  size = load32 bytes (at + 16);
  ownerid = load16 bytes (at + 8);
  groupid = load16 bytes (at + 10);
  mode = load32 bytes (at + 12);
  addrs = load_words bytes (at + 20) 11;
}

-- `none` when the inode is locked already: the wait for it never ends.
unfoldable pub ilock : Blocks → Inode → Option Inode
ilock blocks ip =
    if not (is_positive ip.ref)
    then some ip
    else if is_locked ip.flags
    then none
    else (let held = record ip { flags = lock_flag ip.flags } in
        let bytes = blocks ip.dev (iblock ip.inum) in
        let read = get_dinode (dinode_at ip.inum) bytes held in
        some (if is_valid ip.flags then held else record read { flags = valid_flag held.flags }))

unfoldable pub iunlock : Inode → Inode
iunlock ip =
    if not (is_locked ip.flags) || not (is_positive ip.ref)
    then ip
    else record ip { flags = unlock_flag ip.flags }

-- `struct stat`
pub record Stat : Type 0 where
  pub type : ℕ
  pub dev : ℕ
  pub ino : ℕ
  pub nlink : ℕ
  pub ownerid : ℕ
  pub groupid : ℕ
  pub mode : ℕ
  pub size : ℕ

unfoldable pub stati : Inode → Stat
stati ip = record {
  dev = ip.dev;
  ino = ip.inum;
  type = ip.type;
  nlink = ip.nlink;
  size = ip.size;
  ownerid = ip.ownerid;
  groupid = ip.groupid;
  mode = ip.mode;
}
