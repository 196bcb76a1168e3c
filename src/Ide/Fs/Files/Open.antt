-- ===== src/Ide/Fs/Files/Open.antt =====
-- An open regular file of A.ide/src/file.c, and `ilock` and `iunlock` around an operation on it.
use class_example.Prelude.{
  ℕ, ◌+◌, ◌*◌, ◌%◌, ◌^◌, ◌≤◌, ◌<◌, ◌≡◌, ◌≢◌, refl, true, false, some, arith, if◌then◌else◌, ltb,
  is_positive, get_elem?,
}
use class_example.Ide.Fs.{Blocks, bsize, iblock}
use class_example.Ide.Fs.Inode.{Inode, is_locked, lock_flag, unlock_flag, is_valid, ilock, iunlock}
use class_example.Ide.Fs.Content.{t_dev}
use class_example.Ide.Fs.File.{table_of, IsMapped}
use class_example.Ide.Fs.Files.{is_inode, File, Files, move_on}

-- Entry `i` is the open file `f` of the regular file `ip`, which is unlocked and has been read, with the first
-- `k` blocks at `address`, away from the block of its inode.
pub record IsOpen (address : ℕ → ℕ) (k i : ℕ) (f : File) (ip : Inode) (s : Files) : Type 0 where
  pub file_at : get_elem? s.ftable i ≡ some f
  pub of_inode : is_inode f.type ≡ true
  pub inode_at : get_elem? s.fs.icache f.ip ≡ some ip
  pub in_use : is_positive ip.ref ≡ true
  pub free : ip.flags % 2 ≡ 0
  pub valid : is_valid ip.flags ≡ true
  pub regular : ip.type ≢ t_dev
  pub mapped : IsMapped ip s.fs.blocks address k
  pub off_inode : (bn : ℕ) → bn < k → address bn ≢ iblock ip.inum
  pub table_off : table_of ip ≢ iblock ip.inum
  pub in_file : f.off ≤ ip.size
  pub held : ip.size ≤ k * bsize

-- The inode inside `ilock` and `iunlock`.
abbrev pub hold : Inode → Inode
hold ip = record ip { flags = lock_flag ip.flags }

abbrev pub grown : Inode → ℕ → Inode
grown ip end = record ip { size = if ltb ip.size end then end else ip.size }

-- Flags and size make no difference to where the blocks are.
pub same-IsMapped :
    (ip : Inode) (blocks : Blocks) (address : ℕ → ℕ) (k flags size : ℕ)
    → IsMapped ip blocks address k
    → IsMapped (record ip { flags = flags; size = size }) blocks address k
same-IsMapped ip blocks address k flags size v = record {
  count = v.count;
  nonzero = v.nonzero;
  direct = v.direct;
  table = v.table;
  listed = v.listed;
  apart = v.apart;
  off_table = v.off_table;
}

pub ilock-hold :
    (blocks : Blocks) (ip : Inode)
    → is_positive ip.ref ≡ true
    → ip.flags % 2 ≡ 0
    → is_valid ip.flags ≡ true
    → ilock blocks ip ≡ some (hold ip)
unfolding ilock
ilock-hold blocks ip used free valid =
    let unlocked : is_locked ip.flags ≡ false = ground (arith, free) in
    rw (ilock, used, unlocked, valid) refl

pub iunlock-hold :
    (ip : Inode) (size : ℕ)
    → is_positive ip.ref ≡ true
    → ip.flags % 2 ≡ 0
    → iunlock (record (hold ip) { size = size }) ≡ record ip { size = size }
unfolding iunlock
iunlock-hold ip size used free =
    let held : is_locked (lock_flag ip.flags) ≡ true = ground (arith, free) in
    let back : unlock_flag (lock_flag ip.flags) ≡ ip.flags = omega (arith, free) in
    rw (iunlock, used, held, back) refl

pub move_on_by :
    (f : File) (n : ℕ) → 0 < n → f.off + n < 2 ^ 31 → move_on n f ≡ record f { off = f.off + n }
move_on_by f n pos small =
    let more : is_positive n ≡ true = ground (arith, pos, small) in
    let e : (f.off + n) % 2 ^ 32 ≡ f.off + n = omega (arith, small) in rw (more, e) refl
