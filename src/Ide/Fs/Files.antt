-- ===== src/Ide/Fs/Files.antt =====
-- A.ide/src/file.c: the table of open files. A pointer to a file is its index in `ftable.file`; `none` for an
-- index outside the table, and for the wait in `ilock` that never ends.
pub mod Table
pub mod Open
pub mod Saved
pub mod Write
pub mod Read
mod Examples
use class_example.Prelude.{
  ℕ, zero, suc, ◌+◌, ◌-◌, ◌*◌, ◌/◌, ◌%◌, ◌^◌, Bool, true, false, not, Option, none, some, List, [],
  ◌∷◌, ◌>>=◌, if◌then◌else◌, ◌==◌, ◌&&◌, ltb, leb, min, minus_one, is_positive, increment,
  decrement, get_elem?, set,
}
use class_example.Memory.{Memory}
use class_example.Ide.Fs.Inode.{Inode, Stat, ilock, iunlock, stati}
use class_example.Ide.Fs.Content.{Io, Devices, readi, writei}
use class_example.Ide.Fs.Icache.{Fs, set_inode, iput}

pub data FileType : Type 0 where
  fd_none : FileType
  fd_pipe : FileType
  fd_inode : FileType

abbrev pub is_inode : FileType → Bool
is_inode fd_none = false
is_inode fd_pipe = false
is_inode fd_inode = true

-- `struct file`
pub record File : Type 0 where
  pub type : FileType
  pub ref : ℕ
  pub readable : ℕ
  pub writable : ℕ
  pub pipe : ℕ
  pub ip : ℕ
  pub off : ℕ

-- The file system, `ftable.file`, and the memory of the caller.
pub record Files : Type 0 where
  pub fs : Fs
  pub ftable : List File
  pub memory : Memory

abbrev pub set_file : ℕ → File → Files → Files
set_file i f s = record s { ftable = set s.ftable i f }

-- The loop of `filealloc` from entry `i` on.
unfoldable pub free_file : List File → (i : ℕ) → Option ℕ
free_file [] i = none
free_file (f ∷ fs) i = let rest = free_file fs (i + 1) in if f.ref == 0 then some i else rest

unfoldable pub filealloc : Files → Option (Option ℕ × Files)
filealloc s = elim (free_file s.ftable 0) [
  | none ↦ some (none, s)
  | some i ↦ (do f ← get_elem? s.ftable i; some (some i, set_file i (record f { ref = 1 }) s))
]

unfoldable pub filedup : ℕ → Files → Option (Option ℕ × Files)
filedup i s = do
  f ← get_elem? s.ftable i
  if not (is_positive f.ref)
      then some (none, s)
      else some (some i, set_file i (record f { ref = increment f.ref }) s)

unfoldable pub fileclose : ℕ → Files → Option Files
fileclose i s = do
  f ← get_elem? s.ftable i
  if not (is_positive f.ref)
      then some s
      else if is_positive (decrement f.ref)
      then some (set_file i (record f { ref = decrement f.ref }) s)
      else (let s' = set_file i (record f { ref = 0; type = fd_none }) s in
          if is_inode f.type
          then (do fs' ← iput f.ip s.fs; some (record s' { fs = fs' }))
          else some s')

-- `iunlock(f->ip)` after an operation on the inode.
abbrev pub unlocked : (i : ℕ) → Files → ℕ × Io → ℕ × Files
unlocked i s (r, io) = (
  r,
  record s {
    fs = set_inode i (iunlock io.inode) (record (s.fs) { blocks = io.blocks });
    memory = io.memory;
  },
)

-- `ilock(f->ip)`, an operation on the inode, and `iunlock(f->ip)`.
abbrev pub locked : (i : ℕ) → (Io → ℕ × Io) → Files → Option (ℕ × Files)
locked i act s = do
  ip ← get_elem? s.fs.icache i
  held ← ilock s.fs.blocks ip
  some (unlocked i s (act (record { inode = held; blocks = s.fs.blocks; memory = s.memory })))

-- `if (r > 0) f->off += r`
abbrev pub move_on : ℕ → File → File
move_on r f = if is_positive r then record f { off = (f.off + r) % 2 ^ 32 } else f

-- The metadata, `none` inside when the file has no inode.
unfoldable pub filestat : ℕ → Files → Option (Option Stat × Files)
filestat i s = do
  f ← get_elem? s.ftable i
  if is_inode f.type
      then (do
        ip ← get_elem? s.fs.icache f.ip
        held ← ilock s.fs.blocks ip
        some (some (stati held), record s { fs = set_inode f.ip (iunlock held) s.fs }))
      else some (none, s)

-- `((LOGSIZE-1-1-2) / 2) * 512`
abbrev pub max_write : ℕ
max_write = (30 - 1 - 1 - 2) / 2 * 512

-- `i < n` of ints, for an `i` that is not negative.
abbrev pub is_less : (i n : ℕ) → Bool
is_less i n = ltb n (2 ^ 31) && ltb i n

module _ (devsw : Devices) where
  unfoldable pub fileread : ℕ → (addr n : ℕ) → Files → Option (ℕ × Files)
  fileread i addr n s = do
    f ← get_elem? s.ftable i
    if f.readable == 0
        then some (minus_one, s)
        else if is_inode f.type
        then (do
          (r, s') ← locked f.ip (readi devsw addr f.off n) s
          some (r, set_file i (move_on r f) s'))
        else some (minus_one, s)

  -- One `writei` of the loop.
  unfoldable pub write_part : ℕ → (addr n1 : ℕ) → Files → Option (ℕ × Files)
  write_part i addr n1 s = do
    f ← get_elem? s.ftable i
    (r, s') ← locked f.ip (writei devsw addr f.off n1) s
    some (r, set_file i (move_on r f) s')

  -- The loop of `filewrite` with `done` bytes written, with fuel; a round that writes less than it was to
  -- write ends it.
  unfoldable pub write_parts : (fuel i addr done n : ℕ) → Files → Option (ℕ × Files)
  write_parts zero i addr done n s = none
  write_parts (suc fuel) i addr done n s = elim (is_less done n) [
    | false ↦ some (if done == n then n else minus_one, s)
    | true ↦
        let n1 = min (n - done) max_write in
        (do
          (r, s') ← write_part i (addr + done) n1 s
          elim (r == n1) [
            | false ↦ some (minus_one, s')
            | true ↦ write_parts fuel i addr (done + r) n s'
          ])
  ]

  -- Each round writes at least one byte, so one round more than there are bytes is enough.
  unfoldable pub filewrite : ℕ → (addr n : ℕ) → Files → Option (ℕ × Files)
  filewrite i addr n s = do
    f ← get_elem? s.ftable i
    if f.writable == 0
        then some (minus_one, s)
        else if is_inode f.type
        then write_parts (suc n) i addr 0 n s
        else some (minus_one, s)
