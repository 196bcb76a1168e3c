-- ===== src/Ide/Fs/Dir.antt =====
-- Directories: `namecmp`, `dirlookup` and `dirlink` of A.ide/src/fs.c. A directory entry is two bytes of inode
-- number and 14 bytes of name; the local variable `de` lies at address 0 of a memory of its own.
use class_example.Prelude.{
  ℕ, zero, suc, ◌+◌, ◌/◌, Bool, true, false, not, Option, none, some, List, [], ◌∷◌, ◌>>=◌,
  if◌then◌else◌, ◌==◌, ltb, minus_one, get_or, get_elem?,
}
use class_example.Memory.{Memory}
use class_example.Memory.Words.{load16, store16}
use class_example.Ide.Path.{dirsiz}
use class_example.Ide.Fs.Inode.{Inode}
use class_example.Ide.Fs.Content.{Io, Devices, readi, writei}
use class_example.Ide.Fs.Icache.{Fs, set_inode, iget, iput}

-- `T_DIR`
abbrev pub t_dir : ℕ
t_dir = 1

-- `sizeof(struct dirent)`
abbrev pub dirent_size : ℕ
dirent_size = 16

-- `strncmp(s, t, n) == 0` from position `i` on; both are bytes behind a pointer.
unfoldable pub names_equal : (n i : ℕ) → (s t : ℕ → ℕ) → Bool
names_equal zero i s t = true
names_equal (suc n) i s t =
    let rest = names_equal n (i + 1) s t in
    if s i == t i then if s i == 0 then true else rest else false

-- `namecmp(name, de.name) == 0`, with the bytes that `skipelem` has put into `name`.
abbrev pub is_named : (name : List ℕ) → Memory → Bool
is_named name de = names_equal dirsiz 0 (λ i. get_or name i 0) (λ i. de (2 + i))

-- `strncpy(de.name, name, DIRSIZ)`: the bytes up to NUL, and NULs behind them.
unfoldable pub copy_name : (n i : ℕ) → List ℕ → Memory → Memory
copy_name zero i name de = de
copy_name (suc n) i [] de = copy_name n (i + 1) [] (λ a. if a == 2 + i then 0 else de a)
copy_name (suc n) i (c ∷ cs) de =
    copy_name n (i + 1) (if c == 0 then [] else cs) (λ a. if a == 2 + i then c else de a)

module _ (devsw : Devices) where
  -- The loop of `dirlookup` from `off` on: the inode number and the offset of the entry.
  unfoldable pub dir_scan : (fuel off : ℕ) → List ℕ → Io → Option (ℕ × ℕ) × Io
  dir_scan zero off name io = (none, io)
  dir_scan (suc fuel) off name io =
      let (r, io1) = readi devsw 0 off dirent_size io in
      let inum = load16 io1.memory 0 in
      let rest = dir_scan fuel (off + dirent_size) name io1 in
      if not (ltb off io.inode.size)
      then (none, io)
      else if not (r == dirent_size)
      then (none, io1)
      else if inum == 0
      then rest
      else if is_named name io1.memory
      then (some (inum, off), io1)
      else rest

  -- The loop of `dirlink` from `off` on: where it stops, `none` when a read fails.
  unfoldable pub empty_scan : (fuel off : ℕ) → Io → Option ℕ × Io
  empty_scan zero off io = (some off, io)
  empty_scan (suc fuel) off io =
      let (r, io1) = readi devsw 0 off dirent_size io in
      let rest = empty_scan fuel (off + dirent_size) io1 in
      if not (ltb off io.inode.size)
      then (some off, io)
      else if not (r == dirent_size)
      then (none, io1)
      else if load16 io1.memory 0 == 0
      then (some off, io1)
      else rest

  -- One round for each entry, and one to see the end.
  abbrev pub rounds : Inode → ℕ
  rounds dp = dp.size / dirent_size + 2

  -- The inode and the offset of the entry; `none` inside for the null pointer.
  unfoldable pub dirlookup : (dp : ℕ) → List ℕ → Fs → Option ((Option ℕ × ℕ) × Fs)
  dirlookup dp name s = do
    ip ← get_elem? s.icache dp
    let (hit, io) =
        dir_scan (rounds ip) 0 name (record { inode = ip; blocks = s.blocks; memory = λ a. 0 })
    let s' = record (set_inode dp io.inode s) { blocks = io.blocks }
    if not (ip.type == t_dir) then some ((none, 0), s) else elim hit [
      | none ↦ some ((none, 0), s')
      | some (inum, off) ↦ (do (p, s2) ← iget io.inode.dev inum s'; some ((p, off), s2))
    ]

  -- The new entry is written over the first empty one, or behind the last one.
  abbrev pub put_entry : (dp off : ℕ) → List ℕ → (inum : ℕ) → Io → Fs → ℕ × Fs
  put_entry dp off name inum io s =
      let de = store16 (copy_name dirsiz 0 name io.memory) 0 inum in
      let (r, io') = writei devsw 0 off dirent_size (record io { memory = de }) in
      (
        if r == dirent_size then 0 else minus_one,
        record (set_inode dp io'.inode s) { blocks = io'.blocks },
      )

  unfoldable pub dirlink : (dp : ℕ) → List ℕ → (inum : ℕ) → Fs → Option (ℕ × Fs)
  dirlink dp name inum s = do
    ((hit, at), s1) ← dirlookup dp name s
    elim hit [
      | some i ↦ (do s2 ← iput i s1; some (minus_one, s2))
      | none ↦ (do
        ip ← get_elem? s1.icache dp
        let (place, io) =
            empty_scan (rounds ip) 0 (record { inode = ip; blocks = s1.blocks; memory = λ a. 0 })
        let s2 = record (set_inode dp io.inode s1) { blocks = io.blocks }
        elim place [
          | none ↦ some (minus_one, s2)
          | some off ↦ some (put_entry dp off name inum io s2)
        ])
    ]
