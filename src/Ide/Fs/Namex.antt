-- ===== src/Ide/Fs/Namex.antt =====
-- `namex`, `namei` and `nameiparent` of A.ide/src/fs.c. A null pointer for the root is followed as in C, which
-- is undefined: `none`.
pub mod Unread
use class_example.Prelude.{
  ℕ, zero, suc, ◌+◌, Bool, true, false, not, Option, none, some, List, [], ◌∷◌, ◌>>=◌,
  if◌then◌else◌, ◌==◌, ◌&&◌, get_elem?, length,
}
use class_example.Ide.Path.{skipelem}
use class_example.Ide.Fs.{rootdev, rootino}
use class_example.Ide.Fs.Inode.{Inode}
use class_example.Ide.Fs.Content.{Devices}
use class_example.Ide.Fs.Icache.{Fs, iget, iput}
use class_example.Ide.Fs.Dir.{t_dir, dirlookup}

abbrev pub is_end : List ℕ → Bool
is_end [] = true
is_end (c ∷ cs) = false

module _ (devsw : Devices) where
  -- The loop from the inode `i` on, with fuel: the inode, the bytes of `name`, and the state.
  unfoldable pub walk :
      (fuel : ℕ) (parent : Bool) (path name : List ℕ) (i : ℕ) → Fs → Option (Option ℕ × List ℕ × Fs)
  walk zero parent path name i s = none
  walk (suc fuel) parent path name i s = elim (skipelem path) [
    | none ↦ if parent then (do s' ← iput i s; some (none, name, s')) else some (some i, name, s)
    | some (name', rest) ↦ (do
      ip ← get_elem? s.icache i
      if not (ip.type == t_dir)
          then some (none, name', s)
          else if parent && is_end rest
          then some (some i, name', s)
          else (do
            ((hit, at), s1) ← dirlookup devsw i name' s
            elim hit [
              | none ↦ some (none, name', s1)
              | some next ↦ walk fuel parent rest name' next s1
            ]))
  ]

  -- Each round takes at least one byte of the path.
  unfoldable pub namex : (parent : Bool) (path name : List ℕ) → Fs → Option (Option ℕ × List ℕ × Fs)
  namex parent path name s = do
    (root, s1) ← iget rootdev rootino s
    i ← root
    walk (suc (length path)) parent path name i s1

  unfoldable pub namei : List ℕ → Fs → Option (Option ℕ × List ℕ × Fs)
  namei path s = namex false path [] s

  unfoldable pub nameiparent : List ℕ → (name : List ℕ) → Fs → Option (Option ℕ × List ℕ × Fs)
  nameiparent path name s = namex true path name s
