-- ===== src/Ide/Path.antt =====
-- `skipelem` of A.ide/src/fs.c. A path is the list of its bytes, without the NUL at its end.
pub mod Names
use class_example.Prelude.{
  ℕ, zero, suc, ◌+◌, Option, none, some, List, [], ◌∷◌, ◌++◌, if◌then◌else◌, ◌==◌, leb, length,
}

-- `DIRSIZ`
abbrev pub dirsiz : ℕ
dirsiz = 14

abbrev pub slash : ℕ
slash = 47

-- `while(*path == '/') path++`
unfoldable pub skip_slashes : List ℕ → List ℕ
skip_slashes [] = []
skip_slashes (c ∷ cs) = let rest = skip_slashes cs in if c == slash then rest else c ∷ cs

-- `while(*path != '/' && *path != 0) path++`: the bytes passed, and the path behind them.
unfoldable pub pass_element : List ℕ → List ℕ × List ℕ
pass_element [] = ([], [])
pass_element (c ∷ cs) =
    let (e, rest) = pass_element cs in if c == slash then ([], c ∷ cs) else (c ∷ e, rest)

abbrev pub take : ℕ → List ℕ → List ℕ
take zero xs = []
take (suc n) [] = []
take (suc n) (x ∷ xs) = x ∷ take n xs

-- The bytes that are written to `name`.
abbrev pub name_bytes : List ℕ → List ℕ
name_bytes e = if leb dirsiz (length e) then take dirsiz e else e ++ (0 ∷ [])

-- The bytes written to `name`, and the path that is returned; `none` for the null pointer.
unfoldable pub skipelem : List ℕ → Option (List ℕ × List ℕ)
skipelem path = elim (skip_slashes path) [
  | [] ↦ none
  | c ∷ cs ↦ let (e, rest) = pass_element (c ∷ cs) in some (name_bytes e, skip_slashes rest)
]

-- The names that the loop of `namex` goes through, `while((path = skipelem(path, name)) != 0)`, with fuel.
unfoldable pub names_loop : (fuel : ℕ) → List ℕ → List (List ℕ)
names_loop zero path = []
names_loop (suc fuel) path = elim (skipelem path) [
  | none ↦ []
  | some (name, rest) ↦ name ∷ names_loop fuel rest
]

-- Each round takes at least one byte.
unfoldable pub names : List ℕ → List (List ℕ)
names path = names_loop (length path) path
