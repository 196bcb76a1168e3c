-- ===== src/Ide/Fs/Files/Table.antt =====
-- The table of open files of A.ide/src/file.c: what the operations on its entries do together.
use class_example.Prelude.{
  ℕ, zero, suc, ◌+◌, ◌-◌, ◌^◌, ◌<◌, ◌≡◌, ◌≢◌, inl, inr, refl, ap, sym, ◌∙◌, true, Option, none,
  some, List, [], ◌∷◌, ◌>>=◌, arith, ◌==◌, is_positive, increment, decrement, get_elem?, set, All,
  Bool-cases, lt-get_elem?, get_elem?-set_self, get_elem?-set_ne,
}
use class_example.Prelude.Returns.{Returns, returns}
use class_example.Ide.Fs.Files.{File, Files, set_file, free_file, filealloc, filedup, fileclose}

set-twice :
    (fs : List File) (i : ℕ) (f g : File) → get_elem? fs i ≡ some g → set (set fs i f) i g ≡ fs
set-twice [] i f g e = absurd (ground (arith, e))
set-twice (x ∷ fs) zero f g e = let q : x ≡ g = cc in ap (λ y. y ∷ fs) (sym q)
set-twice (x ∷ fs) (suc i) f g e = ap (λ fs'. x ∷ fs') (set-twice fs i f g e)

-- `fileclose` undoes `filedup`: of a file that is in use, with a count of references far from overflow, the
-- whole state is as before.
pub fileclose-filedup :
    (i : ℕ) (f : File) (s : Files)
    → get_elem? s.ftable i ≡ some f
    → is_positive f.ref ≡ true
    → f.ref < 2 ^ 31 - 1
    → (filedup i s >>= λ (_, s'). fileclose i s') ≡ some s
unfolding filedup fileclose
fileclose-filedup i f s at used small =
    let g = record f { ref = f.ref + 1 } in
    let up : increment f.ref ≡ f.ref + 1 = omega (arith, small) in
    let at' = get_elem?-set_self s.ftable i g (lt-get_elem? s.ftable i at) in
    let used' : is_positive (f.ref + 1) ≡ true = ground (arith, small) in
    let down : decrement (f.ref + 1) ≡ f.ref = omega (arith, small) in
    let back = set-twice s.ftable i g f at in
    rw (filedup, at, used, up, fileclose, at', used', down, used, back) refl

-- What `filealloc` returns.
abbrev pub Opened : Files → Option ℕ × Files → Type 0
Opened s (none, s') = (s' ≡ s) × All (λ (f : File). f.ref ≢ 0) s.ftable
Opened s (some i, s') =
    (f : File) × (get_elem? s.ftable i ≡ some f)
    × (f.ref ≡ 0)
    × (get_elem? s'.ftable i ≡ some (record f { ref = 1 }))
    × ((j : ℕ) → j ≢ i → get_elem? s'.ftable j ≡ get_elem? s.ftable j)
    × (s'.fs ≡ s.fs)
    × (s'.memory ≡ s.memory)

-- What the scan from entry `i` on returns.
abbrev Found : List File → (i : ℕ) → Option ℕ → Type 0
Found fs i none = All (λ (f : File). f.ref ≢ 0) fs
Found fs i (some j) = (d : ℕ) × (f : File) × (j ≡ i + d) × (get_elem? fs d ≡ some f) × (f.ref ≡ 0)

free_file-Found : (fs : List File) (i : ℕ) → Found fs i (free_file fs i)
unfolding free_file
free_file-Found [] i = tt
free_file-Found (f ∷ fs) i = elim (Bool-cases (f.ref == 0)) [
  | inl hit ↦ rw hit (zero, f, omega arith, refl, ground (arith, hit))
  | inr miss ↦
      rw miss
        (further f fs i (free_file fs (i + 1)) (ground (arith, miss)) (free_file-Found fs (i + 1)))
]
  where
    further :
        (f : File) (fs : List File) (i : ℕ) (o : Option ℕ)
        → f.ref ≢ 0
        → Found fs (i + 1) o
        → Found (f ∷ fs) i o
    further f fs i none ne t = (ne, t)
    further f fs i (some j) ne (d, x, e, at, free) = (suc d, x, omega (arith, e), at, free)

-- `filealloc` returns an entry that was free, with one reference, and changes nothing else; or null, when every
-- entry is in use, and then it changes nothing.
filealloc-Opened : (s : Files) → Returns (Opened s) (filealloc s)
unfolding filealloc
filealloc-Opened s = go (free_file s.ftable 0) (free_file-Found s.ftable 0)
  where
    go :
        (o : Option ℕ)
        → Found s.ftable 0 o
        → Returns (Opened s) (elim o [
          | none ↦ some (none, s)
          | some i ↦ (do
            f ← get_elem? s.ftable i
            some (some i, set_file i (record f { ref = 1 }) s))
        ])
    go none t = returns (refl, t)
    go (some i) (d, f, e, at, free) =
        let at_i : get_elem? s.ftable i ≡ some f =
          ap (get_elem? s.ftable) (omega (arith, e)) ∙ at in
        rw at_i (
          returns (
            f,
            at_i,
            free,
            get_elem?-set_self s.ftable i (record f { ref = 1 }) (lt-get_elem? s.ftable i at_i),
            (λ j ne. get_elem?-set_ne s.ftable i j (record f { ref = 1 }) (λ q. ne (sym q))),
            refl,
            refl,
          ))
