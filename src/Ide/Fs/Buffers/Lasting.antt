-- ===== src/Ide/Fs/Buffers/Lasting.antt =====
-- When a change of a block in A.ide/src/fs.c lasts, so that it is the change of `edit`.
use class_example.Prelude.{
  ℕ, ◌≡◌, ◌⊎◌, refl, ap, ap₂, sym, ◌∙◌, inl, inr, true, false, ◌&&◌, List, [], ◌∷◌, arith,
  if◌then◌else◌, ◌==◌, Bool-cases,
}
use class_example.Memory.{Memory}
use class_example.Ide.Fs.{Blocks, edit}
use class_example.Ide.Fs.Buffers.{
  Buffer, Buffers, is_of, is_held, shown, without, recycle, left, change, view,
}

-- The last buffer of the ring, which is the next to be recycled, holds what the disk has.
abbrev pub LastClean : Blocks → List Buffer → Type 0
LastClean disk [] = Unit
LastClean disk (b ∷ []) = b.bytes ≡ disk b.dev b.blockno
LastClean disk (b ∷ c ∷ bs) = LastClean disk (c ∷ bs)

is_of-parts : (d b : ℕ) (x : Buffer) → is_of d b x ≡ true → (x.dev ≡ d) × (x.blockno ≡ b)
is_of-parts d b x e = (ground (arith, e), ground (arith, e))

module _ (disk : Blocks) (d b : ℕ) where
  shown-recycle :
      (xs : List Buffer) → LastClean disk xs → shown disk (recycle xs) d b ≡ shown disk xs d b
  unfolding shown recycle
  shown-recycle [] v = refl
  shown-recycle (x ∷ []) v = elim (Bool-cases (is_of d b x)) [
    | inl hit ↦ let (e1, e2) = is_of-parts d b x hit in rw hit (ap₂ disk (sym e1) (sym e2) ∙ sym v)
    | inr miss ↦ rw miss refl
  ]
  shown-recycle (x ∷ y ∷ xs) v =
      ap (λ (m : Memory). if is_of d b x then x.bytes else m) (shown-recycle (y ∷ xs) v)

  shown-without :
      (dev blockno : ℕ) (xs : List Buffer)
      → (d == dev && b == blockno) ≡ false
      → shown disk (without dev blockno xs) d b ≡ shown disk xs d b
  unfolding shown without
  shown-without dev blockno [] other = refl
  shown-without dev blockno (x ∷ xs) other = elim (Bool-cases (is_of dev blockno x)) [
    | inl hit ↦ let miss : is_of d b x ≡ false = ground (arith, hit, other) in rw (hit, miss) refl
    | inr miss ↦ rw miss (
        ap (λ (m : Memory). if is_of d b x then x.bytes else m)
          (shown-without dev blockno xs other))
  ]

-- What is left of the ring shows the other blocks as before.
left_shown :
    (dev blockno : ℕ) (s : Buffers)
    → (is_held dev blockno s.ring ≡ true) ⊎ LastClean s.disk s.ring
    → (d b : ℕ) → (d == dev && b == blockno) ≡ false
    → shown s.disk (left dev blockno s.ring) d b ≡ view s d b
left_shown dev blockno s (inl hit) d b other =
    rw hit (shown-without s.disk d b dev blockno s.ring other)
left_shown dev blockno s (inr clean) d b other = elim (Bool-cases (is_held dev blockno s.ring)) [
  | inl hit ↦ rw hit (shown-without s.disk d b dev blockno s.ring other)
  | inr miss ↦ rw miss (shown-recycle s.disk d b s.ring clean)
]

-- When the block has a buffer already, or the buffer that is recycled for it holds what the disk has, then `bread`,
-- a change and `brelse` change the block as `edit` does, for whoever reads any block afterwards.
pub change-edit :
    (dev blockno : ℕ) (f : Memory → Memory) (s : Buffers)
    → (is_held dev blockno s.ring ≡ true) ⊎ LastClean s.disk s.ring
    → (d b : ℕ) → view (change dev blockno f s) d b ≡ edit dev blockno f (view s) d b
unfolding change shown
change-edit dev blockno f s v d b = elim (Bool-cases (d == dev && b == blockno)) [
  | inl same ↦
      let d_e : d ≡ dev = ground (arith, same) in
      let b_e : b ≡ blockno = ground (arith, same) in
      let here : (dev == d && blockno == b) ≡ true = ground (arith, same) in
      rw (here, same) (ap f (ap₂ (view s) (sym d_e) (sym b_e)))
  | inr other ↦
      let away : (dev == d && blockno == b) ≡ false = ground (arith, other) in
      rw (away, other) (left_shown dev blockno s v d b other)
]
