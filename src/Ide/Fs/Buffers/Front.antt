-- ===== src/Ide/Fs/Buffers/Front.antt =====
-- The buffers in front of the ring that a run has used, and the others, which hold what the disk has.
use class_example.Prelude.{
  ℕ, zero, suc, ◌<◌, ◌≡◌, ◌⊎◌, refl, inl, inr, Bool, true, false, ◌&&◌, ◌||◌, List, [], ◌∷◌, arith,
  ◌==◌, Bool-cases, length,
}
use class_example.Ide.Fs.{Blocks}
use class_example.Ide.Fs.Buffers.{Buffer, is_of, without, recycle}
use class_example.Ide.Fs.Buffers.Lasting.{LastClean}

-- All buffers but the first `n` hold what the disk has.
abbrev pub CleanBehind : Blocks → ℕ → List Buffer → Type 0
CleanBehind disk n [] = Unit
CleanBehind disk zero (x ∷ xs) = (x.bytes ≡ disk x.dev x.blockno) × CleanBehind disk zero xs
CleanBehind disk (suc n) (x ∷ xs) = CleanBehind disk n xs

-- One of the first `n` buffers holds the block.
unfoldable pub held_in : (n d b : ℕ) → List Buffer → Bool
held_in n d b [] = false
held_in zero d b (x ∷ xs) = false
held_in (suc n) d b (x ∷ xs) = is_of d b x || held_in n d b xs

pub later : (p q : Bool) → (p || q) ≡ true → p ≡ false → q ≡ true
later true q h miss = absurd (ground (arith, miss))
later false q h miss = h

none_in : (d b : ℕ) (xs : List Buffer) → held_in zero d b xs ≡ true → ⊥
unfolding held_in
none_in d b [] h = ground (arith, h)
none_in d b (x ∷ xs) h = ground (arith, h)

module _ (disk : Blocks) where
  CleanBehind-suc : (n : ℕ) (xs : List Buffer) → CleanBehind disk n xs → CleanBehind disk (suc n) xs
  CleanBehind-suc n [] v = tt
  CleanBehind-suc zero (x ∷ xs) v = v.1
  CleanBehind-suc (suc n) (x ∷ xs) v = CleanBehind-suc n xs v

  pub CleanBehind-last :
      (n : ℕ) (xs : List Buffer) → CleanBehind disk n xs → n < length xs → LastClean disk xs
  CleanBehind-last n [] v lt = tt
  CleanBehind-last zero (x ∷ []) v lt = v.0
  CleanBehind-last (suc n) (x ∷ []) v lt = absurd (omega (arith, lt))
  CleanBehind-last zero (x ∷ y ∷ xs) v lt = CleanBehind-last zero (y ∷ xs) (v.1) (omega arith)
  CleanBehind-last (suc n) (x ∷ y ∷ xs) v lt = CleanBehind-last n (y ∷ xs) v (omega (arith, lt))

  pub CleanBehind-recycle :
      (n : ℕ) (xs : List Buffer) → CleanBehind disk n xs → CleanBehind disk n (recycle xs)
  unfolding recycle
  CleanBehind-recycle n [] v = tt
  CleanBehind-recycle n (x ∷ []) v = tt
  CleanBehind-recycle zero (x ∷ y ∷ xs) v = (v.0, CleanBehind-recycle zero (y ∷ xs) (v.1))
  CleanBehind-recycle (suc n) (x ∷ y ∷ xs) v = CleanBehind-recycle n (y ∷ xs) v

module _ (disk : Blocks) (d b : ℕ) where
  pub CleanBehind-without :
      (n : ℕ) (xs : List Buffer) → CleanBehind disk n xs → CleanBehind disk n (without d b xs)
  unfolding without
  CleanBehind-without n [] v = tt
  CleanBehind-without zero (x ∷ xs) v = elim (Bool-cases (is_of d b x)) [
    | inl hit ↦ rw hit (v.1)
    | inr miss ↦ rw miss (v.0, CleanBehind-without zero xs (v.1))
  ]
  CleanBehind-without (suc n) (x ∷ xs) v = elim (Bool-cases (is_of d b x)) [
    | inl hit ↦ rw hit (CleanBehind-suc disk n xs v)
    | inr miss ↦ rw miss (CleanBehind-without n xs v)
  ]

  -- When the buffer that is taken out is one of the first, one fewer is in front of the clean ones.
  pub CleanBehind-taken :
      (n : ℕ) (xs : List Buffer)
      → CleanBehind disk (suc n) xs
      → held_in (suc n) d b xs ≡ true
      → CleanBehind disk n (without d b xs)
  unfolding without held_in
  CleanBehind-taken n [] v here = tt
  CleanBehind-taken zero (x ∷ xs) v here = elim (Bool-cases (is_of d b x)) [
    | inl hit ↦ rw hit v
    | inr miss ↦ absurd (none_in d b xs (later (is_of d b x) (held_in zero d b xs) here miss))
  ]
  CleanBehind-taken (suc n) (x ∷ xs) v here = elim (Bool-cases (is_of d b x)) [
    | inl hit ↦ rw hit v
    | inr miss ↦
        rw miss (CleanBehind-taken n xs v (later (is_of d b x) (held_in (suc n) d b xs) here miss))
  ]

  pub held_in-suc :
      (n : ℕ) (xs : List Buffer) → held_in n d b xs ≡ true → held_in (suc n) d b xs ≡ true
  unfolding held_in
  held_in-suc n [] h = h
  held_in-suc zero (x ∷ xs) h = absurd (ground (arith, h))
  held_in-suc (suc n) (x ∷ xs) h = elim (Bool-cases (is_of d b x)) [
    | inl hit ↦ rw hit refl
    | inr miss ↦ rw miss (held_in-suc n xs (later (is_of d b x) (held_in n d b xs) h miss))
  ]

  pub held_in-recycle :
      (n : ℕ) (xs : List Buffer)
      → n < length xs
      → held_in n d b xs ≡ true
      → held_in n d b (recycle xs) ≡ true
  unfolding held_in recycle
  held_in-recycle n [] lt h = h
  held_in-recycle zero (x ∷ xs) lt h = absurd (ground (arith, h))
  held_in-recycle (suc n) (x ∷ []) lt h = absurd (omega (arith, lt))
  held_in-recycle (suc n) (x ∷ y ∷ xs) lt h = elim (Bool-cases (is_of d b x)) [
    | inl hit ↦ rw hit refl
    | inr miss ↦ rw miss (
        held_in-recycle n (y ∷ xs) (omega (arith, lt))
          (later (is_of d b x) (held_in n d b (y ∷ xs)) h miss))
  ]

  -- Another block stays in front.
  module _ (dev blockno : ℕ) (other : (d == dev && b == blockno) ≡ false) where
    apart : (x : Buffer) → is_of dev blockno x ≡ true → is_of d b x ≡ false
    apart x hit = ground (arith, hit, other)

    pub held_in-without :
        (n : ℕ) (xs : List Buffer)
        → held_in n d b xs ≡ true
        → held_in n d b (without dev blockno xs) ≡ true
    unfolding held_in without
    held_in-without n [] h = h
    held_in-without zero (x ∷ xs) h = absurd (ground (arith, h))
    held_in-without (suc n) (x ∷ xs) h = elim (Bool-cases (is_of dev blockno x)) [
      | inl out ↦ rw out (held_in-suc n xs (later (is_of d b x) (held_in n d b xs) h (apart x out)))
      | inr stays ↦ elim (Bool-cases (is_of d b x)) [
        | inl hit ↦ rw (stays, hit) refl
        | inr miss ↦
            rw (stays, miss) (held_in-without n xs (later (is_of d b x) (held_in n d b xs) h miss))
      ]
    ]

    pub held_in-taken :
        (n : ℕ) (xs : List Buffer)
        → held_in (suc n) dev blockno xs ≡ true
        → held_in (suc n) d b xs ≡ true
        → held_in n d b (without dev blockno xs) ≡ true
    unfolding held_in without
    held_in-taken n [] k h = h
    held_in-taken zero (x ∷ xs) k h = absurd (both x xs (Bool-cases (is_of d b x)) k h)
      where
        both :
            (x : Buffer) (xs : List Buffer)
            → (is_of d b x ≡ true) ⊎ (is_of d b x ≡ false)
            → (is_of dev blockno x || held_in zero dev blockno xs) ≡ true
            → (is_of d b x || held_in zero d b xs) ≡ true
            → ⊥
        both x xs (inr miss) k h = none_in d b xs (later (is_of d b x) (held_in zero d b xs) h miss)
        both x xs (inl hit) k h =
            let off : is_of dev blockno x ≡ false = ground (arith, hit, other) in
            none_in dev blockno xs (later (is_of dev blockno x) (held_in zero dev blockno xs) k off)
    held_in-taken (suc n) (x ∷ xs) k h = elim (Bool-cases (is_of dev blockno x)) [
      | inl out ↦ rw out (later (is_of d b x) (held_in (suc n) d b xs) h (apart x out))
      | inr stays ↦ elim (Bool-cases (is_of d b x)) [
        | inl hit ↦ rw (stays, hit) refl
        | inr miss ↦
            rw (stays, miss)
              (held_in-taken n xs
                (later (is_of dev blockno x) (held_in (suc n) dev blockno xs) k stays)
                (later (is_of d b x) (held_in (suc n) d b xs) h miss))
      ]
    ]
