-- ===== src/Ide/Fs/Buffers/Run.antt =====
-- A run of A.ide/src/fs.c that uses no more blocks than there are buffers loses no change.
use class_example.Prelude.{
  ℕ, zero, suc, ◌+◌, ◌<◌, ◌≤◌, ◌≡◌, ◌⊎◌, refl, ap, ◌∙◌, inl, inr, Bool, true, false, ◌&&◌, ◌||◌,
  List, [], ◌∷◌, arith, ◌==◌, Bool-cases, length, fun_ext,
}
use class_example.Memory.{Memory}
use class_example.Ide.Fs.{Blocks, edit}
use class_example.Ide.Fs.Buffers.{
  Buffer, Buffers, is_of, is_held, without, recycle, left, change, view,
}
use class_example.Ide.Fs.Buffers.Lasting.{LastClean, change-edit}
use class_example.Ide.Fs.Buffers.Front.{
  later, CleanBehind, CleanBehind-last, CleanBehind-recycle, CleanBehind-without, CleanBehind-taken,
  held_in, held_in-recycle, held_in-without, held_in-taken,
}

-- Changes of blocks, one after the other, over the buffers and as `edit` has them.
abbrev pub Changes : Type 0
Changes = List (ℕ × ℕ × (Memory → Memory))

unfoldable pub change_all : Changes → Buffers → Buffers
change_all [] s = s
change_all ((d, b, f) ∷ cs) s = change_all cs (change d b f s)

unfoldable pub edit_all : Changes → Blocks → Blocks
edit_all [] blocks = blocks
edit_all ((d, b, f) ∷ cs) blocks = edit_all cs (edit d b f blocks)

-- The blocks that have been used, each once.
unfoldable pub is_seen : (d b : ℕ) → List (ℕ × ℕ) → Bool
is_seen d b [] = false
is_seen d b ((dev, blockno) ∷ ps) = (d == dev && b == blockno) || is_seen d b ps

unfoldable pub used_by : Changes → List (ℕ × ℕ) → List (ℕ × ℕ)
used_by [] seen = seen
used_by ((d, b, f) ∷ cs) seen = elim (is_seen d b seen) [
  | true ↦ used_by cs seen
  | false ↦ used_by cs ((d, b) ∷ seen)
]

used_by-grows : (cs : Changes) (seen : List (ℕ × ℕ)) → length seen ≤ length (used_by cs seen)
unfolding used_by
used_by-grows [] seen = omega arith
used_by-grows ((d, b, f) ∷ cs) seen = elim (Bool-cases (is_seen d b seen)) [
  | inl old ↦ rw (used_by, old) (used_by-grows cs seen)
  | inr new ↦ rw (used_by, new) (let le = used_by-grows cs ((d, b) ∷ seen) in omega (arith, le))
]

-- The blocks that have been used are in front of the ring, and the buffers behind them hold what the disk has.
record Front (seen : List (ℕ × ℕ)) (s : Buffers) : Type 0 where
  pub clean : CleanBehind s.disk (length seen) s.ring
  pub held : (d b : ℕ) → is_seen d b seen ≡ true → held_in (length seen) d b s.ring ≡ true

or_right : (p q : Bool) → q ≡ true → (p || q) ≡ true
or_right true q h = refl
or_right false q h = h

held_in-held : (n d b : ℕ) (xs : List Buffer) → held_in n d b xs ≡ true → is_held d b xs ≡ true
unfolding held_in is_held
held_in-held n d b [] h = h
held_in-held zero d b (x ∷ xs) h = absurd (ground (arith, h))
held_in-held (suc n) d b (x ∷ xs) h = elim (Bool-cases (is_of d b x)) [
  | inl hit ↦ rw hit refl
  | inr miss ↦ rw miss (held_in-held n d b xs (later (is_of d b x) (held_in n d b xs) h miss))
]

module _ (d b : ℕ) (bytes : Memory) (left : List Buffer) where
  abbrev newest : Buffer
  newest = record { dev = d; blockno = b; bytes = bytes }

  held_here :
      (n d' b' : ℕ) → (d' == d && b' == b) ≡ true → held_in (suc n) d' b' (newest ∷ left) ≡ true
  unfolding held_in
  held_here n d' b' same =
      let here : (d == d' && b == b') ≡ true = ground (arith, same) in rw here refl

  held_left :
      (n d' b' : ℕ) → held_in n d' b' left ≡ true → held_in (suc n) d' b' (newest ∷ left) ≡ true
  unfolding held_in
  held_left n d' b' h = or_right (is_of d' b' newest) (held_in n d' b' left) h

Front-old :
    (d b : ℕ) (f : Memory → Memory) (seen : List (ℕ × ℕ)) (s : Buffers)
    → is_seen d b seen ≡ true
    → Front seen s
    → Front seen (change d b f s)
unfolding change is_seen
Front-old d b f [] s old v = absurd (ground (arith, old))
Front-old d b f (p ∷ ps) s old v =
    let n = length ps in
    let here = v.held d b old in
    let is = held_in-held (suc n) d b s.ring here in
    rw is (record {
      clean = CleanBehind-taken s.disk d b n s.ring v.clean here;
      held = λ d' b' h. elim (Bool-cases (d' == d && b' == b)) [
        | inl same ↦ held_here d b _ (without d b s.ring) n d' b' same
        | inr other ↦
            held_left d b _ (without d b s.ring) n d' b'
              (held_in-taken s.disk d' b' d b other n s.ring here (v.held d' b' h))
      ];
    })

left-Front :
    (d b : ℕ) (seen : List (ℕ × ℕ)) (s : Buffers)
    → length seen < length s.ring
    → Front seen s
    → CleanBehind s.disk (length seen) (left d b s.ring)
      × ((d' b' : ℕ)
          → (d' == d && b' == b) ≡ false
          → is_seen d' b' seen ≡ true
          → held_in (length seen) d' b' (left d b s.ring) ≡ true)
left-Front d b seen s room v = elim (Bool-cases (is_held d b s.ring)) [
  | inl hit ↦ rw hit (
    CleanBehind-without s.disk d b (length seen) s.ring v.clean,
    λ d' b' other h. held_in-without s.disk d' b' d b other (length seen) s.ring (v.held d' b' h),
  )
  | inr miss ↦ rw miss (
    CleanBehind-recycle s.disk (length seen) s.ring v.clean,
    λ d' b' other h. held_in-recycle s.disk d' b' (length seen) s.ring room (v.held d' b' h),
  )
]

Front-new :
    (d b : ℕ) (f : Memory → Memory) (seen : List (ℕ × ℕ)) (s : Buffers)
    → length seen < length s.ring
    → Front seen s
    → Front ((d, b) ∷ seen) (change d b f s)
unfolding change is_seen
Front-new d b f seen s room v =
    let (clean, held) = left-Front d b seen s room v in
    record {
      clean = clean;
      held = λ d' b' h. elim (Bool-cases (d' == d && b' == b)) [
        | inl same ↦ held_here d b _ (left d b s.ring) (length seen) d' b' same
        | inr other ↦
            held_left d b _ (left d b s.ring) (length seen) d' b'
              (held d' b' other (later (d' == d && b' == b) (is_seen d' b' seen) h other))
      ];
    }

length-without :
    (d b : ℕ) (xs : List Buffer) → is_held d b xs ≡ true → length (without d b xs) + 1 ≡ length xs
unfolding without is_held
length-without d b [] h = absurd (ground (arith, h))
length-without d b (x ∷ xs) h = elim (Bool-cases (is_of d b x)) [
  | inl hit ↦ rw hit (omega arith)
  | inr miss ↦
      let t = length-without d b xs (later (is_of d b x) (is_held d b xs) h miss) in
      rw miss (omega (arith, t))
]

length-recycle : (x : Buffer) (xs : List Buffer) → length (recycle (x ∷ xs)) ≡ length xs
unfolding recycle
length-recycle x [] = refl
length-recycle x (y ∷ ys) = let t = length-recycle y ys in omega (arith, t)

-- The number of the buffers stays.
length-change :
    (d b : ℕ) (f : Memory → Memory) (s : Buffers)
    → 0 < length s.ring
    → length (change d b f s).ring ≡ length s.ring
unfolding change
length-change d b f s pos = elim (Bool-cases (is_held d b s.ring)) [
  | inl hit ↦ rw hit (let t = length-without d b s.ring hit in omega (arith, t))
  | inr miss ↦ rw miss (let t = go s.ring pos in omega (arith, t))
]
  where
    go : (xs : List Buffer) → 0 < length xs → length (recycle xs) + 1 ≡ length xs
    go [] lt = absurd (omega (arith, lt))
    go (x ∷ xs) lt = let t = length-recycle x xs in omega (arith, t)

module _ (d b : ℕ) (f : Memory → Memory) (seen : List (ℕ × ℕ)) (s : Buffers)
    (v : Front seen s) where
  view-edit :
      (is_held d b s.ring ≡ true) ⊎ LastClean s.disk s.ring
      → view (change d b f s) ≡ edit d b f (view s)
  view-edit c = fun_ext (λ d'. fun_ext (λ b'. change-edit d b f s c d' b'))

  old_lasts : is_seen d b seen ≡ true → view (change d b f s) ≡ edit d b f (view s)
  old_lasts old = view-edit (inl (held_in-held (length seen) d b s.ring (v.held d b old)))

  new_lasts : length seen < length s.ring → view (change d b f s) ≡ edit d b f (view s)
  new_lasts room = view-edit (inr (CleanBehind-last s.disk (length seen) s.ring v.clean room))

run_from :
    (cs : Changes) (seen : List (ℕ × ℕ)) (s : Buffers)
    → Front seen s
    → 0 < length s.ring
    → length (used_by cs seen) ≤ length s.ring
    → view (change_all cs s) ≡ edit_all cs (view s)
unfolding change_all edit_all used_by
run_from [] seen s v pos room = refl
run_from ((d, b, f) ∷ cs) seen s v pos room =
    let next = change d b f s in
    let count = length-change d b f s pos in
    elim (Bool-cases (is_seen d b seen)) [
      | inl old ↦
          let few : length (used_by cs seen) ≤ length s.ring =
            let e = rw (used_by, old) at room in e in
          run_from cs seen next (Front-old d b f seen s old v) (omega (arith, count, pos))
            (omega (arith, count, few))
          ∙ ap (edit_all cs) (old_lasts d b f seen s v old)
      | inr new ↦
          let few : length (used_by cs ((d, b) ∷ seen)) ≤ length s.ring =
            let e = rw (used_by, new) at room in e in
          let le = used_by-grows cs ((d, b) ∷ seen) in
          let space : length seen < length s.ring = omega (arith, le, few) in
          run_from cs ((d, b) ∷ seen) next (Front-new d b f seen s space v)
            (omega (arith, count, pos)) (omega (arith, count, few))
          ∙ ap (edit_all cs) (new_lasts d b f seen s v space)
    ]

-- From buffers that all hold what the disk has, changes of no more different blocks than there are buffers, in any
-- order and as often as one likes, change what `bread` finds for each block exactly as `edit` does.
pub change_all-edit_all :
    (cs : Changes) (s : Buffers)
    → CleanBehind s.disk 0 s.ring
    → 0 < length s.ring
    → length (used_by cs []) ≤ length s.ring
    → view (change_all cs s) ≡ edit_all cs (view s)
unfolding is_seen
change_all-edit_all cs s clean pos room =
    run_from cs [] s (record { clean = clean; held = λ d b h. absurd (ground (arith, h)) }) pos room
