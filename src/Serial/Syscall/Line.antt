-- ===== src/Serial/Syscall/Line.antt =====
-- `PortRead` of 9.serialport/src/syscall.c reads a line: the characters up to the first carriage
-- return, and 100 at most.
use class_example.Prelude.{
  ℕ, zero, suc, ◌+◌, ◌-◌, ◌%◌, ◌≤◌, ◌<◌, ◌≡◌, ◌⊎◌, refl, subst, true, false, Option, Option-cases,
  Bool-cases, inl, inr, none, some, List, [], ◌∷◌, ◌>>=◌, if◌then◌else◌, ◌==◌, arith, length,
}
use class_example.Prelude.Returns.{Returns, returns, Returns-bind, Returns-mono}
use class_example.Serial.State.{buff_size}
use class_example.Serial.Syscall.{store, read_loop, port_read}

-- Rounds that each find a character.
abbrev pub delivered : List ℕ → List (Option ℕ)
delivered [] = []
delivered (c ∷ cs) = some c ∷ delivered cs

-- The line that a stream of characters begins with, if it is complete: all before the first carriage
-- return, or the first `suc room` characters if they hold none.
unfoldable pub line : (room : ℕ) → List ℕ → Option (List ℕ)
line room [] = none
line zero (c ∷ cs) = if c % 256 == 13 then some [] else some ((c % 256) ∷ [])
line (suc room) (c ∷ cs) =
    if c % 256 == 13 then some [] else (do l ← line room cs; some ((c % 256) ∷ l))

-- From `p` on memory holds a text and then a zero; all else is as before.
abbrev pub Holds : List ℕ → ℕ → (ℕ → ℕ) → Type 0
Holds [] p memory = memory p ≡ 0
Holds (c ∷ cs) p memory = (memory p ≡ c) × Holds cs (p + 1) memory

-- The loop ends where the line does.
record Loop (p : ℕ) (l : List ℕ) (memory : ℕ → ℕ) (out : ℕ × (ℕ → ℕ)) : Type 0 where
  stops : out.0 ≡ p + length l
  text : Holds l p (store out.1 out.0 0)
  others : (a : ℕ) → (a < p) ⊎ (out.0 < a) → out.1 a ≡ memory a

-- The loop waits for more exactly when the line is not complete.
abbrev Agrees : ℕ → (ℕ → ℕ) → Option (List ℕ) → Option (ℕ × (ℕ → ℕ)) → Type 0
Agrees p memory none o = o ≡ none
Agrees p memory (some l) o = Returns (Loop p l memory) o

module _ (p c : ℕ) (memory : ℕ → ℕ) where
  abbrev memory' : ℕ → ℕ
  memory' = store memory p c

  Loop-nil : Loop p [] memory (p, memory')
  Loop-nil = record {
    stops = omega arith;
    text = ground arith;
    others = λ a far. ground (arith, far);
  }

  Loop-last : Loop p (c ∷ []) memory (p + 1, memory')
  Loop-last = record {
    stops = omega arith;
    text = ground arith;
    others = λ a far. ground (arith, far);
  }

  Loop-cons :
      (l : List ℕ) (out : ℕ × (ℕ → ℕ)) → Loop (p + 1) l memory' out → Loop p (c ∷ l) memory out
  Loop-cons l out r = record {
    stops = omega (arith, r.stops);
    text = (ground (arith, r.stops, r.others p), r.text);
    others = λ a far. ground (arith, r.others a, far);
  }

  Agrees-cons :
      (line_left : Option (List ℕ)) (o : Option (ℕ × (ℕ → ℕ)))
      → Agrees (p + 1) memory' line_left o
      → Agrees p memory (line_left >>= (λ l. some (c ∷ l))) o
  Agrees-cons none o h = h
  Agrees-cons (some l) o h = Returns-mono h (Loop-cons l)

read_loop-Agrees :
    (chars : List ℕ) (room size p : ℕ) (memory : ℕ → ℕ)
    → room + size ≡ 99
    → Agrees p memory (line room chars) (read_loop (delivered chars) p size memory)
unfolding line read_loop
read_loop-Agrees [] room size p memory h = refl
read_loop-Agrees (c ∷ cs) zero size p memory h = elim (Bool-cases (c % 256 == 13)) [
  | inl cr ↦
      let hit : (store memory p (c % 256) p == 13) ≡ true = ground (arith, cr) in
      rw (cr, hit) (returns (Loop-nil p (c % 256) memory))
  | inr other ↦
      let miss : (store memory p (c % 256) p == 13) ≡ false = ground (arith, other) in
      let full : (size + 1 == buff_size - 1) ≡ true = ground arith in
      rw (other, miss, full) (returns (Loop-last p (c % 256) memory))
]
read_loop-Agrees (c ∷ cs) (suc room) size p memory h = elim (Bool-cases (c % 256 == 13)) [
  | inl cr ↦
      let hit : (store memory p (c % 256) p == 13) ≡ true = ground (arith, cr) in
      rw (cr, hit) (returns (Loop-nil p (c % 256) memory))
  | inr other ↦
      let miss : (store memory p (c % 256) p == 13) ≡ false = ground (arith, other) in
      let more : (size + 1 == buff_size - 1) ≡ false = ground arith in
      rw (other, miss, more)
        (Agrees-cons p (c % 256) memory (line room cs) _
          (read_loop-Agrees cs room (size + 1) (p + 1) (store memory p (c % 256)) (omega arith)))
]

length-line :
    (room : ℕ) (chars : List ℕ) {l : List ℕ} → line room chars ≡ some l → length l ≤ room + 1
unfolding line
length-line room [] e = absurd (ground arith)
length-line zero (c ∷ cs) e = ground arith
length-line (suc room) (c ∷ cs) e = elim (Option-cases (line room cs)) [
  | inl none_left ↦ ground arith
  | inr (l', e') ↦ ground (arith, length-line room cs e')
]

-- What `PortRead` leaves in memory: the line and a zero behind it in the 101 bytes of the buffer at `p`,
-- and all else as before.
pub record Filled (p : ℕ) (l : List ℕ) (memory memory' : ℕ → ℕ) : Type 0 where
  pub text : Holds l p memory'
  pub fits : length l ≤ buff_size - 1
  pub others : (a : ℕ) → (a < p) ⊎ (p + buff_size ≤ a) → memory' a ≡ memory a

-- When each round of `PortRead` finds a character and these begin with a whole line, `PortRead` returns, with the
-- line in the buffer; it writes no byte outside the buffer.
pub port_read-Filled :
    (chars : List ℕ) (p : ℕ) (memory : ℕ → ℕ) (l : List ℕ)
    → line 99 chars ≡ some l
    → Returns (Filled p l memory) (port_read (delivered chars) p memory)
unfolding port_read
port_read-Filled chars p memory l e =
    let short = length-line 99 chars e in
    Returns-bind
      (subst (λ o. Agrees p memory o (read_loop (delivered chars) p 0 memory)) e
        (read_loop-Agrees chars 99 0 p memory (omega arith)))
      λ (q, memory') r. returns (record {
        text = r.text;
        fits = short;
        others = λ a far. ground (arith, far, r.stops, r.others a, short);
      })
