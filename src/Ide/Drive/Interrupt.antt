-- ===== src/Ide/Drive/Interrupt.antt =====
-- What the interrupt handler of A.ide/src/ide.c does to the requests.
use class_example.Prelude.{
  ℕ, ◌≡◌, ◌≢◌, refl, ◌∙◌, Bool, true, false, Option, none, some, List, ◌∷◌, arith, ◌==◌,
  if◌then◌else◌, Bool-cases, inl, inr,
}
use class_example.Memory.{Memory}
use class_example.Ide.Bcache.{is_dirty}
use class_example.Ide.Drive.{
  Drive, Out, command, put_at, set_flags, served_flags, start_next, take_answer, ide_irq_handler,
}
use class_example.Ide.Drive.Requests.{put_at_self, put_at_ne, Queued}

-- The fields of a request: its block, whether it is to be written, and its data.
pub record Request (s : Drive) (b dev blockno flags : ℕ) (bytes : Memory) : Type 0 where
  pub dev_is : s.cache.dev b ≡ dev
  pub blockno_is : s.cache.blockno b ≡ blockno
  pub flags_are : s.cache.flags b ≡ flags
  pub bytes_are : s.bytes b ≡ bytes

-- The last commands that went to the controller are those for this request.
abbrev pub Started : Drive → (dev blockno flags : ℕ) → Memory → Type 0
Started s dev blockno flags bytes =
    (older : List Out) × (s.sent ≡ command dev blockno (is_dirty flags) bytes older)

-- The handler without the start of the next request.
abbrev pub served : ℕ → Option Memory → Drive → Drive
served b answer s =
    let s1 = take_answer b answer (record s { idequeue = s.qnext b }) in
    set_flags b (served_flags (s1.cache.flags b)) s1

pub irq-served :
    (b : ℕ) (answer : Option Memory) (s : Drive)
    → s.idequeue ≡ some b
    → ide_irq_handler answer s ≡ start_next (served b answer s)
unfolding ide_irq_handler
irq-served b answer s e = rw (ide_irq_handler, e) refl

-- What `insl` leaves of the data of another buffer, and of its own.
pub answer_other :
    (b x : ℕ) (answer : Option Memory) (s : Drive)
    → x ≢ b
    → (take_answer b answer s).bytes x ≡ s.bytes x
answer_other b x none s ne = elim (Bool-cases (is_dirty (s.cache.flags b))) [
  | inl dirty ↦ rw dirty refl
  | inr clean ↦ rw clean refl
]
answer_other b x (some words) s ne = elim (Bool-cases (is_dirty (s.cache.flags b))) [
  | inl dirty ↦ rw dirty refl
  | inr clean ↦ rw clean (put_at_ne s.bytes b x words ne)
]

-- What the buffer of a request holds at its end.
abbrev pub arrived : (dirty : Bool) → Option Memory → Memory → Memory
arrived true answer bytes = bytes
arrived false none bytes = bytes
arrived false (some words) bytes = words

pub answer_own :
    (b : ℕ) (answer : Option Memory) (s : Drive)
    → (take_answer b answer s).bytes b ≡ arrived (is_dirty (s.cache.flags b)) answer (s.bytes b)
answer_own b answer s = go (is_dirty (s.cache.flags b)) answer
  where
    go :
        (dirty : Bool) (answer : Option Memory)
        → (if dirty
              then s.bytes
              else elim answer [ none ↦ s.bytes | some words ↦ put_at s.bytes b words ])
            b
          ≡ arrived dirty answer (s.bytes b)
    go true answer = refl
    go false none = refl
    go false (some words) = put_at_self s.bytes b words

module _ (answer : Option Memory) (s : Drive) (b : ℕ) (xs : List ℕ) (v : Queued s (b ∷ xs)) where
  -- The next request becomes the first.
  pub irq-Queued : Queued (ide_irq_handler answer s) xs
  irq-Queued =
      rw (irq-served b answer s v.chain.0) (record { chain = v.chain.1; distinct = v.distinct.1 })

  pub irq-Request :
      (x dev blockno flags : ℕ) (bytes : Memory)
      → x ≢ b
      → Request s x dev blockno flags bytes
      → Request (ide_irq_handler answer s) x dev blockno flags bytes
  irq-Request x dev blockno flags bytes ne r =
      let other : (x == b) ≡ false = ground (arith, ne) in
      rw (irq-served b answer s v.chain.0) (record {
        dev_is = r.dev_is;
        blockno_is = r.blockno_is;
        flags_are = rw other r.flags_are;
        bytes_are = answer_other b x answer s ne ∙ r.bytes_are;
      })
