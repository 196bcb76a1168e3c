-- ===== src/Serial/Invariant/Move.antt =====
-- One PID moves from a place to another, and its PCB follows.
use class_example.Prelude.{
  ℕ, ◌+◌, ◌≤◌, ◌<◌, ◌≡◌, ◌≢◌, sym, List, arith, if◌then◌else◌, ◌==◌, set, length,
  get_elem?-set_self, get_elem?-set_ne,
}
use native.Mathlib.Decide.{ℕ_discrete}
use class_example.Serial.State.{State, state_num, Pcb}
use class_example.Serial.Invariant.{recorded}

-- 1 for the PID that moves and the state that is meant, and 0 for every other.
abbrev pub one_at : State → ℕ → State → ℕ → ℕ
one_at a f s p = if p == f then (if state_num s == state_num a then 1 else 0) else 0

pub recorded-set_ne :
    (pcbs : List Pcb) (f : ℕ) (c : Pcb) (s : State) (p : ℕ)
    → p ≢ f
    → recorded (set pcbs f c) s p ≡ recorded pcbs s p
recorded-set_ne pcbs f c s p h = rw (get_elem?-set_ne pcbs f p c (λ e. h (sym e)))

pub recorded-set_self :
    (pcbs : List Pcb) (f : ℕ) (c : Pcb) (s : State)
    → f ≢ 0
    → f < length pcbs
    → recorded (set pcbs f c) s f ≡ one_at c.state f s f
recorded-set_self pcbs f c s nz h = ground (arith, get_elem?-set_self pcbs f c h)

one_at_ne : (a : State) (f : ℕ) (s : State) (p : ℕ) → p ≢ f → one_at a f s p ≡ 0
one_at_ne a f s p h = ground arith

-- A PID that is recorded at one state is recorded at no other.
recorded_unique :
    (pcbs : List Pcb) (f : ℕ) (a s : State)
    → 1 ≤ recorded pcbs a f
    → recorded pcbs s f ≡ one_at a f s f
recorded_unique pcbs f a s h = ground arith

module _ (before after : State → ℕ → ℕ) (pcbs : List Pcb) (a : State) (f : ℕ) (c : Pcb)
    (agree : (s : State) (p : ℕ) → before s p ≡ recorded pcbs s p) (nonzero : f ≢ 0)
    (inside : f < length pcbs) (held : 1 ≤ before a f)
    (change : (s : State) (p : ℕ)
      → after s p + one_at a f s p ≡ before s p + one_at c.state f s p) where
  move_self : (s : State) → after s f ≡ recorded (set pcbs f c) s f
  move_self s =
      let held' : 1 ≤ recorded pcbs a f = omega (arith, agree a f) in
      omega (
        arith,
        change s f,
        agree s f,
        recorded-set_self pcbs f c s nonzero inside,
        recorded_unique pcbs f a s held',
      )

  move_other : (s : State) (p : ℕ) → p ≢ f → after s p ≡ recorded (set pcbs f c) s p
  move_other s p h =
      rw (recorded-set_ne pcbs f c s p h)
        (omega (arith, change s p, agree s p, one_at_ne a f s p h, one_at_ne c.state f s p h))

  -- The books agree after the move, if it changed just the two places.
  pub move : (s : State) (p : ℕ) → after s p ≡ recorded (set pcbs f c) s p
  move s p = elim (ℕ_discrete p f) [
    | yes same ↦ rw same (move_self s)
    | no other ↦ move_other s p other
  ]
