-- ===== src/Serial/Invariant/Room.antt =====
-- No queue of PIDs can be full: a list that holds each of the 19 PIDs once at most has 19 items at
-- most.
use class_example.Prelude.{
  ℕ, zero, suc, ◌+◌, ◌≤◌, ◌<◌, ◌≡◌, ◌≢◌, refl, List, [], ◌∷◌, arith, if◌then◌else◌, ltb, length,
  count, get_elem?-ge,
}
use native.Mathlib.Decide.{dec_lt}
use class_example.Serial.Queue.{Queue}
use class_example.Serial.Queue.Refine.{contents, length-contents}
use class_example.Serial.State.{State, Pcb, proc_num}
use class_example.Serial.Invariant.{recorded}

-- How often the numbers below `n` stand in a list.
sum_counts : ℕ → List ℕ → ℕ
sum_counts zero xs = 0
sum_counts (suc n) xs = count n xs + sum_counts n xs

sum_counts-nil : (n : ℕ) → sum_counts n [] ≡ 0
unfolding sum_counts
sum_counts-nil zero = refl
sum_counts-nil (suc n) = omega (arith, sum_counts-nil n)

sum_counts-cons :
    (n x : ℕ) (xs : List ℕ) → sum_counts n (x ∷ xs) ≡ (if ltb x n then 1 else 0) + sum_counts n xs
unfolding sum_counts
sum_counts-cons zero x xs = ground arith
sum_counts-cons (suc n) x xs = ground (arith, sum_counts-cons n x xs)

length-sum_counts :
    (n : ℕ) (xs : List ℕ) → ((p : ℕ) → n ≤ p → count p xs ≡ 0) → length xs ≡ sum_counts n xs
length-sum_counts n [] h = omega (arith, sum_counts-nil n)
length-sum_counts n (x ∷ xs) h =
    ground
      (arith, sum_counts-cons n x xs, length-sum_counts n xs (λ p le. ground (arith, h p)), h x)

sum_counts-le :
    (n : ℕ) (xs : List ℕ) → ((p : ℕ) → count p xs ≤ 1) → count 0 xs ≡ 0 → sum_counts (suc n) xs ≤ n
unfolding sum_counts
sum_counts-le zero xs one none_zero = omega arith
sum_counts-le (suc n) xs one none_zero =
    omega (arith, one (suc n), sum_counts-le n xs one none_zero)

recorded-le : (pcbs : List Pcb) (s : State) (p : ℕ) → recorded pcbs s p ≤ 1
recorded-le pcbs s p = ground arith

recorded-outside : (pcbs : List Pcb) (s : State) (p : ℕ) → length pcbs ≤ p → recorded pcbs s p ≡ 0
recorded-outside pcbs s p h = ground (arith, get_elem?-ge pcbs p h)

-- A queue that holds no PID oftener than the PCBs allow has room for one more.
pub has_room :
    (q : Queue) (pcbs : List Pcb) (s : State)
    → length pcbs ≡ proc_num
    → ((p : ℕ) → count p (contents q) ≤ recorded pcbs s p)
    → q.size < proc_num
has_room q pcbs s len bound =
    let outside : (p : ℕ) → 20 ≤ p → count p (contents q) ≡ 0 =
      λ p h. omega (arith, bound p, recorded-outside pcbs s p (omega arith)) in
    omega (
      arith,
      length-contents q,
      length-sum_counts 20 (contents q) outside,
      sum_counts-le 19 (contents q) (λ p. omega (arith, bound p, recorded-le pcbs s p))
          (omega (arith, bound 0)),
    )

-- What is recorded of a PID says that it is one.
pub recorded-pid :
    (pcbs : List Pcb) (s : State) (p : ℕ) → 1 ≤ recorded pcbs s p → (p ≢ 0) × (p < length pcbs)
recorded-pid pcbs s p h = (
  ground arith,
  elim (dec_lt p (length pcbs)) [
    | yes below ↦ below
    | no above ↦ absurd (omega (arith, recorded-outside pcbs s p (omega arith)))
  ],
)
