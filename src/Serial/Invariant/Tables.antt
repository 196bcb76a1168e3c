-- ===== src/Serial/Invariant/Tables.antt =====
-- How the counts of PIDs change with an operation on a queue or on the table of semaphores.
use mathlib.Core.Option
use class_example.Prelude.{
  ℕ, zero, suc, ◌+◌, ◌≤◌, ◌<◌, ◌≡◌, ◌≢◌, ◌∙◌, ap, some, List, [], ◌∷◌, arith, if◌then◌else◌, ◌==◌,
  get_or, get_elem?, set, count, count-append,
}
use class_example.Serial.Queue.{Queue, queue_size, enqueue, dequeue}
use class_example.Serial.Queue.Refine.{IsQueue, contents, contents-enqueue, contents-dequeue}
use class_example.Serial.State.{Sem}
use class_example.Serial.Invariant.{waiting}

-- The item that `queue_out` takes.
abbrev pub front : Queue → ℕ
front q = Option.get_or (dequeue q).1 0

pub count-enqueue :
    (q : Queue) (x p : ℕ)
    → IsQueue q
    → q.size < queue_size
    → count p (contents (enqueue q x).1) ≡ count p (contents q) + (if x == p then 1 else 0)
count-enqueue q x p v room =
    ap (count p) (contents-enqueue q x v room) ∙ count-append p (contents q) (x ∷ []) ∙ omega arith

pub front_lem : (q : Queue) → q.size ≢ 0 → front q ≡ get_or q.items q.head 0
unfolding dequeue
front_lem q ne = ground arith

pub count-dequeue :
    (q : Queue) (p : ℕ)
    → IsQueue q
    → q.size ≢ 0
    → count p (contents q) ≡ (if front q == p then 1 else 0) + count p (contents (dequeue q).2)
count-dequeue q p v ne = rw (front_lem q ne) (ap (count p) (contents-dequeue q v ne))

pub waiting-set :
    (ss : List Sem) (sid : ℕ) (s s' : Sem) (p : ℕ)
    → get_elem? ss sid ≡ some s
    → waiting p (set ss sid s') + count p (contents s.wait_q)
      ≡ waiting p ss + count p (contents s'.wait_q)
waiting-set [] sid s s' p e = absurd (ground arith)
waiting-set (x ∷ ss) zero s s' p e = let same : x ≡ s = cc in rw same (omega arith)
waiting-set (x ∷ ss) (suc sid) s s' p e = omega (arith, waiting-set ss sid s s' p e)

pub count-le-waiting :
    (ss : List Sem) (sid : ℕ) (s : Sem) (p : ℕ)
    → get_elem? ss sid ≡ some s
    → count p (contents s.wait_q) ≤ waiting p ss
count-le-waiting [] sid s p e = absurd (ground arith)
count-le-waiting (x ∷ ss) zero s p e = let same : x ≡ s = cc in rw same (omega arith)
count-le-waiting (x ∷ ss) (suc sid) s p e = omega (arith, count-le-waiting ss sid s p e)
