-- ===== src/Serial/Queue/Refine.antt =====
-- The circular queue of queue.c holds a list, oldest first, and its operations are those of a
-- first-in first-out list of at most `queue_size` items.
use class_example.Prelude.{
  ℕ, zero, suc, ◌+◌, ◌-◌, ◌%◌, ◌≤◌, ◌<◌, ◌≡◌, ◌≢◌, refl, ap, ap₂, false, Option, none, some, List,
  [], ◌∷◌, ◌++◌, arith, if◌then◌else◌, ◌==◌, get_or, set, length, length-set, get_or-set_self,
  get_or-set_ne, replicate,
}
use class_example.Serial.Queue.{
  Queue, queue_size, Status, success, error, enqueue, dequeue, clear, clear_items, zero_queue,
  queue_in, queue_out, queue_init,
}

-- The representation invariant of `q_t`.
pub record IsQueue (q : Queue) : Type 0 where
  pub storage : length q.items ≡ queue_size
  pub head_in : q.head < queue_size
  pub size_in : q.size ≤ queue_size
  pub tail_at : q.tail ≡ (q.head + q.size) % queue_size

-- The `n` items from index `h` on, going round at the end of the array.
abbrev pub window : List ℕ → ℕ → ℕ → List ℕ
window items h zero = []
window items h (suc n) = get_or items h 0 ∷ window items ((h + 1) % queue_size) n

-- The list that a queue stands for.
abbrev pub contents : Queue → List ℕ
contents q = window q.items q.head q.size

length-window : (items : List ℕ) (h n : ℕ) → length (window items h n) ≡ n
length-window items h zero = refl
length-window items h (suc n) = ap suc (length-window items ((h + 1) % queue_size) n)

pub length-contents : (q : Queue) → length (contents q) ≡ q.size
length-contents q = length-window q.items q.head q.size

window_snoc :
    (items : List ℕ) (h n i : ℕ)
    → h < queue_size
    → i ≡ (h + n) % queue_size
    → window items h (suc n) ≡ window items h n ++ (get_or items i 0 ∷ [])
window_snoc items h zero i hh e = ap (λ k. get_or items k 0 ∷ []) (omega arith)
window_snoc items h (suc n) i hh e =
    ap (λ xs. get_or items h 0 ∷ xs)
      (window_snoc items ((h + 1) % queue_size) n i (omega arith) (omega arith))

-- A write at an index that lies `n` places or more behind `h` is not seen.
window-set :
    (items : List ℕ) (h n i v : ℕ)
    → h < queue_size
    → i < queue_size
    → n ≤ (i + queue_size - h) % queue_size
    → window (set items i v) h n ≡ window items h n
window-set items h zero i v hh hi far = refl
window-set items h (suc n) i v hh hi far =
    ap₂ ◌∷◌ (get_or-set_ne items i h v 0 (omega arith))
      (window-set items ((h + 1) % queue_size) n i v (omega arith) hi (omega arith))

-- The first-in first-out list that the queue implements.
unfoldable pub push : List ℕ → ℕ → Status × List ℕ
push xs x = if length xs == queue_size then (error, xs) else (success, xs ++ (x ∷ []))

unfoldable pub pop : List ℕ → Status × Option ℕ × List ℕ
pop [] = (error, none, [])
pop (x ∷ xs) = (success, some x, xs)

clear_items-zero : (xs : List ℕ) → clear_items xs ≡ replicate (length xs) 0
unfolding clear_items
clear_items-zero [] = refl
clear_items-zero (x ∷ xs) = ap (λ ys. 0 ∷ ys) (clear_items-zero xs)

-- An item is added behind the others.
pub contents-enqueue :
    (q : Queue) (x : ℕ)
    → IsQueue q
    → q.size < queue_size
    → contents (enqueue q x).1 ≡ contents q ++ (x ∷ [])
unfolding enqueue
contents-enqueue q x v room = ground (
  arith,
  window_snoc (set q.items q.tail x) q.head q.size q.tail,
  window-set q.items q.head q.size q.tail x,
  get_or-set_self q.items q.tail x 0,
)

window_pos :
    (items : List ℕ) (h n : ℕ)
    → n ≢ 0
    → window items h n ≡ get_or items h 0 ∷ window items ((h + 1) % queue_size) (n - 1)
window_pos items h zero p = absurd (p refl)
window_pos items h (suc n) p = ap (λ k. window items h (suc k)) (omega arith)

-- The front item is taken, and the others stay.
pub contents-dequeue :
    (q : Queue)
    → IsQueue q
    → q.size ≢ 0
    → contents q ≡ get_or q.items q.head 0 ∷ contents (dequeue q).2
unfolding dequeue
contents-dequeue q v some_in = ground (
  arith,
  window_pos q.items q.head q.size,
  window-set q.items ((q.head + 1) % queue_size) (q.size - 1) q.head 0,
)

pub enqueue-IsQueue : (q : Queue) (x : ℕ) → IsQueue q → IsQueue (enqueue q x).1
unfolding enqueue
enqueue-IsQueue q x v = ground (arith, length-set q.items q.tail x)

pub dequeue-IsQueue : (q : Queue) → IsQueue q → IsQueue (dequeue q).2
unfolding dequeue
dequeue-IsQueue q v = ground (arith, length-set q.items q.head 0)

enqueue-push :
    (q : Queue) (x : ℕ)
    → IsQueue q
    → ((enqueue q x).0, contents (enqueue q x).1) ≡ push (contents q) x
unfolding enqueue push
enqueue-push q x v = ground (arith, length-contents q, contents-enqueue q x v)

dequeue-pop :
    (q : Queue)
    → IsQueue q
    → ((dequeue q).0, (dequeue q).1, contents (dequeue q).2) ≡ pop (contents q)
unfolding dequeue pop
dequeue-pop q v = ground (arith, window_pos q.items q.head q.size, contents-dequeue q v)

-- `queue_in` of a queue in good order keeps it so, and returns the status and leaves the list of
-- the first-in first-out list: an error and no change exactly when 20 items are held, and else the
-- item behind the others.
pub queue_in_refines :
    (q : Queue) (x : ℕ)
    → IsQueue q
    → (q' : Queue) × (queue_in (some q) x ≡ ((push (contents q) x).0, some q'))
      × IsQueue q'
      × (contents q' ≡ (push (contents q) x).1)
unfolding queue_in
queue_in_refines q x v = (
  (enqueue q x).1,
  ground (arith, enqueue-push q x v),
  enqueue-IsQueue q x v,
  ground (arith, enqueue-push q x v),
)

-- `queue_out` of a queue in good order keeps it so, and returns the status and the item and leaves
-- the list of the first-in first-out list: an error, nothing written through `item` and no change
-- when no item is held, and else the oldest item.
pub queue_out_refines :
    (q : Queue)
    → IsQueue q
    → (q' : Queue) × (queue_out (some q) false
        ≡ ((pop (contents q)).0, (pop (contents q)).1, some q'))
      × IsQueue q'
      × (contents q' ≡ (pop (contents q)).2)
unfolding queue_out
queue_out_refines q v = (
  (dequeue q).2,
  ground (arith, dequeue-pop q v),
  dequeue-IsQueue q v,
  ground (arith, dequeue-pop q v),
)

-- `queue_init` of an array of 20 items, whatever it holds, gives the empty list in good order.
pub queue_init_refines :
    (q : Queue)
    → length q.items ≡ queue_size
    → (q' : Queue) × (queue_init (some q) ≡ (success, some q')) × IsQueue q' × (contents q' ≡ [])
unfolding queue_init clear
queue_init_refines q h = (zero_queue, rw (clear_items-zero q.items, h), omega arith, refl)
