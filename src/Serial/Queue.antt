-- ===== src/Serial/Queue.antt =====
-- 9.serialport/src/queue.c and include/queue.h: the circular queue of PIDs, characters and waiters.
-- A C `int` is its 32-bit pattern, a number; items are only moved.
pub mod Refine
use class_example.Prelude.{
  ℕ, zero, suc, ◌+◌, ◌-◌, ◌≡◌, Bool, true, false, Option, none, some, List, [], ◌∷◌, if◌then◌else◌,
  ◌==◌, get_or, set, replicate,
}

abbrev pub queue_size : ℕ
queue_size = 20

-- `q_t`
pub record Queue : Type 0 where
  pub head : ℕ
  pub tail : ℕ
  pub size : ℕ
  pub items : List ℕ

-- The `int` that the operations return: 0, or -1.
pub data Status : Type 0 where
  success error : Status

abbrev pub is_empty : Queue → Bool
is_empty q = if q.size == 0 then true else false

abbrev pub is_full : Queue → Bool
is_full q = if q.size == queue_size then true else false

-- `i++`, and back to the beginning at the end of the array.
abbrev pub advance : ℕ → ℕ
advance i = if i + 1 == queue_size then 0 else i + 1

-- The loop of `queue_init`, over the items that are left.
clear_items : List ℕ → List ℕ
clear_items [] = []
clear_items (x ∷ xs) = 0 ∷ clear_items xs

-- The operations on a queue that is there: what follows the test for a null pointer.
unfoldable pub clear : Queue → Queue
unfolding clear_items
clear q = record q { items = clear_items q.items; head = 0; tail = 0; size = 0 }

unfoldable pub enqueue : Queue → ℕ → Status × Queue
enqueue q item = if q.size == queue_size then (error, q) else (
  success,
  record q { items = set q.items q.tail item; tail = advance q.tail; size = q.size + 1 },
)

-- The option is what goes through `*item`; on an error nothing is written there.
unfoldable pub dequeue : Queue → Status × Option ℕ × Queue
dequeue q = if q.size == 0 then (error, none, q) else (
  success,
  some (get_or q.items q.head 0),
  record q { items = set q.items q.head 0; head = advance q.head; size = q.size - 1 },
)

-- The functions of queue.h. A pointer is an option; `none` is the null pointer.
unfoldable pub queue_init : Option Queue → Status × Option Queue
queue_init none = (error, none)
queue_init (some q) = (success, some (clear q))

unfoldable pub queue_in : Option Queue → ℕ → Status × Option Queue
queue_in none item = (error, none)
queue_in (some q) item = let (s, q') = enqueue q item in (s, some q')

-- The second argument says whether `item` is a null pointer.
unfoldable pub queue_out : Option Queue → Bool → Status × Option ℕ × Option Queue
queue_out none item_null = (error, none, none)
queue_out (some q) true = (error, none, some q)
queue_out (some q) false = let (s, out, q') = dequeue q in (s, out, some q')

-- What `memset(.., 0, sizeof(q_t))` leaves.
abbrev pub zero_queue : Queue
zero_queue = record { head = 0; tail = 0; size = 0; items = replicate queue_size 0 }
