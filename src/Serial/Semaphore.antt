-- ===== src/Serial/Semaphore.antt =====
-- Semaphores of 9.serialport: `SemAllocHandler`, `SemWaitHandler` and `SemPostHandler` of
-- src/handlers.c.
use class_example.Prelude.{
  ℕ, suc, ◌-◌, Option, none, some, List, [], ◌∷◌, ◌>>=◌, if◌then◌else◌, ◌==◌, get_elem?,
}
use mathlib.Core.Option.{get_or}
use class_example.Serial.Queue.{enqueue, dequeue}
use class_example.Serial.State.{
  Kernel, Sem, ready, wait, zero_sem, set_sem, set_eax, set_state, make_ready, is_positive,
  increment,
}

-- The index of the first semaphore with no owner, if there is one.
unfoldable pub free_slot : List Sem → Option ℕ
free_slot [] = none
free_slot (s ∷ ss) = if s.owner == 0 then some 0 else (do i ← free_slot ss; some (suc i))

-- The rest of the handler, by what the search found.
unfoldable pub alloc_in : ℕ → Kernel → Option ℕ → Option Kernel
alloc_in passes k none = some k
alloc_in passes k (some sid) =
    set_eax sid (set_sem sid (record zero_sem { passes = passes; owner = k.current_pid }) k)

unfoldable pub sem_alloc_handler : ℕ → Kernel → Option Kernel
sem_alloc_handler passes k = alloc_in passes k (free_slot k.sem)

unfoldable pub sem_wait_handler : ℕ → Kernel → Option Kernel
sem_wait_handler sid k = do
  s ← get_elem? k.sem sid
  if is_positive s.passes then some (set_sem sid (record s { passes = s.passes - 1 }) k) else (do
    let q = (enqueue s.wait_q k.current_pid).1
    k' ← set_state k.current_pid wait (set_sem sid (record s { wait_q = q }) k)
    some (record k' { current_pid = 0 }))

unfoldable pub sem_post_handler : ℕ → Kernel → Option Kernel
sem_post_handler sid k = do
  s ← get_elem? k.sem sid
  if s.wait_q.size == 0
      then some (set_sem sid (record s { passes = increment s.passes }) k)
      else (do
        let (st, out, rest) = dequeue s.wait_q
        let free_pid = get_or out 0
        set_state free_pid ready (make_ready free_pid (set_sem sid (record s { wait_q = rest }) k)))
