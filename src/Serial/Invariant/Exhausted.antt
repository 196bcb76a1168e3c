-- ===== src/Serial/Invariant/Exhausted.antt =====
-- Two places of 9.serialport where a caller is misled: `SemAlloc` when the table is full, and the reset
-- of `read_q` in `PortAlloc` when a character has come in already.
use class_example.Prelude.{
  ℕ, ◌<◌, ◌≡◌, ◌≢◌, refl, ap, none, some, List, [], ◌∷◌, arith, ◌==◌, get_or, length, get_elem?-lt,
  get_elem?, lt-get_elem?, get_elem?-set_self, get_or-set_ne, false, All,
}
use class_example.Prelude.Returns.{Returns, returns}
use class_example.Serial.Queue.{queue_size, enqueue, dequeue}
use class_example.Serial.Queue.Refine.{IsQueue}
use class_example.Serial.Machine.{Machine}
use class_example.Serial.State.{Kernel, Port, Sem, set_pcb}
use class_example.Serial.Semaphore.{free_slot, sem_alloc_handler, alloc_in}
use class_example.Serial.Process.{scheduler}
use class_example.Serial.Dispatch.{kernel, handle}
use class_example.Serial.Syscall.{sys_call, sem_alloc, reset_read_q}
use class_example.Serial.Invariant.{IsKernel}

free_slot-none : (ss : List Sem) → All (λ s. s.owner ≢ 0) ss → free_slot ss ≡ none
unfolding free_slot
free_slot-none [] h = refl
free_slot-none (s ∷ ss) h =
    let owned : (s.owner == 0) ≡ false = ground (arith, h.0) in rw (owned, free_slot-none ss h.1)

-- In a kernel in good order in which a process runs and every semaphore has an owner, `SemAlloc` gives the
-- caller its own argument for an id, and the table is as before.
pub sem_alloc_exhausted :
    (m : Machine) (passes : ℕ) (k : Kernel)
    → IsKernel k
    → k.current_pid ≢ 0
    → All (λ s. s.owner ≢ 0) k.sem
    → (k' : Kernel) × (sem_alloc m passes k ≡ some (k', passes)) × (k'.sem ≡ k.sem)
unfolding sem_alloc sys_call kernel handle sem_alloc_handler alloc_in scheduler
sem_alloc_exhausted m passes k v running owned =
    let h : k.current_pid < length k.pcb = omega (arith, v.current_in, v.pcb_count) in
    let (c, e) = get_elem?-lt k.pcb k.current_pid h in
    let c' = record c { frame = record (c.frame) { event_num = 0x66; eax = passes; ebx = 0 } } in
    let busy : (k.current_pid == 0) ≡ false = ground (arith, running) in
    (
      set_pcb k.current_pid c' k,
      rw (e, free_slot-none k.sem owned, busy, get_elem?-set_self k.pcb k.current_pid c' h),
      refl,
    )

-- Port `p` has a queue from which, when `c` has come in, a reader gets `x`.
abbrev pub Reads : (p c x : ℕ) → Kernel → Type 0
Reads p c x k =
    (d : Port) × (get_elem? k.port p ≡ some d) × ((dequeue (enqueue d.read_q c).1).1 ≡ some x)

-- When the queue of a port is in good order and holds some characters, but is not full, and `PortAlloc` resets
-- it, then the next character that comes in is stored behind them, and the reader gets the oldest of them in its
-- place.
pub reset_then_read :
    (k : Kernel) (p : ℕ) (d : Port) (c : ℕ)
    → get_elem? k.port p ≡ some d
    → IsQueue d.read_q
    → d.read_q.size ≢ 0
    → d.read_q.size < queue_size
    → Returns (Reads p c (get_or d.read_q.items d.read_q.head 0)) (reset_read_q p k)
unfolding enqueue dequeue
reset_then_read k p d c at_p v ne room =
    let q = d.read_q in
    let now = record d { read_q = record q { size = 0 } } in
    rw at_p (
      returns (
        now,
        get_elem?-set_self k.port p now (lt-get_elem? k.port p at_p),
        ap some (get_or-set_ne q.items q.tail q.head c 0 (omega (arith, v.tail_at, v.head_in))),
      ))
