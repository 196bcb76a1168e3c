-- ===== src/Serial/Syscall.antt =====
-- The library of system calls, 9.serialport/src/syscall.c: what runs as the process.
pub mod Line
use class_example.Prelude.{
  ℕ, ◌+◌, ◌-◌, ◌%◌, Bool, Option, none, some, List, [], ◌∷◌, ◌>>=◌, if◌then◌else◌, ◌==◌, get_elem?,
}
use class_example.Serial.Machine.{Machine}
use class_example.Serial.State.{Kernel, TrapFrame, set_port, buff_size}
use class_example.Serial.Dispatch.{kernel}

-- The stores of `PortAlloc` of src/syscall.c into the port table, which run as the process, so that
-- interrupts may come between them.
abbrev pub store_write_sid : ℕ → ℕ → Kernel → Option Kernel
store_write_sid p sid k = do
  d ← get_elem? k.port p
  some (set_port p (record d { write_sid = sid }) k)

abbrev pub store_read_sid : ℕ → ℕ → Kernel → Option Kernel
store_read_sid p sid k = do
  d ← get_elem? k.port p
  some (set_port p (record d { read_sid = sid }) k)

abbrev pub reset_read_q : ℕ → Kernel → Option Kernel
reset_read_q p k = do
  d ← get_elem? k.port p
  some (set_port p (record d { read_q = record (d.read_q) { size = 0 } }) k)

-- `int event` with two registers loaded, made by the running process: the kernel behind it, and the
-- `EAX` of the process that goes on. For a call that does not block that is the caller.
unfoldable pub sys_call : Machine → (event eax ebx : ℕ) → Kernel → Option (Kernel × ℕ)
sys_call m event eax ebx k = do
  c ← get_elem? k.pcb k.current_pid
  (k', f) ← kernel m (λ _. 0) (record (c.frame) { event_num = event; eax = eax; ebx = ebx }) k
  some (k', f.eax)

-- `SemAlloc`
unfoldable pub sem_alloc : Machine → ℕ → Kernel → Option (Kernel × ℕ)
sem_alloc m passes k = sys_call m 0x66 passes 0 k

-- `PortAlloc`, when no interrupt comes between its steps; `eax` is what the register holds before.
unfoldable pub port_alloc : Machine → (eax : ℕ) → Kernel → Option (Kernel × ℕ)
port_alloc m eax k = do
  (k1, p) ← sys_call m 0x6a eax 0 k
  (k2, write_sid) ← sem_alloc m 20 k1
  k3 ← store_write_sid p write_sid k2
  (k4, read_sid) ← sem_alloc m 0 k3
  k5 ← store_read_sid p read_sid k4
  k6 ← reset_read_q p k5
  some (k6, p)

-- Memory as the process sees it.
abbrev pub store : (ℕ → ℕ) → ℕ → ℕ → ℕ → ℕ
store memory p c a = if a == p then c else memory a

-- A round of the loop of `PortRead` after its `SemWait` has returned: the call puts the next character of the read
-- queue at `p`, or leaves memory as it is when the queue is empty.
abbrev pub deliver : Option ℕ → (p : ℕ) → (ℕ → ℕ) → ℕ → ℕ
deliver none p memory = memory
deliver (some c) p memory = store memory p (c % 256)

-- The loop of `PortRead`, over its rounds: `SemWait` returns once for each, and for no more of them, so that the
-- process is blocked, with `none`, when they are over. The result is where `p` points at the end, and memory.
unfoldable pub read_loop : List (Option ℕ) → (p size : ℕ) → (ℕ → ℕ) → Option (ℕ × (ℕ → ℕ))
read_loop [] p size memory = none
read_loop (r ∷ rs) p size memory =
    let memory' = deliver r p memory in
    let rest = read_loop rs (p + 1) (size + 1) memory' in
    if memory' p == 13
    then some (p, memory')
    else if size + 1 == buff_size - 1
    then some (p + 1, memory')
    else rest

-- `PortRead` into the buffer at `p`.
unfoldable pub port_read : List (Option ℕ) → (p : ℕ) → (ℕ → ℕ) → Option (ℕ → ℕ)
port_read rounds p memory = do (q, memory') ← read_loop rounds p 0 memory; some (store memory' q 0)
