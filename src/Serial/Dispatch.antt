-- ===== src/Serial/Dispatch.antt =====
-- 9.serialport/src/main.c: the bootstrap `main` and the dispatcher `Kernel`.
-- The event numbers are those of include/events.h. What runs between two entries of the kernel is
-- the process; it comes back with any trapframe.
use class_example.Prelude.{
  ℕ, zero, suc, ◌+◌, Option, some, [], ◌>>=◌, if◌then◌else◌, ◌==◌, get_elem?, replicate,
}
use class_example.Serial.Queue.{Queue, zero_queue, enqueue}
use class_example.Serial.Machine.{Machine}
use class_example.Serial.State.{
  Kernel, TrapFrame, zero_pcb, zero_sem, zero_port, set_pcb, outportb, proc_num, q_size, port_num,
}
use class_example.Serial.Process.{new_proc_handler, timer_handler, scheduler}
use class_example.Serial.Semaphore.{sem_alloc_handler, sem_wait_handler, sem_post_handler}
use class_example.Serial.Port.{
  port_handler, port_alloc_handler, port_write_handler, port_read_handler,
}

-- The cases of the dispatcher's `switch`.
pub data Event : Type 0 where
  timer sem_alloc sem_wait sem_post port_irq port_alloc port_write port_read unknown : Event

abbrev pub event_of : ℕ → Event
event_of n =
    if n == 0x20
    then timer
    else if n == 0x66
    then sem_alloc
    else if n == 0x67
    then sem_wait
    else if n == 0x68
    then sem_post
    else if n == 0x23
    then port_irq
    else if n == 0x6a
    then port_alloc
    else if n == 0x6b
    then port_write
    else if n == 0x6c
    then port_read
    else unknown

-- The loop that fills `free_q` with the PIDs from `pid` on, as many as the first argument says.
unfoldable pub fill_free : ℕ → ℕ → Queue → Queue
fill_free zero pid q = q
fill_free (suc left) pid q = fill_free left (pid + 1) (enqueue q pid).1

-- The globals before `main`, zeroed by the loader; memory and the output are what they are.
abbrev pub start_state : (ℕ → ℕ) → Kernel
start_state memory = record {
  current_pid = 0;
  current_time = 0;
  ready_q = zero_queue;
  free_q = zero_queue;
  pcb = replicate proc_num zero_pcb;
  sem = replicate q_size zero_sem;
  port = replicate port_num zero_port;
  memory = memory;
  output = [];
}

module _ (m : Machine) where
  -- `switch (TF_p->event_num)`
  unfoldable pub handle : (inb : ℕ → ℕ) → Event → TrapFrame → Kernel → Option Kernel
  handle inb timer tf k = timer_handler k
  handle inb sem_alloc tf k = sem_alloc_handler tf.eax k
  handle inb sem_wait tf k = sem_wait_handler tf.eax k
  handle inb sem_post tf k = sem_post_handler tf.eax k
  handle inb port_irq tf k = port_handler m inb k
  handle inb port_alloc tf k = port_alloc_handler m k
  handle inb port_write tf k = port_write_handler m tf.eax tf.ebx k
  handle inb port_read tf k = port_read_handler m tf.eax tf.ebx k
  handle inb unknown tf k = some k

  -- `Kernel(TF_p)`: the new state, and the frame that `KernelExit` restores.
  unfoldable pub kernel : (inb : ℕ → ℕ) → TrapFrame → Kernel → Option (Kernel × TrapFrame)
  kernel inb tf k = do
    c ← get_elem? k.pcb k.current_pid
    k1 ← handle inb (event_of tf.event_num) tf (set_pcb k.current_pid (record c { frame = tf }) k)
    k2 ← scheduler k1
    next ← get_elem? k2.pcb k2.current_pid
    some (k2, next.frame)

  -- `main`, with the addresses of `Init` and `TermProc`.
  unfoldable pub boot : (init term_proc : ℕ) → (ℕ → ℕ) → Option (Kernel × TrapFrame)
  boot init term_proc memory = do
    let k0 = start_state memory
    let k1 = record k0 { free_q = fill_free 19 1 zero_queue }
    k2 ← new_proc_handler m init (outportb 0x21 0xe6 k1)
    k3 ← new_proc_handler m term_proc k2
    k4 ← scheduler k3
    c ← get_elem? k4.pcb k4.current_pid
    some (k4, c.frame)
