-- ===== src/Serial/Examples.antt =====
-- Concrete kernels of 9.serialport, tests of the model on them, and the theorems at these inputs.
use class_example.Prelude.{
  ℕ, ◌≡◌, refl, inr, false, true, Option, none, some, List, [], ◌∷◌, ◌++◌, arith, ◌>>=◌,
  if◌then◌else◌, ◌==◌, All-replicate, get_elem?, replicate, set,
}
use class_example.Prelude.Returns.{Returns, Returns-some}
use class_example.Serial.Queue.{Queue, error, queue_in, queue_out, enqueue, dequeue}
use class_example.Serial.Queue.Refine.{
  IsQueue, contents, push, pop, queue_in_refines, queue_out_refines,
}
use class_example.Serial.Machine.{Machine}
use class_example.Serial.State.{
  Kernel, TrapFrame, Pcb, Sem, Port, run, ready, zero_frame, zero_pcb, zero_sem, zero_port,
  zero_frame, set_sem, set_port, set_state, set_eax,
}
use class_example.Serial.Process.{initial_frame, new_proc_handler, scheduler, timer_handler}
use class_example.Serial.Semaphore.{free_slot, alloc_in, sem_alloc_handler, sem_post_handler}
use class_example.Serial.Port.{
  port_write_one, port_write_handler, port_read_one, port_handler, echo, free_port, alloc_port_in,
  port_alloc_handler, take_one, serve_port, port_loop,
}
use class_example.Serial.Dispatch.{boot, kernel, handle, fill_free}
use class_example.Serial.Syscall.{port_read, sem_alloc, port_alloc, sys_call, reset_read_q}
use class_example.Serial.Syscall.Line.{line, Filled, port_read-Filled, delivered}
use class_example.Serial.Invariant.{IsKernel, IsSem}
use class_example.Serial.Invariant.Parts.{with_sem, with_port}
use class_example.Serial.Invariant.Step.{Resumes, kernel-Resumes}
use class_example.Serial.Invariant.Boot.{boot-Resumes}
use class_example.Serial.Invariant.Reach.{booted, entered, IsRunning, Reach-IsRunning}
use class_example.Serial.Invariant.Pending.{SentOne, write_one-SentOne, port_write-SentOne}
use class_example.Serial.Invariant.Exhausted.{sem_alloc_exhausted, Reads, reset_then_read}

-- The values of a PC with 16550 UARTs.
abbrev pc : Machine
pc = record {
  reg_data = 0;
  reg_ier = 1;
  reg_iir = 2;
  reg_cfcr = 3;
  reg_mcr = 4;
  reg_baudlo = 0;
  reg_baudhi = 1;
  iir_rxrdy = 4;
  iir_txrdy = 2;
  cfcr_dlab = 0x80;
  cfcr_7e1 = 0x1a;
  mcr_dtr_rts_ienable = 0xb;
  ier_erxrdy_etxrdy = 3;
  eflags_intr = 0x202;
  get_cs = 8;
  get_ds = 0x10;
  get_es = 0x10;
  get_fs = 0x10;
  get_gs = 0x10;
}

-- A queue whose two items go round the end of the array.
abbrev wrapped : Queue
wrapped = record { head = 19; tail = 1; size = 2; items = 8 ∷ (replicate 18 0 ++ (7 ∷ [])) }

wrapped-IsQueue : IsQueue wrapped
wrapped-IsQueue = omega arith

contents-wrapped : contents wrapped ≡ 7 ∷ 8 ∷ []
contents-wrapped = refl

queue_in_refines_example :
    (q' : Queue) × (queue_in (some wrapped) 9 ≡ ((push (7 ∷ 8 ∷ []) 9).0, some q'))
    × IsQueue q'
    × (contents q' ≡ (push (7 ∷ 8 ∷ []) 9).1)
queue_in_refines_example = queue_in_refines wrapped 9 wrapped-IsQueue

queue_out_refines_example :
    (q' : Queue) × (queue_out (some wrapped) false
      ≡ ((pop (7 ∷ 8 ∷ [])).0, (pop (7 ∷ 8 ∷ [])).1, some q'))
    × IsQueue q'
    × (contents q' ≡ (pop (7 ∷ 8 ∷ [])).2)
queue_out_refines_example = queue_out_refines wrapped wrapped-IsQueue

null_pointers :
    (queue_in none 3 ≡ (error, none))
    × (queue_out (some wrapped) true ≡ (error, none, some wrapped))
unfolding queue_in queue_out
null_pointers = (refl, refl)

-- The kernel after the bootstrap: PID 1 runs, PID 2 is ready.
abbrev no_memory : ℕ → ℕ
no_memory a = 0

abbrev pcb1 : Pcb
pcb1 = record zero_pcb { frame = initial_frame pc 1000; state = run }

abbrev k0 : Kernel
k0 = record {
  current_pid = 1;
  current_time = 0;
  ready_q = record { head = 1; tail = 2; size = 1; items = 0 ∷ 2 ∷ replicate 18 0 };
  free_q = record {
    head = 2;
    tail = 19;
    size = 17;
    items =
        0 ∷ 0 ∷ 3 ∷ 4 ∷ 5 ∷ 6 ∷ 7 ∷ 8 ∷ 9 ∷ 10 ∷ 11 ∷ 12 ∷ 13 ∷ 14 ∷ 15 ∷ 16 ∷ 17 ∷ 18 ∷ 19 ∷ 0
        ∷ [];
  };
  pcb =
      zero_pcb
      ∷ pcb1
      ∷ record zero_pcb { frame = initial_frame pc 2000; state = ready }
      ∷ replicate 17 zero_pcb;
  sem = replicate 20 zero_sem;
  port = replicate 3 zero_port;
  memory = no_memory;
  output = (0x21, 0xe6) ∷ [];
}

boot-k0 : boot pc 1000 2000 no_memory ≡ some (k0, pcb1.frame)
unfolding boot fill_free enqueue dequeue new_proc_handler scheduler
boot-k0 = refl

k0-Resumes : Resumes (k0, pcb1.frame)
k0-Resumes = Returns-some (boot-Resumes pc 1000 2000 no_memory) boot-k0

boot-Resumes_example : Returns Resumes (boot pc 1000 2000 no_memory)
boot-Resumes_example = boot-Resumes pc 1000 2000 no_memory

-- A tick of the timer for PID 1.
abbrev ticked : Kernel
ticked = record k0 {
  current_time = 1;
  pcb = set k0.pcb 1 (record pcb1 { cpu_time = 1; frame = record zero_frame { event_num = 0x20 } });
  output = (0x21, 0xe6) ∷ (0x20, 0x20) ∷ [];
}

tick :
    kernel pc no_memory (record zero_frame { event_num = 0x20 }) k0
    ≡ some (ticked, record zero_frame { event_num = 0x20 })
unfolding kernel handle timer_handler scheduler
tick = refl

Reach-IsRunning_example : IsRunning ticked
Reach-IsRunning_example = Reach-IsRunning pc ticked (
    entered no_memory (record zero_frame { event_num = 0x20 }) (booted 1000 2000 no_memory boot-k0)
      tt tick)

-- PID 1 waits on semaphore 0, which it owns and which has no pass: it is blocked.
abbrev shut : Sem
shut = record zero_sem { owner = 1 }

abbrev k1 : Kernel
k1 = set_sem 0 shut k0

k1-IsKernel : IsKernel k1
k1-IsKernel =
    with_sem k0 0 zero_sem shut (k0-Resumes.good) refl
      (record {
        queue = omega arith;
        open_means_empty = λ _. refl;
        unowned_means_empty = λ _. refl;
      })
      (λ p. refl)

abbrev wait_0 : TrapFrame
wait_0 = record zero_frame { event_num = 0x67; eax = 0 }

kernel-Resumes_example : Returns Resumes (kernel pc no_memory wait_0 k1)
kernel-Resumes_example =
    kernel-Resumes pc no_memory wait_0 k1 k1-IsKernel (omega arith)
      (shut, refl, omega arith, inr (omega arith))

-- Port 0 belongs to PID 1, with 'a' to be echoed and 'b' to be sent.
abbrev q_of : ℕ → Queue
q_of c = record { head = 0; tail = 1; size = 1; items = c ∷ replicate 19 0 }

abbrev com2 : Port
com2 = record zero_port {
  owner = 1;
  io_base = 0x2f8;
  write_ok = 1;
  loopback_q = q_of b'a';
  write_q = q_of b'b';
}

abbrev k2 : Kernel
k2 = set_port 0 com2 k0

k2-IsKernel : IsKernel k2
k2-IsKernel = with_port k0 0 com2 (k0-Resumes.good) (omega arith)

write_one-SentOne_example : Returns (SentOne 0 0x2f8 (b'a' ∷ b'b' ∷ []) k2) (port_write_one pc 0 k2)
write_one-SentOne_example = write_one-SentOne pc k2 0 com2 k2-IsKernel refl

port_write-SentOne_example :
    Returns (SentOne 0 0x2f8 (b'a' ∷ b'b' ∷ b'c' ∷ []) k2) (port_write_handler pc b'c' 0 k2)
port_write-SentOne_example =
    port_write-SentOne pc k2 b'c' 0 com2 k2-IsKernel refl (omega arith) (omega arith)

-- "hi", a carriage return, and more.
abbrev typed : List ℕ
typed = b'h' ∷ b'i' ∷ 13 ∷ b'x' ∷ []

typed-line : line 99 typed ≡ some (b'h' ∷ b'i' ∷ [])
unfolding line
typed-line = refl

port_read-Filled_example :
    Returns (Filled 500 (b'h' ∷ b'i' ∷ []) no_memory) (port_read (delivered typed) 500 no_memory)
port_read-Filled_example = port_read-Filled typed 500 no_memory (b'h' ∷ b'i' ∷ []) typed-line

-- All twenty semaphores are taken.
abbrev k3 : Kernel
k3 = record k0 { sem = replicate 20 shut }

k3-IsKernel : IsKernel k3
k3-IsKernel = record {
  free_ok = omega arith;
  ready_ok = omega arith;
  sems_ok = All-replicate IsSem 20 shut (record {
    queue = omega arith;
    open_means_empty = λ _. refl;
    unowned_means_empty = λ _. refl;
  });
  ports_ok = k0-Resumes.good.ports_ok;
  pcb_count = refl;
  sem_count = refl;
  port_count = refl;
  current_in = omega arith;
  located = k0-Resumes.good.located;
}

sem_alloc_exhausted_example :
    (k' : Kernel) × (sem_alloc pc 20 k3 ≡ some (k', 20)) × (k'.sem ≡ replicate 20 shut)
sem_alloc_exhausted_example = sem_alloc_exhausted pc 20 k3 k3-IsKernel (omega arith) (omega arith)

-- Port 0 holds two characters, 7 and 8.
abbrev k4 : Kernel
k4 = set_port 0 (record zero_port { read_q = wrapped }) k0

reset_then_read_example : Returns (Reads 0 9 7) (reset_read_q 0 k4)
reset_then_read_example =
    reset_then_read k4 0 (record zero_port { read_q = wrapped }) 9 refl wrapped-IsQueue
      (omega arith) (omega arith)

-- A program allocates port 0, and semaphores 0 and 1 for it; then 'A' comes in and is echoed.
abbrev after_typing : Option (ℕ × ℕ × ℕ × List ℕ × List ℕ)
after_typing = do
  (k, p) ← port_alloc pc 0 k0
  k' ← port_handler pc (λ a. if a == 0x2fa then 4 else if a == 0x2f8 then b'A' else 0) k
  d ← get_elem? k'.port p
  some (p, d.write_sid, d.read_sid, contents d.read_q, contents d.loopback_q)

alloc_then_type : after_typing ≡ some (0, 0, 1, b'A' ∷ [], [])
unfolding port_alloc sem_alloc sys_call kernel handle scheduler sem_alloc_handler alloc_in free_slot
    set_eax port_alloc_handler alloc_port_in free_port port_handler port_loop serve_port
    port_read_one port_write_one take_one echo sem_post_handler set_state enqueue dequeue
alloc_then_type = refl
