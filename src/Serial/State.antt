-- ===== src/Serial/State.antt =====
-- 9.serialport/include/types.h and the kernel's global variables of src/main.c.
-- The trapframe that `TF_p` points to is held in the PCB itself: each frame lies on the stack of its
-- process and is reached through no other pointer. An access out of an array's range is undefined
-- in C; here it gives `none`.
use class_example.Prelude.{
  ℕ, ◌%◌, Option, some, List, [], ◌∷◌, ◌++◌, ◌>>=◌, if◌then◌else◌, ◌==◌, get_elem?, set,
}
pub use class_example.Prelude.{is_positive, increment}
use class_example.Serial.Queue.{Queue, zero_queue, enqueue}

abbrev pub time_limit : ℕ
time_limit = 10

abbrev pub proc_num : ℕ
proc_num = 20

abbrev pub q_size : ℕ
q_size = 20

abbrev pub port_num : ℕ
port_num = 3

abbrev pub buff_size : ℕ
buff_size = 101

-- `TF_t`, less the padding behind the segment registers.
pub record TrapFrame : Type 0 where
  pub gs : ℕ
  pub fs : ℕ
  pub es : ℕ
  pub ds : ℕ
  pub edi : ℕ
  pub esi : ℕ
  pub ebp : ℕ
  pub esp : ℕ
  pub ebx : ℕ
  pub edx : ℕ
  pub ecx : ℕ
  pub eax : ℕ
  pub event_num : ℕ
  pub eip : ℕ
  pub cs : ℕ
  pub eflags : ℕ

-- `state_t`
pub data State : Type 0 where
  free run ready sleep wait zombie : State

-- The number of an enumerator.
abbrev pub state_num : State → ℕ
state_num free = 0
state_num run = 1
state_num ready = 2
state_num sleep = 3
state_num wait = 4
state_num zombie = 5

-- `pcb_t`
pub record Pcb : Type 0 where
  pub state : State
  pub cpu_time : ℕ
  pub wake_time : ℕ
  pub frame : TrapFrame

-- `sem_t`
pub record Sem : Type 0 where
  pub owner : ℕ
  pub passes : ℕ
  pub wait_q : Queue

-- `port_t`; the field `IO` is `io_base`.
pub record Port : Type 0 where
  pub owner : ℕ
  pub io_base : ℕ
  pub write_sid : ℕ
  pub read_sid : ℕ
  pub write_ok : ℕ
  pub write_q : Queue
  pub read_q : Queue
  pub loopback_q : Queue

-- The globals of main.c, the bytes that processes read and write through pointers, and the bytes
-- that `outportb` has sent so far, each with its port address, oldest first.
pub record Kernel : Type 0 where
  pub current_pid : ℕ
  pub current_time : ℕ
  pub ready_q : Queue
  pub free_q : Queue
  pub pcb : List Pcb
  pub sem : List Sem
  pub port : List Port
  pub memory : ℕ → ℕ
  pub output : List (ℕ × ℕ)

-- What zeroed memory holds.
abbrev pub zero_frame : TrapFrame
zero_frame = record {
  gs = 0;
  fs = 0;
  es = 0;
  ds = 0;
  edi = 0;
  esi = 0;
  ebp = 0;
  esp = 0;
  ebx = 0;
  edx = 0;
  ecx = 0;
  eax = 0;
  event_num = 0;
  eip = 0;
  cs = 0;
  eflags = 0;
}

abbrev pub zero_pcb : Pcb
zero_pcb = record { state = free; cpu_time = 0; wake_time = 0; frame = zero_frame }

abbrev pub zero_sem : Sem
zero_sem = record { owner = 0; passes = 0; wait_q = zero_queue }

abbrev pub zero_port : Port
zero_port = record {
  owner = 0;
  io_base = 0;
  write_sid = 0;
  read_sid = 0;
  write_ok = 0;
  write_q = zero_queue;
  read_q = zero_queue;
  loopback_q = zero_queue;
}

abbrev pub outportb : ℕ → ℕ → Kernel → Kernel
outportb address byte k = record k { output = k.output ++ ((address, byte % 256) ∷ []) }

-- `*address = byte`
abbrev pub poke : ℕ → ℕ → Kernel → Kernel
poke address byte k = record k { memory = λ a. if a == address then byte % 256 else k.memory a }

abbrev pub set_pcb : ℕ → Pcb → Kernel → Kernel
set_pcb pid c k = record k { pcb = set k.pcb pid c }

abbrev pub set_sem : ℕ → Sem → Kernel → Kernel
set_sem sid s k = record k { sem = set k.sem sid s }

abbrev pub set_port : ℕ → Port → Kernel → Kernel
set_port p d k = record k { port = set k.port p d }

-- `queue_in(&ready_q, pid)`; its status is ignored.
abbrev pub make_ready : ℕ → Kernel → Kernel
make_ready pid k = record k { ready_q = (enqueue k.ready_q pid).1 }

-- `pcb[pid].state = s`
unfoldable pub set_state : ℕ → State → Kernel → Option Kernel
set_state pid s k = do c ← get_elem? k.pcb pid; some (set_pcb pid (record c { state = s }) k)

-- `pcb[current_pid].TF_p->eax = x`
unfoldable pub set_eax : ℕ → Kernel → Option Kernel
set_eax x k = do
  c ← get_elem? k.pcb k.current_pid
  some (set_pcb k.current_pid (record c { frame = record (c.frame) { eax = x } }) k)
