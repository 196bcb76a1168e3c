-- ===== src/UserProcess/Process.antt =====
-- 8.UserProcess/src/handlers.c and `context_switch` of src/main.c: a kernel process and a user process
-- that take turns, and the system call.
-- Trapframes lie on the kernel stacks, apart from the pages, and are found by their addresses. An
-- access out of the table of processes, or through a null pointer, gives `none`.
pub mod Turns
pub mod Entry
use class_example.Prelude.{
  ℕ, ◌+◌, ◌-◌, ◌*◌, ◌^◌, ◌%◌, Option, none, some, List, [], ◌∷◌, ◌++◌, ◌>>=◌, if◌then◌else◌, ◌==◌,
  get_elem?, set,
}
use class_example.UserProcess.Kalloc.{Heap}
use class_example.UserProcess.Page.{setup_pagetable}

-- What SPEDE and the linker provide: the segment registers, `get_eflags() | EF_INTR`, and the address of
-- `proc_kernel_stack`.
pub record Target : Type 0 where
  pub get_cs : ℕ
  pub get_ds : ℕ
  pub get_es : ℕ
  pub get_fs : ℕ
  pub get_gs : ℕ
  pub eflags_intr : ℕ
  pub proc_kernel_stack : ℕ

-- `trapframe_t`, less the padding.
pub record Frame : Type 0 where
  pub gs : ℕ
  pub fs : ℕ
  pub es : ℕ
  pub ds : ℕ
  pub edi : ℕ
  pub esi : ℕ
  pub ebp : ℕ
  pub esp : ℕ
  pub ebx : ℕ
  pub edx : ℕ
  pub ecx : ℕ
  pub eax : ℕ
  pub event_type : ℕ
  pub error_code : ℕ
  pub eip : ℕ
  pub cs : ℕ
  pub eflags : ℕ
  pub user_esp : ℕ
  pub user_ss : ℕ

-- `proc_type_t`
pub data ProcType : Type 0 where
  no_proc kernel_proc user_proc : ProcType

-- `proc_t`; the trapframe is its address.
pub record Proc : Type 0 where
  pub pid : ℕ
  pub proc_type : ProcType
  pub pagetable : ℕ
  pub trapframe : ℕ

-- The globals; `active` is the index that `active_process` points to, `cr3` the register.
pub record Os : Type 0 where
  pub procs : List Proc
  pub uniq_id : ℕ
  pub active : Option ℕ
  pub frames : ℕ → Frame
  pub heap : Heap
  pub kernel_cr3 : ℕ
  pub tss_esp0 : ℕ
  pub cr3 : ℕ
  pub output : List (ℕ × ℕ)

abbrev pub stack_size : ℕ
stack_size = 16384

-- `sizeof(trapframe_t)`
abbrev pub frame_size : ℕ
frame_size = 76

-- `SYSCALL_PRINT`
abbrev pub syscall_print : ℕ
syscall_print = 1

abbrev pub put_frame : ℕ → Frame → (ℕ → Frame) → ℕ → Frame
put_frame address f frames a = if a == address then f else frames a

-- `x - y` on 32-bit numbers.
abbrev pub minus : ℕ → ℕ → ℕ
minus x y = (x + 2 ^ 32 - y) % 2 ^ 32

-- `rc`: 0 for `SYSCALL_PRINT`, and else -1.
abbrev pub result_of : ℕ → ℕ
result_of syscall = if syscall == syscall_print then 0 else 2 ^ 32 - 1

unfoldable pub syscall_handler : Os → Option Os
syscall_handler s = elim s.active [
  | none ↦ some s
  | some i ↦ (do
    proc ← get_elem? s.procs i
    let f = s.frames proc.trapframe
    if proc.trapframe == 0
        then some s
        else some (record s {
          frames = put_frame proc.trapframe (record f { eax = result_of f.eax }) s.frames;
        }))
]

module _ (m : Target) where
  -- `proc_kernel_stack[pid]`, and the address behind it.
  abbrev pub stack_of : ℕ → ℕ
  stack_of pid = m.proc_kernel_stack + pid * stack_size

  abbrev pub stack_top : ℕ → ℕ
  stack_top pid = stack_of pid + stack_size

  -- The registers that a user process starts with.
  abbrev pub user_frame : ℕ → Frame → Frame
  user_frame pid f = record f {
    cs = 0x33;
    ds = 0x3b;
    gs = 0x3b;
    fs = 0x3b;
    es = 0x3b;
    user_ss = 0x43;
    user_esp = 0x80000000 - 16;
    eflags = m.eflags_intr;
    eip = 0x80000080;
    esp = stack_of pid;
    ebp = stack_of pid;
    eax = stack_of pid;
  }

  abbrev pub kernel_frame : ℕ → Frame → Frame
  kernel_frame func f = record f {
    ds = m.get_ds;
    es = m.get_es;
    fs = m.get_fs;
    gs = m.get_gs;
    eflags = m.eflags_intr;
    cs = m.get_cs;
    eip = func;
  }

  unfoldable pub new_user_proc_handler : (function function_end : ℕ) → Os → Option Os
  new_user_proc_handler function function_end s = do
    let pid = s.uniq_id
    let at = stack_top pid - frame_size
    old ← get_elem? s.procs pid
    let (pagetable, heap') =
        setup_pagetable s.kernel_cr3 function (minus function_end function) s.heap
    let proc : Proc = record {
      pid = pid;
      proc_type = user_proc;
      pagetable = pagetable;
      trapframe = at;
    }
    some (record s {
      uniq_id = pid + 1;
      procs = set s.procs pid proc;
      frames = put_frame at (user_frame pid (s.frames at)) s.frames;
      heap = heap';
    })

  unfoldable pub new_kernel_proc_handler : (func : ℕ) → Os → Option Os
  new_kernel_proc_handler func s = do
    let pid = s.uniq_id
    let at = stack_top pid - frame_size
    old ← get_elem? s.procs pid
    let proc : Proc = record {
      pid = pid;
      proc_type = kernel_proc;
      pagetable = s.kernel_cr3;
      trapframe = at;
    }
    some (record s {
      uniq_id = pid + 1;
      procs = set s.procs pid proc;
      frames = put_frame at (kernel_frame func (s.frames at)) s.frames;
    })

  -- The new state, and the address of the frame that is restored.
  unfoldable pub context_switch : (current : ℕ) → Os → Option (Os × ℕ)
  context_switch current s =
      if (s.frames current).event_type == 0x80
      then (do s' ← syscall_handler s; some (s', current))
      else (do
        i ← s.active
        proc ← get_elem? s.procs i
        let procs' = set s.procs i (record proc { trapframe = current })
        let j = if i == 0 then 1 else 0
        next ← get_elem? procs' j
        some (
          record s {
            output = s.output ++ ((0x20, 0x60) ∷ []);
            procs = procs';
            active = some j;
            tss_esp0 = stack_top next.pid;
            cr3 = next.pagetable;
          },
          next.trapframe,
        ))
