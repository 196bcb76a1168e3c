-- ===== src/UserProcess/Examples.antt =====
-- Concrete runs of the page allocator, the page tables and the processes of 8.UserProcess.
use class_example.Prelude.{some, ◌>>=◌, ℕ, ◌<◌, ◌≡◌, inr, refl, [], ◌∷◌, arith, if◌then◌else◌, ◌==◌}
use class_example.Memory.{Memory, load32}
use class_example.UserProcess.Kalloc.{Heap, kfree}
use class_example.UserProcess.Kalloc.FreeList.{IsHeap, kfree-IsHeap}
use class_example.UserProcess.Kalloc.Range.{run_of}
use class_example.Prelude.Returns.{Returns}
use class_example.UserProcess.Process.{
  Target, Frame, Proc, kernel_proc, user_proc, Os, context_switch, new_user_proc_handler,
}
use class_example.UserProcess.Process.Turns.{
  Returned, Answered, two_ticks-Returned, context_switch-Answered,
}
use class_example.UserProcess.Process.Entry.{Ready, new_user_proc-Ready}
use class_example.UserProcess.Page.Space.{Space}

-- Five free pages, 4096 to 20480, linked in this order, and a byte of a program at 32768.
abbrev linked_memory : Memory
linked_memory a =
    if a == 4097
    then 32
    else if a == 8193
    then 48
    else if a == 12289
    then 64
    else if a == 16385
    then 80
    else if a == 32768
    then 85
    else 0

abbrev five_pages : Heap
five_pages = record { memory = linked_memory; freelist = 4096 }

abbrev no_page : Heap
no_page = record { memory = λ a. 0; freelist = 0 }

linked_byte : (x : ℕ) → linked_memory x < 256
linked_byte x = ground arith

five_pages_good : IsHeap five_pages (4096 ∷ 8192 ∷ 12288 ∷ 16384 ∷ 20480 ∷ [])
unfolding load32
five_pages_good = record {
  chain = (refl, (refl, (refl, (refl, (refl, refl)))));
  pages_ok = (omega arith, (omega arith, (omega arith, (omega arith, (omega arith, tt)))));
  distinct = (
    (omega arith, (omega arith, (omega arith, (omega arith, tt)))),
    (
      (omega arith, (omega arith, (omega arith, tt))),
      ((omega arith, (omega arith, tt)), ((omega arith, tt), (tt, tt))),
    ),
  );
}

kfree-IsHeap_example :
    IsHeap (kfree 24576 five_pages) (24576 ∷ 4096 ∷ 8192 ∷ 12288 ∷ 16384 ∷ 20480 ∷ [])
kfree-IsHeap_example =
    kfree-IsHeap five_pages (4096 ∷ 8192 ∷ 12288 ∷ 16384 ∷ 20480 ∷ []) 24576 five_pages_good
      (omega arith) (omega arith, (omega arith, (omega arith, (omega arith, (omega arith, tt)))))

run_of_three : run_of 4096 3 [] ≡ 12288 ∷ 8192 ∷ 4096 ∷ []
unfolding run_of
run_of_three = refl

abbrev spede : Target
spede = record {
  get_cs = 8;
  get_ds = 16;
  get_es = 16;
  get_fs = 16;
  get_gs = 16;
  eflags_intr = 0x202;
  proc_kernel_stack = 0x100000;
}

-- A frame with an event, and what a print call has in its registers.
abbrev frame_for : (event_type eax : ℕ) → Frame
frame_for event_type eax = record {
  gs = 16;
  fs = 16;
  es = 16;
  ds = 16;
  edi = 0;
  esi = 0;
  ebp = 0;
  esp = 0;
  ebx = 0;
  edx = 0;
  ecx = 0;
  eax = eax;
  event_type = event_type;
  error_code = 0;
  eip = 0x80000090;
  cs = 0x33;
  eflags = 0x202;
  user_esp = 0;
  user_ss = 0;
}

abbrev kernel_process : Proc
kernel_process = record {
  pid = 0;
  proc_type = kernel_proc;
  pagetable = 24576;
  trapframe = 0x103fb4;
}

abbrev user_process : Proc
user_process = record { pid = 1; proc_type = user_proc; pagetable = 4096; trapframe = 0x107fb4 }

-- Two processes; every frame but the one at 0x107fb4 is that of a timer interrupt, and this one is a call
-- to print.
abbrev two_processes : ℕ → Os
two_processes running = record {
  procs = kernel_process ∷ user_process ∷ kernel_process ∷ [];
  uniq_id = 2;
  active = some running;
  frames = λ a. if a == 0x107fb4 then frame_for 0x80 1 else frame_for 0x20 0;
  heap = five_pages;
  kernel_cr3 = 24576;
  tss_esp0 = 0;
  cr3 = 24576;
  output = [];
}

two_ticks-Returned_example :
    Returns (Returned 0x103f00 0x107f00 kernel_process user_process (two_processes 0)) (
      context_switch spede 0x103f00 (two_processes 0)
      >>= (λ (t : Os × ℕ). context_switch spede 0x107f00 (t.0)))
two_ticks-Returned_example =
    two_ticks-Returned spede (two_processes 0) kernel_process user_process (kernel_process ∷ [])
      0x103f00 0x107f00 refl (omega arith) (omega arith) refl

context_switch-Answered_example :
    Returns (Answered 0x107fb4 (two_processes 1)) (context_switch spede 0x107fb4 (two_processes 1))
context_switch-Answered_example =
    context_switch-Answered spede (two_processes 1) 0x107fb4 1 user_process refl refl refl
      (omega arith) refl

new_user_proc-Ready_example :
    Returns
      (Ready 2 12288 20480 32768 10 (two_processes 0))
      (new_user_proc_handler spede 32768 32778 (two_processes 0))
new_user_proc-Ready_example =
    new_user_proc-Ready spede (two_processes 0) 32768 32778 4096 8192 12288 16384 20480 []
      (omega arith) five_pages_good linked_byte refl (omega arith) (omega arith)
      (
        inr (omega arith),
        (inr (omega arith), (inr (omega arith), (inr (omega arith), (inr (omega arith), tt)))),
      )
