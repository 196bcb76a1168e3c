-- ===== src/UserProcess/Boot/Examples.antt =====
-- A concrete run of `main` of 8.UserProcess/src/main.c.
use class_example.Prelude.{inl, refl, none, [], ◌∷◌, arith}
use class_example.Prelude.Returns.{Returns}
use class_example.UserProcess.Process.{Target, Frame, Proc, kernel_proc, Os}
use class_example.UserProcess.Boot.{Linked, main}
use class_example.UserProcess.Boot.Started.{Started, Bootable, main-Started}

abbrev spede : Target
spede = record {
  get_cs = 8;
  get_ds = 16;
  get_es = 16;
  get_fs = 16;
  get_gs = 16;
  eflags_intr = 0x202;
  proc_kernel_stack = 0x200000;
}

-- The pages stand at 0x300080, the program, of 176 bytes, at 0x180000.
abbrev image : Linked
image = record {
  gdt = 0x8000;
  page_address = 0x300080;
  system_proc = 0x101000;
  user_start = 0x180000;
  user_end = 0x1800b0;
  syscall_entry = 0x102000;
  timer_entry = 0x102040;
  kernel_tss = 0x190000;
  tss_size = 104;
  get_cr3 = 0x1000;
}

abbrev no_frame : Frame
no_frame = record {
  gs = 0;
  fs = 0;
  es = 0;
  ds = 0;
  edi = 0;
  esi = 0;
  ebp = 0;
  esp = 0;
  ebx = 0;
  edx = 0;
  ecx = 0;
  eax = 0;
  event_type = 0;
  error_code = 0;
  eip = 0;
  cs = 0;
  eflags = 0;
  user_esp = 0;
  user_ss = 0;
}

abbrev no_proc : Proc
no_proc = record { pid = 0; proc_type = kernel_proc; pagetable = 0; trapframe = 0 }

-- The program is 0x55 in each byte.
abbrev cleared : Os
cleared = record {
  procs =
      no_proc ∷ no_proc ∷ no_proc ∷ no_proc ∷ no_proc ∷ no_proc ∷ no_proc ∷ no_proc ∷ no_proc
      ∷ no_proc ∷ [];
  uniq_id = 0;
  active = none;
  frames = λ a. no_frame;
  heap = record { memory = λ a. 0x55; freelist = 0 };
  kernel_cr3 = 0;
  tss_esp0 = 0;
  cr3 = 0x1000;
  output = [];
}

image-Bootable : Bootable image cleared
image-Bootable = record {
  gdt = omega arith;
  fresh = refl;
  table = refl;
  empty = refl;
  bytes = λ x. omega arith;
  low = omega arith;
  high = omega arith;
  directory = refl;
  directory_out = inl (omega arith);
  short = omega arith;
  program_out = inl (omega arith);
}

main-Started_example : Returns (Started spede image cleared) (main spede image cleared)
main-Started_example = main-Started spede image cleared image-Bootable
