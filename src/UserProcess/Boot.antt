-- ===== src/UserProcess/Boot.antt =====
-- `main` of 8.UserProcess/src/main.c.
pub mod Started
mod Examples
use class_example.Prelude.{
  ℕ, ◌+◌, ◌-◌, ◌*◌, Bool, true, false, Option, none, some, List, [], ◌∷◌, ◌>>=◌, if◌then◌else◌,
  ◌==◌, get_elem?,
}
use class_example.UserProcess.Kalloc.{kinit, page_size}
use class_example.UserProcess.Process.{
  Target, Os, new_kernel_proc_handler, new_user_proc_handler, stack_top,
}

-- What the linker and the processor provide: the base of the GDT, `page_address`, the process of the kernel,
-- the program of the user, the entries of events.S, the TSS and its size, and cr3.
pub record Linked : Type 0 where
  pub gdt : ℕ
  pub page_address : ℕ
  pub system_proc : ℕ
  pub user_start : ℕ
  pub user_end : ℕ
  pub syscall_entry : ℕ
  pub timer_entry : ℕ
  pub kernel_tss : ℕ
  pub tss_size : ℕ
  pub get_cr3 : ℕ

-- The fields of `kernel_tss` that `main` sets, but `tss_esp0`.
pub record Tss : Type 0 where
  pub tss_ss0 : ℕ
  pub tss_cs : ℕ
  pub tss_ds : ℕ
  pub tss_es : ℕ
  pub tss_fs : ℕ
  pub tss_ss : ℕ
  pub tss_ioopt : ℕ

-- An entry of the IDT; `user` when ring 3 may call it.
pub record Gate : Type 0 where
  pub index : ℕ
  pub entry : ℕ
  pub user : Bool

-- The state when `main` loads the first process, with the descriptor 9 of the GDT, its base and limit, the gates,
-- and the address of the frame; `none` when `main` returns before.
pub record Boot : Type 0 where
  pub os : Os
  pub tss : Option Tss
  pub descriptor : Option (ℕ × ℕ)
  pub gates : List Gate
  pub loaded : Option ℕ

abbrev pub page_count : ℕ
page_count = 50

abbrev pub kernel_tss_fields : (size : ℕ) → Tss
kernel_tss_fields size = record {
  tss_ss0 = 0x18;
  tss_cs = 0x8;
  tss_ds = 0x10;
  tss_es = 0x10;
  tss_fs = 0x10;
  tss_ss = 0x18;
  tss_ioopt = size;
}

module _ (m : Target) (l : Linked) where
  -- Steps 3, 5 and 6: the pages, the page table of the kernel, and the processes.
  unfoldable pub create_processes : Os → Option Os
  create_processes s =
      let s1 = record s {
        heap = kinit l.page_address (l.page_address + page_count * page_size) s.heap;
        kernel_cr3 = l.get_cr3;
      } in
      do
        s2 ← new_kernel_proc_handler m l.system_proc s1
        s3 ← new_user_proc_handler m l.user_start l.user_end s2
        some (record s3 { active = some 0; tss_esp0 = stack_top m 0 })

  unfoldable pub main : Os → Option Boot
  main s =
      if l.gdt == 0
      then some (record { os = s; tss = none; descriptor = none; gates = []; loaded = none })
      else (do
        s' ← create_processes s
        first ← get_elem? s'.procs 0
        some (record {
          os = s';
          tss = some (kernel_tss_fields l.tss_size);
          descriptor = some (l.kernel_tss, l.tss_size - 1);
          gates =
              record { index = 128; entry = l.syscall_entry; user = true }
              ∷ record { index = 32; entry = l.timer_entry; user = false }
              ∷ [];
          loaded = some first.trapframe;
        }))
