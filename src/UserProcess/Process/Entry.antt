-- ===== src/UserProcess/Process/Entry.antt =====
-- A new user process of 8.UserProcess starts at addresses that its page table maps.
use class_example.Prelude.{
  ℕ, ◌+◌, ◌-◌, ◌%◌, ◌≤◌, ◌<◌, ◌≡◌, ◌≢◌, refl, true, some, List, [], ◌∷◌, get_elem?, length, arith,
  All, ◌==◌, get_elem?-lt, get_elem?-set_self,
}
use class_example.Prelude.Returns.{Returns, returns}
use class_example.UserProcess.Kalloc.{page_size}
use class_example.UserProcess.Kalloc.FreeList.{IsHeap}
use class_example.UserProcess.Page.Mapping.{user_write, Clear}
use class_example.UserProcess.Page.Space.{setup_pagetable-Space}
use class_example.UserProcess.Process.{
  Target, Proc, Os, new_user_proc_handler, minus, stack_top, frame_size,
}

-- A process in the table whose frame is set up for user mode, whose first instruction and first stack
-- slot lie in pages that its page table maps, and in whose code page the program stands.
pub record Ready (pid stack code function size : ℕ) (s s' : Os) : Type 0 where
  pub proc : Proc
  pub listed : get_elem? s'.procs pid ≡ some proc
  pub entry_mapped :
      user_write s'.heap.memory proc.pagetable (s'.frames proc.trapframe).eip ≡ some (code + 0x80)
  pub stack_mapped :
      user_write s'.heap.memory proc.pagetable (s'.frames proc.trapframe).user_esp
      ≡ some (stack + 4080)
  pub program : (i : ℕ) → i < size → s'.heap.memory (code + i) ≡ s.heap.memory (function + i)
  pub ring_3 : (s'.frames proc.trapframe).cs % 4 ≡ 3
  pub next_pid : s'.uniq_id ≡ pid + 1

-- A free slot of the table, five free pages, an aligned kernel directory that is not the first of these,
-- and a program of at most a page outside them: then `NewUserProcHandler` lists a user process whose
-- entry point 0x80000080 and stack pointer lie in the mapped code and stack pages, with the program
-- copied.
pub new_user_proc-Ready :
    (m : Target) (s : Os) (function function_end a b c d e : ℕ) (rest : List ℕ)
    → s.uniq_id < length s.procs
    → IsHeap s.heap (a ∷ b ∷ c ∷ d ∷ e ∷ rest)
    → ((x : ℕ) → s.heap.memory x < 256)
    → s.kernel_cr3 % page_size ≡ 0
    → s.kernel_cr3 ≢ a
    → minus function_end function ≤ page_size
    → All (Clear function (minus function_end function)) (a ∷ b ∷ c ∷ d ∷ e ∷ [])
    → Returns
        (Ready s.uniq_id c e function (minus function_end function) s)
        (new_user_proc_handler m function function_end s)
unfolding new_user_proc_handler
new_user_proc-Ready m s function function_end a b c d e rest room v bytes aligned ne small clear =
    let (old, at_pid) = get_elem?-lt s.procs s.uniq_id room in
    let t =
      setup_pagetable-Space s.heap s.kernel_cr3 function (minus function_end function) a b c d e
        rest v bytes aligned ne small clear in
    let at = stack_top m s.uniq_id - frame_size in
    let self : (at == at) ≡ true = ground arith in
    rw at_pid (
      returns (record {
        proc = _;
        listed = get_elem?-set_self s.procs s.uniq_id _ room;
        entry_mapped = rw self (t.code_mapped 128 (omega arith));
        stack_mapped = rw self (t.stack_mapped 4080 (omega arith));
        program = t.program;
        ring_3 = rw self refl;
        next_pid = refl;
      }))
