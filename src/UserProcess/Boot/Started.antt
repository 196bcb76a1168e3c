-- ===== src/UserProcess/Boot/Started.antt =====
-- What `main` of 8.UserProcess/src/main.c starts.
use class_example.Prelude.{
  ℕ, zero, suc, ◌+◌, ◌-◌, ◌*◌, ◌/◌, ◌%◌, ◌≤◌, ◌<◌, ◌≡◌, ◌≢◌, ◌⊎◌, refl, ap, subst, sym, ◌∙◌, true,
  false, some, List, [], ◌∷◌, ◌>>=◌, arith, ◌==◌, length, get_elem?, set, get_elem?-lt,
  get_elem?-set_self, get_elem?-set_ne, length-set,
}
use class_example.Prelude.Returns.{Returns, returns, Returns-bind, Returns-both}
use class_example.UserProcess.Kalloc.{kinit, page_size, page_stop, page_align}
use class_example.UserProcess.Kalloc.FreeList.{IsHeap}
use class_example.UserProcess.Kalloc.Range.{run_of, kinit-IsHeap}
use class_example.UserProcess.Kalloc.Outside.{kinit_out, kinit-lt}
use class_example.UserProcess.Page.Mapping.{Clear}
use class_example.UserProcess.Process.{
  Target, Proc, kernel_proc, Os, minus, frame_size, stack_top, put_frame, kernel_frame,
  new_kernel_proc_handler, new_user_proc_handler,
}
use class_example.UserProcess.Process.Entry.{Ready, new_user_proc-Ready}
use class_example.UserProcess.Boot.{
  Linked, Boot, page_count, kernel_tss_fields, create_processes, main,
}

-- The last page of a run is the first one of the list.
run_of_last :
    (n p : ℕ) (pages : List ℕ) → run_of p (suc n) pages ≡ (p + n * page_size) ∷ run_of p n pages
unfolding run_of
run_of_last zero p pages = ap (λ x. x ∷ pages) (omega arith)
run_of_last (suc n) p pages =
    run_of_last n (p + page_size) (p ∷ pages)
    ∙ ap (λ x. x ∷ run_of (p + page_size) n (p ∷ pages)) (omega arith)

-- The first five pages of a run of `n + 5`, and the others.
abbrev page_at : (p n k : ℕ) → ℕ
page_at p n k = p + (n + k) * page_size

run_of_add : (p n k : ℕ) → run_of p (suc (n + k)) [] ≡ page_at p n k ∷ run_of p (n + k) []
run_of_add p n k = run_of_last (n + k) p []

run_of-top :
    (p n : ℕ)
    → run_of p (n + 5) []
      ≡ page_at p n 4
        ∷ page_at p n 3
        ∷ page_at p n 2
        ∷ page_at p n 1
        ∷ page_at p n 0
        ∷ run_of p (n + 0) []
run_of-top p n =
    down 4
    ∙ ap (λ x. page_at p n 4 ∷ x) (down 3)
    ∙ ap (λ x. page_at p n 4 ∷ page_at p n 3 ∷ x) (down 2)
    ∙ ap (λ x. page_at p n 4 ∷ page_at p n 3 ∷ page_at p n 2 ∷ x) (down 1)
    ∙ ap (λ x. page_at p n 4 ∷ page_at p n 3 ∷ page_at p n 2 ∷ page_at p n 1 ∷ x) (down 0)
  where
    down : (k : ℕ) → run_of p (n + (k + 1)) [] ≡ page_at p n k ∷ run_of p (n + k) []
    down k = ap (λ x. run_of p x []) (omega arith) ∙ run_of_add p n k

-- `NewUserProcHandler` changes nothing of the other processes and their frames.
pub record Apart (pid at : ℕ) (s s' : Os) : Type 0 where
  pub procs : (j : ℕ) → j ≢ pid → get_elem? s'.procs j ≡ get_elem? s.procs j
  pub frames : (a : ℕ) → a ≢ at → s'.frames a ≡ s.frames a

user_proc-Apart :
    (m : Target) (s : Os) (function function_end : ℕ)
    → s.uniq_id < length s.procs
    → Returns
        (Apart s.uniq_id (stack_top m s.uniq_id - frame_size) s)
        (new_user_proc_handler m function function_end s)
unfolding new_user_proc_handler
user_proc-Apart m s function function_end room =
    let (old, at_pid) = get_elem?-lt s.procs s.uniq_id room in
    rw at_pid (
      returns (record {
        procs = λ j ne. get_elem?-set_ne s.procs s.uniq_id j _ (λ e. ne (sym e));
        frames = λ a ne.
            let other : (a == stack_top m s.uniq_id - frame_size) ≡ false = ground (arith, ne) in
            rw other refl;
      }))

-- The first process, as `NewKernelProcHandler` makes it.
abbrev kernel_process : Target → Linked → Proc
kernel_process m l = record {
  pid = 0;
  proc_type = kernel_proc;
  pagetable = l.get_cr3;
  trapframe = stack_top m 0 - frame_size;
}

abbrev with_kernel_process : Target → Linked → Os → Os
with_kernel_process m l s = record s {
  heap = kinit l.page_address (l.page_address + page_count * page_size) s.heap;
  kernel_cr3 = l.get_cr3;
  uniq_id = 1;
  procs = set s.procs 0 (kernel_process m l);
  frames =
      put_frame (stack_top m 0 - frame_size)
        (kernel_frame m l.system_proc (s.frames (stack_top m 0 - frame_size))) s.frames;
}

kernel_proc_made :
    (m : Target) (l : Linked) (s : Os)
    → s.uniq_id ≡ 0
    → 0 < length s.procs
    → new_kernel_proc_handler m l.system_proc (record s {
      heap = kinit l.page_address (l.page_address + page_count * page_size) s.heap;
      kernel_cr3 = l.get_cr3;
    })
      ≡ some (with_kernel_process m l s)
unfolding new_kernel_proc_handler
kernel_proc_made m l s first room =
    let (old, at) = get_elem?-lt s.procs 0 room in rw (first, at) refl

-- What `main` has done when it loads the first process.
pub record Started (m : Target) (l : Linked) (s : Os) (out : Boot) : Type 0 where
  pub loaded : out.loaded ≡ some (stack_top m 0 - frame_size)
  pub active : out.os.active ≡ some 0
  pub first : get_elem? out.os.procs 0 ≡ some (kernel_process m l)
  pub entry : (out.os.frames (stack_top m 0 - frame_size)).eip ≡ l.system_proc
  pub stack : out.os.tss_esp0 ≡ stack_top m 0
  pub code_page : ℕ
  pub stack_page : ℕ
  pub user :
      Ready 1 stack_page code_page l.user_start
        (minus l.user_end l.user_start)
        (with_kernel_process m l s)
        out.os
  pub program :
      (i : ℕ)
      → i < minus l.user_end l.user_start
      → out.os.heap.memory (code_page + i) ≡ s.heap.memory (l.user_start + i)

-- A cleared state with a table of ten processes, a GDT, 50 pages below the end of memory, and a page directory and a program of at most a page outside
-- them.
pub record Bootable (l : Linked) (s : Os) : Type 0 where
  pub gdt : l.gdt ≢ 0
  pub fresh : s.uniq_id ≡ 0
  pub table : length s.procs ≡ 10
  pub empty : s.heap.freelist ≡ 0
  pub bytes : (x : ℕ) → s.heap.memory x < 256
  pub low : 0 < l.page_address
  pub high : l.page_address + page_count * page_size ≤ page_stop
  pub directory : l.get_cr3 % page_size ≡ 0
  pub directory_out :
      (l.get_cr3 + page_size ≤ l.page_address)
      ⊎ (l.page_address + page_count * page_size ≤ l.get_cr3)
  pub short : minus l.user_end l.user_start ≤ page_size
  pub program_out :
      (l.user_start + minus l.user_end l.user_start ≤ l.page_address)
      ⊎ (l.page_address + page_count * page_size ≤ l.user_start)

module _ (m : Target) (l : Linked) (s : Os) (v : Bootable l s) where
  abbrev pool_end : ℕ
  pool_end = l.page_address + page_count * page_size

  abbrev start : ℕ
  start = page_align l.page_address

  -- Five pages fewer than there are, 45 or 44.
  abbrev spare : ℕ
  spare = (pool_end - start) / page_size - 5

  pool-IsHeap : IsHeap (kinit l.page_address pool_end s.heap) (
      page_at start spare 4
      ∷ page_at start spare 3
      ∷ page_at start spare 2
      ∷ page_at start spare 1
      ∷ page_at start spare 0
      ∷ run_of start (spare + 0) [])
  pool-IsHeap =
      let n = (pool_end - start) / page_size in
      let count : spare + 5 ≡ n = omega (arith, v.low, v.high) in
      subst (IsHeap (kinit l.page_address pool_end s.heap))
        (ap (λ x. run_of start x []) (sym count) ∙ run_of-top start spare)
        (kinit-IsHeap l.page_address pool_end s.heap
          (record { chain = v.empty; pages_ok = tt; distinct = tt }) v.low
          (omega (arith, v.low, v.high)) (omega arith) v.high)

  clear :
      (k : ℕ) → k < 5 → Clear l.user_start (minus l.user_end l.user_start) (page_at start spare k)
  clear k lt = ground (arith, lt, v.program_out, v.low, v.high)

  user-Ready :
      Returns
        (λ s'.
          Ready 1
            (page_at start spare 2)
            (page_at start spare 0)
            l.user_start
            (minus l.user_end l.user_start)
            (with_kernel_process m l s)
            s'
          × Apart 1 (stack_top m 1 - frame_size) (with_kernel_process m l s) s')
        (new_user_proc_handler m l.user_start l.user_end (with_kernel_process m l s))
  user-Ready =
      let s1 = with_kernel_process m l s in
      let room : 1 < length s1.procs =
        omega (arith, length-set s.procs 0 (kernel_process m l), v.table) in
      Returns-both
        (new_user_proc-Ready m s1 l.user_start l.user_end (page_at start spare 4)
          (page_at start spare 3) (page_at start spare 2) (page_at start spare 1)
          (page_at start spare 0) (run_of start (spare + 0) []) room pool-IsHeap
          (λ x. kinit-lt l.page_address pool_end x s.heap (v.bytes x)) v.directory
          (ground (arith, v.directory_out, v.low, v.high)) v.short
          (
            clear 4 (omega arith),
            (
              clear 3 (omega arith),
              (clear 2 (omega arith), (clear 1 (omega arith), (clear 0 (omega arith), tt))),
            ),
          ))
        (user_proc-Apart m s1 l.user_start l.user_end room)

  -- The state after step 6, in the words of `Started`.
  record Created (s' : Os) : Type 0 where
    pub active : s'.active ≡ some 0
    pub first : get_elem? s'.procs 0 ≡ some (kernel_process m l)
    pub entry : (s'.frames (stack_top m 0 - frame_size)).eip ≡ l.system_proc
    pub stack : s'.tss_esp0 ≡ stack_top m 0
    pub user :
        Ready 1
          (page_at start spare 2)
          (page_at start spare 0)
          l.user_start
          (minus l.user_end l.user_start)
          (with_kernel_process m l s)
          s'

  user-Created :
      (s' : Os)
      → Ready 1
          (page_at start spare 2)
          (page_at start spare 0)
          l.user_start
          (minus l.user_end l.user_start)
          (with_kernel_process m l s)
          s'
      → Apart 1 (stack_top m 1 - frame_size) (with_kernel_process m l s) s'
      → Created (record s' { active = some 0; tss_esp0 = stack_top m 0 })
  user-Created s' r a =
      let room : 0 < length s.procs = omega (arith, v.table) in
      let self : (stack_top m 0 - frame_size == stack_top m 0 - frame_size) ≡ true = ground arith in
      let apart : stack_top m 0 - frame_size ≢ stack_top m 1 - frame_size = omega arith in
      record {
        active = refl;
        first = a.procs 0 (omega arith) ∙ get_elem?-set_self s.procs 0 (kernel_process m l) room;
        entry = ap (λ f. f.eip) (a.frames (stack_top m 0 - frame_size) apart) ∙ rw self refl;
        stack = refl;
        user = record {
          proc = r.proc;
          listed = r.listed;
          entry_mapped = r.entry_mapped;
          stack_mapped = r.stack_mapped;
          program = r.program;
          ring_3 = r.ring_3;
          next_pid = r.next_pid;
        };
      }

  create_processes-Created : Returns Created (create_processes m l s)
  unfolding create_processes
  create_processes-Created =
      let room : 0 < length s.procs = omega (arith, v.table) in
      rw (kernel_proc_made m l s v.fresh room)
        (Returns-bind user-Ready (λ s' (r, a). returns (user-Created s' r a)))

  Created-Started :
      (s' : Os)
      → Created s'
      → Returns (Started m l s) (do
        first ← get_elem? s'.procs 0
        some (record {
          os = s';
          tss = some (kernel_tss_fields l.tss_size);
          descriptor = some (l.kernel_tss, l.tss_size - 1);
          gates =
              record { index = 128; entry = l.syscall_entry; user = true }
              ∷ record { index = 32; entry = l.timer_entry; user = false }
              ∷ [];
          loaded = some first.trapframe;
        }))
  Created-Started s' c = rw c.first (
      returns (record {
        loaded = refl;
        active = c.active;
        first = c.first;
        entry = c.entry;
        stack = c.stack;
        code_page = page_at start spare 0;
        stack_page = page_at start spare 2;
        user = c.user;
        program = λ i lt.
            c.user.program i lt
            ∙ kinit_out l.page_address pool_end (l.user_start + i) s.heap (omega (arith, v.high))
                v.high (ground (arith, lt, v.program_out));
      }))

  -- From a state and an image that are `Bootable`, `main` loads the frame of the process of the kernel, at its entry
  -- point and with its stack in the TSS. The second process is a user process whose entry point and stack lie in
  -- pages that its table maps, with a copy of the program as it was before `main`.
  pub main-Started : Returns (Started m l s) (main m l s)
  unfolding main
  main-Started =
      let there : (l.gdt == 0) ≡ false = ground (arith, v.gdt) in
      rw there (Returns-bind create_processes-Created Created-Started)
