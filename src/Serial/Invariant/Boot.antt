-- ===== src/Serial/Invariant/Boot.antt =====
-- The bootstrap of 9.serialport establishes the invariant, and every state that is reached afterwards
-- has it.
use class_example.Prelude.{
  ℕ, zero, suc, ◌+◌, ◌≡◌, ◌≢◌, refl, sym, ◌∙◌, none, some, List, [], ◌∷◌, arith, if◌then◌else◌, ltb,
  leb, ◌&&◌, All-replicate, get_elem?, replicate, count,
}
use class_example.Prelude.Returns.{Returns, Returns-bind}
use class_example.Serial.Queue.{zero_queue, enqueue}
use class_example.Serial.Machine.{Machine}
use class_example.Serial.State.{
  Kernel, State, free, run, ready, sleep, wait, zombie, state_num, Pcb, zero_pcb, zero_sem,
  outportb,
}
use class_example.Serial.Dispatch.{boot, start_state, fill_free}
use class_example.Serial.Invariant.{IsKernel, IsSem, tally, recorded}
use class_example.Serial.Invariant.Parts.{with_io}
use class_example.Serial.Invariant.Running.{scheduler-Scheduled, new_proc-IsKernel}
use class_example.Serial.Invariant.Step.{Resumes, resume}

get_elem?-replicate :
    (n i : ℕ) (c : Pcb) → get_elem? (replicate n c) i ≡ (if ltb i n then some c else none)
get_elem?-replicate zero i c = ground arith
get_elem?-replicate (suc n) zero c = ground arith
get_elem?-replicate (suc n) (suc i) c = ground (arith, get_elem?-replicate n i c)

-- The kernel when `free_q` is filled.
abbrev filled : (ℕ → ℕ) → Kernel
filled memory = record (start_state memory) { free_q = fill_free 19 1 zero_queue }

-- The PIDs from `a` on, `n` of them.
abbrev pids : ℕ → ℕ → List ℕ
pids zero a = []
pids (suc n) a = a ∷ pids n (a + 1)

count-pids : (n a p : ℕ) → count p (pids n a) ≡ (if leb a p && ltb p (a + n) then 1 else 0)
count-pids zero a p = ground arith
count-pids (suc n) a p = ground (arith, count-pids n (a + 1) p)

recorded-free :
    (n p : ℕ) → recorded (replicate n zero_pcb) free p ≡ (if leb 1 p && ltb p n then 1 else 0)
recorded-free n p = ground (arith, get_elem?-replicate n p zero_pcb)

recorded-other :
    (n : ℕ) (s : State) (p : ℕ) → state_num s ≢ 0 → recorded (replicate n zero_pcb) s p ≡ 0
recorded-other n s p h = ground (arith, get_elem?-replicate n p zero_pcb)

filled-located :
    (memory : ℕ → ℕ) (s : State) (p : ℕ)
    → tally (filled memory) s p ≡ recorded (replicate 20 zero_pcb) s p
unfolding fill_free enqueue
filled-located memory free p = count-pids 19 1 p ∙ sym (recorded-free 20 p)
filled-located memory run p = ground (arith, recorded-other 20 run p)
filled-located memory ready p = sym (recorded-other 20 ready p (omega arith))
filled-located memory sleep p = sym (recorded-other 20 sleep p (omega arith))
filled-located memory wait p = sym (recorded-other 20 wait p (omega arith))
filled-located memory zombie p = sym (recorded-other 20 zombie p (omega arith))

filled-IsKernel : (memory : ℕ → ℕ) → IsKernel (filled memory)
unfolding fill_free enqueue
filled-IsKernel memory = record {
  free_ok = omega arith;
  ready_ok = omega arith;
  sems_ok = All-replicate IsSem 20 zero_sem (record {
    queue = omega arith;
    open_means_empty = λ _. refl;
    unowned_means_empty = λ _. refl;
  });
  ports_ok = omega arith;
  pcb_count = refl;
  sem_count = refl;
  port_count = refl;
  current_in = omega arith;
  located = filled-located memory;
}

filled_some : (memory : ℕ → ℕ) → (filled memory).free_q.size ≢ 0
unfolding fill_free enqueue
filled_some memory = omega arith

-- `main` reaches its `KernelExit`, with a process running and the invariant established, wherever the
-- two processes start and whatever memory holds.
pub boot-Resumes :
    (m : Machine) (init term_proc : ℕ) (memory : ℕ → ℕ)
    → Returns Resumes (boot m init term_proc memory)
unfolding boot
boot-Resumes m init term_proc memory =
    let k1 = outportb 0x21 0xe6 (filled memory) in
    let v1 : IsKernel k1 = with_io (filled memory) k1.output memory 0 (filled-IsKernel memory) in
    let one_free : k1.free_q.size ≢ 0 = filled_some memory in
    Returns-bind (new_proc-IsKernel m k1 init v1) λ k2 (v2, same2, _, more).
      Returns-bind (new_proc-IsKernel m k2 term_proc v2) λ k3 (v3, same3, grown, _).
        Returns-bind (scheduler-Scheduled k3 v3 (λ _. omega (arith, more one_free)))
          λ k4 s. resume k4 s.good s.runs
