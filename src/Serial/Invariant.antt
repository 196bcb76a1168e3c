-- ===== src/Serial/Invariant.antt =====
-- The invariant of the kernel of 9.serialport: where every PID is, and what its PCB says of it.
pub mod Move
pub mod Room
pub mod Tables
pub mod Parts
pub mod Post
pub mod Wait
pub mod Running
pub mod Ports
pub mod Step
pub mod Boot
pub mod Reach
pub mod Pending
pub mod Exhausted
use class_example.Prelude.{
  ℕ, zero, suc, ◌+◌, ◌<◌, ◌≡◌, ◌≢◌, Bool, true, false, Option, none, some, List, [], ◌∷◌,
  if◌then◌else◌, ◌==◌, get_elem?, length, All, count,
}
use class_example.Serial.Queue.Refine.{IsQueue, contents}
use class_example.Serial.State.{
  State, free, run, ready, sleep, wait, zombie, state_num, Pcb, Sem, Port, Kernel, is_positive,
  proc_num, q_size, port_num,
}

-- How often `p` waits in the queues of the semaphores.
abbrev pub waiting : ℕ → List Sem → ℕ
waiting p [] = 0
waiting p (s ∷ ss) = count p (contents s.wait_q) + waiting p ss

-- How often the kernel holds `p` at the place that stands for a state. No queue is for `SLEEP` or
-- `ZOMBIE`, and `current_pid = 0` means that no process runs.
abbrev pub tally : Kernel → State → ℕ → ℕ
tally k free p = count p (contents k.free_q)
tally k run p = if p == 0 then 0 else if p == k.current_pid then 1 else 0
tally k ready p = count p (contents k.ready_q)
tally k sleep p = 0
tally k wait p = waiting p k.sem
tally k zombie p = 0

-- 1 if `p` is a PID of a process whose PCB says `s`.
abbrev pub recorded : List Pcb → State → ℕ → ℕ
recorded pcbs s p = if p == 0 then 0 else elim (get_elem? pcbs p) [
  | none ↦ 0
  | some c ↦ if state_num s == state_num c.state then 1 else 0
]

-- A semaphore in good order: passes are left only if nobody waits, and nobody waits for one that has
-- no owner.
pub record IsSem (s : Sem) : Type 0 where
  pub queue : IsQueue s.wait_q
  pub open_means_empty : is_positive s.passes ≡ true → s.wait_q.size ≡ 0
  pub unowned_means_empty : s.owner ≡ 0 → s.wait_q.size ≡ 0

-- A port in good order; the flag `write_ok` of one that has an owner is up.
pub record IsPort (d : Port) : Type 0 where
  pub write_ok_q : IsQueue d.write_q
  pub read_ok_q : IsQueue d.read_q
  pub loopback_ok_q : IsQueue d.loopback_q
  pub write_sid_in : d.write_sid < q_size
  pub read_sid_in : d.read_sid < q_size
  pub flag_up : d.owner ≢ 0 → d.write_ok ≡ 1

-- Every PID stands at exactly the place that its PCB's state names, and nowhere else.
pub record IsKernel (k : Kernel) : Type 0 where
  pub free_ok : IsQueue k.free_q
  pub ready_ok : IsQueue k.ready_q
  pub sems_ok : All IsSem k.sem
  pub ports_ok : All IsPort k.port
  pub pcb_count : length k.pcb ≡ proc_num
  pub sem_count : length k.sem ≡ q_size
  pub port_count : length k.port ≡ port_num
  pub current_in : k.current_pid < proc_num
  pub located : (s : State) (p : ℕ) → tally k s p ≡ recorded k.pcb s p
