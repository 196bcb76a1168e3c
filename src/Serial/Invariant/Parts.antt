-- ===== src/Serial/Invariant/Parts.antt =====
-- Changes of one part of the kernel that leave every PID where it is.
use class_example.Prelude.{
  ℕ, ◌+◌, ◌≤◌, ◌<◌, ◌≡◌, ◌⊎◌, sym, ◌∙◌, some, List, [], arith, get_elem?, set, length-set, All-set,
  count, get_elem?-set_self, get_elem?-set_ne, lt-get_elem?,
}
use native.Mathlib.Decide.{ℕ_discrete}
use class_example.Serial.Queue.{Queue, enqueue}
use class_example.Serial.Queue.Refine.{contents}
use class_example.Serial.State.{Kernel, State, Pcb, Sem, Port, set_sem, set_pcb, set_port}
use class_example.Serial.Invariant.{IsKernel, IsSem, IsPort, recorded}
use class_example.Serial.Invariant.Tables.{waiting-set}

-- A semaphore changes, and its waiters stay.
pub with_sem :
    (k : Kernel) (sid : ℕ) (s s' : Sem)
    → IsKernel k
    → get_elem? k.sem sid ≡ some s
    → IsSem s'
    → ((p : ℕ) → count p (contents s'.wait_q) ≡ count p (contents s.wait_q))
    → IsKernel (set_sem sid s' k)
with_sem k sid s s' v e ok same = record {
  free_ok = v.free_ok;
  ready_ok = v.ready_ok;
  sems_ok = All-set IsSem k.sem sid s' v.sems_ok ok;
  ports_ok = v.ports_ok;
  pcb_count = v.pcb_count;
  sem_count = length-set k.sem sid s' ∙ v.sem_count;
  port_count = v.port_count;
  current_in = v.current_in;
  located = λ t p. ground (arith, v.located t p, waiting-set k.sem sid s s' p e, same p);
}

-- A PCB changes, and its state stays.
recorded-same_state :
    (pcbs : List Pcb) (f : ℕ) (c c' : Pcb) (s : State) (p : ℕ)
    → get_elem? pcbs f ≡ some c
    → c'.state ≡ c.state
    → recorded (set pcbs f c') s p ≡ recorded pcbs s p
recorded-same_state pcbs f c c' s p e same = elim (ℕ_discrete p f) [
  | yes here ↦ rw (here, get_elem?-set_self pcbs f c' (lt-get_elem? pcbs f e), e, same)
  | no other ↦ rw (get_elem?-set_ne pcbs f p c' (λ h. other (sym h)))
]

pub with_pcb :
    (k : Kernel) (f : ℕ) (c c' : Pcb)
    → IsKernel k
    → get_elem? k.pcb f ≡ some c
    → c'.state ≡ c.state
    → IsKernel (set_pcb f c' k)
with_pcb k f c c' v e same = record {
  free_ok = v.free_ok;
  ready_ok = v.ready_ok;
  sems_ok = v.sems_ok;
  ports_ok = v.ports_ok;
  pcb_count = length-set k.pcb f c' ∙ v.pcb_count;
  sem_count = v.sem_count;
  port_count = v.port_count;
  current_in = v.current_in;
  located = λ t p. ground (arith, v.located t p, recorded-same_state k.pcb f c c' t p e same);
}

pub with_port : (k : Kernel) (i : ℕ) (d : Port) → IsKernel k → IsPort d → IsKernel (set_port i d k)
with_port k i d v ok = record {
  free_ok = v.free_ok;
  ready_ok = v.ready_ok;
  sems_ok = v.sems_ok;
  ports_ok = All-set IsPort k.port i d v.ports_ok ok;
  pcb_count = v.pcb_count;
  sem_count = v.sem_count;
  port_count = length-set k.port i d ∙ v.port_count;
  current_in = v.current_in;
  located = v.located;
}

-- The output, the memory and the clock are no part of the invariant.
pub with_io :
    (k : Kernel) (output : List (ℕ × ℕ)) (memory : ℕ → ℕ) (time : ℕ)
    → IsKernel k
    → IsKernel (record k { output = output; memory = memory; current_time = time })
with_io k output memory time v = record {
  free_ok = v.free_ok;
  ready_ok = v.ready_ok;
  sems_ok = v.sems_ok;
  ports_ok = v.ports_ok;
  pcb_count = v.pcb_count;
  sem_count = v.sem_count;
  port_count = v.port_count;
  current_in = v.current_in;
  located = v.located;
}

pub contents-empty : (q : Queue) → q.size ≡ 0 → contents q ≡ []
contents-empty q e = rw e

pub size-enqueue : (q : Queue) (x : ℕ) → q.size ≤ (enqueue q x).1.size
unfolding enqueue
size-enqueue q x = ground arith

pub size-enqueue_room : (q : Queue) (x : ℕ) → q.size < 20 → (enqueue q x).1.size ≡ q.size + 1
unfolding enqueue
size-enqueue_room q x h = ground arith

-- What a handler does with the process that was running: it goes on, or it gave up the processor,
-- and then some process is ready.
pub record Handled (k k' : Kernel) : Type 0 where
  pub good : IsKernel k'
  pub same_or_none : (k'.current_pid ≡ k.current_pid) ⊎ (k'.current_pid ≡ 0)
  pub progress : k'.current_pid ≡ 0 → 1 ≤ k'.ready_q.size
