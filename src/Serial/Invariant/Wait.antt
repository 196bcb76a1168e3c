-- ===== src/Serial/Invariant/Wait.antt =====
-- `SemWaitHandler` and `SemAllocHandler` keep the invariant.

use class_example.Prelude.{
  ℕ, suc, ◌-◌, ◌≤◌, ◌<◌, ◌≡◌, ◌≢◌, ◌⊎◌, refl, sym, ap, ◌∙◌, inl, inr, true, false, none, some, List,
  [], ◌∷◌, arith, ◌==◌, get_elem?, length-set, All-set, All-get_elem?, Bool-cases, All, Option,
  ◌>>=◌, get_elem?-lt, count,
}
use class_example.Prelude.Returns.{Returns, returns, Returns-mono}
use class_example.Serial.Queue.{enqueue, queue_size}
use class_example.Serial.Queue.Refine.{enqueue-IsQueue}
use class_example.Serial.State.{
  Kernel, run, wait, Pcb, Sem, set_state, set_eax, set_pcb, set_sem, is_positive, zero_sem,
}
use class_example.Serial.Invariant.{IsKernel, IsSem, tally}
use class_example.Serial.Invariant.Parts.{with_sem, with_pcb, contents-empty, Handled}
use class_example.Serial.Invariant.Move.{move}
use class_example.Serial.Invariant.Room.{has_room}
use class_example.Serial.Invariant.Tables.{count-enqueue, waiting-set, count-le-waiting}
use class_example.Serial.Semaphore.{free_slot, alloc_in, sem_alloc_handler, sem_wait_handler}

-- The running process has a PCB that says so.
pub current_held : (k : Kernel) → IsKernel k → k.current_pid ≢ 0 → 1 ≤ tally k run k.current_pid
current_held k v nz = ground arith

module _ (k : Kernel) (v : IsKernel k) (running : k.current_pid ≢ 0) (sid : ℕ) (s : Sem)
    (e : get_elem? k.sem sid ≡ some s) (owned : s.owner ≢ 0) where
  s_ok : IsSem s
  s_ok = All-get_elem? IsSem k.sem sid v.sems_ok e

  -- A pass is left: it is used.
  use_pass :
      is_positive s.passes ≡ true → Handled k (set_sem sid (record s { passes = s.passes - 1 }) k)
  use_pass open_ = record {
    good =
        with_sem k sid s (record s { passes = s.passes - 1 }) v e
          (record {
            queue = s_ok.queue;
            open_means_empty = λ _. s_ok.open_means_empty open_;
            unowned_means_empty = s_ok.unowned_means_empty;
          })
          (λ p. refl);
    same_or_none = inl refl;
    progress = λ h. absurd (running h);
  }

  -- No pass is left: the running process waits.
  module _ (shut : is_positive s.passes ≡ false) where
    abbrev s' : Sem
    s' = record s { wait_q = (enqueue s.wait_q k.current_pid).1 }

    abbrev blocked : Pcb → Kernel
    blocked c = record (set_pcb k.current_pid (record c { state = wait }) (set_sem sid s' k)) {
      current_pid = 0;
    }

    room : s.wait_q.size < queue_size
    room =
        has_room s.wait_q k.pcb wait v.pcb_count
          (λ p. omega (arith, v.located wait p, count-le-waiting k.sem sid s p e))

    s'_ok : IsSem s'
    s'_ok = record {
      queue = enqueue-IsQueue s.wait_q k.current_pid s_ok.queue;
      open_means_empty = λ h. cc;
      unowned_means_empty = λ h. absurd (owned h);
    }

    blocked-IsKernel : (c : Pcb) → IsKernel (blocked c)
    blocked-IsKernel c = record {
      free_ok = v.free_ok;
      ready_ok = v.ready_ok;
      sems_ok = All-set IsSem k.sem sid s' v.sems_ok s'_ok;
      ports_ok = v.ports_ok;
      pcb_count = length-set k.pcb k.current_pid (record c { state = wait }) ∙ v.pcb_count;
      sem_count = length-set k.sem sid s' ∙ v.sem_count;
      port_count = v.port_count;
      current_in = omega arith;
      located =
          move (tally k) (tally (blocked c)) k.pcb run k.current_pid (record c { state = wait })
            v.located running (omega (arith, v.current_in, v.pcb_count)) (current_held k v running)
            (λ t p. ground (
              arith,
              count-enqueue s.wait_q k.current_pid p s_ok.queue room,
              waiting-set k.sem sid s s' p e,
            ));
    }

  wait_at :
      (is_positive s.passes ≡ true) ⊎ (1 ≤ k.ready_q.size)
      → Returns (Handled k) (sem_wait_handler sid k)
  unfolding sem_wait_handler set_state
  wait_at others = rw e (elim (Bool-cases (is_positive s.passes)) [
    | inl open_ ↦ rw open_ (returns (use_pass open_))
    | inr shut ↦
        let (c, found) =
          get_elem?-lt k.pcb k.current_pid (omega (arith, v.current_in, v.pcb_count)) in
        rw (shut, found)
          (returns (record {
            good = blocked-IsKernel shut c;
            same_or_none = inr refl;
            progress = λ h. ground (arith, others);
          }))
  ])

-- `SemWaitHandler` for a running process, on an owned semaphore of the table.
pub sem_wait-Handled :
    (k : Kernel) (sid : ℕ) (s : Sem)
    → IsKernel k
    → k.current_pid ≢ 0
    → get_elem? k.sem sid ≡ some s
    → s.owner ≢ 0
    → (is_positive s.passes ≡ true) ⊎ (1 ≤ k.ready_q.size)
    → Returns (Handled k) (sem_wait_handler sid k)
sem_wait-Handled k sid s v running e owned others = wait_at k v running sid s e owned others

-- What the search for a semaphore with no owner finds.
abbrev FoundSlot : List Sem → Option ℕ → Type 0
FoundSlot ss none = All (λ s. s.owner ≢ 0) ss
FoundSlot ss (some i) = (s : Sem) × (get_elem? ss i ≡ some s) × (s.owner ≡ 0)

FoundSlot-cons :
    (s : Sem) (ss : List Sem) (o : Option ℕ)
    → s.owner ≢ 0
    → FoundSlot ss o
    → FoundSlot (s ∷ ss) (o >>= (λ i. some (suc i)))
FoundSlot-cons s ss none nz h = (nz, h)
FoundSlot-cons s ss (some i) nz h = h

free_slot_lem : (ss : List Sem) → FoundSlot ss (free_slot ss)
unfolding free_slot
free_slot_lem [] = tt
free_slot_lem (s ∷ ss) = elim (Bool-cases (s.owner == 0)) [
  | inl unowned ↦ rw unowned (s, refl, ground arith)
  | inr owned ↦ rw owned (FoundSlot-cons s ss (free_slot ss) (ground arith) (free_slot_lem ss))
]

pub set_eax-IsKernel :
    (k : Kernel) (x : ℕ)
    → IsKernel k
    → Returns
        (λ k'. IsKernel k' × (k'.current_pid ≡ k.current_pid) × (k'.ready_q ≡ k.ready_q))
        (set_eax x k)
unfolding set_eax
set_eax-IsKernel k x v =
    let (c, found) = get_elem?-lt k.pcb k.current_pid (omega (arith, v.current_in, v.pcb_count)) in
    rw found (returns (with_pcb k k.current_pid c _ v found refl, refl, refl))

alloc_at :
    (k : Kernel) (passes : ℕ) (o : Option ℕ)
    → IsKernel k
    → k.current_pid ≢ 0
    → FoundSlot k.sem o
    → Returns (Handled k) (alloc_in passes k o)
unfolding alloc_in
alloc_at k passes none v running h =
    returns (record { good = v; same_or_none = inl refl; progress = λ z. absurd (running z) })
alloc_at k passes (some sid) v running (s, e, unowned) =
    let s' = record zero_sem { passes = passes; owner = k.current_pid } in
    let ok : IsSem s' = record {
      queue = omega arith;
      open_means_empty = λ _. refl;
      unowned_means_empty = λ _. refl;
    } in
    let empty = (All-get_elem? IsSem k.sem sid v.sems_ok e).unowned_means_empty unowned in
    Returns-mono
      (set_eax-IsKernel (set_sem sid s' k) sid
        (with_sem k sid s s' v e ok (λ p. ap (count p) (sym (contents-empty s.wait_q empty)))))
      (λ k' (good, same, _). record {
        good = good;
        same_or_none = inl same;
        progress = λ z. absurd (running (sym same ∙ z));
      })

-- `SemAllocHandler` for a running process.
pub sem_alloc-Handled :
    (k : Kernel) (passes : ℕ)
    → IsKernel k
    → k.current_pid ≢ 0
    → Returns (Handled k) (sem_alloc_handler passes k)
unfolding sem_alloc_handler
sem_alloc-Handled k passes v running =
    alloc_at k passes (free_slot k.sem) v running (free_slot_lem k.sem)
