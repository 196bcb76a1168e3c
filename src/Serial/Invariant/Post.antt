-- ===== src/Serial/Invariant/Post.antt =====
-- `SemPostHandler` keeps the invariant, and never fails on a semaphore of the table.
use class_example.Prelude.{
  ℕ, ◌≤◌, ◌<◌, ◌≡◌, ◌≢◌, refl, some, arith, ◌==◌, get_elem?, length, length-set, get_elem?-lt,
  All-set, All-get_elem?, Bool-cases, inl, inr, ◌∙◌,
}
use class_example.Prelude.Returns.{Returns, returns}
use class_example.Serial.Queue.{dequeue, queue_size}
use class_example.Serial.Queue.Refine.{enqueue-IsQueue, dequeue-IsQueue}
use class_example.Serial.State.{
  Kernel, ready, wait, Pcb, Sem, set_state, make_ready, set_pcb, set_sem, increment, q_size,
}
use class_example.Serial.Semaphore.{sem_post_handler}
use class_example.Serial.Invariant.{IsKernel, IsSem, tally, waiting}
use class_example.Serial.Invariant.Parts.{with_sem, size-enqueue}
use class_example.Serial.Invariant.Move.{move}
use class_example.Serial.Invariant.Room.{has_room, recorded-pid}
use class_example.Serial.Invariant.Tables.{
  front, count-enqueue, count-dequeue, waiting-set, count-le-waiting,
}

-- What `SemPostHandler` does: the running process and the ports stay, and no process leaves the
-- ready queue.
pub record Kept (k k' : Kernel) : Type 0 where
  pub good : IsKernel k'
  pub same_current : k'.current_pid ≡ k.current_pid
  pub same_ports : k'.port ≡ k.port
  pub same_output : k'.output ≡ k.output
  pub ready_grows : k.ready_q.size ≤ k'.ready_q.size

module _ (k : Kernel) (v : IsKernel k) (sid : ℕ) (s : Sem) (e : get_elem? k.sem sid ≡ some s) where
  s_ok : IsSem s
  s_ok = All-get_elem? IsSem k.sem sid v.sems_ok e

  -- Nobody waits: the pass is banked.
  bank : s.wait_q.size ≡ 0 → Kept k (set_sem sid (record s { passes = increment s.passes }) k)
  bank nobody = record {
    good =
        with_sem k sid s (record s { passes = increment s.passes }) v e
          (record {
            queue = s_ok.queue;
            open_means_empty = λ _. nobody;
            unowned_means_empty = λ _. nobody;
          })
          (λ p. refl);
    same_current = refl;
    same_ports = refl;
    same_output = refl;
    ready_grows = omega arith;
  }

  -- Somebody waits: the first of them is made ready.
  module _ (waits : s.wait_q.size ≢ 0) where
    abbrev f : ℕ
    f = front s.wait_q

    abbrev s' : Sem
    s' = record s { wait_q = (dequeue s.wait_q).2 }

    abbrev woken : Pcb → Kernel
    woken c = set_pcb f (record c { state = ready }) (make_ready f (set_sem sid s' k))

    held : 1 ≤ waiting f k.sem
    held =
        ground (arith, count-dequeue s.wait_q f s_ok.queue waits, count-le-waiting k.sem sid s f e)

    is_pid : (f ≢ 0) × (f < length k.pcb)
    is_pid = recorded-pid k.pcb wait f (omega (arith, held, v.located wait f))

    room : k.ready_q.size < queue_size
    room = has_room k.ready_q k.pcb ready v.pcb_count (λ p. omega (arith, v.located ready p))

    s'_ok : IsSem s'
    s'_ok = record {
      queue = dequeue-IsQueue s.wait_q s_ok.queue;
      open_means_empty = λ h. absurd (waits (s_ok.open_means_empty h));
      unowned_means_empty = λ h. absurd (waits (s_ok.unowned_means_empty h));
    }

    woken-IsKernel : (c : Pcb) → IsKernel (woken c)
    woken-IsKernel c = record {
      free_ok = v.free_ok;
      ready_ok = enqueue-IsQueue k.ready_q f v.ready_ok;
      sems_ok = All-set IsSem k.sem sid s' v.sems_ok s'_ok;
      ports_ok = v.ports_ok;
      pcb_count = length-set k.pcb f (record c { state = ready }) ∙ v.pcb_count;
      sem_count = length-set k.sem sid s' ∙ v.sem_count;
      port_count = v.port_count;
      current_in = v.current_in;
      located =
          move (tally k) (tally (woken c)) k.pcb wait f (record c { state = ready }) v.located
            is_pid.0 is_pid.1 held
            (λ t p. ground (
              arith,
              count-enqueue k.ready_q f p v.ready_ok room,
              count-dequeue s.wait_q p s_ok.queue waits,
              waiting-set k.sem sid s s' p e,
            ));
    }

  post_at : Returns (Kept k) (sem_post_handler sid k)
  unfolding sem_post_handler set_state
  post_at = rw e (elim (Bool-cases (s.wait_q.size == 0)) [
    | inl nobody ↦ rw nobody (returns (bank (ground arith)))
    | inr waits ↦
        let ne : s.wait_q.size ≢ 0 = ground arith in
        let (c, found) = get_elem?-lt k.pcb (f ne) (is_pid ne).1 in
        rw (waits, found)
          (returns (record {
            good = woken-IsKernel ne c;
            same_current = refl;
            same_ports = refl;
            same_output = refl;
            ready_grows = size-enqueue k.ready_q (f ne);
          }))
  ])

-- `SemPostHandler` on a semaphore of the table is defined in a kernel in good order, leaves it so, and
-- changes neither the running process nor a port.
pub sem_post-Kept :
    (k : Kernel) (sid : ℕ) → IsKernel k → sid < q_size → Returns (Kept k) (sem_post_handler sid k)
sem_post-Kept k sid v h =
    let (s, e) = get_elem?-lt k.sem sid (omega (arith, v.sem_count)) in post_at k v sid s e
