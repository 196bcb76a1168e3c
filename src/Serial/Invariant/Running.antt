-- ===== src/Serial/Invariant/Running.antt =====
-- `TimerHandler`, `Scheduler` and `NewProcHandler` keep the invariant.
use mathlib.Core.Option
use class_example.Prelude.{
  ℕ, ◌≤◌, ◌<◌, ◌≡◌, ◌≢◌, refl, ap, ◌∙◌, inl, inr, some, arith, ◌==◌, get_elem?, length, length-set,
  set, get_elem?-set_self, Bool-cases, get_elem?-lt, lt-get_elem?, count,
}
use class_example.Prelude.Returns.{Returns, returns}
use class_example.Serial.Queue.{dequeue, queue_size}
use class_example.Serial.Queue.Refine.{contents, enqueue-IsQueue, dequeue-IsQueue}
use class_example.Serial.State.{
  Kernel, free, run, ready, Pcb, set_state, make_ready, set_pcb, increment, time_limit,
}
use class_example.Serial.Invariant.{IsKernel, tally}
use class_example.Serial.Invariant.Parts.{
  with_pcb, with_io, size-enqueue, size-enqueue_room, Handled,
}
use class_example.Serial.Invariant.Move.{move}
use class_example.Serial.Invariant.Room.{has_room, recorded-pid}
use class_example.Serial.Invariant.Tables.{front, count-enqueue, count-dequeue}
use class_example.Serial.Machine.{Machine}
use class_example.Serial.Invariant.Wait.{current_held}
use class_example.Serial.Process.{
  timer_handler, scheduler, new_proc_handler, fresh_pcb, end_of_interrupt,
}

module _ (k : Kernel) (v : IsKernel k) (running : k.current_pid ≢ 0) where
  ready_room : k.ready_q.size < queue_size
  ready_room = has_room k.ready_q k.pcb ready v.pcb_count (λ p. omega (arith, v.located ready p))

  -- The time slice is used up.
  abbrev preempted : Pcb → Kernel
  preempted c = record (make_ready k.current_pid (set_pcb k.current_pid c k)) { current_pid = 0 }

  preempted-IsKernel : (c : Pcb) → c.state ≡ ready → IsKernel (preempted c)
  preempted-IsKernel c is_ready = record {
    free_ok = v.free_ok;
    ready_ok = enqueue-IsQueue k.ready_q k.current_pid v.ready_ok;
    sems_ok = v.sems_ok;
    ports_ok = v.ports_ok;
    pcb_count = length-set k.pcb k.current_pid c ∙ v.pcb_count;
    sem_count = v.sem_count;
    port_count = v.port_count;
    current_in = omega arith;
    located =
        move (tally k) (tally (preempted c)) k.pcb run k.current_pid c v.located running
          (omega (arith, v.current_in, v.pcb_count)) (current_held k v running)
          (λ t p.
            ground
              (arith, is_ready, count-enqueue k.ready_q k.current_pid p v.ready_ok ready_room));
  }

-- The tick is counted.
abbrev counted : Kernel → Pcb → Kernel
counted k c = record k {
  pcb = set k.pcb k.current_pid (record c { cpu_time = increment c.cpu_time });
  current_time = increment k.current_time;
}

counted-IsKernel :
    (k : Kernel) (c : Pcb)
    → IsKernel k
    → get_elem? k.pcb k.current_pid ≡ some c
    → IsKernel (counted k c)
counted-IsKernel k c v found =
    with_io (set_pcb k.current_pid (record c { cpu_time = increment c.cpu_time }) k) k.output
      k.memory (increment k.current_time)
      (with_pcb k k.current_pid c (record c { cpu_time = increment c.cpu_time }) v found refl)

end_of_interrupt-IsKernel : (k : Kernel) → IsKernel k → IsKernel (end_of_interrupt k)
end_of_interrupt-IsKernel k v = with_io k (end_of_interrupt k).output k.memory k.current_time v

timer_at :
    (k : Kernel) (c : Pcb)
    → IsKernel k
    → k.current_pid ≢ 0
    → get_elem? k.pcb k.current_pid ≡ some c
    → Returns (Handled k) (timer_handler k)
unfolding timer_handler set_state
timer_at k c v running found =
    let k1 = counted k c in
    let v1 : IsKernel k1 = counted-IsKernel k c v found in
    let c1 = record c { cpu_time = increment c.cpu_time } in
    let found1 =
      get_elem?-set_self k.pcb k.current_pid c1 (lt-get_elem? k.pcb k.current_pid found) in
    rw found (elim (Bool-cases (increment c.cpu_time == time_limit)) [
      | inl over ↦
          rw (over, found1)
            (returns (record {
              good =
                  end_of_interrupt-IsKernel (preempted k1 v1 running (record c1 { state = ready }))
                    (preempted-IsKernel k1 v1 running (record c1 { state = ready }) refl);
              same_or_none = inr refl;
              progress = λ z.
                  omega (arith, size-enqueue_room k.ready_q k.current_pid (ready_room k v running));
            }))
      | inr within ↦ rw within (
          returns (record {
            good = end_of_interrupt-IsKernel k1 v1;
            same_or_none = inl refl;
            progress = λ z. absurd (running z);
          }))
    ])

-- `TimerHandler`, when a process runs.
pub timer-Handled :
    (k : Kernel) → IsKernel k → k.current_pid ≢ 0 → Returns (Handled k) (timer_handler k)
timer-Handled k v running =
    let (c, found) = get_elem?-lt k.pcb k.current_pid (omega (arith, v.current_in, v.pcb_count)) in
    timer_at k c v running found

-- A process is chosen: the front of the ready queue.
module _ (k : Kernel) (v : IsKernel k) (idle : k.current_pid ≡ 0)
    (some_ready : k.ready_q.size ≢ 0) where
  abbrev f : ℕ
  f = front k.ready_q

  abbrev chosen : Pcb → Kernel
  chosen c =
      set_pcb f (record c { state = run; cpu_time = 0 })
        (record k { ready_q = (dequeue k.ready_q).2; current_pid = f })

  f_held : 1 ≤ count f (contents k.ready_q)
  f_held = ground (arith, count-dequeue k.ready_q f v.ready_ok some_ready)

  f_pid : (f ≢ 0) × (f < length k.pcb)
  f_pid = recorded-pid k.pcb ready f (omega (arith, f_held, v.located ready f))

  chosen-IsKernel : (c : Pcb) → IsKernel (chosen c)
  chosen-IsKernel c = record {
    free_ok = v.free_ok;
    ready_ok = dequeue-IsQueue k.ready_q v.ready_ok;
    sems_ok = v.sems_ok;
    ports_ok = v.ports_ok;
    pcb_count = length-set k.pcb f (record c { state = run; cpu_time = 0 }) ∙ v.pcb_count;
    sem_count = v.sem_count;
    port_count = v.port_count;
    current_in = omega (arith, f_pid, v.pcb_count);
    located =
        move (tally k) (tally (chosen c)) k.pcb ready f (record c { state = run; cpu_time = 0 })
          v.located f_pid.0 f_pid.1 f_held
          (λ t p. ground (arith, f_pid, count-dequeue k.ready_q p v.ready_ok some_ready));
  }

-- What `Scheduler` leaves: a good kernel in which a process runs.
pub record Scheduled (k k' : Kernel) : Type 0 where
  pub good : IsKernel k'
  pub runs : k'.current_pid ≢ 0

pub scheduler-Scheduled :
    (k : Kernel)
    → IsKernel k
    → (k.current_pid ≡ 0 → 1 ≤ k.ready_q.size)
    → Returns (Scheduled k) (scheduler k)
unfolding scheduler
scheduler-Scheduled k v others = elim (Bool-cases (k.current_pid == 0)) [
  | inl is_zero ↦
      let idle : k.current_pid ≡ 0 = ground arith in
      let some_ready : k.ready_q.size ≢ 0 = omega (arith, others idle) in
      let (c, found) = get_elem?-lt k.pcb (f k v idle some_ready) (f_pid k v idle some_ready).1 in
      let picked = ap (Option.get_or (dequeue k.ready_q).1) idle in
      rw (is_zero, picked, found)
        (returns (record {
          good = chosen-IsKernel k v idle some_ready c;
          runs = (f_pid k v idle some_ready).0;
        }))
  | inr busy ↦ rw busy (returns (record { good = v; runs = ground arith }))
]

-- `NewProcHandler` when a PID is free: the process is ready.
module _ (m : Machine) (k : Kernel) (v : IsKernel k) (entry : ℕ)
    (some_free : k.free_q.size ≢ 0) where
  abbrev pid : ℕ
  pid = front k.free_q

  abbrev created : Kernel
  created =
      make_ready pid (set_pcb pid (fresh_pcb m entry) (record k { free_q = (dequeue k.free_q).2 }))

  pid_held : 1 ≤ count pid (contents k.free_q)
  pid_held = ground (arith, count-dequeue k.free_q pid v.free_ok some_free)

  pid_in : (pid ≢ 0) × (pid < length k.pcb)
  pid_in = recorded-pid k.pcb free pid (omega (arith, pid_held, v.located free pid))

  created-IsKernel : IsKernel created
  created-IsKernel = record {
    free_ok = dequeue-IsQueue k.free_q v.free_ok;
    ready_ok = enqueue-IsQueue k.ready_q pid v.ready_ok;
    sems_ok = v.sems_ok;
    ports_ok = v.ports_ok;
    pcb_count = length-set k.pcb pid (fresh_pcb m entry) ∙ v.pcb_count;
    sem_count = v.sem_count;
    port_count = v.port_count;
    current_in = v.current_in;
    located =
        move (tally k) (tally created) k.pcb free pid (fresh_pcb m entry) v.located pid_in.0
          pid_in.1 pid_held
          (λ t p. ground (
            arith,
            count-dequeue k.free_q p v.free_ok some_free,
            count-enqueue k.ready_q pid p v.ready_ok (
                has_room k.ready_q k.pcb ready v.pcb_count (λ q. omega (arith, v.located ready q))),
          ));
  }

-- `NewProcHandler` is defined in a good kernel and leaves it good, also when no PID is free.
pub new_proc-IsKernel :
    (m : Machine) (k : Kernel) (entry : ℕ)
    → IsKernel k
    → Returns
        (λ k'.
          IsKernel k'
          × (k'.current_pid ≡ k.current_pid)
          × (k.ready_q.size ≤ k'.ready_q.size)
          × (k.free_q.size ≢ 0 → 1 ≤ k'.ready_q.size))
        (new_proc_handler m entry k)
unfolding new_proc_handler
new_proc-IsKernel m k entry v = elim (Bool-cases (k.free_q.size == 0)) [
  | inl empty ↦ rw empty (returns (v, refl, omega arith, λ h. absurd (ground arith)))
  | inr more ↦
      let some_free : k.free_q.size ≢ 0 = ground arith in
      let p = pid m k v entry some_free in
      let (c, found) = get_elem?-lt k.pcb p (pid_in m k v entry some_free).1 in
      rw (more, found)
        (returns (
          created-IsKernel m k v entry some_free,
          refl,
          size-enqueue k.ready_q p,
          λ _. omega (
            arith,
            size-enqueue_room k.ready_q p (
                has_room k.ready_q k.pcb ready v.pcb_count (λ q. omega (arith, v.located ready q))),
          ),
        ))
]
