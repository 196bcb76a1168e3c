-- ===== src/Serial/Invariant/Step.antt =====
-- Every entry of the kernel of 9.serialport keeps the invariant, from the bootstrap on.
use class_example.Prelude.{
  ℕ, ◌≤◌, ◌<◌, ◌≡◌, ◌≢◌, ◌⊎◌, refl, sym, ◌∙◌, inl, true, some, arith, ◌>>=◌, get_elem?,
  get_elem?-lt,
}
use class_example.Prelude.Returns.{Returns, returns, Returns-bind, Returns-mono}
use class_example.Serial.Machine.{Machine}
use class_example.Serial.State.{
  Kernel, TrapFrame, run, Pcb, Sem, set_pcb, is_positive, q_size, port_num,
}
use class_example.Serial.Dispatch.{
  Event, timer, sem_alloc, sem_wait, sem_post, port_irq, port_alloc, port_write, port_read, unknown,
  event_of, handle, kernel,
}
use class_example.Serial.Invariant.{IsKernel}
use class_example.Serial.Invariant.Parts.{with_pcb, Handled}
use class_example.Serial.Invariant.Post.{sem_post-Kept}
use class_example.Serial.Invariant.Wait.{sem_wait-Handled, sem_alloc-Handled}
use class_example.Serial.Invariant.Running.{timer-Handled, scheduler-Scheduled}
use class_example.Serial.Invariant.Ports.{
  Served-Handled, port_handler-Served, port_alloc-Served, port_write-Served, port_read-Served,
}

-- A call that a process may make: `SemWait` on an owned semaphore, and only if a pass is left or
-- another process can run meanwhile; `SemPost`, `PortWrite` and `PortRead` with indices of the tables.
-- Interrupts and the other calls are always allowed.
abbrev pub IsAllowed : Event → TrapFrame → Kernel → Type 0
IsAllowed sem_wait tf k =
    (s : Sem) × (get_elem? k.sem tf.eax ≡ some s)
    × (s.owner ≢ 0)
    × ((is_positive s.passes ≡ true) ⊎ (1 ≤ k.ready_q.size))
IsAllowed sem_post tf k = tf.eax < q_size
IsAllowed port_write tf k = tf.ebx < port_num
IsAllowed port_read tf k = tf.ebx < port_num
IsAllowed _ tf k = Unit

IsAllowed-saved :
    (e : Event) (tf : TrapFrame) (k : Kernel) (i : ℕ) (c : Pcb)
    → IsAllowed e tf k
    → IsAllowed e tf (set_pcb i c k)
IsAllowed-saved timer tf k i c a = tt
IsAllowed-saved sem_wait tf k i c a = a
IsAllowed-saved sem_post tf k i c a = a
IsAllowed-saved port_write tf k i c a = a
IsAllowed-saved port_read tf k i c a = a
IsAllowed-saved _ tf k i c a = tt

module _ (m : Machine) (inb : ℕ → ℕ) where
  handle-Handled :
      (e : Event) (tf : TrapFrame) (k : Kernel)
      → IsKernel k
      → k.current_pid ≢ 0
      → IsAllowed e tf k
      → Returns (Handled k) (handle m inb e tf k)
  unfolding handle
  handle-Handled timer tf k v running a = timer-Handled k v running
  handle-Handled sem_alloc tf k v running a = sem_alloc-Handled k tf.eax v running
  handle-Handled sem_wait tf k v running (s, e, owned, others) =
      sem_wait-Handled k tf.eax s v running e owned others
  handle-Handled sem_post tf k v running a = Returns-mono (sem_post-Kept k tf.eax v a) (λ k' t.
      record {
        good = t.good;
        same_or_none = inl t.same_current;
        progress = λ z. absurd (running (sym t.same_current ∙ z));
      })
  handle-Handled port_irq tf k v running a =
      Returns-mono (port_handler-Served m inb k v) (λ k' s. Served-Handled k k' running s)
  handle-Handled port_alloc tf k v running a =
      Returns-mono (port_alloc-Served m k v) (λ k' s. Served-Handled k k' running s)
  handle-Handled port_write tf k v running a =
      Returns-mono (port_write-Served m k tf.eax tf.ebx v a) (λ k' s. Served-Handled k k' running s)
  handle-Handled port_read tf k v running a =
      Returns-mono (port_read-Served m k tf.eax tf.ebx v a) (λ k' s. Served-Handled k k' running s)
  handle-Handled unknown tf k v running a =
      returns (record { good = v; same_or_none = inl refl; progress = λ z. absurd (running z) })

-- What `KernelExit` is given: a good kernel, a process that runs, and the frame of its PCB, whose state
-- is `RUN`.
pub record Resumes (out : Kernel × TrapFrame) : Type 0 where
  pub good : IsKernel (out.0)
  pub runs : out.0.current_pid ≢ 0
  pub chosen : Pcb
  pub chosen_at : get_elem? out.0.pcb out.0.current_pid ≡ some chosen
  pub chosen_runs : chosen.state ≡ run
  pub frame_of_chosen : out.1 ≡ chosen.frame

recorded-run :
    (k : Kernel) (c : Pcb)
    → IsKernel k
    → k.current_pid ≢ 0
    → get_elem? k.pcb k.current_pid ≡ some c
    → c.state ≡ run
recorded-run k c v running e = ground (arith, v.located run k.current_pid)

pub resume :
    (k : Kernel)
    → IsKernel k
    → k.current_pid ≢ 0
    → Returns Resumes (get_elem? k.pcb k.current_pid >>= (λ c. some (k, c.frame)))
resume k v running =
    let (c, e) = get_elem?-lt k.pcb k.current_pid (omega (arith, v.current_in, v.pcb_count)) in
    rw e (
      returns (record {
        good = v;
        runs = running;
        chosen = c;
        chosen_at = e;
        chosen_runs = recorded-run k c v running e;
        frame_of_chosen = refl;
      }))

-- The dispatcher never touches memory outside its tables, and resumes a process whose PCB says that it
-- runs, with every PID at exactly the place that its PCB names: for each interrupt, and each call
-- that is allowed, in a kernel in good order in which a process runs.
pub kernel-Resumes :
    (m : Machine) (inb : ℕ → ℕ) (tf : TrapFrame) (k : Kernel)
    → IsKernel k
    → k.current_pid ≢ 0
    → IsAllowed (event_of tf.event_num) tf k
    → Returns Resumes (kernel m inb tf k)
unfolding kernel
kernel-Resumes m inb tf k v running a =
    let (c, e) = get_elem?-lt k.pcb k.current_pid (omega (arith, v.current_in, v.pcb_count)) in
    let saved = set_pcb k.current_pid (record c { frame = tf }) k in
    rw e (
      Returns-bind
        (handle-Handled m inb (event_of tf.event_num) tf saved
          (with_pcb k k.current_pid c (record c { frame = tf }) v e refl) running
          (IsAllowed-saved (event_of tf.event_num) tf k k.current_pid (record c { frame = tf }) a))
        λ k1 h.
          Returns-bind (scheduler-Scheduled k1 h.good h.progress) λ k2 s. resume k2 s.good s.runs)
