-- ===== src/Serial/Invariant/Reach.antt =====
-- Every state that a run of the kernel of 9.serialport reaches has the invariant.
use class_example.Prelude.{
  ℕ, ◌<◌, ◌≡◌, ◌≢◌, subst, Option-cases, inl, inr, ◌>>=◌, some, arith, get_elem?, All-get_elem?,
}
use class_example.Prelude.Returns.{Returns-some}
use class_example.Serial.Machine.{Machine}
use class_example.Serial.State.{Kernel, TrapFrame, Port, q_size, set_port}
use class_example.Serial.Dispatch.{event_of, kernel, boot}
use class_example.Serial.Invariant.{IsKernel, IsPort}
use class_example.Serial.Invariant.Parts.{with_port}
use class_example.Serial.Invariant.Step.{IsAllowed, Resumes, kernel-Resumes}
use class_example.Serial.Syscall.{store_write_sid, store_read_sid, reset_read_q}
use class_example.Serial.Invariant.Boot.{boot-Resumes}

-- The states that a run can reach: the bootstrap, then interrupts and allowed calls in any order, and
-- the stores of `PortAlloc`: an id below 20 in place of a semaphore, and the reset of a read queue that is empty.
-- Not covered are what `PortAlloc` stores when the table of semaphores is full, and the reset of a
-- queue that holds characters (Exhausted).
pub data Reach (m : Machine) : Kernel → Type 0 where
  booted :
      {k : Kernel} {f : TrapFrame} (init term_proc : ℕ) (memory : ℕ → ℕ)
      → boot m init term_proc memory ≡ some (k, f)
      → Reach m k
  entered :
      {k k' : Kernel} {f : TrapFrame} (inb : ℕ → ℕ) (tf : TrapFrame)
      → Reach m k
      → IsAllowed (event_of tf.event_num) tf k
      → kernel m inb tf k ≡ some (k', f)
      → Reach m k'
  stored_write_sid :
      {k k' : Kernel} (p sid : ℕ)
      → Reach m k
      → sid < q_size
      → store_write_sid p sid k ≡ some k'
      → Reach m k'
  stored_read_sid :
      {k k' : Kernel} (p sid : ℕ)
      → Reach m k
      → sid < q_size
      → store_read_sid p sid k ≡ some k'
      → Reach m k'
  read_q_reset :
      {k k' : Kernel} (p : ℕ) (d : Port)
      → Reach m k
      → get_elem? k.port p ≡ some d
      → d.read_q.size ≡ 0
      → reset_read_q p k ≡ some k'
      → Reach m k'

-- What holds of every reachable kernel.
pub record IsRunning (k : Kernel) : Type 0 where
  pub good : IsKernel k
  pub runs : k.current_pid ≢ 0

IsRunning-of : {k : Kernel} {f : TrapFrame} → Resumes (k, f) → IsRunning k
IsRunning-of r = record { good = r.good; runs = r.runs }

port_change :
    (k k' : Kernel) (p : ℕ) (g : Port → Port)
    → ((d : Port) → get_elem? k.port p ≡ some d → IsPort d → IsPort (g d))
    → IsRunning k
    → (get_elem? k.port p >>= (λ d. some (set_port p (g d) k))) ≡ some k'
    → IsRunning k'
port_change k k' p g keep v e = elim (Option-cases (get_elem? k.port p)) [
  | inl out ↦ let e' = rw out at e in cc
  | inr (d, at_p) ↦
      let ok = keep d at_p (All-get_elem? IsPort k.port p v.good.ports_ok at_p) in
      let same : set_port p (g d) k ≡ k' = let e' = rw at_p at e in cc in
      subst IsRunning same (record { good = with_port k p (g d) v.good ok; runs = v.runs })
]

-- Whatever the run of the bootstrap, interrupts, allowed calls, stores of semaphore ids below 20 and resets of empty
-- read queues, in every kernel that it reaches a process runs and the invariant holds: every PID
-- stands at exactly the place that its PCB names, no queue is out of order, a semaphore with passes or
-- without an owner has no waiters, and the flag `write_ok` of every port with an owner is up.
pub Reach-IsRunning : (m : Machine) (k : Kernel) → Reach m k → IsRunning k
Reach-IsRunning m k (booted {f} init term_proc memory e) =
    IsRunning-of (Returns-some (boot-Resumes m init term_proc memory) e)
Reach-IsRunning m k (entered {k = before} inb tf r a e) =
    let v = Reach-IsRunning m before r in
    IsRunning-of (Returns-some (kernel-Resumes m inb tf before v.good v.runs a) e)
Reach-IsRunning m k (stored_write_sid {k = before} p sid r h e) =
    port_change before k p (λ d. record d { write_sid = sid })
      (λ d _ ok. record {
        write_ok_q = ok.write_ok_q;
        read_ok_q = ok.read_ok_q;
        loopback_ok_q = ok.loopback_ok_q;
        write_sid_in = h;
        read_sid_in = ok.read_sid_in;
        flag_up = ok.flag_up;
      })
      (Reach-IsRunning m before r) e
Reach-IsRunning m k (stored_read_sid {k = before} p sid r h e) =
    port_change before k p (λ d. record d { read_sid = sid })
      (λ d _ ok. record {
        write_ok_q = ok.write_ok_q;
        read_ok_q = ok.read_ok_q;
        loopback_ok_q = ok.loopback_ok_q;
        write_sid_in = ok.write_sid_in;
        read_sid_in = h;
        flag_up = ok.flag_up;
      })
      (Reach-IsRunning m before r) e
Reach-IsRunning m k (read_q_reset {k = before} p d r found empty e) =
    port_change before k p (λ d'. record d' { read_q = record (d'.read_q) { size = 0 } })
      (λ d' at_p ok.
        let same : d' ≡ d = cc in
        let no_items : d'.read_q.size ≡ 0 = rw same empty in
        record {
          write_ok_q = ok.write_ok_q;
          read_ok_q = omega (arith, no_items, ok.read_ok_q);
          loopback_ok_q = ok.loopback_ok_q;
          write_sid_in = ok.write_sid_in;
          read_sid_in = ok.read_sid_in;
          flag_up = ok.flag_up;
        })
      (Reach-IsRunning m before r) e
