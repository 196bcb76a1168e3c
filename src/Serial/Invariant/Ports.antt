-- ===== src/Serial/Invariant/Ports.antt =====
-- The serial driver keeps the invariant: `PortWriteOne`, `PortReadOne`, `PortHandler`,
-- `PortAllocHandler`, `PortWriteHandler` and `PortReadHandler`.
use class_example.Prelude.{
  ℕ, zero, suc, ◌+◌, ◌%◌, ◌≤◌, ◌<◌, ◌≡◌, ◌≢◌, refl, sym, ◌∙◌, inl, inr, true, false, Option, none,
  some, List, [], ◌∷◌, arith, Bool, ◌&&◌, if◌then◌else◌, ◌==◌, ◌>>=◌, get_elem?, All, All-get_elem?,
  Bool-cases, get_elem?-lt, lt-get_elem?,
}
use class_example.Prelude.Returns.{Returns, returns, Returns-bind, Returns-mono}
use class_example.Serial.Queue.{Queue, dequeue, enqueue, is_empty, is_full}
use class_example.Serial.Queue.Refine.{IsQueue, enqueue-IsQueue, dequeue-IsQueue}
use class_example.Serial.Machine.{Machine}
use class_example.Serial.State.{Kernel, Port, set_port, outportb, q_size, port_num}
use class_example.Serial.Port.{
  take_one, port_write_one, port_read_one, serve_port, port_loop, port_handler, echo, is_newline,
  port_write_handler, port_read_handler, port_alloc_handler, alloc_port_in, free_port, char_to_int,
  fresh_port, program_uart, io_bases,
}
use class_example.Serial.Semaphore.{sem_post_handler}
use class_example.Serial.Invariant.{IsKernel, IsPort}
use class_example.Serial.Invariant.Parts.{with_port, with_io, Handled}
use class_example.Serial.Invariant.Post.{sem_post-Kept}
use class_example.Serial.Invariant.Wait.{set_eax-IsKernel}

-- What the driver does with the processes: the running one goes on, and nobody leaves the ready queue.
pub record Served (k k' : Kernel) : Type 0 where
  pub good : IsKernel k'
  pub same_current : k'.current_pid ≡ k.current_pid
  pub ready_grows : k.ready_q.size ≤ k'.ready_q.size

pub Served-trans : {a b c : Kernel} → Served a b → Served b c → Served a c
Served-trans p q = record {
  good = q.good;
  same_current = q.same_current ∙ p.same_current;
  ready_grows = omega arith;
}

pub Served-refl : (k : Kernel) → IsKernel k → Served k k
Served-refl k v = record { good = v; same_current = refl; ready_grows = omega arith }

pub Served-Handled : (k k' : Kernel) → k.current_pid ≢ 0 → Served k k' → Handled k k'
Served-Handled k k' running s = record {
  good = s.good;
  same_or_none = inl s.same_current;
  progress = λ z. absurd (running (sym s.same_current ∙ z));
}

port_at :
    (k : Kernel) (p : ℕ)
    → IsKernel k
    → p < port_num
    → (d : Port) × (get_elem? k.port p ≡ some d) × IsPort d
port_at k p v h =
    let (d, e) = get_elem?-lt k.port p (omega (arith, v.port_count)) in
    (d, e, All-get_elem? IsPort k.port p v.ports_ok e)

-- A port with other queues, and any flag.
pub IsPort-queues :
    (d : Port) (flag : ℕ) {w r l : Queue}
    → IsPort d
    → (d.owner ≢ 0 → flag ≡ 1)
    → IsQueue w
    → IsQueue r
    → IsQueue l
    → IsPort (record d { write_ok = flag; write_q = w; read_q = r; loopback_q = l })
IsPort-queues d flag ok up w r l = record {
  write_ok_q = w;
  read_ok_q = r;
  loopback_ok_q = l;
  write_sid_in = ok.write_sid_in;
  read_sid_in = ok.read_sid_in;
  flag_up = up;
}

replace : (k : Kernel) (p : ℕ) (d : Port) → IsKernel k → IsPort d → Served k (set_port p d k)
replace k p d v ok = record {
  good = with_port k p d v ok;
  same_current = refl;
  ready_grows = omega arith;
}

-- A post behind a change of a port.
replace_post :
    (k : Kernel) (p sid : ℕ) (d : Port)
    → IsKernel k
    → IsPort d
    → sid < q_size
    → Returns (Served k) (sem_post_handler sid (set_port p d k))
replace_post k p sid d v ok h =
    Returns-mono (sem_post-Kept (set_port p d k) sid (with_port k p d v ok) h)
      (λ k' s. record { good = s.good; same_current = s.same_current; ready_grows = s.ready_grows })

sent : (k : Kernel) (address byte : ℕ) → IsKernel k → Served k (outportb address byte k)
sent k address byte v = record {
  good = with_io k (outportb address byte k).output k.memory k.current_time v;
  same_current = refl;
  ready_grows = omega arith;
}

echo-IsQueue : (q : Queue) (c : ℕ) → IsQueue q → IsQueue (echo q c)
unfolding echo
echo-IsQueue q c v = elim (Bool-cases (is_newline c)) [
  | inl newline ↦ rw newline (enqueue-IsQueue (enqueue q c).1 10 (enqueue-IsQueue q c v))
  | inr other ↦ rw other (enqueue-IsQueue q c v)
]

-- A step under a test.
when :
    (b : Bool) (k : Kernel) {o : Option Kernel}
    → IsKernel k
    → Returns (Served k) o
    → Returns (Served k) (if b then o else some k)
when true k v r = r
when false k v r = returns (Served-refl k v)

unless :
    (b : Bool) (k : Kernel) {o : Option Kernel}
    → IsKernel k
    → Returns (Served k) o
    → Returns (Served k) (if b then some k else o)
unless true k v r = returns (Served-refl k v)
unless false k v r = r

module _ (m : Machine) where
  take_one-Served :
      (k : Kernel) (p : ℕ) (d : Port)
      → IsKernel k
      → IsPort d
      → Returns (λ (one, k'). Served k k') (take_one m p d k)
  unfolding take_one
  take_one-Served k p d v ok = elim (Bool-cases (is_empty d.loopback_q)) [
    | inl none_to_echo ↦ rw none_to_echo (
        Returns-bind
          (replace_post k p d.write_sid (record d { write_q = (dequeue d.write_q).2 }) v
            (IsPort-queues d d.write_ok ok ok.flag_up (dequeue-IsQueue d.write_q ok.write_ok_q)
              ok.read_ok_q ok.loopback_ok_q)
            ok.write_sid_in)
          (λ k' s. returns s))
    | inr to_echo ↦ rw to_echo (
        returns (
          replace k p (record d { loopback_q = (dequeue d.loopback_q).2 }) v
            (IsPort-queues d d.write_ok ok ok.flag_up ok.write_ok_q ok.read_ok_q
              (dequeue-IsQueue d.loopback_q ok.loopback_ok_q))))
  ]

  pub write_one-Served :
      (k : Kernel) (p : ℕ) → IsKernel k → p < port_num → Returns (Served k) (port_write_one m p k)
  unfolding port_write_one
  write_one-Served k p v h =
      let (d, e, ok) = port_at k p v h in
      rw e (elim (Bool-cases (is_empty d.write_q && is_empty d.loopback_q)) [
        | inl idle ↦ rw idle (
            returns (
              replace k p (record d { write_ok = 1 }) v
                (IsPort-queues d 1 ok (λ _. refl) ok.write_ok_q ok.read_ok_q ok.loopback_ok_q)))
        | inr busy ↦ rw busy (
            Returns-bind (take_one-Served k p d v ok)
              (λ (one, k') s. returns (Served-trans s (sent k' _ one s.good))))
      ])

  pub port_write-Served :
      (k : Kernel) (one p : ℕ)
      → IsKernel k
      → p < port_num
      → Returns (Served k) (port_write_handler m one p k)
  unfolding port_write_handler
  port_write-Served k one p v h =
      let (d, e, ok) = port_at k p v h in
      let d' = record d { write_q = (enqueue d.write_q (char_to_int one)).1 } in
      let s : Served k (set_port p d' k) = replace k p d' v (
        IsPort-queues d d.write_ok ok ok.flag_up
          (enqueue-IsQueue d.write_q (char_to_int one) ok.write_ok_q) ok.read_ok_q
          ok.loopback_ok_q) in
      rw e (elim (Bool-cases (is_full d.write_q)) [
        | inl full ↦ rw full (returns (Served-refl k v))
        | inr free ↦ rw free (elim (Bool-cases (d.write_ok == 0)) [
          | inl off ↦ rw off (returns s)
          | inr on ↦ rw on (
              Returns-mono (write_one-Served (set_port p d' k) p s.good h)
                (λ k' t. Served-trans s t))
        ])
      ])

  pub port_read-Served :
      (k : Kernel) (address p : ℕ)
      → IsKernel k
      → p < port_num
      → Returns (Served k) (port_read_handler m address p k)
  unfolding port_read_handler
  port_read-Served k address p v h =
      let (d, e, ok) = port_at k p v h in
      rw e (elim (Bool-cases (is_empty d.read_q)) [
        | inl empty ↦ rw empty (returns (Served-refl k v))
        | inr more ↦ rw more (
            returns (
              let s =
                replace k p (record d { read_q = (dequeue d.read_q).2 }) v
                  (IsPort-queues d d.write_ok ok ok.flag_up ok.write_ok_q
                    (dequeue-IsQueue d.read_q ok.read_ok_q) ok.loopback_ok_q) in
              record {
                good = with_io _ _ _ _ s.good;
                same_current = refl;
                ready_grows = omega arith;
              }))
      ])

  module _ (inb : ℕ → ℕ) where
    pub read_one-Served :
        (k : Kernel) (p : ℕ)
        → IsKernel k
        → p < port_num
        → Returns (Served k) (port_read_one m inb p k)
    unfolding port_read_one
    read_one-Served k p v h =
        let (d, e, ok) = port_at k p v h in
        rw e (elim (Bool-cases (is_full d.read_q)) [
          | inl full ↦ rw full (returns (Served-refl k v))
          | inr free ↦ rw free (
              replace_post k p d.read_sid _ v
                (IsPort-queues d d.write_ok ok ok.flag_up ok.write_ok_q
                  (enqueue-IsQueue d.read_q _ ok.read_ok_q)
                  (echo-IsQueue d.loopback_q _ ok.loopback_ok_q))
                ok.read_sid_in)
        ])

    serve-Served :
        (k : Kernel) (p : ℕ) (d : Port)
        → IsKernel k
        → p < port_num
        → Returns (Served k) (serve_port m inb p d k)
    unfolding serve_port
    serve-Served k p d v h =
        Returns-bind
          (when (inb (d.io_base + m.reg_iir) % 256 == m.iir_rxrdy) k v (read_one-Served k p v h))
          λ k1 s1.
            Returns-bind
              (Returns-mono
                (when (inb (d.io_base + m.reg_iir) % 256 == m.iir_txrdy) k1 s1.good
                  (write_one-Served k1 p s1.good h))
                (λ _ t. Served-trans s1 t))
              λ k2 s2.
                let (d', e, ok) = port_at k2 p s2.good h in
                rw e (
                  Returns-mono
                    (unless (d'.write_ok == 0) k2 s2.good (write_one-Served k2 p s2.good h))
                    (λ _ t. Served-trans s2 t))

    loop-Served :
        (left p : ℕ) (k : Kernel)
        → IsKernel k
        → p + left ≤ port_num
        → Returns (Served k) (port_loop m inb left p k)
    unfolding port_loop
    loop-Served zero p k v h = returns (Served-refl k v)
    loop-Served (suc left) p k v h =
        let (d, e, ok) = port_at k p v (omega arith) in
        rw e (elim (Bool-cases (d.owner == 0)) [
          | inl unowned ↦ rw unowned (loop-Served left (p + 1) k v (omega arith))
          | inr owned ↦ rw owned (
              Returns-bind (serve-Served k p d v (omega arith)) (λ k' s.
                Returns-mono (loop-Served left (p + 1) k' s.good (omega arith))
                  (λ k'' t. Served-trans s t)))
        ])

    pub port_handler-Served : (k : Kernel) → IsKernel k → Returns (Served k) (port_handler m inb k)
    unfolding port_handler
    port_handler-Served k v =
        Returns-bind (loop-Served port_num 0 k v (omega arith))
          (λ k' s. returns (Served-trans s (sent k' 0x20 0x20 s.good)))

-- What the search for a port with no owner finds.
abbrev FoundPort : List Port → Option ℕ → Type 0
FoundPort ds none = All (λ d. d.owner ≢ 0) ds
FoundPort ds (some i) = (d : Port) × (get_elem? ds i ≡ some d) × (d.owner ≡ 0)

FoundPort-cons :
    (d : Port) (ds : List Port) (o : Option ℕ)
    → d.owner ≢ 0
    → FoundPort ds o
    → FoundPort (d ∷ ds) (o >>= (λ i. some (suc i)))
FoundPort-cons d ds none nz h = (nz, h)
FoundPort-cons d ds (some i) nz h = h

free_port_lem : (ds : List Port) → FoundPort ds (free_port ds)
unfolding free_port
free_port_lem [] = tt
free_port_lem (d ∷ ds) = elim (Bool-cases (d.owner == 0)) [
  | inl unowned ↦ rw unowned (d, refl, ground arith)
  | inr owned ↦ rw owned (FoundPort-cons d ds (free_port ds) (ground arith) (free_port_lem ds))
]

alloc_at :
    (m : Machine) (k : Kernel) (o : Option ℕ)
    → IsKernel k
    → FoundPort k.port o
    → Returns (Served k) (alloc_port_in m k o)
unfolding alloc_port_in
alloc_at m k none v h = returns (Served-refl k v)
alloc_at m k (some p) v (d, e, unowned) =
    let h : p < 3 = omega (arith, lt-get_elem? k.port p e, v.port_count) in
    let (io, io_at) = get_elem?-lt io_bases p (omega arith) in
    Returns-bind (set_eax-IsKernel k p v) (λ k' (good, same, kept). rw io_at (
      returns (
        let fresh = fresh_port m k.current_pid io in
        let s = with_port k' p fresh good (omega arith) in
        record {
          good =
              with_io _ (program_uart m io (set_port p fresh k')).output k'.memory k'.current_time
                s;
          same_current = same;
          ready_grows = rw kept (omega arith);
        })))

pub port_alloc-Served :
    (m : Machine) (k : Kernel) → IsKernel k → Returns (Served k) (port_alloc_handler m k)
unfolding port_alloc_handler
port_alloc-Served m k v = alloc_at m k (free_port k.port) v (free_port_lem k.port)
