-- ===== src/Serial/Invariant/Pending.antt =====
-- What the serial driver sends, and in which order: the bytes that wait to be echoed before those that
-- the application wrote, each kind oldest first.
use class_example.Prelude.{
  ℕ, ◌+◌, ◌%◌, ◌<◌, ◌≡◌, ◌≢◌, refl, sym, ap, ◌∙◌, inl, inr, false, Option, some, List, [], ◌∷◌,
  ◌++◌, arith, ◌&&◌, ◌==◌, ◌>>=◌, get_elem?, set, All-get_elem?, Bool-cases, lt-get_elem?, false,
  get_elem?-set_self,
}
use mathlib.Core.List.{append_assoc, append-nil}
use class_example.Prelude.Returns.{Returns, returns, Returns-bind, Returns-mono}
use class_example.Serial.Queue.{Queue, dequeue, enqueue, is_empty, is_full, queue_size}
use class_example.Serial.Queue.Refine.{
  IsQueue, contents, contents-enqueue, contents-dequeue, dequeue-IsQueue, enqueue-IsQueue,
}
use class_example.Serial.Machine.{Machine}
use class_example.Serial.State.{Kernel, Port, set_port, outportb, port_num}
use class_example.Serial.Port.{take_one, port_write_one, port_write_handler, char_to_int}
use class_example.Serial.Invariant.{IsKernel, IsPort}
use class_example.Serial.Invariant.Parts.{with_port, contents-empty}
use class_example.Serial.Invariant.Tables.{front, front_lem}
use class_example.Serial.Invariant.Post.{Kept, sem_post-Kept}
use class_example.Serial.Invariant.Ports.{IsPort-queues}

-- What a port has still to send.
abbrev pub pending : Port → List ℕ
pending d = contents d.loopback_q ++ contents d.write_q

abbrev pub tail : List ℕ → List ℕ
tail [] = []
tail (x ∷ xs) = xs

-- The byte that is sent of a list, at an address.
abbrev pub first_sent : ℕ → List ℕ → List (ℕ × ℕ)
first_sent address [] = []
first_sent address (x ∷ xs) = (address, x % 256) ∷ []

-- After one byte of `xs` was sent by port `p`, which keeps its owner and its address.
pub record SentOne (p : ℕ) (address : ℕ) (xs : List ℕ) (k k' : Kernel) : Type 0 where
  pub port' : Port
  pub at_p : get_elem? k'.port p ≡ some port'
  pub left : pending port' ≡ tail xs
  pub output : k'.output ≡ k.output ++ first_sent address xs

-- A queue that is not empty is its front and the rest.
contents-front :
    (q : Queue) → IsQueue q → q.size ≢ 0 → contents q ≡ front q ∷ contents (dequeue q).2
contents-front q v ne = rw (front_lem q ne) (contents-dequeue q v ne)

posted :
    (x : ℕ) {a : Kernel} {o : Option Kernel}
    → Returns (Kept a) o
    → Returns (λ (y, k'). (y ≡ x) × Kept a k') (o >>= (λ k'. some (x, k')))
posted x r = Returns-bind r (λ k' s. returns (refl, s))

module _ (m : Machine) (k : Kernel) (p : ℕ) (d : Port) (v : IsKernel k) (h : p < port_num)
    (e : get_elem? k.port p ≡ some d) (ok : IsPort d) where
  stored : (d' : Port) → get_elem? (set k.port p d') p ≡ some d'
  stored d' = get_elem?-set_self k.port p d' (omega (arith, v.port_count))

  sent_echo :
      d.loopback_q.size ≢ 0
      → SentOne p (d.io_base + m.reg_data) (pending d) k (
          outportb
            (d.io_base + m.reg_data)
            (front d.loopback_q)
            (set_port p (record d { loopback_q = (dequeue d.loopback_q).2 }) k))
  sent_echo ne =
      let split = contents-front d.loopback_q ok.loopback_ok_q ne in
      let d' = record d { loopback_q = (dequeue d.loopback_q).2 } in
      record { port' = d'; at_p = stored d'; left = rw split; output = rw split }

  idle_one :
      d.loopback_q.size ≡ 0
      → d.write_q.size ≡ 0
      → SentOne p (d.io_base + m.reg_data) (pending d) k (set_port p (record d { write_ok = 1 }) k)
  idle_one no_echo no_write =
      let none_l = contents-empty d.loopback_q no_echo in
      let none_w = contents-empty d.write_q no_write in
      let d' = record d { write_ok = 1 } in
      record {
        port' = d';
        at_p = stored d';
        left = rw (none_l, none_w);
        output = rw (none_l, none_w, append-nil);
      }

  sent_write :
      (k' : Kernel)
      → d.loopback_q.size ≡ 0
      → d.write_q.size ≢ 0
      → Kept (set_port p (record d { write_q = (dequeue d.write_q).2 }) k) k'
      → SentOne p
          (d.io_base + m.reg_data)
          (pending d)
          k
          (outportb (d.io_base + m.reg_data) (front d.write_q) k')
  sent_write k' no_echo ne s =
      let none_l = contents-empty d.loopback_q no_echo in
      let split = contents-front d.write_q ok.write_ok_q ne in
      let d' = record d { write_q = (dequeue d.write_q).2 } in
      record {
        port' = d';
        at_p = rw (s.same_ports) (stored d');
        left = rw (none_l, split);
        output = rw (none_l, split, s.same_output);
      }

  write_one_at : Returns (SentOne p (d.io_base + m.reg_data) (pending d) k) (port_write_one m p k)
  unfolding port_write_one take_one
  write_one_at = rw e (elim (Bool-cases (d.loopback_q.size == 0)) [
    | inl no_echo ↦
        let zero_l : d.loopback_q.size ≡ 0 = ground arith in
        elim (Bool-cases (d.write_q.size == 0)) [
          | inl no_write ↦ rw (no_write, no_echo) (returns (idle_one zero_l (ground arith)))
          | inr some_write ↦
              let d' = record d { write_q = (dequeue d.write_q).2 } in
              let ok' =
                IsPort-queues d d.write_ok ok ok.flag_up (dequeue-IsQueue d.write_q ok.write_ok_q)
                  ok.read_ok_q ok.loopback_ok_q in
              rw (some_write, no_echo)
                (Returns-bind
                  (posted (front d.write_q) (
                    sem_post-Kept (set_port p d' k) d.write_sid (with_port k p d' v ok')
                      ok.write_sid_in))
                  (λ (one, k') (same, s).
                    returns (rw same (sent_write k' zero_l (ground arith) s))))
        ]
    | inr echo ↦
        let busy : (is_empty d.write_q && is_empty d.loopback_q) ≡ false = ground (arith, echo) in
        rw (busy, echo) (returns (sent_echo (ground arith)))
  ])

-- In a kernel in good order `PortWriteOne` on a port of the table sends the first byte that is pending, the
-- echo before what was written, and leaves the others in order; with nothing pending it sends nothing.
pub write_one-SentOne :
    (m : Machine) (k : Kernel) (p : ℕ) (d : Port)
    → IsKernel k
    → get_elem? k.port p ≡ some d
    → Returns (SentOne p (d.io_base + m.reg_data) (pending d) k) (port_write_one m p k)
write_one-SentOne m k p d v e =
    write_one_at m k p d v (omega (arith, lt-get_elem? k.port p e, v.port_count)) e
      (All-get_elem? IsPort k.port p v.ports_ok e)

-- In a kernel in good order `PortWriteHandler`, on a port with an owner and room in its queue, puts the
-- character behind all that is pending, and sends the first pending byte at once.
pub port_write-SentOne :
    (m : Machine) (k : Kernel) (one p : ℕ) (d : Port)
    → IsKernel k
    → get_elem? k.port p ≡ some d
    → d.owner ≢ 0
    → d.write_q.size < queue_size
    → Returns
        (SentOne p (d.io_base + m.reg_data) (pending d ++ (char_to_int one ∷ [])) k)
        (port_write_handler m one p k)
unfolding port_write_handler
port_write-SentOne m k one p d v e owned room =
    let ok = All-get_elem? IsPort k.port p v.ports_ok e in
    let c = char_to_int one in
    let d' = record d { write_q = (enqueue d.write_q c).1 } in
    let ok' =
      IsPort-queues d d.write_ok ok ok.flag_up (enqueue-IsQueue d.write_q c ok.write_ok_q)
        ok.read_ok_q ok.loopback_ok_q in
    let behind : pending d' ≡ pending d ++ (c ∷ []) =
      ap (λ ys. contents d.loopback_q ++ ys) (contents-enqueue d.write_q c ok.write_ok_q room)
      ∙ sym (append_assoc (contents d.loopback_q) (contents d.write_q) (c ∷ [])) in
    let free : is_full d.write_q ≡ false = ground arith in
    let on : (d.write_ok == 0) ≡ false = ground (arith, ok.flag_up owned) in
    rw (e, free, on)
      (Returns-mono
        (write_one-SentOne m (set_port p d' k) p d' (with_port k p d' v ok')
          (get_elem?-set_self k.port p d' (lt-get_elem? k.port p e)))
        (λ k' s. record {
          port' = s.port';
          at_p = s.at_p;
          left = s.left ∙ ap tail behind;
          output = s.output ∙ ap (λ xs. k.output ++ first_sent (d.io_base + m.reg_data) xs) behind;
        }))
