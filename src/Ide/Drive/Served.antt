-- ===== src/Ide/Drive/Served.antt =====
-- What the wait in iderw of A.ide/src/ide.c leaves.
use class_example.Prelude.{
  ℕ, ◌<◌, ◌≡◌, ◌≢◌, refl, ap₂, ◌∙◌, true, false, Option, none, some, List, [], ◌∷◌, ◌++◌, arith,
  ◌==◌, leb, length,
}
use class_example.Prelude.Returns.{Returns, returns}
use class_example.Memory.{Memory}
use class_example.Ide.Bcache.{is_dirty}
use class_example.Ide.Bcache.Ring.{All-split}
use class_example.Ide.Drive.{Drive, fssize, is_synced, idestart, ide_irq_handler, wait_for}
use class_example.Ide.Drive.Requests.{Queued}
use class_example.Ide.Drive.Interrupt.{
  Request, Started, served, irq-served, answer_other, arrived, answer_own, irq-Queued, irq-Request,
}

-- What a request leaves at its end.
pub record Outcome (s' : Drive) (b dev blockno flags : ℕ) (bytes : Memory) (answer : Option Memory)
    : Type 0 where
  pub synced : is_synced (s'.cache.flags b) ≡ true
  pub empty : s'.idequeue ≡ none
  pub commanded : Started s' dev blockno flags bytes
  pub data_is : s'.bytes b ≡ arrived (is_dirty flags) answer bytes

module _ (b dev blockno flags : ℕ) (bytes : Memory) (on_disk : blockno < fssize) where
  idestart-Started :
      (s : Drive)
      → Request s b dev blockno flags bytes
      → Started (idestart b s) dev blockno flags bytes
  unfolding idestart
  idestart-Started s r =
      let inside : leb fssize blockno ≡ false = ground (arith, on_disk) in
      rw (idestart, r.blockno_is, inside, r.dev_is, r.flags_are, r.bytes_are) (s.sent, refl)

  -- The request is the first one and has been started, or others stand before it.
  abbrev Ready : List ℕ → Drive → Type 0
  Ready [] s = Started s dev blockno flags bytes
  Ready (x ∷ xs) s = Unit

  irq-Ready :
      (answer : Option Memory) (s : Drive) (x : ℕ) (xs : List ℕ)
      → Queued s (x ∷ (xs ++ (b ∷ [])))
      → b ≢ x
      → Request s b dev blockno flags bytes
      → Ready xs (ide_irq_handler answer s)
  irq-Ready answer s x [] v ne r =
      let other : (b == x) ≡ false = ground (arith, ne) in
      let r' : Request (served x answer s) b dev blockno flags bytes = record {
        dev_is = r.dev_is;
        blockno_is = r.blockno_is;
        flags_are = rw other r.flags_are;
        bytes_are = answer_other x b answer s ne ∙ r.bytes_are;
      } in
      let next : s.qnext x ≡ some b = v.chain.1.0 in
      rw (irq-served x answer s v.chain.0, next) (idestart-Started (served x answer s) r')
  irq-Ready answer s x (y ∷ xs) v ne r = tt

  irq-Outcome :
      (answer : Option Memory) (s : Drive)
      → Queued s (b ∷ [])
      → Request s b dev blockno flags bytes
      → Started s dev blockno flags bytes
      → Outcome (ide_irq_handler answer s) b dev blockno flags bytes answer
  irq-Outcome answer s v r st =
      let own : (b == b) ≡ true = ground arith in
      rw (irq-served b answer s v.chain.0) (record {
        synced = rw own (ground arith);
        empty = v.chain.1;
        commanded = rw v.chain.1 st;
        data_is =
            answer_own b answer s
            ∙ ap₂ (λ f m. arrived (is_dirty f) answer m) r.flags_are r.bytes_are;
      })

  wait_for_done :
      (answers : List (Option Memory)) (s : Drive)
      → is_synced (s.cache.flags b) ≡ true
      → wait_for b answers s ≡ some (s, answers)
  unfolding wait_for
  wait_for_done [] s e = rw (wait_for, e) refl
  wait_for_done (a ∷ answers) s e = rw (wait_for, e) refl

  wait_for_step :
      (answer : Option Memory) (answers : List (Option Memory)) (s : Drive)
      → is_synced (s.cache.flags b) ≡ false
      → wait_for b (answer ∷ answers) s ≡ wait_for b answers (ide_irq_handler answer s)
  unfolding wait_for
  wait_for_step answer answers s e = rw (wait_for, e) refl

  pub wait_for-Outcome :
      (xs : List ℕ) (before : List (Option Memory)) (answer : Option Memory)
      (rest : List (Option Memory)) (s : Drive)
      → is_synced flags ≡ false
      → Queued s (xs ++ (b ∷ []))
      → Request s b dev blockno flags bytes
      → length before ≡ length xs
      → Ready xs s
      → Returns
          (λ (s', left). (left ≡ rest) × Outcome s' b dev blockno flags bytes answer)
          (wait_for b (before ++ (answer ∷ rest)) s)
  wait_for-Outcome [] [] answer rest s waiting v r e st =
      let o = irq-Outcome answer s v r st in
      let not_yet : is_synced (s.cache.flags b) ≡ false = rw r.flags_are waiting in
      rw
        (
          wait_for_step answer rest s not_yet,
          wait_for_done rest (ide_irq_handler answer s) o.synced,
        )
        (returns (refl, o))
  wait_for-Outcome [] (a ∷ before) answer rest s waiting v r e st = absurd (ground (arith, e))
  wait_for-Outcome (x ∷ xs) [] answer rest s waiting v r e st = absurd (ground (arith, e))
  wait_for-Outcome (x ∷ xs) (a ∷ before) answer rest s waiting v r e st =
      let ne : b ≢ x = (All-split (λ z. z ≢ x) xs b [] v.distinct.0).1.0 in
      let not_yet : is_synced (s.cache.flags b) ≡ false = rw r.flags_are waiting in
      rw (wait_for_step a (before ++ (answer ∷ rest)) s not_yet) (
        wait_for-Outcome xs before answer rest (ide_irq_handler a s) waiting
          (irq-Queued a s x (xs ++ (b ∷ [])) v)
          (irq-Request a s x (xs ++ (b ∷ [])) v b dev blockno flags bytes ne r) (omega (arith, e))
          (irq-Ready a s x xs v ne r))
