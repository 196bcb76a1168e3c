-- ===== src/Ide/Irq/Registered.antt =====
-- What registration in A.ide/src/interrupts.c makes of the interrupts that follow.
use class_example.Prelude.{
  ℕ, ◌-◌, ◌%◌, ◌<◌, ◌≡◌, ◌≢◌, refl, true, false, List, ◌∷◌, ◌>>=◌, arith, if◌then◌else◌, ◌==◌, leb,
  Bool-cases, inl, inr,
}
use class_example.Prelude.Returns.{Returns, returns}
use class_example.Ide.Pic.{pic_irq_enabled}
use class_example.Ide.Pic.Masks.{enable-enabled}
use class_example.Ide.Irq.{
  irq_max, pic1_cmd, pic2_cmd, pic_eoi, Interrupts, is_from_pic, pic_irq_dismiss,
  interrupts_irq_register, interrupts_irq_handler,
}

-- The commands that end an interrupt.
abbrev pub dismissed : ℕ → List (ℕ × ℕ) → List (ℕ × ℕ)
dismissed irq sent =
    if is_from_pic irq
    then (pic1_cmd, pic_eoi) ∷ (if leb 8 (irq % 16) then (pic2_cmd, pic_eoi) ∷ sent else sent)
    else sent

-- What a registration, and an interrupt after it, leave.
pub record Handled {A : Type 0} (call : ℕ → A → A) (irq entry handler : ℕ) (s s' : Interrupts A)
    : Type 0 where
  pub run : s'.program ≡ call handler s.program
  pub gate : s'.idt irq ≡ entry
  pub others : (i : ℕ) → i ≢ irq → s'.irq_handlers i ≡ s.irq_handlers i
  pub commanded : s'.commands ≡ dismissed irq s.commands
  pub line_on : is_from_pic irq ≡ true → pic_irq_enabled irq s'.pic ≡ 1

-- Once an interrupt inside the table is registered with an entry and a handler that are not null, it runs this
-- handler once. Its gate has the entry, the other handlers are as before, an interrupt of the controllers is
-- dismissed at the second one too when it came from there, and its line is on.
pub register-Handled :
    {A : Type 0} (call : ℕ → A → A) (irq entry handler : ℕ) (s : Interrupts A)
    → irq < irq_max
    → entry ≢ 0
    → handler ≢ 0
    → Returns
        (Handled call irq entry handler s)
        (interrupts_irq_register irq entry handler s >>= interrupts_irq_handler call irq)
unfolding interrupts_irq_register interrupts_irq_handler pic_irq_dismiss
register-Handled call irq entry handler s inside has_entry has_handler =
    let e1 : leb irq_max irq ≡ false = ground (arith, inside) in
    let e2 : (entry == 0) ≡ false = ground (arith, has_entry) in
    let e3 : (handler == 0) ≡ false = ground (arith, has_handler) in
    let own : (irq == irq) ≡ true = ground arith in
    elim (Bool-cases (is_from_pic irq)) [
      | inl hardware ↦
          let nibble : (irq - 0x20) % 16 ≡ irq % 16 = ground (arith, hardware) in
          rw
            (
              interrupts_irq_register, e1, e2, e3, hardware, interrupts_irq_handler, own, e3,
              pic_irq_dismiss, nibble,
            )
            (returns (record {
              run = refl;
              gate = rw own refl;
              others = λ i ne. let other : (i == irq) ≡ false = ground (arith, ne) in rw other refl;
              commanded = rw hardware refl;
              line_on = λ h. enable-enabled irq s.pic;
            }))
      | inr software ↦
          rw (interrupts_irq_register, e1, e2, e3, software, interrupts_irq_handler, own, e3)
            (returns (record {
              run = refl;
              gate = rw own refl;
              others = λ i ne. let other : (i == irq) ≡ false = ground (arith, ne) in rw other refl;
              commanded = rw software refl;
              line_on = λ h. absurd (ground (arith, h, software));
            }))
    ]
