-- ===== src/Ide/Irq.antt =====
-- The table of interrupt handlers in A.ide/src/interrupts.c. A pointer to a function is a number, 0 for null;
-- what a handler does to the rest of the program is a parameter. `kernel_panic` ends the program: `none`.
pub mod Registered
use class_example.Prelude.{
  ℕ, ◌+◌, ◌-◌, ◌%◌, Bool, true, false, Option, none, some, List, [], ◌∷◌, if◌then◌else◌, ◌==◌, ◌&&◌,
  leb,
}
use class_example.Ide.Pic.{Pic, pic_irq_enable}

-- `IRQ_MAX`
abbrev pub irq_max : ℕ
irq_max = 0xf0

-- `PIC1_CMD` and `PIC2_CMD`.
abbrev pub pic1_cmd : ℕ
pic1_cmd = 0x20

abbrev pub pic2_cmd : ℕ
pic2_cmd = 0xa0

abbrev pub pic_eoi : ℕ
pic_eoi = 0x20

-- The masks, the entries of the gates in `idt`, `irq_handlers`, what went to the command ports, the latest
-- first, and the rest of the program.
pub record Interrupts (A : Type 0) : Type 0 where
  pub pic : Pic
  pub idt : ℕ → ℕ
  pub irq_handlers : ℕ → ℕ
  pub commands : List (ℕ × ℕ)
  pub program : A

-- Entry `i` of a table is set to `v`.
abbrev pub entry_set : (ℕ → ℕ) → ℕ → ℕ → ℕ → ℕ
entry_set f i v j = if j == i then v else f j

-- `irq >= 0x20 && irq <= 0x2F`
abbrev pub is_from_pic : ℕ → Bool
is_from_pic irq = leb 0x20 irq && leb irq 0x2F

module _ {A : Type 0} where
  unfoldable pub pic_irq_dismiss : ℕ → Interrupts A → Interrupts A
  pic_irq_dismiss irq s = record s {
    commands =
        (pic1_cmd, pic_eoi)
        ∷ (if leb 8 (irq % 16) then (pic2_cmd, pic_eoi) ∷ s.commands else s.commands);
  }

  unfoldable pub interrupts_irq_register :
      (irq entry handler : ℕ) → Interrupts A → Option (Interrupts A)
  interrupts_irq_register irq entry handler s =
      if leb irq_max irq
      then none
      else if entry == 0
      then none
      else if handler == 0
      then none
      else some (record s {
        idt = entry_set s.idt irq entry;
        irq_handlers = entry_set s.irq_handlers irq handler;
        pic = if is_from_pic irq then pic_irq_enable irq s.pic else s.pic;
      })

  module _ (call : ℕ → A → A) where
    unfoldable pub interrupts_irq_handler : ℕ → Interrupts A → Option (Interrupts A)
    interrupts_irq_handler irq s =
        if leb irq_max irq
        then none
        else if s.irq_handlers irq == 0
        then none
        else (let s1 = record s { program = call (s.irq_handlers irq) s.program } in
            some (if is_from_pic irq then pic_irq_dismiss (irq - 0x20) s1 else s1))

  unfoldable pub interrupts_init : Interrupts A → Interrupts A
  interrupts_init s = record s { irq_handlers = λ i. 0 }
