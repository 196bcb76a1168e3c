-- ===== src/Ide/Pic.antt =====
-- The interrupt masks of A.ide/src/interrupts.c. The state is what the data ports of the two controllers
-- read back: the mask last written, a set bit for a line that is off. Log lines are left out.
pub mod Masks
use class_example.Prelude.{ℕ, ◌+◌, ◌-◌, ◌*◌, ◌/◌, ◌%◌, ◌^◌, if◌then◌else◌, ◌==◌, ltb}
use class_example.Bits.{bit_of, clear_bit}

-- The registers behind `PIC1_DATA` and `PIC2_DATA`.
pub record Pic : Type 0 where
  pub mask1 : ℕ
  pub mask2 : ℕ

-- `0xff & (mask ^ (1 << n))`
abbrev pub flip_bit : ℕ → ℕ → ℕ
flip_bit mask n = (if bit_of mask n == 0 then mask + 2 ^ n else mask - 2 ^ n) % 256

unfoldable pub pic_irq_enable : ℕ → Pic → Pic
pic_irq_enable irq s =
    let n = irq % 16 in
    if ltb n 8
    then record s { mask1 = clear_bit s.mask1 n }
    else record s { mask2 = clear_bit s.mask2 (n - 8) }

unfoldable pub pic_irq_disable : ℕ → Pic → Pic
pic_irq_disable irq s =
    let n = irq % 16 in
    if ltb n 8
    then record s { mask1 = flip_bit s.mask1 n }
    else record s { mask2 = flip_bit s.mask2 (n - 8) }

unfoldable pub pic_irq_enabled : ℕ → Pic → ℕ
pic_irq_enabled irq s =
    let n = irq % 16 in
    let bit = if ltb n 8 then bit_of s.mask1 n else bit_of s.mask2 (n - 8) in
    if bit == 0 then 1 else 0
