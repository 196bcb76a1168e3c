-- ===== src/Ide/Pic/Masks.antt =====
-- What enabling and disabling a line does to the masks of A.ide/src/interrupts.c.
use class_example.Prelude.{ℕ, ◌-◌, ◌%◌, ◌<◌, ◌≡◌, inl, inr, refl, ap, arith, ltb, Bool-cases}
use class_example.Bits.{below_8, clear-bit_of}
use class_example.Ide.Pic.{Pic, flip_bit, pic_irq_enable, pic_irq_disable, pic_irq_enabled}

flip-flip : (mask : ℕ) → mask < 256 → (n : ℕ) → n < 8 → flip_bit (flip_bit mask n) n ≡ mask
flip-flip mask small =
    below_8 (λ n. flip_bit (flip_bit mask n) n ≡ mask) (ground arith) (ground arith) (ground arith)
      (ground arith) (ground arith) (ground arith) (ground arith) (ground arith)

-- After `pic_irq_enable` the line reads as enabled, on either controller and whatever its mask was.
pub enable-enabled : (irq : ℕ) (s : Pic) → pic_irq_enabled irq (pic_irq_enable irq s) ≡ 1
unfolding pic_irq_enable pic_irq_enabled
enable-enabled irq s = elim (Bool-cases (ltb (irq % 16) 8)) [
  | inl low ↦ rw (low, clear-bit_of s.mask1 (irq % 16) (ground (arith, low))) refl
  | inr high ↦ rw (high, clear-bit_of s.mask2 (irq % 16 - 8) (ground (arith, high))) refl
]

-- A second `pic_irq_disable` of a line undoes the first: both masks, each of a byte, are as before.
disable-disable :
    (irq : ℕ) (s : Pic)
    → s.mask1 < 256
    → s.mask2 < 256
    → pic_irq_disable irq (pic_irq_disable irq s) ≡ s
unfolding pic_irq_disable
disable-disable irq s h1 h2 = elim (Bool-cases (ltb (irq % 16) 8)) [
  | inl low ↦
      rw low
        (ap (λ x. record s { mask1 = x }) (flip-flip s.mask1 h1 (irq % 16) (ground (arith, low))))
  | inr high ↦ rw high (
      ap (λ x. record s { mask2 = x }) (flip-flip s.mask2 h2 (irq % 16 - 8) (ground (arith, high))))
]
