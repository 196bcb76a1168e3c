-- ===== src/UserProcess/Kalloc/Outside.antt =====
-- What kinit of 8.UserProcess/src/kalloc.c leaves of the memory.
use class_example.Prelude.{
  ℕ, zero, suc, ◌+◌, ◌-◌, ◌/◌, ◌%◌, ◌^◌, ◌≤◌, ◌<◌, ◌≡◌, ◌⊎◌, inl, inr, refl, ◌∙◌, arith, leb,
  Bool-cases,
}
use class_example.Memory.{store32, memset}
use class_example.UserProcess.Kalloc.{
  Heap, page_size, page_stop, page_align, kfree, freerange_loop, freerange, kinit,
}

kfree_out : (p x : ℕ) (h : Heap) → (x < p) ⊎ (p + page_size ≤ x) → (kfree p h).memory x ≡ h.memory x
unfolding kfree store32 memset
kfree_out p x h away = ground (arith, away)

kfree-lt : (p x : ℕ) (h : Heap) → h.memory x < 256 → (kfree p h).memory x < 256
unfolding kfree store32 memset
kfree-lt p x h small = ground (arith, small)

loop_out :
    (fuel p vend x : ℕ) (h : Heap)
    → vend ≤ page_stop
    → p < 2 ^ 32 - page_size
    → (x < p) ⊎ (vend ≤ x)
    → (freerange_loop fuel p vend h).memory x ≡ h.memory x
unfolding freerange_loop
loop_out zero p vend x h low p_low away = refl
loop_out (suc fuel) p vend x h low p_low away =
    let next : (p + page_size) % 2 ^ 32 ≡ p + page_size = omega (arith, p_low) in
    elim (Bool-cases (leb (p + page_size) vend)) [
      | inr over ↦ rw (next, over) refl
      | inl more ↦
          rw (next, more)
            (loop_out fuel (p + page_size) vend x (kfree p h) low (ground (arith, more, low))
                (ground (arith, away))
              ∙ kfree_out p x h (ground (arith, away, more)))
    ]

loop-lt :
    (fuel p vend x : ℕ) (h : Heap)
    → h.memory x < 256
    → (freerange_loop fuel p vend h).memory x < 256
unfolding freerange_loop
loop-lt zero p vend x h small = small
loop-lt (suc fuel) p vend x h small = elim (Bool-cases (leb ((p + page_size) % 2 ^ 32) vend)) [
  | inr over ↦ rw over small
  | inl more ↦
      rw more (loop-lt fuel ((p + page_size) % 2 ^ 32) vend x (kfree p h) (kfree-lt p x h small))
]

-- Bytes in front of the range and behind it stay as they are.
pub kinit_out :
    (vstart vend x : ℕ) (h : Heap)
    → vstart < page_stop
    → vend ≤ page_stop
    → (x < vstart) ⊎ (vend ≤ x)
    → (kinit vstart vend h).memory x ≡ h.memory x
unfolding kinit freerange
kinit_out vstart vend x h start_low low away =
    loop_out (vend / page_size + 1) (page_align vstart) vend x h low (omega (arith, start_low))
      (ground (arith, away, start_low))

pub kinit-lt :
    (vstart vend x : ℕ) (h : Heap) → h.memory x < 256 → (kinit vstart vend h).memory x < 256
unfolding kinit freerange
kinit-lt vstart vend x h small = loop-lt (vend / page_size + 1) (page_align vstart) vend x h small
