-- ===== src/UserProcess/Kalloc.antt =====
-- 8.UserProcess/src/kalloc.c: the free list of physical pages, kept in the pages themselves.
-- An address is a 32-bit number; 0 is the null pointer. Text on the console is not modelled.
pub mod FreeList
pub mod Range
pub mod Outside
use class_example.Prelude.{
  ℕ, zero, suc, ◌+◌, ◌-◌, ◌*◌, ◌/◌, ◌%◌, ◌^◌, Bool, true, false, not, ◌||◌, ltb, leb, if◌then◌else◌,
  ◌==◌,
}
use class_example.Memory.{Memory, load32, store32, memset}

abbrev pub page_size : ℕ
page_size = 0x1000

-- `uint32_t end = PAGE_STOP`
abbrev pub page_stop : ℕ
page_stop = 0x800000

-- `kmem`, and the memory that its list lies in.
pub record Heap : Type 0 where
  pub memory : Memory
  pub freelist : ℕ

-- `PAGE_ALIGN(addr)`
abbrev pub page_align : ℕ → ℕ
page_align a = (a + page_size - 1) % 2 ^ 32 / page_size * page_size

unfoldable pub kfree : ℕ → Heap → Heap
kfree va h =
    if not (va % page_size == 0) || leb page_stop va
    then h
    else record h { memory = store32 (memset h.memory va 1 page_size) va h.freelist; freelist = va }

unfoldable pub kalloc : Heap → ℕ × Heap
kalloc h = if h.freelist == 0 then (0, h) else (
  h.freelist,
  record h {
    memory = memset h.memory h.freelist 5 page_size;
    freelist = load32 h.memory h.freelist;
  },
)

-- The loop of `freerange` from `p` on, with fuel for the rounds.
unfoldable pub freerange_loop : (fuel p vend : ℕ) → Heap → Heap
freerange_loop zero p vend h = h
freerange_loop (suc fuel) p vend h =
    let rest = freerange_loop fuel ((p + page_size) % 2 ^ 32) vend (kfree p h) in
    if leb ((p + page_size) % 2 ^ 32) vend then rest else h

-- One round for each page below `vend` is enough fuel.
unfoldable pub freerange : (vstart vend : ℕ) → Heap → Heap
freerange vstart vend h = freerange_loop (vend / page_size + 1) (page_align vstart) vend h

unfoldable pub kinit : (vstart vend : ℕ) → Heap → Heap
kinit vstart vend h = freerange vstart vend h
