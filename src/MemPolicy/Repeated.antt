-- ===== src/MemPolicy/Repeated.antt =====
-- A page fault in a region of 6.MemPolicy whose table is there already.
use class_example.Prelude.{ℕ, ◌+◌, ◌*◌, ◌≤◌, ◌≡◌, ◌≢◌, ◌⊎◌, inr, ◌∙◌, false, arith, ◌==◌}
use class_example.Memory.{load32, memset, load-store_ne, load-memset_out}
use class_example.UserProcess.Kalloc.{Heap, kalloc, page_size}
use class_example.UserProcess.Page.{kpagemake, entry, with_flags}
use class_example.MemPolicy.{pd_index, pt_index, table_for, page_fault_handler}

-- A new page changes no word outside it.
kpagemake_out :
    (h : Heap) (a : ℕ)
    → h.freelist ≢ 0
    → (a + 4 ≤ h.freelist) ⊎ (h.freelist + page_size ≤ a)
    → load32 ((kpagemake h).1).memory a ≡ load32 h.memory a
unfolding kpagemake kalloc
kpagemake_out h a some_free away =
    let free : (h.freelist == 0) ≡ false = ground (arith, some_free) in
    rw (kpagemake, kalloc, free)
      (load-memset_out (memset h.memory h.freelist 5 page_size) h.freelist 0 page_size a away
        ∙ load-memset_out h.memory h.freelist 5 page_size a away)

-- On a fault in a region whose entry of the directory is a table with its flags, the handler takes the flags
-- for a part of the address: when the page it takes is not that of the table, the entry of the address that
-- faulted is what it was before, so that the same fault comes again.
pub second_fault :
    (va directory table : ℕ) (h : Heap)
    → entry h.memory directory (pd_index va) ≡ table + 7
    → h.freelist ≢ 0
    → (table + page_size ≤ h.freelist) ⊎ (h.freelist + page_size ≤ table)
    → entry (page_fault_handler va directory h).memory table (pt_index va)
      ≡ entry h.memory table (pt_index va)
unfolding page_fault_handler table_for
second_fault va directory table h present some_free away =
    let there : (table + 7 == 0) ≡ false = ground arith in
    rw (page_fault_handler, table_for, present, there)
      (load-store_ne ((kpagemake h).1).memory (table + 7 + 4 * pt_index va)
          (table + 4 * pt_index va) (with_flags (kpagemake h).0) (inr (omega arith))
        ∙ kpagemake_out h (table + 4 * pt_index va) some_free (ground (arith, away)))
