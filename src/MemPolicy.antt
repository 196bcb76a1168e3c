-- ===== src/MemPolicy.antt =====
-- 6.MemPolicy/src/page.c: pages on demand. kalloc and kpagemake of this example are, line for line, those of
-- 8.UserProcess; the load of the control registers is the processor and is left out.
pub mod Repeated
mod Examples
use class_example.Prelude.{ℕ, ◌+◌, ◌*◌, ◌/◌, ◌%◌, ◌^◌, if◌then◌else◌, ◌==◌}
use class_example.UserProcess.Kalloc.{Heap}
use class_example.UserProcess.Page.{kpagemake, entry, set_entry, with_flags}

-- `va >> 22`, and `va >> 12 & 0x03FF`.
abbrev pub pd_index : ℕ → ℕ
pd_index va = va / 2 ^ 22

abbrev pub pt_index : ℕ → ℕ
pt_index va = va / 2 ^ 12 % 1024

-- The table that the new page goes into: a new one, or what the entry of the directory holds, with its flags.
unfoldable pub table_for : (va directory : ℕ) → Heap → ℕ × Heap
table_for va directory h =
    let present = entry h.memory directory (pd_index va) in
    if present == 0
    then (let (table, h1) = kpagemake h in
        (table, set_entry directory (pd_index va) (with_flags table) h1))
    else (present, h)

-- `va` is what the processor leaves in cr2, `directory` the page table of the active process.
unfoldable pub page_fault_handler : (va directory : ℕ) → Heap → Heap
page_fault_handler va directory h =
    let (table, h1) = table_for va directory h in
    let (new_page, h2) = kpagemake h1 in set_entry table (pt_index va) (with_flags new_page) h2
