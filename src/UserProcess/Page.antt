-- ===== src/UserProcess/Page.antt =====
-- 8.UserProcess/src/page.c: the page directory of a user process.
pub mod View
pub mod Region
pub mod Mapping
pub mod Space
use class_example.Prelude.{ℕ, zero, suc, ◌+◌, ◌-◌, ◌*◌, ◌/◌, ◌%◌, ◌^◌}
use class_example.Memory.{Memory, load32, store32, memset, memcpy}
use class_example.UserProcess.Kalloc.{Heap, kalloc, page_size}

-- Entry `i` of the table at `page`, an array of 32-bit words.
abbrev pub entry : Memory → (page i : ℕ) → ℕ
entry mem page i = load32 mem (page + 4 * i)

-- `page[i] = v`
abbrev pub set_entry : (page i v : ℕ) → Heap → Heap
set_entry page i v h = record h { memory = store32 h.memory (page + 4 * i) v }

-- `x | PAGE_PRESENT | PAGE_WRITE | PAGE_USER`: the low three bits are set.
abbrev pub with_flags : ℕ → ℕ
with_flags x = x / 8 * 8 + 7

-- The page is zeroed also when `kalloc` found none.
unfoldable pub kpagemake : Heap → ℕ × Heap
kpagemake h = let (p, h') = kalloc h in (p, record h' { memory = memset h'.memory p 0 page_size })

-- `page_directory[i] = kernel_pagetable_directory[i]`, from `i` on, as often as the first argument says.
unfoldable pub inherit : (left i directory kernel_cr3 : ℕ) → Heap → Heap
inherit zero i directory kernel_cr3 h = h
inherit (suc left) i directory kernel_cr3 h =
    inherit left (i + 1) directory kernel_cr3
      (set_entry directory i (entry h.memory kernel_cr3 i) h)

-- One user region: a new table for directory entry `slot`, and a new page at its index `index`. The
-- results are the page and the heap.
unfoldable pub map_region : (directory slot index : ℕ) → Heap → ℕ × Heap
map_region directory slot index h =
    let (table, h1) = kpagemake h in
    let (page, h2) = kpagemake h1 in
    (page, set_entry directory slot (with_flags table) (set_entry table index (with_flags page) h2))

unfoldable pub setup_pagetable : (kernel_cr3 func func_size : ℕ) → Heap → ℕ × Heap
setup_pagetable kernel_cr3 func func_size h =
    let (directory, h1) = kpagemake h in
    let h2 = inherit 5 0 directory kernel_cr3 h1 in
    let (stack, h3) = map_region directory 511 1023 h2 in
    let (code, h4) = map_region directory 512 0 h3 in
    (directory, record h4 { memory = memcpy h4.memory code func func_size })
