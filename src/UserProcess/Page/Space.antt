-- ===== src/UserProcess/Page/Space.antt =====
-- The address space of a new user process of 8.UserProcess/src/page.c, by the walk that the processor
-- makes: the stack page, the code page, and nothing else above the kernel.
use class_example.Prelude.{
  ℕ, ◌+◌, ◌*◌, ◌/◌, ◌%◌, ◌^◌, ◌≤◌, ◌<◌, ◌≡◌, ◌≢◌, ◌⊎◌, refl, ap, ◌∙◌, none, some, List, [], ◌∷◌,
  arith, All,
}
use native.Mathlib.Decide.{ℕ_discrete}
use class_example.Memory.{Memory}
use class_example.UserProcess.Kalloc.{Heap, page_size}
use class_example.UserProcess.Kalloc.FreeList.{IsHeap}
use class_example.UserProcess.Page.{entry, with_flags, setup_pagetable}
use class_example.UserProcess.Page.Mapping.{user_write, Built, Clear, setup-Built}

-- 0x7FFFF000
abbrev pub stack_start : ℕ
stack_start = 2147479552

-- 0x80000000
abbrev pub code_start : ℕ
code_start = 2147483648

-- The kernel's five entries reach up to here, 0x01400000.
abbrev pub kernel_end : ℕ
kernel_end = 20971520

flags_on : (p : ℕ) → p % page_size ≡ 0 → with_flags p % 8 ≡ 7
flags_on p h = omega (arith, h)

flags_off : (p : ℕ) → p % page_size ≡ 0 → with_flags p / page_size * page_size ≡ p
flags_off p h = omega (arith, h)

module _ (mem : Memory) (cr3 va slot index table : ℕ) where
  -- A walk through two present entries.
  walk :
      (page : ℕ)
      → entry mem cr3 slot ≡ with_flags table
      → entry mem table index ≡ with_flags page
      → table % page_size ≡ 0
      → page % page_size ≡ 0
      → va / 2 ^ 22 ≡ slot
      → va / page_size % 1024 ≡ index
      → user_write mem cr3 va ≡ some (page + va % page_size)
  unfolding user_write
  walk page pde pte ht hp hs hi =
      rw
        (
          hs,
          hi,
          pde,
          flags_off table ht,
          flags_on table ht,
          pte,
          flags_off page hp,
          flags_on page hp,
        )
        refl

  -- A walk whose second entry is empty.
  walk-empty :
      entry mem cr3 slot ≡ with_flags table
      → entry mem table index ≡ 0
      → table % page_size ≡ 0
      → va / 2 ^ 22 ≡ slot
      → va / page_size % 1024 ≡ index
      → user_write mem cr3 va ≡ none
  unfolding user_write
  walk-empty pde pte ht hs hi = rw (hs, hi, pde, flags_off table ht, flags_on table ht, pte) refl

-- A walk whose first entry is empty.
walk-stop :
    (mem : Memory) (cr3 va : ℕ) → entry mem cr3 (va / 2 ^ 22) ≡ 0 → user_write mem cr3 va ≡ none
unfolding user_write
walk-stop mem cr3 va pde = rw pde refl

-- What user code can reach: the stack page, the code page with the program in it, the entries of the
-- kernel's directory, and no other address.
pub record Space (h : Heap) (kernel_cr3 func func_size stack code : ℕ) (out : ℕ × Heap)
    : Type 0 where
  pub stack_mapped :
      (i : ℕ)
      → i < page_size
      → user_write (out.1.memory) (out.0) (stack_start + i) ≡ some (stack + i)
  pub code_mapped :
      (i : ℕ) → i < page_size → user_write (out.1.memory) (out.0) (code_start + i) ≡ some (code + i)
  pub program : (i : ℕ) → i < func_size → out.1.memory (code + i) ≡ h.memory (func + i)
  pub kernel_mapped : (i : ℕ) → i < 5 → entry (out.1.memory) (out.0) i ≡ entry h.memory kernel_cr3 i
  pub nothing_else :
      (va : ℕ)
      → kernel_end ≤ va
      → va < 2 ^ 32
      → (va < stack_start) ⊎ (code_start + page_size ≤ va)
      → user_write (out.1.memory) (out.0) va ≡ none

module _ (h : Heap) (kernel_cr3 func func_size a b c d e : ℕ) (rest : List ℕ)
    (v : IsHeap h (a ∷ b ∷ c ∷ d ∷ e ∷ rest)) (out : ℕ × Heap)
    (t : Built h kernel_cr3 func func_size a b c d e rest out) where
  abbrev mem : Memory
  mem = out.1.memory

  at_stack : entry mem a 511 ≡ with_flags b
  at_stack = t.directory_view 511 (omega arith)

  at_code : entry mem a 512 ≡ with_flags d
  at_code = t.directory_view 512 (omega arith)

  stack_page : (i : ℕ) → i < page_size → user_write mem a (stack_start + i) ≡ some (c + i)
  stack_page i lt =
      walk mem a (stack_start + i) 511 1023 b c at_stack (t.stack_view 1023 (omega arith))
        (v.pages_ok.1.0.aligned) (v.pages_ok.1.1.0.aligned) (omega arith) (omega arith)
      ∙ ap (λ k. some (c + k)) (omega arith)

  code_page : (i : ℕ) → i < page_size → user_write mem a (code_start + i) ≡ some (e + i)
  code_page i lt =
      walk mem a (code_start + i) 512 0 d e at_code (t.code_view 0 (omega arith))
        (v.pages_ok.1.1.1.0.aligned) (v.pages_ok.1.1.1.1.0.aligned) (omega arith) (omega arith)
      ∙ ap (λ k. some (e + k)) (omega arith)

  nowhere_else :
      (va : ℕ)
      → kernel_end ≤ va
      → va < 2 ^ 32
      → (va < stack_start) ⊎ (code_start + page_size ≤ va)
      → user_write mem a va ≡ none
  nowhere_else va above below off = elim (ℕ_discrete (va / 2 ^ 22) 511) [
    | yes low ↦
        walk-empty mem a va 511 (va / page_size % 1024) b at_stack
          (t.stack_view (va / page_size % 1024) (omega arith) ∙ ground (arith, low, off))
          (v.pages_ok.1.0.aligned) low refl
    | no not_low ↦ elim (ℕ_discrete (va / 2 ^ 22) 512) [
      | yes high ↦
          walk-empty mem a va 512 (va / page_size % 1024) d at_code
            (t.code_view (va / page_size % 1024) (omega arith) ∙ ground (arith, high, off))
            (v.pages_ok.1.1.1.0.aligned) high refl
      | no not_high ↦
          walk-stop mem a va
            (t.directory_view (va / 2 ^ 22) (omega arith) ∙ ground (arith, not_low, not_high))
    ]
  ]

  space : Space h kernel_cr3 func func_size c e out
  space = rw (t.result) (record {
    stack_mapped = stack_page;
    code_mapped = code_page;
    program = t.copied;
    kernel_mapped = λ i lt. t.directory_view i (omega arith) ∙ ground (arith, lt);
    nothing_else = nowhere_else;
  })

pub setup_pagetable-Space :
    (h : Heap) (kernel_cr3 func func_size a b c d e : ℕ) (rest : List ℕ)
    → IsHeap h (a ∷ b ∷ c ∷ d ∷ e ∷ rest)
    → ((x : ℕ) → h.memory x < 256)
    → kernel_cr3 % page_size ≡ 0
    → kernel_cr3 ≢ a
    → func_size ≤ page_size
    → All (Clear func func_size) (a ∷ b ∷ c ∷ d ∷ e ∷ [])
    → Space h kernel_cr3 func func_size c e (setup_pagetable kernel_cr3 func func_size h)
setup_pagetable-Space h kernel_cr3 func func_size a b c d e rest v bytes aligned ne small clear =
    space h kernel_cr3 func func_size a b c d e rest v (setup_pagetable kernel_cr3 func func_size h)
      (setup-Built h kernel_cr3 func func_size a b c d e rest v bytes aligned ne small clear)
