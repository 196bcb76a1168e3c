-- ===== src/UserProcess/Page/Region.antt =====
-- One region of 8.UserProcess/src/page.c, and the inherited entries of the kernel's directory.
use class_example.Prelude.{
  ℕ, zero, suc, ◌+◌, ◌%◌, ◌^◌, ◌≤◌, ◌<◌, ◌≡◌, ◌≢◌, ◌⊎◌, refl, sym, ◌∙◌, List, ◌∷◌, arith,
  if◌then◌else◌, ltb, leb, ◌&&◌,
}
use native.Mathlib.Decide.{ℕ_discrete}
use class_example.UserProcess.Kalloc.{Heap, page_size}
use class_example.UserProcess.Kalloc.FreeList.{IsHeap}
use class_example.UserProcess.Page.{entry, set_entry, with_flags, kpagemake, inherit, map_region}
use class_example.UserProcess.Page.View.{
  View, update, Outside, View-other, Holding, Holding-other, set_entry-Holding, kpagemake-Made,
}

-- A new region: its table and its page are held, the directory points to the table.
pub record Region (h : Heap) (directory slot index table page : ℕ) (rest : List ℕ) (f : ℕ → ℕ)
    (out : ℕ × Heap) : Type 0 where
  pub result : out.0 ≡ page
  pub good : IsHeap (out.1) rest
  pub directory_held : Holding (out.1) rest directory (update f slot (with_flags table))
  pub table_held : Holding (out.1) rest table (update (λ i. 0) index (with_flags page))
  pub others :
      (a : ℕ)
      → (a < directory) ⊎ (directory + page_size ≤ a)
      → (a < table) ⊎ (table + page_size ≤ a)
      → (a < page) ⊎ (page + page_size ≤ a)
      → out.1.memory a ≡ h.memory a

module _ (h : Heap) (directory slot index table page : ℕ) (rest : List ℕ) (f : ℕ → ℕ)
    (d : Holding h (table ∷ page ∷ rest) directory f) (slot_in : slot < 1024)
    (index_in : index < 1024) where
  pub region : Region h directory slot index table page rest f (map_region directory slot index h)
  unfolding map_region
  region =
      let m1 = kpagemake-Made h table (page ∷ rest) d.good in
      let h1 = (kpagemake h).1 in
      let t1 = m1.holding in
      let d1 =
        Holding-other h h1 (table ∷ page ∷ rest) (page ∷ rest) table directory d t1.good d.fresh.1
          m1.others t1.page d.fresh.0 in
      let m2 = kpagemake-Made h1 page rest t1.good in
      let h2 = (kpagemake h1).1 in
      let p2 = m2.holding in
      let t2 =
        Holding-other h1 h2 (page ∷ rest) rest page table t1 p2.good t1.fresh.1 m2.others p2.page
          t1.fresh.0 in
      let d2 =
        Holding-other h1 h2 (page ∷ rest) rest page directory d1 p2.good d1.fresh.1 m2.others
          p2.page d1.fresh.0 in
      let h3 = set_entry table index (with_flags page) h2 in
      let (t3, out3) =
        set_entry-Holding h2 rest table index (with_flags page) t2 index_in
          (omega (arith, p2.page)) in
      let d3 =
        Holding-other h2 h3 rest rest table directory d2 t3.good d2.fresh out3 t2.page d.fresh.0 in
      let h4 = set_entry directory slot (with_flags table) h3 in
      let (d4, out4) =
        set_entry-Holding h3 rest directory slot (with_flags table) d3 slot_in
          (omega (arith, t2.page)) in
      let t4 =
        Holding-other h3 h4 rest rest directory table t3 d4.good t3.fresh out4 d.page
          (λ e. d.fresh.0 (sym e)) in
      rw (m1.result, m2.result)
        (record {
          result = refl;
          good = d4.good;
          directory_held = d4;
          table_held = t4;
          others = λ a off_d off_t off_p.
              out4 a off_d ∙ out3 a off_t ∙ m2.others a off_p ∙ m1.others a off_t;
        })

-- `f` with the entries from `i` on, `n` of them, taken from `g`.
abbrev pub override : (ℕ → ℕ) → (ℕ → ℕ) → (i n : ℕ) → ℕ → ℕ
override f g i n j = if leb i j && ltb j (i + n) then g j else f j

override-next :
    (f g : ℕ → ℕ) (w i left j : ℕ)
    → w ≡ g i
    → override (update f i w) g (i + 1) left j ≡ override f g i (suc left) j
override-next f g w i left j x = elim (ℕ_discrete j i) [
  | yes same ↦ rw same (ground (arith, x))
  | no other ↦ ground (arith, other)
]

pub inherit-Holding :
    (left i : ℕ) (h : Heap) (pages : List ℕ) (directory kernel_cr3 : ℕ) (f g : ℕ → ℕ)
    → Holding h pages directory f
    → View h.memory kernel_cr3 g
    → kernel_cr3 % page_size ≡ 0
    → kernel_cr3 ≢ directory
    → i + left ≤ 1024
    → ((j : ℕ) → j < 1024 → g j < 2 ^ 32)
    → Holding (inherit left i directory kernel_cr3 h) pages directory (override f g i left)
      × Outside h.memory (inherit left i directory kernel_cr3 h).memory directory
unfolding inherit
inherit-Holding zero i h pages directory kernel_cr3 f g t view ha ne lt words = (
  record {
    good = t.good;
    page = t.page;
    fresh = t.fresh;
    view = λ j k. ground (arith, t.view j k);
  },
  λ a off. refl,
)
inherit-Holding (suc left) i h pages directory kernel_cr3 f g t view ha ne lt words =
    let w = entry h.memory kernel_cr3 i in
    let x : w ≡ g i = view i (omega arith) in
    let small : w < 2 ^ 32 = rw x (words i (omega arith)) in
    let h1 = set_entry directory i w h in
    let (t1, out1) = set_entry-Holding h pages directory i w t (omega arith) small in
    let view1 = View-other h.memory h1.memory directory kernel_cr3 out1 t.page.aligned ha ne view in
    let (t2, out2) =
      inherit-Holding left (i + 1) h1 pages directory kernel_cr3 (update f i w) g t1 view1 ha ne
        (omega arith) words in
    (
      record {
        good = t2.good;
        page = t2.page;
        fresh = t2.fresh;
        view = λ j k. t2.view j k ∙ override-next f g w i left j x;
      },
      λ a off. out2 a off ∙ out1 a off,
    )
