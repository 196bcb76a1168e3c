-- ===== src/UserProcess/Page/Mapping.antt =====
-- What `setup_pagetable` of 8.UserProcess/src/page.c maps, by the walk that the processor makes.
use class_example.Prelude.{
  ℕ, ◌+◌, ◌*◌, ◌/◌, ◌%◌, ◌^◌, ◌≤◌, ◌<◌, ◌≡◌, ◌≢◌, ◌⊎◌, refl, sym, ◌∙◌, Option, none, some, List, [],
  ◌∷◌, arith, if◌then◌else◌, ◌==◌, All,
}
use class_example.Memory.{Memory, load32, memcpy, memcpy_in, memcpy_out}
use class_example.UserProcess.Kalloc.{Heap, page_size}
use class_example.UserProcess.Kalloc.FreeList.{IsPage, IsHeap}
use class_example.UserProcess.Page.{
  entry, with_flags, kpagemake, inherit, map_region, setup_pagetable,
}
use class_example.UserProcess.Page.View.{
  View, update, Outside, View-other, IsHeap-Outside, kpagemake-Made,
}
use class_example.UserProcess.Page.Region.{region, override, inherit-Holding}

-- The walk of the processor for a write in user mode: both entries must be present, writable and open
-- to user mode (the low three bits).
unfoldable pub user_write : Memory → (cr3 va : ℕ) → Option ℕ
user_write mem cr3 va =
    let pde = entry mem cr3 (va / 2 ^ 22) in
    let pte = entry mem (pde / page_size * page_size) (va / page_size % 1024) in
    if pde % 8 == 7
    then if pte % 8 == 7 then some (pte / page_size * page_size + va % page_size) else none
    else none

-- What `setup_pagetable` leaves: the directory is the first page, the stack region is mapped by the
-- second to the third, the code region by the fourth to the fifth.
pub record Built (h : Heap) (kernel_cr3 func func_size a b c d e : ℕ) (rest : List ℕ)
    (out : ℕ × Heap) : Type 0 where
  pub result : out.0 ≡ a
  pub good : IsHeap (out.1) rest
  pub directory_view : View (out.1.memory) a (
      update
        (update (override (λ i. 0) (entry h.memory kernel_cr3) 0 5) 511 (with_flags b))
        512
        (with_flags d))
  pub stack_view : View (out.1.memory) b (update (λ i. 0) 1023 (with_flags c))
  pub code_view : View (out.1.memory) d (update (λ i. 0) 0 (with_flags e))
  pub copied : (i : ℕ) → i < func_size → out.1.memory (e + i) ≡ h.memory (func + i)

-- A page that no changed byte lies in is seen as before.
View-far :
    (mem mem' : Memory) (p : ℕ) {f : ℕ → ℕ}
    → ((a : ℕ) → p ≤ a → a < p + page_size → mem' a ≡ mem a)
    → View mem p f
    → View mem' p f
unfolding load32
View-far mem mem' p same view i lt = ground (
  arith,
  view i lt,
  same (p + 4 * i),
  same (p + 4 * i + 1),
  same (p + 4 * i + 2),
  same (p + 4 * i + 3),
)

entry-word : (h : Heap) (page i : ℕ) → ((x : ℕ) → h.memory x < 256) → entry h.memory page i < 2 ^ 32
unfolding load32
entry-word h page i bytes =
    let a = page + 4 * i in omega (arith, bytes a, bytes (a + 1), bytes (a + 2), bytes (a + 3))

abbrev pub Clear : ℕ → ℕ → ℕ → Type 0
Clear func func_size = λ p. (func + func_size ≤ p) ⊎ (p + page_size ≤ func)

-- A byte of one page is in no other page.
beside :
    (p q x : ℕ)
    → IsPage p
    → IsPage q
    → p ≢ q
    → p ≤ x
    → x < p + page_size
    → (x < q) ⊎ (q + page_size ≤ x)
beside p q x hp hq ne lo hi = ground (arith, hp, hq)

off-Clear :
    (func func_size p i : ℕ)
    → Clear func func_size p
    → i < func_size
    → (func + i < p) ⊎ (p + page_size ≤ func + i)
off-Clear func func_size p i clear lt = ground (arith, clear)

pub setup-Built :
    (h : Heap) (kernel_cr3 func func_size a b c d e : ℕ) (rest : List ℕ)
    → IsHeap h (a ∷ b ∷ c ∷ d ∷ e ∷ rest)
    → ((x : ℕ) → h.memory x < 256)
    → kernel_cr3 % page_size ≡ 0
    → kernel_cr3 ≢ a
    → func_size ≤ page_size
    → All (Clear func func_size) (a ∷ b ∷ c ∷ d ∷ e ∷ [])
    → Built h kernel_cr3 func func_size a b c d e rest (setup_pagetable kernel_cr3 func func_size h)
unfolding setup_pagetable
setup-Built h kernel_cr3 func func_size a b c d e rest v bytes aligned ne small clear =
    let m = kpagemake-Made h a (b ∷ c ∷ d ∷ e ∷ rest) v in
    let h1 = (kpagemake h).1 in
    let g = entry h.memory kernel_cr3 in
    let seen : View h1.memory kernel_cr3 g =
      View-other h.memory h1.memory a kernel_cr3 m.others v.pages_ok.0.aligned aligned ne
        (λ i lt. refl) in
    let (t2, out2) =
      inherit-Holding 5 0 h1 (b ∷ c ∷ d ∷ e ∷ rest) a kernel_cr3 (λ i. 0) g m.holding seen aligned
        ne (omega arith) (λ j lt. entry-word h kernel_cr3 j bytes) in
    let h2 = inherit 5 0 a kernel_cr3 h1 in
    let r1 = region h2 a 511 1023 b c (d ∷ e ∷ rest) _ t2 (omega arith) (omega arith) in
    let h3 = (map_region a 511 1023 h2).1 in
    let r2 = region h3 a 512 0 d e rest _ r1.directory_held (omega arith) (omega arith) in
    let h4 = (map_region a 512 0 h3).1 in
    let mem5 = memcpy h4.memory e func func_size in
    let out5 : Outside h4.memory mem5 e =
      λ x off. memcpy_out h4.memory e func func_size x (ground (arith, off, small)) in
    let (pa, (pb, (pc, (pd, (pe, p_rest))))) = v.pages_ok in
    let (fa, (fb, (fc, (fd, (fe, f_rest))))) = v.distinct in
    let b4 : View h4.memory b (update (λ i. 0) 1023 (with_flags c)) =
      View-far h3.memory h4.memory b
        (λ x lo hi.
          r2.others x (beside b a x pb pa (λ q. fa.0 q) lo hi)
            (beside b d x pb pd (λ q. fb.1.0 (sym q)) lo hi)
            (beside b e x pb pe (λ q. fb.1.1.0 (sym q)) lo hi))
        r1.table_held.view in
    rw (m.result, r2.result)
      (record {
        result = refl;
        good = IsHeap-Outside h4 mem5 e rest r2.good out5 pe fe;
        directory_view =
            View-other h4.memory mem5 e a out5 pe.aligned pa.aligned (λ q. fa.1.1.1.0 (sym q))
              r2.directory_held.view;
        stack_view =
            View-other h4.memory mem5 e b out5 pe.aligned pb.aligned (λ q. fb.1.1.0 (sym q)) b4;
        code_view =
            View-other h4.memory mem5 e d out5 pe.aligned pd.aligned (λ q. fd.0 (sym q))
              r2.table_held.view;
        copied = λ i lt.
            memcpy_in h4.memory e func func_size i lt
            ∙ r2.others (func + i) (off-Clear func func_size a i clear.0 lt)
                (off-Clear func func_size d i clear.1.1.1.0 lt)
                (off-Clear func func_size e i clear.1.1.1.1.0 lt)
            ∙ r1.others (func + i) (off-Clear func func_size a i clear.0 lt)
                (off-Clear func func_size b i clear.1.0 lt)
                (off-Clear func func_size c i clear.1.1.0 lt)
            ∙ out2 (func + i) (off-Clear func func_size a i clear.0 lt)
            ∙ m.others (func + i) (off-Clear func func_size a i clear.0 lt);
      })
