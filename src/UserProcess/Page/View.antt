-- ===== src/UserProcess/Page/View.antt =====
-- A page of memory as an array of words, and how the operations on pages change it.
use class_example.Prelude.{
  ℕ, ◌+◌, ◌*◌, ◌%◌, ◌^◌, ◌≤◌, ◌<◌, ◌≡◌, ◌≢◌, ◌⊎◌, refl, sym, ◌∙◌, List, ◌∷◌, arith, if◌then◌else◌,
  ◌==◌,
}
use native.Mathlib.Decide.{ℕ_discrete}
use class_example.Memory.{
  Memory, load32, store32, memset, load-store_self, load-store_ne, load-memset_in, memset_out,
}
use class_example.UserProcess.Kalloc.{Heap, page_size}
use class_example.UserProcess.Kalloc.FreeList.{
  IsPage, IsHeap, Fresh, Chain-same, kalloc-Allocated, kalloc-first, taken, spared,
}
use class_example.UserProcess.Page.{entry, set_entry, kpagemake}

-- The 1024 words of a page are those of `f`.
abbrev pub View : Memory → ℕ → (ℕ → ℕ) → Type 0
View mem page f = (i : ℕ) → i < 1024 → entry mem page i ≡ f i

abbrev pub update : (ℕ → ℕ) → ℕ → ℕ → ℕ → ℕ
update f i v j = if j == i then v else f j

-- Memory changes at most inside one page.
abbrev pub Outside : Memory → Memory → ℕ → Type 0
Outside mem mem' p = (a : ℕ) → (a < p) ⊎ (p + page_size ≤ a) → mem' a ≡ mem a

pub load-same :
    (mem mem' : Memory) (p b : ℕ)
    → Outside mem mem' p
    → (b + 4 ≤ p) ⊎ (p + page_size ≤ b)
    → load32 mem' b ≡ load32 mem b
unfolding load32
load-same mem mem' p b out off = ground (arith, off, out b, out (b + 1), out (b + 2), out (b + 3))

-- Another page is seen as before.
pub View-other :
    (mem mem' : Memory) (p q : ℕ) {f : ℕ → ℕ}
    → Outside mem mem' p
    → p % page_size ≡ 0
    → q % page_size ≡ 0
    → q ≢ p
    → View mem q f
    → View mem' q f
View-other mem mem' p q out hp hq ne view i lt =
    load-same mem mem' p (q + 4 * i) out (ground arith) ∙ view i lt

-- The free list is as before.
pub IsHeap-Outside :
    (h : Heap) (mem' : Memory) (p : ℕ) (pages : List ℕ)
    → IsHeap h pages
    → Outside h.memory mem' p
    → IsPage p
    → Fresh p pages
    → IsHeap (record h { memory = mem' }) pages
IsHeap-Outside h mem' p pages v out hp fresh = record {
  chain =
      Chain-same h.memory mem' h.freelist pages
        (spared h.memory mem' p pages (λ b off. load-same h.memory mem' p b out off) hp v.pages_ok
          fresh)
        v.chain;
  pages_ok = v.pages_ok;
  distinct = v.distinct;
}

store-Outside : (mem : Memory) (p i v : ℕ) → i < 1024 → Outside mem (store32 mem (p + 4 * i) v) p
unfolding store32
store-Outside mem p i v lt a off = ground (arith, off)

View-store :
    (mem : Memory) (p i v : ℕ) {f : ℕ → ℕ}
    → v < 2 ^ 32
    → View mem p f
    → View (store32 mem (p + 4 * i) v) p (update f i v)
View-store mem p i v small view j lt = elim (ℕ_discrete j i) [
  | yes same ↦ ground (arith, same, load-store_self mem (p + 4 * i) v small)
  | no other ↦ ground (arith, load-store_ne mem (p + 4 * i) (p + 4 * j) v (ground arith), view j lt)
]

-- A page that the caller holds, and what it has in it.
pub record Holding (h : Heap) (pages : List ℕ) (p : ℕ) (f : ℕ → ℕ) : Type 0 where
  pub good : IsHeap h pages
  pub page : IsPage p
  pub fresh : Fresh p pages
  pub view : View h.memory p f

pub set_entry-Holding :
    (h : Heap) (pages : List ℕ) (p i v : ℕ) {f : ℕ → ℕ}
    → Holding h pages p f
    → i < 1024
    → v < 2 ^ 32
    → Holding (set_entry p i v h) pages p (update f i v)
      × Outside h.memory (set_entry p i v h).memory p
set_entry-Holding h pages p i v t lt small =
    let out = store-Outside h.memory p i v lt in
    (
      record {
        good = IsHeap-Outside h (store32 h.memory (p + 4 * i) v) p pages t.good out t.page t.fresh;
        page = t.page;
        fresh = t.fresh;
        view = View-store h.memory p i v small t.view;
      },
      out,
    )

-- `kpagemake` with a free page: it is zeroed and taken.
pub record Made (h : Heap) (p : ℕ) (rest : List ℕ) (out : ℕ × Heap) : Type 0 where
  pub result : out.0 ≡ p
  pub holding : Holding (out.1) rest p (λ i. 0)
  pub others : Outside h.memory (out.1.memory) p

pub kpagemake-Made :
    (h : Heap) (p : ℕ) (rest : List ℕ) → IsHeap h (p ∷ rest) → Made h p rest (kpagemake h)
unfolding kpagemake
kpagemake-Made h p rest v =
    let hp : IsPage p = v.pages_ok.0 in
    let took = kalloc-first h p v.chain.0 hp.not_null in
    let good : IsHeap (taken h p) rest = rw took at (kalloc-Allocated h p rest v).good in
    let blank = memset (taken h p).memory p 0 page_size in
    let out : Outside (taken h p).memory blank p = memset_out (taken h p).memory p 0 page_size in
    rw took (record {
      result = refl;
      holding = record {
        good = IsHeap-Outside (taken h p) blank p rest good out hp v.distinct.0;
        page = hp;
        fresh = v.distinct.0;
        view = λ i lt.
            load-memset_in (taken h p).memory p page_size (p + 4 * i) (omega arith) (omega arith);
      };
      others = λ a off. out a off ∙ memset_out h.memory p 5 page_size a off;
    })

-- A held page stays held when another page changes.
pub Holding-other :
    (h h' : Heap) (pages pages' : List ℕ) (p q : ℕ) {f : ℕ → ℕ}
    → Holding h pages q f
    → IsHeap h' pages'
    → Fresh q pages'
    → Outside h.memory h'.memory p
    → IsPage p
    → p ≢ q
    → Holding h' pages' q f
Holding-other h h' pages pages' p q t good fresh out hp ne = record {
  good = good;
  page = t.page;
  fresh = fresh;
  view = View-other h.memory h'.memory p q out hp.aligned t.page.aligned (λ e. ne (sym e)) t.view;
}
