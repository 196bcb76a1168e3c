-- ===== src/UserProcess/Kalloc/FreeList.antt =====
-- The free list as a list of pages: what `kfree` and `kalloc` do to it, and what they leave alone.
use class_example.Prelude.{
  ℕ, ◌+◌, ◌%◌, ◌^◌, ◌≤◌, ◌<◌, ◌≡◌, ◌≢◌, ◌⊎◌, refl, ap, ◌∙◌, true, false, not, ◌||◌, List, [], ◌∷◌,
  arith, leb, ◌==◌, All,
}
use class_example.Memory.{
  Memory, load32, store32, memset, load-store_self, load-store_ne, load-memset_out, memset_in,
  memset_out,
}
use class_example.UserProcess.Kalloc.{Heap, kfree, kalloc, page_size, page_stop}

-- A page that the allocator may hold: aligned, not null, below the end of memory.
pub record IsPage (p : ℕ) : Type 0 where
  pub aligned : p % page_size ≡ 0
  pub not_null : p ≢ 0
  pub below : p < page_stop

-- From `p` on the first words of the pages lead through the list, to a null pointer.
abbrev pub Chain : Memory → ℕ → List ℕ → Type 0
Chain mem p [] = p ≡ 0
Chain mem p (x ∷ xs) = (p ≡ x) × Chain mem (load32 mem x) xs

abbrev pub Fresh : ℕ → List ℕ → Type 0
Fresh p = All (λ x. x ≢ p)

abbrev pub Distinct : List ℕ → Type 0
Distinct [] = Unit
Distinct (x ∷ xs) = Fresh x xs × Distinct xs

-- A heap whose free pages are exactly those of the list, in this order, each once.
pub record IsHeap (h : Heap) (pages : List ℕ) : Type 0 where
  pub chain : Chain h.memory h.freelist pages
  pub pages_ok : All IsPage pages
  pub distinct : Distinct pages

-- Two pages do not overlap.
pub apart : (p q : ℕ) → IsPage p → IsPage q → p ≢ q → (p + page_size ≤ q) ⊎ (q + page_size ≤ p)
apart p q hp hq ne = ground (arith, hp, hq)

-- The chain survives a change of memory that spares the first words of its pages.
pub Chain-same :
    (mem mem' : Memory) (p : ℕ) (pages : List ℕ)
    → All (λ x. load32 mem' x ≡ load32 mem x) pages
    → Chain mem p pages
    → Chain mem' p pages
Chain-same mem mem' p [] same c = c
Chain-same mem mem' p (x ∷ xs) same c =
    (c.0, rw (same.0) (Chain-same mem mem' (load32 mem x) xs same.1 c.1))

-- A change inside the page `p` spares the other pages.
pub spared :
    (mem mem' : Memory) (p : ℕ) (pages : List ℕ)
    → ((b : ℕ) → (b + 4 ≤ p) ⊎ (p + page_size ≤ b) → load32 mem' b ≡ load32 mem b)
    → IsPage p
    → All IsPage pages
    → Fresh p pages
    → All (λ x. load32 mem' x ≡ load32 mem x) pages
spared mem mem' p [] outside hp ok fresh = tt
spared mem mem' p (x ∷ xs) outside hp ok fresh =
    let off = apart x p (ok.0) hp (fresh.0) in
    (outside x (ground (arith, off)), spared mem mem' p xs outside hp ok.1 fresh.1)

first_below :
    (mem : Memory) (p : ℕ) (pages : List ℕ) → All IsPage pages → Chain mem p pages → p < 2 ^ 32
first_below mem p [] ok c = omega arith
first_below mem p (x ∷ xs) ok c = omega (arith, c.0, ok.0)

-- What `kfree` makes of a page's memory.
abbrev linked : Heap → ℕ → Memory
linked h p = store32 (memset h.memory p 1 page_size) p h.freelist

linked_outside :
    (h : Heap) (p b : ℕ)
    → (b + 4 ≤ p) ⊎ (p + page_size ≤ b)
    → load32 (linked h p) b ≡ load32 h.memory b
linked_outside h p b off =
    load-store_ne (memset h.memory p 1 page_size) p b h.freelist (ground (arith, off))
    ∙ load-memset_out h.memory p 1 page_size b off

-- `kfree` of a page (aligned, not null, below the end of memory) that is not free puts it in front of the
-- free pages.
pub kfree-IsHeap :
    (h : Heap) (pages : List ℕ) (p : ℕ)
    → IsHeap h pages
    → IsPage p
    → Fresh p pages
    → IsHeap (kfree p h) (p ∷ pages)
unfolding kfree
kfree-IsHeap h pages p v hp fresh =
    let accepted : (not (p % page_size == 0) || leb page_stop p) ≡ false = ground (arith, hp) in
    let same = spared h.memory (linked h p) p pages (linked_outside h p) hp v.pages_ok fresh in
    let back : load32 (linked h p) p ≡ h.freelist =
      load-store_self (memset h.memory p 1 page_size) p h.freelist
        (first_below h.memory h.freelist pages v.pages_ok v.chain) in
    rw accepted (record {
      chain = (refl, rw back (Chain-same h.memory (linked h p) h.freelist pages same v.chain));
      pages_ok = (hp, v.pages_ok);
      distinct = (fresh, v.distinct);
    })

-- `kfree` refuses an address that is not aligned or not below the end: nothing changes.
pub kfree-refused : (h : Heap) (p : ℕ) → (p % page_size ≢ 0) ⊎ (page_stop ≤ p) → kfree p h ≡ h
unfolding kfree
kfree-refused h p bad =
    let refused : (not (p % page_size == 0) || leb page_stop p) ≡ true = ground (arith, bad) in
    rw refused

-- What `kalloc` returns: the page, full of fives, and a heap without it; no other byte changes.
pub record Allocated (h : Heap) (p : ℕ) (rest : List ℕ) (out : ℕ × Heap) : Type 0 where
  pub page : out.0 ≡ p
  pub good : IsHeap (out.1) rest
  pub marked : (i : ℕ) → i < page_size → out.1.memory (p + i) ≡ 5
  pub others : (a : ℕ) → (a < p) ⊎ (p + page_size ≤ a) → out.1.memory a ≡ h.memory a

-- The heap without its first page.
abbrev pub taken : Heap → ℕ → Heap
taken h p = record h { memory = memset h.memory p 5 page_size; freelist = load32 h.memory p }

pub kalloc-first : (h : Heap) (p : ℕ) → h.freelist ≡ p → p ≢ 0 → kalloc h ≡ (p, taken h p)
unfolding kalloc
kalloc-first h p first not_null =
    let some_page : (h.freelist == 0) ≡ false = ground (arith, first) in
    rw some_page (ap (λ q. (q, taken h q)) first)

-- `kalloc` takes the first free page, fills it with fives, and changes no other byte.
pub kalloc-Allocated :
    (h : Heap) (p : ℕ) (rest : List ℕ) → IsHeap h (p ∷ rest) → Allocated h p rest (kalloc h)
kalloc-Allocated h p rest v =
    let hp : IsPage p = v.pages_ok.0 in
    let mem' = memset h.memory p 5 page_size in
    let same =
      spared h.memory mem' p rest (load-memset_out h.memory p 5 page_size) hp v.pages_ok.1
        v.distinct.0 in
    rw (kalloc-first h p v.chain.0 hp.not_null) (record {
      page = refl;
      good = record {
        chain = Chain-same h.memory mem' (load32 h.memory p) rest same v.chain.1;
        pages_ok = v.pages_ok.1;
        distinct = v.distinct.1;
      };
      marked = λ i lt. memset_in h.memory p 5 page_size (p + i) (omega arith) (omega arith);
      others = λ a off. memset_out h.memory p 5 page_size a off;
    })

-- With no free page `kalloc` returns the null pointer and changes nothing.
pub kalloc-empty : (h : Heap) → IsHeap h [] → kalloc h ≡ (0, h)
unfolding kalloc
kalloc-empty h v =
    let none_left : (h.freelist == 0) ≡ true = ground (arith, v.chain) in rw none_left
