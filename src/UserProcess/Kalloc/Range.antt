-- ===== src/UserProcess/Kalloc/Range.antt =====
-- `kinit` and `freerange` of 8.UserProcess/src/kalloc.c make every whole page of a range free, and the
-- null page shows what `kfree` lets pass.
use class_example.Prelude.{
  ℕ, zero, suc, ◌+◌, ◌-◌, ◌*◌, ◌/◌, ◌%◌, ◌^◌, ◌≤◌, ◌<◌, ◌≡◌, refl, true, false, List, [], ◌∷◌,
  arith, leb, All,
}
use class_example.UserProcess.Kalloc.{
  Heap, kfree, kalloc, freerange, freerange_loop, kinit, page_align, page_size, page_stop,
}
use class_example.UserProcess.Kalloc.FreeList.{IsPage, IsHeap, Fresh, kfree-IsHeap}

-- `n` pages from `p` on, the last one first, in front of others.
unfoldable pub run_of : (p n : ℕ) → List ℕ → List ℕ
run_of p zero pages = pages
run_of p (suc n) pages = run_of (p + page_size) n (p ∷ pages)

below-Fresh : (p : ℕ) (pages : List ℕ) → All (λ x. x < p) pages → Fresh p pages
below-Fresh p [] h = tt
below-Fresh p (x ∷ xs) h = (omega (arith, h.0), below-Fresh p xs h.1)

below-next : (p : ℕ) (pages : List ℕ) → All (λ x. x < p) pages → All (λ x. x < p + page_size) pages
below-next p [] h = tt
below-next p (x ∷ xs) h = (omega (arith, h.0), below-next p xs h.1)

module _ (vend : ℕ) (low : vend ≤ page_stop) where
  -- What the loop knows when it stands at `p`, `n` whole pages before the end.
  record At (p n : ℕ) (pages : List ℕ) : Type 0 where
    aligned : p % page_size ≡ 0
    positive : 0 < p
    room : p + n * page_size ≤ vend
    last : vend < p + n * page_size + page_size
    behind : All (λ x. x < p) pages

  loop-IsHeap :
      (n fuel p : ℕ) (h : Heap) (pages : List ℕ)
      → n < fuel
      → At p n pages
      → IsHeap h pages
      → IsHeap (freerange_loop fuel p vend h) (run_of p n pages)
  unfolding freerange_loop run_of
  loop-IsHeap n zero p h pages lt at v = absurd (omega arith)
  loop-IsHeap zero (suc fuel) p h pages lt at v =
      let done : leb ((p + page_size) % 2 ^ 32) vend ≡ false = ground (arith, at) in rw done v
  loop-IsHeap (suc n) (suc fuel) p h pages lt at v =
      let more : leb ((p + page_size) % 2 ^ 32) vend ≡ true = ground (arith, at) in
      let next : (p + page_size) % 2 ^ 32 ≡ p + page_size = omega (arith, at) in
      let hp : IsPage p = omega (arith, at) in
      rw (more, next)
        (loop-IsHeap n fuel (p + page_size) (kfree p h) (p ∷ pages) (omega arith)
          (record {
            aligned = omega (arith, at);
            positive = omega arith;
            room = omega (arith, at);
            last = omega (arith, at);
            behind = (omega arith, below-next p pages at.behind);
          })
          (kfree-IsHeap h pages p v hp (below-Fresh p pages at.behind)))

pub kinit-IsHeap :
    (vstart vend : ℕ) (h : Heap)
    → IsHeap h []
    → 0 < vstart
    → page_align vstart ≤ vend
    → vstart ≤ vend
    → vend ≤ page_stop
    → IsHeap
        (kinit vstart vend h)
        (run_of (page_align vstart) ((vend - page_align vstart) / page_size) [])
unfolding kinit freerange
kinit-IsHeap vstart vend h v pos reach order low =
    loop-IsHeap vend low ((vend - page_align vstart) / page_size) (vend / page_size + 1)
      (page_align vstart) h [] (omega arith)
      (record {
        aligned = omega arith;
        positive = omega arith;
        room = omega arith;
        last = omega arith;
        behind = tt;
      })
      v

-- `kfree` takes the null pointer for a page: all that was free is lost, and `kalloc` finds nothing.
kfree_null : (h : Heap) → (kalloc (kfree 0 h)).0 ≡ 0
unfolding kalloc kfree
kfree_null h = refl
