-- ===== src/Ide/Bcache/Release.antt =====
-- `brelse` and `binit` of A.ide/src/bio.c on the list of buffers.
use class_example.Prelude.{
  ℕ, zero, suc, ◌+◌, ◌-◌, ◌^◌, ◌≤◌, ◌<◌, ◌≡◌, ◌≢◌, refl, sym, subst, ◌∙◌, length, length-append,
  List, [], ◌∷◌, ◌++◌, arith, All, true, false,
}
use class_example.Ide.Bcache.{
  Cache, nbuf, head, put, link_first, unlink, binit, binit_loop, brelse, is_busy,
}
use class_example.Ide.Bcache.Ring.{
  Linked, Fresh, Distinct, IsRing, Linked-split, last-ne, first-ne, All-split, All-append,
  Distinct-without, Linked-tail,
}

module _ (n p : ℕ → ℕ) (b z : ℕ) where
  -- What `unlink` does to a walk through `b`.
  take_out :
      (a : ℕ) (l r : List ℕ)
      → Linked n p a (l ++ (b ∷ r)) z
      → Fresh a (l ++ (b ∷ r))
      → Fresh z (l ++ (b ∷ r))
      → Distinct (l ++ (b ∷ r))
      → Linked (put n (p b) (n b)) (put p (n b) (p b)) a (l ++ r) z
  take_out a [] [] l fa fz d = (ground (arith, l.0.1, l.1.0), ground (arith, l.0.1, l.1.0))
  take_out a [] (y ∷ ys) l fa fz d = (
    (ground (arith, l.0.1, l.1.0), ground (arith, l.0.1, l.1.0)),
    Linked-tail n p (p b) (n b) (n b) (p b) y ys z
        (subst (λ q. Fresh q (y ∷ ys)) (sym (l.0.1)) (fa.1))
        (subst (λ q. Fresh q ys) (sym (l.1.0.0)) (d.1.0)) (λ e. fz.1.0 (sym (e ∙ l.1.0.0))) (l.1.1),
  )
  take_out a (x ∷ xs) r l fa fz d =
      let (t, u) = Linked-split n p x xs b r z l.1 in
      let (fx, (_, fr)) = All-split (λ q. q ≢ x) xs b r d.0 in
      let (fa', _) = All-split (λ q. q ≢ a) xs b r fa.1 in
      let back : p b ≢ a = last-ne n p x xs b a t fa' fa.0 in
      let on : n b ≢ x = first-ne n p b r z x u fr (λ e. fz.0 (sym e)) in
      ((ground (arith, back, l.0.0), ground (arith, on, l.0.1)), take_out x xs r l.1 d.0 fz.1 d.1)

-- What `link_first` does to the ring.
put_in :
    (n p : ℕ → ℕ) (b h : ℕ) (w : List ℕ)
    → Linked n p h w h
    → Fresh b w
    → Fresh h w
    → Distinct w
    → b ≢ h
    → Linked (put (put n b (n h)) h b) (put (put p b h) (put n b (n h) h) b) h (b ∷ w) h
put_in n p b h [] l fb fh d ne =
    ((ground arith, ground (arith, ne, l.0)), (ground (arith, ne, l.0), ground (arith, ne, l.0)))
put_in n p b h (x ∷ xs) l fb fh d ne =
    let first : put n b (n h) h ≡ x = ground (arith, ne, l.0) in
    (
      (ground arith, ground (arith, ne, first, fb.0)),
      (
        (ground (arith, ne, l.0), ground (arith, ne, first)),
        Linked-tail (put n b (n h)) (put p b h) h b (put n b (n h) h) b x xs h fh
            (subst (λ q. Fresh q xs) (sym first) (d.0)) (λ e. fh.0 (sym (e ∙ first)))
            (Linked-tail n p b (n h) b h x xs h fb (fb.1) (λ e. ne (sym e)) (l.1)),
      ),
    )

above : (xs : List ℕ) → All (λ x. x < nbuf) xs → Fresh head xs
above [] h = tt
above (x ∷ xs) h = (omega (arith, h.0), above xs h.1)

unlink-IsRing :
    (c : Cache) (l r : List ℕ) (b : ℕ) → IsRing c (l ++ (b ∷ r)) → IsRing (unlink b c) (l ++ r)
unfolding unlink
unlink-IsRing c l r b v =
    let (hl, (_, hr)) = All-split (λ x. x < nbuf) l b r v.below in
    let out = above (l ++ (b ∷ r)) v.below in
    let same : put c.prev (c.next b) (c.prev b) b ≡ c.prev b = ground arith in
    record {
      linked = rw same (take_out c.next c.prev b head head l r v.linked out out v.distinct);
      below = All-append (λ x. x < nbuf) l r hl hr;
      distinct = (Distinct-without l b r v.distinct).0;
      size = omega (arith, v.size, length-append l r, length-append l (b ∷ r));
    }

pub link_first-IsRing :
    (c : Cache) (xs : List ℕ) (b : ℕ)
    → IsRing c xs
    → Fresh b xs
    → b < nbuf
    → length xs < nbuf
    → IsRing (link_first b c) (b ∷ xs)
unfolding link_first
link_first-IsRing c xs b v fresh lt room = record {
  linked =
      put_in c.next c.prev b head xs v.linked fresh (above xs v.below) v.distinct (omega arith);
  below = (lt, v.below);
  distinct = (fresh, v.distinct);
  size = omega arith;
}

-- A busy buffer of the ring is released: it is no more busy, it stands in front, and the others keep
-- their order.
pub brelse-IsRing :
    (c : Cache) (l r : List ℕ) (b : ℕ)
    → IsRing c (l ++ (b ∷ r))
    → is_busy (c.flags b) ≡ true
    → IsRing (brelse b c) (b ∷ (l ++ r)) × (is_busy ((brelse b c).flags b) ≡ false)
unfolding brelse link_first unlink
brelse-IsRing c l r b v busy =
    let (_, (b_in, _)) = All-split (λ x. x < nbuf) l b r v.below in
    let t =
      link_first-IsRing (unlink b c) (l ++ r) b (unlink-IsRing c l r b v)
        (Distinct-without l b r v.distinct).1 b_in
        (omega (arith, v.size, length-append l r, length-append l (b ∷ r))) in
    rw busy (
      record { linked = t.linked; below = t.below; distinct = t.distinct; size = t.size },
      ground arith,
    )

-- `n` buffers from `b` on, each put in front.
unfoldable pub stacked : (n b : ℕ) → List ℕ → List ℕ
stacked zero b xs = xs
stacked (suc n) b xs = stacked n (b + 1) (b ∷ xs)

Fresh-above : (b : ℕ) (xs : List ℕ) → All (λ x. x < b) xs → Fresh b xs
Fresh-above b [] h = tt
Fresh-above b (x ∷ xs) h = (omega (arith, h.0), Fresh-above b xs h.1)

above_next : (b : ℕ) (xs : List ℕ) → All (λ x. x < b) xs → All (λ x. x < b + 1) xs
above_next b [] h = tt
above_next b (x ∷ xs) h = (omega (arith, h.0), above_next b xs h.1)

loop-IsRing :
    (left b : ℕ) (c : Cache) (xs : List ℕ)
    → b + left ≤ nbuf
    → length xs ≤ b
    → All (λ x. x < b) xs
    → IsRing c xs
    → IsRing (binit_loop left b c) (stacked left b xs)
unfolding binit_loop stacked
loop-IsRing zero b c xs lt len h v = v
loop-IsRing (suc left) b c xs lt len h v =
    let c1 = record c { dev = put c.dev b (2 ^ 32 - 1) } in
    let v1 : IsRing c1 xs = record {
      linked = v.linked;
      below = v.below;
      distinct = v.distinct;
      size = v.size;
    } in
    loop-IsRing left (b + 1) (link_first b c1) (b ∷ xs) (omega arith) (omega arith)
      (omega arith, above_next b xs h)
      (link_first-IsRing c1 xs b v1 (Fresh-above b xs h) (omega arith) (omega arith))

-- Whatever the memory held, `binit` links all 30 buffers into a ring, the last one in front.
pub binit-IsRing : (c : Cache) → IsRing (binit c) (stacked nbuf 0 [])
unfolding binit
binit-IsRing c =
    loop-IsRing nbuf 0 (record c { prev = put c.prev head head; next = put c.next head head }) []
      (omega arith) (omega arith) tt
      (record { linked = (refl, refl); below = tt; distinct = tt; size = omega arith })
