-- ===== src/Ide/Bcache/Get.antt =====
-- What `bget` of A.ide/src/bio.c finds in the ring.
use class_example.Prelude.{
  ℕ, zero, suc, ◌+◌, ◌<◌, ◌≡◌, ◌≢◌, inl, inr, refl, sym, subst, ◌∙◌, length, length-append, List,
  [], ◌∷◌, ◌++◌, arith, ◌==◌, All, Bool, true, false, not, ◌&&◌, Bool-cases, Option, none, some,
  Option-cases,
}
use class_example.Ide.Bcache.{
  Cache, nbuf, head, put, is_busy, is_dirty, set_busy, find_cached, find_clean, bget,
}
use class_example.Ide.Bcache.Ring.{Linked, Linked-append, IsRing, All-split, All-append}

-- A buffer that the first loop takes, and one that the second loop takes.
abbrev pub is_hit : (dev blockno : ℕ) → Cache → ℕ → Bool
is_hit dev blockno c b = c.dev b == dev && c.blockno b == blockno && not (is_busy (c.flags b))

abbrev pub is_clean : Cache → ℕ → Bool
is_clean c b = not (is_busy (c.flags b)) && not (is_dirty (c.flags b))

-- What a search over a list may find.
abbrev pub Found : (ℕ → Bool) → List ℕ → Option ℕ → Type 0
Found test xs none = All (λ x. test x ≡ false) xs
Found test xs (some b) = (test b ≡ true) × (b < nbuf)

later :
    (test : ℕ → Bool) (x : ℕ) (xs : List ℕ)
    → test x ≡ false
    → (o : Option ℕ) → Found test xs o
    → Found test (x ∷ xs) o
later test x xs miss none f = (miss, f)
later test x xs miss (some b) f = f

abbrev reverse : List ℕ → List ℕ
reverse [] = []
reverse (x ∷ xs) = reverse xs ++ (x ∷ [])

-- The ring is the same ring backwards.
Linked-reverse :
    (n p : ℕ → ℕ) (a : ℕ) (xs : List ℕ) (b : ℕ) → Linked n p a xs b → Linked p n b (reverse xs) a
Linked-reverse n p a [] b l = (l.1, l.0)
Linked-reverse n p a (x ∷ xs) b l =
    Linked-append p n b (reverse xs) x [] a (Linked-reverse n p x xs b l.1) (l.0.1, l.0.0)

length-reverse : (xs : List ℕ) → length (reverse xs) ≡ length xs
length-reverse [] = refl
length-reverse (x ∷ xs) = omega (arith, length-append (reverse xs) (x ∷ []), length-reverse xs)

All-reverse {κ} : (P : ℕ → Type κ) (xs : List ℕ) → All P xs → All P (reverse xs)
All-reverse P [] h = tt
All-reverse P (x ∷ xs) h = All-append P (reverse xs) (x ∷ []) (All-reverse P xs h.1) (h.0, tt)

reverse-All {κ} : (P : ℕ → Type κ) (xs : List ℕ) → All P (reverse xs) → All P xs
reverse-All P [] h = tt
reverse-All P (x ∷ xs) h =
    let (t, (hx, _)) = All-split P (reverse xs) x [] h in (hx, reverse-All P xs t)

module _ (c : Cache) where
  find_cached-Found :
      (dev blockno fuel a : ℕ) (xs : List ℕ)
      → length xs < fuel
      → Linked c.next c.prev a xs head
      → All (λ x. x < nbuf) xs
      → Found (is_hit dev blockno c) xs (find_cached fuel dev blockno (c.next a) c)
  unfolding find_cached
  find_cached-Found dev blockno zero a xs lt l h = absurd (omega arith)
  find_cached-Found dev blockno (suc fuel) a [] lt l h = rw (l.0) tt
  find_cached-Found dev blockno (suc fuel) a (x ∷ xs) lt l h =
      let inside : (x == head) ≡ false = ground (arith, h.0) in
      rw (l.0.0, inside)
        (elim (Bool-cases (is_hit dev blockno c x)) [
          | inl hit ↦ rw hit (hit, h.0)
          | inr miss ↦ rw miss (
              later (is_hit dev blockno c) x xs miss (find_cached fuel dev blockno (c.next x) c)
                (find_cached-Found dev blockno fuel x xs (omega arith) (l.1) (h.1)))
        ])

  find_clean-Found :
      (fuel a : ℕ) (xs : List ℕ)
      → length xs < fuel
      → Linked c.prev c.next a xs head
      → All (λ x. x < nbuf) xs
      → Found (is_clean c) xs (find_clean fuel (c.prev a) c)
  unfolding find_clean
  find_clean-Found zero a xs lt l h = absurd (omega arith)
  find_clean-Found (suc fuel) a [] lt l h = rw (l.0) tt
  find_clean-Found (suc fuel) a (x ∷ xs) lt l h =
      let inside : (x == head) ≡ false = ground (arith, h.0) in
      rw (l.0.0, inside)
        (elim (Bool-cases (is_clean c x)) [
          | inl hit ↦ rw hit (hit, h.0)
          | inr miss ↦ rw miss (
              later (is_clean c) x xs miss (find_clean fuel (c.prev x) c)
                (find_clean-Found fuel x xs (omega arith) (l.1) (h.1)))
        ])

-- What `bget` returns when it finds a buffer: one that was not busy, and is busy now for the block
-- asked for. The other buffers and the ring are as before.
pub record Got (dev blockno : ℕ) (c : Cache) (order : List ℕ) (out : ℕ × Cache) : Type 0 where
  pub inside : out.0 < nbuf
  pub was_free : is_busy (c.flags (out.0)) ≡ false
  pub busy : is_busy (out.1.flags (out.0)) ≡ true
  pub holds : (out.1.dev (out.0) ≡ dev) × (out.1.blockno (out.0) ≡ blockno)
  pub ring : IsRing (out.1) order
  pub others :
      (x : ℕ)
      → x ≢ out.0
      → (out.1.flags x ≡ c.flags x) × ((out.1.dev x ≡ c.dev x) × (out.1.blockno x ≡ c.blockno x))

module _ (dev blockno : ℕ) (c : Cache) (order : List ℕ) (v : IsRing c order) where
  cached : Found (is_hit dev blockno c) order (find_cached (nbuf + 1) dev blockno (c.next head) c)
  cached =
      find_cached-Found c dev blockno (nbuf + 1) head order (omega (arith, v.size)) v.linked v.below

  clean : Found (is_clean c) (reverse order) (find_clean (nbuf + 1) (c.prev head) c)
  clean =
      find_clean-Found c (nbuf + 1) head (reverse order)
        (omega (arith, v.size, length-reverse order))
        (Linked-reverse c.next c.prev head order head v.linked)
        (All-reverse (λ x. x < nbuf) order v.below)

  same-IsRing :
      (flags' dev' blockno' : ℕ → ℕ)
      → IsRing (record c { flags = flags'; dev = dev'; blockno = blockno' }) order
  same-IsRing flags' dev' blockno' = record {
    linked = v.linked;
    below = v.below;
    distinct = v.distinct;
    size = v.size;
  }

  Got-cached :
      (b : ℕ)
      → is_hit dev blockno c b ≡ true
      → b < nbuf
      → Got dev blockno c order (b, record c { flags = put c.flags b (set_busy (c.flags b)) })
  Got-cached b hit lt = record {
    inside = lt;
    was_free = ground (arith, hit);
    busy = ground arith;
    holds = (ground (arith, hit), ground (arith, hit));
    ring = same-IsRing (put c.flags b (set_busy (c.flags b))) c.dev c.blockno;
    others = λ x ne. (ground (arith, ne), (refl, refl));
  }

  Got-clean :
      (b : ℕ)
      → is_clean c b ≡ true
      → b < nbuf
      → Got dev blockno c order (
        b,
        record c {
          dev = put c.dev b dev;
          blockno = put c.blockno b blockno;
          flags = put c.flags b 1;
        },
      )
  Got-clean b hit lt = record {
    inside = lt;
    was_free = ground (arith, hit);
    busy = ground arith;
    holds = (ground arith, ground arith);
    ring = same-IsRing (put c.flags b 1) (put c.dev b dev) (put c.blockno b blockno);
    others = λ x ne. (ground (arith, ne), (ground (arith, ne), ground (arith, ne)));
  }

  -- In a ring in which some buffer is neither busy nor dirty, `bget` returns a buffer that was not busy,
  -- marks it busy for the block asked for, and changes no other buffer and no link.
  pub bget-Got :
      (l r : List ℕ) (b : ℕ)
      → order ≡ l ++ (b ∷ r)
      → is_clean c b ≡ true
      → Got dev blockno c order (bget dev blockno c)
  unfolding bget
  bget-Got l r b e good = elim (Option-cases (find_cached (nbuf + 1) dev blockno (c.next head) c)) [
    | inl none_cached ↦ elim (Option-cases (find_clean (nbuf + 1) (c.prev head) c)) [
      | inl nothing ↦
          let all_bad =
            reverse-All (λ x. is_clean c x ≡ false) order
              (subst (Found (is_clean c) (reverse order)) nothing clean) in
          let (_, (bad, _)) =
            All-split (λ x. is_clean c x ≡ false) l b r
              (subst (All (λ x. is_clean c x ≡ false)) e all_bad) in
          absurd (ground (arith, bad, good))
      | inr (x, found) ↦
          let (hit, lt) = subst (Found (is_clean c) (reverse order)) found clean in
          rw (bget, none_cached, found) (Got-clean x hit lt)
    ]
    | inr (x, found) ↦
        let (hit, lt) = subst (Found (is_hit dev blockno c) order) found cached in
        rw (bget, found) (Got-cached x hit lt)
  ]

  -- A block whose buffer is busy gets a second one: in such a ring `bget` returns another buffer, and then
  -- both hold the same block.
  pub bget_twice :
      (l r : List ℕ) (b x : ℕ)
      → order ≡ l ++ (b ∷ r)
      → is_clean c b ≡ true
      → c.dev x ≡ dev
      → c.blockno x ≡ blockno
      → is_busy (c.flags x) ≡ true
      → ((bget dev blockno c).0 ≢ x)
        × ((bget dev blockno c).1.dev x ≡ (bget dev blockno c).1.dev ((bget dev blockno c).0))
        × ((bget dev blockno c).1.blockno x
            ≡ (bget dev blockno c).1.blockno ((bget dev blockno c).0))
  bget_twice l r b x e good same_dev same_block busy =
      let t = bget-Got l r b e good in
      let ne : (bget dev blockno c).0 ≢ x =
        λ q. ground (arith, subst (λ y. is_busy (c.flags y) ≡ false) q t.was_free, busy) in
      let (_, (dev_kept, block_kept)) = t.others x (λ q. ne (sym q)) in
      (ne, dev_kept ∙ same_dev ∙ sym (t.holds.0), block_kept ∙ same_block ∙ sym (t.holds.1))
