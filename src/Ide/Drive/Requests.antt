-- ===== src/Ide/Drive/Requests.antt =====
-- The queue of requests of A.ide/src/ide.c as a list of buffers.
use class_example.Prelude.{
  ℕ, zero, suc, ◌<◌, ◌≤◌, ◌≡◌, ◌≢◌, refl, sym, subst, ◌∙◌, true, false, Option, none, some, List,
  [], ◌∷◌, ◌++◌, arith, ◌==◌, All, length,
}
use class_example.Ide.Drive.{Drive, put_at, last_from, append_request}

-- From the pointer `p` the queue goes through the buffers `xs`.
abbrev pub Chain : (ℕ → Option ℕ) → Option ℕ → List ℕ → Type 0
Chain q p [] = p ≡ none
Chain q p (x ∷ xs) = (p ≡ some x) × Chain q (q x) xs

abbrev pub Fresh : ℕ → List ℕ → Type 0
Fresh b = All (λ x. x ≢ b)

abbrev pub Distinct : List ℕ → Type 0
Distinct [] = Unit
Distinct (x ∷ xs) = Fresh x xs × Distinct xs

pub put_at_self {ℓ} : {A : Type ℓ} (f : ℕ → A) (i : ℕ) (v : A) → put_at f i v i ≡ v
put_at_self f i v = let e : (i == i) ≡ true = ground arith in rw e refl

pub put_at_ne {ℓ} : {A : Type ℓ} (f : ℕ → A) (i j : ℕ) (v : A) → j ≢ i → put_at f i v j ≡ f j
put_at_ne f i j v ne = let e : (j == i) ≡ false = ground (arith, ne) in rw e refl

Chain-put_at :
    (q : ℕ → Option ℕ) (p : Option ℕ) (xs : List ℕ) (i : ℕ) (v : Option ℕ)
    → Fresh i xs
    → Chain q p xs
    → Chain (put_at q i v) p xs
Chain-put_at q p [] i v fresh c = c
Chain-put_at q p (x ∷ xs) i v fresh c = (
  c.0,
  subst (λ r. Chain (put_at q i v) r xs) (sym (put_at_ne q i x v fresh.0))
      (Chain-put_at q (q x) xs i v fresh.1 c.1),
)

last_from_end : (q : ℕ → Option ℕ) (fuel y : ℕ) → q y ≡ none → last_from (suc fuel) y q ≡ y
unfolding last_from
last_from_end q fuel y e = rw (last_from, e) refl

last_from_next :
    (q : ℕ → Option ℕ) (fuel y x : ℕ) → q y ≡ some x → last_from (suc fuel) y q ≡ last_from fuel x q
unfolding last_from
last_from_next q fuel y x e = rw (last_from, e) refl

-- The last buffer of a queue is one of its buffers.
last_from-among :
    (q : ℕ → Option ℕ) (fuel y z : ℕ) (xs : List ℕ)
    → length xs < fuel
    → Chain q (q y) xs
    → Fresh z (y ∷ xs)
    → last_from fuel y q ≢ z
last_from-among q zero y z xs enough c fresh = absurd (omega arith)
last_from-among q (suc fuel) y z [] enough c fresh = rw (last_from_end q fuel y c) fresh.0
last_from-among q (suc fuel) y z (x ∷ xs) enough c fresh =
    rw (last_from_next q fuel y x c.0) (last_from-among q fuel x z xs (omega arith) c.1 fresh.1)

Chain-append :
    (q : ℕ → Option ℕ) (b fuel y : ℕ) (xs : List ℕ)
    → length xs < fuel
    → Chain q (q y) xs
    → Distinct (y ∷ xs)
    → Fresh b (y ∷ xs)
    → q b ≡ none
    → Chain
        (put_at q (last_from fuel y q) (some b))
        (put_at q (last_from fuel y q) (some b) y)
        (xs ++ (b ∷ []))
Chain-append q b zero y xs enough c d fresh e = absurd (omega arith)
Chain-append q b (suc fuel) y [] enough c d fresh e =
    rw (last_from_end q fuel y c)
      (put_at_self q y (some b), put_at_ne q y b (some b) (λ h. fresh.0 (sym h)) ∙ e)
Chain-append q b (suc fuel) y (x ∷ xs) enough c d fresh e =
    let t = Chain-append q b fuel x xs (omega arith) c.1 d.1 fresh.1 e in
    let other = last_from-among q fuel x y xs (omega arith) c.1 d.0 in
    subst (λ l. Chain (put_at q l (some b)) (put_at q l (some b) y) ((x ∷ xs) ++ (b ∷ [])))
      (sym (last_from_next q fuel y x c.0))
      (put_at_ne q (last_from fuel x q) y (some b) (λ h. other (sym h)) ∙ c.0, t)

pub record Queued (s : Drive) (xs : List ℕ) : Type 0 where
  pub chain : Chain s.qnext s.idequeue xs
  pub distinct : Distinct xs

Distinct-append : (xs : List ℕ) (b : ℕ) → Distinct xs → Fresh b xs → Distinct (xs ++ (b ∷ []))
Distinct-append [] b d fresh = (tt, tt)
Distinct-append (x ∷ xs) b d fresh =
    (fresh_append xs b x d.0 (λ e. fresh.0 (sym e)), Distinct-append xs b d.1 fresh.1)
  where
    fresh_append : (xs : List ℕ) (b z : ℕ) → Fresh z xs → b ≢ z → Fresh z (xs ++ (b ∷ []))
    fresh_append [] b z fresh ne = (ne, tt)
    fresh_append (x ∷ xs) b z fresh ne = (fresh.0, fresh_append xs b z fresh.1 ne)

-- A request goes behind those that wait.
pub append_request-Queued :
    (fuel b : ℕ) (s : Drive) (xs : List ℕ)
    → length xs ≤ fuel
    → Queued s xs
    → Fresh b xs
    → Queued (append_request fuel b s) (xs ++ (b ∷ []))
unfolding append_request
append_request-Queued fuel b s [] enough v fresh =
    rw v.chain (record { chain = (refl, put_at_self s.qnext b none); distinct = (tt, tt) })
append_request-Queued fuel b s (x ∷ xs) enough v fresh =
    let q = put_at s.qnext b none in
    let c : Chain q (q x) xs =
      subst (λ r. Chain q r xs) (sym (put_at_ne s.qnext b x none fresh.0))
        (Chain-put_at s.qnext (s.qnext x) xs b none fresh.1 v.chain.1) in
    rw v.chain.0 (record {
      chain = (
        refl,
        Chain-append q b fuel x xs (omega arith) c v.distinct fresh (put_at_self s.qnext b none),
      );
      distinct = Distinct-append (x ∷ xs) b v.distinct fresh;
    })
