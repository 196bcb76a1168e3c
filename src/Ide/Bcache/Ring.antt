-- ===== src/Ide/Bcache/Ring.antt =====
-- The ring of A.ide/src/bio.c as the list of its buffers, the one used last in front.
use class_example.Prelude.{ℕ, ◌≤◌, ◌<◌, ◌≡◌, ◌≢◌, sym, ◌∙◌, length, List, [], ◌∷◌, ◌++◌, arith, All}
use class_example.Ide.Bcache.{Cache, nbuf, head, put}

-- From `a` through the buffers of the list to `b`, in both directions.
abbrev pub Linked : (next prev : ℕ → ℕ) → (a : ℕ) → List ℕ → (b : ℕ) → Type 0
Linked next prev a [] b = (next a ≡ b) × (prev b ≡ a)
Linked next prev a (x ∷ xs) b = ((next a ≡ x) × (prev x ≡ a)) × Linked next prev x xs b

abbrev pub Fresh : ℕ → List ℕ → Type 0
Fresh p = All (λ x. x ≢ p)

abbrev pub Distinct : List ℕ → Type 0
Distinct [] = Unit
Distinct (x ∷ xs) = Fresh x xs × Distinct xs

-- The ring holds exactly the buffers of the list, each once.
pub record IsRing (c : Cache) (order : List ℕ) : Type 0 where
  pub linked : Linked c.next c.prev head order head
  pub below : All (λ x. x < nbuf) order
  pub distinct : Distinct order
  pub size : length order ≤ nbuf

-- Links stay where neither end changes.
pub Linked-same :
    (n p n' p' : ℕ → ℕ) (a : ℕ) (xs : List ℕ) (b : ℕ)
    → n' a ≡ n a
    → All (λ x. (n' x ≡ n x) × (p' x ≡ p x)) xs
    → p' b ≡ p b
    → Linked n p a xs b
    → Linked n' p' a xs b
Linked-same n p n' p' a [] b ha hs hb l = (ha ∙ l.0, hb ∙ l.1)
Linked-same n p n' p' a (x ∷ xs) b ha hs hb l =
    ((ha ∙ l.0.0, hs.0.1 ∙ l.0.1), Linked-same n p n' p' x xs b hs.0.0 hs.1 hb l.1)

-- A walk through an appended list.
pub Linked-append :
    (n p : ℕ → ℕ) (a : ℕ) (xs : List ℕ) (y : ℕ) (ys : List ℕ) (b : ℕ)
    → Linked n p a xs y
    → Linked n p y ys b
    → Linked n p a (xs ++ (y ∷ ys)) b
Linked-append n p a [] y ys b l r = (l, r)
Linked-append n p a (x ∷ xs) y ys b l r = (l.0, Linked-append n p x xs y ys b l.1 r)

pub Linked-split :
    (n p : ℕ → ℕ) (a : ℕ) (xs : List ℕ) (y : ℕ) (ys : List ℕ) (b : ℕ)
    → Linked n p a (xs ++ (y ∷ ys)) b
    → Linked n p a xs y × Linked n p y ys b
Linked-split n p a [] y ys b l = (l.0, l.1)
Linked-split n p a (x ∷ xs) y ys b l =
    let (t, r) = Linked-split n p x xs y ys b l.1 in ((l.0, t), r)

-- The ends of a walk lie in its list or at its other end.
pub last-ne :
    (n p : ℕ → ℕ) (a : ℕ) (xs : List ℕ) (b q : ℕ) → Linked n p a xs b → Fresh q xs → a ≢ q → p b ≢ q
last-ne n p a [] b q l fresh ne = λ e. ne (sym (l.1) ∙ e)
last-ne n p a (x ∷ xs) b q l fresh ne = last-ne n p x xs b q l.1 fresh.1 fresh.0

pub first-ne :
    (n p : ℕ → ℕ) (a : ℕ) (xs : List ℕ) (b q : ℕ) → Linked n p a xs b → Fresh q xs → b ≢ q → n a ≢ q
first-ne n p a [] b q l fresh ne = λ e. ne (sym (l.0) ∙ e)
first-ne n p a (x ∷ xs) b q l fresh ne = λ e. fresh.0 (sym (l.0.0) ∙ e)

pub All-split {κ} :
    (P : ℕ → Type κ) (xs : List ℕ) (y : ℕ) (ys : List ℕ)
    → All P (xs ++ (y ∷ ys))
    → All P xs × (P y × All P ys)
All-split P [] y ys h = (tt, h)
All-split P (x ∷ xs) y ys h = let (hx, hy) = All-split P xs y ys h.1 in ((h.0, hx), hy)

pub All-append {κ} : (P : ℕ → Type κ) (xs ys : List ℕ) → All P xs → All P ys → All P (xs ++ ys)
All-append P [] ys h k = k
All-append P (x ∷ xs) ys h k = (h.0, All-append P xs ys h.1 k)

-- What is left when one buffer is taken out.
pub Distinct-without :
    (xs : List ℕ) (y : ℕ) (ys : List ℕ)
    → Distinct (xs ++ (y ∷ ys))
    → Distinct (xs ++ ys) × Fresh y (xs ++ ys)
Distinct-without [] y ys h = (h.1, h.0)
Distinct-without (x ∷ xs) y ys h =
    let (d, f) = Distinct-without xs y ys h.1 in
    let (hx, (hy, hys)) = All-split (λ q. q ≢ x) xs y ys h.0 in
    ((All-append (λ q. q ≢ x) xs ys hx hys, d), (λ e. hy (sym e), f))

-- Links inside a list do not see a change of a forward link outside it and of the backward link of its
-- first element.
pub Linked-tail :
    (n p : ℕ → ℕ) (i v j w y : ℕ) (ys : List ℕ) (z : ℕ)
    → Fresh i (y ∷ ys)
    → Fresh j ys
    → z ≢ j
    → Linked n p y ys z
    → Linked (put n i v) (put p j w) y ys z
Linked-tail n p i v j w y ys z fresh new ne l =
    Linked-same n p (put n i v) (put p j w) y ys z (ground (arith, fresh)) (inner ys fresh.1 new)
      (ground (arith, ne)) l
  where
    inner :
        (xs : List ℕ)
        → Fresh i xs
        → Fresh j xs
        → All (λ x. (put n i v x ≡ n x) × (put p j w x ≡ p x)) xs
    inner [] f g = tt
    inner (x ∷ xs) f g = ((ground (arith, f.0), ground (arith, g.0)), inner xs f.1 g.1)
