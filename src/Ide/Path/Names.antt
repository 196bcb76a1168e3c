-- ===== src/Ide/Path/Names.antt =====
-- What `skipelem` of A.ide/src/fs.c makes of a path that is put together from elements.
use class_example.Prelude.{
  ℕ, zero, suc, ◌≡◌, ◌≢◌, refl, false, none, some, List, [], ◌∷◌, ◌++◌, arith, ◌==◌, replicate, All,
}
use class_example.Ide.Path.{skip_slashes, pass_element, name_bytes, skipelem, slash}

-- An element of a path: not empty, and without a slash.
pub record IsElement (e : List ℕ) : Type 0 where
  pub nonempty : e ≢ []
  pub no_slash : All (λ c. c ≢ slash) e

-- What follows an element: slashes at the end, or at least one slash and another element.
unfoldable pub behind : List (ℕ × List ℕ) → (trailing : ℕ) → List ℕ
behind [] trailing = replicate trailing slash
behind ((gap, e) ∷ es) trailing = slash ∷ (replicate gap slash ++ (e ++ behind es trailing))

-- A path: slashes, an element, and more elements with their gaps.
abbrev pub joined : (leading : ℕ) (e : List ℕ) → List (ℕ × List ℕ) → (trailing : ℕ) → List ℕ
joined leading e es trailing = replicate leading slash ++ (e ++ behind es trailing)

skip-replicate : (n : ℕ) (xs : List ℕ) → skip_slashes (replicate n slash ++ xs) ≡ skip_slashes xs
unfolding skip_slashes
skip-replicate zero xs = refl
skip-replicate (suc n) xs = skip-replicate n xs

skip-element : (e xs : List ℕ) → IsElement e → skip_slashes (e ++ xs) ≡ e ++ xs
unfolding skip_slashes
skip-element [] xs h = absurd (h.nonempty refl)
skip-element (c ∷ cs) xs h =
    let other : (c == slash) ≡ false = ground (arith, h.no_slash.0) in rw other refl

-- What begins with a slash or is empty.
abbrev Stops : List ℕ → Type 0
Stops [] = Unit
Stops (c ∷ cs) = c ≡ slash

behind-Stops : (es : List (ℕ × List ℕ)) (trailing : ℕ) → Stops (behind es trailing)
unfolding behind
behind-Stops [] zero = tt
behind-Stops [] (suc n) = refl
behind-Stops ((gap, e) ∷ es) trailing = refl

pass-element :
    (e xs : List ℕ) → All (λ c. c ≢ slash) e → Stops xs → pass_element (e ++ xs) ≡ (e, xs)
unfolding pass_element
pass-element [] [] h s = refl
pass-element [] (x ∷ xs) h s = rw s refl
pass-element (c ∷ cs) xs h s =
    let other : (c == slash) ≡ false = ground (arith, h.0) in
    rw (other, pass-element cs xs h.1 s) refl

skip-end : (n : ℕ) → skip_slashes (replicate n slash) ≡ []
unfolding skip_slashes
skip-end zero = refl
skip-end (suc n) = skip-end n

-- One call of `skipelem` takes the first element, however many slashes stand before it, and leaves the
-- path behind the slashes that follow.
pub skipelem-joined :
    (leading : ℕ) (e : List ℕ) (es : List (ℕ × List ℕ)) (trailing : ℕ)
    → IsElement e
    → skipelem (joined leading e es trailing)
      ≡ some (name_bytes e, skip_slashes (behind es trailing))
unfolding skipelem
skipelem-joined leading [] es trailing h = absurd (h.nonempty refl)
skipelem-joined leading (c ∷ cs) es trailing h =
    rw
      (
        skipelem,
        skip-replicate leading ((c ∷ cs) ++ behind es trailing),
        skip-element (c ∷ cs) (behind es trailing) h,
        pass-element (c ∷ cs) (behind es trailing) h.no_slash (behind-Stops es trailing),
      )
      refl

-- A path of nothing but slashes has no element: the result is the null pointer.
pub skipelem-slashes : (n : ℕ) → skipelem (replicate n slash) ≡ none
unfolding skipelem
skipelem-slashes n = rw (skipelem, skip-end n) refl
