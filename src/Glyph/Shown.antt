-- ===== src/Glyph/Shown.antt =====
-- What 0.VGA_Advanced/src/main.c leaves on the card.
use class_example.Prelude.{
  ℕ, ◌+◌, ◌-◌, ◌≤◌, ◌<◌, ◌≡◌, ◌≢◌, ◌⊎◌, refl, ap, sym, subst, ◌∙◌, true, ◌&&◌, List, [], ◌∷◌, ◌++◌,
  arith, if◌then◌else◌, leb, ltb, All,
}
use class_example.Glyph.Card.{Card, is_text, put, access, run, run-append}
use class_example.Glyph.{
  Access, store16, upload_glyph, rows, omega_glyph, katakana_a, katakana_he, show_omega,
  show_katakana, show_glyphs,
}
use class_example.Glyph.Upload.{drawn, Uploaded, upload_glyph-Uploaded}

-- Words that go to the cells of a card in text mode.
abbrev written : List (ℕ × ℕ) → (ℕ → ℕ) → ℕ → ℕ
written [] f = f
written ((a, v) ∷ ws) f = written ws (put a v f)

abbrev stores : List (ℕ × ℕ) → List Access
stores [] = []
stores ((a, v) ∷ ws) = store16 a v ∷ stores ws

run-stores :
    (ws : List (ℕ × ℕ)) (k : Card)
    → is_text k ≡ true
    → run (stores ws) k ≡ record k { cells = written ws k.cells }
unfolding run access
run-stores [] k text = refl
run-stores ((a, v) ∷ ws) k text =
    ap (run (stores ws)) stored ∙ run-stores ws (record k { cells = put a v k.cells }) text
  where
    stored : access (store16 a v) k ≡ record k { cells = put a v k.cells }
    stored = rw (access, text) refl

-- The picture: where each word stands, and what it is.
abbrev pub picture : List (ℕ × ℕ)
picture =
    (0xB8000, 0x0741)
    ∷ (0xB8004, 0x0741)
    ∷ (0xB80A0, 0xB442)
    ∷ (0xB80A4, 0xB442)
    ∷ (0xB8140, 0xB443)
    ∷ (0xB8144, 0xB443)
    ∷ []

-- What the card shows: three glyphs of the font, with the others as they were, and the picture on the screen, which
-- is as it was elsewhere.
pub record Shown (k k' : Card) : Type 0 where
  pub letter_a : (i : ℕ) → i < 16 → k'.font (0xA0820 + i) ≡ rows omega_glyph i
  pub letter_b : (i : ℕ) → i < 16 → k'.font (0xA0840 + i) ≡ rows katakana_a i
  pub letter_c : (i : ℕ) → i < 16 → k'.font (0xA0860 + i) ≡ rows katakana_he i
  pub others : (x : ℕ) → (x < 0xA0820) ⊎ (0xA0870 ≤ x) → k'.font x ≡ k.font x
  pub cells : All (λ (w : ℕ × ℕ). k'.cells (w.0) ≡ w.1) picture
  pub kept : (x : ℕ) → All (λ (w : ℕ × ℕ). x ≢ w.0) picture → k'.cells x ≡ k.cells x
  pub text : is_text k' ≡ true

module _ (k : Card) where
  abbrev k1 : Card
  k1 = run (upload_glyph b'A' (rows omega_glyph)) k

  abbrev k2 : Card
  k2 = run show_omega k1

  abbrev k3 : Card
  k3 = run (upload_glyph b'B' (rows katakana_a)) k2

  abbrev k4 : Card
  k4 = run (upload_glyph b'C' (rows katakana_he)) k3

  abbrev k5 : Card
  k5 = run show_katakana k4

  parts : run show_glyphs k ≡ k5
  unfolding show_glyphs
  parts =
      let from_c = upload_glyph b'C' (rows katakana_he) ++ show_katakana in
      let from_b = upload_glyph b'B' (rows katakana_a) ++ from_c in
      run-append (upload_glyph b'A' (rows omega_glyph)) (show_omega ++ from_b) k
      ∙ run-append show_omega from_b k1
      ∙ run-append (upload_glyph b'B' (rows katakana_a)) from_c k2
      ∙ run-append (upload_glyph b'C' (rows katakana_he)) show_katakana k3

  abbrev upper : List (ℕ × ℕ)
  upper = (0xB8000, 0x0741) ∷ (0xB8004, 0x0741) ∷ []

  abbrev lower : List (ℕ × ℕ)
  lower = (0xB80A0, 0xB442) ∷ (0xB80A4, 0xB442) ∷ (0xB8140, 0xB443) ∷ (0xB8144, 0xB443) ∷ []

  abbrev in_a : Uploaded b'A' (rows omega_glyph) k k1
  in_a = upload_glyph-Uploaded b'A' (rows omega_glyph) k

  abbrev in_b : Uploaded b'B' (rows katakana_a) k2 k3
  in_b = upload_glyph-Uploaded b'B' (rows katakana_a) k2

  abbrev in_c : Uploaded b'C' (rows katakana_he) k3 k4
  in_c = upload_glyph-Uploaded b'C' (rows katakana_he) k3

  first_stores : k2 ≡ record k1 { cells = written upper k1.cells }
  first_stores = run-stores upper k1 in_a.text

  last_stores : k5 ≡ record k4 { cells = written lower k4.cells }
  last_stores = run-stores lower k4 in_c.text

  abbrev three : (ℕ → ℕ) → ℕ → ℕ
  three f x =
      if leb 0xA0860 x && ltb x 0xA0870
      then rows katakana_he (x - 0xA0860)
      else if leb 0xA0840 x && ltb x 0xA0850
      then rows katakana_a (x - 0xA0840)
      else if leb 0xA0820 x && ltb x 0xA0830
      then rows omega_glyph (x - 0xA0820)
      else f x

  final_font : (x : ℕ) → k5.font x ≡ three k.font x
  final_font x =
      ap (λ y. y.font x) last_stores
      ∙ in_c.font x
      ∙ ap (if_out b'C' (rows katakana_he)) (in_b.font x)
      ∙ ap (λ z. if_out b'C' (rows katakana_he) (if_out b'B' (rows katakana_a) z))
          (ap (λ y. y.font x) first_stores ∙ in_a.font x)
    where
      if_out : (c : ℕ) (bitmap : ℕ → ℕ) → ℕ → ℕ
      if_out c bitmap z = drawn c bitmap 16 0 (λ y. z) x

  final_cells : k5.cells ≡ written lower (written upper k.cells)
  final_cells =
      ap (λ y. y.cells) last_stores
      ∙ ap (written lower)
          (in_c.cells ∙ in_b.cells ∙ ap (λ y. y.cells) first_stores ∙ ap (written upper) in_a.cells)

  cell_at : (x : ℕ) → k5.cells x ≡ written lower (written upper k.cells) x
  cell_at x = ap (λ f. f x) final_cells

  -- Whatever a card holds, after `main` it shows the three glyphs for A, B and C, in the cells of the picture, and is
  -- in text mode; the rest of the font and of the screen is as before.
  pub show_glyphs-Shown : Shown k (run show_glyphs k)
  show_glyphs-Shown = subst (Shown k) (sym parts) (record {
    letter_a = λ i lt. final_font (0xA0820 + i) ∙ ground (arith, lt);
    letter_b = λ i lt. final_font (0xA0840 + i) ∙ ground (arith, lt);
    letter_c = λ i lt. final_font (0xA0860 + i) ∙ ground (arith, lt);
    others = λ x out. final_font x ∙ ground (arith, out);
    cells = (
      cell_at 0xB8000,
      (
        cell_at 0xB8004,
        (cell_at 0xB80A0, (cell_at 0xB80A4, (cell_at 0xB8140, (cell_at 0xB8144, tt)))),
      ),
    );
    kept = λ x out. cell_at x ∙ ground (arith, out);
    text = ap is_text last_stores ∙ in_c.text;
  })
