-- ===== src/Glyph/Upload.antt =====
-- What upload_glyph of 0.VGA_Advanced/src/main.c leaves on the card.
use class_example.Prelude.{
  ℕ, zero, suc, ◌+◌, ◌-◌, ◌*◌, ◌≡◌, refl, ap, sym, subst, ◌∙◌, true, ◌&&◌, ◌++◌, arith,
  if◌then◌else◌, leb, ltb,
}
use class_example.Glyph.Card.{Card, is_font_load, is_text, put, access, run, run-append}
use class_example.Glyph.{
  store8, vga_write_reg, vram, copy_rows, enter_font_load, restore_text, upload_glyph,
}

enter_mode : (k : Card) → is_font_load (run enter_font_load k) ≡ true
unfolding run access enter_font_load vga_write_reg
enter_mode k = refl

enter_font : (k : Card) → (run enter_font_load k).font ≡ k.font
unfolding run access enter_font_load vga_write_reg
enter_font k = refl

enter_cells : (k : Card) → (run enter_font_load k).cells ≡ k.cells
unfolding run access enter_font_load vga_write_reg
enter_cells k = refl

restore_mode : (k : Card) → is_text (run restore_text k) ≡ true
unfolding run access restore_text vga_write_reg
restore_mode k = refl

restore_font : (k : Card) → (run restore_text k).font ≡ k.font
unfolding run access restore_text vga_write_reg
restore_font k = refl

restore_cells : (k : Card) → (run restore_text k).cells ≡ k.cells
unfolding run access restore_text vga_write_reg
restore_cells k = refl

module _ (c : ℕ) (bitmap : ℕ → ℕ) where
  abbrev with_row : ℕ → Card → Card
  with_row i k = record k { font = put (vram + c * 32 + i) (bitmap i) k.font }

  next_row :
      (n i : ℕ) (k : Card)
      → is_font_load k ≡ true
      → run (copy_rows (suc n) i c bitmap) k ≡ run (copy_rows n (i + 1) c bitmap) (with_row i k)
  unfolding run copy_rows access
  next_row n i k mode = ap (run (copy_rows n (i + 1) c bitmap)) (stored mode)
    where
      stored :
          is_font_load k ≡ true → access (store8 (vram + c * 32 + i) (bitmap i)) k ≡ with_row i k
      stored mode = rw (access, mode) refl

  abbrev pub drawn : (n i : ℕ) → (ℕ → ℕ) → ℕ → ℕ
  drawn n i f x =
      if leb (vram + c * 32 + i) x && ltb x (vram + c * 32 + i + n)
      then bitmap (x - (vram + c * 32))
      else f x

  drawn_next :
      (n i x : ℕ) (f : ℕ → ℕ)
      → drawn n (i + 1) (put (vram + c * 32 + i) (bitmap i) f) x ≡ drawn (suc n) i f x
  drawn_next n i x f = ground arith

  copied_font :
      (n i : ℕ) (k : Card) (x : ℕ)
      → is_font_load k ≡ true
      → (run (copy_rows n i c bitmap) k).font x ≡ drawn n i k.font x
  unfolding run copy_rows
  copied_font zero i k x mode = ground arith
  copied_font (suc n) i k x mode =
      ap (λ y. y.font x) (next_row n i k mode)
      ∙ copied_font n (i + 1) (with_row i k) x mode
      ∙ drawn_next n i x k.font

  copied_cells :
      (n i : ℕ) (k : Card)
      → is_font_load k ≡ true
      → (run (copy_rows n i c bitmap) k).cells ≡ k.cells
  unfolding run copy_rows
  copied_cells zero i k mode = refl
  copied_cells (suc n) i k mode =
      ap (λ y. y.cells) (next_row n i k mode) ∙ copied_cells n (i + 1) (with_row i k) mode

-- The card after the upload of a glyph: its rows are in the font, and the card is in text mode.
pub record Uploaded (c : ℕ) (bitmap : ℕ → ℕ) (k k' : Card) : Type 0 where
  pub font : (x : ℕ) → k'.font x ≡ drawn c bitmap 16 0 k.font x
  pub cells : k'.cells ≡ k.cells
  pub text : is_text k' ≡ true

pub upload_glyph-Uploaded :
    (c : ℕ) (bitmap : ℕ → ℕ) (k : Card) → Uploaded c bitmap k (run (upload_glyph c bitmap) k)
unfolding upload_glyph
upload_glyph-Uploaded c bitmap k =
    let k1 = run enter_font_load k in
    let k2 = run (copy_rows 16 0 c bitmap) k1 in
    let parts =
      run-append enter_font_load (copy_rows 16 0 c bitmap ++ restore_text) k
      ∙ run-append (copy_rows 16 0 c bitmap) restore_text k1 in
    subst (Uploaded c bitmap k) (sym parts) (record {
      font = λ x.
          ap (λ f. f x) (restore_font k2)
          ∙ copied_font c bitmap 16 0 k1 x (enter_mode k)
          ∙ ap (λ f. drawn c bitmap 16 0 f x) (enter_font k);
      cells = restore_cells k2 ∙ copied_cells c bitmap 16 0 k1 (enter_mode k) ∙ enter_cells k;
      text = restore_mode k2;
    })
