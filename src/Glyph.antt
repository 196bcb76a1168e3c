-- ===== src/Glyph.antt =====
-- 0.VGA_Advanced/src/main.c: the upload of glyphs into the font of a VGA card. A run is the list of what goes to
-- the card, in order: bytes to ports, bytes and words to memory.
pub mod Card
pub mod Upload
pub mod Shown
mod Examples
use class_example.Prelude.{ℕ, zero, suc, ◌+◌, ◌*◌, List, [], ◌∷◌, ◌++◌}

pub data Access : Type 0 where
  outportb : (port val : ℕ) → Access
  store8 : (address val : ℕ) → Access
  store16 : (address val : ℕ) → Access

abbrev pub vga_seq_index : ℕ
vga_seq_index = 0x3C4

abbrev pub vga_gc_index : ℕ
vga_gc_index = 0x3CE

unfoldable pub vga_write_reg : (port_idx reg val : ℕ) → List Access
vga_write_reg port_idx reg val = outportb port_idx reg ∷ outportb (port_idx + 1) val ∷ []

-- `vram`, and the cells of the screen.
abbrev pub vram : ℕ
vram = 0xA0000

abbrev pub vga_base : ℕ
vga_base = 0xB8000

-- The loop, for `n` more rows from row `i` on.
unfoldable pub copy_rows : (n i ascii_idx : ℕ) (bitmap : ℕ → ℕ) → List Access
copy_rows zero i ascii_idx bitmap = []
copy_rows (suc n) i ascii_idx bitmap =
    store8 (vram + ascii_idx * 32 + i) (bitmap i) ∷ copy_rows n (i + 1) ascii_idx bitmap

unfoldable pub enter_font_load : List Access
enter_font_load =
    vga_write_reg vga_seq_index 2 4
    ++ (vga_write_reg vga_seq_index 4 7
        ++ (vga_write_reg vga_gc_index 4 2
            ++ (vga_write_reg vga_gc_index 5 0 ++ vga_write_reg vga_gc_index 6 0)))

unfoldable pub restore_text : List Access
restore_text =
    vga_write_reg vga_seq_index 2 3
    ++ (vga_write_reg vga_seq_index 4 3
        ++ (vga_write_reg vga_gc_index 4 0
            ++ (vga_write_reg vga_gc_index 5 0x10 ++ vga_write_reg vga_gc_index 6 0x0E)))

unfoldable pub upload_glyph : (ascii_idx : ℕ) (bitmap : ℕ → ℕ) → List Access
upload_glyph ascii_idx bitmap = enter_font_load ++ (copy_rows 16 0 ascii_idx bitmap ++ restore_text)

-- A bitmap as an array. Only its 16 rows are read.
unfoldable pub rows : List ℕ → ℕ → ℕ
rows [] i = 0
rows (r ∷ rs) zero = r
rows (r ∷ rs) (suc i) = rows rs i

abbrev pub omega_glyph : List ℕ
omega_glyph =
    0 ∷ 0 ∷ 0x3C ∷ 0x42 ∷ 0x42 ∷ 0x42 ∷ 0x42 ∷ 0x42 ∷ 0x42 ∷ 0x42 ∷ 0x24 ∷ 0x24 ∷ 0x24 ∷ 0x66 ∷ 0xFF
    ∷ 0 ∷ []

abbrev pub katakana_a : List ℕ
katakana_a =
    0 ∷ 0 ∷ 0x7F ∷ 0x82 ∷ 4 ∷ 8 ∷ 0x10 ∷ 0x10 ∷ 0x10 ∷ 0x10 ∷ 0x10 ∷ 0x10 ∷ 0x10 ∷ 0x10 ∷ 0 ∷ 0 ∷ []

abbrev pub katakana_he : List ℕ
katakana_he = 0 ∷ 0 ∷ 8 ∷ 0x1C ∷ 0x36 ∷ 0x63 ∷ 0x41 ∷ 0 ∷ 0 ∷ 0 ∷ 0 ∷ 0 ∷ 0 ∷ 0 ∷ 0 ∷ 0 ∷ []

-- A word of `vga_base`.
abbrev pub cell : ℕ → ℕ
cell i = vga_base + 2 * i

abbrev pub show_omega : List Access
show_omega = store16 (cell 0) (0x0700 + b'A') ∷ store16 (cell 2) (0x0700 + b'A') ∷ []

abbrev pub show_katakana : List Access
show_katakana =
    store16 (cell 80) (0xB400 + b'B')
    ∷ store16 (cell 82) (0xB400 + b'B')
    ∷ store16 (cell 160) (0xB400 + b'C')
    ∷ store16 (cell 162) (0xB400 + b'C')
    ∷ []

unfoldable pub show_glyphs : List Access
show_glyphs =
    upload_glyph b'A' (rows omega_glyph)
    ++ (show_omega
        ++ (upload_glyph b'B' (rows katakana_a)
            ++ (upload_glyph b'C' (rows katakana_he) ++ show_katakana)))
