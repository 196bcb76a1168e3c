-- ===== src/Glyph/Card.antt =====
-- What a VGA card makes of the accesses of 0.VGA_Advanced/src/main.c.
use class_example.Prelude.{
  ℕ, ◌+◌, ◌≡◌, refl, Bool, ◌&&◌, ◌||◌, List, [], ◌∷◌, ◌++◌, if◌then◌else◌, ◌==◌,
}
use class_example.Glyph.{Access, outportb, store8, store16, vga_seq_index, vga_gc_index}

-- A card, as the comments of main.c and the manuals describe it: the registers behind the two pairs of ports, the
-- font by the address of its bytes in font load mode, and the cells of the screen by their address.
pub record Card : Type 0 where
  pub selected : ℕ → ℕ
  pub regs : ℕ → ℕ → ℕ
  pub font : ℕ → ℕ
  pub cells : ℕ → ℕ

-- The two modes that the comments of main.c name, each by all five registers that it sets: which planes are written
-- and read, odd/even addressing in the sequencer and in the controller, and where memory starts. Stores reach the
-- font in font load mode, and the cells in text mode.
abbrev pub is_font_load : Card → Bool
is_font_load k =
    k.regs vga_seq_index 2 == 4
    && k.regs vga_seq_index 4 == 7
    && k.regs vga_gc_index 4 == 2
    && k.regs vga_gc_index 5 == 0
    && k.regs vga_gc_index 6 == 0

abbrev pub is_text : Card → Bool
is_text k =
    k.regs vga_seq_index 2 == 3
    && k.regs vga_seq_index 4 == 3
    && k.regs vga_gc_index 4 == 0
    && k.regs vga_gc_index 5 == 0x10
    && k.regs vga_gc_index 6 == 0x0E

abbrev pub put : ℕ → ℕ → (ℕ → ℕ) → ℕ → ℕ
put a v f x = if x == a then v else f x

abbrev set_reg : (port val : ℕ) → Card → Card
set_reg port val k = record k {
  regs = λ p. λ r. if p == port && r == k.selected port then val else k.regs p r;
}

unfoldable pub access : Access → Card → Card
access (outportb port val) k =
    if port == vga_seq_index || port == vga_gc_index
    then record k { selected = put port val k.selected }
    else if port == vga_seq_index + 1
    then set_reg vga_seq_index val k
    else if port == vga_gc_index + 1
    then set_reg vga_gc_index val k
    else k
access (store8 a v) k = if is_font_load k then record k { font = put a v k.font } else k
access (store16 a v) k = if is_text k then record k { cells = put a v k.cells } else k

unfoldable pub run : List Access → Card → Card
run [] k = k
run (x ∷ xs) k = run xs (access x k)

pub run-append : (xs ys : List Access) (k : Card) → run (xs ++ ys) k ≡ run ys (run xs k)
unfolding run
run-append [] ys k = refl
run-append (x ∷ xs) ys k = run-append xs ys (access x k)
