-- ===== src/Glyph/Examples.antt =====
-- A card that was never set up, with 0 everywhere.
use class_example.Glyph.{show_glyphs}
use class_example.Glyph.Card.{Card, run}
use class_example.Glyph.Shown.{Shown, show_glyphs-Shown}

abbrev blank_card : Card
blank_card = record { selected = λ p. 0; regs = λ p. λ r. 0; font = λ x. 0; cells = λ x. 0 }

show_glyphs-Shown_example : Shown blank_card (run show_glyphs blank_card)
show_glyphs-Shown_example = show_glyphs-Shown blank_card
