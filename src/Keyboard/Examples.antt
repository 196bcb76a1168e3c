-- ===== src/Keyboard/Examples.antt =====
-- Concrete runs of the keyboard drivers.
use class_example.Prelude.{ℕ, ◌≡◌, false, true, All, refl, inl, inr, some, [], ◌∷◌, arith}
use class_example.Prelude.Returns.{Returns}
use class_example.Keyboard.{poll, interrupts}
use class_example.Keyboard.Streams.{IsCell, poll-interrupts, poll-Returns}

-- Press and release of "a", and an arrow: the release shows the letter again.
a_and_up :
    poll false ((1, 0x1E) ∷ (1, 0x9E) ∷ (1, 0xE0) ∷ (0, 0xE0) ∷ (1, 0x48) ∷ [])
    ≡ some ((0x071E, 0x0761) ∷ (0x071E, 0x0761) ∷ (0x0748, 0x07E2) ∷ [])
unfolding poll class_example.Keyboard.translate
a_and_up = refl

-- When the second read of the handler comes too early, it shows the prefix, and the key as a plain one behind it.
too_early :
    interrupts ((0xE0, 0xE0) ∷ (0x48, 0) ∷ []) ≡ some ((0x0760, 0x0700) ∷ (0x0748, 0x07E2) ∷ [])
unfolding interrupts class_example.Keyboard.keyboard_interrupt_handler
    class_example.Keyboard.translate
too_early = refl

poll-interrupts_example :
    poll false ((0, 0) ∷ (1, 0x1E) ∷ (1, 0xE0) ∷ (0, 0xE0) ∷ (1, 0x48) ∷ [])
    ≡ interrupts ((0x1E, 0x1E) ∷ (0xE0, 0x48) ∷ [])
poll-interrupts_example =
    poll-interrupts ((0, 0) ∷ (1, 0x1E) ∷ (1, 0xE0) ∷ (0, 0xE0) ∷ (1, 0x48) ∷ [])
      ((0x1E, 0x1E) ∷ (0xE0, 0x48) ∷ []) (inl (omega arith), (inr (omega arith), tt)) refl

-- A prefix alone, and a code behind the first table.
poll-Returns_example :
    Returns
      (All (λ (x : ℕ × ℕ). IsCell x.0 × IsCell x.1))
      (poll true ((1, 0xE0) ∷ (0, 0) ∷ (1, 0x7F) ∷ []))
poll-Returns_example = poll-Returns true ((1, 0xE0) ∷ (0, 0) ∷ (1, 0x7F) ∷ [])
