-- ===== src/Keyboard/Streams.antt =====
-- What the keyboard drivers show for a stream of bytes.
use class_example.Prelude.{
  ℕ, ◌%◌, ◌≤◌, ◌<◌, ◌≡◌, ◌≢◌, ◌⊎◌, inl, inr, refl, ap, ◌∙◌, Bool, true, false, Option, some, List,
  [], ◌∷◌, ◌>>=◌, arith, if◌then◌else◌, ◌==◌, ltb, ltb→lt, length, All, get_elem?, get_elem?-lt,
  All-get_elem?, Bool-cases,
}
use class_example.Prelude.Returns.{Returns, returns, Returns-bind}
use class_example.Keyboard.{
  keyboard_map_primary, keyboard_map_ext, escape_code, translate, show_key, poll,
  keyboard_interrupt_handler, interrupts,
}

-- The bytes that the polling loop takes from the port.
abbrev pub ready : List (ℕ × ℕ) → List ℕ
ready [] = []
ready ((stat, b) ∷ reads) = if stat % 2 == 0 then ready reads else b ∷ ready reads

-- The bytes that the interrupts take from the port: a second one behind a prefix.
abbrev pub taken : List (ℕ × ℕ) → List ℕ
taken [] = []
taken ((b, again) ∷ others) =
    if b == escape_code then b ∷ again ∷ taken others else b ∷ taken others

-- The second read of an interrupt does not give the prefix.
abbrev pub IsAnswered : ℕ × ℕ → Type 0
IsAnswered (b, again) = (b ≢ escape_code) ⊎ (again ≢ escape_code)

-- A key, and the keys behind it.
abbrev before : (ext : Bool) (b : ℕ) → Option (List (ℕ × ℕ)) → Option (List (ℕ × ℕ))
before ext b keys = do cells ← show_key ext b; rest ← keys; some (cells ∷ rest)

-- What the polling loop shows, without its waiting.
unfoldable shown : (ext : Bool) → List ℕ → Option (List (ℕ × ℕ))
shown ext [] = some []
shown ext (b ∷ bs) = elim (b == escape_code) [
  | true ↦ shown true bs
  | false ↦ before ext b (shown false bs)
]

poll-shown : (ext : Bool) (reads : List (ℕ × ℕ)) → poll ext reads ≡ shown ext (ready reads)
unfolding poll shown
poll-shown ext [] = refl
poll-shown ext ((stat, b) ∷ reads) = elim (Bool-cases (stat % 2 == 0)) [
  | inl waits ↦ rw (poll, waits) (poll-shown ext reads)
  | inr there ↦ elim (Bool-cases (b == escape_code)) [
    | inl is ↦ rw (poll, there, shown, is) (poll-shown true reads)
    | inr ne ↦ rw (poll, there, shown, ne) (ap (before ext b) (poll-shown false reads))
  ]
]

shown_prefix :
    (ext : Bool) (b : ℕ) (bs : List ℕ)
    → (b == escape_code) ≡ true
    → shown ext (b ∷ bs) ≡ shown true bs
unfolding shown
shown_prefix ext b bs is = rw (shown, is) refl

shown_key :
    (ext : Bool) (b : ℕ) (bs : List ℕ)
    → (b == escape_code) ≡ false
    → shown ext (b ∷ bs) ≡ before ext b (shown false bs)
unfolding shown
shown_key ext b bs ne = rw (shown, ne) refl

shown-interrupts : (is : List (ℕ × ℕ)) → All IsAnswered is → shown false (taken is) ≡ interrupts is
unfolding shown interrupts keyboard_interrupt_handler
shown-interrupts [] v = refl
shown-interrupts ((b, again) ∷ others) (answered, v) = elim (Bool-cases (b == escape_code)) [
  | inr ne ↦
      rw ne (shown_key false b (taken others) ne ∙ ap (before false b) (shown-interrupts others v))
  | inl is ↦
      let ne : (again == escape_code) ≡ false = ground (arith, is, answered) in
      rw is (
        shown_prefix false b (again ∷ taken others) is
        ∙ shown_key true again (taken others) ne
        ∙ ap (before true again) (shown-interrupts others v))
]

-- When the polling loop and the interrupts take the same bytes from the port, however long the loop waits between
-- them, and no second read of an interrupt gives the prefix, they show the same cells in the same order.
pub poll-interrupts :
    (reads is : List (ℕ × ℕ))
    → All IsAnswered is
    → ready reads ≡ taken is
    → poll false reads ≡ interrupts is
poll-interrupts reads is v same =
    poll-shown false reads ∙ ap (shown false) same ∙ shown-interrupts is v

-- A cell of the screen: white on black, and a character.
abbrev pub IsCell : ℕ → Type 0
IsCell x = (0x0700 ≤ x) × (x < 0x0800)

bytes_primary : All (λ t. t < 256) keyboard_map_primary
bytes_primary = omega arith

bytes_ext : All (λ t. t < 256) keyboard_map_ext
bytes_ext = omega arith

entry_below :
    (table : List ℕ) (c : ℕ)
    → All (λ t. t < 256) table
    → c < length table
    → Returns (λ t. t < 256) (get_elem? table c)
entry_below table c small lt =
    let (t, at) = get_elem?-lt table c lt in
    rw at (returns (All-get_elem? (λ t. t < 256) table c small at))

translate-Returns : (ext : Bool) (c : ℕ) → c < 128 → Returns (λ t. t < 256) (translate ext c)
unfolding translate
translate-Returns true c lt = entry_below keyboard_map_ext c bytes_ext lt
translate-Returns false c lt = elim (Bool-cases (ltb c (length keyboard_map_primary))) [
  | inl inside ↦ rw inside (entry_below keyboard_map_primary c bytes_primary (ltb→lt c 84 inside))
  | inr outside ↦ rw outside (returns (omega arith))
]

show_key-Returns : (ext : Bool) (b : ℕ) → Returns (λ (x, y). IsCell x × IsCell y) (show_key ext b)
show_key-Returns ext b =
    Returns-bind (translate-Returns ext (b % 128) (omega arith))
      (λ token lt. returns ((omega arith, omega arith), (omega arith, omega (arith, lt))))

-- Whatever the reads of the ports give, no read leaves a table, and each word that goes to the screen is a character
-- in white on black.
pub poll-Returns :
    (ext : Bool) (reads : List (ℕ × ℕ))
    → Returns (All (λ (x : ℕ × ℕ). IsCell x.0 × IsCell x.1)) (poll ext reads)
unfolding poll
poll-Returns ext [] = returns tt
poll-Returns ext ((stat, b) ∷ reads) = elim (Bool-cases (stat % 2 == 0)) [
  | inl waits ↦ rw (poll, waits) (poll-Returns ext reads)
  | inr there ↦ elim (Bool-cases (b == escape_code)) [
    | inl is ↦ rw (poll, there, is) (poll-Returns true reads)
    | inr ne ↦
        rw (poll, there, ne)
          (Returns-bind (show_key-Returns ext b)
            (λ cells h. Returns-bind (poll-Returns false reads) (λ rest t. returns (h, t))))
  ]
]
