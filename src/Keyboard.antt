-- ===== src/Keyboard.antt =====
-- The two keyboard drivers: the loop of 2.Keyboard_Polling/src/main.c and the handler of
-- 2.Keyboard_Interrupt/src/keyboard.c, with the tables of their keyboard.h. What the reads of the ports 0x64 and 0x60
-- give is a list; the result is what goes to the first two cells of the screen, the scan code and the token. A read
-- behind a table gives `none`. Text on the console and the command that ends the interrupt are left out.
pub mod Streams
mod Examples
use class_example.Prelude.{
  ℕ, zero, suc, ◌+◌, ◌%◌, ◌^◌, Bool, true, false, Option, none, some, List, [], ◌∷◌, ◌++◌, ◌>>=◌,
  if◌then◌else◌, ◌==◌, ltb, length, replicate, set, get_elem?,
}

-- `KEY_NULL` and the keys of the tables that have no character.
abbrev pub key_null : ℕ
key_null = 0

abbrev pub key_escape : ℕ
key_escape = 0x1B

abbrev pub key_up : ℕ
key_up = 0xE2

abbrev pub key_down : ℕ
key_down = 0xE3

abbrev pub key_left : ℕ
key_left = 0xE4

abbrev pub key_right : ℕ
key_right = 0xE5

abbrev pub key_insert : ℕ
key_insert = 0xE8

abbrev pub key_delete : ℕ
key_delete = 0xE9

-- `KEY_F1`; the others follow it.
abbrev pub key_f1 : ℕ
key_f1 = 0xF1

abbrev letters : List ℕ
letters =
    b'q' ∷ b'w' ∷ b'e' ∷ b'r' ∷ b't' ∷ b'y' ∷ b'u' ∷ b'i' ∷ b'o' ∷ b'p' ∷ b'[' ∷ b']' ∷ 10
    ∷ key_null ∷ b'a' ∷ b's' ∷ b'd' ∷ b'f' ∷ b'g' ∷ b'h' ∷ b'j' ∷ b'k' ∷ b'l' ∷ b';' ∷ 39 ∷ 96
    ∷ key_null ∷ 92 ∷ b'z' ∷ b'x' ∷ b'c' ∷ b'v' ∷ b'b' ∷ b'n' ∷ b'm' ∷ b',' ∷ b'.' ∷ b'/' ∷ []

abbrev function_keys : List ℕ
function_keys =
    key_f1
    ∷ (key_f1 + 1)
    ∷ (key_f1 + 2)
    ∷ (key_f1 + 3)
    ∷ (key_f1 + 4)
    ∷ (key_f1 + 5)
    ∷ (key_f1 + 6)
    ∷ (key_f1 + 7)
    ∷ (key_f1 + 8)
    ∷ (key_f1 + 9)
    ∷ []

abbrev numpad : List ℕ
numpad =
    b'7' ∷ key_up ∷ b'9' ∷ b'-' ∷ key_left ∷ b'5' ∷ key_right ∷ b'+' ∷ b'1' ∷ key_down ∷ b'3'
    ∷ key_insert ∷ key_delete ∷ []

abbrev pub keyboard_map_primary : List ℕ
keyboard_map_primary =
    key_null
    ∷ key_escape
    ∷ b'1'
    ∷ b'2'
    ∷ b'3'
    ∷ b'4'
    ∷ b'5'
    ∷ b'6'
    ∷ b'7'
    ∷ b'8'
    ∷ b'9'
    ∷ b'0'
    ∷ b'-'
    ∷ b'='
    ∷ 8
    ∷ 9
    ∷ (letters
        ++ (key_null
            ∷ key_null
            ∷ key_null
            ∷ b' '
            ∷ key_null
            ∷ (function_keys ++ (key_null ∷ key_null ∷ numpad))))

abbrev pub keyboard_map_ext : List ℕ
keyboard_map_ext =
    let m1 = set (replicate 128 key_null) 0x48 key_up in
    let m2 = set m1 0x50 key_down in
    let m3 = set m2 0x4B key_left in
    let m4 = set m3 0x4D key_right in let m5 = set m4 0x52 key_insert in set m5 0x53 key_delete

-- The prefix of an escaped code.
abbrev pub escape_code : ℕ
escape_code = 0xE0

-- `token`, from `c` and `ext`.
unfoldable pub translate : (ext : Bool) (c : ℕ) → Option ℕ
translate true c = get_elem? keyboard_map_ext c
translate false c =
    if ltb c (length keyboard_map_primary) then get_elem? keyboard_map_primary c else some key_null

-- The words that are written to 0xB8000 and 0xB8002.
abbrev pub show_key : (ext : Bool) (b : ℕ) → Option (ℕ × ℕ)
show_key ext b = do token ← translate ext (b % 128); some (0x0700 + b % 128, 0x0700 + token)

-- The loop of the polling driver, over its reads of the status port and what the data port holds then; it waits while
-- the lowest bit of the status is 0. `ext` is set behind a prefix. At the end of the list the run is cut.
unfoldable pub poll : (ext : Bool) → List (ℕ × ℕ) → Option (List (ℕ × ℕ))
poll ext [] = some []
poll ext ((stat, b) ∷ reads) = elim (stat % 2 == 0) [
  | true ↦ poll ext reads
  | false ↦ elim (b == escape_code) [
    | true ↦ poll true reads
    | false ↦ (do cells ← show_key ext b; rest ← poll false reads; some (cells ∷ rest))
  ]
]

-- One interrupt; `again` is what a second read of the port gives, which the handler makes without a look at the
-- status.
unfoldable pub keyboard_interrupt_handler : (b again : ℕ) → Option (ℕ × ℕ)
keyboard_interrupt_handler b again =
    if b == escape_code then show_key true again else show_key false b

-- One interrupt after the other, each with what its reads of the port give.
unfoldable pub interrupts : List (ℕ × ℕ) → Option (List (ℕ × ℕ))
interrupts [] = some []
interrupts ((b, again) ∷ others) = do
  cells ← keyboard_interrupt_handler b again
  rest ← interrupts others
  some (cells ∷ rest)
