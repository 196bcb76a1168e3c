-- ===== src/Prelude/Ints.antt =====
-- A C `int` or `unsigned` is its 32-bit pattern.
use Prim.Native.Nat.{ℕ, ◌+◌, ◌-◌, ◌%◌, ◌^◌}
use mathlib.Core.Bool.{Bool, true, false, ◌&&◌}
use class_example.Prelude.Tests.{ltb}

-- `x > 0` of an `int`
abbrev pub is_positive : ℕ → Bool
is_positive x = ltb 0 x && ltb x (2 ^ 31)

-- `x + 1` and `x - 1`, with the wrap of the machine.
abbrev pub increment : ℕ → ℕ
increment x = (x + 1) % 2 ^ 32

abbrev pub decrement : ℕ → ℕ
decrement x = (x + (2 ^ 32 - 1)) % 2 ^ 32

-- `-1`
abbrev pub minus_one : ℕ
minus_one = 2 ^ 32 - 1

abbrev pub min : ℕ → ℕ → ℕ
min a b = elim (ltb a b) [ true ↦ a | false ↦ b ]
