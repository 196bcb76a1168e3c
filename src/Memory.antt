-- ===== src/Memory.antt =====
-- Byte-addressed memory, in the kernels and in a block of the disk: 16-bit and 32-bit words in little-endian
-- order, `memset` and `memcpy`.
pub mod Words
use class_example.Prelude.{
  ℕ, ◌+◌, ◌-◌, ◌*◌, ◌/◌, ◌%◌, ◌^◌, ◌≤◌, ◌<◌, ◌≡◌, ◌⊎◌, ap, true, ◌&&◌, arith, ltb, leb,
  if◌then◌else◌, ◌==◌,
}

abbrev pub Memory : Type 0
Memory = ℕ → ℕ

unfoldable pub load32 : Memory → ℕ → ℕ
load32 mem a = mem a + 256 * mem (a + 1) + 65536 * mem (a + 2) + 16777216 * mem (a + 3)

unfoldable pub store32 : Memory → ℕ → ℕ → Memory
store32 mem a v b =
    if b == a
    then v % 256
    else if b == a + 1
    then v / 256 % 256
    else if b == a + 2
    then v / 65536 % 256
    else if b == a + 3
    then v / 16777216 % 256
    else mem b

unfoldable pub memset : Memory → (start byte size : ℕ) → Memory
memset mem start byte size a = if leb start a && ltb a (start + size) then byte % 256 else mem a

-- Source and target do not overlap.
unfoldable pub memcpy : Memory → (target source size : ℕ) → Memory
memcpy mem target source size a =
    if leb target a && ltb a (target + size) then mem (source + (a - target)) else mem a

pub load-store_self : (mem : Memory) (a v : ℕ) → v < 2 ^ 32 → load32 (store32 mem a v) a ≡ v
unfolding load32 store32
load-store_self mem a v h = ground arith

pub load-store_ne :
    (mem : Memory) (a b v : ℕ)
    → (a + 4 ≤ b) ⊎ (b + 4 ≤ a)
    → load32 (store32 mem a v) b ≡ load32 mem b
unfolding load32 store32
load-store_ne mem a b v h = ground arith

pub load-memset_in :
    (mem : Memory) (start size b : ℕ)
    → start ≤ b
    → b + 4 ≤ start + size
    → load32 (memset mem start 0 size) b ≡ 0
unfolding load32 memset
load-memset_in mem start size b h k = ground arith

pub load-memset_out :
    (mem : Memory) (start byte size b : ℕ)
    → (b + 4 ≤ start) ⊎ (start + size ≤ b)
    → load32 (memset mem start byte size) b ≡ load32 mem b
unfolding load32 memset
load-memset_out mem start byte size b h = ground arith

pub load-memcpy_out :
    (mem : Memory) (target source size b : ℕ)
    → (b + 4 ≤ target) ⊎ (target + size ≤ b)
    → load32 (memcpy mem target source size) b ≡ load32 mem b
unfolding load32 memcpy
load-memcpy_out mem target source size b h = ground arith

pub memset_in :
    (mem : Memory) (start byte size a : ℕ)
    → start ≤ a
    → a < start + size
    → memset mem start byte size a ≡ byte % 256
unfolding memset
memset_in mem start byte size a h k = ground arith

pub memset_out :
    (mem : Memory) (start byte size a : ℕ)
    → (a < start) ⊎ (start + size ≤ a)
    → memset mem start byte size a ≡ mem a
unfolding memset
memset_out mem start byte size a h = ground arith

pub memcpy_in :
    (mem : Memory) (target source size i : ℕ)
    → i < size
    → memcpy mem target source size (target + i) ≡ mem (source + i)
unfolding memcpy
memcpy_in mem target source size i h =
    let inside : (leb target (target + i) && ltb (target + i) (target + size)) ≡ true =
      ground (arith, h) in
    rw inside (ap (λ k. mem (source + k)) (omega arith))

pub memcpy_out :
    (mem : Memory) (target source size a : ℕ)
    → (a < target) ⊎ (target + size ≤ a)
    → memcpy mem target source size a ≡ mem a
unfolding memcpy
memcpy_out mem target source size a h = ground arith
