-- ===== src/Ide/Fs/Blocks.antt =====
-- The block allocator of A.ide/src/fs.c. Sizes stay below 2 ^ 32 - 4096 blocks, so `b += BPB` does not
-- wrap.
use class_example.Prelude.{
  ℕ, zero, suc, ◌+◌, ◌/◌, ◌%◌, Option, none, some, if◌then◌else◌, ◌==◌, ◌&&◌, ltb,
}
use class_example.Bits.{bit_of, set_bit, clear_bit}
use class_example.Memory.{Memory, load32, memset}
use class_example.Ide.Fs.{Blocks, Superblock, edit, bblock, bpb, bsize}

unfoldable pub readsb : (dev : ℕ) → Blocks → Superblock
readsb dev blocks =
    let bytes = blocks dev 1 in
    record {
      size = load32 bytes 0;
      nblocks = load32 bytes 4;
      ninodes = load32 bytes 8;
      nlog = load32 bytes 12;
    }

unfoldable pub bzero1 : (dev bno : ℕ) → Blocks → Blocks
bzero1 dev bno = edit dev bno (λ bytes. memset bytes 0 0 bsize)

-- `bp->data[bi/8] & m`, 0 or 1, and that byte with the bit set or cleared.
abbrev pub map_bit : Memory → ℕ → ℕ
map_bit bytes bi = bit_of (bytes (bi / 8)) (bi % 8)

abbrev pub mark : ℕ → Memory → Memory
mark bi bytes i = if i == bi / 8 then set_bit (bytes i) (bi % 8) else bytes i

abbrev pub unmark : ℕ → Memory → Memory
unmark bi bytes i = if i == bi / 8 then clear_bit (bytes i) (bi % 8) else bytes i

-- The inner loop of `balloc` from bit `bi` on, `left` rounds: the first free bit.
unfoldable pub free_bit : (left bi b size : ℕ) → Memory → Option ℕ
free_bit zero bi b size bytes = none
free_bit (suc left) bi b size bytes =
    let rest = free_bit left (bi + 1) b size bytes in
    if ltb bi bpb && ltb (b + bi) size
    then if map_bit bytes bi == 0 then some bi else rest
    else none

-- The outer loop, with fuel.
unfoldable pub balloc_loop : (fuel b dev : ℕ) → Superblock → Blocks → ℕ × Blocks
balloc_loop zero b dev sb blocks = (0, blocks)
balloc_loop (suc fuel) b dev sb blocks =
    let rest = balloc_loop fuel (b + bpb) dev sb blocks in
    let map_block = bblock b sb.ninodes in
    if ltb b sb.size
    then elim (free_bit bpb 0 b sb.size (blocks dev map_block)) [
      | none ↦ rest
      | some bi ↦ (b + bi, bzero1 dev (b + bi) (edit dev map_block (mark bi) blocks))
    ]
    else (0, blocks)

-- One round for each block of the bitmap is enough.
unfoldable pub balloc : (dev : ℕ) → Blocks → ℕ × Blocks
balloc dev blocks = let sb = readsb dev blocks in balloc_loop (sb.size / bpb + 1) 0 dev sb blocks

-- A block that is free already is left alone; its buffer is not released then.
unfoldable pub bfree : (dev b : ℕ) → Blocks → Blocks
bfree dev b blocks =
    let map_block = bblock b (readsb dev blocks).ninodes in
    if map_bit (blocks dev map_block) (b % bpb) == 0
    then blocks
    else edit dev map_block (unmark (b % bpb)) blocks
