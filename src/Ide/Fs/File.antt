-- ===== src/Ide/Fs/File.antt =====
-- The content of a file as one row of bytes: what `readi` and `writei` of A.ide/src/fs.c do to it when every
-- block in question has been allocated.
pub mod Write
pub mod Roundtrip
use class_example.Prelude.{
  ℕ, zero, suc, ◌+◌, ◌-◌, ◌*◌, ◌/◌, ◌%◌, ◌^◌, ◌≤◌, ◌<◌, ◌≡◌, ◌≢◌, ◌⊎◌, inl, inr, refl, ap, subst,
  sym, ◌∙◌, true, false, arith, if◌then◌else◌, ◌==◌, ◌&&◌, ltb, leb, ltb→lt, min, get_or,
  Bool-cases,
}
use native.Mathlib.Decide.{ℕ_discrete}
use class_example.Memory.{Memory, load32}
use class_example.Ide.Fs.{Blocks, edit, bsize, ndirect, nindirect, maxfile}
use class_example.Ide.Fs.Inode.{Inode}
use class_example.Ide.Fs.Content.{
  bmap, direct_block, indirect, Io, copy, chunk, read_round, write_round, read_blocks, write_blocks,
}

-- The address of the block of addresses.
abbrev pub table_of : Inode → ℕ
table_of ip = get_or ip.addrs ndirect 0

-- The first `k` blocks of the file are at the addresses `address`, each at its own, none of them in the
-- block of addresses.
pub record IsMapped (ip : Inode) (blocks : Blocks) (address : ℕ → ℕ) (k : ℕ) : Type 0 where
  pub count : k ≤ maxfile
  pub nonzero : (bn : ℕ) → bn < k → address bn ≢ 0
  pub direct : (bn : ℕ) → bn < k → bn < ndirect → get_or ip.addrs bn 0 ≡ address bn
  pub table : ndirect < k → table_of ip ≢ 0
  pub listed :
      (bn : ℕ)
      → bn < k
      → ndirect ≤ bn
      → indirect ip blocks (table_of ip) (bn - ndirect) ≡ address bn
  pub apart : (bn j : ℕ) → bn < k → j < k → bn ≢ j → address bn ≢ address j
  pub off_table : (bn : ℕ) → bn < k → address bn ≢ table_of ip

-- Byte `i` of the file.
abbrev pub content : (dev : ℕ) → Blocks → (ℕ → ℕ) → ℕ → ℕ
content dev blocks address i = blocks dev (address (i / bsize)) (i % bsize)

-- `bmap` of a block that the file has changes nothing.
pub bmap-IsMapped :
    (ip : Inode) (blocks : Blocks) (address : ℕ → ℕ) (k bn : ℕ)
    → IsMapped ip blocks address k
    → bn < k
    → bmap bn ip blocks ≡ (address bn, ip, blocks)
unfolding bmap direct_block
bmap-IsMapped ip blocks address k bn v lt =
    let there : (address bn == 0) ≡ false = ground (arith, v.nonzero bn lt) in
    elim (Bool-cases (ltb bn ndirect)) [
      | inl low ↦ let e = v.direct bn lt (ground (arith, low)) in rw (low, e, there) refl
      | inr high ↦
          let e = v.listed bn lt (ground (arith, high)) in
          let inside : ltb (bn - ndirect) nindirect ≡ true = ground (arith, v.count, high) in
          let has_table : (table_of ip == 0) ≡ false = ground (arith, high, v.table) in
          rw (high, inside, has_table, e, there) refl
    ]

-- The bytes that one round moves lie in one block.
pub chunk_in :
    (tot off n d : ℕ)
    → d < chunk tot off n
    → ((off + d) / bsize ≡ off / bsize) × ((off + d) % bsize ≡ off % bsize + d)
chunk_in tot off n d lt = (ground (arith, lt), ground (arith, lt))

pub chunk_pos : (tot off n : ℕ) → tot < n → 0 < chunk tot off n
chunk_pos tot off n lt = ground (arith, lt)

pub chunk_le : (tot off n : ℕ) → tot < n → tot + chunk tot off n ≤ n
chunk_le tot off n lt = ground (arith, lt)

-- A byte behind a round, seen from the next one.
pub beyond : (a m d : ℕ) → ltb d m ≡ false → a + d ≡ a + m + (d - m)
beyond a m d h = ground (arith, h)

pub not_before : (d m : ℕ) → ltb d m ≡ false → m ≤ d
not_before d m h = ground (arith, h)

-- What a loop of `readi` leaves.
pub record Read (ip : Inode) (blocks : Blocks) (address : ℕ → ℕ) (memory : Memory) (off n dst : ℕ)
    (out : Io) : Type 0 where
  pub inode : out.inode ≡ ip
  pub blocks_kept : out.blocks ≡ blocks
  pub bytes : (d : ℕ) → d < n → out.memory (dst + d) ≡ content ip.dev blocks address (off + d)
  pub others : (a : ℕ) → (a < dst) ⊎ (dst + n ≤ a) → out.memory a ≡ memory a

module _ (ip : Inode) (blocks : Blocks) (address : ℕ → ℕ) (k : ℕ)
    (v : IsMapped ip blocks address k) where
  -- The memory after one round of `readi`.
  abbrev after_round : (tot off n dst : ℕ) → Memory → Memory
  after_round tot off n dst memory =
      copy (blocks ip.dev (address (off / bsize))) (off % bsize) memory dst (chunk tot off n)

  read_step :
      (fuel tot off n dst : ℕ) (memory : Memory)
      → ltb tot n ≡ true
      → off < k * bsize
      → read_blocks
          (suc fuel)
          tot
          off
          n
          dst
          (record { inode = ip; blocks = blocks; memory = memory })
        ≡ read_blocks fuel
            (tot + chunk tot off n)
            (off + chunk tot off n)
            n
            (dst + chunk tot off n)
            (record { inode = ip; blocks = blocks; memory = after_round tot off n dst memory })
  unfolding read_blocks
  read_step fuel tot off n dst memory more room =
      let here = bmap-IsMapped ip blocks address k (off / bsize) v (omega arith) in
      let round : read_round tot off n dst (record { inode = ip; blocks = blocks; memory = memory })
          ≡ record { inode = ip; blocks = blocks; memory = after_round tot off n dst memory } =
        rw here refl in
      rw (read_blocks, more)
        (ap
          (read_blocks fuel (tot + chunk tot off n) (off + chunk tot off n) n
            (dst + chunk tot off n))
          round)

  -- What one round puts into memory is the content; the rest of the rounds leave it.
  round_bytes :
      (tot off n dst d : ℕ) (memory : Memory)
      → d < chunk tot off n
      → after_round tot off n dst memory (dst + d) ≡ content ip.dev blocks address (off + d)
  round_bytes tot off n dst d memory lt =
      let (e1, e2) = chunk_in tot off n d lt in
      let inside : (leb dst (dst + d) && ltb (dst + d) (dst + chunk tot off n)) ≡ true =
        ground (arith, lt) in
      let e3 : dst + d - dst ≡ d = omega arith in rw (inside, e3, e1, e2) refl

  round_others :
      (tot off n dst a : ℕ) (memory : Memory)
      → (a < dst) ⊎ (dst + chunk tot off n ≤ a)
      → after_round tot off n dst memory a ≡ memory a
  round_others tot off n dst a memory away =
      let outside : (leb dst a && ltb a (dst + chunk tot off n)) ≡ false = ground (arith, away) in
      rw outside refl

  pub read_blocks-Read :
      (fuel tot off n dst : ℕ) (memory : Memory)
      → n ≤ tot + fuel
      → tot ≤ n
      → off + (n - tot) ≤ k * bsize
      → Read ip blocks address memory off
          (n - tot)
          dst
          (read_blocks fuel tot off n dst (record { inode = ip; blocks = blocks; memory = memory }))
  unfolding read_blocks
  read_blocks-Read zero tot off n dst memory enough le room = record {
    inode = refl;
    blocks_kept = refl;
    bytes = λ d lt. absurd (omega arith);
    others = λ a off. refl;
  }
  read_blocks-Read (suc fuel) tot off n dst memory enough le room = elim (Bool-cases (ltb tot n)) [
    | inr done ↦
        rw (read_blocks, done)
          (record {
            inode = refl;
            blocks_kept = refl;
            bytes = λ d lt. absurd (ground (arith, done, lt));
            others = λ a off. refl;
          })
    | inl more ↦
        let lt : tot < n = ground (arith, more) in
        let m = chunk tot off n in
        let m_pos : 0 < m = chunk_pos tot off n lt in
        let m_le : tot + m ≤ n = chunk_le tot off n lt in
        let memory1 = after_round tot off n dst memory in
        let t =
          read_blocks-Read fuel (tot + m) (off + m) n (dst + m) memory1 (omega (arith, m_pos)) m_le
            (omega (arith, m_le)) in
        rw (read_step fuel tot off n dst memory more (omega arith)) (record {
          inode = t.inode;
          blocks_kept = t.blocks_kept;
          bytes = λ d d_lt. elim (Bool-cases (ltb d m)) [
            | inl now ↦
                let now' : d < m = ltb→lt d m now in
                t.others (dst + d) (inl (omega (arith, now')))
                ∙ round_bytes tot off n dst d memory now'
            | inr after ↦
                ap
                  (read_blocks fuel (tot + m) (off + m) n (dst + m)
                    (record { inode = ip; blocks = blocks; memory = memory1 })).memory
                  (beyond dst m d after)
                ∙ t.bytes (d - m) (omega (arith, m_le, not_before d m after))
                ∙ ap (content ip.dev blocks address) (sym (beyond off m d after))
          ];
          others = λ a a_off.
              t.others a (ground (arith, a_off, m_le))
              ∙ round_others tot off n dst a memory (ground (arith, a_off, m_le));
        })
  ]
