-- ===== src/Ide/Fs/File/Write.antt =====
-- The loop of `writei` on the content of a file.
use class_example.Prelude.{
  ℕ, zero, suc, ◌+◌, ◌-◌, ◌*◌, ◌/◌, ◌%◌, ◌≤◌, ◌<◌, ◌≡◌, ◌≢◌, ◌⊎◌, inl, inr, refl, ap, sym, ◌∙◌,
  true, false, arith, ◌==◌, ◌&&◌, ltb, leb, ltb→lt, Bool-cases,
}
use native.Mathlib.Decide.{ℕ_discrete}
use class_example.Memory.{Memory, load32}
use class_example.Ide.Fs.{Blocks, edit, bsize, ndirect}
use class_example.Ide.Fs.Inode.{Inode}
use class_example.Ide.Fs.Content.{Io, copy, chunk, write_round, write_blocks}
use class_example.Ide.Fs.File.{
  table_of, IsMapped, content, bmap-IsMapped, chunk_in, chunk_pos, chunk_le, beyond, not_before,
}

-- What a loop of `writei` leaves.
pub record Written (ip : Inode) (blocks : Blocks) (address : ℕ → ℕ) (k : ℕ) (memory : Memory)
    (off n src : ℕ) (out : Io) : Type 0 where
  pub inode : out.inode ≡ ip
  pub memory_kept : out.memory ≡ memory
  pub mapped : IsMapped ip out.blocks address k
  pub bytes : (d : ℕ) → d < n → content ip.dev out.blocks address (off + d) ≡ memory (src + d)
  pub others :
      (i : ℕ)
      → i < k * bsize
      → (i < off) ⊎ (off + n ≤ i)
      → content ip.dev out.blocks address i ≡ content ip.dev blocks address i

module _ (ip : Inode) (address : ℕ → ℕ) (k : ℕ) (memory : Memory) where
  -- The blocks after one round.
  abbrev after_round : (tot off n src : ℕ) → Blocks → Blocks
  after_round tot off n src =
      edit ip.dev (address (off / bsize))
        (λ bytes. copy memory src bytes (off % bsize) (chunk tot off n))

  abbrev start : Blocks → Io
  start blocks = record { inode = ip; blocks = blocks; memory = memory }

  module _ (blocks : Blocks) (v : IsMapped ip blocks address k) where
    write_step :
        (fuel tot off n src : ℕ)
        → ltb tot n ≡ true
        → off < k * bsize
        → write_blocks (suc fuel) tot off n src (start blocks)
          ≡ write_blocks fuel
              (tot + chunk tot off n)
              (off + chunk tot off n)
              n
              (src + chunk tot off n)
              (start (after_round tot off n src blocks))
    unfolding write_blocks
    write_step fuel tot off n src more room =
        let here = bmap-IsMapped ip blocks address k (off / bsize) v (omega arith) in
        let round : write_round tot off n src (start blocks)
            ≡ start (after_round tot off n src blocks) =
          rw here refl in
        rw (write_blocks, more)
          (ap
            (write_blocks fuel (tot + chunk tot off n) (off + chunk tot off n) n
              (src + chunk tot off n))
            round)

    -- One round changes one block of the file.
    same_block :
        (tot off n src b : ℕ)
        → b ≢ address (off / bsize)
        → after_round tot off n src blocks ip.dev b ≡ blocks ip.dev b
    same_block tot off n src b ne =
        let e1 : (ip.dev == ip.dev) ≡ true = ground arith in
        let e2 : (b == address (off / bsize)) ≡ false = ground (arith, ne) in rw (e1, e2) refl

    own_block :
        (tot off n src : ℕ)
        → after_round tot off n src blocks ip.dev (address (off / bsize))
          ≡ copy memory src (blocks ip.dev (address (off / bsize))) (off % bsize) (chunk tot off n)
    own_block tot off n src =
        let e1 : (ip.dev == ip.dev) ≡ true = ground arith in
        let e2 : (address (off / bsize) == address (off / bsize)) ≡ true = ground arith in
        rw (e1, e2) refl

    round-IsMapped :
        (tot off n src : ℕ)
        → off < k * bsize
        → IsMapped ip (after_round tot off n src blocks) address k
    round-IsMapped tot off n src room =
        let table_kept =
          same_block tot off n src (table_of ip)
            (λ e. v.off_table (off / bsize) (omega arith) (sym e)) in
        record {
          count = v.count;
          nonzero = v.nonzero;
          direct = v.direct;
          table = v.table;
          listed = λ bn lt high.
              ap (λ (f : Memory). load32 f (4 * (bn - ndirect))) table_kept ∙ v.listed bn lt high;
          apart = v.apart;
          off_table = v.off_table;
        }

    round_bytes :
        (tot off n src d : ℕ)
        → d < chunk tot off n
        → content ip.dev (after_round tot off n src blocks) address (off + d) ≡ memory (src + d)
    round_bytes tot off n src d lt =
        let (e1, e2) = chunk_in tot off n d lt in
        let own = own_block tot off n src in
        let inside : (leb (off % bsize) (off % bsize + d)
              && ltb (off % bsize + d) (off % bsize + chunk tot off n))
            ≡ true =
          ground (arith, lt) in
        let e3 : off % bsize + d - off % bsize ≡ d = omega arith in
        rw (e1, e2, own, inside, e3) refl

    round_others :
        (tot off n src i : ℕ)
        → i < k * bsize
        → off < k * bsize
        → (i < off) ⊎ (off + chunk tot off n ≤ i)
        → content ip.dev (after_round tot off n src blocks) address i
          ≡ content ip.dev blocks address i
    round_others tot off n src i i_lt room away = elim (ℕ_discrete (i / bsize) (off / bsize)) [
      | no other ↦
          ap (λ (f : Memory). f (i % bsize))
            (same_block tot off n src (address (i / bsize))
              (v.apart (i / bsize) (off / bsize) (omega arith) (omega arith) other))
      | yes same ↦
          let own = own_block tot off n src in
          let outside : (leb (off % bsize) (i % bsize)
                && ltb (i % bsize) (off % bsize + chunk tot off n))
              ≡ false =
            ground (arith, away, same) in
          rw (same, own, outside) refl
    ]

  pub write_blocks-Written :
      (fuel tot off n src : ℕ) (blocks : Blocks)
      → IsMapped ip blocks address k
      → n ≤ tot + fuel
      → tot ≤ n
      → off + (n - tot) ≤ k * bsize
      → Written ip blocks address k memory off
          (n - tot)
          src
          (write_blocks fuel tot off n src (start blocks))
  unfolding write_blocks
  write_blocks-Written zero tot off n src blocks v enough le room = record {
    inode = refl;
    memory_kept = refl;
    mapped = v;
    bytes = λ d lt. absurd (omega arith);
    others = λ i lt off. refl;
  }
  write_blocks-Written (suc fuel) tot off n src blocks v enough le room =
      elim (Bool-cases (ltb tot n)) [
        | inr done ↦
            rw (write_blocks, done)
              (record {
                inode = refl;
                memory_kept = refl;
                mapped = v;
                bytes = λ d lt. absurd (ground (arith, done, lt));
                others = λ i lt off. refl;
              })
        | inl more ↦
            let lt : tot < n = ltb→lt tot n more in
            let m = chunk tot off n in
            let m_pos : 0 < m = chunk_pos tot off n lt in
            let m_le : tot + m ≤ n = chunk_le tot off n lt in
            let in_file : off < k * bsize = omega arith in
            let t =
              write_blocks-Written fuel (tot + m) (off + m) n (src + m)
                (after_round tot off n src blocks) (round-IsMapped blocks v tot off n src in_file)
                (omega (arith, m_pos)) m_le (omega (arith, m_le)) in
            rw (write_step blocks v fuel tot off n src more in_file) (record {
              inode = t.inode;
              memory_kept = t.memory_kept;
              mapped = t.mapped;
              bytes = λ d d_lt. elim (Bool-cases (ltb d m)) [
                | inl now ↦
                    let now' : d < m = ltb→lt d m now in
                    t.others (off + d) (omega (arith, now', m_le)) (inl (omega (arith, now')))
                    ∙ round_bytes blocks v tot off n src d now'
                | inr after ↦
                    ap
                      (content ip.dev
                        (write_blocks fuel (tot + m) (off + m) n (src + m)
                          (start (after_round tot off n src blocks))).blocks
                        address)
                      (beyond off m d after)
                    ∙ t.bytes (d - m) (omega (arith, m_le, not_before d m after))
                    ∙ ap memory (sym (beyond src m d after))
              ];
              others = λ i i_lt away.
                  t.others i i_lt (ground (arith, away, m_le))
                  ∙ round_others blocks v tot off n src i i_lt in_file (ground (arith, away, m_le));
            })
      ]
