-- ===== src/Ide/Fs/File/Roundtrip.antt =====
-- `writei` and `readi` of A.ide/src/fs.c on a file whose blocks are allocated, and one after the other.
use class_example.Prelude.{
  ℕ, ◌+◌, ◌-◌, ◌*◌, ◌/◌, ◌%◌, ◌^◌, ◌≤◌, ◌<◌, ◌≡◌, ◌≢◌, ◌⊎◌, inl, inr, refl, ap, subst, ◌∙◌, true,
  false, arith, if◌then◌else◌, ◌==◌, ltb, Bool-cases,
}
use class_example.Memory.{Memory, load32}
use class_example.Ide.Fs.{Blocks, bsize, ndirect, maxfile, iblock}
use class_example.Ide.Bcache.{nbuf}
use class_example.Ide.Fs.Inode.{Inode, iupdate}
use class_example.Ide.Fs.Content.{
  Io, Devices, readi, writei, read_blocks, write_blocks, t_dev, is_outside,
}
use class_example.Ide.Fs.File.{table_of, IsMapped, content, Read, read_blocks-Read}
use class_example.Ide.Fs.File.Write.{Written, write_blocks-Written}

-- What `writei` leaves: `n` bytes from `src` stand in the file from `off` on, the other bytes of the file
-- are as before, and the file is as long as it has to be.
pub record Stored (ip : Inode) (blocks : Blocks) (address : ℕ → ℕ) (k : ℕ) (memory : Memory)
    (off n src : ℕ) (out : ℕ × Io) : Type 0 where
  pub count : out.0 ≡ n
  pub inode : out.1.inode ≡ record ip { size = if ltb ip.size (off + n) then off + n else ip.size }
  pub memory_kept : out.1.memory ≡ memory
  pub mapped : IsMapped out.1.inode out.1.blocks address k
  pub bytes : (d : ℕ) → d < n → content ip.dev out.1.blocks address (off + d) ≡ memory (src + d)
  pub others :
      (i : ℕ)
      → i < k * bsize
      → (i < off) ⊎ (off + n ≤ i)
      → content ip.dev out.1.blocks address i ≡ content ip.dev blocks address i

-- What `readi` leaves: `n` bytes of the file in memory from `dst` on, and nothing else changed.
pub record Loaded (ip : Inode) (blocks : Blocks) (address : ℕ → ℕ) (memory : Memory) (off n dst : ℕ)
    (out : ℕ × Io) : Type 0 where
  pub count : out.0 ≡ n
  pub loop : Read ip blocks address memory off n dst out.1

-- Another size makes no difference to where the blocks are.
resized :
    (ip : Inode) (blocks : Blocks) (address : ℕ → ℕ) (k size : ℕ)
    → IsMapped ip blocks address k
    → IsMapped (record ip { size = size }) blocks address k
resized ip blocks address k size v = record {
  count = v.count;
  nonzero = v.nonzero;
  direct = v.direct;
  table = v.table;
  listed = v.listed;
  apart = v.apart;
  off_table = v.off_table;
}

iupdate_other :
    (ip : Inode) (blocks : Blocks) (b : ℕ)
    → b ≢ iblock ip.inum
    → iupdate ip blocks ip.dev b ≡ blocks ip.dev b
unfolding iupdate
iupdate_other ip blocks b ne =
    let e1 : (ip.dev == ip.dev) ≡ true = ground arith in
    let e2 : (b == iblock ip.inum) ≡ false = ground (arith, ne) in rw (e1, e2) refl

minus_zero : (n : ℕ) → n - 0 ≡ n
minus_zero n = omega arith

-- The file after the inode is written to a block of its own.
module _ (ip : Inode) (blocks : Blocks) (address : ℕ → ℕ) (k : ℕ)
    (off_inode : (bn : ℕ) → bn < k → address bn ≢ iblock ip.inum) where
  updated :
      table_of ip ≢ iblock ip.inum
      → IsMapped ip blocks address k
      → IsMapped ip (iupdate ip blocks) address k
  updated table_off v = record {
    count = v.count;
    nonzero = v.nonzero;
    direct = v.direct;
    table = v.table;
    listed = λ bn lt high.
        ap (λ (f : Memory). load32 f (4 * (bn - ndirect)))
          (iupdate_other ip blocks (table_of ip) table_off)
        ∙ v.listed bn lt high;
    apart = v.apart;
    off_table = v.off_table;
  }

  same_content :
      (i : ℕ)
      → i < k * bsize
      → content ip.dev (iupdate ip blocks) address i ≡ content ip.dev blocks address i
  same_content i lt =
      ap (λ (f : Memory). f (i % bsize))
        (iupdate_other ip blocks (address (i / bsize)) (off_inode (i / bsize) (omega arith)))

module _ (devsw : Devices) (ip : Inode) (blocks : Blocks) (address : ℕ → ℕ) (k : ℕ)
    (memory : Memory) (v : IsMapped ip blocks address k) (no_device : ip.type ≢ t_dev) (off n : ℕ)
    (in_file : off ≤ ip.size) where
  abbrev start : Io
  start = record { inode = ip; blocks = blocks; memory = memory }

  plain : (ip.type == t_dev) ≡ false
  plain = ground (arith, no_device)

  -- `readi` of at most what the file holds returns those bytes of it, and changes nothing else.
  pub readi-Loaded :
      (dst : ℕ)
      → ip.size ≤ k * bsize
      → off + n < 2 ^ 32
      → off + n ≤ ip.size
      → Loaded ip blocks address memory off n dst (readi devsw dst off n start)
  unfolding readi
  readi-Loaded dst held small le =
      let ok : is_outside off n ip.size ≡ false = ground (arith, in_file, small) in
      let whole : ltb ip.size (off + n) ≡ false = ground (arith, le) in
      rw (readi, plain, ok, whole)
        (record {
          count = refl;
          loop =
              subst (λ x. Read ip blocks address memory off x dst (read_blocks n 0 off n dst start))
                (minus_zero n)
                (read_blocks-Read ip blocks address k v n 0 off n dst memory (omega arith)
                  (omega arith) (omega arith));
        })

  -- `writei` of `n` bytes, not none, inside the file or at its end, on allocated blocks away from the block of the
  -- inode, returns `n` and puts the bytes into the file. The blocks of the file, its block of addresses and the block
  -- of its inode are no more than there are buffers, so that from buffers that agree with the disk
  -- no changed buffer is recycled.
  pub writei-Stored :
      (src : ℕ)
      → k + 2 ≤ nbuf
      → 0 < n
      → off + n ≤ k * bsize
      → ((bn : ℕ) → bn < k → address bn ≢ iblock ip.inum)
      → table_of ip ≢ iblock ip.inum
      → Stored ip blocks address k memory off n src (writei devsw src off n start)
  unfolding writei
  writei-Stored src few pos room off_inode table_off =
      let ok : is_outside off n ip.size ≡ false = ground (arith, in_file, room, v.count) in
      let fits : ltb (maxfile * bsize) (off + n) ≡ false = ground (arith, room, v.count) in
      let t =
        subst (λ x. Written ip blocks address k memory off x src (write_blocks n 0 off n src start))
          (minus_zero n)
          (write_blocks-Written ip address k memory n 0 off n src blocks v (omega arith)
            (omega arith) (omega arith)) in
      let written = (write_blocks n 0 off n src start).blocks in
      let longer = record ip { size = off + n } in
      let nonempty : ltb 0 n ≡ true = ground (arith, pos) in
      elim (Bool-cases (ltb ip.size (off + n))) [
        | inr short ↦
            rw (writei, plain, ok, fits, nonempty, t.inode, short)
              (record {
                count = refl;
                inode = rw short refl;
                memory_kept = t.memory_kept;
                mapped = t.mapped;
                bytes = t.bytes;
                others = t.others;
              })
        | inl grows ↦
            rw (writei, plain, ok, fits, nonempty, t.inode, grows)
              (record {
                count = refl;
                inode = rw grows refl;
                memory_kept = t.memory_kept;
                mapped =
                    updated longer written address k off_inode table_off
                      (resized ip written address k (off + n) t.mapped);
                bytes = λ d lt.
                    same_content longer written address k off_inode (off + d) (omega arith)
                    ∙ t.bytes d lt;
                others = λ i lt away.
                    same_content longer written address k off_inode i lt ∙ t.others i lt away;
              })
      ]

-- What is written is read back: after `writei` of `n` bytes, not none, on allocated blocks of a file that is
-- no device, away from the block of its inode, `readi` at the same place returns these bytes. All the blocks of the
-- file, its block of addresses and the block of its inode are no more than there are buffers, so that from buffers
-- that agree with the disk no changed buffer is recycled.
pub readi-writei :
    (devsw : Devices) (ip : Inode) (blocks : Blocks) (address : ℕ → ℕ) (k : ℕ) (memory : Memory)
    → IsMapped ip blocks address k
    → k + 2 ≤ nbuf
    → ip.type ≢ t_dev
    → (off n src dst : ℕ) → off ≤ ip.size
    → ip.size ≤ k * bsize
    → 0 < n
    → off + n ≤ k * bsize
    → ((bn : ℕ) → bn < k → address bn ≢ iblock ip.inum)
    → table_of ip ≢ iblock ip.inum
    → (d : ℕ) → d < n
    → (readi devsw dst off n
          (writei devsw src off n
            (record { inode = ip; blocks = blocks; memory = memory })).1).1.memory
        (dst + d)
      ≡ memory (src + d)
readi-writei devsw ip blocks address k memory v few no_device off n src dst in_file held pos room
      off_inode table_off d lt =
    let out = writei devsw src off n (record { inode = ip; blocks = blocks; memory = memory }) in
    let t =
      writei-Stored devsw ip blocks address k memory v no_device off n in_file src few pos room
        off_inode table_off in
    let io = out.1 in
    let type_kept : io.inode.type ≡ ip.type = ap (λ (x : Inode). x.type) t.inode in
    let dev_kept : io.inode.dev ≡ ip.dev = ap (λ (x : Inode). x.dev) t.inode in
    let size_now : io.inode.size ≡ (if ltb ip.size (off + n) then off + n else ip.size) =
      ap (λ (x : Inode). x.size) t.inode in
    let r =
      readi-Loaded devsw io.inode io.blocks address k io.memory t.mapped (rw type_kept no_device)
        off n (ground (arith, size_now, in_file)) dst (ground (arith, size_now, held, room))
        (ground (arith, room, v.count)) (ground (arith, size_now)) in
    r.loop.bytes d lt ∙ ap (λ x. content x io.blocks address (off + d)) dev_kept ∙ t.bytes d lt
