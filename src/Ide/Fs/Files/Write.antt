-- ===== src/Ide/Fs/Files/Write.antt =====
-- `filewrite` of A.ide/src/file.c on a regular file.
use class_example.Prelude.{
  ℕ, zero, Option, minus_one, suc, ◌+◌, ◌-◌, ◌*◌, ◌^◌, ◌≤◌, ◌<◌, ◌≡◌, ◌≢◌, inl, inr, refl, subst,
  sym, true, false, some, arith, if◌then◌else◌, ◌==◌, ltb, ltb→lt, min, lt-get_elem?,
  get_elem?-set_self, Bool-cases,
}
use class_example.Prelude.Returns.{Returns, returns, Returns-mono, Returns-some}
use class_example.Ide.Fs.{Blocks, bsize}
use class_example.Ide.Bcache.{nbuf}
use class_example.Ide.Fs.Inode.{Inode, lock_flag}
use class_example.Ide.Fs.Content.{Io, Devices, writei}
use class_example.Ide.Fs.Icache.{set_inode}
use class_example.Ide.Fs.File.{IsMapped}
use class_example.Ide.Fs.File.Roundtrip.{Stored, writei-Stored}
use class_example.Ide.Fs.Files.{
  File, Files, set_file, write_part, write_parts, filewrite, is_less, max_write,
}
use class_example.Ide.Fs.Files.Open.{
  IsOpen, hold, same-IsMapped, ilock-hold, iunlock-hold, move_on_by, grown,
}
use class_example.Ide.Fs.Files.Saved.{Saved, Saved-rest}

module _ (devsw : Devices) (address : ℕ → ℕ) (k i : ℕ) (few : k + 2 ≤ nbuf) where
  -- `writei` inside `write_part`.
  abbrev inner : File → Inode → (src n : ℕ) → Files → ℕ × Io
  inner f ip src n s =
      writei devsw src f.off n (record { inode = hold ip; blocks = s.fs.blocks; memory = s.memory })

  inner-Stored :
      (f : File) (ip : Inode) (src n : ℕ) (s : Files)
      → IsOpen address k i f ip s
      → 0 < n
      → f.off + n ≤ k * bsize
      → Stored (hold ip) s.fs.blocks address k s.memory f.off n src (inner f ip src n s)
  inner-Stored f ip src n s o pos room =
      writei-Stored devsw (hold ip) s.fs.blocks address k s.memory
        (same-IsMapped ip s.fs.blocks address k (lock_flag ip.flags) ip.size o.mapped) o.regular
        f.off n o.in_file src few pos room o.off_inode o.table_off

  -- The state after it.
  abbrev after : File → Inode → (n : ℕ) → Blocks → Files → Files
  after f ip n blocks s =
      set_file i (record f { off = f.off + n })
        (record s {
          fs = set_inode f.ip (grown ip (f.off + n)) (record (s.fs) { blocks = blocks });
        })

  write_part-after :
      (f : File) (ip : Inode) (src n : ℕ) (s : Files)
      → IsOpen address k i f ip s
      → 0 < n
      → f.off + n ≤ k * bsize
      → write_part devsw i src n s ≡ some (n, after f ip n (inner f ip src n s).1.blocks s)
  unfolding write_part
  write_part-after f ip src n s o pos room =
      let t = inner-Stored f ip src n s o pos room in
      let lock = ilock-hold s.fs.blocks ip o.in_use o.free o.valid in
      let unlock =
        iunlock-hold ip (if ltb ip.size (f.off + n) then f.off + n else ip.size) o.in_use o.free in
      let moved = move_on_by f n pos (omega (arith, room, o.mapped.count)) in
      rw (write_part, o.file_at, o.inode_at, lock, t.count, t.inode, t.memory_kept, unlock, moved)
        refl

  write_part-Saved :
      (f : File) (ip : Inode) (src n : ℕ) (s : Files)
      → IsOpen address k i f ip s
      → 0 < n
      → f.off + n ≤ k * bsize
      → Returns
          (λ (r, s'). (r ≡ n) × Saved address k i f ip s src n s')
          (write_part devsw i src n s)
  write_part-Saved f ip src n s o pos room =
      let t = inner-Stored f ip src n s o pos room in
      let blocks = (inner f ip src n s).1.blocks in
      let new = grown ip (f.off + n) in
      rw (write_part-after f ip src n s o pos room) (
        returns (
          refl,
          record {
            still = record {
              file_at =
                  get_elem?-set_self s.ftable i (record f { off = f.off + n })
                    (lt-get_elem? s.ftable i o.file_at);
              of_inode = o.of_inode;
              inode_at =
                  get_elem?-set_self s.fs.icache f.ip new
                    (lt-get_elem? s.fs.icache f.ip o.inode_at);
              in_use = o.in_use;
              free = o.free;
              valid = o.valid;
              regular = o.regular;
              mapped =
                  same-IsMapped (record (hold ip) { size = new.size }) blocks address k ip.flags
                    new.size (subst (λ x. IsMapped x blocks address k) t.inode t.mapped);
              off_inode = o.off_inode;
              table_off = o.table_off;
              in_file = ground arith;
              held = ground (arith, o.held, room);
            };
            memory_kept = refl;
            bytes = t.bytes;
            others = t.others;
          },
        ))

  -- The end of the loop.
  write_parts_end :
      (fuel addr done n : ℕ) (s : Files)
      → 0 < fuel
      → done ≡ n
      → write_parts devsw fuel i addr done n s ≡ some (n, s)
  unfolding write_parts
  write_parts_end zero addr done n s pos e = absurd (omega arith)
  write_parts_end (suc fuel) addr done n s pos e =
      let over : is_less done n ≡ false = ground (arith, e) in
      let same : (done == n) ≡ true = ground (arith, e) in rw (write_parts, over, same) refl

  -- One round.
  write_parts_next :
      (fuel : ℕ) (f : File) (ip : Inode) (addr done n : ℕ) (s : Files)
      → IsOpen address k i f ip s
      → done < n
      → f.off + (n - done) ≤ k * bsize
      → n < 2 ^ 31
      → write_parts devsw (suc fuel) i addr done n s
        ≡ write_parts devsw fuel i addr (done + min (n - done) max_write) n (
            after f ip
              (min (n - done) max_write)
              (inner f ip (addr + done) (min (n - done) max_write) s).1.blocks
              s)
  unfolding write_parts
  write_parts_next fuel f ip addr done n s o lt room small =
      let m = min (n - done) max_write in
      let more : is_less done n ≡ true = ground (arith, lt, small) in
      let same : (m == m) ≡ true = ground arith in
      let step =
        write_part-after f ip (addr + done) m s o (ground (arith, lt)) (ground (arith, lt, room)) in
      let next = after f ip m (inner f ip (addr + done) m s).1.blocks s in
      let go_on : elim (m == m) as (λ x. Option (ℕ × Files)) [
        | false ↦ some (minus_one, next)
        | true ↦ write_parts devsw fuel i addr (done + m) n next
      ]
          ≡ write_parts devsw fuel i addr (done + m) n next =
        rw same refl in
      rw (write_parts, more, step) go_on

  write_parts-Saved :
      (fuel : ℕ) (f : File) (ip : Inode) (addr done n : ℕ) (s : Files)
      → IsOpen address k i f ip s
      → done < n
      → n < done + fuel
      → f.off + (n - done) ≤ k * bsize
      → n < 2 ^ 31
      → Returns
          (λ (r, s'). (r ≡ n) × Saved address k i f ip s (addr + done) (n - done) s')
          (write_parts devsw fuel i addr done n s)
  unfolding write_parts
  write_parts-Saved zero f ip addr done n s o lt enough room small = absurd (omega arith)
  write_parts-Saved (suc fuel) f ip addr done n s o lt enough room small =
      let m = min (n - done) max_write in
      let m_pos : 0 < m = ground (arith, lt) in
      let m_le : done + m ≤ n = ground (arith, lt) in
      let m_room : f.off + m ≤ k * bsize = omega (arith, m_le, room) in
      let t = write_part-Saved f ip (addr + done) m s o m_pos m_room in
      let step = write_part-after f ip (addr + done) m s o m_pos m_room in
      let next = after f ip m (inner f ip (addr + done) m s).1.blocks s in
      let t1 = Returns-some t step in
      rw (write_parts_next fuel f ip addr done n s o lt room small)
        (elim (Bool-cases (ltb (done + m) n)) [
          | inl again ↦
              Returns-mono
                (write_parts-Saved fuel (record f { off = f.off + m }) (grown ip (f.off + m)) addr
                  (done + m) n next (t1.1).still (ltb→lt (done + m) n again) (omega (arith, m_pos))
                  (omega (arith, m_le, room)) small)
                (λ (r, s') (e, u).
                  (e, Saved-rest address k i f ip addr done n m s next s' m_le (t1.1) u))
          | inr over ↦
              let e : done + m ≡ n = ground (arith, over, m_le) in
              let m_e : n - done ≡ m = omega (arith, e) in
              let stop =
                write_parts_end fuel addr (done + m) n next (omega (arith, m_pos, e, enough)) e in
              subst
                (Returns
                  (λ (r, s'). (r ≡ n) × Saved address k i f ip s (addr + done) (n - done) s'))
                (sym stop)
                (returns (
                  refl,
                  subst (λ x. Saved address k i f ip s (addr + done) x next) (sym m_e) (t1.1),
                ))
        ])

-- `filewrite` of `n` bytes, not none, to an open regular file whose blocks are allocated, however many calls
-- of `writei` it takes, returns `n`, with the bytes in the file from the offset on, the other bytes and the
-- memory as before, the offset behind what was written, and the file open as before. The blocks of the file, its
-- block of addresses and the block of its inode are no more than there are buffers, so that from buffers that
-- agree with the disk no changed buffer is recycled.
pub filewrite-Saved :
    (devsw : Devices) (address : ℕ → ℕ) (k i : ℕ) (f : File) (ip : Inode) (addr n : ℕ) (s : Files)
    → IsOpen address k i f ip s
    → f.writable ≢ 0
    → k + 2 ≤ nbuf
    → 0 < n
    → f.off + n ≤ k * bsize
    → Returns (λ (r, s'). (r ≡ n) × Saved address k i f ip s addr n s') (filewrite devsw i addr n s)
unfolding filewrite
filewrite-Saved devsw address k i f ip addr n s o can few pos room =
    let may : (f.writable == 0) ≡ false = ground (arith, can) in
    let addr_e : addr + 0 ≡ addr = omega arith in
    let n_e : n - 0 ≡ n = omega arith in
    rw (filewrite, o.file_at, may, o.of_inode)
      (Returns-mono
        (write_parts-Saved devsw address k i few (suc n) f ip addr 0 n s o pos (omega arith)
          (omega (arith, room)) (omega (arith, room, o.mapped.count)))
        (λ (r, s') (e, u). (
          e,
          subst (λ x. Saved address k i f ip s x n s') addr_e
              (subst (λ x. Saved address k i f ip s (addr + 0) x s') n_e u),
        )))
