-- ===== src/Ide/Fs/Files/Read.antt =====
-- `fileread` of A.ide/src/file.c on a regular file.
use class_example.Prelude.{
  ℕ, ◌+◌, ◌^◌, ◌≤◌, ◌<◌, ◌≡◌, ◌≢◌, ◌⊎◌, refl, false, arith, ◌==◌, lt-get_elem?, get_elem?-set_self,
}
use class_example.Prelude.Returns.{Returns, returns}
use class_example.Ide.Fs.Inode.{Inode, lock_flag}
use class_example.Ide.Fs.Content.{Devices}
use class_example.Ide.Fs.File.{content}
use class_example.Ide.Fs.File.Roundtrip.{readi-Loaded}
use class_example.Ide.Fs.Files.{File, Files, fileread}
use class_example.Ide.Fs.Files.Open.{
  IsOpen, hold, same-IsMapped, ilock-hold, iunlock-hold, move_on_by,
}

-- What a read of `n` bytes to `dst` leaves.
pub record Fetched (address : ℕ → ℕ) (k i : ℕ) (f : File) (ip : Inode) (s : Files) (dst n : ℕ)
    (s' : Files) : Type 0 where
  pub still : IsOpen address k i (record f { off = f.off + n }) ip s'
  pub bytes : (d : ℕ) → d < n → s'.memory (dst + d) ≡ content ip.dev s.fs.blocks address (f.off + d)
  pub others : (a : ℕ) → (a < dst) ⊎ (dst + n ≤ a) → s'.memory a ≡ s.memory a
  pub blocks_kept : s'.fs.blocks ≡ s.fs.blocks

-- `fileread` of `n` bytes, not none, that the open regular file still has behind its offset returns `n`,
-- with these bytes in memory and nothing else of it changed, the blocks as before, the offset behind what was
-- read, and the file open as before.
pub fileread-Fetched :
    (devsw : Devices) (address : ℕ → ℕ) (k i : ℕ) (f : File) (ip : Inode) (dst n : ℕ) (s : Files)
    → IsOpen address k i f ip s
    → f.readable ≢ 0
    → 0 < n
    → f.off + n ≤ ip.size
    → Returns (λ (r, s'). (r ≡ n) × Fetched address k i f ip s dst n s') (fileread devsw i dst n s)
unfolding fileread
fileread-Fetched devsw address k i f ip dst n s o can pos le =
    let may : (f.readable == 0) ≡ false = ground (arith, can) in
    let small : f.off + n < 2 ^ 31 = omega (arith, le, o.held, o.mapped.count) in
    let t =
      readi-Loaded devsw (hold ip) s.fs.blocks address k s.memory
        (same-IsMapped ip s.fs.blocks address k (lock_flag ip.flags) ip.size o.mapped) o.regular
        f.off n o.in_file dst o.held (omega (arith, small)) le in
    let lock = ilock-hold s.fs.blocks ip o.in_use o.free o.valid in
    let unlock = iunlock-hold ip ip.size o.in_use o.free in
    let moved = move_on_by f n pos small in
    rw
      (
        fileread, o.file_at, may, o.of_inode, o.inode_at, lock, t.count, t.loop.inode,
        t.loop.blocks_kept, unlock, moved,
      )
      (returns (
        refl,
        record {
          still = record {
            file_at =
                get_elem?-set_self s.ftable i (record f { off = f.off + n })
                  (lt-get_elem? s.ftable i o.file_at);
            of_inode = o.of_inode;
            inode_at =
                get_elem?-set_self s.fs.icache f.ip ip (lt-get_elem? s.fs.icache f.ip o.inode_at);
            in_use = o.in_use;
            free = o.free;
            valid = o.valid;
            regular = o.regular;
            mapped = o.mapped;
            off_inode = o.off_inode;
            table_off = o.table_off;
            in_file = le;
            held = o.held;
          };
          bytes = t.loop.bytes;
          others = t.loop.others;
          blocks_kept = refl;
        },
      ))
