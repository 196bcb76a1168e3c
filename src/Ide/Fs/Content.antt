-- ===== src/Ide/Fs/Content.antt =====
-- The content of a file: `bmap`, `itrunc`, `readi` and `writei` of A.ide/src/fs.c. The inode is handed
-- over by value and returned. Numbers are 32-bit patterns; -1 is 2 ^ 32 - 1.
use class_example.Prelude.{
  ℕ, zero, suc, ◌+◌, ◌-◌, ◌*◌, ◌/◌, ◌%◌, ◌^◌, Bool, true, false, Option, none, some, if◌then◌else◌,
  ◌==◌, ◌&&◌, ◌||◌, ltb, leb, min, minus_one, get_or, set,
}
use class_example.Memory.{Memory, load32, store32}
use class_example.Ide.Fs.{Blocks, edit, bsize, ndirect, nindirect, maxfile}
use class_example.Ide.Fs.Blocks.{balloc, bfree}
use class_example.Ide.Fs.Inode.{Inode, iupdate}

-- `T_DEV`, and the size of the table of devices.
abbrev pub t_dev : ℕ
t_dev = 3

abbrev pub ndev : ℕ
ndev = 10

-- `a[bn]` of the block at `addr`.
abbrev pub indirect : Inode → Blocks → (addr bn : ℕ) → ℕ
indirect ip blocks addr bn = load32 (blocks ip.dev addr) (4 * bn)

abbrev pub set_addr : ℕ → ℕ → Inode → Inode
set_addr i addr ip = record ip { addrs = set ip.addrs i addr }

-- Entry `i` of `ip->addrs`, with a new block when there is none.
unfoldable pub direct_block : ℕ → Inode → Blocks → ℕ × Inode × Blocks
direct_block i ip blocks =
    let addr = get_or ip.addrs i 0 in
    if addr == 0
    then (let (new, blocks') = balloc ip.dev blocks in (new, set_addr i new ip, blocks'))
    else (addr, ip, blocks)

unfoldable pub bmap : (bn : ℕ) → Inode → Blocks → ℕ × Inode × Blocks
bmap bn ip blocks =
    if ltb bn ndirect
    then direct_block bn ip blocks
    else if ltb (bn - ndirect) nindirect
    then (let (table, ip1, blocks1) = direct_block ndirect ip blocks in
        let addr = indirect ip1 blocks1 table (bn - ndirect) in
        if addr == 0
        then (let (new, blocks2) = balloc ip1.dev blocks1 in
            (
              new,
              ip1,
              edit ip1.dev table (λ bytes. store32 bytes (4 * (bn - ndirect)) new) blocks2,
            ))
        else (addr, ip1, blocks1))
    else (minus_one, ip, blocks)

-- The first loop of `itrunc`, from entry `i` on.
unfoldable pub free_direct : (left i : ℕ) → Inode → Blocks → Inode × Blocks
free_direct zero i ip blocks = (ip, blocks)
free_direct (suc left) i ip blocks =
    let addr = get_or ip.addrs i 0 in
    let blocks' = if addr == 0 then blocks else bfree ip.dev addr blocks in
    let ip' = if addr == 0 then ip else set_addr i 0 ip in free_direct left (i + 1) ip' blocks'

-- The second loop, from entry `j` of the block `table` on.
unfoldable pub free_indirect : (left j dev table : ℕ) → Blocks → Blocks
free_indirect zero j dev table blocks = blocks
free_indirect (suc left) j dev table blocks =
    let addr = load32 (blocks dev table) (4 * j) in
    free_indirect left (j + 1) dev table (if addr == 0 then blocks else bfree dev addr blocks)

unfoldable pub itrunc : Inode → Blocks → Inode × Blocks
itrunc ip blocks =
    let (ip1, blocks1) = free_direct ndirect 0 ip blocks in
    let table = get_or ip1.addrs ndirect 0 in
    let blocks2 =
      if table == 0
      then blocks1
      else bfree ip1.dev table (free_indirect nindirect 0 ip1.dev table blocks1) in
    let ip2 = if table == 0 then ip1 else set_addr ndirect 0 ip1 in
    let ip3 = record ip2 { size = 0 } in (ip3, iupdate ip3 blocks2)

-- The inode, the blocks, and the memory of the caller.
pub record Io : Type 0 where
  pub inode : Inode
  pub blocks : Blocks
  pub memory : Memory

-- `memmove` of `m` bytes at `source` of one memory to `target` of another one.
abbrev pub copy : (from : Memory) (source : ℕ) (to : Memory) (target m : ℕ) → Memory
copy from source to target m a =
    if leb target a && ltb a (target + m) then from (source + (a - target)) else to a

-- The bytes of one round: what is left, at most to the end of the block.
abbrev pub chunk : (tot off n : ℕ) → ℕ
chunk tot off n = min (n - tot) (bsize - off % bsize)

-- One round of `readi`, and of `writei`.
abbrev pub read_round : (tot off n dst : ℕ) → Io → Io
read_round tot off n dst io =
    let (addr, ip, blocks) = bmap (off / bsize) io.inode io.blocks in
    record io {
      inode = ip;
      blocks = blocks;
      memory = copy (blocks ip.dev addr) (off % bsize) io.memory dst (chunk tot off n);
    }

abbrev pub write_round : (tot off n src : ℕ) → Io → Io
write_round tot off n src io =
    let (addr, ip, blocks) = bmap (off / bsize) io.inode io.blocks in
    record io {
      inode = ip;
      blocks =
          edit ip.dev addr (λ bytes. copy io.memory src bytes (off % bsize) (chunk tot off n))
            blocks;
    }

-- The loops of `readi` and `writei`, with fuel.
unfoldable pub read_blocks : (fuel tot off n dst : ℕ) → Io → Io
read_blocks zero tot off n dst io = io
read_blocks (suc fuel) tot off n dst io =
    let m = chunk tot off n in
    elim (ltb tot n) [
      | true ↦ read_blocks fuel (tot + m) (off + m) n (dst + m) (read_round tot off n dst io)
      | false ↦ io
    ]

unfoldable pub write_blocks : (fuel tot off n src : ℕ) → Io → Io
write_blocks zero tot off n src io = io
write_blocks (suc fuel) tot off n src io =
    let m = chunk tot off n in
    elim (ltb tot n) [
      | true ↦ write_blocks fuel (tot + m) (off + m) n (src + m) (write_round tot off n src io)
      | false ↦ io
    ]

-- `off > ip->size || off + n < off`
abbrev pub is_outside : (off n size : ℕ) → Bool
is_outside off n size = ltb size off || ltb ((off + n) % 2 ^ 32) off

-- The functions of `devsw`; `none` is a null pointer.
pub record Devices : Type 0 where
  pub read : ℕ → Option (Io → (dst n : ℕ) → ℕ × Io)
  pub write : ℕ → Option (Io → (src n : ℕ) → ℕ × Io)

abbrev pub call : Option (Io → ℕ → ℕ → ℕ × Io) → (p n : ℕ) → Io → ℕ × Io
call none p n io = (minus_one, io)
call (some f) p n io = f io p n

module _ (devsw : Devices) where
  -- Each round moves at least one byte.
  unfoldable pub readi : (dst off n : ℕ) → Io → ℕ × Io
  readi dst off n io =
      if io.inode.type == t_dev
      then if leb ndev io.inode.major
        then (minus_one, io)
        else call (devsw.read io.inode.major) dst n io
      else if is_outside off n io.inode.size
      then (minus_one, io)
      else (let n' = if ltb io.inode.size (off + n) then io.inode.size - off else n in
          (n', read_blocks n' 0 off n' dst io))

  unfoldable pub writei : (src off n : ℕ) → Io → ℕ × Io
  writei src off n io =
      if io.inode.type == t_dev
      then if leb ndev io.inode.major
        then (minus_one, io)
        else call (devsw.write io.inode.major) src n io
      else if is_outside off n io.inode.size
      then (minus_one, io)
      else if ltb (maxfile * bsize) (off + n)
      then (minus_one, io)
      else (let io' = write_blocks n 0 off n src io in
          let end = off + n in
          if ltb 0 n && ltb io'.inode.size end
          then (let ip = record (io'.inode) { size = end } in
              (n, record io' { inode = ip; blocks = iupdate ip io'.blocks }))
          else (n, io'))
