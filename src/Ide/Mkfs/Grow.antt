-- ===== src/Ide/Mkfs/Grow.antt =====
-- What iappend of A.ide/tools/mkfs.c makes of the image.
use class_example.Prelude.{
  ℕ, zero, suc, ◌+◌, ◌-◌, ◌*◌, ◌/◌, ◌%◌, ◌≤◌, ◌<◌, ◌≡◌, inl, inr, ◌∙◌, true, false, arith,
  if◌then◌else◌, ◌==◌, ltb, leb, min, Bool-cases,
}
use class_example.Prelude.Returns.{Returns, returns, Returns-bind, Returns-mono}
use class_example.Memory.{Memory}
use class_example.Ide.Fs.{bsize, ndirect, maxfile}
use class_example.Ide.Fs.Content.{copy}
use class_example.Ide.Drive.{fssize}
use class_example.Ide.Mkfs.{Image, wsect, addr, take_block, block_for, append_loop}
use class_example.Ide.Mkfs.Sound.{wsect_other, Sound-wsect}
use class_example.Ide.Mkfs.Append.{Filled, IsTaken, more, take_block-IsTaken, take_indirect-IsTaken}

-- The rounds of the loop for `n` bytes at `off`.
abbrev pub rounds : (off n : ℕ) → ℕ
rounds off n = if n == 0 then 0 else (off % bsize + n + 511) / bsize

abbrev pub part : (off n : ℕ) → ℕ
part off n = min n ((off / bsize + 1) * bsize - off)

rounds_next : (off n : ℕ) → 0 < n → rounds (off + part off n) (n - part off n) + 1 ≡ rounds off n
rounds_next off n pos = ground (arith, pos)

part_lem : (off n : ℕ) → 0 < n → (0 < part off n) × (part off n ≤ n)
part_lem off n pos = (ground (arith, pos), ground (arith, pos))

module _ (base : Image) where
  block_for-IsTaken :
      (k fbn : ℕ) (din : Memory) (img : Image)
      → Filled base k din img
      → fbn < maxfile
      → base.freeblock + (k + 2) ≤ fssize
      → Returns
          (λ (x, din', img'). IsTaken base (k + 2) din' img' x false)
          (block_for fbn (din, img))
  unfolding block_for
  block_for-IsTaken k fbn din img f lt budget = elim (Bool-cases (ltb fbn ndirect)) [
    | inl direct ↦
        let (f1, low, below, is) =
          take_block-IsTaken base k fbn din img f (ground (arith, direct))
            (omega (arith, f.most, budget)) in
        let data_block : leb 10 fbn ≡ false = ground (arith, direct) in
        let (din1, img1) = take_block fbn (din, img) in
        rw (block_for, direct)
          (returns
            (more base (k + 1) (k + 2) din1 img1 (omega arith) f1, low, below, is ∙ data_block))
    | inr indirect ↦
        let t =
          take_block-IsTaken base k 10 din img f (omega arith) (omega (arith, f.most, budget)) in
        let (din1, img1) = take_block 10 (din, img) in
        rw (block_for, indirect)
          (Returns-bind
            (take_indirect-IsTaken base (k + 1) (addr din1 10) (fbn - 10) din1 img1 t
              (ground (arith, lt, indirect)) (omega (arith, (t.0).most, budget)))
            (λ (x, img2) (f2, low, below, is).
              returns (more base (k + 1 + 1) (k + 2) din1 img2 (omega arith) f2, low, below, is)))
  ]

  -- A block of data is written.
  write-Filled :
      (k x : ℕ) (din buf : Memory) (img : Image)
      → IsTaken base k din img x false
      → ((i : ℕ) → buf i < 256)
      → Filled base k din (wsect x buf img)
  write-Filled k x din buf img (f, low, below, is) small = record {
    kind = f.kind;
    sound =
        Sound-wsect f.kind img x buf f.sound low below small (λ q. absurd (ground (arith, q, is)));
    addresses = f.addresses;
    small = f.small;
    most = f.most;
    freeinode_kept = f.freeinode_kept;
    kept = λ s lt. wsect_other x s buf img (omega (arith, lt, low)) ∙ f.kept s lt;
  }

  copy-lt :
      (from to : Memory) (source target m i : ℕ)
      → ((j : ℕ) → from j < 256)
      → ((j : ℕ) → to j < 256)
      → copy from source to target m i < 256
  copy-lt from to source target m i h h' = ground (arith, h (source + (i - target)), h' i)

  pub append_loop-Filled :
      (fuel n off source : ℕ) (p : Memory) (k : ℕ) (din : Memory) (img : Image)
      → n ≤ fuel
      → Filled base k din img
      → ((i : ℕ) → p i < 256)
      → off + n ≤ maxfile * bsize
      → base.freeblock + (k + 2 * rounds off n) ≤ fssize
      → Returns
          (λ (off', din', img'). (off' ≡ off + n) × Filled base (k + 2 * rounds off n) din' img')
          (append_loop fuel n off source p (din, img))
  unfolding append_loop
  append_loop-Filled zero n off source p k din img enough f small room budget =
      returns (omega (arith, enough), more base k (k + 2 * rounds off n) din img (omega arith) f)
  append_loop-Filled (suc fuel) n off source p k din img enough f small room budget =
      elim (Bool-cases (ltb 0 n)) [
        | inr over ↦
            rw (append_loop, over)
              (returns
                (ground (arith, over), more base k (k + 2 * rounds off n) din img (omega arith) f))
        | inl again ↦
            let pos : 0 < n = ground (arith, again) in
            let ok : ltb (off / bsize) maxfile ≡ true = ground (arith, pos, room) in
            let n1 = part off n in
            let (n1_pos, n1_le) = part_lem off n pos in
            let less = rounds_next off n pos in
            let target = off - off / bsize * bsize in
            rw (append_loop, again, ok)
              (Returns-bind
                (block_for-IsTaken k (off / bsize) din img f (ground (arith, pos, room))
                  (omega (arith, less, budget)))
                (λ (x, din', img') t.
                  let inside : leb fssize x ≡ false = ground (arith, t.2, (t.0).sound.high) in
                  let buf = copy p source (img'.sectors x) target n1 in
                  let small' : (i : ℕ) → buf i < 256 = λ i.
                    copy-lt p (img'.sectors x) source target n1 i small ((t.0).sound.bytes x) in
                  rw inside (
                    Returns-mono
                      (append_loop-Filled fuel (n - n1) (off + n1) (source + n1) p (k + 2) din'
                        (wsect x buf img') (omega (arith, enough, n1_pos))
                        (write-Filled (k + 2) x din' buf img' t small') small
                        (omega (arith, room, n1_le)) (omega (arith, less, budget)))
                      (λ (off', din2, img2) (e, g). (
                        omega (arith, e, n1_le),
                        more base (k + 2 + 2 * rounds (off + n1) (n - n1)) (k + 2 * rounds off n)
                            din2 img2 (omega (arith, less)) g,
                      )))))
      ]
