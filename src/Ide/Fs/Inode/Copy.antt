-- ===== src/Ide/Fs/Inode/Copy.antt =====
-- An inode that `iupdate` of A.ide/src/fs.c has written, as `ilock` reads it.
use class_example.Prelude.{
  ℕ, ◌+◌, ◌^◌, ◌<◌, ◌≡◌, inl, refl, ap, subst, ◌∙◌, true, some, length, All, arith, ◌==◌,
  is_positive,
}
use class_example.Memory.{Memory, load32, store32, load-store_self}
use class_example.Memory.Words.{
  load16, store16, load_words, store_words, load16-same, load32-same, store_words-other,
  load-store_words,
}
use class_example.Ide.Fs.{Blocks, iblock}
use class_example.Ide.Fs.Inode.{Inode, put_dinode, get_dinode, iupdate, ilock, dinode_at}

-- The fields have the widths of the C structure.
pub record IsSized (ip : Inode) : Type 0 where
  pub type_small : ip.type < 2 ^ 16
  pub major_small : ip.major < 2 ^ 16
  pub minor_small : ip.minor < 2 ^ 16
  pub nlink_small : ip.nlink < 2 ^ 16
  pub size_small : ip.size < 2 ^ 32
  pub mode_small : ip.mode < 2 ^ 32
  pub addrs_small : All (λ w. w < 2 ^ 32) ip.addrs
  pub addrs_count : length ip.addrs ≡ 11

module _ (at : ℕ) (ip : Inode) (bytes : Memory) (v : IsSized ip) where
  -- The bytes before the addresses are put behind them.
  abbrev fields : Memory
  fields =
      store32
        (store32
          (store16
            (store16 (store16 (store16 bytes at ip.type) (at + 2) ip.major) (at + 4) ip.minor)
            (at + 6) ip.nlink)
          (at + 16) ip.size)
        (at + 12) ip.mode

  half :
      (o x : ℕ)
      → o < 19
      → load16 fields (at + o) ≡ x
      → load16 (store_words fields (at + 20) ip.addrs) (at + o) ≡ x
  half o x lt e =
      load16-same fields (store_words fields (at + 20) ip.addrs) (at + o)
        (λ b lo hi. store_words-other fields (at + 20) ip.addrs b (inl (omega arith)))
      ∙ e

  word :
      (o x : ℕ)
      → o < 17
      → load32 fields (at + o) ≡ x
      → load32 (store_words fields (at + 20) ip.addrs) (at + o) ≡ x
  word o x lt e =
      load32-same fields (store_words fields (at + 20) ip.addrs) (at + o)
        (λ b lo hi. store_words-other fields (at + 20) ip.addrs b (inl (omega arith)))
      ∙ e

  f_type : load16 fields (at + 0) ≡ ip.type
  unfolding load16 store16 store32
  f_type = ground (arith, v.type_small)

  f_mode : load32 fields (at + 12) ≡ ip.mode
  f_mode = load-store_self _ (at + 12) ip.mode v.mode_small

  f_major : load16 fields (at + 2) ≡ ip.major
  unfolding load16 store16 store32
  f_major = ground (arith, v.major_small)

  f_minor : load16 fields (at + 4) ≡ ip.minor
  unfolding load16 store16 store32
  f_minor = ground (arith, v.minor_small)

  f_nlink : load16 fields (at + 6) ≡ ip.nlink
  unfolding load16 store16 store32
  f_nlink = ground (arith, v.nlink_small)

  f_owner : load16 fields (at + 8) ≡ load16 bytes (at + 8)
  unfolding load16 store16 store32
  f_owner = ground arith

  f_group : load16 fields (at + 10) ≡ load16 bytes (at + 10)
  unfolding load16 store16 store32
  f_group = ground arith

  f_size : load32 fields (at + 16) ≡ ip.size
  unfolding load32 store32
  f_size = ground (arith, v.size_small)

  f_addrs : load_words (store_words fields (at + 20) ip.addrs) (at + 20) 11 ≡ ip.addrs
  f_addrs =
      subst (λ n. load_words (store_words fields (at + 20) ip.addrs) (at + 20) n ≡ ip.addrs)
        (v.addrs_count) (load-store_words fields (at + 20) ip.addrs v.addrs_small)

  zero_offset : at + 0 ≡ at
  zero_offset = omega arith

  -- Every field is read back but the owner and the group, which `iupdate` does not write.
  get-put_dinode :
      (q : Inode)
      → get_dinode at (put_dinode at ip bytes) q ≡ record ip {
        dev = q.dev;
        inum = q.inum;
        ref = q.ref;
        flags = q.flags;
        ownerid = load16 bytes (at + 8);
        groupid = load16 bytes (at + 10);
      }
  unfolding get_dinode put_dinode
  get-put_dinode q =
      let t =
        subst (λ a. load16 (store_words fields (at + 20) ip.addrs) a ≡ ip.type) zero_offset
          (half 0 ip.type (omega arith) f_type) in
      rw
        (
          t,
          half 2 ip.major (omega arith) f_major,
          half 4 ip.minor (omega arith) f_minor,
          half 6 ip.nlink (omega arith) f_nlink,
          half 8 (load16 bytes (at + 8)) (omega arith) f_owner,
          half 10 (load16 bytes (at + 10)) (omega arith) f_group,
          word 16 ip.size (omega arith) f_size,
          word 12 ip.mode (omega arith) f_mode,
          f_addrs,
        )
        refl

-- An inode that `iupdate` has written, read by `ilock` into an entry in use that is neither locked nor
-- valid, is the same inode in the entry's place, locked and valid now; only the owner and the group are
-- those that the disk held before.
pub ilock-iupdate :
    (ip q : Inode) (blocks : Blocks)
    → IsSized ip
    → q.dev ≡ ip.dev
    → q.inum ≡ ip.inum
    → is_positive q.ref ≡ true
    → q.flags ≡ 0
    → ilock (iupdate ip blocks) q
      ≡ some (record ip {
        ref = q.ref;
        flags = 3;
        ownerid = load16 (blocks ip.dev (iblock ip.inum)) (dinode_at ip.inum + 8);
        groupid = load16 (blocks ip.dev (iblock ip.inum)) (dinode_at ip.inum + 10);
      })
unfolding ilock iupdate
ilock-iupdate ip q blocks v same_dev same_inum used clear =
    let e1 : (ip.dev == ip.dev) ≡ true = ground arith in
    let e2 : (iblock ip.inum == iblock ip.inum) ≡ true = ground arith in
    rw (used, clear, same_dev, same_inum, e1, e2)
      (ap (λ (x : Inode). some (record x { flags = 3 }))
        (get-put_dinode (dinode_at ip.inum) ip (blocks ip.dev (iblock ip.inum)) v
          (record q { dev = ip.dev; inum = ip.inum; flags = 1 })))
