-- ===== src/Ide/Mkfs/Append.antt =====
-- The blocks that iappend of A.ide/tools/mkfs.c takes.
use class_example.Prelude.{
  ℕ, ◌+◌, ◌*◌, ◌≤◌, ◌<◌, ◌≡◌, inl, inr, refl, ap, ◌∙◌, Bool, true, false, arith, ◌==◌, leb,
  Bool-cases,
}
use native.Mathlib.Decide.{ℕ_discrete}
use class_example.Prelude.Returns.{Returns, returns}
use class_example.Memory.{Memory, load32, store32, load-store_self, load-store_ne}
use class_example.Ide.Drive.{fssize}
use class_example.Ide.Mkfs.{Image, nmeta, addr, take_block, take_indirect}
use class_example.Ide.Mkfs.Sound.{
  Entry, Addresses, Sound, taken, Entry-taken, Entry-fresh, Addresses-taken, Sound-taken,
  wsect_other, Sound-wsect,
}

-- The inode in hand and the image are in order, at most `k` blocks have been taken since `base`, and what stands
-- in front of the data is as there.
pub record Filled (base : Image) (k : ℕ) (din : Memory) (img : Image) : Type 0 where
  pub kind : ℕ → Bool
  pub sound : Sound kind img
  pub addresses : Addresses kind img.freeblock din
  pub small : (i : ℕ) → din i < 256
  pub most : img.freeblock ≤ base.freeblock + k
  pub freeinode_kept : img.freeinode ≡ base.freeinode
  pub kept : (s : ℕ) → s < nmeta → img.sectors s ≡ base.sectors s

-- Block `a` is taken, as `table` says.
abbrev pub IsTaken :
    (base : Image) (k : ℕ) (din : Memory) (img : Image) (a : ℕ) (table : Bool) → Type 0
IsTaken base k din img a table =
    (f : Filled base k din img) × (nmeta ≤ a) × (a < img.freeblock) × (f.kind a ≡ table)

pub store32-lt : (f : Memory) (a v i : ℕ) → ((i : ℕ) → f i < 256) → store32 f a v i < 256
unfolding store32
store32-lt f a v i h = ground (arith, h i)

module _ (base : Image) where
  Addresses-store :
      (kind : ℕ → Bool) (free i : ℕ) (din : Memory)
      → Addresses kind free din
      → nmeta ≤ free
      → free < fssize
      → Addresses (taken kind free (leb 10 i)) (free + 1) (store32 din (20 + 4 * i) free)
  Addresses-store kind free i din v low high j lt = elim (ℕ_discrete j i) [
    | yes e ↦
        let here : addr (store32 din (20 + 4 * i) free) j ≡ free =
          ap (λ x. addr (store32 din (20 + 4 * i) free) x) e
          ∙ load-store_self din (20 + 4 * i) free (omega (arith, high)) in
        rw (here, e) (Entry-fresh kind free (leb 10 i) low)
    | no ne ↦
        rw (load-store_ne din (20 + 4 * i) (20 + 4 * j) free (ground (arith, ne)))
          (Entry-taken kind free (addr din j) (leb 10 i) (leb 10 j) (v j lt))
  ]

  abbrev pub more :
      (k k' : ℕ) (din : Memory) (img : Image)
      → k ≤ k'
      → Filled base k din img
      → Filled base k' din img
  more k k' din img le f = record {
    kind = f.kind;
    sound = f.sound;
    addresses = f.addresses;
    small = f.small;
    most = omega (arith, f.most, le);
    freeinode_kept = f.freeinode_kept;
    kept = f.kept;
  }

  pub take_block-IsTaken :
      (k i : ℕ) (din : Memory) (img : Image)
      → Filled base k din img
      → i < 11
      → img.freeblock < fssize
      → IsTaken base
          (k + 1)
          ((take_block i (din, img)).0)
          ((take_block i (din, img)).1)
          (addr ((take_block i (din, img)).0) i)
          (leb 10 i)
  unfolding take_block
  take_block-IsTaken k i din img f lt high = elim (Bool-cases (addr din i == 0)) [
    | inr there ↦
        let (low, below, is) = known (f.addresses i lt) there in
        rw there (more k (k + 1) din img (omega arith) f, low, below, is)
    | inl missing ↦
        let e : addr (store32 din (20 + 4 * i) img.freeblock) i ≡ img.freeblock =
          load-store_self din (20 + 4 * i) img.freeblock (omega (arith, high)) in
        let same : (img.freeblock == img.freeblock) ≡ true = ground arith in
        rw (missing, e)
          (
            record {
              kind = taken f.kind img.freeblock (leb 10 i);
              sound = Sound-taken f.kind img (leb 10 i) f.sound high;
              addresses = Addresses-store f.kind img.freeblock i din f.addresses f.sound.low high;
              small = λ j. store32-lt din (20 + 4 * i) img.freeblock j f.small;
              most = omega (arith, f.most);
              freeinode_kept = f.freeinode_kept;
              kept = f.kept;
            },
            f.sound.low,
            omega arith,
            rw same refl,
          )
  ]
    where
      known :
          Entry f.kind img.freeblock (addr din i) (leb 10 i)
          → (addr din i == 0) ≡ false
          → (nmeta ≤ addr din i) × (addr din i < img.freeblock) × (f.kind (addr din i) ≡ leb 10 i)
      known (inl e) there = absurd (ground (arith, e, there))
      known (inr h) there = h

  -- The block of addresses with a new one.
  entries-store :
      (kind : ℕ → Bool) (free i : ℕ) (old : Memory)
      → ((j : ℕ) → j < 128 → Entry kind free (load32 old (4 * j)) false)
      → nmeta ≤ free
      → free < fssize
      → (j : ℕ) → j < 128
      → Entry (taken kind free false) (free + 1) (load32 (store32 old (4 * i) free) (4 * j)) false
  entries-store kind free i old v low high j lt = elim (ℕ_discrete j i) [
    | yes e ↦
        let here : load32 (store32 old (4 * i) free) (4 * j) ≡ free =
          ap (λ x. load32 (store32 old (4 * i) free) (4 * x)) e
          ∙ load-store_self old (4 * i) free (omega (arith, high)) in
        rw here (Entry-fresh kind free false low)
    | no ne ↦
        rw (load-store_ne old (4 * i) (4 * j) free (ground (arith, ne)))
          (Entry-taken kind free (load32 old (4 * j)) false false (v j lt))
  ]

  -- A block of data behind the block of addresses `table`.
  pub take_indirect-IsTaken :
      (k table i : ℕ) (din : Memory) (img : Image)
      → IsTaken base k din img table true
      → i < 128
      → img.freeblock < fssize
      → Returns (λ (x, img'). IsTaken base (k + 1) din img' x false) (take_indirect table i img)
  unfolding take_indirect
  take_indirect-IsTaken k table i din img (f, low, below, is) lt high =
      let inside : leb fssize table ≡ false = ground (arith, below, f.sound.high) in
      let old = img.sectors table in
      let entry = f.sound.tables table low below is i lt in
      elim (Bool-cases (load32 old (4 * i) == 0)) [
        | inr there ↦
            let (x_low, x_below, x_is) = known f entry there in
            rw (take_indirect, inside, there)
              (returns (more k (k + 1) din img (omega arith) f, x_low, x_below, x_is))
        | inl missing ↦
            let kind = taken f.kind img.freeblock false in
            let mid = record img { freeblock = img.freeblock + 1 } in
            let buf = store32 old (4 * i) img.freeblock in
            let same : (img.freeblock == img.freeblock) ≡ true = ground arith in
            rw (take_indirect, inside, missing)
              (returns (
                record {
                  kind = kind;
                  sound =
                      Sound-wsect kind mid table buf (Sound-taken f.kind img false f.sound high) low
                        (omega (arith, below))
                        (λ j. store32-lt old (4 * i) img.freeblock j (f.sound.bytes table))
                        (λ q.
                          entries-store f.kind img.freeblock i old
                            (f.sound.tables table low below is) f.sound.low high);
                  addresses = Addresses-taken f.kind img.freeblock din false f.addresses;
                  small = f.small;
                  most = omega (arith, f.most);
                  freeinode_kept = f.freeinode_kept;
                  kept = λ s lt. wsect_other table s buf mid (omega (arith, lt, low)) ∙ f.kept s lt;
                },
                f.sound.low,
                omega arith,
                rw same refl,
              ))
      ]
    where
      known :
          (f : Filled base k din img)
          → Entry f.kind img.freeblock (load32 (img.sectors table) (4 * i)) false
          → (load32 (img.sectors table) (4 * i) == 0) ≡ false
          → (nmeta ≤ load32 (img.sectors table) (4 * i))
            × (load32 (img.sectors table) (4 * i) < img.freeblock)
            × (f.kind (load32 (img.sectors table) (4 * i)) ≡ false)
      known f (inl e) there = absurd (ground (arith, e, there))
      known f (inr h) there = h
