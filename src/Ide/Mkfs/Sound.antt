-- ===== src/Ide/Mkfs/Sound.antt =====
-- What stays true of the image while A.ide/tools/mkfs.c fills it.
use class_example.Prelude.{
  ℕ, ◌+◌, ◌-◌, ◌*◌, ◌≤◌, ◌<◌, ◌≡◌, ◌≢◌, ◌⊎◌, inl, inr, refl, ap, subst, sym, ◌∙◌, fun_ext, Bool,
  true, false, some, arith, if◌then◌else◌, ◌==◌, ◌&&◌, ltb, leb,
}
use native.Mathlib.Decide.{ℕ_discrete}
use class_example.Memory.{Memory, load32}
use class_example.Ide.Fs.{iblock, dinode_size}
use class_example.Ide.Fs.Inode.{dinode_at}
use class_example.Ide.Fs.Content.{copy}
use class_example.Ide.Drive.{fssize}
use class_example.Ide.Mkfs.{Image, nmeta, super_block, wsect, winode, rinode, addr}

-- Each block that has been taken is a block of addresses, where `kind` is true, or holds data.
abbrev pub Entry : (kind : ℕ → Bool) (free a : ℕ) (table : Bool) → Type 0
Entry kind free a table = (a ≡ 0) ⊎ ((nmeta ≤ a) × (a < free) × (kind a ≡ table))

-- The addresses of an inode, the last one that of a block of addresses.
abbrev pub Addresses : (kind : ℕ → Bool) (free : ℕ) → Memory → Type 0
Addresses kind free din = (i : ℕ) → i < 11 → Entry kind free (addr din i) (leb 10 i)

-- The 64 bytes of inode `inum`.
abbrev pub dinode : ℕ → Image → Memory
dinode inum img i = img.sectors (iblock inum) (dinode_at inum + i)

-- The inodes that lie in front of the bitmap.
abbrev pub room : ℕ
room = 208

pub record Sound (kind : ℕ → Bool) (img : Image) : Type 0 where
  pub superblock : img.sectors 1 ≡ super_block
  pub low : nmeta ≤ img.freeblock
  pub high : img.freeblock ≤ fssize
  pub inodes : (inum : ℕ) → inum < room → Addresses kind img.freeblock (dinode inum img)
  pub tables :
      (s : ℕ)
      → nmeta ≤ s
      → s < img.freeblock
      → kind s ≡ true
      → (j : ℕ) → j < 128
      → Entry kind img.freeblock (load32 (img.sectors s) (4 * j)) false
  pub unused : (s i : ℕ) → img.freeblock ≤ s → img.sectors s i ≡ 0
  pub bytes : (s i : ℕ) → img.sectors s i < 256

-- Block `free` is taken as `table` says.
abbrev pub taken : (ℕ → Bool) → (free : ℕ) → (table : Bool) → ℕ → Bool
taken kind free table a = if a == free then table else kind a

taken_other :
    (kind : ℕ → Bool) (free a : ℕ) (new : Bool) → a ≢ free → taken kind free new a ≡ kind a
taken_other kind free a new ne = let e : (a == free) ≡ false = ground (arith, ne) in rw e refl

pub Entry-taken :
    (kind : ℕ → Bool) (free a : ℕ) (new table : Bool)
    → Entry kind free a table
    → Entry (taken kind free new) (free + 1) a table
Entry-taken kind free a new table (inl e) = inl e
Entry-taken kind free a new table (inr (low, lt, k)) =
    let ne : (a == free) ≡ false = ground (arith, lt) in inr (low, omega (arith, lt), rw ne k)

pub Entry-fresh :
    (kind : ℕ → Bool) (free : ℕ) (table : Bool)
    → nmeta ≤ free
    → Entry (taken kind free table) (free + 1) free table
Entry-fresh kind free table low =
    let e : (free == free) ≡ true = ground arith in inr (low, omega arith, rw e refl)

pub Addresses-taken :
    (kind : ℕ → Bool) (free : ℕ) (din : Memory) (new : Bool)
    → Addresses kind free din
    → Addresses (taken kind free new) (free + 1) din
Addresses-taken kind free din new v i lt =
    Entry-taken kind free (addr din i) new (leb 10 i) (v i lt)

pub load32-zero : (f : Memory) (a : ℕ) → ((i : ℕ) → f i ≡ 0) → load32 f a ≡ 0
unfolding load32
load32-zero f a h = rw (h a, h (a + 1), h (a + 2), h (a + 3)) refl

-- A new block holds zeros.
pub Sound-taken :
    (kind : ℕ → Bool) (img : Image) (new : Bool)
    → Sound kind img
    → img.freeblock < fssize
    → Sound (taken kind img.freeblock new) (record img { freeblock = img.freeblock + 1 })
Sound-taken kind img new v lt = record {
  superblock = v.superblock;
  low = omega (arith, v.low);
  high = omega (arith, lt);
  inodes = λ inum h. Addresses-taken kind img.freeblock (dinode inum img) new (v.inodes inum h);
  tables = λ s low below k j j_lt. elim (ℕ_discrete s img.freeblock) [
    | yes e ↦ inl (load32-zero (img.sectors s) (4 * j) (λ i. v.unused s i (omega (arith, e))))
    | no ne ↦
        let k' : kind s ≡ true = sym (taken_other kind img.freeblock s new ne) ∙ k in
        Entry-taken kind img.freeblock (load32 (img.sectors s) (4 * j)) new false
          (v.tables s low (omega (arith, below, ne)) k' j j_lt)
  ];
  unused = λ s i h. v.unused s i (omega (arith, h));
  bytes = v.bytes;
}

wsect_self : (x : ℕ) (buf : Memory) (img : Image) (i : ℕ) → (wsect x buf img).sectors x i ≡ buf i
wsect_self x buf img i = let e : (x == x) ≡ true = ground arith in rw e refl

pub wsect_other :
    (x s : ℕ) (buf : Memory) (img : Image) → s ≢ x → (wsect x buf img).sectors s ≡ img.sectors s
wsect_other x s buf img ne =
    let e : (s == x) ≡ false = ground (arith, ne) in fun_ext (λ i. pick e i)
  where
    pick : (s == x) ≡ false → (i : ℕ) → (wsect x buf img).sectors s i ≡ img.sectors s i
    pick e i = rw e refl

bytes_after :
    (x : ℕ) (buf : Memory) (img : Image) (s i : ℕ)
    → ((i : ℕ) → buf i < 256)
    → img.sectors s i < 256
    → (wsect x buf img).sectors s i < 256
bytes_after x buf img s i new old = ground (arith, new i, old)

same_dinode :
    (x : ℕ) (buf : Memory) (img : Image) (inum : ℕ)
    → nmeta ≤ x
    → inum < room
    → dinode inum (wsect x buf img) ≡ dinode inum img
same_dinode x buf img inum low lt =
    let e = wsect_other x (iblock inum) buf img (omega (arith, low, lt)) in
    fun_ext (λ i. ap (λ (f : Memory). f (dinode_at inum + i)) e)

-- A block is written that is taken, a block of addresses with addresses.
pub Sound-wsect :
    (kind : ℕ → Bool) (img : Image) (x : ℕ) (buf : Memory)
    → Sound kind img
    → nmeta ≤ x
    → x < img.freeblock
    → ((i : ℕ) → buf i < 256)
    → (kind x ≡ true → (j : ℕ) → j < 128 → Entry kind img.freeblock (load32 buf (4 * j)) false)
    → Sound kind (wsect x buf img)
Sound-wsect kind img x buf v low lt small entries = record {
  superblock = wsect_other x 1 buf img (omega (arith, low)) ∙ v.superblock;
  low = v.low;
  high = v.high;
  inodes = λ inum h.
      subst (Addresses kind img.freeblock) (sym (same_dinode x buf img inum low h))
        (v.inodes inum h);
  tables = λ s s_low below k j j_lt. elim (ℕ_discrete s x) [
    | yes e ↦
        let here : (wsect x buf img).sectors s ≡ buf =
          ap (wsect x buf img).sectors e ∙ fun_ext (wsect_self x buf img) in
        rw here (entries (ap kind (sym e) ∙ k) j j_lt)
    | no ne ↦ rw (wsect_other x s buf img ne) (v.tables s s_low below k j j_lt)
  ];
  unused = λ s i h.
      ap (λ (f : Memory). f i) (wsect_other x s buf img (omega (arith, h, lt))) ∙ v.unused s i h;
  bytes = λ s i. bytes_after x buf img s i small (v.bytes s i);
}

-- The sector of an inode after `winode`.
abbrev pub with_dinode : (inum : ℕ) → Memory → Image → Image
with_dinode inum din img =
    wsect (iblock inum) (copy din 0 (img.sectors (iblock inum)) (dinode_at inum) dinode_size) img

pub winode_lem :
    (inum : ℕ) (din : Memory) (img : Image)
    → inum < room
    → winode inum din img ≡ some (with_dinode inum din img)
unfolding winode
winode_lem inum din img lt =
    let inside : leb fssize (iblock inum) ≡ false = ground (arith, lt) in rw (winode, inside) refl

pub rinode_lem : (inum : ℕ) (img : Image) → inum < room → rinode inum img ≡ some (dinode inum img)
unfolding rinode
rinode_lem inum img lt =
    let inside : leb fssize (iblock inum) ≡ false = ground (arith, lt) in rw (rinode, inside) refl

pub dinode_self :
    (inum : ℕ) (din : Memory) (img : Image) (i : ℕ)
    → i < dinode_size
    → dinode inum (with_dinode inum din img) i ≡ din i
dinode_self inum din img i lt =
    let e : (iblock inum == iblock inum) ≡ true = ground arith in
    let inside : (leb (dinode_at inum) (dinode_at inum + i)
          && ltb (dinode_at inum + i) (dinode_at inum + dinode_size))
        ≡ true =
      ground (arith, lt) in
    let at : 0 + (dinode_at inum + i - dinode_at inum) ≡ i = omega arith in rw (e, inside, at) refl

pub dinode_other :
    (inum other : ℕ) (din : Memory) (img : Image) (i : ℕ)
    → i < dinode_size
    → other ≢ inum
    → dinode other (with_dinode inum din img) i ≡ dinode other img i
dinode_other inum other din img i lt ne = elim (ℕ_discrete (iblock other) (iblock inum)) [
  | no apart ↦
      ap (λ (f : Memory). f (dinode_at other + i))
        (wsect_other (iblock inum) (iblock other)
          (copy din 0 (img.sectors (iblock inum)) (dinode_at inum) dinode_size) img apart)
  | yes same ↦
      let e : (iblock other == iblock inum) ≡ true = ground (arith, same) in
      let outside : (leb (dinode_at inum) (dinode_at other + i)
            && ltb (dinode_at other + i) (dinode_at inum + dinode_size))
          ≡ false =
        ground (arith, lt, ne, same) in
      rw (e, outside) (ap (λ s. img.sectors s (dinode_at other + i)) (sym same))
]

pub load32-ext :
    (f g : Memory) (a n : ℕ) → ((i : ℕ) → i < n → f i ≡ g i) → a + 4 ≤ n → load32 f a ≡ load32 g a
unfolding load32
load32-ext f g a n h le =
    rw
      (
        h a (omega (arith, le)),
        h (a + 1) (omega (arith, le)),
        h (a + 2) (omega (arith, le)),
        h (a + 3) (omega (arith, le)),
      )
      refl

Addresses-ext :
    (kind : ℕ → Bool) (free : ℕ) (f g : Memory)
    → ((i : ℕ) → i < dinode_size → f i ≡ g i)
    → Addresses kind free g
    → Addresses kind free f
Addresses-ext kind free f g same v i lt =
    subst (λ a. Entry kind free a (leb 10 i))
      (sym (load32-ext f g (20 + 4 * i) dinode_size same (omega (arith, lt)))) (v i lt)

-- An inode is written whose addresses are those of blocks that are taken.
pub Sound-winode :
    (kind : ℕ → Bool) (img : Image) (inum : ℕ) (din : Memory)
    → Sound kind img
    → inum < room
    → Addresses kind img.freeblock din
    → ((i : ℕ) → din i < 256)
    → Sound kind (with_dinode inum din img)
Sound-winode kind img inum din v lt addresses small =
    let buf = copy din 0 (img.sectors (iblock inum)) (dinode_at inum) dinode_size in
    record {
      superblock = wsect_other (iblock inum) 1 buf img (omega arith) ∙ v.superblock;
      low = v.low;
      high = v.high;
      inodes = λ other other_lt. elim (ℕ_discrete other inum) [
        | yes e ↦
            subst (λ x. Addresses kind img.freeblock (dinode x (with_dinode inum din img))) (sym e)
              (Addresses-ext kind img.freeblock (dinode inum (with_dinode inum din img)) din
                (dinode_self inum din img) addresses)
        | no ne ↦
            Addresses-ext kind img.freeblock (dinode other (with_dinode inum din img))
              (dinode other img) (λ i i_lt. dinode_other inum other din img i i_lt ne)
              (v.inodes other other_lt)
      ];
      tables = λ s low below k j j_lt.
          let e = wsect_other (iblock inum) s buf img (omega (arith, low, lt)) in
          subst (λ (f : Memory). Entry kind img.freeblock (load32 f (4 * j)) false) (sym e)
            (v.tables s low below k j j_lt);
      unused = λ s i h.
          ap (λ (f : Memory). f i)
            (wsect_other (iblock inum) s buf img (omega (arith, h, lt, v.low)))
          ∙ v.unused s i h;
      bytes = λ s i.
          bytes_after (iblock inum) buf img s i
            (λ j. ground (arith, small (0 + (j - dinode_at inum)), v.bytes (iblock inum) j))
            (v.bytes s i);
    }
