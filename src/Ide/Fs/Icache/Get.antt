-- ===== src/Ide/Fs/Icache/Get.antt =====
-- `iget` and `iput` of A.ide/src/fs.c: an inode of a device has at most one entry in use, and the counts of the
-- references.
use class_example.Prelude.{
  ℕ, zero, suc, ◌+◌, ◌-◌, ◌^◌, ◌<◌, ◌≡◌, ◌≢◌, ◌⊎◌, inl, inr, refl, ap, sym, ◌∙◌, true, false,
  Option, none, some, List, [], ◌∷◌, arith, is_positive, increment, get_elem?, set, length, All,
  Bool-cases, lt-get_elem?, get_elem?-set_self, get_elem?-set_ne, All-get_elem?,
}
use class_example.Prelude.Returns.{Returns, returns}
use mathlib.Core.Option.{some-injective}
use native.Mathlib.Decide.{ℕ_discrete}
use class_example.Ide.Fs.Inode.{Inode}
use class_example.Ide.Fs.Icache.{Fs, is_cached, remember, iget_scan, recycled, take_entry, iget}

-- Entry `j` of a list that begins with entry `i`.
abbrev pub At : List Inode → (i j : ℕ) → (Inode → Type 0) → Type 0
At ips i j P = (d : ℕ) × (ip : Inode) × (j ≡ i + d) × (get_elem? ips d ≡ some ip) × P ip

-- What the scan from entry `i` on returns.
abbrev pub Scanned : (dev inum : ℕ) → List Inode → (i : ℕ) → Option ℕ → Option ℕ × Option ℕ → Type 0
Scanned dev inum ips i empty (some j, _) = At ips i j (λ ip. is_cached dev inum ip ≡ true)
Scanned dev inum ips i empty (none, none) =
    (empty ≡ none)
    × (All (λ ip. is_cached dev inum ip ≡ false) ips × All (λ (ip : Inode). ip.ref ≢ 0) ips)
Scanned dev inum ips i empty (none, some j) =
    All (λ ip. is_cached dev inum ip ≡ false) ips
    × ((empty ≡ some j) ⊎ At ips i j (λ ip. ip.ref ≡ 0))

At-next :
    (ip : Inode) (ips : List Inode) (i j : ℕ) (P : Inode → Type 0)
    → At ips (i + 1) j P
    → At (ip ∷ ips) i j P
At-next ip ips i j P (d, x, e, at, h) = (suc d, x, omega (arith, e), at, h)

module _ (dev inum : ℕ) where
  next :
      (ip : Inode) (ips : List Inode) (i : ℕ) (empty : Option ℕ) (out : Option ℕ × Option ℕ)
      → is_cached dev inum ip ≡ false
      → Scanned dev inum ips (i + 1) (remember empty i ip) out
      → Scanned dev inum (ip ∷ ips) i empty out
  next ip ips i empty (some j, e) miss t = At-next ip ips i j (λ x. is_cached dev inum x ≡ true) t
  next ip ips i (some e) (none, none) miss (q, t) = absurd (ground (arith, q))
  next ip ips i none (none, none) miss (q, (t, u)) = (refl, ((miss, t), (ground (arith, q), u)))
  next ip ips i (some e) (none, some j) miss (t, inl q) = ((miss, t), inl q)
  next ip ips i (some e) (none, some j) miss (t, inr a) =
      ((miss, t), inr (At-next ip ips i j (λ x. x.ref ≡ 0) a))
  next ip ips i none (none, some j) miss (t, inr a) =
      ((miss, t), inr (At-next ip ips i j (λ x. x.ref ≡ 0) a))
  next ip ips i none (none, some j) miss (t, inl q) =
      ((miss, t), inr (zero, ip, ground (arith, q), refl, ground (arith, q)))

  iget_scan-Scanned :
      (ips : List Inode) (i : ℕ) (empty : Option ℕ)
      → Scanned dev inum ips i empty (iget_scan dev inum ips i empty)
  unfolding iget_scan
  iget_scan-Scanned [] i none = (refl, (tt, tt))
  iget_scan-Scanned [] i (some e) = (tt, inl refl)
  iget_scan-Scanned (ip ∷ ips) i empty = elim (Bool-cases (is_cached dev inum ip)) [
    | inl hit ↦ rw hit (zero, ip, omega arith, refl, hit)
    | inr miss ↦ rw miss (
        next ip ips i empty (iget_scan dev inum ips (i + 1) (remember empty i ip)) miss
          (iget_scan-Scanned ips (i + 1) (remember empty i ip)))
  ]

-- An inode of a device has at most one entry in use.
abbrev pub IsCache : List Inode → Type 0
IsCache ips =
    (i j : ℕ) (a b : Inode)
    → get_elem? ips i ≡ some a
    → get_elem? ips j ≡ some b
    → is_positive a.ref ≡ true
    → is_positive b.ref ≡ true
    → a.dev ≡ b.dev
    → a.inum ≡ b.inum
    → i ≡ j

set-IsCache :
    (ips : List Inode) (i : ℕ) (x : Inode)
    → i < length ips
    → IsCache ips
    → ((j : ℕ) (b : Inode)
        → j ≢ i
        → get_elem? ips j ≡ some b
        → is_positive b.ref ≡ true
        → b.dev ≡ x.dev
        → b.inum ≡ x.inum
        → ⊥)
    → IsCache (set ips i x)
set-IsCache ips i x lt v alone p q a b at_p at_q a_pos b_pos same_dev same_inum =
    let self = get_elem?-set_self ips i x lt in
    elim (ℕ_discrete p i) [
      | yes p_i ↦ elim (ℕ_discrete q i) [
        | yes q_i ↦ p_i ∙ sym q_i
        | no q_ne ↦
            let at_q' : get_elem? ips q ≡ some b =
              sym (get_elem?-set_ne ips i q x (λ e. q_ne (sym e))) ∙ at_q in
            let a_x : x ≡ a =
              some-injective x a (sym self ∙ ap (get_elem? (set ips i x)) (sym p_i) ∙ at_p) in
            absurd (
              alone q b q_ne at_q' b_pos (sym same_dev ∙ ap (λ (y : Inode). y.dev) (sym a_x))
                (sym same_inum ∙ ap (λ (y : Inode). y.inum) (sym a_x)))
      ]
      | no p_ne ↦
          let at_p' : get_elem? ips p ≡ some a =
            sym (get_elem?-set_ne ips i p x (λ e. p_ne (sym e))) ∙ at_p in
          elim (ℕ_discrete q i) [
            | yes q_i ↦
                let b_x : x ≡ b =
                  some-injective x b (sym self ∙ ap (get_elem? (set ips i x)) (sym q_i) ∙ at_q) in
                absurd (
                  alone p a p_ne at_p' a_pos (same_dev ∙ ap (λ (y : Inode). y.dev) (sym b_x))
                    (same_inum ∙ ap (λ (y : Inode). y.inum) (sym b_x)))
            | no q_ne ↦
                v p q a b at_p' (sym (get_elem?-set_ne ips i q x (λ e. q_ne (sym e))) ∙ at_q) a_pos
                  b_pos same_dev same_inum
          ]
    ]

-- What `iget` returns: the entry of the inode with one more reference and nothing else changed, or a free entry
-- with the inode's number, one reference and no flag.
pub record Referenced (dev inum : ℕ) (s : Fs) (i : ℕ) (s' : Fs) : Type 0 where
  pub old : Inode
  pub old_at : get_elem? s.icache i ≡ some old
  pub entry : Inode
  pub entry_at : get_elem? s'.icache i ≡ some entry
  pub identity : (entry.dev ≡ dev) × (entry.inum ≡ inum)
  pub counted :
      ((is_cached dev inum old ≡ true) × (entry ≡ record old { ref = old.ref + 1 }))
      ⊎ ((old.ref ≡ 0) × (entry ≡ record old { dev = dev; inum = inum; ref = 1; flags = 0 }))
  pub others : (j : ℕ) → j ≢ i → get_elem? s'.icache j ≡ get_elem? s.icache j
  pub blocks_kept : s'.blocks ≡ s.blocks
  pub unique : IsCache s'.icache

-- The null pointer is returned only when the inode has no entry and every entry is in use.
abbrev pub Answer : (dev inum : ℕ) → Fs → Option ℕ × Fs → Type 0
Answer dev inum s (none, s') =
    (s' ≡ s)
    × (All (λ ip. is_cached dev inum ip ≡ false) s.icache
        × All (λ (ip : Inode). ip.ref ≢ 0) s.icache)
Answer dev inum s (some i, s') = Referenced dev inum s i s'

module _ (dev inum : ℕ) (s : Fs) (v : IsCache s.icache)
    (counts : All (λ (ip : Inode). ip.ref < 2 ^ 31 - 1) s.icache) where
  at_entry :
      (ips : List Inode) (d j : ℕ) (ip : Inode)
      → j ≡ 0 + d
      → get_elem? ips d ≡ some ip
      → get_elem? ips j ≡ some ip
  at_entry ips d j ip e at = ap (get_elem? ips) (omega (arith, e)) ∙ at

  taken :
      (out : Option ℕ × Option ℕ)
      → Scanned dev inum s.icache 0 none out
      → Returns (Answer dev inum s) (take_entry dev inum out s)
  taken (some j, e) (d, ip, q, at, hit) =
      let here = at_entry s.icache d j ip q at in
      let small = All-get_elem? (λ (x : Inode). x.ref < 2 ^ 31 - 1) s.icache j counts here in
      let j_lt = lt-get_elem? s.icache j here in
      let ip' = record ip { ref = increment ip.ref } in
      rw here (
        returns (record {
          old = ip;
          old_at = here;
          entry = ip';
          entry_at = get_elem?-set_self s.icache j ip' j_lt;
          identity = (ground (arith, hit), ground (arith, hit));
          counted = inl (hit, ap (λ x. record ip { ref = x }) (omega (arith, small)));
          others = λ k ne. get_elem?-set_ne s.icache j k ip' (λ e. ne (sym e));
          blocks_kept = refl;
          unique = set-IsCache s.icache j ip' j_lt v (λ k b ne at_k b_pos d_eq i_eq.
              ne (v k j b ip at_k here b_pos (ground (arith, hit)) d_eq i_eq));
        }))
  taken (none, none) (_, (miss, busy)) = returns (refl, (miss, busy))
  taken (none, some j) (miss, inl q) = absurd (ground (arith, q))
  taken (none, some j) (miss, inr (d, ip, q, at, free)) =
      let here = at_entry s.icache d j ip q at in
      let j_lt = lt-get_elem? s.icache j here in
      let ip' = recycled dev inum ip in
      rw here (
        returns (record {
          old = ip;
          old_at = here;
          entry = ip';
          entry_at = get_elem?-set_self s.icache j ip' j_lt;
          identity = (refl, refl);
          counted = inr (free, refl);
          others = λ k ne. get_elem?-set_ne s.icache j k ip' (λ e. ne (sym e));
          blocks_kept = refl;
          unique = set-IsCache s.icache j ip' j_lt v (λ k b ne at_k b_pos d_eq i_eq.
              let no_hit = All-get_elem? (λ x. is_cached dev inum x ≡ false) s.icache k miss at_k in
              ground (arith, no_hit, b_pos, d_eq, i_eq));
        }))

  -- In a cache in which an inode has at most one entry in use, and with counts of references far from
  -- overflow, `iget` returns the entry of the inode with one more reference and nothing else of it changed; or a
  -- free entry, with the device and the number of the inode, one reference and no flag, so that it is not valid; or
  -- null when there is neither. No other entry and no block changes, and still no inode has two.
  pub iget-Answer : Returns (Answer dev inum s) (iget dev inum s)
  unfolding iget
  iget-Answer =
      taken (iget_scan dev inum s.icache 0 none) (iget_scan-Scanned dev inum s.icache 0 none)
