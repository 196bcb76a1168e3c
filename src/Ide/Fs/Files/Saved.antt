-- ===== src/Ide/Fs/Files/Saved.antt =====
-- What a write of A.ide/src/file.c leaves, and one write behind another.
use class_example.Prelude.{
  ℕ, ◌+◌, ◌-◌, ◌*◌, ◌≤◌, ◌<◌, ◌≡◌, ◌⊎◌, inl, inr, ap, subst, sym, ◌∙◌, arith, if◌then◌else◌, ltb,
  ltb→lt, Bool-cases,
}
use class_example.Memory.{Memory}
use class_example.Ide.Fs.{bsize}
use class_example.Ide.Fs.Inode.{Inode}
use class_example.Ide.Fs.File.{content, beyond, not_before}
use class_example.Ide.Fs.Files.{File, Files}
use class_example.Ide.Fs.Files.Open.{IsOpen, grown}

-- What a write of `n` bytes from `src` to the open file leaves.
pub record Saved (address : ℕ → ℕ) (k i : ℕ) (f : File) (ip : Inode) (s : Files) (src n : ℕ)
    (s' : Files) : Type 0 where
  pub still :
      IsOpen address k i
        (record f { off = f.off + n })
        (record ip { size = if ltb ip.size (f.off + n) then f.off + n else ip.size })
        s'
  pub memory_kept : s'.memory ≡ s.memory
  pub bytes : (d : ℕ) → d < n → content ip.dev s'.fs.blocks address (f.off + d) ≡ s.memory (src + d)
  pub others :
      (j : ℕ)
      → j < k * bsize
      → (j < f.off) ⊎ (f.off + n ≤ j)
      → content ip.dev s'.fs.blocks address j ≡ content ip.dev s.fs.blocks address j

module _ (address : ℕ → ℕ) (k i : ℕ) where
  -- One write behind another.
  pub Saved-trans :
      (f : File) (ip : Inode) (src a b : ℕ) (s s1 s2 : Files)
      → Saved address k i f ip s src a s1
      → Saved address k i (record f { off = f.off + a }) (grown ip (f.off + a)) s1 (src + a) b s2
      → Saved address k i f ip s src (a + b) s2
  Saved-trans f ip src a b s s1 s2 t u =
      let off_e : f.off + a + b ≡ f.off + (a + b) = omega arith in
      let size_e : (if ltb (grown ip (f.off + a)).size (f.off + a + b)
            then f.off + a + b
            else (grown ip (f.off + a)).size)
          ≡ (if ltb ip.size (f.off + (a + b)) then f.off + (a + b) else ip.size) =
        ground arith in
      record {
        still =
            subst
              (λ x.
                IsOpen address k i (record f { off = x })
                  (record ip {
                    size = if ltb ip.size (f.off + (a + b)) then f.off + (a + b) else ip.size;
                  })
                  s2)
              off_e
              (subst
                (λ x.
                  IsOpen address k i (record f { off = f.off + a + b }) (record ip { size = x }) s2)
                size_e u.still);
        memory_kept = u.memory_kept ∙ t.memory_kept;
        bytes = λ d lt. elim (Bool-cases (ltb d a)) [
          | inl now ↦
              u.others (f.off + d) (omega (arith, ltb→lt d a now, u.still.in_file, u.still.held))
                (inl (omega (arith, ltb→lt d a now)))
              ∙ t.bytes d (ltb→lt d a now)
          | inr later ↦
              ap (content ip.dev s2.fs.blocks address) (beyond f.off a d later)
              ∙ u.bytes (d - a) (omega (arith, lt, not_before d a later))
              ∙ ap (λ (m : Memory). m (src + a + (d - a))) t.memory_kept
              ∙ ap s.memory (sym (beyond src a d later))
        ];
        others = λ j lt away.
            u.others j lt (ground (arith, away)) ∙ t.others j lt (ground (arith, away));
      }

  -- What the rest of the loop writes behind the first `m` bytes.
  pub Saved-rest :
      (f : File) (ip : Inode) (addr done n m : ℕ) (s s1 s2 : Files)
      → done + m ≤ n
      → Saved address k i f ip s (addr + done) m s1
      → Saved address k i
          (record f { off = f.off + m })
          (grown ip (f.off + m))
          s1
          (addr + (done + m))
          (n - (done + m))
          s2
      → Saved address k i f ip s (addr + done) (n - done) s2
  Saved-rest f ip addr done n m s s1 s2 le t u =
      let src_e : addr + (done + m) ≡ addr + done + m = omega arith in
      let n_e : m + (n - (done + m)) ≡ n - done = omega (arith, le) in
      subst (λ x. Saved address k i f ip s (addr + done) x s2) n_e
        (Saved-trans f ip (addr + done) m (n - (done + m)) s s1 s2 t (
          subst
            (λ x.
              Saved address k i (record f { off = f.off + m }) (grown ip (f.off + m)) s1 x
                (n - (done + m)) s2)
            src_e u))
