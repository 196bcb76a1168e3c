-- ===== src/UserProcess/Process/Turns.antt =====
-- The two processes of 8.UserProcess take turns, and a system call returns its result.
use class_example.Prelude.{
  ℕ, ◌≡◌, ◌≢◌, ◌⊎◌, refl, some, List, ◌∷◌, ◌>>=◌, ◌==◌, get_elem?, true, false, arith,
}
use class_example.Prelude.Returns.{Returns, returns}
use class_example.UserProcess.Process.{Target, Proc, Os, context_switch, syscall_handler}

-- What two timer interrupts leave: the process that was interrupted first runs again, from the frame
-- saved then and on its page table, and the frame of the other one is saved.
pub record Returned (current other : ℕ) (x y : Proc) (s : Os) (out : Os × ℕ) : Type 0 where
  pub frame : out.1 ≡ current
  pub active : out.0.active ≡ some 0
  pub cr3 : out.0.cr3 ≡ x.pagetable
  pub first : get_elem? out.0.procs 0 ≡ some (record x { trapframe = current })
  pub second : get_elem? out.0.procs 1 ≡ some (record y { trapframe = other })
  pub frames : out.0.frames ≡ s.frames

module _ (m : Target) (s : Os) (x y : Proc) (others : List Proc) (current other : ℕ)
    (table : s.procs ≡ x ∷ y ∷ others) (timer : (s.frames current).event_type ≢ 0x80)
    (timer' : (s.frames other).event_type ≢ 0x80) (runs : s.active ≡ some 0) where
  -- With the kernel process and the user process in the first two slots and the first one running, two
  -- timer interrupts give the processor to the other one and back, to the frame saved first and on the
  -- first one's page table; both frames are recorded and none is changed.
  pub two_ticks-Returned :
      Returns
        (Returned current other x y s)
        (context_switch m current s >>= (λ (t : Os × ℕ). context_switch m other (t.0)))
  unfolding context_switch
  two_ticks-Returned =
      let irq : ((s.frames current).event_type == 0x80) ≡ false = ground (arith, timer) in
      let irq' : ((s.frames other).event_type == 0x80) ≡ false = ground (arith, timer') in
      rw (irq, runs, table, irq')
        (returns (record {
          frame = refl;
          active = refl;
          cr3 = refl;
          first = refl;
          second = refl;
          frames = refl;
        }))

-- The result of a system call: 0 for number 1, which is `SYSCALL_PRINT`, and the bits of -1 for any other.
abbrev pub Result : (syscall eax : ℕ) → Type 0
Result syscall eax = ((syscall ≡ 1) × (eax ≡ 0)) ⊎ ((syscall ≢ 1) × (eax ≡ 0xFFFFFFFF))

-- What the system call leaves: the result is in `eax` of the caller's frame, which is resumed; all else
-- is as before.
pub record Answered (current : ℕ) (s : Os) (out : Os × ℕ) : Type 0 where
  pub frame : out.1 ≡ current
  pub answer : Result (s.frames current).eax (out.0.frames current).eax
  pub resumes : (out.0.frames current).eip ≡ (s.frames current).eip
  pub others : (a : ℕ) → a ≢ current → out.0.frames a ≡ s.frames a
  pub procs : out.0.procs ≡ s.procs
  pub active : out.0.active ≡ s.active

-- A system call of the active process, in the frame that its table entry names, resumes that frame with
-- 0 in `eax` for `SYSCALL_PRINT` and -1 for any other number; no other frame and no process changes.
pub context_switch-Answered :
    (m : Target) (s : Os) (current i : ℕ) (x : Proc)
    → s.active ≡ some i
    → get_elem? s.procs i ≡ some x
    → x.trapframe ≡ current
    → current ≢ 0
    → (s.frames current).event_type ≡ 0x80
    → Returns (Answered current s) (context_switch m current s)
unfolding context_switch syscall_handler
context_switch-Answered m s current i x runs at_i here ne call =
    let soft : ((s.frames current).event_type == 0x80) ≡ true = ground (arith, call) in
    let valid : (current == 0) ≡ false = ground (arith, ne) in
    rw (soft, runs, at_i, here, valid)
      (returns (record {
        frame = refl;
        answer = ground arith;
        resumes = ground arith;
        others = λ a other. ground (arith, other);
        procs = refl;
        active = refl;
      }))
