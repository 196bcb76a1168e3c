-- ===== src/Ide/Drive.antt =====
-- A.ide/src/ide.c, the driver of the disk, with bread and bwrite of A.ide/src/bio.c. Buffers are named as in
-- Bcache. The waits of `idewait` for the controller change no memory and are left out.
-- The interrupts that come in while `iderw` waits are a list; each has what the controller answers: the data of
-- the block, or `none` when the status shows an error.
pub mod Requests
pub mod Interrupt
pub mod Served
mod Examples
use class_example.Prelude.{
  ℕ, zero, suc, ◌+◌, ◌*◌, ◌/◌, ◌%◌, ◌^◌, Bool, true, false, not, Option, none, some, List, [], ◌∷◌,
  ◌>>=◌, if◌then◌else◌, ◌==◌, ◌&&◌, leb,
}
use class_example.Memory.{Memory}
use class_example.Ide.Fs.{bsize}
use class_example.Ide.Bcache.{Cache, put, is_busy, is_dirty, bget}

-- `FSSIZE`
abbrev pub fssize : ℕ
fssize = 1000

abbrev pub ide_cmd_read : ℕ
ide_cmd_read = 0x20

abbrev pub ide_cmd_write : ℕ
ide_cmd_write = 0x30

-- What goes to the controller: `outb`, and `outsl` of the words of a buffer.
pub data Out : Type 0 where
  outb : (port value : ℕ) → Out
  outsl : (port words : ℕ) → Memory → Out

-- The fields of the buffers, `idequeue`, `havedisk1`, and all that went to the controller, the latest first.
pub record Drive : Type 0 where
  pub cache : Cache
  pub qnext : ℕ → Option ℕ
  pub bytes : ℕ → Memory
  pub idequeue : Option ℕ
  pub havedisk1 : Bool
  pub sent : List Out

-- `flags & B_VALID`, and the flags after `b->flags |= B_VALID; b->flags &= ~B_DIRTY`, after `|= B_DIRTY`.
abbrev pub is_filled : ℕ → Bool
is_filled flags = flags / 2 % 2 == 1

abbrev pub served_flags : ℕ → ℕ
served_flags flags = flags / 8 * 8 + 2 + flags % 2

abbrev pub dirty_flags : ℕ → ℕ
dirty_flags flags = flags / 8 * 8 + 4 + flags % 4

-- `(flags & (B_VALID|B_DIRTY)) == B_VALID`
abbrev pub is_synced : ℕ → Bool
is_synced flags = is_filled flags && not (is_dirty flags)

-- A field of buffer `i` is set to `v`.
abbrev pub put_at {ℓ} : {A : Type ℓ} → (ℕ → A) → ℕ → A → ℕ → A
put_at f i v j = if j == i then v else f j

abbrev pub set_flags : ℕ → ℕ → Drive → Drive
set_flags b flags s = record s { cache = record (s.cache) { flags = put s.cache.flags b flags } }

-- The commands for one block, which is one sector.
abbrev pub command : (dev sector : ℕ) (dirty : Bool) → Memory → List Out → List Out
command dev sector dirty bytes sent =
    let address =
      outb 0x1F6 (0xe0 + dev % 2 * 16 + sector / 2 ^ 24 % 16)
      ∷ outb 0x1F5 (sector / 2 ^ 16 % 256)
      ∷ outb 0x1F4 (sector / 2 ^ 8 % 256)
      ∷ outb 0x1F3 (sector % 256)
      ∷ outb 0x1F2 1
      ∷ outb 0x3F6 0
      ∷ sent in
    if dirty
    then outsl 0x1F0 (bsize / 4) bytes ∷ outb 0x1F7 ide_cmd_write ∷ address
    else outb 0x1F7 ide_cmd_read ∷ address

-- A block behind the end of the file system is not started.
unfoldable pub idestart : ℕ → Drive → Drive
idestart b s = record s {
  sent =
      if leb fssize (s.cache.blockno b)
      then s.sent
      else command (s.cache.dev b) (s.cache.blockno b) (is_dirty (s.cache.flags b)) (s.bytes b)
          s.sent;
}

-- `if(idequeue != 0) idestart(idequeue)`; only commands are sent.
abbrev pub start_next : Drive → Drive
start_next s = record s { sent = elim s.idequeue [ none ↦ s.sent | some b ↦ (idestart b s).sent ] }

-- `insl` into a buffer that is not dirty.
abbrev pub take_answer : ℕ → Option Memory → Drive → Drive
take_answer b answer s = record s {
  bytes =
      if is_dirty (s.cache.flags b)
      then s.bytes
      else elim answer [ none ↦ s.bytes | some words ↦ put_at s.bytes b words ];
}

unfoldable pub ide_irq_handler : Option Memory → Drive → Drive
ide_irq_handler answer s = elim s.idequeue [
  | none ↦ s
  | some b ↦
      let s1 = take_answer b answer (record s { idequeue = s.qnext b }) in
      start_next (set_flags b (served_flags (s1.cache.flags b)) s1)
]

-- The last buffer of the queue that goes on behind `b`, with fuel.
unfoldable pub last_from : (fuel b : ℕ) → (ℕ → Option ℕ) → ℕ
last_from zero b qnext = b
last_from (suc fuel) b qnext = elim (qnext b) [ none ↦ b | some c ↦ last_from fuel c qnext ]

-- `b` is appended to the queue, of at most `fuel` buffers.
unfoldable pub append_request : (fuel b : ℕ) → Drive → Drive
append_request fuel b s =
    let q = put_at s.qnext b none in
    record s {
      qnext = elim s.idequeue [
        | none ↦ q
        | some first ↦ put_at q (last_from fuel first q) (some b)
      ];
      idequeue = elim s.idequeue [ none ↦ some b | some first ↦ some first ];
    }

-- `if(idequeue == b) idestart(b)`
abbrev pub start_if_first : ℕ → Drive → Drive
start_if_first b s = record s {
  sent = elim s.idequeue [
    | none ↦ s.sent
    | some first ↦ if first == b then (idestart b s).sent else s.sent
  ];
}

-- The wait for the request; `none` when the interrupts are over before.
unfoldable pub wait_for : ℕ → List (Option Memory) → Drive → Option (Drive × List (Option Memory))
wait_for b [] s = if is_synced (s.cache.flags b) then some (s, []) else none
wait_for b (answer ∷ answers) s =
    let rest = wait_for b answers (ide_irq_handler answer s) in
    if is_synced (s.cache.flags b) then some (s, answer ∷ answers) else rest

-- All buffers and `bcache.head` may be in the queue: 31.
unfoldable pub iderw : ℕ → List (Option Memory) → Drive → Option (Drive × List (Option Memory))
iderw b answers s =
    if not (is_busy (s.cache.flags b))
    then some (s, answers)
    else if is_synced (s.cache.flags b)
    then some (s, answers)
    else if not (s.cache.dev b == 0) && not s.havedisk1
    then some (s, answers)
    else wait_for b answers (start_if_first b (append_request 31 b s))

unfoldable pub bread :
    (dev blockno : ℕ) → List (Option Memory) → Drive → Option (ℕ × Drive × List (Option Memory))
bread dev blockno answers s =
    let (b, cache) = bget dev blockno s.cache in
    let s1 = record s { cache = cache } in
    if not (is_filled (s1.cache.flags b))
    then (do (s2, rest) ← iderw b answers s1; some (b, s2, rest))
    else some (b, s1, answers)

unfoldable pub bwrite : ℕ → List (Option Memory) → Drive → Option (Drive × List (Option Memory))
bwrite b answers s =
    if not (is_busy (s.cache.flags b))
    then some (s, answers)
    else iderw b answers (set_flags b (dirty_flags (s.cache.flags b)) s)
