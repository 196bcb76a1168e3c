-- ===== src/Ide/Bcache.antt =====
-- A.ide/src/bio.c: the cache of disk blocks, a ring of buffers linked in the order of use.
-- A buffer is its index in `bcache.buf`; the index behind the last one stands for `bcache.head`.
pub mod Ring
pub mod Release
pub mod Get
use class_example.Prelude.{
  ℕ, zero, suc, ◌+◌, ◌-◌, ◌*◌, ◌/◌, ◌%◌, ◌^◌, Bool, true, false, not, ◌&&◌, if◌then◌else◌, ◌==◌,
  Option, none, some,
}

-- `NBUF`
abbrev pub nbuf : ℕ
nbuf = 30

-- `&bcache.head`
abbrev pub head : ℕ
head = nbuf

-- The fields of the buffers.
pub record Cache : Type 0 where
  pub flags : ℕ → ℕ
  pub dev : ℕ → ℕ
  pub blockno : ℕ → ℕ
  pub prev : ℕ → ℕ
  pub next : ℕ → ℕ

-- A field of buffer `i` is set to `v`.
abbrev pub put : (ℕ → ℕ) → ℕ → ℕ → ℕ → ℕ
put f i v j = if j == i then v else f j

-- `flags & B_BUSY`, and the flags with that bit set or cleared.
abbrev pub is_busy : ℕ → Bool
is_busy flags = flags % 2 == 1

abbrev pub set_busy : ℕ → ℕ
set_busy flags = flags / 2 * 2 + 1

abbrev pub clear_busy : ℕ → ℕ
clear_busy flags = flags / 2 * 2

-- `flags & B_DIRTY`
abbrev pub is_dirty : ℕ → Bool
is_dirty flags = flags / 4 % 2 == 1

-- `b` becomes the first of the ring.
unfoldable pub link_first : ℕ → Cache → Cache
link_first b c =
    let c1 = record c { next = put c.next b (c.next head); prev = put c.prev b head } in
    let c2 = record c1 { prev = put c1.prev (c1.next head) b } in
    record c2 { next = put c2.next head b }

-- `b` is taken out of the ring.
unfoldable pub unlink : ℕ → Cache → Cache
unlink b c =
    let c1 = record c { prev = put c.prev (c.next b) (c.prev b) } in
    record c1 { next = put c1.next (c1.prev b) (c1.next b) }

-- The loop of `binit` over the buffers from `b` on, `left` of them.
unfoldable pub binit_loop : (left b : ℕ) → Cache → Cache
binit_loop zero b c = c
binit_loop (suc left) b c =
    binit_loop left (b + 1) (link_first b (record c { dev = put c.dev b (2 ^ 32 - 1) }))

unfoldable pub binit : Cache → Cache
binit c = binit_loop nbuf 0 (record c { prev = put c.prev head head; next = put c.next head head })

unfoldable pub brelse : ℕ → Cache → Cache
brelse b c =
    if not (is_busy (c.flags b))
    then c
    else (let c1 = link_first b (unlink b c) in
        record c1 { flags = put c1.flags b (clear_busy (c1.flags b)) })

-- The first loop of `bget`, from `b` on, with fuel.
unfoldable pub find_cached : (fuel dev blockno b : ℕ) → Cache → Option ℕ
find_cached zero dev blockno b c = none
find_cached (suc fuel) dev blockno b c =
    let rest = find_cached fuel dev blockno (c.next b) c in
    if b == head
    then none
    else if c.dev b == dev && c.blockno b == blockno && not (is_busy (c.flags b))
    then some b
    else rest

-- The second loop of `bget`, backwards.
unfoldable pub find_clean : (fuel b : ℕ) → Cache → Option ℕ
find_clean zero b c = none
find_clean (suc fuel) b c =
    let rest = find_clean fuel (c.prev b) c in
    if b == head
    then none
    else if not (is_busy (c.flags b)) && not (is_dirty (c.flags b))
    then some b
    else rest

-- With no buffer that can be recycled the loop ends at `&bcache.head`, which is returned. The ring has
-- at most `nbuf` buffers, so one more round than that is enough fuel.
unfoldable pub bget : (dev blockno : ℕ) → Cache → ℕ × Cache
bget dev blockno c = elim (find_cached (nbuf + 1) dev blockno (c.next head) c) [
  | some b ↦ (b, record c { flags = put c.flags b (set_busy (c.flags b)) })
  | none ↦ elim (find_clean (nbuf + 1) (c.prev head) c) [
    | some b ↦ (
      b,
      record c {
        dev = put c.dev b dev;
        blockno = put c.blockno b blockno;
        flags = put c.flags b 1;
      },
    )
    | none ↦ (head, c)
  ]
]
