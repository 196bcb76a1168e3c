-- ===== src/Serial/Port.antt =====
-- The serial driver of 9.serialport/src/handlers.c: the lower half `PortWriteOne`, `PortReadOne` and
-- `PortHandler`, and the upper half `PortAllocHandler`, `PortWriteHandler` and `PortReadHandler`.
-- `inb` gives the byte that each I/O address holds while one interrupt is served, in which no
-- register is read twice.
use class_example.Prelude.{
  ℕ, zero, suc, ◌+◌, ◌-◌, ◌/◌, ◌%◌, ◌^◌, Bool, not, Option, none, some, List, [], ◌∷◌, ◌>>=◌, ◌&&◌,
  ◌||◌, if◌then◌else◌, ◌==◌, ltb, get_elem?,
}
use mathlib.Core.Option.{get_or}
use class_example.Serial.Queue.{Queue, is_empty, is_full, enqueue, dequeue}
use class_example.Serial.Machine.{Machine}
use class_example.Serial.State.{
  Kernel, Port, zero_port, set_port, set_eax, outportb, poke, port_num,
}
use class_example.Serial.Process.{end_of_interrupt}
use class_example.Serial.Semaphore.{sem_post_handler}

-- `(char)x` widened to an `int`: the low byte, with its sign.
abbrev pub char_to_int : ℕ → ℕ
char_to_int x = if ltb (x % 256) 128 then x % 256 else 2 ^ 32 - 256 + x % 256

-- `one == '\r' || one == '\n'`
abbrev pub is_newline : ℕ → Bool
is_newline c = c == 13 || c == 10

-- `queue_in(&loopback_q, one)`, and `'\n'` behind a line's end.
unfoldable pub echo : Queue → ℕ → Queue
echo q one = let q' = (enqueue q one).1 in if is_newline one then (enqueue q' 10).1 else q'

-- The first port with no owner, if there is one.
unfoldable pub free_port : List Port → Option ℕ
free_port [] = none
free_port (d ∷ ds) = if d.owner == 0 then some 0 else (do i ← free_port ds; some (suc i))

-- `static int IO[PORT_NUM]`
abbrev pub io_bases : List ℕ
io_bases = 0x2f8 ∷ 0x3e8 ∷ 0x2e8 ∷ []

module _ (m : Machine) where
  open m use {
    reg_data, reg_ier, reg_iir, reg_cfcr, reg_mcr, reg_baudlo, reg_baudhi, iir_rxrdy, iir_txrdy,
    cfcr_dlab, cfcr_7e1, mcr_dtr_rts_ienable, ier_erxrdy_etxrdy,
  }

  -- The byte that is sent next, taken from the echo before the application's queue.
  unfoldable pub take_one : ℕ → Port → Kernel → Option (ℕ × Kernel)
  take_one p d k =
      if not (is_empty d.loopback_q)
      then (let (st, out, rest) = dequeue d.loopback_q in
          some (get_or out 0, set_port p (record d { loopback_q = rest }) k))
      else (do
        let (st, out, rest) = dequeue d.write_q
        k' ← sem_post_handler d.write_sid (set_port p (record d { write_q = rest }) k)
        some (get_or out 0, k'))

  unfoldable pub port_write_one : ℕ → Kernel → Option Kernel
  port_write_one p k = do
    d ← get_elem? k.port p
    if is_empty d.write_q && is_empty d.loopback_q
        then some (set_port p (record d { write_ok = 1 }) k)
        else (do (one, k') ← take_one p d k; some (outportb (d.io_base + reg_data) one k'))

  module _ (inb : ℕ → ℕ) where
    unfoldable pub port_read_one : ℕ → Kernel → Option Kernel
    port_read_one p k = do
      d ← get_elem? k.port p
      let raw = inb (d.io_base + reg_data) % 256
      let one = raw % 128
      if is_full d.read_q
          then some k
          else (let d' = record d {
            read_q = (enqueue d.read_q one).1;
            loopback_q = echo d.loopback_q one;
          } in
              sem_post_handler d.read_sid (set_port p d' k))

    -- The body of the loop, for one port that has an owner; `iir` is read once.
    unfoldable pub serve_port : ℕ → Port → Kernel → Option Kernel
    serve_port p d k = do
      let iir = inb (d.io_base + reg_iir) % 256
      k1 ← (if iir == iir_rxrdy then port_read_one p k else some k)
      k2 ← (if iir == iir_txrdy then port_write_one p k1 else some k1)
      d' ← get_elem? k2.port p
      if d'.write_ok == 0 then some k2 else port_write_one p k2

    -- The ports from `p` on, as many as the first argument says.
    unfoldable pub port_loop : ℕ → ℕ → Kernel → Option Kernel
    port_loop zero p k = some k
    port_loop (suc left) p k = do
      d ← get_elem? k.port p
      k' ← (if d.owner == 0 then some k else serve_port p d k)
      port_loop left (p + 1) k'

    unfoldable pub port_handler : Kernel → Option Kernel
    port_handler k = do k' ← port_loop port_num 0 k; some (end_of_interrupt k')

  -- What `PortAllocHandler` writes to the UART at `io`, in this order: 9600 baud, 7 data bits, even
  -- parity, then the interrupts.
  abbrev pub program_uart : ℕ → Kernel → Kernel
  program_uart io k =
      let divisor = 115200 / 9600 in
      outportb (io + reg_ier) ier_erxrdy_etxrdy (
        outportb (io + reg_mcr) mcr_dtr_rts_ienable (
          outportb (io + reg_cfcr) cfcr_7e1 (
            outportb (io + reg_baudhi) (divisor / 2 ^ 8 % 256) (
              outportb (io + reg_baudlo) (divisor % 256)
                (outportb (io + reg_cfcr) cfcr_dlab (outportb (io + reg_ier) 0 k))))))

  abbrev pub fresh_port : ℕ → ℕ → Port
  fresh_port owner io = record zero_port { owner = owner; io_base = io; write_ok = 1 }

  -- The rest of the handler, by what the search found.
  unfoldable pub alloc_port_in : Kernel → Option ℕ → Option Kernel
  alloc_port_in k none = some k
  alloc_port_in k (some p) = do
    k' ← set_eax p k
    io ← get_elem? io_bases p
    some (program_uart io (set_port p (fresh_port k.current_pid io) k'))

  unfoldable pub port_alloc_handler : Kernel → Option Kernel
  port_alloc_handler k = alloc_port_in k (free_port k.port)

  unfoldable pub port_write_handler : ℕ → ℕ → Kernel → Option Kernel
  port_write_handler one p k = do
    d ← get_elem? k.port p
    if is_full d.write_q then some k else (do
      let k1 = set_port p (record d { write_q = (enqueue d.write_q (char_to_int one)).1 }) k
      if d.write_ok == 0 then some k1 else port_write_one p k1)

  unfoldable pub port_read_handler : ℕ → ℕ → Kernel → Option Kernel
  port_read_handler address p k = do
    d ← get_elem? k.port p
    if is_empty d.read_q
        then some k
        else (let (st, out, rest) = dequeue d.read_q in
            some (poke address (get_or out 0) (set_port p (record d { read_q = rest }) k)))
