-- ===== src/Serial/Process.antt =====
-- Processes of 9.serialport: `NewProcHandler` and `TimerHandler` of src/handlers.c, `Scheduler` of
-- src/main.c. Text on the console is not modelled, nor the debugger's breakpoint.
use class_example.Prelude.{ℕ, Option, some, ◌>>=◌, if◌then◌else◌, ◌==◌, get_elem?, set}
use mathlib.Core.Option.{get_or}
use class_example.Serial.Queue.{is_empty, dequeue}
use class_example.Serial.Machine.{Machine}
use class_example.Serial.State.{
  Kernel, run, ready, zero_frame, zero_pcb, TrapFrame, Pcb, set_pcb, make_ready, set_state,
  outportb, time_limit, increment,
}

module _ (m : Machine) where
  open m use {eflags_intr, get_cs, get_ds, get_es, get_fs, get_gs}

  -- The frame on the zeroed stack of a new process that starts at `entry`.
  abbrev pub initial_frame : ℕ → TrapFrame
  initial_frame entry = record zero_frame {
    eip = entry;
    eflags = eflags_intr;
    cs = get_cs;
    ds = get_ds;
    es = get_es;
    fs = get_fs;
    gs = get_gs;
  }

  abbrev pub fresh_pcb : ℕ → Pcb
  fresh_pcb entry = record zero_pcb { frame = initial_frame entry; state = ready }

  unfoldable pub new_proc_handler : ℕ → Kernel → Option Kernel
  new_proc_handler entry k = if is_empty k.free_q then some k else (do
    let (st, out, rest) = dequeue k.free_q
    let pid = get_or out 0
    old ← get_elem? k.pcb pid
    some (make_ready pid (set_pcb pid (fresh_pcb entry) (record k { free_q = rest }))))

-- The end-of-interrupt command to the master PIC.
abbrev pub end_of_interrupt : Kernel → Kernel
end_of_interrupt = outportb 0x20 0x20

unfoldable pub timer_handler : Kernel → Option Kernel
timer_handler k = do
  c ← get_elem? k.pcb k.current_pid
  let ticks = increment c.cpu_time
  let k1 = record k {
    pcb = set k.pcb k.current_pid (record c { cpu_time = ticks });
    current_time = increment k.current_time;
  }
  k2 ←
      (if ticks == time_limit
        then (do
          k' ← set_state k.current_pid ready k1
          some (record (make_ready k.current_pid k') { current_pid = 0 }))
        else some k1)
  some (end_of_interrupt k2)

-- With an empty ready queue `queue_out` writes nothing, and PCB 0 is used.
unfoldable pub scheduler : Kernel → Option Kernel
scheduler k =
    if k.current_pid == 0
    then (do
      let (st, out, rest) = dequeue k.ready_q
      let pid = get_or out k.current_pid
      c ← get_elem? k.pcb pid
      some (
          set_pcb pid (record c { state = run; cpu_time = 0 })
            (record k { ready_q = rest; current_pid = pid })))
    else some k
