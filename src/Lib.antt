-- ===== src/Lib.antt =====
-- Verification of the class examples for CSC/CPE 159, small kernels for the SPEDE target.
--
-- The program is a series of examples that grow from a screen driver to a kernel with processes,
-- semaphores, serial ports, paging and a disk. Three of them, the keyboard
-- drivers, the upload of glyphs and a part of one more are modelled here.
--
-- Memory.antt (16-bit and 32-bit words, memset, memcpy) and Bits.antt (the bits of a byte) are shared.
--
-- Serial (9.serialport) is a kernel with preemptive processes, semaphores and a UART driver. Every entry
-- comes through `Kernel(TF_p)`: it saves the trapframe in the PCB of the running process, calls one
-- handler, calls `Scheduler` and restores the frame of the chosen process. The model is explicit state
-- passing: a record `Kernel` holds the globals of main.c, each handler is a function to
-- `Option Kernel`, and `none` stands for an access outside a table, which is undefined in C.
--   Serial/Queue.antt      9.serialport/src/queue.c, include/queue.h
--   Serial/Machine.antt    what SPEDE's headers define: segment registers, flags, UART registers
--   Serial/State.antt      9.serialport/include/types.h, the globals of src/main.c
--   Serial/Process.antt    NewProcHandler and TimerHandler of src/handlers.c, Scheduler of src/main.c
--   Serial/Semaphore.antt  SemAllocHandler, SemWaitHandler and SemPostHandler of src/handlers.c
--   Serial/Port.antt       PortWriteOne to PortReadHandler of src/handlers.c
--   Serial/Dispatch.antt   main and Kernel of src/main.c, include/events.h
--   Serial/Syscall.antt    SemAlloc, PortAlloc and PortRead of src/syscall.c
--   Serial/Queue/Refine.antt, Serial/Syscall/Line.antt, Serial/Invariant.antt and Serial/Invariant/
--                          the proofs: the queue as a list, PortRead as a function of its stream, and
--                          the invariant of the kernel with its preservation by each handler
--
-- UserProcess (8.UserProcess) runs programs in ring 3 behind page tables. Its page allocator keeps the
-- free list in the free pages, so memory is a function from addresses to bytes.
--   UserProcess/Kalloc.antt         8.UserProcess/src/kalloc.c, include/kalloc.h
--   UserProcess/Page.antt           8.UserProcess/src/page.c
--   UserProcess/Process.antt        8.UserProcess/src/handlers.c, context_switch of src/main.c
--   UserProcess/Boot.antt           main of 8.UserProcess/src/main.c
--   UserProcess/Kalloc/, UserProcess/Page/, UserProcess/Process/, UserProcess/Boot/
--                                   the proofs: the free list as a list of pages, the tables as arrays
--                                   of words, the walk that the processor makes, the turns of the two
--                                   processes, and what main starts
--
-- MemPolicy (6.MemPolicy) gives a process its pages on demand, with the allocator of UserProcess.
--   MemPolicy.antt   page_fault_handler of 6.MemPolicy/src/page.c; MemPolicy/ has the proofs
--
-- Keyboard turns scan codes into characters on the screen, in a loop or in an interrupt handler.
--   Keyboard.antt    2.Keyboard_Polling/src/main.c, 2.Keyboard_Interrupt/src/keyboard.c and the tables of
--                    their keyboard.h; Keyboard/ has the proofs
--
-- Glyph draws characters of its own in the font of a VGA card.
--   Glyph.antt       0.VGA_Advanced/src/main.c; Glyph/ has the card, with its registers, its font and the cells of
--                    the screen, and the proofs
--
-- Ide (A.ide) is the file system of the disk example.
--   Ide/Path.antt    skipelem of A.ide/src/fs.c, and the names that the loop of namex goes through
--   Ide/Bcache.antt  binit, bget and brelse of A.ide/src/bio.c, with the links of the buffers
--   Ide/Drive.antt   iderw, idestart and ide_irq_handler of A.ide/src/ide.c, bread and bwrite of bio.c
--   Ide/Mkfs.antt    A.ide/tools/mkfs.c, the image of the disk
--   Ide/Pic.antt     the interrupt masks of A.ide/src/interrupts.c
--   Ide/Irq.antt     the table of handlers of A.ide/src/interrupts.c
--   Ide/Fs.antt      A.ide/include/fs.h; below it A.ide/src/fs.c:
--   Ide/Fs/Buffers.antt  bread, a change and brelse over the buffers of A.ide/src/bio.c, and when it lasts
--   Ide/Fs/Blocks.antt   readsb, bzero1, balloc and bfree
--   Ide/Fs/Inode.antt    iupdate, ilock, iunlock and stati
--   Ide/Fs/Content.antt  bmap, itrunc, readi and writei
--   Ide/Fs/Icache.antt   iget, idup, iput, iunlockput and ialloc
--   Ide/Fs/Dir.antt      namecmp, dirlookup and dirlink
--   Ide/Fs/Namex.antt    namex, namei and nameiparent
--   Ide/Fs/Files.antt    A.ide/src/file.c, the table of open files
--   Ide/Fs/Bitmap.antt, Ide/Fs/Alloc.antt, Ide/Fs/Claim.antt, Ide/Fs/File.antt and the folders of Ide/Fs
--                    the proofs: the bitmap, the file as a row of bytes, the cache of inodes
--   Ide/Path/, Ide/Bcache/, Ide/Drive/, Ide/Irq/, Ide/Mkfs/, Ide/Pic/
--                    the proofs: paths put together from elements, the ring as a list of buffers, the
--                    queue of requests as a list, the image of the disk while it is filled, the bits
--                    of the masks
--
-- A C int is its 32-bit pattern, and the counters wrap at 2 ^ 32. The loop of `freerange` runs on fuel,
-- one round for each page below its end, which is enough for any end at or below 0x800000. The searches
-- of `bget` run on fuel, one round more than there are buffers, and the loop over a path one round for each
-- byte. The loops of the file system run on fuel too: one round for each block of the bitmap, each byte that
-- is moved, each directory entry and each byte of a path, and the walk to the end of the queue of requests, with
-- one round for each of the 31 buffers. All other loops are structural.
--
-- fs.c changes a block in its buffer and never writes it back, so a change lasts until the buffer is recycled. The
-- modules of Ide/Fs but Buffers model a run in which no changed buffer is recycled, as when it uses no more blocks than
-- the 30 buffers hold.
--
-- A process may run between two entries of the kernel and return with any trapframe. Calls that a
-- process must not make are hypotheses: a semaphore or port index outside its table, a wait on a
-- semaphore without an owner, and a wait that leaves no process to run, which the program leaves to
-- `breakpoint()`.
--
-- Not modelled: text on the console, the interrupt table, assembly, the processes Init and TermProc, the
-- disk itself and the polling of its status, the rest of A.ide, and the other examples. The segment descriptor and
-- the gates that main of 8.UserProcess fills are data.
-- Interrupts of the disk come in only while `iderw` waits.
pub mod Prelude
pub mod Memory
pub mod Bits
pub mod Serial
pub mod UserProcess
pub mod MemPolicy
pub mod Ide
pub mod Keyboard
pub mod Glyph
