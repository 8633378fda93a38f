-- ===== src/Lib.antt =====
-- The Raptor kernel, a small teaching kernel for the i386: models of its C code and what holds
-- of them.
--
-- The parts and their files. mm/kheap.c is Mm/Kheap: the store of block headers by address and
-- kmalloc, kfree and kheap_stats on it; Mm/Kheap/Cells is the heap as a list of sizes with a
-- flag each, which the theorems refer the code to. mm/pmm.c is Mm/Pmm: the bitmap of frames and
-- its counter, with pmm_init on what the boot loader and the heap's end tell it. mm/paging.c is
-- Mm/Paging. Mm/Outcome has what a call that may panic gives. lib/string.c is Strings: a memory
-- of bytes by address; Strings/Text says which text a C string holds. lib/kprintf.c is Kprintf:
-- a format and its arguments give the bytes for console_putc; Kprintf/Pieces says what the
-- pieces of a format are to print, and Kprintf/Digits also reads atoi_simple of
-- shell/commands.c. lib/console.c is Console, which writes to the screen of
-- Drivers/Vga (drivers/vga.c). Drivers/Keyboard is drivers/keyboard.c, with
-- Drivers/Keyboard/Keys for what a keyboard sends, Drivers/Rtc is drivers/rtc.c, Kernel/Gdt and Kernel/Idt are kernel/gdt.c and kernel/idt.c. drivers/timer.c
-- is Drivers/Timer, and drivers/serial.c Drivers/Serial. kernel/panic.c is Kernel/Panic,
-- and Kernel/Idt/Names has the processor's names of its exceptions.
-- kernel/main.c is Kernel/Boot (kmain up to the file system: the machine's tables, drivers and
-- memory) and Kernel/Main. fs/ramfs.c is Fs/Ramfs: the nodes of the tree by address; Walk has
-- the paths, Files the making, writing and deleting of nodes, whose payloads are in buffers of
-- the heap, and Init the tree at start. shell/shell.c is Shell (the history, read_line,
-- tokenize, the redirection and find_command; Shell/Echo is what read_line writes back) and Execute (execute, redirect_to_file, and in
-- Execute/Run the prompt and shell_run; Execute/Reread and Execute/RereadNew put a redirection,
-- to a file that exists or not, and cat together). shell/commands.c is Commands: World is the
-- state that a command works on (the file system, the heap, the working directory, the console,
-- the history, the frames and the ticks), and a command is a function from its words and this
-- state to its exit status and the new state. Mm/Allocator is what Fs/Ramfs, Commands and
-- Execute ask of the heap, and Mm/Kheap/Service is mm/kheap.c as that. Version has the names of
-- include/raptor/version.h. Prelude, Words and Bits are shared: the Boolean tests, lists,
-- 32-bit arithmetic and bit masks. Functions keep the names of the C code, and a loop is a
-- function of its own where a theorem needs it.
--
-- Numbers are natural numbers, with the wrap of 32-bit words written out (add32, sub32). A
-- pointer is an address and 0 is NULL. A function that can run on without end takes fuel and
-- says when it ran out. The fuel that the theorems ask for is a round more than the heap has
-- blocks, than a string or a line has bytes, than a directory has children; format_num has 16
-- rounds, as its buffer has room for 16 digits. A write to a file needs 33 rounds for the
-- doubling of the capacity, and a path as many as it has names and its directories have
-- children. The commands' kprintf has a round more than its format has bytes. boot_fuel is a
-- round more than pmm_init's bitmap has frames.
--
-- Not modelled: the assembly (boot/boot.S, kernel/isr.S) and the port instructions of io.h;
-- what kernel/ writes to ports and loads into the processor's registers is a list of events
-- (Kernel/Event). What a register of a device reads as, what cpuid returns and what is typed
-- are given: the model has what the code makes of them and what it writes to the ports. A
-- payload of the heap is outside the store of headers: the bytes of a file's buffer are kept by
-- its address, and what the capture of a redirection holds is kept with the console. kmain and
-- shell_run are on a sequence of lines, where the code goes on for ever, and no interrupt
-- changes the state between two steps of theirs. The history's count of lines is unbounded,
-- where the code's `int` overflows after 2^31. A format whose field width overflows the code's
-- `int` has no result.
pub mod Prelude
pub mod Words
pub mod Bits
pub mod Strings
pub mod Kprintf
pub mod Mm
pub mod Drivers
pub mod Shell
pub mod Kernel
pub mod Fs
pub mod Console
pub mod Commands
pub mod Execute
pub mod Version
