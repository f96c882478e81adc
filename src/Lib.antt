-- ===== src/Lib.antt =====
-- The CheetOS kernel: a single-processor x86 kernel with a read-only file system, a text screen, a
-- keyboard, a real-time clock, system calls over file descriptors, and one page of 4 MB for each
-- user process. The kernel's sources are under student-distrib/, the user programs' under syscalls/.
--
-- The parts, and the files that model them. A definition has the name of the function it stands for;
-- a helper with another name has a comment that says which part of which function it is.
--
-- - Base: numbers, words of 32 bits, lists, texts and the lemmas on them that the parts share. A word
--   is a natural number below 2 ^ 32, -1 is `minus_one`, and comparisons of `int32_t` are `lt_signed`.
-- - Io (lib.h): `outb` and `inb` on a log of port accesses. What a device answers to a read is a
--   parameter, a function of the accesses made so far.
-- - Pic (i8259.c): the two masks and the log. Pic/Masks has the bit operations, Pic/Lines what each
--   call does to the sixteen interrupt lines, with the slave's lines behind line 2 of the master.
-- - Rtc (rtc.c): the flag, the counter and the interrupt controller. Rtc/Rate is on the rate codes
--   of the chip, Rtc/Wait on `rtc_read`. The loop of `rtc_read` runs over a list that says for each
--   look at the flag whether an interrupt has come before it; `none` means that the call still waits
--   when the list ends.
-- - Filesys (filesys.c): the image as the bytes of memory from `fs_ptr` on, with the fields of the
--   boot block and of the inodes read from them, and the lookups and `read_data`. Filesys/Contents
--   and Filesys/Read compare `read_data` with the bytes of the file, Filesys/Directory compares
--   `read_dentry_by_name` with the first entry of a given text. The loop of `read_data` runs on the
--   number of blocks of the file as its fuel.
-- - Screen (lib.c: `putc`, `puts`, `clear`, `blue_screen`, `set_cursor`, `memset_word`, `memmove`):
--   video memory by its bytes, the cursor, and the accesses to the display's ports. Screen/Grid has
--   the view as 25 rows of 80 cells, Screen/Safe the bounds of the writes, Screen/Cursor the
--   display's own cursor.
-- - Strings (lib.c: `memset`, `memset_dword`, `memcpy`, `strlen`, `strcpy`, `strncpy`, `strrev`,
--   `itoa`): the routines over memory, with the assembly loops written out. Strings/Fill and
--   Strings/Copy compare the fast loops with a plain fill and a plain copy, Strings/Text is on strings,
--   Strings/Digits and Strings/Itoa on the numerals that `itoa` writes.
-- - Printf (lib.c: `printf`): the conversions and the loop over the format, with the arguments as words
--   and the bytes that a string argument points to. Printf/Conversion has the numbers as texts,
--   Printf/Rendered the text that a format describes. A string is read up to a bound on its length.
-- - Keyboard (keyboard.c): `handle_charpress` as `press` on a scan code, `getchar` and `getline`. The
--   arrival of keys is a schedule: for each look of `getchar` at `pushed_key` the scan codes that
--   have come before it. Keyboard/Keys is on single keys, Keyboard/Editing on one round of `getline`,
--   Keyboard/Typed compares whole lines with an abstract editor. `getline` runs on the length of the
--   schedule as its fuel, since a character takes at least one look.
-- - Terminal (terminal.c): the driver over the keyboard and the screen, with the null pointer as
--   `none`.
-- - Files (filesys.c and syscalls.c): the descriptor table of a process, `file_open` to
--   `directory_write`, and the system calls `open` (here `open_file`), `close`, `read` and `write`,
--   which jump through the operation tables. An outcome is a return, an endless wait, or a fault,
--   which is a jump through a null table or a read at address 0. Files/Table has the invariant of the
--   table, Files/Safe that no call faults, Files/Sequence what a sequence of calls on a file does,
--   Files/Clock what the clock's descriptor does.
-- - Paging (paging.c and `vidmap` of syscalls.c): the directory and the two tables. Paging/Walk is a
--   specification of how the processor translates an address with them; Paging/Maps states with it
--   what is mapped.
-- - Command (`strtok` of lib.c and the loop of `execute` in syscalls.c): the words of a command line.
--   The loop runs on fuel; one more than the length of the string is enough.
-- - Tasks (syscalls.c: `execute`, `halt`, `getargs`, `get_next_process_number`,
--   `getCurrentProcessPCB`): the process slots, the control blocks by address, `tss.esp0`, the page
--   tables and the physical memory of the user's pages. The registers and the label that `execute`
--   saves are its argument, a `Frame`; the context switch is the end of the run, an `Ending`, and the
--   jump of `halt` is its result, a `Return`. Tasks/Slots is on the slots and the places of the control
--   blocks, Tasks/Cases has the ways in which `execute` ends, Tasks/Calls `execute` with a `halt` after
--   it, Tasks/Nested runs of many processes as a step relation with the invariant of Tasks/Chain,
--   Tasks/Runs a program that starts and its `getargs`. Arguments of 128 bytes or more, or a
--   program that does not fit in the page from 0x8048000 on, end the run as `overruns`: what the code
--   writes there is not followed. Tasks/Pages is on the pages of the processes.
-- - Interrupts (idt.c, and SET_IDT_ENTRY of x86_desc.h): the table and the handlers of exceptions, up
--   to the endless loop of `stop`. The addresses of the handlers are a parameter, a function from their
--   labels. Interrupts/Gates is on the table, Interrupts/Panic on the handlers.
-- - Boot (kernel.c: `entry`): from the boot loader's record in memory to the end of its preparations,
--   before `launch_tests` and the first program, over the states of the parts. What the linker, the boot loader and the chip supply is a record of
--   parameters, `Loader`. The loop over the memory map is on fuel; a difference of the map's end and
--   start that is smaller than the fuel is enough, since each round moves on by 4 bytes at least.
--   Boot/Ready has the state that the steps set up, Boot/Reports the messages on the way, Boot/Ends the
--   end of `entry`.
-- - Syscalls (interr.S: `system_call_handler`, and syscalls.c: `set_handler`, `sigreturn`): the system
--   calls of a program, from the registers of its trap through the jump table to the return, over the
--   state of the whole kernel, which is in Syscalls/State together with the memory of the program. A
--   result is a return, a program that is entered, the return to the `execute` of a parent, a wait, a
--   crash, or `strays`: the kernel does not check the pointers of a program, and a call whose pointer does
--   not lead into the page of the program with the room that the call takes there is not followed, nor
--   is one that overruns in `execute`. The null pointer is passed on where the code tests for it. A text
--   has to end within the page, which bounds its reading. Syscalls/Sound has what holds of the kernel
--   between calls, Syscalls/Messages the two calls that only print, Syscalls/Endings and Syscalls/Served one call,
--   Syscalls/Session runs of programs as a step relation.
-- - Programs (syscalls/ece391support.c, ece391cat.c, ece391ls.c, ece391hello.c, ece391testprint.c; and
--   ece391shell.c and ece391counter.c in Programs/Shell, ece391grep.c in Programs/Grep): the programs
--   over `Calls`, a record of the calls that they make, each on a state and with `none` for a call that
--   does not come back. Programs/Kernel fills the record with the calls of Files and Tasks, on which
--   Programs/Cat and Programs/Ls run two of the programs; Programs/Session runs the shell on a machine
--   with a script, which is in Programs/Script and whose terminal gives at most 128 characters of
--   a line, as terminal.c does, and Programs/Counting counter; Programs/Syserr is
--   ece391syserr.c, with `main` in Programs/Syserr/Menu, and Programs/Syserr/Lots runs one of its tests on the
--   calls of the kernel, with the words of Programs/Syserr/Passes; Programs/Emulate is
--   `ece391_execute` and `ece391_getargs` of ece391emulate.c, which run programs on a Linux host, and
--   Programs/Emulate/Same compares them with the kernel, with Programs/Emulate/Stored on
--   the bytes that `getargs` stores. A loop is on fuel,
--   one for each round; strings are read on fuel too, with a bound above the sizes of the programs'
--   buffers.
-- - Fish (fish/fish.c): an animation of two frames of text, over `Calls` too. Fish/Blinks
--   (fish/blink.S) is its list of blinking characters: the structs by index, with a link to the
--   next, and the video memory from `vmem_base_addr` on. The loops over the list run on the size of
--   the array as their fuel. Fish/Chain has the list as a list of values, Fish/Room and Fish/Lit
--   how many of the array's structs it takes, Fish/Remove and Fish/Tick what the operations do to
--   it. Fish/Frames cuts two texts into lines and says which characters blink, Fish/Lines is the
--   reading of a file character by character, as an interface that Fish/Kernel fills with the
--   kernel's calls, Fish/Rows and Fish/Added are the loops of `add_frames`, on one fuel that the
--   lengths of the texts and 2 bound, and Fish/Files its run on two files of the image.
--
-- Keys and interrupts reach the kernel only where it looks for them: a schedule says which have come
-- before each look, and nothing comes within the other functions, which run to their end. Memory that
-- a caller passes is a function from offsets to bytes, and does not overlap the kernel's own data.
--
-- Not modelled: the assembly files but for the dispatch of system calls (entry points, the saving of
-- registers), the tests of tests.c, which `entry` runs before the first program, the loads of descriptor
-- registers and the flushing of the translation buffer, the user programs pingpong and sigtest, and the
-- other calls of ece391emulate.c, which pass on to Linux. `handle_trap` only
-- prints a message.
pub mod Base
pub mod Io
pub mod Pic
pub mod Rtc
pub mod Filesys
pub mod Screen
pub mod Keyboard
pub mod Terminal
pub mod Files
pub mod Paging
pub mod Command
pub mod Tasks
pub mod Strings
pub mod Printf
pub mod Interrupts
pub mod Boot
pub mod Programs
pub mod Syscalls
pub mod Fish
