-- ===== src/Lib.antt =====
-- A verification library for gyaradOS, a small 32-bit operating system in C.
--
-- The parts and the files that model them. A C function has the name of its definition here.
--   * Base: shared names, Boolean tests on numbers, integers, lists, and facts about bits.
--   * Machine: a memory is a function from an address to a byte (Machine/Memory); the ports are a
--     trace of accesses, and a device is a function from the trace and the port to what is read
--     (Machine/Bus, for `inb` and `outb` of include/lib/lib.h).
--   * Str: the string functions of lib/lib.c. Block: its block functions, which are assembly.
--   * Screen: the text screen of lib/lib.c: video memory and the cursor of each terminal. Screen/Pages
--     has the single cells, the colours and the pages of the terminals, and Screen/Printf `printf`.
--   * Fs: fs/files.c, the read-only file system in the image that the boot loader leaves in memory.
--   * Drivers: Pic is drivers/i8259.c, Rtc is drivers/rtc.c with lib/math.c, Dma is drivers/dma.c,
--     Mouse is drivers/mouse.c and Speaker is drivers/speaker.c.
--   * Paging: mm/paging.c. An address is translated by the directory and the table as the processor
--     does it (Paging/Frames).
--   * Console: the line buffers of the terminals in drivers/keyboard.c, over the screen.
--   * Kernel: the system calls of kernel/syscall.c. The file calls stand in Kernel, `execute` and
--     `halt` in Kernel/Process, and drivers/pit.c, the switch between terminals, in Kernel/Switch.
--     Kernel/Keyboard is the interrupt handler of drivers/keyboard.c, Kernel/Interrupts the exceptions
--     of kernel/idt.c with the table that `init_idt` fills (Kernel/Interrupts/Table), and Kernel/Sound
--     is drivers/sound_blaster_16.c, which reads a file through the system calls.
--     `sbrk` is in Kernel/Heap, and the dispatch of calls in kernel/irq.S in Kernel/Dispatch.
--     The kernel's state (Kernel/State) holds the console, the page tables, the PCBs, and the global
--     variables; what does not change (the file system's tables, the devices, the addresses of
--     locals and string constants) is a parameter, `Env`.
--     Kernel/Assembly has the wrappers of kernel/irq.S by their instructions, and the jump to a
--     program of kernel/user.S with the segments of boot/x86_desc.S.
--     Kernel/System puts the parts together: a step of the system is a program's own work, a system
--     call, a fault, or the interrupt of a device, and the states that the system comes to are those
--     that a sequence of such steps leads to.
--   * Boot: boot/kernel.c: what it takes from the boot loader, the segments that it sets up, and
--     `entry` as a whole (Boot/Entry), which starts every part and then the shell. Boot/First
--     is about the kernel that the shell starts in, where the steps of Kernel/System begin.
--
-- How the parts interact: a system call looks its descriptor up in the PCB of the process that runs
-- in the active terminal, and goes to the terminal, the clock or the file system. These share one
-- memory, so a buffer can lie over any of them, and the theorems say where it has to lie apart.
-- The keyboard's handler types into the console, switches terminals, and halts a program, as an
-- exception does. `execute` reads a program through the file system, gives it a slot, a page and a
-- PCB, and `halt` takes them back.
--
-- Bounds and fuel. Addresses and `uint32_t` wrap at 2 ^ 32 where the code computes them; a buffer
-- that the code walks through with an index is taken not to wrap. A loop over a string runs on fuel
-- of 2 ^ 32 rounds, one turn of the address space: a string that ends, ends within it, and the
-- result is `none` for one that does not. The other loops have the bound that the code gives them.
-- A wait for an interrupt is an outcome of its own, and a wait for a device reads it `patience`
-- times, a parameter: what holds of a device that answers is stated for every number that is enough.
--
-- What is not modelled: start-up in assembly, the loads of segment and control registers in C, and
-- the lines under `DEBUG_F`. What a function in C does to the processor's registers is a parameter
-- of Kernel/Assembly: it keeps to the convention of calls. The memory is that of the page directory
-- in use; a change of the directory does not exchange the contents of the process's window.
-- Interrupts do not come in the middle of a function. Floats are a parameter of the clock's driver.
-- The numbers of the PCBs and the page tables are not in memory. So a call that writes past an
-- array of a PCB or of `execute`'s stack (a name of 32 bytes or more, arguments of 64 or more), or
-- to a buffer in the kernel's page, has an outcome of its own, `overruns`, at which the model ends;
-- the code goes on there, with numbers overwritten. Where the compiler puts the local `flags` of
-- `halt` is a parameter, since `halt` reads it after it has changed the frame.
-- In the steps of Kernel/System the timer does not switch, as SCHED_ENABLED in include/lib/lib.h
-- has it, a program may write to any memory, a call that overruns leads to no state, and a file
-- that is opened has one of the three types.
pub mod Base
pub mod Machine
pub mod Str
pub mod Block
pub mod Fs
pub mod Drivers
pub mod Paging
pub mod Screen
pub mod Console
pub mod Kernel
pub mod Boot
