-- ===== src/Lib.antt =====
-- Verification of DrewOS, a small 32-bit x86 kernel in C.
--
-- The kernel's parts, from the bottom up, and the files that model them:
-- - src/kernel/dmath.c (ipow, ilog, abs): Math, its proofs in Math/Pow and Math/Log. A `uint32_t`
--   is a natural number below 2 ^ 32, an `int32_t` its bit pattern; wrap-around is written out. The
--   loops run on fuel: 32 rounds for ipow, whose exponent loses a bit each round, 33 for ilog,
--   whose number loses one.
-- - src/kernel/util.c (_itoa, itoa, itoh, copy_memory, strlen): Util and Memory. A buffer is the
--   list of its bytes, memory a function from addresses. Util/Digits says what a numeral is,
--   Util/Buffer what it is to write over the front of a buffer, Util/Spelling what text stands for a
--   number.
-- - src/driver/vga.c and vga.h: Screen holds the video memory, the coordinates, clrscr, the
--   scrolling and write_char; Screen/Grid is the abstract terminal that they implement,
--   Screen/Frame says which memory they leave alone. Print holds _cprint and its wrappers,
--   Print/Text what it is to type a text, Print/Format the text that a format stands for,
--   Print/Convert and Print/Render hold _cprint against it, Print/Terminal puts formats on the
--   abstract terminal, and Print/Debug has print_offset and print_coords, its proofs in
--   Print/Debug/Shown. Cursor has the accesses that place and show the cursor, Cursor/Registers the
--   CRT controller behind them.
-- - src/kernel/low_level.c: Machine. The static variables of all drivers make one record with a
--   trace of the accesses to ports; the hardware is any function from traces to answers. A
--   computation returns a value and a machine, or `none` where it does not come to its end or is
--   undefined.
--   Machine/Quiet is about computations that change the screen and the trace only, Machine/Ends
--   about what holds behind a computation that returns, Machine/Comes where it may come to an
--   interrupt instead.
-- - src/kernel/pic.c: Pic; Pic/Chip describes what an 8259A makes of the bytes written to it,
--   Pic/Registers is about reading its registers.
-- - src/kernel/idt.c and idt.h: Idt. The addresses at which functions are linked, the call through
--   a function pointer and the software interrupt are the parameter Platform of Machine.
--   Idt/Handlers has installs and uninstalls as steps and what is reached by them, Idt/Outcome the
--   branches of generic_handler.
-- - src/kernel/interrupts.asm and isr.c: Isr. A stub is the list of its instructions, run on a
--   processor with a stack; `deliver` takes an interrupt through the gate of its vector to the code
--   behind it. What a function in C leaves in the registers that it may use is the parameter
--   `scratch`. Isr/Stub is the stub of the interrupt lines, Isr/Exceptions those of the exceptions,
--   Isr/Delivery both behind idt_init.
-- - src/driver/ps2.c: Ps2 for waiting, reading and sending, Ps2/Identity for the types of devices.
--   A command is sent again as often as the device asks for it: `patience` bounds the rounds, and
--   Ps2/Resend and Ps2/Answers relate it to the device's answers, Ps2/Silent and Ps2/Stubborn to devices that
--   never or always have one. Ps2/Reset is `reset_port`, Ps2/Config the configuration byte,
--   Ps2/Init `ps2_init_device` and `ps2_init` in the steps that its comments name. Ps2/Board is
--   hardware: an 8042 controller with one port or two, a keyboard or nothing at the first one, and a
--   mouse at the second. Ps2/Board/Talks has computations as steps between the worlds of such
--   machines, and the other files below it take ps2_init through them, step by step:
--   Ps2/Board/Outcome with a keyboard alone, Ps2/Board/Paired with a keyboard and a mouse,
--   Ps2/Board/Phantom with nothing at the only port; Ps2/Board/Mouse is about an identity of one byte.
-- - src/driver/ps2_keyboard.c: Keyboard. The function that asks for a scan code set calls itself
--   until the keyboard reports that set: `rounds` bounds the calls. Keyboard/Setup is about
--   keyboards that take the set, up to the interrupt that ps2_kbd_init triggers, Keyboard/Interrupt about
--   that interrupt through the stub of Isr.
-- - src/acpi: Acpi is the lookup of a table by its signature (rsdt.c) over a memory of bytes,
--   Acpi/Search the search for the root pointer (rsdp.c), Acpi/Fadt the two tables that are looked
--   up and acpi_enable (fadt.c, madt.c), Acpi/Startup has rsdt_init, init_rsdp and acpi_init. The
--   search goes in steps of 16 bytes: 65 rounds are enough for the 1024 bytes of the EBDA, 8193 for
--   the BIOS area. acpi_enable waits for a bit of the hardware: `fuel` bounds the reads.
-- - src/kernel/kernel.c: Kernel, `main` in the order of its calls; Kernel/Ready has its first half,
--   up to the interrupts, Kernel/Boot the whole, Kernel/PowerOn the boot loader and main.
-- - src/boot: Boot. Boot is the processor in real mode and the printing of util.asm, where the BIOS
--   is a parameter and its calls are a trace; Boot/Load is disk_load and bootloader.asm in real
--   mode. Boot/Text, Boot/Print and Boot/Hex are about what is printed, Boot/Disk about disk_load,
--   Boot/Image about load_kernel, Boot/Start about the boot sector up to the switch. Boot/Gdt is
--   gdt.asm, Boot/Protected the switch and util_pm.asm to the entry of the kernel, Boot/Handover
--   the whole boot. A text is printed in at most `text_fuel` rounds, one more than its characters,
--   a number in 4.
--
-- The boot loader loads the kernel and calls main. A driver above calls those below: main starts
-- the interrupt controllers, the interrupt descriptors, ACPI and the PS/2 controller; ps2.c starts
-- the keyboard driver, which unmasks its line in pic.c and attaches its handler in idt.c; all
-- print through vga.c, which writes numbers through util.c, which counts digits by dmath.c. Base
-- has the names and lemmas that all of them share, Tests the runs at fixed inputs. Where the
-- proofs of the boot sequence need a device that comes to an end with each command, they take calm
-- hardware as a hypothesis (Ps2/Init/Devices, Keyboard/Setup). Nothing is assumed of the interrupt
-- 0x21 that the keyboard driver triggers: a run returns, or it comes to that interrupt with the rest
-- of its own code behind it (Machine/Comes), and Ps2/Board/Outcome has what the stub of Isr makes of
-- it there.
--
-- Conventions: the static variables of the kernel are fields of records and no part of the memory of
-- bytes, so what is said of that memory is not said of the places where they are linked. A negation
-- wraps around at -2 ^ 31, where C leaves it undefined. `none` is undefined behaviour, an exception
-- of the processor, or a run that does not end.
--
-- Not modelled: `log` of dmath.c, which computes with doubles; the stack of the boot loader, which
-- its routines keep in order; the bytes of the descriptor table in memory, of which the switch to
-- protected mode keeps the address and the limit only; `disk_nsect_error`, which nothing jumps to.
pub mod Acpi
pub mod Base
pub mod Boot
pub mod Cursor
pub mod Idt
pub mod Isr
pub mod Kernel
pub mod Keyboard
pub mod Machine
pub mod Math
pub mod Memory
pub mod Pic
pub mod Print
pub mod Ps2
pub mod Screen
pub mod Tests
pub mod Util
