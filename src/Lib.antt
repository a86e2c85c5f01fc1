-- ===== src/Lib.antt =====
-- CIndy-OS, a small kernel for the i386: models of its core, and what they satisfy.
--
-- The parts and how they meet. At boot `src/memory.c` reads GRUB's memory map (`init_memory`,
-- `init_pmm`) and from then on hands out memory in two ways: `kmalloc` and `kmalloc_a` move a bump
-- pointer, `pmm_alloc_block` and `pmm_free_block` keep a bitmap of the page frames. `src/paging.c`
-- builds its tables in frames of both kinds, the first ones as an identity map, and answers whether a
-- region belongs to user mode.
-- `src/process.c` and `src/scheduler.c` keep the running process and the ready queue, and
-- `src/syscall.c` connects a user program to all of these and to the console (`src/screen.c`).
-- `src/gdt.c` and `src/idt.c` encode the descriptors that the processor reads, and `src/string.c`
-- serves everybody. Files come from a FAT16 volume (`src/fat16.c`), on a disk that `src/ata.c`
-- drives, or from the tar archive that GRUB leaves in memory (`src/fs.c`). `src/keyboard.c` has the
-- keyboard, the shell, and the loader of programs.
--
-- Base: shared notions. `Run` is the outcome of C code: a result, an access outside the object
--   it names, or fuel used up. `Ram` is memory by its bytes, with little-endian accesses.
-- Memory: `src/memory.c`; the record `Memory` holds its globals, and each function keeps its name.
--   Children: the bits (Bitmap, Frames), the block allocator (Alloc), the bump pointer (Bump) and
--   the boot code (Multiboot, Boot).
-- Paging: `src/paging.c` over `Ram`, with the tables at their physical addresses as in the code; Init is
--   about the first tables, Map about `map_page`, User about `validate_user_region`.
-- Process: `src/process.c`, and `src/scheduler.c` up to the jump into the process; `procs` is the
--   heap of `struct process`. Create has `task_create_from_elf`.
-- CString: `src/string.c`.
-- Screen: `src/screen.c`; Numbers has `print_int` and `print_hex`.
-- Descriptors: `src/gdt.c` and `src/idt.c` (Faults: `fault_handler`).
-- Syscall: `src/syscall.c`, one function for each case of `handle_syscall`. How the processor reaches
--   memory through the page tables is a parameter, `cpu_read` and `cpu_write`.
-- Ata: `src/ata.c`; the disk is a device with sectors of 512 bytes.
-- Fat16: `src/fat16.c`, its names (Name), its table (Table), and files read and written (Read,
--   Write). Init is `fat16_init`, Chain a file as the bytes of its clusters; RoundTrip writes a
--   file and reads it back.
-- Tar: `src/fs.c`, over byte memory.
-- Elf: `load_elf_program` and `enter_user_program` of `src/keyboard.c`, with `cpu_read` and
--   `cpu_write` as in Syscall.
-- Keyboard: the rest of `src/keyboard.c`. The record `World` is what the shell works on; Words splits
--   the line, Commands has a function for each command that does more than print a line (Programs:
--   `run` and `spawn`), Shell is `execute_command`, Handler is `handle_keyboard_interrupt`. What a
--   user program does until it returns is the parameter `jump_to_usermode`.
-- Devices: `src/ports.c` (`outb`), `src/pic.c` and `src/timer.c`: the bytes written to ports, in order.
-- Kernel: `src/kernel.c`, which calls the other parts; `Os` is the whole state. Memory is the order of
--   the calls that set the memory up, Gates the interrupt table, Start the state at the end.
--
-- The modules named Tests apply the theorems to concrete states.
--
-- Numbers are natural numbers; a 32-bit sum wraps where it is written (`add32`, `sub32`). An `int`
-- that is -1 is all ones. Fuel: the walk over the memory map takes as many rounds as it has entries,
-- `validate_user_region` at most 786433 (the pages below 3 GiB and one more), SYS_WRITE the length
-- over 1024 and two more, the string loops as many as the string is long, a walk over a tar archive
-- more than its members and the longest name together. A chain of clusters of a file takes one round
-- more than it has bytes, the loop over a segment's pages 1048577 (the pages of the address space and
-- one more), the loop over the program headers 65536.
--
-- Not modelled: what a port answers (`inb`, `inw`; an argument where the code uses it), and the entry
-- and exit paths, which are assembly. An interrupt comes between two operations, never inside one.
-- What the called parts print for diagnosis is left out, as is the flush of the TLB.
pub mod Base
pub mod Memory
pub mod Paging
pub mod Process
pub mod CString
pub mod Screen
pub mod Descriptors
pub mod Syscall
pub mod Ata
pub mod Fat16
pub mod Tar
pub mod Elf
pub mod Keyboard
pub mod Devices
pub mod Kernel
