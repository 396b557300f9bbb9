-- ===== src/Lib.antt =====
-- AstraOS is a small 32-bit operating system for the PC. This library models the kernel's own logic
-- and proves what makes its parts correct. All paths here are from the repository's root.
--
-- The parts, and how they meet:
-- - src/fs/fat16.c, the FAT16 file system: `Fs.Fat16`. A module for each group of functions: `Layout`
--   (boot sector, geometry, disk), `Table` (the allocation table), `Name`, `Path`, `Dir` (walks over
--   directories and the searches), `Read`, `Browse`, `Entries` (entries that are written), `Make`,
--   `Remove`, `Write` and `Move`; `Volume` says where the clusters lie. The state is `Fs`: the disk, the
--   boot sector's fields and the current directory. A function that changes the disk returns its
--   `int` with the new disk.
-- - src/memory/paging.c: `Memory.Paging`, with the directory, the table, CR3 and the PG bit.
-- - src/memory/kmalloc.c: `Memory.Heap`, with the headers in memory by their addresses.
-- - src/kernel/elf32.c: `Kernel.Elf`, over the interface `Kernel.Files` of the three functions of
--   fat16.c that it calls; `Kernel.Storage` fills it with the model of fat16.c.
-- - src/kernel/exec.c: `Kernel.Exec`, which calls the loader and paging.c and builds the stack.
-- - src/kernel/syscall.c: `Kernel.Syscall`, the descriptor table, over `Fs`, with the system calls in
--   its `Open`, `Transfer` and `Calls`, the last with the handler.
-- - src/kernel/print.c: `Kernel.Print`.
-- - src/kernel/string.c: `Kernel.Text`, with `memset` and the byte copies of the loader in
--   `Kernel.Bytes`.
-- - src/kernel/shell.c: `Kernel.Shell`. `State` has the static variables and the `Machine` that the
--   commands work on (screen, file system, heap, paging, memory, timer); `Token` is the tokenizer,
--   `Line` the line editor, `History` the commands typed before, `Command` every command with the
--   dispatch of `shell_execute`, and `Input` the prompt and `shell_handle_input`. The run of a user
--   program, from `switch_to_user_mode` to its exit, is the parameter `user_mode`.
-- - src/kernel/kernel.c: `Kernel.Start`, with the addresses that the linker gives as `Symbols`.
-- - src/kernel/syscall_api.c, user/apps, user/start.asm and src/user/init.c: `User`. A program is a
--   tree of system calls and accesses to memory that `run` plays against `syscall_handler`.
-- - src/cpu/gdt.c, src/cpu/idt.c and src/cpu/tss.c: `Cpu.Gdt`, `Cpu.Gates` (with isr_install and
--   irq_install) and `Cpu.Tss`; src/cpu/isr.c: `Cpu.Exceptions`; src/cpu/irq.c with the
--   end-of-interrupt of src/drivers/pic.c: `Cpu.Interrupts`; src/cpu/timer.c: `Cpu.Timer`.
-- - src/drivers/vga.c, keyboard.c, ata.c and pic.c: `Drivers.Vga`, `Drivers.Keyboard`, `Drivers.Ata`
--   and `Drivers.Pic`.
--
-- How C is rendered. Numbers are natural numbers, with the wrap-around of `uint8_t`, `uint16_t` and
-- `uint32_t` written out (`u8`, `u16`, `u32`, `sub32`). Buffers of 512 bytes, memory and the disk are
-- functions of an index or address. A C string is the list of its characters before the NUL. The
-- result of a run is a `Run`: `done`; `fault` for a write past the end of a C array, for a halt of the
-- kernel, and for a store over the kernel's own memory through an address that a program passed or
-- used; or `out_of_fuel`.
--
-- Fuel. Loops over cluster chains, over the linked headers of the heap, over the search for a free
-- cluster and over a C string in memory take fuel, because a damaged table, heap or string makes the
-- C loop run on. `alloc_cluster_lem` shows that as many rounds as there are clusters and two are
-- enough for the search, `free-Chain-IsFreed` that more rounds than the chain is long are enough to
-- free it, `copy_chain-write_chain` that a round for each byte and one more are enough to write a file
-- and to read it, and `kmalloc-IsHeap` and `kfree-IsHeap` that more rounds than there are blocks are
-- enough for the heap. The loop over pages has 1025 rounds, one more than there are pages. A sleep
-- runs over the interrupts that wake the processor, and the polling of the drive over the answers that
-- it gives; `strcmp-str_eq` needs a round for each character. The endless loop of `cat` has rounds, with
-- any program behind them.
--
-- What the disk does with the commands of src/drivers/ata.c is the hardware's part: a read gives the
-- sector that was last written at the 28 bits of address that the driver passes on.
--
-- Not modelled: assembly and what is only inline assembly (boot code, interrupt stubs, the switch in
-- src/cpu/usermode.c, `hlt`), and single port accesses in src/drivers/ports.c and src/cpu/power.c. In
-- the model the variables of the kernel are apart from the bytes of memory. The kernel does not check
-- the addresses that a program passes to the system calls; where such a call stores over the addresses
-- of the kernel, which `kernel_mem` tells, the model ends in a `fault` and says nothing of what follows. The command `syscalltest` of the shell prints the text that its
-- interrupt would. The NULs that the tokenizer writes into the command buffer are left out, since the
-- prompt that follows ends the line at index 0.
pub mod Base
pub mod Memory
pub mod Fs
pub mod Drivers
pub mod Cpu
pub mod Kernel
pub mod User
pub mod Tests
