-- ===== src/Lib.antt =====
-- letsgo: a small kernel for 64-bit RISC-V. Its parts, and the files that model them:
--
--   Process  proc.c, proc.h, swtch.S: the process table (`Kernel`), the three scheduling policies
--            (Process/Select), yield, the context switch, the timer's tick, blocking and waking
--            (Process/Switch), the life of a process and semaphores (Process/Life), `fork` and the
--            copy of a page table (Process/Fork).
--   Fs       fs.c, fs.h: inodes, directories, paths, descriptors (`Fs`; Fs/Dir, Fs/Path, Fs/Files).
--   Text     string.c: byte strings, as the file system and the shell use them.
--   Pmm      pmm.c: physical pages with their bitmap. A call of `panic` is the result `panics`.
--   Vmm      vmm.c: page tables in the memory of Pmm, from whose allocator their pages come.
--   Heap     heap.c: the kernel's heap, which Pmm and Vmm extend.
--   Console  uart.c and `readline` of kernel.c: the keyboard ring, numbers, printf, line input.
--   Elf      elf.c, elf.h: the loader, which fills pages of Pmm through Vmm.
--   System   the kernel as a whole, whose state is the record `Machine` of the states above: `exec`,
--            `fork_from_trap` and `do_ps` of proc.c (System/Exec, System/Fork, System/Ps), syscall.c
--            (System/Calls, System/Syscall), trap.c with its interrupts, system calls and page faults
--            (System/Trap), and `create_user_files` of fs.c, for any programs that the build makes
--            (System/Install). Of the shell in kernel.c it has how a line becomes commands
--            (System/Shell).
--   Base     tests, arrays, searches, integers and bit operations that the parts share.
--
-- A definition has the name of the C function that it models, or of the part of one. A few names
-- differ: `exit` is `exit_proc`, `yield` is `yield_cpu`, `blocked` is `blocked_on`, and
-- `fs_resolve_path` is `resolve_path`. An
-- array is a function of the index, a pointer into the process table is the index of the entry,
-- and a null pointer is `none`. Clocks and the sizes of the heap wrap at 2 ^ 64, offsets of files as
-- 32-bit integers; addresses of pages are far below 2 ^ 64. The frames of the allocator lie below
-- 0x88000000, up to where `vmm_init` maps the memory, so that the kernel can reach them.
--
-- A call that waits, such as `wait` or `sem_wait`, is modelled by the round of its loop, which ends
-- with the caller's switch to another process. Loops over tables have their constant bounds;
-- `tokens_from` and `digits_from` take fuel that the length of the string and the number itself
-- bound, and the walk of `kmalloc` takes fuel above the number of blocks.
--
-- Kernel code that a system call or a trap runs has a `Flow` as its result: it goes on with a value,
-- or its process calls `yield` or `schedule` and goes on when it is chosen again (a wait for a key ends
-- its round so), or it panics, or it accesses memory outside its object. A program's memory is reached
-- by the hardware through the page table in use, so it is a parameter, the record `UserMemory`: it
-- reads any strings and bytes, and a write changes the allocator's frames in any way, and counts the
-- page faults that it raises. The kernel does not check the pointers that it writes through; a write
-- that leaves the addresses of programs (`in_program`), to the kernel's variables, to a trap frame, to
-- the heap or to a device, is an access outside its object, and nothing is said of what follows it.
-- The time, the bytes that the UART has ready and the claimed interrupt are inputs.
--
-- Not modelled: the run of the shell's commands, the start of the kernel, device registers, the
-- messages of proc.c, trap.c and syscall.c before a panic or a failed allocation, assembly but for
-- swtch.S, and the user programs.
pub mod Base
pub mod Process
pub mod Text
pub mod Fs
pub mod Pmm
pub mod Vmm
pub mod Heap
pub mod Elf
pub mod System
pub mod Console
