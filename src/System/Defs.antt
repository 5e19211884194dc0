-- ===== src/System/Defs.antt =====
-- The state of the whole kernel, and the frame that trap_vec.S saves.
use letsgo.Base.{
  ℕ, zero, suc, ◌+◌, ◌/◌, ◌%◌, Bool, ◌&&◌, ◌||◌, Option, none, some, List, [], ◌∷◌, ◌++◌, leb, ◌==◌,
  if◌then◌else◌, length,
}
use letsgo.Base.Int.{u64}
use letsgo.Process.Defs.{Kernel}
use letsgo.Process.Switch.{yield_cpu}
use letsgo.Fs.Defs.{Fs, Outcome, returns, faults, waits}
use letsgo.Pmm.Defs.{Pmm, Result, done, panics}
use letsgo.Heap.Defs.{Heap}
use letsgo.Console.Defs.{Keyboard}

-- The heap's blocks are read and written at their virtual addresses, as `heap_bytes`. The terminal
-- of `fs` is the UART. `timer_at` is the time of the next timer interrupt, and `completed` the
-- interrupts that the controller has been told to be done with.
pub record Machine : Type 0 where
  pub kernel : Kernel
  pub fs : Fs
  pub pmm : Pmm
  pub heap : Heap
  pub heap_bytes : ℕ → ℕ
  pub keys : Keyboard
  pub trap_timer_count : ℕ
  pub trap_uart_count : ℕ
  pub trap_syscall_count : ℕ
  pub trap_page_fault_count : ℕ
  pub timer_at : ℕ
  pub completed : List ℕ

-- `struct trapframe`, by the number of the word.
abbrev pub Trapframe : Type 0
Trapframe = ℕ → ℕ

abbrev pub tf_sp : ℕ
tf_sp = 1

abbrev pub tf_a0 : ℕ
tf_a0 = 9

abbrev pub tf_a1 : ℕ
tf_a1 = 10

abbrev pub tf_a2 : ℕ
tf_a2 = 11

abbrev pub tf_a3 : ℕ
tf_a3 = 12

abbrev pub tf_a4 : ℕ
tf_a4 = 13

abbrev pub tf_a7 : ℕ
tf_a7 = 16

abbrev pub tf_sepc : ℕ
tf_sepc = 31

abbrev pub tf_sstatus : ℕ
tf_sstatus = 32

-- The words of the struct.
abbrev pub tf_words : ℕ
tf_words = 33

-- What the hardware tells the handler: the registers `scause`, `stval` and `time`, the interrupt
-- that the controller has pending, and the bytes that the UART has ready.
pub record Event : Type 0 where
  pub scause : ℕ
  pub stval : ℕ
  pub time : ℕ
  pub irq : ℕ
  pub ready : List ℕ

-- What comes of kernel code: it goes on with a value, or its process calls `yield` or `schedule` and
-- the code after that runs when the process is chosen again, or it panics, or it accesses memory
-- outside its object or outside the program's memory.
pub data Flow (A : Type 0) : Type 0 where
  goes_on : A → Machine → Flow A
  leaves : Machine → Flow A
  halts : Flow A
  faulty : Flow A

-- What follows when the code goes on.
unfoldable pub followed : {A B : Type 0} → Flow A → (A → Machine → Flow B) → Flow B
followed (goes_on a m) f = f a m
followed (leaves m) f = leaves m
followed halts f = halts
followed faulty f = faulty

abbrev pub set_kernel : Machine → Kernel → Machine
set_kernel m k = record m { kernel = k }

-- The process does not go on here: the loops of `exit`, of `wait` and of a wait for a key do not end
-- by themselves.
unfoldable pub gives_up : {A : Type 0} → Machine → Option Kernel → Flow A
gives_up m none = faulty
gives_up m (some k) = leaves (set_kernel m k)

-- A call of fs.c, and what follows it. While there is no key, `uart_getc_blocking` calls `yield`.
unfoldable pub with_fs : {A B : Type 0} → Machine → Outcome A → (A → Machine → Flow B) → Flow B
with_fs m (returns a s) f = f a (record m { fs = s })
with_fs m faults f = faulty
with_fs m waits f = gives_up m (yield_cpu m.kernel)

-- A call that allocates frames, and what follows it.
unfoldable pub with_pmm : {A B : Type 0} → Machine → Result A → (A → Machine → Flow B) → Flow B
with_pmm m (done a s) f = f a (record m { pmm = s })
with_pmm m panics f = halts

-- Memory of the running program, which the hardware reaches through the page table in use. Writing
-- there changes the allocator's frames and no other part of the kernel's state but the number of
-- page faults, of which the write may raise some itself: `store` has the frames and that number.
-- It is none when the kernel does not come back from such a fault.
pub record UserMemory : Type 0 where
  pub string_at : Machine → ℕ → List ℕ
  pub strings_at : Machine → ℕ → List (List ℕ)
  pub bytes_at : Machine → ℕ → ℕ → ℕ
  pub store : Machine → ℕ → List ℕ → Option (Pmm × ℕ)

abbrev pub user_limit : ℕ
user_limit = 0x80000000

-- The addresses of programs: not the first page, not the kernel's from `user_limit` on, which hold its
-- variables, its stacks with the trap frames and its heap, and not those from the PLIC to the UART.
abbrev pub in_program : ℕ → ℕ → Bool
in_program a n =
    leb 4096 a && leb (a + n) user_limit && (leb (a + n) 0x0C000000 || leb 0x10001000 a)

-- The frames after a write, and the page faults on the way.
unfoldable pub stored : Machine → Option (Pmm × ℕ) → Flow (Unit {0})
stored m none = faulty
stored m (some (s, n)) =
    goes_on tt (record m { pmm = s; trap_page_fault_count = u64 (m.trap_page_fault_count + n) })

-- A write of the kernel through a pointer of the program, which syscall.c and fs.c do not check.
unfoldable pub put : UserMemory → Machine → ℕ → List ℕ → Flow (Unit {0})
put mem m a [] = goes_on tt m
put mem m a (b ∷ bytes) =
    if in_program a (length (b ∷ bytes)) then stored m (mem.store m a (b ∷ bytes)) else faulty

-- `if (p) *p = ...`
abbrev pub put_if : UserMemory → Machine → ℕ → List ℕ → Flow (Unit {0})
put_if mem m a bytes = if a == 0 then goes_on tt m else put mem m a bytes

-- The `n` bytes of a number, the lowest first.
unfoldable pub le_bytes : ℕ → ℕ → List ℕ
le_bytes zero v = []
le_bytes (suc n) v = v % 256 ∷ le_bytes n (v / 256)

-- What the kernel prints.
abbrev pub prints : Machine → List ℕ → Machine
prints m text = let s = m.fs in record m { fs = record s { output = s.output ++ text } }
