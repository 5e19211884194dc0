-- ===== src/Process/Defs.antt =====
-- proc.h, and the variables of proc.c. A pointer into `procs` is an index, NULL is `none`.
-- The kernel's other globals that `yield` writes (satp, sstatus, the callee-saved registers) are
-- fields of the same record.
use letsgo.Base.{ℕ, Bool, true, false, Option, none, some, ◌==◌}
use letsgo.Base.Int.{ℤ}

abbrev pub nproc : ℕ
nproc = 8

abbrev pub nqueue : ℕ
nqueue = 3

abbrev pub time_slice_count : ℕ
time_slice_count = 1

pub data ProcState : Type 0 where
  unused runnable running blocked zombie : ProcState

abbrev pub is_unused : ProcState → Bool
is_unused unused = true
is_unused _ = false

abbrev pub is_runnable : ProcState → Bool
is_runnable runnable = true
is_runnable _ = false

abbrev pub is_running : ProcState → Bool
is_running running = true
is_running _ = false

abbrev pub is_blocked : ProcState → Bool
is_blocked blocked = true
is_blocked _ = false

abbrev pub is_zombie : ProcState → Bool
is_zombie zombie = true
is_zombie _ = false

-- `void *chan`: NULL, the address of an entry of `procs`, or that of another object, such as a
-- semaphore. Distinct objects have distinct addresses.
pub data Chan : Type 0 where
  null : Chan
  of_proc : ℕ → Chan
  of_object : ℕ → Chan

abbrev pub eq_chan : Chan → Chan → Bool
eq_chan null null = true
eq_chan (of_proc i) (of_proc j) = i == j
eq_chan (of_object a) (of_object b) = a == b
eq_chan _ _ = false

-- A `struct proc *` passed as a channel.
abbrev pub chan_of : Option ℕ → Chan
chan_of none = null
chan_of (some i) = of_proc i

-- `struct proc`. A page table is its physical address, 0 for none.
pub record Proc : Type 0 where
  pub pid : ℕ
  pub state : ProcState
  pub context : ℕ → ℕ
  pub kstack : ℕ
  pub ctime : ℕ
  pub enq_time : ℕ
  pub slice : ℕ
  pub priority : ℕ
  pub parent : Option ℕ
  pub exit_code : ℤ
  pub chan : Chan
  pub pagetable : ℕ
  pub ustack : ℕ
  pub entry : ℕ

-- `stack_top i` is `&stacks[i][8192] & ~0xf`.
pub record Kernel : Type 0 where
  pub procs : ℕ → Proc
  pub current : Option ℕ
  pub next_pid : ℕ
  pub next_ctime : ℕ
  pub enq_clock : ℕ
  pub sched_algorithm : ℕ
  pub need_resched : Bool
  pub stack_top : ℕ → ℕ
  pub kernel_pagetable : ℕ
  pub user_satp : ℕ
  pub switch_to_user : ℕ
  pub satp : ℕ
  pub sstatus : ℕ
  pub regs : ℕ → ℕ
