-- ===== src/Process/Life.antt =====
-- Creation and end of processes: `allocproc`, `create_proc`, `exit`, `wait`, `do_kill`, the
-- semaphores and `proc_init`.
use letsgo.Base.{
  ℕ, zero, suc, ◌+◌, Bool, false, not, ◌&&◌, ◌||◌, Option, none, some, ltb, ◌==◌, if◌then◌else◌,
  points_to, update, find_from,
}
use letsgo.Base.Int.{ℤ, pos, negsuc, minus_one, u64, eq_ℤ}
use letsgo.Process.Defs.{
  unused, runnable, running, zombie, Chan, null, of_object, of_proc, chan_of, Proc, Kernel, nproc,
  time_slice_count, is_unused, is_zombie,
}
use letsgo.Process.Select.{scheduler}
use letsgo.Process.Switch.{set_proc, yield_cpu, blocked_on, wakeup}

-- The entry that `allocproc` fills: `memset` to 0, then the assignments.
abbrev pub fresh_proc : Kernel → ℕ → Proc
fresh_proc k i = record {
  pid = i;
  state = runnable;
  context = λ r. 0;
  kstack = k.stack_top i;
  ctime = k.next_ctime;
  enq_time = k.enq_clock;
  slice = if k.sched_algorithm == 2 then 1 else time_slice_count;
  priority = 0;
  parent = k.current;
  exit_code = pos 0;
  chan = null;
  pagetable = 0;
  ustack = 0;
  entry = 0;
}

-- `none` in the first part when the table is full.
unfoldable pub allocproc : Kernel → Option ℕ × Kernel
allocproc k = elim (find_from (λ i. is_unused (k.procs i).state) nproc 0) [
  | none ↦ (none, k)
  | some i ↦ (
    some i,
    record k {
      procs = update k.procs i (fresh_proc k i);
      next_ctime = u64 (k.next_ctime + 1);
      enq_clock = u64 (k.enq_clock + 1);
    },
  )
]

-- What `create_proc` does with the result of `allocproc`.
unfoldable pub set_up : ℕ → Option ℕ → Kernel → ℤ × Kernel
set_up func none k = (minus_one, k)
set_up func (some i) k = (
  pos (k.procs i).pid,
  set_proc k i (λ p. record p { context = update (update (λ r. 0) 0 func) 1 p.kstack }),
)

-- `func` is the address of the entry function.
unfoldable pub create_proc : Kernel → ℕ → ℤ × Kernel
create_proc k func = let (slot, k') = allocproc k in set_up func slot k'

-- `for (i) if (procs[i].parent == p) procs[i].parent = 0;`
unfoldable pub orphan_from : ℕ → ℕ → ℕ → (ℕ → Proc) → ℕ → Proc
orphan_from zero i parent procs = procs
orphan_from (suc n) i parent procs =
    let p = procs i in
    orphan_from n (i + 1) parent
      (if points_to p.parent parent then update procs i (record p { parent = none }) else procs)

abbrev pub orphan : Kernel → ℕ → Kernel
orphan k i = record k { procs = orphan_from nproc 0 i k.procs }

-- A process `i` ends: its state, then the wake-up of its parent, then its children.
unfoldable pub finish : Kernel → ℕ → ℤ → Kernel
finish k i code =
    let dead = set_proc k i (λ p. record p { exit_code = code; state = zombie }) in
    orphan (wakeup dead (chan_of (dead.procs i).parent)) i

-- `exit`, which keeps the exit code that the caller has set. After the `yield` the process only
-- spins, if no other could be chosen.
unfoldable pub exit_proc : Kernel → Option Kernel
exit_proc k = elim k.current [
  | none ↦ some k
  | some i ↦ yield_cpu (finish k i (k.procs i).exit_code)
]

-- What one pass over the table in `wait` finds.
pub data Scan : Type 0 where
  no_kids : Scan
  have_kids : Scan
  dead_kid : ℕ → Scan

abbrev pub is_kid : Kernel → ℕ → ℤ → ℕ → Bool
is_kid k c pid i =
    points_to (k.procs i).parent c && (eq_ℤ pid minus_one || eq_ℤ pid (pos (k.procs i).pid))

-- The pass of the process `c`: `n` rounds from entry `i` on; `seen` is `have_kids` so far.
unfoldable pub scan_from : Kernel → ℕ → ℤ → ℕ → ℕ → Bool → Scan
scan_from k c pid zero i seen = if seen then have_kids else no_kids
scan_from k c pid (suc n) i seen =
    let kid = is_kid k c pid i in
    let rest = scan_from k c pid n (i + 1) (seen || kid) in
    if kid && is_zombie (k.procs i).state then dead_kid i else rest

-- How far `wait` comes before it returns or gives up the CPU. `asleep` is the state after
-- `blocked(current)`: when the process runs again, it makes the next round.
pub data Waited : Type 0 where
  failed : Waited
  reaped : (pid : ℕ) (status : ℤ) → Kernel → Waited
  asleep : Option Kernel → Waited

-- What follows the pass: the child is reaped, the call fails, or the process sleeps on its own
-- address.
unfoldable pub conclude : Kernel → ℕ → Scan → Waited
conclude k c no_kids = failed
conclude k c have_kids = asleep (blocked_on k (of_proc c))
conclude k c (dead_kid i) =
    reaped (k.procs i).pid (k.procs i).exit_code (set_proc k i (λ p. record p { state = unused }))

unfoldable pub wait_round : Kernel → ℤ → Waited
wait_round k pid = elim k.current [
  | none ↦ failed
  | some c ↦ conclude k c (scan_from k c pid nproc 0 false)
]

-- The test of the loop of `do_kill`, which skips an entry that is free or has another pid.
abbrev pub is_target : Kernel → ℕ → ℕ → Bool
is_target k pid i = (k.procs i).pid == pid && not (is_unused (k.procs i).state)

unfoldable pub do_kill : Kernel → ℤ → ℤ × Kernel
do_kill k (negsuc n) = (minus_one, k)
do_kill k (pos pid) = elim (find_from (is_target k pid) nproc 0) [
  | none ↦ (minus_one, k)
  | some i ↦
      if (k.procs i).pagetable == 0 || points_to k.current i
      then (minus_one, k)
      else (pos 0, finish k i (negsuc 8))
]

-- `struct semaphore`: its address is its channel.
pub record Semaphore : Type 0 where
  pub count : ℤ
  pub chan : Chan

unfoldable pub sem_init : ℕ → ℤ → Semaphore
sem_init address value = record { count = value; chan = of_object address }

-- One test of the loop of `sem_wait`: the semaphore is taken, or the process gives up the CPU.
pub data Taken : Type 0 where
  taken : Semaphore → Taken
  asleep : Option Kernel → Taken

unfoldable pub sem_wait_round : Kernel → Semaphore → Taken
sem_wait_round k s = elim s.count [
  | pos (suc n) ↦ taken (record s { count = pos n })
  | _ ↦ asleep (blocked_on k s.chan)
]

abbrev increment : ℤ → ℤ
increment (pos n) = pos (n + 1)
increment (negsuc zero) = pos 0
increment (negsuc (suc n)) = negsuc n

unfoldable pub sem_signal : Kernel → Semaphore → Semaphore × Kernel
sem_signal k s = (record s { count = increment s.count }, wakeup k s.chan)

-- `for (...) procs[i].state = UNUSED;`
unfoldable pub cleared : Kernel → Kernel
cleared k = record k {
  procs = λ i. if ltb i nproc then record (k.procs i) { state = unused } else k.procs i;
}

-- `current = scheduler(); if (current) ...`
unfoldable pub start_first : Option ℕ → Kernel → Kernel
start_first none k = record k { current = none }
start_first (some i) k =
    set_proc (record k { current = some i }) i
      (λ p. record p { state = running; slice = if k.sched_algorithm == 2 then 1 else 10 })

-- `proc_init`, up to the jump to the chosen process.
unfoldable pub proc_init : Kernel → ℕ → Kernel
proc_init k init_process =
    let (chosen, k') = scheduler (create_proc (cleared k) init_process).1 in start_first chosen k'
