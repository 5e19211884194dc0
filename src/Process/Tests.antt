-- ===== src/Process/Tests.antt =====
-- Runs of the process table, and the theorems at concrete states.
use letsgo.Process.Fork.{copy_stack}
use letsgo.Process.Stack.{AreApart, Moved, copy_stack_faithful}
use letsgo.Process.Context.{swtch_back}
use letsgo.Process.Invariant.Steps.{Step-IsValid, later, kills, start, ticks}
use letsgo.Process.Choice.{scheduler-ne-none, scheduler-IsRunnable}
use letsgo.Process.Choice.RoundRobin.{rr_distance, rr_select-fair}
use letsgo.Process.Switch.{
  swtch, sched_tick, make_satp, preempt, dispatch, switch_to, give_cpu, yield_cpu, blocked_on,
  wakeup_from, wakeup,
}
use letsgo.Process.Flags.Calls.{IsStaleForUsed, Step-IsStaleForUsed}
use letsgo.Process.Waiting.{Reaped, wait_round_reaps, wait_round_again}
use letsgo.Process.Invariant.Boot.{IsZeroed, one_running}
use letsgo.Process.Invariant.Defs.{IsValid}
use letsgo.Process.Choice.Mlfq.{IsQueued, mlfq_select_best}
use letsgo.Process.Choice.Fcfs.{IsTimely, fcfs_select_earliest}
use letsgo.Process.Choice.Table.{IsInTable, IsRunnable}
use letsgo.Process.Life.{
  proc_init, do_kill, wait_round, failed, allocproc, set_up, create_proc, orphan_from, finish,
  exit_proc, scan_from, conclude, sem_init, sem_wait_round, sem_signal, cleared, start_first,
}
use letsgo.Process.Select.{
  fallback, rr_select, fcfs_select, mlfq_select, scheduler, fcfs_from, mlfq_from,
}
use letsgo.Base.{
  ℕ, ◌+◌, ◌-◌, ◌*◌, ◌≤◌, ◌<◌, ◌≡◌, refl, ◌≢◌, ◌⊎◌, inr, true, false, none, some, arith, ◌==◌,
  if◌then◌else◌, update, find_from,
}
use letsgo.Base.Int.{pos, minus_one}
use letsgo.Process.Defs.{Proc, ProcState, Kernel, Chan}

abbrev no_regs : ℕ → ℕ
no_regs r = 0

abbrev empty_proc : Proc
empty_proc = record {
  pid = 0;
  state = ProcState.unused;
  context = no_regs;
  kstack = 0;
  ctime = 0;
  enq_time = 0;
  slice = 0;
  priority = 0;
  parent = none;
  exit_code = pos 0;
  chan = Chan.null;
  pagetable = 0;
  ustack = 0;
  entry = 0;
}

-- The globals at the start, with the policy `algorithm`.
abbrev zeroed : ℕ → Kernel
zeroed algorithm = record {
  procs = λ i. empty_proc;
  current = none;
  next_pid = 0;
  next_ctime = 0;
  enq_clock = 0;
  sched_algorithm = algorithm;
  need_resched = false;
  stack_top = λ i. 0x80300000 + 8192 * (i + 1);
  kernel_pagetable = 0x80400000;
  user_satp = 0;
  switch_to_user = 0;
  satp = 0;
  sstatus = 0;
  regs = no_regs;
}

-- The shell, a child of it that waits for the CPU, and one that has ended with code 7.
abbrev family_procs : ℕ → Proc
family_procs i =
    if i == 0
    then record empty_proc { state = ProcState.running; slice = 1 }
    else if i == 1
    then record empty_proc {
      pid = 1;
      state = ProcState.runnable;
      parent = some 0;
      pagetable = 0x80500000;
      enq_time = 4;
      priority = 1;
    }
    else if i == 2
    then record empty_proc { pid = 2; state = ProcState.zombie; parent = some 0; exit_code = pos 7 }
    else empty_proc

abbrev family : ℕ → Kernel
family algorithm = record (zeroed algorithm) {
  procs = family_procs;
  current = some 0;
  enq_clock = 5;
}

program : Unit {0}
unfolding find_from fallback rr_select fcfs_from fcfs_select mlfq_from mlfq_select scheduler
    make_satp swtch preempt dispatch switch_to give_cpu yield_cpu sched_tick blocked_on wakeup_from
    wakeup allocproc set_up create_proc orphan_from finish exit_proc scan_from conclude wait_round
    do_kill sem_init sem_wait_round sem_signal cleared start_first proc_init
program = tt

boot_runs_init :
    ((proc_init (zeroed 2) 0x80200000).current ≡ some 0)
    × (((proc_init (zeroed 2) 0x80200000).procs 0).state ≡ ProcState.running)
unfolding program
boot_runs_init = (refl, refl)

kill_in_turn :
    ((do_kill (family 2) (pos 1)).0 ≡ pos 0)
    × ((do_kill (family 2) (pos 2)).0 ≡ minus_one)
    × ((do_kill (family 2) (pos 0)).0 ≡ minus_one)
unfolding program
kill_in_turn = (refl, refl, refl)

family-IsInTable : (alg : ℕ) → IsInTable (family alg)
family-IsInTable alg = record { next_in = omega arith; current_in = λ c e. ground arith }

family-IsRunnable : (alg : ℕ) → IsRunnable (family alg) 1
family-IsRunnable alg = (omega arith, refl)

family-IsTimely : (alg : ℕ) → IsTimely (family alg)
family-IsTimely alg a = ground arith

family-IsQueued : (alg : ℕ) → IsQueued (family alg)
family-IsQueued alg a b = ground arith

family-IsValid : (alg : ℕ) → IsValid (family alg)
family-IsValid alg = record {
  next_in = omega arith;
  current_in = λ c e. ground arith;
  current_used = λ c e. ground arith;
  good = λ i b. ground arith;
}

zeroed-IsZeroed : (alg : ℕ) → IsZeroed (zeroed alg)
zeroed-IsZeroed alg = record {
  nobody = refl;
  from_zero = refl;
  parentless = λ i. refl;
  first_queue = λ i. refl;
}

rr_select-fair_example :
    ((rr_select (family 0)).0 ≡ some 1)
    ⊎ (rr_distance (rr_select (family 0)).1 1 < rr_distance (family 0) 1)
rr_select-fair_example =
    rr_select-fair (family 0) 1 (family-IsInTable 0) (family-IsRunnable 0) (λ e. ground arith)

fcfs_select_earliest_example :
    IsRunnable (family 1) 1 × (((family 1).procs 1).enq_time ≤ ((family 1).procs 1).enq_time)
unfolding fcfs_select fcfs_from
fcfs_select_earliest_example =
    fcfs_select_earliest (family 1) 1 1 (family-IsTimely 1) (family-IsRunnable 1) refl

mlfq_select_best_example :
    IsRunnable (family 2) 1
    × ((((family 2).procs 1).priority < ((family 2).procs 1).priority)
        ⊎ ((((family 2).procs 1).priority ≡ ((family 2).procs 1).priority) × (1 ≤ 1)))
unfolding mlfq_select mlfq_from find_from
mlfq_select_best_example =
    mlfq_select_best (family 2) 1 1 (family-IsQueued 2) (family-IsRunnable 2) refl

scheduler-ne-none_example : (scheduler (family 2)).0 ≢ none
scheduler-ne-none_example =
    scheduler-ne-none (family 2) 1 (family-IsInTable 2) (family-IsTimely 2) (family-IsQueued 2)
      (omega arith) (family-IsRunnable 2)

scheduler-IsRunnable_example : IsRunnable (family 2) 1
unfolding program
scheduler-IsRunnable_example = scheduler-IsRunnable (family 2) {i = 1} (family-IsInTable 2) refl

Step-IsValid_example : IsValid (do_kill (family 2) (pos 1)).1
Step-IsValid_example = Step-IsValid (kills (pos 1)) (family-IsValid 2)

one_running_example : ◌≡◌ {A = ℕ} 0 0
unfolding program
one_running_example =
    one_running {k = zeroed 2} 0x80200000 0 0 (zeroed-IsZeroed 2) (later start ticks) (omega arith)
      (omega arith) refl refl

wait_round_reaps_example :
    (i : ℕ) × Reaped
      (family 2)
      0
      2
      (pos 7)
      (record (family 2) {
        procs = update family_procs 2 (record (family_procs 2) { state = ProcState.unused });
      })
      i
unfolding program
wait_round_reaps_example = wait_round_reaps (family 2) 0 minus_one refl refl

wait_round_again_example :
    wait_round
      (record (family 2) {
        procs = update family_procs 2 (record (family_procs 2) { state = ProcState.unused });
      })
      minus_one
    ≢ failed
unfolding program
wait_round_again_example =
    wait_round_again (family 2) 0 (pos 2) {n = 2} {status = pos 7} _ refl refl

abbrev overdue : Kernel
overdue = record (family 2) { need_resched = true }

Step-IsStaleForUsed_example : IsStaleForUsed overdue (sched_tick overdue)
Step-IsStaleForUsed_example =
    Step-IsStaleForUsed ticks
      (record {
        next_in = omega arith;
        current_in = λ c e. ground arith;
        current_used = λ c e. ground arith;
        good = λ i b. ground arith;
      })
      refl

swtch_back_example :
    ((swtch (family 2) 0 1).regs 3 ≡ 0) × ((swtch (swtch (family 2) 0 1) 1 0).regs 3 ≡ 0)
swtch_back_example = swtch_back (family 2) 0 1 3 (λ e. ground arith) (omega arith)

stacks-AreApart : AreApart 0x80302000 0x80304000
stacks-AreApart = record {
  parent_high = omega arith;
  child_high = omega arith;
  apart = inr (omega arith);
}

copy_stack_faithful_example :
    Moved 0x80302000 0x80304000
      (0x80302000 - 8192 + 8 * 5)
      (copy_stack 1024 0x80302000 0x80304000 (λ a. a) (0x80304000 - 8192 + 8 * 5))
    × (copy_stack 1024 0x80302000 0x80304000 (λ a. a) (0x80302000 - 8192 + 8 * 5)
        ≡ 0x80302000 - 8192 + 8 * 5)
copy_stack_faithful_example = copy_stack_faithful (λ a. a) 5 stacks-AreApart (omega arith)
