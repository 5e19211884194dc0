-- ===== src/Process/Switch.antt =====
-- `yield` with the context switch of swtch.S, `sched_tick`, `blocked` and `wakeup`.
use letsgo.Base.{
  ℕ, zero, suc, ◌+◌, ◌-◌, ◌/◌, ◌^◌, Bool, true, not, ◌&&◌, Option, none, some, ◌==◌, ltb,
  if◌then◌else◌, update, points_to, bit_or,
}
use letsgo.Base.Int.{u64}
use letsgo.Process.Defs.{
  running, runnable, blocked, Chan, Proc, Kernel, nproc, nqueue, is_running, is_blocked, eq_chan,
}
use letsgo.Process.Select.{scheduler}

-- One entry of the table changes.
abbrev pub set_proc : Kernel → ℕ → (Proc → Proc) → Kernel
set_proc k i f = record k { procs = update k.procs i (f (k.procs i)) }

-- `MAKE_SATP` of vmm.h.
unfoldable pub make_satp : ℕ → ℕ
make_satp pagetable = bit_or (2 ^ 63) (pagetable / 2 ^ 12)

-- `SSTATUS_SIE | SSTATUS_SUM`
abbrev pub sie_sum : ℕ
sie_sum = bit_or (2 ^ 1) (2 ^ 18)

-- swtch.S: the fourteen registers ra, sp, s0..s11 go to the old context; the new context gives
-- those and a0, its slot 14.
unfoldable pub swtch : Kernel → ℕ → ℕ → Kernel
swtch k old next =
    let saved = λ (c : ℕ → ℕ) (r : ℕ). if ltb r 14 then k.regs r else c r in
    let k' = set_proc k old (λ p. record p { context = saved p.context }) in
    let loaded = λ (r : ℕ). if ltb r 15 then (k'.procs next).context r else k.regs r in
    record k' { regs = loaded }

-- What `yield` does to the process that it takes the CPU from.
abbrev pub preempted : Kernel → Proc → Proc
preempted k p =
    let q = record p { state = runnable; enq_time = k.enq_clock } in
    if k.sched_algorithm == 2 && not k.need_resched
    then record q { priority = p.priority - 1; slice = 1 }
    else q

unfoldable pub preempt : Kernel → ℕ → Kernel
preempt k i =
    if is_running (k.procs i).state
    then record k {
      procs = update k.procs i (preempted k (k.procs i));
      enq_clock = u64 (k.enq_clock + 1);
    }
    else k

-- The new process gets the CPU, and its address space.
unfoldable pub dispatch : Kernel → ℕ → Kernel
dispatch k i =
    let p = k.procs i in
    let started = record p {
      state = running;
      slice = if k.sched_algorithm == 2 then p.slice else 10;
    } in
    let k' = record k { procs = update k.procs i started; sstatus = bit_or k.sstatus sie_sum } in
    if p.pagetable == 0 then record k' { satp = make_satp k.kernel_pagetable } else record k' {
      user_satp = make_satp p.pagetable;
      switch_to_user = 0;
      satp = make_satp p.pagetable;
    }

-- What follows the guards of `yield`. `none` is the NULL that `swtch` would write through: with no
-- current process there is no context to save.
unfoldable pub switch_to : Kernel → ℕ → Option Kernel
switch_to k next = elim k.current [
  | none ↦ none
  | some prev ↦
      some (swtch (dispatch (preempt (record k { current = some next }) prev) next) prev next)
]

unfoldable pub give_cpu : Option ℕ → Kernel → Option Kernel
give_cpu none k = some k
give_cpu (some i) k = if points_to k.current i then some k else switch_to k i

-- `yield`. The result is the state in which the chosen process goes on.
unfoldable pub yield_cpu : Kernel → Option Kernel
yield_cpu k = let (next, k') = scheduler k in give_cpu next k'

-- The body of `sched_tick` for the current process `i`.
abbrev pub ticked : Kernel → Proc → Proc
ticked k p =
    if ltb 1 p.slice
    then record p { slice = p.slice - 1 }
    else if k.sched_algorithm == 2
    then (let raised = if ltb p.priority (nqueue - 1) then p.priority + 1 else p.priority in
        record p { priority = raised; slice = 2 ^ raised })
    else record p { slice = 0 }

unfoldable pub sched_tick : Kernel → Kernel
sched_tick k = elim k.current [
  | none ↦ k
  | some i ↦
      let p = k.procs i in
      if p.slice == 0 then k else record k {
        procs = update k.procs i (ticked k p);
        need_resched = if p.slice == 1 then true else k.need_resched;
      }
]

unfoldable pub blocked_on : Kernel → Chan → Option Kernel
blocked_on k c = elim k.current [
  | none ↦ some k
  | some i ↦ yield_cpu (set_proc k i (λ p. record p { chan = c; state = blocked }))
]

abbrev pub waits_on : Proc → Chan → Bool
waits_on p c = is_blocked p.state && eq_chan p.chan c

-- The loop of `wakeup`: `n` rounds from entry `i` on.
unfoldable pub wakeup_from : ℕ → ℕ → Chan → Kernel → Kernel
wakeup_from zero i c k = k
wakeup_from (suc n) i c k =
    let p = k.procs i in
    let woken = record p { state = runnable; chan = Chan.null; enq_time = k.enq_clock } in
    wakeup_from n (i + 1) c (
      if waits_on p c
      then record k { procs = update k.procs i woken; enq_clock = u64 (k.enq_clock + 1) }
      else k)

unfoldable pub wakeup : Kernel → Chan → Kernel
wakeup k c = wakeup_from nproc 0 c k
