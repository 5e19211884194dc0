-- ===== src/Process/Invariant/Switch.antt =====
-- `yield`, `sched_tick`, `blocked` and `wakeup` of proc.c keep the invariant.
use letsgo.Process.Select.{scheduler}
use letsgo.Base.{
  ℕ, zero, suc, ◌+◌, ◌<◌, ◌≡◌, refl, subst, inl, inr, false, Option, none, some, arith, Bool-cases,
  Option-cases, points_to, some_inj,
}
use letsgo.Base.Int.{u64}
use letsgo.Process.Choice.{scheduler-IsRunnable, scheduler_frame}
use letsgo.Process.Defs.{Chan, Kernel, nproc, Proc, is_unused, is_running, nqueue, running}
use letsgo.Process.Switch.{
  swtch, preempt, dispatch, switch_to, sched_tick, wakeup, wakeup_from, waits_on, yield_cpu,
  give_cpu, blocked_on,
}
use letsgo.Process.Choice.Table.{IsRunnable}
use letsgo.Process.Invariant.Defs.{IsValid, set-IsValid, IsGood, valid-IsInTable}

wakeup_from-IsValid : (n i : ℕ) (c : Chan) {k : Kernel} → IsValid k → IsValid (wakeup_from n i c k)
unfolding wakeup_from
wakeup_from-IsValid zero i c v = v
wakeup_from-IsValid (suc n) i c {k} v = elim (Bool-cases (waits_on (k.procs i) c)) [
  | inl waits ↦ rw waits (
      wakeup_from-IsValid n (i + 1) c
        (set-IsValid i _ (u64 (k.enq_clock + 1)) v (λ b. ground (arith, v.good i b)) (λ e. refl)))
  | inr other ↦ rw other (wakeup_from-IsValid n (i + 1) c v)
]

pub wakeup-IsValid : {k : Kernel} (c : Chan) → IsValid k → IsValid (wakeup k c)
unfolding wakeup
wakeup-IsValid c v = wakeup_from-IsValid nproc 0 c v

pub sched_tick-IsValid : {k : Kernel} → IsValid k → IsValid (sched_tick k)
unfolding sched_tick
sched_tick-IsValid {k} v = record {
  next_in = ground (arith, v.next_in);
  current_in = λ c e. ground (arith, v.current_in c);
  current_used = λ c e. ground (arith, v.current_used c);
  good = λ j b. ground (arith, v.good j b);
}

-- Between two processes: nobody runs.
abbrev IsIdle : ℕ → Proc → Type 0
IsIdle j p =
    (is_running p.state ≡ false)
    × (p.priority < nqueue)
    × (is_unused p.state ≡ false → p.pid ≡ j)
    × (points_to p.parent j ≡ false)

preempt-IsIdle :
    (k : Kernel) (i prev j : ℕ)
    → IsGood k.current j (k.procs j)
    → k.current ≡ some prev
    → IsIdle j ((preempt (record k { current = some i }) prev).procs j)
unfolding preempt
preempt-IsIdle k i prev j g c = ground (arith, g.0, g.1, g.2, g.3)

dispatch-IsGood :
    (k : Kernel) (i j : ℕ)
    → IsIdle j (k.procs j)
    → is_unused (k.procs i).state ≡ false
    → IsGood (some i) j ((dispatch k i).procs j)
unfolding dispatch
dispatch-IsGood k i j g h = ground (arith, g.0, g.1, g.2, g.3)

swtch-IsGood :
    (k : Kernel) {c : Option ℕ} (a b j : ℕ)
    → IsGood c j (k.procs j)
    → IsGood c j ((swtch k a b).procs j)
unfolding swtch
swtch-IsGood k a b j g = ground (arith, g.0, g.1, g.2, g.3)

-- The process that `yield` chooses is not a free entry, also after the preemption.
preempt-used :
    (k : Kernel) (i prev : ℕ)
    → is_unused (k.procs i).state ≡ false
    → is_unused ((preempt k prev).procs i).state ≡ false
unfolding preempt
preempt-used i prev h = ground arith

switch_frame :
    (k : Kernel) (i prev : ℕ)
    → let k' = swtch (dispatch (preempt k prev) i) prev i in
      (k'.current ≡ k.current) × (k'.next_pid ≡ k.next_pid)
unfolding preempt dispatch swtch
switch_frame k i prev = ground arith

-- The process that `yield` chooses runs.
switched-running :
    (k : Kernel) (i prev : ℕ) → ((swtch (dispatch k i) prev i).procs i).state ≡ running
unfolding swtch dispatch
switched-running k i prev = ground arith

switched-IsValid :
    {k : Kernel} (i prev : ℕ)
    → IsValid k
    → IsRunnable k i
    → k.current ≡ some prev
    → IsValid (swtch (dispatch (preempt (record k { current = some i }) prev) i) prev i)
switched-IsValid {k} i prev v r here =
    let start = record k { current = some i } in
    let (cur, next) = switch_frame start i prev in
    record {
      next_in = rw next v.next_in;
      current_in = λ c e. ground (arith, cur, r.0);
      current_used = λ c e. ground (arith, cur, switched-running (preempt start prev) i prev);
      good = rw cur (λ j b. swtch-IsGood _ prev i j (
          dispatch-IsGood _ i j (preempt-IsIdle k i prev j (v.good j b) here)
            (preempt-used start i prev (ground (arith, r.1)))));
    }

switch_to-IsValid :
    {k k' : Kernel} (i : ℕ) → IsValid k → IsRunnable k i → switch_to k i ≡ some k' → IsValid k'
unfolding switch_to
switch_to-IsValid {k} {k'} i v r e = elim (Option-cases k.current) [
  | inl idle ↦ absurd (ground arith)
  | inr (prev, here) ↦
      subst IsValid (some_inj (rw (here, switch_to) at e)) (switched-IsValid i prev v r here)
]

give_cpu-IsValid :
    {k k' : Kernel} (next : Option ℕ)
    → IsValid k
    → ((i : ℕ) → next ≡ some i → IsRunnable k i)
    → give_cpu next k ≡ some k'
    → IsValid k'
unfolding give_cpu
give_cpu-IsValid none v r e = subst IsValid (some_inj e) v
give_cpu-IsValid {k} {k'} (some i) v r e = elim (Bool-cases (points_to k.current i)) [
  | inl same ↦ subst IsValid (some_inj (rw same at e)) v
  | inr other ↦ switch_to-IsValid i v (r i refl) (rw other at e)
]

pub yield_cpu-IsValid : {k k' : Kernel} → IsValid k → yield_cpu k ≡ some k' → IsValid k'
unfolding yield_cpu
yield_cpu-IsValid {k} {k'} v e =
    let (n, frame, below) = scheduler_frame k v.next_in in
    give_cpu-IsValid (scheduler k).0
      (rw frame (record {
        next_in = below;
        current_in = v.current_in;
        current_used = v.current_used;
        good = v.good;
      }))
      (λ i h. rw frame (scheduler-IsRunnable k (valid-IsInTable v) h)) e

pub blocked_on-IsValid :
    {k k' : Kernel} (c : Chan) → IsValid k → blocked_on k c ≡ some k' → IsValid k'
unfolding blocked_on
blocked_on-IsValid {k} {k'} c v e = elim (Option-cases k.current) [
  | inl idle ↦ subst IsValid (some_inj (rw (idle, blocked_on) at e)) v
  | inr (i, here) ↦
      yield_cpu-IsValid
        (set-IsValid i _ k.enq_clock v (λ b. ground (arith, v.good i b, v.current_used i))
          (λ e. refl))
        (rw (here, blocked_on) at e)
]
