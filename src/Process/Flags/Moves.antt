-- ===== src/Process/Flags/Moves.antt =====
-- The flag `need_resched` of proc.c, which the timer interrupt sets.
use letsgo.Process.Select.{scheduler}
use letsgo.Process.Invariant.Defs.{IsValid}
use letsgo.Base.Int.{ℤ, u64}
use letsgo.Process.Life.{orphan_from, finish}
use letsgo.Base.{
  ℕ, zero, suc, ◌+◌, ◌≤◌, ◌≡◌, subst, inl, inr, true, Option, none, some, arith, Bool-cases,
  Option-cases, points_to, some_inj, update,
}
use letsgo.Process.Choice.{scheduler_frame}
use letsgo.Process.Defs.{Kernel, Proc, Chan, zombie, nproc, chan_of}
use letsgo.Process.Switch.{
  preempt, wakeup_from, wakeup, waits_on, set_proc, swtch, sched_tick, dispatch, give_cpu,
  yield_cpu, switch_to,
}

-- The flag is up in the new state, and no priority is better there.
pub record IsStale (k k' : Kernel) : Type 0 where
  pub raised : k'.need_resched ≡ true
  pub no_boost : (j : ℕ) → (k.procs j).priority ≤ (k'.procs j).priority

pub IsStale-trans : {a b c : Kernel} → IsStale a b → IsStale b c → IsStale a c
IsStale-trans {a} {b} {c} p q = record {
  raised = q.raised;
  no_boost = λ j. omega (arith, p.no_boost j, q.no_boost j);
}

pub set-IsStale :
    (k : Kernel) (i : ℕ) (p : Proc) (clock : ℕ)
    → k.need_resched ≡ true
    → (k.procs i).priority ≤ p.priority
    → IsStale k (record k { procs = update k.procs i p; enq_clock = clock })
set-IsStale k i p clock h le = record { raised = h; no_boost = λ j. ground arith }

pub refl-IsStale : {k : Kernel} → k.need_resched ≡ true → IsStale k k
refl-IsStale h = record { raised = h; no_boost = λ j. omega arith }

pub wakeup_from-IsStale :
    (n i : ℕ) (c : Chan) (k : Kernel) → k.need_resched ≡ true → IsStale k (wakeup_from n i c k)
unfolding wakeup_from
wakeup_from-IsStale zero i c k h = refl-IsStale h
wakeup_from-IsStale (suc n) i c k h = elim (Bool-cases (waits_on (k.procs i) c)) [
  | inl waits ↦ rw waits (
      IsStale-trans (set-IsStale k i _ (u64 (k.enq_clock + 1)) h (omega arith))
        (wakeup_from-IsStale n (i + 1) c _ h))
  | inr other ↦ rw other (wakeup_from-IsStale n (i + 1) c _ h)
]

orphan_from-IsStale :
    (n i parent : ℕ) (k : Kernel)
    → k.need_resched ≡ true
    → IsStale k (record k { procs = orphan_from n i parent k.procs })
unfolding orphan_from
orphan_from-IsStale zero i parent k h = refl-IsStale h
orphan_from-IsStale (suc n) i parent k h = elim (Bool-cases (points_to (k.procs i).parent parent)) [
  | inl kid ↦ rw kid (
      IsStale-trans
        (set-IsStale k i (record (k.procs i) { parent = none }) k.enq_clock h (omega arith))
        (orphan_from-IsStale n (i + 1) parent (set_proc k i (λ p. record p { parent = none })) h))
  | inr other ↦ rw other (orphan_from-IsStale n (i + 1) parent k h)
]

pub finish-IsStale :
    (k : Kernel) (i : ℕ) (code : ℤ) → k.need_resched ≡ true → IsStale k (finish k i code)
unfolding finish wakeup
finish-IsStale k i code h =
    let dead : Kernel = set_proc k i (λ p. record p { exit_code = code; state = zombie }) in
    let c = chan_of (dead.procs i).parent in
    let woken = wakeup_from-IsStale nproc 0 c dead h in
    IsStale-trans (set-IsStale k i _ k.enq_clock h (omega arith)) (
      IsStale-trans woken (orphan_from-IsStale nproc 0 i (wakeup_from nproc 0 c dead) woken.raised))

preempt-IsStale : (k : Kernel) (i : ℕ) → k.need_resched ≡ true → IsStale k (preempt k i)
unfolding preempt
preempt-IsStale k i h = record { raised = ground arith; no_boost = λ j. ground arith }

dispatch-IsStale : (k : Kernel) (i : ℕ) → k.need_resched ≡ true → IsStale k (dispatch k i)
unfolding dispatch
dispatch-IsStale k i h = record { raised = ground arith; no_boost = λ j. ground arith }

swtch-IsStale : (k : Kernel) (a b : ℕ) → k.need_resched ≡ true → IsStale k (swtch k a b)
unfolding swtch
swtch-IsStale k a b h = record { raised = ground arith; no_boost = λ j. ground arith }

switched-IsStale :
    (k : Kernel) (i prev : ℕ)
    → k.need_resched ≡ true
    → IsStale k (swtch (dispatch (preempt (record k { current = some i }) prev) i) prev i)
switched-IsStale k i prev h =
    let p = preempt-IsStale (record k { current = some i }) prev h in
    let d = dispatch-IsStale (preempt (record k { current = some i }) prev) i p.raised in
    let s =
      swtch-IsStale (dispatch (preempt (record k { current = some i }) prev) i) prev i d.raised in
    record {
      raised = s.raised;
      no_boost = λ j. omega (arith, p.no_boost j, d.no_boost j, s.no_boost j);
    }

give_cpu-IsStale :
    (k : Kernel) {k' : Kernel} (o : Option ℕ)
    → k.need_resched ≡ true
    → give_cpu o k ≡ some k'
    → IsStale k k'
unfolding give_cpu switch_to
give_cpu-IsStale k none h e = subst (IsStale k) (some_inj e) (refl-IsStale h)
give_cpu-IsStale k {k'} (some i) h e = elim (Bool-cases (points_to k.current i)) [
  | inl same ↦ subst (IsStale k) (some_inj (rw same at e)) (refl-IsStale h)
  | inr other ↦ elim (Option-cases k.current) [
    | inl idle ↦ absurd (ground arith)
    | inr (prev, now) ↦
        let switched : switch_to k i ≡ some k' = rw other at e in
        subst (IsStale k) (some_inj (rw (now, switch_to) at switched)) (switched-IsStale k i prev h)
  ]
]

pub yield_cpu-IsStale :
    (k : Kernel) {k' : Kernel}
    → IsValid k
    → k.need_resched ≡ true
    → yield_cpu k ≡ some k'
    → IsStale k k'
unfolding yield_cpu
yield_cpu-IsStale k {k'} v h e =
    let (n, frame, below) = scheduler_frame k v.next_in in
    let s =
      give_cpu-IsStale (record k { next_pid = n }) {k' = k'} (scheduler k).0 h (rw frame at e) in
    record { raised = s.raised; no_boost = s.no_boost }

pub sched_tick-IsStale : (k : Kernel) → k.need_resched ≡ true → IsStale k (sched_tick k)
unfolding sched_tick
sched_tick-IsStale k h = record { raised = ground arith; no_boost = λ j. ground arith }
