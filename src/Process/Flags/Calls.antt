-- ===== src/Process/Flags/Calls.antt =====
-- `need_resched` of proc.c under the calls of processes.
use letsgo.Process.Flags.Moves.{
  IsStale, refl-IsStale, set-IsStale, IsStale-trans, finish-IsStale, yield_cpu-IsStale,
  sched_tick-IsStale, wakeup_from-IsStale,
}
use letsgo.Process.Waiting.{wait_round-idle, wait_round-current}
use letsgo.Process.Invariant.Steps.{
  Leaves, Step, creates, yields, blocks, wakes, exits, reaps, waits, kills, takes, signals, ticks,
}
use letsgo.Process.Invariant.Life.{finish-IsValid}
use letsgo.Process.Invariant.Defs.{IsValid, set-IsValid}
use letsgo.Base.Int.{ℤ, negsuc, pos}
use letsgo.Process.Life.{
  finish, exit_proc, conclude, do_kill, Scan, wait_round, dead_kid, is_target, scan_from, no_kids,
  have_kids, allocproc, set_up, create_proc, sem_signal, sem_wait_round,
}
use letsgo.Base.{
  ℕ, ◌≤◌, ◌≡◌, refl, sym, subst, inl, inr, true, false, ◌||◌, Option, none, some, arith, ◌==◌,
  Bool-cases, Option-cases, points_to, some_inj, find_from, find_from-IsFirst,
}
use letsgo.Process.Defs.{Kernel, Chan, nproc, blocked, of_proc, unused, is_unused}
use letsgo.Process.Switch.{wakeup, set_proc, blocked_on}

blocked_on-IsStale :
    (k : Kernel) {k' : Kernel} (c : Chan)
    → IsValid k
    → k.need_resched ≡ true
    → blocked_on k c ≡ some k'
    → IsStale k k'
unfolding blocked_on
blocked_on-IsStale k {k'} c v h e = elim (Option-cases k.current) [
  | inl idle ↦ subst (IsStale k) (some_inj (rw (idle, blocked_on) at e)) (refl-IsStale h)
  | inr (i, now) ↦
      IsStale-trans
        (set-IsStale k i (record (k.procs i) { chan = c; state = blocked }) k.enq_clock h
          (omega arith))
        (yield_cpu-IsStale (set_proc k i (λ p. record p { chan = c; state = blocked }))
          (set-IsValid i _ k.enq_clock v (λ b. ground (arith, v.good i b, v.current_used i))
            (λ e'. refl))
          h (rw (now, blocked_on) at e))
]

exit_proc-IsStale :
    (k : Kernel) {k' : Kernel}
    → IsValid k
    → k.need_resched ≡ true
    → exit_proc k ≡ some k'
    → IsStale k k'
unfolding exit_proc
exit_proc-IsStale k {k'} v h e = elim (Option-cases k.current) [
  | inl idle ↦ subst (IsStale k) (some_inj (rw (idle, exit_proc) at e)) (refl-IsStale h)
  | inr (i, now) ↦
      let f = finish-IsStale k i (k.procs i).exit_code h in
      IsStale-trans f (
        yield_cpu-IsStale (finish k i (k.procs i).exit_code)
          (finish-IsValid i _ (v.current_used i now) v) f.raised (rw (now, exit_proc) at e))
]

conclude-IsStale :
    (k : Kernel) {k' : Kernel} (c : ℕ) (s : Scan)
    → IsValid k
    → k.need_resched ≡ true
    → Leaves (conclude k c s) k'
    → IsStale k k'
unfolding conclude
conclude-IsStale k c no_kids v h e = absurd e
conclude-IsStale k c have_kids v h e = blocked_on-IsStale k (of_proc c) v h e
conclude-IsStale k c (dead_kid i) v h e =
    subst (IsStale k) e
      (set-IsStale k i (record (k.procs i) { state = unused }) k.enq_clock h (omega arith))

wait_round-IsStale :
    (k : Kernel) {k' : Kernel} (pid : ℤ)
    → IsValid k
    → k.need_resched ≡ true
    → Leaves (wait_round k pid) k'
    → IsStale k k'
wait_round-IsStale k {k'} pid v h e = elim (Option-cases k.current) [
  | inl idle ↦ absurd (subst (λ w. Leaves w k') (wait_round-idle k pid idle) e)
  | inr (c, now) ↦
      conclude-IsStale k c (scan_from k c pid nproc 0 false) v h
        (subst (λ w. Leaves w k') (wait_round-current k c pid now) e)
]

do_kill-IsStale : (k : Kernel) (pid : ℤ) → k.need_resched ≡ true → IsStale k (do_kill k pid).1
unfolding do_kill
do_kill-IsStale k (negsuc n) h = refl-IsStale h
do_kill-IsStale k (pos pid) h = elim (Option-cases (find_from (is_target k pid) nproc 0)) [
  | inl missing ↦ rw (missing, do_kill) (refl-IsStale h)
  | inr (i, hit) ↦
      let f = finish-IsStale k i (negsuc 8) h in
      rw (hit, do_kill)
        (elim (Bool-cases ((k.procs i).pagetable == 0 || points_to k.current i)) [
          | inl spared ↦ rw spared (refl-IsStale h)
          | inr killed ↦ rw killed f
        ])
]

-- The flag is up, and the processes that were in use have no better priority.
pub record IsStaleForUsed (k k' : Kernel) : Type 0 where
  pub raised : k'.need_resched ≡ true
  pub no_boost :
      (j : ℕ) → is_unused (k.procs j).state ≡ false → (k.procs j).priority ≤ (k'.procs j).priority

for_used : {k k' : Kernel} → IsStale k k' → IsStaleForUsed k k'
for_used s = record { raised = s.raised; no_boost = λ j u. s.no_boost j }

allocproc-IsStaleForUsed : (k : Kernel) → k.need_resched ≡ true → IsStaleForUsed k (allocproc k).1
unfolding allocproc
allocproc-IsStaleForUsed k h =
    elim (Option-cases (find_from (λ i. is_unused (k.procs i).state) nproc 0)) [
      | inl full ↦ rw (full, allocproc) (for_used (refl-IsStale h))
      | inr (i, free) ↦
          let first = find_from-IsFirst (λ j. is_unused (k.procs j).state) nproc 0 free in
          rw (free, allocproc)
            (record { raised = h; no_boost = λ j u. ground (arith, first.passes) })
    ]

set_up-IsStale :
    (func : ℕ) (o : Option ℕ) (k : Kernel) → k.need_resched ≡ true → IsStale k (set_up func o k).1
unfolding set_up
set_up-IsStale func none k h = refl-IsStale h
set_up-IsStale func (some i) k h = set-IsStale k i _ k.enq_clock h (omega arith)

create_proc-IsStaleForUsed :
    (k : Kernel) (func : ℕ) → k.need_resched ≡ true → IsStaleForUsed k (create_proc k func).1
unfolding create_proc
create_proc-IsStaleForUsed k func h =
    let a = allocproc-IsStaleForUsed k h in
    let s = set_up-IsStale func (allocproc k).0 (allocproc k).1 a.raised in
    record { raised = s.raised; no_boost = λ j u. omega (arith, a.no_boost j u, s.no_boost j) }

-- In a valid state in which the timer has raised `need_resched`, none of the steps of the invariant
-- lowers it, and none gives a process that is in use a better priority.
pub Step-IsStaleForUsed :
    {k k' : Kernel} → Step k k' → IsValid k → k.need_resched ≡ true → IsStaleForUsed k k'
unfolding wakeup sem_signal sem_wait_round
Step-IsStaleForUsed (creates func) v h = create_proc-IsStaleForUsed _ func h
Step-IsStaleForUsed (yields e) v h = for_used (yield_cpu-IsStale _ v h e)
Step-IsStaleForUsed ticks v h = for_used (sched_tick-IsStale _ h)
Step-IsStaleForUsed (blocks c e) v h = for_used (blocked_on-IsStale _ c v h e)
Step-IsStaleForUsed (wakes c) v h = for_used (wakeup_from-IsStale nproc 0 c _ h)
Step-IsStaleForUsed (exits e) v h = for_used (exit_proc-IsStale _ v h e)
Step-IsStaleForUsed {k' = b} (reaps pid n status e) v h =
    for_used (wait_round-IsStale _ pid v h (subst (λ w. Leaves w b) (sym e) refl))
Step-IsStaleForUsed {k' = b} (waits pid e) v h =
    for_used (wait_round-IsStale _ pid v h (subst (λ w. Leaves w b) (sym e) refl))
Step-IsStaleForUsed (kills pid) v h = for_used (do_kill-IsStale _ pid h)
Step-IsStaleForUsed {k} (takes s e) v h = for_used (blocked_on-IsStale k s.chan v h (ground arith))
Step-IsStaleForUsed (signals s) v h = for_used (wakeup_from-IsStale nproc 0 s.chan _ h)
