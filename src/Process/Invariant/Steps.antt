-- ===== src/Process/Invariant/Steps.antt =====
-- What the processes and the interrupts of the kernel can do to the process table, in any order.
use letsgo.Process.Waiting.{wait_round-idle, wait_round-current}
use letsgo.Process.Invariant.Switch.{
  blocked_on-IsValid, yield_cpu-IsValid, sched_tick-IsValid, wakeup-IsValid,
}
use letsgo.Process.Invariant.Life.{
  create_proc-IsValid, scan_from-dead, exit_proc-IsValid, do_kill-IsValid,
}
use letsgo.Process.Life.{
  create_proc, Waited, wait_round, scan_from, Scan, no_kids, failed, have_kids, exit_proc, dead_kid,
  reaped, conclude, sem_wait_round, do_kill, Semaphore, Taken, sem_signal,
}
use letsgo.Base.{ℕ, ◌≡◌, refl, sym, subst, inl, inr, false, some, arith, Option-cases}
use letsgo.Base.Int.{ℤ}
use letsgo.Process.Defs.{Kernel, Chan, nproc, unused, of_proc}
use letsgo.Process.Invariant.Defs.{IsValid, set-IsValid}
use letsgo.Process.Switch.{yield_cpu, sched_tick, blocked_on, wakeup}

-- A call of one of the operations. A call that never returns, since `yield` would write through
-- NULL, makes no step.
pub data Step (k : Kernel) : Kernel → Type 0 where
  creates : (func : ℕ) → Step k (create_proc k func).1
  yields : {k' : Kernel} → yield_cpu k ≡ some k' → Step k k'
  ticks : Step k (sched_tick k)
  blocks : {k' : Kernel} (c : Chan) → blocked_on k c ≡ some k' → Step k k'
  wakes : (c : Chan) → Step k (wakeup k c)
  exits : {k' : Kernel} → exit_proc k ≡ some k' → Step k k'
  reaps :
      {k' : Kernel} (pid : ℤ) (n : ℕ) (status : ℤ)
      → wait_round k pid ≡ reaped n status k'
      → Step k k'
  waits : {k' : Kernel} (pid : ℤ) → wait_round k pid ≡ Waited.asleep (some k') → Step k k'
  kills : (pid : ℤ) → Step k (do_kill k pid).1
  takes : {k' : Kernel} (s : Semaphore) → sem_wait_round k s ≡ Taken.asleep (some k') → Step k k'
  signals : (s : Semaphore) → Step k (sem_signal k s).1

pub data Reach (k : Kernel) : Kernel → Type 0 where
  start : Reach k k
  later : {a b : Kernel} → Reach k a → Step a b → Reach k b

-- The state after a round of `wait` that reaps a child or puts the process to sleep.
abbrev pub Leaves : Waited → Kernel → Type 0
Leaves failed k' = ⊥
Leaves (reaped n status k) k' = k ≡ k'
Leaves (Waited.asleep r) k' = r ≡ some k'

conclude-IsValid :
    {k k' : Kernel} (c : ℕ) (pid : ℤ) (s : Scan)
    → k.current ≡ some c
    → scan_from k c pid nproc 0 false ≡ s
    → IsValid k
    → Leaves (conclude k c s) k'
    → IsValid k'
unfolding conclude
conclude-IsValid c pid no_kids here e v h = absurd h
conclude-IsValid c pid have_kids here e v h = blocked_on-IsValid (of_proc c) v h
conclude-IsValid {k} c pid (dead_kid i) here e v h =
    let dead = scan_from-dead k c pid nproc 0 false e in
    subst (IsValid) h (
      set-IsValid i (record (k.procs i) { state = unused }) k.enq_clock v
        (λ b. ground (arith, v.good i b))
        (λ self. absurd (ground (arith, dead.2, (v.good i (omega (arith, dead.1))).3))))

pub wait_round-IsValid :
    {k k' : Kernel} (pid : ℤ) → IsValid k → Leaves (wait_round k pid) k' → IsValid k'
wait_round-IsValid {k} {k'} pid v h = elim (Option-cases k.current) [
  | inl idle ↦ absurd (subst (λ w. Leaves w k') (wait_round-idle k pid idle) h)
  | inr (c, now) ↦
      conclude-IsValid c pid (scan_from k c pid nproc 0 false) now refl v
        (subst (λ w. Leaves w k') (wait_round-current k c pid now) h)
]

sem_wait_round-IsValid :
    {k k' : Kernel} (s : Semaphore)
    → IsValid k
    → sem_wait_round k s ≡ Taken.asleep (some k')
    → IsValid k'
unfolding sem_wait_round
sem_wait_round-IsValid {k} {k'} s v e = blocked_on-IsValid s.chan v (ground arith)

sem_signal-IsValid : {k : Kernel} (s : Semaphore) → IsValid k → IsValid (sem_signal k s).1
unfolding sem_signal
sem_signal-IsValid s v = wakeup-IsValid s.chan v

-- `create_proc`, `yield`, `sched_tick`, `blocked`, `wakeup`, `exit`, the rounds of `wait` and
-- `sem_wait`, `sem_signal` and `do_kill` keep the invariant of the process table.
pub Step-IsValid : {k k' : Kernel} → Step k k' → IsValid k → IsValid k'
Step-IsValid (creates func) v = create_proc-IsValid func v
Step-IsValid (yields e) v = yield_cpu-IsValid v e
Step-IsValid ticks v = sched_tick-IsValid v
Step-IsValid (blocks c e) v = blocked_on-IsValid c v e
Step-IsValid (wakes c) v = wakeup-IsValid c v
Step-IsValid (exits e) v = exit_proc-IsValid v e
Step-IsValid {k' = b} (reaps pid n status e) v =
    wait_round-IsValid pid v (subst (λ w. Leaves w b) (sym e) refl)
Step-IsValid {k' = b} (waits pid e) v =
    wait_round-IsValid pid v (subst (λ w. Leaves w b) (sym e) refl)
Step-IsValid (kills pid) v = do_kill-IsValid pid v
Step-IsValid (takes s e) v = sem_wait_round-IsValid s v e
Step-IsValid (signals s) v = sem_signal-IsValid s v

pub Reach-IsValid : {k k' : Kernel} → IsValid k → Reach k k' → IsValid k'
Reach-IsValid v start = v
Reach-IsValid v (later r s) = Step-IsValid s (Reach-IsValid v r)
