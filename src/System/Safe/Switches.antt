-- ===== src/System/Safe/Switches.antt =====
-- The calls that create, end and switch processes keep the invariants.
use letsgo.Base.{
  ℕ, ◌≡◌, refl, sym, subst, ◌⊎◌, inl, inr, Option, none, some, Bool-cases, Option-cases, points_to,
}
use letsgo.Base.Int.{ℤ}
use letsgo.Process.Defs.{Kernel}
use letsgo.Process.Switch.{yield_cpu, set_proc}
use letsgo.Process.Life.{wait_round, Waited, failed, reaped}
use letsgo.Process.Invariant.Defs.{IsValid, set-IsValid}
use letsgo.Process.Invariant.Switch.{yield_cpu-IsValid}
use letsgo.Process.Invariant.Life.{exit_proc-IsValid, do_kill-IsValid}
use letsgo.Process.Invariant.Steps.{Leaves, wait_round-IsValid}
use letsgo.System.Defs.{Machine, UserMemory}
use letsgo.System.Calls.{back_from_yield, sys_yield, exit_with, sys_exit, sys_wait, sys_kill}
use letsgo.System.Safe.{IsSafe, Holds, followed-Holds, gives_up-Holds, kernel-IsSafe, put_if-Holds}

back_from_yield-Holds :
    {m : Machine} (r : ℕ) (o : Option Kernel)
    → IsSafe m
    → ((k : Kernel) → o ≡ some k → IsValid k)
    → Holds IsSafe (back_from_yield m r o)
unfolding back_from_yield
back_from_yield-Holds r none v h = tt
back_from_yield-Holds {m} r (some k) v h =
    let w = kernel-IsSafe v (h k refl) in
    elim (Option-cases k.current) [
      | inl idle ↦ simp idle w
      | inr (c, here) ↦ elim (Bool-cases (points_to m.kernel.current c)) [
        | inl same ↦ simp (here, same) w
        | inr other ↦ simp (here, other) w
      ]
    ]

pub sys_yield-Holds : {m : Machine} → IsSafe m → Holds IsSafe (sys_yield m)
unfolding sys_yield
sys_yield-Holds {m} v =
    back_from_yield-Holds 0 (yield_cpu m.kernel) v (λ k e. yield_cpu-IsValid v.processes e)

-- The exit code is no part of the invariant.
exit_code-IsValid :
    {k : Kernel} (c : ℕ) (status : ℤ)
    → IsValid k
    → k.current ≡ some c
    → IsValid (set_proc k c (λ p. record p { exit_code = status }))
exit_code-IsValid {k} c status v here =
    set-IsValid c _ k.enq_clock v (λ b. v.good c b) (λ e. v.current_used c here)

exit_with-Holds :
    {m : Machine} (status : ℤ) (o : Option ℕ)
    → IsSafe m
    → m.kernel.current ≡ o
    → Holds IsSafe (exit_with m status o)
unfolding exit_with
exit_with-Holds status none v here = tt
exit_with-Holds status (some c) v here =
    gives_up-Holds ℕ _ v (λ k e. exit_proc-IsValid (exit_code-IsValid c status v.processes here) e)

pub sys_exit-Holds : {m : Machine} (status : ℤ) → IsSafe m → Holds IsSafe (sys_exit m status)
unfolding sys_exit
sys_exit-Holds {m} status v = exit_with-Holds status m.kernel.current v refl

pub sys_wait-Holds :
    (mem : UserMemory) {m : Machine} (pid : ℤ) (status : ℕ)
    → IsSafe m
    → Holds IsSafe (sys_wait mem m pid status)
unfolding sys_wait
sys_wait-Holds mem {m} pid status v = elim (Waited-cases (wait_round m.kernel pid)) [
  | inl f ↦ simp (f, sys_wait) v
  | inr (inl (n, code, k, r)) ↦
      simp (r, sys_wait)
        (followed-Holds IsSafe _ _
          (put_if-Holds mem status _ (
            kernel-IsSafe v
              (wait_round-IsValid pid v.processes (subst (λ w. Leaves w k) (sym r) refl))))
          (λ m' w. w) (λ u m' w. w))
  | inr (inr (o, s)) ↦
      simp (s, sys_wait)
        (gives_up-Holds ℕ o v
          (λ k e. wait_round-IsValid pid v.processes (subst (λ w. Leaves w k) (sym s) e)))
]
  where
    Waited-cases :
        (w : Waited)
        → (w ≡ failed)
          ⊎ ((n : ℕ) × (code : ℤ) × (k : Kernel) × (w ≡ reaped n code k))
          ⊎ ((o : Option Kernel) × (w ≡ Waited.asleep o))
    Waited-cases failed = inl refl
    Waited-cases (reaped n code k) = inr (inl (n, code, k, refl))
    Waited-cases (Waited.asleep o) = inr (inr (o, refl))

pub sys_kill-Holds : {m : Machine} (pid : ℤ) → IsSafe m → Holds IsSafe (sys_kill m pid)
sys_kill-Holds pid v = kernel-IsSafe v (do_kill-IsValid pid v.processes)
