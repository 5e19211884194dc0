-- ===== src/Process/Waiting.antt =====
-- `wait`, `exit` and `do_kill` of proc.c as their callers see them.
use letsgo.Process.Life.{
  conclude, wait_round, Scan, scan_from, reaped, dead_kid, failed, no_kids, is_kid, have_kids,
}
use letsgo.Base.{
  ℕ, zero, suc, ◌+◌, ◌≤◌, ◌<◌, ◌≡◌, refl, sym, ◌∙◌, subst, ◌≢◌, inl, inr, Bool, false, ◌&&◌, ◌||◌,
  none, some, arith, ℕ_discrete, Bool-cases, points_to-eq,
}
use letsgo.Base.Int.{ℤ, minus_one}
use letsgo.Process.Defs.{Kernel, nproc, zombie, unused, is_zombie}
use letsgo.Process.Invariant.Life.{scan_from-dead}

-- What a round of `wait` that reaps has done: the child `i` of the caller was a zombie, its pid
-- and exit code are returned, and its entry is free.
pub record Reaped (k : Kernel) (c n : ℕ) (status : ℤ) (k' : Kernel) (i : ℕ) : Type 0 where
  pub inside : i < nproc
  pub child : (k.procs i).parent ≡ some c
  pub dead : (k.procs i).state ≡ zombie
  pub pid_returned : n ≡ (k.procs i).pid
  pub code_returned : status ≡ (k.procs i).exit_code
  pub freed : (k'.procs i).state ≡ unused
  pub parent_kept : (k'.procs i).parent ≡ some c
  pub still_current : k'.current ≡ k.current
  pub others : (j : ℕ) → j ≢ i → k'.procs j ≡ k.procs j

conclude-reaped :
    (k : Kernel) (c : ℕ) (pid : ℤ) (s : Scan) {n : ℕ} {status : ℤ} {k' : Kernel}
    → scan_from k c pid nproc 0 false ≡ s
    → conclude k c s ≡ reaped n status k'
    → (i : ℕ) × Reaped k c n status k' i × (s ≡ dead_kid i)
unfolding conclude
conclude-reaped k c pid no_kids e h = absurd (cc)
conclude-reaped k c pid have_kids e h = absurd (cc)
conclude-reaped k c pid (dead_kid i) {n} {status} {k'} e h =
    let dead = scan_from-dead k c pid nproc 0 false e in
    let child : (k.procs i).parent ≡ some c =
      points_to-eq (k.procs i).parent c (ground (arith, dead.2)) in
    (
      i,
      record {
        inside = omega (arith, dead.1);
        child = child;
        dead = ground (arith, dead.3);
        pid_returned = ground arith;
        code_returned = ground arith;
        freed = ground arith;
        parent_kept = ground (arith, child);
        still_current = ground arith;
        others = λ j ne. ground (arith, ne);
      },
      refl,
    )

-- A round of `wait` with a current process.
pub wait_round-current :
    (k : Kernel) (c : ℕ) (pid : ℤ)
    → k.current ≡ some c
    → wait_round k pid ≡ conclude k c (scan_from k c pid nproc 0 false)
unfolding wait_round
wait_round-current k c pid e =
    subst
      (λ o.
        elim o [ none ↦ failed | some a ↦ conclude k a (scan_from k a pid nproc 0 false) ]
        ≡ conclude k c (scan_from k c pid nproc 0 false))
      (sym e) refl

pub wait_round-idle : (k : Kernel) (pid : ℤ) → k.current ≡ none → wait_round k pid ≡ failed
unfolding wait_round
wait_round-idle k pid e =
    subst
      (λ o.
        elim o [ none ↦ failed | some a ↦ conclude k a (scan_from k a pid nproc 0 false) ] ≡ failed)
      (sym e) refl

-- When a round of `wait` returns a pid, that is the pid of a zombie whose parent is the caller, the
-- status is its exit code, and its entry is freed while no other entry changes.
pub wait_round_reaps :
    (k : Kernel) (c : ℕ) (pid : ℤ) {n : ℕ} {status : ℤ} {k' : Kernel}
    → k.current ≡ some c
    → wait_round k pid ≡ reaped n status k'
    → (i : ℕ) × Reaped k c n status k' i
wait_round_reaps k c pid here e =
    let (i, r, _) =
      conclude-reaped k c pid (scan_from k c pid nproc 0 false) refl
        (sym (wait_round-current k c pid here) ∙ e) in
    (i, r)

-- A pass that finds no child has met none.
scan_from-alone :
    (k : Kernel) (c : ℕ) (pid : ℤ) (n i : ℕ) (seen : Bool)
    → scan_from k c pid n i seen ≡ no_kids
    → (seen ≡ false) × ((j : ℕ) → i ≤ j → j < i + n → is_kid k c pid j ≡ false)
unfolding scan_from
scan_from-alone k c pid zero i seen e = (ground arith, λ j a b. absurd (omega arith))
scan_from-alone k c pid (suc n) i seen e =
    elim (Bool-cases (is_kid k c pid i && is_zombie (k.procs i).state)) [
      | inl dead ↦ absurd (ground arith)
      | inr live ↦
          let (unseen, rest) =
            scan_from-alone k c pid n (i + 1) (seen || is_kid k c pid i) (rw live at e) in
          (
            ground arith,
            λ j a b. elim (ℕ_discrete i j) [
              | yes q ↦ ground (arith, unseen)
              | no q ↦ rest j (omega arith) (omega arith)
            ],
          )
    ]

conclude-failed : (k : Kernel) (c : ℕ) (s : Scan) → conclude k c s ≡ failed → s ≡ no_kids
unfolding conclude
conclude-failed k c no_kids e = refl
conclude-failed k c have_kids e = absurd (cc)
conclude-failed k c (dead_kid i) e = absurd (cc)

-- After a caller has reaped a child, its next `wait` for any child does not fail, whether or not
-- it has another: the freed entry keeps the parent pointer, and the pass counts it.
pub wait_round_again :
    (k : Kernel) (c : ℕ) (pid : ℤ) {n : ℕ} {status : ℤ} (k' : Kernel)
    → k.current ≡ some c
    → wait_round k pid ≡ reaped n status k'
    → wait_round k' minus_one ≢ failed
wait_round_again k c pid {n} {status} k' here e f =
    let (i, r) = wait_round_reaps k c pid here e in
    let alone =
      conclude-failed k' c (scan_from k' c minus_one nproc 0 false)
        (sym (wait_round-current k' c minus_one (r.still_current ∙ here)) ∙ f) in
    let none_met = (scan_from-alone k' c minus_one nproc 0 false alone).1 in
    ground (arith, none_met i (omega arith) (omega (arith, r.inside)), r.parent_kept)
