-- ===== src/Process/Invariant/Life.antt =====
-- `create_proc`, `exit`, `wait` and `do_kill` of proc.c keep the invariant.
use letsgo.Process.Life.{
  allocproc, create_proc, orphan_from, finish, set_up, exit_proc, do_kill, scan_from, is_target,
  dead_kid, is_kid,
}
use letsgo.Base.{
  ℕ, zero, suc, ◌+◌, ◌≤◌, ◌<◌, ◌≡◌, refl, subst, inl, inr, Bool, true, false, ◌&&◌, ◌||◌, Option,
  none, some, arith, Bool-cases, Option-cases, points_to, some_inj, find_from, find_from-IsFirst,
}
use letsgo.Base.Int.{ℤ, pos, negsuc}
use letsgo.Process.Defs.{Kernel, nproc, zombie, is_unused, is_zombie}
use letsgo.Process.Invariant.Defs.{IsValid, set-IsValid}
use letsgo.Process.Invariant.Switch.{wakeup-IsValid, yield_cpu-IsValid}

pub allocproc-IsValid : {k : Kernel} → IsValid k → IsValid (allocproc k).1
unfolding allocproc
allocproc-IsValid {k} v =
    elim (Option-cases (find_from (λ i. is_unused (k.procs i).state) nproc 0)) [
      | inl full ↦ rw (full, allocproc) v
      | inr (i, free) ↦
          let first = find_from-IsFirst (λ j. is_unused (k.procs j).state) nproc 0 free in
          rw (free, allocproc)
            (record {
              next_in = v.next_in;
              current_in = v.current_in;
              current_used = λ c e. ground (arith, v.current_used c);
              good = λ j b. ground (arith, v.good j b, first.passes, v.current_used i);
            })
    ]

set_up-IsValid : {k : Kernel} (func : ℕ) (o : Option ℕ) → IsValid k → IsValid (set_up func o k).1
unfolding set_up
set_up-IsValid func none v = v
set_up-IsValid {k} func (some i) v =
    set-IsValid i _ k.enq_clock v (λ b. ground (arith, v.good i b)) (λ e. v.current_used i e)

pub create_proc-IsValid : {k : Kernel} (func : ℕ) → IsValid k → IsValid (create_proc k func).1
unfolding create_proc
create_proc-IsValid {k} func v = set_up-IsValid func (allocproc k).0 (allocproc-IsValid v)

orphan_from-IsValid :
    (n i parent : ℕ) {k : Kernel}
    → IsValid k
    → IsValid (record k { procs = orphan_from n i parent k.procs })
unfolding orphan_from
orphan_from-IsValid zero i parent v = v
orphan_from-IsValid (suc n) i parent {k} v =
    elim (Bool-cases (points_to (k.procs i).parent parent)) [
      | inl kid ↦ rw kid (
          orphan_from-IsValid n (i + 1) parent (
            set-IsValid i (record (k.procs i) { parent = none }) k.enq_clock v
              (λ b. ground (arith, v.good i b)) (λ e. v.current_used i e)))
      | inr other ↦ rw other (orphan_from-IsValid n (i + 1) parent v)
    ]

pub finish-IsValid :
    {k : Kernel} (i : ℕ) (code : ℤ)
    → is_unused (k.procs i).state ≡ false
    → IsValid k
    → IsValid (finish k i code)
unfolding finish
finish-IsValid {k} i code used v = orphan_from-IsValid nproc 0 i (
    wakeup-IsValid _ (
      set-IsValid i (record (k.procs i) { exit_code = code; state = zombie }) k.enq_clock v
        (λ b. ground (arith, v.good i b, used)) (λ e. refl)))

pub exit_proc-IsValid : {k k' : Kernel} → IsValid k → exit_proc k ≡ some k' → IsValid k'
unfolding exit_proc
exit_proc-IsValid {k} {k'} v e = elim (Option-cases k.current) [
  | inl idle ↦ subst (IsValid) (some_inj (rw (idle, exit_proc) at e)) v
  | inr (i, here) ↦
      yield_cpu-IsValid (finish-IsValid i _ (v.current_used i here) v) (rw (here, exit_proc) at e)
]

pub do_kill-IsValid : {k : Kernel} (pid : ℤ) → IsValid k → IsValid (do_kill k pid).1
unfolding do_kill
do_kill-IsValid (negsuc n) v = v
do_kill-IsValid {k} (pos pid) v = elim (Option-cases (find_from (is_target k pid) nproc 0)) [
  | inl missing ↦ rw (missing, do_kill) v
  | inr (i, hit) ↦
      let first = find_from-IsFirst (is_target k pid) nproc 0 hit in
      rw (hit, do_kill)
        (ground (arith, v, finish-IsValid i (negsuc 8) (ground (arith, first.passes)) v))
]

-- A pass that finds a dead child names a zombie whose parent is the process that waits.
pub scan_from-dead :
    (k : Kernel) (c : ℕ) (pid : ℤ) (n i : ℕ) (seen : Bool) {j : ℕ}
    → scan_from k c pid n i seen ≡ dead_kid j
    → (i ≤ j) × (j < i + n) × (is_kid k c pid j ≡ true) × (is_zombie (k.procs j).state ≡ true)
unfolding scan_from
scan_from-dead k c pid zero i seen e = absurd (ground arith)
scan_from-dead k c pid (suc n) i seen {j} e =
    elim (Bool-cases (is_kid k c pid i && is_zombie (k.procs i).state)) [
      | inl dead ↦ ground arith
      | inr live ↦ ground (
        arith,
        scan_from-dead k c pid n (i + 1) (seen || is_kid k c pid i) {j = j} (rw live at e),
      )
    ]
