-- ===== src/System/Safe/Forks.antt =====
-- `fork_from_trap` keeps the invariant of the process table.
use letsgo.Process.Invariant.Life.{allocproc-IsValid}
use letsgo.System.Calls.{fork_with, sys_fork}
use letsgo.Process.Switch.{set_proc}
use letsgo.Base.{
  ℕ, ◌<◌, ◌≡◌, refl, sym, ◌∙◌, ◌≢◌, inl, inr, Option, none, some, arith, ◌==◌, Bool-cases,
  Option-cases, some_inj, find_from, find_from-IsFirst,
}
use letsgo.Base.Int.{ℤ}
use letsgo.Process.Defs.{Kernel, nproc, runnable, is_unused, unused}
use letsgo.Process.Life.{allocproc}
use letsgo.Process.Invariant.Defs.{IsValid, set-IsValid}
use letsgo.Process.Fork.{clone_user_pagetable}
use letsgo.Pmm.Defs.{Pmm, Result, done, panics}
use letsgo.Vmm.Kernel.{Ensures, Ensures-and_then}
use letsgo.System.Defs.{Machine, Flow, Trapframe, with_pmm}
use letsgo.System.Fork.{fork_into, fill_forked, forked, fork_from_trap}
use letsgo.System.Safe.{Holds, IsSafe}

pub any_Ensures : {A : Type 0} (r : Result A) → Ensures r (λ a s. Unit {0})
unfolding Ensures
any_Ensures panics = tt
any_Ensures (done a s) = tt

pub with_pmm-Holds :
    {A B : Type 0} {Q : A → Pmm → Type 0} (m : Machine) (P : Machine → Type 0) (r : Result A)
    (g : A → Machine → Flow B)
    → Ensures r Q
    → ((a : A) (s : Pmm) → Q a s → Holds P (g a (record m { pmm = s })))
    → Holds P (with_pmm m r g)
unfolding with_pmm Ensures
with_pmm-Holds m P panics g h k = tt
with_pmm-Holds m P (done a s) g h k = k a s h

-- The entry that `allocproc` gives is not the current one, and is one of the table.
record IsSlot (k : Kernel) (c i : ℕ) : Type 0 where
  inside : i < nproc
  other : c ≢ i
  ready : (k.procs i).state ≡ runnable

allocproc-IsSlot :
    {k : Kernel} (c : ℕ) {i : ℕ}
    → IsValid k
    → k.current ≡ some c
    → (allocproc k).0 ≡ some i
    → IsSlot (allocproc k).1 c i
unfolding allocproc
allocproc-IsSlot {k} c {i} v here e =
    elim (Option-cases (find_from (λ i. is_unused (k.procs i).state) nproc 0)) [
      | inl full ↦ absurd (ground (arith, (rw (full, allocproc) at e)))
      | inr (j, free) ↦
          let first = find_from-IsFirst (λ j. is_unused (k.procs j).state) nproc 0 free in
          let same : j ≡ i = some_inj (rw (free, allocproc) at e) in
          let used = v.current_used c here in
          rw (free, allocproc)
            (record {
              inside = omega (arith, first.below, same);
              other = ground (arith, first.passes, used, same);
              ready = ground (arith, same);
            })
    ]

-- The child and the entry that is given back.
forked-IsValid :
    {k : Kernel} (c i pagetable trap_return : ℕ)
    → IsValid k
    → IsSlot k c i
    → k.current ≡ some c
    → IsValid (set_proc k i (λ p. forked (k.procs c) p c pagetable trap_return))
forked-IsValid {k} c i pagetable trap_return v h here =
    let g = v.good i h.inside in
    set-IsValid i _ k.enq_clock v
      (λ b. (λ e. cc, g.1, λ u. g.2 (ground (arith, h.ready)), ground (arith, h.other))) (λ e. refl)

given_back-IsValid :
    {k : Kernel} (c i : ℕ)
    → IsValid k
    → IsSlot k c i
    → k.current ≡ some c
    → IsValid (set_proc k i (λ p. record p { pagetable = 0; state = unused }))
given_back-IsValid {k} c i v h here =
    let g = v.good i h.inside in
    set-IsValid i _ k.enq_clock v (λ b. (λ e. cc, g.1, λ u. cc, g.3))
      (λ e. absurd (h.other (some_inj (sym here ∙ e))))

abbrev Right : ℤ × Kernel → Pmm → Type 0
Right (r, k) s = IsValid k

fork_into-Ensures :
    {k : Kernel} (c : ℕ) (s : Pmm) (tf : Trapframe) (trap_return : ℕ) (o : Option ℕ)
    → IsValid k
    → k.current ≡ some c
    → ((i : ℕ) → o ≡ some i → IsSlot k c i)
    → Ensures (fork_into c s tf trap_return o k) Right
unfolding fork_into fill_forked Ensures
fork_into-Ensures c s tf trap_return none v here h = v
fork_into-Ensures {k} c s tf trap_return (some i) v here h =
    let child : (pagetable : ℕ)
        → IsValid (set_proc k i (λ p. forked (k.procs c) p c pagetable trap_return)) =
      λ pagetable. forked-IsValid c i pagetable trap_return v (h i refl) here in
    elim (Bool-cases ((k.procs c).pagetable == 0)) [
      | inl bare ↦ simp bare (child 0)
      | inr mapped ↦ simp mapped (
          Ensures-and_then Right (clone_user_pagetable s (k.procs c).pagetable) _ (any_Ensures _)
            (λ pagetable t u. elim (Bool-cases (pagetable == 0)) [
              | inl failed ↦ simp failed (given_back-IsValid c i v (h i refl) here)
              | inr cloned ↦ simp cloned (child pagetable)
            ]))
    ]

allocproc-current : (k : Kernel) → (allocproc k).1.current ≡ k.current
unfolding allocproc
allocproc-current k = elim (Option-cases (find_from (λ i. is_unused (k.procs i).state) nproc 0)) [
  | inl full ↦ rw (full, allocproc) refl
  | inr (i, free) ↦ rw (free, allocproc) refl
]

pub fork_from_trap-Ensures :
    {k : Kernel} (c : ℕ) (s : Pmm) (tf : Trapframe) (trap_return : ℕ)
    → IsValid k
    → k.current ≡ some c
    → Ensures (fork_from_trap k c s tf trap_return) Right
unfolding fork_from_trap
fork_from_trap-Ensures {k} c s tf trap_return v here =
    fork_into-Ensures c s tf trap_return (allocproc k).0 (allocproc-IsValid v)
      (allocproc-current k ∙ here) (λ i e. allocproc-IsSlot c v here e)

fork_with-Holds :
    {m : Machine} (tf : Trapframe) (trap_return : ℕ) (o : Option ℕ)
    → IsSafe m
    → m.kernel.current ≡ o
    → Holds IsSafe (fork_with m tf trap_return o)
unfolding fork_with
fork_with-Holds {m} tf trap_return (some c) v here =
    with_pmm-Holds m IsSafe (fork_from_trap m.kernel c m.pmm tf trap_return) _
      (fork_from_trap-Ensures c m.pmm tf trap_return v.processes here)
      (λ (r, k) s w. record { processes = w; files = v.files; keyboard = v.keyboard })
fork_with-Holds {m} tf trap_return none v here = elim (Option-cases (allocproc m.kernel).0) [
  | inl full ↦ simp (full, fork_with) v
  | inr (i, free) ↦ simp (free, fork_with) tt
]

pub sys_fork-Holds :
    {m : Machine} (tf : Trapframe) (trap_return : ℕ)
    → IsSafe m
    → Holds IsSafe (sys_fork m tf trap_return)
unfolding sys_fork
sys_fork-Holds {m} tf trap_return v = fork_with-Holds tf trap_return m.kernel.current v refl
