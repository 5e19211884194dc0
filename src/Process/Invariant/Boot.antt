-- ===== src/Process/Invariant/Boot.antt =====
-- `proc_init` of proc.c, and what holds in every state that follows it.
use letsgo.Process.Select.{scheduler}
use letsgo.Process.Invariant.Life.{create_proc-IsValid}
use letsgo.Base.{ℕ, ◌<◌, ◌≡◌, refl, sym, ◌∙◌, Option, none, some, arith, some_inj}
use letsgo.Process.Defs.{Kernel, nproc, running}
use letsgo.Process.Invariant.Defs.{IsValid, valid-IsInTable}
use letsgo.Process.Invariant.Steps.{Reach, Reach-IsValid}
use letsgo.Process.Choice.{scheduler-IsRunnable, scheduler_frame}
use letsgo.Process.Choice.Table.{IsRunnable}
use letsgo.Process.Life.{allocproc, cleared, start_first, set_up, create_proc, proc_init}

-- The globals of proc.c before `proc_init`: C sets them to 0.
pub record IsZeroed (k : Kernel) : Type 0 where
  pub nobody : k.current ≡ none
  pub from_zero : k.next_pid ≡ 0
  pub parentless : (i : ℕ) → (k.procs i).parent ≡ none
  pub first_queue : (i : ℕ) → (k.procs i).priority ≡ 0

cleared-IsValid : {k : Kernel} → IsZeroed k → IsValid (cleared k)
unfolding cleared
cleared-IsValid z = record {
  next_in = omega (arith, z.from_zero);
  current_in = λ c e. absurd (ground (arith, z.nobody));
  current_used = λ c e. absurd (ground (arith, z.nobody));
  good = λ j b. ground (arith, z.parentless j, z.first_queue j);
}

start_first-IsValid :
    {k : Kernel} (o : Option ℕ)
    → IsValid k
    → k.current ≡ none
    → ((i : ℕ) → o ≡ some i → IsRunnable k i)
    → IsValid (start_first o k)
unfolding start_first
start_first-IsValid none v idle r = record {
  next_in = v.next_in;
  current_in = λ c e. absurd (cc);
  current_used = λ c e. absurd (cc);
  good = λ j b. ground (arith, v.good j b);
}
start_first-IsValid {k} (some i) v idle r =
    let ready = r i refl in
    record {
      next_in = v.next_in;
      current_in = λ c e. ground (arith, ready.0);
      current_used = λ c e. ground arith;
      good = λ j b. ground (arith, v.good j b, ready.1);
    }

allocproc_current : (k : Kernel) → (allocproc k).1.current ≡ k.current
unfolding allocproc
allocproc_current k = ground arith

set_up_current : (func : ℕ) (o : Option ℕ) (k : Kernel) → (set_up func o k).1.current ≡ k.current
unfolding set_up
set_up_current func none k = refl
set_up_current func (some i) k = refl

create_proc_idle :
    (k : Kernel) (func : ℕ) → k.current ≡ none → (create_proc (cleared k) func).1.current ≡ none
unfolding create_proc cleared
create_proc_idle k func e =
    set_up_current func (allocproc (cleared k)).0 _ ∙ allocproc_current (cleared k) ∙ e

-- `proc_init` establishes the invariant.
pub proc_init-IsValid : {k : Kernel} (init : ℕ) → IsZeroed k → IsValid (proc_init k init)
unfolding proc_init
proc_init-IsValid {k} init z =
    let v = create_proc-IsValid init (cleared-IsValid z) in
    let (n, frame, below) = scheduler_frame (create_proc (cleared k) init).1 v.next_in in
    start_first-IsValid (scheduler (create_proc (cleared k) init).1).0
      (rw frame (record {
        next_in = below;
        current_in = v.current_in;
        current_used = v.current_used;
        good = v.good;
      }))
      (rw frame (create_proc_idle k init z.nobody))
      (λ i h. rw frame (scheduler-IsRunnable _ (valid-IsInTable v) h))

-- In every state that these steps (fork and exec are not among them) lead to from `proc_init` on
-- zeroed globals, at most one process runs.
pub one_running :
    {k k' : Kernel} (init i j : ℕ)
    → IsZeroed k
    → Reach (proc_init k init) k'
    → i < nproc
    → j < nproc
    → (k'.procs i).state ≡ running
    → (k'.procs j).state ≡ running
    → i ≡ j
one_running {k} {k'} init i j z r a b ri rj =
    let v = Reach-IsValid (proc_init-IsValid init z) r in
    some_inj (sym ((v.good i a).0 ri) ∙ (v.good j b).0 rj)
