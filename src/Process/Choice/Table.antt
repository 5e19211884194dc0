-- ===== src/Process/Choice/Table.antt =====
-- Which entries of the process table a policy may choose.
use letsgo.Base.{ℕ, ◌<◌, ◌≡◌, ◌≢◌, none, some, arith}
use letsgo.Process.Defs.{runnable, Kernel, nproc}
use letsgo.Process.Select.{fallback}

-- An entry of the table that waits for the CPU.
abbrev pub IsRunnable : Kernel → ℕ → Type 0
IsRunnable k i = (i < nproc) × ((k.procs i).state ≡ runnable)

-- The pointers of the scheduler stay inside the table.
pub record IsInTable (k : Kernel) : Type 0 where
  pub next_in : k.next_pid < nproc
  pub current_in : (c : ℕ) → k.current ≡ some c → c < nproc

pub fallback-IsRunnable : (k : Kernel) {i : ℕ} → IsInTable k → fallback k ≡ some i → IsRunnable k i
unfolding fallback
fallback-IsRunnable k {i} v e = ground (arith, v.current_in i)

pub fallback-ne-none :
    (k : Kernel) (i : ℕ) → k.current ≡ some i → IsRunnable k i → fallback k ≢ none
unfolding fallback
fallback-ne-none k i here r e = ground (arith, r.1)
