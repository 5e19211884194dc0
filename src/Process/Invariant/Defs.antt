-- ===== src/Process/Invariant/Defs.antt =====
-- The invariant of the process table, entry by entry.
use letsgo.Base.{ℕ, ◌<◌, ◌≡◌, false, Option, some, arith, points_to, update}
use letsgo.Process.Defs.{Proc, Kernel, running, nproc, nqueue, is_unused}
use letsgo.Process.Choice.Table.{IsInTable}

-- A running process is the current one; a priority names a queue; a pid is the entry's index; no
-- process is its own parent.
abbrev pub IsGood : Option ℕ → ℕ → Proc → Type 0
IsGood current i p =
    (p.state ≡ running → current ≡ some i)
    × (p.priority < nqueue)
    × (is_unused p.state ≡ false → p.pid ≡ i)
    × (points_to p.parent i ≡ false)

pub record IsValid (k : Kernel) : Type 0 where
  pub next_in : k.next_pid < nproc
  pub current_in : (c : ℕ) → k.current ≡ some c → c < nproc
  pub current_used : (c : ℕ) → k.current ≡ some c → is_unused (k.procs c).state ≡ false
  pub good : (i : ℕ) → i < nproc → IsGood k.current i (k.procs i)

pub valid-IsInTable : {k : Kernel} → IsValid k → IsInTable k
valid-IsInTable v = record { next_in = v.next_in; current_in = v.current_in }

-- A new value for one entry.
pub set-IsValid :
    {k : Kernel} (i : ℕ) (p : Proc) (clock : ℕ)
    → IsValid k
    → (i < nproc → IsGood k.current i p)
    → (k.current ≡ some i → is_unused p.state ≡ false)
    → IsValid (record k { procs = update k.procs i p; enq_clock = clock })
set-IsValid {k} i p clock v h used = record {
  next_in = v.next_in;
  current_in = v.current_in;
  current_used = λ c e. ground (arith, v.current_used c, used);
  good = λ j b. ground (arith, v.good j b, h);
}
