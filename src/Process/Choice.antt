-- ===== src/Process/Choice.antt =====
-- What `scheduler` of proc.c chooses, and what it leaves alone.
pub mod Table
pub mod RoundRobin
pub mod Fcfs
pub mod Mlfq
use letsgo.Base.{
  ℕ, zero, suc, ◌+◌, ◌-◌, ◌*◌, ◌/◌, ◌%◌, ◌^◌, ◌≤◌, ◌<◌, bit_and, bit_or, min, ◌≡◌, refl, sym, ap,
  ◌∙◌, subst, ◌≢◌, ◌↔◌, ◌⊎◌, inl, inr, Bool, true, false, not, ◌&&◌, ◌||◌, Option, none, some, List,
  [], ◌∷◌, ◌++◌, map, reverse, append_assoc, append-nil, arith, dec_lt, ℕ_discrete, ltb, leb, ◌==◌,
  if◌then◌else◌, ==_iff, Bool-cases, Option-cases, points_to, points_to-eq, update, length, get_or,
  take, slice, blit, length-append, length-slice, find_from, IsFirst, find_from-IsFirst,
  find_from-none, find_from-some,
}
use letsgo.Process.Defs.{Kernel, nproc}
use letsgo.Process.Select.{fcfs_select, mlfq_select, rr_select, rr_test, scheduler}
use Table.{IsRunnable, IsInTable}
use RoundRobin.{rr_select-IsRunnable, rr_select-ne-none}
use Fcfs.{IsTimely, fcfs_select-IsRunnable, fcfs_select-ne-none}
use Mlfq.{IsQueued, mlfq_select-IsRunnable, mlfq_select-ne-none}

-- `scheduler` chooses only processes that wait for the CPU.
pub scheduler-IsRunnable :
    (k : Kernel) {i : ℕ} → IsInTable k → (scheduler k).0 ≡ some i → IsRunnable k i
unfolding scheduler
scheduler-IsRunnable k {i} v e = ground (
  arith,
  rr_select-IsRunnable k {i = i} v,
  fcfs_select-IsRunnable k {j = i} v,
  mlfq_select-IsRunnable k {j = i} v,
)

-- The CPU never idles beside a waiting process: under the three policies `scheduler` finds a
-- process whenever one waits, if time stamps and priorities are in range.
pub scheduler-ne-none :
    (k : Kernel) (i : ℕ)
    → IsInTable k
    → IsTimely k
    → IsQueued k
    → k.sched_algorithm ≤ 2
    → IsRunnable k i
    → (scheduler k).0 ≢ none
unfolding scheduler
scheduler-ne-none k i v t q alg r e =
    ground
      (arith, rr_select-ne-none k i v r, fcfs_select-ne-none k i t r, mlfq_select-ne-none k i q r)

-- Of the state, `scheduler` changes `next_pid` at most, and keeps it in the table.
pub scheduler_frame :
    (k : Kernel)
    → k.next_pid < nproc
    → (n : ℕ) × ((scheduler k).1 ≡ record k { next_pid = n }) × (n < nproc)
unfolding scheduler rr_select
scheduler_frame k h = (next, ground arith, ground arith)
  where
    next : ℕ
    next = (scheduler k).1.next_pid
