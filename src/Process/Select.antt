-- ===== src/Process/Select.antt =====
-- The three policies of proc.c and `scheduler`.
use letsgo.Base.{
  ℕ, zero, suc, ◌+◌, ◌-◌, ◌%◌, ◌^◌, Bool, not, ◌&&◌, Option, none, some, ◌==◌, ltb, if◌then◌else◌,
  find_from, points_to,
}
use letsgo.Process.Defs.{Proc, Kernel, nproc, nqueue, is_runnable}

-- `if (current && current->state == RUNNABLE) return current; return 0;`
unfoldable pub fallback : Kernel → Option ℕ
fallback k = elim k.current [
  | none ↦ none
  | some c ↦ if is_runnable (k.procs c).state then some c else none
]

-- The test of the loop of `RR_select`, at its round `i`.
abbrev pub rr_test : Kernel → ℕ → Bool
rr_test k i =
    let pid = (k.next_pid + i) % nproc in
    is_runnable (k.procs pid).state && not (points_to k.current pid)

unfoldable pub rr_select : Kernel → Option ℕ × Kernel
rr_select k = elim (find_from (rr_test k) nproc 0) [
  | none ↦ (fallback k, k)
  | some i ↦
      let pid = (k.next_pid + i) % nproc in (some pid, record k { next_pid = (pid + 1) % nproc })
]

-- The loop of `FCFS_select`: `n` rounds from `i` on, with the minimum so far.
unfoldable pub fcfs_from : (ℕ → Proc) → ℕ → ℕ → ℕ → Option ℕ → Option ℕ
fcfs_from procs zero i min_time selected = selected
fcfs_from procs (suc n) i min_time selected =
    let better = is_runnable (procs i).state && ltb (procs i).enq_time min_time in
    fcfs_from procs n (i + 1) (if better then (procs i).enq_time else min_time)
      (if better then some i else selected)

unfoldable pub fcfs_select : Kernel → Option ℕ
fcfs_select k = elim (fcfs_from k.procs nproc 0 (2 ^ 64 - 1) none) [
  | none ↦ fallback k
  | some i ↦ some i
]

abbrev pub mlfq_test : Kernel → ℕ → ℕ → Bool
mlfq_test k q i = is_runnable (k.procs i).state && (k.procs i).priority == q

-- The loop over the queues, `n` of them from `q` on.
unfoldable pub mlfq_from : Kernel → ℕ → ℕ → Option ℕ
mlfq_from k zero q = none
mlfq_from k (suc n) q =
    let rest = mlfq_from k n (q + 1) in
    elim (find_from (mlfq_test k q) nproc 0) [ none ↦ rest | some i ↦ some i ]

unfoldable pub mlfq_select : Kernel → Option ℕ
mlfq_select k = elim (mlfq_from k nqueue 0) [ none ↦ fallback k | some i ↦ some i ]

-- `scheduler`. Only `RR_select` changes the state.
unfoldable pub scheduler : Kernel → Option ℕ × Kernel
scheduler k =
    if k.sched_algorithm == 0
    then rr_select k
    else if k.sched_algorithm == 1
    then (fcfs_select k, k)
    else if k.sched_algorithm == 2
    then (mlfq_select k, k)
    else (none, k)
