-- ===== src/Process/Choice/RoundRobin.antt =====
-- `RR_select` of proc.c.
use letsgo.Base.{
  ℕ, ◌+◌, ◌-◌, ◌%◌, ◌<◌, ◌≡◌, ◌≢◌, ◌⊎◌, inl, inr, true, none, some, arith, find_from,
  find_from-IsFirst, find_from-none, find_from-some, points_to, points_to-eq, dec_lt, Bool-cases,
  Option-cases,
}
use letsgo.Process.Defs.{Kernel, nproc}
use letsgo.Process.Select.{rr_test, rr_select}
use letsgo.Process.Choice.Table.{IsRunnable, IsInTable, fallback-IsRunnable, fallback-ne-none}

rr_select_lem :
    (k : Kernel) (d : ℕ)
    → find_from (rr_test k) nproc 0 ≡ some d
    → rr_select k ≡ (
      some ((k.next_pid + d) % nproc),
      record k { next_pid = ((k.next_pid + d) % nproc + 1) % nproc },
    )
unfolding rr_select
rr_select_lem k d e = rw (e, rr_select)

-- How many entries round robin looks at before `i`.
pub rr_distance : Kernel → ℕ → ℕ
rr_distance k i = (i + nproc - k.next_pid) % nproc

-- The process that `RR_select` meets at its round `d` passes the test of the loop.
rr_test_at :
    (k : Kernel) (i d : ℕ)
    → (k.next_pid + d) % nproc ≡ i
    → IsRunnable k i
    → k.current ≢ some i
    → rr_test k d ≡ true
rr_test_at k i d e r other = rw e (ground (arith, r.1, other))

-- Bounded waiting: when round robin chooses while process `i` waits for the CPU, it chooses `i`
-- or brings `next_pid` nearer to it.
pub rr_select-fair :
    (k : Kernel) (i : ℕ)
    → IsInTable k
    → IsRunnable k i
    → k.current ≢ some i
    → ((rr_select k).0 ≡ some i) ⊎ (rr_distance (rr_select k).1 i < rr_distance k i)
unfolding rr_distance
rr_select-fair k i v r other =
    let far : ℕ = (i + nproc - k.next_pid) % nproc in
    let here : (k.next_pid + far) % nproc ≡ i = omega (arith, v.next_in, r.0) in
    let hit = rr_test_at k i far here r other in
    let (d, e) = find_from-some (rr_test k) nproc 0 far (omega arith) (omega arith) hit in
    let first = find_from-IsFirst (rr_test k) nproc 0 e in
    rw (rr_select_lem k d e) (elim (dec_lt d far) [
      | yes nearer ↦ inr (omega (arith, v.next_in, r.0))
      | no far_off ↦ elim (dec_lt far d) [
        | yes late ↦ absurd (ground (arith, first.skipped far (omega arith) late, hit))
        | no exact ↦ let same : d ≡ far = omega arith in inl (rw (same, here))
      ]
    ])

-- Round robin returns a process that waits for the CPU.
pub rr_select-IsRunnable :
    (k : Kernel) {i : ℕ} → IsInTable k → (rr_select k).0 ≡ some i → IsRunnable k i
unfolding rr_select
rr_select-IsRunnable k {i} v e = elim (Option-cases (find_from (rr_test k) nproc 0)) [
  | inl gone ↦ fallback-IsRunnable k v (rw (gone, rr_select) at e)
  | inr (d, hit) ↦
      let first = find_from-IsFirst (rr_test k) nproc 0 hit in
      let pid : some ((k.next_pid + d) % nproc) ≡ some i = rw (hit, rr_select) at e in
      ground (arith, first.passes)
]

-- Round robin finds a process whenever one waits.
pub rr_select-ne-none : (k : Kernel) (i : ℕ) → IsInTable k → IsRunnable k i → (rr_select k).0 ≢ none
unfolding rr_select
rr_select-ne-none k i v r e = elim (Option-cases (find_from (rr_test k) nproc 0)) [
  | inr (d, hit) ↦
      let found : some ((k.next_pid + d) % nproc) ≡ none = rw (hit, rr_select) at e in cc
  | inl gone ↦ elim (Bool-cases (points_to k.current i)) [
    | inl here ↦ fallback-ne-none k i (points_to-eq k.current i here) r (rw (gone, rr_select) at e)
    | inr other ↦
        let far : ℕ = (i + nproc - k.next_pid) % nproc in
        let hit = rr_test_at k i far (omega (arith, v.next_in, r.0)) r (ground arith) in
        absurd (ground (arith, hit, find_from-none (rr_test k) nproc 0 gone far))
  ]
]
