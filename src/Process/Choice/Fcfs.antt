-- ===== src/Process/Choice/Fcfs.antt =====
-- `FCFS_select` of proc.c.
use letsgo.Base.{
  ℕ, zero, suc, ◌+◌, ◌-◌, ◌^◌, ◌≤◌, ◌<◌, ◌≡◌, ◌≢◌, ◌⊎◌, inl, inr, ◌&&◌, Option, none, some, arith,
  ltb, ℕ_discrete, subst, ◌∙◌, Bool-cases, Option-cases,
}
use letsgo.Process.Choice.Table.{IsRunnable, IsInTable, fallback-IsRunnable}
use letsgo.Process.Defs.{runnable, Proc, Kernel, nproc, is_runnable}
use letsgo.Process.Select.{fcfs_from, fcfs_select}

-- The entries from `i` to `i + n` that wait for the CPU came no earlier than the time `m`.
abbrev NoEarlier : (ℕ → Proc) → ℕ → ℕ → ℕ → Type 0
NoEarlier procs n i m =
    (a : ℕ) → i ≤ a → a < i + n → (procs a).state ≡ runnable → m ≤ (procs a).enq_time

record IsEarliest (procs : ℕ → Proc) (n i m j : ℕ) : Type 0 where
  from : i ≤ j
  below : j < i + n
  ready : (procs j).state ≡ runnable
  sooner : (procs j).enq_time < m
  least : NoEarlier procs n i (procs j).enq_time

NoEarlier-step :
    (procs : ℕ → Proc) (n i m : ℕ)
    → ((procs i).state ≡ runnable → m ≤ (procs i).enq_time)
    → NoEarlier procs n (i + 1) m
    → NoEarlier procs (suc n) i m
NoEarlier-step procs n i m here rest a x y r = elim (ℕ_discrete i a) [
  | yes q ↦ (rw q at here) r
  | no q ↦ rest a (omega arith) (omega arith) r
]

-- The loop of `FCFS_select` keeps the choice so far unless a later entry has come earlier.
fcfs_from-IsEarliest :
    (procs : ℕ → Proc) (n i m : ℕ) (sel : Option ℕ) {j : ℕ}
    → fcfs_from procs n i m sel ≡ some j
    → ((sel ≡ some j) × NoEarlier procs n i m) ⊎ IsEarliest procs n i m j
unfolding fcfs_from
fcfs_from-IsEarliest procs zero i m sel e = inl (e, λ a x y. absurd (omega arith))
fcfs_from-IsEarliest procs (suc n) i m sel {j} e =
    elim (Bool-cases (is_runnable (procs i).state && ltb (procs i).enq_time m)) [
      | inl better ↦
          elim (fcfs_from-IsEarliest procs n (i + 1) (procs i).enq_time (some i) {j = j}
            (rw better at e)) [
              | inl (kept, rest) ↦
                  let same : i ≡ j = ground arith in
                  inr (
                    subst (IsEarliest procs (suc n) i m) same (record {
                      from = omega arith;
                      below = omega arith;
                      ready = ground arith;
                      sooner = ground arith;
                      least = NoEarlier-step procs n i _ (λ r. omega arith) rest;
                    }))
              | inr later ↦ inr (record {
                from = omega (arith, later.from);
                below = omega (arith, later.below);
                ready = later.ready;
                sooner = ground (arith, later.sooner);
                least = NoEarlier-step procs n i _ (λ r. omega (arith, later.sooner)) later.least;
              })
            ]
      | inr worse ↦ elim (fcfs_from-IsEarliest procs n (i + 1) m sel {j = j} (rw worse at e)) [
        | inl (kept, rest) ↦ inl (kept, NoEarlier-step procs n i m (λ r. ground arith) rest)
        | inr later ↦ inr (record {
          from = omega (arith, later.from);
          below = omega (arith, later.below);
          ready = later.ready;
          sooner = later.sooner;
          least = NoEarlier-step procs n i _ (λ r. ground (arith, later.sooner)) later.least;
        })
      ]
    ]

-- Every time stamp is below the initial `min_time` of the loop.
abbrev pub IsTimely : Kernel → Type 0
IsTimely k = (a : ℕ) → (k.procs a).enq_time < 2 ^ 64 - 1

-- The loop finds nothing only where nothing comes before `m`.
fcfs_from-none :
    (procs : ℕ → Proc) (n i m : ℕ) (sel : Option ℕ)
    → fcfs_from procs n i m sel ≡ none
    → (sel ≡ none) × NoEarlier procs n i m
unfolding fcfs_from
fcfs_from-none procs zero i m sel e = (e, λ a x y. absurd (omega arith))
fcfs_from-none procs (suc n) i m sel e =
    elim (Bool-cases (is_runnable (procs i).state && ltb (procs i).enq_time m)) [
      | inl better ↦
          let found =
            (fcfs_from-none procs n (i + 1) (procs i).enq_time (some i) (rw better at e)).0 in
          absurd (cc)
      | inr worse ↦
          let (unset, rest) = fcfs_from-none procs n (i + 1) m sel (rw worse at e) in
          (unset, NoEarlier-step procs n i m (λ r. ground arith) rest)
    ]

-- First come, first served finds a process whenever one waits.
pub fcfs_select-ne-none : (k : Kernel) (i : ℕ) → IsTimely k → IsRunnable k i → fcfs_select k ≢ none
unfolding fcfs_select
fcfs_select-ne-none k i t r e = elim (Option-cases (fcfs_from k.procs nproc 0 (2 ^ 64 - 1) none)) [
  | inl gone ↦
      absurd
        (omega (arith, t i, (fcfs_from-none k.procs nproc 0 _ none gone).1 i (omega arith) r.0 r.1))
  | inr (j, hit) ↦ let found : some j ≡ none = rw (hit, fcfs_select) at e in cc
]

fcfs_select_lem :
    (k : Kernel) {j : ℕ} (i : ℕ)
    → IsTimely k
    → IsRunnable k i
    → fcfs_select k ≡ some j
    → IsEarliest k.procs nproc 0 (2 ^ 64 - 1) j
unfolding fcfs_select
fcfs_select_lem k {j} i t r e = elim (Option-cases (fcfs_from k.procs nproc 0 (2 ^ 64 - 1) none)) [
  | inl gone ↦
      absurd
        (omega (arith, t i, (fcfs_from-none k.procs nproc 0 _ none gone).1 i (omega arith) r.0 r.1))
  | inr (a, hit) ↦
      let same : some a ≡ some j = rw (hit, fcfs_select) at e in
      elim (fcfs_from-IsEarliest k.procs nproc 0 (2 ^ 64 - 1) none {j = j} (hit ∙ same)) [
        | inl (unset, rest) ↦ absurd (cc)
        | inr found ↦ found
      ]
]

-- First come, first served: of the processes that wait, `FCFS_select` takes one that was put into
-- the queue no later than any other, if some process waits and every time stamp is below the
-- largest `uint64_t`.
pub fcfs_select_earliest :
    (k : Kernel) (i j : ℕ)
    → IsTimely k
    → IsRunnable k i
    → fcfs_select k ≡ some j
    → IsRunnable k j × ((k.procs j).enq_time ≤ (k.procs i).enq_time)
fcfs_select_earliest k i j t r e =
    let found = fcfs_select_lem k {j = j} i t r e in
    ((omega (arith, found.below), found.ready), found.least i (omega arith) r.0 r.1)

pub fcfs_select-IsRunnable :
    (k : Kernel) {j : ℕ} → IsInTable k → fcfs_select k ≡ some j → IsRunnable k j
unfolding fcfs_select
fcfs_select-IsRunnable k {j} v e =
    elim (Option-cases (fcfs_from k.procs nproc 0 (2 ^ 64 - 1) none)) [
      | inl gone ↦ fallback-IsRunnable k v (rw (gone, fcfs_select) at e)
      | inr (a, hit) ↦
          let same : some a ≡ some j = rw (hit, fcfs_select) at e in
          elim (fcfs_from-IsEarliest k.procs nproc 0 (2 ^ 64 - 1) none {j = j} (hit ∙ same)) [
            | inl (unset, rest) ↦ absurd (cc)
            | inr found ↦ (omega (arith, found.below), found.ready)
          ]
    ]
