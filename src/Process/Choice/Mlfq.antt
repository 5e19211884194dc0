-- ===== src/Process/Choice/Mlfq.antt =====
-- `MLFQ_select` of proc.c.
use letsgo.Base.{
  ℕ, zero, suc, ◌+◌, ◌≤◌, ◌<◌, ◌≡◌, ◌∙◌, subst, ◌≢◌, ◌⊎◌, inl, inr, none, some, arith, dec_lt,
  ℕ_discrete, Option-cases, find_from, find_from-IsFirst, find_from-none,
}
use letsgo.Process.Choice.Table.{IsRunnable, IsInTable, fallback-IsRunnable}
use letsgo.Process.Defs.{Kernel, nproc, nqueue}
use letsgo.Process.Select.{mlfq_test, mlfq_from, mlfq_select}

-- The entry `j` waits in the best queue from `q` on that is not empty, and is its first.
record IsTopmost (k : Kernel) (n q j : ℕ) : Type 0 where
  waits : IsRunnable k j
  from : q ≤ (k.procs j).priority
  below : (k.procs j).priority < q + n
  best :
      (a : ℕ)
      → IsRunnable k a
      → q ≤ (k.procs a).priority
      → (k.procs j).priority ≤ (k.procs a).priority
  first : (a : ℕ) → IsRunnable k a → (k.procs a).priority ≡ (k.procs j).priority → j ≤ a

mlfq_from-IsTopmost : (k : Kernel) (n q : ℕ) {j : ℕ} → mlfq_from k n q ≡ some j → IsTopmost k n q j
unfolding mlfq_from
mlfq_from-IsTopmost k zero q e = absurd (cc)
mlfq_from-IsTopmost k (suc n) q {j} e = elim (Option-cases (find_from (mlfq_test k q) nproc 0)) [
  | inl empty ↦
      let rest = mlfq_from-IsTopmost k n (q + 1) {j = j} (rw (empty, mlfq_from) at e) in
      record {
        waits = rest.waits;
        from = omega (arith, rest.from);
        below = omega (arith, rest.below);
        best = λ a r h. elim (ℕ_discrete q (k.procs a).priority) [
          | yes here ↦
              absurd (ground (arith, r.0, r.1, find_from-none (mlfq_test k q) nproc 0 empty a))
          | no above ↦ rest.best a r (omega arith)
        ];
        first = rest.first;
      }
  | inr (i, hit) ↦
      let first = find_from-IsFirst (mlfq_test k q) nproc 0 hit in
      let same : some i ≡ some j = rw (hit, mlfq_from) at e in
      let i_eq_j : i ≡ j = ground arith in
      subst (IsTopmost k (suc n) q) i_eq_j (record {
        waits = ground (arith, first.passes, first.below);
        from = ground (arith, first.passes);
        below = ground (arith, first.passes);
        best = λ a r h. ground (arith, first.passes);
        first = λ a r h. elim (dec_lt a i) [
          | yes before ↦
              absurd (ground (arith, r.1, first.passes, first.skipped a (omega arith) before))
          | no after ↦ omega arith
        ];
      })
]

mlfq_from-none :
    (k : Kernel) (n q a : ℕ)
    → mlfq_from k n q ≡ none
    → IsRunnable k a
    → q ≤ (k.procs a).priority
    → q + n ≤ (k.procs a).priority
unfolding mlfq_from
mlfq_from-none k zero q a e r h = omega arith
mlfq_from-none k (suc n) q a e r h = elim (Option-cases (find_from (mlfq_test k q) nproc 0)) [
  | inr (i, hit) ↦ let found : some i ≡ none = rw (hit, mlfq_from) at e in absurd (cc)
  | inl empty ↦ elim (ℕ_discrete q (k.procs a).priority) [
    | yes here ↦ absurd (ground (arith, r.0, r.1, find_from-none (mlfq_test k q) nproc 0 empty a))
    | no above ↦
        omega (arith, mlfq_from-none k n (q + 1) a (rw (empty, mlfq_from) at e) r (omega arith))
  ]
]

-- Every waiting process is in one of the queues.
abbrev pub IsQueued : Kernel → Type 0
IsQueued k = (a : ℕ) → a < nproc → (k.procs a).priority < nqueue

-- The feedback queues give a process whenever one waits.
pub mlfq_select-ne-none : (k : Kernel) (i : ℕ) → IsQueued k → IsRunnable k i → mlfq_select k ≢ none
unfolding mlfq_select
mlfq_select-ne-none k i t r e = elim (Option-cases (mlfq_from k nqueue 0)) [
  | inl gone ↦ omega (arith, t i r.0, mlfq_from-none k nqueue 0 i gone r (omega arith))
  | inr (j, hit) ↦ let found : some j ≡ none = rw (hit, mlfq_select) at e in cc
]

pub mlfq_select-IsRunnable :
    (k : Kernel) {j : ℕ} → IsInTable k → mlfq_select k ≡ some j → IsRunnable k j
unfolding mlfq_select
mlfq_select-IsRunnable k {j} v e = elim (Option-cases (mlfq_from k nqueue 0)) [
  | inl gone ↦ fallback-IsRunnable k v (rw (gone, mlfq_select) at e)
  | inr (a, hit) ↦
      let same : some a ≡ some j = rw (hit, mlfq_select) at e in
      (mlfq_from-IsTopmost k nqueue 0 {j = j} (hit ∙ same)).waits
]

-- The feedback queues: if some process waits and every priority names a queue, `MLFQ_select` takes
-- a waiting process of the best priority, and of those the first in the table.
pub mlfq_select_best :
    (k : Kernel) (i j : ℕ)
    → IsQueued k
    → IsRunnable k i
    → mlfq_select k ≡ some j
    → IsRunnable k j
      × (((k.procs j).priority < (k.procs i).priority)
          ⊎ (((k.procs i).priority ≡ (k.procs j).priority) × (j ≤ i)))
unfolding mlfq_select
mlfq_select_best k i j t r e = elim (Option-cases (mlfq_from k nqueue 0)) [
  | inl gone ↦ absurd (omega (arith, t i r.0, mlfq_from-none k nqueue 0 i gone r (omega arith)))
  | inr (a, hit) ↦
      let same : some a ≡ some j = rw (hit, mlfq_select) at e in
      let top = mlfq_from-IsTopmost k nqueue 0 {j = j} (hit ∙ same) in
      (
        top.waits,
        elim (ℕ_discrete (k.procs i).priority (k.procs j).priority) [
          | yes level ↦ inr (level, top.first i r level)
          | no above ↦ inl (omega (arith, top.best i r (omega arith)))
        ],
      )
]
