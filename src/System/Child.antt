-- ===== src/System/Child.antt =====
-- The child that `fork_from_trap` makes.
use letsgo.Base.{
  ℕ, zero, suc, ◌+◌, ◌-◌, ◌*◌, ◌≤◌, ◌<◌, ◌≡◌, refl, ap, ◌∙◌, ◌≢◌, inl, inr, true, false, Option,
  none, some, arith, ℕ_discrete, ◌==◌, if◌then◌else◌, Bool-cases, Option-cases, some_inj, find_from,
  find_from-IsFirst,
}
use letsgo.Base.Int.{ℤ, pos, negsuc, minus_one, u64}
use letsgo.Process.Defs.{Kernel, runnable, unused, is_unused, nproc}
use letsgo.Process.Switch.{set_proc}
use letsgo.Process.Life.{allocproc}
use letsgo.Process.Fork.{clone_user_pagetable}
use letsgo.Pmm.Defs.{Pmm, done}
use letsgo.Vmm.Kernel.{Ensures, Ensures-and_then}
use letsgo.System.Safe.Forks.{any_Ensures}
use letsgo.System.Defs.{Trapframe, tf_a0, tf_sepc, tf_words}
use letsgo.System.Fork.{fork_from_trap, fork_into, fill_forked, put_frame, frame_room, child_tf}

put_frame-words :
    (n : ℕ) (w : ℕ → ℕ) (to : ℕ) (tf : Trapframe) (j : ℕ)
    → j < n
    → put_frame n w to tf (to + 8 * j) ≡ tf j
unfolding put_frame
put_frame-words zero w to tf j l = absurd (omega (arith, l))
put_frame-words (suc n) w to tf j l = elim (ℕ_discrete n j) [
  | yes e ↦ ground (arith, e)
  | no d ↦
      let away : ((to + 8 * n) == (to + 8 * j)) ≡ false = ground (arith, d) in
      rw away (put_frame-words n w to tf j (omega (arith, l, d)))
]

-- Entry `i` is a runnable copy of process `c`: it begins at `trap_return` on a frame that lies within
-- the 8192 bytes below the top of the entry's stack, the frame of `c` with 0 in `a0` and the address
-- behind the `ecall` in `sepc`. No other entry has changed.
pub record IsChild (k k' : Kernel) (c i n : ℕ) (s' : Pmm) (tf : Trapframe) (trap_return : ℕ)
    : Type 0 where
  pub was_free : is_unused (k.procs i).state ≡ true
  pub pid : n ≡ i
  pub state : (k'.procs i).state ≡ runnable
  pub parent : (k'.procs i).parent ≡ some c
  pub entry : (k'.procs i).entry ≡ (k.procs c).entry
  pub starts : (k'.procs i).context 0 ≡ trap_return
  pub stack : (k'.procs i).kstack ≡ k.stack_top i
  pub room : (k'.procs i).context 1 + 8 * tf_words ≤ k.stack_top i
  pub deep : k.stack_top i ≤ (k'.procs i).context 1 + 8192
  pub frame :
      (j : ℕ)
      → j < tf_words
      → s'.words ((k'.procs i).context 1 + 8 * j)
        ≡ (if j == tf_a0 then 0 else if j == tf_sepc then u64 (tf tf_sepc + 4) else tf j)
  pub others : (j : ℕ) → j ≢ i → k'.procs j ≡ k.procs j

-- What `allocproc` has done when it gives entry `i`.
record Allotted (k k' : Kernel) (c i : ℕ) : Type 0 where
  was_free : is_unused (k.procs i).state ≡ true
  pid : (k'.procs i).pid ≡ i
  other : c ≢ i
  stack : (k'.procs i).kstack ≡ k.stack_top i
  kept : (j : ℕ) → j ≢ i → k'.procs j ≡ k.procs j

allocproc-Allotted :
    (k : Kernel) (c : ℕ) {i : ℕ}
    → is_unused (k.procs c).state ≡ false
    → (allocproc k).0 ≡ some i
    → Allotted k (allocproc k).1 c i
unfolding allocproc
allocproc-Allotted k c {i} used e =
    elim (Option-cases (find_from (λ i. is_unused (k.procs i).state) nproc 0)) [
      | inl full ↦ absurd (ground (arith, (rw (full, allocproc) at e)))
      | inr (j, free) ↦
          let first = find_from-IsFirst (λ j. is_unused (k.procs j).state) nproc 0 free in
          let same : j ≡ i = some_inj (rw (free, allocproc) at e) in
          rw (free, allocproc)
            (record {
              was_free = ground (arith, first.passes, same);
              pid = ground (arith, same);
              other = ground (arith, first.passes, used, same);
              stack = ground (arith, same);
              kept = λ a d. ground (arith, d, same);
            })
    ]

child_word :
    (tf : Trapframe) (j : ℕ)
    → child_tf tf j
      ≡ (if j == tf_a0 then 0 else if j == tf_sepc then u64 (tf tf_sepc + 4) else tf j)
child_word tf j = ground arith

-- What a call of `fork_from_trap` that does not panic has done. When it fails, no entry in use has
-- changed.
abbrev pub Forked : Kernel → ℕ → Trapframe → ℕ → ℤ × Kernel → Pmm → Type 0
Forked k c tf trap_return (pos n, k') s' = (i : ℕ) × IsChild k k' c i n s' tf trap_return
Forked k c tf trap_return (negsuc e, k') s' =
    (e ≡ 0) × ((j : ℕ) → is_unused (k.procs j).state ≡ false → k'.procs j ≡ k.procs j)

module _ {k k1 : Kernel} (c : ℕ) (tf : Trapframe) (trap_return : ℕ)
    (high : (i : ℕ) → 8192 ≤ k.stack_top i) where
  fill_forked-Forked :
      (i pagetable : ℕ) (s : Pmm)
      → Allotted k k1 c i
      → Ensures (fill_forked k1 c i pagetable s tf trap_return) (Forked k c tf trap_return)
  unfolding fill_forked Ensures
  fill_forked-Forked i pagetable s a = (
    i,
    record {
      was_free = a.was_free;
      pid = a.pid;
      state = ground arith;
      parent = ground arith;
      entry = ground (arith, a.kept c a.other);
      starts = ground arith;
      stack = ground (arith, a.stack);
      room = ground (arith, a.stack, high i);
      deep = ground (arith, a.stack, high i);
      frame = λ j l.
          let self : (i == i) ≡ true = ground arith in
          rw self (
            put_frame-words 33 s.words ((k1.procs i).kstack - frame_room) (child_tf tf) j l
            ∙ child_word tf j);
      others = λ j d. ground (arith, d, a.kept j d);
    },
  )

  -- The entry is given back when there is no page table for the child.
  given_back-Forked :
      (i : ℕ) (s : Pmm)
      → Allotted k k1 c i
      → Ensures
          (done (minus_one, set_proc k1 i (λ p. record p { pagetable = 0; state = unused })) s)
          (Forked k c tf trap_return)
  unfolding Ensures
  given_back-Forked i s a = (refl, λ j u. ground (arith, u, a.was_free, a.kept j))

  fork_into-Forked :
      (s : Pmm) (o : Option ℕ)
      → ((i : ℕ) → o ≡ some i → Allotted k k1 c i)
      → (o ≡ none → k1.procs ≡ k.procs)
      → Ensures (fork_into c s tf trap_return o k1) (Forked k c tf trap_return)
  unfolding fork_into Ensures
  fork_into-Forked s none h full = (refl, λ j u. ap (λ p. p j) (full refl))
  fork_into-Forked s (some i) h full =
      let a = h i refl in
      elim (Bool-cases ((k1.procs c).pagetable == 0)) [
        | inl bare ↦ simp bare (fill_forked-Forked i 0 s a)
        | inr mapped ↦ simp mapped (
            Ensures-and_then (Forked k c tf trap_return)
              (clone_user_pagetable s (k1.procs c).pagetable) _ (any_Ensures _)
              (λ pagetable t u. elim (Bool-cases (pagetable == 0)) [
                | inl failed ↦ simp failed (given_back-Forked i t a)
                | inr cloned ↦ simp cloned (fill_forked-Forked i pagetable t a)
              ]))
      ]

allocproc-full : (k : Kernel) → (allocproc k).0 ≡ none → (allocproc k).1.procs ≡ k.procs
unfolding allocproc
allocproc-full k e = elim (Option-cases (find_from (λ i. is_unused (k.procs i).state) nproc 0)) [
  | inl full ↦ rw (full, allocproc) refl
  | inr (i, free) ↦ absurd (ground (arith, (rw (free, allocproc) at e)))
]

-- If the tops of the kernel stacks lie at 8192 or above, `fork_from_trap` of a process in use panics, or fails with -1 and no entry in
-- use changed, or returns the pid of a runnable child that was a free entry: the child begins at
-- `trap_return`, with its stack pointer, within the 8192 bytes below the top of its own stack, at the
-- frame of its parent, which has 0 in `a0` and the address behind the `ecall` in `sepc`.
pub fork_from_trap-Forked :
    (k : Kernel) (c : ℕ) (s : Pmm) (tf : Trapframe) (trap_return : ℕ)
    → is_unused (k.procs c).state ≡ false
    → ((i : ℕ) → 8192 ≤ k.stack_top i)
    → Ensures (fork_from_trap k c s tf trap_return) (Forked k c tf trap_return)
unfolding fork_from_trap
fork_from_trap-Forked k c s tf trap_return used high =
    fork_into-Forked c tf trap_return high s (allocproc k).0 (λ i e. allocproc-Allotted k c used e)
      (allocproc-full k)
