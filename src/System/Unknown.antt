-- ===== src/System/Unknown.antt =====
-- What a system call with a number that syscall.c has no case for does.
use letsgo.Base.Int.{u64}
use letsgo.Base.{
  ℕ, ◌+◌, ◌-◌, ◌%◌, ◌^◌, ◌<◌, ◌≡◌, refl, ap, ◌∙◌, ◌⊎◌, inl, inr, false, none, some, List, [], ◌∷◌,
  map, arith, ltb, ◌==◌, Bool-cases, update, length, get_or-past,
}
use letsgo.Console.Ring.{IsInRing, pending, length-queue}
use letsgo.System.Defs.{
  Event, Machine, goes_on, UserMemory, Trapframe, tf_a0, tf_sepc, tf_a7, followed, prints,
}
use letsgo.System.Syscall.{
  number_of, numbers, unknown, numbered, plugged, unplugged, answer, drained, handle_syscall,
  lets_user,
}
use letsgo.System.Ps.{printed}
use letsgo.Console.Printf.{num}
use letsgo.System.Frame.{IsReturned, stepped-IsReturned}
use letsgo.System.Trap.{syscall_trap, exception, trap_handler, stepped}

number_of-none : (n : ℕ) → (n < 2) ⊎ (21 < n) → number_of n ≡ none
unfolding number_of numbers
number_of-none n (inl low) = ground (arith, low)
number_of-none n (inr high) =
    let test : ltb n 2 ≡ false = ground (arith, high) in
    rw test (get_or-past (map some numbers) (n - 2) none (omega (arith, high)))

-- Nothing of the ring is taken.
unplugged-plugged :
    (ready : List ℕ) (m : Machine) → IsInRing m.keys → (unplugged (plugged ready m)).keys ≡ m.keys
unplugged-plugged ready m v =
    let h = m.keys.kbd_head in
    let t = m.keys.kbd_tail in
    let back : (t + 256 - length (pending m.keys)) % 256 ≡ h =
      ap (λ n. (t + 256 - n) % 256) (length-queue m.keys.kbd_buf h ((t + 256 - h) % 256))
      ∙ omega (arith, v.head_in, v.tail_in) in
    elim (Bool-cases (h == t)) [
      | inl empty ↦ simp empty refl
      | inr there ↦ simp there (ap (λ a. record m.keys { kbd_head = a }) back)
    ]

-- What such a call leaves as it is.
pub record IsUntouched (m m' : Machine) : Type 0 where
  pub procs : m'.kernel.procs ≡ m.kernel.procs
  pub current : m'.kernel.current ≡ m.kernel.current
  pub pmm : m'.pmm ≡ m.pmm
  pub heap : m'.heap ≡ m.heap
  pub inode_table : m'.fs.inode_table ≡ m.fs.inode_table
  pub data_buf : m'.fs.data_buf ≡ m.fs.data_buf
  pub fd_table : m'.fs.fd_table ≡ m.fs.fd_table
  pub keys : m'.keys ≡ m.keys

-- The state after it.
abbrev refused : List ℕ → Machine → Trapframe → Machine
refused ready m tf =
    let counted = record m { trap_syscall_count = u64 (m.trap_syscall_count + 1) } in
    unplugged (
      prints (plugged ready (lets_user counted))
        (printed "[Syscall] Unknown Syscall ID: %ld\n" (num (tf tf_a7) ∷ [])))

-- An `ecall` from a program with a number below 2 or above 21 returns: `a0` is -1, the program goes on
-- four bytes behind the `ecall` with the rest of its frame, and the processes, the memory, the files
-- and the keys are as before. The ring of the keyboard is in its bounds.
pub unknown_syscall :
    (mem : UserMemory) (trap_return : ℕ) (e : Event) (m : Machine) (tf : Trapframe)
    → e.scause ≡ 8
    → (tf tf_a7 < 2) ⊎ (21 < tf tf_a7)
    → IsInRing m.keys
    → (t : Trapframe) × (m' : Machine) × (trap_handler mem trap_return e m tf ≡ goes_on t m')
      × (t tf_a0 ≡ 2 ^ 64 - 1)
      × IsReturned tf t
      × IsUntouched m m'
unfolding trap_handler exception syscall_trap handle_syscall numbered unknown answer drained
    followed
unknown_syscall mem trap_return e m tf user out v =
    let t = update tf tf_a0 (2 ^ 64 - 1) in
    (
      stepped (tf tf_sepc) 4 t,
      refused e.ready m tf,
      rw (user, number_of-none (tf tf_a7) out) refl,
      ground arith,
      stepped-IsReturned tf t (λ i n. ground (arith, n)),
      record {
        procs = refl;
        current = refl;
        pmm = refl;
        heap = refl;
        inode_table = refl;
        data_buf = refl;
        fd_table = refl;
        keys = unplugged-plugged e.ready m v;
      },
    )
