-- ===== src/System/Fork.antt =====
-- `fork_from_trap` of proc.c.
use letsgo.Base.{ℕ, zero, suc, ◌+◌, ◌-◌, ◌*◌, Option, none, some, ◌==◌, if◌then◌else◌, update}
use letsgo.Base.Int.{ℤ, pos, minus_one, u64}
use letsgo.Process.Defs.{Kernel, Proc, runnable, unused}
use letsgo.Process.Switch.{set_proc}
use letsgo.Process.Life.{allocproc}
use letsgo.Process.Fork.{clone_user_pagetable}
use letsgo.Pmm.Defs.{Pmm, Result, done}
use letsgo.Vmm.Defs.{and_then}
use letsgo.System.Defs.{Trapframe, tf_a0, tf_sepc, tf_words}

-- The frame for the child: `fork` returns 0 there, behind the `ecall`.
abbrev pub child_tf : Trapframe → Trapframe
child_tf tf = update (update tf tf_a0 0) tf_sepc (u64 (tf tf_sepc + 4))

-- `memcpy` of the frame to `to`, and the assignments to it.
unfoldable pub put_frame : ℕ → (ℕ → ℕ) → ℕ → Trapframe → ℕ → ℕ
put_frame zero w to tf = w
put_frame (suc n) w to tf = update (put_frame n w to tf) (to + 8 * n) (tf n)

-- The room for the frame on the child's stack, in bytes.
abbrev pub frame_room : ℕ
frame_room = 272

-- The fields of the new entry. Its context begins at `trap_return`, with the frame on its stack.
abbrev pub forked : Proc → Proc → ℕ → ℕ → ℕ → Proc
forked parent p c pagetable trap_return = record p {
  pagetable = pagetable;
  ustack = parent.ustack;
  entry = parent.entry;
  parent = some c;
  context = update (update (λ r. 0) 0 trap_return) 1 (p.kstack - frame_room);
  state = runnable;
}

unfoldable pub fill_forked : Kernel → ℕ → ℕ → ℕ → Pmm → Trapframe → ℕ → Result (ℤ × Kernel)
fill_forked k c i pagetable s tf trap_return =
    done (pos (k.procs i).pid, set_proc k i (λ p. forked (k.procs c) p c pagetable trap_return))
      (record s {
        words = put_frame tf_words s.words ((k.procs i).kstack - frame_room) (child_tf tf);
      })

-- What follows `allocproc`.
unfoldable pub fork_into : ℕ → Pmm → Trapframe → ℕ → Option ℕ → Kernel → Result (ℤ × Kernel)
fork_into c s tf trap_return none k = done (minus_one, k) s
fork_into c s tf trap_return (some i) k =
    if (k.procs c).pagetable == 0
    then fill_forked k c i 0 s tf trap_return
    else and_then (clone_user_pagetable s (k.procs c).pagetable) (λ pagetable t.
      if pagetable == 0
      then done (minus_one, set_proc k i (λ p. record p { pagetable = 0; state = unused })) t
      else fill_forked k c i pagetable t tf trap_return)

-- `fork_from_trap` by the current process `c`, with the address of the symbol `trap_return`.
unfoldable pub fork_from_trap : Kernel → ℕ → Pmm → Trapframe → ℕ → Result (ℤ × Kernel)
fork_from_trap k c s tf trap_return =
    let (slot, k') = allocproc k in fork_into c s tf trap_return slot k'
