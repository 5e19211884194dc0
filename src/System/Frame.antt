-- ===== src/System/Frame.antt =====
-- The frame of a program after a system call.
use letsgo.Base.{ℕ, ◌+◌, ◌≡◌, refl, ◌≢◌, true, arith, ◌==◌}
use letsgo.Base.Int.{u64}
use letsgo.System.Defs.{Trapframe, tf_a0, tf_sepc}
use letsgo.System.Trap.{stepped}

-- Every other word is the same.
abbrev pub Answered : Trapframe → Trapframe → Type 0
Answered tf t = (i : ℕ) → i ≢ tf_a0 → t i ≡ tf i

-- The frame of a program whose `ecall` at `sepc` has returned.
pub record IsReturned (tf t : Trapframe) : Type 0 where
  pub behind : t tf_sepc ≡ u64 (tf tf_sepc + 4)
  pub others : (i : ℕ) → i ≢ tf_a0 → i ≢ tf_sepc → t i ≡ tf i

pub stepped-IsReturned :
    (tf t : Trapframe) → Answered tf t → IsReturned tf (stepped (tf tf_sepc) 4 t)
stepped-IsReturned tf t h =
    let at : t tf_sepc ≡ tf tf_sepc = h tf_sepc (ground arith) in
    let test : (t tf_sepc == tf tf_sepc) ≡ true = ground (arith, at) in
    record { behind = rw test refl; others = λ i a s. rw test (ground (arith, h i a, s)) }
