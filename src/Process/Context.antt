-- ===== src/Process/Context.antt =====
-- The context switch of swtch.S.
use letsgo.Base.{ℕ, ◌<◌, ◌≡◌, ◌≢◌, arith}
use letsgo.Process.Defs.{Kernel}
use letsgo.Process.Switch.{swtch}

-- Switching from process `a` to process `b` and back leaves the fourteen callee-saved registers as
-- they were; in between, `b` has those of its own context.
pub swtch_back :
    (k : Kernel) (a b r : ℕ)
    → a ≢ b
    → r < 14
    → ((swtch k a b).regs r ≡ (k.procs b).context r) × ((swtch (swtch k a b) b a).regs r ≡ k.regs r)
unfolding swtch
swtch_back k a b r ne h = ground (arith, ne)
