-- ===== src/Base/Bits.antt =====
-- Tables: a test that is evaluated on a whole range of numbers.
use Prim.Native.Nat.{ℕ, zero, suc, ◌<◌}
use mathlib.Core.Path.{◌≡◌}
use mathlib.Core.Bool.{Bool, true, false}
use mathlib.Core.Logic.{inl, inr}
use native.Mathlib.Decide.{ℕ_discrete}
use native.Mathlib.Omega.{arith}
use letsgo.Base.Tests.{if◌then◌else◌, Bool-cases}

-- The test succeeds from 0 up to the bound.
unfoldable pub table : (ℕ → Bool) → ℕ → Bool
table test zero = true
table test (suc top) = let lower = table test top in if test top then lower else false

-- A row that is in a table that has succeeded.
pub table-row :
    (top : ℕ) (test : ℕ → Bool) (row : ℕ) → table test top ≡ true → row < top → test row ≡ true
unfolding table
table-row zero test row whole below = absurd (omega arith)
table-row (suc top) test row whole below = elim (ℕ_discrete row top) [
  | yes last ↦ ground (arith, last)
  | no other ↦ elim (Bool-cases (test top)) [
    | inl good ↦ table-row top test row (rw good at whole) (omega arith)
    | inr bad ↦ absurd (ground arith)
  ]
]
