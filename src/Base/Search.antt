-- ===== src/Base/Search.antt =====
-- The loop `for (i = i0; i < i0 + n; i++) if (p(i)) return i;`, with the rule for its result.
use Prim.Native.Nat.{ℕ, zero, suc, ◌+◌, ◌≤◌, ◌<◌}
use mathlib.Core.Path.{◌≡◌, refl}
use mathlib.Core.Bool.{Bool, true, false}
use mathlib.Core.Logic.{inl, inr}
use mathlib.Core.Option.{Option, none, some}
use native.Mathlib.Decide.{ℕ_discrete}
use native.Mathlib.Omega.{arith}
use letsgo.Base.Tests.{if◌then◌else◌, Bool-cases}

unfoldable pub find_from : (ℕ → Bool) → ℕ → ℕ → Option ℕ
find_from p zero i = none
find_from p (suc n) i = let rest = find_from p n (i + 1) in if p i then some i else rest

-- `j` is the first index from `i` on, below `i + n`, that passes the test.
pub record IsFirst (p : ℕ → Bool) (n i j : ℕ) : Type 0 where
  pub from : i ≤ j
  pub below : j < i + n
  pub passes : p j ≡ true
  pub skipped : (k : ℕ) → i ≤ k → k < j → p k ≡ false

pub find_from-IsFirst :
    (p : ℕ → Bool) (n i : ℕ) {j : ℕ} → find_from p n i ≡ some j → IsFirst p n i j
unfolding find_from
find_from-IsFirst p zero i e = absurd (cc)
find_from-IsFirst p (suc n) i {j} e = elim (Bool-cases (p i)) [
  | inl hit ↦
      let same : i ≡ j = ground arith in
      record {
        from = omega arith;
        below = omega arith;
        passes = rw same at hit;
        skipped = λ k a b. absurd (omega arith);
      }
  | inr miss ↦
      let rest = find_from-IsFirst p n (i + 1) {j = j} (rw miss at e) in
      record {
        from = omega (arith, rest.from);
        below = omega (arith, rest.below);
        passes = rest.passes;
        skipped = λ k a b. elim (ℕ_discrete i k) [
          | yes q ↦ rw q at miss
          | no q ↦ rest.skipped k (omega arith) b
        ];
      }
]

pub find_from-none :
    (p : ℕ → Bool) (n i : ℕ) → find_from p n i ≡ none → (k : ℕ) → i ≤ k → k < i + n → p k ≡ false
unfolding find_from
find_from-none p zero i e k a b = absurd (omega arith)
find_from-none p (suc n) i e k a b = elim (Bool-cases (p i)) [
  | inl hit ↦ absurd (ground arith)
  | inr miss ↦ elim (ℕ_discrete i k) [
    | yes q ↦ rw q at miss
    | no q ↦ find_from-none p n (i + 1) (rw miss at e) k (omega arith) (omega arith)
  ]
]

-- The search fails only where every test fails.
pub find_from-some :
    (p : ℕ → Bool) (n i k : ℕ)
    → i ≤ k
    → k < i + n
    → p k ≡ true
    → (j : ℕ) × (find_from p n i ≡ some j)
find_from-some p n i k a b h = go (find_from p n i) refl
  where
    go : (o : Option ℕ) → find_from p n i ≡ o → (j : ℕ) × (find_from p n i ≡ some j)
    go none e = absurd (ground (arith, find_from-none p n i e k a b))
    go (some j) e = (j, e)
