-- ===== src/Base/Fields.antt =====
-- Words that are put together from a high and a low field.
use Prim.Native.Nat.{
  ℕ, zero, suc, ◌+◌, ◌*◌, ◌/◌, ◌%◌, ◌^◌, ◌≤◌, ◌<◌, bit_and, bit_or, bit_and-bitwise, bit_or-bitwise,
  digits, bitwise, min, max,
}
use mathlib.Core.Path.{◌≡◌, refl, ap, sym, ◌∙◌}
use native.Mathlib.Nat.{pow-suc}
use native.Mathlib.Omega.{arith}

-- A bit operation by its digits. What is left of the second word when the first has run out follows
-- the same rule.
module _ (rest : ℕ → ℕ) (op : ℕ → ℕ → ℕ)
    (rest_law : (b : ℕ) → rest b ≡ rest (b / 2) * 2 + op 0 (b % 2)) where
  -- Any number of digits will do that reaches to the end of the first word.
  enough_digits : (n k a b : ℕ) → a ≤ n → a ≤ k → digits rest op n a b ≡ digits rest op k a b
  enough_digits n k zero b p q = ends n ∙ sym (ends k)
    where
      ends : (m : ℕ) → digits rest op m 0 b ≡ rest b
      ends zero = refl
      ends (suc m) = refl
  enough_digits zero k (suc a) b p q = absurd (omega arith)
  enough_digits (suc n) zero (suc a) b p q = absurd (omega arith)
  enough_digits (suc n) (suc k) (suc a) b p q =
      ap (λ d. d * 2 + op (suc a % 2) (b % 2))
        (enough_digits n k (suc a / 2) (b / 2) (omega arith) (omega arith))

  -- The lowest digit apart.
  bitwise-halves :
      (a b : ℕ) → bitwise rest op a b ≡ bitwise rest op (a / 2) (b / 2) * 2 + op (a % 2) (b % 2)
  bitwise-halves zero b = rest_law b
  bitwise-halves (suc a) b =
      ap (λ d. d * 2 + op (suc a % 2) (b % 2))
        (enough_digits a (suc a / 2) (suc a / 2) (b / 2) (omega arith) (omega arith))

bit_or-halves : (a b : ℕ) → bit_or a b ≡ bit_or (a / 2) (b / 2) * 2 + max (a % 2) (b % 2)
bit_or-halves a b =
    bit_or-bitwise a b
    ∙ bitwise-halves (λ c. c) max (λ c. omega arith) a b
    ∙ ap (λ d. d * 2 + max (a % 2) (b % 2)) (sym (bit_or-bitwise (a / 2) (b / 2)))

bit_and-halves : (a b : ℕ) → bit_and a b ≡ bit_and (a / 2) (b / 2) * 2 + min (a % 2) (b % 2)
bit_and-halves a b =
    bit_and-bitwise a b
    ∙ bitwise-halves (λ c. 0) min (λ c. omega arith) a b
    ∙ ap (λ d. d * 2 + min (a % 2) (b % 2)) (sym (bit_and-bitwise (a / 2) (b / 2)))

-- The product with a power, as `omega` reads it.
doubled : (high k : ℕ) → high * 2 ^ suc k ≡ high * 2 ^ k * 2
doubled high k = grind (arith, pow-suc 2 k)

or_nothing : (n a : ℕ) → a ≤ n → bit_or a 0 ≡ a
or_nothing n zero h = refl
or_nothing zero (suc a) h = absurd (omega arith)
or_nothing (suc n) (suc a) h =
    omega (arith, bit_or-halves (suc a) 0, or_nothing n (suc a / 2) (omega arith))

and_nothing : (n a : ℕ) → a ≤ n → bit_and a 0 ≡ 0
and_nothing n zero h = refl
and_nothing zero (suc a) h = absurd (omega arith)
and_nothing (suc n) (suc a) h =
    omega (arith, bit_and-halves (suc a) 0, and_nothing n (suc a / 2) (omega arith))

-- A low field is put below a shifted word.
pub bit_or-field : (k high low : ℕ) → low < 2 ^ k → bit_or (high * 2 ^ k) low ≡ high * 2 ^ k + low
bit_or-field zero high low h = ground (arith, or_nothing high high (omega arith))
bit_or-field (suc k) high low h =
    let fits : low / 2 < 2 ^ k = omega (arith, pow-suc 2 k) in
    let half : high * 2 ^ suc k / 2 ≡ high * 2 ^ k = omega (arith, doubled high k) in
    omega (
      arith,
      bit_or-halves (high * 2 ^ suc k) low,
      doubled high k,
      bit_or-field k high (low / 2) fits,
      ap (λ h. bit_or h (low / 2)) half,
    )

-- A mask of the low field does not see the high one.
pub bit_and-field :
    (k high low mask : ℕ)
    → low < 2 ^ k
    → mask < 2 ^ k
    → bit_and (high * 2 ^ k + low) mask ≡ bit_and low mask
bit_and-field zero high low mask h m = ground (arith, and_nothing high high (omega arith))
bit_and-field (suc k) high low mask h m =
    let fits : low / 2 < 2 ^ k = omega (arith, pow-suc 2 k) in
    let masked : mask / 2 < 2 ^ k = omega (arith, pow-suc 2 k) in
    let half : (high * 2 ^ suc k + low) / 2 ≡ high * 2 ^ k + low / 2 =
      omega (arith, doubled high k) in
    omega (
      arith,
      bit_and-halves (high * 2 ^ suc k + low) mask,
      bit_and-halves low mask,
      doubled high k,
      bit_and-field k high (low / 2) (mask / 2) fits masked,
      ap (λ h. bit_and h (mask / 2)) half,
    )
