-- ===== src/Pmm/Bitmap.antt =====
-- The bits of the bitmap of pmm.c.
use letsgo.Base.{
  ℕ, ◌-◌, ◌/◌, ◌%◌, ◌^◌, ◌<◌, bit_and, bit_or, ◌≡◌, refl, ◌≢◌, Bool, true, false, not, ◌&&◌, arith,
  ℕ_discrete, ltb, ◌==◌, if◌then◌else◌,
}
use letsgo.Base.Bits.{table, table-row}
use letsgo.Pmm.Defs.{bitmap_set, bitmap_clear, bitmap_test}

abbrev same : Bool → Bool → Bool
same true b = b
same false b = not b

same-eq : (a b : Bool) → same a b ≡ true → a ≡ b
same-eq true b e = ground arith
same-eq false b e = ground arith

-- Over a byte and two bit numbers, by evaluation.
set_law : ℕ → ℕ → ℕ → Bool
set_law c i j =
    same (bit_and (bit_or c (2 ^ i)) (2 ^ j) == 0)
      (if i == j then false else bit_and c (2 ^ j) == 0)
    && ltb (bit_or c (2 ^ i)) 256

clear_law : ℕ → ℕ → ℕ → Bool
clear_law c i j =
    same (bit_and (bit_and c (255 - 2 ^ i)) (2 ^ j) == 0)
      (if i == j then true else bit_and c (2 ^ j) == 0)
    && ltb (bit_and c (255 - 2 ^ i)) 256

for_bits : (ℕ → ℕ → ℕ → Bool) → Bool
unfolding table
for_bits p = table (λ c. table (λ i. table (λ j. p c i j) 8) 8) 256

for_bits_sound :
    (p : ℕ → ℕ → ℕ → Bool) (c i j : ℕ)
    → for_bits p ≡ true
    → c < 256
    → i < 8
    → j < 8
    → p c i j ≡ true
unfolding for_bits
for_bits_sound p c i j h a b d =
    table-row 8 (λ j. p c i j) j
      (table-row 8 (λ i. table (λ j. p c i j) 8) i
        (table-row 256 (λ c. table (λ i. table (λ j. p c i j) 8) 8) c h a) b)
      d

set_table : for_bits set_law ≡ true
unfolding for_bits set_law
set_table = refl

clear_table : for_bits clear_law ≡ true
unfolding for_bits clear_law
clear_table = refl

first_true : (a b : Bool) → (a && b) ≡ true → a ≡ true
first_true true b e = refl
first_true false b e = e

set_bit :
    (c i j : ℕ)
    → c < 256
    → i < 8
    → j < 8
    → (bit_and (bit_or c (2 ^ i)) (2 ^ j) == 0) ≡ (if i == j then false else bit_and c (2 ^ j) == 0)
unfolding set_law
set_bit c i j a b d = same-eq _ _ (first_true _ _ (for_bits_sound set_law c i j set_table a b d))

clear_bit :
    (c i j : ℕ)
    → c < 256
    → i < 8
    → j < 8
    → (bit_and (bit_and c (255 - 2 ^ i)) (2 ^ j) == 0)
      ≡ (if i == j then true else bit_and c (2 ^ j) == 0)
unfolding clear_law
clear_bit c i j a b d =
    same-eq _ _ (first_true _ _ (for_bits_sound clear_law c i j clear_table a b d))

-- Every cell of the bitmap is a byte.
abbrev pub IsBytes : (ℕ → ℕ) → Type 0
IsBytes b = (k : ℕ) → b k < 256

-- Two bits are the same bit when they stand at the same place of the same byte.
bit_place : (i j : ℕ) → i / 8 ≡ j / 8 → (i == j) ≡ (i % 8 == j % 8)
bit_place i j e = ground arith

bit_elsewhere : (i j : ℕ) → i / 8 ≢ j / 8 → (i == j) ≡ false
bit_elsewhere i j e = ground arith

module _ {b : ℕ → ℕ} (bytes : IsBytes b) (i : ℕ) where
  -- Setting a bit changes that bit only.
  pub test-set :
      (j : ℕ) → bitmap_test (bitmap_set b i) j ≡ (if i == j then true else bitmap_test b j)
  unfolding bitmap_test bitmap_set set_law
  test-set j = elim (ℕ_discrete (i / 8) (j / 8)) [
    | no e ↦ ground (arith, bit_elsewhere i j e)
    | yes e ↦ ground (
      arith,
      bit_place i j e,
      set_bit (b (i / 8)) (i % 8) (j % 8) (bytes (i / 8)) (omega arith) (omega arith),
    )
  ]

  pub set-IsBytes : IsBytes (bitmap_set b i)
  unfolding bitmap_set set_law
  set-IsBytes k = ground (
    arith,
    bytes k,
    bytes (i / 8),
    for_bits_sound set_law (b (i / 8)) (i % 8) 0 set_table (bytes (i / 8)) (omega arith)
        (omega arith),
  )

  pub test-clear :
      (j : ℕ) → bitmap_test (bitmap_clear b i) j ≡ (if i == j then false else bitmap_test b j)
  unfolding bitmap_test bitmap_clear clear_law
  test-clear j = elim (ℕ_discrete (i / 8) (j / 8)) [
    | no e ↦ ground (arith, bit_elsewhere i j e)
    | yes e ↦ ground (
      arith,
      bit_place i j e,
      clear_bit (b (i / 8)) (i % 8) (j % 8) (bytes (i / 8)) (omega arith) (omega arith),
    )
  ]

  pub clear-IsBytes : IsBytes (bitmap_clear b i)
  unfolding bitmap_clear clear_law
  clear-IsBytes k = ground (
    arith,
    bytes k,
    for_bits_sound clear_law (b (i / 8)) (i % 8) 0 clear_table (bytes (i / 8)) (omega arith)
        (omega arith),
  )
