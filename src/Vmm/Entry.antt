-- ===== src/Vmm/Entry.antt =====
-- The entries of a page table, as `entry_of` of vmm.c puts them together.
use letsgo.Base.{
  ℕ, ◌+◌, ◌*◌, ◌/◌, ◌<◌, bit_and, bit_or, ◌≡◌, refl, ap, ◌∙◌, ◌⊎◌, inl, inr, Bool, true, false, not,
  ◌&&◌, ◌||◌, arith, ltb, ◌==◌, Bool-cases,
}
use letsgo.Base.Bits.{table, table-row}
use letsgo.Base.Fields.{bit_or-field, bit_and-field}
use letsgo.Vmm.Defs.{is_valid, is_leaf, target, entry_of, pte_v, pte_a, pte_d}

-- An entry that leads to another table.
abbrev pub Inner : ℕ → Type 0
Inner pte = (is_valid pte ≡ true) × (is_leaf pte ≡ false)

abbrev pub Leaf : ℕ → Type 0
Leaf pte = (is_valid pte ≡ true) × (is_leaf pte ≡ true)

pub entry_cases : (pte : ℕ) → (is_valid pte ≡ false) ⊎ (Leaf pte ⊎ Inner pte)
entry_cases pte = elim (Bool-cases (is_valid pte)) [
  | inl valid ↦ elim (Bool-cases (is_leaf pte)) [
    | inl leaf ↦ inr (inl (valid, leaf))
    | inr inner ↦ inr (inr (valid, inner))
  ]
  | inr invalid ↦ inl invalid
]

-- The flags stand below the page number.
entry_of_lem : (pa flags : ℕ) → flags < 1024 → entry_of pa flags ≡ pa / 4096 * 1024 + flags
entry_of_lem pa flags h = bit_or-field 10 (pa / 4096) flags h

flags_seen :
    (pa flags mask : ℕ)
    → flags < 1024
    → mask < 1024
    → bit_and (entry_of pa flags) mask ≡ bit_and flags mask
flags_seen pa flags mask h m =
    ap (λ e. bit_and e mask) (entry_of_lem pa flags h) ∙ bit_and-field 10 (pa / 4096) flags mask h m

-- An entry for the table at the page `new`.
pub entry_of-Inner : (new : ℕ) → Inner (entry_of new pte_v)
entry_of-Inner new = (
  ap (λ b. not (b == 0)) (flags_seen new 1 1 (omega arith) (omega arith)),
  ap (λ b. not (b == 0)) (flags_seen new 1 14 (omega arith) (omega arith)),
)

pub target-entry_of : (pa flags : ℕ) → flags < 1024 → target (entry_of pa flags) ≡ pa / 4096 * 4096
target-entry_of pa flags h = omega (arith, entry_of_lem pa flags h)

-- The flags that `vmm_map_page` sets in a leaf.
abbrev pub leaf_flags : ℕ → ℕ
leaf_flags flags = bit_or (bit_or (bit_or flags pte_v) pte_a) pte_d

-- Over all ten-bit flags, by evaluation.
flags_law : ℕ → Bool
flags_law f =
    ltb (leaf_flags f) 1024
    && is_valid (leaf_flags f)
    && (not (is_leaf f) || is_leaf (leaf_flags f))

flags_table : table flags_law 1024 ≡ true
unfolding table flags_law
flags_table = refl

pub leaf_flags_lem :
    (f : ℕ) → f < 1024 → is_leaf f ≡ true → (leaf_flags f < 1024) × Leaf (leaf_flags f)
unfolding flags_law
leaf_flags_lem f h l = ground (arith, table-row 1024 flags_law f flags_table h)

pub entry_of-Leaf : (pa f : ℕ) → f < 1024 → is_leaf f ≡ true → Leaf (entry_of pa (leaf_flags f))
entry_of-Leaf pa f h l =
    let (fits, (valid, leaf)) = leaf_flags_lem f h l in
    (
      ap (λ b. not (b == 0)) (flags_seen pa (leaf_flags f) 1 fits (omega arith)) ∙ valid,
      ap (λ b. not (b == 0)) (flags_seen pa (leaf_flags f) 14 fits (omega arith)) ∙ leaf,
    )
