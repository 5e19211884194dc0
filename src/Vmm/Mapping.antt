-- ===== src/Vmm/Mapping.antt =====
-- How `vmm_map_page` and `vmm_lookup_page` go together.
use letsgo.Base.{ℕ, zero, suc, ◌≡◌, refl, ◌∙◌, ◌≢◌, inl, inr, true, false, Bool-cases}
use letsgo.Pmm.Defs.{Pmm, done, panics}
use letsgo.Vmm.Defs.{
  vmm_map_page, vmm_lookup_page, map_from, lookup_from, next_table, set_leaf, slot, is_valid,
  is_leaf, target,
}

module _ (w : ℕ → ℕ) (table va l : ℕ) where
  lookup_from-invalid : is_valid (w (slot table va l)) ≡ false → lookup_from (suc l) w table va ≡ 0
  unfolding lookup_from
  lookup_from-invalid e = rw e refl

  lookup_from-inner :
      is_valid (w (slot table va l)) ≡ true
      → is_leaf (w (slot table va l)) ≡ false
      → lookup_from (suc l) w table va ≡ lookup_from l w (target (w (slot table va l))) va
  unfolding lookup_from
  lookup_from-inner e f = rw e (rw f refl)

module _ (s : Pmm) (table va level : ℕ) where
  pub next_table-leaf :
      is_valid (s.words (slot table va level)) ≡ true
      → is_leaf (s.words (slot table va level)) ≡ true
      → next_table s table va level ≡ panics
  unfolding next_table
  next_table-leaf e f = rw e (rw f refl)

  pub next_table-inner :
      is_valid (s.words (slot table va level)) ≡ true
      → is_leaf (s.words (slot table va level)) ≡ false
      → next_table s table va level ≡ done (target (s.words (slot table va level))) s
  unfolding next_table
  next_table-inner e f = rw e (rw f refl)

set_leaf-panics :
    (s : Pmm) (table va pa flags : ℕ)
    → is_valid (s.words (slot table va 0)) ≡ true
    → set_leaf s table va pa flags ≡ panics
unfolding set_leaf
set_leaf-panics s table va pa flags e = rw e refl

map_from-panics :
    (l : ℕ) (s : Pmm) (table va pa flags : ℕ)
    → lookup_from (suc l) s.words table va ≢ 0
    → map_from l s table va pa flags ≡ panics
unfolding map_from
map_from-panics zero s table va pa flags n =
    elim (Bool-cases (is_valid (s.words (slot table va 0)))) [
      | inl valid ↦ set_leaf-panics s table va pa flags valid
      | inr invalid ↦ absurd (n (lookup_from-invalid s.words table va 0 invalid))
    ]
map_from-panics (suc l) s table va pa flags n =
    elim (Bool-cases (is_valid (s.words (slot table va (suc l))))) [
      | inl valid ↦ elim (Bool-cases (is_leaf (s.words (slot table va (suc l))))) [
        | inl leaf ↦ rw (next_table-leaf s table va (suc l) valid leaf, map_from) refl
        | inr inner ↦
            rw (next_table-inner s table va (suc l) valid inner, map_from)
              (map_from-panics l s _ va pa flags
                (λ e. n (lookup_from-inner s.words table va (suc l) valid inner ∙ e)))
      ]
      | inr invalid ↦ absurd (n (lookup_from-invalid s.words table va (suc l) invalid))
    ]

-- A page that `vmm_lookup_page` finds is not mapped a second time: `vmm_map_page` panics.
pub vmm_map_page-mapped :
    (s : Pmm) (pagetable va pa flags : ℕ)
    → vmm_lookup_page s.words pagetable va ≢ 0
    → vmm_map_page s pagetable va pa flags ≡ panics
unfolding vmm_map_page vmm_lookup_page
vmm_map_page-mapped s pagetable va pa flags n = map_from-panics 2 s pagetable va pa flags n
