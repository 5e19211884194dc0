-- ===== src/Vmm/Size.antt =====
-- A call that maps a page leaves the number and the place of the frames.
use letsgo.Base.{
  ℕ, zero, suc, ◌≡◌, refl, ◌∙◌, subst, inl, inr, not, Bool-cases, Option-cases, find_from,
}
use letsgo.Pmm.Defs.{Pmm, pmm_alloc_frame, bitmap_test}
use letsgo.Vmm.Defs.{next_table, set_leaf, map_from, vmm_map_page, is_valid, is_leaf, slot}
use letsgo.Vmm.Refine.{Result-cases}
use letsgo.Vmm.Kernel.{Ensures, Ensures-map}

abbrev pub Sized : {A : Type 0} → Pmm → A → Pmm → Type 0
Sized s a s' = (s'.total_pages ≡ s.total_pages) × (s'.page_start_addr ≡ s.page_start_addr)

pub pmm_alloc_frame-Sized : (s : Pmm) → Ensures (pmm_alloc_frame s) (Sized s)
unfolding Ensures pmm_alloc_frame
pmm_alloc_frame-Sized s =
    elim (Option-cases (find_from (λ j. not (bitmap_test s.bitmap j)) s.total_pages 0)) [
      | inl full ↦ simp (full, pmm_alloc_frame) tt
      | inr (i, found) ↦ simp (found, pmm_alloc_frame) (refl, refl)
    ]

next_table-Sized : (s : Pmm) (table va l : ℕ) → Ensures (next_table s table va l) (Sized s)
unfolding Ensures next_table
next_table-Sized s table va l = elim (Bool-cases (is_valid (s.words (slot table va l)))) [
  | inl valid ↦ elim (Bool-cases (is_leaf (s.words (slot table va l)))) [
    | inl leaf ↦ simp (valid, leaf, next_table) tt
    | inr inner ↦ simp (valid, inner, next_table) (refl, refl)
  ]
  | inr invalid ↦ elim (Result-cases (pmm_alloc_frame s)) [
    | inl full ↦ simp (invalid, full, next_table) tt
    | inr (new, s', got) ↦
        simp (invalid, got, next_table)
          (subst (λ r. Ensures r (Sized s)) got (pmm_alloc_frame-Sized s))
  ]
]

set_leaf-Sized :
    (s : Pmm) (table va pa flags : ℕ) → Ensures (set_leaf s table va pa flags) (Sized s)
unfolding Ensures set_leaf
set_leaf-Sized s table va pa flags = elim (Bool-cases (is_valid (s.words (slot table va 0)))) [
  | inl taken ↦ simp (taken, set_leaf) tt
  | inr free ↦ simp (free, set_leaf) (refl, refl)
]

map_from-Sized :
    (l : ℕ) (s : Pmm) (table va pa flags : ℕ) → Ensures (map_from l s table va pa flags) (Sized s)
unfolding Ensures map_from
map_from-Sized zero s table va pa flags = set_leaf-Sized s table va pa flags
map_from-Sized (suc l) s table va pa flags = elim (Result-cases (next_table s table va (suc l))) [
  | inl full ↦ rw (full, map_from) tt
  | inr (next, s', got) ↦
      let h : Sized s next s' =
        subst (λ r. Ensures r (Sized s)) got (next_table-Sized s table va (suc l)) in
      rw (got, map_from)
        (Ensures-map (Sized s) (map_from l s' next va pa flags) (λ a r z. (z.0 ∙ h.0, z.1 ∙ h.1))
          (map_from-Sized l s' next va pa flags))
]

pub vmm_map_page-Sized :
    (s : Pmm) (table va pa flags : ℕ) → Ensures (vmm_map_page s table va pa flags) (Sized s)
unfolding vmm_map_page
vmm_map_page-Sized s table va pa flags = map_from-Sized 2 s table va pa flags
