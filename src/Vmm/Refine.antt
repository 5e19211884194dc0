-- ===== src/Vmm/Refine.antt =====
-- `vmm_map_page` as a change of the map from pages to addresses that `vmm_lookup_page` shows.
use letsgo.Base.{
  ℕ, zero, suc, ◌+◌, ◌*◌, ◌/◌, ◌%◌, ◌^◌, ◌≤◌, ◌<◌, bit_or, ◌≡◌, refl, sym, ap, ◌∙◌, subst, ◌≢◌, ◌⊎◌,
  inl, inr, true, false, arith, ℕ_discrete, ◌==◌, if◌then◌else◌, Bool-cases, update,
}
use letsgo.Base.Fields.{bit_or-field}
use letsgo.Pmm.Defs.{Pmm, Result, done, panics, pmm_alloc_frame}
use letsgo.Pmm.Frames.{Busy, done_inj, panics_ne, pmm_alloc_frame_first}
use letsgo.Vmm.Defs.{
  lookup_from, target, vpn, entry_of, is_valid, is_leaf, map_from, next_table, set_leaf,
  vmm_map_page, vmm_lookup_page, slot,
}
use letsgo.Vmm.Entry.{
  Inner, entry_cases, entry_of-Leaf, leaf_flags, leaf_flags_lem, target-entry_of,
}
use letsgo.Vmm.Mapping.{next_table-leaf, next_table-inner}
use letsgo.Vmm.Tree.{
  Owns, IsTree, entry, Owns-self, lookup-step, lookup-resolve, resolve-Inner, resolve-Leaf, vpn-lt,
  resolve,
}
use letsgo.Vmm.Grow.{IsMapped, Grows, Grows-trans}
use letsgo.Vmm.Fresh.{Busy-aligned, update-Agree}
use letsgo.Vmm.Below.{below-Grows, grown_entry}
use letsgo.Vmm.Attach.{attached, attach-Grows, attach-entry}

-- Two addresses take the same entries down from level `l`, or part at one of them.
abbrev pub Same : ℕ → ℕ → ℕ → Type 0
Same l va va' = (j : ℕ) → j ≤ l → vpn va j ≡ vpn va' j

abbrev pub Differs : ℕ → ℕ → ℕ → Type 0
Differs l va va' = (j : ℕ) × (j ≤ l) × (vpn va j ≢ vpn va' j)

-- The page of `va` is mapped to `pa`, and no other.
pub record MapsTo (l : ℕ) (s s' : Pmm) (t va pa : ℕ) : Type 0 where
  pub grows : Grows (Differs l va) l s s' t
  pub hit :
      (va' : ℕ) → Same l va va' → lookup_from (suc l) s'.words t va' ≡ pa / 4096 * 4096 + va' % 4096

child :
    {l : ℕ} {s : Pmm} {t k : ℕ}
    → IsMapped (suc l) s t
    → k < 512
    → Inner (entry s.words t k)
    → IsMapped l s (target (entry s.words t k))
unfolding IsTree Owns
child {k} m b i = record { tree = m.tree.below k b i; busy = λ a o. m.busy a (inr (k, b, i, o)) }

-- Addresses that part, but not at the top, part below.
lower :
    {l : ℕ} (va va' : ℕ)
    → Differs (suc l) va va'
    → vpn va' (suc l) ≡ vpn va (suc l)
    → Differs l va va'
lower {l} va va' (j, h, n) e = elim (ℕ_discrete j (suc l)) [
  | yes q ↦ absurd (n (subst (λ x. vpn va x ≡ vpn va' x) (sym q) (sym e)))
  | no d ↦ (j, omega arith, n)
]

-- From the table below to the table.
below-MapsTo :
    {l : ℕ} {s s' : Pmm} {t : ℕ} (va pa : ℕ)
    → IsMapped (suc l) s t
    → Inner (entry s.words t (vpn va (suc l)))
    → MapsTo l s s' (target (entry s.words t (vpn va (suc l)))) va pa
    → MapsTo (suc l) s s' t va pa
below-MapsTo {l} {s} {s'} {t} va pa m i r =
    let k = vpn va (suc l) in
    let b : k < 512 = vpn-lt va (suc l) in
    let same : entry s'.words t k ≡ entry s.words t k = grown_entry k b m i r.grows in
    record {
      grows = below-Grows k b m i r.grows (λ va' d e. lower va va' d e);
      hit = λ va' q.
          let here : vpn va' (suc l) ≡ k = sym (q (suc l) (omega arith)) in
          lookup-resolve (suc l) s'.words t va'
          ∙ ap (λ x. resolve (suc l) s'.words x va') (ap (entry s'.words t) here ∙ same)
          ∙ resolve-Inner (suc l) s'.words (entry s.words t k) va' i
          ∙ r.hit va' (λ j h. q j (omega arith));
    }

-- The leaf that `set_leaf` writes.
written : Pmm → ℕ → ℕ → ℕ → ℕ → Pmm
written s t va pa flags = record s {
  words = update s.words (t + 8 * vpn va 0) (entry_of pa (leaf_flags flags));
}

module _ (s : Pmm) (t va pa flags : ℕ) (m : IsMapped 0 s t) (small : flags < 1024)
    (leaf : is_leaf flags ≡ true) where
  written_lookup :
      (va' : ℕ)
      → pa < 2 ^ 64
      → vpn va 0 ≡ vpn va' 0
      → lookup_from 1 (written s t va pa flags).words t va' ≡ pa / 4096 * 4096 + va' % 4096
  unfolding written
  written_lookup va' p q =
      let w = update s.words (t + 8 * vpn va 0) (entry_of pa (leaf_flags flags)) in
      let here : entry w t (vpn va' 0) ≡ entry_of pa (leaf_flags flags) = ground (arith, q) in
      let to : target (entry_of pa (leaf_flags flags)) % 2 ^ 64 ≡ pa / 4096 * 4096 =
        omega (arith, target-entry_of pa (leaf_flags flags) (leaf_flags_lem flags small leaf).0) in
      lookup-resolve 0 w t va'
      ∙ ap (λ x. resolve 0 w x va') here
      ∙ resolve-Leaf 0 w (entry_of pa (leaf_flags flags)) va' (entry_of-Leaf pa flags small leaf)
      ∙ ap (λ x. bit_or x (va' % 4096)) to
      ∙ bit_or-field 12 (pa / 4096) (va' % 4096) (omega arith)

  written_other :
      (va' : ℕ)
      → Differs 0 va va'
      → lookup_from 1 (written s t va pa flags).words t va' ≡ lookup_from 1 s.words t va'
  unfolding written lookup_from
  written_other va' (zero, h, n) =
      let away : t + 8 * vpn va 0 ≢ t + 8 * vpn va' 0 = λ e. n (omega arith) in
      lookup-step 0 s.words (update s.words (t + 8 * vpn va 0) (entry_of pa (leaf_flags flags))) t
        va' (ground (arith, away)) (λ i. refl)
  written_other va' (suc j, h, n) = absurd (omega arith)

  written_still : (a : ℕ) → Busy s a → Busy (written s t va pa flags) a
  unfolding written
  written_still a w = record {
    index = w.index;
    at = w.at;
    bit = w.bit;
    sane = record { bytes = w.sane.bytes; reserved = w.sane.reserved; aligned = w.sane.aligned };
  }

  written-MapsTo : pa < 2 ^ 64 → MapsTo 0 s (written s t va pa flags) t va pa
  unfolding written IsTree Owns
  written-MapsTo p = record {
    grows = record {
      mapped = record { tree = m.tree; busy = λ a o. written_still a (m.busy a o) };
      still = written_still;
      frame = λ a w n.
          update-Agree s.words t (vpn va 0) (entry_of pa (leaf_flags flags)) a m.tree
            (Busy-aligned w) (vpn-lt va 0) n;
      fresh = λ a o. inl o;
      keeps = written_other;
    };
    hit = λ va' q. written_lookup va' p (q 0 (omega arith));
  }

  set_leaf-MapsTo :
      {s' : Pmm} → pa < 2 ^ 64 → set_leaf s t va pa flags ≡ done tt s' → MapsTo 0 s s' t va pa
  unfolding set_leaf written
  set_leaf-MapsTo {s'} p e = elim (Bool-cases (is_valid (s.words (slot t va 0)))) [
    | inl taken ↦ absurd (panics_ne (rw (taken, set_leaf) at e))
    | inr free ↦
        subst (λ u. MapsTo 0 s u t va pa) (done_inj (rw (free, set_leaf) at e)).1 (written-MapsTo p)
  ]

module _ (s : Pmm) (t va level : ℕ) (blank : is_valid (s.words (slot t va level)) ≡ false) where
  next_table-full : pmm_alloc_frame s ≡ panics → next_table s t va level ≡ panics
  unfolding next_table
  next_table-full e = rw (blank, next_table) (rw (e, next_table) refl)

  next_table-new :
      {r : Pmm} {new : ℕ}
      → pmm_alloc_frame s ≡ done new r
      → next_table s t va level ≡ done new (attached r t (vpn va level) new)
  unfolding next_table
  next_table-new e = rw (blank, next_table) (rw (e, next_table) refl)

pub Result-cases :
    {A : Type 0} (r : Result A) → (r ≡ panics) ⊎ ((a : A) × (s : Pmm) × (r ≡ done a s))
Result-cases panics = inl refl
Result-cases (done a s) = inr (a, s, refl)

-- What the loop of `vmm_map_page` has done when it returns.
pub map_from-MapsTo :
    (l : ℕ) (s : Pmm) {s' : Pmm} (t va pa flags : ℕ)
    → IsMapped l s t
    → flags < 1024
    → is_leaf flags ≡ true
    → pa < 2 ^ 64
    → map_from l s t va pa flags ≡ done tt s'
    → MapsTo l s s' t va pa
unfolding map_from
map_from-MapsTo zero s t va pa flags m f leaf p e = set_leaf-MapsTo s t va pa flags m f leaf p e
map_from-MapsTo (suc l) s {s'} t va pa flags m f leaf p e =
    elim (entry_cases (entry s.words t (vpn va (suc l)))) [
      | inl blank ↦ elim (Result-cases (pmm_alloc_frame s)) [
        | inl full ↦
            absurd (panics_ne (rw (next_table-full s t va (suc l) blank full, map_from) at e))
        | inr (new, r, found) ↦
            let k = vpn va (suc l) in
            let b : k < 512 = vpn-lt va (suc l) in
            let (n, al) =
              pmm_alloc_frame_first s (m.busy t (Owns-self (suc l) s.words t)).sane found in
            let u = attached r t k new in
            let g = attach-Grows k b m blank al in
            let (i, leads) = attach-entry k b m blank al in
            let rest : map_from l u new va pa flags ≡ done tt s' =
              rw (next_table-new s t va (suc l) blank found, map_from) at e in
            let down : map_from l u (target (entry u.words t k)) va pa flags ≡ done tt s' =
              subst (λ x. map_from l u x va pa flags ≡ done tt s') (sym leads) rest in
            let mapped = below-MapsTo va pa g.mapped i (
              map_from-MapsTo l u (target (entry u.words t k)) va pa flags (child g.mapped b i) f
                leaf p down) in
            record { grows = Grows-trans (suc l) t g mapped.grows; hit = mapped.hit }
      ]
      | inr (inl (valid, big)) ↦
          absurd (panics_ne (rw (next_table-leaf s t va (suc l) valid big, map_from) at e))
      | inr (inr (valid, small)) ↦
          let i : Inner (entry s.words t (vpn va (suc l))) = (valid, small) in
          let rest = rw (next_table-inner s t va (suc l) valid small, map_from) at e in
          below-MapsTo va pa m i (
            map_from-MapsTo l s (target (entry s.words t (vpn va (suc l)))) va pa flags
              (child m (vpn-lt va (suc l)) i) f leaf p rest)
    ]

-- The number of the page of `va` among the 2 ^ 27 that three tables number.
abbrev pub page_number : ℕ → ℕ
page_number va = va / 4096 % 2 ^ 27

pub Same-page_number : (va va' : ℕ) → page_number va ≡ page_number va' → Same 2 va va'
Same-page_number va va' e zero h = omega arith
Same-page_number va va' e (suc zero) h = omega arith
Same-page_number va va' e (suc (suc zero)) h = omega arith
Same-page_number va va' e (suc (suc (suc j))) h = absurd (omega arith)

-- A difference is that of some table index.
pub other_page : (va va' : ℕ) → page_number va ≢ page_number va' → Differs 2 va va'
other_page va va' n = elim (ℕ_discrete (vpn va 0) (vpn va' 0)) [
  | no d ↦ (0, omega arith, d)
  | yes e ↦ elim (ℕ_discrete (vpn va 1) (vpn va' 1)) [
    | no d ↦ (1, omega arith, d)
    | yes f ↦ (2, omega arith, λ g. n (omega arith))
  ]
]

-- `vmm_map_page` refines the update of a map from page numbers to page addresses. From a table whose
-- tree of tables lies in pages in use, when it maps `va` to `pa` with flags that make a leaf and
-- returns, every address of that page is found at the page of `pa`, every other address is found
-- where it was, and the tables are again a tree in pages in use.
pub vmm_map_page_refines :
    (s : Pmm) {s' : Pmm} (pagetable va pa flags : ℕ)
    → IsMapped 2 s pagetable
    → flags < 1024
    → is_leaf flags ≡ true
    → pa < 2 ^ 64
    → vmm_map_page s pagetable va pa flags ≡ done tt s'
    → IsMapped 2 s' pagetable
      × ((va' : ℕ)
          → vmm_lookup_page s'.words pagetable va' ≡ (
              if page_number va == page_number va'
              then pa / 4096 * 4096 + va' % 4096
              else vmm_lookup_page s.words pagetable va'))
unfolding vmm_map_page vmm_lookup_page
vmm_map_page_refines s {s'} pagetable va pa flags m f leaf p e =
    let r = map_from-MapsTo 2 s pagetable va pa flags m f leaf p e in
    (
      r.grows.mapped,
      λ va'. elim (ℕ_discrete (page_number va) (page_number va')) [
        | yes q ↦ r.hit va' (Same-page_number va va' q) ∙ ground (arith, q)
        | no n ↦ r.grows.keeps va' (other_page va va' n) ∙ ground (arith, n)
      ],
    )
