-- ===== src/Vmm/NewPage.antt =====
-- A page that is mapped to a new frame.
use letsgo.Base.{
  ℕ, ◌+◌, ◌*◌, ◌%◌, ◌^◌, ◌≤◌, ◌<◌, ◌≡◌, refl, ◌∙◌, subst, ◌⊎◌, inl, inr, true, arith, ℕ_discrete,
  ◌==◌, if◌then◌else◌,
}
use letsgo.Pmm.Defs.{Pmm, done}
use letsgo.Pmm.Frames.{IsSane, Allocated, Allocated-Busy, Busy}
use letsgo.Vmm.Defs.{vmm_map_page, vmm_lookup_page, is_leaf}
use letsgo.Vmm.Tree.{Owns, Agree, entry, IsTree-frame, Owns-frame, lookup-frame}
use letsgo.Vmm.Grow.{IsMapped, Grows, Grows-trans}
use letsgo.Vmm.Fresh.{new-aligned, Busy-ne-new, Busy-Agree, new-IsEmpty, new-Busy}
use letsgo.Vmm.Refine.{page_number, map_from-MapsTo, Same-page_number, other_page}
use letsgo.Vmm.Kernel.{Ensures}
use letsgo.Vmm.Size.{Sized, vmm_map_page-Sized}

-- A new frame is no table of a tree, which stays as it is.
owned-Agree :
    {s s' : Pmm} {new i : ℕ} (t : ℕ)
    → IsSane s
    → Allocated s s' new i
    → IsMapped 2 s t
    → (a : ℕ) → Owns 2 s.words t a
    → Agree s.words s'.words a
owned-Agree t v al m a o = Busy-Agree v al a (m.busy a o)

alloc-Grows :
    {s s' : Pmm} {new i : ℕ} (t : ℕ)
    → IsSane s
    → Allocated s s' new i
    → IsMapped 2 s t
    → Grows (λ va. Unit {0}) 2 s s' t
alloc-Grows {s} {s'} t v al m =
    let same = owned-Agree t v al m in
    record {
      mapped = record {
        tree = IsTree-frame 2 s.words s'.words t same m.tree;
        busy = λ a o. Allocated-Busy (m.busy a ((Owns-frame 2 s.words s'.words t a same).0 o)) al;
      };
      still = λ a b. Allocated-Busy b al;
      frame = λ a b n. Busy-Agree v al a b;
      fresh = λ a o. inl ((Owns-frame 2 s.words s'.words t a same).0 o);
      keeps = λ va u. lookup-frame 2 s.words s'.words t va same;
    }

-- The page of `va` leads to `page`, which was free and is zero. Every other address leads where it
-- did, every page in use stays in use, and keeps its memory unless it is a table of this program.
pub record PagedIn (s s' : Pmm) (pagetable va page : ℕ) : Type 0 where
  pub mapped : IsMapped 2 s' pagetable
  pub was_free : ¬ Busy s page
  pub in_use : Busy s' page
  pub zeros : (k : ℕ) → k < 512 → entry s'.words page k ≡ 0
  pub found :
      (va' : ℕ)
      → vmm_lookup_page s'.words pagetable va' ≡ (
          if page_number va == page_number va'
          then page + va' % 4096
          else vmm_lookup_page s.words pagetable va')
  pub not_table : ¬ Owns 2 s'.words pagetable page
  pub fresh : (a : ℕ) → Owns 2 s'.words pagetable a → Owns 2 s.words pagetable a ⊎ ¬ Busy s a
  pub sized : Sized s tt s'
  pub still : (a : ℕ) → Busy s a → Busy s' a
  pub kept : (a : ℕ) → Busy s a → ¬ Owns 2 s.words pagetable a → Agree s.words s'.words a

-- The frames have addresses of 64 bits.
abbrev pub Fits64 : Pmm → Type 0
Fits64 s = s.page_start_addr + s.total_pages * 4096 ≤ 2 ^ 64

pub vmm_map_page-PagedIn :
    {s t s' : Pmm} {page i : ℕ} (pagetable va flags : ℕ)
    → IsSane s
    → Fits64 s
    → IsMapped 2 s pagetable
    → flags < 1024
    → is_leaf flags ≡ true
    → Allocated s t page i
    → vmm_map_page t pagetable va page flags ≡ done tt s'
    → PagedIn s s' pagetable va page
unfolding vmm_map_page vmm_lookup_page Ensures
vmm_map_page-PagedIn {s} {t} {s'} {page} pagetable va flags v fits m f leaf al e =
    let g = alloc-Grows pagetable v al m in
    let r =
      map_from-MapsTo 2 t pagetable va page flags g.mapped f leaf
        (omega (arith, al.address, al.first.below, fits)) e in
    let h = Grows-trans 2 pagetable g r.grows in
    let free : ¬ Busy s page = λ b. Busy-ne-new v al page b refl in
    let unowned : ¬ Owns 2 t.words pagetable page = λ o. free (
      m.busy page
        ((Owns-frame 2 s.words t.words pagetable page (owned-Agree pagetable v al m)).0 o)) in
    let size : Sized t tt s' =
      subst (λ r. Ensures r (Sized t)) e (vmm_map_page-Sized t pagetable va page flags) in
    record {
      mapped = h.mapped;
      was_free = free;
      in_use = r.grows.still page (new-Busy v al);
      zeros = λ k lt. r.grows.frame page (new-Busy v al) unowned k lt ∙ new-IsEmpty v al k lt;
      found = λ va'. elim (ℕ_discrete (page_number va) (page_number va')) [
        | yes q ↦ r.hit va' (Same-page_number va va' q) ∙ ground (arith, q, new-aligned v al)
        | no n ↦ h.keeps va' (other_page va va' n) ∙ ground (arith, n)
      ];
      not_table = λ o. elim (r.grows.fresh page o) [
        | inl old ↦ unowned old
        | inr new ↦ new (new-Busy v al)
      ];
      sized = (size.0 ∙ al.same_total, size.1 ∙ al.same_start);
      fresh = h.fresh;
      still = h.still;
      kept = h.frame;
    }
