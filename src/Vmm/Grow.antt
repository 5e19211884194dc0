-- ===== src/Vmm/Grow.antt =====
-- What a change of the tables below one table keeps: the tree, the lookups of other addresses, and
-- the memory of every page in use that is no table of the tree.
use letsgo.Base.{ℕ, suc, ◌≡◌, ◌∙◌, ◌⊎◌, inl, inr}
use letsgo.Pmm.Defs.{Pmm}
use letsgo.Pmm.Frames.{Busy}
use letsgo.Vmm.Defs.{lookup_from}
use letsgo.Vmm.Tree.{Owns, IsTree, Agree}

-- A tree in pages that are in use.
pub record IsMapped (l : ℕ) (s : Pmm) (t : ℕ) : Type 0 where
  pub tree : IsTree l s.words t
  pub busy : (a : ℕ) → Owns l s.words t a → Busy s a

-- From `s` to `s'` the tree at `t` grows by new pages, and keeps its lookups of the addresses `P`.
pub record Grows (P : ℕ → Type 0) (l : ℕ) (s s' : Pmm) (t : ℕ) : Type 0 where
  pub mapped : IsMapped l s' t
  pub still : (a : ℕ) → Busy s a → Busy s' a
  pub frame : (a : ℕ) → Busy s a → ¬ Owns l s.words t a → Agree s.words s'.words a
  pub fresh : (a : ℕ) → Owns l s'.words t a → Owns l s.words t a ⊎ ¬ Busy s a
  pub keeps : (va : ℕ) → P va → lookup_from (suc l) s'.words t va ≡ lookup_from (suc l) s.words t va

pub Grows-trans :
    {P : ℕ → Type 0} (l : ℕ) {s r u : Pmm} (t : ℕ)
    → Grows (λ va. Unit {0}) l s r t
    → Grows P l r u t
    → Grows P l s u t
Grows-trans l t g h = record {
  mapped = h.mapped;
  still = λ a b. h.still a (g.still a b);
  frame = λ a b n k lt.
      h.frame a (g.still a b) (λ o. elim (g.fresh a o) [ inl old ↦ n old | inr new ↦ new b ]) k lt
      ∙ g.frame a b n k lt;
  fresh = λ a o. elim (h.fresh a o) [
    | inl old ↦ g.fresh a old
    | inr new ↦ inr (λ b. new (g.still a b))
  ];
  keeps = λ va p. h.keeps va p ∙ g.keeps va tt;
}
