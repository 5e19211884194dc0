-- ===== src/Vmm/Below.antt =====
-- When the tables below one entry grow, the whole tree grows.
use letsgo.Base.{ℕ, suc, ◌<◌, ◌≡◌, sym, ◌∙◌, subst, ◌≢◌, ◌⊎◌, inl, inr, ℕ_discrete}
use letsgo.Pmm.Defs.{Pmm}
use letsgo.Pmm.Frames.{Busy}
use letsgo.Vmm.Defs.{lookup_from, target, vpn}
use letsgo.Vmm.Entry.{Inner}
use letsgo.Vmm.Tree.{
  Owns, IsTree, IsNode, Agree, entry, Owns-self, Owns-frame, IsTree-frame, lookup-frame,
  lookup-step, Inner-eq, vpn-lt,
}
use letsgo.Vmm.Grow.{IsMapped, Grows}

module _ {P : ℕ → Type 0} {l : ℕ} {s s' : Pmm} {t : ℕ} (k : ℕ) (bk : k < 512)
    (m : IsMapped (suc l) s t) (ik : Inner (entry s.words t k))
    (g : Grows P l s s' (target (entry s.words t k))) where
  -- The entry `j` before, and after.
  abbrev old : ℕ → ℕ
  old j = target (entry s.words t j)

  abbrev new : ℕ → ℕ
  new j = target (entry s'.words t j)

  node : IsNode (IsTree l s.words) (Owns l s.words) s.words t
  unfolding IsTree
  node = m.tree

  -- The table itself does not change.
  top : Agree s.words s'.words t
  top = g.frame t (m.busy t (Owns-self (suc l) s.words t)) (node.apart k bk ik)

  inner : (j : ℕ) → j < 512 → Inner (entry s'.words t j) → Inner (entry s.words t j)
  inner j b i = Inner-eq (top j b) i

  abbrev Under : ℕ → ℕ → Type 0
  Under j a = Owns l s.words (old j) a

  under : (j a : ℕ) → j < 512 → Inner (entry s.words t j) → Under j a → Owns (suc l) s.words t a
  unfolding Owns
  under j a b i o = inr (j, b, i, o)

  -- Nor do the tables below the other entries.
  beside :
      (j : ℕ)
      → j < 512
      → j ≢ k
      → Inner (entry s.words t j)
      → (a : ℕ) → Under j a
      → Agree s.words s'.words a
  beside j b n i a o = g.frame a (m.busy a (under j a b i o)) (node.disjoint j k a b bk n i ik o)

  -- Where a page below the entry `j` comes from.
  abbrev Origin : ℕ → ℕ → Type 0
  Origin j a = Under j a ⊎ ((j ≡ k) × (¬ Busy s a) × Owns l s'.words (old k) a)

  origin : (j a : ℕ) → j < 512 → Inner (entry s'.words t j) → Owns l s'.words (new j) a → Origin j a
  origin j a b i o =
      let o' : Owns l s'.words (old j) a = subst (λ x. Owns l s'.words (target x) a) (top j b) o in
      elim (ℕ_discrete j k) [
        | yes q ↦
            let ok : Owns l s'.words (old k) a = subst (λ x. Owns l s'.words (old x) a) q o' in
            elim (g.fresh a ok) [
              | inl before ↦ inl (subst (λ x. Under x a) (sym q) before)
              | inr free ↦ inr (q, free, ok)
            ]
        | no n ↦ inl ((Owns-frame l s.words s'.words (old j) a (beside j b n (inner j b i))).0 o')
      ]

  -- An old page of one entry is not a page of another.
  apart_from :
      (i j a : ℕ)
      → i < 512
      → j < 512
      → i ≢ j
      → Inner (entry s.words t i)
      → Inner (entry s.words t j)
      → Origin i a
      → ¬ Origin j a
  apart_from i j a bi bj n ii ij (inl x) (inl y) = node.disjoint i j a bi bj n ii ij x y
  apart_from i j a bi bj n ii ij (inl x) (inr (q, free, o)) = free (m.busy a (under i a bi ii x))
  apart_from i j a bi bj n ii ij (inr (q, free, o)) (inl y) = free (m.busy a (under j a bj ij y))
  apart_from i j a bi bj n ii ij (inr (p, f, x)) (inr (q, free, o)) = n (p ∙ sym q)

  not_top : (j : ℕ) → j < 512 → Inner (entry s.words t j) → ¬ Origin j t
  not_top j b i (inl x) = node.apart j b i x
  not_top j b i (inr (q, free, o)) = free (m.busy t (Owns-self (suc l) s.words t))

  subtree : (j : ℕ) → j < 512 → Inner (entry s'.words t j) → IsTree l s'.words (new j)
  subtree j b i =
      subst (λ x. IsTree l s'.words (target x)) (sym (top j b))
        (elim (ℕ_discrete j k) [
          | yes q ↦ subst (λ x. IsTree l s'.words (old x)) (sym q) g.mapped.tree
          | no n ↦
              IsTree-frame l s.words s'.words (old j) (beside j b n (inner j b i))
                (node.below j b (inner j b i))
        ])

  grown-IsTree : IsTree (suc l) s'.words t
  unfolding IsTree
  grown-IsTree = record {
    aligned = node.aligned;
    below = subtree;
    apart = λ j b i o. not_top j b (inner j b i) (origin j t b i o);
    disjoint = λ i j a bi bj n ii ij oi oj.
        apart_from i j a bi bj n (inner i bi ii) (inner j bj ij) (origin i a bi ii oi)
          (origin j a bj ij oj);
  }

  grown-Busy : (a : ℕ) → Owns (suc l) s'.words t a → Busy s' a
  unfolding Owns
  grown-Busy a (inl e) = g.still a (m.busy a (inl e))
  grown-Busy a (inr (j, b, i, o)) = elim (origin j a b i o) [
    | inl before ↦ g.still a (m.busy a (under j a b (inner j b i) before))
    | inr (q, free, here) ↦ g.mapped.busy a here
  ]

  grown_fresh : (a : ℕ) → Owns (suc l) s'.words t a → Owns (suc l) s.words t a ⊎ ¬ Busy s a
  unfolding Owns
  grown_fresh a (inl e) = inl (inl e)
  grown_fresh a (inr (j, b, i, o)) = elim (origin j a b i o) [
    | inl before ↦ inl (under j a b (inner j b i) before)
    | inr (q, free, here) ↦ inr free
  ]

  grown_lookup :
      (va : ℕ)
      → (vpn va (suc l) ≡ k → P va)
      → lookup_from (suc (suc l)) s'.words t va ≡ lookup_from (suc (suc l)) s.words t va
  grown_lookup va p =
      let j = vpn va (suc l) in
      let b : j < 512 = vpn-lt va (suc l) in
      lookup-step (suc l) s.words s'.words t va (top j b) (λ i. elim (ℕ_discrete j k) [
        | yes q ↦
            subst
              (λ x.
                lookup_from (suc l) s'.words (old x) va ≡ lookup_from (suc l) s.words (old x) va)
              (sym q) (g.keeps va (p q))
        | no n ↦ lookup-frame l s.words s'.words (old j) va (beside j b n i)
      ])

  pub below-Grows :
      {Q : ℕ → Type 0} → ((va : ℕ) → Q va → vpn va (suc l) ≡ k → P va) → Grows Q (suc l) s s' t
  below-Grows into = record {
    mapped = record { tree = grown-IsTree; busy = grown-Busy };
    still = g.still;
    frame = λ a busy n. g.frame a busy (λ o. n (under k a bk ik o));
    fresh = grown_fresh;
    keeps = λ va q. grown_lookup va (into va q);
  }

  -- The table below is reached by the same entry.
  pub grown_entry : entry s'.words t k ≡ entry s.words t k
  grown_entry = top k bk
