-- ===== src/Vmm/Attach.antt =====
-- A new empty table is put under an entry that was not valid.
use letsgo.Base.{
  ℕ, suc, ◌+◌, ◌*◌, ◌<◌, ◌≡◌, sym, ap, ◌∙◌, subst, ◌≢◌, ◌⊎◌, inl, inr, false, arith, ℕ_discrete,
  update,
}
use letsgo.Pmm.Defs.{Pmm}
use letsgo.Pmm.Frames.{Busy, Allocated, Allocated-Busy}
use letsgo.Vmm.Defs.{lookup_from, target, vpn, entry_of, pte_v, is_valid}
use letsgo.Vmm.Entry.{Inner, entry_of-Inner, target-entry_of}
use letsgo.Vmm.Tree.{
  Owns, IsTree, IsNode, Agree, entry, Owns-self, Owns-frame, IsTree-frame, lookup-frame,
  lookup-step, lookup-resolve, resolve-invalid, resolve-Inner, Inner-eq, vpn-lt,
}
use letsgo.Vmm.Grow.{IsMapped, Grows}
use letsgo.Vmm.Fresh.{
  IsEmpty, IsEmpty-Owns, IsEmpty-IsTree, IsEmpty-lookup, Busy-aligned, new-aligned, Busy-ne-new,
  Busy-Agree, new-IsEmpty, new-Busy, update-Agree,
}

-- The entry for the new table is written.
abbrev pub attached : Pmm → ℕ → ℕ → ℕ → Pmm
attached s t k new = record s { words = update s.words (t + 8 * k) (entry_of new pte_v) }

module _ {l : ℕ} {s r : Pmm} {t new n : ℕ} (k : ℕ) (bk : k < 512) (m : IsMapped (suc l) s t)
    (blank : is_valid (entry s.words t k) ≡ false) (al : Allocated s r new n) where
  s' : Pmm
  s' = attached r t k new

  Busy-top : Busy s t
  Busy-top = m.busy t (Owns-self (suc l) s.words t)

  node : IsNode (IsTree l s.words) (Owns l s.words) s.words t
  unfolding IsTree
  node = m.tree

  still : (a : ℕ) → Busy r a → Busy s' a
  unfolding s'
  still a w = record {
    index = w.index;
    at = w.at;
    bit = w.bit;
    sane = record { bytes = w.sane.bytes; reserved = w.sane.reserved; aligned = w.sane.aligned };
  }

  -- The new entry.
  at_k : entry s'.words t k ≡ entry_of new pte_v
  unfolding s'
  at_k = ground arith

  leads : target (entry s'.words t k) ≡ new
  leads =
      let even = new-aligned Busy-top.sane al in
      ap (λ e. target e) at_k ∙ target-entry_of new 1 (omega arith) ∙ omega (arith, even)

  Inner-k : Inner (entry s'.words t k)
  Inner-k = Inner-eq (sym at_k) (entry_of-Inner new)

  -- The other entries of the table, and the other pages in use.
  others : (j : ℕ) → j < 512 → j ≢ k → entry s'.words t j ≡ entry s.words t j
  unfolding s'
  others j b d =
      let away : t + 8 * k ≢ t + 8 * j = λ e. d (omega arith) in
      ground (arith, away, Busy-Agree Busy-top.sane al t Busy-top j b)

  elsewhere : (a : ℕ) → Busy s a → a ≢ t → Agree s.words s'.words a
  unfolding s'
  elsewhere a w d j b =
      update-Agree r.words t k (entry_of new pte_v) a node.aligned (Busy-aligned w) bk d j b
      ∙ Busy-Agree w.sane al a w j b

  empty : IsEmpty s'.words new
  unfolding s'
  empty j b =
      update-Agree r.words t k (entry_of new pte_v) new node.aligned (new-aligned Busy-top.sane al)
        bk (λ e. Busy-ne-new Busy-top.sane al t Busy-top (sym e)) j b
      ∙ new-IsEmpty Busy-top.sane al j b

  abbrev old : ℕ → ℕ
  old j = target (entry s.words t j)

  abbrev Under : ℕ → ℕ → Type 0
  Under j a = Inner (entry s.words t j) × Owns l s.words (old j) a

  under : (j a : ℕ) → j < 512 → Under j a → Owns (suc l) s.words t a
  unfolding Owns
  under j a b (i, o) = inr (j, b, i, o)

  beside :
      (j : ℕ)
      → j < 512
      → Inner (entry s.words t j)
      → (a : ℕ) → Owns l s.words (old j) a
      → Agree s.words s'.words a
  beside j b i a o =
      elsewhere a (m.busy a (under j a b (i, o)))
        (λ e. node.apart j b i (subst (λ x. Owns l s.words (old j) x) e o))

  inner : (j : ℕ) → j < 512 → j ≢ k → Inner (entry s'.words t j) → Inner (entry s.words t j)
  inner j b d i = Inner-eq (others j b d) i

  -- Where a page below the entry `j` comes from.
  abbrev Origin : ℕ → ℕ → Type 0
  Origin j a = ((j ≢ k) × Under j a) ⊎ ((j ≡ k) × (a ≡ new))

  origin :
      (j a : ℕ)
      → j < 512
      → Inner (entry s'.words t j)
      → Owns l s'.words (target (entry s'.words t j)) a
      → Origin j a
  origin j a b i o = elim (ℕ_discrete j k) [
    | yes q ↦ inr (
      q,
      IsEmpty-Owns l s'.words new a empty
          (subst (λ x. Owns l s'.words x a) (ap (λ x. target (entry s'.words t x)) q ∙ leads) o),
    )
    | no d ↦ inl (
      d,
      (
        inner j b d i,
        (Owns-frame l s.words s'.words (old j) a (beside j b (inner j b d i))).0
            (subst (λ x. Owns l s'.words (target x) a) (others j b d) o),
      ),
    )
  ]

  apart_from : (i j a : ℕ) → i < 512 → j < 512 → i ≢ j → Origin i a → ¬ Origin j a
  apart_from i j a bi bj d (inl (di, (ii, x))) (inl (dj, (ij, y))) =
      node.disjoint i j a bi bj d ii ij x y
  apart_from i j a bi bj d (inl (di, u)) (inr (q, e)) =
      Busy-ne-new Busy-top.sane al a (m.busy a (under i a bi u)) e
  apart_from i j a bi bj d (inr (p, e)) (inl (dj, u)) =
      Busy-ne-new Busy-top.sane al a (m.busy a (under j a bj u)) e
  apart_from i j a bi bj d (inr (p, e)) (inr (q, f)) = d (p ∙ sym q)

  not_top : (j : ℕ) → j < 512 → ¬ Origin j t
  not_top j b (inl (d, (i, o))) = node.apart j b i o
  not_top j b (inr (q, e)) = Busy-ne-new Busy-top.sane al t Busy-top e

  subtree :
      (j : ℕ)
      → j < 512
      → Inner (entry s'.words t j)
      → IsTree l s'.words (target (entry s'.words t j))
  subtree j b i = elim (ℕ_discrete j k) [
    | yes q ↦
        subst (λ x. IsTree l s'.words x) (sym (ap (λ x. target (entry s'.words t x)) q ∙ leads))
          (IsEmpty-IsTree l s'.words new (new-aligned Busy-top.sane al) empty)
    | no d ↦
        subst (λ x. IsTree l s'.words (target x)) (sym (others j b d))
          (IsTree-frame l s.words s'.words (old j) (beside j b (inner j b d i))
            (node.below j b (inner j b d i)))
  ]

  tree : IsTree (suc l) s'.words t
  unfolding IsTree
  tree = record {
    aligned = node.aligned;
    below = subtree;
    apart = λ j b i o. not_top j b (origin j t b i o);
    disjoint = λ i j a bi bj d ii ij oi oj.
        apart_from i j a bi bj d (origin i a bi ii oi) (origin j a bj ij oj);
  }

  busy : (a : ℕ) → Owns (suc l) s'.words t a → Busy s' a
  unfolding Owns
  busy a (inl e) = still a (Allocated-Busy (m.busy a (inl e)) al)
  busy a (inr (j, b, i, o)) = elim (origin j a b i o) [
    | inl (d, u) ↦ still a (Allocated-Busy (m.busy a (under j a b u)) al)
    | inr (q, e) ↦ subst (Busy s') (sym e) (still new (new-Busy Busy-top.sane al))
  ]

  fresh : (a : ℕ) → Owns (suc l) s'.words t a → Owns (suc l) s.words t a ⊎ ¬ Busy s a
  unfolding Owns
  fresh a (inl e) = inl (inl e)
  fresh a (inr (j, b, i, o)) = elim (origin j a b i o) [
    | inl (d, u) ↦ inl (under j a b u)
    | inr (q, e) ↦ inr (λ w. Busy-ne-new Busy-top.sane al a w e)
  ]

  -- An address below the new table is still not mapped.
  lookup :
      (va : ℕ) → lookup_from (suc (suc l)) s'.words t va ≡ lookup_from (suc (suc l)) s.words t va
  lookup va =
      let j = vpn va (suc l) in
      let b : j < 512 = vpn-lt va (suc l) in
      elim (ℕ_discrete j k) [
        | yes q ↦
            let before : is_valid (entry s.words t j) ≡ false =
              subst (λ x. is_valid (entry s.words t x) ≡ false) (sym q) blank in
            lookup-resolve (suc l) s'.words t va
            ∙ resolve-Inner (suc l) s'.words (entry s'.words t j) va
                (subst (λ x. Inner (entry s'.words t x)) (sym q) Inner-k)
            ∙ ap (λ x. lookup_from (suc l) s'.words x va)
                (ap (λ x. target (entry s'.words t x)) q ∙ leads)
            ∙ IsEmpty-lookup l s'.words new va empty
            ∙ sym (resolve-invalid (suc l) s.words (entry s.words t j) va before)
            ∙ sym (lookup-resolve (suc l) s.words t va)
        | no d ↦
            lookup-step (suc l) s.words s'.words t va (others j b d)
              (λ i. lookup-frame l s.words s'.words (old j) va (beside j b i))
      ]

  pub attach-Grows : Grows (λ va. Unit {0}) (suc l) s (attached r t k new) t
  unfolding s' Owns
  attach-Grows = record {
    mapped = record { tree = tree; busy = busy };
    still = λ a w. still a (Allocated-Busy w al);
    frame = λ a w o. elsewhere a w (λ e. o (inl e));
    fresh = fresh;
    keeps = λ va p. lookup va;
  }

  pub attach-entry :
      Inner (entry (attached r t k new).words t k)
      × (target (entry (attached r t k new).words t k) ≡ new)
  unfolding s'
  attach-entry = (Inner-k, leads)
