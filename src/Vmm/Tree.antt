-- ===== src/Vmm/Tree.antt =====
-- Page tables that form a tree: which pages a table owns, and that what happens to other pages
-- leaves it as it is. A table of level 0 holds leaves, one of level `suc l` tables of level `l`.
use letsgo.Base.{
  ℕ, zero, suc, ◌+◌, ◌*◌, ◌%◌, ◌^◌, ◌<◌, bit_or, ◌≡◌, refl, sym, ap, ◌∙◌, subst, ◌≢◌, ◌↔◌, ◌⊎◌, inl,
  inr, false, not, arith, if◌then◌else◌,
}
use letsgo.Vmm.Defs.{is_valid, is_leaf, target, vpn, lookup_from}
use letsgo.Vmm.Entry.{Inner, Leaf, entry_cases}

-- The entry `k` of a table.
abbrev pub entry : (ℕ → ℕ) → ℕ → ℕ → ℕ
entry w t k = w (t + 8 * k)

-- `a` is the page of the table `t` of level `l`, or of a table below it.
unfoldable pub Owns : ℕ → (ℕ → ℕ) → ℕ → ℕ → Type 0
Owns zero w t a = a ≡ t
Owns (suc l) w t a =
    (a ≡ t) ⊎ ((k : ℕ) × (k < 512) × Inner (entry w t k) × Owns l w (target (entry w t k)) a)

-- The pages of the tables are aligned, and no page serves as two tables.
pub record IsNode (Sub : ℕ → Type 0) (Own : ℕ → ℕ → Type 0) (w : ℕ → ℕ) (t : ℕ) : Type 0 where
  pub aligned : t % 4096 ≡ 0
  pub below : (k : ℕ) → k < 512 → Inner (entry w t k) → Sub (target (entry w t k))
  pub apart : (k : ℕ) → k < 512 → Inner (entry w t k) → ¬ Own (target (entry w t k)) t
  pub disjoint :
      (j k a : ℕ)
      → j < 512
      → k < 512
      → j ≢ k
      → Inner (entry w t j)
      → Inner (entry w t k)
      → Own (target (entry w t j)) a
      → ¬ Own (target (entry w t k)) a

unfoldable pub IsTree : ℕ → (ℕ → ℕ) → ℕ → Type 0
IsTree zero w t = t % 4096 ≡ 0
IsTree (suc l) w t = IsNode (IsTree l w) (Owns l w) w t

-- The 512 words of the page `a` are the same.
abbrev pub Agree : (ℕ → ℕ) → (ℕ → ℕ) → ℕ → Type 0
Agree w w' a = (k : ℕ) → k < 512 → entry w' a k ≡ entry w a k

pub Owns-self : (l : ℕ) (w : ℕ → ℕ) (t : ℕ) → Owns l w t t
unfolding Owns
Owns-self zero w t = refl
Owns-self (suc l) w t = inl refl

pub IsTree-aligned : (l : ℕ) (w : ℕ → ℕ) (t : ℕ) → IsTree l w t → t % 4096 ≡ 0
unfolding IsTree
IsTree-aligned zero w t v = v
IsTree-aligned (suc l) w t v = v.aligned

pub Inner-eq : {x y : ℕ} → x ≡ y → Inner x → Inner y
Inner-eq e i = subst Inner e i

-- The tables below come through unchanged entries, both ways.
module _ (l : ℕ) (w w' : ℕ → ℕ) (t a : ℕ) where
  abbrev Kept : Type 0
  Kept =
      (k : ℕ)
      → k < 512
      → Inner (entry w t k)
      → Owns l w' (target (entry w t k)) a ↔ Owns l w (target (entry w t k)) a

  Owns-back : Agree w w' t → Kept → Owns (suc l) w' t a → Owns (suc l) w t a
  unfolding Owns
  Owns-back same down (inl e) = inl e
  Owns-back same down (inr (k, b, i, o)) =
      let e = same k b in
      let i' = Inner-eq e i in
      inr (k, b, i', (down k b i').0 (subst (λ x. Owns l w' (target x) a) e o))

  Owns-forth : Agree w w' t → Kept → Owns (suc l) w t a → Owns (suc l) w' t a
  unfolding Owns
  Owns-forth same down (inl e) = inl e
  Owns-forth same down (inr (k, b, i, o)) =
      let e = sym (same k b) in
      inr (k, b, Inner-eq e i, subst (λ x. Owns l w' (target x) a) e ((down k b i).1 o))

-- What a table owns hangs on its own pages only.
pub Owns-frame :
    (l : ℕ) (w w' : ℕ → ℕ) (t a : ℕ)
    → ((b : ℕ) → Owns l w t b → Agree w w' b)
    → Owns l w' t a ↔ Owns l w t a
unfolding Owns
Owns-frame zero w w' t a same = (λ o. o, λ o. o)
Owns-frame (suc l) w w' t a same =
    let top : Agree w w' t = same t (inl refl) in
    let down : Kept l w w' t a =
      λ k b i. Owns-frame l w w' (target (entry w t k)) a (λ c o. same c (inr (k, b, i, o))) in
    (Owns-back l w w' t a top down, Owns-forth l w w' t a top down)

-- So does the shape of the tree.
pub IsTree-frame :
    (l : ℕ) (w w' : ℕ → ℕ) (t : ℕ)
    → ((b : ℕ) → Owns l w t b → Agree w w' b)
    → IsTree l w t
    → IsTree l w' t
unfolding IsTree Owns
IsTree-frame zero w w' t same v = v
IsTree-frame (suc l) w w' t same v =
    let top : Agree w w' t = same t (inl refl) in
    let own : (k : ℕ)
        → k < 512
        → Inner (entry w t k)
        → (b : ℕ) → Owns l w (target (entry w t k)) b
        → Agree w w' b =
      λ k b i c o. same c (inr (k, b, i, o)) in
    record {
      aligned = v.aligned;
      below = λ k b i.
          let e = top k b in
          let i' = Inner-eq e i in
          subst (λ x. IsTree l w' (target x)) (sym e)
            (IsTree-frame l w w' (target (entry w t k)) (own k b i') (v.below k b i'));
      apart = λ k b i o.
          let e = top k b in
          let i' = Inner-eq e i in
          v.apart k b i'
            ((Owns-frame l w w' _ t (own k b i')).0 (subst (λ x. Owns l w' (target x) t) e o));
      disjoint = λ j k a bj bk n ij ik oj ok.
          let ej = top j bj in
          let ek = top k bk in
          let ij' = Inner-eq ej ij in
          let ik' = Inner-eq ek ik in
          v.disjoint j k a bj bk n ij' ik'
            ((Owns-frame l w w' _ a (own j bj ij')).0 (subst (λ x. Owns l w' (target x) a) ej oj))
            ((Owns-frame l w w' _ a (own k bk ik')).0 (subst (λ x. Owns l w' (target x) a) ek ok));
    }

pub vpn-lt : (va l : ℕ) → vpn va l < 512
vpn-lt va l = omega arith

-- What a lookup makes of an entry of level `l`.
pub resolve : ℕ → (ℕ → ℕ) → ℕ → ℕ → ℕ
resolve l w pte va =
    if not (is_valid pte)
    then 0
    else if is_leaf pte
    then bit_or (target pte % 2 ^ 64) (va % 2 ^ 12)
    else lookup_from l w (target pte) va

pub lookup-resolve :
    (l : ℕ) (w : ℕ → ℕ) (t va : ℕ)
    → lookup_from (suc l) w t va ≡ resolve l w (entry w t (vpn va l)) va
unfolding lookup_from resolve
lookup-resolve l w t va = refl

pub resolve-invalid :
    (l : ℕ) (w : ℕ → ℕ) (pte va : ℕ) → is_valid pte ≡ false → resolve l w pte va ≡ 0
unfolding resolve
resolve-invalid l w pte va e = rw e refl

pub resolve-Leaf :
    (l : ℕ) (w : ℕ → ℕ) (pte va : ℕ)
    → Leaf pte
    → resolve l w pte va ≡ bit_or (target pte % 2 ^ 64) (va % 2 ^ 12)
unfolding resolve
resolve-Leaf l w pte va (v, f) = rw v (rw f refl)

pub resolve-Inner :
    (l : ℕ) (w : ℕ → ℕ) (pte va : ℕ)
    → Inner pte
    → resolve l w pte va ≡ lookup_from l w (target pte) va
unfolding resolve
resolve-Inner l w pte va (v, f) = rw v (rw f refl)

-- Two memories with one entry give one result, if the tables below do.
pub resolve-same :
    (l : ℕ) (w w' : ℕ → ℕ) (pte va : ℕ)
    → (Inner pte → lookup_from l w' (target pte) va ≡ lookup_from l w (target pte) va)
    → resolve l w' pte va ≡ resolve l w pte va
resolve-same l w w' pte va down = elim (entry_cases pte) [
  | inl invalid ↦ resolve-invalid l w' pte va invalid ∙ sym (resolve-invalid l w pte va invalid)
  | inr (inl leaf) ↦ resolve-Leaf l w' pte va leaf ∙ sym (resolve-Leaf l w pte va leaf)
  | inr (inr inner) ↦
      resolve-Inner l w' pte va inner ∙ down inner ∙ sym (resolve-Inner l w pte va inner)
]

pub lookup-step :
    (l : ℕ) (w w' : ℕ → ℕ) (t va : ℕ)
    → entry w' t (vpn va l) ≡ entry w t (vpn va l)
    → (Inner (entry w t (vpn va l))
        → lookup_from l w' (target (entry w t (vpn va l))) va
          ≡ lookup_from l w (target (entry w t (vpn va l))) va)
    → lookup_from (suc l) w' t va ≡ lookup_from (suc l) w t va
lookup-step l w w' t va e down =
    lookup-resolve l w' t va
    ∙ ap (λ x. resolve l w' x va) e
    ∙ resolve-same l w w' (entry w t (vpn va l)) va down
    ∙ sym (lookup-resolve l w t va)

-- And what a lookup finds.
pub lookup-frame :
    (l : ℕ) (w w' : ℕ → ℕ) (t va : ℕ)
    → ((b : ℕ) → Owns l w t b → Agree w w' b)
    → lookup_from (suc l) w' t va ≡ lookup_from (suc l) w t va
unfolding Owns lookup_from
lookup-frame zero w w' t va same =
    lookup-step 0 w w' t va (same t refl (vpn va 0) (vpn-lt va 0)) (λ i. refl)
lookup-frame (suc l) w w' t va same =
    lookup-step (suc l) w w' t va (same t (inl refl) (vpn va (suc l)) (vpn-lt va (suc l))) (λ i.
      lookup-frame l w w' (target (entry w t (vpn va (suc l)))) va
        (λ b o. same b (inr (vpn va (suc l), vpn-lt va (suc l), i, o))))
