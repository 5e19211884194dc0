-- ===== src/Process/Stack.antt =====
-- The stack that `fork` gives to the child.
use letsgo.Base.{
  ℕ, zero, suc, ◌+◌, ◌-◌, ◌*◌, ◌≤◌, ◌<◌, ◌≡◌, refl, sym, subst, ◌≢◌, ◌⊎◌, inl, inr, ◌&&◌, arith,
  ℕ_discrete, leb, Bool-cases,
}
use letsgo.Process.Fork.{relocate, copy_stack}

-- Two stacks of 8192 bytes that do not overlap, by their tops.
pub record AreApart (parent_top child_top : ℕ) : Type 0 where
  pub parent_high : 8192 ≤ parent_top
  pub child_high : 8192 ≤ child_top
  pub apart : (child_top + 8192 ≤ parent_top) ⊎ (parent_top + 8192 ≤ child_top)

-- An address of the parent's stack becomes the one at the same distance from the top of the child's
-- stack, and lies in that stack, if the two stacks do not overlap.
relocate_inside :
    (parent_top child_top val : ℕ)
    → AreApart parent_top child_top
    → parent_top ≤ val + 8192
    → val ≤ parent_top
    → (relocate parent_top child_top val + parent_top ≡ val + child_top)
      × (child_top ≤ relocate parent_top child_top val + 8192)
      × (relocate parent_top child_top val ≤ child_top)
unfolding relocate
relocate_inside parent_top child_top val v lo hi =
    let moved : relocate parent_top child_top val ≡ child_top - (parent_top - val) =
      ground (arith, v.parent_high) in
    let high = v.child_high in
    (omega (arith, moved, high), omega (arith, moved, high), omega (arith, moved, high))

-- The address `val` lies on the stack of 8192 bytes below `top`, the top included.
abbrev pub OnStack : ℕ → ℕ → Type 0
OnStack top val = (top ≤ val + 8192) × (val ≤ top)

-- The word `val` of the parent's stack has become `new`: an address of that stack has moved by the
-- distance between the stacks, any other word is the same.
abbrev pub Moved : ℕ → ℕ → ℕ → ℕ → Type 0
Moved parent_top child_top val new =
    (OnStack parent_top val × (new + parent_top ≡ val + child_top))
    ⊎ (¬ OnStack parent_top val × (new ≡ val))

relocate-Moved :
    (parent_top child_top val : ℕ)
    → AreApart parent_top child_top
    → Moved parent_top child_top val (relocate parent_top child_top val)
unfolding relocate
relocate-Moved parent_top child_top val v =
    elim (Bool-cases (leb parent_top (val + 8192) && leb val parent_top)) [
      | inl on ↦
          let lo : parent_top ≤ val + 8192 = ground (arith, on) in
          let hi : val ≤ parent_top = ground (arith, on) in
          inl ((lo, hi), (relocate_inside parent_top child_top val v lo hi).0)
      | inr off ↦
          inr (λ (lo, hi). absurd (ground (arith, off, lo, hi)), ground (arith, off, v.parent_high))
    ]

module _ {parent_top child_top : ℕ} (v : AreApart parent_top child_top) (w : ℕ → ℕ) where
  copy_stack-outside :
      (n a : ℕ)
      → (a + 8192 < child_top) ⊎ (child_top + 8 * n ≤ a + 8192)
      → copy_stack n parent_top child_top w a ≡ w a
  unfolding copy_stack
  copy_stack-outside zero a out = refl
  copy_stack-outside (suc n) a out =
      ground (arith, copy_stack-outside n a (omega (arith, out)), v.child_high)

  copy_stack-inside :
      (n i : ℕ)
      → n ≤ 1024
      → i < n
      → copy_stack n parent_top child_top w (child_top - 8192 + 8 * i)
        ≡ relocate parent_top child_top (w (parent_top - 8192 + 8 * i))
  unfolding copy_stack
  copy_stack-inside zero i most below = absurd (omega arith)
  copy_stack-inside (suc n) i most below =
      let source : copy_stack n parent_top child_top w (parent_top - 8192 + 8 * n)
          ≡ w (parent_top - 8192 + 8 * n) =
        copy_stack-outside n _ (omega (arith, v.apart, v.parent_high, v.child_high)) in
      elim (ℕ_discrete n i) [
        | yes last ↦ ground (arith, last, source)
        | no other ↦
            let elsewhere : child_top - 8192 + 8 * n ≢ child_top - 8192 + 8 * i =
              λ e. other (omega arith) in
            ground (arith, elsewhere, copy_stack-inside n i (omega arith) (omega arith))
      ]

-- If the stacks do not overlap: a word of the parent's stack that is an address of that stack, from
-- 8192 bytes below its top up to the top, stands on the child's stack as the address at the same
-- distance from the top of the child's, any other word stands there as it is, and the parent's stack
-- keeps its words.
pub copy_stack_faithful :
    {parent_top child_top : ℕ} (w : ℕ → ℕ) (i : ℕ)
    → AreApart parent_top child_top
    → i < 1024
    → Moved parent_top child_top
        (w (parent_top - 8192 + 8 * i))
        (copy_stack 1024 parent_top child_top w (child_top - 8192 + 8 * i))
      × (copy_stack 1024 parent_top child_top w (parent_top - 8192 + 8 * i)
          ≡ w (parent_top - 8192 + 8 * i))
copy_stack_faithful {parent_top} {child_top} w i v below = (
  subst (Moved parent_top child_top (w (parent_top - 8192 + 8 * i)))
      (sym (copy_stack-inside v w 1024 i (omega arith) below))
      (relocate-Moved parent_top child_top (w (parent_top - 8192 + 8 * i)) v),
  copy_stack-outside v w 1024 _ (omega (arith, v.apart, v.parent_high, v.child_high)),
)
