-- ===== src/Vmm/Fresh.antt =====
-- New pages: an empty page as a table, and that a new frame leaves the pages in use as they are.
use letsgo.Base.{
  ℕ, zero, suc, ◌+◌, ◌*◌, ◌%◌, ◌<◌, ◌≡◌, ap, ◌∙◌, ◌≢◌, inl, inr, arith, dec_lt, update,
}
use letsgo.Pmm.Defs.{Pmm}
use letsgo.Pmm.Frames.{Busy, Allocated, IsSane}
use letsgo.Vmm.Defs.{lookup_from, vpn, is_valid}
use letsgo.Vmm.Entry.{Inner}
use letsgo.Vmm.Tree.{Owns, IsTree, Agree, entry, lookup-resolve, resolve-invalid, Inner-eq, vpn-lt}

-- A page of zeros.
abbrev pub IsEmpty : (ℕ → ℕ) → ℕ → Type 0
IsEmpty w t = (k : ℕ) → k < 512 → entry w t k ≡ 0

zero-Inner : {x : ℕ} → x ≡ 0 → ¬ Inner x
zero-Inner e i = let i0 = Inner-eq e i in ground (arith, i0)

pub IsEmpty-Owns : (l : ℕ) (w : ℕ → ℕ) (t a : ℕ) → IsEmpty w t → Owns l w t a → a ≡ t
unfolding Owns
IsEmpty-Owns zero w t a z o = o
IsEmpty-Owns (suc l) w t a z (inl e) = e
IsEmpty-Owns (suc l) w t a z (inr (k, b, i, o)) = absurd (zero-Inner (z k b) i)

pub IsEmpty-IsTree : (l : ℕ) (w : ℕ → ℕ) (t : ℕ) → t % 4096 ≡ 0 → IsEmpty w t → IsTree l w t
unfolding IsTree
IsEmpty-IsTree zero w t a z = a
IsEmpty-IsTree (suc l) w t a z = record {
  aligned = a;
  below = λ k b i. absurd (zero-Inner (z k b) i);
  apart = λ k b i o. zero-Inner (z k b) i;
  disjoint = λ j k p bj bk n ij ik oj ok. zero-Inner (z j bj) ij;
}

pub IsEmpty-lookup : (l : ℕ) (w : ℕ → ℕ) (t va : ℕ) → IsEmpty w t → lookup_from (suc l) w t va ≡ 0
IsEmpty-lookup l w t va z =
    lookup-resolve l w t va
    ∙ resolve-invalid l w (entry w t (vpn va l)) va
        (ap (λ e. is_valid e) (z (vpn va l) (vpn-lt va l)))

pub Busy-aligned : {s : Pmm} {a : ℕ} → Busy s a → a % 4096 ≡ 0
Busy-aligned w = omega (arith, w.at, w.sane.aligned)

-- A new frame is none of the pages in use, and leaves them as they are.
module _ {s s' : Pmm} {new i : ℕ} (sane : IsSane s) (t : Allocated s s' new i) where
  pub new-aligned : new % 4096 ≡ 0
  new-aligned = omega (arith, t.address, sane.aligned)

  pub Busy-ne-new : (a : ℕ) → Busy s a → a ≢ new
  Busy-ne-new a w e =
      let same : w.index ≡ i = omega (arith, e, w.at, t.address) in
      ground (arith, t.first.passes, w.bit, same)

  pub Busy-Agree : (a : ℕ) → Busy s a → Agree s.words s'.words a
  Busy-Agree a w k b =
      let apart = Busy-ne-new a w in
      t.others (a + 8 * k) (elim (dec_lt (a + 8 * k) new) [
        | yes lower ↦ inl lower
        | no above ↦ inr (omega (arith, apart, Busy-aligned w, new-aligned))
      ])

  pub new-IsEmpty : IsEmpty s'.words new
  new-IsEmpty k b = t.cleared (new + 8 * k) (omega arith) (omega arith)

  pub new-Busy : Busy s' new
  new-Busy = record {
    index = i;
    at = ground (arith, t.address, t.same_start);
    bit = ground (arith, t.bits i);
    sane = t.sane;
  }

-- A word is written in one page; the others keep theirs.
pub update-Agree :
    (w : ℕ → ℕ) (t k v a : ℕ)
    → t % 4096 ≡ 0
    → a % 4096 ≡ 0
    → k < 512
    → a ≢ t
    → Agree w (update w (t + 8 * k) v) a
update-Agree w t k v a ta aa b n j bj =
    let away : t + 8 * k ≢ a + 8 * j = λ e. n (omega arith) in ground (arith, away)
