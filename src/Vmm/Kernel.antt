-- ===== src/Vmm/Kernel.antt =====
-- The page table that `vmm_init` of vmm.c builds.
use letsgo.Base.{
  ℕ, zero, suc, ◌+◌, ◌*◌, ◌%◌, ◌^◌, ◌≤◌, ◌<◌, ◌≡◌, refl, sym, ◌∙◌, subst, Bool, true, ◌&&◌, arith,
  ltb, leb, ◌==◌, if◌then◌else◌,
}
use letsgo.Pmm.Defs.{Pmm, Result, done, panics, pmm_alloc_frame}
use letsgo.Pmm.Frames.{IsSane, pmm_alloc_frame_first, Busy}
use letsgo.Vmm.Defs.{is_leaf, vmm_map_page, vmm_lookup_page, map_range, and_then, vmm_init}
use letsgo.Vmm.Grow.{IsMapped}
use letsgo.Vmm.Fresh.{
  IsEmpty-IsTree, IsEmpty-Owns, IsEmpty-lookup, new-aligned, new-IsEmpty, new-Busy,
}
use letsgo.Vmm.Refine.{page_number, vmm_map_page_refines}

-- A call that does not panic ends in a state with `P`.
unfoldable pub Ensures : {A : Type 0} → Result A → (A → Pmm → Type 0) → Type 0
Ensures panics P = Unit
Ensures (done a s) P = P a s

pub Ensures-and_then :
    {A B : Type 0} {P : A → Pmm → Type 0} (Q : B → Pmm → Type 0) (m : Result A)
    (f : A → Pmm → Result B)
    → Ensures m P
    → ((a : A) (s : Pmm) → P a s → Ensures (f a s) Q)
    → Ensures (and_then m f) Q
unfolding Ensures and_then
Ensures-and_then Q panics f p k = tt
Ensures-and_then Q (done a s) f p k = k a s p

pub Ensures-map :
    {A : Type 0} {P : A → Pmm → Type 0} (Q : A → Pmm → Type 0) (m : Result A)
    → ((a : A) (s : Pmm) → P a s → Q a s)
    → Ensures m P
    → Ensures m Q
unfolding Ensures
Ensures-map Q panics k p = tt
Ensures-map Q (done a s) k p = k a s p

-- A new frame is an empty table, in which nothing is found.
pub new_table :
    (s : Pmm)
    → IsSane s
    → Ensures
        (pmm_alloc_frame s)
        (λ t r. IsMapped 2 r t × ((va : ℕ) → vmm_lookup_page r.words t va ≡ 0))
unfolding Ensures vmm_lookup_page
new_table s v = go (pmm_alloc_frame s) refl
  where
    go :
        (m : Result ℕ)
        → pmm_alloc_frame s ≡ m
        → Ensures m (λ t r. IsMapped 2 r t × ((va : ℕ) → vmm_lookup_page r.words t va ≡ 0))
    go panics e = tt
    go (done t r) e =
        let (i, al) = pmm_alloc_frame_first s v e in
        let zeros = new-IsEmpty v al in
        (
          record {
            tree = IsEmpty-IsTree 2 r.words t (new-aligned v al) zeros;
            busy = λ a o. subst (Busy r) (sym (IsEmpty-Owns 2 r.words t a zeros o)) (new-Busy v al);
          },
          λ va. IsEmpty-lookup 2 r.words t va zeros,
        )

-- Every address of the pages `from` to `from + n` is mapped to itself.
abbrev in_range : ℕ → ℕ → ℕ → Bool
in_range from n va = leb from (page_number va) && ltb (page_number va) (from + n)

abbrev Look : Type 0
Look = ℕ → ℕ

-- The lookups are `f`, in a tree in pages in use.
record Shows (table : ℕ) (f : Look) (s : Pmm) : Type 0 where
  mapped : IsMapped 2 s table
  finds : (va : ℕ) → vmm_lookup_page s.words table va ≡ f va

-- The map `f`, with the page `p` mapped to itself.
abbrev with_page : ℕ → Look → Look
with_page p f va = if p == page_number va then p * 4096 + va % 4096 else f va

abbrev with_range : ℕ → ℕ → Look → Look
with_range from n f va = if in_range from n va then page_number va * 4096 + va % 4096 else f va

longer :
    (n from : ℕ) (f : Look) (va : ℕ)
    → with_range (suc from) n (with_page from f) va ≡ with_range from (suc n) f va
longer n from f va = ground arith

module _ (table flags : ℕ) (small : flags < 1024) (leaf : is_leaf flags ≡ true) where
  map-Shows :
      (s : Pmm) (p : ℕ) (f : Look)
      → Shows table f s
      → p < 2 ^ 27
      → Ensures
          (vmm_map_page s table (p * 4096) (p * 4096) flags)
          (λ u r. Shows table (with_page p f) r)
  unfolding Ensures
  map-Shows s p f v b = go (vmm_map_page s table (p * 4096) (p * 4096) flags) refl
    where
      go :
          (m : Result (Unit {0}))
          → vmm_map_page s table (p * 4096) (p * 4096) flags ≡ m
          → Ensures m (λ u r. Shows table (with_page p f) r)
      go panics e = tt
      go (done tt r) e =
          let (m, l) =
            vmm_map_page_refines s table (p * 4096) (p * 4096) flags v.mapped small leaf
              (omega arith) e in
          record { mapped = m; finds = λ va. l va ∙ ground (arith, v.finds va) }

  range-step :
      (n from : ℕ) (f : Look) (Q : Pmm → Type 0) (m : Result (Unit {0}))
      → Ensures m (λ u r. Shows table f r)
      → ((r : Pmm) → Shows table f r → Ensures (map_range n r table from flags) (λ u r'. Q r'))
      → Ensures
          (elim m [ panics ↦ panics | done u r ↦ map_range n r table from flags ])
          (λ u r'. Q r')
  unfolding Ensures
  range-step n from f Q panics p ih = tt
  range-step n from f Q (done u r) p ih = ih r p

  range-Shows :
      (n : ℕ) (s : Pmm) (from : ℕ) (f : Look)
      → Shows table f s
      → from + n ≤ 2 ^ 27
      → Ensures
          (map_range n s table (from * 4096) flags)
          (λ u r. Shows table (with_range from n f) r)
  unfolding map_range Ensures
  range-Shows zero s from f v b = record {
    mapped = v.mapped;
    finds = λ va. v.finds va ∙ ground arith;
  }
  range-Shows (suc n) s from f v b =
      range-step n (from * 4096 + 4096) (with_page from f)
        (λ r. Shows table (with_range from (suc n) f) r)
        (vmm_map_page s table (from * 4096) (from * 4096) flags)
        (map-Shows s from f v (omega arith))
        (λ r w.
          Ensures-map (λ u q. Shows table (with_range from (suc n) f) q) _
            (λ u q x. record { mapped = x.mapped; finds = λ va. x.finds va ∙ longer n from f va })
            (subst
              (λ a.
                Ensures (map_range n r table a flags)
                  (λ u q. Shows table (with_range (suc from) n (with_page from f)) q))
              (omega arith) (range-Shows n r (suc from) (with_page from f) w (omega arith))))

-- The map after `vmm_init`: device pages and memory, each page to itself.
abbrev kernel_map : Look
kernel_map =
    with_range 0x80000 0x8000
      (with_page 0x0C201 (with_page 0x0C002 (with_page 0x0C000 (with_page 0x10000 (λ va. 0)))))

-- If it does not panic, `vmm_init` builds a tree of tables in which the pages of the UART, of
-- the interrupt controller and of the memory from 0x80000000 to 0x88000000 are mapped to themselves,
-- and nothing else is mapped.
vmm_init_map : (s : Pmm) → IsSane s → Ensures (vmm_init s) (λ table r. Shows table kernel_map r)
unfolding vmm_init Ensures
vmm_init_map s v = Ensures-and_then _ (pmm_alloc_frame s) _ (new_table s v) (λ table s0 (m, z).
    let d0 : Shows table (λ va. 0) s0 = record { mapped = m; finds = z } in
    let page = map-Shows table 6 (omega arith) refl in
    Ensures-and_then _ _ _ (page s0 0x10000 (λ va. 0) d0 (omega arith)) (λ u1 s1 d1.
      Ensures-and_then _ _ _ (page s1 0x0C000 _ d1 (omega arith)) (λ u2 s2 d2.
        Ensures-and_then _ _ _ (page s2 0x0C002 _ d2 (omega arith)) (λ u3 s3 d3.
          Ensures-and_then _ _ _ (page s3 0x0C201 _ d3 (omega arith)) (λ u4 s4 d4.
            Ensures-and_then _ _ _
              (range-Shows table 14 (omega arith) refl 0x8000 s4 0x80000 _ d4 (omega arith))
              (λ u5 s5 d5. d5))))))
