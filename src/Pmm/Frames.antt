-- ===== src/Pmm/Frames.antt =====
-- What the calls of pmm.c promise: the first free page, cleared; one owner of a page at a time.
use letsgo.Pmm.Bitmap.{IsBytes, test-set, set-IsBytes, test-clear, clear-IsBytes}
use letsgo.Base.{
  ℕ, ◌+◌, ◌-◌, ◌*◌, ◌/◌, ◌%◌, ◌≤◌, ◌<◌, ◌≡◌, refl, sym, ap, ◌∙◌, subst, ◌≢◌, ◌↔◌, ◌⊎◌, inl, inr,
  Bool, true, false, not, arith, ltb, ◌==◌, if◌then◌else◌, Option-cases, find_from, IsFirst,
  find_from-IsFirst, find_from-none,
}
use letsgo.Pmm.Defs.{
  Pmm, done, panics, pmm_alloc_frame, pmm_free_frame, bitmap_test, bitmap_set, bitmap_clear,
  clear_page, page_size, clear_bitmap, bitmap_bytes,
}

-- The bitmap is made of bytes, the first page is aligned, and the pages of the bitmap are in use:
-- a page of it holds the bits of 32768 pages.
pub record IsSane (s : Pmm) : Type 0 where
  pub bytes : IsBytes s.bitmap
  pub reserved : (j : ℕ) → j * 32768 < s.total_pages → bitmap_test s.bitmap j ≡ true
  pub aligned : s.page_start_addr % 4096 ≡ 0

abbrev pub page : Pmm → ℕ → ℕ
page s i = s.page_start_addr + i * page_size

-- The page `pa` goes from the free ones of `s` to the ones in use of `s'`, and is cleared.
pub record Allocated (s s' : Pmm) (pa i : ℕ) : Type 0 where
  pub address : pa ≡ page s i
  pub first : IsFirst (λ j. not (bitmap_test s.bitmap j)) s.total_pages 0 i
  pub bits : (j : ℕ) → bitmap_test s'.bitmap j ≡ (if i == j then true else bitmap_test s.bitmap j)
  pub cleared : (a : ℕ) → pa ≤ a → a < pa + page_size → s'.words a ≡ 0
  pub others : (a : ℕ) → (a < pa) ⊎ (pa + page_size ≤ a) → s'.words a ≡ s.words a
  pub same_total : s'.total_pages ≡ s.total_pages
  pub same_start : s'.page_start_addr ≡ s.page_start_addr
  pub sane : IsSane s'

pub done_inj : {A : Type 0} {a b : A} {s t : Pmm} → done a s ≡ done b t → (a ≡ b) × (s ≡ t)
done_inj e = (cc, cc)

pub panics_ne : {A : Type 0} {a : A} {s : Pmm} → panics ≢ done a s
panics_ne e = cc

taken : Pmm → ℕ → Pmm
taken s i = record s {
  bitmap = clear_bitmap s.total_pages i (bitmap_set s.bitmap i);
  words = clear_page s.words (page s i);
}

-- A page that is free holds no byte of the bitmap.
clear_bitmap_free :
    {s : Pmm} (i : ℕ) (b : ℕ → ℕ)
    → IsSane s
    → not (bitmap_test s.bitmap i) ≡ true
    → clear_bitmap s.total_pages i b ≡ b
clear_bitmap_free {s} i b v free =
    let out : s.total_pages ≤ i * 32768 = ground (arith, v.reserved i) in
    let off : ltb (i * page_size) (bitmap_bytes s.total_pages) ≡ false = ground (arith, out) in
    rw off refl

taken-Allocated :
    (s : Pmm) (i : ℕ)
    → IsSane s
    → IsFirst (λ j. not (bitmap_test s.bitmap j)) s.total_pages 0 i
    → Allocated s (taken s i) (page s i) i
unfolding taken
taken-Allocated s i v f = record {
  address = refl;
  first = f;
  bits = rw (clear_bitmap_free i (bitmap_set s.bitmap i) v f.passes) (test-set v.bytes i);
  cleared = λ a lo hi. ground arith;
  others = λ a out. ground arith;
  same_total = refl;
  same_start = refl;
  sane = record {
    bytes = rw (clear_bitmap_free i (bitmap_set s.bitmap i) v f.passes) (set-IsBytes v.bytes i);
    reserved = λ j h.
        rw (clear_bitmap_free i (bitmap_set s.bitmap i) v f.passes)
          (test-set v.bytes i j ∙ ground (arith, v.reserved j h));
    aligned = v.aligned;
  };
}

-- If the bitmap is made of bytes, the first page is aligned and the pages of the bitmap are in use, a
-- frame that `pmm_alloc_frame` returns is the free page with the lowest number: its bit is now
-- set and no other bit has changed, all its bytes are zero and no other byte has changed.
pub pmm_alloc_frame_first :
    (s : Pmm) {s' : Pmm} {pa : ℕ}
    → IsSane s
    → pmm_alloc_frame s ≡ done pa s'
    → (i : ℕ) × Allocated s s' pa i
unfolding pmm_alloc_frame taken
pmm_alloc_frame_first s {s'} {pa} v e =
    elim (Option-cases (find_from (λ j. not (bitmap_test s.bitmap j)) s.total_pages 0)) [
      | inl full ↦ absurd (panics_ne (rw (full, pmm_alloc_frame) at e))
      | inr (i, found) ↦
          let same = done_inj (rw (found, pmm_alloc_frame) at e) in
          (
            i,
            subst (λ t. Allocated s t pa i) same.1
                (subst (λ q. Allocated s (taken s i) q i) same.0
                  (taken-Allocated s i v (find_from-IsFirst _ _ _ found))),
          )
    ]

-- `pmm_alloc_frame` panics exactly when the bits of all the pages are set.
pub pmm_alloc_frame-panics_iff :
    (s : Pmm)
    → pmm_alloc_frame s ≡ panics ↔ ((j : ℕ) → j < s.total_pages → bitmap_test s.bitmap j ≡ true)
unfolding pmm_alloc_frame taken
pmm_alloc_frame-panics_iff s =
    let p : ℕ → Bool = λ j. not (bitmap_test s.bitmap j) in
    elim (Option-cases (find_from p s.total_pages 0)) [
      | inl full ↦ (
        λ e j b.
            ground (arith, find_from-none p s.total_pages 0 full j (omega arith) (omega arith)),
        λ h. rw (full, pmm_alloc_frame) refl,
      )
      | inr (i, found) ↦
          let f = find_from-IsFirst p s.total_pages 0 found in
          (
            λ e. absurd (
                panics_ne {A = ℕ} {a = page s i} {s = taken s i}
                  (sym e ∙ rw (found, pmm_alloc_frame) refl)),
            λ h. absurd (ground (arith, f.passes, h i (omega (arith, f.below)))),
          )
    ]

freed : Pmm → ℕ → Pmm
freed s i = record s { bitmap = bitmap_clear s.bitmap i }

index-page : (start i : ℕ) → (start + i * page_size - start) / page_size ≡ i
index-page start i = ground arith

pmm_free_frame-page :
    (s : Pmm) (i : ℕ)
    → s.page_start_addr % 4096 ≡ 0
    → i < s.total_pages
    → pmm_free_frame s (page s i)
      ≡ (if not (bitmap_test s.bitmap i) then panics else done tt (freed s i))
unfolding pmm_free_frame freed
pmm_free_frame-page s i a b = rw (index-page s.page_start_addr i) (ground arith)

unset_bit :
    (s s' : Pmm) (i j : ℕ)
    → not (bitmap_test s.bitmap i) ≡ true
    → bitmap_test s'.bitmap j ≡ (if i == j then true else bitmap_test s.bitmap j)
    → bitmap_test (bitmap_clear s'.bitmap i) j ≡ (if i == j then false else bitmap_test s'.bitmap j)
    → bitmap_test (bitmap_clear s'.bitmap i) j ≡ bitmap_test s.bitmap j
unset_bit s s' i j h a b = ground arith

-- If the bitmap is made of bytes, the first page is aligned and the pages of the bitmap are in use:
-- after `pmm_alloc_frame` has returned a frame, `pmm_free_frame` of it succeeds and leaves every
-- bit as it was before, and a second `pmm_free_frame` of it panics.
pub pmm_free_frame-pmm_alloc_frame :
    (s : Pmm) {s' : Pmm} {pa : ℕ}
    → IsSane s
    → pmm_alloc_frame s ≡ done pa s'
    → (s'' : Pmm) × (pmm_free_frame s' pa ≡ done tt s'')
      × ((j : ℕ) → bitmap_test s''.bitmap j ≡ bitmap_test s.bitmap j)
      × (pmm_free_frame s'' pa ≡ panics)
unfolding freed
pmm_free_frame-pmm_alloc_frame s {s'} {pa} v e =
    let (i, t) = pmm_alloc_frame_first s v e in
    let at : pa ≡ page s' i = ground (arith, t.address, t.same_start) in
    let b : i < s'.total_pages = omega (arith, t.first.below, t.same_total) in
    let back = test-clear t.sane.bytes i in
    let first_time = pmm_free_frame-page s' i t.sane.aligned b in
    let second_time = pmm_free_frame-page (freed s' i) i t.sane.aligned b in
    (
      freed s' i,
      rw at (first_time ∙ ground (arith, t.bits i)),
      λ j. unset_bit s s' i j t.first.passes (t.bits j) (back j),
      rw at (second_time ∙ ground (arith, back i)),
    )

-- Calls that return, none of which frees the page `pa` or a page of the bitmap.
pub data Calls (pa : ℕ) (s : Pmm) : Pmm → Type 0 where
  stop : Calls pa s s
  allocates : {t u : Pmm} (q : ℕ) → Calls pa s t → pmm_alloc_frame t ≡ done q u → Calls pa s u
  frees :
      {t u : Pmm} (q : ℕ)
      → Calls pa s t
      → q ≢ pa
      → ((j : ℕ) → j * 32768 < t.total_pages → q ≢ page t j)
      → pmm_free_frame t q ≡ done tt u
      → Calls pa s u

-- The page `pa` is in use.
pub record Busy (s : Pmm) (pa : ℕ) : Type 0 where
  pub index : ℕ
  pub at : pa ≡ page s index
  pub bit : bitmap_test s.bitmap index ≡ true
  pub sane : IsSane s

pub Allocated-Busy : {s s' : Pmm} {pa q i : ℕ} → Busy s pa → Allocated s s' q i → Busy s' pa
Allocated-Busy w t = record {
  index = w.index;
  at = ground (arith, w.at, t.same_start);
  bit = ground (arith, t.bits w.index, w.bit);
  sane = t.sane;
}

-- A page that `pmm_free_frame` frees is one of the pages, and in use.
record Freed (s s' : Pmm) (q : ℕ) : Type 0 where
  index : ℕ
  at : q ≡ page s index
  result : s' ≡ freed s index

pmm_free_frame-Freed :
    (s : Pmm) {s' : Pmm} (q : ℕ) → IsSane s → pmm_free_frame s q ≡ done tt s' → Freed s s' q
unfolding pmm_free_frame freed
pmm_free_frame-Freed s q v e = record {
  index = (q - s.page_start_addr) / page_size;
  at = ground (arith, v.aligned);
  result = ground arith;
}

page-ne : (s : Pmm) (i j : ℕ) → page s i ≢ page s j → i ≢ j
page-ne s i j n e = n (ap (page s) e)

Freed-Busy :
    {s s' : Pmm} {pa q : ℕ}
    → Busy s pa
    → q ≢ pa
    → ((j : ℕ) → j * 32768 < s.total_pages → q ≢ page s j)
    → Freed s s' q
    → Busy s' pa
unfolding freed
Freed-Busy {s} {s'} {pa} {q} w n off f =
    let apart : f.index ≢ w.index = page-ne s f.index w.index (λ e. n (f.at ∙ e ∙ sym w.at)) in
    subst (λ t. Busy t pa) (sym f.result)
      (record {
        index = w.index;
        at = w.at;
        bit = ground (arith, apart, test-clear w.sane.bytes f.index w.index, w.bit);
        sane = record {
          bytes = clear-IsBytes w.sane.bytes f.index;
          reserved = λ j h.
              let other : f.index ≢ j = page-ne s f.index j (λ e. off j h (f.at ∙ e)) in
              ground (arith, other, test-clear w.sane.bytes f.index j, w.sane.reserved j h);
          aligned = w.sane.aligned;
        };
      })

Calls-Busy : {pa : ℕ} {s t : Pmm} → Busy s pa → Calls pa s t → Busy t pa
Calls-Busy w stop = w
Calls-Busy w (allocates {t} q c e) =
    let before = Calls-Busy w c in Allocated-Busy before (pmm_alloc_frame_first t before.sane e).1
Calls-Busy w (frees {t} q c n off e) =
    let before = Calls-Busy w c in Freed-Busy before n off (pmm_free_frame-Freed t q before.sane e)

-- If the bitmap is made of bytes, the first page is aligned and the pages of the bitmap are in use, a
-- frame that `pmm_alloc_frame` has returned is not returned again as long as it is not freed,
-- whatever else is allocated and freed meanwhile, the pages of the bitmap not among the freed.
pub pmm_alloc_frame-exclusive :
    (s : Pmm) {s' t t' : Pmm} {pa : ℕ}
    → IsSane s
    → pmm_alloc_frame s ≡ done pa s'
    → Calls pa s' t
    → pmm_alloc_frame t ≢ done pa t'
pmm_alloc_frame-exclusive s {s'} {t} {t'} {pa} v e c again =
    let (i, a) = pmm_alloc_frame_first s v e in
    let w =
      Calls-Busy
        (record {
          index = i;
          at = ground (arith, a.address, a.same_start);
          bit = ground (arith, a.bits i);
          sane = a.sane;
        })
        c in
    let (j, b) = pmm_alloc_frame_first t w.sane again in
    let same : j ≡ w.index = omega (arith, b.address, w.at) in ground (arith, b.first.passes, w.bit)
