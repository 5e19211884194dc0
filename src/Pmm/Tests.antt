-- ===== src/Pmm/Tests.antt =====
-- The allocator of pages with a memory of 16 pages.
use letsgo.Base.{
  ℕ, ◌*◌, ◌<◌, ◌≡◌, refl, ◌≢◌, ◌↔◌, true, arith, ltb, ◌==◌, if◌then◌else◌, update, find_from,
}
use letsgo.Pmm.Defs.{
  Pmm, done, panics, pmm_init, pmm_alloc_frame, pmm_free_frame, bitmap_test, bitmap_set, clear_page,
}
use letsgo.Pmm.Init.{test-pmm_init}
use letsgo.Pmm.Frames.{
  IsSane, Allocated, pmm_alloc_frame_first, pmm_alloc_frame-panics_iff,
  pmm_free_frame-pmm_alloc_frame, pmm_alloc_frame-exclusive, Calls,
}

abbrev raw : Pmm
raw = record { bitmap = λ i. 255; total_pages = 0; page_start_addr = 0; words = λ a. 7 }

-- The first page is in use.
abbrev small : Pmm
small = record {
  bitmap = λ i. if i == 0 then 1 else 0;
  total_pages = 16;
  page_start_addr = 0x80200000;
  words = λ a. 7;
}

abbrev small_taken : Pmm
small_taken = record small {
  bitmap = update small.bitmap 0 3;
  words = clear_page small.words 0x80201000;
}

page-zero : (j : ℕ) → j * 32768 < 16 → j ≡ 0
page-zero j h = omega arith

small-IsSane : IsSane small
unfolding bitmap_test
small-IsSane = record {
  bytes = λ k. ground arith;
  reserved = λ j h. rw (page-zero j h) refl;
  aligned = refl;
}

first_frame : pmm_alloc_frame small ≡ done 0x80201000 small_taken
unfolding pmm_alloc_frame bitmap_test bitmap_set find_from
first_frame = refl

pmm_alloc_frame_first_example : (i : ℕ) × Allocated small small_taken 0x80201000 i
pmm_alloc_frame_first_example = pmm_alloc_frame_first small small-IsSane first_frame

pmm_alloc_frame-panics_iff_example :
    pmm_alloc_frame small ≡ panics ↔ ((j : ℕ) → j < 16 → bitmap_test small.bitmap j ≡ true)
pmm_alloc_frame-panics_iff_example = pmm_alloc_frame-panics_iff small

pmm_free_frame-pmm_alloc_frame_example :
    (s : Pmm) × (pmm_free_frame small_taken 0x80201000 ≡ done tt s)
    × ((j : ℕ) → bitmap_test s.bitmap j ≡ bitmap_test small.bitmap j)
    × (pmm_free_frame s 0x80201000 ≡ panics)
pmm_free_frame-pmm_alloc_frame_example =
    pmm_free_frame-pmm_alloc_frame small small-IsSane first_frame

pmm_alloc_frame-exclusive_example : pmm_alloc_frame small_taken ≢ done 0x80201000 small
pmm_alloc_frame-exclusive_example =
    pmm_alloc_frame-exclusive small {t' = small} small-IsSane first_frame Calls.stop

test-pmm_init_example :
    IsSane (pmm_init raw 0x80200000 0x80210000)
    × (bitmap_test (pmm_init raw 0x80200000 0x80210000).bitmap 1 ≡ ltb (1 * 32768) 16)
test-pmm_init_example =
    test-pmm_init raw 0x80200000 0x80210000 1 (λ k. omega arith) refl (omega arith)
