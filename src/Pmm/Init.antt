-- ===== src/Pmm/Init.antt =====
-- The bitmap that `pmm_init` of pmm.c leaves.
use letsgo.Base.{
  ℕ, zero, suc, ◌-◌, ◌*◌, ◌/◌, ◌%◌, ◌^◌, ◌<◌, bit_and, ◌≡◌, refl, ap, ◌∙◌, true, false, not, arith,
  ltb, ◌==◌, if◌then◌else◌,
}
use letsgo.Base.Bits.{table, table-row}
use letsgo.Pmm.Defs.{
  Pmm, pmm_init, set_below, zero_below, bitmap_bytes, bitmap_pages, bitmap_test, page_size,
}
use letsgo.Pmm.Bitmap.{IsBytes, set-IsBytes, test-set}
use letsgo.Pmm.Frames.{IsSane}

-- The bits of the pages below `n` are set, the others as before.
test-set_below :
    {b : ℕ → ℕ} (n j : ℕ)
    → IsBytes b
    → IsBytes (set_below n b)
      × (bitmap_test (set_below n b) j ≡ (if ltb j n then true else bitmap_test b j))
unfolding set_below
test-set_below zero j v = (v, ground arith)
test-set_below {b} (suc n) j v =
    let (bytes, rest) = test-set_below n j v in
    (set-IsBytes bytes n, test-set bytes n j ∙ ground (arith, rest))

unset : (b : ℕ → ℕ) (j : ℕ) → b (j / 8) ≡ 0 → bitmap_test b j ≡ false
unfolding bitmap_test table
unset b j e = rw e (ap not (table-row 8 (λ k. bit_and 0 (2 ^ k) == 0) (j % 8) refl (omega arith)))

byte-below : (n j : ℕ) → j < n → j / 8 < bitmap_bytes n
byte-below n j h = ground arith

-- The pages of the bitmap, rounded up, by the pages that they describe.
bitmap_pages_lem : (n j : ℕ) → ltb j (bitmap_pages n) ≡ ltb (j * 32768) n
bitmap_pages_lem n j = ground arith

pages-below : (n j : ℕ) → j * 32768 < n → j < n
pages-below n j h = omega arith

init-bit :
    (s : Pmm) (n j : ℕ)
    → IsBytes s.bitmap
    → j < n
    → IsBytes (set_below (bitmap_pages n) (zero_below (bitmap_bytes n) s.bitmap))
      × (bitmap_test (set_below (bitmap_pages n) (zero_below (bitmap_bytes n) s.bitmap)) j
          ≡ ltb (j * 32768) n)
init-bit s n j v b =
    let zeros : IsBytes (zero_below (bitmap_bytes n) s.bitmap) = λ k. ground (arith, v k) in
    let (bytes, bit) = test-set_below (bitmap_pages n) j zeros in
    let clear = unset (zero_below (bitmap_bytes n) s.bitmap) j (ground (arith, byte-below n j b)) in
    (bytes, bit ∙ ground (arith, clear, bitmap_pages_lem n j))

-- After `pmm_init` on an aligned range, the bitmap is made of bytes, the first page is aligned, and of
-- the pages exactly those are in use that the bitmap lies on, where a page of the bitmap holds the
-- bits of 32768 pages.
pub test-pmm_init :
    (s : Pmm) (mem_start mem_end j : ℕ)
    → IsBytes s.bitmap
    → mem_start % 4096 ≡ 0
    → j < (mem_end - mem_start) / page_size
    → IsSane (pmm_init s mem_start mem_end)
      × (bitmap_test (pmm_init s mem_start mem_end).bitmap j
          ≡ ltb (j * 32768) ((mem_end - mem_start) / page_size))
unfolding pmm_init
test-pmm_init s mem_start mem_end j v a b =
    let n = (mem_end - mem_start) / page_size in
    let (bytes, bit) = init-bit s n j v b in
    (
      record {
        bytes = bytes;
        reserved = λ k h. (init-bit s n k v (pages-below n k h)).1 ∙ ground (arith, h);
        aligned = a;
      },
      bit,
    )
