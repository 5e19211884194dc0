-- ===== src/Pmm/Defs.antt =====
-- The state and the functions of pmm.c. The bitmap is the memory at `page_start_addr`, byte by byte;
-- a page of it that is handed out is cleared like any other. The rest of the memory is the 64-bit
-- words at their addresses. The pages lie below 0x88000000, where the kernel can reach them.
use letsgo.Base.{
  ℕ, zero, suc, ◌+◌, ◌-◌, ◌*◌, ◌/◌, ◌%◌, ◌^◌, bit_and, bit_or, Bool, not, ◌&&◌, ◌||◌, none, some,
  ltb, leb, ◌==◌, if◌then◌else◌, update, find_from,
}

abbrev pub page_size : ℕ
page_size = 4096

pub record Pmm : Type 0 where
  pub bitmap : ℕ → ℕ
  pub total_pages : ℕ
  pub page_start_addr : ℕ
  pub words : ℕ → ℕ

-- A call that meets `panic` does not return.
pub data Result (A : Type 0) : Type 0 where
  done : A → Pmm → Result A
  panics : Result A

-- `1 << (idx % 8)`
abbrev pub mask : ℕ → ℕ
mask idx = 2 ^ (idx % 8)

-- `BITMAP_SET`, `BITMAP_CLEAR` and `BITMAP_TEST`. The bytes are `uint8_t`.
unfoldable pub bitmap_set : (ℕ → ℕ) → ℕ → ℕ → ℕ
bitmap_set b idx = update b (idx / 8) (bit_or (b (idx / 8)) (mask idx))

unfoldable pub bitmap_clear : (ℕ → ℕ) → ℕ → ℕ → ℕ
bitmap_clear b idx = update b (idx / 8) (bit_and (b (idx / 8)) (255 - mask idx))

unfoldable pub bitmap_test : (ℕ → ℕ) → ℕ → Bool
bitmap_test b idx = not (bit_and (b (idx / 8)) (mask idx) == 0)

-- `for (i = 0; i < n; i++) BITMAP_SET(i)`, from the last one down.
unfoldable pub set_below : ℕ → (ℕ → ℕ) → ℕ → ℕ
set_below zero b = b
set_below (suc n) b = bitmap_set (set_below n b) n

-- `for (i = 0; i < bitmap_bytes; i++) v_bitmap[i] = 0`
abbrev pub zero_below : ℕ → (ℕ → ℕ) → ℕ → ℕ
zero_below n b i = if ltb i n then 0 else b i

-- The bytes of a bitmap for `n` pages.
abbrev pub bitmap_bytes : ℕ → ℕ
bitmap_bytes n = if n % 8 == 0 then n / 8 else n / 8 + 1

abbrev pub bitmap_pages : ℕ → ℕ
bitmap_pages n = (bitmap_bytes n + page_size - 1) / page_size

unfoldable pub pmm_init : Pmm → ℕ → ℕ → Pmm
pmm_init s mem_start mem_end =
    let total = (mem_end - mem_start) / page_size in
    record s {
      total_pages = total;
      bitmap = set_below (bitmap_pages total) (zero_below (bitmap_bytes total) s.bitmap);
      page_start_addr = mem_start;
    }

-- The page at `pa` is cleared.
abbrev pub clear_page : (ℕ → ℕ) → ℕ → ℕ → ℕ
clear_page w pa a = if leb pa a && ltb a (pa + page_size) then 0 else w a

-- The bytes of the bitmap that lie on page `i`, which are cleared with it.
abbrev pub clear_bitmap : ℕ → ℕ → (ℕ → ℕ) → ℕ → ℕ
clear_bitmap n i b =
    if ltb (i * page_size) (bitmap_bytes n)
    then (λ k. if leb (i * page_size) k && ltb k ((i + 1) * page_size) then 0 else b k)
    else b

unfoldable pub pmm_alloc_frame : Pmm → Result ℕ
pmm_alloc_frame s = elim (find_from (λ i. not (bitmap_test s.bitmap i)) s.total_pages 0) [
  | none ↦ panics
  | some i ↦
      let pa = s.page_start_addr + i * page_size in
      done pa (record s {
        bitmap = clear_bitmap s.total_pages i (bitmap_set s.bitmap i);
        words = clear_page s.words pa;
      })
]

unfoldable pub pmm_free_frame : Pmm → ℕ → Result (Unit {0})
pmm_free_frame s addr =
    let idx = (addr - s.page_start_addr) / page_size in
    if ltb addr s.page_start_addr || leb (s.page_start_addr + s.total_pages * page_size) addr
    then panics
    else if not (addr % page_size == 0)
    then panics
    else if not (bitmap_test s.bitmap idx)
    then panics
    else done tt (record s { bitmap = bitmap_clear s.bitmap idx })
