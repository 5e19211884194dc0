-- ===== src/Heap/Defs.antt =====
-- The state and the functions of heap.c. The fields of `struct block_header` are functions of the
-- address of the block; the address 0 is NULL. The sums of sizes wrap at 2 ^ 64 as in the code.
use letsgo.Base.{
  ℕ, zero, suc, ◌+◌, ◌-◌, ◌*◌, ◌/◌, Bool, true, false, ◌&&◌, Option, none, some, leb, ◌==◌,
  if◌then◌else◌, update,
}
use letsgo.Base.Int.{u64}
use letsgo.Pmm.Defs.{Pmm, Result, done, panics, pmm_alloc_frame, page_size}
use letsgo.Vmm.Defs.{vmm_map_page, pte_r, pte_w}

pub record Heap : Type 0 where
  pub size : ℕ → ℕ
  pub is_free : ℕ → Bool
  pub next : ℕ → ℕ
  pub free_list : ℕ
  pub current_heap_end : ℕ

abbrev pub heap_start_va : ℕ
heap_start_va = 0xC0000000

-- `sizeof(struct block_header)`: 8 bytes, 4 and 4 of padding, 8.
abbrev pub header_size : ℕ
header_size = 24

-- The state at the start of the program.
abbrev pub no_blocks : Heap
no_blocks = record {
  size = λ b. 0;
  is_free = λ b. false;
  next = λ b. 0;
  free_list = 0;
  current_heap_end = heap_start_va;
}

abbrev pub pages_needed : ℕ → ℕ
pages_needed size = u64 (size + page_size - 1) / page_size

-- The loop of `expand_heap`, with the `n` pages from `va` on.
unfoldable pub map_pages : ℕ → Pmm → ℕ → ℕ → Result (Unit {0})
map_pages zero s pagetable va = done tt s
map_pages (suc n) s pagetable va = elim (pmm_alloc_frame s) [
  | panics ↦ panics
  | done pa s' ↦ elim (vmm_map_page s' pagetable va pa (pte_r + pte_w)) [
    | panics ↦ panics
    | done u s'' ↦ map_pages n s'' pagetable (va + page_size)
  ]
]

-- The block that the new pages make, in front of the list.
abbrev pub add_block : Heap → ℕ → Heap
add_block h size =
    let start_va = h.current_heap_end in
    record h {
      size = update h.size start_va (pages_needed size * page_size);
      is_free = update h.is_free start_va true;
      next = update h.next start_va h.free_list;
      free_list = start_va;
      current_heap_end = start_va + pages_needed size * page_size;
    }

-- When the number of pages wraps to 0, the header of the block falls on an unmapped address of the
-- kernel, and the fault ends in `panic`.
unfoldable pub expand_heap : Heap → Pmm → ℕ → ℕ → Result Heap
expand_heap h s pagetable size =
    if pages_needed size == 0
    then panics
    else elim (map_pages (pages_needed size) s pagetable h.current_heap_end) [
      | panics ↦ panics
      | done u s' ↦ done (add_block h size) s'
    ]

unfoldable pub heap_init : Heap → Pmm → ℕ → Result Heap
heap_init h s pagetable = expand_heap h s pagetable page_size

-- `((size + 7) & ~7) + sizeof(struct block_header)`
abbrev pub total_size : ℕ → ℕ
total_size size = u64 (u64 (size + 7) / 8 * 8 + header_size)

-- `curr->is_free && curr->size >= total_size`
abbrev pub fits : Heap → ℕ → ℕ → Bool
fits h total curr = h.is_free curr && leb total (h.size curr)

-- The loop of `kmalloc` over the list from `curr` on.
unfoldable pub walk : ℕ → Heap → ℕ → ℕ → Option ℕ
walk zero h total curr = none
walk (suc fuel) h total curr =
    let rest = walk fuel h total (h.next curr) in
    if curr == 0 then none else if fits h total curr then some curr else rest

-- A block with room for another one is cut in two.
unfoldable pub split : Heap → ℕ → ℕ → Heap
split h total curr =
    let new_block = curr + total in
    if leb (u64 (total + header_size + 8)) (h.size curr)
    then record h {
      size = update (update h.size new_block (h.size curr - total)) curr total;
      is_free = update h.is_free new_block true;
      next = update (update h.next new_block (h.next curr)) curr new_block;
    }
    else h

-- The block is marked, and the address behind its header is the result.
unfoldable pub occupy : Heap → ℕ → ℕ → ℕ × Heap
occupy h total curr =
    let cut = split h total curr in
    (curr + header_size, record cut { is_free = update cut.is_free curr false })

abbrev pub occupied : Heap → ℕ → Option ℕ → Option (ℕ × Heap)
occupied h total none = none
occupied h total (some curr) = some (occupy h total curr)

-- `kmalloc`; the argument `fuel` bounds the walks, one more than the blocks is enough. When the
-- walk finds nothing, the second one starts at the block that `expand_heap` has added.
unfoldable pub kmalloc : ℕ → Heap → Pmm → ℕ → ℕ → Result (Option (ℕ × Heap))
kmalloc fuel h s pagetable size =
    if size == 0 then done (some (0, h)) s else elim (walk fuel h (total_size size) h.free_list) [
      | some curr ↦ done (some (occupy h (total_size size) curr)) s
      | none ↦ elim (expand_heap h s pagetable (total_size size)) [
        | panics ↦ panics
        | done h' s' ↦
            done (occupied h' (total_size size) (walk fuel h' (total_size size) h'.free_list)) s'
      ]
    ]

unfoldable pub kfree : Heap → ℕ → Heap
kfree h ptr =
    if ptr == 0 then h else record h { is_free = update h.is_free (ptr - header_size) true }
