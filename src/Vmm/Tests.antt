-- ===== src/Vmm/Tests.antt =====
-- A page table with one page of 1 GB, for the memory from 0x80000000 on.
use letsgo.Vmm.Fresh.{IsEmpty-IsTree, IsEmpty-Owns}
use letsgo.Vmm.Grow.{IsMapped}
use letsgo.Pmm.Frames.{IsSane, Busy}
use letsgo.Base.{
  ℕ, ◌+◌, ◌*◌, ◌/◌, ◌%◌, ◌<◌, ◌≡◌, refl, sym, subst, arith, ◌==◌, if◌then◌else◌, find_from,
}
use letsgo.Pmm.Defs.{Pmm, panics, bitmap_test, pmm_alloc_frame, bitmap_set, done}
use letsgo.Vmm.Defs.{vmm_map_page, vmm_lookup_page, lookup_from, map_from, next_table, set_leaf}
use letsgo.Vmm.Refine.{vmm_map_page_refines, page_number}
use letsgo.Vmm.Mapping.{vmm_map_page-mapped}

abbrev mapped : Pmm
mapped = record {
  bitmap = λ i. 0;
  total_pages = 16;
  page_start_addr = 0x80200000;
  words = λ a. if a == 0x80300010 then 0x200000CF else 0;
}

found : vmm_lookup_page mapped.words 0x80300000 0x80000123 ≡ 0x80000123
unfolding vmm_lookup_page lookup_from
found = refl

vmm_map_page-mapped_example : vmm_map_page mapped 0x80300000 0x80000123 0x80201000 6 ≡ panics
vmm_map_page-mapped_example =
    vmm_map_page-mapped mapped 0x80300000 0x80000123 0x80201000 6 (λ e. ground (arith, found))

-- The page 1 is an empty table, and in use like the page 0.
abbrev blank : Pmm
blank = record {
  bitmap = λ i. if i == 0 then 3 else 0;
  total_pages = 16;
  page_start_addr = 0x80200000;
  words = λ a. 0;
}

abbrev root : ℕ
root = 0x80201000

page-zero : (j : ℕ) → j * 32768 < 16 → j ≡ 0
page-zero j h = omega arith

blank-IsSane : IsSane blank
unfolding bitmap_test
blank-IsSane = record {
  bytes = λ k. ground arith;
  reserved = λ j h. rw (page-zero j h) refl;
  aligned = refl;
}

blank-IsMapped : IsMapped 2 blank root
unfolding bitmap_test
blank-IsMapped = record {
  tree = IsEmpty-IsTree 2 blank.words root refl (λ k b. refl);
  busy = λ a o.
      subst (Busy blank) (sym (IsEmpty-Owns 2 blank.words root a (λ k b. refl) o))
        (record { index = 1; at = refl; bit = refl; sane = blank-IsSane });
}

-- The table after the page at 0x400000 has been mapped to the frame 0x80208000 for a user.
filled : Pmm
unfolding vmm_map_page map_from next_table set_leaf pmm_alloc_frame bitmap_test bitmap_set find_from
filled = elim (vmm_map_page blank root 0x400000 0x80208000 30) [ panics ↦ blank | done u s ↦ s ]

maps : vmm_map_page blank root 0x400000 0x80208000 30 ≡ done tt filled
unfolding filled vmm_map_page map_from next_table set_leaf pmm_alloc_frame bitmap_test bitmap_set
    find_from
maps = refl

vmm_map_page_refines_example :
    IsMapped 2 filled root
    × ((va : ℕ)
        → vmm_lookup_page filled.words root va ≡ (
            if page_number 0x400000 == page_number va
            then 0x80208000 / 4096 * 4096 + va % 4096
            else vmm_lookup_page blank.words root va))
vmm_map_page_refines_example =
    vmm_map_page_refines blank root 0x400000 0x80208000 30 blank-IsMapped (omega arith) refl
      (omega arith) maps
