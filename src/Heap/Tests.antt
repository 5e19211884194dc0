-- ===== src/Heap/Tests.antt =====
-- A heap with one free block.
use letsgo.Pmm.Defs.{Pmm}
use letsgo.Heap.Defs.{Heap, no_blocks, add_block}

abbrev pages : Pmm
pages = record { bitmap = λ i. 0; total_pages = 16; page_start_addr = 0x80200000; words = λ a. 0 }

abbrev one_page : Heap
one_page = add_block no_blocks 4096
