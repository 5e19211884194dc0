-- ===== src/Elf/Tests.antt =====
-- A segment of three bytes in a small file.
use letsgo.Base.{ℕ, ◌%◌, ◌==◌, if◌then◌else◌}
use letsgo.Pmm.Defs.{Pmm}
use letsgo.Elf.Defs.{Segment}
use letsgo.Elf.Image.{Image}

-- The page 1 is an empty table, and in use like the page 0.
abbrev memory : Pmm
memory = record {
  bitmap = λ i. if i == 0 then 3 else 0;
  total_pages = 16;
  page_start_addr = 0x80200000;
  words = λ a. 0;
}

abbrev root : ℕ
root = 0x80201000

abbrev three_bytes : Segment
three_bytes = record {
  p_type = 1;
  p_flags = 5;
  p_offset = 64;
  p_vaddr = 0x40000FFE;
  p_filesz = 3;
  p_memsz = 20;
}

abbrev file : ℕ → ℕ
file i = i % 256
