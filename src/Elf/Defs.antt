-- ===== src/Elf/Defs.antt =====
-- The functions of elf.c. A file is its bytes by their offset.
use letsgo.Base.{
  ℕ, zero, suc, ◌+◌, ◌-◌, ◌*◌, ◌/◌, ◌%◌, ◌^◌, Bool, not, ◌&&◌, Option, none, some, ltb, ◌==◌,
  if◌then◌else◌,
}
use letsgo.Base.Int.{u64}
use letsgo.Pmm.Defs.{Pmm, Result, done, pmm_alloc_frame, page_size}
use letsgo.Vmm.Defs.{vmm_map_page, and_then, pte_r, pte_w, pte_x, pte_u}
use letsgo.Elf.Bytes.{read_le, put_bytes}

-- `Elf64_Phdr`, with the fields that are used.
pub record Segment : Type 0 where
  pub p_type : ℕ
  pub p_flags : ℕ
  pub p_offset : ℕ
  pub p_vaddr : ℕ
  pub p_filesz : ℕ
  pub p_memsz : ℕ

abbrev pub pt_load : ℕ
pt_load = 1

-- `sizeof(Elf64_Phdr)`
abbrev pub phdr_size : ℕ
phdr_size = 56

-- Fields of `Elf64_Ehdr`.
unfoldable pub e_entry : (ℕ → ℕ) → ℕ
e_entry file = read_le 8 file 24

unfoldable pub e_phoff : (ℕ → ℕ) → ℕ
e_phoff file = read_le 8 file 32

unfoldable pub e_phnum : (ℕ → ℕ) → ℕ
e_phnum file = read_le 2 file 56

-- `phdr[i]`
unfoldable pub segment : (ℕ → ℕ) → ℕ → Segment
segment file i =
    let at = e_phoff file + phdr_size * i in
    record {
      p_type = read_le 4 file at;
      p_flags = read_le 4 file (at + 4);
      p_offset = read_le 8 file (at + 8);
      p_vaddr = read_le 8 file (at + 16);
      p_filesz = read_le 8 file (at + 32);
      p_memsz = read_le 8 file (at + 40);
    }

-- 0x7F, 'E', 'L', 'F'
abbrev pub has_magic : (ℕ → ℕ) → Bool
has_magic file = file 0 == 0x7F && file 1 == 69 && file 2 == 76 && file 3 == 70

-- The entry, or none for the result -1. The stack that it names is not used.
unfoldable pub load_elf : (ℕ → ℕ) → Option ℕ
load_elf file = if has_magic file then some (e_entry file % 2 ^ 32) else none

abbrev pub perm : Segment → ℕ
perm g =
    pte_u
    + (if g.p_flags % 2 == 1 then pte_x else 0)
    + (if g.p_flags / 2 % 2 == 1 then pte_w else 0)
    + (if g.p_flags / 4 % 2 == 1 then pte_r else 0)

abbrev pub va_start : Segment → ℕ
va_start g = g.p_vaddr / 4096 * 4096

abbrev pub va_end : Segment → ℕ
va_end g = u64 (g.p_vaddr + g.p_memsz + 0xFFF) / 4096 * 4096

-- The part of the file that goes into the page at `va`, from `copy_start` to `copy_end`.
abbrev pub copy_start : Segment → ℕ → ℕ
copy_start g va = if ltb g.p_vaddr va then va else g.p_vaddr

abbrev pub copy_end : Segment → ℕ → ℕ
copy_end g va =
    let stop = u64 (g.p_vaddr + g.p_filesz) in
    if ltb (u64 (va + page_size)) stop then u64 (va + page_size) else stop

unfoldable pub fill_page : (ℕ → ℕ) → (ℕ → ℕ) → Segment → ℕ → ℕ → ℕ → ℕ
fill_page w file g va pa =
    let from = copy_start g va in
    let to = copy_end g va in
    if ltb from to
    then put_bytes (to - from) w (pa + (from - va))
        (λ i. file (u64 (g.p_offset + (from - g.p_vaddr)) + i))
    else w

-- The inner loop, with `n` pages to go from `va` on.
unfoldable pub load_pages : ℕ → Pmm → ℕ → (ℕ → ℕ) → Segment → ℕ → Result (Unit {0})
load_pages zero s pagetable file g va = done tt s
load_pages (suc n) s pagetable file g va = and_then (pmm_alloc_frame s) (λ page t.
    and_then (vmm_map_page t pagetable va page (perm g)) (λ u r.
      load_pages n (record r { words = fill_page r.words file g va page }) pagetable file g
        (va + page_size)))

unfoldable pub load_segment : Pmm → ℕ → (ℕ → ℕ) → Segment → Result (Unit {0})
load_segment s pagetable file g =
    if not (g.p_type == pt_load)
    then done tt s
    else load_pages ((va_end g - va_start g) / page_size) s pagetable file g (va_start g)

-- The outer loop, with `n` segments to go from the number `i` on.
unfoldable pub load_segments : ℕ → Pmm → ℕ → (ℕ → ℕ) → ℕ → Result (Unit {0})
load_segments zero s pagetable file i = done tt s
load_segments (suc n) s pagetable file i =
    and_then (load_segment s pagetable file (segment file i))
      (λ u t. load_segments n t pagetable file (i + 1))

unfoldable pub load_elf_map : Pmm → ℕ → (ℕ → ℕ) → Result (Unit {0})
load_elf_map s pagetable file = load_segments (e_phnum file) s pagetable file 0
