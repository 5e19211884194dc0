-- ===== src/Elf/Image.antt =====
-- What a program finds in its memory after `load_elf_map` has mapped a segment.
use letsgo.Base.{ℕ, ◌^◌, ◌≤◌, ◌<◌, ◌≡◌, ◌⊎◌}
use letsgo.Pmm.Defs.{Pmm}
use letsgo.Pmm.Frames.{Busy}
use letsgo.Vmm.Defs.{vmm_lookup_page}
use letsgo.Vmm.Tree.{Owns, Agree}
use letsgo.Elf.Bytes.{get_byte}
use letsgo.Elf.Defs.{Segment}
use letsgo.Elf.Page.{wanted}
use letsgo.Elf.Step.{IsSpace}

-- From `s` to `r`: at the addresses from `va` up to `stop` the program finds the bytes that the file
-- gives, and behind those zeros. Every other address below 2^39 leads where it did, and every page in
-- use keeps its memory unless it is a table of the program.
pub record Image (file : ℕ → ℕ) (g : Segment) (s r : Pmm) (pagetable va stop : ℕ) : Type 0 where
  pub space : IsSpace r pagetable
  pub found :
      (x : ℕ)
      → va ≤ x
      → x < stop
      → get_byte r.words (vmm_lookup_page r.words pagetable x) ≡ wanted file g x
  pub elsewhere :
      (x : ℕ)
      → x < 2 ^ 39
      → (x < va) ⊎ (stop ≤ x)
      → vmm_lookup_page r.words pagetable x ≡ vmm_lookup_page s.words pagetable x
  pub still : (a : ℕ) → Busy s a → Busy r a
  pub kept : (a : ℕ) → Busy s a → ¬ Owns 2 s.words pagetable a → Agree s.words r.words a
