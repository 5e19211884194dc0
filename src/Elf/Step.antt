-- ===== src/Elf/Step.antt =====
-- One round of the inner loop of `load_elf_map`: a new frame for the page at `va`, filled.
use letsgo.Base.{
  ℕ, ◌+◌, ◌-◌, ◌*◌, ◌/◌, ◌%◌, ◌^◌, ◌≤◌, ◌<◌, ◌≡◌, refl, sym, ap, ◌∙◌, subst, ◌≢◌, ◌⊎◌, inl, inr,
  true, false, arith, dec_lt, ◌==◌,
}
use letsgo.Pmm.Defs.{Pmm}
use letsgo.Pmm.Frames.{IsSane, Busy}
use letsgo.Vmm.Defs.{vmm_lookup_page}
use letsgo.Vmm.Tree.{Owns, Agree, IsTree-frame, Owns-frame, lookup-frame}
use letsgo.Vmm.Grow.{IsMapped}
use letsgo.Vmm.Fresh.{Busy-aligned}
use letsgo.Vmm.Refine.{page_number}
use letsgo.Vmm.NewPage.{PagedIn, Fits64}
use letsgo.Elf.Bytes.{get_byte, byte}
use letsgo.Elf.Defs.{Segment, fill_page}
use letsgo.Elf.Page.{IsFitting, wanted, zero-get_byte, fill_page-words, fill_page-wanted}

-- The bytes of a page whose words are the same.
pub get_byte-Agree :
    (w w' : ℕ → ℕ) (a o : ℕ)
    → a % 4096 ≡ 0
    → o < 4096
    → Agree w w' a
    → get_byte w' (a + o) ≡ get_byte w (a + o)
unfolding get_byte
get_byte-Agree w w' a o al l same =
    let at : (a + o) / 8 * 8 ≡ a + 8 * (o / 8) = omega (arith, al) in
    ap (byte ((a + o) % 8)) (ap w' at ∙ same (o / 8) (omega (arith, l)) ∙ ap w (sym at))

Busy-words : {s : Pmm} {a : ℕ} (w : ℕ → ℕ) → Busy s a → Busy (record s { words = w }) a
Busy-words w b = record {
  index = b.index;
  at = b.at;
  bit = b.bit;
  sane = record { bytes = b.sane.bytes; reserved = b.sane.reserved; aligned = b.sane.aligned };
}

-- The state in which every page can be mapped.
pub record IsSpace (s : Pmm) (pagetable : ℕ) : Type 0 where
  pub sane : IsSane s
  pub fits : Fits64 s
  pub mapped : IsMapped 2 s pagetable

-- From `s` to `r`: the page at `va` is `page`, with the bytes that the program expects. Every other
-- address leads where it did, and every other page in use keeps its memory, but for the tables.
pub record Filled (file : ℕ → ℕ) (g : Segment) (s r : Pmm) (pagetable va page : ℕ) : Type 0 where
  pub space : IsSpace r pagetable
  pub in_use : Busy r page
  pub not_table : ¬ Owns 2 r.words pagetable page
  pub here :
      (x : ℕ) → va ≤ x → x < va + 4096 → vmm_lookup_page r.words pagetable x ≡ page + (x - va)
  pub bytes : (o : ℕ) → o < 4096 → get_byte r.words (page + o) ≡ wanted file g (va + o)
  pub elsewhere :
      (x : ℕ)
      → x < 2 ^ 39
      → (x < va) ⊎ (va + 4096 ≤ x)
      → vmm_lookup_page r.words pagetable x ≡ vmm_lookup_page s.words pagetable x
  pub fresh : (a : ℕ) → Owns 2 r.words pagetable a → Owns 2 s.words pagetable a ⊎ ¬ Busy s a
  pub still : (a : ℕ) → Busy s a → Busy r a
  pub kept : (a : ℕ) → Busy s a → ¬ Owns 2 s.words pagetable a → Agree s.words r.words a

module _ {file : ℕ → ℕ} {g : Segment} {s t : Pmm} {pagetable va page : ℕ} (v : IsFitting file g)
    (small : va + 4096 ≤ 2 ^ 39) (aligned : va % 4096 ≡ 0) (p : PagedIn s t pagetable va page) where
  abbrev after : ℕ → ℕ
  after = fill_page t.words file g va page

  other-Agree : (a : ℕ) → a % 4096 ≡ 0 → a ≢ page → Agree t.words after a
  other-Agree a al n k l =
      let pal = Busy-aligned p.in_use in
      fill_page-words v va small t.words page (a + 8 * k) (omega (arith, al))
        (elim (dec_lt a page) [
          | yes lower ↦ inl (omega (arith, lower, al, pal, l))
          | no above ↦ inr (omega (arith, above, al, pal, n))
        ])

  owned-Agree : (a : ℕ) → Owns 2 t.words pagetable a → Agree t.words after a
  owned-Agree a o =
      other-Agree a (Busy-aligned (p.mapped.busy a o))
        (λ e. p.not_table (subst (Owns 2 t.words pagetable) e o))

  lookup-after : (x : ℕ) → vmm_lookup_page after pagetable x ≡ vmm_lookup_page t.words pagetable x
  unfolding vmm_lookup_page
  lookup-after x = lookup-frame 2 t.words after pagetable x owned-Agree

  Owns-after : (a : ℕ) → Owns 2 after pagetable a → Owns 2 t.words pagetable a
  Owns-after a o = (Owns-frame 2 t.words after pagetable a owned-Agree).0 o

  zero_before : (o : ℕ) → o < 4096 → get_byte t.words (page + o) ≡ 0
  zero_before o l =
      let at : (page + o) / 8 * 8 ≡ page + 8 * (o / 8) = omega (arith, Busy-aligned p.in_use) in
      zero-get_byte t.words (page + o) (ap t.words at ∙ p.zeros (o / 8) (omega (arith, l)))

  pub fill_page-Filled :
      IsSpace s pagetable → Filled file g s (record t { words = after }) pagetable va page
  fill_page-Filled space = record {
    space = record {
      sane = (Busy-words after p.in_use).sane;
      fits = omega (arith, space.fits, p.sized.0, p.sized.1);
      mapped = record {
        tree = IsTree-frame 2 t.words after pagetable owned-Agree p.mapped.tree;
        busy = λ a o. Busy-words after (p.mapped.busy a (Owns-after a o));
      };
    };
    in_use = Busy-words after p.in_use;
    not_table = λ o. p.not_table (Owns-after page o);
    here = λ x a b.
        let same : page_number va ≡ page_number x = omega (arith, aligned, a, b) in
        let test : (page_number va == page_number x) ≡ true = ground (arith, same) in
        lookup-after x ∙ p.found x ∙ rw test (omega (arith, aligned, a, b));
    bytes = λ o l. fill_page-wanted v va small t.words page o l (zero_before o l);
    elsewhere = λ x l out.
        let apart : page_number va ≢ page_number x = λ e. elim out [
          | inl lower ↦ absurd (omega (arith, lower, aligned, small, e))
          | inr above ↦ absurd (omega (arith, above, aligned, small, l, e))
        ] in
        let test : (page_number va == page_number x) ≡ false = ground (arith, apart) in
        lookup-after x ∙ p.found x ∙ rw test refl;
    fresh = λ a o. p.fresh a (Owns-after a o);
    still = λ a b. Busy-words after (p.still a b);
    kept = λ a b n k l.
        other-Agree a (Busy-aligned b) (λ e. p.was_free (subst (Busy s) e b)) k l
        ∙ p.kept a b n k l;
  }
