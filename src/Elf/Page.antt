-- ===== src/Elf/Page.antt =====
-- One page of a segment.
use letsgo.Base.{
  ℕ, zero, suc, ◌+◌, ◌-◌, ◌*◌, ◌/◌, ◌%◌, ◌^◌, ◌≤◌, ◌<◌, ◌≡◌, refl, ap, ◌∙◌, ◌⊎◌, inl, inr, true,
  false, ◌&&◌, arith, ltb, leb, if◌then◌else◌, Bool-cases,
}
use letsgo.Base.Int.{u64}
use letsgo.Elf.Bytes.{byte, get_byte}
use letsgo.Elf.Copy.{Bytes, get-put_bytes, put_bytes-words}
use letsgo.Elf.Defs.{Segment, copy_start, copy_end, fill_page}

-- The sizes of a segment whose numbers do not wrap. The file has bytes.
pub record IsFitting (file : ℕ → ℕ) (g : Segment) : Type 0 where
  pub bytes : Bytes file
  pub filled : g.p_filesz ≤ g.p_memsz
  pub low : g.p_vaddr + g.p_memsz + 4096 ≤ 2 ^ 39
  pub in_file : g.p_offset + g.p_filesz ≤ 2 ^ 64

-- The byte that a program expects at `x`: the file's, or 0 behind those.
abbrev pub wanted : (ℕ → ℕ) → Segment → ℕ → ℕ
wanted file g x =
    if leb g.p_vaddr x && ltb x (g.p_vaddr + g.p_filesz)
    then file (g.p_offset + (x - g.p_vaddr))
    else 0

zero-byte : (i : ℕ) → byte i 0 ≡ 0
unfolding byte
zero-byte zero = refl
zero-byte (suc i) = zero-byte i

pub zero-get_byte : (w : ℕ → ℕ) (a : ℕ) → w (a / 8 * 8) ≡ 0 → get_byte w a ≡ 0
unfolding get_byte
zero-get_byte w a e = ap (byte (a % 8)) e ∙ zero-byte (a % 8)

between : (a x b : ℕ) → a ≤ x → x < b → (leb a x && ltb x b) ≡ true
between a x b h l = ground (arith, h, l)

not_between : (a x b : ℕ) → (a ≤ x → x < b → ⊥) → (leb a x && ltb x b) ≡ false
not_between a x b n = elim (Bool-cases (leb a x && ltb x b)) [
  | inl e ↦ absurd (n (ground (arith, e)) (ground (arith, e)))
  | inr e ↦ e
]

-- The part from `from` to `to` of the page at `va` is what lies between `p` and `e`.
record IsPart (va p e from to : ℕ) : Type 0 where
  start : ((from ≡ va) × (p < va)) ⊎ ((from ≡ p) × (va ≤ p))
  stop : ((to ≡ va + 4096) × (va + 4096 < e)) ⊎ ((to ≡ e) × (e ≤ va + 4096))

module _ {va p e from to : ℕ} (h : IsPart va p e from to) where
  from-le : va ≤ from
  from-le = elim h.start [ inl a ↦ omega (arith, a.0) | inr b ↦ omega (arith, b.0, b.1) ]

  to-le : to ≤ va + 4096
  to-le = elim h.stop [ inl a ↦ omega (arith, a.0) | inr b ↦ omega (arith, b.0, b.1) ]

  part_inside : (x : ℕ) → va ≤ x → x < va + 4096 → p ≤ x → x < e → (from ≤ x) × (x < to)
  part_inside x a b c d = (
    elim h.start [ inl s ↦ omega (arith, s.0, a) | inr s ↦ omega (arith, s.0, c) ],
    elim h.stop [ inl s ↦ omega (arith, s.0, b) | inr s ↦ omega (arith, s.0, d) ],
  )

  part_outside : (x : ℕ) → from ≤ x → x < to → (p ≤ x) × (x < e)
  part_outside x a b = (
    elim h.start [ inl s ↦ omega (arith, s.0, s.1, a) | inr s ↦ omega (arith, s.0, a) ],
    elim h.stop [ inl s ↦ omega (arith, s.0, s.1, b) | inr s ↦ omega (arith, s.0, b) ],
  )

module _ {file : ℕ → ℕ} {g : Segment} (v : IsFitting file g) (va : ℕ)
    (small : va + 4096 ≤ 2 ^ 39) where
  page-IsPart : IsPart va g.p_vaddr (g.p_vaddr + g.p_filesz) (copy_start g va) (copy_end g va)
  page-IsPart =
      let a : u64 (va + 4096) ≡ va + 4096 = omega (arith, small) in
      let b : u64 (g.p_vaddr + g.p_filesz) ≡ g.p_vaddr + g.p_filesz =
        omega (arith, v.low, v.filled) in
      record { start = ground arith; stop = rw (a, b) (ground arith) }

  -- The words of the other pages stay.
  pub fill_page-words :
      (w : ℕ → ℕ) (pa y : ℕ)
      → y % 8 ≡ 0
      → (y + 8 ≤ pa) ⊎ (pa + 4096 ≤ y)
      → fill_page w file g va pa y ≡ w y
  unfolding fill_page
  fill_page-words w pa y e h = elim (Bool-cases (ltb (copy_start g va) (copy_end g va))) [
    | inr nothing ↦ rw (nothing, fill_page) refl
    | inl bytes ↦
        rw (bytes, fill_page)
          (put_bytes-words _ w _ _ y e (elim h [
            | inl below ↦ inl (omega (arith, below))
            | inr above ↦ inr (
                within (copy_start g va) (copy_end g va) (from-le page-IsPart) (to-le page-IsPart)
                  (ground (arith, bytes)) above)
          ]))
  ]
    where
      within :
          (from to : ℕ)
          → va ≤ from
          → to ≤ va + 4096
          → from < to
          → pa + 4096 ≤ y
          → pa + (from - va) + (to - from) ≤ y
      within from to a b c d = omega (arith, a, b, c, d)

  -- The copy, with its bounds as numbers.
  copied :
      (from to : ℕ) (w : ℕ → ℕ) (pa o : ℕ)
      → IsPart va g.p_vaddr (g.p_vaddr + g.p_filesz) from to
      → from < to
      → o < 4096
      → get_byte w (pa + o) ≡ 0
      → (if leb (pa + (from - va)) (pa + o) && ltb (pa + o) (pa + (from - va) + (to - from))
          then file (u64 (g.p_offset + (from - g.p_vaddr)) + (pa + o - (pa + (from - va))))
          else get_byte w (pa + o))
        ≡ wanted file g (va + o)
  copied from to w pa o h l b z =
      let p = g.p_vaddr in
      let e = g.p_vaddr + g.p_filesz in
      let low = from-le h in
      elim (Bool-cases (leb p (va + o) && ltb (va + o) e)) [
        | inl inside ↦
            let (a, c) =
              part_inside h (va + o) (omega arith) (omega (arith, b)) (ground (arith, inside))
                (ground (arith, inside)) in
            let first = (part_outside h from (omega arith) l) in
            let test : (leb (pa + (from - va)) (pa + o)
                  && ltb (pa + o) (pa + (from - va) + (to - from)))
                ≡ true =
              between (pa + (from - va)) (pa + o) (pa + (from - va) + (to - from))
                (omega (arith, a, low)) (omega (arith, c, low, l)) in
            rw (test, inside) (ap file (omega (arith, v.in_file, first.0, first.1, a, low)))
        | inr outside ↦
            let test : (leb (pa + (from - va)) (pa + o)
                  && ltb (pa + o) (pa + (from - va) + (to - from)))
                ≡ false =
              not_between (pa + (from - va)) (pa + o) (pa + (from - va) + (to - from)) (λ s t.
                let (i, j) =
                  part_outside h (va + o) (omega (arith, s, low)) (omega (arith, t, low, l)) in
                ground (arith, outside, i, j)) in
            rw (test, outside) z
      ]

  -- Without a part to copy, the program expects zeros.
  uncopied :
      (from to o : ℕ)
      → IsPart va g.p_vaddr (g.p_vaddr + g.p_filesz) from to
      → to ≤ from
      → o < 4096
      → 0 ≡ wanted file g (va + o)
  uncopied from to o h l b =
      let out = not_between g.p_vaddr (va + o) (g.p_vaddr + g.p_filesz) (λ s t.
        let (i, j) = part_inside h (va + o) (omega arith) (omega (arith, b)) s t in
        absurd (omega (arith, i, j, l))) in
      rw out refl

  pub fill_page-wanted :
      (w : ℕ → ℕ) (pa o : ℕ)
      → o < 4096
      → get_byte w (pa + o) ≡ 0
      → get_byte (fill_page w file g va pa) (pa + o) ≡ wanted file g (va + o)
  unfolding fill_page
  fill_page-wanted w pa o l z = elim (Bool-cases (ltb (copy_start g va) (copy_end g va))) [
    | inr nothing ↦
        rw (nothing, fill_page)
          (z ∙ uncopied (copy_start g va) (copy_end g va) o page-IsPart (ground (arith, nothing)) l)
    | inl bytes ↦
        rw (bytes, fill_page)
          (get-put_bytes (copy_end g va - copy_start g va) w (pa + (copy_start g va - va)) _
              (pa + o) (λ i. v.bytes _)
            ∙ copied (copy_start g va) (copy_end g va) w pa o page-IsPart (ground (arith, bytes)) l
                z)
  ]
