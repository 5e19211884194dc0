-- ===== src/Vmm/Defs.antt =====
-- The functions of vmm.c. A page table is 512 words of memory from its address on, so the entry of
-- a number `vpn` stands at `table + 8 * vpn`. Words are 64-bit; a page table number that a valid
-- entry holds is below 2 ^ 44, so no shift here loses a bit.
use letsgo.Base.{
  ℕ, zero, suc, ◌+◌, ◌-◌, ◌*◌, ◌/◌, ◌%◌, ◌^◌, bit_and, bit_or, Bool, not, ◌==◌, if◌then◌else◌,
  update,
}
use letsgo.Pmm.Defs.{Pmm, Result, done, panics, pmm_alloc_frame}

abbrev pub pte_v : ℕ
pte_v = 1

abbrev pub pte_r : ℕ
pte_r = 2

abbrev pub pte_w : ℕ
pte_w = 4

abbrev pub pte_x : ℕ
pte_x = 8

abbrev pub pte_u : ℕ
pte_u = 16

abbrev pub pte_a : ℕ
pte_a = 64

abbrev pub pte_d : ℕ
pte_d = 128

-- `vpn[level]`
abbrev pub vpn : ℕ → ℕ → ℕ
vpn va level = va / 2 ^ (12 + 9 * level) % 512

-- `&table[vpn[level]]`
abbrev pub slot : ℕ → ℕ → ℕ → ℕ
slot table va level = table + 8 * vpn va level

-- `pte & PTE_V`
abbrev pub is_valid : ℕ → Bool
is_valid pte = not (bit_and pte pte_v == 0)

-- `pte & (PTE_R | PTE_W | PTE_X)`
abbrev pub is_leaf : ℕ → Bool
is_leaf pte = not (bit_and pte (pte_r + pte_w + pte_x) == 0)

-- `(pte >> 10) << 12`
abbrev pub target : ℕ → ℕ
target pte = pte / 2 ^ 10 * 2 ^ 12

-- `((pa >> 12) << 10) | flags`
abbrev pub entry_of : ℕ → ℕ → ℕ
entry_of pa flags = bit_or (pa / 2 ^ 12 * 2 ^ 10) flags

-- One round of the loop of `vmm_map_page`: the table of the next level, made when there is none.
unfoldable pub next_table : Pmm → ℕ → ℕ → ℕ → Result ℕ
next_table s table va level =
    let at = slot table va level in
    let pte = s.words at in
    if is_valid pte
    then if is_leaf pte then panics else done (target pte) s
    else elim (pmm_alloc_frame s) [
      | panics ↦ panics
      | done new s' ↦ done new (record s' { words = update s'.words at (entry_of new pte_v) })
    ]

unfoldable pub set_leaf : Pmm → ℕ → ℕ → ℕ → ℕ → Result (Unit {0})
set_leaf s table va pa flags =
    let at = slot table va 0 in
    if is_valid (s.words at)
    then panics
    else done tt (record s {
      words = update s.words at (entry_of pa (bit_or (bit_or (bit_or flags pte_v) pte_a) pte_d));
    })

-- The loop from `level` down to 1, and what follows it.
unfoldable pub map_from : ℕ → Pmm → ℕ → ℕ → ℕ → ℕ → Result (Unit {0})
map_from zero s table va pa flags = set_leaf s table va pa flags
map_from (suc l) s table va pa flags = elim (next_table s table va (suc l)) [
  | panics ↦ panics
  | done next s' ↦ map_from l s' next va pa flags
]

unfoldable pub vmm_map_page : Pmm → ℕ → ℕ → ℕ → ℕ → Result (Unit {0})
vmm_map_page s pagetable va pa flags = map_from 2 s pagetable va pa flags

-- The loop of `vmm_lookup_page` from `level - 1` down to 0. In a leaf, `pte >> 10` may hold bits
-- above the 44 of a page number, and the shift by 12 drops what passes 64 bits.
unfoldable pub lookup_from : ℕ → (ℕ → ℕ) → ℕ → ℕ → ℕ
lookup_from zero w table va = 0
lookup_from (suc l) w table va =
    let pte = w (slot table va l) in
    let rest = lookup_from l w (target pte) va in
    if not (is_valid pte)
    then 0
    else if is_leaf pte
    then bit_or (target pte % 2 ^ 64) (va % 2 ^ 12)
    else rest

unfoldable pub vmm_lookup_page : (ℕ → ℕ) → ℕ → ℕ → ℕ
vmm_lookup_page w pagetable va = lookup_from 3 w pagetable va

-- `for (addr = from; addr < from + n * PAGE_SIZE; addr += PAGE_SIZE)` of `vmm_init`.
unfoldable pub map_range : ℕ → Pmm → ℕ → ℕ → ℕ → Result (Unit {0})
map_range zero s pagetable from flags = done tt s
map_range (suc n) s pagetable from flags = elim (vmm_map_page s pagetable from from flags) [
  | panics ↦ panics
  | done u s' ↦ map_range n s' pagetable (from + 4096) flags
]

unfoldable pub and_then : {A B : Type 0} → Result A → (A → Pmm → Result B) → Result B
and_then panics f = panics
and_then (done a s) f = f a s

-- `vmm_init` returns `kernel_pagetable`; the value of satp follows from it.
unfoldable pub vmm_init : Pmm → Result ℕ
vmm_init s = and_then (pmm_alloc_frame s) (λ table s0.
    and_then (vmm_map_page s0 table 0x10000000 0x10000000 (pte_r + pte_w)) (λ u1 s1.
      and_then (vmm_map_page s1 table 0x0C000000 0x0C000000 (pte_r + pte_w)) (λ u2 s2.
        and_then (vmm_map_page s2 table 0x0C002000 0x0C002000 (pte_r + pte_w)) (λ u3 s3.
          and_then (vmm_map_page s3 table 0x0C201000 0x0C201000 (pte_r + pte_w)) (λ u4 s4.
            and_then
              (map_range ((0x88000000 - 0x80000000) / 4096) s4 table 0x80000000
                (pte_r + pte_w + pte_x))
              (λ u5 s5. done table s5))))))
