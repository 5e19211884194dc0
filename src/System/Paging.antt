-- ===== src/System/Paging.antt =====
-- What a page fault of a program does to the memory.
use letsgo.Base.Int.{u64}
use letsgo.System.Defs.{Event, user_limit, with_pmm, Machine, UserMemory, Trapframe, halts, goes_on}
use letsgo.Base.{
  ℕ, ◌+◌, ◌*◌, ◌/◌, ◌≤◌, ◌<◌, ◌≡◌, refl, ◌∙◌, ◌≢◌, ◌⊎◌, inl, inr, true, false, some, arith, ltb,
  ◌==◌,
}
use letsgo.Pmm.Defs.{Pmm, done, pmm_alloc_frame, panics}
use letsgo.Pmm.Frames.{IsSane, pmm_alloc_frame_first, panics_ne}
use letsgo.Vmm.Defs.{vmm_map_page, vmm_lookup_page, and_then}
use letsgo.Vmm.Grow.{IsMapped}
use letsgo.Vmm.NewPage.{PagedIn, Fits64, vmm_map_page-PagedIn}
use letsgo.Vmm.Refine.{Result-cases}
use letsgo.System.Trap.{page_in, trap_handler, exception, page_fault, user_fault}

pub page_in-PagedIn :
    (s : Pmm) {s' : Pmm} (pagetable va : ℕ)
    → IsSane s
    → Fits64 s
    → IsMapped 2 s pagetable
    → page_in s pagetable va ≡ done tt s'
    → (page : ℕ) × PagedIn s s' pagetable va page
unfolding page_in and_then
page_in-PagedIn s {s'} pagetable va v fits m e = elim (Result-cases (pmm_alloc_frame s)) [
  | inl full ↦ absurd (panics_ne (rw full at e))
  | inr (page, t, got) ↦
      let (i, al) = pmm_alloc_frame_first s v got in
      let rest : vmm_map_page t pagetable va page 30 ≡ done tt s' = rw got at e in
      (page, vmm_map_page-PagedIn pagetable va 30 v fits m (omega arith) refl al rest)
]

abbrev pub va_of : Event → ℕ
va_of e = e.stval / 4096 * 4096

abbrev pub counted : Machine → Machine
counted m = record m { trap_page_fault_count = u64 (m.trap_page_fault_count + 1) }

-- A fault of a program at an address that its table leads nowhere.
pub record Missing (e : Event) (m : Machine) (c : ℕ) : Type 0 where
  pub cause : (e.scause ≡ 12) ⊎ (e.scause ≡ 13) ⊎ (e.scause ≡ 15)
  pub low : 4096 ≤ e.stval
  pub high : e.stval < user_limit
  pub current : m.kernel.current ≡ some c
  pub table : (m.kernel.procs c).pagetable ≢ 0
  pub nowhere : vmm_lookup_page m.pmm.words (m.kernel.procs c).pagetable (va_of e) ≡ 0

fault_cause :
    (mem : UserMemory) (trap_return : ℕ) (e : Event) (m : Machine) (tf : Trapframe)
    → (e.scause ≡ 12) ⊎ (e.scause ≡ 13) ⊎ (e.scause ≡ 15)
    → trap_handler mem trap_return e m tf ≡ page_fault m tf e.stval e.scause
unfolding trap_handler exception
fault_cause mem trap_return e m tf (inl c) = rw c refl
fault_cause mem trap_return e m tf (inr (inl c)) = rw c refl
fault_cause mem trap_return e m tf (inr (inr c)) = rw c refl

-- Such a fault is served by `page_in`.
page_fault-page_in :
    (e : Event) (m : Machine) (tf : Trapframe) (c : ℕ)
    → Missing e m c
    → page_fault m tf e.stval e.scause
      ≡ with_pmm
          (counted m)
          (page_in m.pmm (m.kernel.procs c).pagetable (va_of e))
          (λ u. goes_on tf)
unfolding page_fault user_fault
page_fault-page_in e m tf c h =
    let below : ltb e.stval user_limit ≡ true = ground (arith, h.high) in
    let table : ((m.kernel.procs c).pagetable == 0) ≡ false = ground (arith, h.table) in
    let low : ltb e.stval 4096 ≡ false = ground (arith, h.low) in
    simp (below, h.current, table, low, h.nowhere) refl

-- When a program faults at an address from 4096 on and below 0x80000000 that its page table leads
-- nowhere, `trap_handler` halts the kernel because `page_in` finds no frame or no place in the tables,
-- or it goes back to the same instruction, with the machine changed in the count of the faults and in
-- the memory only: a frame that was free is zero and holds the page, every other page of the program
-- leads where it did, and every other page in use keeps its contents, unless it is one of the
-- program's tables. The allocator is sane, its frames end below 2^64, and the program's tables are a
-- tree in pages in use, before and after.
pub trap_handler_pages_in :
    (mem : UserMemory) (trap_return : ℕ) (e : Event) (m : Machine) (tf : Trapframe) (c : ℕ)
    → Missing e m c
    → IsSane m.pmm
    → Fits64 m.pmm
    → IsMapped 2 m.pmm (m.kernel.procs c).pagetable
    → ((trap_handler mem trap_return e m tf ≡ halts)
        × (page_in m.pmm (m.kernel.procs c).pagetable (va_of e) ≡ panics))
      ⊎ ((s : Pmm) × (page : ℕ) × (trap_handler mem trap_return e m tf
            ≡ goes_on tf (record (counted m) { pmm = s }))
          × PagedIn m.pmm s (m.kernel.procs c).pagetable (va_of e) page)
unfolding with_pmm
trap_handler_pages_in mem trap_return e m tf c h v fits t =
    let run = fault_cause mem trap_return e m tf h.cause ∙ page_fault-page_in e m tf c h in
    elim (Result-cases (page_in m.pmm (m.kernel.procs c).pagetable (va_of e))) [
      | inl full ↦ inl (run ∙ rw full refl, full)
      | inr (u, s, got) ↦
          let (page, p) =
            page_in-PagedIn m.pmm (m.kernel.procs c).pagetable (va_of e) v fits t got in
          inr (s, page, run ∙ rw got refl, p)
    ]
