-- ===== src/Process/Fork.antt =====
-- `fork` and `clone_user_pagetable` of proc.c. Memory is that of the page allocator; the stacks lie
-- in it.
use letsgo.Process.Life.{allocproc}
use letsgo.Base.{
  ℕ, zero, suc, ◌+◌, ◌-◌, ◌*◌, ◌%◌, bit_and, Bool, not, ◌&&◌, none, some, ltb, leb, ◌==◌,
  if◌then◌else◌, update,
}
use letsgo.Base.Int.{ℤ, pos, minus_one}
use letsgo.Pmm.Defs.{Pmm, Result, done, pmm_alloc_frame, clear_page}
use letsgo.Vmm.Defs.{and_then, is_valid, is_leaf, target, entry_of, pte_v, pte_u}
use letsgo.Process.Defs.{Kernel, runnable, unused}
use letsgo.Process.Switch.{set_proc}

-- `memset(new, 0, 4096)` of a new frame.
unfoldable pub cleared_frame : Pmm → Result ℕ
cleared_frame s =
    and_then (pmm_alloc_frame s)
      (λ new s'. done new (record s' { words = clear_page s'.words new }))

abbrev pub set_word : Pmm → ℕ → ℕ → Pmm
set_word s a w = record s { words = update s.words a w }

-- `for (b = 0; b < n; b++) dst[b] = src[b]`, from the last word down.
unfoldable pub copy_words : ℕ → (ℕ → ℕ) → ℕ → ℕ → ℕ → ℕ
copy_words zero w dst src = w
copy_words (suc n) w dst src =
    let before = copy_words n w dst src in update before (dst + 8 * n) (before (src + 8 * n))

-- `(pte & PTE_V) && (pte & PTE_U)`
abbrev pub is_user : ℕ → Bool
is_user pte = is_valid pte && not (bit_and pte pte_u == 0)

-- A directory entry: `(pte & PTE_V) && (pte & (PTE_R|PTE_W|PTE_X)) == 0`.
abbrev pub is_inner : ℕ → Bool
is_inner pte = is_valid pte && not (is_leaf pte)

-- The inner loop, with `n` entries to go from the entry `k` on: user pages are copied, other valid
-- entries are shared.
unfoldable pub clone_pages : ℕ → ℕ → Pmm → ℕ → ℕ → Result (Unit {0})
clone_pages zero k s pt2 new_pt2 = done tt s
clone_pages (suc n) k s pt2 new_pt2 =
    let pte = s.words (pt2 + 8 * k) in
    let rest : Unit {0} → Pmm → Result (Unit {0}) = λ u t. clone_pages n (k + 1) t pt2 new_pt2 in
    if is_user pte
    then and_then (pmm_alloc_frame s) (λ page t. rest tt (
        set_word (record t { words = copy_words 512 t.words page (target pte) }) (new_pt2 + 8 * k)
          (entry_of page (pte % 1024))))
    else if is_valid pte
    then rest tt (set_word s (new_pt2 + 8 * k) pte)
    else rest tt s

unfoldable pub clone_tables : ℕ → ℕ → Pmm → ℕ → ℕ → Result (Unit {0})
clone_tables zero j s pt1 new_pt1 = done tt s
clone_tables (suc n) j s pt1 new_pt1 =
    let pte = s.words (pt1 + 8 * j) in
    let rest : Unit {0} → Pmm → Result (Unit {0}) = λ u t. clone_tables n (j + 1) t pt1 new_pt1 in
    if is_inner pte
    then and_then (cleared_frame s) (λ new_pt2 t.
      and_then
        (clone_pages 512 0 (set_word t (new_pt1 + 8 * j) (entry_of new_pt2 pte_v)) (target pte)
          new_pt2)
        rest)
    else rest tt s

-- The entries 0 and 1 of the root.
unfoldable pub clone_roots : ℕ → ℕ → Pmm → ℕ → ℕ → Result (Unit {0})
clone_roots zero i s parent_pt child_pt = done tt s
clone_roots (suc n) i s parent_pt child_pt =
    let pte = s.words (parent_pt + 8 * i) in
    let rest : Unit {0} → Pmm → Result (Unit {0}) =
      λ u t. clone_roots n (i + 1) t parent_pt child_pt in
    if is_inner pte
    then and_then (cleared_frame s) (λ new_pt1 t.
      and_then
        (clone_tables 512 0 (set_word t (child_pt + 8 * i) (entry_of new_pt1 pte_v)) (target pte)
          new_pt1)
        rest)
    else rest tt s

-- The loops over the entries 256 to 511 and 2 to 255 are one copy of the entries 2 to 511.
unfoldable pub clone_user_pagetable : Pmm → ℕ → Result ℕ
clone_user_pagetable s parent_pt = and_then (cleared_frame s) (λ child_pt t.
    and_then
      (clone_roots 2 0
        (record t { words = copy_words 510 t.words (child_pt + 16) (parent_pt + 16) }) parent_pt
        child_pt)
      (λ u v. done child_pt v))

-- A value on the parent's stack or in a register: an address in that stack becomes the address in
-- the child's stack at the same distance from the top. A stack has 8192 bytes.
unfoldable pub relocate : ℕ → ℕ → ℕ → ℕ
relocate parent_top child_top val =
    if leb (parent_top - 8192) val && leb val parent_top
    then child_top - (parent_top - val)
    else val

-- The loop over the words of the stack, from the last one down.
unfoldable pub copy_stack : ℕ → ℕ → ℕ → (ℕ → ℕ) → ℕ → ℕ
copy_stack zero parent_top child_top w = w
copy_stack (suc n) parent_top child_top w =
    let before = copy_stack n parent_top child_top w in
    update before (child_top - 8192 + 8 * n)
      (relocate parent_top child_top (before (parent_top - 8192 + 8 * n)))

-- `ra`, `sp` and the saved registers, of which `s_regs i` is `s0` to `s11`.
unfoldable pub child_context : ℕ → ℕ → ℕ → ℕ → (ℕ → ℕ) → ℕ → ℕ
child_context parent_top child_top ra sp s_regs r =
    if r == 0
    then ra
    else if r == 1
    then child_top - (parent_top - sp)
    else if ltb r 14
    then relocate parent_top child_top (s_regs (r - 2))
    else 0

-- The new entry `i` with its page table, stack and context.
unfoldable pub fill_child : Kernel → ℕ → ℕ → ℕ → Pmm → ℕ → ℕ → (ℕ → ℕ) → Result (ℤ × Kernel)
fill_child k c i pagetable s ra sp s_regs =
    let parent_top = (k.procs c).kstack in
    let child_top = (k.procs i).kstack in
    let child = set_proc k i (λ p. record p {
      pagetable = pagetable;
      ustack = (k.procs c).ustack;
      entry = (k.procs c).entry;
      context = child_context parent_top child_top ra sp s_regs;
      state = runnable;
      parent = some c;
    }) in
    done (pos (k.procs i).pid, child)
      (record s { words = copy_stack 1024 parent_top child_top s.words })

-- `fork` by the current process `c`, with the registers that it reads. The function dereferences
-- `current`, so it has a current process.
unfoldable pub fork : Kernel → ℕ → Pmm → ℕ → ℕ → (ℕ → ℕ) → Result (ℤ × Kernel)
fork k c s ra sp s_regs =
    let (slot, k') = allocproc k in
    elim slot [
      | none ↦ done (minus_one, k') s
      | some i ↦
          if (k'.procs c).pagetable == 0
          then fill_child k' c i 0 s ra sp s_regs
          else and_then (clone_user_pagetable s (k'.procs c).pagetable) (λ pagetable t.
            if pagetable == 0
            then done (minus_one, set_proc k' i (λ p. record p { pagetable = 0; state = unused })) t
            else fill_child k' c i pagetable t ra sp s_regs)
    ]
