-- ===== src/System/Exec.antt =====
-- `exec` of proc.c.
use letsgo.Base.{
  ℕ, suc, ◌+◌, ◌-◌, ◌*◌, ◌/◌, ◌&&◌, Option, none, some, List, [], ◌∷◌, ltb, leb, if◌then◌else◌,
  update, length, get_or,
}
use letsgo.Base.Int.{ℤ, pos, negsuc}
use letsgo.Process.Switch.{set_proc}
use letsgo.Process.Fork.{copy_words}
use letsgo.Fs.Defs.{o_rdonly}
use letsgo.Fs.Files.{fs_open, fs_read, fs_close}
use letsgo.Pmm.Defs.{Pmm, Result, done, pmm_alloc_frame}
use letsgo.Heap.Defs.{Heap, kmalloc, kfree, heap_start_va}
use letsgo.Vmm.Defs.{vmm_map_page, and_then, pte_r, pte_w, pte_u}
use letsgo.Elf.Bytes.{put_bytes}
use letsgo.Elf.Defs.{load_elf, load_elf_map}
use letsgo.System.Defs.{Machine, Flow, goes_on, faulty, with_fs, with_pmm, set_kernel}

abbrev pub elf_buf_size : ℕ
elf_buf_size = 65536

abbrev pub ustack_top : ℕ
ustack_top = 0x7F000000

abbrev pub ustack_bottom : ℕ
ustack_bottom = ustack_top - 4096

-- The physical address of the stack address `sp`.
abbrev pub stack_pa_of : ℕ → ℕ → ℕ
stack_pa_of stack_pa sp = stack_pa + sp - ustack_bottom

-- The arguments from the last one down, each with its 0: their addresses, and the stack pointer.
unfoldable pub push_args : ℕ → List (List ℕ) → (ℕ → ℕ) → List ℕ × ℕ × (ℕ → ℕ)
push_args stack_pa [] w = ([], ustack_top, w)
push_args stack_pa (a ∷ args) w =
    let (addrs, sp, w') = push_args stack_pa args w in
    let len = length a + 1 in
    let to = sp - len in
    (to ∷ addrs, to, put_bytes len w' (stack_pa_of stack_pa to) (λ i. get_or a i 0))

-- The array of pointers, with the final NULL.
unfoldable pub push_words : List ℕ → ℕ → (ℕ → ℕ) → ℕ → ℕ
push_words [] at w = update w at 0
push_words (a ∷ addrs) at w = push_words addrs (at + 8) (update w at a)

-- `sp &= ~7; sp -= (argc + 1) * 8;` and the array: the final stack pointer, which is also `argv`.
unfoldable pub push_argv : ℕ → List (List ℕ) → (ℕ → ℕ) → ℕ × (ℕ → ℕ)
push_argv stack_pa args w =
    let (addrs, sp, w') = push_args stack_pa args w in
    let to = sp / 8 * 8 - (length args + 1) * 8 in
    (to, push_words addrs (stack_pa_of stack_pa to) w')

-- The new address space: the kernel's entries, the segments and one page of stack.
unfoldable pub build_space : Pmm → ℕ → (ℕ → ℕ) → List (List ℕ) → Result (ℕ × ℕ)
build_space s kernel_pagetable file args = and_then (pmm_alloc_frame s) (λ table t.
    and_then
      (load_elf_map (record t { words = copy_words 512 t.words table kernel_pagetable }) table file)
      (λ u r. and_then (pmm_alloc_frame r) (λ stack_pa q.
        and_then (vmm_map_page q table ustack_bottom stack_pa (pte_r + pte_w + pte_u)) (λ v p.
          let (sp, w) = push_argv stack_pa args p.words in
          done (table, sp) (record p { words = w })))))

-- The three assignments to `current`, and what the caller is told: the arguments' number and `argv`.
-- More than 16 arguments have been stored behind `user_argv_addrs`.
unfoldable pub enter_space : Option ℕ → ℕ → List (List ℕ) → ℕ × ℕ → Machine → Flow (Option (ℕ × ℕ))
enter_space none entry args r m = faulty
enter_space (some c) entry args (table, sp) m =
    let entered =
      set_proc m.kernel c (λ q. record q { pagetable = table; ustack = sp; entry = entry }) in
    if ltb 16 (length args) then faulty else goes_on (some (length args, sp)) (set_kernel m entered)

-- What follows the read of the file into `elf_buf`. `kfree` only marks the block, so its place after
-- the mapping makes no difference to what is mapped.
unfoldable pub load_image : Option ℕ → ℕ → List (List ℕ) → Machine → Flow (Option (ℕ × ℕ))
load_image c elf_buf args m =
    let file : ℕ → ℕ = λ i. m.heap_bytes (elf_buf + i) in
    let m' = record m { heap = kfree m.heap elf_buf } in
    elim (load_elf file) [
      | none ↦ goes_on none m'
      | some entry ↦
          with_pmm m' (build_space m.pmm m.kernel.kernel_pagetable file args)
            (enter_space c entry args)
    ]

-- The bytes of a read in the block at `elf_buf`.
abbrev pub into_heap : (ℕ → ℕ) → ℕ → List ℕ → ℕ → ℕ
into_heap bytes elf_buf text a =
    if leb elf_buf a && ltb a (elf_buf + length text) then get_or text (a - elf_buf) 0 else bytes a

-- What follows `fs_close(fd)` after the read.
unfoldable pub image_read : Option ℕ → ℤ → ℕ → List (List ℕ) → Machine → Flow (Option (ℕ × ℕ))
image_read c (pos (suc n)) elf_buf args m = load_image c elf_buf args m
image_read c size elf_buf args m = goes_on none (record m { heap = kfree m.heap elf_buf })

-- The read into the block, and what depends on it.
unfoldable pub read_image : Option ℕ → ℤ → ℕ → List (List ℕ) → Machine → Flow (Option (ℕ × ℕ))
read_image c fd elf_buf args m = with_fs m (fs_read m.fs fd (pos elf_buf_size)) (λ (size, text) m1.
    let m2 = record m1 { heap_bytes = into_heap m1.heap_bytes elf_buf text } in
    with_fs m2 (fs_close m2.fs fd) (λ r. image_read c size elf_buf args))

-- Every block takes some of the heap's addresses, so this is above the number of blocks.
abbrev pub walk_fuel : Heap → ℕ
walk_fuel h = h.current_heap_end - heap_start_va + 1

-- What follows `kmalloc`, which fails or has changed the heap.
unfoldable pub buffered :
    Option ℕ → ℤ → List (List ℕ) → Option (ℕ × Heap) → Machine → Flow (Option (ℕ × ℕ))
buffered c fd args none m = with_fs m (fs_close m.fs fd) (λ r. goes_on none)
buffered c fd args (some (elf_buf, h)) m = read_image c fd elf_buf args (record m { heap = h })

-- What follows `fs_open`.
unfoldable pub opened : Option ℕ → List (List ℕ) → ℤ → Machine → Flow (Option (ℕ × ℕ))
opened c args (negsuc e) m = goes_on none m
opened c args (pos fd) m =
    with_pmm m (kmalloc (walk_fuel m.heap) m.heap m.pmm m.kernel.kernel_pagetable elf_buf_size)
      (buffered c (pos fd) args)

-- `exec` by the current process `c`, which is written through: the number of arguments and `argv`,
-- or none for the result -1.
unfoldable pub exec : Machine → Option ℕ → List ℕ → List (List ℕ) → Flow (Option (ℕ × ℕ))
exec m c path args = with_fs m (fs_open m.fs path o_rdonly) (opened c args)
