-- ===== src/System/Safe/Loader.antt =====
-- `exec` keeps the invariants.
use letsgo.Console.Ring.{IsInRing}
use letsgo.Fs.Refs.Sound.{IsSound}
use letsgo.Base.{
  ℕ, zero, suc, ◌+◌, ◌≡◌, refl, sym, subst, inl, inr, Option, none, some, List, ltb, Bool-cases,
  Option-cases, length,
}
use letsgo.Base.Int.{ℤ, pos, negsuc}
use letsgo.Process.Defs.{Kernel}
use letsgo.Process.Switch.{set_proc}
use letsgo.Process.Invariant.Defs.{IsValid, set-IsValid}
use letsgo.Fs.Defs.{o_rdonly}
use letsgo.Fs.Files.{fs_open, fs_read, fs_close}
use letsgo.Fs.Refs.Calls.{fs_open-After, fs_close-After, fs_read-After}
use letsgo.Heap.Defs.{Heap, kmalloc}
use letsgo.Elf.Defs.{load_elf}
use letsgo.System.Defs.{Machine, UserMemory, Trapframe}
use letsgo.System.Exec.{
  exec, opened, buffered, read_image, image_read, load_image, enter_space, build_space, walk_fuel,
  elf_buf_size,
}
use letsgo.System.Calls.{sys_exec, enter_user, to_user}
use letsgo.System.Safe.{
  IsSafe, Holds, registers-IsSafe, with_fs-Holds, followed-Holds, IsSound, IsInRing,
}
use letsgo.System.Safe.Forks.{with_pmm-Holds, any_Ensures}

-- The page table, the stack and the entry of a program are no part of the invariant.
space-IsValid :
    {k : Kernel} (c pagetable ustack entry : ℕ)
    → IsValid k
    → IsValid
        (set_proc k c (λ p. record p { pagetable = pagetable; ustack = ustack; entry = entry }))
space-IsValid {k} c pagetable ustack entry v =
    set-IsValid c _ k.enq_clock v (λ b. v.good c b) (λ e. v.current_used c e)

enter_space-Holds :
    {m : Machine} (c : Option ℕ) (entry : ℕ) (args : List (List ℕ)) (r : ℕ × ℕ)
    → IsSafe m
    → Holds IsSafe (enter_space c entry args r m)
unfolding enter_space
enter_space-Holds none entry args r v = tt
enter_space-Holds (some c) entry args (table, sp) v = elim (Bool-cases (ltb 16 (length args))) [
  | inl many ↦ rw many tt
  | inr few ↦ rw few (record {
    processes = space-IsValid c table sp entry v.processes;
    files = v.files;
    keyboard = v.keyboard;
  })
]

-- Frames, blocks of the heap and their bytes may change.
pub moved-IsSafe :
    {m m' : Machine} → IsSafe m → m'.kernel ≡ m.kernel → m'.fs ≡ m.fs → m'.keys ≡ m.keys → IsSafe m'
moved-IsSafe v a b c = record {
  processes = subst IsValid (sym a) v.processes;
  files = subst IsSound (sym b) v.files;
  keyboard = subst IsInRing (sym c) v.keyboard;
}

load_image-Holds :
    {m : Machine} (c : Option ℕ) (elf_buf : ℕ) (args : List (List ℕ))
    → IsSafe m
    → Holds IsSafe (load_image c elf_buf args m)
unfolding load_image
load_image-Holds {m} c elf_buf args v =
    elim (Option-cases (load_elf (λ i. m.heap_bytes (elf_buf + i)))) [
      | inl bad ↦ simp (bad, load_image) (moved-IsSafe v refl refl refl)
      | inr (entry, ok) ↦
          simp (ok, load_image)
            (with_pmm-Holds _ IsSafe
              (build_space m.pmm m.kernel.kernel_pagetable (λ i. m.heap_bytes (elf_buf + i)) args) _
              (any_Ensures _)
              (λ r s u. enter_space-Holds c entry args r (moved-IsSafe v refl refl refl)))
    ]

image_read-Holds :
    {m : Machine} (c : Option ℕ) (size : ℤ) (elf_buf : ℕ) (args : List (List ℕ))
    → IsSafe m
    → Holds IsSafe (image_read c size elf_buf args m)
unfolding image_read
image_read-Holds c (pos zero) elf_buf args v = moved-IsSafe v refl refl refl
image_read-Holds c (pos (suc n)) elf_buf args v = load_image-Holds c elf_buf args v
image_read-Holds c (negsuc e) elf_buf args v = moved-IsSafe v refl refl refl

read_image-Holds :
    {m : Machine} (c : Option ℕ) (fd : ℤ) (elf_buf : ℕ) (args : List (List ℕ))
    → IsSafe m
    → Holds IsSafe (read_image c fd elf_buf args m)
unfolding read_image
read_image-Holds {m} c fd elf_buf args v =
    with_fs-Holds (fs_read m.fs fd (pos elf_buf_size)) _ v
      (fs_read-After fd (pos elf_buf_size) v.files)
      (λ (size, text) m1 w.
        with_fs-Holds (fs_close m1.fs fd) _ (moved-IsSafe w refl refl refl)
          (fs_close-After fd w.files) (λ r m2 u. image_read-Holds c size elf_buf args u))

buffered-Holds :
    {m : Machine} (c : Option ℕ) (fd : ℤ) (args : List (List ℕ)) (r : Option (ℕ × Heap))
    → IsSafe m
    → Holds IsSafe (buffered c fd args r m)
unfolding buffered
buffered-Holds {m} c fd args none v =
    with_fs-Holds (fs_close m.fs fd) _ v (fs_close-After fd v.files) (λ r m' w. w)
buffered-Holds c fd args (some (elf_buf, h)) v =
    read_image-Holds c fd elf_buf args (moved-IsSafe v refl refl refl)

opened-Holds :
    {m : Machine} (c : Option ℕ) (args : List (List ℕ)) (r : ℤ)
    → IsSafe m
    → Holds IsSafe (opened c args r m)
unfolding opened
opened-Holds c args (negsuc e) v = v
opened-Holds {m} c args (pos fd) v =
    with_pmm-Holds m IsSafe
      (kmalloc (walk_fuel m.heap) m.heap m.pmm m.kernel.kernel_pagetable elf_buf_size) _
      (any_Ensures _) (λ r s u. buffered-Holds c (pos fd) args r (moved-IsSafe v refl refl refl))

exec-Holds :
    {m : Machine} (c : Option ℕ) (path : List ℕ) (args : List (List ℕ))
    → IsSafe m
    → Holds IsSafe (exec m c path args)
unfolding exec
exec-Holds {m} c path args v =
    with_fs-Holds (fs_open m.fs path o_rdonly) _ v (fs_open-After path o_rdonly v.files)
      (λ r m' w. opened-Holds c args r w)

to_user-IsSafe : {m : Machine} (c : ℕ) → IsSafe m → IsSafe (to_user m c)
unfolding to_user
to_user-IsSafe {m} c v = registers-IsSafe _ 1 m.kernel.sstatus v

enter_user-Holds :
    {m : Machine} (tf : Trapframe) (r : Option (ℕ × ℕ))
    → IsSafe m
    → Holds IsSafe (enter_user tf r m)
unfolding enter_user
enter_user-Holds tf none v = v
enter_user-Holds {m} tf (some (argc, argv)) v = elim (Option-cases m.kernel.current) [
  | inl idle ↦ simp (idle, enter_user) tt
  | inr (c, here) ↦ simp (here, enter_user) (to_user-IsSafe c v)
]

pub sys_exec-Holds :
    (mem : UserMemory) {m : Machine} (path argv : ℕ) (tf : Trapframe)
    → IsSafe m
    → Holds IsSafe (sys_exec mem m path argv tf)
unfolding sys_exec
sys_exec-Holds mem {m} path argv tf v =
    followed-Holds IsSafe (exec m m.kernel.current (mem.string_at m path) (mem.strings_at m argv))
      (enter_user tf) (exec-Holds m.kernel.current _ _ v) (λ m' w. w)
      (λ r m' w. enter_user-Holds tf r w)
