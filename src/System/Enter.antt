-- ===== src/System/Enter.antt =====
-- What an `exec` that succeeds does to the frame of its caller.
pub mod Frame
pub mod Handler
mod Tests
use letsgo.Base.{
  ℕ, zero, suc, ◌+◌, ◌-◌, ◌*◌, ◌/◌, ◌%◌, ◌^◌, ◌≤◌, ◌<◌, bit_and, bit_or, min, ◌≡◌, refl, sym, ap,
  ◌∙◌, subst, ◌≢◌, ◌↔◌, ◌⊎◌, inl, inr, Bool, true, false, not, ◌&&◌, ◌||◌, Option, none, some, List,
  [], ◌∷◌, ◌++◌, map, reverse, append_assoc, append-nil, arith, dec_lt, ℕ_discrete, ltb, leb, ◌==◌,
  if◌then◌else◌, ==_iff, Bool-cases, Option-cases, points_to, points_to-eq, some_inj, update,
  length, get_or, take, drop, slice, blit, length-append, length-slice, find_from, IsFirst,
  find_from-IsFirst, find_from-none, find_from-some,
}
use letsgo.Base.Int.{ℤ, pos, negsuc}
use letsgo.Process.Defs.{Kernel}
use letsgo.Fs.Defs.{Outcome, returns, faults, waits, o_rdonly, Fs}
use letsgo.Fs.Files.{fs_open, fs_read, fs_close}
use letsgo.Pmm.Defs.{Pmm, Result, done, panics}
use letsgo.Heap.Defs.{Heap, kmalloc, kfree}
use letsgo.Elf.Defs.{load_elf, has_magic, e_entry}
use letsgo.Process.Switch.{yield_cpu}
use letsgo.System.Defs.{
  Machine, Flow, goes_on, leaves, faulty, halts, followed, gives_up, with_fs, with_pmm,
}
use letsgo.System.Exec.{
  exec, opened, buffered, read_image, image_read, load_image, enter_space, build_space, walk_fuel,
  elf_buf_size, into_heap,
}

-- What the code goes on with, and in what state.
abbrev pub Ends : {A : Type 0} → (A → Machine → Type 0) → Flow A → Type 0
Ends P (goes_on a m) = P a m
Ends P (leaves m) = Unit
Ends P halts = Unit
Ends P faulty = Unit

pub Ends-followed :
    {A B : Type 0} {P : A → Machine → Type 0} (Q : B → Machine → Type 0) (f : Flow A)
    (g : A → Machine → Flow B)
    → Ends P f
    → ((a : A) (m : Machine) → P a m → Ends Q (g a m))
    → Ends Q (followed f g)
unfolding followed
Ends-followed Q (goes_on a m) g h k = k a m h
Ends-followed Q (leaves m) g h k = tt
Ends-followed Q halts g h k = tt
Ends-followed Q faulty g h k = tt

gives_up-Ends :
    {A : Type 0} (Q : A → Machine → Type 0) (m : Machine) (o : Option Kernel)
    → Ends Q (gives_up m o)
unfolding gives_up
gives_up-Ends Q m none = tt
gives_up-Ends Q m (some k) = tt

module _ {A B : Type 0} (m : Machine) (Q : B → Machine → Type 0) (g : A → Machine → Flow B) where
  with_fs-Ends :
      (o : Outcome A)
      → ((a : A) (s : Fs) → o ≡ returns a s → Ends Q (g a (record m { fs = s })))
      → Ends Q (with_fs m o g)
  unfolding with_fs
  with_fs-Ends (returns a s) k = k a s refl
  with_fs-Ends faults k = tt
  with_fs-Ends waits k = gives_up-Ends Q m (yield_cpu m.kernel)

  with_pmm-Ends :
      (r : Result A)
      → ((a : A) (s : Pmm) → r ≡ done a s → Ends Q (g a (record m { pmm = s })))
      → Ends Q (with_pmm m r g)
  unfolding with_pmm
  with_pmm-Ends (done a s) k = k a s refl
  with_pmm-Ends panics k = tt

-- What a caller asks of `exec`.
pub record Request : Type 0 where
  pub kernel : Kernel
  pub files : Fs
  pub path : List ℕ
  pub args : List (List ℕ)

-- `file` begins with the bytes that a read of the file at the path gives, at most 65536.
pub record IsFile (q : Request) (file : ℕ → ℕ) : Type 0 where
  pub fd : ℤ
  pub size : ℤ
  pub text : List ℕ
  pub opened : Fs
  pub after_read : Fs
  pub opens : fs_open q.files q.path o_rdonly ≡ returns fd opened
  pub reads : fs_read opened fd (pos 65536) ≡ returns (size, text) after_read
  pub bytes : (i : ℕ) → i < length text → file i ≡ get_or text i 0

-- The entry, the page table, the stack pointer and the frames are those of a file with the magic
-- number.
pub record IsImage (q : Request) (entry pagetable ustack : ℕ) (frames : Pmm) : Type 0 where
  pub file : ℕ → ℕ
  pub is_file : IsFile q file
  pub magic : has_magic file ≡ true
  pub at : entry ≡ e_entry file % 2 ^ 32
  pub before : Pmm
  pub space :
      build_space before q.kernel.kernel_pagetable file q.args ≡ done (pagetable, ustack) frames

-- The current process has got the space of the file, and at most 16 arguments, which the result
-- counts.
pub record Loaded (q : Request) (k : Kernel) (frames : Pmm) (argc argv : ℕ) : Type 0 where
  pub process : ℕ
  pub current : q.kernel.current ≡ some process
  pub still : k.current ≡ some process
  pub image : let p = k.procs process in IsImage q p.entry p.pagetable p.ustack frames
  pub stack : (k.procs process).ustack ≡ argv
  pub count : argc ≡ length q.args
  pub few : length q.args ≤ 16
  pub others : (j : ℕ) → j ≢ process → k.procs j ≡ q.kernel.procs j

abbrev pub Execed : Request → Option (ℕ × ℕ) → Machine → Type 0
Execed q none m = m.kernel ≡ q.kernel
Execed q (some (argc, argv)) m = Loaded q m.kernel m.pmm argc argv

load_elf-magic :
    (file : ℕ → ℕ) (entry : ℕ)
    → load_elf file ≡ some entry
    → (has_magic file ≡ true) × (entry ≡ e_entry file % 2 ^ 32)
unfolding load_elf
load_elf-magic file entry e = elim (Bool-cases (has_magic file)) [
  | inl good ↦ (good, sym (some_inj (rw good at e)))
  | inr bad ↦ absurd (none-ne (rw bad at e))
]
  where
    none-ne : {a : ℕ} → none ≢ some a
    none-ne e = ground arith

module _ (files : Fs) (path : List ℕ) (args : List (List ℕ)) where
  abbrev ask : Machine → Request
  ask m = record { kernel = m.kernel; files = files; path = path; args = args }

  enter_space-Ends :
      (m : Machine) (c : Option ℕ) (entry table sp : ℕ)
      → m.kernel.current ≡ c
      → IsImage (ask m) entry table sp m.pmm
      → Ends (Execed (ask m)) (enter_space c entry args (table, sp) m)
  unfolding enter_space
  enter_space-Ends m none entry table sp here w = tt
  enter_space-Ends m (some c) entry table sp here w = elim (Bool-cases (ltb 16 (length args))) [
    | inl many ↦ rw many tt
    | inr few ↦
        let self : (c == c) ≡ true = ground arith in
        rw few (record {
          process = c;
          current = here;
          still = here;
          image = rw self w;
          stack = ground arith;
          count = refl;
          few = ground (arith, few);
          others = λ j n. ground (arith, n);
        })
  ]

  load_image-Ends :
      (m : Machine) (elf_buf : ℕ)
      → IsFile (ask m) (λ i. m.heap_bytes (elf_buf + i))
      → Ends (Execed (ask m)) (load_image m.kernel.current elf_buf args m)
  unfolding load_image
  load_image-Ends m elf_buf w =
      let file : ℕ → ℕ = λ i. m.heap_bytes (elf_buf + i) in
      elim (Option-cases (load_elf file)) [
        | inl bad ↦ simp (bad, load_image) refl
        | inr (entry, ok) ↦
            simp (ok, load_image)
              (with_pmm-Ends (record m { heap = kfree m.heap elf_buf }) (Execed (ask m))
                (enter_space m.kernel.current entry args)
                (build_space m.pmm m.kernel.kernel_pagetable file args)
                (λ (table, sp) s e.
                  enter_space-Ends _ m.kernel.current entry table sp refl (record {
                    file = file;
                    is_file = w;
                    magic = (load_elf-magic file entry ok).0;
                    at = (load_elf-magic file entry ok).1;
                    before = m.pmm;
                    space = e;
                  })))
      ]

  image_read-Ends :
      (m : Machine) (size : ℤ) (elf_buf : ℕ)
      → IsFile (ask m) (λ i. m.heap_bytes (elf_buf + i))
      → Ends (Execed (ask m)) (image_read m.kernel.current size elf_buf args m)
  unfolding image_read
  image_read-Ends m (pos zero) elf_buf w = refl
  image_read-Ends m (pos (suc n)) elf_buf w = load_image-Ends m elf_buf w
  image_read-Ends m (negsuc e) elf_buf w = refl

  into_heap-bytes :
      (bytes : ℕ → ℕ) (elf_buf : ℕ) (text : List ℕ) (i : ℕ)
      → i < length text
      → into_heap bytes elf_buf text (elf_buf + i) ≡ get_or text i 0
  into_heap-bytes bytes elf_buf text i l =
      let back : elf_buf + i - elf_buf ≡ i = omega arith in
      let inside : (leb elf_buf (elf_buf + i) && ltb (elf_buf + i) (elf_buf + length text)) ≡ true =
        ground (arith, l) in
      rw inside (ap (λ j. get_or text j 0) back)

  read_image-Ends :
      (m : Machine) (fd : ℤ) (elf_buf : ℕ)
      → fs_open files path o_rdonly ≡ returns fd m.fs
      → Ends (Execed (ask m)) (read_image m.kernel.current fd elf_buf args m)
  unfolding read_image
  read_image-Ends m fd elf_buf o =
      with_fs-Ends m (Execed (ask m)) _ (fs_read m.fs fd (pos elf_buf_size)) (λ (size, text) s r.
        with_fs-Ends _ (Execed (ask m)) _ (fs_close s fd) (λ z t c.
          image_read-Ends _ size elf_buf (record {
            fd = fd;
            size = size;
            text = text;
            opened = m.fs;
            after_read = s;
            opens = o;
            reads = r;
            bytes = into_heap-bytes m.heap_bytes elf_buf text;
          })))

  buffered-Ends :
      (m : Machine) (fd : ℤ) (r : Option (ℕ × Heap))
      → fs_open files path o_rdonly ≡ returns fd m.fs
      → Ends (Execed (ask m)) (buffered m.kernel.current fd args r m)
  unfolding buffered
  buffered-Ends m fd none o = with_fs-Ends m (Execed (ask m)) _ (fs_close m.fs fd) (λ r s e. refl)
  buffered-Ends m fd (some (elf_buf, h)) o = read_image-Ends (record m { heap = h }) fd elf_buf o

  opened-Ends :
      (m : Machine) (r : ℤ)
      → fs_open files path o_rdonly ≡ returns r m.fs
      → Ends (Execed (ask m)) (opened m.kernel.current args r m)
  unfolding opened
  opened-Ends m (negsuc e) o = refl
  opened-Ends m (pos fd) o =
      with_pmm-Ends m (Execed (ask m)) _
        (kmalloc (walk_fuel m.heap) m.heap m.pmm m.kernel.kernel_pagetable elf_buf_size)
        (λ r s e. buffered-Ends (record m { pmm = s }) (pos fd) r o)

pub exec-Ends :
    (m : Machine) (path : List ℕ) (args : List (List ℕ))
    → Ends
        (Execed (record { kernel = m.kernel; files = m.fs; path = path; args = args }))
        (exec m m.kernel.current path args)
unfolding exec
exec-Ends m path args =
    with_fs-Ends m (Execed (record { kernel = m.kernel; files = m.fs; path = path; args = args })) _
      (fs_open m.fs path o_rdonly) (λ r s e. opened-Ends m.fs path args (record m { fs = s }) r e)
