-- ===== src/System/Safe.antt =====
-- The invariants of the parts, kept by every system call.
pub mod Calls
pub mod Switches
pub mod Forks
pub mod Loader
pub mod Syscall
pub mod Handler
use letsgo.Base.{
  ℕ, zero, suc, ◌+◌, ◌-◌, ◌*◌, ◌/◌, ◌%◌, ◌^◌, ◌≤◌, ◌<◌, bit_and, bit_or, min, ◌≡◌, refl, sym, ap,
  ◌∙◌, subst, ◌≢◌, ◌↔◌, ◌⊎◌, inl, inr, Bool, true, false, not, ◌&&◌, ◌||◌, Option, none, some, List,
  [], ◌∷◌, ◌++◌, map, reverse, append_assoc, append-nil, arith, dec_lt, ℕ_discrete, ltb, leb, ◌==◌,
  if◌then◌else◌, ==_iff, Bool-cases, Option-cases, points_to, points_to-eq, some_inj, update,
  length, get_or, take, drop, slice, blit, length-append, length-slice, find_from, IsFirst,
  find_from-IsFirst, find_from-none, find_from-some,
}
use letsgo.Base.Int.{ℤ}
use letsgo.Process.Defs.{Kernel}
use letsgo.Process.Switch.{yield_cpu}
use letsgo.Process.Invariant.Defs.{IsValid}
use letsgo.Process.Invariant.Switch.{yield_cpu-IsValid}
use letsgo.Fs.Defs.{Outcome, returns, faults, waits}
use letsgo.Fs.Refs.Sound.{IsSound, After}
use letsgo.Fs.Refs.Calls.{terminal-IsSound}
use letsgo.Console.Ring.{IsInRing}
use letsgo.Pmm.Defs.{Pmm}
use letsgo.System.Defs.{
  with_fs, followed, Machine, Flow, goes_on, halts, faulty, leaves, gives_up, UserMemory, put,
  put_if, stored, in_program, prints, set_kernel,
}
use letsgo.System.Calls.{of_fs}

-- The process table, the reference counts and the keyboard ring are right.
pub record IsSafe (m : Machine) : Type 0 where
  pub processes : IsValid m.kernel
  pub files : IsSound m.fs
  pub keyboard : IsInRing m.keys

-- Whether the code goes on or loses the CPU, its state has `P`.
abbrev pub Holds : {A : Type 0} → (Machine → Type 0) → Flow A → Type 0
Holds P (goes_on a m) = P m
Holds P (leaves m) = P m
Holds P halts = Unit
Holds P faulty = Unit

pub followed-Holds :
    {A B : Type 0} {P : Machine → Type 0} (Q : Machine → Type 0) (f : Flow A)
    (g : A → Machine → Flow B)
    → Holds P f
    → ((m : Machine) → P m → Q m)
    → ((a : A) (m : Machine) → P m → Holds Q (g a m))
    → Holds Q (followed f g)
unfolding followed
followed-Holds Q (goes_on a m) g h k l = l a m h
followed-Holds Q (leaves m) g h k l = k m h
followed-Holds Q halts g h k l = tt
followed-Holds Q faulty g h k l = tt

pub kernel-IsSafe : {m : Machine} {k : Kernel} → IsSafe m → IsValid k → IsSafe (set_kernel m k)
kernel-IsSafe v p = record { processes = p; files = v.files; keyboard = v.keyboard }

pub gives_up-Holds :
    (A : Type 0) {m : Machine} (o : Option Kernel)
    → IsSafe m
    → ((k : Kernel) → o ≡ some k → IsValid k)
    → Holds IsSafe (gives_up {A = A} m o)
unfolding gives_up
gives_up-Holds A none v h = tt
gives_up-Holds A (some k) v h = kernel-IsSafe v (h k refl)

pub with_fs-Holds :
    {A B : Type 0} {m : Machine} (o : Outcome A) (g : A → Machine → Flow B)
    → IsSafe m
    → After IsSound o
    → ((a : A) (m' : Machine) → IsSafe m' → Holds IsSafe (g a m'))
    → Holds IsSafe (with_fs m o g)
unfolding with_fs
with_fs-Holds {m = m} (returns a s) g v f k =
    k a (record m { fs = s }) (record { processes = v.processes; files = f; keyboard = v.keyboard })
with_fs-Holds faults g v f k = tt
with_fs-Holds {m = m} waits g v f k =
    gives_up-Holds _ (yield_cpu m.kernel) v (λ q e. yield_cpu-IsValid v.processes e)

stored-Holds : {m : Machine} (r : Option (Pmm × ℕ)) → IsSafe m → Holds IsSafe (stored m r)
unfolding stored
stored-Holds none v = tt
stored-Holds (some (s, n)) v = record {
  processes = v.processes;
  files = v.files;
  keyboard = v.keyboard;
}

pub put-Holds :
    (mem : UserMemory) {m : Machine} (a : ℕ) (bytes : List ℕ)
    → IsSafe m
    → Holds IsSafe (put mem m a bytes)
unfolding put
put-Holds mem a [] v = v
put-Holds mem {m} a (b ∷ bytes) v = elim (Bool-cases (in_program a (length (b ∷ bytes)))) [
  | inl inside ↦ rw inside (stored-Holds (mem.store m a (b ∷ bytes)) v)
  | inr outside ↦ rw outside tt
]

pub put_if-Holds :
    (mem : UserMemory) {m : Machine} (a : ℕ) (bytes : List ℕ)
    → IsSafe m
    → Holds IsSafe (put_if mem m a bytes)
put_if-Holds mem {m} a bytes v = elim (Bool-cases (a == 0)) [
  | inl null ↦ rw null v
  | inr there ↦ rw there (put-Holds mem a bytes v)
]

pub prints-IsSafe : {m : Machine} (text : List ℕ) → IsSafe m → IsSafe (prints m text)
prints-IsSafe {m} text v = record {
  processes = v.processes;
  files = terminal-IsSound m.fs.input _ v.files;
  keyboard = v.keyboard;
}

-- Registers of the kernel are no part of the invariant.
pub registers-IsSafe :
    {m : Machine} (user_satp switch_to_user sstatus : ℕ)
    → IsSafe m
    → IsSafe (
        set_kernel m (record m.kernel {
          user_satp = user_satp;
          switch_to_user = switch_to_user;
          sstatus = sstatus;
        }))
registers-IsSafe a b c v =
    let p = v.processes in
    kernel-IsSafe v (record {
      next_in = p.next_in;
      current_in = p.current_in;
      current_used = p.current_used;
      good = p.good;
    })

pub of_fs-Holds :
    {m : Machine} (o : Outcome ℤ) → IsSafe m → After IsSound o → Holds IsSafe (of_fs m o)
unfolding of_fs
of_fs-Holds o v f = with_fs-Holds o _ v f (λ a m w. w)
