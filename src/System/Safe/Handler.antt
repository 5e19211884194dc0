-- ===== src/System/Safe/Handler.antt =====
-- Interrupts, faults and `trap_handler` keep the invariants.
use letsgo.Base.{
  ℕ, ◌*◌, ◌/◌, ◌%◌, ◌^◌, bit_and, refl, inl, inr, ◌||◌, List, ltb, leb, ◌==◌, Bool-cases,
  Option-cases,
}
use letsgo.Base.Int.{minus_one}
use letsgo.Process.Invariant.Switch.{sched_tick-IsValid}
use letsgo.Console.Ring.{uart_intr-IsInRing}
use letsgo.Vmm.Defs.{vmm_lookup_page}
use letsgo.System.Defs.{Machine, Event, user_limit, UserMemory, Trapframe}
use letsgo.System.Calls.{sys_exit}
use letsgo.System.Syscall.{unknown}
use letsgo.System.Trap.{
  timer_interrupt, device_interrupt, served, plic_complete, interrupt, syscall_trap, page_in,
  killed, user_fault, page_fault, exception, trap_handler,
}
use letsgo.System.Safe.{IsSafe, Holds, followed-Holds, prints-IsSafe}
use letsgo.System.Safe.Syscall.{handle_syscall-Holds}
use letsgo.System.Safe.Switches.{sys_exit-Holds}
use letsgo.System.Safe.Forks.{with_pmm-Holds, any_Ensures}
use letsgo.System.Safe.Loader.{moved-IsSafe}

timer-IsSafe : {m : Machine} (time : ℕ) → IsSafe m → IsSafe (timer_interrupt time m)
unfolding timer_interrupt
timer-IsSafe time v = record {
  processes = sched_tick-IsValid v.processes;
  files = v.files;
  keyboard = v.keyboard;
}

served-IsSafe : {m : Machine} (irq : ℕ) (ready : List ℕ) → IsSafe m → IsSafe (served irq ready m)
unfolding served
served-IsSafe {m} irq ready v = elim (Bool-cases (irq == 10)) [
  | inl uart ↦ rw uart (record {
    processes = v.processes;
    files = v.files;
    keyboard = uart_intr-IsInRing m.keys ready v.keyboard;
  })
  | inr other ↦ rw other v
]

complete-IsSafe : {m : Machine} (irq : ℕ) → IsSafe m → IsSafe (plic_complete irq m)
unfolding plic_complete
complete-IsSafe irq v = elim (Bool-cases (irq == 0)) [
  | inl nothing ↦ rw nothing v
  | inr claimed ↦ rw claimed (moved-IsSafe v refl refl refl)
]

interrupt-Holds :
    {m : Machine} (e : Event) (tf : Trapframe) (code : ℕ)
    → IsSafe m
    → Holds IsSafe (interrupt e m tf code)
unfolding interrupt device_interrupt
interrupt-Holds e tf code v = elim (Bool-cases (code == 5)) [
  | inl timer ↦ rw timer (timer-IsSafe e.time v)
  | inr other ↦ elim (Bool-cases (code == 9)) [
    | inl device ↦ rw (other, device) (complete-IsSafe e.irq (served-IsSafe e.irq e.ready v))
    | inr unknown ↦ rw (other, unknown) tt
  ]
]

killed-Holds : {m : Machine} (tf : Trapframe) → IsSafe m → Holds IsSafe (killed tf m)
unfolding killed
killed-Holds {m} tf v =
    followed-Holds IsSafe (sys_exit m minus_one) _ (sys_exit-Holds minus_one v) (λ m' w. w)
      (λ r m' w. w)

user_fault-Holds :
    {m : Machine} (tf : Trapframe) (pagetable addr code : ℕ)
    → IsSafe m
    → Holds IsSafe (user_fault m tf pagetable addr code)
unfolding user_fault
user_fault-Holds {m} tf pagetable addr code v = elim (Bool-cases (ltb addr 4096)) [
  | inl null ↦ rw null (killed-Holds tf (prints-IsSafe _ v))
  | inr user ↦ elim (Bool-cases (vmm_lookup_page m.pmm.words pagetable (addr / 4096 * 4096) == 0)) [
    | inl missing ↦
        rw (user, missing)
          (with_pmm-Holds m IsSafe (page_in m.pmm pagetable (addr / 4096 * 4096)) _ (any_Ensures _)
            (λ u s w. moved-IsSafe v refl refl refl))
    | inr mapped ↦ elim (Bool-cases (bit_and m.kernel.sstatus (2 ^ 8) == 0)) [
      | inl program ↦ rw (user, mapped, program) (killed-Holds tf (prints-IsSafe _ v))
      | inr ours ↦ rw (user, mapped, ours) tt
    ]
  ]
]

page_fault-Holds :
    {m : Machine} (tf : Trapframe) (addr code : ℕ)
    → IsSafe m
    → Holds IsSafe (page_fault m tf addr code)
unfolding page_fault
page_fault-Holds {m} tf addr code v = elim (Bool-cases (ltb addr user_limit)) [
  | inr high ↦ rw high tt
  | inl low ↦ elim (Option-cases m.kernel.current) [
    | inl idle ↦ simp (low, idle) tt
    | inr (c, here) ↦ elim (Bool-cases ((m.kernel.procs c).pagetable == 0)) [
      | inl bare ↦ simp (low, here, bare) tt
      | inr own ↦
          simp (low, here, own) (user_fault-Holds tf _ addr code (moved-IsSafe v refl refl refl))
    ]
  ]
]

syscall_trap-Holds :
    (mem : UserMemory) (e : Event) (trap_return : ℕ) {m : Machine} (tf : Trapframe) (width : ℕ)
    → IsSafe m
    → Holds IsSafe (syscall_trap mem e trap_return m tf width)
unfolding syscall_trap
syscall_trap-Holds mem e trap_return {m} tf width v =
    followed-Holds IsSafe _ _
      (handle_syscall-Holds mem e trap_return tf (moved-IsSafe v refl refl refl)) (λ m' w. w)
      (λ r m' w. w)

exception-Holds :
    (mem : UserMemory) (trap_return : ℕ) (e : Event) {m : Machine} (tf : Trapframe) (code : ℕ)
    → IsSafe m
    → Holds IsSafe (exception mem trap_return e m tf code)
unfolding exception
exception-Holds mem trap_return e tf code v = elim (Bool-cases (code == 3)) [
  | inl short ↦ rw short (syscall_trap-Holds mem e trap_return tf 2 v)
  | inr a ↦ elim (Bool-cases (code == 8 || code == 9)) [
    | inl long ↦ rw (a, long) (syscall_trap-Holds mem e trap_return tf 4 v)
    | inr b ↦ elim (Bool-cases (code == 12 || code == 13 || code == 15)) [
      | inl page ↦ rw (a, b, page) (page_fault-Holds tf e.stval code v)
      | inr c ↦ rw (a, b, c) tt
    ]
  ]
]

-- Every trap keeps the process table valid, the reference counts of the files right and the keyboard
-- ring in its bounds: an interrupt, a system call with any number and any arguments, or a fault, and
-- whether the handler goes back to the program or its process gives up the CPU, for a key too. The
-- exceptions are a panic, an access of the kernel outside its object, and a write through a pointer
-- of the program that leads outside the addresses of programs, or whose page fault the kernel does
-- not come back from.
pub trap_handler-Holds :
    (mem : UserMemory) (trap_return : ℕ) (e : Event) (m : Machine) (tf : Trapframe)
    → IsSafe m
    → Holds IsSafe (trap_handler mem trap_return e m tf)
unfolding trap_handler
trap_handler-Holds mem trap_return e m tf v = elim (Bool-cases (leb (2 ^ 63) e.scause)) [
  | inl async ↦ rw async (interrupt-Holds e tf (e.scause % 2 ^ 63) v)
  | inr sync ↦ rw sync (exception-Holds mem trap_return e tf (e.scause % 2 ^ 63) v)
]
