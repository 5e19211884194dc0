-- ===== src/System/Trap.antt =====
-- `trap_handler` of trap.c.
use letsgo.Base.{
  ℕ, ◌+◌, ◌*◌, ◌/◌, ◌%◌, ◌^◌, bit_and, ◌||◌, none, some, List, [], ◌∷◌, ◌++◌, ltb, leb, ◌==◌,
  if◌then◌else◌, update,
}
use letsgo.Base.Int.{minus_one, u64}
use letsgo.Process.Switch.{sched_tick}
use letsgo.Console.Defs.{uart_intr}
use letsgo.Console.Printf.{num}
use letsgo.Pmm.Defs.{Pmm, Result, pmm_alloc_frame}
use letsgo.Vmm.Defs.{vmm_map_page, vmm_lookup_page, and_then, pte_r, pte_w, pte_x, pte_u}
use letsgo.System.Ps.{printed}
use letsgo.System.Defs.{
  followed, with_pmm, Event, user_limit, Machine, Flow, goes_on, halts, UserMemory, prints,
  Trapframe, tf_sepc,
}
use letsgo.System.Calls.{sys_exit}
use letsgo.System.Syscall.{handle_syscall}

abbrev pub clock_freq : ℕ
clock_freq = 100000

-- Case 5 of the interrupts.
unfoldable pub timer_interrupt : ℕ → Machine → Machine
timer_interrupt time m = record m {
  trap_timer_count = u64 (m.trap_timer_count + 1);
  kernel = sched_tick m.kernel;
  timer_at = u64 (time + clock_freq);
}

-- `if (irq == 10)`
unfoldable pub served : ℕ → List ℕ → Machine → Machine
served irq ready m =
    if irq == 10
    then record m { trap_uart_count = u64 (m.trap_uart_count + 1); keys = uart_intr m.keys ready }
    else m

-- `if (irq) plic_complete(irq);`
unfoldable pub plic_complete : ℕ → Machine → Machine
plic_complete irq m = if irq == 0 then m else record m { completed = m.completed ++ irq ∷ [] }

-- Case 9 of the interrupts.
unfoldable pub device_interrupt : ℕ → List ℕ → Machine → Machine
device_interrupt irq ready m = plic_complete irq (served irq ready m)

unfoldable pub interrupt : Event → Machine → Trapframe → ℕ → Flow Trapframe
interrupt e m tf code =
    if code == 5
    then goes_on tf (timer_interrupt e.time m)
    else if code == 9
    then goes_on tf (device_interrupt e.irq e.ready m)
    else halts

-- `if (tf->sepc == old_sepc) tf->sepc += width;`
abbrev pub stepped : ℕ → ℕ → Trapframe → Trapframe
stepped old_sepc width tf =
    if tf tf_sepc == old_sepc then update tf tf_sepc (u64 (old_sepc + width)) else tf

unfoldable pub syscall_trap : UserMemory → Event → ℕ → Machine → Trapframe → ℕ → Flow Trapframe
syscall_trap mem e trap_return m tf width =
    let m' = record m { trap_syscall_count = u64 (m.trap_syscall_count + 1) } in
    followed (handle_syscall mem e trap_return m' tf)
      (λ tf'. goes_on (stepped (tf tf_sepc) width tf'))

-- A new frame for the page at `va`.
unfoldable pub page_in : Pmm → ℕ → ℕ → Result (Unit {0})
page_in s pagetable va =
    and_then (pmm_alloc_frame s)
      (λ page t. vmm_map_page t pagetable va page (pte_r + pte_w + pte_x + pte_u))

-- `current->exit_code = -1; exit();`, which does not return.
unfoldable pub killed : Trapframe → Machine → Flow Trapframe
killed tf m = followed (sys_exit m minus_one) (λ r. goes_on tf)

-- A fault below `user_limit` of a process with the page table `pagetable`.
unfoldable pub user_fault : Machine → Trapframe → ℕ → ℕ → ℕ → Flow Trapframe
user_fault m tf pagetable addr code =
    let va = addr / 4096 * 4096 in
    let args = num addr ∷ num code ∷ [] in
    if ltb addr 4096
    then killed tf (prints m (printed "Fatal User Null Page Fault! VA: 0x%lx, cause: %ld\n" args))
    else if vmm_lookup_page m.pmm.words pagetable va == 0
    then with_pmm m (page_in m.pmm pagetable va) (λ u. goes_on tf)
    else if bit_and m.kernel.sstatus (2 ^ 8) == 0
    then killed tf (prints m (printed "Fatal Protection Fault! VA: 0x%lx, cause: %ld\n" args))
    else halts

-- Cases 12, 13 and 15 of the exceptions. The SPP bit of `sstatus` tells the kernel's faults.
unfoldable pub page_fault : Machine → Trapframe → ℕ → ℕ → Flow Trapframe
page_fault m tf addr code =
    let m' = record m { trap_page_fault_count = u64 (m.trap_page_fault_count + 1) } in
    if ltb addr user_limit
    then elim m.kernel.current [
      | none ↦ halts
      | some c ↦
          let pagetable = (m.kernel.procs c).pagetable in
          if pagetable == 0 then halts else user_fault m' tf pagetable addr code
    ]
    else halts

unfoldable pub exception : UserMemory → ℕ → Event → Machine → Trapframe → ℕ → Flow Trapframe
exception mem trap_return e m tf code =
    if code == 3
    then syscall_trap mem e trap_return m tf 2
    else if code == 8 || code == 9
    then syscall_trap mem e trap_return m tf 4
    else if code == 12 || code == 13 || code == 15
    then page_fault m tf e.stval code
    else halts

-- `trap_handler` with the address of `trap_return`, where the children of `fork` begin.
unfoldable pub trap_handler : UserMemory → ℕ → Event → Machine → Trapframe → Flow Trapframe
trap_handler mem trap_return e m tf =
    if leb (2 ^ 63) e.scause
    then interrupt e m tf (e.scause % 2 ^ 63)
    else exception mem trap_return e m tf (e.scause % 2 ^ 63)
