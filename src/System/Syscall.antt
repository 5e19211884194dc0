-- ===== src/System/Syscall.antt =====
-- `handle_syscall` of syscall.c.
use letsgo.Base.{
  ℕ, ◌+◌, ◌-◌, ◌%◌, ◌^◌, bit_or, Option, none, some, List, [], ◌∷◌, map, ltb, ◌==◌, if◌then◌else◌,
  update, length, get_or,
}
use letsgo.Base.Int.{minus_one, to_int, to_u64}
use letsgo.Console.Defs.{kbd_buf_size}
use letsgo.Console.Ring.{pending}
use letsgo.Console.Printf.{num}
use letsgo.System.Ps.{printed}
use letsgo.System.Defs.{
  followed, Event, Machine, Flow, goes_on, faulty, leaves, UserMemory, prints, set_kernel,
  Trapframe, tf_a0, tf_a1, tf_a2, tf_a3, tf_a4, tf_a7,
}
use letsgo.System.Calls.{
  sys_write, sys_read, sys_open, sys_close, sys_opendir, sys_readdir, sys_exec, sys_exit, sys_dup2,
  sys_fork, sys_wait, sys_yield, sys_lseek, sys_mkdir, sys_unlink, sys_get_trap_count,
  sys_get_sched_info, sys_ps, sys_kill,
}

-- The numbers of syscall.h that `handle_syscall` has a case for. `open_file` is SYS_open.
pub data Number : Type 0 where
  write read open_file close opendir readdir exec exit dup2 fork wait : Number
  get_tick yield lseek mkdir unlink get_trap_count get_sched_info ps kill : Number

-- The numbers from 2 on.
unfoldable pub numbers : List Number
numbers =
    write ∷ read ∷ open_file ∷ close ∷ opendir ∷ readdir ∷ exec ∷ exit ∷ dup2 ∷ fork ∷ wait
    ∷ get_tick ∷ yield ∷ lseek ∷ mkdir ∷ unlink ∷ get_trap_count ∷ get_sched_info ∷ ps ∷ kill ∷ []

-- The case for a number.
unfoldable pub number_of : ℕ → Option Number
number_of n = if ltb n 2 then none else get_or (map some numbers) (n - 2) none

-- A call that leaves the frame as it is.
unfoldable pub with_frame : Trapframe → Flow ℕ → Flow (ℕ × Trapframe)
with_frame tf f = followed f (λ r. goes_on (r, tf))

-- The cases for all calls but `exec`, with the event and the address of `trap_return`.
unfoldable pub plain_call : UserMemory → Event → ℕ → Machine → Trapframe → Number → Flow ℕ
plain_call mem e trap_return m tf write = sys_write mem m (tf tf_a0) (tf tf_a1) (tf tf_a2)
plain_call mem e trap_return m tf read = sys_read mem m (tf tf_a0) (tf tf_a1) (tf tf_a2)
plain_call mem e trap_return m tf open_file = sys_open mem m (tf tf_a0) (tf tf_a1)
plain_call mem e trap_return m tf close = sys_close m (tf tf_a0)
plain_call mem e trap_return m tf opendir = sys_opendir mem m (tf tf_a0)
plain_call mem e trap_return m tf readdir = sys_readdir mem m (tf tf_a0) (tf tf_a1)
plain_call mem e trap_return m tf exec = faulty
plain_call mem e trap_return m tf exit = sys_exit m (to_int (tf tf_a0))
plain_call mem e trap_return m tf dup2 = sys_dup2 m (tf tf_a0) (tf tf_a1)
plain_call mem e trap_return m tf fork = sys_fork m tf trap_return
plain_call mem e trap_return m tf wait = sys_wait mem m (to_int (tf tf_a0)) (tf tf_a1)
plain_call mem e trap_return m tf get_tick = goes_on e.time m
plain_call mem e trap_return m tf yield = sys_yield m
plain_call mem e trap_return m tf lseek = sys_lseek m (tf tf_a0) (tf tf_a1) (tf tf_a2)
plain_call mem e trap_return m tf mkdir = sys_mkdir mem m (tf tf_a0)
plain_call mem e trap_return m tf unlink = sys_unlink mem m (tf tf_a0)
plain_call mem e trap_return m tf get_trap_count = goes_on (sys_get_trap_count m (tf tf_a0)) m
plain_call mem e trap_return m tf get_sched_info =
    sys_get_sched_info mem m (tf tf_a0) (tf tf_a1) (tf tf_a2) (tf tf_a3) (tf tf_a4)
plain_call mem e trap_return m tf ps = sys_ps m
plain_call mem e trap_return m tf kill = sys_kill m (to_int (tf tf_a0))

-- One case of the `switch`: the result and the frame.
unfoldable pub call : UserMemory → Event → ℕ → Machine → Trapframe → Number → Flow (ℕ × Trapframe)
call mem e trap_return m tf exec = sys_exec mem m (tf tf_a0) (tf tf_a1) tf
call mem e trap_return m tf n = with_frame tf (plain_call mem e trap_return m tf n)

-- The `default`.
unfoldable pub unknown : Machine → Trapframe → Flow (ℕ × Trapframe)
unknown m tf =
    goes_on (to_u64 minus_one, tf)
      (prints m (printed "[Syscall] Unknown Syscall ID: %ld\n" (num (tf tf_a7) ∷ [])))

-- The `switch`.
unfoldable pub numbered :
    UserMemory → Event → ℕ → Machine → Trapframe → Option Number → Flow (ℕ × Trapframe)
numbered mem e trap_return m tf none = unknown m tf
numbered mem e trap_return m tf (some n) = call mem e trap_return m tf n

-- `uart_getc`: the byte that the UART has ready, unless it is 0.
abbrev pub polled : List ℕ → List ℕ
polled [] = []
polled (c ∷ ready) = if c == 0 then [] else c ∷ []

-- The terminal of the files delivers the keys of the ring, or a byte of the UART when the ring is
-- empty: `input` is those before the call, and the call moves `kbd_head` past those that it takes.
abbrev pub plugged : List ℕ → Machine → Machine
plugged ready m =
    let s = m.fs in
    let k = m.keys in
    let input = if k.kbd_head == k.kbd_tail then polled ready else pending k in
    record m { fs = record s { input = input } }

abbrev pub unplugged : Machine → Machine
unplugged m =
    let k = m.keys in
    let head = (k.kbd_tail + kbd_buf_size - length m.fs.input) % kbd_buf_size in
    record m {
      keys = record k { kbd_head = if k.kbd_head == k.kbd_tail then k.kbd_head else head };
    }

-- SSTATUS_SUM lets the kernel reach the memory of the program.
abbrev pub lets_user : Machine → Machine
lets_user m = let k = m.kernel in set_kernel m (record k { sstatus = bit_or k.sstatus (2 ^ 18) })

-- `tf->a0 = ret_val;`
unfoldable pub answer : ℕ × Trapframe → Machine → Flow Trapframe
answer (r, tf) = goes_on (update tf tf_a0 r)

-- The keys are taken from the ring also when the process loses the CPU.
unfoldable pub drained : {A : Type 0} → Flow A → Flow A
drained (goes_on a m) = goes_on a (unplugged m)
drained (leaves m) = leaves (unplugged m)
drained f = f

unfoldable pub handle_syscall : UserMemory → Event → ℕ → Machine → Trapframe → Flow Trapframe
handle_syscall mem e trap_return m tf = drained (
    followed (numbered mem e trap_return (plugged e.ready (lets_user m)) tf (number_of (tf tf_a7)))
      answer)
