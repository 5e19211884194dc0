-- ===== src/System/Safe/Syscall.antt =====
-- `handle_syscall` keeps the invariants.
use letsgo.Base.{ℕ, Option, none, some, List, arith}
use letsgo.Fs.Refs.Calls.{terminal-IsSound}
use letsgo.System.Defs.{
  Machine, Flow, goes_on, leaves, faulty, halts, Event, UserMemory, Trapframe, tf_a7,
}
use letsgo.System.Syscall.{
  Number, number_of, write, read, open_file, close, opendir, readdir, exec, exit, dup2, fork, wait,
  get_tick, yield, lseek, mkdir, unlink, get_trap_count, get_sched_info, ps, kill, with_frame,
  plain_call, call, unknown, numbered, plugged, unplugged, answer, drained, handle_syscall,
}
use letsgo.System.Safe.{IsSafe, Holds, followed-Holds, prints-IsSafe, registers-IsSafe}
use letsgo.System.Safe.Calls.{
  sys_write-Holds, sys_read-Holds, sys_readdir-Holds, sys_open-Holds, sys_opendir-Holds,
  sys_mkdir-Holds, sys_unlink-Holds, sys_get_sched_info-Holds, sys_close-Holds, sys_dup2-Holds,
  sys_lseek-Holds,
}
use letsgo.System.Safe.Switches.{sys_yield-Holds, sys_exit-Holds, sys_wait-Holds, sys_kill-Holds}
use letsgo.System.Safe.Forks.{sys_fork-Holds}
use letsgo.System.Safe.Loader.{sys_exec-Holds}

module _ (mem : UserMemory) (e : Event) (trap_return : ℕ) where
  plain_call-Holds :
      {m : Machine} (tf : Trapframe) (n : Number)
      → IsSafe m
      → Holds IsSafe (plain_call mem e trap_return m tf n)
  unfolding plain_call
  plain_call-Holds tf write v = sys_write-Holds mem _ _ _ v
  plain_call-Holds tf read v = sys_read-Holds mem _ _ _ v
  plain_call-Holds tf open_file v = sys_open-Holds mem _ _ v
  plain_call-Holds tf close v = sys_close-Holds _ v
  plain_call-Holds tf opendir v = sys_opendir-Holds mem _ v
  plain_call-Holds tf readdir v = sys_readdir-Holds mem _ _ v
  plain_call-Holds tf exec v = tt
  plain_call-Holds tf exit v = sys_exit-Holds _ v
  plain_call-Holds tf dup2 v = sys_dup2-Holds _ _ v
  plain_call-Holds tf fork v = sys_fork-Holds tf trap_return v
  plain_call-Holds tf wait v = sys_wait-Holds mem _ _ v
  plain_call-Holds tf get_tick v = v
  plain_call-Holds tf yield v = sys_yield-Holds v
  plain_call-Holds tf lseek v = sys_lseek-Holds _ _ _ v
  plain_call-Holds tf mkdir v = sys_mkdir-Holds mem _ v
  plain_call-Holds tf unlink v = sys_unlink-Holds mem _ v
  plain_call-Holds tf get_trap_count v = v
  plain_call-Holds tf get_sched_info v = sys_get_sched_info-Holds mem _ _ _ _ _ v
  plain_call-Holds tf ps v = prints-IsSafe _ v
  plain_call-Holds tf kill v = sys_kill-Holds _ v

  call-Holds :
      {m : Machine} (tf : Trapframe) (n : Number)
      → IsSafe m
      → Holds IsSafe (call mem e trap_return m tf n)
  unfolding call with_frame
  call-Holds tf exec v = sys_exec-Holds mem _ _ tf v
  call-Holds {m} tf n v =
      followed-Holds IsSafe (plain_call mem e trap_return m tf n) _ (plain_call-Holds tf n v)
        (λ m' w. w) (λ r m' w. w)

  numbered-Holds :
      {m : Machine} (tf : Trapframe) (n : Option Number)
      → IsSafe m
      → Holds IsSafe (numbered mem e trap_return m tf n)
  unfolding numbered unknown
  numbered-Holds tf none v = prints-IsSafe _ v
  numbered-Holds tf (some n) v = call-Holds tf n v

plugged-IsSafe : {m : Machine} (ready : List ℕ) → IsSafe m → IsSafe (plugged ready m)
plugged-IsSafe {m} ready v = record {
  processes = v.processes;
  files = terminal-IsSound _ m.fs.output v.files;
  keyboard = v.keyboard;
}

unplugged-IsSafe : {m : Machine} → IsSafe m → IsSafe (unplugged m)
unplugged-IsSafe v = record {
  processes = v.processes;
  files = v.files;
  keyboard = record { head_in = ground (arith, v.keyboard.head_in); tail_in = v.keyboard.tail_in };
}

drained-Holds : {A : Type 0} (f : Flow A) → Holds IsSafe f → Holds IsSafe (drained f)
unfolding drained
drained-Holds (goes_on a m) v = unplugged-IsSafe v
drained-Holds (leaves m) v = unplugged-IsSafe v
drained-Holds halts v = tt
drained-Holds faulty v = tt

pub handle_syscall-Holds :
    (mem : UserMemory) (e : Event) (trap_return : ℕ) {m : Machine} (tf : Trapframe)
    → IsSafe m
    → Holds IsSafe (handle_syscall mem e trap_return m tf)
unfolding handle_syscall answer
handle_syscall-Holds mem e trap_return {m} tf v = drained-Holds _ (
    followed-Holds IsSafe _ answer
      (numbered-Holds mem e trap_return tf (number_of (tf tf_a7))
        (plugged-IsSafe e.ready (registers-IsSafe m.kernel.user_satp m.kernel.switch_to_user _ v)))
      (λ m' w. w) (λ r m' w. w))
