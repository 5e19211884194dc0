-- ===== src/System/Calls.antt =====
-- The `sys_` functions of syscall.c.
use letsgo.Base.{
  ℕ, ◌-◌, ◌%◌, ◌^◌, bit_and, ◌||◌, Option, none, some, List, [], ◌∷◌, ltb, ◌==◌, if◌then◌else◌,
  points_to, update, slice,
}
use letsgo.Base.Int.{ℤ, pos, negsuc, minus_one, to_int, to_u64}
use letsgo.Process.Defs.{Kernel}
use letsgo.Process.Switch.{set_proc, yield_cpu, make_satp}
use letsgo.Process.Life.{allocproc, exit_proc, wait_round, failed, reaped, asleep, do_kill}
use letsgo.Fs.Defs.{Outcome}
use letsgo.Fs.Files.{
  fs_open, fs_read, fs_close, fs_write, fs_lseek, fs_mkdir, fs_unlink, fs_opendir, fs_readdir,
  fs_dup2,
}
use letsgo.System.Defs.{
  with_fs, with_pmm, followed, Machine, Flow, goes_on, faulty, leaves, gives_up, UserMemory, put,
  put_if, le_bytes, prints, set_kernel, Trapframe, tf_sp, tf_a1, tf_sepc, tf_sstatus,
}
use letsgo.System.Exec.{exec}
use letsgo.System.Fork.{fork_from_trap}
use letsgo.System.Ps.{do_ps}

-- The `int` result of a call of fs.c, as a `uint64_t`.
unfoldable pub of_fs : Machine → Outcome ℤ → Flow ℕ
of_fs m o = with_fs m o (λ r. goes_on (to_u64 r))

-- What `sys_write` does with the result of `fs_write`.
unfoldable pub write_or_print : UserMemory → ℕ → ℕ → ℕ → ℤ → Machine → Flow ℕ
write_or_print mem fd buf count (pos n) m = goes_on n m
write_or_print mem fd buf count (negsuc e) m =
    if fd == 1 || fd == 2
    then goes_on count (prints m (slice (mem.bytes_at m buf) 0 count))
    else goes_on (to_u64 minus_one) m

unfoldable pub sys_write : UserMemory → Machine → ℕ → ℕ → ℕ → Flow ℕ
sys_write mem m fd buf count =
    with_fs m (fs_write m.fs (to_int fd) (mem.bytes_at m buf) (to_int count))
      (write_or_print mem fd buf count)

-- `uart_getc_blocking` for `buf[0]`, which calls `yield` while there is no key. Ctrl+D ends the file.
unfoldable pub read_key : UserMemory → Machine → ℕ → List ℕ → Flow ℕ
read_key mem m buf [] = gives_up m (yield_cpu m.kernel)
read_key mem m buf (c ∷ rest) =
    let s = m.fs in
    let m' = record m { fs = record s { input = rest } } in
    if c == 0x04 then goes_on 0 m' else followed (put mem m' buf (c ∷ [])) (λ u. goes_on 1)

-- What `sys_read` does with the result of `fs_read`, whose bytes are in `buf` then.
unfoldable pub read_or_key : UserMemory → ℕ → ℕ → ℕ → ℤ → Machine → Flow ℕ
read_or_key mem fd buf count (pos n) m = goes_on n m
read_or_key mem fd buf count (negsuc e) m =
    if fd == 0
    then if ltb 0 count then read_key mem m buf m.fs.input else goes_on 0 m
    else goes_on (to_u64 minus_one) m

unfoldable pub sys_read : UserMemory → Machine → ℕ → ℕ → ℕ → Flow ℕ
sys_read mem m fd buf count =
    with_fs m (fs_read m.fs (to_int fd) (to_int count))
      (λ (r, text) m'. followed (put mem m' buf text) (λ u. read_or_key mem fd buf count r))

unfoldable pub sys_open : UserMemory → Machine → ℕ → ℕ → Flow ℕ
sys_open mem m path flags = of_fs m (fs_open m.fs (mem.string_at m path) (flags % 2 ^ 32))

unfoldable pub sys_close : Machine → ℕ → Flow ℕ
sys_close m fd = of_fs m (fs_close m.fs (to_int fd))

unfoldable pub sys_opendir : UserMemory → Machine → ℕ → Flow ℕ
sys_opendir mem m path = of_fs m (fs_opendir m.fs (mem.string_at m path))

unfoldable pub sys_readdir : UserMemory → Machine → ℕ → ℕ → Flow ℕ
sys_readdir mem m fd name =
    with_fs m (fs_readdir m.fs (to_int fd))
      (λ (r, text) m'. followed (put mem m' name text) (λ u. goes_on (to_u64 r)))

-- `switch_to_user = 1` makes trap_vec.S load `user_satp`.
unfoldable pub to_user : Machine → ℕ → Machine
to_user m c =
    let k = m.kernel in
    record m {
      kernel = record k { user_satp = make_satp (k.procs c).pagetable; switch_to_user = 1 };
    }

-- What `sys_exec` does with the result of `exec`; the frame enters the new program in user mode.
unfoldable pub enter_user : Trapframe → Option (ℕ × ℕ) → Machine → Flow (ℕ × Trapframe)
enter_user tf none m = goes_on (to_u64 minus_one, tf) m
enter_user tf (some (argc, argv)) m = elim m.kernel.current [
  | none ↦ faulty
  | some c ↦
      let p = m.kernel.procs c in
      let user_mode = tf tf_sstatus - bit_and (tf tf_sstatus) (2 ^ 8) in
      goes_on
        (
          argc,
          update (update (update (update tf tf_sepc p.entry) tf_sstatus user_mode) tf_sp p.ustack)
              tf_a1 argv,
        )
        (to_user m c)
]

unfoldable pub sys_exec : UserMemory → Machine → ℕ → ℕ → Trapframe → Flow (ℕ × Trapframe)
sys_exec mem m path argv tf =
    followed (exec m m.kernel.current (mem.string_at m path) (mem.strings_at m argv))
      (enter_user tf)

-- After `yield`: either another process runs, or the call goes on with `r`.
unfoldable pub back_from_yield : Machine → ℕ → Option Kernel → Flow ℕ
back_from_yield m r none = faulty
back_from_yield m r (some k) = elim k.current [
  | none ↦ goes_on r (set_kernel m k)
  | some c ↦
      if points_to m.kernel.current c then goes_on r (set_kernel m k) else leaves (set_kernel m k)
]

unfoldable pub sys_yield : Machine → Flow ℕ
sys_yield m = back_from_yield m 0 (yield_cpu m.kernel)

-- `current->exit_code = status; exit();` with `current`.
unfoldable pub exit_with : Machine → ℤ → Option ℕ → Flow ℕ
exit_with m status none = faulty
exit_with m status (some c) =
    gives_up m (exit_proc (set_proc m.kernel c (λ p. record p { exit_code = status })))

unfoldable pub sys_exit : Machine → ℤ → Flow ℕ
sys_exit m status = exit_with m status m.kernel.current

unfoldable pub sys_wait : UserMemory → Machine → ℤ → ℕ → Flow ℕ
sys_wait mem m pid status = elim (wait_round m.kernel pid) [
  | failed ↦ goes_on (to_u64 minus_one) m
  | reaped n code k ↦
      followed (put_if mem (set_kernel m k) status (le_bytes 4 (to_u64 code)))
        (λ u. goes_on (to_u64 (to_int n)))
  | asleep k ↦ gives_up m k
]

unfoldable pub sys_dup2 : Machine → ℕ → ℕ → Flow ℕ
sys_dup2 m oldfd newfd = of_fs m (fs_dup2 m.fs (to_int oldfd) (to_int newfd))

unfoldable pub sys_lseek : Machine → ℕ → ℕ → ℕ → Flow ℕ
sys_lseek m fd offset whence = of_fs m (fs_lseek m.fs (to_int fd) (to_int offset) (to_int whence))

unfoldable pub sys_mkdir : UserMemory → Machine → ℕ → Flow ℕ
sys_mkdir mem m path = of_fs m (fs_mkdir m.fs (mem.string_at m path))

unfoldable pub sys_unlink : UserMemory → Machine → ℕ → Flow ℕ
sys_unlink mem m path = of_fs m (fs_unlink m.fs (mem.string_at m path))

-- `fork_from_trap` with `current`, which it reads through when an entry is free.
unfoldable pub fork_with : Machine → Trapframe → ℕ → Option ℕ → Flow ℕ
fork_with m tf trap_return (some c) =
    with_pmm m (fork_from_trap m.kernel c m.pmm tf trap_return)
      (λ (r, k) m'. goes_on (to_u64 r) (set_kernel m' k))
fork_with m tf trap_return none =
    let (slot, k) = allocproc m.kernel in
    elim slot [ none ↦ goes_on (to_u64 minus_one) m | some i ↦ faulty ]

unfoldable pub sys_fork : Machine → Trapframe → ℕ → Flow ℕ
sys_fork m tf trap_return = fork_with m tf trap_return m.kernel.current

unfoldable pub sys_get_trap_count : Machine → ℕ → ℕ
sys_get_trap_count m type =
    if type == 0
    then m.trap_timer_count
    else if type == 1
    then m.trap_uart_count
    else if type == 2
    then m.trap_syscall_count
    else if type == 3
    then m.trap_page_fault_count
    else to_u64 minus_one

unfoldable pub sys_get_sched_info : UserMemory → Machine → ℕ → ℕ → ℕ → ℕ → ℕ → Flow ℕ
sys_get_sched_info mem m algorithm pid priority slice_at need_resched = elim m.kernel.current [
  | none ↦ goes_on (to_u64 minus_one) m
  | some c ↦
      let p = m.kernel.procs c in
      followed (put_if mem m algorithm (le_bytes 4 m.kernel.sched_algorithm)) (λ u m1.
        followed (put_if mem m1 pid (le_bytes 4 p.pid)) (λ u m2.
          followed (put_if mem m2 priority (le_bytes 4 p.priority)) (λ u m3.
            followed (put_if mem m3 slice_at (le_bytes 8 p.slice)) (λ u m4.
              followed
                (put_if mem m4 need_resched (le_bytes 4 (if m.kernel.need_resched then 1 else 0)))
                (λ u. goes_on 0)))))
]

abbrev pub sys_ps : Machine → Flow ℕ
sys_ps m = goes_on 0 (prints m (do_ps m.kernel))

abbrev pub sys_kill : Machine → ℤ → Flow ℕ
sys_kill m pid = let (r, k) = do_kill m.kernel pid in goes_on (to_u64 r) (set_kernel m k)
