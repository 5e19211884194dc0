-- ===== src/System/Tests.antt =====
-- The theorems on traps at concrete states.
use letsgo.Base.{
  ℕ, ◌+◌, ◌-◌, ◌*◌, ◌^◌, ◌<◌, ◌≡◌, refl, sym, subst, ◌⊎◌, inl, inr, true, false, none, some, [],
  ◌∷◌, arith, ◌==◌, if◌then◌else◌, slice, find_from,
}
use letsgo.Base.Int.{pos}
use letsgo.Process.Defs.{Kernel, Proc, ProcState, Chan}
use letsgo.Process.Invariant.Defs.{IsValid}
use letsgo.Fs.Defs.{Fs, InodeType}
use letsgo.Fs.Files.{fs_init}
use letsgo.Fs.Refs.Steps.{fs_init-IsSound}
use letsgo.Pmm.Defs.{Pmm, bitmap_test, bitmap_set, pmm_alloc_frame, panics, done}
use letsgo.Pmm.Frames.{IsSane, Busy}
use letsgo.Vmm.Fresh.{IsEmpty-IsTree, IsEmpty-Owns}
use letsgo.Vmm.Grow.{IsMapped}
use letsgo.Vmm.Defs.{vmm_lookup_page, lookup_from}
use letsgo.Vmm.Kernel.{Ensures}
use letsgo.System.Defs.{Machine, goes_on, halts, UserMemory, Trapframe, tf_a0, Event}
use letsgo.System.Fork.{fork_from_trap}
use letsgo.Text.{c_string, strcmp, tokens, tokens_from, strtok, skip, span, is_delim, strchr}
use letsgo.System.Ps.{codes}
use letsgo.System.Shell.{parse, parse_from, pipe_commands}
use letsgo.Vmm.Defs.{and_then, vmm_map_page, map_from, next_table, set_leaf}
use letsgo.System.Trap.{trap_handler, page_in}
use letsgo.Vmm.NewPage.{PagedIn}
use letsgo.System.Paging.{Missing, trap_handler_pages_in, va_of, counted}
use letsgo.System.Safe.{IsSafe, Holds}
use letsgo.System.Safe.Handler.{trap_handler-Holds}
use letsgo.System.Frame.{IsReturned}
use letsgo.System.Unknown.{IsUntouched, unknown_syscall}
use letsgo.System.Child.{Forked, fork_from_trap-Forked}

-- The page 1 is an empty table, and in use like the page 0.
abbrev memory : Pmm
memory = record {
  bitmap = λ i. if i == 0 then 3 else 0;
  total_pages = 16;
  page_start_addr = 0x80200000;
  words = λ a. 0;
}

abbrev root : ℕ
root = 0x80201000

page-zero : (j : ℕ) → j * 32768 < 16 → j ≡ 0
page-zero j h = omega arith

memory-IsSane : IsSane memory
unfolding bitmap_test
memory-IsSane = record {
  bytes = λ k. ground arith;
  reserved = λ j h. rw (page-zero j h) refl;
  aligned = refl;
}

memory-IsMapped : IsMapped 2 memory root
unfolding bitmap_test
memory-IsMapped = record {
  tree = IsEmpty-IsTree 2 memory.words root refl (λ k b. refl);
  busy = λ a o.
      subst (Busy memory) (sym (IsEmpty-Owns 2 memory.words root a (λ k b. refl) o))
        (record { index = 1; at = refl; bit = refl; sane = memory-IsSane });
}

-- The process 0 runs a program with that table; the other entries are free.
abbrev entry_of : ℕ → Proc
entry_of i = record {
  pid = 0;
  state = if i == 0 then ProcState.running else ProcState.unused;
  context = λ r. 0;
  kstack = 0x80100000;
  ctime = 0;
  enq_time = 0;
  slice = 10;
  priority = 0;
  parent = none;
  exit_code = pos 0;
  chan = Chan.null;
  pagetable = root;
  ustack = 0x7F000000;
  entry = 0x400000;
}

abbrev kernel : Kernel
kernel = record {
  procs = entry_of;
  current = some 0;
  next_pid = 1;
  next_ctime = 1;
  enq_clock = 1;
  sched_algorithm = 0;
  need_resched = false;
  stack_top = λ i. 0x80100000 + 8192 * i;
  kernel_pagetable = root;
  user_satp = 0;
  switch_to_user = 0;
  satp = 0;
  sstatus = 0;
  regs = λ r. 0;
}

kernel-IsValid : IsValid kernel
kernel-IsValid = record {
  next_in = omega arith;
  current_in = λ c e. ground (arith, e);
  current_used = λ c e. ground (arith, e);
  good = λ i b. ground arith;
}

abbrev pub blank_files : Fs
blank_files = record {
  inode_table =
      λ i. record { type = InodeType.free; size = 0; data_offset = 0; used = false; ref_count = 0 };
  data_buf = λ a. 0;
  next_free_offset = 0;
  fd_table = λ i. record { inode = pos 0; offset = 0; flags = 0; valid = false };
  cwd = 0;
  input = [];
  output = [];
}

unfoldable pub machine : Machine
machine = record {
  kernel = kernel;
  fs = fs_init blank_files;
  pmm = memory;
  heap = record {
    size = λ a. 0;
    is_free = λ a. false;
    next = λ a. 0;
    free_list = 0;
    current_heap_end = 0;
  };
  heap_bytes = λ a. 0;
  keys = record { kbd_buf = λ i. 0; kbd_head = 0; kbd_tail = 0 };
  trap_timer_count = 0;
  trap_uart_count = 0;
  trap_syscall_count = 0;
  trap_page_fault_count = 0;
  timer_at = 0;
  completed = [];
}

-- A memory of the program with zeros, which a write leaves as it is.
abbrev pub zeros : UserMemory
zeros = record {
  string_at = λ m a. [];
  strings_at = λ m a. [];
  bytes_at = λ m a i. 0;
  store = λ m a bytes. some (m.pmm, 0);
}

abbrev pub trap : ℕ → Event
trap scause = record { scause = scause; stval = 0x400123; time = 5; irq = 0; ready = [] }

-- A frame with the number of `get_tick`, or another, in `a7`.
abbrev pub frame : ℕ → Trapframe
frame number i = if i == 16 then number else if i == 31 then 0x400010 else i

machine-IsSafe : IsSafe machine
unfolding machine
machine-IsSafe = record {
  processes = kernel-IsValid;
  files = fs_init-IsSound blank_files;
  keyboard = record { head_in = omega arith; tail_in = omega arith };
}

trap_handler-Holds_example :
    Holds IsSafe (trap_handler zeros 0x80200100 (trap 8) machine (frame 13))
trap_handler-Holds_example =
    trap_handler-Holds zeros 0x80200100 (trap 8) machine (frame 13) machine-IsSafe

fault-Missing : Missing (trap 13) machine 0
unfolding machine vmm_lookup_page lookup_from
fault-Missing = record {
  cause = inr (inl refl);
  low = omega arith;
  high = omega arith;
  current = refl;
  table = λ e. absurd (omega (arith, e));
  nowhere = refl;
}

trap_handler_pages_in_example :
    ((trap_handler zeros 0x80200100 (trap 13) machine (frame 13) ≡ halts)
      × (page_in machine.pmm (machine.kernel.procs 0).pagetable (va_of (trap 13)) ≡ panics))
    ⊎ ((s : Pmm) × (page : ℕ) × (trap_handler zeros 0x80200100 (trap 13) machine (frame 13)
          ≡ goes_on (frame 13) (record (counted machine) { pmm = s }))
        × PagedIn machine.pmm s (machine.kernel.procs 0).pagetable (va_of (trap 13)) page)
unfolding machine
trap_handler_pages_in_example =
    trap_handler_pages_in zeros 0x80200100 (trap 13) machine (frame 13) 0 fault-Missing
      memory-IsSane (omega arith) memory-IsMapped

unknown_syscall_example :
    (t : Trapframe) × (m' : Machine) × (trap_handler zeros 0x80200100 (trap 8) machine (frame 99)
      ≡ goes_on t m')
    × (t tf_a0 ≡ 2 ^ 64 - 1)
    × IsReturned (frame 99) t
    × IsUntouched machine m'
unknown_syscall_example =
    unknown_syscall zeros 0x80200100 (trap 8) machine (frame 99) refl (inr (omega arith))
      machine-IsSafe.keyboard

fork_from_trap-Forked_example :
    Ensures
      (fork_from_trap kernel 0 memory (frame 11) 0x80200100)
      (Forked kernel 0 (frame 11) 0x80200100)
fork_from_trap-Forked_example =
    fork_from_trap-Forked kernel 0 memory (frame 11) 0x80200100 refl (λ i. omega arith)

-- "cat < f > g"
command_parsed : parse (codes "cat < f > g") ≡ record {
  argv = codes "cat" ∷ [];
  redirect_in = some (codes "f");
  redirect_out = some (codes "g");
}
unfolding parse parse_from tokens tokens_from strtok skip span is_delim strchr strcmp
command_parsed = refl

long_pipe : (pipe_commands (slice (λ i. 97) 0 120, [])).0 ≡ none
unfolding pipe_commands c_string slice
long_pipe = refl

-- The fault of the witness is served.
fault_served : (elim (page_in memory root 0x400000) [ panics ↦ false | done u s ↦ true ]) ≡ true
unfolding page_in and_then vmm_map_page map_from next_table set_leaf pmm_alloc_frame bitmap_test
    bitmap_set find_from
fault_served = refl
