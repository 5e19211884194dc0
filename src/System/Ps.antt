-- ===== src/System/Ps.antt =====
-- `do_ps` of proc.c, and what the kernel prints.
use Prim.Native.String.{String}
use Prim.Native.Char.{code}
use letsgo.Base.{ℕ, zero, suc, none, some, List, [], ◌∷◌, ◌++◌, if◌then◌else◌}
use letsgo.Process.Defs.{
  Kernel, Proc, ProcState, nproc, is_unused, runnable, running, blocked, zombie, unused,
}
use letsgo.Console.Printf.{printf, Arg, num, text}

-- The bytes of a text.
abbrev pub codes : String → List ℕ
codes String.[] = []
codes (String.◌∷◌ c s) = code c ∷ codes s

-- `printf` of a format with its arguments; nothing when that is undefined.
abbrev pub printed : String → List Arg → List ℕ
printed fmt args = elim (printf (codes fmt) args) [ none ↦ [] | some s ↦ s ]

unfoldable pub state_str : ProcState → List ℕ
state_str runnable = codes "RUNNABLE"
state_str running = codes "RUNNING "
state_str blocked = codes "BLOCKED "
state_str zombie = codes "ZOMBIE  "
state_str unused = codes "UNKNOWN"

unfoldable pub ps_line : Proc → List ℕ
ps_line p = printed "%d\t%s\t%d\n" (num p.pid ∷ text (state_str p.state) ∷ num p.priority ∷ [])

-- The lines of the entries below `n`.
unfoldable pub ps_lines : (ℕ → Proc) → ℕ → List ℕ
ps_lines procs zero = []
ps_lines procs (suc n) =
    ps_lines procs n ++ (if is_unused (procs n).state then [] else ps_line (procs n))

-- What `do_ps` prints.
unfoldable pub do_ps : Kernel → List ℕ
do_ps k = printed "PID\tSTATE\t\tPRIORITY\n" [] ++ ps_lines k.procs nproc
