-- ===== src/System/Enter/Frame.antt =====
-- The frame with which the new program of an `exec` begins.
use letsgo.Base.{
  ℕ, ◌+◌, ◌-◌, ◌*◌, ◌/◌, ◌%◌, ◌^◌, bit_and, ◌≡◌, refl, ap, ◌∙◌, ◌≢◌, ◌⊎◌, inl, inr, true, Option,
  none, some, arith, ◌==◌, if◌then◌else◌, Bool-cases, update,
}
use letsgo.Base.Bits.{table, table-row}
use letsgo.Base.Fields.{bit_and-field}
use letsgo.Base.Int.{u64}
use letsgo.Process.Defs.{Kernel}
use letsgo.Pmm.Defs.{Pmm}
use letsgo.Process.Switch.{make_satp}
use letsgo.System.Defs.{
  Event, Machine, UserMemory, Trapframe, tf_sp, tf_a0, tf_a1, tf_sepc, tf_sstatus,
}
use letsgo.System.Calls.{sys_exec, enter_user, to_user}
use letsgo.System.Syscall.{plugged, lets_user}
use letsgo.System.Trap.{stepped}
use letsgo.System.Frame.{IsReturned, stepped-IsReturned}
use letsgo.System.Enter.{Ends, Ends-followed, Request, Loaded, Execed, exec-Ends}

bit_8 : table (λ r. bit_and r 256 == r / 256 * 256) 512 ≡ true
unfolding table
bit_8 = refl

-- Bit 8 of a number.
bit_and-256 : (x : ℕ) → bit_and x 256 ≡ x / 256 % 2 * 256
bit_and-256 x =
    let split : x ≡ x / 512 * 2 ^ 9 + x % 512 = omega arith in
    let row : (bit_and (x % 512) 256 == x % 512 / 256 * 256) ≡ true =
      table-row 512 (λ r. bit_and r 256 == r / 256 * 256) (x % 512) bit_8 (omega arith) in
    let low : bit_and (x % 512) 256 ≡ x % 512 / 256 * 256 = ground (arith, row) in
    ap (λ y. bit_and y 256) split
    ∙ bit_and-field 9 (x / 512) (x % 512) 256 (omega arith) (omega arith)
    ∙ omega (arith, low)

cleared : (x : ℕ) → bit_and (x - bit_and x (2 ^ 8)) (2 ^ 8) ≡ 0
cleared x = bit_and-256 (x - bit_and x 256) ∙ omega (arith, bit_and-256 x)

-- The frame before `a0` is set and `sepc` is stepped over.
pub record Entering (q : Request) (tf t : Trapframe) (r : ℕ) (k' : Kernel) (frames : Pmm)
    : Type 0 where
  argv : ℕ
  loaded : Loaded q k' frames r argv
  pc : t tf_sepc ≡ (k'.procs loaded.process).entry
  sp : t tf_sp ≡ argv
  a1 : t tf_a1 ≡ argv
  user : bit_and (t tf_sstatus) (2 ^ 8) ≡ 0
  satp : k'.user_satp ≡ make_satp (k'.procs loaded.process).pagetable
  flag : k'.switch_to_user ≡ 1
  registers : (i : ℕ) → i ≢ tf_a1 → i ≢ tf_sp → i ≢ tf_sepc → i ≢ tf_sstatus → t i ≡ tf i

abbrev pub Entered : Request → Trapframe → ℕ × Trapframe → Machine → Type 0
Entered q tf (r, t) m = ((r ≡ 2 ^ 64 - 1) × (t ≡ tf)) ⊎ Entering q tf t r m.kernel m.pmm

enter_user-Ends :
    (q : Request) (tf : Trapframe) (r : Option (ℕ × ℕ)) (m : Machine)
    → Execed q r m
    → Ends (Entered q tf) (enter_user tf r m)
unfolding enter_user to_user
enter_user-Ends q tf none m h = inl (refl, refl)
enter_user-Ends q tf (some (argc, argv)) m h =
    simp (h.still, enter_user)
      (inr (record {
        argv = argv;
        loaded = record {
          process = h.process;
          current = h.current;
          still = refl;
          image = h.image;
          stack = h.stack;
          count = h.count;
          few = h.few;
          others = h.others;
        };
        pc = refl;
        sp = h.stack;
        a1 = refl;
        user = cleared (tf tf_sstatus);
        satp = refl;
        flag = refl;
        registers = λ i a b c d. ground (arith, a, b, c, d);
      }))

-- What a call of `sys_exec` asks.
abbrev pub request : UserMemory → Machine → ℕ → ℕ → Request
request mem m path argv = record {
  kernel = m.kernel;
  files = m.fs;
  path = mem.string_at m path;
  args = mem.strings_at m argv;
}

pub sys_exec-Ends :
    (mem : UserMemory) (m : Machine) (path argv : ℕ) (tf : Trapframe)
    → Ends (Entered (request mem m path argv) tf) (sys_exec mem m path argv tf)
unfolding sys_exec
sys_exec-Ends mem m path argv tf =
    Ends-followed (Entered (request mem m path argv) tf) _ (enter_user tf)
      (exec-Ends m (mem.string_at m path) (mem.strings_at m argv))
      (λ r m' h. enter_user-Ends (request mem m path argv) tf r m' h)

-- What the frame `tf` asks when the call begins: the path and the arguments that the program has in
-- its memory, and the files and the processes of then.
abbrev pub asked : UserMemory → Event → Machine → Trapframe → Request
asked mem e m tf =
    request mem
      (plugged e.ready
        (lets_user (record m { trap_syscall_count = u64 (m.trap_syscall_count + 1) })))
      (tf tf_a0) (tf tf_a1)

-- The frame `t` begins the program of the file asked for, in user mode on its own page table: at the
-- entry that the file names, or four bytes behind it when that is where the `ecall` stood, with the number of arguments in `a0`,
-- and `argv` in `a1` and in `sp`. The other registers are the caller's, and no other process changes.
pub record IsEntered (q : Request) (k' : Kernel) (frames : Pmm) (tf t : Trapframe) : Type 0 where
  pub argv : ℕ
  pub loaded : Loaded q k' frames (t tf_a0) argv
  pub pc :
      let entry = (k'.procs loaded.process).entry in
      t tf_sepc ≡ (if entry == tf tf_sepc then u64 (tf tf_sepc + 4) else entry)
  pub sp : t tf_sp ≡ argv
  pub a1 : t tf_a1 ≡ argv
  pub user : bit_and (t tf_sstatus) (2 ^ 8) ≡ 0
  pub satp : k'.user_satp ≡ make_satp (k'.procs loaded.process).pagetable
  pub flag : k'.switch_to_user ≡ 1
  pub registers :
      (i : ℕ) → i ≢ tf_a0 → i ≢ tf_a1 → i ≢ tf_sp → i ≢ tf_sepc → i ≢ tf_sstatus → t i ≡ tf i

-- The call has failed, or the new program begins.
abbrev pub ExecReturns : Request → Trapframe → Trapframe → Machine → Type 0
ExecReturns q tf t m = ((t tf_a0 ≡ 2 ^ 64 - 1) × IsReturned tf t) ⊎ IsEntered q m.kernel m.pmm tf t

abbrev pub Answer : Request → Trapframe → Trapframe → Machine → Type 0
Answer q tf t m =
    ((t tf_a0 ≡ 2 ^ 64 - 1) × ((i : ℕ) → i ≢ tf_a0 → t i ≡ tf i))
    ⊎ ((r : ℕ) × (u : Trapframe) × Entering q tf u r m.kernel m.pmm × (t ≡ update u tf_a0 r))

stepped_other : (old width : ℕ) (t : Trapframe) (i : ℕ) → i ≢ tf_sepc → stepped old width t i ≡ t i
stepped_other old width t i n = elim (Bool-cases (t tf_sepc == old)) [
  | inl here ↦ rw here (ground (arith, n))
  | inr moved ↦ rw moved refl
]

stepped_pc :
    (old entry : ℕ) (t : Trapframe)
    → t tf_sepc ≡ entry
    → stepped old 4 t tf_sepc ≡ (if entry == old then u64 (old + 4) else entry)
stepped_pc old entry t e = elim (Bool-cases (t tf_sepc == old)) [
  | inl here ↦ rw here (ground (arith, here, e))
  | inr moved ↦ rw moved (ground (arith, moved, e))
]

pub stepped-ExecReturns :
    (q : Request) (tf : Trapframe) (t : Trapframe) (m : Machine)
    → Answer q tf t m
    → ExecReturns q tf (stepped (tf tf_sepc) 4 t) m
stepped-ExecReturns q tf t m (inl (r, same)) =
    inl (stepped_other (tf tf_sepc) 4 t tf_a0 (ground arith) ∙ r, stepped-IsReturned tf t same)
stepped-ExecReturns q tf t m (inr (r, u, e, eq)) =
    let same : (i : ℕ) → i ≢ tf_a0 → t i ≡ u i = λ i n. ap (λ f. f i) eq ∙ ground (arith, n) in
    let kept : (i : ℕ) → i ≢ tf_a0 → i ≢ tf_sepc → stepped (tf tf_sepc) 4 t i ≡ u i =
      λ i n d. stepped_other (tf tf_sepc) 4 t i d ∙ same i n in
    let l = e.loaded in
    let a0 : stepped (tf tf_sepc) 4 t tf_a0 ≡ r =
      stepped_other (tf tf_sepc) 4 t tf_a0 (ground arith) ∙ ap (λ f. f tf_a0) eq in
    inr (record {
      argv = e.argv;
      loaded = record {
        process = l.process;
        current = l.current;
        still = l.still;
        image = l.image;
        stack = l.stack;
        count = a0 ∙ l.count;
        few = l.few;
        others = l.others;
      };
      pc = stepped_pc (tf tf_sepc) _ t (same tf_sepc (ground arith) ∙ e.pc);
      sp = kept tf_sp (ground arith) (ground arith) ∙ e.sp;
      a1 = kept tf_a1 (ground arith) (ground arith) ∙ e.a1;
      user = ap (λ x. bit_and x 256) (kept tf_sstatus (ground arith) (ground arith)) ∙ e.user;
      satp = e.satp;
      flag = e.flag;
      registers = λ i a b c d s. kept i a d ∙ e.registers i b c d s;
    })
