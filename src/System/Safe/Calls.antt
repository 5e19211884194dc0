-- ===== src/System/Safe/Calls.antt =====
-- The calls for files, and those that write to the program, keep the invariants.
use letsgo.Base.{ℕ, inl, inr, ◌||◌, List, [], ◌∷◌, ltb, ◌==◌, Bool-cases, Option-cases}
use letsgo.Base.Int.{ℤ, pos, negsuc, to_int}
use letsgo.Fs.Files.{fs_read, fs_write, fs_readdir}
use letsgo.Fs.Refs.Calls.{fs_open-After, fs_close-After, fs_read-After, terminal-IsSound}
use letsgo.Fs.Refs.Steps.{fs_readdir-After}
use letsgo.Fs.Refs.Writes.{
  fs_write-After, fs_lseek-After, fs_mkdir-After, fs_unlink-After, fs_opendir-After, fs_dup2-After,
}
use letsgo.Process.Switch.{yield_cpu}
use letsgo.Process.Invariant.Switch.{yield_cpu-IsValid}
use letsgo.System.Defs.{Machine, UserMemory, Flow, followed, put_if}
use letsgo.System.Calls.{
  write_or_print, sys_write, read_key, read_or_key, sys_read, sys_open, sys_close, sys_opendir,
  sys_readdir, sys_dup2, sys_lseek, sys_mkdir, sys_unlink, sys_get_sched_info,
}
use letsgo.System.Safe.{
  IsSafe, Holds, followed-Holds, gives_up-Holds, with_fs-Holds, of_fs-Holds, put-Holds,
  put_if-Holds, prints-IsSafe,
}

module _ (mem : UserMemory) where
  write_or_print-Holds :
      {m : Machine} (fd buf count : ℕ) (r : ℤ)
      → IsSafe m
      → Holds IsSafe (write_or_print mem fd buf count r m)
  unfolding write_or_print
  write_or_print-Holds fd buf count (pos n) v = v
  write_or_print-Holds fd buf count (negsuc e) v = elim (Bool-cases (fd == 1 || fd == 2)) [
    | inl out ↦ rw out (prints-IsSafe _ v)
    | inr other ↦ rw other v
  ]

  pub sys_write-Holds :
      {m : Machine} (fd buf count : ℕ) → IsSafe m → Holds IsSafe (sys_write mem m fd buf count)
  unfolding sys_write
  sys_write-Holds {m} fd buf count v =
      with_fs-Holds (fs_write m.fs (to_int fd) (mem.bytes_at m buf) (to_int count)) _ v
        (fs_write-After (to_int fd) (mem.bytes_at m buf) (to_int count) v.files)
        (λ r m' w. write_or_print-Holds fd buf count r w)

  read_key-Holds :
      {m : Machine} (buf : ℕ) (keys : List ℕ) → IsSafe m → Holds IsSafe (read_key mem m buf keys)
  unfolding read_key
  read_key-Holds {m} buf [] v =
      gives_up-Holds ℕ (yield_cpu m.kernel) v (λ k e. yield_cpu-IsValid v.processes e)
  read_key-Holds {m} buf (c ∷ rest) v =
      let after : IsSafe (record m { fs = record m.fs { input = rest } }) = record {
        processes = v.processes;
        files = terminal-IsSound rest m.fs.output v.files;
        keyboard = v.keyboard;
      } in
      elim (Bool-cases (c == 0x04)) [
        | inl over ↦ rw over after
        | inr key ↦
            rw key (
              followed-Holds IsSafe _ _ (put-Holds mem buf (c ∷ []) after) (λ m' w. w)
                (λ u m' w. w))
      ]

  read_or_key-Holds :
      {m : Machine} (fd buf count : ℕ) (r : ℤ)
      → IsSafe m
      → Holds IsSafe (read_or_key mem fd buf count r m)
  unfolding read_or_key
  read_or_key-Holds fd buf count (pos n) v = v
  read_or_key-Holds {m} fd buf count (negsuc e) v = elim (Bool-cases (fd == 0)) [
    | inr other ↦ rw other v
    | inl keys ↦ elim (Bool-cases (ltb 0 count)) [
      | inr none_asked ↦ rw (keys, none_asked) v
      | inl asked ↦ rw (keys, asked) (read_key-Holds buf m.fs.input v)
    ]
  ]

  pub sys_read-Holds :
      {m : Machine} (fd buf count : ℕ) → IsSafe m → Holds IsSafe (sys_read mem m fd buf count)
  unfolding sys_read
  sys_read-Holds {m} fd buf count v =
      with_fs-Holds (fs_read m.fs (to_int fd) (to_int count)) _ v
        (fs_read-After (to_int fd) (to_int count) v.files)
        (λ (r, text) m' w.
          followed-Holds IsSafe _ _ (put-Holds mem buf text w) (λ m'' z. z)
            (λ u m'' z. read_or_key-Holds fd buf count r z))

  pub sys_readdir-Holds :
      {m : Machine} (fd name : ℕ) → IsSafe m → Holds IsSafe (sys_readdir mem m fd name)
  unfolding sys_readdir
  sys_readdir-Holds {m} fd name v =
      with_fs-Holds (fs_readdir m.fs (to_int fd)) _ v (fs_readdir-After (to_int fd) v.files)
        (λ (r, text) m' w.
          followed-Holds IsSafe _ _ (put-Holds mem name text w) (λ m'' z. z) (λ u m'' z. z))

  pub sys_open-Holds :
      {m : Machine} (path flags : ℕ) → IsSafe m → Holds IsSafe (sys_open mem m path flags)
  unfolding sys_open
  sys_open-Holds path flags v = of_fs-Holds _ v (fs_open-After _ _ v.files)

  pub sys_opendir-Holds :
      {m : Machine} (path : ℕ) → IsSafe m → Holds IsSafe (sys_opendir mem m path)
  unfolding sys_opendir
  sys_opendir-Holds path v = of_fs-Holds _ v (fs_opendir-After _ v.files)

  pub sys_mkdir-Holds : {m : Machine} (path : ℕ) → IsSafe m → Holds IsSafe (sys_mkdir mem m path)
  unfolding sys_mkdir
  sys_mkdir-Holds path v = of_fs-Holds _ v (fs_mkdir-After _ v.files)

  pub sys_unlink-Holds : {m : Machine} (path : ℕ) → IsSafe m → Holds IsSafe (sys_unlink mem m path)
  unfolding sys_unlink
  sys_unlink-Holds path v = of_fs-Holds _ v (fs_unlink-After _ v.files)

  and_put :
      {m : Machine} (a : ℕ) (bytes : List ℕ) (g : Unit {0} → Machine → Flow ℕ)
      → IsSafe m
      → ((m' : Machine) → IsSafe m' → Holds IsSafe (g tt m'))
      → Holds IsSafe (followed (put_if mem m a bytes) g)
  and_put {m} a bytes g v k =
      followed-Holds IsSafe (put_if mem m a bytes) g (put_if-Holds mem a bytes v) (λ m' w. w)
        (λ u m' w. k m' w)

  pub sys_get_sched_info-Holds :
      {m : Machine} (a b c d e : ℕ) → IsSafe m → Holds IsSafe (sys_get_sched_info mem m a b c d e)
  unfolding sys_get_sched_info
  sys_get_sched_info-Holds {m} a b c d e v = elim (Option-cases m.kernel.current) [
    | inl idle ↦ simp (idle, sys_get_sched_info) v
    | inr (p, here) ↦
        simp (here, sys_get_sched_info)
          (and_put a _ _ v (λ m1 v1. and_put b _ _ v1 (λ m2 v2.
            and_put c _ _ v2
              (λ m3 v3. and_put d _ _ v3 (λ m4 v4. and_put e _ _ v4 (λ m5 v5. v5))))))
  ]

pub sys_close-Holds : {m : Machine} (fd : ℕ) → IsSafe m → Holds IsSafe (sys_close m fd)
unfolding sys_close
sys_close-Holds fd v = of_fs-Holds _ v (fs_close-After _ v.files)

pub sys_dup2-Holds : {m : Machine} (a b : ℕ) → IsSafe m → Holds IsSafe (sys_dup2 m a b)
unfolding sys_dup2
sys_dup2-Holds a b v = of_fs-Holds _ v (fs_dup2-After _ _ v.files)

pub sys_lseek-Holds : {m : Machine} (a b c : ℕ) → IsSafe m → Holds IsSafe (sys_lseek m a b c)
unfolding sys_lseek
sys_lseek-Holds a b c v = of_fs-Holds _ v (fs_lseek-After _ _ _ v.files)
