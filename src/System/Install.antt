-- ===== src/System/Install.antt =====
-- `create_user_files` of fs.c. The programs are made by the build: program `i` has the bytes `elf i`,
-- and their number is `len i`.
use letsgo.Base.{ℕ, ◌+◌, bit_or, List, [], ◌∷◌, ◌++◌, get_or}
use letsgo.Base.Int.{ℤ, pos, negsuc, to_int}
use letsgo.Fs.Defs.{Fs, Outcome, returns, faults, waits, o_rdwr, o_creat, o_trunc}
use letsgo.Fs.Files.{fs_open, fs_write, fs_close, fs_mkdir}
use letsgo.Fs.Refs.Sound.{IsSound, After}
use letsgo.Fs.Refs.Calls.{fs_open-After, fs_close-After, terminal-IsSound}
use letsgo.Fs.Refs.Writes.{fs_write-After, fs_mkdir-After}
use letsgo.Console.Printf.{text}
use letsgo.System.Ps.{codes, printed}

-- What follows a call of fs.c.
unfoldable pub after : {A B : Type 0} → Outcome A → (A → Fs → Outcome B) → Outcome B
after (returns a s) f = f a s
after faults f = faults
after waits f = waits

abbrev pub shows : Fs → List ℕ → Fs
shows s line = record s { output = s.output ++ line }

-- `fs_write(fd, data, n); fs_close(fd);`
unfoldable pub write_and_close : (ℕ → ℕ) → ℕ → ℕ → Fs → Outcome ℤ
write_and_close bytes n fd s =
    after (fs_write s (pos fd) bytes (to_int n)) (λ r t. fs_close t (pos fd))

-- What `install_user_program` does with the descriptor.
unfoldable pub installed : List ℕ → (ℕ → ℕ) → ℕ → ℤ → Fs → Outcome ℤ
installed path elf len (pos fd) s = write_and_close elf len fd s
installed path elf len (negsuc e) s =
    returns (negsuc e)
      (shows s (printed "[create_user_files] failed to install %s\n" (text path ∷ [])))

unfoldable pub install_user_program : Fs → List ℕ → (ℕ → ℕ) → ℕ → Outcome ℤ
install_user_program s path elf len =
    after (fs_open s path (bit_or (bit_or o_rdwr o_creat) o_trunc)) (installed path elf len)

-- The programs from number `i` on.
unfoldable pub install_from : (ℕ → ℕ → ℕ) → (ℕ → ℕ) → ℕ → List (List ℕ) → Fs → Outcome ℤ
install_from elf len i [] s = returns (pos 0) s
install_from elf len i (path ∷ paths) s =
    after (install_user_program s path (elf i) (len i)) (λ r. install_from elf len (i + 1) paths)

abbrev pub user_programs : List (List ℕ)
user_programs =
    codes "/bin/hello"
    ∷ codes "/bin/ls"
    ∷ codes "/bin/cat"
    ∷ codes "/bin/echo"
    ∷ codes "/bin/null"
    ∷ []

abbrev pub test_programs : List (List ℕ)
test_programs =
    codes "/bin/test_boot"
    ∷ codes "/bin/test_intr"
    ∷ codes "/bin/test_mem"
    ∷ codes "/bin/test_proc"
    ∷ codes "/bin/test_fs"
    ∷ codes "/bin/test_exec"
    ∷ codes "/bin/test_sched"
    ∷ codes "/bin/ps"
    ∷ codes "/bin/kill"
    ∷ codes "/bin/spawn"
    ∷ []

-- `if (fd >= 0) { fs_write(fd, "Hello, world!\n", 14); fs_close(fd); }`
unfoldable pub greeted : ℤ → Fs → Outcome ℤ
greeted (pos fd) s = write_and_close (λ i. get_or (codes "Hello, world!\n") i 0) 14 fd s
greeted (negsuc e) s = returns (negsuc e) s

unfoldable pub create_user_files : (ℕ → ℕ → ℕ) → (ℕ → ℕ) → Fs → Outcome ℤ
create_user_files elf len s =
    after (fs_open s (codes "/hello.txt") (bit_or o_rdwr o_creat)) (λ fd s1.
      after (greeted fd s1) (λ r s2. after (fs_mkdir s2 (codes "/bin")) (λ r s3.
        after (fs_mkdir s3 (codes "/tmp")) (λ r s4.
          after
            (install_from elf len 0 user_programs
              (shows s4 (codes "[Init] Installing user programs into /bin...\n")))
            (λ r s5.
              install_from elf len 5 test_programs
                (shows s5 (codes "[Init] Installing test programs into /bin...\n")))))))

after-After :
    {A B : Type 0} (o : Outcome A) (f : A → Fs → Outcome B)
    → After IsSound o
    → ((a : A) (s : Fs) → IsSound s → After IsSound (f a s))
    → After IsSound (after o f)
unfolding after
after-After (returns a s) f v k = k a s v
after-After faults f v k = tt
after-After waits f v k = tt

write_and_close-After :
    (bytes : ℕ → ℕ) (n fd : ℕ) (s : Fs) → IsSound s → After IsSound (write_and_close bytes n fd s)
unfolding write_and_close
write_and_close-After bytes n fd s v =
    after-After (fs_write s (pos fd) bytes (to_int n)) _
      (fs_write-After (pos fd) bytes (to_int n) v) (λ r t w. fs_close-After (pos fd) w)

installed-After :
    (path : List ℕ) (elf : ℕ → ℕ) (len : ℕ) (fd : ℤ) (s : Fs)
    → IsSound s
    → After IsSound (installed path elf len fd s)
unfolding installed
installed-After path elf len (pos fd) s v = write_and_close-After elf len fd s v
installed-After path elf len (negsuc e) s v = terminal-IsSound s.input _ v

install_from-After :
    (elf : ℕ → ℕ → ℕ) (len : ℕ → ℕ) (i : ℕ) (paths : List (List ℕ)) (s : Fs)
    → IsSound s
    → After IsSound (install_from elf len i paths s)
unfolding install_from install_user_program
install_from-After elf len i [] s v = v
install_from-After elf len i (path ∷ paths) s v =
    after-After (install_user_program s path (elf i) (len i)) _
      (after-After (fs_open s path _) _ (fs_open-After path _ v)
        (λ fd t w. installed-After path (elf i) (len i) fd t w))
      (λ r t w. install_from-After elf len (i + 1) paths t w)

greeted-After : (fd : ℤ) (s : Fs) → IsSound s → After IsSound (greeted fd s)
unfolding greeted
greeted-After (pos fd) s v = write_and_close-After _ 14 fd s v
greeted-After (negsuc e) s v = v

-- The files of the start leave right reference counts, whatever programs the build has made.
pub create_user_files-After :
    (elf : ℕ → ℕ → ℕ) (len : ℕ → ℕ) (s : Fs)
    → IsSound s
    → After IsSound (create_user_files elf len s)
unfolding create_user_files
create_user_files-After elf len s v =
    after-After (fs_open s (codes "/hello.txt") _) _ (fs_open-After _ _ v) (λ fd s1 v1.
      after-After (greeted fd s1) _ (greeted-After fd s1 v1) (λ r s2 v2.
        after-After (fs_mkdir s2 (codes "/bin")) _ (fs_mkdir-After _ v2) (λ r s3 v3.
          after-After (fs_mkdir s3 (codes "/tmp")) _ (fs_mkdir-After _ v3) (λ r s4 v4.
            after-After (install_from elf len 0 user_programs _) _
              (install_from-After elf len 0 user_programs _ (terminal-IsSound s4.input _ v4))
              (λ r s5 v5.
                install_from-After elf len 5 test_programs _ (terminal-IsSound s5.input _ v5))))))
