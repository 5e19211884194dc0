-- ===== src/System/Enter/Tests.antt =====
-- An `exec` of a program that a file holds.
use letsgo.Base.{
  ℕ, ◌≡◌, refl, true, false, ◌&&◌, [], ◌∷◌, ◌==◌, if◌then◌else◌, slice, blit, find_from,
}
use letsgo.Base.Int.{pos}
use letsgo.Fs.Defs.{Fs, Outcome, returns, faults, waits}
use letsgo.Fs.Files.{
  fs_init, fs_open, fs_write, fs_close, fs_read, take_fd, create_at, create_file, open_inode,
  file_area, write_inode, read_inode,
}
use letsgo.Fs.Dir.{alloc_inode, int_bytes, read_int, entry_bytes, dir_add_entry, dir_lookup}
use letsgo.Fs.Path.{resolve_path, split_path}
use letsgo.Text.{
  tokens, tokens_from, strncpy, strtok, skip, is_delim, strchr, strcmp, span, strncmp, strrchr,
  strrchr_from,
}
use letsgo.Pmm.Defs.{pmm_alloc_frame, bitmap_test, bitmap_set}
use letsgo.Vmm.Defs.{and_then, vmm_map_page, map_from, next_table, set_leaf}
use letsgo.Heap.Defs.{kmalloc, occupy, split, add_block, no_blocks}
use letsgo.Elf.Bytes.{read_le, put_bytes}
use letsgo.Elf.Defs.{load_elf, e_entry, load_elf_map, load_segments, e_phnum}
use letsgo.Process.Fork.{copy_words}
use letsgo.System.Ps.{codes}
use letsgo.System.Defs.{
  Machine, UserMemory, goes_on, leaves, halts, faulty, followed, with_fs, with_pmm, tf_a0, tf_sepc,
}
use letsgo.System.Exec.{
  opened, buffered, read_image, image_read, load_image, build_space, push_argv, push_args,
  push_words, enter_space,
}
use letsgo.System.Calls.{sys_exec, enter_user, to_user}
use letsgo.System.Syscall.{
  number_of, numbers, exec, handle_syscall, drained, numbered, call, answer,
}
use letsgo.System.Trap.{trap_handler, exception, syscall_trap}
use letsgo.System.Tests.{machine, trap, frame, zeros, blank_files}

-- A program without segments, with the entry 0x40000000.
abbrev program : ℕ → ℕ
program i =
    if i == 0
    then 0x7F
    else if i == 1
    then 69
    else if i == 2
    then 76
    else if i == 3
    then 70
    else if i == 27
    then 0x40
    else 0

abbrev state_of : {A : Type 0} → Outcome A → Fs
state_of (returns a s) = s
state_of faults = blank_files
state_of waits = blank_files

-- The file "/a" holds that program.
files : Fs
unfolding fs_init fs_open fs_write fs_close
files =
    let made = state_of (fs_open (fs_init blank_files) (codes "/a") 7) in
    state_of (fs_close (state_of (fs_write made (pos 3) program (pos 64))) (pos 3))

-- A machine with that file, and a heap with a block for it.
abbrev loader : Machine
loader = record machine { fs = files; heap = add_block no_blocks 65600 }

-- The program asks for "/a" with the argument "a".
abbrev asks : UserMemory
asks = record zeros { string_at = λ m a. codes "/a"; strings_at = λ m a. codes "a" ∷ [] }

-- The `exec` of the witness succeeds: one argument, and the program goes on at the entry of the file.
exec_succeeds :
    (elim (trap_handler asks 0x80200100 (trap 8) loader (frame 8)) [
      | goes_on t m ↦ (t tf_a0 == 1) && (t tf_sepc == 0x40000000)
      | leaves m ↦ false
      | halts ↦ false
      | faulty ↦ false
    ])
    ≡ true
unfolding files fs_open fs_write fs_close fs_init alloc_inode int_bytes read_int entry_bytes
    dir_add_entry dir_lookup take_fd create_at create_file open_inode file_area letsgo.Fs.Path.walk
    resolve_path split_path find_from blit slice tokens tokens_from strncpy strtok skip is_delim
    strchr strcmp span strncmp strrchr strrchr_from write_inode fs_read read_inode machine
    trap_handler exception syscall_trap followed handle_syscall drained numbered number_of numbers
    call sys_exec letsgo.System.Exec.exec with_fs opened with_pmm kmalloc letsgo.Heap.Defs.walk
    buffered occupy split read_image image_read load_image load_elf e_entry read_le build_space
    pmm_alloc_frame bitmap_test bitmap_set load_elf_map load_segments e_phnum and_then vmm_map_page
    map_from next_table set_leaf push_argv push_args push_words put_bytes enter_space enter_user
    to_user answer copy_words
exec_succeeds = refl
