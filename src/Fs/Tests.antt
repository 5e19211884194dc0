-- ===== src/Fs/Tests.antt =====
-- The file system on concrete calls.
use letsgo.Fs.Refs.Sound.{IsSound}
use letsgo.Fs.Dir.{alloc_inode, int_bytes, read_int, entry_bytes, dir_add_entry, dir_lookup}
use letsgo.Base.{ℕ, ◌≡◌, refl, true, false, List, [], ◌∷◌, arith, slice, blit, find_from}
use letsgo.Base.Int.{pos, minus_one, ℤ}
use letsgo.Fs.Defs.{Fs, Outcome, returns, faults, waits, max_fd, InodeType}
use letsgo.Fs.Files.{
  fs_init, fs_open, fs_unlink, take_fd, create_at, create_file, open_inode, file_area,
}
use letsgo.Text.{
  tokens, tokens_from, strncpy, strtok, skip, is_delim, strchr, strcmp, span, strncmp, strrchr,
  strrchr_from,
}
use letsgo.Fs.Path.{walk, resolve_path, split_path}
use letsgo.Fs.Count.{count_open}
use letsgo.Fs.Refs.Steps.{
  fs_init-IsSound, Step-IsSound, ref_count_exact, open_inode_used, fs_unlink_open, later, start,
  opens,
}

abbrev zeroed : Fs
zeroed = record {
  inode_table =
      λ i. record { type = InodeType.free; size = 0; data_offset = 0; used = false; ref_count = 0 };
  data_buf = λ a. 0;
  next_free_offset = 0;
  fd_table = λ i. record { inode = pos 0; offset = 0; flags = 0; valid = false };
  cwd = 0;
  input = [];
  output = [];
}

-- "/f"
abbrev path_f : List ℕ
path_f = 47 ∷ 102 ∷ 0 ∷ []

state_of : Outcome ℤ → Fs
state_of (returns r s) = s
state_of faults = zeroed
state_of waits = zeroed

-- After `fs_open("/f", O_RDWR | O_CREAT)`.
opened : Fs
opened = state_of (fs_open (fs_init zeroed) path_f 7)

file_opens : fs_open (fs_init zeroed) path_f 7 ≡ returns (pos 3) opened
unfolding opened state_of fs_open fs_init alloc_inode int_bytes read_int entry_bytes dir_add_entry
    dir_lookup take_fd create_at create_file open_inode file_area walk resolve_path split_path
    find_from blit slice tokens tokens_from strncpy strtok skip is_delim strchr strcmp span strncmp
    strrchr strrchr_from
file_opens = refl

ref_count_exact_example : (opened.inode_table 1).ref_count ≡ count_open opened.fd_table 1 max_fd
ref_count_exact_example =
    ref_count_exact zeroed 1 (later start (opens path_f 7 file_opens)) (omega arith)

open_inode_used_example : (opened.inode_table 1).used ≡ true
unfolding opened state_of fs_open fs_init alloc_inode int_bytes read_int entry_bytes dir_add_entry
    dir_lookup take_fd create_at create_file open_inode file_area walk resolve_path split_path
    find_from blit slice tokens tokens_from strncpy strtok skip is_delim strchr strcmp span strncmp
    strrchr strrchr_from
open_inode_used_example =
    open_inode_used zeroed 3 1 (later start (opens path_f 7 file_opens)) (omega arith) refl refl

fs_unlink_open_example : fs_unlink opened path_f ≡ returns minus_one opened
unfolding opened state_of fs_open fs_init alloc_inode int_bytes read_int entry_bytes dir_add_entry
    dir_lookup take_fd create_at create_file open_inode file_area walk resolve_path split_path
    find_from blit slice tokens tokens_from strncpy strtok skip is_delim strchr strcmp span strncmp
    strrchr strrchr_from
fs_unlink_open_example =
    fs_unlink_open zeroed path_f 3 1 (later start (opens path_f 7 file_opens)) (omega arith) refl
      refl refl

Step-IsSound_example : IsSound opened
Step-IsSound_example = Step-IsSound (opens path_f 7 file_opens) (fs_init-IsSound zeroed)
