-- ===== src/Fs/Defs.antt =====
-- fs.h, and the variables of fs.c. A field that is never negative is a natural number.
use letsgo.Base.{
  ℕ, ◌*◌, Bool, true, false, ◌&&◌, Option, none, some, List, ltb, if◌then◌else◌, update,
}
use letsgo.Base.Int.{ℤ, pos, negsuc, minus_one}

abbrev pub max_inodes : ℕ
max_inodes = 128

abbrev pub max_filename : ℕ
max_filename = 28

abbrev pub max_file_size : ℕ
max_file_size = 64 * 1024

abbrev pub data_buf_size : ℕ
data_buf_size = 128 * 64 * 1024

abbrev pub max_fd : ℕ
max_fd = 16

abbrev pub max_dir_entries : ℕ
max_dir_entries = 16

-- `sizeof(dir_entry_t)`: a name of 28 bytes and an `int`.
abbrev pub entry_size : ℕ
entry_size = 32

abbrev pub o_rdonly : ℕ
o_rdonly = 0x01

abbrev pub o_wronly : ℕ
o_wronly = 0x02

abbrev pub o_rdwr : ℕ
o_rdwr = 0x03

abbrev pub o_creat : ℕ
o_creat = 0x04

abbrev pub o_trunc : ℕ
o_trunc = 0x08

-- `TERMINAL_INODE`
abbrev pub terminal_inode : ℤ
terminal_inode = minus_one

-- `INODE_FREE`, `INODE_FILE`, `INODE_DIR`
pub data InodeType : Type 0 where
  free file dir : InodeType

abbrev pub is_file : InodeType → Bool
is_file file = true
is_file _ = false

abbrev pub is_dir : InodeType → Bool
is_dir dir = true
is_dir _ = false

-- `inode_t`
pub record Inode : Type 0 where
  pub type : InodeType
  pub size : ℕ
  pub data_offset : ℕ
  pub used : Bool
  pub ref_count : ℕ

-- `file_desc_t`
pub record FileDesc : Type 0 where
  pub inode : ℤ
  pub offset : ℕ
  pub flags : ℕ
  pub valid : Bool

-- `input` is what the terminal will deliver, `output` what has been sent to it.
pub record Fs : Type 0 where
  pub inode_table : ℕ → Inode
  pub data_buf : ℕ → ℕ
  pub next_free_offset : ℕ
  pub fd_table : ℕ → FileDesc
  pub cwd : ℕ
  pub input : List ℕ
  pub output : List ℕ

-- A call returns with a new state, or accesses memory outside its object, or waits for a key.
pub data Outcome (A : Type 0) : Type 0 where
  returns : A → Fs → Outcome A
  faults : Outcome A
  waits : Outcome A

abbrev pub set_inode : Fs → ℕ → Inode → Fs
set_inode s i n = record s { inode_table = update s.inode_table i n }

abbrev pub set_fd : Fs → ℕ → FileDesc → Fs
set_fd s i f = record s { fd_table = update s.fd_table i f }

-- `fd < 0 || fd >= MAX_FD || !current_fd_table[fd].valid` gives `none`.
abbrev pub open_fd : Fs → ℤ → Option ℕ
open_fd s (negsuc n) = none
open_fd s (pos fd) = if ltb fd max_fd && (s.fd_table fd).valid then some fd else none
