-- ===== src/Fs/Files.antt =====
-- The calls of fs.c.
use letsgo.Base.{
  ℕ, zero, suc, ◌+◌, ◌-◌, ◌/◌, ◌^◌, bit_and, Bool, true, false, not, ◌&&◌, ◌||◌, Option, none, some,
  List, [], ◌∷◌, ◌++◌, ltb, leb, ◌==◌, if◌then◌else◌, update, slice, blit, find_from,
}
use letsgo.Base.Int.{wrap_int, ℤ, pos, negsuc, minus_one, eq_ℤ, ◌+ℤ◌, pos_part}
use letsgo.Text.{strncpy}
use letsgo.Fs.Defs.{
  Fs, Inode, Outcome, o_trunc, set_inode, set_fd, data_buf_size, FileDesc, InodeType, max_fd,
  o_rdwr, is_file, o_creat, open_fd, waits, returns, max_file_size, max_inodes, terminal_inode,
  faults, is_dir, entry_size, max_filename,
}
use letsgo.Fs.Dir.{alloc_inode, dir_add_entry, dir_lookup, entry_used, entry_name}
use letsgo.Fs.Path.{resolve_path, split_path, dot_name, dotdot_name}

-- The loop over the descriptors from 3 on, which `fs_open` and `fs_opendir` end with.
unfoldable pub take_fd : Fs → ℕ → ℕ → Outcome ℤ
take_fd s ino flags = elim (find_from (λ i. not (s.fd_table i).valid) (max_fd - 3) 3) [
  | none ↦ returns minus_one s
  | some fd ↦
      let n = s.inode_table ino in
      returns (pos fd) (
        set_inode
          (set_fd s fd (record { inode = pos ino; offset = 0; flags = flags; valid = true })) ino
          (record n { ref_count = n.ref_count + 1 }))
]

-- The new file gets its name and a descriptor. The result of `dir_add_entry` is not tested.
unfoldable pub create_at : Fs → Option ℕ → ℕ → List ℕ → ℕ → Outcome ℤ
create_at s none parent name flags = returns minus_one s
create_at s (some i) parent name flags = take_fd (dir_add_entry s parent name i).1 i flags

-- The part of `fs_open` for a path that does not resolve.
unfoldable pub create_file : Fs → List ℕ → ℕ → Outcome ℤ
create_file s path flags = elim (split_path path) [
  | none ↦ faults
  | some (parent_path, name) ↦ elim (resolve_path s parent_path) [
    | none ↦ returns minus_one s
    | some parent ↦
        let (new, s') = alloc_inode s InodeType.file in create_at s' new parent name flags
  ]
]

abbrev pub truncates : ℕ → Bool
truncates flags = not (bit_and flags o_trunc == 0) && not (bit_and flags o_rdwr == 0)

-- The part for a path that resolves.
unfoldable pub open_inode : Fs → ℕ → ℕ → Outcome ℤ
open_inode s i flags =
    let n = s.inode_table i in
    if not n.used || not (is_file n.type)
    then returns minus_one s
    else take_fd (if truncates flags then set_inode s i (record n { size = 0 }) else s) i flags

unfoldable pub fs_open : Fs → List ℕ → ℕ → Outcome ℤ
fs_open s path flags = elim (resolve_path s path) [
  | some i ↦ open_inode s i flags
  | none ↦ if bit_and flags o_creat == 0 then returns minus_one s else create_file s path flags
]

-- `ref_count--` for the inode of a descriptor that is closed.
abbrev pub release : Fs → ℤ → Fs
release s (negsuc n) = s
release s (pos i) =
    let n = s.inode_table i in
    if n.ref_count == 0 then s else set_inode s i (record n { ref_count = n.ref_count - 1 })

abbrev pub close_at : Fs → ℕ → Fs
close_at s fd = let f = s.fd_table fd in release (set_fd s fd (record f { valid = false })) f.inode

unfoldable pub fs_close : Fs → ℤ → Outcome ℤ
fs_close s fd = elim (open_fd s fd) [
  | none ↦ returns minus_one s
  | some i ↦ returns (pos 0) (close_at s i)
]

-- `uart_getc_blocking`: the next byte of the input, or a wait. Ctrl+D ends the file.
unfoldable pub read_terminal : Fs → ℤ → Outcome (ℤ × List ℕ)
read_terminal s (pos (suc n)) = elim s.input [
  | [] ↦ waits
  | c ∷ rest ↦
      let s' = record s { input = rest } in
      if c == 0x04 then returns (pos 0, []) s' else returns (pos 1, c ∷ []) s'
]
read_terminal s _ = returns (pos 0, []) s

-- The part of `fs_read` for descriptor `fd` on inode `i`. A negative count becomes a huge `size_t`.
unfoldable pub read_inode : Fs → ℕ → ℕ → ℤ → Outcome (ℤ × List ℕ)
read_inode s fd i count =
    let f = s.fd_table fd in
    let n = s.inode_table i in
    let readable = n.size - f.offset in
    if not (is_file n.type)
    then returns (minus_one, []) s
    else if leb n.size f.offset
    then returns (pos 0, []) s
    else elim count [
      | negsuc _ ↦ faults
      | pos c ↦
          let m = if ltb readable c then readable else c in
          returns (pos m, slice s.data_buf (n.data_offset + f.offset) m)
            (set_fd s fd (record f { offset = f.offset + m }))
    ]

-- The result is the return value and the bytes that the buffer receives.
unfoldable pub fs_read : Fs → ℤ → ℤ → Outcome (ℤ × List ℕ)
fs_read s fd count = elim (open_fd s fd) [
  | none ↦ returns (minus_one, []) s
  | some i ↦ elim (s.fd_table i).inode [
    | negsuc zero ↦ read_terminal s count
    | negsuc (suc _) ↦ faults
    | pos n ↦ read_inode s i n count
  ]
]

-- The loop `for (i < count) uart_putc(buf[i])`.
abbrev pub write_terminal : Fs → (ℕ → ℕ) → ℤ → Outcome ℤ
write_terminal s buf (negsuc c) = returns (negsuc c) s
write_terminal s buf (pos c) = returns (pos c) (record s { output = s.output ++ slice buf 0 c })

-- An empty file gets an area of its own before it is written.
unfoldable pub file_area : Fs → ℕ → Option Fs
file_area s i =
    let n = s.inode_table i in
    if not (n.size == 0)
    then some s
    else if ltb data_buf_size (s.next_free_offset + max_file_size)
    then none
    else some (record s {
      inode_table = update s.inode_table i (record n { data_offset = s.next_free_offset });
      next_free_offset = s.next_free_offset + max_file_size;
    })

-- The end of `fs_write`: the copy, the size and the offset.
abbrev pub store : Fs → ℕ → ℕ → (ℕ → ℕ) → ℕ → Fs
store s fd i buf c =
    let f = s.fd_table fd in
    let n = s.inode_table i in
    record s {
      data_buf = blit s.data_buf (n.data_offset + f.offset) (slice buf 0 c);
      inode_table =
          update s.inode_table i
            (record n { size = if ltb n.size (f.offset + c) then f.offset + c else n.size });
      fd_table = update s.fd_table fd (record f { offset = f.offset + c });
    }

-- The part of `fs_write` for descriptor `fd` on inode `i`. A negative count passes the test of the
-- size and becomes a huge `size_t`; so does a count for which the sum wraps, which is more than the
-- buffer holds.
unfoldable pub write_inode : Fs → ℕ → ℕ → (ℕ → ℕ) → ℤ → Outcome ℤ
write_inode s fd i buf count =
    let f = s.fd_table fd in
    if not (is_file (s.inode_table i).type)
    then returns minus_one s
    else if ltb max_file_size (pos_part (wrap_int (pos f.offset +ℤ count)))
    then returns minus_one s
    else elim (file_area s i) [
      | none ↦ returns minus_one s
      | some s' ↦ elim count [
        | negsuc _ ↦ faults
        | pos c ↦
            if leb (2 ^ 31) (f.offset + c) then faults else returns (pos c) (store s' fd i buf c)
      ]
    ]

unfoldable pub fs_write : Fs → ℤ → (ℕ → ℕ) → ℤ → Outcome ℤ
fs_write s fd buf count = elim (open_fd s fd) [
  | none ↦ returns minus_one s
  | some i ↦ elim (s.fd_table i).inode [
    | negsuc zero ↦ write_terminal s buf count
    | negsuc (suc _) ↦ faults
    | pos n ↦ write_inode s i n buf count
  ]
]

-- `f->offset` after the `switch` of `fs_lseek`; `none` is the default case.
abbrev pub seek_target : ℕ → ℕ → ℤ → ℤ → Option ℤ
seek_target offset size delta whence =
    if eq_ℤ whence (pos 0)
    then some delta
    else if eq_ℤ whence (pos 1)
    then some (wrap_int (pos offset +ℤ delta))
    else if eq_ℤ whence (pos 2)
    then some (wrap_int (pos size +ℤ delta))
    else none

abbrev pub clamp : ℕ → ℤ → ℕ
clamp size (negsuc n) = 0
clamp size (pos n) = if ltb size n then size else n

unfoldable pub seek_inode : Fs → ℕ → ℕ → ℤ → ℤ → Outcome ℤ
seek_inode s fd i delta whence =
    let f = s.fd_table fd in
    let n = s.inode_table i in
    if not (ltb i max_inodes) || not (is_file n.type)
    then returns minus_one s
    else elim (seek_target f.offset n.size delta whence) [
      | none ↦ returns minus_one s
      | some t ↦ returns (pos (clamp n.size t)) (set_fd s fd (record f { offset = clamp n.size t }))
    ]

unfoldable pub fs_lseek : Fs → ℤ → ℤ → ℤ → Outcome ℤ
fs_lseek s fd delta whence = elim (open_fd s fd) [
  | none ↦ returns minus_one s
  | some i ↦ elim (s.fd_table i).inode [
    | negsuc _ ↦ returns minus_one s
    | pos n ↦ seek_inode s i n delta whence
  ]
]

-- The two entries of a new directory, and its entry in `parent`. Their results are not tested.
abbrev pub link_dir : Fs → ℕ → ℕ → List ℕ → Fs
link_dir s new parent name =
    let own = (dir_add_entry s new dot_name new).1 in
    let up = (dir_add_entry own new dotdot_name parent).1 in (dir_add_entry up parent name new).1

unfoldable pub make_at : Fs → Option ℕ → ℕ → List ℕ → Outcome ℤ
make_at s none parent name = returns minus_one s
make_at s (some i) parent name = returns (pos 0) (link_dir s i parent name)

-- `dir_lookup` gives an `int`, which is not negative when it gives one.
unfoldable pub fs_mkdir : Fs → List ℕ → Outcome ℤ
fs_mkdir s path = elim (split_path path) [
  | none ↦ faults
  | some (parent_path, name) ↦ elim (resolve_path s parent_path) [
    | none ↦ returns minus_one s
    | some parent ↦ elim (dir_lookup s parent name) [
      | some _ ↦ returns minus_one s
      | none ↦ let (new, s') = alloc_inode s InodeType.dir in make_at s' new parent name
    ]
  ]
]

unfoldable pub fs_unlink : Fs → List ℕ → Outcome ℤ
fs_unlink s path = elim (resolve_path s path) [
  | none ↦ returns minus_one s
  | some i ↦
      let n = s.inode_table i in
      if not (is_file n.type) || not (n.ref_count == 0)
      then returns minus_one s
      else returns (pos 0) (set_inode s i (record n { used = false; type = InodeType.free }))
]

unfoldable pub fs_opendir : Fs → List ℕ → Outcome ℤ
fs_opendir s path = elim (resolve_path s path) [
  | none ↦ returns minus_one s
  | some i ↦ if is_dir (s.inode_table i).type then take_fd s i 0 else returns minus_one s
]

-- What the loop of `fs_readdir` has found in directory `d`.
unfoldable pub next_entry : Fs → ℕ → ℕ → Option ℕ → Outcome (ℤ × List ℕ)
next_entry s fd d none = returns (pos 0, []) s
next_entry s fd d (some e) =
    let f = s.fd_table fd in
    returns (pos 1, strncpy (entry_name s (s.inode_table d).data_offset e) max_filename)
      (set_fd s fd (record f { offset = e + 1 }))

-- `inode_table[-1]` lies before the table.
unfoldable pub readdir_at : Fs → ℕ → ℤ → Outcome (ℤ × List ℕ)
readdir_at s fd (negsuc n) = faults
readdir_at s fd (pos d) =
    let n = s.inode_table d in
    let idx = (s.fd_table fd).offset in
    if not (is_dir n.type)
    then returns (minus_one, []) s
    else next_entry s fd d (find_from (entry_used s n.data_offset) (n.size / entry_size - idx) idx)

unfoldable pub fs_readdir : Fs → ℤ → Outcome (ℤ × List ℕ)
fs_readdir s fd = elim (open_fd s fd) [
  | none ↦ returns (minus_one, []) s
  | some i ↦ readdir_at s i (s.fd_table i).inode
]

-- `ref_count++` for the inode of a descriptor that is copied. No inode is below -1.
abbrev pub retain : Fs → ℤ → Fs
retain s (negsuc n) = s
retain s (pos i) =
    let n = s.inode_table i in set_inode s i (record n { ref_count = n.ref_count + 1 })

-- The end of `fs_dup2`, for two different descriptors.
abbrev pub copy_fd : Fs → ℕ → ℕ → Fs
copy_fd s old new =
    let closed = if (s.fd_table new).valid then close_at s new else s in
    let f = closed.fd_table old in retain (set_fd closed new (record f { valid = true })) f.inode

unfoldable pub fs_dup2 : Fs → ℤ → ℤ → Outcome ℤ
fs_dup2 s oldfd newfd = elim (open_fd s oldfd) [
  | none ↦ returns minus_one s
  | some old ↦ elim newfd [
    | negsuc _ ↦ returns minus_one s
    | pos new ↦
        if not (ltb new max_fd)
        then returns minus_one s
        else if old == new
        then returns (pos new) s
        else returns (pos new) (copy_fd s old new)
  ]
]

-- Descriptors 0, 1 and 2 of `fs_init`.
abbrev pub std_fd : ℕ → FileDesc → FileDesc
std_fd i f =
    if ltb i 3
    then record { inode = terminal_inode; offset = 0; flags = 0; valid = true }
    else if ltb i max_fd
    then record f { valid = false }
    else f

abbrev pub no_inode : Inode
no_inode = record { type = InodeType.free; size = 0; data_offset = 0; used = false; ref_count = 0 }

-- The state after the `memset`s of `fs_init`, with its descriptors.
abbrev pub wiped : Fs → Fs
wiped s = record s {
  inode_table = λ i. no_inode;
  data_buf = λ a. 0;
  next_free_offset = 0;
  fd_table = λ i. std_fd i (s.fd_table i);
  cwd = 0;
}

-- The table is empty when `alloc_inode` is called, so it gives an inode.
unfoldable pub fs_init : Fs → Fs
fs_init s =
    let (root, s') = alloc_inode (wiped s) InodeType.dir in
    elim root [
      | none ↦ s'
      | some r ↦ (dir_add_entry (dir_add_entry s' r dot_name r).1 r dotdot_name r).1
    ]
