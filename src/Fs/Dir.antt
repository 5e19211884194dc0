-- ===== src/Fs/Dir.antt =====
-- The inode allocator and the directory entries of fs.c. An entry lies in `data_buf` as the bytes
-- of a `dir_entry_t`: the name, then the inode in little-endian order.
use letsgo.Base.{
  ℕ, ◌+◌, ◌*◌, ◌/◌, ◌%◌, Bool, true, false, not, ◌&&◌, ◌||◌, Option, none, some, List, [], ◌∷◌,
  ◌++◌, ltb, ◌==◌, if◌then◌else◌, update, slice, blit, find_from,
}
use letsgo.Base.Int.{pos, eq_ℤ}
use letsgo.Text.{strncmp, strncpy}
use letsgo.Fs.Defs.{
  Fs, Inode, InodeType, max_filename, max_dir_entries, entry_size, max_inodes, is_dir, set_inode,
  data_buf_size,
}

-- The entry that `alloc_inode` fills.
abbrev pub fresh_inode : InodeType → Inode
fresh_inode t = record { type = t; size = 0; data_offset = 0; used = true; ref_count = 0 }

unfoldable pub alloc_inode : Fs → InodeType → Option ℕ × Fs
alloc_inode s t = elim (find_from (λ i. not (s.inode_table i).used) max_inodes 0) [
  | none ↦ (none, s)
  | some i ↦ (some i, set_inode s i (fresh_inode t))
]

-- The four bytes of an `int` that is not negative, and the `uint32_t` that four bytes hold: a
-- negative `int` reads as 2^31 or more.
unfoldable pub int_bytes : ℕ → List ℕ
int_bytes n = n % 256 ∷ n / 256 % 256 ∷ n / 65536 % 256 ∷ n / 16777216 % 256 ∷ []

unfoldable pub read_int : (ℕ → ℕ) → ℕ → ℕ
read_int buf a = buf a + 256 * buf (a + 1) + 65536 * buf (a + 2) + 16777216 * buf (a + 3)

unfoldable pub entry_bytes : List ℕ → ℕ → List ℕ
entry_bytes name target = strncpy name max_filename ++ int_bytes target

-- `dir_add_entry`; `true` stands for its return value 0.
unfoldable pub dir_add_entry : Fs → ℕ → List ℕ → ℕ → Bool × Fs
dir_add_entry s d name target =
    let n = s.inode_table d in
    let area = max_dir_entries * entry_size in
    let first = n.size == 0 in
    let start = if first then s.next_free_offset else n.data_offset in
    if not (is_dir n.type) || ltb area (n.size + entry_size)
    then (false, s)
    else if first && ltb data_buf_size (s.next_free_offset + area)
    then (false, s)
    else (
      true,
      record s {
        inode_table =
            update s.inode_table d (record n { data_offset = start; size = n.size + entry_size });
        data_buf = blit s.data_buf (start + n.size) (entry_bytes name target);
        next_free_offset = if first then s.next_free_offset + area else s.next_free_offset;
      },
    )

-- The inode of entry `i` of a directory's area.
abbrev pub entry_inode : Fs → ℕ → ℕ → ℕ
entry_inode s base i = read_int s.data_buf (base + i * entry_size + max_filename)

abbrev pub entry_name : Fs → ℕ → ℕ → List ℕ
entry_name s base i = slice s.data_buf (base + i * entry_size) max_filename

-- `e->inode >= 0 && e->inode < MAX_INODES && inode_table[e->inode].used`
abbrev pub entry_used : Fs → ℕ → ℕ → Bool
entry_used s base i =
    let ino = entry_inode s base i in ltb ino max_inodes && (s.inode_table ino).used

abbrev pub entry_matches : Fs → ℕ → List ℕ → ℕ → Bool
entry_matches s base name i =
    entry_used s base i && eq_ℤ (strncmp (entry_name s base i) name max_filename) (pos 0)

unfoldable pub dir_lookup : Fs → ℕ → List ℕ → Option ℕ
dir_lookup s d name =
    let n = s.inode_table d in
    if not (is_dir n.type)
    then none
    else elim (find_from (entry_matches s n.data_offset name) (n.size / entry_size) 0) [
      | none ↦ none
      | some i ↦ some (entry_inode s n.data_offset i)
    ]
