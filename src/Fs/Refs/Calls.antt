-- ===== src/Fs/Refs/Calls.antt =====
-- Every call of fs.c keeps the reference counts right.
use letsgo.Fs.Files.{
  fs_close, open_inode, create_at, create_file, fs_open, read_terminal, read_inode, truncates,
  fs_read,
}
use letsgo.Base.{
  ℕ, zero, suc, ◌+◌, ◌-◌, ◌<◌, bit_and, ◌≡◌, refl, inl, inr, true, not, ◌||◌, Option, none, some,
  List, [], ◌∷◌, arith, ltb, leb, ◌==◌, if◌then◌else◌, Bool-cases, Option-cases, slice,
}
use letsgo.Base.Int.{ℤ, pos, negsuc}
use letsgo.Fs.Defs.{
  Fs, InodeType, max_inodes, set_fd, set_inode, open_fd, is_file, o_creat, waits, faults, returns,
}
use letsgo.Fs.Dir.{alloc_inode, dir_add_entry}
use letsgo.Fs.Path.{resolve_path, split_path}
use letsgo.Fs.Refs.Rooted.{resolve_path-IsUsed}
use letsgo.Fs.Refs.Sound.{
  IsSound, After, keep-IsSound, dir_add_entry-IsSound, alloc_inode-IsSound, take_fd-After,
  open_fd-valid, close_at-IsSound,
}

pub fs_close-After : {s : Fs} (fd : ℤ) → IsSound s → After IsSound (fs_close s fd)
unfolding fs_close
fs_close-After {s} fd v = elim (Option-cases (open_fd s fd)) [
  | inl shut ↦ rw (shut, fs_close) v
  | inr (i, e) ↦ let ok = open_fd-valid s fd e in rw (e, fs_close) (close_at-IsSound i ok.1 ok.2 v)
]

open_inode-After :
    {s : Fs} (i flags : ℕ) → i < max_inodes → IsSound s → After IsSound (open_inode s i flags)
unfolding open_inode
open_inode-After {s} i flags b v =
    elim (Bool-cases (not (s.inode_table i).used || not (is_file (s.inode_table i).type))) [
      | inl refused ↦ rw refused v
      | inr ready ↦ rw ready (elim (Bool-cases (truncates flags)) [
        | inl cut ↦ rw cut (
            take_fd-After i flags b (ground arith) (
              keep-IsSound (set_inode s i (record (s.inode_table i) { size = 0 })) refl
                (λ fd. (refl, refl)) (λ j. ground arith) v))
        | inr whole ↦ rw whole (take_fd-After i flags b (ground arith) v)
      ])
    ]

dir_add_entry-used :
    (s : Fs) (d : ℕ) (name : List ℕ) (target i : ℕ)
    → (s.inode_table i).used ≡ true
    → ((dir_add_entry s d name target).1.inode_table i).used ≡ true
unfolding dir_add_entry
dir_add_entry-used s d name target i u = ground arith

create_at-After :
    {s : Fs} (new : Option ℕ) (parent flags : ℕ) (name : List ℕ)
    → IsSound s
    → ((i : ℕ) → new ≡ some i → (i < max_inodes) × ((s.inode_table i).used ≡ true))
    → After IsSound (create_at s new parent name flags)
unfolding create_at
create_at-After none parent flags name v h = v
create_at-After {s} (some i) parent flags name v h =
    take_fd-After i flags (h i refl).0 (dir_add_entry-used s parent name i i (h i refl).1)
      (dir_add_entry-IsSound parent name i v)

create_file-After :
    {s : Fs} (path : List ℕ) (flags : ℕ) → IsSound s → After IsSound (create_file s path flags)
unfolding create_file
create_file-After {s} path flags v = elim (Option-cases (split_path path)) [
  | inl long ↦ rw (long, create_file) tt
  | inr ((parent_path, name), parts) ↦ elim (Option-cases (resolve_path s parent_path)) [
    | inl lost ↦ rw (parts, create_file, lost) v
    | inr (parent, found) ↦
        let (sound, new) = alloc_inode-IsSound InodeType.file v in
        rw (parts, create_file, found)
          (create_at-After (alloc_inode s InodeType.file).0 parent flags name sound new)
  ]
]

pub fs_open-After :
    {s : Fs} (path : List ℕ) (flags : ℕ) → IsSound s → After IsSound (fs_open s path flags)
unfolding fs_open
fs_open-After {s} path flags v = elim (Option-cases (resolve_path s path)) [
  | inr (i, found) ↦
      rw (found, fs_open) (open_inode-After i flags (resolve_path-IsUsed s path v.rooted found).0 v)
  | inl missing ↦ elim (Bool-cases (bit_and flags o_creat == 0)) [
    | inl plain ↦ rw (missing, fs_open, plain) v
    | inr create ↦ rw (missing, fs_open, create) (create_file-After path flags v)
  ]
]

-- A change of one descriptor's offset.
pub offset-IsSound :
    {s : Fs} (fd n : ℕ) → IsSound s → IsSound (set_fd s fd (record (s.fd_table fd) { offset = n }))
offset-IsSound {s} fd n v = keep-IsSound _ refl (λ g. ground arith) (λ i. (refl, refl, refl)) v

pub terminal-IsSound :
    {s : Fs} (input output : List ℕ)
    → IsSound s
    → IsSound (record s { input = input; output = output })
terminal-IsSound input output v =
    keep-IsSound _ refl (λ g. (refl, refl)) (λ i. (refl, refl, refl)) v

read_terminal-After : {s : Fs} (count : ℤ) → IsSound s → After IsSound (read_terminal s count)
unfolding read_terminal
read_terminal-After {s} (pos zero) v = v
read_terminal-After {s} (negsuc n) v = v
read_terminal-After {s} (pos (suc n)) v = go s.input
  where
    go :
        (l : List ℕ)
        → After {A = ℤ × List ℕ} IsSound (elim l [
          | [] ↦ waits
          | c ∷ rest ↦
              let s' = record s { input = rest } in
              if c == 0x04 then returns (pos 0, []) s' else returns (pos 1, c ∷ []) s'
        ])
    go [] = tt
    go (c ∷ rest) = elim (Bool-cases (c == 0x04)) [
      | inl over ↦ rw over (terminal-IsSound rest s.output v)
      | inr key ↦ rw key (terminal-IsSound rest s.output v)
    ]

read_inode-After :
    {s : Fs} (fd i : ℕ) (count : ℤ) → IsSound s → After IsSound (read_inode s fd i count)
unfolding read_inode
read_inode-After {s} fd i count v = elim (Bool-cases (not (is_file (s.inode_table i).type))) [
  | inl other ↦ rw other v
  | inr isfile ↦ elim (Bool-cases (leb (s.inode_table i).size (s.fd_table fd).offset)) [
    | inl over ↦ rw (isfile, over) v
    | inr more ↦ rw (isfile, more) (go count)
  ]
]
  where
    go :
        (c : ℤ)
        → After {A = ℤ × List ℕ} IsSound (elim c [
          | negsuc _ ↦ faults
          | pos c ↦
              let f = s.fd_table fd in
              let n = s.inode_table i in
              let readable = n.size - f.offset in
              let m = if ltb readable c then readable else c in
              returns
                (pos m, slice s.data_buf (n.data_offset + f.offset) m)
                (set_fd s fd (record f { offset = f.offset + m }))
        ])
    go (negsuc n) = tt
    go (pos c) = offset-IsSound fd _ v

pub fs_read-After : {s : Fs} (fd count : ℤ) → IsSound s → After IsSound (fs_read s fd count)
unfolding fs_read
fs_read-After {s} fd count v = elim (Option-cases (open_fd s fd)) [
  | inl shut ↦ rw (shut, fs_read) v
  | inr (i, e) ↦ rw (e, fs_read) (go i (s.fd_table i).inode)
]
  where
    go :
        (i : ℕ) (z : ℤ)
        → After {A = ℤ × List ℕ} IsSound (elim z [
          | negsuc zero ↦ read_terminal s count
          | negsuc (suc _) ↦ faults
          | pos n ↦ read_inode s i n count
        ])
    go i (negsuc zero) = read_terminal-After count v
    go i (negsuc (suc _)) = tt
    go i (pos n) = read_inode-After i n count v
