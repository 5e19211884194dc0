-- ===== src/Fs/Refs/Writes.antt =====
-- `fs_write`, `fs_lseek`, `fs_unlink`, `fs_mkdir`, `fs_opendir`, `fs_readdir` and `fs_dup2` of fs.c
-- keep the reference counts right.
use letsgo.Fs.Files.{
  file_area, store, write_inode, write_terminal, fs_write, seek_inode, fs_lseek, fs_unlink, make_at,
  fs_mkdir, fs_opendir, retain, close_at, copy_fd, fs_dup2, release, clamp, seek_target,
}
use letsgo.Base.{
  ℕ, zero, suc, ◌+◌, ◌^◌, ◌<◌, ◌≡◌, refl, subst, ◌≢◌, inl, inr, true, false, not, ◌||◌, Option,
  none, some, List, arith, ltb, leb, ◌==◌, if◌then◌else◌, Bool-cases, Option-cases, some_inj,
}
use letsgo.Base.Int.{wrap_int, ℤ, pos, negsuc, minus_one, pos_part, ◌+ℤ◌}
use letsgo.Fs.Defs.{
  Fs, InodeType, max_fd, max_inodes, set_fd, open_fd, data_buf_size, faults, returns, is_file,
  is_dir, max_file_size,
}
use letsgo.Fs.Dir.{alloc_inode, dir_lookup}
use letsgo.Fs.Path.{resolve_path, split_path, dotdot_name, dot_name}
use letsgo.Fs.Refs.Moves.{keep-IsCounted, copied-IsCounted}
use letsgo.Fs.Refs.Rooted.{keep-IsRooted, resolve_path-IsUsed}
use letsgo.Fs.Refs.Sound.{
  IsSound, After, keep-IsSound, dir_add_entry-IsSound, alloc_inode-IsSound, take_fd-After,
  open_fd-valid, close_at-IsSound,
}
use letsgo.Fs.Refs.Calls.{offset-IsSound, terminal-IsSound}

file_area-IsSound : {s s' : Fs} (i : ℕ) → IsSound s → file_area s i ≡ some s' → IsSound s'
unfolding file_area
file_area-IsSound {s} {s'} i v e = elim (Bool-cases (not ((s.inode_table i).size == 0))) [
  | inl old ↦ subst IsSound (some_inj (rw old at e)) v
  | inr new ↦ elim (Bool-cases (ltb data_buf_size (s.next_free_offset + max_file_size))) [
    | inl full ↦ absurd (ground arith)
    | inr room ↦
        subst IsSound (some_inj (rw (new, room) at e))
          (keep-IsSound _ refl (λ g. (refl, refl)) (λ j. ground arith) v)
  ]
]

store-IsSound : {s : Fs} (fd i : ℕ) (buf : ℕ → ℕ) (c : ℕ) → IsSound s → IsSound (store s fd i buf c)
store-IsSound {s} fd i buf c v = keep-IsSound _ refl (λ g. ground arith) (λ j. ground arith) v

write_inode-After :
    {s : Fs} (fd i : ℕ) (buf : ℕ → ℕ) (count : ℤ)
    → IsSound s
    → After IsSound (write_inode s fd i buf count)
unfolding write_inode
write_inode-After {s} fd i buf count v = elim (Bool-cases (not (is_file (s.inode_table i).type))) [
  | inl other ↦ rw other v
  | inr isfile ↦
      elim (Bool-cases
        (ltb max_file_size (pos_part (wrap_int (pos (s.fd_table fd).offset +ℤ count))))) [
          | inl long ↦ rw (isfile, long) v
          | inr fits ↦ elim (Option-cases (file_area s i)) [
            | inl full ↦ rw (isfile, fits, write_inode, full) v
            | inr (s', area) ↦
                rw (isfile, fits, write_inode, area) (go s' (file_area-IsSound i v area) count)
          ]
        ]
]
  where
    go :
        (s' : Fs)
        → IsSound s'
        → (c : ℤ)
        → After {A = ℤ} IsSound (elim c [
          | negsuc _ ↦ faults
          | pos c ↦
              if leb (2 ^ 31) ((s.fd_table fd).offset + c)
              then faults
              else returns (pos c) (store s' fd i buf c)
        ])
    go s' v' (negsuc n) = tt
    go s' v' (pos c) = elim (Bool-cases (leb (2 ^ 31) ((s.fd_table fd).offset + c))) [
      | inl wraps ↦ rw wraps tt
      | inr small ↦ rw small (store-IsSound fd i buf c v')
    ]

write_terminal-After :
    {s : Fs} (buf : ℕ → ℕ) (count : ℤ) → IsSound s → After IsSound (write_terminal s buf count)
write_terminal-After buf (negsuc n) v = v
write_terminal-After {s} buf (pos c) v = terminal-IsSound s.input _ v

pub fs_write-After :
    {s : Fs} (fd : ℤ) (buf : ℕ → ℕ) (count : ℤ)
    → IsSound s
    → After IsSound (fs_write s fd buf count)
unfolding fs_write
fs_write-After {s} fd buf count v = elim (Option-cases (open_fd s fd)) [
  | inl shut ↦ rw (shut, fs_write) v
  | inr (i, e) ↦ rw (e, fs_write) (go i (s.fd_table i).inode)
]
  where
    go :
        (i : ℕ) (z : ℤ)
        → After {A = ℤ} IsSound (elim z [
          | negsuc zero ↦ write_terminal s buf count
          | negsuc (suc _) ↦ faults
          | pos n ↦ write_inode s i n buf count
        ])
    go i (negsuc zero) = write_terminal-After buf count v
    go i (negsuc (suc _)) = tt
    go i (pos n) = write_inode-After i n buf count v

seek_inode-After :
    {s : Fs} (fd i : ℕ) (delta whence : ℤ)
    → IsSound s
    → After IsSound (seek_inode s fd i delta whence)
unfolding seek_inode
seek_inode-After {s} fd i delta whence v =
    elim (Bool-cases (not (ltb i max_inodes) || not (is_file (s.inode_table i).type))) [
      | inl refused ↦ rw refused v
      | inr ready ↦
          rw ready (go (seek_target (s.fd_table fd).offset (s.inode_table i).size delta whence))
    ]
  where
    go :
        (o : Option ℤ)
        → After {A = ℤ} IsSound (elim o [
          | none ↦ returns minus_one s
          | some t ↦
              returns
                (pos (clamp (s.inode_table i).size t))
                (set_fd s fd (record (s.fd_table fd) { offset = clamp (s.inode_table i).size t }))
        ])
    go none = v
    go (some t) = offset-IsSound fd _ v

pub fs_lseek-After :
    {s : Fs} (fd delta whence : ℤ) → IsSound s → After IsSound (fs_lseek s fd delta whence)
unfolding fs_lseek
fs_lseek-After {s} fd delta whence v = elim (Option-cases (open_fd s fd)) [
  | inl shut ↦ rw (shut, fs_lseek) v
  | inr (i, e) ↦ rw (e, fs_lseek) (go i (s.fd_table i).inode)
]
  where
    go :
        (i : ℕ) (z : ℤ)
        → After {A = ℤ} IsSound
            (elim z [ negsuc _ ↦ returns minus_one s | pos n ↦ seek_inode s i n delta whence ])
    go i (negsuc _) = v
    go i (pos n) = seek_inode-After i n delta whence v

pub fs_unlink-After : {s : Fs} (path : List ℕ) → IsSound s → After IsSound (fs_unlink s path)
unfolding fs_unlink
fs_unlink-After {s} path v = elim (Option-cases (resolve_path s path)) [
  | inl missing ↦ rw (missing, fs_unlink) v
  | inr (i, found) ↦
      elim (Bool-cases
        (not (is_file (s.inode_table i).type) || not ((s.inode_table i).ref_count == 0))) [
          | inl refused ↦ rw (found, fs_unlink, refused) v
          | inr ready ↦
              rw (found, fs_unlink, ready)
                (record {
                  counted =
                      keep-IsCounted v.counted (λ fd. (refl, refl)) (λ j. ground arith)
                        (λ j u. ground (arith, v.counted.idle j));
                  rooted = keep-IsRooted _ refl (λ d u t. ground arith) v.rooted;
                })
        ]
]

make_at-After :
    {s : Fs} (new : Option ℕ) (parent : ℕ) (name : List ℕ)
    → IsSound s
    → After IsSound (make_at s new parent name)
unfolding make_at
make_at-After none parent name v = v
make_at-After (some i) parent name v =
    dir_add_entry-IsSound parent name i
      (dir_add_entry-IsSound i dotdot_name parent (dir_add_entry-IsSound i dot_name i v))

pub fs_mkdir-After : {s : Fs} (path : List ℕ) → IsSound s → After IsSound (fs_mkdir s path)
unfolding fs_mkdir
fs_mkdir-After {s} path v = elim (Option-cases (split_path path)) [
  | inl long ↦ rw (long, fs_mkdir) tt
  | inr ((parent_path, name), parts) ↦ elim (Option-cases (resolve_path s parent_path)) [
    | inl lost ↦ rw (parts, fs_mkdir, lost) v
    | inr (parent, found) ↦ elim (Option-cases (dir_lookup s parent name)) [
      | inr (i, there) ↦ rw (parts, fs_mkdir, found, there) v
      | inl new ↦
          rw (parts, fs_mkdir, found, new)
            (make_at-After (alloc_inode s InodeType.dir).0 parent name
              (alloc_inode-IsSound InodeType.dir v).0)
    ]
  ]
]

pub fs_opendir-After : {s : Fs} (path : List ℕ) → IsSound s → After IsSound (fs_opendir s path)
unfolding fs_opendir
fs_opendir-After {s} path v = elim (Option-cases (resolve_path s path)) [
  | inl missing ↦ rw (missing, fs_opendir) v
  | inr (i, found) ↦ elim (Bool-cases (is_dir (s.inode_table i).type)) [
    | inr other ↦ rw (found, fs_opendir, other) v
    | inl isdir ↦
        let u = resolve_path-IsUsed s path v.rooted found in
        rw (found, fs_opendir, isdir) (take_fd-After i 0 u.0 u.1 v)
  ]
]

retain-home :
    (s : Fs) (z : ℤ)
    → ((retain s z).cwd ≡ s.cwd)
      × ((d : ℕ)
          → (((retain s z).inode_table d).used ≡ (s.inode_table d).used)
            × (((retain s z).inode_table d).type ≡ (s.inode_table d).type))
retain-home s (negsuc n) = (refl, λ d. (refl, refl))
retain-home s (pos i) = (refl, λ d. ground arith)

copy_at-IsSound :
    {s : Fs} (old new : ℕ)
    → old < max_fd
    → new < max_fd
    → (s.fd_table new).valid ≡ false
    → (s.fd_table old).valid ≡ true
    → IsSound s
    → IsSound
        (retain (set_fd s new (record (s.fd_table old) { valid = true })) (s.fd_table old).inode)
copy_at-IsSound {s} old new bo bn free now v =
    let frame =
      retain-home (set_fd s new (record (s.fd_table old) { valid = true }))
        (s.fd_table old).inode in
    record {
      counted = copied-IsCounted old new bo bn free now v.counted;
      rooted = keep-IsRooted _ frame.0 (λ d u t. ground (arith, frame.1 d)) v.rooted;
    }

close_at-fds :
    (s : Fs) (fd g : ℕ)
    → ((close_at s fd).fd_table g).valid ≡ (if fd == g then false else (s.fd_table g).valid)
close_at-fds s fd g = go (s.fd_table fd).inode
  where
    go :
        (z : ℤ)
        → ((release (set_fd s fd (record (s.fd_table fd) { valid = false })) z).fd_table g).valid
          ≡ (if fd == g then false else (s.fd_table g).valid)
    go (negsuc n) = ground arith
    go (pos i) = ground arith

copy_fd-IsSound :
    {s : Fs} (old new : ℕ)
    → old < max_fd
    → new < max_fd
    → old ≢ new
    → (s.fd_table old).valid ≡ true
    → IsSound s
    → IsSound (copy_fd s old new)
copy_fd-IsSound {s} old new bo bn ne now v = elim (Bool-cases (s.fd_table new).valid) [
  | inl taken ↦ rw taken (
      copy_at-IsSound {s = close_at s new} old new bo bn (ground (arith, close_at-fds s new new))
        (ground (arith, close_at-fds s new old)) (close_at-IsSound new bn taken v))
  | inr free ↦ rw free (copy_at-IsSound old new bo bn free now v)
]

pub fs_dup2-After : {s : Fs} (oldfd newfd : ℤ) → IsSound s → After IsSound (fs_dup2 s oldfd newfd)
unfolding fs_dup2
fs_dup2-After {s} oldfd (negsuc n) v = elim (Option-cases (open_fd s oldfd)) [
  | inl shut ↦ rw (shut, fs_dup2) v
  | inr (old, e) ↦ rw (e, fs_dup2) v
]
fs_dup2-After {s} oldfd (pos new) v = elim (Option-cases (open_fd s oldfd)) [
  | inl shut ↦ rw (shut, fs_dup2) v
  | inr (old, e) ↦
      let ok = open_fd-valid s oldfd e in
      rw (e, fs_dup2)
        (elim (Bool-cases (not (ltb new max_fd))) [
          | inl beyond ↦ rw beyond v
          | inr inside ↦ elim (Bool-cases (old == new)) [
            | inl same ↦ rw (inside, same) v
            | inr other ↦
                rw (inside, other)
                  (copy_fd-IsSound old new ok.1 (ground arith) (ground arith) ok.2 v)
          ]
        ])
]
