-- ===== src/Fs/Refs/Steps.antt =====
-- Every state that the calls of fs.c lead to from `fs_init` has right reference counts.
use letsgo.Fs.Path.{resolve_path, dotdot_name, dot_name}
use letsgo.Fs.Dir.{alloc_inode, fresh_inode}
use letsgo.Fs.Count.{weight, count_open, count_open-pos}
use letsgo.Fs.Files.{
  next_entry, readdir_at, fs_readdir, fs_open, fs_close, fs_read, fs_write, fs_lseek, fs_mkdir,
  fs_unlink, fs_opendir, fs_dup2, fs_init, std_fd, wiped,
}
use letsgo.Base.{
  ℕ, zero, suc, ◌+◌, ◌≤◌, ◌<◌, ◌≡◌, refl, subst, ◌⊎◌, inl, inr, true, not, Option, none, some, List,
  arith, Bool-cases, Option-cases, find_from,
}
use letsgo.Base.Int.{ℤ, pos, negsuc, minus_one}
use letsgo.Fs.Defs.{Fs, Outcome, open_fd, returns, is_dir, set_inode, max_fd, max_inodes, InodeType}
use letsgo.Fs.Refs.Sound.{IsSound, After, dir_add_entry-IsSound}
use letsgo.Fs.Refs.Calls.{offset-IsSound, fs_open-After, fs_close-After, fs_read-After}
use letsgo.Fs.Refs.Writes.{
  fs_write-After, fs_lseek-After, fs_mkdir-After, fs_unlink-After, fs_opendir-After, fs_dup2-After,
}

next_entry-After :
    {s : Fs} (i d : ℕ) (o : Option ℕ) → IsSound s → After IsSound (next_entry s i d o)
unfolding next_entry
next_entry-After i d none v = v
next_entry-After i d (some e) v = offset-IsSound i (e + 1) v

readdir_at-After : {s : Fs} (i : ℕ) (z : ℤ) → IsSound s → After IsSound (readdir_at s i z)
unfolding readdir_at
readdir_at-After i (negsuc n) v = tt
readdir_at-After {s} i (pos d) v = elim (Bool-cases (not (is_dir (s.inode_table d).type))) [
  | inl other ↦ rw other v
  | inr isdir ↦ rw isdir (next_entry-After i d _ v)
]

pub fs_readdir-After : {s : Fs} (fd : ℤ) → IsSound s → After IsSound (fs_readdir s fd)
unfolding fs_readdir
fs_readdir-After {s} fd v = elim (Option-cases (open_fd s fd)) [
  | inl shut ↦ rw (shut, fs_readdir) v
  | inr (i, e) ↦ rw (e, fs_readdir) (readdir_at-After i (s.fd_table i).inode v)
]

-- A call that returns.
pub data Step (s : Fs) : Fs → Type 0 where
  opens :
      {s' : Fs} (path : List ℕ) (flags : ℕ) {r : ℤ}
      → fs_open s path flags ≡ returns r s'
      → Step s s'
  closes : {s' : Fs} (fd : ℤ) {r : ℤ} → fs_close s fd ≡ returns r s' → Step s s'
  reads : {s' : Fs} (fd count : ℤ) {r : ℤ × List ℕ} → fs_read s fd count ≡ returns r s' → Step s s'
  writes :
      {s' : Fs} (fd : ℤ) (buf : ℕ → ℕ) (count : ℤ) {r : ℤ}
      → fs_write s fd buf count ≡ returns r s'
      → Step s s'
  seeks :
      {s' : Fs} (fd delta whence : ℤ) {r : ℤ}
      → fs_lseek s fd delta whence ≡ returns r s'
      → Step s s'
  makes_dir : {s' : Fs} (path : List ℕ) {r : ℤ} → fs_mkdir s path ≡ returns r s' → Step s s'
  unlinks : {s' : Fs} (path : List ℕ) {r : ℤ} → fs_unlink s path ≡ returns r s' → Step s s'
  opens_dir : {s' : Fs} (path : List ℕ) {r : ℤ} → fs_opendir s path ≡ returns r s' → Step s s'
  reads_dir : {s' : Fs} (fd : ℤ) {r : ℤ × List ℕ} → fs_readdir s fd ≡ returns r s' → Step s s'
  copies : {s' : Fs} (oldfd newfd : ℤ) {r : ℤ} → fs_dup2 s oldfd newfd ≡ returns r s' → Step s s'

pub data Reach (s : Fs) : Fs → Type 0 where
  start : Reach s s
  later : {t u : Fs} → Reach s t → Step t u → Reach s u

from_return :
    {A : Type 0} (m : Outcome A) {a : A} {s : Fs} → After IsSound m → m ≡ returns a s → IsSound s
from_return m p e = subst (After IsSound) e p

-- Every call keeps the reference counts right.
pub Step-IsSound : {s s' : Fs} → Step s s' → IsSound s → IsSound s'
Step-IsSound (opens path flags e) v = from_return _ (fs_open-After path flags v) e
Step-IsSound (closes fd e) v = from_return _ (fs_close-After fd v) e
Step-IsSound (reads fd count e) v = from_return _ (fs_read-After fd count v) e
Step-IsSound (writes fd buf count e) v = from_return _ (fs_write-After fd buf count v) e
Step-IsSound (seeks fd delta whence e) v = from_return _ (fs_lseek-After fd delta whence v) e
Step-IsSound (makes_dir path e) v = from_return _ (fs_mkdir-After path v) e
Step-IsSound (unlinks path e) v = from_return _ (fs_unlink-After path v) e
Step-IsSound (opens_dir path e) v = from_return _ (fs_opendir-After path v) e
Step-IsSound (reads_dir fd e) v = from_return _ (fs_readdir-After fd v) e
Step-IsSound (copies oldfd newfd e) v = from_return _ (fs_dup2-After oldfd newfd v) e

Reach-IsSound : {s s' : Fs} → IsSound s → Reach s s' → IsSound s'
Reach-IsSound v start = v
Reach-IsSound v (later r st) = Step-IsSound st (Reach-IsSound v r)

std_weight : (s : Fs) (fd i : ℕ) → weight (std_fd fd (s.fd_table fd)) i ≡ 0 ⊎ (max_fd ≤ fd)
std_weight s fd i = ground arith

count-std : (s : Fs) (i n : ℕ) → n ≤ max_fd → count_open (wiped s).fd_table i n ≡ 0
unfolding count_open
count-std s i zero h = refl
count-std s i (suc n) h = ground (arith, count-std s i n (omega arith), std_weight s n i)

abbrev bare : Fs → Fs
bare s = set_inode (wiped s) 0 (fresh_inode InodeType.dir)

bare-IsSound : (s : Fs) → IsSound (bare s)
bare-IsSound s = record {
  counted = record {
    counts = λ i b. ground (arith, count-std s i max_fd (omega arith));
    idle = λ i u. ground arith;
    targets = λ fd i b ok e. ground arith;
    signs = λ fd n b ok e. ground arith;
  };
  rooted = record { homes = λ d at. ground arith };
}

-- `fs_init` establishes right reference counts.
pub fs_init-IsSound : (s : Fs) → IsSound (fs_init s)
unfolding fs_init alloc_inode find_from
fs_init-IsSound s =
    dir_add_entry-IsSound 0 dotdot_name 0 (dir_add_entry-IsSound 0 dot_name 0 (bare-IsSound s))

-- In every state that calls lead to from `fs_init`, the reference count of an inode is the number
-- of its open descriptors.
pub ref_count_exact :
    (s : Fs) {t : Fs} (i : ℕ)
    → Reach (fs_init s) t
    → i < max_inodes
    → (t.inode_table i).ref_count ≡ count_open t.fd_table i max_fd
ref_count_exact s {t} i r b = (Reach-IsSound (fs_init-IsSound s) r).counted.counts i b

-- In every state that calls lead to from `fs_init`, an open descriptor of an inode stands on an
-- inode in use: no descriptor is left on a file that has been removed.
pub open_inode_used :
    (s : Fs) {t : Fs} (fd i : ℕ)
    → Reach (fs_init s) t
    → fd < max_fd
    → (t.fd_table fd).valid ≡ true
    → (t.fd_table fd).inode ≡ pos i
    → (t.inode_table i).used ≡ true
open_inode_used s {t} fd i r b now e =
    let v = (Reach-IsSound (fs_init-IsSound s) r).counted in
    let below = v.targets fd i b now e in
    let held : 1 ≤ (t.inode_table i).ref_count =
      ground (arith, v.counts i below, count_open-pos t.fd_table i max_fd fd b) in
    elim (Bool-cases (t.inode_table i).used) [
      | inl used ↦ used
      | inr free ↦ absurd (omega (arith, v.idle i free))
    ]

-- While a descriptor is open on an inode, `fs_unlink` of a path to it fails and changes nothing.
pub fs_unlink_open :
    (s : Fs) {t : Fs} (path : List ℕ) (fd i : ℕ)
    → Reach (fs_init s) t
    → fd < max_fd
    → (t.fd_table fd).valid ≡ true
    → (t.fd_table fd).inode ≡ pos i
    → resolve_path t path ≡ some i
    → fs_unlink t path ≡ returns minus_one t
unfolding fs_unlink
fs_unlink_open s {t} path fd i r b now e found =
    let v = (Reach-IsSound (fs_init-IsSound s) r).counted in
    let held : 1 ≤ (t.inode_table i).ref_count =
      ground
        (arith, v.counts i (v.targets fd i b now e), count_open-pos t.fd_table i max_fd fd b) in
    ground arith
