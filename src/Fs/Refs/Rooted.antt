-- ===== src/Fs/Refs/Rooted.antt =====
-- The directories that paths start from stay directories, and a path leads to an inode in use.
use letsgo.Text.{char_of}
use letsgo.Base.{
  ℕ, ◌/◌, ◌<◌, ◌≡◌, refl, inl, inr, Bool, true, ◌||◌, some, List, [], ◌∷◌, arith, ◌==◌, Bool-cases,
  Option-cases, find_from, find_from-IsFirst,
}
use letsgo.Fs.Defs.{Fs, max_inodes, is_dir, entry_size}
use letsgo.Fs.Dir.{dir_lookup, entry_matches, entry_inode}
use letsgo.Fs.Path.{resolve_path, walk, step_into, slash}

abbrev pub IsUsed : Fs → ℕ → Type 0
IsUsed s i = (i < max_inodes) × ((s.inode_table i).used ≡ true)

abbrev pub is_home : Fs → ℕ → Bool
is_home s i = i == 0 || i == s.cwd

pub record IsRooted (s : Fs) : Type 0 where
  pub homes :
      (d : ℕ)
      → is_home s d ≡ true
      → (d < max_inodes) × ((s.inode_table d).used ≡ true) × (is_dir (s.inode_table d).type ≡ true)

pub keep-IsRooted :
    {s : Fs} (s' : Fs)
    → s'.cwd ≡ s.cwd
    → ((d : ℕ)
        → (s.inode_table d).used ≡ true
        → is_dir (s.inode_table d).type ≡ true
        → ((s'.inode_table d).used ≡ true) × (is_dir (s'.inode_table d).type ≡ true))
    → IsRooted s
    → IsRooted s'
keep-IsRooted s' e h v = record {
  homes = λ d at.
      let old = v.homes d (ground arith) in let new = h d old.1 old.2 in (old.0, new.0, new.1);
}

dir_lookup-IsUsed :
    (s : Fs) (d : ℕ) (name : List ℕ) {i : ℕ} → dir_lookup s d name ≡ some i → IsUsed s i
unfolding dir_lookup
dir_lookup-IsUsed s d name {i} e = elim (Bool-cases (is_dir (s.inode_table d).type)) [
  | inr other ↦ absurd (ground arith)
  | inl isdir ↦
      let n = s.inode_table d in
      elim (Option-cases (find_from (entry_matches s n.data_offset name) (n.size / entry_size) 0)) [
        | inl missing ↦ absurd (ground arith)
        | inr (j, hit) ↦
            let first =
              find_from-IsFirst (entry_matches s n.data_offset name) (n.size / entry_size) 0 hit in
            let same : entry_inode s n.data_offset j ≡ i = ground arith in
            ground (arith, first.passes)
      ]
]

step_into-IsUsed :
    (s : Fs) (cur : ℕ) (token : List ℕ) {i : ℕ}
    → IsUsed s cur
    → step_into s cur token ≡ some i
    → IsUsed s i
step_into-IsUsed s cur token {i} u e = ground (arith, dir_lookup-IsUsed s cur token {i = i})

walk-IsUsed :
    (s : Fs) (cur : ℕ) (ts : List (List ℕ)) {i : ℕ}
    → IsUsed s cur
    → walk s cur ts ≡ some i
    → IsUsed s i
unfolding walk
walk-IsUsed s cur [] {i} u e = ground arith
walk-IsUsed s cur (t ∷ ts) {i} u e = elim (Option-cases (step_into s cur t)) [
  | inl lost ↦ absurd (ground arith)
  | inr (j, found) ↦
      walk-IsUsed s j ts {i = i} (step_into-IsUsed s cur t {i = j} u found) (ground arith)
]

-- A path that resolves leads to an inode in use.
pub resolve_path-IsUsed :
    (s : Fs) (path : List ℕ) {i : ℕ} → IsRooted s → resolve_path s path ≡ some i → IsUsed s i
unfolding resolve_path
resolve_path-IsUsed s path {i} v e = elim (Bool-cases (char_of path == slash)) [
  | inl absolute ↦
      let root = v.homes 0 refl in walk-IsUsed s 0 _ (root.0, root.1) (rw absolute at e)
  | inr relative ↦
      let here = v.homes s.cwd (ground arith) in
      walk-IsUsed s s.cwd _ (here.0, here.1) (rw relative at e)
]
