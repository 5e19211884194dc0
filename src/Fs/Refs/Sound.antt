-- ===== src/Fs/Refs/Sound.antt =====
-- Both invariants together, and the parts of the calls that keep them.
use letsgo.Base.{
  ℕ, ◌-◌, ◌<◌, ◌≡◌, refl, sym, ◌∙◌, inl, inr, true, false, not, some, List, arith, Option-cases,
  find_from, find_from-IsFirst,
}
use letsgo.Base.Int.{ℤ, pos, negsuc}
use letsgo.Fs.Defs.{Fs, InodeType, Outcome, max_fd, max_inodes, set_fd, open_fd, returns, faults}
use letsgo.Fs.Defs.{waits}
use letsgo.Fs.Dir.{alloc_inode, dir_add_entry}
use letsgo.Fs.Files.{take_fd, close_at, release}
use letsgo.Fs.Refs.Defs.{IsCounted}
use letsgo.Fs.Refs.Moves.{keep-IsCounted, opened-IsCounted, closed-IsCounted}
use letsgo.Fs.Refs.Rooted.{IsRooted, keep-IsRooted}

pub record IsSound (s : Fs) : Type 0 where
  pub counted : IsCounted s
  pub rooted : IsRooted s

-- The state that a call returns with, if it returns, has the property.
abbrev pub After {ℓ} : {A : Type 0} → (Fs → Type ℓ) → Outcome A → Type ℓ
After P (returns a s) = P s
After P faults = Unit
After P waits = Unit

-- A change of descriptors' offsets, of sizes and of data.
pub keep-IsSound :
    {s : Fs} (s' : Fs)
    → s'.cwd ≡ s.cwd
    → ((fd : ℕ)
        → ((s'.fd_table fd).valid ≡ (s.fd_table fd).valid)
          × ((s'.fd_table fd).inode ≡ (s.fd_table fd).inode))
    → ((i : ℕ)
        → ((s'.inode_table i).ref_count ≡ (s.inode_table i).ref_count)
          × ((s'.inode_table i).used ≡ (s.inode_table i).used)
          × ((s'.inode_table i).type ≡ (s.inode_table i).type))
    → IsSound s
    → IsSound s'
keep-IsSound {s} s' c fds inodes v = record {
  counted =
      keep-IsCounted v.counted fds (λ i. (inodes i).0)
        (λ i u. v.counted.idle i (sym (inodes i).1 ∙ u));
  rooted = keep-IsRooted s' c (λ d u t. ground (arith, inodes d)) v.rooted;
}

pub dir_add_entry-IsSound :
    {s : Fs} (d : ℕ) (name : List ℕ) (target : ℕ)
    → IsSound s
    → IsSound (dir_add_entry s d name target).1
unfolding dir_add_entry
dir_add_entry-IsSound {s} d name target v =
    keep-IsSound _ (ground arith) (λ fd. ground arith) (λ i. ground arith) v

-- The inode that the allocator gives was free.
pub alloc_inode-IsSound :
    {s : Fs} (t : InodeType)
    → IsSound s
    → IsSound (alloc_inode s t).1
      × ((i : ℕ)
          → (alloc_inode s t).0 ≡ some i
          → (i < max_inodes) × (((alloc_inode s t).1.inode_table i).used ≡ true))
unfolding alloc_inode
alloc_inode-IsSound {s} t v =
    elim (Option-cases (find_from (λ i. not (s.inode_table i).used) max_inodes 0)) [
      | inl full ↦ rw (full, alloc_inode) (v, λ i e. absurd (cc))
      | inr (i, hit) ↦
          let first = find_from-IsFirst (λ j. not (s.inode_table j).used) max_inodes 0 hit in
          rw (hit, alloc_inode)
            (
              record {
                counted =
                    keep-IsCounted v.counted (λ fd. (refl, refl))
                      (λ j. ground (arith, first.passes, v.counted.idle i))
                      (λ j u. ground (arith, v.counted.idle j));
                rooted = keep-IsRooted _ refl (λ d u k. ground (arith, first.passes)) v.rooted;
              },
              λ j e. ground (arith, first.below),
            )
    ]

pub take_fd-After :
    {s : Fs} (ino flags : ℕ)
    → ino < max_inodes
    → (s.inode_table ino).used ≡ true
    → IsSound s
    → After IsSound (take_fd s ino flags)
unfolding take_fd
take_fd-After {s} ino flags b used v =
    elim (Option-cases (find_from (λ i. not (s.fd_table i).valid) (max_fd - 3) 3)) [
      | inl full ↦ rw (full, take_fd) v
      | inr (fd, hit) ↦
          let first = find_from-IsFirst (λ i. not (s.fd_table i).valid) (max_fd - 3) 3 hit in
          rw (hit, take_fd)
            (record {
              counted =
                  opened-IsCounted fd ino flags (omega (arith, first.below)) b
                    (ground (arith, first.passes)) used v.counted;
              rooted = keep-IsRooted _ refl (λ d u k. ground arith) v.rooted;
            })
    ]

pub open_fd-valid :
    (s : Fs) (fd : ℤ) {i : ℕ}
    → open_fd s fd ≡ some i
    → (fd ≡ pos i) × (i < max_fd) × ((s.fd_table i).valid ≡ true)
open_fd-valid s (negsuc n) e = absurd (cc)
open_fd-valid s (pos n) e = ground arith

release-home :
    (s : Fs) (z : ℤ)
    → ((release s z).cwd ≡ s.cwd)
      × ((d : ℕ)
          → (((release s z).inode_table d).used ≡ (s.inode_table d).used)
            × (((release s z).inode_table d).type ≡ (s.inode_table d).type))
release-home s (negsuc n) = (refl, λ d. (refl, refl))
release-home s (pos i) = (ground arith, λ d. ground arith)

pub close_at-IsSound :
    {s : Fs} (fd : ℕ)
    → fd < max_fd
    → (s.fd_table fd).valid ≡ true
    → IsSound s
    → IsSound (close_at s fd)
close_at-IsSound {s} fd b now v =
    let f = s.fd_table fd in
    let frame = release-home (set_fd s fd (record f { valid = false })) f.inode in
    record {
      counted = closed-IsCounted fd b v.counted now;
      rooted = keep-IsRooted _ frame.0 (λ d u t. ground (arith, frame.1 d)) v.rooted;
    }
