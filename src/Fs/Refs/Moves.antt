-- ===== src/Fs/Refs/Moves.antt =====
-- Changes of one descriptor with the count of its inode.
use letsgo.Base.{ℕ, ◌+◌, ◌≤◌, ◌<◌, ◌≡◌, refl, sym, ◌∙◌, true, false, arith}
use letsgo.Base.Int.{ℤ, pos, negsuc}
use letsgo.Fs.Defs.{Fs, max_fd, max_inodes, set_fd, set_inode}
use letsgo.Fs.Count.{count_open-update, count_open-pos, count_open-congr}
use letsgo.Fs.Refs.Defs.{IsCounted}
use letsgo.Fs.Files.{close_at, release, retain}

-- Nothing that the counts depend on changes.
pub keep-IsCounted :
    {s s' : Fs}
    → IsCounted s
    → ((fd : ℕ)
        → ((s'.fd_table fd).valid ≡ (s.fd_table fd).valid)
          × ((s'.fd_table fd).inode ≡ (s.fd_table fd).inode))
    → ((i : ℕ) → (s'.inode_table i).ref_count ≡ (s.inode_table i).ref_count)
    → ((i : ℕ) → (s'.inode_table i).used ≡ false → (s.inode_table i).ref_count ≡ 0)
    → IsCounted s'
keep-IsCounted {s} {s'} v fds refs free = record {
  counts = λ i b.
      refs i
      ∙ v.counts i b
      ∙ sym (count_open-congr s'.fd_table s.fd_table i max_fd (λ fd. ground (arith, fds fd)));
  idle = λ i u. refs i ∙ free i u;
  targets = λ fd i b ok e. v.targets fd i b (sym (fds fd).0 ∙ ok) (sym (fds fd).1 ∙ e);
  signs = λ fd n b ok e. v.signs fd n b (sym (fds fd).0 ∙ ok) (sym (fds fd).1 ∙ e);
}

-- A free descriptor is opened on a used inode.
pub opened-IsCounted :
    {s : Fs} (fd ino flags : ℕ)
    → fd < max_fd
    → ino < max_inodes
    → (s.fd_table fd).valid ≡ false
    → (s.inode_table ino).used ≡ true
    → IsCounted s
    → IsCounted (
        set_inode
          (set_fd s fd (record { inode = pos ino; offset = 0; flags = flags; valid = true }))
          ino
          (record (s.inode_table ino) { ref_count = (s.inode_table ino).ref_count + 1 }))
opened-IsCounted {s} fd ino flags b bi free used v = record {
  counts = λ i bound. ground (
    arith,
    v.counts i bound,
    count_open-update s.fd_table i max_fd fd
        (record { inode = pos ino; offset = 0; flags = flags; valid = true }) b,
  );
  idle = λ i u. ground (arith, v.idle i);
  targets = λ g i bg ok e. ground (arith, v.targets g i bg);
  signs = λ g n bg ok e. ground (arith, v.signs g n bg);
}

module _ {s : Fs} (fd : ℕ) (b : fd < max_fd) (v : IsCounted s) where
  -- An open descriptor is closed.
  closed_at :
      (z : ℤ)
      → (s.fd_table fd).inode ≡ z
      → (s.fd_table fd).valid ≡ true
      → IsCounted (release (set_fd s fd (record (s.fd_table fd) { valid = false })) z)
  closed_at (negsuc n) e now = record {
    counts = λ i bound. ground (
      arith,
      v.counts i bound,
      count_open-update s.fd_table i max_fd fd (record (s.fd_table fd) { valid = false }) b,
    );
    idle = λ i u. v.idle i u;
    targets = λ g i bg ok h. ground (arith, v.targets g i bg);
    signs = λ g n bg ok h. ground (arith, v.signs g n bg);
  }
  closed_at (pos j) e now =
      let held : 1 ≤ (s.inode_table j).ref_count =
        ground
          (arith, v.counts j (v.targets fd j b now e), count_open-pos s.fd_table j max_fd fd b) in
      record {
        counts = λ i bound. ground (
          arith,
          v.counts i bound,
          count_open-update s.fd_table i max_fd fd (record (s.fd_table fd) { valid = false }) b,
        );
        idle = λ i u. ground (arith, v.idle i);
        targets = λ g i bg ok h. ground (arith, v.targets g i bg);
        signs = λ g n bg ok h. ground (arith, v.signs g n bg);
      }

  pub closed-IsCounted : (s.fd_table fd).valid ≡ true → IsCounted (close_at s fd)
  closed-IsCounted now = closed_at (s.fd_table fd).inode refl now

-- A free descriptor becomes a copy of an open one.
copied_at :
    {s : Fs} (old new : ℕ) (z : ℤ)
    → old < max_fd
    → new < max_fd
    → (s.fd_table new).valid ≡ false
    → (s.fd_table old).valid ≡ true
    → (s.fd_table old).inode ≡ z
    → IsCounted s
    → IsCounted (retain (set_fd s new (record (s.fd_table old) { valid = true })) z)
copied_at {s} old new (negsuc n) bo bn free now e v = record {
  counts = λ i bound. ground (
    arith,
    v.counts i bound,
    count_open-update s.fd_table i max_fd new (record (s.fd_table old) { valid = true }) bn,
  );
  idle = λ i u. v.idle i u;
  targets = λ g i bg ok h. ground (arith, v.targets g i bg);
  signs = λ g m bg ok h. ground (arith, v.signs g m bg, v.signs old m bo now);
}
copied_at {s} old new (pos j) bo bn free now e v =
    let held : 1 ≤ (s.inode_table j).ref_count =
      ground
        (arith, v.counts j (v.targets old j bo now e), count_open-pos s.fd_table j max_fd old bo) in
    record {
      counts = λ i bound. ground (
        arith,
        v.counts i bound,
        count_open-update s.fd_table i max_fd new (record (s.fd_table old) { valid = true }) bn,
      );
      idle = λ i u. ground (arith, v.idle i);
      targets = λ g i bg ok h. ground (arith, v.targets g i bg, v.targets old i bo now);
      signs = λ g m bg ok h. ground (arith, v.signs g m bg);
    }

pub copied-IsCounted :
    {s : Fs} (old new : ℕ)
    → old < max_fd
    → new < max_fd
    → (s.fd_table new).valid ≡ false
    → (s.fd_table old).valid ≡ true
    → IsCounted s
    → IsCounted
        (retain (set_fd s new (record (s.fd_table old) { valid = true })) (s.fd_table old).inode)
copied-IsCounted {s} old new bo bn free now v =
    copied_at old new (s.fd_table old).inode bo bn free now refl v
