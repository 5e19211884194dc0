-- ===== src/Fs/Refs/Defs.antt =====
-- What the reference counts mean.
use letsgo.Base.{ℕ, ◌<◌, ◌≡◌, true, false}
use letsgo.Base.Int.{pos, negsuc}
use letsgo.Fs.Defs.{Fs, max_fd, max_inodes}
use letsgo.Fs.Count.{count_open}

-- Each count is the number of open descriptors on the inode; a free inode has none; an open
-- descriptor names the terminal or an inode of the table.
pub record IsCounted (s : Fs) : Type 0 where
  pub counts :
      (i : ℕ) → i < max_inodes → (s.inode_table i).ref_count ≡ count_open s.fd_table i max_fd
  pub idle : (i : ℕ) → (s.inode_table i).used ≡ false → (s.inode_table i).ref_count ≡ 0
  pub targets :
      (fd i : ℕ)
      → fd < max_fd
      → (s.fd_table fd).valid ≡ true
      → (s.fd_table fd).inode ≡ pos i
      → i < max_inodes
  pub signs :
      (fd n : ℕ)
      → fd < max_fd
      → (s.fd_table fd).valid ≡ true
      → (s.fd_table fd).inode ≡ negsuc n
      → n ≡ 0
