-- ===== src/Fs/Count.antt =====
-- How many descriptors are open on an inode.
use letsgo.Base.{
  ℕ, zero, suc, ◌+◌, ◌≤◌, ◌<◌, ◌≡◌, refl, ◌&&◌, arith, ℕ_discrete, if◌then◌else◌, update,
}
use letsgo.Base.Int.{pos, eq_ℤ}
use letsgo.Fs.Defs.{FileDesc}

abbrev pub weight : FileDesc → ℕ → ℕ
weight f i = if f.valid && eq_ℤ f.inode (pos i) then 1 else 0

-- Among the descriptors below `n`.
unfoldable pub count_open : (ℕ → FileDesc) → ℕ → ℕ → ℕ
count_open t i zero = 0
count_open t i (suc n) = count_open t i n + weight (t n) i

count_open-update_of_le :
    (t : ℕ → FileDesc) (i n fd : ℕ) (f : FileDesc)
    → n ≤ fd
    → count_open (update t fd f) i n ≡ count_open t i n
unfolding count_open
count_open-update_of_le t i zero fd f h = refl
count_open-update_of_le t i (suc n) fd f h =
    ground (arith, count_open-update_of_le t i n fd f (omega arith))

-- Changing one descriptor trades its old weight for the new one.
pub count_open-update :
    (t : ℕ → FileDesc) (i n fd : ℕ) (f : FileDesc)
    → fd < n
    → count_open (update t fd f) i n + weight (t fd) i ≡ count_open t i n + weight f i
unfolding count_open
count_open-update t i zero fd f h = absurd (omega arith)
count_open-update t i (suc n) fd f h = elim (ℕ_discrete fd n) [
  | yes last ↦ ground (arith, count_open-update_of_le t i n fd f (omega arith))
  | no before ↦ ground (arith, count_open-update t i n fd f (omega arith))
]

pub count_open-pos : (t : ℕ → FileDesc) (i n fd : ℕ) → fd < n → weight (t fd) i ≤ count_open t i n
unfolding count_open
count_open-pos t i zero fd h = absurd (omega arith)
count_open-pos t i (suc n) fd h = elim (ℕ_discrete fd n) [
  | yes last ↦ ground arith
  | no before ↦ ground (arith, count_open-pos t i n fd (omega arith))
]

pub count_open-congr :
    (t u : ℕ → FileDesc) (i n : ℕ)
    → ((fd : ℕ) → weight (t fd) i ≡ weight (u fd) i)
    → count_open t i n ≡ count_open u i n
unfolding count_open
count_open-congr t u i zero h = refl
count_open-congr t u i (suc n) h = omega (arith, h n, count_open-congr t u i n h)
