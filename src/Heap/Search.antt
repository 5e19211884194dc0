-- ===== src/Heap/Search.antt =====
-- First fit, and that an allocation succeeds.
use letsgo.Base.{ℕ, zero, suc, ◌+◌, ◌≤◌, ◌≡◌, refl, ◌≢◌, ◌⊎◌, true, false, Option, none, some}
use letsgo.Heap.Defs.{Heap, fits, total_size, occupy, header_size}
use letsgo.Pmm.Defs.{Pmm}

-- From the block `b` on, the list has `n` blocks and ends with NULL.
unfoldable pub Chain : Heap → ℕ → ℕ → Type 0
Chain h zero b = b ≡ 0
Chain h (suc n) b = (b ≢ 0) × Chain h n (h.next b)

-- `b` is one of the first `n` blocks of the list from `from` on, and all before it are too small or
-- in use.
pub data FirstFit (h : Heap) (total b : ℕ) : ℕ → Type 0 where
  here : b ≢ 0 → fits h total b ≡ true → FirstFit h total b b
  after : {c : ℕ} → fits h total c ≡ false → FirstFit h total b (h.next c) → FirstFit h total b c

-- No block of the list fits.
pub data NoFit (h : Heap) (total : ℕ) : ℕ → Type 0 where
  ends : NoFit h total 0
  passes : {c : ℕ} → fits h total c ≡ false → NoFit h total (h.next c) → NoFit h total c

-- What the walk finds.
pub Found : Heap → ℕ → ℕ → Option ℕ → Type 0
Found h total from none = NoFit h total from
Found h total from (some b) = FirstFit h total b from

-- A block at `b` that holds `size` bytes behind its header and is in use.
pub record Serves (h : Heap) (size b : ℕ) : Type 0 where
  pub room : header_size + size ≤ h.size b
  pub in_use : h.is_free b ≡ false

-- The list of the heap has `n` blocks, and the heap grows above NULL.
pub record IsHeap (n : ℕ) (h : Heap) : Type 0 where
  pub chain : Chain h n h.free_list
  pub grows : h.current_heap_end ≢ 0

-- `kmalloc` with a list of `n` blocks: memory that `kmalloc` returns is the first block that fits,
-- or the block that the heap has just been extended by. It has room for the bytes asked for and is
-- marked as in use. Otherwise the extension panics; `kmalloc` never returns without memory.
pub record Allocated (h : Heap) (size : ℕ) (o : Option (ℕ × Heap)) : Type 0 where
  pub block : ℕ
  pub heap : Heap
  pub result : o ≡ some (block + header_size, heap)
  pub serves : Serves heap size block
  pub choice :
      FirstFit h (total_size size) block h.free_list
      ⊎ (NoFit h (total_size size) h.free_list × (block ≡ h.current_heap_end))

occupy-result : (h : Heap) (total b : ℕ) → (occupy h total b).0 ≡ b + header_size
unfolding occupy
occupy-result h total b = refl
