-- ===== src/Elf/Bytes.antt =====
-- The bytes of the memory, which the other modules read and write as 64-bit words.
use letsgo.Base.{ℕ, zero, suc, ◌+◌, ◌*◌, ◌/◌, ◌%◌, update}

-- Byte `i` of a word.
unfoldable pub byte : ℕ → ℕ → ℕ
byte zero v = v % 256
byte (suc i) v = byte i (v / 256)

-- The word with another byte `i`.
unfoldable pub with_byte : ℕ → ℕ → ℕ → ℕ
with_byte zero v b = v / 256 * 256 + b
with_byte (suc i) v b = with_byte i (v / 256) b * 256 + v % 256

unfoldable pub get_byte : (ℕ → ℕ) → ℕ → ℕ
get_byte w a = byte (a % 8) (w (a / 8 * 8))

unfoldable pub set_byte : (ℕ → ℕ) → ℕ → ℕ → ℕ → ℕ
set_byte w a b = update w (a / 8 * 8) (with_byte (a % 8) (w (a / 8 * 8)) b)

-- `memcpy` of `n` bytes of `from` to the address `dst`, up to the last one.
unfoldable pub put_bytes : ℕ → (ℕ → ℕ) → ℕ → (ℕ → ℕ) → ℕ → ℕ
put_bytes zero w dst from = w
put_bytes (suc n) w dst from = set_byte (put_bytes n w dst from) (dst + n) (from n)

-- The number of `n` bytes at the offset `at`, the lowest byte first.
unfoldable pub read_le : ℕ → (ℕ → ℕ) → ℕ → ℕ
read_le zero file at = 0
read_le (suc n) file at = file at + 256 * read_le n file (at + 1)
