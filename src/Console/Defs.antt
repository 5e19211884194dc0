-- ===== src/Console/Defs.antt =====
-- The functions of uart.c, and `readline` of kernel.c. What a function puts out is the list of the
-- bytes that it gives to `uart_putc`.
use letsgo.Base.{
  ℕ, zero, suc, ◌+◌, ◌/◌, ◌%◌, not, ◌||◌, Option, none, some, List, [], ◌∷◌, ◌++◌, map, reverse,
  ltb, ◌==◌, if◌then◌else◌, update, length,
}

-- The digits of a number above 0 in `buf`, the lowest first. `val` is fuel enough, since it is at
-- least twice the next one.
unfoldable pub digits_from : ℕ → ℕ → ℕ → List ℕ
digits_from zero base val = []
digits_from (suc fuel) base val =
    let rest = digits_from fuel base (val / base) in if val == 0 then [] else val % base ∷ rest

unfoldable pub digits : ℕ → ℕ → List ℕ
digits base val = digits_from val base val

-- `hex_chars[d]`
abbrev pub hex_char : ℕ → ℕ
hex_char d = if ltb d 10 then 48 + d else 87 + d

abbrev pub dec_char : ℕ → ℕ
dec_char d = 48 + d

unfoldable pub print_hex : ℕ → List ℕ
print_hex val = if val == 0 then 48 ∷ [] else reverse (map hex_char (digits 16 val))

unfoldable pub print_dec : ℕ → List ℕ
print_dec val = if val == 0 then 48 ∷ [] else reverse (map dec_char (digits 10 val))

-- `kbd_buf`, `kbd_head` and `kbd_tail`.
pub record Keyboard : Type 0 where
  pub kbd_buf : ℕ → ℕ
  pub kbd_head : ℕ
  pub kbd_tail : ℕ

abbrev pub kbd_buf_size : ℕ
kbd_buf_size = 256

-- `uart_intr` with the bytes that the device has ready.
unfoldable pub uart_intr : Keyboard → List ℕ → Keyboard
uart_intr k [] = k
uart_intr k (c ∷ ready) =
    uart_intr
      (record k {
        kbd_buf = update k.kbd_buf k.kbd_tail c;
        kbd_tail = (k.kbd_tail + 1) % kbd_buf_size;
      })
      ready

-- `uart_getc_blocking` behind its loop, which it leaves when the buffer looks filled. None when the
-- buffer looks empty: then the loop asks the device and yields.
unfoldable pub take_key : Keyboard → Option (ℕ × Keyboard)
take_key k =
    if k.kbd_head == k.kbd_tail
    then none
    else some (k.kbd_buf k.kbd_head, record k { kbd_head = (k.kbd_head + 1) % kbd_buf_size })

-- What `readline` leaves: the bytes in `buf` before the 0, the bytes it has put out, and the keys
-- that it has not asked for. None: it waits for a key.
pub record Line : Type 0 where
  pub text : List ℕ
  pub echo : List ℕ
  pub unread : List ℕ

-- What `readline` puts out comes before the rest.
abbrev pub echoed : List ℕ → Option Line → Option Line
echoed out none = none
echoed out (some l) = some (record l { echo = out ++ l.echo })

-- The last byte goes, when there is one.
unfoldable pub drop_last : List ℕ → List ℕ
drop_last [] = []
drop_last (c ∷ s) = let rest = drop_last s in if length s == 0 then [] else c ∷ rest

-- The loop of `readline(buf, max)` with `buf[0..i)` filled.
unfoldable pub readline_from : ℕ → List ℕ → List ℕ → Option Line
readline_from max buf [] =
    if ltb (length buf + 1) max then none else some (record { text = buf; echo = []; unread = [] })
readline_from max buf (c ∷ keys) =
    let erased = readline_from max (drop_last buf) keys in
    let typed = readline_from max (buf ++ c ∷ []) keys in
    if not (ltb (length buf + 1) max)
    then some (record { text = buf; echo = []; unread = c ∷ keys })
    else if c == 13 || c == 10
    then some (record { text = buf; echo = 10 ∷ []; unread = keys })
    else if c == 8 || c == 127
    then if ltb 0 (length buf) then echoed (8 ∷ 32 ∷ 8 ∷ []) erased else erased
    else echoed (c ∷ []) typed

unfoldable pub readline : ℕ → List ℕ → Option Line
readline max keys = readline_from max [] keys
