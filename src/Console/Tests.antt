-- ===== src/Console/Tests.antt =====
-- The console on concrete keys and numbers.
use letsgo.Base.{◌≤◌, ◌≡◌, refl, none, some, [], ◌∷◌, ◌++◌, arith, length, slice, length-slice}
use letsgo.Console.Defs.{Keyboard, print_dec, print_hex, uart_intr, take_key, readline}
use letsgo.Console.Numbers.{read, read-print_dec, read-print_hex, dec_value, hex_value}
use letsgo.Console.Ring.{pending, queue, take_keys, take_keys-uart_intr, take_key-overrun, IsInRing}
use letsgo.Console.Line.{readline-Fits, Fits, AllText}

-- The ring with its ends at the last place.
abbrev idle : Keyboard
idle = record { kbd_buf = λ i. 0; kbd_head = 255; kbd_tail = 255 }

idle-IsInRing : IsInRing idle
idle-IsInRing = record { head_in = omega arith; tail_in = omega arith }

read-print_dec_example :
    (read 10 dec_value (print_dec 1024) 0 ≡ 1024) × (length (print_dec 1024) ≤ 20)
read-print_dec_example = read-print_dec 1024 (omega arith)

read-print_hex_example :
    (read 16 hex_value (print_hex 0xBEEF) 0 ≡ 0xBEEF) × (length (print_hex 0xBEEF) ≤ 16)
read-print_hex_example = read-print_hex 0xBEEF (omega arith)

take_keys-uart_intr_example :
    take_keys 256 (uart_intr idle (108 ∷ 115 ∷ [])) ≡ pending idle ++ 108 ∷ 115 ∷ []
unfolding queue
take_keys-uart_intr_example = take_keys-uart_intr idle (108 ∷ 115 ∷ []) idle-IsInRing (omega arith)

take_key-overrun_example : take_key (uart_intr idle (slice (λ i. 97) 0 256)) ≡ none
take_key-overrun_example =
    take_key-overrun idle (slice (λ i. 97) 0 256) idle-IsInRing refl (length-slice (λ i. 97) 0 256)

readline-Fits_example :
    Fits 128 (readline 128 (97 ∷ 127 ∷ []))
    × (readline 128 (108 ∷ 115 ∷ 13 ∷ 97 ∷ [])
        ≡ some (record { text = 108 ∷ 115 ∷ []; echo = 108 ∷ 115 ∷ 10 ∷ []; unread = 97 ∷ [] }))
unfolding AllText
readline-Fits_example =
    readline-Fits 128 (97 ∷ 127 ∷ []) (108 ∷ 115 ∷ []) (97 ∷ []) (omega arith) (refl, (refl, tt))
      (omega arith)
