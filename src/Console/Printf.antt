-- ===== src/Console/Printf.antt =====
-- `printf` of uart.c.
use letsgo.Base.{
  ℕ, ◌%◌, ◌^◌, Bool, true, false, ◌||◌, Option, none, some, List, [], ◌∷◌, ◌++◌, ◌==◌,
  if◌then◌else◌,
}
use letsgo.Console.Defs.{print_dec, print_hex}

-- A variable argument: a number in its 64-bit register, or the bytes of a string.
pub data Arg : Type 0 where
  num : ℕ → Arg
  text : List ℕ → Arg

-- Where `fmt` stands: on an ordinary byte, behind a `%`, or behind a `%l`.
pub data Place : Type 0 where
  ordinary behind_percent behind_long : Place

-- The byte behind a `%`.
pub data Directive : Type 0 where
  put_string put_char put_long put_dec put_hex skipped : Directive

unfoldable pub directive_of : ℕ → Directive
directive_of c =
    if c == 115
    then put_string
    else if c == 99
    then put_char
    else if c == 108
    then put_long
    else if c == 100
    then put_dec
    else if c == 120
    then put_hex
    else skipped

-- What a directive prints of its argument; none for one of the other kind.
unfoldable pub shown : Directive → Arg → Option (List ℕ)
shown put_string (text s) = some s
shown put_char (num n) = some (n % 256 ∷ [])
shown put_dec (num n) = some (print_dec (n % 2 ^ 32))
shown put_hex (num n) = some (print_hex (n % 2 ^ 32))
shown _ _ = none

abbrev pub shown_long : Bool → Arg → Option (List ℕ)
shown_long hex (num n) = some (if hex then print_hex n else print_dec n)
shown_long hex (text s) = none

-- The first text, then the second.
unfoldable pub joined : Option (List ℕ) → Option (List ℕ) → Option (List ℕ)
joined (some s) (some t) = some (s ++ t)
joined _ _ = none

-- The loop, with the arguments that are left. None: it reads an argument that is missing or of
-- the other kind, or past the end of the format.
unfoldable pub printf_from : Place → List ℕ → List Arg → Option (List ℕ)
printf_from ordinary [] args = some []
printf_from behind_percent [] args = none
printf_from behind_long [] args = some []
printf_from ordinary (c ∷ fmt) args = elim (c == 37) [
  | true ↦ printf_from behind_percent fmt args
  | false ↦ joined (some (c ∷ [])) (printf_from ordinary fmt args)
]
printf_from behind_percent (c ∷ fmt) args = elim (directive_of c) [
  | put_long ↦ printf_from behind_long fmt args
  | skipped ↦ printf_from ordinary fmt args
  | d ↦ elim args [ [] ↦ none | a ∷ rest ↦ joined (shown d a) (printf_from ordinary fmt rest) ]
]
printf_from behind_long (c ∷ fmt) args = elim (c == 120 || c == 100) [
  | true ↦ elim args [
    | [] ↦ none
    | a ∷ rest ↦ joined (shown_long (c == 120) a) (printf_from ordinary fmt rest)
  ]
  | false ↦ elim (c == 37) [
    | true ↦ printf_from behind_percent fmt args
    | false ↦ joined (some (c ∷ [])) (printf_from ordinary fmt args)
  ]
]

unfoldable pub printf : List ℕ → List Arg → Option (List ℕ)
printf fmt args = printf_from ordinary fmt args
