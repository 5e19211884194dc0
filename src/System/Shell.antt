-- ===== src/System/Shell.antt =====
-- How the shell of kernel.c reads a line: the words of a command, its path, and the two sides of a pipe.
use letsgo.Base.{
  ℕ, ◌≤◌, inl, inr, Bool, true, false, ◌||◌, Option, none, some, List, [], ◌∷◌, ◌++◌, arith, ltb,
  ◌==◌, if◌then◌else◌, Bool-cases, length, length-append,
}
use letsgo.Base.Int.{pos, eq_ℤ}
use letsgo.Text.{c_string, strcmp, tokens, char_of}
use letsgo.System.Ps.{codes}

-- `argv`, `redirect_in` and `redirect_out`.
pub record Command : Type 0 where
  pub argv : List (List ℕ)
  pub redirect_in : Option (List ℕ)
  pub redirect_out : Option (List ℕ)

-- Whether the next word is a part of the command, or the file behind a `<` or a `>`.
pub data Place : Type 0 where
  in_command behind_less behind_greater : Place

abbrev pub is_word : List ℕ → List ℕ → Bool
is_word token word = eq_ℤ (strcmp token word) (pos 0)

-- The loop over the words. It stops at the end of the line, or with 15 words in `argv`.
unfoldable pub parse_from : Place → Command → List (List ℕ) → Command
parse_from place c [] = c
parse_from behind_less c (token ∷ rest) =
    parse_from in_command (record c { redirect_in = some token }) rest
parse_from behind_greater c (token ∷ rest) =
    parse_from in_command (record c { redirect_out = some token }) rest
parse_from in_command c (token ∷ rest) = elim (ltb (length c.argv) 15) [
  | false ↦ c
  | true ↦ elim (is_word token (codes "<")) [
    | true ↦ parse_from behind_less c rest
    | false ↦ elim (is_word token (codes ">")) [
      | true ↦ parse_from behind_greater c rest
      | false ↦ parse_from in_command (record c { argv = c.argv ++ token ∷ [] }) rest
    ]
  ]
]

-- The command of a line.
unfoldable pub parse : List ℕ → Command
parse cmd =
    parse_from in_command (record { argv = []; redirect_in = none; redirect_out = none })
      (tokens (codes " ") cmd)

-- `path[64]` for the first word; none when it does not fit.
unfoldable pub path_of : List ℕ → Option (List ℕ)
path_of word =
    let first = char_of word in
    let path =
      if first == 47 || first == 46 then c_string word else codes "/bin/" ++ c_string word in
    if ltb (length path) 64 then some path else none

-- The line up to the first `|`, and what is behind it; none without one.
unfoldable pub split_pipe : List ℕ → Option (List ℕ × List ℕ)
split_pipe [] = none
split_pipe (c ∷ s) = elim (split_pipe s) [
  | none ↦ if c == 0 then none else if c == 124 then some ([], s) else none
  | some (left, right) ↦
      if c == 0 then none else if c == 124 then some ([], s) else some (c ∷ left, right)
]

-- `lbuf[128]` and `rbuf[128]`, each none when its text does not fit.
unfoldable pub pipe_commands : List ℕ × List ℕ → Option (List ℕ) × Option (List ℕ)
pipe_commands (left, right) =
    let lbuf = c_string left ++ codes " > /tmp/pipe" in
    let rbuf = c_string right ++ codes " < /tmp/pipe" in
    (
      if ltb (length lbuf) 128 then some lbuf else none,
      if ltb (length rbuf) 128 then some rbuf else none,
    )

-- At most 15 words, so that `argv[argc] = NULL` is inside of `argv[16]`.
parse_from-le :
    (place : Place) (c : Command) (words : List (List ℕ))
    → length c.argv ≤ 15
    → length (parse_from place c words).argv ≤ 15
unfolding parse_from
parse_from-le place c [] l = l
parse_from-le behind_less c (token ∷ rest) l = parse_from-le in_command _ rest l
parse_from-le behind_greater c (token ∷ rest) l = parse_from-le in_command _ rest l
parse_from-le in_command c (token ∷ rest) l = elim (Bool-cases (ltb (length c.argv) 15)) [
  | inr full ↦ simp (full, parse_from) l
  | inl room ↦ elim (Bool-cases (is_word token (codes "<"))) [
    | inl less ↦ simp (room, less, parse_from) (parse_from-le behind_less c rest l)
    | inr other ↦ elim (Bool-cases (is_word token (codes ">"))) [
      | inl greater ↦
          simp (room, other, greater, parse_from) (parse_from-le behind_greater c rest l)
      | inr word ↦
          simp (room, other, word, parse_from)
            (parse_from-le in_command _ rest
              (ground (arith, room, length-append c.argv (token ∷ []))))
    ]
  ]
]

-- The shell never stores more than 15 words of a line.
pub parse-le : (cmd : List ℕ) → length (parse cmd).argv ≤ 15
unfolding parse
parse-le cmd = parse_from-le in_command _ (tokens (codes " ") cmd) (omega arith)
