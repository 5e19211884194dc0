-- ===== src/Text/Tests.antt =====
-- The functions of string.c on concrete strings.
use letsgo.Base.Int.{pos}
use letsgo.Base.{ℕ, ◌≡◌, refl, ◌↔◌, List, [], ◌∷◌}
use letsgo.Text.Compare.{strcmp_iff, strncmp-strncpy_iff}
use letsgo.Text.Calls.{Calls, tokens-Calls}
use letsgo.Text.Tokens.{flat-tokens, flat, kept}
use letsgo.Text.{
  strcmp, c_string, strncmp, strncpy, tokens, tokens_from, strtok, skip, span, is_delim, strchr,
  pos,
}

-- "ls  -a"
abbrev ls_a : List ℕ
ls_a = 108 ∷ 115 ∷ 32 ∷ 32 ∷ 45 ∷ 97 ∷ 0 ∷ []

tokens_of_ls : tokens (32 ∷ 0 ∷ []) ls_a ≡ (108 ∷ 115 ∷ []) ∷ (45 ∷ 97 ∷ []) ∷ []
unfolding tokens tokens_from strtok skip span is_delim strchr
tokens_of_ls = refl

strcmp_iff_example :
    (strcmp ls_a (108 ∷ 115 ∷ []) ≡ pos 0) ↔ (c_string ls_a ≡ c_string (108 ∷ 115 ∷ []))
strcmp_iff_example = strcmp_iff ls_a (108 ∷ 115 ∷ [])

strncmp-strncpy_iff_example :
    (strncmp (strncpy ls_a 4) (108 ∷ 115 ∷ []) 4 ≡ pos 0)
    ↔ (strncpy ls_a 4 ≡ strncpy (108 ∷ 115 ∷ []) 4)
strncmp-strncpy_iff_example = strncmp-strncpy_iff ls_a (108 ∷ 115 ∷ []) 4

flat-tokens_example : flat (tokens (32 ∷ 0 ∷ []) ls_a) ≡ kept (32 ∷ 0 ∷ []) ls_a
flat-tokens_example = flat-tokens (32 ∷ 0 ∷ []) ls_a

tokens-Calls_example : Calls (32 ∷ 0 ∷ []) ls_a (tokens (32 ∷ 0 ∷ []) ls_a)
tokens-Calls_example = tokens-Calls (32 ∷ 0 ∷ []) ls_a
