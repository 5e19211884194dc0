-- ===== src/Text/Calls.antt =====
-- `strtok` of string.c, called until it returns NULL: the calls come to an end.
use letsgo.Base.{
  ℕ, zero, suc, ◌≤◌, ◌≡◌, refl, inl, inr, none, some, List, [], ◌∷◌, arith, ◌==◌, Bool-cases,
  length,
}
use letsgo.Text.{skip, span, strtok, tokens_from, tokens, char_of}
use letsgo.Text.Tokens.{strtok-end, strtok-token, token_shortens}

-- Calls of `strtok` from the pointer `s` on that return the tokens of the list and then NULL.
pub data Calls (delim : List ℕ) : List ℕ → List (List ℕ) → Type 0 where
  ends : {s : List ℕ} → strtok delim s ≡ none → Calls delim s []
  next :
      {s rest : List ℕ} {token : List ℕ} {others : List (List ℕ)}
      → strtok delim s ≡ some (token, rest)
      → Calls delim rest others
      → Calls delim s (token ∷ others)

module _ (delim : List ℕ) where
  tokens_from-Calls :
      (fuel : ℕ) (s : List ℕ) → length s ≤ fuel → Calls delim s (tokens_from fuel delim s)
  unfolding tokens_from skip
  tokens_from-Calls zero [] h = ends (strtok-end delim [] refl)
  tokens_from-Calls zero (c ∷ s) h = absurd (omega (arith, h))
  tokens_from-Calls (suc fuel) s h = elim (Bool-cases (char_of (skip delim s) == 0)) [
    | inl over ↦ rw (strtok-end delim s over, tokens_from) (ends (strtok-end delim s over))
    | inr more ↦
        let rest = (span delim (skip delim s)).1 in
        rw (strtok-token delim s more, tokens_from)
          (next (strtok-token delim s more)
            (tokens_from-Calls fuel rest (omega (arith, token_shortens delim s more, h))))
  ]

  -- The calls of `strtok` along a string come to an end: finitely many return tokens, which are the
  -- list `tokens`, and the next one returns NULL.
  pub tokens-Calls : (s : List ℕ) → Calls delim s (tokens delim s)
  unfolding tokens
  tokens-Calls s = tokens_from-Calls (length s) s (omega arith)
