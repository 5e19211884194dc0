-- ===== src/Text/Tokens.antt =====
-- `strtok` of string.c, called until it returns NULL.
use letsgo.Base.{
  ℕ, zero, suc, ◌≤◌, ◌<◌, ◌≡◌, refl, sym, ap, ◌∙◌, ◌≢◌, ◌⊎◌, inl, inr, true, false, none, some,
  List, [], ◌∷◌, ◌++◌, arith, ◌==◌, if◌then◌else◌, Bool-cases, length,
}
use letsgo.Text.{skip, span, strtok, tokens_from, tokens, is_delim, char_of}

-- The bytes of a string that are no delimiters.
pub kept : List ℕ → List ℕ → List ℕ
kept delim [] = []
kept delim (c ∷ s) =
    let rest = kept delim s in if c == 0 then [] else if is_delim delim c then rest else c ∷ rest

unfoldable pub flat : List (List ℕ) → List ℕ
flat [] = []
flat (t ∷ ts) = t ++ flat ts

module _ (delim : List ℕ) where
  kept-skip : (s : List ℕ) → kept delim (skip delim s) ≡ kept delim s
  unfolding kept skip
  kept-skip [] = refl
  kept-skip (c ∷ s) = ground (arith, kept-skip s)

  length-skip-le : (s : List ℕ) → length (skip delim s) ≤ length s
  unfolding skip
  length-skip-le [] = omega arith
  length-skip-le (c ∷ s) = ground (arith, length-skip-le s)

  -- After the first loop the pointer stands on the end of the string, or on a byte of a token.
  skip_stops :
      (s : List ℕ)
      → (char_of (skip delim s) ≡ 0) ⊎ (is_delim delim (char_of (skip delim s)) ≡ false)
  unfolding skip
  skip_stops [] = inl refl
  skip_stops (c ∷ s) = ground (arith, skip_stops s)

  kept-span : (s : List ℕ) → kept delim s ≡ (span delim s).0 ++ kept delim (span delim s).1
  unfolding kept span
  kept-span [] = refl
  kept-span (c ∷ s) = ground (arith, kept-span s)

  length-span-le : (s : List ℕ) → length (span delim s).1 ≤ length s
  unfolding span
  length-span-le [] = omega arith
  length-span-le (c ∷ s) = ground (arith, length-span-le s)

  length-span-lt :
      (s : List ℕ)
      → char_of s ≢ 0
      → is_delim delim (char_of s) ≡ false
      → length (span delim s).1 < length s
  unfolding span
  length-span-lt [] a b = absurd (a refl)
  length-span-lt (c ∷ s) a b = ground (arith, length-span-le s)

  kept-end : (s : List ℕ) → char_of s ≡ 0 → kept delim s ≡ []
  unfolding kept
  kept-end [] e = refl
  kept-end (c ∷ s) e = ground arith

  pub strtok-end : (s : List ℕ) → (char_of (skip delim s) == 0) ≡ true → strtok delim s ≡ none
  unfolding strtok
  strtok-end s e = rw e

  pub strtok-token :
      (s : List ℕ)
      → (char_of (skip delim s) == 0) ≡ false
      → strtok delim s ≡ some (span delim (skip delim s))
  unfolding strtok
  strtok-token s e = rw e

  -- A call that returns a token moves the pointer forward.
  pub token_shortens :
      (s : List ℕ)
      → (char_of (skip delim s) == 0) ≡ false
      → length (span delim (skip delim s)).1 < length s
  token_shortens s e = omega (
    arith,
    length-skip-le s,
    length-span-lt (skip delim s) (ground arith) (ground (arith, skip_stops s)),
  )

  flat-tokens_from :
      (fuel : ℕ) (s : List ℕ) → length s ≤ fuel → flat (tokens_from fuel delim s) ≡ kept delim s
  unfolding flat tokens_from kept
  flat-tokens_from zero [] h = refl
  flat-tokens_from zero (c ∷ s) h = absurd (omega arith)
  flat-tokens_from (suc fuel) s h = elim (Bool-cases (char_of (skip delim s) == 0)) [
    | inl over ↦
        rw (strtok-end s over, flat, tokens_from)
          (sym (sym (kept-skip s) ∙ kept-end (skip delim s) (ground arith)))
    | inr more ↦
        let from = skip delim s in
        let rest = (span delim from).1 in
        rw (strtok-token s more, flat, tokens_from)
          (ap (◌++◌ (span delim from).0)
              (flat-tokens_from fuel rest (omega (arith, token_shortens s more)))
            ∙ sym (kept-span from)
            ∙ kept-skip s)
  ]

  -- No byte of a token is lost: the tokens, one after the other, are the string without its
  -- delimiters.
  pub flat-tokens : (s : List ℕ) → flat (tokens delim s) ≡ kept delim s
  unfolding tokens
  flat-tokens s = flat-tokens_from (length s) s (omega arith)
