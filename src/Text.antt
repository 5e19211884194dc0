-- ===== src/Text.antt =====
-- string.c. A `char` array is the list of its bytes from the pointer on; what lies past the end of
-- the list reads as 0. `char` is unsigned on RISC-V.
pub mod Compare
pub mod Tokens
pub mod Calls
mod Tests
use letsgo.Base.{
  ℕ, zero, suc, ◌+◌, ◌-◌, ◌*◌, ◌/◌, ◌%◌, ◌^◌, ◌≤◌, ◌<◌, bit_and, bit_or, min, ◌≡◌, refl, sym, ap,
  ◌∙◌, subst, ◌≢◌, ◌↔◌, ◌⊎◌, inl, inr, Bool, true, false, not, ◌&&◌, ◌||◌, Option, none, some, List,
  [], ◌∷◌, ◌++◌, map, reverse, append_assoc, append-nil, arith, dec_lt, ℕ_discrete, ltb, leb, ◌==◌,
  if◌then◌else◌, ==_iff, Bool-cases, Option-cases, points_to, points_to-eq, some_inj, update,
  length, get_or, take, slice, blit, length-append, length-slice, find_from, IsFirst,
  find_from-IsFirst, find_from-none, find_from-some,
}
use letsgo.Base.Int.{ℤ, pos, sub_ℕ}

-- `*s`
abbrev pub char_of : List ℕ → ℕ
char_of [] = 0
char_of (c ∷ s) = c

-- `s + 1`
abbrev pub next_of : List ℕ → List ℕ
next_of [] = []
next_of (c ∷ s) = s

-- The string in an array: its bytes up to the first 0.
unfoldable pub c_string : List ℕ → List ℕ
c_string [] = []
c_string (c ∷ s) = let rest = c_string s in if c == 0 then [] else c ∷ rest

unfoldable pub strlen : List ℕ → ℕ
strlen [] = 0
strlen (c ∷ s) = let rest = strlen s in if c == 0 then 0 else rest + 1

unfoldable pub strcmp : List ℕ → List ℕ → ℤ
strcmp [] t = sub_ℕ 0 (char_of t)
strcmp (a ∷ s) [] = pos a
strcmp (a ∷ s) (b ∷ t) =
    let rest = strcmp s t in if not (a == 0) && not (b == 0) && a == b then rest else sub_ℕ a b

unfoldable pub strncmp : List ℕ → List ℕ → ℕ → ℤ
strncmp s t zero = pos 0
strncmp s t (suc n) =
    let rest = strncmp (next_of s) (next_of t) n in
    if not (char_of s == char_of t)
    then sub_ℕ (char_of s) (char_of t)
    else if char_of s == 0
    then pos 0
    else rest

-- The `n` bytes that `strncpy(dest, src, n)` writes.
unfoldable pub strncpy : List ℕ → ℕ → List ℕ
strncpy src zero = []
strncpy src (suc n) =
    let rest = strncpy (next_of src) n in
    let padding = strncpy [] n in if char_of src == 0 then 0 ∷ padding else char_of src ∷ rest

-- The bytes that `strcpy` writes.
unfoldable pub strcpy : List ℕ → List ℕ
strcpy src = c_string src ++ 0 ∷ []

-- The string in `dest` after `strcat(dest, src)`.
unfoldable pub strcat : List ℕ → List ℕ → List ℕ
strcat dest src = c_string dest ++ c_string src

-- The array from the first `c` on, before the end of the string.
unfoldable pub strchr : List ℕ → ℕ → Option (List ℕ)
strchr [] c = none
strchr (a ∷ s) c =
    let rest = strchr s c in if a == 0 then none else if a == c then some (a ∷ s) else rest

-- The index of the last `c`: the loop keeps the last one that it has met.
unfoldable pub strrchr_from : List ℕ → ℕ → ℕ → Option ℕ → Option ℕ
strrchr_from [] c i last = last
strrchr_from (a ∷ s) c i last =
    let rest = strrchr_from s c (i + 1) (if a == c then some i else last) in
    if a == 0 then last else rest

unfoldable pub strrchr : List ℕ → ℕ → Option ℕ
strrchr s c = strrchr_from s c 0 none

abbrev is_some {ℓ} : {A : Type ℓ} → Option A → Bool
is_some none = false
is_some (some a) = true

-- `strchr(delim, c)` as a test.
unfoldable pub is_delim : List ℕ → ℕ → Bool
is_delim delim c = is_some (strchr delim c)

-- The first loop of `strtok`.
unfoldable pub skip : List ℕ → List ℕ → List ℕ
skip delim [] = []
skip delim (c ∷ s) =
    let rest = skip delim s in if not (c == 0) && is_delim delim c then rest else c ∷ s

-- The second loop of `strtok`: the token, and the pointer behind it. The delimiter is passed over.
unfoldable pub span : List ℕ → List ℕ → List ℕ × List ℕ
span delim [] = ([], [])
span delim (c ∷ s) =
    let (token, rest) = span delim s in
    if c == 0 then ([], c ∷ s) else if is_delim delim c then ([], s) else (c ∷ token, rest)

-- `strtok` at the pointer `s`: the token and the new `strtok_ptr`, or NULL.
unfoldable pub strtok : List ℕ → List ℕ → Option (List ℕ × List ℕ)
strtok delim s =
    let from = skip delim s in if char_of from == 0 then none else some (span delim from)

-- The tokens that successive calls of `strtok` return. Each takes a byte at least, so the length of
-- the array is enough fuel.
unfoldable pub tokens_from : ℕ → List ℕ → List ℕ → List (List ℕ)
tokens_from zero delim s = []
tokens_from (suc fuel) delim s = elim (strtok delim s) [
  | none ↦ []
  | some (token, rest) ↦ token ∷ tokens_from fuel delim rest
]

unfoldable pub tokens : List ℕ → List ℕ → List (List ℕ)
tokens delim s = tokens_from (length s) delim s
