-- ===== src/Text/Compare.antt =====
-- The comparisons and copies of string.c.
use letsgo.Base.{ℕ, zero, suc, ◌≡◌, refl, sym, ◌∙◌, ◌↔◌, List, [], ◌∷◌, arith, length}
use letsgo.Base.Int.{pos}
use letsgo.Text.{c_string, strlen, strcmp, strncmp, strncpy, next_of}

-- `strlen` is the length of the string.
pub strlen_lem : (s : List ℕ) → strlen s ≡ length (c_string s)
unfolding strlen c_string
strlen_lem [] = refl
strlen_lem (c ∷ s) = ground (arith, strlen_lem s)

-- `strcmp` gives 0 exactly for equal strings.
strcmp-eq-zero : (s t : List ℕ) → strcmp s t ≡ pos 0 → c_string s ≡ c_string t
unfolding strcmp c_string
strcmp-eq-zero [] [] e = refl
strcmp-eq-zero [] (b ∷ t) e = ground arith
strcmp-eq-zero (a ∷ s) [] e = ground arith
strcmp-eq-zero (a ∷ s) (b ∷ t) e = ground (arith, strcmp-eq-zero s t)

strcmp_of_eq : (s t : List ℕ) → c_string s ≡ c_string t → strcmp s t ≡ pos 0
unfolding strcmp c_string
strcmp_of_eq [] [] e = refl
strcmp_of_eq [] (b ∷ t) e = ground arith
strcmp_of_eq (a ∷ s) [] e = ground arith
strcmp_of_eq (a ∷ s) (b ∷ t) e = ground (arith, strcmp_of_eq s t)

-- `strcmp` gives 0 exactly when the two strings are equal.
pub strcmp_iff : (s t : List ℕ) → (strcmp s t ≡ pos 0) ↔ (c_string s ≡ c_string t)
strcmp_iff s t = (strcmp-eq-zero s t, strcmp_of_eq s t)

-- `strncpy(dest, src, n)` fills exactly `n` bytes.
pub length-strncpy : (src : List ℕ) (n : ℕ) → length (strncpy src n) ≡ n
unfolding strncpy
length-strncpy src zero = refl
length-strncpy src (suc n) = ground (arith, length-strncpy (next_of src) n, length-strncpy [] n)

strncmp-eq-zero : (s t : List ℕ) (n : ℕ) → strncmp s t n ≡ pos 0 → strncpy s n ≡ strncpy t n
unfolding strncmp strncpy
strncmp-eq-zero s t zero e = refl
strncmp-eq-zero s t (suc n) e = ground (arith, strncmp-eq-zero (next_of s) (next_of t) n)

strncmp_of_eq : (s t : List ℕ) (n : ℕ) → strncpy s n ≡ strncpy t n → strncmp s t n ≡ pos 0
unfolding strncmp strncpy
strncmp_of_eq s t zero e = refl
strncmp_of_eq s t (suc n) e = ground (arith, strncmp_of_eq (next_of s) (next_of t) n)

pub strncpy-strncpy : (s : List ℕ) (n : ℕ) → strncpy (strncpy s n) n ≡ strncpy s n
unfolding strncpy
strncpy-strncpy s zero = refl
strncpy-strncpy s (suc n) = ground (arith, strncpy-strncpy (next_of s) n, strncpy-strncpy [] n)

-- A name cut to `n` bytes by `strncpy` and a string compare equal by `strncmp` exactly when the
-- first `n` bytes of the two strings are the same.
pub strncmp-strncpy_iff :
    (src t : List ℕ) (n : ℕ) → (strncmp (strncpy src n) t n ≡ pos 0) ↔ (strncpy src n ≡ strncpy t n)
strncmp-strncpy_iff src t n = (
  λ e. sym (strncpy-strncpy src n) ∙ strncmp-eq-zero (strncpy src n) t n e,
  λ e. strncmp_of_eq (strncpy src n) t n (strncpy-strncpy src n ∙ e),
)
