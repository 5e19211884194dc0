-- ===== src/Console/Numbers.antt =====
-- The numbers that `print_dec` and `print_hex` print.
use letsgo.Base.{
  ℕ, zero, suc, ◌+◌, ◌-◌, ◌*◌, ◌/◌, ◌%◌, ◌^◌, ◌≤◌, ◌<◌, ◌≡◌, refl, ap, ◌∙◌, ◌≢◌, List, [], ◌∷◌,
  ◌++◌, map, reverse, arith, ℕ_discrete, ltb, if◌then◌else◌, length, length-append,
}
use mathlib.Core.List.{reverse-cons}
use letsgo.Console.Defs.{digits_from, digits, print_dec, print_hex, dec_char, hex_char}

-- A number read from left to right, on top of `acc`.
unfoldable pub read : ℕ → (ℕ → ℕ) → List ℕ → ℕ → ℕ
read base digit [] acc = acc
read base digit (c ∷ s) acc = read base digit s (acc * base + digit c)

read-append :
    (base : ℕ) (digit : ℕ → ℕ) (s t : List ℕ) (acc : ℕ)
    → read base digit (s ++ t) acc ≡ read base digit t (read base digit s acc)
unfolding read
read-append base digit [] t acc = refl
read-append base digit (c ∷ s) t acc = read-append base digit s t (acc * base + digit c)

-- A base, with what division by it does.
record IsBase (base : ℕ) (digit char : ℕ → ℕ) : Type 0 where
  split : (n : ℕ) → n / base * base + n % base ≡ n
  shrinks : (n : ℕ) → n ≢ 0 → n / base < n
  decodes : (n : ℕ) → digit (char (n % base)) ≡ n % base

digits_from-suc :
    (base fuel val : ℕ)
    → val ≢ 0
    → digits_from (suc fuel) base val ≡ val % base ∷ digits_from fuel base (val / base)
unfolding digits_from
digits_from-suc base fuel val n = ground arith

-- What the last digit adds.
read-reverse :
    (base : ℕ) (digit : ℕ → ℕ) (c : ℕ) (s : List ℕ)
    → read base digit (reverse (c ∷ s)) 0 ≡ read base digit (reverse s) 0 * base + digit c
unfolding read
read-reverse base digit c s =
    ap (λ r. read base digit r 0) (reverse-cons c s) ∙ read-append base digit (reverse s) (c ∷ []) 0

module _ {base : ℕ} {digit char : ℕ → ℕ} (law : IsBase base digit char) where
  read-digits_from :
      (fuel val : ℕ)
      → val ≤ fuel
      → read base digit (reverse (map char (digits_from fuel base val))) 0 ≡ val
  unfolding digits_from read
  read-digits_from zero val h = omega arith
  read-digits_from (suc fuel) val h = elim (ℕ_discrete val 0) [
    | yes e ↦ rw e refl
    | no n ↦
        ap (λ ds. read base digit (reverse (map char ds)) 0) (digits_from-suc base fuel val n)
        ∙ read-reverse base digit (char (val % base))
            (map char (digits_from fuel base (val / base)))
        ∙ ap (λ r. r * base + digit (char (val % base)))
            (read-digits_from fuel (val / base) (omega (arith, law.shrinks val n)))
        ∙ ap (λ d. val / base * base + d) (law.decodes val)
        ∙ law.split val
  ]

unfoldable power : ℕ → ℕ → ℕ
power base zero = 1
power base (suc k) = base * power base k

length-digits_from :
    (base fuel val k : ℕ)
    → ((n m : ℕ) → n < base * m → n / base < m)
    → val < power base k
    → length (digits_from fuel base val) ≤ k
unfolding digits_from power
length-digits_from base zero val k law h = omega arith
length-digits_from base (suc fuel) val zero law h = ground arith
length-digits_from base (suc fuel) val (suc k) law h =
    ground (arith, length-digits_from base fuel (val / base) k law (law val (power base k) h))

length-map : (f : ℕ → ℕ) (s : List ℕ) → length (map f s) ≡ length s
length-map f [] = refl
length-map f (c ∷ s) = ap suc (length-map f s)

length-reverse : (s : List ℕ) → length (reverse s) ≡ length s
length-reverse [] = refl
length-reverse (c ∷ s) =
    ap length (reverse-cons c s)
    ∙ length-append (reverse s) (c ∷ [])
    ∙ omega (arith, length-reverse s)

length-text : (f : ℕ → ℕ) (s : List ℕ) → length (reverse (map f s)) ≡ length s
length-text f s = length-reverse (map f s) ∙ length-map f s

abbrev pub hex_value : ℕ → ℕ
hex_value c = if ltb c 58 then c - 48 else c - 87

abbrev pub dec_value : ℕ → ℕ
dec_value c = c - 48

ten : IsBase 10 dec_value dec_char
ten = record { split = λ n. omega arith; shrinks = λ n e. omega arith; decodes = λ n. omega arith }

sixteen : IsBase 16 hex_value hex_char
sixteen = record {
  split = λ n. omega arith;
  shrinks = λ n e. omega arith;
  decodes = λ n. ground arith;
}

-- What `print_dec` prints for a 64-bit number reads back as the number, and its digits fit in the
-- 20 bytes of `buf`.
pub read-print_dec :
    (val : ℕ)
    → val < 2 ^ 64
    → (read 10 dec_value (print_dec val) 0 ≡ val) × (length (print_dec val) ≤ 20)
unfolding read print_dec digits power
read-print_dec val h = elim (ℕ_discrete val 0) [
  | yes e ↦ rw e (refl, omega arith)
  | no n ↦
      let text = reverse (map dec_char (digits 10 val)) in
      let long : print_dec val ≡ text = ground arith in
      let few = length-digits_from 10 val val 20 (λ n m lt. omega arith) (omega arith) in
      rw long (
        read-digits_from ten val val (omega arith),
        omega (arith, few, length-text dec_char (digits 10 val)),
      )
]

-- What `print_hex` prints for a 64-bit number reads back as the number, and its digits fit in the
-- 16 bytes of `buf`.
pub read-print_hex :
    (val : ℕ)
    → val < 2 ^ 64
    → (read 16 hex_value (print_hex val) 0 ≡ val) × (length (print_hex val) ≤ 16)
unfolding read print_hex digits power
read-print_hex val h = elim (ℕ_discrete val 0) [
  | yes e ↦ rw e (refl, omega arith)
  | no n ↦
      let text = reverse (map hex_char (digits 16 val)) in
      let long : print_hex val ≡ text = ground arith in
      let few = length-digits_from 16 val val 16 (λ n m lt. omega arith) (omega arith) in
      rw long (
        read-digits_from sixteen val val (omega arith),
        omega (arith, few, length-text hex_char (digits 16 val)),
      )
]
