-- ===== src/Elf/Copy.antt =====
-- What a copy of bytes leaves in the memory.
use letsgo.Base.{
  ℕ, zero, suc, ◌+◌, ◌-◌, ◌*◌, ◌/◌, ◌%◌, ◌≤◌, ◌<◌, ◌≡◌, refl, ap, ◌∙◌, ◌≢◌, ◌⊎◌, inl, inr, true,
  false, ◌&&◌, arith, ℕ_discrete, ltb, leb, ◌==◌, if◌then◌else◌,
}
use letsgo.Elf.Bytes.{byte, with_byte, get_byte, set_byte, put_bytes}

byte-with_byte : (i v b : ℕ) → b < 256 → byte i (with_byte i v b) ≡ b
unfolding byte with_byte
byte-with_byte zero v b l = omega (arith, l)
byte-with_byte (suc i) v b l =
    let down : (with_byte i (v / 256) b * 256 + v % 256) / 256 ≡ with_byte i (v / 256) b =
      omega arith in
    rw down (byte-with_byte i (v / 256) b l)

byte-with_byte-other : (i j v b : ℕ) → b < 256 → i ≢ j → byte j (with_byte i v b) ≡ byte j v
unfolding byte with_byte
byte-with_byte-other zero zero v b l n = absurd (n refl)
byte-with_byte-other zero (suc j) v b l n = ap (byte j) (omega (arith, l))
byte-with_byte-other (suc i) zero v b l n = omega arith
byte-with_byte-other (suc i) (suc j) v b l n =
    let down : (with_byte i (v / 256) b * 256 + v % 256) / 256 ≡ with_byte i (v / 256) b =
      omega arith in
    rw down (byte-with_byte-other i j (v / 256) b l (λ e. n (omega (arith, e))))

-- A byte that is set is read back, and the others stay.
get-set_byte :
    (w : ℕ → ℕ) (a b x : ℕ)
    → b < 256
    → get_byte (set_byte w a b) x ≡ (if a == x then b else get_byte w x)
unfolding get_byte set_byte
get-set_byte w a b x l = elim (ℕ_discrete a x) [
  | yes e ↦
      let self : (x / 8 * 8 == x / 8 * 8) ≡ true = ground arith in
      let same : (a == x) ≡ true = ground (arith, e) in
      rw (same, e, self) (byte-with_byte (x % 8) (w (x / 8 * 8)) b l)
  | no n ↦
      let other : (a == x) ≡ false = ground (arith, n) in
      elim (ℕ_discrete (a / 8 * 8) (x / 8 * 8)) [
        | yes e ↦
            let same : (a / 8 * 8 == x / 8 * 8) ≡ true = ground (arith, e) in
            rw (other, same, e)
              (byte-with_byte-other (a % 8) (x % 8) (w (x / 8 * 8)) b l
                (λ f. n (omega (arith, e, f))))
        | no d ↦
            let away : (a / 8 * 8 == x / 8 * 8) ≡ false = ground (arith, d) in rw (other, away) refl
      ]
]

abbrev pub Bytes : (ℕ → ℕ) → Type 0
Bytes from = (i : ℕ) → from i < 256

pub get-put_bytes :
    (n : ℕ) (w : ℕ → ℕ) (dst : ℕ) (from : ℕ → ℕ) (x : ℕ)
    → Bytes from
    → get_byte (put_bytes n w dst from) x
      ≡ (if leb dst x && ltb x (dst + n) then from (x - dst) else get_byte w x)
unfolding put_bytes
get-put_bytes zero w dst from x l = ground arith
get-put_bytes (suc n) w dst from x l =
    get-set_byte (put_bytes n w dst from) (dst + n) (from n) x (l n)
    ∙ elim (ℕ_discrete (dst + n) x) [
      | yes e ↦ let index : x - dst ≡ n = omega (arith, e) in ground (arith, e, index)
      | no d ↦ ground (arith, d, get-put_bytes n w dst from x l)
    ]

-- The words outside stay.
pub put_bytes-words :
    (n : ℕ) (w : ℕ → ℕ) (dst : ℕ) (from : ℕ → ℕ) (y : ℕ)
    → y % 8 ≡ 0
    → (y + 8 ≤ dst) ⊎ (dst + n ≤ y)
    → put_bytes n w dst from y ≡ w y
unfolding put_bytes set_byte
put_bytes-words zero w dst from y e h = refl
put_bytes-words (suc n) w dst from y e h =
    let apart : (dst + n) / 8 * 8 ≢ y =
      λ q. elim h [ inl a ↦ absurd (omega (arith, a, q)) | inr b ↦ absurd (omega (arith, b, q)) ] in
    let away : ((dst + n) / 8 * 8 == y) ≡ false = ground (arith, apart) in
    rw away
      (put_bytes-words n w dst from y e (elim h [ inl a ↦ inl a | inr b ↦ inr (omega (arith, b)) ]))
