-- ===== src/Console/Line.antt =====
-- What `readline` promises.
use letsgo.Base.{
  ℕ, ◌+◌, ◌≤◌, ◌<◌, ◌≡◌, refl, sym, ap, ◌∙◌, inl, inr, Bool, true, false, not, ◌&&◌, ◌||◌, Option,
  none, some, List, [], ◌∷◌, ◌++◌, append_assoc, append-nil, arith, ltb, ◌==◌, if◌then◌else◌,
  Bool-cases, length, length-append,
}
use letsgo.Console.Defs.{Line, drop_last, readline_from, readline, echoed}

length-drop_last : (s : List ℕ) → length (drop_last s) ≤ length s
unfolding drop_last
length-drop_last [] = omega arith
length-drop_last (c ∷ s) = ground (arith, length-drop_last s)

-- The line that `readline` leaves, with its final 0, fits in the buffer.
abbrev pub Fits : ℕ → Option Line → Type 0
Fits max none = Unit
Fits max (some l) = length l.text + 1 ≤ max

Fits-if :
    (max : ℕ) (t : Bool) (a b : Option Line)
    → Fits max a
    → Fits max b
    → Fits max (if t then a else b)
Fits-if max true a b h g = h
Fits-if max false a b h g = g

Fits-echoed : (max : ℕ) (out : List ℕ) (o : Option Line) → Fits max o → Fits max (echoed out o)
Fits-echoed max out none h = tt
Fits-echoed max out (some l) h = h

readline_from-Fits :
    (max : ℕ) (buf keys : List ℕ) → length buf + 1 ≤ max → Fits max (readline_from max buf keys)
unfolding readline_from
readline_from-Fits max buf [] h = Fits-if max (ltb (length buf + 1) max) _ _ tt h
readline_from-Fits max buf (c ∷ keys) h = elim (Bool-cases (ltb (length buf + 1) max)) [
  | inl room ↦
      let erased =
        readline_from-Fits max (drop_last buf) keys (omega (arith, length-drop_last buf)) in
      let typed =
        readline_from-Fits max (buf ++ c ∷ []) keys (ground (arith, length-append buf (c ∷ []))) in
      rw room (
        Fits-if max (c == 13 || c == 10) _ _ h (
          Fits-if max (c == 8 || c == 127) _ _
            (Fits-if max (ltb 0 (length buf)) _ _ (Fits-echoed max (8 ∷ 32 ∷ 8 ∷ []) _ erased)
              erased)
            (Fits-echoed max (c ∷ []) _ typed)))
  | inr full ↦ rw full h
]

-- A key that `readline` stores: not the end of the line, and not one that erases.
abbrev pub is_text : ℕ → Bool
is_text c = not (c == 13 || c == 10) && not (c == 8 || c == 127)

-- The keys of a list are all text.
unfoldable pub AllText : List ℕ → Type 0
AllText [] = Unit {0}
AllText (c ∷ s) = (is_text c ≡ true) × AllText s

neither : (a b : Bool) → not a && not b ≡ true → (a ≡ false) × (b ≡ false)
neither true b e = absurd (ground arith)
neither false true e = absurd (ground arith)
neither false false e = (refl, refl)

readline_from-text :
    (max : ℕ) (buf : List ℕ) (c : ℕ) (keys : List ℕ)
    → is_text c ≡ true
    → ltb (length buf + 1) max ≡ true
    → readline_from max buf (c ∷ keys) ≡ echoed (c ∷ []) (readline_from max (buf ++ c ∷ []) keys)
unfolding readline_from
readline_from-text max buf c keys t room =
    let (plain, kept) = neither (c == 13 || c == 10) (c == 8 || c == 127) t in
    rw room (rw plain (rw kept refl))

readline_from-enter :
    (max : ℕ) (buf keys : List ℕ)
    → ltb (length buf + 1) max ≡ true
    → readline_from max buf (13 ∷ keys)
      ≡ some (record { text = buf; echo = 10 ∷ []; unread = keys })
unfolding readline_from
readline_from-enter max buf keys room = rw room refl

readline_from-typed :
    (max : ℕ) (buf s keys : List ℕ)
    → AllText s
    → length buf + length s + 1 < max
    → readline_from max buf (s ++ 13 ∷ keys)
      ≡ some (record { text = buf ++ s; echo = s ++ 10 ∷ []; unread = keys })
unfolding AllText
readline_from-typed max buf [] keys t h =
    readline_from-enter max buf keys (ground arith)
    ∙ ap (λ b. some (record { text = b; echo = 10 ∷ []; unread = keys })) (sym (append-nil buf))
readline_from-typed max buf (c ∷ s) keys (t, ts) h =
    readline_from-text max buf c (s ++ 13 ∷ keys) t (ground arith)
    ∙ ap (echoed (c ∷ [])) (
        readline_from-typed max (buf ++ c ∷ []) s keys ts
          (omega (arith, length-append buf (c ∷ []))))
    ∙ ap (λ b. some (record { text = b; echo = c ∷ s ++ 10 ∷ []; unread = keys }))
        (append_assoc buf (c ∷ []) s)

-- Whatever keys arrive, the line that `readline(buf, max)` returns fits in `max` bytes with its
-- final 0. For text that is short enough and then Enter, the line is the text, the echo is the text
-- and a newline, and the later keys stay unread.
pub readline-Fits :
    (max : ℕ) (keys s later : List ℕ)
    → 1 ≤ max
    → AllText s
    → length s + 1 < max
    → Fits max (readline max keys)
      × (readline max (s ++ 13 ∷ later)
          ≡ some (record { text = s; echo = s ++ 10 ∷ []; unread = later }))
unfolding readline
readline-Fits max keys s later a t h = (
  readline_from-Fits max [] keys (omega arith),
  readline_from-typed max [] s later t (omega arith),
)
