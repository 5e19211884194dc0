-- ===== src/Console/Ring.antt =====
-- The keyboard buffer as a queue.
use letsgo.Base.{
  ℕ, zero, suc, ◌+◌, ◌-◌, ◌%◌, ◌≤◌, ◌<◌, ◌≡◌, refl, sym, ap, ◌∙◌, ◌≢◌, true, none, some, List, [],
  ◌∷◌, ◌++◌, append_assoc, append-nil, arith, ℕ_discrete, ◌==◌, update, length, length-append,
}
use letsgo.Console.Defs.{Keyboard, uart_intr, take_key, kbd_buf_size}

-- The `n` bytes of the ring from `h` on.
unfoldable pub queue : (ℕ → ℕ) → ℕ → ℕ → List ℕ
queue b h zero = []
queue b h (suc n) = b h ∷ queue b ((h + 1) % kbd_buf_size) n

-- The keys that wait, the oldest first.
abbrev pub pending : Keyboard → List ℕ
pending k = queue k.kbd_buf k.kbd_head ((k.kbd_tail + kbd_buf_size - k.kbd_head) % kbd_buf_size)

pub record IsInRing (k : Keyboard) : Type 0 where
  pub head_in : k.kbd_head < 256
  pub tail_in : k.kbd_tail < 256

pub length-queue : (b : ℕ → ℕ) (h n : ℕ) → length (queue b h n) ≡ n
unfolding queue
length-queue b h zero = refl
length-queue b h (suc n) = ap suc (length-queue b ((h + 1) % 256) n)

queue-snoc :
    (b : ℕ → ℕ) (h n : ℕ) → h < 256 → queue b h (suc n) ≡ queue b h n ++ b ((h + n) % 256) ∷ []
unfolding queue
queue-snoc b h zero l = ap (λ i. b i ∷ []) (omega arith)
queue-snoc b h (suc n) l =
    ap (λ q. b h ∷ q)
      (queue-snoc b ((h + 1) % 256) n (omega arith)
        ∙ ap (λ i. queue b ((h + 1) % 256) n ++ b i ∷ []) (omega arith))

queue-update :
    (b : ℕ → ℕ) (h n t c : ℕ)
    → h < 256
    → t < 256
    → n ≤ (t + 256 - h) % 256
    → queue (update b t c) h n ≡ queue b h n
unfolding queue
queue-update b h zero t c l m e = refl
queue-update b h (suc n) t c l m e =
    let away : t ≢ h = λ same. omega arith in
    let there : update b t c h ≡ b h = ground (arith, away) in
    rw (there, queue-update b ((h + 1) % 256) n t c (omega arith) m (omega arith)) refl

-- One key that arrives.
put : Keyboard → ℕ → Keyboard
put k c = record k {
  kbd_buf = update k.kbd_buf k.kbd_tail c;
  kbd_tail = (k.kbd_tail + 1) % kbd_buf_size;
}

put-IsInRing : (k : Keyboard) (c : ℕ) → IsInRing k → IsInRing (put k c)
unfolding put
put-IsInRing k c v = record { head_in = v.head_in; tail_in = omega arith }

pub uart_intr-IsInRing : (k : Keyboard) (ready : List ℕ) → IsInRing k → IsInRing (uart_intr k ready)
unfolding uart_intr put
uart_intr-IsInRing k [] v = v
uart_intr-IsInRing k (c ∷ ready) v = uart_intr-IsInRing (put k c) ready (put-IsInRing k c v)

count_next :
    (h t : ℕ)
    → h < 256
    → t < 256
    → (t + 256 - h) % 256 < 255
    → ((t + 1) % 256 + 256 - h) % 256 ≡ suc ((t + 256 - h) % 256)
count_next h t a b c = omega arith

count_at : (h t : ℕ) → h < 256 → t < 256 → (h + (t + 256 - h) % 256) % 256 ≡ t
count_at h t a b = omega arith

count_less :
    (h t : ℕ)
    → h < 256
    → t < 256
    → h ≢ t
    → (t + 256 - h) % 256 ≡ suc ((t + 256 - (h + 1) % 256) % 256)
count_less h t a b c = omega arith

pending-put :
    (k : Keyboard) (c : ℕ)
    → IsInRing k
    → length (pending k) < 255
    → pending (put k c) ≡ pending k ++ c ∷ []
unfolding put
pending-put k c v l =
    let n = (k.kbd_tail + 256 - k.kbd_head) % 256 in
    let b = update k.kbd_buf k.kbd_tail c in
    let size : n < 255 = omega (arith, length-queue k.kbd_buf k.kbd_head n) in
    let more : ((k.kbd_tail + 1) % 256 + 256 - k.kbd_head) % 256 ≡ suc n =
      count_next k.kbd_head k.kbd_tail v.head_in v.tail_in size in
    let last : b ((k.kbd_head + n) % 256) ≡ c =
      ground (arith, count_at k.kbd_head k.kbd_tail v.head_in v.tail_in) in
    ap (queue b k.kbd_head) more
    ∙ queue-snoc b k.kbd_head n v.head_in
    ∙ ap (λ q. q ++ b ((k.kbd_head + n) % 256) ∷ [])
        (queue-update k.kbd_buf k.kbd_head n k.kbd_tail c v.head_in v.tail_in (omega arith))
    ∙ ap (λ d. queue k.kbd_buf k.kbd_head n ++ d ∷ []) last

uart_intr-pending :
    (k : Keyboard) (ready : List ℕ)
    → IsInRing k
    → length (pending k) + length ready < 256
    → IsInRing (uart_intr k ready) × (pending (uart_intr k ready) ≡ pending k ++ ready)
unfolding uart_intr put
uart_intr-pending k [] v l = (v, sym (append-nil (pending k)))
uart_intr-pending k (c ∷ ready) v l =
    let one = pending-put k c v (omega arith) in
    let (w, e) =
      uart_intr-pending (put k c) ready (put-IsInRing k c v)
        (ground (arith, ap length one, length-append (pending k) (c ∷ []))) in
    (w, e ∙ ap (λ q. q ++ ready) one ∙ append_assoc (pending k) (c ∷ []) ready)

-- `uart_getc_blocking` takes the key at the front.
take_key-pending :
    (k : Keyboard)
    → IsInRing k
    → k.kbd_head ≢ k.kbd_tail
    → (c : ℕ) × (k' : Keyboard) × (take_key k ≡ some (c, k'))
      × IsInRing k'
      × (pending k ≡ c ∷ pending k')
unfolding take_key queue
take_key-pending k v n = (
  k.kbd_buf k.kbd_head,
  record k { kbd_head = (k.kbd_head + 1) % kbd_buf_size },
  ground arith,
  record { head_in = omega arith; tail_in = v.tail_in },
  ap (queue k.kbd_buf k.kbd_head) (count_less k.kbd_head k.kbd_tail v.head_in v.tail_in n),
)

-- Keys that `take_key` takes one after the other, until the buffer looks empty.
unfoldable pub take_keys : ℕ → Keyboard → List ℕ
take_keys zero k = []
take_keys (suc fuel) k = elim (take_key k) [ none ↦ [] | some (c, k') ↦ c ∷ take_keys fuel k' ]

drained :
    (k : Keyboard) (fuel : ℕ)
    → IsInRing k
    → k.kbd_head ≡ k.kbd_tail
    → take_keys (suc fuel) k ≡ pending k
unfolding take_keys take_key queue
drained k fuel v e =
    let empty : (k.kbd_tail + 256 - k.kbd_head) % 256 ≡ 0 = omega (arith, v.tail_in) in
    let nothing : (k.kbd_head == k.kbd_tail) ≡ true = ground arith in
    rw (nothing, take_keys) (rw empty refl)

take_keys-pending :
    (fuel : ℕ) (k : Keyboard)
    → IsInRing k
    → length (pending k) < fuel
    → take_keys fuel k ≡ pending k
unfolding take_keys
take_keys-pending zero k v l = absurd (omega arith)
take_keys-pending (suc fuel) k v l = elim (ℕ_discrete k.kbd_head k.kbd_tail) [
  | yes e ↦ drained k fuel v e
  | no n ↦
      let (c, k', e, w, front) = take_key-pending k v n in
      let rest = take_keys-pending fuel k' w (ground (arith, ap length front)) in
      rw (e, take_keys) (ap (λ q. c ∷ q) rest ∙ sym front)
]

-- Keys come out in the order in which they went in, none lost, if the ends of the ring are in range
-- and fewer than 256 keys wait in all.
pub take_keys-uart_intr :
    (k : Keyboard) (ready : List ℕ)
    → IsInRing k
    → length (pending k) + length ready < 256
    → take_keys 256 (uart_intr k ready) ≡ pending k ++ ready
take_keys-uart_intr k ready v l =
    let (w, e) = uart_intr-pending k ready v l in
    take_keys-pending 256 (uart_intr k ready) w
      (ground (arith, ap length e, length-append (pending k) ready))
    ∙ e

uart_intr-ends :
    (k : Keyboard) (ready : List ℕ)
    → k.kbd_tail < 256
    → ((uart_intr k ready).kbd_head ≡ k.kbd_head)
      × ((uart_intr k ready).kbd_tail ≡ (k.kbd_tail + length ready) % 256)
unfolding uart_intr
uart_intr-ends k [] l = (refl, omega arith)
uart_intr-ends k (c ∷ ready) l =
    let (h, t) =
      uart_intr-ends
        (record k { kbd_buf = update k.kbd_buf k.kbd_tail c; kbd_tail = (k.kbd_tail + 1) % 256 })
        ready (omega arith) in
    (h, omega (arith, t))

-- When 256 keys arrive at an empty buffer with its ends in range, they are all lost: it looks empty again.
pub take_key-overrun :
    (k : Keyboard) (ready : List ℕ)
    → IsInRing k
    → k.kbd_head ≡ k.kbd_tail
    → length ready ≡ 256
    → take_key (uart_intr k ready) ≡ none
unfolding take_key
take_key-overrun k ready v e full =
    let (h, t) = uart_intr-ends k ready v.tail_in in ground (arith, h, t, v.tail_in)
