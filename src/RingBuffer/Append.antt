-- ===== src/RingBuffer/Append.antt =====
-- The functions that put and write, against a queue of bounded capacity.
use embedded_template.Prelude.{
  ℕ, zero, suc, ◌+◌, ◌-◌, ◌≤◌, ◌<◌, min, ◌≡◌, refl, sym, ap, ◌∙◌, subst, take_all, ◌⊎◌, inl, inr,
  Option, none, some, List, [], ◌∷◌, ◌++◌, length, take, replicate, ltb, Bool-cases, ltb→lt, ltb→le,
  append-nil, append_assoc, arith,
}
use native.Mathlib.Nat.{le_refl}
use embedded_template.RingBuffer.{
  RingBuffer, push_byte, put_loop, put, try_write_loop, try_write, write, get_left_space,
}
use embedded_template.RingBuffer.Contents.{contents}
use embedded_template.RingBuffer.Invariant.{
  IsValid, Holds, length-contents, push_byte-IsValid, contents-push_byte,
}

-- `r'` is `r` with the bytes `xs` appended.
record Pushed (r : RingBuffer) (xs : List ℕ) (r' : RingBuffer) : Type 0 where
  valid : IsValid r'
  same_cap : r'.cap ≡ r.cap
  bytes : contents r' ≡ contents r ++ xs

Pushed-nil : (r : RingBuffer) → IsValid r → Pushed r [] r
Pushed-nil r v = record { valid = v; same_cap = refl; bytes = sym (append-nil (contents r)) }

Pushed-cons :
    (r : RingBuffer) (x : ℕ) (xs : List ℕ) (r' : RingBuffer)
    → IsValid r
    → r.len < r.cap
    → Pushed (push_byte r x) xs r'
    → Pushed r (x ∷ xs) r'
Pushed-cons r x xs r' v h p = record {
  valid = p.valid;
  same_cap = p.same_cap;
  bytes =
      p.bytes
      ∙ ap (λ c. c ++ xs) (contents-push_byte r x v h)
      ∙ append_assoc (contents r) (x ∷ []) xs;
}

pub length-of : (r : RingBuffer) (q : List ℕ) → contents r ≡ q → r.len ≡ length q
length-of r q c = sym (length-contents r) ∙ ap (length {0}) c

-- How many of `n` bytes fit.
abbrev pub room : RingBuffer → ℕ → ℕ
room r n = min n (r.cap - r.len)

room-push_byte :
    (r : RingBuffer) (n x : ℕ)
    → IsValid r
    → r.len < r.cap
    → room r (suc n) ≡ suc (room (push_byte r x) n)
room-push_byte r n x v h = omega (arith, v.small)

put_loop_lem :
    (n uch i : ℕ) (r : RingBuffer)
    → IsValid r
    → Pushed r (replicate (room r n) uch) (put_loop n uch i r).0
      × ((put_loop n uch i r).1 ≡ i + room r n)
unfolding put_loop
put_loop_lem zero uch i r v =
    let no_room : room r 0 ≡ 0 = omega arith in rw no_room (Pushed-nil r v, omega arith)
put_loop_lem (suc n) uch i r v = elim (Bool-cases (ltb r.len r.cap)) [
  | inl h ↦
      let less = ltb→lt r.len r.cap h in
      let (p, c) = put_loop_lem n uch (i + 1) (push_byte r uch) (push_byte-IsValid r uch v less) in
      rw (h, put_loop, room-push_byte r n uch v less)
        (Pushed-cons r uch _ _ v less p, c ∙ omega arith)
  | inr h ↦
      let no_room : room r (suc n) ≡ 0 = omega (arith, ltb→le r.len r.cap h) in
      rw (h, put_loop, no_room) (Pushed-nil r v, omega arith)
]

try_write_loop_lem :
    (dat : List ℕ) (i : ℕ) (r : RingBuffer)
    → IsValid r
    → Pushed r (take (room r (length dat)) dat) (try_write_loop dat i r).0
      × ((try_write_loop dat i r).1 ≡ i + room r (length dat))
unfolding try_write_loop
try_write_loop_lem [] i r v =
    let no_room : room r 0 ≡ 0 = omega arith in rw no_room (Pushed-nil r v, omega arith)
try_write_loop_lem (x ∷ dat) i r v = elim (Bool-cases (ltb r.len r.cap)) [
  | inl h ↦
      let less = ltb→lt r.len r.cap h in
      let (p, c) = try_write_loop_lem dat (i + 1) (push_byte r x) (push_byte-IsValid r x v less) in
      rw (h, try_write_loop, room-push_byte r (length dat) x v less)
        (Pushed-cons r x _ _ v less p, c ∙ omega arith)
  | inr h ↦
      let no_room : room r (suc (length dat)) ≡ 0 = omega (arith, ltb→le r.len r.cap h) in
      rw (h, try_write_loop, no_room) (Pushed-nil r v, omega arith)
]

-- `ringbuffer_put` appends as many copies of the byte as fit, and returns their number.
pub put_refines :
    (rb : Option RingBuffer) (cap : ℕ) (q : List ℕ) (uch len : ℕ)
    → Holds rb cap q
    → let k = min len (cap - length q) in
      let (rb', n) = put rb uch len in Holds rb' cap (q ++ replicate k uch) × (n ≡ k)
unfolding put
put_refines none cap q uch len h = absurd h
put_refines (some r) cap q uch len (v, e, c) =
    let (p, n) = put_loop_lem len uch 0 r v in
    let same : room r len ≡ min len (cap - length q) = rw (← e, ← c, length-contents r) refl in
    rw (← same) (
      (p.valid, p.same_cap ∙ e, p.bytes ∙ ap (λ d. d ++ replicate (room r len) uch) c),
      n ∙ omega arith,
    )

-- `ringbuffer_try_write` appends as many of the bytes as fit, in order, and returns their number.
pub try_write_refines :
    (rb : Option RingBuffer) (cap : ℕ) (q dat : List ℕ)
    → Holds rb cap q
    → let k = min (length dat) (cap - length q) in
      let (rb', n) = try_write rb (some dat) in Holds rb' cap (q ++ take k dat) × (n ≡ k)
unfolding try_write
try_write_refines none cap q dat h = absurd h
try_write_refines (some r) cap q dat (v, e, c) =
    let (p, n) = try_write_loop_lem dat 0 r v in
    let same : room r (length dat) ≡ min (length dat) (cap - length q) =
      rw (← e, ← c, length-contents r) refl in
    rw (← same) (
      (p.valid, p.same_cap ∙ e, p.bytes ∙ ap (λ d. d ++ take (room r (length dat)) dat) c),
      n ∙ omega arith,
    )

-- `ringbuffer_get_left_space` returns the free space, and never wraps.
pub get_left_space_refines :
    (rb : Option RingBuffer) (cap : ℕ) (q : List ℕ)
    → Holds rb cap q
    → get_left_space rb + length q ≡ cap
unfolding get_left_space
get_left_space_refines none cap q h = absurd h
get_left_space_refines (some r) cap q (v, e, c) =
    omega (arith, v.small, v.fits, e, length-contents r, ap (length {0}) c)

-- `ringbuffer_write` appends all the bytes where they fit and returns their number, and otherwise
-- changes nothing and returns 0.
pub write_refines :
    (rb : Option RingBuffer) (cap : ℕ) (q dat : List ℕ)
    → Holds rb cap q
    → let (rb', n) = write rb (some dat) (length dat) in
      ((length q + length dat ≤ cap) × Holds rb' cap (q ++ dat) × (n ≡ length dat))
      ⊎ ((cap < length q + length dat) × (rb' ≡ rb) × (n ≡ 0))
unfolding write
write_refines none cap q dat h = absurd h
write_refines (some r) cap q dat (v, e, c) =
    let size = length-of r q c in
    elim (Bool-cases (ltb r.cap (length dat + r.len))) [
      | inl full ↦ rw full (inr (omega (arith, ltb→lt r.cap _ full, size, e), refl, refl))
      | inr fits ↦
          let enough : length q + length dat ≤ cap = omega (arith, ltb→le r.cap _ fits, size, e) in
          let whole : min (length dat) (cap - length q) ≡ length dat = omega arith in
          let (held, n) = try_write_refines (some r) cap q dat (v, e, c) in
          rw fits (
            inl (
              enough,
              subst (λ d. Holds (try_write (some r) (some dat)).0 cap (q ++ d))
                  (ap (λ k. take k dat) whole ∙ take_all (length dat) dat (le_refl (length dat)))
                  held,
              n ∙ whole,
            ))
    ]
