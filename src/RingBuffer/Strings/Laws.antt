-- ===== src/RingBuffer/Strings/Laws.antt =====
-- What the string functions take from the queue, store and answer.
use embedded_template.Prelude.{
  u16, ℕ, zero, suc, ◌+◌, ◌-◌, ◌≤◌, ◌<◌, ◌≡◌, refl, sym, ap, ◌∙◌, Bool, true, false, inl, inr,
  Option, none, some, List, [], ◌∷◌, ◌++◌, length, length-append, take, ltb, ◌==◌, Bool-cases,
  if◌then◌else◌, append-nil, arith,
}
use embedded_template.RingBuffer.{RingBuffer, front_byte, pop_byte}
use embedded_template.RingBuffer.Contents.{contents}
use embedded_template.RingBuffer.Invariant.{IsValid, Holds, pop_byte-IsValid, contents-pop_byte}
use embedded_template.RingBuffer.Append.{length-of}
use embedded_template.RingBuffer.Strings.{
  pop_char, saved_char, saved_count, read_string_loop, read_string_valid, read_string,
}

-- The first string of a queue, its terminating 0 included, and what follows it.
abbrev pub first_string : List ℕ → List ℕ
first_string [] = []
first_string (x ∷ q) = if x == 0 then x ∷ [] else x ∷ first_string q

abbrev pub after_string : List ℕ → List ℕ
after_string [] = []
after_string (x ∷ q) = if x == 0 then q else after_string q

-- What a buffer of `size` bytes keeps of a string.
abbrev pub kept : Bool → ℕ → List ℕ → List ℕ
kept has_buf size s = if has_buf then take size s else []

pub kept-nil : (has_buf : Bool) (n : ℕ) → kept has_buf n [] ≡ []
kept-nil false n = refl
kept-nil true zero = refl
kept-nil true (suc n) = refl

-- Saving a byte, and keeping the rest in the space that is left, is keeping the whole.
pub kept-cons :
    (has_buf : Bool) (ret size c : ℕ) (s : List ℕ)
    → ret ≤ size
    → size < 65536
    → saved_char has_buf ret size c ++ kept has_buf (size - saved_count has_buf ret size) s
      ≡ kept has_buf (size - ret) (c ∷ s)
kept-cons false ret size c s h b = refl
kept-cons true ret size c s h b = elim (Bool-cases (ltb ret size)) [
  | inl less ↦
      let after : size - ret ≡ suc (size - u16 (ret + 1)) = ground arith in rw (less, after) refl
  | inr full ↦ let nothing : size - ret ≡ 0 = ground arith in rw (full, nothing) refl
]

pub saved_count_bounds :
    (has_buf : Bool) (ret size c : ℕ)
    → ret ≤ size
    → size < 65536
    → (saved_count has_buf ret size ≤ size)
      × (saved_count has_buf ret size ≡ ret + length (saved_char has_buf ret size c))
saved_count_bounds false ret size c h b = omega arith
saved_count_bounds true ret size c h b = ground arith

pub pop_char-nil : (r : RingBuffer) → contents r ≡ [] → pop_char r ≡ none
unfolding pop_char
pop_char-nil r c = ground (arith, length-of r [] c)

-- `r'` is the ring behind the front byte `x` of `r`, which is followed by `q`.
pub record Popping (r : RingBuffer) (x : ℕ) (q : List ℕ) : Type 0 where
  pub result : pop_char r ≡ some (x, pop_byte r)
  pub valid : IsValid (pop_byte r)
  pub rest : contents (pop_byte r) ≡ q
  pub shorter : suc (pop_byte r).len ≡ r.len

pub pop_char-cons :
    (r : RingBuffer) (x : ℕ) (q : List ℕ) → IsValid r → contents r ≡ x ∷ q → Popping r x q
unfolding pop_char
pop_char-cons r x q v c =
    let size = length-of r (x ∷ q) c in
    let more : 0 < r.len = omega arith in
    let both : front_byte r ∷ contents (pop_byte r) ≡ x ∷ q = sym (contents-pop_byte r more) ∙ c in
    let first : front_byte r ≡ x = cc in
    let test : (r.len == 0) ≡ false = ground arith in
    record {
      result = rw (test, first) refl;
      valid = pop_byte-IsValid r v more;
      rest = cc;
      shorter = omega arith;
    }

-- What is known of a ring after a string was read from one that held `q`.
pub record AfterString (r : RingBuffer) (q : List ℕ) (r' : RingBuffer) : Type 0 where
  pub valid : IsValid r'
  pub same_cap : r'.cap ≡ r.cap
  pub rest : contents r' ≡ after_string q

read_string_loop_lem :
    (fuel : ℕ) (has_buf : Bool) (size ret : ℕ) (r : RingBuffer) (q : List ℕ)
    → IsValid r
    → contents r ≡ q
    → r.len < fuel
    → ret ≤ size
    → size < 65536
    → let (r', out, n) = read_string_loop fuel has_buf size ret r in
      AfterString r q r'
      × (out ≡ kept has_buf (size - ret) (first_string q))
      × (n ≡ ret + length out)
      × (n ≤ size)
unfolding read_string_loop
read_string_loop_lem zero has_buf size ret r q v c f h b = absurd (omega arith)
read_string_loop_lem (suc fuel) has_buf size ret r [] v c f h b =
    rw (pop_char-nil r c, read_string_loop)
      (
        record { valid = v; same_cap = refl; rest = c },
        sym (kept-nil has_buf (size - ret)),
        omega arith,
        h,
      )
read_string_loop_lem (suc fuel) has_buf size ret r (x ∷ q) v c f h b =
    let p = pop_char-cons r x q v c in
    let (small, count) = saved_count_bounds has_buf ret size x h b in
    let ret' = saved_count has_buf ret size in
    let step = p.result in
    elim (Bool-cases (x == 0)) [
      | inl stop ↦
          let whole : saved_char has_buf ret size x ≡ kept has_buf (size - ret) (x ∷ []) =
            sym (append-nil (saved_char has_buf ret size x))
            ∙ ap (λ s. saved_char has_buf ret size x ++ s) (sym (kept-nil has_buf (size - ret')))
            ∙ kept-cons has_buf ret size x [] h b in
          rw (step, stop, read_string_loop)
            (
              record { valid = p.valid; same_cap = refl; rest = rw stop p.rest },
              whole,
              count,
              small,
            )
      | inr go ↦
          let (after, out, n, fits) =
            read_string_loop_lem fuel has_buf size ret' (pop_byte r) q p.valid p.rest
              (omega (arith, p.shorter)) small b in
          rw (step, go, read_string_loop)
            (
              record { valid = after.valid; same_cap = after.same_cap; rest = rw go after.rest },
              ap (λ s. saved_char has_buf ret size x ++ s) out
                  ∙ kept-cons has_buf ret size x (first_string q) h b,
              rw length-append (omega (arith, n, count)),
              fits,
            )
    ]

pub read_string_valid_lem :
    (has_buf : Bool) (size : ℕ) (r : RingBuffer) (q : List ℕ)
    → IsValid r
    → contents r ≡ q
    → size < 65536
    → let (r', out, n) = read_string_valid r has_buf size in
      AfterString r q r'
      × (out ≡ kept has_buf size (first_string q))
      × (n ≡ length out)
      × (n ≤ size)
unfolding read_string_valid
read_string_valid_lem has_buf size r q v c b =
    let (after, out, n, fits) =
      read_string_loop_lem (suc r.len) has_buf size 0 r q v c (omega arith) (omega arith) b in
    (after, out ∙ ap (λ k. kept has_buf k (first_string q)) (omega arith), n ∙ omega arith, fits)

-- `ringbuffer_read_string` takes the first string of the queue, its terminating 0 included, or all
-- that is stored where there is no 0. It stores of that what fits `bufSize` bytes, nothing through a
-- NULL `buf`, and returns how much it stored.
pub read_string_refines :
    (rb : Option RingBuffer) (cap : ℕ) (q : List ℕ) (has_buf : Bool) (size : ℕ)
    → Holds rb cap q
    → size < 65536
    → let (rb', out, n) = read_string rb has_buf size in
      Holds rb' cap (after_string q) × (out ≡ kept has_buf size (first_string q)) × (n ≡ length out)
unfolding read_string
read_string_refines none cap q has_buf size h b = absurd h
read_string_refines (some r) cap q has_buf size (v, e, c) b =
    let (after, out, n, _) = read_string_valid_lem has_buf size r q v c b in
    ((after.valid, after.same_cap ∙ e, after.rest), out, n)
