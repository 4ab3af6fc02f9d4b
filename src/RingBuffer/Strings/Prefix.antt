-- ===== src/RingBuffer/Strings/Prefix.antt =====
-- ringbuffer_read_string_and_is_with_prefix takes one string and answers whether it has the prefix.
use embedded_template.Prelude.{
  u16, ℕ, ◌+◌, ◌-◌, ◌≤◌, ◌<◌, ◌≡◌, refl, sym, ap, ◌∙◌, ◌≢◌, Bool, true, false, inl, inr, Option,
  none, some, List, [], ◌∷◌, ◌++◌, length, length-append, ◌==◌, Bool-cases, All, ==→eq, ==→ne,
  ne→==, if◌then◌else◌, append-nil, append_assoc, arith,
}
use embedded_template.RingBuffer.{RingBuffer, pop_byte}
use embedded_template.RingBuffer.Contents.{contents}
use embedded_template.RingBuffer.Invariant.{IsValid, Holds}
use embedded_template.RingBuffer.Strings.{
  saved_char, saved_count, PrefixRead, read_rest, prefix_loop, read_string_with_prefix,
  read_string_and_is_with_prefix,
}
use embedded_template.RingBuffer.Strings.Laws.{
  first_string, after_string, kept, kept-nil, kept-cons, saved_count_bounds, pop_char-nil, Popping,
  pop_char-cons, AfterString, read_string_valid_lem,
}

abbrev pub starts_with : List ℕ → List ℕ → Bool
starts_with [] s = true
starts_with (p ∷ prefix) [] = false
starts_with (p ∷ prefix) (x ∷ s) = if p == x then starts_with prefix s else false

-- The string `s` was taken from the front of `r`, with `saved` bytes stored before as `out`.
record Taken (r : RingBuffer) (q : List ℕ) (has_buf : Bool) (size saved : ℕ) (out : List ℕ)
    (answer : Bool) (p : PrefixRead) : Type 0 where
  after : AfterString r q p.ring
  stored : p.out ≡ out ++ kept has_buf (size - saved) (first_string q)
  count : p.size ≡ saved + length (kept has_buf (size - saved) (first_string q))
  answered : p.matched ≡ answer

read_rest-Taken :
    (r : RingBuffer) (q : List ℕ) (has_buf : Bool) (size saved : ℕ) (out : List ℕ) (answer : Bool)
    → IsValid r
    → contents r ≡ q
    → saved ≤ size
    → size < 65536
    → Taken r q has_buf size saved out answer (read_rest r has_buf size saved out answer)
unfolding read_rest
read_rest-Taken r q has_buf size saved out answer v c h b =
    let left : u16 (size + 65536 - saved) ≡ size - saved = omega arith in
    let (a, o, n, fits) = read_string_valid_lem has_buf (size - saved) r q v c (omega arith) in
    rw left (record {
      after = a;
      stored = ap (λ s. out ++ s) o;
      count = omega (arith, n, fits, ap (length {0}) o);
      answered = refl;
    })

-- A round that took the byte `x`, saved it and left `q` to be read.
Taken-cons :
    (r : RingBuffer) (x : ℕ) (q : List ℕ) (has_buf : Bool) (size saved : ℕ) (out : List ℕ)
    (answer : Bool) (p : PrefixRead)
    → (x == 0) ≡ false
    → saved ≤ size
    → size < 65536
    → Taken
        (pop_byte r)
        q
        has_buf
        size
        (saved_count has_buf saved size)
        (out ++ saved_char has_buf saved size x)
        answer
        p
    → Taken r (x ∷ q) has_buf size saved out answer p
Taken-cons r x q has_buf size saved out answer p more h b t =
    let (small, count) = saved_count_bounds has_buf saved size x h b in
    let cons = kept-cons has_buf saved size x (first_string q) h b in
    let now = saved_char has_buf saved size x in
    let later = kept has_buf (size - saved_count has_buf saved size) (first_string q) in
    record {
      after = record {
        valid = t.after.valid;
        same_cap = t.after.same_cap;
        rest = rw more t.after.rest;
      };
      stored = rw (more, ← cons) (t.stored ∙ append_assoc out now later);
      count = rw (more, ← cons) (omega (arith, t.count, count, length-append now later));
      answered = t.answered;
    }

-- A round that took the terminating 0.
Taken-end :
    (r : RingBuffer) (x : ℕ) (q : List ℕ) (has_buf : Bool) (size saved : ℕ) (out : List ℕ)
    (answer : Bool)
    → Popping r x q
    → (x == 0) ≡ true
    → saved ≤ size
    → size < 65536
    → Taken r (x ∷ q) has_buf size saved out answer (record {
      ring = pop_byte r;
      out = out ++ saved_char has_buf saved size x;
      size = saved_count has_buf saved size;
      matched = answer;
    })
Taken-end r x q has_buf size saved out answer p stop h b =
    let (small, count) = saved_count_bounds has_buf saved size x h b in
    let cons = kept-cons has_buf saved size x [] h b in
    let now = saved_char has_buf saved size x in
    let whole : now ≡ kept has_buf (size - saved) (x ∷ []) =
      sym (append-nil now)
      ∙ ap (λ s. now ++ s) (sym (kept-nil has_buf (size - saved_count has_buf saved size)))
      ∙ cons in
    record {
      after = record { valid = p.valid; same_cap = refl; rest = rw stop p.rest };
      stored = rw stop (ap (λ s. out ++ s) whole);
      count = rw stop (omega (arith, count, ap (length {0}) whole));
      answered = refl;
    }

prefix_loop-Taken :
    (prefix : List ℕ) (has_buf : Bool) (size saved chr : ℕ) (out : List ℕ) (r : RingBuffer)
    (q : List ℕ)
    → IsValid r
    → contents r ≡ q
    → All (λ p. p ≢ 0) prefix
    → chr ≢ 0
    → saved ≤ size
    → size < 65536
    → Taken r q has_buf size saved out
        (starts_with prefix (first_string q))
        (prefix_loop prefix has_buf size saved chr out r)
unfolding prefix_loop
prefix_loop-Taken [] has_buf size saved chr out r q v c a n h b =
    rw (ne→== chr 0 n) (read_rest-Taken r q has_buf size saved out true v c h b)
prefix_loop-Taken (p ∷ prefix) has_buf size saved chr out r [] v c a n h b =
    let none_kept = kept-nil has_buf (size - saved) in
    rw (pop_char-nil r c, prefix_loop)
      (record {
        after = record { valid = v; same_cap = refl; rest = c };
        stored = rw none_kept (sym (append-nil out));
        count = rw none_kept (omega arith);
        answered = refl;
      })
prefix_loop-Taken (p ∷ prefix) has_buf size saved chr out r (x ∷ q) v c (a, as') n h b =
    let pop = pop_char-cons r x q v c in
    let step = pop.result in
    let (small, _) = saved_count_bounds has_buf saved size x h b in
    let saved' = saved_count has_buf saved size in
    let out' = out ++ saved_char has_buf saved size x in
    elim (Bool-cases (p == x)) [
      | inl same ↦
          let more : (x == 0) ≡ false = ne→== x 0 (λ e. a (==→eq p x same ∙ e)) in
          let t =
            prefix_loop-Taken prefix has_buf size saved' x out' (pop_byte r) q pop.valid pop.rest
              as' (==→ne x 0 more) small b in
          rw (step, more, same, prefix_loop)
            (Taken-cons r x q has_buf size saved out _ _ more h b t)
      | inr differs ↦ elim (Bool-cases (x == 0)) [
        | inl stop ↦
            rw (step, stop, differs, stop, prefix_loop)
              (Taken-end r x q has_buf size saved out false pop stop h b)
        | inr more ↦
            rw (step, more, differs, more, prefix_loop)
              (Taken-cons r x q has_buf size saved out false _ more h b (
                read_rest-Taken (pop_byte r) q has_buf size saved' out' false pop.valid pop.rest
                  small b))
      ]
    ]

-- With a prefix free of 0 bytes `ringbuffer_read_string_and_is_with_prefix` takes the first string
-- of the queue whatever the answer, stores of it what fits `*size` bytes (nothing through a NULL
-- `buf`), sets `*size` to the number of bytes stored, and answers whether the string has the prefix.
pub with_prefix_refines :
    (rb : Option RingBuffer) (cap : ℕ) (q prefix : List ℕ) (has_buf : Bool) (size : ℕ)
    → Holds rb cap q
    → All (λ p. p ≢ 0) prefix
    → size < 65536
    → let (rb', out, n, answer) =
        read_string_and_is_with_prefix rb (some prefix) has_buf (some size) in
      Holds rb' cap (after_string q)
      × (out ≡ kept has_buf size (first_string q))
      × (n ≡ some (length out))
      × (answer ≡ starts_with prefix (first_string q))
unfolding read_string_and_is_with_prefix read_string_with_prefix
with_prefix_refines none cap q prefix has_buf size h a b = absurd h
with_prefix_refines (some r) cap q prefix has_buf size (v, e, c) a b =
    let t =
      prefix_loop-Taken prefix has_buf size 0 1 [] r q v c a (λ o. absurd (omega arith))
        (omega arith) b in
    let whole : size - 0 ≡ size = omega arith in
    let out = t.stored ∙ ap (λ k. kept has_buf k (first_string q)) whole in
    (
      (t.after.valid, t.after.same_cap ∙ e, t.after.rest),
      out,
      ap some (omega (arith, t.count, ap (length {0}) t.stored)),
      t.answered,
    )
