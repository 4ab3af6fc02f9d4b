-- ===== src/RingBuffer/Strings.antt =====
-- src/ringbuffer/ringbuffer.c: pop_char, ringbuffer_read_string and
-- ringbuffer_read_string_and_is_with_prefix.
pub mod Laws
pub mod Prefix
use embedded_template.Prelude.{
  u16, ℕ, zero, suc, ◌+◌, ◌-◌, Bool, true, false, ◌&&◌, Option, none, some, List, [], ◌∷◌, ◌++◌,
  ltb, ◌==◌, if◌then◌else◌,
}
use embedded_template.RingBuffer.{RingBuffer, front_byte, pop_byte}

-- `none` is the return value 0, where `*pc` is not written.
unfoldable pub pop_char : RingBuffer → Option (ℕ × RingBuffer)
pop_char r = if r.len == 0 then none else some (front_byte r, pop_byte r)

-- `buf && ret < bufSize`
abbrev pub has_room : Bool → ℕ → ℕ → Bool
has_room has_buf ret size = has_buf && ltb ret size

-- What the assignment `buf[ret++] = chr` under that test stores, and the new `ret`.
abbrev pub saved_char : Bool → ℕ → ℕ → ℕ → List ℕ
saved_char has_buf ret size chr = if has_room has_buf ret size then chr ∷ [] else []

abbrev pub saved_count : Bool → ℕ → ℕ → ℕ
saved_count has_buf ret size = if has_room has_buf ret size then u16 (ret + 1) else ret

-- The `do` loop. A round that goes on took a byte, so one round more than bytes stored is enough.
unfoldable pub read_string_loop : ℕ → Bool → ℕ → ℕ → RingBuffer → RingBuffer × List ℕ × ℕ
read_string_loop zero has_buf size ret r = (r, [], ret)
read_string_loop (suc fuel) has_buf size ret r = elim (pop_char r) [
  | none ↦ (r, [], ret)
  | some (chr, r') ↦
      let ret' = saved_count has_buf ret size in
      let stored = saved_char has_buf ret size chr in
      elim (chr == 0) [
        | true ↦ (r', stored, ret')
        | false ↦
            let (r'', out, n) = read_string_loop fuel has_buf size ret' r' in
            (r'', stored ++ out, n)
      ]
]

unfoldable pub read_string_valid : RingBuffer → Bool → ℕ → RingBuffer × List ℕ × ℕ
read_string_valid r has_buf size = read_string_loop (suc r.len) has_buf size 0 r

pub read_string : Option RingBuffer → Bool → ℕ → Option RingBuffer × List ℕ × ℕ
read_string none has_buf size = (none, [], 0)
read_string (some r) has_buf size =
    let (r', out, n) = read_string_valid r has_buf size in (some r', out, n)

-- What a call of the next function leaves: the ring, what it stored from `buf` on, `*size` and the
-- return value.
pub record PrefixRead : Type 0 where
  pub ring : RingBuffer
  pub out : List ℕ
  pub size : ℕ
  pub matched : Bool

-- `saved += ringbuffer_read_string(rb, &buf[saved], *size - saved)`, with `out` stored before.
unfoldable pub read_rest : RingBuffer → Bool → ℕ → ℕ → List ℕ → Bool → PrefixRead
read_rest r has_buf size saved out matched =
    let (r', more, n) = read_string_valid r has_buf (u16 (size + 65536 - saved)) in
    record { ring = r'; out = out ++ more; size = u16 (saved + n); matched = matched }

-- The `for` loop over what is left of the prefix, and the code behind it. `chr` is the last byte
-- taken (1 before the first) and `out` what was stored.
unfoldable pub prefix_loop : List ℕ → Bool → ℕ → ℕ → ℕ → List ℕ → RingBuffer → PrefixRead
prefix_loop [] has_buf size saved chr out r =
    if chr == 0
    then record {
      ring = r;
      out = (if has_room has_buf saved size then out ++ 0 ∷ [] else out);
      size = saved;
      matched = true;
    }
    else read_rest r has_buf size saved out true
prefix_loop (p ∷ prefix) has_buf size saved chr out r = elim (pop_char r) [
  | none ↦ record { ring = r; out = out; size = saved; matched = false }
  | some (c, r') ↦
      let saved' = saved_count has_buf saved size in
      let out' = out ++ saved_char has_buf saved size c in
      elim (p == c) [
        | true ↦ prefix_loop prefix has_buf size saved' c out' r'
        | false ↦
            if c == 0
            then record { ring = r'; out = out'; size = saved'; matched = false }
            else read_rest r' has_buf size saved' out' false
      ]
]

-- The call with none of `rb` and `size` NULL; a NULL `prefix` is `none`.
unfoldable pub read_string_with_prefix : RingBuffer → Option (List ℕ) → Bool → ℕ → PrefixRead
read_string_with_prefix r none has_buf size =
    let (r', out, n) = read_string_valid r has_buf size in
    record { ring = r'; out = out; size = n; matched = ltb 0 n }
read_string_with_prefix r (some prefix) has_buf size = prefix_loop prefix has_buf size 0 1 [] r

-- `ringbuffer_read_string_and_is_with_prefix`: the ring, what was stored, `*size` (a NULL `size` is
-- `none`) and the return value.
unfoldable pub read_string_and_is_with_prefix :
    Option RingBuffer
    → Option (List ℕ)
    → Bool
    → Option ℕ
    → Option RingBuffer × List ℕ × Option ℕ × Bool
read_string_and_is_with_prefix none prefix has_buf size = (none, [], size, false)
read_string_and_is_with_prefix (some r) prefix has_buf none = (some r, [], none, false)
read_string_and_is_with_prefix (some r) prefix has_buf (some size) =
    let p = read_string_with_prefix r prefix has_buf size in
    (some p.ring, p.out, some p.size, p.matched)
