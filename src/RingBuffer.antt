-- ===== src/RingBuffer.antt =====
-- src/ringbuffer/ringbuffer.c: the byte ring and its functions that put, read and write.
-- A pointer that may be NULL is an `Option`; a function that changes `*rb` returns the new ring.
-- A destination pointer is the flag `has_buf` (not NULL), and what is stored through it is a list.
pub mod Contents
pub mod Invariant
pub mod Append
pub mod Take
pub mod Strings
pub mod Drop
mod Tests
use embedded_template.Prelude.{
  ℕ, zero, suc, ◌+◌, ◌-◌, ◌%◌, Bool, true, false, Option, none, some, List, [], ◌∷◌, length, get_or,
  set, ltb, leb, ◌==◌, if◌then◌else◌, u16,
}

-- `struct ringbuffer`, whose RINGBUFFER_SIZE_TYPE is uint16_t; `in_pos` and `out_pos` are its fields `in` and `out`.
pub record RingBuffer : Type 0 where
  pub cap : ℕ
  pub len : ℕ
  pub in_pos : ℕ
  pub out_pos : ℕ
  pub buf : List ℕ

-- `++i; if (i >= cap) i = 0;`
abbrev pub next : ℕ → ℕ → ℕ
next cap i = let j = u16 (i + 1) in if leb cap j then 0 else j

-- The body of the writing loops.
abbrev pub push_byte : RingBuffer → ℕ → RingBuffer
push_byte r uch = record r {
  buf = set r.buf r.in_pos uch;
  in_pos = next r.cap r.in_pos;
  len = u16 (r.len + 1);
}

-- The byte that the reading loops take, and the ring after they took it (at `0 < len` only).
abbrev pub front_byte : RingBuffer → ℕ
front_byte r = get_or r.buf r.out_pos 0

abbrev pub pop_byte : RingBuffer → RingBuffer
pop_byte r = record r { out_pos = next r.cap r.out_pos; len = r.len - 1 }

unfoldable pub clear : Option RingBuffer → Option RingBuffer
clear none = none
clear (some r) = some (record r { len = 0; in_pos = 0; out_pos = 0 })

-- `rb` is written whole, and not tested for NULL.
unfoldable pub init : List ℕ → ℕ → RingBuffer
init buf len = record { cap = len; len = 0; in_pos = 0; out_pos = 0; buf = buf }

-- The first argument of the loops is the number of rounds that `i < len` still allows.
unfoldable pub put_loop : ℕ → ℕ → ℕ → RingBuffer → RingBuffer × ℕ
put_loop zero uch i r = (r, i)
put_loop (suc n) uch i r = elim (ltb r.len r.cap) [
  | true ↦ put_loop n uch (i + 1) (push_byte r uch)
  | false ↦ (r, i)
]

unfoldable pub put : Option RingBuffer → ℕ → ℕ → Option RingBuffer × ℕ
put none uch len = (none, 0)
put (some r) uch len = let (r', i) = put_loop len uch 0 r in (some r', i)

unfoldable pub try_read_loop : ℕ → ℕ → RingBuffer → RingBuffer × List ℕ × ℕ
try_read_loop zero i r = (r, [], i)
try_read_loop (suc n) i r = elim (ltb 0 r.len) [
  | true ↦ let (r', out, i') = try_read_loop n (i + 1) (pop_byte r) in (r', front_byte r ∷ out, i')
  | false ↦ (r, [], i)
]

unfoldable pub try_read : Option RingBuffer → Bool → ℕ → Option RingBuffer × List ℕ × ℕ
try_read none has_buf len = (none, [], 0)
try_read (some r) false len = (some r, [], 0)
try_read (some r) true len = let (r', out, i) = try_read_loop len 0 r in (some r', out, i)

pub try_read_util_loop : ℕ → ℕ → ℕ → RingBuffer → RingBuffer × List ℕ × ℕ
try_read_util_loop zero term i r = (r, [], i)
try_read_util_loop (suc n) term i r = elim (ltb 0 r.len) [
  | true ↦ elim (front_byte r == term) [
    | true ↦ (pop_byte r, front_byte r ∷ [], i + 1)
    | false ↦
        let (r', out, i') = try_read_util_loop n term (i + 1) (pop_byte r) in
        (r', front_byte r ∷ out, i')
  ]
  | false ↦ (r, [], i)
]

pub try_read_util : Option RingBuffer → Bool → ℕ → ℕ → Option RingBuffer × List ℕ × ℕ
try_read_util none has_buf len term = (none, [], 0)
try_read_util (some r) false len term = (some r, [], 0)
try_read_util (some r) true len term =
    let (r', out, i) = try_read_util_loop len term 0 r in (some r', out, i)

-- The list is what the loop has still to take of the `len` bytes at `dat`.
pub try_write_loop : List ℕ → ℕ → RingBuffer → RingBuffer × ℕ
try_write_loop [] i r = (r, i)
try_write_loop (x ∷ dat) i r = elim (ltb r.len r.cap) [
  | true ↦ try_write_loop dat (i + 1) (push_byte r x)
  | false ↦ (r, i)
]

-- `dat` holds the `len` bytes that the caller passes; NULL is `none`.
pub try_write : Option RingBuffer → Option (List ℕ) → Option RingBuffer × ℕ
try_write none dat = (none, 0)
try_write (some r) none = (some r, 0)
try_write (some r) (some dat) = let (r', i) = try_write_loop dat 0 r in (some r', i)

-- `(rb->cap - rb->len) < len` is an `int` comparison, so a negative difference counts.
abbrev pub lacks_space : RingBuffer → ℕ → Bool
lacks_space r len = ltb r.cap (len + r.len)

pub read : Option RingBuffer → Bool → ℕ → Option RingBuffer × List ℕ × ℕ
read none has_buf len = (none, [], 0)
read (some r) has_buf len =
    if lacks_space r len then (some r, [], 0) else try_read (some r) has_buf len

-- `len` is given apart from `dat`, since it is compared before `dat` is tested for NULL.
pub write : Option RingBuffer → Option (List ℕ) → ℕ → Option RingBuffer × ℕ
write none dat len = (none, 0)
write (some r) dat len = if lacks_space r len then (some r, 0) else try_write (some r) dat

pub get_left_space : Option RingBuffer → ℕ
get_left_space none = 0
get_left_space (some r) = u16 (r.cap + 65536 - r.len)
