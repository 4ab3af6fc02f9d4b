-- ===== src/RingBuffer/Drop.antt =====
-- src/ringbuffer/ringbuffer.c: ringbuffer_drop_from_tail and ringbuffer_drop_from_head.
use embedded_template.Prelude.{
  u16, ℕ, ◌+◌, ◌-◌, ◌*◌, ◌≤◌, ◌<◌, ◌≡◌, ◌≢◌, refl, ap, ◌⊎◌, inl, inr, Bool-cases, ltb→lt, ltb→le,
  false, Option, none, some, [], ltb, leb, ◌==◌, if◌then◌else◌, arith,
}
use embedded_template.RingBuffer.{RingBuffer}
use embedded_template.RingBuffer.Contents.{stored, contents, slot}
use embedded_template.RingBuffer.Invariant.{IsValid}

-- `if (size < rb->len) size = rb->len;`
abbrev pub raised : RingBuffer → ℕ → ℕ
raised r size = if ltb size r.len then r.len else size

-- What the assignments leave. The values are computed in `int` and stored in a uint16_t.
abbrev pub tail_dropped : RingBuffer → ℕ → RingBuffer
tail_dropped r n = record r {
  out_pos = (if ltb r.out_pos n then u16 (r.out_pos + r.cap + 65536 - n) else u16 (r.out_pos - n));
  len = u16 (r.len + 65536 - n);
}

pub drop_from_tail : Option RingBuffer → ℕ → Option RingBuffer × ℕ
drop_from_tail none size = (none, 0)
drop_from_tail (some r) size =
    if size == 0 then (some r, 0) else (some (tail_dropped r (raised r size)), raised r size)

abbrev pub head_dropped : RingBuffer → ℕ → RingBuffer
head_dropped r n =
    let moved = u16 (r.in_pos + n) in
    record r {
      in_pos = (if leb r.cap moved then u16 (moved - r.cap) else moved);
      len = u16 (r.len + 65536 - n);
    }

pub drop_from_head : Option RingBuffer → ℕ → Option RingBuffer × ℕ
drop_from_head none size = (none, 0)
drop_from_head (some r) size = (some (head_dropped r (raised r size)), raised r size)

raised_le : (r : RingBuffer) (size : ℕ) → size ≤ r.len → raised r size ≡ r.len
raised_le r size h = ground arith

raised_gt : (r : RingBuffer) (size : ℕ) → r.len < size → raised r size ≡ size
raised_gt r size h = ground arith

no_bytes : (r : RingBuffer) → r.len ≡ 0 → contents r ≡ []
no_bytes r e = ap (stored r.buf r.cap r.out_pos) e

-- A drop from the tail of 1 byte up to all that is stored always drops all, and moves the position
-- `out` backwards by as much; `in` stays. A drop of more than is stored makes the ring count more
-- bytes than before.
pub drop_from_tail_lem :
    (r : RingBuffer) (size : ℕ)
    → IsValid r
    → 0 < size
    → size < 65536
    → let (rb', n) = drop_from_tail (some r) size in
      (r' : RingBuffer) × (rb' ≡ some r')
      × (((size ≤ r.len)
            × (n ≡ r.len)
            × (contents r' ≡ [])
            × (r'.in_pos ≡ r.in_pos)
            × (r.out_pos ≡ slot r.cap r'.out_pos r.len))
          ⊎ ((r.len < size) × (n ≡ size) × (r.len < r'.len)))
unfolding drop_from_tail
drop_from_tail_lem r size v p b =
    let nonzero : (size == 0) ≡ false = ground arith in
    elim (Bool-cases (ltb r.len size)) [
      | inl many ↦
          let h = ltb→lt r.len size many in
          rw (nonzero, raised_gt r size h)
            (tail_dropped r size, refl, inr (h, refl, omega (arith, v.small, v.fits)))
      | inr few ↦
          let h = ltb→le r.len size few in
          rw (nonzero, raised_le r size h)
            (
              tail_dropped r r.len,
              refl,
              inl (
                h,
                refl,
                no_bytes (tail_dropped r r.len) (omega (arith, v.small, v.fits)),
                refl,
                ground (arith, v),
              ),
            )
    ]

-- With a capacity of at most 32768, so that no position wraps, a drop from the head drops all too, for any size up to what is stored, and moves the position
-- `in` forwards by as much; `out` stays. A larger one makes the ring count more bytes than before.
pub drop_from_head_lem :
    (r : RingBuffer) (size : ℕ)
    → IsValid r
    → r.cap ≤ 32768
    → size < 65536
    → let (rb', n) = drop_from_head (some r) size in
      (r' : RingBuffer) × (rb' ≡ some r')
      × (((size ≤ r.len)
            × (n ≡ r.len)
            × (contents r' ≡ [])
            × (r'.out_pos ≡ r.out_pos)
            × (r'.in_pos ≡ slot r.cap r.in_pos r.len))
          ⊎ ((r.len < size) × (n ≡ size) × (r.len < r'.len)))
unfolding drop_from_head
drop_from_head_lem r size v s b = elim (Bool-cases (ltb r.len size)) [
  | inl many ↦
      let h = ltb→lt r.len size many in
      rw (raised_gt r size h)
        (head_dropped r size, refl, inr (h, refl, omega (arith, v.small, v.fits)))
  | inr few ↦
      let h = ltb→le r.len size few in
      rw (raised_le r size h) (
        head_dropped r r.len,
        refl,
        inl (
          h,
          refl,
          no_bytes (head_dropped r r.len) (omega (arith, v.small, v.fits)),
          refl,
          ground (arith, v),
        ),
      )
]

-- With a capacity of at most 32768, a drop of 1 byte up to all that is stored leaves the ring
-- malformed, from either end, unless all the space or exactly half of it was in use: the positions
-- no longer agree with the empty contents.
pub drop_breaks :
    (r : RingBuffer) (size : ℕ)
    → IsValid r
    → r.cap ≤ 32768
    → 0 < size
    → size ≤ r.len
    → r.len ≢ r.cap
    → 2 * r.len ≢ r.cap
    → (r' : RingBuffer) × ((drop_from_tail (some r) size).0 ≡ some r')
      × (¬ (IsValid r'))
      × (r'' : RingBuffer) × ((drop_from_head (some r) size).0 ≡ some r'')
      × (¬ (IsValid r''))
unfolding drop_from_tail drop_from_head
drop_breaks r size v s p h full half =
    let nonzero : (size == 0) ≡ false = ground arith in
    rw (nonzero, raised_le r size h)
      (
        tail_dropped r r.len,
        refl,
        (λ w. ground (arith, v, w)),
        head_dropped r r.len,
        refl,
        λ w. ground (arith, v, w),
      )
