-- ===== src/RingBuffer/Invariant.antt =====
-- When a ring is well formed, the queue that it stands for, and the two steps of its loops.
use embedded_template.Prelude.{
  ℕ, suc, ◌+◌, ◌-◌, ◌≤◌, ◌<◌, ◌≡◌, refl, ap, Option, none, some, List, [], ◌∷◌, ◌++◌, length, ◌%◌,
  length-set, arith, ◌∙◌,
}
use embedded_template.RingBuffer.{RingBuffer, push_byte, pop_byte, front_byte, init, clear}
use embedded_template.RingBuffer.Contents.{
  stored, contents, slot, length-stored, next-lt, next-slot, slot-next, stored-set,
}

pub record IsValid (r : RingBuffer) : Type 0 where
  pub storage : r.cap ≤ length r.buf
  pub small : r.cap < 65536
  pub in_range : r.in_pos < r.cap
  pub out_range : r.out_pos < r.cap
  pub fits : r.len ≤ r.cap
  pub linked : r.in_pos ≡ slot r.cap r.out_pos r.len

-- The pointer is to a well-formed ring of `cap` bytes that holds the queue `q`, oldest byte first.
abbrev pub Holds : Option RingBuffer → ℕ → List ℕ → Type 0
Holds none cap q = ⊥
Holds (some r) cap q = IsValid r × (r.cap ≡ cap) × (contents r ≡ q)

pub length-contents : (r : RingBuffer) → length (contents r) ≡ r.len
length-contents r = length-stored r.buf r.cap r.out_pos r.len

pub push_byte-IsValid :
    (r : RingBuffer) (x : ℕ) → IsValid r → r.len < r.cap → IsValid (push_byte r x)
push_byte-IsValid r x v h = record {
  storage = omega (arith, length-set r.buf r.in_pos x, v.storage);
  small = v.small;
  in_range = next-lt r.cap r.in_pos v.small v.in_range;
  out_range = v.out_range;
  fits = omega arith;
  linked = ground (arith, next-slot r.cap r.out_pos r.len v.small v.out_range h, v);
}

pub contents-push_byte :
    (r : RingBuffer) (x : ℕ)
    → IsValid r
    → r.len < r.cap
    → contents (push_byte r x) ≡ contents r ++ x ∷ []
contents-push_byte r x v h =
    let wide : (r.len + 1) % 65536 ≡ suc r.len = omega (arith, v.small) in
    ap (stored (push_byte r x).buf r.cap r.out_pos) wide
    ∙ stored-set r.buf r.cap r.out_pos r.len x r.in_pos v.storage v.small v.out_range h v.linked

pub pop_byte-IsValid : (r : RingBuffer) → IsValid r → 0 < r.len → IsValid (pop_byte r)
pop_byte-IsValid r v h = record {
  storage = v.storage;
  small = v.small;
  in_range = v.in_range;
  out_range = next-lt r.cap r.out_pos v.small v.out_range;
  fits = omega arith;
  linked =
      ground (arith, slot-next r.cap r.out_pos (r.len - 1) v.small v.out_range (omega arith), v);
}

pub contents-pop_byte :
    (r : RingBuffer) → 0 < r.len → contents r ≡ front_byte r ∷ contents (pop_byte r)
contents-pop_byte r h =
    let more : r.len ≡ suc (r.len - 1) = omega arith in ap (stored r.buf r.cap r.out_pos) more

-- A ring just made by `ringbuffer_init` over `cap` bytes of storage holds the empty queue.
pub init-Holds :
    (buf : List ℕ) (cap : ℕ)
    → 0 < cap
    → cap < 65536
    → cap ≤ length buf
    → Holds (some (init buf cap)) cap []
unfolding init
init-Holds buf cap hp hc hs = (
  record {
    storage = hs;
    small = hc;
    in_range = hp;
    out_range = hp;
    fits = omega arith;
    linked = ground arith;
  },
  refl,
  refl,
)

-- `ringbuffer_clear` empties the queue, and keeps the ring well formed.
pub clear-Holds :
    (rb : Option RingBuffer) (cap : ℕ) (q : List ℕ) → Holds rb cap q → Holds (clear rb) cap []
unfolding clear
clear-Holds none cap q h = h
clear-Holds (some r) cap q (v, e, c) = (
  record {
    storage = v.storage;
    small = v.small;
    in_range = omega (arith, v.in_range);
    out_range = omega (arith, v.in_range);
    fits = omega arith;
    linked = ground (arith, v);
  },
  e,
  refl,
)
