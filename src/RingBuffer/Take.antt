-- ===== src/RingBuffer/Take.antt =====
-- The functions that read, against a queue of bounded capacity.
use embedded_template.Prelude.{
  ℕ, zero, suc, ◌+◌, ◌-◌, ◌≤◌, ◌<◌, min, ◌≡◌, refl, sym, ap, ◌∙◌, subst, take_all, drop_all, ◌⊎◌,
  inl, inr, true, false, Option, none, some, List, [], ◌∷◌, ◌++◌, length, length-append, take, drop,
  ltb, ◌==◌, Bool-cases, if◌then◌else◌, ltb→lt, ltb→le, arith,
}
use embedded_template.RingBuffer.{
  RingBuffer, pop_byte, front_byte, try_read_loop, try_read, try_read_util_loop, try_read_util,
  read, write,
}
use embedded_template.RingBuffer.Contents.{contents}
use embedded_template.RingBuffer.Invariant.{
  IsValid, Holds, length-contents, pop_byte-IsValid, contents-pop_byte,
}
use embedded_template.RingBuffer.Append.{length-of, write_refines}

-- `r'` and `out` are what is left of `r` and what was taken from it, when `k` bytes were taken.
record Popped (r : RingBuffer) (k : ℕ) (r' : RingBuffer) (out : List ℕ) : Type 0 where
  valid : IsValid r'
  same_cap : r'.cap ≡ r.cap
  taken : out ≡ take k (contents r)
  rest : contents r' ≡ drop k (contents r)

Popped-zero : (r : RingBuffer) → IsValid r → Popped r 0 r []
Popped-zero r v = record { valid = v; same_cap = refl; taken = refl; rest = refl }

Popped-suc :
    (r : RingBuffer) (k : ℕ) (r' : RingBuffer) (out : List ℕ)
    → 0 < r.len
    → Popped (pop_byte r) k r' out
    → Popped r (suc k) r' (front_byte r ∷ out)
Popped-suc r k r' out h p = record {
  valid = p.valid;
  same_cap = p.same_cap;
  taken = rw (contents-pop_byte r h) (ap (λ d. front_byte r ∷ d) p.taken);
  rest = rw (contents-pop_byte r h) p.rest;
}

try_read_loop_lem :
    (n i : ℕ) (r : RingBuffer)
    → IsValid r
    → let (r', out, i') = try_read_loop n i r in
      Popped r (min n r.len) r' out × (i' ≡ i + min n r.len)
unfolding try_read_loop
try_read_loop_lem zero i r v =
    let nothing : min 0 r.len ≡ 0 = omega arith in rw nothing (Popped-zero r v, omega arith)
try_read_loop_lem (suc n) i r v = elim (Bool-cases (ltb 0 r.len)) [
  | inl h ↦
      let more = ltb→lt 0 r.len h in
      let (p, c) = try_read_loop_lem n (i + 1) (pop_byte r) (pop_byte-IsValid r v more) in
      let count : min (suc n) r.len ≡ suc (min n (r.len - 1)) = omega arith in
      rw (h, try_read_loop, count) (Popped-suc r _ _ _ more p, c ∙ omega arith)
  | inr h ↦
      let nothing : min (suc n) r.len ≡ 0 = omega (arith, ltb→le 0 r.len h) in
      rw (h, try_read_loop, nothing) (Popped-zero r v, omega arith)
]

-- `ringbuffer_try_read` hands over the oldest bytes, as many as are asked for and held, in order,
-- returns their number, and leaves the rest.
pub try_read_refines :
    (rb : Option RingBuffer) (cap : ℕ) (q : List ℕ) (len : ℕ)
    → Holds rb cap q
    → let (rb', out, n) = try_read rb true len in
      Holds rb' cap (drop n q) × (out ≡ take n q) × (n ≡ min len (length q))
unfolding try_read
try_read_refines none cap q len h = absurd h
try_read_refines (some r) cap q len (v, e, c) =
    let (p, n) = try_read_loop_lem len 0 r v in
    let count : (try_read_loop len 0 r).2 ≡ min len r.len = n ∙ omega arith in
    rw (count, ← c)
      ((p.valid, p.same_cap ∙ e, p.rest), p.taken, ap (min len) (sym (length-contents r)))

-- How many bytes of a queue a read of `n` takes that stops behind the first byte `term`.
abbrev pub util_count : ℕ → ℕ → List ℕ → ℕ
util_count zero term q = 0
util_count (suc n) term [] = 0
util_count (suc n) term (x ∷ q) = if x == term then 1 else suc (util_count n term q)

try_read_util_loop_lem :
    (n term i : ℕ) (r : RingBuffer) (q : List ℕ)
    → IsValid r
    → contents r ≡ q
    → let (r', out, i') = try_read_util_loop n term i r in
      Popped r (util_count n term q) r' out × (i' ≡ i + util_count n term q)
unfolding try_read_util_loop
try_read_util_loop_lem zero term i r q v c = (Popped-zero r v, omega arith)
try_read_util_loop_lem (suc n) term i r [] v c =
    let empty : ltb 0 r.len ≡ false = ground (arith, length-of r [] c) in
    rw (empty, try_read_util_loop) (Popped-zero r v, omega arith)
try_read_util_loop_lem (suc n) term i r (x ∷ q) v c =
    let size = length-of r (x ∷ q) c in
    let more : 0 < r.len = omega arith in
    let test : ltb 0 r.len ≡ true = ground arith in
    let both : front_byte r ∷ contents (pop_byte r) ≡ x ∷ q = sym (contents-pop_byte r more) ∙ c in
    let first : x ≡ front_byte r = cc in
    let others : contents (pop_byte r) ≡ q = cc in
    let valid = pop_byte-IsValid r v more in
    elim (Bool-cases (front_byte r == term)) [
      | inl stop ↦
          rw (first, test, stop, try_read_util_loop)
            (Popped-suc r 0 _ _ more (Popped-zero (pop_byte r) valid), omega arith)
      | inr go ↦
          let (p, n') = try_read_util_loop_lem n term (i + 1) (pop_byte r) q valid others in
          rw (first, test, go, try_read_util_loop) (Popped-suc r _ _ _ more p, n' ∙ omega arith)
    ]

-- `ringbuffer_try_read_util` hands over the oldest bytes up to the first byte `term`, that byte
-- included, or as many as are asked for and held where that comes first; it returns their number
-- and leaves the rest.
pub try_read_util_refines :
    (rb : Option RingBuffer) (cap : ℕ) (q : List ℕ) (len term : ℕ)
    → Holds rb cap q
    → let k = util_count len term q in
      let (rb', out, n) = try_read_util rb true len term in
      Holds rb' cap (drop k q) × (out ≡ take k q) × (n ≡ k)
unfolding try_read_util
try_read_util_refines none cap q len term h = absurd h
try_read_util_refines (some r) cap q len term (v, e, c) =
    let (p, n) = try_read_util_loop_lem len term 0 r q v c in
    (
      (p.valid, p.same_cap ∙ e, p.rest ∙ ap (drop (util_count len term q)) c),
      p.taken ∙ ap (take (util_count len term q)) c,
      n ∙ omega arith,
    )

-- `ringbuffer_read` compares the length with the free space, not with what is stored. With less
-- free space than the length it returns 0 and changes nothing; else it reads as
-- `ringbuffer_try_read` does, perhaps fewer bytes than asked for.
pub read_refines :
    (rb : Option RingBuffer) (cap : ℕ) (q : List ℕ) (len : ℕ)
    → Holds rb cap q
    → let (rb', out, n) = read rb true len in
      ((cap < len + length q) × (rb' ≡ rb) × (out ≡ []) × (n ≡ 0))
      ⊎ ((len + length q ≤ cap)
          × Holds rb' cap (drop n q)
          × (out ≡ take n q)
          × (n ≡ min len (length q)))
unfolding read
read_refines none cap q len h = absurd h
read_refines (some r) cap q len (v, e, c) =
    let size = length-of r q c in
    elim (Bool-cases (ltb r.cap (len + r.len))) [
      | inl full ↦ rw full (inl (omega (arith, ltb→lt _ _ full, size, e), refl, refl, refl))
      | inr free ↦
          let (held, taken, count) = try_read_refines (some r) cap q len (v, e, c) in
          rw free (inr (omega (arith, ltb→le _ _ free, size, e), held, taken, count))
    ]

-- What `ringbuffer_write` accepts comes out of `ringbuffer_try_read` behind what was stored before,
-- unchanged and in order, and leaves the ring empty.
pub try_read-write :
    (rb : Option RingBuffer) (cap : ℕ) (q dat : List ℕ)
    → Holds rb cap q
    → length q + length dat ≤ cap
    → let (rb', n) = write rb (some dat) (length dat) in
      let (rb'', out, n') = try_read rb' true (length q + length dat) in
      Holds rb'' cap [] × (n ≡ length dat) × (out ≡ q ++ dat) × (n' ≡ length q + length dat)
try_read-write rb cap q dat h fits = elim (write_refines rb cap q dat h) [
  | inr (less, _, _) ↦ absurd (omega arith)
  | inl (_, held, n) ↦
      let total = length-append q dat in
      let (held', out, count) =
        try_read_refines (write rb (some dat) (length dat)).0 cap (q ++ dat) (length q + length dat)
          held in
      let all : (try_read (write rb (some dat) (length dat)).0 true (length q + length dat)).2
          ≡ length q + length dat =
        omega (arith, count, total) in
      (
        subst
            (Holds (try_read (write rb (some dat) (length dat)).0 true (length q + length dat)).0
              cap)
            (drop_all _ (q ++ dat) (omega arith)) held',
        n,
        out ∙ take_all _ (q ++ dat) (omega arith),
        all,
      )
]
