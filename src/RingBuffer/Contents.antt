-- ===== src/RingBuffer/Contents.antt =====
-- The bytes that a ring holds, oldest first, and what a write just behind them does.
use embedded_template.Prelude.{
  ℕ, zero, suc, ◌+◌, ◌-◌, ◌≤◌, ◌<◌, ◌≡◌, refl, sym, ap, ◌∙◌, ◌≢◌, List, [], ◌∷◌, ◌++◌, length,
  get_or, set, get_or-set_self, get_or-set_ne, ltb, if◌then◌else◌, arith,
}
use embedded_template.RingBuffer.{RingBuffer, next}

-- The `n` bytes from position `i` on, going round at `cap`.
abbrev pub stored : List ℕ → ℕ → ℕ → ℕ → List ℕ
stored buf cap i zero = []
stored buf cap i (suc n) = get_or buf i 0 ∷ stored buf cap (next cap i) n

abbrev pub contents : RingBuffer → List ℕ
contents r = stored r.buf r.cap r.out_pos r.len

-- The position `n` places behind `i`.
abbrev pub slot : ℕ → ℕ → ℕ → ℕ
slot cap i n = if ltb (i + n) cap then i + n else i + n - cap

pub length-stored : (buf : List ℕ) (cap i n : ℕ) → length (stored buf cap i n) ≡ n
length-stored buf cap i zero = refl
length-stored buf cap i (suc n) = ap suc (length-stored buf cap (next cap i) n)

pub slot-next :
    (cap i n : ℕ) → cap < 65536 → i < cap → n < cap → slot cap (next cap i) n ≡ slot cap i (suc n)
slot-next cap i n hc hi hn = ground arith

slot-ne : (cap i n : ℕ) → i < cap → suc n < cap → slot cap i (suc n) ≢ i
slot-ne cap i n hi hn = ground arith

pub next-lt : (cap i : ℕ) → cap < 65536 → i < cap → next cap i < cap
next-lt cap i hc hi = ground arith

pub next-slot :
    (cap i n : ℕ) → cap < 65536 → i < cap → n < cap → next cap (slot cap i n) ≡ slot cap i (n + 1)
next-slot cap i n hc hi hn = ground arith

-- Writing just behind the `n` bytes extends them by the byte written.
pub stored-set :
    (buf : List ℕ) (cap i n x j : ℕ)
    → cap ≤ length buf
    → cap < 65536
    → i < cap
    → n < cap
    → j ≡ slot cap i n
    → stored (set buf j x) cap i (suc n) ≡ stored buf cap i n ++ x ∷ []
stored-set buf cap i zero x j hs hc hi hn e =
    let at_i : j ≡ i = ground arith in
    rw at_i (ap (λ y. y ∷ []) (get_or-set_self buf i x 0 (omega arith)))
stored-set buf cap i (suc n) x j hs hc hi hn e =
    let apart : j ≢ i = λ p. slot-ne cap i n hi hn (sym e ∙ p) in
    rw (get_or-set_ne buf j i x 0 apart) (
      ap (λ r. get_or buf i 0 ∷ r)
        (stored-set buf cap (next cap i) n x j hs hc (next-lt cap i hc hi) (omega arith)
          (e ∙ sym (slot-next cap i n hc hi (omega arith)))))
