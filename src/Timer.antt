-- ===== src/Timer.antt =====
-- src/misc/timer.c: a countdown. What `os_get_time` returns, a uint32_t of milliseconds that wraps,
-- is the argument `now`; each function calls it once.
use embedded_template.Prelude.{
  ℕ, ◌+◌, ◌-◌, ◌*◌, ◌≤◌, ◌<◌, ◌≡◌, refl, Bool, true, leb, ltb, ltb→lt, ltb→le, ◌==◌, ◌⊎◌, inl, inr,
  Bool-cases, ap, sym, ◌∙◌, if◌then◌else◌, u32, arith,
}

-- `struct timer`.
pub record Timer : Type 0 where
  pub start : ℕ
  pub wait : ℕ

pub init : ℕ → Timer
init now = record { start = now; wait = 0 }

pub is_expired : ℕ → Timer → Bool
is_expired now t = leb (u32 (t.start + t.wait)) now

pub countdown_ms : ℕ → ℕ → Timer
countdown_ms now wait_ms = record { start = now; wait = wait_ms }

-- For a `wait_second` that is not negative, and whose product with 1000 an `int` holds.
pub countdown_second : ℕ → ℕ → Timer
countdown_second now wait_second = record { start = now; wait = u32 (wait_second * 1000) }

pub left_ms : ℕ → Timer → ℕ
left_ms now t =
    let elapse = u32 (now + 4294967296 - t.start) in
    if leb t.wait elapse then 0 else t.wait - elapse

-- A countdown of `wait` ms that was started at `start` and is looked at `passed` ms later, less
-- than 2^32 ms, has what the passing time leaves of it still to go, also where the 32-bit time
-- wrapped in between.
pub left_ms-countdown_ms :
    (start wait passed : ℕ)
    → start < 4294967296
    → wait < 4294967296
    → passed < 4294967296
    → left_ms (u32 (start + passed)) (countdown_ms start wait) ≡ wait - passed
unfolding left_ms countdown_ms
left_ms-countdown_ms start wait passed hs hw hp =
    let elapsed : u32 (u32 (start + passed) + 4294967296 - start) ≡ passed = omega arith in
    rw elapsed (ground arith)

expired_at :
    (now start wait : ℕ) → is_expired now (countdown_ms start wait) ≡ leb (u32 (start + wait)) now
unfolding is_expired countdown_ms
expired_at now start wait = refl

-- While the present time has not wrapped: if the time of the end does not wrap either, the timer is
-- expired exactly if nothing is left to go; if the time of the end wraps, the timer is expired
-- although there is time to go.
pub is_expired-countdown_ms :
    (start wait passed : ℕ)
    → start + passed < 4294967296
    → wait < 4294967296
    → ((start + wait < 4294967296)
        × (is_expired (start + passed) (countdown_ms start wait)
            ≡ (left_ms (start + passed) (countdown_ms start wait) == 0)))
      ⊎ ((4294967296 ≤ start + wait)
          × (is_expired (start + passed) (countdown_ms start wait) ≡ true)
          × (0 < left_ms (start + passed) (countdown_ms start wait)))
is_expired-countdown_ms start wait passed hn hw =
    let now : u32 (start + passed) ≡ start + passed = omega arith in
    let left : left_ms (start + passed) (countdown_ms start wait) ≡ wait - passed =
      ap (λ k. left_ms k (countdown_ms start wait)) (sym now)
      ∙ left_ms-countdown_ms start wait passed (omega arith) hw (omega arith) in
    elim (Bool-cases (ltb (start + wait) 4294967296)) [
      | inl early ↦
          let fits = ltb→lt _ _ early in
          let whole : u32 (start + wait) ≡ start + wait = omega arith in
          inl (fits, expired_at (start + passed) start wait ∙ rw (left, whole) (ground arith))
      | inr late ↦
          let over = ltb→le _ _ late in
          let wrapped : u32 (start + wait) ≡ start + wait - 4294967296 = omega arith in
          inr (
            over,
            expired_at (start + passed) start wait ∙ rw wrapped (ground arith),
            rw left (omega arith),
          )
    ]
