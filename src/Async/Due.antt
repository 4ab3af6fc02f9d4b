-- ===== src/Async/Due.antt =====
-- async_event_exec_timeout: which events run, where they go, and the time that is returned.
use embedded_template.Prelude.{
  ℕ, ◌+◌, ◌≤◌, ◌<◌, ◌≡◌, refl, sym, subst, Bool-cases, inl, inr, List, [], ◌∷◌, ltb, ◌==◌, eq→==,
  ==→eq, ==→ne, ne→==, if◌then◌else◌, u32, arith,
}
use embedded_template.Async.{
  Async, time_forever, addition_data_timeout, Command, Layout, list_del, move_to_free,
  set_next_timestamp,
}
use embedded_template.Async.Events.{Run, exec_timeout_loop, exec_timeout}
use embedded_template.Async.Owned.{
  count_self, count, IsAccounted, IsCallback, count-list_del, move_to_free-IsAccounted,
  set_event-IsAccounted,
}

-- No event of the looper is due before `t`, but for those in `rest`.
abbrev pub NoneBefore : ℕ → List ℕ → Async → Type 0
NoneBefore t rest s =
    (x : ℕ) → 0 < count x s.events → count x rest ≡ 0 → t ≤ (s.events_pool x).next_timestamp

-- The entries that are left to walk over are in the looper's list.
abbrev pub IsWithin : List ℕ → Async → Type 0
IsWithin rest s = (x : ℕ) → count x rest ≤ count x s.events

abbrev pub min_of : ℕ → ℕ → ℕ
min_of t most = if ltb t most then t else most

min_of_bounds : (t most : ℕ) → (min_of t most ≤ t) × (min_of t most ≤ most)
min_of_bounds t most = ground arith

once_at_most :
    (layout : Layout) (q : List Command) (held : List ℕ) (s : Async) (x : ℕ)
    → IsAccounted layout q held s
    → count x s.events ≤ 1
once_at_most layout q held s x a = ground (arith, a.once x)

skip_NoneBefore :
    (most e : ℕ) (rest : List ℕ) (s : Async)
    → NoneBefore most (e ∷ rest) s
    → NoneBefore (min_of (s.events_pool e).next_timestamp most) rest s
skip_NoneBefore most e rest s before x there visited = elim (Bool-cases (e == x)) [
  | inl here ↦
      subst (λ k. min_of (s.events_pool e).next_timestamp most ≤ (s.events_pool k).next_timestamp)
        (==→eq e x here) (min_of_bounds (s.events_pool e).next_timestamp most).0
  | inr other ↦
      let apart : count x (e ∷ rest) ≡ 0 = rw other (omega arith) in
      omega (arith, before x there apart, min_of_bounds (s.events_pool e).next_timestamp most)
]

-- The event was moved: it is not among the looper's any more.
move_NoneBefore :
    (most e : ℕ) (rest : List ℕ) (s : Async)
    → 0 < count e s.events
    → count e s.events ≤ 1
    → NoneBefore most (e ∷ rest) s
    → NoneBefore most rest (move_to_free e s)
move_NoneBefore most e rest s here single before x there visited = elim (Bool-cases (e == x)) [
  | inl same ↦
      let gone = count-list_del x e s.events here in
      let e_x : e ≡ x = ==→eq e x same in
      let one : count x s.events ≤ 1 = subst (λ k. count k s.events ≤ 1) e_x single in
      let taken : 1 + count x (list_del e s.events) ≡ count x s.events = rw same at gone in
      absurd (omega arith)
  | inr other ↦
      let gone = count-list_del x e s.events here in
      let kept : 0 + count x (list_del e s.events) ≡ count x s.events = rw other at gone in
      let apart : count x (e ∷ rest) ≡ 0 = rw other (omega arith) in before x (omega arith) apart
]

move_IsWithin :
    (e : ℕ) (rest : List ℕ) (s : Async)
    → 0 < count e s.events
    → IsWithin (e ∷ rest) s
    → IsWithin rest (move_to_free e s)
move_IsWithin e rest s here within x = omega (arith, within x, count-list_del x e s.events here)

-- The event got a new time.
set_NoneBefore :
    (most e t : ℕ) (rest : List ℕ) (s : Async)
    → NoneBefore most (e ∷ rest) s
    → NoneBefore (min_of t most) rest (set_next_timestamp e t s)
set_NoneBefore most e t rest s before x there visited = elim (Bool-cases (e == x)) [
  | inl same ↦ rw (eq→== x e (sym (==→eq e x same))) (min_of_bounds t most).0
  | inr other ↦
      let apart : count x (e ∷ rest) ≡ 0 = rw other (omega arith) in
      rw (ne→== x e (λ h. ==→ne e x other (sym h)))
        (omega (arith, before x there apart, min_of_bounds t most))
]

-- How the walk ends: the events are accounted for, and none is due before the time returned.
pub record Walked (layout : Layout) (result : ℕ × Async) : Type 0 where
  pub queue : List Command
  pub accounted : IsAccounted layout queue [] result.1
  pub none_before :
      (x : ℕ) → 0 < count x result.1.events → result.0 ≤ (result.1.events_pool x).next_timestamp

module _ (layout : Layout) (run : Run) (calls : IsCallback layout run) where
  run_NoneBefore :
      (cb e d most : ℕ) (rest : List ℕ) (s : Async)
      → NoneBefore most rest s
      → NoneBefore most rest (run cb e d s).1
  run_NoneBefore cb e d most rest s before x there visited =
      subst (λ t. most ≤ t) (sym (calls.times cb e d s x))
        (before x (subst (λ l. 0 < count x l) (calls.events cb e d s) there) visited)

  pub run_IsWithin :
      (cb e d : ℕ) (rest : List ℕ) (s : Async) → IsWithin rest s → IsWithin rest (run cb e d s).1
  run_IsWithin cb e d rest s within x =
      subst (λ l. count x rest ≤ count x l) (sym (calls.events cb e d s)) (within x)

  pub first_there :
      (e : ℕ) (rest : List ℕ) (s : Async) → IsWithin (e ∷ rest) s → 0 < count e s.events
  first_there e rest s within = omega (arith, count_self e rest, within e)

  exec_timeout_loop-Walked :
      (now most : ℕ) (rest : List ℕ) (q : List Command) (s : Async)
      → IsAccounted layout q [] s
      → IsWithin rest s
      → NoneBefore most rest s
      → Walked layout (exec_timeout_loop run now rest most s)
  unfolding exec_timeout_loop
  exec_timeout_loop-Walked now most [] q s a within before = record {
    queue = q;
    accounted = a;
    none_before = λ x there. before x there refl;
  }
  exec_timeout_loop-Walked now most (e ∷ rest) q s a within before =
      elim (Bool-cases (ltb now (s.events_pool e).next_timestamp)) [
        | inl later ↦
            rw (later, exec_timeout_loop)
              (exec_timeout_loop-Walked now (min_of (s.events_pool e).next_timestamp most) rest q s
                a (λ x. omega (arith, within x)) (skip_NoneBefore most e rest s before))
        | inr due ↦
            let cb = (s.events_pool e).cb in
            let s1 = (run cb e addition_data_timeout s).1 in
            let (q', a1) = calls.accounted cb e addition_data_timeout q [] s a in
            let within1 = run_IsWithin cb e addition_data_timeout (e ∷ rest) s within in
            let before1 = run_NoneBefore cb e addition_data_timeout most (e ∷ rest) s before in
            let there = first_there e rest s1 within1 in
            elim (Bool-cases ((run cb e addition_data_timeout s).0 == 0)) [
              | inl ends ↦
                  rw (due, ends, exec_timeout_loop)
                    (exec_timeout_loop-Walked now most rest q' (move_to_free e s1)
                      (move_to_free-IsAccounted layout q' [] e s1 there a1)
                      (move_IsWithin e rest s1 there within1)
                      (move_NoneBefore most e rest s1 there (once_at_most layout q' [] s1 e a1)
                        before1))
              | inr stays ↦
                  let t = u32 (now + (s1.events_pool e).timeout) in
                  rw (due, stays, exec_timeout_loop)
                    (exec_timeout_loop-Walked now (min_of t most) rest q'
                      (set_next_timestamp e t s1) (set_event-IsAccounted layout q' [] e _ s1 a1)
                      (λ x. omega (arith, within1 x)) (set_NoneBefore most e t rest s1 before1))
            ]
      ]

  -- With callbacks that use the functions for other threads only, the walk over the looper's events
  -- leaves each event of the pool in exactly one place, and returns a time before which none of the
  -- events that stay is due.
  pub exec_timeout-Walked :
      (now : ℕ) (q : List Command) (s : Async)
      → IsAccounted layout q [] s
      → Walked layout (exec_timeout run now s)
  unfolding exec_timeout
  exec_timeout-Walked now q s a =
      exec_timeout_loop-Walked now time_forever s.events q s a (λ x. omega arith)
        (λ x there gone. absurd (omega (arith, there, gone)))
