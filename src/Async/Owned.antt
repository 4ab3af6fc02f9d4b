-- ===== src/Async/Owned.antt =====
-- Where the events are: each event of the pool is in exactly one place.
use embedded_template.Prelude.{
  ℕ, ◌+◌, ◌<◌, ◌≡◌, refl, Bool-cases, inl, inr, List, [], ◌∷◌, ◌++◌, ltb, ◌==◌, ==→eq, eq→==,
  if◌then◌else◌, arith,
}
use embedded_template.Async.{
  Event, Async, add_event, Command, Layout, list_del, move_to_free, set_event, event_size,
}
use embedded_template.Async.Events.{Run}
use embedded_template.Async.Queue.{Queued}

abbrev pub count : ℕ → List ℕ → ℕ
count x [] = 0
count x (y ∷ l) = (if y == x then 1 else 0) + count x l

abbrev pub adds : ℕ → Command → ℕ
adds x c = elim c.type [ add_event ↦ (if c.event == x then 1 else 0) | _ ↦ 0 ]

-- How often the queued commands add the event `x`.
abbrev pub added : ℕ → List Command → ℕ
added x [] = 0
added x (c ∷ q) = adds x c + added x q

abbrev pub in_pool : ℕ → ℕ
in_pool x = if ltb x event_size then 1 else 0

-- The queue `q` is in the ring, and each event of the pool is in exactly one of the free list, the
-- looper's list, the additions that wait in the queue, and `held`, the events in no list while a
-- function works on them.
pub record IsAccounted (layout : Layout) (q : List Command) (held : List ℕ) (s : Async)
    : Type 0 where
  pub queued : Queued layout q s
  pub once : (x : ℕ) → count x s.free_list + count x s.events + added x q + count x held ≡ in_pool x

-- What the looper relies on in a callback: it uses the functions for other threads only. So it may
-- register, trigger, cancel and change events, but leaves the looper's list and the times alone.
pub record IsCallback (layout : Layout) (run : Run) : Type 0 where
  pub accounted :
      (cb e d : ℕ) (q : List Command) (held : List ℕ) (s : Async)
      → IsAccounted layout q held s
      → (q' : List Command) × IsAccounted layout q' held (run cb e d s).1
  pub events : (cb e d : ℕ) (s : Async) → (run cb e d s).1.events ≡ s.events
  pub times :
      (cb e d : ℕ) (s : Async) (x : ℕ)
      → ((run cb e d s).1.events_pool x).next_timestamp ≡ (s.events_pool x).next_timestamp

pub count-append : (x : ℕ) (l m : List ℕ) → count x (l ++ m) ≡ count x l + count x m
count-append x [] m = omega arith
count-append x (y ∷ l) m = omega (arith, count-append x l m)

pub added-append : (x : ℕ) (q r : List Command) → added x (q ++ r) ≡ added x q + added x r
added-append x [] r = omega arith
added-append x (c ∷ q) r = omega (arith, added-append x q r)

-- An entry that is there is taken out once.
pub count-list_del :
    (x e : ℕ) (l : List ℕ)
    → 0 < count e l
    → (if e == x then 1 else 0) + count x (list_del e l) ≡ count x l
unfolding list_del
count-list_del x e [] h = absurd (omega arith)
count-list_del x e (y ∷ l) h = elim (Bool-cases (y == e)) [
  | inl here ↦ rw (==→eq y e here) (rw (eq→== e e refl) refl)
  | inr there ↦
      let more' : 0 < 0 + count e l = rw there at h in
      let more : 0 < count e l = omega arith in rw there (omega (arith, count-list_del x e l more))
]

pub count_self : (e : ℕ) (l : List ℕ) → 0 < count e (e ∷ l)
count_self e l = rw (eq→== e e refl) (omega arith)

-- An event in the looper's list goes to the free list.
pub move_to_free-IsAccounted :
    (layout : Layout) (q : List Command) (held : List ℕ) (e : ℕ) (s : Async)
    → 0 < count e s.events
    → IsAccounted layout q held s
    → IsAccounted layout q held (move_to_free e s)
move_to_free-IsAccounted layout q held e s there a = record {
  queued = a.queued;
  once = λ x. omega (arith, a.once x, count-list_del x e s.events there);
}

pub set_event-IsAccounted :
    (layout : Layout) (q : List Command) (held : List ℕ) (e : ℕ) (ev : Event) (s : Async)
    → IsAccounted layout q held s
    → IsAccounted layout q held (set_event e ev s)
set_event-IsAccounted layout q held e ev s a = record { queued = a.queued; once = a.once }
