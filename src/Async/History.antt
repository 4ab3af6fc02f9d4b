-- ===== src/Async/History.antt =====
-- Whole histories of a looper, from async_init on.
use embedded_template.Prelude.{
  ℕ, ◌≤◌, ◌≡◌, ◌⊎◌, ap, Bool-cases, inl, inr, true, false, List, [], ◌∷◌, length, arith,
}
use embedded_template.RingBuffer.Invariant.{init-Holds}
use embedded_template.Async.{Async, Command, Layout, time_forever}
use embedded_template.Async.Events.{Run, event_init, event_init_loop}
use embedded_template.Async.Looper.{Tick, round, looper_init, async_init}
use embedded_template.Async.Owned.{count, in_pool, IsAccounted, IsCallback}
use embedded_template.Async.Calls.{Call, after_call, after_call-IsAccounted}
use embedded_template.Async.Rounds.{HasRoom, at_read, round-IsAccounted}

-- What happens to a looper: calls of other threads, and rounds of its loop.
pub data Action : Type 0 where
  calls_it : Call → Action
  rounds_on : Tick → Action

-- The actions one after the other, up to a round in which the loop returns.
abbrev pub history : Layout → Run → List Action → ℕ → Async → ℕ × Async
history layout run [] next_timestamp s = (next_timestamp, s)
history layout run (calls_it call ∷ acts) next_timestamp s =
    history layout run acts next_timestamp (after_call layout call s)
history layout run (rounds_on tick ∷ acts) next_timestamp s =
    let (done, next', s') = round layout run tick next_timestamp s in
    elim done [ true ↦ (next', s') | false ↦ history layout run acts next' s' ]

-- Each round of it that gets the semaphore finds room for one more command.
abbrev pub RoomIn : Layout → Run → List Action → ℕ → Async → Type 0
RoomIn layout run [] next_timestamp s = Unit {0}
RoomIn layout run (calls_it call ∷ acts) next_timestamp s =
    RoomIn layout run acts next_timestamp (after_call layout call s)
RoomIn layout run (rounds_on tick ∷ acts) next_timestamp s =
    ((tick.pended ≡ false) ⊎ HasRoom layout (at_read run tick next_timestamp s))
    × RoomIn layout run acts (round layout run tick next_timestamp s).1
        (round layout run tick next_timestamp s).2

pub history-IsAccounted :
    (layout : Layout) (run : Run) (acts : List Action) (next_timestamp : ℕ) (q : List Command)
    (s : Async)
    → layout.size ≤ 100
    → IsCallback layout run
    → RoomIn layout run acts next_timestamp s
    → IsAccounted layout q [] s
    → (q' : List Command) × IsAccounted layout q' [] (history layout run acts next_timestamp s).1
history-IsAccounted layout run [] next_timestamp q s small calls room a = (q, a)
history-IsAccounted layout run (calls_it call ∷ acts) next_timestamp q s small calls room a =
    let (q', a') = after_call-IsAccounted layout call q s a in
    history-IsAccounted layout run acts next_timestamp q' (after_call layout call s) small calls
      room a'
history-IsAccounted layout run (rounds_on tick ∷ acts) next_timestamp q s small calls (here, room)
      a =
    let (q', a') = round-IsAccounted layout small run calls tick next_timestamp q s a here in
    elim (Bool-cases (round layout run tick next_timestamp s).0) [
      | inl returned ↦ rw (returned, history) (q', a')
      | inr goes_on ↦
          rw (goes_on, history) (history-IsAccounted layout run acts _ q' _ small calls room a')
    ]

pub all_free : (x : ℕ) → count x (9 ∷ 8 ∷ 7 ∷ 6 ∷ 5 ∷ 4 ∷ 3 ∷ 2 ∷ 1 ∷ 0 ∷ []) ≡ in_pool x
all_free x = ground arith

pub async_init-IsAccounted :
    (layout : Layout) (buf : List ℕ) (s : Async)
    → 100 ≤ length buf
    → s.free_list ≡ []
    → IsAccounted layout [] [] (async_init false buf s)
unfolding async_init event_init event_init_loop looper_init
async_init-IsAccounted layout buf s long none_yet = record {
  queued = init-Holds buf 100 (omega arith) (omega arith) long;
  once = λ x. omega (arith, all_free x, ap (count x) none_yet);
}

-- From `async_init` on, any history of calls and rounds in which the reads of commands find room
-- leaves each event of the pool in exactly one place: free, among the looper's, or queued to be
-- added. The callbacks use the functions for other threads only, and a command takes at most 100
-- bytes.
pub history-async_init :
    (layout : Layout) (run : Run) (buf : List ℕ) (acts : List Action) (s : Async)
    → layout.size ≤ 100
    → IsCallback layout run
    → 100 ≤ length buf
    → s.free_list ≡ []
    → RoomIn layout run acts time_forever (async_init false buf s)
    → (q : List Command) × IsAccounted layout q []
        (history layout run acts time_forever (async_init false buf s)).1
history-async_init layout run buf acts s small calls long none_yet room =
    history-IsAccounted layout run acts time_forever [] (async_init false buf s) small calls room
      (async_init-IsAccounted layout buf s long none_yet)
