-- ===== src/Async/Events.antt =====
-- src/async/event.c. A callback is run by the parameter `run`, which takes what the callback's
-- number, the event and the additional data are, and returns the callback's answer and the state
-- after it. The time that a function reads is its argument `now`. The mutexes are not modelled: a
-- function is taken to run without another one in between.
use embedded_template.Prelude.{
  ℕ, zero, suc, ◌+◌, ◌==◌, Bool, true, false, Option, none, some, List, [], ◌∷◌, ◌++◌, ltb,
  if◌then◌else◌, u32,
}
use embedded_template.Async.{
  Async, event_size, time_forever, addition_data_timeout, cancel_event, trigger_call, add_event,
  Layout, move_to_free, set_event, set_next_timestamp, notify_loop,
}

abbrev pub Run : Type 0
Run = ℕ → ℕ → ℕ → Async → ℕ × Async

-- The loop of `async_event_init` from the index `i` on, with the rounds left.
unfoldable pub event_init_loop : ℕ → ℕ → Async → Async
event_init_loop zero i s = s
event_init_loop (suc n) i s = event_init_loop n (i + 1) (record s { free_list = i ∷ s.free_list })

unfoldable pub event_init : Async → Async
event_init s = event_init_loop event_size 0 s

-- The part of `async_event_register` that works on the entry `ret`, with `rest` behind it in the free
-- list. The command's data is not set: `garbage` is what it holds.
unfoldable pub register_entry : Layout → ℕ → ℕ → ℕ → ℕ → ℕ → List ℕ → Async → Option ℕ × Async
register_entry layout garbage cb timeout dat ret rest s =
    let ev = record (s.events_pool ret) { cb = cb; dat = dat; timeout = timeout } in
    let s1 = set_event ret ev (record s { free_list = rest }) in
    let (sent, s2) =
      notify_loop layout (record { type = add_event; event = ret; addition_data = garbage }) s1 in
    if sent then (some ret, s2) else (none, record s2 { free_list = ret ∷ s2.free_list })

unfoldable pub event_register : Layout → ℕ → ℕ → ℕ → ℕ → Async → Option ℕ × Async
event_register layout garbage cb timeout dat s = elim s.free_list [
  | [] ↦ (none, s)
  | ret ∷ rest ↦ register_entry layout garbage cb timeout dat ret rest s
]

-- The walk over the entries that are left, with the earliest time so far. The next entry is read
-- before the callback runs, so the walk is over the list as it was.
unfoldable pub exec_timeout_loop : Run → ℕ → List ℕ → ℕ → Async → ℕ × Async
exec_timeout_loop run now [] most_recent_time s = (most_recent_time, s)
exec_timeout_loop run now (event ∷ rest) most_recent_time s =
    elim (ltb now (s.events_pool event).next_timestamp) [
      | true ↦
          let t = (s.events_pool event).next_timestamp in
          exec_timeout_loop run now rest (if ltb t most_recent_time then t else most_recent_time) s
      | false ↦
          let (rc, s1) = run (s.events_pool event).cb event addition_data_timeout s in
          elim (rc == 0) [
            | true ↦ exec_timeout_loop run now rest most_recent_time (move_to_free event s1)
            | false ↦
                let t = u32 (now + (s1.events_pool event).timeout) in
                exec_timeout_loop run now rest
                  (if ltb t most_recent_time then t else most_recent_time)
                  (set_next_timestamp event t s1)
          ]
    ]

unfoldable pub exec_timeout : Run → ℕ → Async → ℕ × Async
exec_timeout run now s = exec_timeout_loop run now s.events time_forever s

-- The walk looks for the event and stops at it.
unfoldable pub exec_trigger_loop : Run → ℕ → ℕ → ℕ → List ℕ → Async → ℕ × Async
exec_trigger_loop run now event addition_data [] s = (time_forever, s)
exec_trigger_loop run now event addition_data (pos ∷ rest) s = elim (pos == event) [
  | false ↦ exec_trigger_loop run now event addition_data rest s
  | true ↦
      let (rc, s1) = run (s.events_pool event).cb event addition_data s in
      elim (rc == 0) [
        | true ↦ (time_forever, move_to_free event s1)
        | false ↦
            let t = u32 (now + (s1.events_pool event).timeout) in (t, set_next_timestamp event t s1)
      ]
]

unfoldable pub exec_trigger : Run → ℕ → ℕ → ℕ → Async → ℕ × Async
exec_trigger run now event addition_data s =
    exec_trigger_loop run now event addition_data s.events s

unfoldable pub event_trigger : Layout → ℕ → ℕ → Async → Bool × Async
event_trigger layout event addition_data s =
    notify_loop layout
      (record { type = trigger_call; event = event; addition_data = addition_data }) s

-- The part of `async_event_add_to_looper_event_list` behind the first call of the callback.
unfoldable pub add_answered : ℕ → ℕ → ℕ → Async → ℕ × Async
add_answered now event rc s = elim (rc == 0) [
  | true ↦ (time_forever, record s { free_list = event ∷ s.free_list })
  | false ↦
      let t = u32 (now + (s.events_pool event).timeout) in
      (t, let s1 = set_next_timestamp event t s in record s1 { events = event ∷ s1.events })
]

unfoldable pub add_to_looper_event_list : Run → ℕ → ℕ → Async → ℕ × Async
add_to_looper_event_list run now event s = elim ((s.events_pool event).timeout == 0) [
  | true ↦
      let (rc, s1) = run (s.events_pool event).cb event addition_data_timeout s in
      add_answered now event rc s1
  | false ↦ add_answered now event 1 s
]

unfoldable pub free_from_loop : ℕ → List ℕ → Async → Async
free_from_loop event [] s = s
free_from_loop event (pos ∷ rest) s = elim (pos == event) [
  | true ↦ move_to_free event s
  | false ↦ free_from_loop event rest s
]

unfoldable pub free_from_looper_event_list : ℕ → Async → Async
free_from_looper_event_list event s = free_from_loop event s.events s

-- `list_splice_init` puts the looper's events in front of the free ones.
unfoldable pub free_all : Async → Async
free_all s = record s { free_list = s.events ++ s.free_list; events = [] }

unfoldable pub set_callback : ℕ → ℕ → Async → Async
set_callback event cb s = set_event event (record (s.events_pool event) { cb = cb }) s

unfoldable pub set_timeout : ℕ → ℕ → Async → Async
set_timeout event timeout s = set_event event (record (s.events_pool event) { timeout = timeout }) s

unfoldable pub set_data : ℕ → ℕ → Async → Async
set_data event dat s = set_event event (record (s.events_pool event) { dat = dat }) s

unfoldable pub get_data : ℕ → Async → ℕ
get_data event s = (s.events_pool event).dat

unfoldable pub event_cancel : Layout → ℕ → ℕ → Async → Bool × Async
event_cancel layout garbage event s =
    notify_loop layout (record { type = cancel_event; event = event; addition_data = garbage }) s
