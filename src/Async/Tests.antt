-- ===== src/Async/Tests.antt =====
-- A looper whose commands take twelve bytes, and its theorems.
use embedded_template.Prelude.{
  ℕ, ◌≡◌, inr, refl, true, false, some, none, List, [], ◌∷◌, ◌++◌, replicate, ◌==◌, if◌then◌else◌,
  arith,
}
use embedded_template.RingBuffer.{init}
use embedded_template.Async.{
  Async, CommandType, cancel_event, trigger_call, add_event, exit, Command, Layout, time_forever,
}
use embedded_template.Async.Events.{Run, event_register, exec_timeout, event_init, event_init_loop}
use embedded_template.Async.Looper.{Tick, round, async_init, looper_init, exec_due}
use embedded_template.Async.Queue.{bytes}
use embedded_template.Async.Owned.{IsAccounted, IsCallback}
use embedded_template.Async.Calls.{Registered, registers, event_register-Registered}
use embedded_template.Async.Due.{Walked, exec_timeout-Walked}
use embedded_template.Async.Rounds.{round_loses}
use embedded_template.Async.History.{
  Action, calls_it, rounds_on, history, RoomIn, all_free, async_init-IsAccounted,
  history-async_init,
}

abbrev code_of : CommandType → ℕ
code_of cancel_event = 0
code_of trigger_call = 1
code_of add_event = 2
code_of exit = 3

abbrev type_of : ℕ → CommandType
type_of n =
    if n == 0
    then cancel_event
    else if n == 1
    then trigger_call
    else if n == 2
    then add_event
    else exit

type_of-code_of : (t : CommandType) → type_of (code_of t) ≡ t
type_of-code_of cancel_event = refl
type_of-code_of trigger_call = refl
type_of-code_of add_event = refl
type_of-code_of exit = refl

-- The type, three bytes of padding, and two words that are kept whole.
abbrev decoded : List ℕ → Command
decoded (t ∷ _ ∷ _ ∷ _ ∷ e ∷ _ ∷ _ ∷ _ ∷ d ∷ _) = record {
  type = type_of t;
  event = e;
  addition_data = d;
}
decoded _ = record { type = exit; event = 0; addition_data = 0 }

decoded_lem :
    (c : Command)
    → decoded (code_of c.type ∷ 0 ∷ 0 ∷ 0 ∷ c.event ∷ 0 ∷ 0 ∷ 0 ∷ c.addition_data ∷ 0 ∷ 0 ∷ 0 ∷ [])
      ≡ c
decoded_lem c = rw (type_of-code_of c.type) refl

abbrev twelve : Layout
twelve = record {
  size = 12;
  size_pos = omega arith;
  encode = λ c. code_of c.type ∷ 0 ∷ 0 ∷ 0 ∷ c.event ∷ 0 ∷ 0 ∷ 0 ∷ c.addition_data ∷ 0 ∷ 0 ∷ 0 ∷ [];
  decode = decoded;
  decode-encode = decoded_lem;
  length-encode = λ c. refl;
}

-- A callback with the number 0 ends its event, and any other keeps it.
abbrev simple_run : Run
simple_run cb e d s = (cb, s)

simple_run-IsCallback : IsCallback twelve simple_run
simple_run-IsCallback = record {
  accounted = λ cb e d q held s a. (q, a);
  events = λ cb e d s. refl;
  times = λ cb e d s x. refl;
}

abbrev blank : Async
blank = record {
  free_list = [];
  events = [];
  events_pool = λ x. record { cb = 0; timeout = 0; next_timestamp = 0; dat = 0 };
  rb = none;
  posts = 0;
  opened = true;
}

abbrev started : Async
started = async_init false (replicate 100 0) blank

started-IsAccounted : IsAccounted twelve [] [] started
started-IsAccounted = async_init-IsAccounted twelve (replicate 100 0) blank (omega arith) refl

event_register-Registered_example :
    Registered twelve 0 1 50 7 [] started (event_register twelve 0 1 50 7 started)
event_register-Registered_example =
    event_register-Registered twelve 0 1 50 7 [] started started-IsAccounted

-- The event 0 is the looper's, with a callback that ends it, and its time is over.
abbrev loaded : Async
loaded = record started { free_list = 9 ∷ 8 ∷ 7 ∷ 6 ∷ 5 ∷ 4 ∷ 3 ∷ 2 ∷ 1 ∷ []; events = 0 ∷ [] }

loaded-IsAccounted : IsAccounted twelve [] [] loaded
loaded-IsAccounted = record {
  queued = started-IsAccounted.queued;
  once = λ x. omega (arith, all_free x);
}

exec_timeout-Walked_example : Walked twelve (exec_timeout simple_run 5 loaded)
exec_timeout-Walked_example =
    exec_timeout-Walked twelve simple_run simple_run-IsCallback 5 [] loaded loaded-IsAccounted

abbrev add : ℕ → Command
add e = record { type = add_event; event = e; addition_data = 0 }

-- Eight additions wait: 96 of the 100 bytes.
abbrev waiting : List Command
waiting = add 0 ∷ add 1 ∷ add 2 ∷ add 3 ∷ add 4 ∷ add 5 ∷ add 6 ∷ add 7 ∷ []

abbrev crowded : Async
crowded = record started {
  free_list = 9 ∷ 8 ∷ [];
  rb = some (record {
    cap = 100;
    len = 96;
    in_pos = 96;
    out_pos = 0;
    buf = bytes twelve waiting ++ 0 ∷ 0 ∷ 0 ∷ 0 ∷ [];
  });
  posts = 8;
}

crowded-IsAccounted : IsAccounted twelve waiting [] crowded
unfolding async_init event_init event_init_loop looper_init
crowded-IsAccounted = record {
  queued = (omega arith, refl, refl);
  once = λ x. omega (arith, all_free x);
}

abbrev tick : Tick
tick = record { now = 5; now_exec = 5; now_after = 5; now_command = 6; pended = true }

round_loses_example :
    IsAccounted twelve []
      (0 ∷ 1 ∷ 2 ∷ 3 ∷ 4 ∷ 5 ∷ 6 ∷ 7 ∷ [])
      (round twelve simple_run tick time_forever crowded).2
round_loses_example =
    round_loses twelve (omega arith) simple_run simple_run-IsCallback tick time_forever waiting
      crowded refl (omega arith) crowded-IsAccounted (omega arith)

-- A round on the empty queue, and a registration.
abbrev acts : List Action
acts = rounds_on tick ∷ calls_it (registers 0 1 50 7) ∷ []

acts-RoomIn : RoomIn twelve simple_run acts time_forever started
unfolding init async_init exec_due looper_init event_init event_init_loop
acts-RoomIn = (inr (init (replicate 100 0) 100, refl, omega arith), tt)

history-async_init_example :
    (q : List Command) × IsAccounted twelve q []
      (history twelve simple_run acts time_forever started).1
history-async_init_example =
    history-async_init twelve simple_run (replicate 100 0) acts blank (omega arith)
      simple_run-IsCallback (omega arith) refl acts-RoomIn
