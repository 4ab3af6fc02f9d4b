-- ===== src/Async.antt =====
-- src/async: events that a looper runs when they are triggered or when their time is over. This file
-- has the state (event.c, looper.c, private.h, for ASYNC_LOOPER_SIZE 1) and the commands' queue.
pub mod Events
pub mod Looper
pub mod Owned
pub mod Queue
pub mod Calls
pub mod Due
pub mod Commands
pub mod Rounds
pub mod History
mod Tests
use embedded_template.Prelude.{
  ℕ, ◌+◌, ◌<◌, ◌≡◌, Bool, true, false, Option, some, none, List, [], ◌∷◌, length, ◌==◌,
  if◌then◌else◌,
}
use embedded_template.RingBuffer.{RingBuffer, write}

-- `struct async_event`, less its links. The callback is a number, which says what function it is.
pub record Event : Type 0 where
  pub cb : ℕ
  pub timeout : ℕ
  pub next_timestamp : ℕ
  pub dat : ℕ

-- The two lists hold events by their index in the pool, in the order of their links. `rb` lies in
-- the looper, so the pointer to it is never NULL. `posts` counts what the semaphore holds, and
-- `opened` says that the looper's lock and semaphore are there.
pub record Async : Type 0 where
  pub free_list : List ℕ
  pub events : List ℕ
  pub events_pool : ℕ → Event
  pub rb : Option RingBuffer
  pub posts : ℕ
  pub opened : Bool

abbrev pub event_size : ℕ
event_size = 10

abbrev pub time_forever : ℕ
time_forever = 0xffffffff

-- `ASYNC_EVENT_ADDITION_DATA_TIMEOUT`.
abbrev pub addition_data_timeout : ℕ
addition_data_timeout = 0xffffffff

pub data CommandType : Type 0 where
  cancel_event : CommandType
  trigger_call : CommandType
  add_event : CommandType
  exit : CommandType

-- `struct async_looper_command`.
pub record Command : Type 0 where
  pub type : CommandType
  pub event : ℕ
  pub addition_data : ℕ

-- How the compiler lays a command out in bytes.
pub record Layout : Type 0 where
  pub size : ℕ
  pub size_pos : 0 < size
  pub encode : Command → List ℕ
  pub decode : List ℕ → Command
  pub decode-encode : (c : Command) → decode (encode c) ≡ c
  pub length-encode : (c : Command) → length (encode c) ≡ size

-- What a list of src/misc/list.h is after `list_del` of an entry.
unfoldable pub list_del : ℕ → List ℕ → List ℕ
list_del e [] = []
list_del e (x ∷ l) = if x == e then l else x ∷ list_del e l

-- `list_move` to the free list, from the list of the looper.
abbrev pub move_to_free : ℕ → Async → Async
move_to_free e s = record s { events = list_del e s.events; free_list = e ∷ s.free_list }

abbrev pub set_event : ℕ → Event → Async → Async
set_event e ev s = record s { events_pool = λ x. if x == e then ev else s.events_pool x }

-- `event->next_timestamp = t`.
abbrev pub set_next_timestamp : ℕ → ℕ → Async → Async
set_next_timestamp e t s = set_event e (record (s.events_pool e) { next_timestamp = t }) s

-- The answer of `os_post_sem` is taken to be 1.
unfoldable pub notify_loop : Layout → Command → Async → Bool × Async
notify_loop layout c s =
    let (rb', ret) = write s.rb (some (layout.encode c)) layout.size in
    if ret == layout.size
    then (true, record s { rb = rb'; posts = s.posts + 1 })
    else (false, record s { rb = rb' })
