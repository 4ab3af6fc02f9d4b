-- ===== src/Async/Looper.antt =====
-- src/async/looper.c and async.c. What the platform answers in a round of the loop is in `Tick`.
use embedded_template.Prelude.{
  ℕ, ◌-◌, ◌==◌, Bool, true, false, some, List, [], ◌∷◌, leb, ltb, if◌then◌else◌,
}
use embedded_template.RingBuffer.{init, clear, read}
use embedded_template.Async.{
  Async, time_forever, cancel_event, trigger_call, add_event, exit, Command, Layout, notify_loop,
}
use embedded_template.Async.Events.{
  Run, event_init, exec_timeout, exec_trigger, add_to_looper_event_list,
  free_from_looper_event_list, free_all,
}

-- The readings of `os_get_time` in a round: at its start, by `async_event_exec_timeout`, after it,
-- and by what a command calls; and whether `os_pend_sem` got the semaphore.
pub record Tick : Type 0 where
  pub now : ℕ
  pub now_exec : ℕ
  pub now_after : ℕ
  pub now_command : ℕ
  pub pended : Bool

-- The looper's list is empty, and its ring is set to the array `buf` of 100 bytes.
unfoldable pub looper_init : List ℕ → Async → Async
looper_init buf s = record s { events = []; rb = some (init buf 100) }

-- The looper, if the mutex and the semaphore could be created and were not there yet.
unfoldable pub looper_create : Bool → Bool → Async → Bool × Async
looper_create got_lock got_sem s =
    if s.opened
    then (false, s)
    else if got_lock
    then (if got_sem then (true, record s { opened = true }) else (false, s))
    else (false, s)

unfoldable pub looper_exit : Layout → ℕ → ℕ → Async → Bool × Async
looper_exit layout garbage garbage' s =
    notify_loop layout (record { type = exit; event = garbage; addition_data = garbage' }) s

-- `if (timestamp < next_timestamp) next_timestamp = timestamp;`
abbrev pub earlier : ℕ → ℕ → ℕ
earlier timestamp next_timestamp =
    if ltb timestamp next_timestamp then timestamp else next_timestamp

-- The part of a round behind the read of the command: whether the loop ends, the new
-- `next_timestamp` and the state.
unfoldable pub exec_command : Run → ℕ → Command → ℕ → Async → Bool × ℕ × Async
exec_command run now cmd next_timestamp s = elim cmd.type [
  | trigger_call ↦
      let (t, s') = exec_trigger run now cmd.event cmd.addition_data s in
      (false, earlier t next_timestamp, s')
  | add_event ↦
      let (t, s') = add_to_looper_event_list run now cmd.event s in
      (false, earlier t next_timestamp, s')
  | cancel_event ↦ (false, next_timestamp, free_from_looper_event_list cmd.event s)
  | exit ↦ (true, next_timestamp, record (free_all s) { opened = false; posts = 0 })
]

-- The part of a round behind `os_pend_sem`, which took one from the semaphore.
unfoldable pub take_command : Layout → Run → ℕ → ℕ → Async → Bool × ℕ × Async
take_command layout run now next_timestamp s =
    let (rb', cmd, ret) = read s.rb true layout.size in
    if layout.size == ret
    then exec_command run now (layout.decode cmd) next_timestamp (record s { rb = rb' })
    else (false, next_timestamp, record s { rb = clear rb'; posts = 0 })

-- The first lines of a round.
unfoldable pub exec_due : Run → Tick → ℕ → Async → ℕ × Async
exec_due run tick next_timestamp s =
    if leb next_timestamp tick.now then exec_timeout run tick.now_exec s else (next_timestamp, s)

-- `diff`, the time that `os_pend_sem` waits at most.
unfoldable pub wait_time : Tick → ℕ → ℕ → ℕ
wait_time tick before next_timestamp =
    let now = if leb before tick.now then tick.now_after else tick.now in
    if leb next_timestamp now then 1 else next_timestamp - now

-- One round of the loop of `async_looper_loop`.
unfoldable pub round : Layout → Run → Tick → ℕ → Async → Bool × ℕ × Async
round layout run tick next_timestamp s =
    let (next', s1) = exec_due run tick next_timestamp s in
    if tick.pended
    then take_command layout run tick.now_command next' (record s1 { posts = s1.posts - 1 })
    else (false, next', s1)

-- `async_looper_loop` over the rounds that the list gives; the flag says that it returned.
unfoldable pub looper_rounds : Layout → Run → List Tick → ℕ → Async → Bool × ℕ × Async
looper_rounds layout run [] next_timestamp s = (false, next_timestamp, s)
looper_rounds layout run (tick ∷ ticks) next_timestamp s =
    let (done, next', s') = round layout run tick next_timestamp s in
    elim done [ true ↦ (true, next', s') | false ↦ looper_rounds layout run ticks next' s' ]

unfoldable pub looper_loop : Layout → Run → List Tick → Async → Bool × ℕ × Async
looper_loop layout run ticks s = looper_rounds layout run ticks time_forever s

-- `async_init`, which does nothing once `async_g_lock` is there.
unfoldable pub async_init : Bool → List ℕ → Async → Async
async_init has_lock buf s = if has_lock then s else event_init (looper_init buf s)
