-- ===== src/Atcmd/Line.antt =====
-- src/atcmd/atcmd.c: the sending side's view of the serial line, and atcmd_exec_command with what it
-- calls. What arrives while the code waits is an argument: a list of waits, each with the bytes that
-- the interrupt takes in it. The clock goes on in waits alone.
use embedded_template.Prelude.{
  ℕ, zero, suc, ◌+◌, ◌-◌, Bool, true, false, Option, none, some, List, [], ◌∷◌, ◌++◌, length, drop,
  ltb, if◌then◌else◌, u32,
}
use embedded_template.RingBuffer.{init, clear}
use embedded_template.RingBuffer.Strings.{read_string_and_is_with_prefix}
use embedded_template.Atcmd.{Atcmd, serial_recv_serial_default}
use embedded_template.Atcmd.Receive.{recv_all}

-- The bytes that come in during a wait, each with its time, and how long the wait lasted if it was
-- ended by the semaphore.
pub record Wait : Type 0 where
  pub arrived : List (ℕ × ℕ)
  pub elapsed : ℕ

-- The engine, what it passed to `serial_send`, the clock, and the waits to come: behind the last of
-- them nothing arrives. The semaphore's count is `atcmd.posts`.
pub record Line : Type 0 where
  pub atcmd : Atcmd
  pub sent : List ℕ
  pub now : ℕ
  pub feed : List Wait

abbrev pub arrived_in : List Wait → List (ℕ × ℕ)
arrived_in [] = []
arrived_in (w ∷ ws) = w.arrived

abbrev pub elapsed_in : List Wait → ℕ
elapsed_in [] = 0
elapsed_in (w ∷ ws) = w.elapsed

abbrev pub waits_after : List Wait → List Wait
waits_after [] = []
waits_after (w ∷ ws) = ws

-- `os_pend_sem`: it takes a count that is there at once, and waits for one otherwise.
unfoldable pub pend_sem : ℕ → Line → Line × Bool
pend_sem ms l =
    if ltb 0 l.atcmd.posts
    then (record l { atcmd = record l.atcmd { posts = l.atcmd.posts - 1 } }, true)
    else let a = recv_all (arrived_in l.feed) l.atcmd in
      if ltb 0 a.posts
      then (
        record l {
          atcmd = record a { posts = a.posts - 1 };
          now = u32 (l.now + elapsed_in l.feed);
          feed = waits_after l.feed;
        },
        true,
      )
      else (record l { atcmd = a; now = u32 (l.now + ms); feed = waits_after l.feed }, false)

-- `os_sleep`
unfoldable pub sleep : ℕ → Line → Line
sleep ms l = record l {
  atcmd = recv_all (arrived_in l.feed) l.atcmd;
  now = u32 (l.now + ms);
  feed = waits_after l.feed;
}

-- `send_string`, `send_byte` and `send_bytes`: the bytes go to `serial_send`.
unfoldable pub send : List ℕ → Line → Line
send s l = record l { sent = l.sent ++ s }

unfoldable pub clear_recv_buffer : Line → Line
clear_recv_buffer l = record l { atcmd = record l.atcmd { rb = clear l.atcmd.rb; posts = 0 } }

-- The fields that `atcmd_init` does not set keep their values.
unfoldable pub atcmd_init : List ℕ → ℕ → List ℕ → ℕ → Atcmd → Atcmd
unfolding init
atcmd_init recv_buffer recv_buffer_len ipd_buffer ipd_buffer_len a = record a {
  auto_prefix_index = 0;
  serial_recv = serial_recv_serial_default;
  rb = some (init recv_buffer recv_buffer_len);
  ipd_rb = some (init ipd_buffer ipd_buffer_len);
  posts = 0;
}

-- `struct atcmd_expect`: the text looked for, and the memory at `recv_buff`, both `none` for NULL.
pub record Expect : Type 0 where
  pub expect : Option (List ℕ)
  pub recv_buff : Option (List ℕ)
  pub buff_size : ℕ

-- What a call leaves: the line, the memory at `recv_buff`, and the value returned.
pub record Outcome : Type 0 where
  pub line : Line
  pub buff : Option (List ℕ)
  pub rc : Bool

abbrev pub is_some {ℓ} : {A : Type ℓ} → Option A → Bool
is_some none = false
is_some (some a) = true

-- The memory at a pointer after `out` was stored from it on.
abbrev pub overwrite : List ℕ → Option (List ℕ) → Option (List ℕ)
overwrite out none = none
overwrite out (some memory) = some (out ++ drop (length out) memory)

unfoldable pub read_reply : List ℕ → ℕ → Option (List ℕ) → Line → Outcome
read_reply prefix size buff l =
    let (rb, out, _, rc) =
      read_string_and_is_with_prefix l.atcmd.rb (some prefix) (is_some buff) (some size) in
    record {
      line = record l { atcmd = record l.atcmd { rb = rb } };
      buff = overwrite out buff;
      rc = rc;
    }

-- A loop whose body says if it leaves the loop; `none` means that the fuel ran out.
unfoldable pub loop {ℓ} : {S : Type ℓ} → ℕ → (S → Bool × S) → S → Option S
loop zero body s = none
loop (suc fuel) body s =
    let (leaves, s') = body s in elim leaves [ true ↦ some s' | false ↦ loop fuel body s' ]

abbrev pub settled {ℓ} : {S : Type ℓ} → S → Option S → S
settled s none = s
settled s (some s') = s'

abbrev pub bytes_in : List Wait → ℕ
bytes_in [] = 0
bytes_in (w ∷ ws) = length w.arrived + bytes_in ws

-- How often the semaphore can still be taken, at most.
abbrev pub load : Line → ℕ
load l = l.atcmd.posts + bytes_in l.feed

-- A round of the loop of `expect`, which ends at the time `end`.
unfoldable pub expect_round : List ℕ → ℕ → ℕ → Outcome → Bool × Outcome
unfolding pend_sem read_reply
expect_round prefix size end o =
    let (l, granted) = pend_sem (end - o.line.now) o.line in
    let o' = read_reply prefix size o.buff l in
    if ltb o.line.now end
    then (if granted then (o'.rc, o') else (true, record { line = l; buff = o.buff; rc = false }))
    else (true, record { line = o.line; buff = o.buff; rc = false })

unfoldable pub expect_loop : ℕ → List ℕ → ℕ → ℕ → Outcome → Option Outcome
unfolding expect_round loop
expect_loop fuel prefix size end o = loop fuel (expect_round prefix size end) o

unfoldable pub expect : List ℕ → ℕ → Option (List ℕ) → ℕ → Line → Outcome
unfolding expect_loop
expect prefix size buff ms l =
    let o : Outcome = record { line = l; buff = buff; rc = false } in
    settled o (expect_loop (suc (load l)) prefix size (u32 (l.now + ms)) o)

-- `cmd` with what is sent behind it.
abbrev pub framed : List ℕ → List ℕ
framed [] = []
framed (c ∷ cmd) = (c ∷ cmd) ++ 13 ∷ []

unfoldable pub send_command : Option (List ℕ) → Line → Line
unfolding clear_recv_buffer send
send_command none l = l
send_command (some cmd) l = send (framed cmd) (clear_recv_buffer l)

-- The test of `exp` and `exp->expect`, and what follows.
unfoldable pub await : Option Expect → ℕ → Line → Outcome
unfolding sleep expect
await none ms l = record { line = sleep ms l; buff = none; rc = true }
await (some exp) ms l = elim exp.expect [
  | none ↦ record { line = sleep ms l; buff = exp.recv_buff; rc = true }
  | some prefix ↦ expect prefix exp.buff_size exp.recv_buff ms l
]

unfoldable pub exec_command : Option (List ℕ) → Option Expect → ℕ → Line → Outcome
unfolding send_command await
exec_command cmd exp ms l = await exp ms (send_command cmd l)
