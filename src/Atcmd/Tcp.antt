-- ===== src/Atcmd/Tcp.antt =====
-- src/atcmd/atcmd.c: the commands for a connection. `memory` is what lies at the local buffer of a
-- function when it is entered.
use embedded_template.Prelude.{
  ℕ, suc, ◌+◌, ◌-◌, Bool, true, false, ◌&&◌, not, Option, none, some, List, [], ◌++◌, length, take,
  drop, replicate, min, ltb, leb, ◌==◌, if◌then◌else◌, u16, u32,
}
use embedded_template.RingBuffer.{try_read}
use embedded_template.Atcmd.Text.{codes, strcmp_eq, is_ip_string, print_decimal, write_text}
use embedded_template.Atcmd.Line.{
  Line, Expect, Outcome, loop, settled, sleep, send, clear_recv_buffer, exec_command,
}
use embedded_template.Atcmd.Retry.{Poll, memory_of, poll_loop, polling, same, retry_until_reply}

-- What `line` says after the second wait, if there was one.
unfoldable pub connect_done : Outcome → Line × Bool
unfolding strcmp_eq
connect_done o = (o.line, o.rc && strcmp_eq (memory_of o.buff) (codes "CONNECT OK"))

-- The answers to the command.
unfoldable pub connect_answered : Outcome → Line × Bool
unfolding strcmp_eq connect_done exec_command
connect_answered o =
    let exp : Expect = record {
      expect = some (codes "CONNECT");
      recv_buff = o.buff;
      buff_size = 48;
    } in
    let done = connect_done (exec_command none (some exp) 100000 o.line) in
    if not o.rc
    then (o.line, false)
    else if strcmp_eq (memory_of o.buff) (codes "ALREADY CONNECT")
    then (o.line, true)
    else if not (strcmp_eq (memory_of o.buff) (codes "OK"))
    then (o.line, false)
    else done

-- The command is sent in two pieces, and the receive buffer is cleared between them.
unfoldable pub connect_open : List ℕ → ℕ → List ℕ → Line → Line × Bool
unfolding send print_decimal exec_command connect_answered
connect_open addr port memory l =
    let line = codes "\",\"" ++ print_decimal port ++ codes "\"" in
    let exp : Expect = record {
      expect = some [];
      recv_buff = some (write_text line memory);
      buff_size = 48;
    } in
    connect_answered
      (exec_command (some line) (some exp) 1000 (send addr (send (codes "AT+QIOPEN=\"TCP\",\"") l)))

unfoldable pub connect_parameters : Option (List ℕ) → ℕ → List ℕ → Line → Line × Bool
unfolding connect_open
connect_parameters none port memory l = (l, false)
connect_parameters (some addr) port memory l =
    if port == 0 then (l, false) else connect_open addr port memory l

unfoldable pub connect_tcp : Option (List ℕ) → ℕ → List ℕ → Line → Line × Bool
unfolding is_ip_string retry_until_reply connect_parameters
connect_tcp addr port memory l =
    let cmd = if is_ip_string addr then codes "AT+QIDNSIP=0" else codes "AT+QIDNSIP=1" in
    let (l', ok) = retry_until_reply (some cmd) (codes "OK") 1000 5 l in
    if ok then connect_parameters addr port memory l' else (l', false)

unfoldable pub disconnect_tcp : Line → Line × Bool
unfolding exec_command
disconnect_tcp l =
    let exp : Expect = record {
      expect = some (codes "CLOSE OK");
      recv_buff = none;
      buff_size = 0;
    } in
    let o = exec_command (some (codes "AT+QICLOSE")) (some exp) 1000 l in (o.line, o.rc)

-- The line, and the bytes stored at `buff` so far.
pub record Received : Type 0 where
  pub line : Line
  pub bytes : List ℕ

-- `buff` is not NULL.
unfoldable pub recv_round : ℕ → ℕ → Received → Bool × Received
unfolding sleep
recv_round len end s =
    let (rb, more, _) = try_read s.line.atcmd.ipd_rb true (len - length s.bytes) in
    let l = record s.line { atcmd = record s.line.atcmd { ipd_rb = rb } } in
    let bytes = s.bytes ++ more in
    if leb len (length bytes)
    then (true, record { line = l; bytes = bytes })
    else if leb end l.now
    then (true, record { line = l; bytes = bytes })
    else (false, record { line = sleep 10 l; bytes = bytes })

-- The clock goes on by 10 in each round.
unfoldable pub recv_tcp : ℕ → ℕ → Line → Option Received
unfolding recv_round loop
recv_tcp len timeout_ms l =
    let start : Received = record { line = l; bytes = [] } in
    loop (suc timeout_ms) (recv_round len (u32 (l.now + timeout_ms))) start

unfoldable pub send_answer : List ℕ → Option Bool
unfolding strcmp_eq
send_answer memory =
    if strcmp_eq memory (codes "SEND OK")
    then some true
    else if strcmp_eq memory (codes "SEND FAIL")
    then some false
    else if strcmp_eq memory (codes "ERROR")
    then some false
    else none

abbrev pub send_poll : Poll
send_poll = record { prepare = same; on_failure = some false; judge = send_answer; buff_size = 20 }

-- `sprintf(buf, "AT+QISEND=%d", len)`
abbrev pub send_text : ℕ → List ℕ
send_text len = codes "AT+QISEND=" ++ print_decimal len

-- The command, with its wait.
unfoldable pub announce_send : ℕ → Line → Line
unfolding print_decimal clear_recv_buffer exec_command
announce_send len l = (exec_command (some (send_text len)) none 250 (clear_recv_buffer l)).line

-- `dat` holds at least `len` bytes.
unfoldable pub send_tcp : Option (List ℕ) → ℕ → ℕ → List ℕ → Line → Line × Bool
unfolding announce_send send poll_loop send_answer print_decimal
send_tcp none len timeout_ms memory l = (l, false)
send_tcp (some dat) len timeout_ms memory l =
    let end = u32 (l.now + timeout_ms) in
    let l1 = send (take len dat) (announce_send len l) in
    let o = poll_loop send_poll end true (polling l1 (write_text (send_text len) memory)) in
    if len == 0 then (l, false) else (o.line, o.rc)

-- `cb_get` is given as a function from its private data and the size of the buffer to the data after
-- the call and the bytes that it stored, as many as it returned.

-- The private data, the memory at `buf`, `this_len`, and what was sent.
pub record Chunk (P : Type 0) : Type 0 where
  pub private_data : P
  pub memory : List ℕ
  pub this_len : ℕ
  pub bytes : List ℕ

module _ {P : Type 0} (cb_get : P → ℕ → P × List ℕ) where
  -- A round of the `do` loop.
  unfoldable pub data_round : Chunk P → Bool × Chunk P
  data_round c =
      let (p, bytes) = cb_get c.private_data (if ltb 20 c.this_len then 20 else c.this_len) in
      let left = u16 (c.this_len + 65536 - length bytes) in
      if length bytes == 0 then (true, record c { private_data = p }) else (
        left == 0,
        record {
          private_data = p;
          memory = bytes ++ drop (length bytes) c.memory;
          this_len = left;
          bytes = c.bytes ++ bytes;
        },
      )

  -- The loops that send the data of one command: what the callback does not give is sent as 0.
  unfoldable pub chunk_data : P → ℕ → List ℕ → Chunk P
  unfolding data_round loop
  chunk_data p this_len memory =
      let start : Chunk P = record {
        private_data = p;
        memory = memory;
        this_len = this_len;
        bytes = [];
      } in
      let c = settled start (loop (suc this_len) data_round start) in
      record c { this_len = 0; bytes = c.bytes ++ replicate c.this_len 0 }

-- What the loop of `atcmd_send_tcp_cb` keeps, with the value to return once it has one.
pub record Sending (P : Type 0) : Type 0 where
  pub line : Line
  pub private_data : P
  pub memory : List ℕ
  pub count : ℕ
  pub rc : Bool

module _ {P : Type 0} (cb_get : P → ℕ → P × List ℕ) where
  -- A round of the outer loop.
  unfoldable pub send_cb_round : ℕ → Sending P → Bool × Sending P
  unfolding announce_send send poll_loop send_answer chunk_data print_decimal
  send_cb_round total_len s =
      let this_len = min (total_len - s.count) 1320 in
      let c =
        chunk_data cb_get s.private_data this_len (write_text (send_text this_len) s.memory) in
      let l = send c.bytes (announce_send this_len s.line) in
      let o = poll_loop send_poll (u32 (l.now + 1000)) true (polling l c.memory) in
      let s' : Sending P = record {
        line = o.line;
        private_data = c.private_data;
        memory = memory_of o.buff;
        count = s.count + this_len;
        rc = o.rc;
      } in
      if ltb s.count total_len then (not o.rc, s') else (true, record s { rc = true })

  -- Every round sends at least one byte.
  unfoldable pub send_tcp_cb : P → ℕ → List ℕ → Line → Line × Bool
  unfolding send_cb_round loop
  send_tcp_cb p total_len memory l =
      let start : Sending P = record {
        line = l;
        private_data = p;
        memory = memory;
        count = 0;
        rc = false;
      } in
      let s = settled start (loop (suc total_len) (send_cb_round total_len) start) in
      if total_len == 0 then (l, false) else (s.line, s.rc)
