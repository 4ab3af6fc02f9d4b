-- ===== src/Atcmd/Connection.antt =====
-- What the commands for a connection send, and what they answer.
use embedded_template.Prelude.{
  ℕ, suc, ◌+◌, ◌-◌, ◌<◌, ◌≤◌, ◌≡◌, ◌≢◌, refl, ap, ◌∙◌, Bool, true, Option, none, some, List, [],
  ◌∷◌, ◌++◌, take, ne→==, if◌then◌else◌, u32, arith,
}
use embedded_template.Atcmd.Text.{codes, is_ip_string, print_decimal, write_text}
use embedded_template.Atcmd.Line.{
  Line, Expect, Outcome, send, clear_recv_buffer, load, framed, send_command, exec_command,
}
use embedded_template.Atcmd.Ends.{loop_keeps, poll_loop_ends, decided_line}
use embedded_template.Atcmd.Retry.{Poll, memory_of, poll_round, poll_loop, polling}
use embedded_template.Atcmd.Sent.{repeated, await-sent, exec_command-sent}
use embedded_template.Atcmd.Tcp.{send_text, announce_send, send_poll, send_tcp}

listen-sent :
    (exp : Option Expect) (ms : ℕ) (l : Line) → (exec_command none exp ms l).line.sent ≡ l.sent
unfolding exec_command send_command
listen-sent exp ms l = await-sent exp ms l

poll_round-sent :
    (p : Poll) (end : ℕ) (final : Bool) (o : Outcome)
    → (poll_round p end final o).1.line.sent ≡ o.line.sent
unfolding poll_round
poll_round-sent p end final o =
    let exp : Expect = record {
      expect = some [];
      recv_buff = some (p.prepare (memory_of o.buff));
      buff_size = p.buff_size;
    } in
    let o' = exec_command none (some exp) (end - o.line.now) o.line in
    ground (
      arith,
      listen-sent (some exp) (end - o.line.now) o.line,
      decided_line (p.judge (memory_of o'.buff)) o',
      decided_line p.on_failure o',
    )

poll_loop-sent :
    (p : Poll) (end : ℕ) (final : Bool) (o : Outcome)
    → end < 4294967296
    → (poll_loop p end final o).line.sent ≡ o.line.sent
unfolding poll_loop
poll_loop-sent p end final o b =
    let Same : Outcome → Type 0 = λ s. s.line.sent ≡ o.line.sent in
    let body = poll_round p end final in
    let fuel = suc (suc (load o.line)) in
    let (o', ends) = poll_loop_ends fuel p end final o b (omega arith) in
    let step : (s : Outcome) → Same s → Same (body s).1 =
      λ s h. poll_round-sent p end final s ∙ h in
    let result =
      loop_keeps body Same Same (λ s h _. step s h) (λ s h _. step s h) fuel o o' ends refl in
    rw ends result

text_framed : (len : ℕ) → framed (send_text len) ≡ send_text len ++ 13 ∷ []
text_framed len = refl

announce_send-sent :
    (len : ℕ) (l : Line) → (announce_send len l).sent ≡ l.sent ++ (send_text len ++ 13 ∷ [])
unfolding announce_send clear_recv_buffer
announce_send-sent len l = exec_command-sent (send_text len) none 250 (clear_recv_buffer l)

-- Whatever the modem does, `atcmd_send_tcp` with some data passes to the line the command
-- `AT+QISEND=<len>`, a CR, and the data, once each and nothing else.
pub send_tcp-sent :
    (dat : List ℕ) (len timeout_ms : ℕ) (memory : List ℕ) (l : Line)
    → 0 < len
    → (send_tcp (some dat) len timeout_ms memory l).0.sent
      ≡ l.sent ++ (codes "AT+QISEND=" ++ print_decimal len ++ 13 ∷ []) ++ take len dat
unfolding send_tcp send
send_tcp-sent dat len timeout_ms memory l h =
    let l1 = send (take len dat) (announce_send len l) in
    let start = polling l1 (write_text (send_text len) memory) in
    let polled = poll_loop-sent send_poll (u32 (l.now + timeout_ms)) true start (omega arith) in
    rw (ne→== len 0 (omega arith)) (polled ∙ ap (λ s. s ++ take len dat) (announce_send-sent len l))

-- The command that opens the connection.
abbrev pub open_text : List ℕ → ℕ → List ℕ
open_text addr port =
    codes "AT+QIOPEN=\"TCP\",\"" ++ addr ++ (codes "\",\"" ++ print_decimal port ++ codes "\"")

-- What a call that succeeded was given, and sent.
pub record Connected (addr : Option (List ℕ)) (port : ℕ) (l l' : Line) : Type 0 where
  pub text : List ℕ
  pub tries : ℕ
  pub address : addr ≡ some text
  pub some_port : port ≢ 0
  pub tried : 0 < tries
  pub few : tries ≤ 5
  pub sent :
      l'.sent
      ≡ l.sent
        ++ (repeated tries (
              (if is_ip_string addr then codes "AT+QIDNSIP=0" else codes "AT+QIDNSIP=1") ++ 13 ∷ [])
            ++ (open_text text port ++ 13 ∷ []))
