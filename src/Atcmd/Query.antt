-- ===== src/Atcmd/Query.antt =====
-- src/atcmd/atcmd.c: the commands that ask the modem for something. `memory` is what lies at the
-- buffer of a function when it is called or, for a local buffer, when it is entered.
use embedded_template.Prelude.{
  ℕ, ◌+◌, ◌%◌, Bool, true, false, ◌&&◌, ◌||◌, not, Option, none, some, List, [], ◌∷◌, ◌++◌, drop,
  replicate, ltb, leb, ◌==◌, if◌then◌else◌, u8, u32,
}
use embedded_template.Atcmd.Text.{
  codes, front, strlen, strchr, strtol, atoi_skip_bank_prefix, write_text,
}
use embedded_template.Atcmd.Line.{Line, Expect, Outcome, exec_command}
use embedded_template.Atcmd.Retry.{Poll, memory_of, poll_loop, polling, same}

-- The line, the memory at the buffer, and the value returned.
abbrev pub Text : Type 0
Text = Line × List ℕ × Bool

abbrev pub text_of : Outcome → Text
text_of o = (o.line, memory_of o.buff, o.rc)

abbrev pub judge_ccid : List ℕ → Option Bool
judge_ccid memory = if ltb 18 (strlen memory) && leb (strlen memory) 21 then some true else none

abbrev pub ccid_poll : ℕ → Poll
ccid_poll len = record { prepare = same; on_failure = none; judge = judge_ccid; buff_size = len }

unfoldable pub get_ccid : List ℕ → ℕ → Line → Text
unfolding exec_command poll_loop strlen
get_ccid memory len l =
    let l' = (exec_command (some (codes "AT+QCCID")) none 0 l).line in
    text_of (poll_loop (ccid_poll len) (u32 (l.now + 1000)) false (polling l' memory))

abbrev pub judge_imei : List ℕ → Option Bool
judge_imei memory = if ltb 12 (strlen memory) && ltb (strlen memory) 30 then some true else none

-- `memset(buf, 0, len)` comes before each read.
abbrev pub imei_poll : ℕ → Poll
imei_poll len = record {
  prepare = λ memory. replicate len 0 ++ drop len memory;
  on_failure = none;
  judge = judge_imei;
  buff_size = len;
}

unfoldable pub get_imei : List ℕ → ℕ → Line → Text
unfolding exec_command poll_loop strlen
get_imei memory len l =
    let l' = (exec_command (some (codes "AT+GSN")) none 0 l).line in
    text_of (poll_loop (imei_poll len) (u32 (l.now + 1000)) false (polling l' memory))

-- One command whose answer begins with `prefix`, read into a buffer of `size` bytes.
abbrev pub ask : List ℕ → List ℕ → ℕ → ℕ → List ℕ → Line → Outcome
ask cmd prefix ms size memory l =
    let exp : Expect = record { expect = some prefix; recv_buff = some memory; buff_size = size } in
    exec_command (some cmd) (some exp) ms l

-- A value of the range, or 99.
abbrev pub quality_ok : ℕ → ℕ → Bool
quality_ok highest v = leb v highest || (v == 99)

-- What the function reads behind the comma; `none` is the return value 0.
unfoldable pub ber_in : ℕ → Option (List ℕ) → Option (ℕ × ℕ)
unfolding atoi_skip_bank_prefix
ber_in rssi none = none
ber_in rssi (some p) =
    let ber = u8 (atoi_skip_bank_prefix (drop 1 p)) in
    if quality_ok 7 ber then some (rssi, ber) else none

-- `p` is `&line[5]`; the comma is looked for from the byte behind it on.
unfoldable pub quality_in : List ℕ → Option (ℕ × ℕ)
unfolding atoi_skip_bank_prefix strchr ber_in
quality_in p =
    let rssi = u8 (atoi_skip_bank_prefix p) in
    if quality_ok 31 rssi then ber_in rssi (strchr (drop 1 p) 44) else none

-- RSSI and BER as they are stored through the pointers, where these are not NULL.
unfoldable pub get_signal_quality : List ℕ → Line → Line × Option (ℕ × ℕ)
unfolding exec_command quality_in
get_signal_quality memory l =
    let o = ask (codes "AT+CSQ") (codes "+CSQ:") 500 20 memory l in
    (o.line, if o.rc then quality_in (drop 5 (memory_of o.buff)) else none)

-- The numbers of `+QISACK: <sent>, <acked>, <nAcked>`.
pub record SentInfo : Type 0 where
  pub sent : ℕ
  pub acked : ℕ
  pub unacked : ℕ

-- `long` as a bit pattern: the comparison with -1.
abbrev pub minus_one : ℕ
minus_one = 4294967295

-- The number behind the next comma, and the text from that comma's next byte on.
unfoldable pub number_behind : Option (List ℕ) → Option (ℕ × List ℕ)
unfolding atoi_skip_bank_prefix
number_behind none = none
number_behind (some p) =
    let v = atoi_skip_bank_prefix (drop 1 p) in if v == minus_one then none else some (v, drop 1 p)

unfoldable pub unacked_in : ℕ → Option (ℕ × List ℕ) → Option SentInfo
unfolding number_behind strchr
unacked_in sent none = none
unacked_in sent (some (acked, p)) = elim (number_behind (strchr p 44)) [
  | none ↦ none
  | some (unacked, _) ↦ some (record { sent = sent; acked = acked; unacked = unacked })
]

-- `p` is `&line[8]`.
unfoldable pub sent_info_in : List ℕ → Option SentInfo
unfolding atoi_skip_bank_prefix strchr number_behind unacked_in
sent_info_in p =
    let sent = atoi_skip_bank_prefix p in
    if sent == minus_one then none else unacked_in sent (number_behind (strchr p 44))

unfoldable pub get_data_sent_info : List ℕ → Line → Line × Option SentInfo
unfolding exec_command sent_info_in
get_data_sent_info memory l =
    let o = ask (codes "AT+QISACK") (codes "+QISACK:") 1000 48 memory l in
    (o.line, if o.rc then sent_info_in (drop 8 (memory_of o.buff)) else none)

-- The bytes that the loop copies down to the front of the buffer. `len` does not change in it.
unfoldable pub quoted : ℕ → List ℕ → List ℕ
quoted len [] = []
quoted len (c ∷ s) = if not (c == 0) && not (c == 34) && ltb 1 len then c ∷ quoted len s else []

unfoldable pub ops_in : ℕ → List ℕ → Option (List ℕ) → List ℕ × Bool
unfolding quoted
ops_in len memory none = (memory, false)
ops_in len memory (some ops) = (write_text (quoted len (drop 1 ops)) memory, true)

unfoldable pub get_ops : List ℕ → ℕ → Line → Text
unfolding exec_command strchr ops_in
get_ops memory len l =
    let o = ask (codes "AT+COPS?") (codes "+COPS:") 1000 len memory l in
    let (memory', ok) = ops_in len (memory_of o.buff) (strchr (memory_of o.buff) 34) in
    if o.rc then (o.line, memory', ok) else text_of o

-- The number in base 16 behind a quote, as a uint16_t, and the text that follows it.
unfoldable pub hex_behind : List ℕ → ℕ × List ℕ
unfolding strtol
hex_behind ops = let (v, end) = strtol 16 (drop 1 ops) in (v % 65536, end)

-- What is stored at `lac_ci`, and the value returned.
unfoldable pub ci_in : ℕ → ℕ → Option (List ℕ) → ℕ × ℕ × Bool
unfolding hex_behind
ci_in lac ci none = (lac, ci, false)
ci_in lac ci (some ops) = let (v, end) = hex_behind ops in (lac, v, front end == 34)

unfoldable pub lacci_in : ℕ → ℕ → Option (List ℕ) → ℕ × ℕ × Bool
unfolding hex_behind strchr ci_in
lacci_in lac ci none = (lac, ci, false)
lacci_in lac ci (some ops) =
    let (v, end) = hex_behind ops in
    if front end == 34 then ci_in v ci (strchr (drop 1 end) 34) else (v, ci, false)

-- `lac_ci` is not NULL; it holds `lac` and `ci`.
unfoldable pub get_lacci : ℕ → ℕ → List ℕ → Line → Line × ℕ × ℕ × Bool
unfolding exec_command strchr lacci_in
get_lacci lac ci memory l =
    let o = ask (codes "AT+CREG?") (codes "+CREG:") 1000 28 memory l in
    let (lac', ci', ok) = lacci_in lac ci (strchr (memory_of o.buff) 34) in
    if o.rc then (o.line, lac', ci', ok) else (o.line, lac, ci, false)
