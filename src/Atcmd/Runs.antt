-- ===== src/Atcmd/Runs.antt =====
-- The commands run against a modem that answers from a list of waits.
use Prim.Native.String.{String}
use embedded_template.Prelude.{
  ℕ, ◌≡◌, ◌==◌, not, ◌&&◌, refl, Bool, true, false, some, List, [], ◌∷◌, ◌++◌, replicate, take,
  drop, length, arith, inl,
}
use embedded_template.RingBuffer.{RingBuffer, put, put_loop, clear}
use embedded_template.RingBuffer.Invariant.{IsValid}
use embedded_template.RingBuffer.Strings.{
  pop_char, read_string_loop, read_string_valid, read_rest, prefix_loop, read_string_with_prefix,
  read_string_and_is_with_prefix,
}
use embedded_template.Atcmd.{
  Atcmd, serial_recv_serial_default, recv_serial_byte, dispatch, recv_serial_default,
  with_prefix_byte, announces_ipd,
}
use embedded_template.Atcmd.Text.{codes, is_ip_string, print_decimal}
use embedded_template.Atcmd.Line.{Line, Wait, Outcome, loop}
use embedded_template.Atcmd.Retry.{polling, poll_round}
use embedded_template.Atcmd.Tcp.{chunk_data, send_poll}
use embedded_template.Atcmd.Query.{get_signal_quality, get_lacci}
use embedded_template.Atcmd.Typed.{IsText}
use embedded_template.Atcmd.Answer.{Idle, Says}
use embedded_template.Atcmd.Ends.{poll_loop_ends}
use embedded_template.Atcmd.Address.{dotted, is_ip_string-dotted}
use embedded_template.Atcmd.Signal.{quality_answer, get_signal_quality-answer}

-- The bytes of a text, all at the time 5.
abbrev typed : List ℕ → List (ℕ × ℕ)
typed [] = []
typed (b ∷ s) = (5, b) ∷ typed s

abbrev says : String → Wait
says s = record { arrived = typed (codes s) ++ (5, 13) ∷ (5, 10) ∷ []; elapsed = 3 }

abbrev silence : Wait
silence = record { arrived = []; elapsed = 0 }

abbrev empty_ring : ℕ → RingBuffer
empty_ring n = record { cap = n; len = 0; in_pos = 0; out_pos = 0; buf = replicate n 0 }

ring-IsValid : IsValid (empty_ring 64)
ring-IsValid = omega arith

abbrev idle_atcmd : Atcmd
idle_atcmd = record {
  auto_prefix = replicate 10 0;
  auto_prefix_index = 0;
  ipd_length = 0;
  ipd_recv_index = 0;
  ipd_rb = some (empty_ring 8);
  rb = some (empty_ring 64);
  posts = 0;
  time_to_default = 0;
  serial_recv = serial_recv_serial_default;
}

abbrev line_with : List Wait → Line
line_with feed = record { atcmd = idle_atcmd; sent = []; now = 100; feed = feed }

line_with-Idle : (feed : List Wait) → Idle (line_with feed) 64
line_with-Idle feed = record {
  start = (refl, refl, refl);
  queue = [];
  holds = (ring-IsValid, refl, refl);
}

quality_read :
    (get_signal_quality (replicate 20 7) (line_with (says "RING" ∷ says "+CSQ: 28, 0" ∷ []))).1
    ≡ some (28, 0)
unfolding get_signal_quality recv_serial_byte dispatch recv_serial_default with_prefix_byte
    announces_ipd put put_loop clear pop_char read_string_loop read_string_valid read_rest
    prefix_loop read_string_with_prefix read_string_and_is_with_prefix
quality_read = refl

lac_and_ci_read :
    let (_, lac, ci, ok) =
      get_lacci 1 2 (replicate 28 7) (line_with (says "+CREG: 2,1,\"18A7\",\"0f1B\"" ∷ [])) in
    (lac ≡ 0x18a7) × (ci ≡ 0x0f1b) × (ok ≡ true)
unfolding get_lacci recv_serial_byte dispatch recv_serial_default with_prefix_byte announces_ipd put
    put_loop clear pop_char read_string_loop read_string_valid read_rest prefix_loop
    read_string_with_prefix read_string_and_is_with_prefix
lac_and_ci_read = (refl, refl, refl)

abbrev is_text : List (ℕ × ℕ) → Bool
is_text [] = true
is_text ((now, b) ∷ ds) = not (b == 10) && not (b == 13) && not (b == 0) && is_text ds

is_text→IsText : (ds : List (ℕ × ℕ)) → is_text ds ≡ true → IsText ds
is_text→IsText [] h = tt
is_text→IsText ((now, b) ∷ ds) h =
    (ground arith, ground arith, ground arith, is_text→IsText ds (ground arith))

csq_text : codes "+CSQ: 28, 0" ≡ quality_answer 28 0
unfolding print_decimal
csq_text = refl

poll_loop_ends_example :
    let start = polling (line_with (says "RING" ∷ [])) (replicate 20 7) in
    (o' : Outcome) × (loop 10 (poll_round send_poll 1100 true) start ≡ some o')
poll_loop_ends_example =
    poll_loop_ends 10 send_poll 1100 true (polling (line_with (says "RING" ∷ [])) (replicate 20 7))
      (omega arith) (omega arith)

is_ip_string-dotted_example : is_ip_string (some (dotted 10 0 3 256 [])) ≡ false
is_ip_string-dotted_example = is_ip_string-dotted 10 0 3 256 []

says_quality-Says : Says (says "+CSQ: 28, 0") (typed (codes "+CSQ: 28, 0"))
says_quality-Says = record {
  cr = 5;
  lf = 5;
  arrives = refl;
  text = is_text→IsText (typed (codes "+CSQ: 28, 0")) refl;
  other = refl;
}

get_signal_quality-answer_example :
    let (l', result) = get_signal_quality (replicate 20 7) (line_with (says "+CSQ: 28, 0" ∷ [])) in
    (result ≡ some (28, 0)) × (l'.sent ≡ codes "AT+CSQ" ++ 13 ∷ []) × (l'.feed ≡ []) × Idle l' 64
get_signal_quality-answer_example =
    get_signal_quality-answer 28 0 64 (typed (codes "+CSQ: 28, 0")) (says "+CSQ: 28, 0") []
      (replicate 20 7) (line_with (says "+CSQ: 28, 0" ∷ [])) (inl (omega arith)) (inl (omega arith))
      (line_with-Idle (says "+CSQ: 28, 0" ∷ [])) refl says_quality-Says csq_text (omega arith)
      (omega arith)

abbrev connecting : Line
connecting = line_with (says "OK" ∷ says "OK" ∷ says "CONNECT OK" ∷ [])

-- The line that the modem says instead of an answer is read 1200 ms later.
abbrev late_ring : Wait
late_ring = record { arrived = typed (codes "RING") ++ (5, 13) ∷ (5, 10) ∷ []; elapsed = 1200 }

-- A callback that takes the bytes from a list.
abbrev from_list : List ℕ → ℕ → List ℕ × List ℕ
from_list s size = (drop size s, take size s)

chunk_run : length (chunk_data from_list (1 ∷ 2 ∷ 3 ∷ []) 30 (replicate 20 7)).bytes ≡ 30
unfolding chunk_data
chunk_run = refl
