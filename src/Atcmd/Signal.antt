-- ===== src/Atcmd/Signal.antt =====
-- The quality of the signal, from the bytes of the modem's answer to the two numbers.
use embedded_template.Prelude.{
  ℕ, zero, suc, ◌+◌, ◌/◌, ◌%◌, ◌≤◌, ◌<◌, ◌≡◌, ◌≢◌, refl, sym, ap, ◌∙◌, true, false, ◌||◌, ◌⊎◌, inl,
  inr, Bool-cases, some, List, [], ◌∷◌, ◌++◌, append_assoc, All, length, length-append, take_all,
  drop, leb, ltb, ◌==◌, u8, arith,
}
use embedded_template.Prelude.Bits.{holds_to, holds_at}
use embedded_template.RingBuffer.Strings.Laws.{kept}
use embedded_template.RingBuffer.Strings.Prefix.{starts_with}
use embedded_template.Atcmd.Receive.{bytes_of}
use embedded_template.Atcmd.Text.{
  codes, no_zero→All, front, digit_of, strchr, skip_blanks, atoi, atoi_skip_bank_prefix,
  decimal_loop, print_decimal,
}
use embedded_template.Atcmd.Line.{Line, Wait, overwrite}
use embedded_template.Atcmd.Query.{quality_ok, ber_in, quality_in, get_signal_quality}
use embedded_template.Atcmd.Retry.{memory_of}
use embedded_template.Atcmd.Answer.{Idle, Says, exec_command_answered}
use embedded_template.Atcmd.Address.{digits_first, decimal_loop-append, strtol-print_decimal}

-- The comma is not among the digits.
strchr_digits : (fuel n : ℕ) (acc : List ℕ) → strchr (decimal_loop fuel n acc) 44 ≡ strchr acc 44
unfolding decimal_loop strchr
strchr_digits zero n acc = refl
strchr_digits (suc fuel) n acc =
    let comma : (48 + n % 10 == 44) ≡ false = ground arith in
    let end : (48 + n % 10 == 0) ≡ false = ground arith in
    elim (Bool-cases (n / 10 == 0)) [
      | inl last ↦ rw (last, decimal_loop) (rw (comma, end, strchr) refl)
      | inr more ↦
          rw (more, decimal_loop)
            (strchr_digits fuel (n / 10) ((48 + n % 10) ∷ acc) ∙ rw (comma, end, strchr) refl)
    ]

strchr-print_decimal : (n : ℕ) (s : List ℕ) → strchr (print_decimal n ++ 44 ∷ s) 44 ≡ some (44 ∷ s)
unfolding print_decimal strchr
strchr-print_decimal n s =
    ap (λ t. strchr t 44) (decimal_loop-append (suc n) n [] (44 ∷ s))
    ∙ strchr_digits (suc n) n (44 ∷ s)

skip_digit : (d : ℕ) (s : List ℕ) → d < 10 → skip_blanks ((48 + d) ∷ s) ≡ (48 + d) ∷ s
unfolding skip_blanks
skip_digit d s h =
    let blank : ((48 + d == 32) || (48 + d == 9)) ≡ false = ground arith in rw blank refl

skip-print_decimal :
    (n : ℕ) (s : List ℕ) → skip_blanks (print_decimal n ++ s) ≡ print_decimal n ++ s
unfolding print_decimal
skip-print_decimal n s =
    let (d, t, digit, first) = digits_first (suc n) n s (omega arith) in
    let text = decimal_loop-append (suc n) n [] s ∙ first in
    ap skip_blanks text ∙ skip_digit d t digit ∙ sym text

-- A number of the modem's answer, behind the space.
number_lem :
    (n : ℕ) (s : List ℕ)
    → ltb (digit_of (front s)) 10 ≡ false
    → n < 100
    → atoi_skip_bank_prefix (32 ∷ (print_decimal n ++ s)) ≡ n
unfolding atoi_skip_bank_prefix atoi skip_blanks
number_lem n s stop small =
    ap atoi (skip-print_decimal n s) ∙ ap (λ r. r.0) (strtol-print_decimal n s stop) ∙ omega arith

-- The text behind `+CSQ:`.
abbrev quality_text : ℕ → ℕ → List ℕ → List ℕ
quality_text rssi ber behind =
    32 ∷ (print_decimal rssi ++ 44 ∷ 32 ∷ (print_decimal ber ++ 0 ∷ behind))

quality_small : (highest v : ℕ) → quality_ok highest v ≡ true → highest < 100 → v < 100
quality_small highest v h b = ground arith

quality_in_lem :
    (rssi ber : ℕ) (behind : List ℕ)
    → quality_ok 31 rssi ≡ true
    → quality_ok 7 ber ≡ true
    → quality_in (quality_text rssi ber behind) ≡ some (rssi, ber)
unfolding quality_in ber_in digit_of
quality_in_lem rssi ber behind first second =
    let small = quality_small 31 rssi first (omega arith) in
    let small' = quality_small 7 ber second (omega arith) in
    let s = 32 ∷ (print_decimal ber ++ 0 ∷ behind) in
    let byte : u8 rssi ≡ rssi = omega arith in
    let byte' : u8 ber ≡ ber = omega arith in
    rw
      (
        number_lem rssi (44 ∷ s) refl small,
        byte,
        first,
        strchr-print_decimal rssi s,
        ber_in,
        number_lem ber (0 ∷ behind) refl small',
        byte',
        second,
      )
      (ap (λ v. some (u8 v, ber)) (number_lem rssi (44 ∷ s) refl small)
        ∙ ap (λ v. some (v, ber)) byte)

short_table : holds_to (λ n. leb (length (print_decimal n)) 2) 100 ≡ true
unfolding holds_to print_decimal decimal_loop
short_table = refl

short : (n : ℕ) → n < 100 → length (print_decimal n) ≤ 2
short n h =
    let test : leb (length (print_decimal n)) 2 ≡ true = holds_at _ 100 short_table n h in
    ground arith

-- The answer of the modem to `AT+CSQ`.
abbrev pub quality_answer : ℕ → ℕ → List ℕ
quality_answer rssi ber = codes "+CSQ:" ++ 32 ∷ (print_decimal rssi ++ 44 ∷ 32 ∷ print_decimal ber)

answer_short :
    (rssi ber : ℕ)
    → quality_ok 31 rssi ≡ true
    → quality_ok 7 ber ≡ true
    → length (quality_answer rssi ber ++ 0 ∷ []) ≤ 20
answer_short rssi ber first second =
    let one = short rssi (quality_small 31 rssi first (omega arith)) in
    let two = short ber (quality_small 7 ber second (omega arith)) in
    let tail = 44 ∷ 32 ∷ print_decimal ber in
    omega (
      arith,
      length-append (quality_answer rssi ber) (0 ∷ []),
      length-append (print_decimal rssi) tail,
      one,
      two,
    )

csq_nonzero : All (λ b. b ≢ 0) (codes "+CSQ:")
csq_nonzero = no_zero→All (codes "+CSQ:") refl

answer_end :
    (rssi ber : ℕ) (behind : List ℕ)
    → drop 5 ((quality_answer rssi ber ++ 0 ∷ []) ++ behind) ≡ quality_text rssi ber behind
answer_end rssi ber behind = simp append_assoc refl

accepted : (highest v : ℕ) → (v ≤ highest) ⊎ (v ≡ 99) → quality_ok highest v ≡ true
accepted highest v (inl low) = ground arith
accepted highest v (inr unknown) = ground arith

-- If the modem, idle when the command is sent, answers with the line `+CSQ: <rssi>, <ber>`, shorter
-- than the ring, with both numbers in decimal, the first from 0 to 31 or 99 and the second from 0
-- to 7 or 99, and the 32-bit clock does not wrap in the 500 ms of the wait, then these two numbers
-- are what `atcmd_get_signal_quality` stores, whatever lay in its buffer; only its command was sent,
-- only this wait is used up, and the modem is idle again.
pub get_signal_quality-answer :
    (rssi ber cap : ℕ) (ds : List (ℕ × ℕ)) (w : Wait) (ws : List Wait) (memory : List ℕ) (l : Line)
    → (rssi ≤ 31) ⊎ (rssi ≡ 99)
    → (ber ≤ 7) ⊎ (ber ≡ 99)
    → Idle l cap
    → l.feed ≡ w ∷ ws
    → Says w ds
    → bytes_of ds ≡ quality_answer rssi ber
    → length ds < cap
    → l.now + 500 < 4294967296
    → let (l', result) = get_signal_quality memory l in
      (result ≡ some (rssi, ber))
      × (l'.sent ≡ l.sent ++ (codes "AT+CSQ" ++ 13 ∷ []))
      × (l'.feed ≡ ws)
      × Idle l' cap
unfolding get_signal_quality
get_signal_quality-answer rssi ber cap ds w ws memory l known known' idle feed says text room time =
    let first = accepted 31 rssi known in
    let second = accepted 7 ber known' in
    let prefix = ap (starts_with (codes "+CSQ:")) text in
    let (ok, sent, buff, now, feed', idle') =
      exec_command_answered 65 (84 ∷ 43 ∷ 67 ∷ 83 ∷ 81 ∷ []) (codes "+CSQ:") 20 500 cap
        (some memory) ds w ws l idle feed says room prefix csq_nonzero (omega arith) (omega arith)
        time in
    let answer = quality_answer rssi ber ++ 0 ∷ [] in
    let whole =
      buff
      ∙ ap (λ s. overwrite (kept true 20 (s ++ 0 ∷ [])) (some memory)) text
      ∙ ap (λ s. overwrite s (some memory))
          (take_all 20 answer (answer_short rssi ber first second)) in
    let numbers =
      ap (λ m. quality_in (drop 5 (memory_of m))) whole
      ∙ ap quality_in (answer_end rssi ber (drop (length answer) memory))
      ∙ quality_in_lem rssi ber (drop (length answer) memory) first second in
    rw ok (numbers, sent, feed', idle')
