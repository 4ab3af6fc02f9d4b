-- ===== src/Ltc6804/Frames.antt =====
-- The frames of src/drivers/ltc/ltc6804.c on a bus that records what goes out and answers with the
-- bytes of a list.
use embedded_template.Prelude.{
  ℕ, zero, suc, ◌+◌, ◌*◌, ◌/◌, ◌%◌, ◌<◌, ◌==◌, lt→ltb, le→ltb, true, some, ◌≡◌, refl, sym, ap, ap₂,
  ◌∙◌, List, [], ◌∷◌, ◌++◌, append-nil, append_assoc, length, length-replicate, get_or, drop,
  replicate, All, if◌then◌else◌, arith,
}
use embedded_template.Prelude.Bits.{low_byte}
use embedded_template.Ltc6804.{
  Platform, calc_crc16, wake_up, send_bytes, send_short_and_crc, send_data_daisychain,
  exchange_bytes, matches, recv_bytes, recv_data_daisychain,
}
use embedded_template.Ltc6804.Crc.{pec, pec_lt, calc_crc16-pec}

pub data Signal : Type 0 where
  selected : ℕ → ℕ → Signal
  byte : ℕ → Signal

pub record Wire : Type 0 where
  pub answers : List ℕ
  pub signals : List Signal

abbrev pub wire : ℕ → Platform Wire
wire cs = record {
  init = λ flags w. w;
  select = λ index on w. record w { signals = w.signals ++ (selected index on ∷ []) };
  transmit_byte = λ b w. (
    get_or w.answers 0 0xff,
    record { answers = drop 1 w.answers; signals = w.signals ++ (byte b ∷ []) },
  );
  cs_index = cs;
}

abbrev pub as_signals : List ℕ → List Signal
as_signals [] = []
as_signals (b ∷ bytes) = byte b ∷ as_signals bytes

-- The word, most significant byte first.
abbrev pub word : ℕ → List ℕ
word x = x / 256 % 256 ∷ x % 256 ∷ []

-- The signals before the data: the chip is woken, selected, and sent the command with its PEC.
abbrev pub opening : ℕ → ℕ → List Signal
opening cs cmd =
    selected cs 1 ∷ selected cs 0 ∷ selected cs 1 ∷ as_signals (word cmd ++ word (pec (word cmd)))

drop-drop : (n : ℕ) (bytes : List ℕ) → drop n (drop 1 bytes) ≡ drop (suc n) bytes
drop-drop zero [] = refl
drop-drop (suc n) [] = refl
drop-drop n (b ∷ bytes) = refl

send_bytes-wire :
    (cs : ℕ) (bytes : List ℕ) (answers : List ℕ) (signals : List Signal)
    → send_bytes (wire cs) bytes (record { answers = answers; signals = signals })
      ≡ record { answers = drop (length bytes) answers; signals = signals ++ as_signals bytes }
unfolding send_bytes
send_bytes-wire cs [] answers signals =
    ap (λ g. record { answers = answers; signals = g }) (sym (append-nil signals))
send_bytes-wire cs (b ∷ bytes) answers signals =
    send_bytes-wire cs bytes (drop 1 answers) (signals ++ (byte b ∷ []))
    ∙ ap₂ (λ a g. record { answers = a; signals = g }) (drop-drop (length bytes) answers)
        (append_assoc signals (byte b ∷ []) (as_signals bytes))

exchange_bytes-wire :
    (cs : ℕ) (buf dat rest : List ℕ) (signals : List Signal)
    → length buf ≡ length dat
    → exchange_bytes (wire cs) buf (record { answers = dat ++ rest; signals = signals })
      ≡ (dat, record { answers = rest; signals = signals ++ as_signals buf })
unfolding exchange_bytes
exchange_bytes-wire cs [] [] rest signals same =
    ap (λ g. ([], record { answers = rest; signals = g })) (sym (append-nil signals))
exchange_bytes-wire cs [] (d ∷ dat) rest signals same = absurd (omega arith)
exchange_bytes-wire cs (b ∷ buf) [] rest signals same = absurd (omega arith)
exchange_bytes-wire cs (b ∷ buf) (d ∷ dat) rest signals same =
    ap (λ (r : List ℕ × Wire). (d ∷ r.0, r.1))
      (exchange_bytes-wire cs buf dat rest (signals ++ (byte b ∷ [])) (omega arith))
    ∙ ap (λ g. (d ∷ dat, record { answers = rest; signals = g }))
        (append_assoc signals (byte b ∷ []) (as_signals buf))

word-All : (x : ℕ) → All (λ b. b < 256) (word x)
word-All x = (omega arith, (omega arith, tt))

send_short_and_crc-wire :
    (cs cmd : ℕ) (answers : List ℕ) (signals : List Signal)
    → send_short_and_crc (wire cs) cmd (record { answers = answers; signals = signals }) ≡ record {
      answers = drop 4 answers;
      signals = signals ++ as_signals (word cmd ++ word (pec (word cmd)));
    }
unfolding send_short_and_crc
send_short_and_crc-wire cs cmd answers signals =
    send_bytes-wire cs _ answers signals
    ∙ ap
        (λ c. record {
          answers = drop 4 answers;
          signals = signals ++ as_signals (word cmd ++ word c);
        })
        (calc_crc16-pec (word cmd) (word-All cmd))

opening-append :
    (cs cmd : ℕ) (signals : List Signal)
    → ((signals ++ (selected cs 1 ∷ [])) ++ (selected cs 0 ∷ []))
        ++ (selected cs 1 ∷ [])
        ++ as_signals (word cmd ++ word (pec (word cmd)))
      ≡ signals ++ opening cs cmd
opening-append cs cmd signals = simp append_assoc refl

-- The check of the received word says whether it is the PEC of the data.
matches_lem :
    (dat : List ℕ) (x y : ℕ)
    → All (λ b. b < 256) dat
    → x < 256
    → y < 256
    → matches (x ∷ y ∷ []) dat ≡ (if x * 256 + y == pec dat then 1 else 0)
unfolding matches
matches_lem dat x y all p q =
    let small : calc_crc16 dat < 65536 = omega (arith, calc_crc16-pec dat all, pec_lt dat all) in
    ground (arith, calc_crc16-pec dat all, low_byte (calc_crc16 dat) small)

-- Reading `n` bytes, n from 1 to 255, from a chip that answers with the bytes `dat` and the word of `x` and
-- `y`: the chip is woken, selected and sent the command with its PEC, then n + 2 bytes 0xff; the
-- buffer holds `dat`, and the result is 1 if the word is the PEC of `dat`, and else 0.
pub recv_data_daisychain-wire :
    (cs count cmd n0 n1 n2 n3 : ℕ) (dat : List ℕ) (x y : ℕ) (signals : List Signal)
    → 0 < length dat
    → length dat < 256
    → All (λ b. b < 256) dat
    → x < 256
    → y < 256
    → recv_data_daisychain
        (wire cs)
        count
        cmd
        true
        (length dat)
        (record { answers = n0 ∷ n1 ∷ n2 ∷ n3 ∷ (dat ++ (x ∷ y ∷ [])); signals = signals })
      ≡ some (
        if x * 256 + y == pec dat then 1 else 0,
        dat,
        record {
          answers = [];
          signals =
              signals
              ++ (opening cs cmd
                  ++ (as_signals (replicate (length dat) 0xff)
                      ++ (byte 0xff ∷ byte 0xff ∷ selected cs 0 ∷ [])));
        },
      )
unfolding recv_data_daisychain recv_bytes wake_up
recv_data_daisychain-wire cs count cmd n0 n1 n2 n3 [] x y signals some_data few all p q =
    absurd (omega arith)
recv_data_daisychain-wire cs count cmd n0 n1 n2 n3 (d ∷ dat) x y signals some_data few all p q =
    rw (le→ltb 255 (suc (length dat)) (omega arith)) rw
      (send_short_and_crc-wire cs cmd (n0 ∷ n1 ∷ n2 ∷ n3 ∷ d ∷ (dat ++ (x ∷ y ∷ []))) _)
      (rw
        (exchange_bytes-wire cs (replicate (suc (length dat)) 0xff) (d ∷ dat) (x ∷ y ∷ []) _
          (length-replicate (suc (length dat)) 0xff))
        (rw (exchange_bytes-wire cs (0xff ∷ 0xff ∷ []) (x ∷ y ∷ []) [] _ refl) (
          rw (matches_lem (d ∷ dat) x y all p q) rw (lt→ltb 0 (suc (length dat)) (omega arith))
            (simp append_assoc refl))))

-- Sending data to at least one chip: the chip is woken, selected, sent the command with its PEC,
-- and the data with theirs.
send_data_daisychain-wire :
    (cs count cmd : ℕ) (dat answers : List ℕ) (signals : List Signal)
    → 0 < count
    → All (λ b. b < 256) dat
    → send_data_daisychain
        (wire cs)
        count
        cmd
        (some dat)
        (record { answers = answers; signals = signals })
      ≡ record {
        answers = drop 2 (drop (length dat) (drop 4 answers));
        signals =
            signals
            ++ (opening cs cmd
                ++ (as_signals dat ++ (as_signals (word (pec dat)) ++ (selected cs 0 ∷ []))));
      }
unfolding send_data_daisychain wake_up
send_data_daisychain-wire cs zero cmd dat answers signals many all = absurd (omega arith)
send_data_daisychain-wire cs (suc count) cmd dat answers signals many all =
    rw (send_short_and_crc-wire cs cmd answers _) (
      rw (send_bytes-wire cs dat (drop 4 answers) _) (
        rw (send_bytes-wire cs _ (drop (length dat) (drop 4 answers)) _) (
          rw (calc_crc16-pec dat all) rw (lt→ltb 0 (suc count) (omega arith))
            (simp append_assoc refl))))
