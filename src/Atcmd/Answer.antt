-- ===== src/Atcmd/Answer.antt =====
-- What a command does when the modem answers it.
use embedded_template.Prelude.{
  ℕ, suc, ◌+◌, ◌<◌, ◌≡◌, ◌≢◌, refl, ap, subst, ◌∙◌, Bool, true, false, Option, some, List, [], ◌∷◌,
  ◌++◌, length, All, ne→==, lt→ltb, u32, arith,
}
use embedded_template.RingBuffer.{RingBuffer, clear}
use embedded_template.RingBuffer.Invariant.{Holds, clear-Holds}
use embedded_template.RingBuffer.Strings.{read_string_and_is_with_prefix}
use embedded_template.RingBuffer.Strings.Laws.{first_string, after_string, kept}
use embedded_template.RingBuffer.Strings.Prefix.{starts_with, with_prefix_refines}
use embedded_template.Atcmd.{Atcmd}
use embedded_template.Atcmd.Receive.{bytes_of}
use embedded_template.Atcmd.Announce.{AtLineStart}
use embedded_template.Atcmd.Typed.{taking, IsText, line_lem}
use embedded_template.Atcmd.Line.{
  Line, Wait, Expect, Outcome, pend_sem, send, clear_recv_buffer, read_reply, loop, settled, load,
  expect_round, expect_loop, expect, framed, send_command, await, exec_command, overwrite, is_some,
}

-- No line is being taken, and the ring of lines has `cap` places.
pub record Idle (l : Line) (cap : ℕ) : Type 0 where
  pub start : AtLineStart l.atcmd
  pub queue : List ℕ
  pub holds : Holds l.atcmd.rb cap queue

-- A wait in which one line of text comes in, which is no announcement of data.
pub record Says (w : Wait) (ds : List (ℕ × ℕ)) : Type 0 where
  pub cr : ℕ
  pub lf : ℕ
  pub arrives : w.arrived ≡ ds ++ (cr, 13) ∷ (lf, 10) ∷ []
  pub text : IsText ds
  pub other : starts_with (73 ∷ 80 ∷ 68 ∷ []) (bytes_of ds) ≡ false

text_first :
    (ds : List (ℕ × ℕ)) → IsText ds → first_string (bytes_of ds ++ 0 ∷ []) ≡ bytes_of ds ++ 0 ∷ []
text_first [] t = refl
text_first ((now, b) ∷ ds) (_, _, some_byte, t) =
    rw (ne→== b 0 some_byte) (ap (λ s. b ∷ s) (text_first ds t))

text_after : (ds : List (ℕ × ℕ)) → IsText ds → after_string (bytes_of ds ++ 0 ∷ []) ≡ []
text_after [] t = refl
text_after ((now, b) ∷ ds) (_, _, some_byte, t) = rw (ne→== b 0 some_byte) (text_after ds t)

-- A line, given by its parts, with the receiver at the start of a line and nothing posted.
abbrev pub waiting : List ℕ → Option RingBuffer → Atcmd → List ℕ → ℕ → List Wait → Line
waiting p rb a s n ws = record {
  atcmd = record (taking p 0 rb a) { posts = 0 };
  sent = s;
  now = n;
  feed = ws;
}

-- A round that finds a line of text reads it.
round_answered :
    (prefix : List ℕ) (size end cap : ℕ) (buff : Option (List ℕ)) (ds : List (ℕ × ℕ)) (p : List ℕ)
    (rb : Option RingBuffer) (a : Atcmd) (s : List ℕ) (n : ℕ) (w : Wait) (ws : List Wait)
    → n < end
    → Says w ds
    → length p ≡ 10
    → Holds rb cap []
    → length ds < cap
    → (p' : List ℕ) × (rb' : Option RingBuffer) × (length p' ≡ 10)
      × Holds rb' cap (bytes_of ds ++ 0 ∷ [])
      × (let o = read_reply prefix size buff (waiting p' rb' a s (u32 (n + w.elapsed)) ws) in
          expect_round prefix size end
            (record { line = waiting p rb a s n (w ∷ ws); buff = buff; rc = false })
          ≡ (o.rc, o))
unfolding expect_round pend_sem
round_answered prefix size end cap buff ds p rb a s n w ws early says ten h room =
    let t =
      line_lem ds says.cr says.lf cap [] p rb (record a { posts = 0 }) ten says.text says.other h
        (omega arith) in
    (t.prefix, t.ring, t.ten, t.queue, rw (lt→ltb n end early, says.arrives, t.result) refl)

starts_with_more :
    (prefix s more : List ℕ) → starts_with prefix s ≡ true → starts_with prefix (s ++ more) ≡ true
starts_with_more [] s more h = refl
starts_with_more (p ∷ prefix) [] more h = cc
starts_with_more (p ∷ prefix) (x ∷ s) more h = ground (arith, starts_with_more prefix s more)

-- What reading a line of text leaves.
reply_lem :
    (prefix : List ℕ) (size cap : ℕ) (buff : Option (List ℕ)) (ds : List (ℕ × ℕ)) (p : List ℕ)
    (rb : Option RingBuffer) (a : Atcmd) (s : List ℕ) (n : ℕ) (ws : List Wait)
    → IsText ds
    → Holds rb cap (bytes_of ds ++ 0 ∷ [])
    → All (λ c. c ≢ 0) prefix
    → size < 65536
    → starts_with prefix (bytes_of ds) ≡ true
    → (rb' : Option RingBuffer) × Holds rb' cap []
      × (read_reply prefix size buff (waiting p rb a s n ws) ≡ record {
        line = waiting p rb' a s n ws;
        buff = overwrite (kept (is_some buff) size (bytes_of ds ++ 0 ∷ [])) buff;
        rc = true;
      })
unfolding read_reply
reply_lem prefix size cap buff ds p rb a s n ws text h nonzero b match =
    let (holds, out, _, answer) =
      with_prefix_refines rb cap (bytes_of ds ++ 0 ∷ []) prefix (is_some buff) size h nonzero b in
    let rb' = (read_string_and_is_with_prefix rb (some prefix) (is_some buff) (some size)).0 in
    let success =
      answer
      ∙ ap (starts_with prefix) (text_first ds text)
      ∙ starts_with_more prefix (bytes_of ds) (0 ∷ []) match in
    (
      rb',
      subst (Holds rb' cap) (text_after ds text) holds,
      rw (out, text_first ds text, success) refl,
    )

pub loop_once {ℓ} :
    {S : Type ℓ} (body : S → Bool × S) (fuel : ℕ) (s0 s s' : S)
    → body s ≡ (true, s')
    → settled s0 (loop (suc fuel) body s) ≡ s'
unfolding loop
loop_once body fuel s0 s s' e = rw (ap (λ r. r.0) e, loop) (ap (λ r. r.1) e)

-- The one round is all that the loop does.
pub expect_answered :
    (prefix : List ℕ) (size ms cap : ℕ) (buff : Option (List ℕ)) (ds : List (ℕ × ℕ)) (p : List ℕ)
    (rb : Option RingBuffer) (a : Atcmd) (s : List ℕ) (n : ℕ) (w : Wait) (ws : List Wait)
    → 0 < ms
    → n + ms < 4294967296
    → Says w ds
    → length p ≡ 10
    → Holds rb cap []
    → length ds < cap
    → All (λ c. c ≢ 0) prefix
    → size < 65536
    → starts_with prefix (bytes_of ds) ≡ true
    → (p' : List ℕ) × (rb' : Option RingBuffer) × (length p' ≡ 10)
      × Holds rb' cap []
      × (expect prefix size buff ms (waiting p rb a s n (w ∷ ws)) ≡ record {
        line = waiting p' rb' a s (u32 (n + w.elapsed)) ws;
        buff = overwrite (kept (is_some buff) size (bytes_of ds ++ 0 ∷ [])) buff;
        rc = true;
      })
unfolding expect expect_loop
expect_answered prefix size ms cap buff ds p rb a s n w ws some_time time says ten h room nonzero b
      match =
    let (p', rb1, ten', holds, round) =
      round_answered prefix size (u32 (n + ms)) cap buff ds p rb a s n w ws (omega arith) says ten h
        room in
    let (rb', empty, reply) =
      reply_lem prefix size cap buff ds p' rb1 a s (u32 (n + w.elapsed)) ws says.text holds nonzero
        b match in
    let l = waiting p rb a s n (w ∷ ws) in
    let start : Outcome = record { line = l; buff = buff; rc = false } in
    let body = expect_round prefix size (u32 (n + ms)) in
    let leaves = round ∙ ap (λ (o : Outcome). (o.rc, o)) reply in
    (p', rb', ten', empty, loop_once body (load l) start start _ leaves)

-- When a line of text is in the next wait, `prefix` is what it begins with, and it fits the ring, the
-- command is answered.
pub exec_command_answered :
    (c : ℕ) (cmd prefix : List ℕ) (size ms cap : ℕ) (buff : Option (List ℕ)) (ds : List (ℕ × ℕ))
    (w : Wait) (ws : List Wait) (l : Line)
    → Idle l cap
    → l.feed ≡ w ∷ ws
    → Says w ds
    → length ds < cap
    → starts_with prefix (bytes_of ds) ≡ true
    → All (λ b. b ≢ 0) prefix
    → size < 65536
    → 0 < ms
    → l.now + ms < 4294967296
    → let exp : Expect = record { expect = some prefix; recv_buff = buff; buff_size = size } in
      let o = exec_command (some (c ∷ cmd)) (some exp) ms l in
      (o.rc ≡ true)
      × (o.line.sent ≡ l.sent ++ (c ∷ cmd ++ 13 ∷ []))
      × (o.buff ≡ overwrite (kept (is_some buff) size (bytes_of ds ++ 0 ∷ [])) buff)
      × (o.line.now ≡ u32 (l.now + w.elapsed))
      × (o.line.feed ≡ ws)
      × Idle o.line cap
unfolding exec_command send_command await send clear_recv_buffer
exec_command_answered c cmd prefix size ms cap buff ds w ws l idle feed says room match nonzero b
      some_time time =
    let (mode, first, ten) = idle.start in
    let rb = clear l.atcmd.rb in
    let empty = clear-Holds l.atcmd.rb cap idle.queue idle.holds in
    let ready = send_command (some (c ∷ cmd)) l in
    let same : ready
        ≡ waiting l.atcmd.auto_prefix rb l.atcmd (l.sent ++ framed (c ∷ cmd)) l.now (w ∷ ws) =
      rw (mode, first, feed) refl in
    let (p', rb', ten', empty', result) =
      expect_answered prefix size ms cap buff ds l.atcmd.auto_prefix rb l.atcmd
        (l.sent ++ framed (c ∷ cmd)) l.now w ws some_time time says ten empty room nonzero b
        match in
    let all = ap (expect prefix size buff ms) same ∙ result in
    rw all (
      refl,
      refl,
      refl,
      refl,
      refl,
      record { start = (refl, refl, ten'); queue = []; holds = empty' },
    )
