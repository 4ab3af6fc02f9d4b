-- ===== src/Atcmd/Retry.antt =====
-- src/atcmd/atcmd.c: atcmd_retry_until_reply, atcmd_retry_until_replys, and the loop that takes lines
-- until one is an answer, which six functions of the file have.
use embedded_template.Prelude.{
  ℕ, zero, suc, ◌+◌, ◌-◌, Bool, true, false, Option, none, some, List, [], ◌∷◌, ltb, if◌then◌else◌,
  u32,
}
use embedded_template.RingBuffer.Strings.Prefix.{starts_with}
use embedded_template.Atcmd.Line.{Line, Expect, Outcome, loop, settled, load, exec_command}

-- `while (times--)`: the number of rounds is the one that `times` allows.
unfoldable pub retry_until_reply : Option (List ℕ) → List ℕ → ℕ → ℕ → Line → Line × Bool
unfolding exec_command
retry_until_reply cmd reply ms zero l = (l, false)
retry_until_reply cmd reply ms (suc times) l =
    let exp : Expect = record { expect = some reply; recv_buff = none; buff_size = 0 } in
    let o = exec_command cmd (some exp) ms l in
    elim o.rc [ true ↦ (o.line, true) | false ↦ retry_until_reply cmd reply ms times o.line ]

-- What a loop that polls the line does: with the buffer before each read, after a read that failed
-- (`none` is `continue`), and with the line read (`none` is the next round).
pub record Poll : Type 0 where
  pub prepare : List ℕ → List ℕ
  pub on_failure : Option Bool
  pub judge : List ℕ → Option Bool
  pub buff_size : ℕ

abbrev pub memory_of : Option (List ℕ) → List ℕ
memory_of none = []
memory_of (some memory) = memory

-- The round ends the loop with an answer, or the loop goes on.
abbrev pub decided : Option Bool → Outcome → Bool × Outcome
decided none o = (false, o)
decided (some answer) o = (true, record o { rc = answer })

-- A round of `for (; now < end; now = os_get_time())`; `rc` is what the function returns behind it.
unfoldable pub poll_round : Poll → ℕ → Bool → Outcome → Bool × Outcome
unfolding exec_command
poll_round p end final o =
    let exp : Expect = record {
      expect = some [];
      recv_buff = some (p.prepare (memory_of o.buff));
      buff_size = p.buff_size;
    } in
    let o' = exec_command none (some exp) (end - o.line.now) o.line in
    if ltb o.line.now end
    then (if o'.rc then decided (p.judge (memory_of o'.buff)) o' else decided p.on_failure o')
    else (true, record o { rc = final })

-- The last round is one that leaves, which may follow one that finds the time over.
unfoldable pub poll_loop : Poll → ℕ → Bool → Outcome → Outcome
unfolding poll_round loop
poll_loop p end final o = settled o (loop (suc (suc (load o.line))) (poll_round p end final) o)

abbrev pub polling : Line → List ℕ → Outcome
polling l memory = record { line = l; buff = some memory; rc = false }

abbrev pub same {ℓ} : {A : Type ℓ} → A → A
same a = a

unfoldable pub one_of : List (List ℕ) → List ℕ → Option Bool
one_of [] memory = none
one_of (reply ∷ replys) memory =
    if starts_with reply memory then some true else one_of replys memory

-- A round of the outer loop: the time is over when the inner loop leaves without an answer. `memory`
-- is what lies at `buf`.
unfoldable pub replys_round : List ℕ → List (List ℕ) → ℕ → Outcome → Outcome
unfolding exec_command poll_loop one_of
replys_round cmd replys ms o =
    let end = u32 (o.line.now + ms) in
    let l = (exec_command (some cmd) none 0 o.line).line in
    let p : Poll = record {
      prepare = same;
      on_failure = none;
      judge = one_of replys;
      buff_size = 24;
    } in
    poll_loop p end false (polling l (memory_of o.buff))

unfoldable pub retry_until_replys : List ℕ → List (List ℕ) → ℕ → ℕ → Outcome → Line × Bool
unfolding replys_round
retry_until_replys cmd replys ms zero o = (o.line, false)
retry_until_replys cmd replys ms (suc times) o =
    let o' = replys_round cmd replys ms o in
    elim o'.rc [ true ↦ (o'.line, true) | false ↦ retry_until_replys cmd replys ms times o' ]
