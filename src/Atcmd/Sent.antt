-- ===== src/Atcmd/Sent.antt =====
-- What the commands send, whatever comes in.
use embedded_template.Prelude.{
  ℕ, zero, suc, ◌+◌, ◌-◌, ◌<◌, ◌≤◌, ◌≡◌, refl, sym, ap, ◌∙◌, true, false, inl, inr, Bool-cases,
  Option-cases, Option, none, some, List, [], ◌++◌, append_assoc, append-nil, u32, arith,
}
use embedded_template.Atcmd.Line.{
  Line, Expect, Outcome, pend_sem, sleep, send, clear_recv_buffer, read_reply, load, expect_round,
  expect_loop, expect, framed, send_command, await, exec_command,
}
use embedded_template.Atcmd.Ends.{loop_keeps, expect_loop_ends}
use embedded_template.Atcmd.Retry.{retry_until_reply}

abbrev pub repeated : ℕ → List ℕ → List ℕ
repeated zero s = []
repeated (suc n) s = s ++ repeated n s

pend_sem-sent : (ms : ℕ) (l : Line) → (pend_sem ms l).0.sent ≡ l.sent
unfolding pend_sem
pend_sem-sent ms l = ground arith

expect_round-sent :
    (prefix : List ℕ) (size end : ℕ) (o : Outcome)
    → (expect_round prefix size end o).1.line.sent ≡ o.line.sent
unfolding expect_round read_reply
expect_round-sent prefix size end o = ground (arith, pend_sem-sent (end - o.line.now) o.line)

expect-sent :
    (prefix : List ℕ) (size : ℕ) (buff : Option (List ℕ)) (ms : ℕ) (l : Line)
    → (expect prefix size buff ms l).line.sent ≡ l.sent
unfolding expect expect_loop
expect-sent prefix size buff ms l =
    let o : Outcome = record { line = l; buff = buff; rc = false } in
    let body = expect_round prefix size (u32 (l.now + ms)) in
    let (o', ends) =
      expect_loop_ends (suc (load l)) prefix size (u32 (l.now + ms)) o (omega arith) in
    let Same : Outcome → Type 0 = λ s. s.line.sent ≡ l.sent in
    let step : (s : Outcome) → Same s → Same (body s).1 =
      λ s h. expect_round-sent prefix size (u32 (l.now + ms)) s ∙ h in
    let result =
      loop_keeps body Same Same (λ s h _. step s h) (λ s h _. step s h) (suc (load l)) o o' ends
        refl in
    rw ends result

pub await-sent : (exp : Option Expect) (ms : ℕ) (l : Line) → (await exp ms l).line.sent ≡ l.sent
unfolding await sleep
await-sent none ms l = refl
await-sent (some exp) ms l = elim (Option-cases exp.expect) [
  | inl nothing ↦ rw (nothing, await) refl
  | inr (prefix, some_text) ↦
      rw (some_text, await) (expect-sent prefix exp.buff_size exp.recv_buff ms l)
]

-- A command is sent once, with a CR behind it unless it is empty, whatever is expected.
pub exec_command-sent :
    (cmd : List ℕ) (exp : Option Expect) (ms : ℕ) (l : Line)
    → (exec_command (some cmd) exp ms l).line.sent ≡ l.sent ++ framed cmd
unfolding exec_command send_command send clear_recv_buffer
exec_command-sent cmd exp ms l = await-sent exp ms (send_command (some cmd) l)

-- The command with what is sent behind it is sent once in each try.
pub retry_until_reply-framed :
    (cmd reply : List ℕ) (ms times : ℕ) (l : Line)
    → let (l', ok) = retry_until_reply (some cmd) reply ms times l in
      (n : ℕ) × (n ≤ times)
      × (l'.sent ≡ l.sent ++ repeated n (framed cmd))
      × (ok ≡ false → n ≡ times)
      × (ok ≡ true → 0 < n)
unfolding retry_until_reply
retry_until_reply-framed cmd reply ms zero l =
    (0, omega arith, sym (append-nil l.sent), λ _. refl, λ e. cc)
retry_until_reply-framed cmd reply ms (suc times) l =
    let exp : Expect = record { expect = some reply; recv_buff = none; buff_size = 0 } in
    let o = exec_command (some cmd) (some exp) ms l in
    let once = exec_command-sent cmd (some exp) ms l in
    elim (Bool-cases o.rc) [
      | inl ok ↦
          rw (ok, retry_until_reply)
            (
              1,
              omega arith,
              once ∙ ap (λ s. l.sent ++ s) (sym (append-nil (framed cmd))),
              λ e. cc,
              λ _. omega arith,
            )
      | inr failed ↦
          let (n, few, sent, all, _) = retry_until_reply-framed cmd reply ms times o.line in
          rw (failed, retry_until_reply)
            (
              suc n,
              omega arith,
              sent
                  ∙ ap (λ s. s ++ repeated n (framed cmd)) once
                  ∙ append_assoc l.sent (framed cmd) (repeated n (framed cmd)),
              λ e. ap suc (all e),
              λ _. omega arith,
            )
    ]
