-- ===== src/M35/Configure.antt =====
-- src/dtu_m35/dtu_m35.c: start_and_config_modem.
use embedded_template.Prelude.{
  ℕ, Bool, true, false, ◌&&◌, not, none, some, List, [], ◌∷◌, if◌then◌else◌,
}
use embedded_template.Atcmd.Text.{codes}
use embedded_template.Atcmd.Line.{Line, exec_command}
use embedded_template.Atcmd.Retry.{retry_until_reply, retry_until_replys, polling}
use embedded_template.M35.{M35, powerup, configure, sim_init, wait_register, with_status, power_up}

-- A command that is tried until a reply comes; without the reply, one that is `required` ends the
-- configuration.
pub record Setting : Type 0 where
  pub cmd : List ℕ
  pub reply : List ℕ
  pub ms : ℕ
  pub times : ℕ
  pub required : Bool

unfoldable pub apply_settings : List Setting → Line → Line × Bool
unfolding retry_until_reply
apply_settings [] l = (l, true)
apply_settings (s ∷ ss) l =
    let (l', ok) = retry_until_reply (some s.cmd) s.reply s.ms s.times l in
    let rest = apply_settings ss l' in if s.required && not ok then (l', false) else rest

abbrev pub must : List ℕ → ℕ → ℕ → Setting
must cmd ms times = record {
  cmd = cmd;
  reply = codes "OK";
  ms = ms;
  times = times;
  required = true;
}

-- Those before the SIM card is asked for.
abbrev pub first_settings : List Setting
first_settings =
    must (codes "ATE0") 1200 4
    ∷ must (codes "AT+CREG=2") 1200 4
    ∷ must (codes "AT+CGREG=0") 1200 4
    ∷ must (codes "AT+CMGF=1") 1200 4
    ∷ must (codes "AT+CSDH=0") 1200 4
    ∷ (record {
      cmd = codes "AT+QIHEAD=1";
      reply = codes "OK";
      ms = 1200;
      times = 1;
      required = false;
    })
    ∷ must (codes "AT+CNMI=2,2,0,0,0") 1000 5
    ∷ []

abbrev pub sim_setting : List Setting
sim_setting =
    (record {
      cmd = codes "AT+CPIN?";
      reply = codes "+CPIN: READY";
      ms = 1000;
      times = 10;
      required = true;
    })
    ∷ []

-- Those behind the registration.
abbrev pub last_settings : List Setting
last_settings =
    must (codes "AT+CMGF=1") 1000 5
    ∷ must (codes "AT+CSCS=\"GSM\"") 1000 5
    ∷ (record {
      cmd = codes "AT+QIPROMPT=0";
      reply = codes "OK";
      ms = 500;
      times = 5;
      required = false;
    })
    ∷ []

abbrev pub creg_replys : List (List ℕ)
creg_replys = codes "+CREG: 2,1" ∷ codes "+CREG: 2,5" ∷ []

abbrev pub cgreg_replys : List (List ℕ)
cgreg_replys = codes "+CGREG: 0,1" ∷ codes "+CGREG: 0,5" ∷ []

-- `memory` and `memory'` are what lies at the buffer of `atcmd_retry_until_replys` in the two calls.
unfoldable pub registered : List ℕ → List ℕ → Line → Line × Bool
unfolding retry_until_replys apply_settings
registered memory memory' l =
    let (l1, ok) = retry_until_replys (codes "AT+CREG?") creg_replys 1000 30 (polling l memory) in
    let (l2, _) =
      retry_until_replys (codes "AT+CGREG?") cgreg_replys 1000 30 (polling l1 memory') in
    let done = apply_settings last_settings l2 in if ok then done else (l1, false)

unfoldable pub start_and_config_modem : List ℕ → List ℕ → M35 → M35 × Bool
start_and_config_modem memory memory' m =
    let m1 = with_status configure (power_up (with_status powerup m)) in
    let l1 = (exec_command (some (codes "AT")) none 500 m1.line).line in
    let (l2, _) = retry_until_reply (some (codes "AT")) (codes "Call Ready") 2000 1 l1 in
    let (l3, ok) = apply_settings first_settings l2 in
    let (l4, ready) = apply_settings sim_setting l3 in
    let (l5, done) = registered memory memory' l4 in
    if not ok
    then (record m1 { line = l3 }, false)
    else if not ready
    then (record m1 { line = l4; runtime_status = sim_init }, false)
    else (record m1 { line = l5; runtime_status = wait_register }, done)
