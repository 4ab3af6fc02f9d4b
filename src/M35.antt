-- ===== src/M35.antt =====
-- src/dtu_m35/dtu_m35.c: the driver of an M35 modem, over the engine for AT commands. The questions
-- whether the modem is on are answered from a list, behind the end of which it is on.
pub mod Configure
pub mod Status
pub mod Queue
pub mod Serve
pub mod Restart
mod Tests
use embedded_template.Prelude.{
  ℕ, suc, ◌+◌, Bool, true, false, Option, none, some, List, [], ◌∷◌, ◌++◌, length, replicate,
  get_or, ltb, if◌then◌else◌,
}
use embedded_template.RingBuffer.{RingBuffer, init}
use embedded_template.Atcmd.Line.{Line, loop, settled, sleep, atcmd_init}

-- `enum DTUM35_RUNTIME_STATUS`, the values that the file sets and the first.
pub data RuntimeStatus : Type 0 where
  unknown : RuntimeStatus
  powerup : RuntimeStatus
  configure : RuntimeStatus
  wait_register : RuntimeStatus
  delat_to_restart : RuntimeStatus
  sim_init : RuntimeStatus

-- `enum DTUM35_OPS`
pub data Operator : Type 0 where
  ops_unknown : Operator
  china_unioncom : Operator
  china_mobile : Operator
  china_telecom : Operator

-- A call of `power_enable` or of `power_key`, with its argument.
pub data PinCall : Type 0 where
  power_enable : Bool → PinCall
  power_key : Bool → PinCall

-- `struct dtu_m35`, with the engine and its line in `line`. `answers` is what `is_poweron` will
-- return, `calls` what the pins were set to, `cmd_posts` the count of `cmd_sem`, and `stored` what was
-- stored through the `ret` pointers of the commands.
pub record M35 : Type 0 where
  pub line : Line
  pub answers : List Bool
  pub calls : List PinCall
  pub cmd_posts : ℕ
  pub cmd_rb : Option RingBuffer
  pub runtime_status : RuntimeStatus
  pub wait_time_index_for_restart : ℕ
  pub ops : Operator
  pub imei : List ℕ
  pub ccid : List ℕ
  pub lac : ℕ
  pub ci : ℕ
  pub rssi : ℕ
  pub ber : ℕ
  pub data_acked : ℕ
  pub stored : List (ℕ × Bool)

unfoldable pub is_poweron : M35 → Bool × M35
is_poweron m = elim m.answers [ [] ↦ (true, m) | b ∷ bs ↦ (b, record m { answers = bs }) ]

unfoldable pub wait : ℕ → M35 → M35
unfolding sleep
wait ms m = record m { line = sleep ms m.line }

unfoldable pub set_pin : PinCall → M35 → M35
set_pin p m = record m { calls = m.calls ++ p ∷ [] }

abbrev pub with_status : RuntimeStatus → M35 → M35
with_status s m = record m { runtime_status = s }

-- The calls that switch the modem on.
unfoldable pub switch_on : M35 → M35
unfolding set_pin wait
switch_on m = wait 800 (
    set_pin (power_key false)
      (wait 1800 (set_pin (power_key true) (wait 1000 (set_pin (power_enable true) m)))))

-- A round of `while (!m35->platform->is_poweron())`.
unfoldable pub power_round : M35 → Bool × M35
power_round m =
    let (on, m1) = is_poweron m in
    let (on', m2) = is_poweron (switch_on m1) in
    if on
    then (true, m1)
    else if on'
    then (true, wait 5000 m2)
    else (false, wait 3000 (set_pin (power_enable false) m2))

-- Each round that goes on uses up an answer.
unfoldable pub power_up : M35 → M35
unfolding power_round loop
power_up m = settled m (loop (suc (length m.answers)) power_round m)

unfoldable pub stop_modem : M35 → M35
unfolding is_poweron set_pin wait
stop_modem m =
    let (on, m1) = is_poweron m in
    let m2 = wait 12000 (set_pin (power_key false) (wait 1200 (set_pin (power_key true) m1))) in
    set_pin (power_enable false) (if on then m2 else m1)

-- In milliseconds.
abbrev pub wait_time_table_for_restart : List ℕ
wait_time_table_for_restart = 10000 ∷ 30000 ∷ 100000 ∷ 300000 ∷ 900000 ∷ 1800000 ∷ 3600000 ∷ []

-- An index out of range is no element of the table: `none`.
unfoldable pub wait_to_restart : M35 → Option M35
unfolding wait
wait_to_restart m =
    let i = m.wait_time_index_for_restart in
    let m' = wait (get_or wait_time_table_for_restart i 0) m in
    if ltb i 7
    then some (if ltb i 6 then record m' { wait_time_index_for_restart = i + 1 } else m')
    else none

-- The buffers lie in the struct, which is filled with 0 before; `l` keeps what it has sent.
unfoldable pub dtum35_init : Line → List Bool → List PinCall → M35
unfolding init atcmd_init
dtum35_init l answers calls = record {
  line = record l {
    atcmd = atcmd_init (replicate 100 0) 100 (replicate 200 0) 200 (record {
      auto_prefix = replicate 10 0;
      auto_prefix_index = 0;
      ipd_length = 0;
      ipd_recv_index = 0;
      ipd_rb = none;
      rb = none;
      posts = 0;
      time_to_default = 0;
      serial_recv = l.atcmd.serial_recv;
    });
  };
  answers = answers;
  calls = calls;
  cmd_posts = 0;
  cmd_rb = some (init (replicate 100 0) 100);
  runtime_status = unknown;
  wait_time_index_for_restart = 0;
  ops = ops_unknown;
  imei = replicate 20 0;
  ccid = replicate 24 0;
  lac = 0;
  ci = 0;
  rssi = 0;
  ber = 0;
  data_acked = 0;
  stored = [];
}
