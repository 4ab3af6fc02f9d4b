-- ===== src/M35/Restart.antt =====
-- src/dtu_m35/dtu_m35.c: the outer loop of dtum35_run, up to the modem that is configured, and the
-- times between its attempts.
use embedded_template.Prelude.{
  ℕ, zero, suc, ◌+◌, ◌<◌, ◌≤◌, ◌≡◌, refl, ap, ◌∙◌, Bool, true, false, inl, inr, min, Option, none,
  some, List, length, ltb, Bool-cases, List-cases, get_or, if◌then◌else◌, arith,
}
use embedded_template.Atcmd.Ends.{loop_ends, loop_keeps}
use embedded_template.M35.{
  M35, PinCall, wait_time_table_for_restart, power_enable, delat_to_restart, powerup, with_status,
  is_poweron, switch_on, set_pin, wait, power_round, power_up, stop_modem, wait_to_restart,
}
use embedded_template.M35.Configure.{start_and_config_modem}

-- What follows an attempt; `none` is a read outside the table of times.
unfoldable pub after_attempt : M35 → Bool → Option (M35 × Bool)
after_attempt m true = some (m, true)
after_attempt m false = elim (wait_to_restart (stop_modem (with_status delat_to_restart m))) [
  | none ↦ none
  | some m' ↦ some (m', false)
]

-- One attempt to configure the modem; `memory` and `memory'` lie at its local buffers.
unfoldable pub attempt : List ℕ → List ℕ → M35 → Option (M35 × Bool)
attempt memory memory' m =
    let (m', ok) = start_and_config_modem memory memory' m in after_attempt m' ok

-- At most `n` attempts, up to the first that succeeds.
unfoldable pub attempts : ℕ → List ℕ → List ℕ → M35 → Option (M35 × Bool)
attempts zero memory memory' m = some (m, false)
attempts (suc n) memory memory' m = elim (attempt memory memory' m) [
  | none ↦ none
  | some (m', true) ↦ some (m', true)
  | some (m', false) ↦ attempts n memory memory' m'
]

abbrev pub restart_index : M35 → ℕ
restart_index m = m.wait_time_index_for_restart

-- An answer that the modem is off comes from the list.
is_poweron_lem :
    (m : M35)
    → (restart_index (is_poweron m).1 ≡ restart_index m)
      × (length (is_poweron m).1.answers ≤ length m.answers)
      × ((is_poweron m).0 ≡ false → length (is_poweron m).1.answers < length m.answers)
unfolding is_poweron
is_poweron_lem m = elim (List-cases m.answers) [
  | inl none_left ↦
      rw (none_left, is_poweron) (refl, omega (arith, ap (length {0}) none_left), λ e. cc)
  | inr (b, bs, some_left) ↦
      rw (some_left, is_poweron)
        (
          refl,
          omega (arith, ap (length {0}) some_left),
          λ _. omega (arith, ap (length {0}) some_left),
        )
]

switch_on_lem :
    (m : M35)
    → (restart_index (switch_on m) ≡ restart_index m) × ((switch_on m).answers ≡ m.answers)
unfolding switch_on set_pin wait
switch_on_lem m = (refl, refl)

pin_lem :
    (p : PinCall) (ms : ℕ) (m : M35)
    → (restart_index (wait ms (set_pin p m)) ≡ restart_index m)
      × ((wait ms (set_pin p m)).answers ≡ m.answers)
unfolding set_pin wait
pin_lem p ms m = (refl, refl)

wait_lem :
    (ms : ℕ) (m : M35)
    → (restart_index (wait ms m) ≡ restart_index m) × ((wait ms m).answers ≡ m.answers)
unfolding wait
wait_lem ms m = (refl, refl)

power_round_lem :
    (m : M35)
    → (restart_index (power_round m).1 ≡ restart_index m)
      × ((power_round m).0 ≡ false → length (power_round m).1.answers < length m.answers)
unfolding power_round
power_round_lem m =
    let m1 = (is_poweron m).1 in
    let m2 = (is_poweron (switch_on m1)).1 in
    ground (
      arith,
      is_poweron_lem m,
      switch_on_lem m1,
      is_poweron_lem (switch_on m1),
      wait_lem 5000 m2,
      pin_lem (power_enable false) 3000 m2,
      ap (length {0}) (switch_on_lem m1).1,
      ap (length {0}) (pin_lem (power_enable false) 3000 m2).1,
    )

power_up-restart_index : (m : M35) → restart_index (power_up m) ≡ restart_index m
unfolding power_up
power_up-restart_index m =
    let Same : M35 → Type 0 = λ s. restart_index s ≡ restart_index m in
    let step : (s : M35) → Same s → Same (power_round s).1 = λ s h. (power_round_lem s).0 ∙ h in
    let fuel = suc (length m.answers) in
    let (m', ends) =
      loop_ends power_round (λ (s : M35). length s.answers) (λ s. (power_round_lem s).1) fuel m
        (omega arith) in
    let same =
      loop_keeps power_round Same Same (λ s h _. step s h) (λ s h _. step s h) fuel m m' ends
        refl in
    rw ends same

start-restart_index :
    (memory memory' : List ℕ) (m : M35)
    → restart_index (start_and_config_modem memory memory' m).0 ≡ restart_index m
unfolding start_and_config_modem
start-restart_index memory memory' m =
    ground (arith, power_up-restart_index (with_status powerup m))

stop_modem-restart_index : (m : M35) → restart_index (stop_modem m) ≡ restart_index m
unfolding stop_modem set_pin wait
stop_modem-restart_index m = ground (arith, is_poweron_lem m)

wait_to_restart_lem :
    (m : M35)
    → restart_index m ≤ 6
    → (m' : M35) × (wait_to_restart m ≡ some m') × (restart_index m' ≡ min (restart_index m + 1) 6)
unfolding wait_to_restart wait
wait_to_restart_lem m h =
    let within : ltb m.wait_time_index_for_restart 7 ≡ true = ground arith in
    elim (Bool-cases (ltb m.wait_time_index_for_restart 6)) [
      | inl more ↦ (
        record (wait (get_or wait_time_table_for_restart m.wait_time_index_for_restart 0) m) {
          wait_time_index_for_restart = m.wait_time_index_for_restart + 1;
        },
        rw (within, more) refl,
        ground arith,
      )
      | inr last ↦ (
        wait (get_or wait_time_table_for_restart m.wait_time_index_for_restart 0) m,
        rw (within, last) refl,
        ground arith,
      )
    ]

-- An attempt that fails moves the index one further, up to the last time of the table.
after_attempt_lem :
    (m : M35) (ok : Bool)
    → restart_index m ≤ 6
    → (m' : M35) × (after_attempt m ok ≡ some (m', ok))
      × (restart_index m' ≡ (if ok then restart_index m else min (restart_index m + 1) 6))
unfolding after_attempt
after_attempt_lem m true h = (m, refl, refl)
after_attempt_lem m false h =
    let stopped = stop_modem (with_status delat_to_restart m) in
    let same : restart_index stopped ≡ restart_index m =
      stop_modem-restart_index (with_status delat_to_restart m) in
    let (m', result, next) = wait_to_restart_lem stopped (omega arith) in
    (m', rw (result, after_attempt) refl, omega arith)

attempt_lem :
    (memory memory' : List ℕ) (m : M35)
    → restart_index m ≤ 6
    → (m' : M35) × (ok : Bool) × (attempt memory memory' m ≡ some (m', ok))
      × (restart_index m' ≡ (if ok then restart_index m else min (restart_index m + 1) 6))
unfolding attempt
attempt_lem memory memory' m h =
    let s = start_and_config_modem memory memory' m in
    let same = start-restart_index memory memory' m in
    let (m', done, next) = after_attempt_lem s.0 s.1 (omega arith) in
    (m', s.1, done, next ∙ ap (λ i. if s.1 then i else min (i + 1) 6) same)

-- However often the modem cannot be configured, every time between two attempts is read from within
-- the table, and the index of the next is the number of failures so far, or 6, its last, behind more.
pub attempts_lem :
    (n : ℕ) (memory memory' : List ℕ) (m : M35)
    → restart_index m ≤ 6
    → (m' : M35) × (ok : Bool) × (attempts n memory memory' m ≡ some (m', ok))
      × (restart_index m' ≤ 6)
      × (ok ≡ false → restart_index m' ≡ min (restart_index m + n) 6)
unfolding attempts
attempts_lem zero memory memory' m h = (m, false, refl, h, λ _. omega arith)
attempts_lem (suc n) memory memory' m h =
    let (m', ok, done, next) = attempt_lem memory memory' m h in
    elim (Bool-cases ok) [
      | inl success ↦
          let kept = rw success at next in
          rw (done, success, attempts) (m', true, refl, omega arith, λ e. cc)
      | inr failed ↦
          let moved = rw failed at next in
          let (m'', ok', rest, within, last) = attempts_lem n memory memory' m' (omega arith) in
          rw (done, failed, attempts) (m'', ok', rest, within, λ e. omega (arith, last e))
    ]
