-- ===== src/Softi2c/Transfers.antt =====
-- Whole transfers of src/i2c/softi2c.c: what the bus carries, and what the caller is told.
use embedded_template.Prelude.{
  ℕ, suc, ◌+◌, ◌*◌, ◌<◌, ◌==◌, ne→==, Bool, true, false, ◌≡◌, refl, some, List, [], ◌∷◌, length,
  All, if◌then◌else◌, u8, arith,
}
use embedded_template.Softi2c.{write_loop, read_loop, write, then_read, write_then_read}
use embedded_template.Softi2c.Monitor.{Symbol, started, stopped, as_level, master, idle, low}
use embedded_template.Softi2c.Bytes.{
  start_lem, restart_lem, stop_lem, send_byte_lem, receive_byte_lem, releases, shows, written,
  received,
}

-- The bytes to write, each with whether the slave acknowledges it.
abbrev pub Script : Type 0
Script = List (ℕ × Bool)

abbrev pub ack_level : Bool → ℕ
ack_level true = 0
ack_level false = 1

abbrev pub bytes_of : Script → List ℕ
bytes_of [] = []
bytes_of ((b, ok) ∷ script) = b ∷ bytes_of script

abbrev pub AllBytes : Script → Type 0
AllBytes [] = Unit {0}
AllBytes ((b, ok) ∷ script) = (b < 256) × AllBytes script

-- The slave's levels up to its first refusal.
abbrev pub offered : Script → List ℕ → List ℕ
offered [] after = after
offered ((b, ok) ∷ script) after =
    releases (ack_level ok) (if ok then offered script after else after)

abbrev pub acknowledged : Script → ℕ
acknowledged [] = 0
acknowledged ((b, ok) ∷ script) = if ok then suc (acknowledged script) else 0

abbrev pub all_acknowledged : Script → Bool
all_acknowledged [] = true
all_acknowledged ((b, ok) ∷ script) = if ok then all_acknowledged script else false

-- The pulses of the bytes up to the first refusal, the newest first.
abbrev pub written_all : Script → List Symbol → List Symbol
written_all [] before = before
written_all ((b, ok) ∷ script) before =
    let before' = written b (ack_level ok) before in
    if ok then written_all script before' else before'

abbrev pub shown_all : List ℕ → List ℕ → List ℕ
shown_all [] after = after
shown_all (b ∷ dat) after = shows b (shown_all dat after)

abbrev pub received_all : List ℕ → List Symbol → List Symbol
received_all [] before = before
received_all (b ∷ dat) before =
    received_all dat (received b (if length dat == 0 then 1 else 0) before)

pub write_loop_lem :
    (script : Script) (after : List ℕ) (g : List Symbol)
    → AllBytes script
    → write_loop master (bytes_of script) (low 1 (offered script after) g)
      ≡ (acknowledged script, all_acknowledged script, low 1 after (written_all script g))
unfolding write_loop
write_loop_lem [] after g all = refl
write_loop_lem ((b, true) ∷ script) after g (less, all) =
    rw (send_byte_lem b 0 1 (offered script after) g less)
      (rw (write_loop_lem script after (written b 0 g) all) refl)
write_loop_lem ((b, false) ∷ script) after g (less, all) =
    rw (send_byte_lem b 1 1 after g less) refl

-- The master's level in the pulse after a byte, with `left` more to come.
abbrev nack_level : ℕ → ℕ
nack_level left = if left == 0 then 1 else 0

-- SDA as the master leaves it after the bytes.
abbrev last_level : List ℕ → ℕ → ℕ
last_level [] level = level
last_level (b ∷ dat) level = last_level dat (nack_level (length dat))

as_level-nack_level : (left : ℕ) → as_level (nack_level left) ≡ nack_level left
as_level-nack_level left = ground arith

read_loop_lem :
    (dat : List ℕ) (level : ℕ) (after : List ℕ) (g : List Symbol)
    → All (λ b. b < 256) dat
    → read_loop master (length dat) (low level (shown_all dat after) g)
      ≡ (dat, low (last_level dat level) after (received_all dat g))
unfolding read_loop
read_loop_lem [] level after g all = refl
read_loop_lem (b ∷ dat) level after g (less, all) =
    let left : ℕ = length dat in
    rw (receive_byte_lem b (nack_level left) level (shown_all dat after) g less) (
      rw (as_level-nack_level left)
        (rw (read_loop_lem dat (nack_level left) after (received b (nack_level left) g) all) refl))

-- The two bytes that address a slave: to write, and to read.
abbrev pub to_write : ℕ → ℕ
to_write addr = u8 (addr * 2)

abbrev pub to_read : ℕ → ℕ
to_read addr = u8 (addr * 2 + 1)

-- Writing to a slave that answers by a script: the bus carries a start, the address with a 0, the
-- bytes as far as they are acknowledged, and a stop. The result is the number of data bytes that
-- were acknowledged before the first refusal, 0 if the address was not, and the bus is idle again.
pub write_lem :
    (addr : ℕ) (ok : Bool) (script : Script) (after : List ℕ) (g : List Symbol)
    → AllBytes script
    → write master addr (bytes_of script) (idle (offered ((to_write addr, ok) ∷ script) after) g)
      ≡ (
        if ok then acknowledged script else 0,
        idle after (stopped ∷ written_all ((to_write addr, ok) ∷ script) (started ∷ g)),
      )
unfolding write
write_lem addr true script after g all =
    rw (start_lem (offered ((to_write addr, true) ∷ script) after) g) (
      rw (send_byte_lem (to_write addr) 0 0 (offered script after) (started ∷ g) (omega arith)) (
        rw (write_loop_lem script after (written (to_write addr) 0 (started ∷ g)) all) (
          rw (stop_lem 1 after (written_all script (written (to_write addr) 0 (started ∷ g))))
            refl)))
write_lem addr false script after g all = rw (start_lem (releases 1 after) g) (
    rw (send_byte_lem (to_write addr) 1 0 after (started ∷ g) (omega arith))
      (rw (stop_lem 1 after (written (to_write addr) 1 (started ∷ g))) refl))

then_read_lem :
    (addr done : ℕ) (dat : List ℕ) (after : List ℕ) (g : List Symbol)
    → All (λ b. b < 256) dat
    → then_read master addr true (length dat) done (low 0 (releases 0 (shown_all dat after)) g) ≡ (
      u8 (length dat + done),
      dat,
      idle after (stopped ∷ received_all dat (written (to_read addr) 0 g)),
    )
unfolding then_read
then_read_lem addr done dat after g all =
    rw (send_byte_lem (to_read addr) 0 0 (shown_all dat after) g (omega arith)) (
      rw (read_loop_lem dat 1 after (written (to_read addr) 0 g) all) (
        rw (stop_lem (last_level dat 1) after (received_all dat (written (to_read addr) 0 g)))
          refl))

-- Writing at least one byte and then reading at least one, when the slave acknowledges everything:
-- the bus carries a start, the address with a 0, the bytes, a second start without a stop, the
-- address with a 1, the slave's bytes with all but the last acknowledged, and a stop. The bytes
-- read are the slave's, and the result is the number of all bytes modulo 256.
pub write_then_read_lem :
    (addr b : ℕ) (script : Script) (dat after : List ℕ) (g : List Symbol)
    → AllBytes ((b, true) ∷ script)
    → all_acknowledged script ≡ true
    → 0 < length dat
    → All (λ b. b < 256) dat
    → write_then_read master addr (some (b ∷ bytes_of script)) true (length dat) (
        idle
          (offered ((to_write addr, true) ∷ (b, true) ∷ script) (releases 0 (shown_all dat after)))
          g)
      ≡ (
        u8 (length dat + suc (acknowledged script)),
        dat,
        idle after (
            stopped
            ∷ received_all dat (
                written (to_read addr) 0 (
                  started
                  ∷ written_all ((to_write addr, true) ∷ (b, true) ∷ script) (started ∷ g)))),
      )
unfolding write_then_read
write_then_read_lem addr b script [] after g all acked some_data bytes = absurd (omega arith)
write_then_read_lem addr b script (d ∷ dat) after g all acked some_data bytes =
    let rest : List ℕ = releases 0 (shown_all (d ∷ dat) after) in
    let whole : Script = (b, true) ∷ script in
    let sent : List Symbol = written_all whole (written (to_write addr) 0 (started ∷ g)) in
    rw (start_lem (offered ((to_write addr, true) ∷ whole) rest) g) (
      rw (send_byte_lem (to_write addr) 0 0 (offered whole rest) (started ∷ g) (omega arith)) (
        rw (write_loop_lem whole rest (written (to_write addr) 0 (started ∷ g)) all) (
          rw acked (
            rw (ne→== (suc (length dat)) 0 (omega arith)) (
              rw (restart_lem 1 rest sent) (
                then_read_lem addr (suc (acknowledged script)) (d ∷ dat) after (started ∷ sent)
                  bytes))))))
