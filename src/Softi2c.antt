-- ===== src/Softi2c.antt =====
-- src/i2c/softi2c.c: a master of the two-wire bus whose lines are driven pin by pin.
pub mod Monitor
pub mod Bytes
pub mod Transfers
pub mod Refused
pub mod Tests
use embedded_template.Prelude.{
  ℕ, zero, suc, ◌+◌, ◌*◌, ◌/◌, ◌==◌, ◌&&◌, not, Bool, true, false, Option, none, some, List, [],
  ◌∷◌, length, if◌then◌else◌, bit_and, bit_or, u8,
}
use embedded_template.Gpio.{GpioMode, output_opendrain, GpioOperations}

-- `struct softi2c_platform`.
pub record Platform (Io S : Type 0) : Type 0 where
  pub scl : Io
  pub sda : Io
  pub gpio_ops : GpioOperations Io S

unfoldable pub set_scl : {Io S : Type 0} → Platform Io S → ℕ → S → S
set_scl p v s = (p.gpio_ops.set_output p.scl v s).1

unfoldable pub set_sda : {Io S : Type 0} → Platform Io S → ℕ → S → S
set_sda p v s = (p.gpio_ops.set_output p.sda v s).1

unfoldable pub start : {Io S : Type 0} → Platform Io S → S → S
start p s = set_scl p 0 (set_sda p 0 (set_sda p 1 (set_scl p 1 s)))

unfoldable pub stop : {Io S : Type 0} → Platform Io S → S → S
stop p s = set_sda p 1 (set_scl p 1 (set_sda p 0 s))

unfoldable pub restart : {Io S : Type 0} → Platform Io S → S → S
restart p s = set_scl p 0 (set_sda p 0 (set_scl p 1 (set_sda p 1 s)))

-- The loop on `timeout`, which ends at the first low level that it reads: `rounds` are left.
unfoldable pub wait_loop : {Io S : Type 0} → Platform Io S → ℕ → S → S
wait_loop p zero s = s
wait_loop p (suc rounds) s =
    let (high, s') = p.gpio_ops.input_is_high p.scl s in
    let s'' = wait_loop p rounds s' in if high == 0 then s' else s''

unfoldable pub onebit : {Io S : Type 0} → Platform Io S → ℕ → S → ℕ × S
onebit p bit s =
    let s' = wait_loop p 100 (set_scl p 1 (set_sda p bit s)) in
    let (bit', s'') = p.gpio_ops.input_is_high p.sda s' in (bit', set_scl p 0 s'')

-- The loop on `bit`, from 0x80 down to 0: eight shifts take the mask there, so nine rounds of fuel
-- are enough.
unfoldable pub onebyte_loop : {Io S : Type 0} → Platform Io S → ℕ → ℕ → ℕ → ℕ → S → ℕ × S
onebyte_loop p dat zero bit ret s = (ret, s)
onebyte_loop p dat (suc fuel) bit ret s =
    let (high, s') = onebit p (bit_and dat bit) s in
    let ret' = if high == 0 then ret else bit_or ret bit in
    elim (bit == 0) [ true ↦ (ret, s) | false ↦ onebyte_loop p dat fuel (bit / 2) ret' s' ]

unfoldable pub onebyte : {Io S : Type 0} → Platform Io S → ℕ → S → ℕ × S
onebyte p dat s = onebyte_loop p dat 9 0x80 0 s

-- A byte that is sent, and the level that the clock pulse after it reads: 0 acknowledges.
unfoldable pub send_byte : {Io S : Type 0} → Platform Io S → ℕ → S → ℕ × S
send_byte p dat s = onebit p 1 (onebyte p dat s).1

-- A byte that is received, and the pulse after it, in which `nack` goes out.
unfoldable pub receive_byte : {Io S : Type 0} → Platform Io S → ℕ → S → ℕ × S
receive_byte p nack s = let (b, s') = onebyte p 0xff s in (b, (onebit p nack s').1)

unfoldable pub init : {Io S : Type 0} → Platform Io S → S → ℕ × S
init p s =
    let (scl_ok, s') = p.gpio_ops.init p.scl output_opendrain s in
    let (sda_ok, s'') = p.gpio_ops.init p.sda output_opendrain s' in
    if scl_ok == 0 then (0, s') else (if sda_ok == 0 then (0, s'') else (1, stop p s''))

pub deinit : {Io S : Type 0} → Platform Io S → S → S
deinit p s = s

-- The loop over the bytes to write: how many were acknowledged, and whether all were.
unfoldable pub write_loop : {Io S : Type 0} → Platform Io S → List ℕ → S → ℕ × Bool × S
write_loop p [] s = (0, true, s)
write_loop p (b ∷ dat) s =
    let (nack, s') = send_byte p b s in
    let (n, all, s'') = write_loop p dat s' in
    if nack == 0 then (suc n, all, s'') else (0, false, s')

-- The loop over the bytes to read, `left` of them: the last is not acknowledged.
unfoldable pub read_loop : {Io S : Type 0} → Platform Io S → ℕ → S → List ℕ × S
read_loop p zero s = ([], s)
read_loop p (suc left) s =
    let (b, s') = receive_byte p (if left == 0 then 1 else 0) s in
    let (rest, s'') = read_loop p left s' in (b ∷ rest, s'')

unfoldable pub write : {Io S : Type 0} → Platform Io S → ℕ → List ℕ → S → ℕ × S
write p addr dat s =
    let (nack, s') = send_byte p (u8 (addr * 2)) (start p s) in
    let (n, all, s'') = write_loop p dat s' in if nack == 0 then (n, stop p s'') else (0, stop p s')

-- The result, and what is stored to `dat`.
unfoldable pub read : {Io S : Type 0} → Platform Io S → ℕ → ℕ → S → ℕ × List ℕ × S
read p addr len s =
    let (nack, s') = send_byte p (u8 (addr * 2 + 1)) (start p s) in
    let (dat, s'') = read_loop p len s' in
    if nack == 0 then (len, dat, stop p s'') else (0, [], stop p s')

-- The second half of `softi2c_write_then_read`, after `written` bytes.
unfoldable pub then_read : {Io S : Type 0} → Platform Io S → ℕ → Bool → ℕ → ℕ → S → ℕ × List ℕ × S
then_read p addr false rlen written s = (written, [], stop p s)
then_read p addr true rlen written s =
    let (nack, s') = send_byte p (u8 (addr * 2 + 1)) s in
    let (r, s'') = read_loop p rlen s' in
    if nack == 0 then (u8 (rlen + written), r, stop p s'') else (written, [], stop p s')

-- `w` is the bytes to write, none when the pointer is NULL; `wants` says that `r` is not NULL.
unfoldable pub write_then_read :
    {Io S : Type 0} → Platform Io S → ℕ → Option (List ℕ) → Bool → ℕ → S → ℕ × List ℕ × S
write_then_read p addr none wants rlen s =
    then_read p addr (wants && not (rlen == 0)) rlen 0 (start p s)
write_then_read p addr (some []) wants rlen s =
    then_read p addr (wants && not (rlen == 0)) rlen 0 (start p s)
write_then_read p addr (some (b ∷ w)) wants rlen s =
    let reads = wants && not (rlen == 0) in
    let (nack, s') = send_byte p (u8 (addr * 2)) (start p s) in
    let (written, all, s'') = write_loop p (b ∷ w) s' in
    let done = then_read p addr reads rlen written (if reads then restart p s'' else s'') in
    if nack == 0 then (if all then done else (written, [], stop p s'')) else (0, [], stop p s')
