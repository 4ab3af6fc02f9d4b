-- ===== src/Ltc6804/Registers.antt =====
-- src/drivers/ltc/ltc6804.c: the operations on one monitor, made of its frames.
use embedded_template.Prelude.{
  ℕ, zero, suc, ◌+◌, ◌-◌, ◌*◌, ◌/◌, ◌%◌, ◌^◌, ◌==◌, ltb, Bool, true, false, Option, none, some,
  List, [], ◌∷◌, ◌++◌, length, get_or, if◌then◌else◌, bit_or, u8, u16,
}
use embedded_template.Ltc6804.{Platform, wake_up, send_data_daisychain, recv_data_daisychain}

-- The last group of registers that was read, of six bytes, and the bus.
pub record Dev (S : Type 0) : Type 0 where
  pub dat : List ℕ
  pub bus : S

abbrev pub vol_reg_size : ℕ
vol_reg_size = 6

-- SPI_FLAG_MSB_FIRST | SPI_FLAG_CLK_IDLE_HIGH | SPI_FLAG_CLK_SECOND_EDGE, whose values the bus
-- is given as an argument.
unfoldable pub init : {S : Type 0} → Platform S → ℕ → Dev S → Dev S
init p flags d = record d { bus = wake_up p (p.init flags d.bus) }

-- `size` is the size of the configuration's structure.
unfoldable pub read_cfg : {S : Type 0} → Platform S → ℕ → ℕ → Dev S → Option (ℕ × List ℕ × Dev S)
read_cfg p size count d = elim (recv_data_daisychain p count 0x002 true size d.bus) [
  | none ↦ none
  | some (ok, cfg, s) ↦ some (ok, cfg, record d { bus = s })
]

unfoldable pub write_cfg : {S : Type 0} → Platform S → List ℕ → ℕ → Dev S → Dev S
write_cfg p cfg count d = record d { bus = send_data_daisychain p count 0x001 (some cfg) d.bus }

unfoldable pub send_cmd : {S : Type 0} → Platform S → ℕ → Dev S → Dev S
send_cmd p cmd d = record d { bus = send_data_daisychain p 0 cmd none d.bus }

abbrev pub list_cmd_rdcv : List ℕ
list_cmd_rdcv = 0x004 ∷ 0x006 ∷ 0x008 ∷ 0x00a ∷ []

abbrev pub list_cmd_rdav : List ℕ
list_cmd_rdav = 0x00c ∷ 0x00e ∷ []

-- The group's bytes go to the register, also when their check word is wrong. The loop of the frame
-- ends, since a group has six bytes.
unfoldable pub read_group : {S : Type 0} → Platform S → ℕ → Dev S → ℕ × Dev S
read_group p cmd d = elim (recv_data_daisychain p 1 cmd true vol_reg_size d.bus) [
  | none ↦ (0, d)
  | some (ok, dat, s) ↦ (if ok == 0 then 0 else vol_reg_size / 2, record { dat = dat; bus = s })
]

unfoldable pub get_voltage_with_group : {S : Type 0} → Platform S → ℕ → Dev S → ℕ × Dev S
get_voltage_with_group p gid d =
    if ltb gid (length list_cmd_rdcv) then read_group p (get_or list_cmd_rdcv gid 0) d else (0, d)

unfoldable pub get_aux_with_group : {S : Type 0} → Platform S → ℕ → Dev S → ℕ × Dev S
get_aux_with_group p gid d =
    if ltb gid (length list_cmd_rdav) then read_group p (get_or list_cmd_rdav gid 0) d else (0, d)

unfoldable pub start_channel : {S : Type 0} → Platform S → ℕ → Dev S → ℕ × Dev S
start_channel {S = S} p channel d =
    let start : ℕ → ℕ × Dev S =
      λ c. (1, record d { bus = send_data_daisychain p 1 (0x360 + c) none d.bus }) in
    if ltb channel 6
    then start (channel + 1)
    else (if ltb channel 12 then start (channel - 5) else (0, d))

-- 0x460 and 0x46f with the bits of the 7 kHz mode, `0x2UL << 7`.
unfoldable pub start_aux : {S : Type 0} → Platform S → Dev S → ℕ × Dev S
start_aux p d =
    (1, record d { bus = send_data_daisychain p 1 (bit_or 0x460 (2 * 2 ^ 7)) none d.bus })

unfoldable pub start_all : {S : Type 0} → Platform S → Dev S → ℕ × Dev S
start_all p d =
    (1, record d { bus = send_data_daisychain p 1 (bit_or 0x46f (2 * 2 ^ 7)) none d.bus })

unfoldable pub read : {S : Type 0} → Platform S → ℕ → Bool → ℕ → Dev S → Option (ℕ × List ℕ × Dev S)
read p cmd wants len d = elim (recv_data_daisychain p 1 cmd wants len d.bus) [
  | none ↦ none
  | some (ok, buf, s) ↦ some (ok, buf, record d { bus = s })
]

abbrev pub register_value : List ℕ → ℕ → ℕ
register_value dat offset = u16 (get_or dat offset 0 + get_or dat (offset + 1) 0 * 2 ^ 8)

-- The values of the register's words from the `i`-th on, `left` of them.
unfoldable pub store_values : List ℕ → ℕ → ℕ → List ℕ
store_values dat i zero = []
store_values dat i (suc left) = register_value dat (i * 2) ∷ store_values dat (suc i) left

-- The loop over the groups, `left` of them from `index` on: the values stored to `buf`, in order,
-- of which the code returns the number.
unfoldable pub groups_loop :
    {S : Type 0} → (ℕ → Dev S → ℕ × Dev S) → ℕ → ℕ → ℕ → Dev S → List ℕ × Dev S
groups_loop with_group zero index size d = ([], d)
groups_loop with_group (suc left) index size d =
    let (ret, d') = with_group index d in
    let taken = if ltb size ret then size else ret in
    let (values, d'') = groups_loop with_group left (suc index) (size - taken) d' in
    if size == 0
    then ([], d)
    else (if ret == 0 then ([], d') else (store_values d'.dat 0 taken ++ values, d''))

unfoldable pub ltc6804_1_get_voltage : {S : Type 0} → Platform S → ℕ → Dev S → ℕ × List ℕ × Dev S
ltc6804_1_get_voltage p size d =
    let (values, d') = groups_loop (get_voltage_with_group p) 4 0 size d in
    (length values, values, d')

unfoldable pub ltc6804_1_get_aux : {S : Type 0} → Platform S → ℕ → Dev S → ℕ × List ℕ × Dev S
ltc6804_1_get_aux p size d =
    let (values, d') = groups_loop (get_aux_with_group p) 2 0 size d in (length values, values, d')

-- `wants` says that the pointer `vol` is not NULL; the second result is what is stored there.
unfoldable pub get_voltage : {S : Type 0} → Platform S → ℕ → Bool → Dev S → ℕ × Option ℕ × Dev S
get_voltage p index false d = (0, none, d)
get_voltage p index true d =
    let (ret, d') = get_voltage_with_group p (index / 3) d in
    let offset = u8 (index * 2 % 6) in
    if ret == 0 then (0, none, d') else (1, some (register_value d'.dat offset), d')
