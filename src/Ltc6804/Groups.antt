-- ===== src/Ltc6804/Groups.antt =====
-- src/drivers/ltc/ltc6804.c: the words that `ltc6804_1_get_voltage` and `ltc6804_1_get_aux` store.
use embedded_template.Prelude.{
  ℕ, zero, suc, ◌-◌, ◌*◌, ◌≤◌, ◌==◌, ltb, min, Bool, true, false, ◌≡◌, refl, ap, List, length,
  length-append, if◌then◌else◌, arith,
}
use embedded_template.Ltc6804.{Platform}
use embedded_template.Ltc6804.Registers.{
  Dev, list_cmd_rdcv, list_cmd_rdav, read_group, get_voltage_with_group, get_aux_with_group,
  store_values, groups_loop, ltc6804_1_get_voltage, ltc6804_1_get_aux,
}

length-store_values : (dat : List ℕ) (i left : ℕ) → length (store_values dat i left) ≡ left
unfolding store_values
length-store_values dat i zero = refl
length-store_values dat i (suc left) = ap suc (length-store_values dat (suc i) left)

read_group_le : {S : Type 0} (p : Platform S) (cmd : ℕ) (d : Dev S) → (read_group p cmd d).0 ≤ 3
unfolding read_group
read_group_le p cmd d = ground arith

either_le :
    {S : Type 0} (bound : ℕ) (b : Bool) (x y : ℕ × Dev S)
    → x.0 ≤ bound
    → y.0 ≤ bound
    → (if b then x else y).0 ≤ bound
either_le bound true x y p q = p
either_le bound false x y p q = q

get_voltage_with_group_le :
    {S : Type 0} (p : Platform S) (gid : ℕ) (d : Dev S) → (get_voltage_with_group p gid d).0 ≤ 3
unfolding get_voltage_with_group
get_voltage_with_group_le p gid d =
    either_le 3 (ltb gid (length list_cmd_rdcv)) _ _ (read_group_le p _ d) (omega arith)

get_aux_with_group_le :
    {S : Type 0} (p : Platform S) (gid : ℕ) (d : Dev S) → (get_aux_with_group p gid d).0 ≤ 3
unfolding get_aux_with_group
get_aux_with_group_le p gid d =
    either_le 3 (ltb gid (length list_cmd_rdav)) _ _ (read_group_le p _ d) (omega arith)

chosen_le :
    {S : Type 0} (bound : ℕ) (stop skip : Bool) (x y z : List ℕ × Dev S)
    → length x.0 ≤ bound
    → length y.0 ≤ bound
    → length z.0 ≤ bound
    → length (if stop then x else (if skip then y else z)).0 ≤ bound
chosen_le bound true skip x y z p q r = p
chosen_le bound false true x y z p q r = q
chosen_le bound false false x y z p q r = r

groups_loop_le :
    {S : Type 0} (with_group : ℕ → Dev S → ℕ × Dev S)
    → ((gid : ℕ) (d : Dev S) → (with_group gid d).0 ≤ 3)
    → (left index size : ℕ) (d : Dev S)
    → length (groups_loop with_group left index size d).0 ≤ min size (3 * left)
unfolding groups_loop
groups_loop_le with_group three zero index size d = omega arith
groups_loop_le with_group three (suc left) index size d =
    let ret : ℕ = (with_group index d).0 in
    let d' : Dev _ = (with_group index d).1 in
    let taken : ℕ = if ltb size ret then size else ret in
    let taken_le : (taken ≤ size) × (taken ≤ 3) = (ground arith, ground (arith, three index d)) in
    let rest : length (groups_loop with_group left (suc index) (size - taken) d').0
        ≤ min (size - taken) (3 * left) =
      groups_loop_le with_group three left (suc index) (size - taken) d' in
    chosen_le (min size (3 * suc left)) (size == 0) (ret == 0) _ _ _ (omega arith) (omega arith) (
      rw
        (length-append (store_values d'.dat 0 taken)
          (groups_loop with_group left (suc index) (size - taken) d').0)
        (rw (length-store_values d'.dat 0 taken) (omega (arith, rest, taken_le))))

-- However the bus answers, the code stores no word after the end of the buffer, and at most twelve
-- words of voltages and six of the auxiliary groups; it returns the number of those stored.
pub get_voltage-get_aux-within :
    {S : Type 0} (p : Platform S) (size : ℕ) (d : Dev S)
    → ((ltc6804_1_get_voltage p size d).0 ≡ length (ltc6804_1_get_voltage p size d).1)
      × ((ltc6804_1_get_voltage p size d).0 ≤ min size 12)
      × ((ltc6804_1_get_aux p size d).0 ≡ length (ltc6804_1_get_aux p size d).1)
      × ((ltc6804_1_get_aux p size d).0 ≤ min size 6)
unfolding ltc6804_1_get_voltage ltc6804_1_get_aux
get_voltage-get_aux-within p size d = (
  refl,
  groups_loop_le (get_voltage_with_group p) (get_voltage_with_group_le p) 4 0 size d,
  refl,
  groups_loop_le (get_aux_with_group p) (get_aux_with_group_le p) 2 0 size d,
)
