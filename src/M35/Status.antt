-- ===== src/M35/Status.antt =====
-- src/dtu_m35/dtu_m35.c: the functions that ask the modem and keep what it says. `memory` is what
-- lies at the local buffer of the function that asks.
use embedded_template.Prelude.{
  ℕ, zero, suc, Bool, true, false, not, Option, none, some, List, replicate, ltb, if◌then◌else◌,
}
use embedded_template.Atcmd.Text.{codes, strcmp_eq}
use embedded_template.Atcmd.Query.{
  SentInfo, get_ops, get_imei, get_ccid, get_signal_quality, get_lacci, get_data_sent_info,
}
use embedded_template.M35.{M35, Operator, ops_unknown, china_unioncom, china_mobile, china_telecom}

unfoldable pub operator_of : List ℕ → Operator
unfolding strcmp_eq
operator_of memory =
    if strcmp_eq memory (codes "CHINA MOBILE")
    then china_mobile
    else if strcmp_eq memory (codes "CHINA UNIONCOM")
    then china_unioncom
    else if strcmp_eq memory (codes "CHINA TELECOM")
    then china_telecom
    else ops_unknown

abbrev pub is_known : Operator → Bool
is_known ops_unknown = false
is_known china_unioncom = true
is_known china_mobile = true
is_known china_telecom = true

unfoldable pub update_ops : List ℕ → M35 → M35 × Bool
unfolding get_ops operator_of
update_ops memory m =
    let (l, text, ok) = get_ops memory 32 m.line in
    if ok
    then (record m { line = l; ops = operator_of text }, is_known (operator_of text))
    else (record m { line = l }, false)

-- `for (i = 0; i < 10; ++i)`; the number is the rounds left.
unfoldable pub imei_loop : ℕ → M35 → M35 × Bool
unfolding get_imei
imei_loop zero m = (m, false)
imei_loop (suc n) m =
    let (l, text, ok) = get_imei m.imei 19 m.line in
    let m' = record m { line = l; imei = text } in
    let rest = imei_loop n m' in if ok then (m', true) else rest

unfoldable pub update_imei : M35 → M35 × Bool
unfolding imei_loop
update_imei m = imei_loop 10 (record m { imei = replicate 20 0 })

unfoldable pub ccid_loop : ℕ → M35 → M35 × Bool
unfolding get_ccid
ccid_loop zero m = (m, false)
ccid_loop (suc n) m =
    let (l, text, ok) = get_ccid m.ccid 23 m.line in
    let m' = record m { line = l; ccid = text } in
    let rest = ccid_loop n m' in if ok then (m', true) else rest

unfoldable pub update_ccid : M35 → M35 × Bool
unfolding ccid_loop
update_ccid m = ccid_loop 10 (record m { ccid = replicate 24 0 })

unfoldable pub quality_stored : M35 → Option (ℕ × ℕ) → M35 × Bool
quality_stored m none = (m, false)
quality_stored m (some (rssi, ber)) = (record m { rssi = rssi; ber = ber }, true)

unfoldable pub update_signal_quality : List ℕ → M35 → M35 × Bool
unfolding get_signal_quality quality_stored
update_signal_quality memory m =
    let (l, numbers) = get_signal_quality memory m.line in
    quality_stored (record m { line = l }) numbers

unfoldable pub update_lacci : List ℕ → M35 → M35 × Bool
unfolding get_lacci
update_lacci memory m =
    let (l, lac, ci, ok) = get_lacci m.lac m.ci memory m.line in
    (record m { line = l; lac = lac; ci = ci }, ok)

unfoldable pub sent_info_stored : M35 → Option SentInfo → M35 × Bool
sent_info_stored m none = (m, false)
sent_info_stored m (some i) =
    if ltb m.data_acked i.acked
    then (record m { data_acked = i.acked }, true)
    else (m, not (ltb 0 i.unacked))

unfoldable pub update_data_send_info : List ℕ → M35 → M35 × Bool
unfolding get_data_sent_info sent_info_stored
update_data_send_info memory m =
    let (l, info) = get_data_sent_info memory m.line in
    sent_info_stored (record m { line = l }) info
