-- ===== src/Spi.antt =====
-- src/spi/spi.c: transfers made of single bytes. The operation `transmit_byte` of the bus is an
-- argument: it takes the byte to send, and returns its answer, the byte that came in and the new
-- state of the bus.
use embedded_template.Prelude.{
  ℕ, zero, suc, ◌==◌, Bool, true, false, Option, none, some, List, [], ◌∷◌,
}

-- The three loops count the bytes that went through, and stop at the first that does not. A buffer
-- to send is the list of its bytes; what is stored to a buffer is returned as a list.
unfoldable pub send_loop : {S : Type 0} → (ℕ → S → ℕ × ℕ × S) → List ℕ → S → ℕ × S
send_loop transmit_byte [] s = (0, s)
send_loop transmit_byte (b ∷ w) s =
    let (ok, tmp, s') = transmit_byte b s in
    let (n, s'') = send_loop transmit_byte w s' in
    elim (ok == 0) [ true ↦ (0, s') | false ↦ (suc n, s'') ]

-- `tmp` is not set before the first byte of `recv`: what it holds then is an argument.
unfoldable pub recv_loop : {S : Type 0} → (ℕ → S → ℕ × ℕ × S) → ℕ → ℕ → S → ℕ × List ℕ × S
recv_loop transmit_byte zero tmp s = (0, [], s)
recv_loop transmit_byte (suc len) tmp s =
    let (ok, tmp', s') = transmit_byte tmp s in
    let (n, r, s'') = recv_loop transmit_byte len tmp' s' in
    elim (ok == 0) [ true ↦ (0, [], s') | false ↦ (suc n, tmp' ∷ r, s'') ]

unfoldable pub send_and_recv_loop : {S : Type 0} → (ℕ → S → ℕ × ℕ × S) → List ℕ → S → ℕ × List ℕ × S
send_and_recv_loop transmit_byte [] s = (0, [], s)
send_and_recv_loop transmit_byte (b ∷ w) s =
    let (ok, tmp, s') = transmit_byte b s in
    let (n, r, s'') = send_and_recv_loop transmit_byte w s' in
    elim (ok == 0) [ true ↦ (0, [], s') | false ↦ (suc n, tmp ∷ r, s'') ]

-- `wants` says that the pointer `r` is not NULL; `w` holds `len` bytes, or is NULL.
unfoldable pub transfer_use_transmit_onebyte :
    {S : Type 0} → (ℕ → S → ℕ × ℕ × S) → ℕ → Bool → Option (List ℕ) → ℕ → S → ℕ × List ℕ × S
transfer_use_transmit_onebyte transmit_byte garbage true (some w) len s =
    send_and_recv_loop transmit_byte w s
transfer_use_transmit_onebyte transmit_byte garbage true none len s =
    recv_loop transmit_byte len garbage s
transfer_use_transmit_onebyte transmit_byte garbage false (some w) len s =
    let (n, s') = send_loop transmit_byte w s in (n, [], s')
transfer_use_transmit_onebyte transmit_byte garbage false none len s = (0, [], s)
