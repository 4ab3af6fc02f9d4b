-- ===== src/Softspi/Stream.antt =====
-- softspi_transfer: runs of bytes, in each of the three ways that its buffers select.
use embedded_template.Prelude.{
  ℕ, suc, ◌<◌, ◌≡◌, refl, ap, ◌∙◌, sym, Bool, true, false, not, none, some, List, [], ◌∷◌, length,
  arith,
}
use embedded_template.Spi.{send_loop, recv_loop, send_and_recv_loop, transfer_use_transmit_onebyte}
use embedded_template.Softspi.{transmit_byte, transfer}
use embedded_template.Softspi.Listener.{Wire, listener, levels}
use embedded_template.Softspi.Exchange.{flags_of, idle_of, left_on, last_level, transmit_byte_lem}

abbrev pub Bytes : List ℕ → Type 0
Bytes [] = Unit {0}
Bytes (b ∷ bs) = (b < 256) × Bytes bs

-- The levels of the bytes, one byte after the other.
abbrev pub stream : Bool → List ℕ → List ℕ
stream lsb [] = []
stream lsb (b ∷ bs) = levels lsb b (stream lsb bs)

-- The first list turned round, in front of the second.
abbrev pub reverse_onto : List ℕ → List ℕ → List ℕ
reverse_onto [] after = after
reverse_onto (x ∷ xs) after = reverse_onto xs (x ∷ after)

abbrev pub wire : Bool → ℕ → ℕ → List ℕ → List ℕ → Wire
wire idle mosi miso taken feed = record {
  clk_level = idle_of idle;
  mosi_level = mosi;
  miso_level = miso;
  taken = taken;
  feed = feed;
}

taken_more :
    (lsb : Bool) (b : ℕ) (after taken : List ℕ)
    → reverse_onto (levels lsb b after) taken ≡ reverse_onto after (levels (not lsb) b taken)
taken_more true b after taken = refl
taken_more false b after taken = refl

send_and_recv_step :
    {S : Type 0} (f : ℕ → S → ℕ × ℕ × S) (b c n : ℕ) (w r : List ℕ) (s s' s'' : S)
    → f b s ≡ (1, c, s')
    → send_and_recv_loop f w s' ≡ (n, r, s'')
    → send_and_recv_loop f (b ∷ w) s ≡ (suc n, c ∷ r, s'')
unfolding send_and_recv_loop
send_and_recv_step f b c n w r s s' s'' one rest =
    rw (one, send_and_recv_loop) (rw one (ap (λ t. (suc t.0, c ∷ t.1, t.2)) rest))

recv_step :
    {S : Type 0} (f : ℕ → S → ℕ × ℕ × S) (len tmp c n : ℕ) (r : List ℕ) (s s' s'' : S)
    → f tmp s ≡ (1, c, s')
    → recv_loop f len c s' ≡ (n, r, s'')
    → recv_loop f (suc len) tmp s ≡ (suc n, c ∷ r, s'')
unfolding recv_loop
recv_step f len tmp c n r s s' s'' one rest =
    rw (one, recv_loop) (rw one (ap (λ t. (suc t.0, c ∷ t.1, t.2)) rest))

send_step :
    {S : Type 0} (f : ℕ → S → ℕ × ℕ × S) (b c n : ℕ) (w : List ℕ) (s s' s'' : S)
    → f b s ≡ (1, c, s')
    → send_loop f w s' ≡ (n, s'')
    → send_loop f (b ∷ w) s ≡ (suc n, s'')
unfolding send_loop
send_step f b c n w s s' s'' one rest = rw (one, send_loop) (rw one (ap (λ t. (suc t.0, t.1)) rest))

module _ (lsb first idle : Bool) where
  -- The bus and the far end, in a mode.
  abbrev bus : ℕ → Wire → ℕ × ℕ × Wire
  bus = transmit_byte (listener first (idle_of idle)) (flags_of lsb first idle)

  send_and_recv_loop_lem :
      (w m : List ℕ) (mosi miso : ℕ) (taken : List ℕ)
      → Bytes w
      → Bytes m
      → length w ≡ length m
      → (mosi' : ℕ) × (miso' : ℕ) × (send_and_recv_loop bus w
            (wire idle mosi miso taken (stream lsb m))
          ≡ (length w, m, wire idle mosi' miso' (reverse_onto (stream lsb w) taken) []))
  unfolding send_and_recv_loop
  send_and_recv_loop_lem [] [] mosi miso taken hw hm same = (mosi, miso, refl)
  send_and_recv_loop_lem [] (c ∷ m) mosi miso taken hw hm same = absurd (omega arith)
  send_and_recv_loop_lem (b ∷ w) [] mosi miso taken hw hm same = absurd (omega arith)
  send_and_recv_loop_lem (b ∷ w) (c ∷ m) mosi miso taken (hb, hw) (hc, hm) same =
      let one = transmit_byte_lem lsb first idle b c mosi miso taken (stream lsb m) hb hc in
      let (mosi', miso', rest) =
        send_and_recv_loop_lem w m (last_level lsb b) (left_on first (last_level lsb c))
          (levels (not lsb) b taken) hw hm (omega arith) in
      (
        mosi',
        miso',
        send_and_recv_step bus b c (length w) w m _ _ _ one rest
            ∙ ap (λ t. (suc (length w), c ∷ m, wire idle mosi' miso' t []))
                (sym (taken_more lsb b (stream lsb w) taken)),
      )

  recv_loop_lem :
      (m : List ℕ) (tmp mosi miso : ℕ) (taken : List ℕ)
      → tmp < 256
      → Bytes m
      → (mosi' : ℕ) × (miso' : ℕ) × (taken' : List ℕ) × (recv_loop bus
            (length m)
            tmp
            (wire idle mosi miso taken (stream lsb m))
          ≡ (length m, m, wire idle mosi' miso' taken' []))
  unfolding recv_loop
  recv_loop_lem [] tmp mosi miso taken ht hm = (mosi, miso, taken, refl)
  recv_loop_lem (c ∷ m) tmp mosi miso taken ht (hc, hm) =
      let one = transmit_byte_lem lsb first idle tmp c mosi miso taken (stream lsb m) ht hc in
      let (mosi', miso', taken', rest) =
        recv_loop_lem m c (last_level lsb tmp) (left_on first (last_level lsb c))
          (levels (not lsb) tmp taken) hc hm in
      (mosi', miso', taken', recv_step bus (length m) tmp c (length m) m _ _ _ one rest)

  send_loop_lem :
      (w m : List ℕ) (mosi miso : ℕ) (taken : List ℕ)
      → Bytes w
      → Bytes m
      → length w ≡ length m
      → (mosi' : ℕ) × (miso' : ℕ) × (send_loop bus w (wire idle mosi miso taken (stream lsb m))
          ≡ (length w, wire idle mosi' miso' (reverse_onto (stream lsb w) taken) []))
  unfolding send_loop
  send_loop_lem [] [] mosi miso taken hw hm same = (mosi, miso, refl)
  send_loop_lem [] (c ∷ m) mosi miso taken hw hm same = absurd (omega arith)
  send_loop_lem (b ∷ w) [] mosi miso taken hw hm same = absurd (omega arith)
  send_loop_lem (b ∷ w) (c ∷ m) mosi miso taken (hb, hw) (hc, hm) same =
      let one = transmit_byte_lem lsb first idle b c mosi miso taken (stream lsb m) hb hc in
      let (mosi', miso', rest) =
        send_loop_lem w m (last_level lsb b) (left_on first (last_level lsb c))
          (levels (not lsb) b taken) hw hm (omega arith) in
      (
        mosi',
        miso',
        send_step bus b c (length w) w _ _ _ one rest
            ∙ ap (λ t. (suc (length w), wire idle mosi' miso' t []))
                (sym (taken_more lsb b (stream lsb w) taken)),
      )

  -- In each of the eight modes, from an idle clock, with a device at the far end that takes MOSI at
  -- the edge of the mode, and puts the bits of the bytes `m`, as many as those to send, on MISO, each
  -- from the edge of the mode to the other edge and no longer: a transfer of `w` with both buffers
  -- reports every byte, delivers `w` bit by bit in the order of the mode, brings in `m`, and leaves
  -- the clock idle; with the send buffer alone it delivers the same and brings in nothing; with the
  -- receive buffer alone it brings in `m` whatever its variable held before; with neither it reports
  -- 0 and does nothing.
  pub transfer_lem :
      (w m : List ℕ) (garbage mosi miso : ℕ) (taken : List ℕ)
      → Bytes w
      → Bytes m
      → garbage < 256
      → length w ≡ length m
      → let run = transfer (listener first (idle_of idle)) (flags_of lsb first idle) garbage in
        let s = wire idle mosi miso taken (stream lsb m) in
        ((mosi' : ℕ) × (miso' : ℕ) × (run true (some w) (length w) s
            ≡ (length w, m, wire idle mosi' miso' (reverse_onto (stream lsb w) taken) [])))
        × ((mosi' : ℕ) × (miso' : ℕ) × (run false (some w) (length w) s
              ≡ (length w, [], wire idle mosi' miso' (reverse_onto (stream lsb w) taken) [])))
        × ((mosi' : ℕ) × (miso' : ℕ) × (taken' : List ℕ) × (run true none (length m) s
              ≡ (length m, m, wire idle mosi' miso' taken' [])))
        × (run false none (length m) s ≡ (0, [], s))
  unfolding transfer transfer_use_transmit_onebyte
  transfer_lem w m garbage mosi miso taken hw hm hg same =
      let (mosi', miso', sent) = send_loop_lem w m mosi miso taken hw hm same in
      (
        send_and_recv_loop_lem w m mosi miso taken hw hm same,
        (mosi', miso', ap (λ t. (t.0, [], t.1)) sent),
        recv_loop_lem m garbage mosi miso taken hg hm,
        refl,
      )
