-- ===== src/Softspi/Exchange.antt =====
-- softspi_transmit_byte in each of its modes: one byte each way.
use embedded_template.Prelude.{
  ℕ, ◌+◌, ◌-◌, ◌/◌, ◌%◌, ◌<◌, ◌≡◌, refl, ap, ap₂, ◌∙◌, ◌==◌, ==→eq, Bool, true, false, not, ◌&&◌,
  List, [], ◌∷◌, if◌then◌else◌, bit_and, arith,
}
use embedded_template.Prelude.Bits.{holds_to, holds_at}
use embedded_template.Softspi.{
  is_nonzero, transmit_byte, mask_loop, first_edge_round, second_edge_round,
  transmit_1st_edge_msb_first, transmit_2st_edge_msb_first, transmit_1st_edge_lsb_first,
  transmit_2st_edge_lsb_first,
}
use embedded_template.Softspi.Listener.{Wire, listener, levels}

-- `flags` of a mode.
abbrev pub flags_of : Bool → Bool → Bool → ℕ
flags_of lsb_first first_edge idle_high =
    (if lsb_first then 4 else 0) + (if first_edge then 2 else 0) + (if idle_high then 1 else 0)

abbrev pub idle_of : Bool → ℕ
idle_of idle_high = if idle_high then 1 else 0

-- The levels of MOSI that the masks of a mode give, the last one first.
abbrev masked : Bool → ℕ → List ℕ → List ℕ
masked true dat after =
    is_nonzero (bit_and 128 dat)
    ∷ is_nonzero (bit_and 64 dat)
    ∷ is_nonzero (bit_and 32 dat)
    ∷ is_nonzero (bit_and 16 dat)
    ∷ is_nonzero (bit_and 8 dat)
    ∷ is_nonzero (bit_and 4 dat)
    ∷ is_nonzero (bit_and 2 dat)
    ∷ is_nonzero (bit_and 1 dat)
    ∷ after
masked false dat after =
    is_nonzero (bit_and 1 dat)
    ∷ is_nonzero (bit_and 2 dat)
    ∷ is_nonzero (bit_and 4 dat)
    ∷ is_nonzero (bit_and 8 dat)
    ∷ is_nonzero (bit_and 16 dat)
    ∷ is_nonzero (bit_and 32 dat)
    ∷ is_nonzero (bit_and 64 dat)
    ∷ is_nonzero (bit_and 128 dat)
    ∷ after

abbrev last_of : Bool → ℕ → ℕ
last_of true dat = is_nonzero (bit_and 128 dat)
last_of false dat = is_nonzero (bit_and 1 dat)

-- MISO behind a byte whose last level is `x`.
abbrev pub left_on : Bool → ℕ → ℕ
left_on first x = if first then 1 - x else x

-- Eight levels of MISO, whatever they are: where the pins end up.
exchange_wire :
    (lsb first idle : Bool) (dat x0 x1 x2 x3 x4 x5 x6 x7 mosi miso : ℕ) (taken feed : List ℕ)
    → (transmit_byte (listener first (idle_of idle)) (flags_of lsb first idle) dat (record {
      clk_level = idle_of idle;
      mosi_level = mosi;
      miso_level = miso;
      taken = taken;
      feed = x0 ∷ x1 ∷ x2 ∷ x3 ∷ x4 ∷ x5 ∷ x6 ∷ x7 ∷ feed;
    })).2
      ≡ record {
        clk_level = idle_of idle;
        mosi_level = last_of lsb dat;
        miso_level = left_on first x7;
        taken = masked lsb dat taken;
        feed = feed;
      }
unfolding transmit_byte mask_loop first_edge_round second_edge_round transmit_1st_edge_msb_first
    transmit_2st_edge_msb_first transmit_1st_edge_lsb_first transmit_2st_edge_lsb_first
exchange_wire true true true dat x0 x1 x2 x3 x4 x5 x6 x7 mosi miso taken feed = refl
exchange_wire true true false dat x0 x1 x2 x3 x4 x5 x6 x7 mosi miso taken feed = refl
exchange_wire true false true dat x0 x1 x2 x3 x4 x5 x6 x7 mosi miso taken feed = refl
exchange_wire true false false dat x0 x1 x2 x3 x4 x5 x6 x7 mosi miso taken feed = refl
exchange_wire false true true dat x0 x1 x2 x3 x4 x5 x6 x7 mosi miso taken feed = refl
exchange_wire false true false dat x0 x1 x2 x3 x4 x5 x6 x7 mosi miso taken feed = refl
exchange_wire false false true dat x0 x1 x2 x3 x4 x5 x6 x7 mosi miso taken feed = refl
exchange_wire false false false dat x0 x1 x2 x3 x4 x5 x6 x7 mosi miso taken feed = refl

bit_table :
    holds_to
      (λ dat.
        (is_nonzero (bit_and 1 dat) == dat % 2)
        && ((is_nonzero (bit_and 2 dat) == dat / 2 % 2)
            && ((is_nonzero (bit_and 4 dat) == dat / 4 % 2)
                && ((is_nonzero (bit_and 8 dat) == dat / 8 % 2)
                    && ((is_nonzero (bit_and 16 dat) == dat / 16 % 2)
                        && ((is_nonzero (bit_and 32 dat) == dat / 32 % 2)
                            && ((is_nonzero (bit_and 64 dat) == dat / 64 % 2)
                                && (is_nonzero (bit_and 128 dat) == dat / 128 % 2))))))))
      256
    ≡ true
unfolding holds_to
bit_table = refl

both : (a b : Bool) → (a && b) ≡ true → (a ≡ true) × (b ≡ true)
both a b h = ground arith

levels_eq :
    (lsb : Bool) (dat : ℕ) (after : List ℕ)
    → is_nonzero (bit_and 1 dat) ≡ dat % 2
    → is_nonzero (bit_and 2 dat) ≡ dat / 2 % 2
    → is_nonzero (bit_and 4 dat) ≡ dat / 4 % 2
    → is_nonzero (bit_and 8 dat) ≡ dat / 8 % 2
    → is_nonzero (bit_and 16 dat) ≡ dat / 16 % 2
    → is_nonzero (bit_and 32 dat) ≡ dat / 32 % 2
    → is_nonzero (bit_and 64 dat) ≡ dat / 64 % 2
    → is_nonzero (bit_and 128 dat) ≡ dat / 128 % 2
    → masked lsb dat after ≡ levels (not lsb) dat after
levels_eq true dat after b0 b1 b2 b3 b4 b5 b6 b7 = cc
levels_eq false dat after b0 b1 b2 b3 b4 b5 b6 b7 = cc

masked-levels :
    (lsb : Bool) (dat : ℕ) (after : List ℕ)
    → dat < 256
    → masked lsb dat after ≡ levels (not lsb) dat after
masked-levels lsb dat after h =
    let (b0, h1) = both _ _ (holds_at _ 256 bit_table dat h) in
    let (b1, h2) = both _ _ h1 in
    let (b2, h3) = both _ _ h2 in
    let (b3, h4) = both _ _ h3 in
    let (b4, h5) = both _ _ h4 in
    let (b5, h6) = both _ _ h5 in
    let (b6, b7) = both _ _ h6 in
    levels_eq lsb dat after (==→eq _ _ b0) (==→eq _ _ b1) (==→eq _ _ b2) (==→eq _ _ b3)
      (==→eq _ _ b4) (==→eq _ _ b5) (==→eq _ _ b6) (==→eq _ _ b7)

-- The pins before a byte is exchanged, with the far end about to feed `byte`.
abbrev pub before : Bool → Bool → ℕ → ℕ → ℕ → List ℕ → List ℕ → Wire
before lsb idle byte mosi miso taken feed = record {
  clk_level = idle_of idle;
  mosi_level = mosi;
  miso_level = miso;
  taken = taken;
  feed = levels lsb byte feed;
}

-- The byte that comes in, for each byte that the far end feeds.
exchange_table :
    (lsb first idle : Bool) (dat mosi miso : ℕ) (taken feed : List ℕ)
    → holds_to
        (λ byte.
          (transmit_byte
            (listener first (idle_of idle))
            (flags_of lsb first idle)
            dat
            (before lsb idle byte mosi miso taken feed)).1
          == byte)
        256
      ≡ true
unfolding holds_to transmit_byte mask_loop first_edge_round second_edge_round
    transmit_1st_edge_msb_first transmit_2st_edge_msb_first transmit_1st_edge_lsb_first
    transmit_2st_edge_lsb_first
exchange_table true true true dat mosi miso taken feed = refl
exchange_table true true false dat mosi miso taken feed = refl
exchange_table true false true dat mosi miso taken feed = refl
exchange_table true false false dat mosi miso taken feed = refl
exchange_table false true true dat mosi miso taken feed = refl
exchange_table false true false dat mosi miso taken feed = refl
exchange_table false false true dat mosi miso taken feed = refl
exchange_table false false false dat mosi miso taken feed = refl

-- The last level of a byte.
abbrev pub last_level : Bool → ℕ → ℕ
last_level true dat = dat / 128 % 2
last_level false dat = dat % 2

wire_lem :
    (lsb first idle : Bool) (dat byte mosi miso : ℕ) (taken feed : List ℕ)
    → (transmit_byte
        (listener first (idle_of idle))
        (flags_of lsb first idle)
        dat
        (before lsb idle byte mosi miso taken feed)).2
      ≡ record {
        clk_level = idle_of idle;
        mosi_level = last_of lsb dat;
        miso_level = left_on first (last_level lsb byte);
        taken = masked lsb dat taken;
        feed = feed;
      }
wire_lem true first idle dat byte mosi miso taken feed =
    exchange_wire true first idle dat _ _ _ _ _ _ _ _ mosi miso taken feed
wire_lem false first idle dat byte mosi miso taken feed =
    exchange_wire false first idle dat _ _ _ _ _ _ _ _ mosi miso taken feed

abbrev head_or : ℕ → List ℕ → ℕ
head_or d [] = d
head_or d (x ∷ xs) = x

last_of-last_level : (lsb : Bool) (dat : ℕ) → dat < 256 → last_of lsb dat ≡ last_level lsb dat
last_of-last_level true dat h = ap (head_or 0) (masked-levels true dat [] h)
last_of-last_level false dat h = ap (head_or 0) (masked-levels false dat [] h)

-- The pins after a byte was exchanged.
abbrev pub after : Bool → Bool → Bool → ℕ → ℕ → List ℕ → List ℕ → Wire
after lsb first idle dat byte taken feed = record {
  clk_level = idle_of idle;
  mosi_level = last_level lsb dat;
  miso_level = left_on first (last_level lsb byte);
  taken = levels (not lsb) dat taken;
  feed = feed;
}

-- In each of the eight modes, a device that takes MOSI at the edge of the mode takes exactly the
-- eight bits of the byte sent, in the order of the mode, while the byte whose bits it puts on MISO
-- in that order, from the edge of the mode to the other edge, comes in; the clock is back at its idle level and the answer is 1.
pub transmit_byte_lem :
    (lsb first idle : Bool) (dat byte mosi miso : ℕ) (taken feed : List ℕ)
    → dat < 256
    → byte < 256
    → transmit_byte
        (listener first (idle_of idle))
        (flags_of lsb first idle)
        dat
        (before lsb idle byte mosi miso taken feed)
      ≡ (1, byte, after lsb first idle dat byte taken feed)
unfolding transmit_byte
transmit_byte_lem lsb first idle dat byte mosi miso taken feed hd hb =
    let came =
      ==→eq _ _ (holds_at _ 256 (exchange_table lsb first idle dat mosi miso taken feed) byte hb) in
    let wire = wire_lem lsb first idle dat byte mosi miso taken feed in
    let sent : record {
      clk_level = idle_of idle;
      mosi_level = last_of lsb dat;
      miso_level = left_on first (last_level lsb byte);
      taken = masked lsb dat taken;
      feed = feed;
    }
        ≡ after lsb first idle dat byte taken feed =
      ap₂
        (λ m t. record {
          clk_level = idle_of idle;
          mosi_level = m;
          miso_level = left_on first (last_level lsb byte);
          taken = t;
          feed = feed;
        })
        (last_of-last_level lsb dat hd) (masked-levels lsb dat taken hd) in
    ap₂ (λ r w. (1, r, w)) came (wire ∙ sent)
