-- ===== src/Softi2c/Bytes.antt =====
-- One byte and its acknowledgement on the bus of src/i2c/softi2c.c, pulse by pulse.
use embedded_template.Prelude.{
  ℕ, ◌/◌, ◌%◌, ◌<◌, ◌==◌, ==→eq, true, ◌≡◌, refl, ap, ◌∙◌, List, [], ◌∷◌, get_or, drop,
  if◌then◌else◌, bit_and,
}
use embedded_template.Prelude.Bits.{holds_to, holds_at}
use embedded_template.Softi2c.{
  wait_loop, set_scl, set_sda, onebit, onebyte_loop, onebyte, send_byte, receive_byte, start, stop,
  restart,
}
use embedded_template.Softi2c.Monitor.{Symbol, started, stopped, pulse, as_level, master, idle, low}

pub start_lem :
    (answers : List ℕ) (g : List Symbol)
    → start master (idle answers g) ≡ low 0 answers (started ∷ g)
unfolding start set_scl set_sda
start_lem answers g = refl

pub restart_lem :
    (level : ℕ) (answers : List ℕ) (g : List Symbol)
    → restart master (low level answers g) ≡ low 0 answers (started ∷ g)
unfolding restart set_scl set_sda
restart_lem level answers g = refl

pub stop_lem :
    (level : ℕ) (answers : List ℕ) (g : List Symbol)
    → stop master (low level answers g) ≡ idle answers (stopped ∷ g)
unfolding stop set_scl set_sda
stop_lem level answers g = refl

pub onebit_lem :
    (v level : ℕ) (answers : List ℕ) (g : List Symbol)
    → onebit master v (low level answers g) ≡ (
      if as_level v == 0 then 0 else get_or answers 0 1,
      low (as_level v) (drop 1 answers) (pulse (as_level v) (get_or answers 0 1) ∷ g),
    )
unfolding onebit wait_loop set_scl set_sda
onebit_lem v level answers g = refl

-- The slave's levels while a byte is written: it leaves SDA high for eight pulses.
abbrev pub releases : ℕ → List ℕ → List ℕ
releases ack after = 1 ∷ 1 ∷ 1 ∷ 1 ∷ 1 ∷ 1 ∷ 1 ∷ 1 ∷ ack ∷ after

-- The slave's levels while it sends a byte and leaves SDA high for the acknowledgement.
abbrev pub shows : ℕ → List ℕ → List ℕ
shows b after =
    b / 128 % 2
    ∷ b / 64 % 2
    ∷ b / 32 % 2
    ∷ b / 16 % 2
    ∷ b / 8 % 2
    ∷ b / 4 % 2
    ∷ b / 2 % 2
    ∷ b % 2
    ∷ 1
    ∷ after

-- The pulses of a byte that the master writes, the newest first.
abbrev pub written : ℕ → ℕ → List Symbol → List Symbol
written b ack before =
    pulse 1 ack
    ∷ pulse (b % 2) 1
    ∷ pulse (b / 2 % 2) 1
    ∷ pulse (b / 4 % 2) 1
    ∷ pulse (b / 8 % 2) 1
    ∷ pulse (b / 16 % 2) 1
    ∷ pulse (b / 32 % 2) 1
    ∷ pulse (b / 64 % 2) 1
    ∷ pulse (b / 128 % 2) 1
    ∷ before

-- The pulses of a byte that the slave sends: the master leaves SDA high, then answers with `nack`.
abbrev pub received : ℕ → ℕ → List Symbol → List Symbol
received b nack before =
    pulse nack 1
    ∷ pulse 1 (b % 2)
    ∷ pulse 1 (b / 2 % 2)
    ∷ pulse 1 (b / 4 % 2)
    ∷ pulse 1 (b / 8 % 2)
    ∷ pulse 1 (b / 16 % 2)
    ∷ pulse 1 (b / 32 % 2)
    ∷ pulse 1 (b / 64 % 2)
    ∷ pulse 1 (b / 128 % 2)
    ∷ before

-- The pulses as the code makes them, by its masks.
abbrev by_masks : ℕ → List Symbol → List Symbol
by_masks b before =
    pulse (as_level (bit_and b 1)) 1
    ∷ pulse (as_level (bit_and b 2)) 1
    ∷ pulse (as_level (bit_and b 4)) 1
    ∷ pulse (as_level (bit_and b 8)) 1
    ∷ pulse (as_level (bit_and b 16)) 1
    ∷ pulse (as_level (bit_and b 32)) 1
    ∷ pulse (as_level (bit_and b 64)) 1
    ∷ pulse (as_level (bit_and b 128)) 1
    ∷ before

send_byte-masks :
    (b ack level : ℕ) (after : List ℕ) (g : List Symbol)
    → send_byte master b (low level (releases ack after) g)
      ≡ (ack, low 1 after (pulse 1 ack ∷ by_masks b g))
unfolding send_byte onebyte onebyte_loop onebit wait_loop set_scl set_sda
send_byte-masks b ack level after g = refl

mask_lem :
    (m b : ℕ)
    → holds_to (λ b. as_level (bit_and b m) == b / m % 2) 256 ≡ true
    → b < 256
    → as_level (bit_and b m) ≡ b / m % 2
mask_lem m b table less =
    ==→eq _ _ (holds_at (λ b. as_level (bit_and b m) == b / m % 2) 256 table b less)

lowest_table : holds_to (λ b. as_level (bit_and b 1) == b % 2) 256 ≡ true
unfolding holds_to
lowest_table = refl

by_masks_lem :
    (b : ℕ) (before : List Symbol)
    → b < 256
    → (ack : ℕ) → pulse 1 ack ∷ by_masks b before ≡ written b ack before
unfolding holds_to
by_masks_lem b before less ack =
    let b0 = ==→eq _ _ (holds_at (λ b. as_level (bit_and b 1) == b % 2) 256 lowest_table b less) in
    let b1 = mask_lem 2 b refl less in
    let b2 = mask_lem 4 b refl less in
    let b3 = mask_lem 8 b refl less in
    let b4 = mask_lem 16 b refl less in
    let b5 = mask_lem 32 b refl less in
    let b6 = mask_lem 64 b refl less in let b7 = mask_lem 128 b refl less in cc

-- A byte that is sent to a slave: its bits, most significant first, then the slave's answer.
pub send_byte_lem :
    (b ack level : ℕ) (after : List ℕ) (g : List Symbol)
    → b < 256
    → send_byte master b (low level (releases ack after) g) ≡ (ack, low 1 after (written b ack g))
send_byte_lem b ack level after g less =
    send_byte-masks b ack level after g ∙ ap (λ h. (ack, low 1 after h)) (by_masks_lem b g less ack)

read_byte : ℕ → ℕ
read_byte b = (onebyte master 0xff (low 1 (shows b []) [])).0

receive_byte-shows :
    (b nack level : ℕ) (after : List ℕ) (g : List Symbol)
    → receive_byte master nack (low level (shows b after) g)
      ≡ (read_byte b, low (as_level nack) after (received b (as_level nack) g))
unfolding read_byte receive_byte onebyte onebyte_loop onebit wait_loop set_scl set_sda
receive_byte-shows b nack level after g = refl

read_table : holds_to (λ b. read_byte b == b) 256 ≡ true
unfolding holds_to read_byte onebyte onebyte_loop onebit wait_loop set_scl set_sda
read_table = refl

-- A byte that a slave sends is the one read, and the master answers with `nack`.
pub receive_byte_lem :
    (b nack level : ℕ) (after : List ℕ) (g : List Symbol)
    → b < 256
    → receive_byte master nack (low level (shows b after) g)
      ≡ (b, low (as_level nack) after (received b (as_level nack) g))
receive_byte_lem b nack level after g less =
    receive_byte-shows b nack level after g
    ∙ ap (λ r. (r, low (as_level nack) after (received b (as_level nack) g)))
        (==→eq _ _ (holds_at (λ b. read_byte b == b) 256 read_table b less))
