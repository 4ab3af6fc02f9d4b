-- ===== src/Atcmd/Tests.antt =====
-- A frame of two bytes, taken by a receiver with small buffers.
use embedded_template.Prelude.{some, [], ◌∷◌}
use embedded_template.RingBuffer.{RingBuffer}
use embedded_template.Atcmd.{Atcmd, serial_recv_serial_default}

-- One byte of four places.
abbrev ring : RingBuffer
ring = record { cap = 4; len = 1; in_pos = 1; out_pos = 0; buf = 5 ∷ 0 ∷ 0 ∷ 0 ∷ [] }

abbrev receiver : Atcmd
receiver = record {
  auto_prefix = 0 ∷ 0 ∷ 0 ∷ 0 ∷ 0 ∷ 0 ∷ 0 ∷ 0 ∷ 0 ∷ 0 ∷ [];
  auto_prefix_index = 0;
  ipd_length = 0;
  ipd_recv_index = 0;
  ipd_rb = some ring;
  rb = some ring;
  posts = 0;
  time_to_default = 0;
  serial_recv = serial_recv_serial_default;
}
