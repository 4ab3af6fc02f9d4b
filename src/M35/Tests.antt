-- ===== src/M35/Tests.antt =====
-- A modem with small buffers, and a machine of 32 bits, the lowest byte first.
use embedded_template.Prelude.{
  ℕ, ◌+◌, ◌*◌, ◌/◌, ◌%◌, ◌^◌, ◌<◌, ◌≤◌, ◌≡◌, ◌==◌, if◌then◌else◌, refl, Bool, true, false, some,
  none, List, [], ◌∷◌, ◌++◌, replicate, get_or, arith,
}
use embedded_template.RingBuffer.{RingBuffer}
use embedded_template.RingBuffer.Invariant.{IsValid, Holds}
use embedded_template.Atcmd.{Atcmd, serial_recv_serial_default}
use embedded_template.Atcmd.Text.{codes}
use embedded_template.Atcmd.Tcp.{send_tcp}
use embedded_template.M35.{M35, unknown, ops_unknown, china_mobile}
use embedded_template.M35.Status.{operator_of}
use embedded_template.M35.Queue.{
  SendTcp, ConnectTcp, DisconnectTcp, SendFits, ConnectFits, DisconnectFits, Layout, Machine,
  run_round, post_write,
}
use embedded_template.M35.Serve.{run_round-post_write}
use embedded_template.M35.Restart.{restart_index, attempts, attempts_lem}

-- The bytes of a word, the lowest first, and the word that four bytes from `i` on are.
abbrev word_bytes : ℕ → List ℕ
word_bytes n = n % 256 ∷ n / 256 % 256 ∷ n / 65536 % 256 ∷ n / 16777216 % 256 ∷ []

abbrev word_at : List ℕ → ℕ → ℕ
word_at s i =
    get_or s i 0
    + 256 * get_or s (i + 1) 0
    + 65536 * get_or s (i + 2) 0
    + 16777216 * get_or s (i + 3) 0

word_back :
    (n : ℕ)
    → n < 2 ^ 32
    → n % 256 + 256 * (n / 256 % 256) + 65536 * (n / 65536 % 256) + 16777216 * (n / 16777216 % 256)
      ≡ n
word_back n h = omega arith

abbrev send_layout : Layout SendTcp SendFits
send_layout = record {
  size = 16;
  bytes = λ p. word_bytes p.dat ++ word_bytes p.len ++ word_bytes p.timeout ++ word_bytes p.ret;
  value = λ s. record {
    dat = word_at s 0;
    len = word_at s 4;
    timeout = word_at s 8;
    ret = word_at s 12;
  };
  length-bytes = λ p. refl;
  bytes_small = λ p. omega arith;
  value-bytes = λ p (dat, len, timeout, ret). λ i. record {
    dat = word_back p.dat dat i;
    len = word_back p.len (omega arith) i;
    timeout = word_back p.timeout timeout i;
    ret = word_back p.ret ret i;
  };
}

abbrev connect_layout : Layout ConnectTcp ConnectFits
connect_layout = record {
  size = 12;
  bytes = λ p. word_bytes p.host ++ word_bytes p.port ++ word_bytes p.ret;
  value = λ s. record { host = word_at s 0; port = word_at s 4; ret = word_at s 8 };
  length-bytes = λ p. refl;
  bytes_small = λ p. omega arith;
  value-bytes = λ p (host, port, ret). λ i. record {
    host = word_back p.host host i;
    port = word_back p.port (omega arith) i;
    ret = word_back p.ret ret i;
  };
}

abbrev disconnect_layout : Layout DisconnectTcp DisconnectFits
disconnect_layout = record {
  size = 4;
  bytes = λ p. word_bytes p.ret;
  value = λ s. record { ret = word_at s 0 };
  length-bytes = λ p. refl;
  bytes_small = λ p. omega arith;
  value-bytes = λ p ret. λ i. record { ret = word_back p.ret ret i };
}

abbrev machine : Machine
machine = record {
  send_layout = send_layout;
  connect_layout = connect_layout;
  disconnect_layout = disconnect_layout;
  union_size = 16;
  send_fits = omega arith;
  connect_fits = omega arith;
  disconnect_fits = omega arith;
  at_address = λ a. if a == 7 then some (codes "data") else none;
}

abbrev ring : ℕ → ℕ → List ℕ → RingBuffer
ring n i buf = record { cap = n; len = i; in_pos = i; out_pos = 0; buf = buf }

abbrev empty_ring : RingBuffer
empty_ring = ring 40 0 (replicate 40 0)

empty_ring-IsValid : IsValid empty_ring
empty_ring-IsValid = omega arith

abbrev idle_atcmd : Atcmd
idle_atcmd = record {
  auto_prefix = replicate 10 0;
  auto_prefix_index = 0;
  ipd_length = 0;
  ipd_recv_index = 0;
  ipd_rb = some empty_ring;
  rb = some empty_ring;
  posts = 0;
  time_to_default = 0;
  serial_recv = serial_recv_serial_default;
}

abbrev modem : M35
modem = record {
  line = record { atcmd = idle_atcmd; sent = []; now = 0; feed = [] };
  answers = false ∷ true ∷ [];
  calls = [];
  cmd_posts = 0;
  cmd_rb = some empty_ring;
  runtime_status = unknown;
  wait_time_index_for_restart = 0;
  ops = ops_unknown;
  imei = replicate 20 0;
  ccid = replicate 24 0;
  lac = 0;
  ci = 0;
  rssi = 0;
  ber = 0;
  data_acked = 0;
  stored = [];
}

-- 65540 bytes are given, and 4 are sent.
run_round-post_write_example :
    (m' : M35) × (post_write machine 7 65540 200 9 modem ≡ some m')
    × (let (l, ok) = send_tcp (some (codes "data")) 4 200 (replicate 20 0) modem.line in
        let m'' = run_round machine (replicate 20 0) m' in
        (m''.line ≡ l) × (m''.stored ≡ (9, ok) ∷ []) × (m''.cmd_posts ≡ 0) × Holds m''.cmd_rb 40 [])
run_round-post_write_example =
    run_round-post_write machine 7 65540 200 9 40 (replicate 20 0) modem (omega arith) (omega arith)
      (omega arith) (empty_ring-IsValid, refl, refl) (omega arith) (omega arith)

attempts_lem_example :
    (m' : M35) × (ok : Bool) × (attempts 9 (replicate 24 0) (replicate 24 0) modem ≡ some (m', ok))
    × (restart_index m' ≤ 6)
    × (ok ≡ false → restart_index m' ≡ 6)
attempts_lem_example = attempts_lem 9 (replicate 24 0) (replicate 24 0) modem (omega arith)

mobile : operator_of (codes "CHINA MOBILE" ++ 0 ∷ 1 ∷ []) ≡ china_mobile
unfolding operator_of
mobile = refl
