-- ===== src/M35/Queue.antt =====
-- src/dtu_m35/dtu_m35.c: the queue of commands. A task stores a command in the ring and posts to the
-- semaphore; dtum35_run takes it out and calls its handler. Addresses are numbers; how a structure of
-- parameters lies in memory, and what the addresses point to, is an argument.
use embedded_template.Prelude.{
  ℕ, ◌+◌, ◌-◌, ◌^◌, ◌<◌, ◌≤◌, All, u16, ◌≡◌, Bool, true, Option, none, some, List, [], ◌∷◌, ◌++◌,
  length, get_or, ltb, ◌==◌, if◌then◌else◌, u8,
}
use embedded_template.RingBuffer.{read, write, clear, get_left_space}
use embedded_template.Atcmd.Line.{Line}
use embedded_template.Atcmd.Tcp.{disconnect_tcp, connect_tcp, send_tcp}
use embedded_template.M35.{M35, wait}

-- `struct cmd_param_send_tcp`
pub record SendTcp : Type 0 where
  pub dat : ℕ
  pub len : ℕ
  pub timeout : ℕ
  pub ret : ℕ

-- `struct cmd_param_connect_tcp`
pub record ConnectTcp : Type 0 where
  pub host : ℕ
  pub port : ℕ
  pub ret : ℕ

-- `struct cmd_param_disconnect_tcp`
pub record DisconnectTcp : Type 0 where
  pub ret : ℕ

-- The fields hold values of their types: addresses and times of 32 bits, and 16 bits for `len` and
-- `port`.
abbrev pub SendFits : SendTcp → Type 0
SendFits p = (p.dat < 2 ^ 32) × (p.len < 2 ^ 16) × (p.timeout < 2 ^ 32) × (p.ret < 2 ^ 32)

abbrev pub ConnectFits : ConnectTcp → Type 0
ConnectFits p = (p.host < 2 ^ 32) × (p.port < 2 ^ 16) × (p.ret < 2 ^ 32)

abbrev pub DisconnectFits : DisconnectTcp → Type 0
DisconnectFits p = p.ret < 2 ^ 32

-- How a structure is stored: its size, its bytes, and the structure that bytes are read as, which is
-- the one that was stored if its fields hold values of their types.
pub record Layout (A : Type 0) (Fits : A → Type 0) : Type 0 where
  pub size : ℕ
  pub bytes : A → List ℕ
  pub value : List ℕ → A
  pub length-bytes : (a : A) → length (bytes a) ≡ size
  pub bytes_small : (a : A) → All (λ b. b < 256) (bytes a)
  pub value-bytes : (a : A) → Fits a → value (bytes a) ≡ a

-- The layouts of the machine, the size of `union cmd_param`, which is as large as its largest member,
-- and what lies at an address, `none` at NULL.
pub record Machine : Type 0 where
  pub send_layout : Layout SendTcp SendFits
  pub connect_layout : Layout ConnectTcp ConnectFits
  pub disconnect_layout : Layout DisconnectTcp DisconnectFits
  pub union_size : ℕ
  pub send_fits : send_layout.size ≤ union_size
  pub connect_fits : connect_layout.size ≤ union_size
  pub disconnect_fits : disconnect_layout.size ≤ union_size
  pub at_address : ℕ → Option (List ℕ)

-- The commands of the enumeration.
abbrev pub cmd_connect_tcp : ℕ
cmd_connect_tcp = 0

abbrev pub cmd_disconnect_tcp : ℕ
cmd_disconnect_tcp = 1

abbrev pub cmd_send_tcp : ℕ
cmd_send_tcp = 2

-- `*(p->ret) = ok`, with the line behind the command.
abbrev pub answered : ℕ → Line × Bool → M35 → M35
answered ret (l, ok) m = record m { line = l; stored = m.stored ++ (ret, ok) ∷ [] }

-- The function that a map points to.
pub data Handle : Type 0 where
  handle_send_tcp : Handle
  handle_connect_tcp : Handle
  handle_disconnect_tcp : Handle

pub record CmdHandleMap : Type 0 where
  pub cmd : ℕ
  pub param_len : ℕ
  pub handle : Handle

module _ (k : Machine) where
  unfoldable pub disconnect_handler : DisconnectTcp → M35 → M35
  unfolding disconnect_tcp
  disconnect_handler p m = answered p.ret (disconnect_tcp m.line) m

  -- `memory` is what lies at the local buffer of the command.
  unfoldable pub connect_handler : List ℕ → ConnectTcp → M35 → M35
  unfolding connect_tcp
  connect_handler memory p m =
      answered p.ret (connect_tcp (k.at_address p.host) p.port memory m.line) m

  unfoldable pub send_handler : List ℕ → SendTcp → M35 → M35
  unfolding send_tcp
  send_handler memory p m =
      answered p.ret (send_tcp (k.at_address p.dat) p.len p.timeout memory m.line) m

  unfoldable pub call_handle : Handle → List ℕ → List ℕ → M35 → M35
  unfolding disconnect_handler connect_handler send_handler
  call_handle handle_send_tcp param memory = send_handler memory (k.send_layout.value param)
  call_handle handle_connect_tcp param memory =
      connect_handler memory (k.connect_layout.value param)
  call_handle handle_disconnect_tcp param memory =
      disconnect_handler (k.disconnect_layout.value param)

  abbrev pub cmd_handle_maps : List CmdHandleMap
  cmd_handle_maps =
      (record { cmd = cmd_send_tcp; param_len = k.send_layout.size; handle = handle_send_tcp })
      ∷ (record {
        cmd = cmd_connect_tcp;
        param_len = k.connect_layout.size;
        handle = handle_connect_tcp;
      })
      ∷ (record {
        cmd = cmd_disconnect_tcp;
        param_len = k.disconnect_layout.size;
        handle = handle_disconnect_tcp;
      })
      ∷ []

-- The loop over the maps.
unfoldable pub find_handle : List CmdHandleMap → ℕ → Option CmdHandleMap
find_handle [] cmd = none
find_handle (h ∷ hs) cmd = if h.cmd == cmd then some h else find_handle hs cmd

module _ (k : Machine) where
  unfoldable pub get_cmd_handle : ℕ → Option CmdHandleMap
  unfolding find_handle
  get_cmd_handle cmd = find_handle (cmd_handle_maps k) cmd

  -- `_clear_rb`
  abbrev pub clear_rb : M35 → M35
  clear_rb m = record m { cmd_rb = clear m.cmd_rb }

  unfoldable pub handle_with : Option CmdHandleMap → ℕ → List ℕ → List ℕ → M35 → M35
  unfolding call_handle
  handle_with none param_len param memory m = clear_rb m
  handle_with (some h) param_len param memory m =
      let done = call_handle k h.handle param memory m in
      if h.param_len == param_len then done else clear_rb m

  -- The parameters of the command, and what follows.
  unfoldable pub take_param : ℕ → ℕ → List ℕ → M35 → M35
  unfolding get_cmd_handle handle_with
  take_param cmd param_len memory m =
      let (rb, param, n) = read m.cmd_rb true param_len in
      let m' = record m { cmd_rb = rb } in
      let done = handle_with (get_cmd_handle cmd) param_len param memory m' in
      if ltb k.union_size param_len
      then clear_rb m
      else if n == param_len
      then done
      else clear_rb m'

  -- The two bytes of `struct cmd_info`, and what follows.
  unfoldable pub take_cmd : List ℕ → M35 → M35
  unfolding take_param
  take_cmd memory m =
      let (rb, info, n) = read m.cmd_rb true 2 in
      let m' = record m { cmd_rb = rb } in
      let done = take_param (get_or info 0 0) (get_or info 1 0) memory m' in
      if n == 2 then done else clear_rb m'

  -- A round of the inner loop of `dtum35_run`. Without a count at the semaphore, the wait of 5 s goes
  -- by.
  unfoldable pub run_round : List ℕ → M35 → M35
  unfolding take_cmd wait
  run_round memory m =
      let done = take_cmd memory (record m { cmd_posts = m.cmd_posts - 1 }) in
      if ltb 0 m.cmd_posts then done else clear_rb (wait 5000 m)

-- What the three functions for tasks do up to the wait for `ret`: `none` is `Command buffer full`.
unfoldable pub post_command : ℕ → List ℕ → M35 → Option M35
post_command cmd param m =
    let info = cmd ∷ u8 (length param) ∷ [] in
    let (rb1, _) = write m.cmd_rb (some info) 2 in
    let (rb2, _) = write rb1 (some param) (length param) in
    if ltb (get_left_space m.cmd_rb) (length param + 2)
    then none
    else some (record m { cmd_rb = rb2; cmd_posts = m.cmd_posts + 1 })

module _ (k : Machine) where
  -- The parameters of `dtum35_tcp_write`, of which `len` is an `int` from 0 on and is stored in a
  -- uint16_t, and the address of `ret`.
  abbrev pub write_param : ℕ → ℕ → ℕ → ℕ → SendTcp
  write_param buffer len timeout_ms ret = record {
    dat = buffer;
    len = u16 len;
    timeout = timeout_ms;
    ret = ret;
  }

  unfoldable pub post_write : ℕ → ℕ → ℕ → ℕ → M35 → Option M35
  unfolding post_command
  post_write buffer len timeout_ms ret m =
      post_command cmd_send_tcp (k.send_layout.bytes (write_param buffer len timeout_ms ret)) m

  unfoldable pub post_connect : ConnectTcp → M35 → Option M35
  unfolding post_command
  post_connect p m = post_command cmd_connect_tcp (k.connect_layout.bytes p) m

  unfoldable pub post_disconnect : DisconnectTcp → M35 → Option M35
  unfolding post_command
  post_disconnect p m = post_command cmd_disconnect_tcp (k.disconnect_layout.bytes p) m
