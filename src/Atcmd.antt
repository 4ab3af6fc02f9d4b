-- ===== src/Atcmd.antt =====
-- src/atcmd/atcmd.c: how the engine for AT commands takes the bytes of the serial line: lines into
-- one ring buffer, and the data that a header `IPD<length>:` announces into another.
pub mod Receive
pub mod Announce
pub mod Text
pub mod Line
pub mod Retry
pub mod Tcp
pub mod Query
pub mod Ends
pub mod Typed
pub mod Sent
pub mod Address
pub mod Answer
pub mod Liveness
pub mod Signal
pub mod Connection
pub mod Unanswered
pub mod Chunks
mod Tests
mod Runs
use embedded_template.Prelude.{
  ℕ, ◌+◌, ◌-◌, ◌*◌, Bool, true, false, ◌&&◌, not, Option, List, [], ◌∷◌, ltb, leb, ◌==◌,
  if◌then◌else◌, u16, u32, set, get_or,
}
use embedded_template.RingBuffer.{RingBuffer, put, clear}

-- The function that `serial_recv` points to.
pub data Receiver : Type 0 where
  serial_recv_serial_default : Receiver
  serial_recv_ipd_length : Receiver
  serial_recv_ipd_content : Receiver

-- `struct atcmd`, less the functions of the serial line. The ring buffers lie in the struct, so the
-- pointers to them are never NULL; `posts` is the count of the semaphore.
pub record Atcmd : Type 0 where
  pub auto_prefix : List ℕ
  pub auto_prefix_index : ℕ
  pub ipd_length : ℕ
  pub ipd_recv_index : ℕ
  pub ipd_rb : Option RingBuffer
  pub rb : Option RingBuffer
  pub posts : ℕ
  pub time_to_default : ℕ
  pub serial_recv : Receiver

-- `now` is what `os_get_time` returns; where one call reads the time twice, both readings are taken
-- to be the same.
unfoldable pub recv_ipd_content : ℕ → ℕ → Atcmd → Atcmd
recv_ipd_content now b a =
    let index = u16 (a.ipd_recv_index + 1) in
    record a {
      ipd_rb = (put a.ipd_rb b 1).0;
      time_to_default = u32 (now + 20);
      ipd_recv_index = index;
      serial_recv = (if leb a.ipd_length index then serial_recv_serial_default else a.serial_recv);
    }

unfoldable pub recv_ipd_length : ℕ → ℕ → Atcmd → Atcmd
recv_ipd_length now b a =
    if b == 58
    then record a {
      ipd_recv_index = 0;
      time_to_default = u32 (now + 20);
      serial_recv = serial_recv_ipd_content;
    }
    else if leb 48 b && leb b 57
    then record a { ipd_length = u16 (u16 (a.ipd_length * 10) + (b - 48)) }
    else a

-- The first five bytes of a line are kept in `auto_prefix`.
unfoldable pub with_prefix_byte : ℕ → Atcmd → Atcmd
with_prefix_byte b a =
    if ltb a.auto_prefix_index 5
    then record a {
      auto_prefix = set a.auto_prefix a.auto_prefix_index b;
      auto_prefix_index = a.auto_prefix_index + 1;
    }
    else a

-- `auto_prefix_index == 3`, and the three bytes are "IPD".
unfoldable pub announces_ipd : Atcmd → Bool
announces_ipd a =
    (a.auto_prefix_index == 3)
    && (get_or a.auto_prefix 0 0 == 73)
    && (get_or a.auto_prefix 1 0 == 80)
    && (get_or a.auto_prefix 2 0 == 68)

unfoldable pub recv_serial_default : ℕ → ℕ → Atcmd → Atcmd
recv_serial_default now b a =
    if b == 10
    then record a { auto_prefix_index = 0; rb = (put a.rb 0 1).0; posts = a.posts + 1 }
    else if b == 13
    then a
    else let a1 = with_prefix_byte b a in
      if announces_ipd a1
      then record a1 {
        rb = clear a1.rb;
        serial_recv = serial_recv_ipd_length;
        ipd_length = 0;
        auto_prefix_index = 0;
        time_to_default = u32 (now + 50);
      }
      else record a1 { rb = (put a1.rb b 1).0 }

-- The call through `serial_recv`.
unfoldable pub dispatch : Receiver → ℕ → ℕ → Atcmd → Atcmd
dispatch serial_recv_serial_default = recv_serial_default
dispatch serial_recv_ipd_length = recv_ipd_length
dispatch serial_recv_ipd_content = recv_ipd_content

abbrev pub is_default : Receiver → Bool
is_default serial_recv_serial_default = true
is_default serial_recv_ipd_length = false
is_default serial_recv_ipd_content = false

-- `atcmd_recv_serial_byte`, less its return value, which the source does not set.
unfoldable pub recv_serial_byte : ℕ → ℕ → Atcmd → Atcmd
recv_serial_byte now b a =
    let a1 =
      if not (is_default a.serial_recv) && leb a.time_to_default now
      then record a { serial_recv = serial_recv_serial_default }
      else a in
    dispatch a1.serial_recv now b a1
