-- ===== src/Data.antt =====
-- src/relay_data.hpp: the message that relays exchange, a header and a buffer of 4096 bytes.
-- `_data` is `bytes`; the header's fields stand in the record itself.
pub mod Wire
mod Tests
use ssl_socks.Base.{ℕ, ◌+◌, ◌-◌, ◌%◌, ◌^◌, ◌≤◌, ◌<◌, ◌≡◌, length, take, drop, replicate, Bytes}

abbrev pub read_buffer_size : ℕ
read_buffer_size = 4096

-- The room that a UDP message keeps for an address in front of its payload.
abbrev pub udp_head : ℕ
udp_head = 19

-- `unknown` is a value read off the wire that names no enumerator.
pub data Command : Type 0 where
  stop_tcp start_tcp data_udp data_tcp stop_udp : Command
  unknown : ℕ → Command

pub record RelayData : Type 0 where
  pub session : ℕ
  pub cmd : Command
  pub len : ℕ
  pub bytes : Bytes

-- relay_data()
unfoldable pub empty_udp : RelayData
empty_udp = record {
  session = 0;
  cmd = data_udp;
  len = read_buffer_size;
  bytes = replicate read_buffer_size 0;
}

-- relay_data(session)
unfoldable pub for_session : ℕ → RelayData
for_session s = record {
  session = s;
  cmd = data_tcp;
  len = read_buffer_size;
  bytes = replicate read_buffer_size 0;
}

-- relay_data(session, cmd)
unfoldable pub for_command : ℕ → Command → RelayData
for_command s c = record { session = s; cmd = c; len = 0; bytes = replicate read_buffer_size 0 }

abbrev pub header_size : ℕ
header_size = 16

-- _header._len-19 in 64 bits: on a message shorter than its address it wraps around.
abbrev pub udp_data_size : RelayData → ℕ
udp_data_size d = (d.len + (2 ^ 64 - udp_head)) % 2 ^ 64

-- The bytes that `data_buffer()` spans, and those that `udp_data_buffer()` spans, as far as they lie
-- in the message.
abbrev pub data_buffer : RelayData → Bytes
data_buffer d = take d.len d.bytes

abbrev pub udp_data_buffer : RelayData → Bytes
udp_data_buffer d = take (udp_data_size d) (drop udp_head d.bytes)

abbrev pub resize : RelayData → ℕ → RelayData
resize d n = record d { len = n }

abbrev pub resize_udp : RelayData → ℕ → RelayData
resize_udp d n = record d { len = n + udp_head }

abbrev pub data_size : RelayData → ℕ
data_size d = d.len

-- session(session)
abbrev pub set_session : ℕ → RelayData → RelayData
set_session s d = record d { session = s }

abbrev pub size : RelayData → ℕ
size d = d.len + header_size

-- A message as the program builds it: it fits its buffer, and its session is a uint32_t.
pub record IsMessage (d : RelayData) : Type 0 where
  pub fits : d.len ≤ read_buffer_size
  pub buffer : length d.bytes ≡ read_buffer_size
  pub word : d.session < 2 ^ 32
