-- ===== src/Data/Wire.antt =====
-- src/relay_data.hpp (buffers) and src/ssl_relay.cpp (impl_start_read, internal_send_data):
-- messages on the TLS stream. The header goes out as it lies in memory on the 64-bit
-- little-endian platforms: four bytes of session, four of command, eight of length.
pub mod RoundTrip
pub mod Safety
pub mod Rounds
pub mod Bounds
use ssl_socks.Base.{
  ℕ, zero, suc, min, not, ◌||◌, List, [], ◌∷◌, ◌++◌, ltb, ◌==◌, if◌then◌else◌, length, take, drop,
  write_at, Bytes,
}
use ssl_socks.Base.Words.{to_le, of_le}
use ssl_socks.Data.{
  read_buffer_size, Command, stop_tcp, start_tcp, data_udp, data_tcp, stop_udp, unknown, RelayData,
  for_session, header_size, data_buffer, IsMessage,
}

-- The enumerators count from 0.
unfoldable pub command_code : Command → ℕ
command_code stop_tcp = 0
command_code start_tcp = 1
command_code data_udp = 2
command_code data_tcp = 3
command_code stop_udp = 4
command_code (unknown n) = n

unfoldable pub command_of : ℕ → Command
command_of n =
    if n == 0
    then stop_tcp
    else if n == 1
    then start_tcp
    else if n == 2
    then data_udp
    else if n == 3
    then data_tcp
    else if n == 4
    then stop_udp
    else unknown n

-- header_buffer()
unfoldable pub header_bytes : RelayData → Bytes
header_bytes d = to_le 4 d.session ++ (to_le 4 (command_code d.cmd) ++ to_le 8 d.len)

-- buffers(): what `internal_send_data` writes.
unfoldable pub buffers : RelayData → Bytes
buffers d = header_bytes d ++ data_buffer d

pub data ReadError : Type 0 where
  bad_header cut_off : ReadError

pub data ReadResult {ℓ} (A : Type ℓ) : Type ℓ where
  ok : A → ReadResult A
  err : ReadError → ReadResult A

-- A header read into a fresh message. The fields of a complete header replace the old ones.
unfoldable pub parse_header : Bytes → RelayData
parse_header h = record (for_session 0) {
  session = of_le (take 4 h);
  cmd = command_of (of_le (take 4 (drop 4 h)));
  len = of_le (drop 8 h);
}

-- The data part: `async_read` fills the whole buffer, or fails at the end of the stream.
unfoldable pub read_body : RelayData → Bytes → ReadResult (RelayData × Bytes)
read_body d rest =
    if d.len == 0
    then ok (d, rest)
    else if ltb (length rest) d.len
    then err cut_off
    else ok (record d { bytes = write_at 0 (take d.len rest) d.bytes }, drop d.len rest)

-- One round of the loop of `impl_start_read`: `n` is what `async_read_some` returned for the
-- header, of the bytes that are to come.
unfoldable pub read_message : ℕ → Bytes → ReadResult (RelayData × Bytes)
read_message n stream =
    let d = parse_header (take n stream) in
    if not (n == header_size) || ltb read_buffer_size d.len
    then err bad_header
    else read_body d (drop n stream)

-- What a receiver can tell of a message.
pub record Seen : Type 0 where
  pub session : ℕ
  pub cmd : Command
  pub payload : Bytes

abbrev pub seen : RelayData → Seen
seen d = record { session = d.session; cmd = d.cmd; payload = data_buffer d }

-- The loop of `impl_start_read`, for at most the given number of rounds; it ends at the first
-- error. `async_read_some` returns what there is, up to the size of the header: a message goes out in
-- one write, so that its header comes whole. Tls/Reading has headers of which less is there.
unfoldable pub read_messages : ℕ → Bytes → List RelayData
read_messages zero stream = []
read_messages (suc n) stream = elim (read_message (min header_size (length stream)) stream) [
  | ok (d, rest) ↦ d ∷ read_messages n rest
  | err e ↦ []
]

-- The stream that a sequence of writes makes.
unfoldable pub write_messages : List RelayData → Bytes
write_messages [] = []
write_messages (d ∷ ds) = buffers d ++ write_messages ds

-- One of the five commands that the program itself sends.
abbrev pub IsNamed : Command → Type 0
IsNamed (unknown n) = ⊥
IsNamed _ = Unit {0}

abbrev pub AllSendable : List RelayData → Type 0
AllSendable [] = Unit {0}
AllSendable (d ∷ ds) = IsMessage d × IsNamed d.cmd × AllSendable ds
