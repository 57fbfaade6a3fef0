-- ===== src/Data/Wire/Safety.antt =====
-- What an accepted message takes from the stream, src/ssl_relay.cpp (impl_start_read).
use ssl_socks.Base.{
  ℕ, ◌≤◌, ◌≡◌, ◌++◌, arith, length, take, drop, write_at, length-take, length-replicate,
  take-append-drop, length-write_at, take-write_at, Bytes,
}
use ssl_socks.Data.{read_buffer_size, RelayData, for_session, header_size, data_buffer}
use ssl_socks.Data.Wire.{ok, parse_header, read_body, read_message}

-- What is written at the front of a buffer is what its first bytes are.
pub take-write_take :
    (n : ℕ) (src dst : Bytes)
    → n ≤ length src
    → n ≤ length dst
    → take n (write_at 0 (take n src) dst) ≡ take n src
take-write_take n src dst h k =
    let e : length (take n src) ≡ n = omega (arith, length-take n src) in
    rw e at (take-write_at (take n src) dst (omega (arith, e)))

read_body_lem :
    (d : RelayData) (stream : Bytes) {d' : RelayData} {rest : Bytes}
    → length d.bytes ≡ read_buffer_size
    → d.len ≤ read_buffer_size
    → read_body d stream ≡ ok (d', rest)
    → (d'.len ≤ read_buffer_size)
      × (length d'.bytes ≡ read_buffer_size)
      × (stream ≡ data_buffer d' ++ rest)
unfolding read_body
read_body_lem d stream b f e = ground (
  arith,
  take-write_take d.len stream d.bytes,
  length-write_at 0 (take d.len stream) d.bytes,
  take-append-drop d.len stream,
)

length-parse_header : (h : Bytes) → length (parse_header h).bytes ≡ read_buffer_size
unfolding parse_header for_session
length-parse_header h = length-replicate read_buffer_size 0

pub accepted :
    (n : ℕ) (stream : Bytes) {r : RelayData × Bytes}
    → read_message n stream ≡ ok r
    → (n ≡ header_size)
      × ((parse_header (take n stream)).len ≤ read_buffer_size)
      × (read_body (parse_header (take n stream)) (drop n stream) ≡ ok r)
unfolding read_message
accepted n stream e = ground arith

-- An accepted message fits its buffer, whatever the header said; its data are the bytes that
-- follow the header, and exactly these are taken from the stream.
pub read_message-IsSafe :
    (n : ℕ) (stream : Bytes) {d : RelayData} {rest : Bytes}
    → read_message n stream ≡ ok (d, rest)
    → (n ≡ header_size)
      × (d.len ≤ read_buffer_size)
      × (length d.bytes ≡ read_buffer_size)
      × (drop header_size stream ≡ data_buffer d ++ rest)
read_message-IsSafe n stream e =
    let (full, fits, body) = accepted n stream e in
    let (f, b, split) =
      read_body_lem (parse_header (take n stream)) (drop n stream)
        (length-parse_header (take n stream)) fits body in
    (full, f, b, rw full at split)
