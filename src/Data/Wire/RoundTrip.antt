-- ===== src/Data/Wire/RoundTrip.antt =====
-- What one relay writes on the TLS stream, src/ssl_relay.cpp, the other reads back.
use ssl_socks.Base.{
  ℕ, zero, suc, ◌+◌, ◌^◌, ◌≤◌, ◌<◌, min, ◌≡◌, refl, inl, inr, List, [], ◌∷◌, ◌++◌, map,
  append_assoc, arith, ◌==◌, le→ltb, Bool-cases, length, take, drop, write_at, length-append,
  length-take, length-replicate, take-length_append, drop-length_append, Bytes,
}
use ssl_socks.Base.Words.{to_le, length-to_le, of_le-to_le}
use ssl_socks.Data.{
  read_buffer_size, Command, stop_tcp, start_tcp, data_udp, data_tcp, stop_udp, unknown, RelayData,
  for_session, header_size, data_buffer, IsMessage,
}
use ssl_socks.Data.Wire.{
  command_code, command_of, header_bytes, buffers, bad_header, ok, err, parse_header, read_body,
  read_message, seen, read_messages, write_messages, IsNamed, AllSendable,
}
use ssl_socks.Data.Wire.Safety.{take-write_take}

command_of-command_code :
    (c : Command) → IsNamed c → (command_of (command_code c) ≡ c) × (command_code c < 2 ^ 32)
unfolding command_of command_code
command_of-command_code (unknown n) h = absurd h
command_of-command_code stop_tcp h = (refl, omega arith)
command_of-command_code start_tcp h = (refl, omega arith)
command_of-command_code data_udp h = (refl, omega arith)
command_of-command_code data_tcp h = (refl, omega arith)
command_of-command_code stop_udp h = (refl, omega arith)

length-header_bytes : (d : RelayData) → length (header_bytes d) ≡ header_size
unfolding header_bytes
length-header_bytes d = omega (
  arith,
  length-append (to_le 4 d.session) (to_le 4 (command_code d.cmd) ++ to_le 8 d.len),
  length-append (to_le 4 (command_code d.cmd)) (to_le 8 d.len),
  length-to_le 4 d.session,
  length-to_le 4 (command_code d.cmd),
  length-to_le 8 d.len,
)

take_front {ℓ} : {A : Type ℓ} {n : ℕ} (xs ys : List A) → length xs ≡ n → take n (xs ++ ys) ≡ xs
take_front xs ys e = rw (← e) (take-length_append xs ys)

drop_front {ℓ} : {A : Type ℓ} {n : ℕ} (xs ys : List A) → length xs ≡ n → drop n (xs ++ ys) ≡ ys
drop_front xs ys e = rw (← e) (drop-length_append xs ys)

drop_front_two :
    (xs ys zs : Bytes) (m n k : ℕ)
    → length xs ≡ m
    → length ys ≡ n
    → m + n ≡ k
    → drop k (xs ++ (ys ++ zs)) ≡ zs
drop_front_two xs ys zs m n k e f g =
    rw (← append_assoc xs ys zs) (drop_front (xs ++ ys) zs (omega (arith, length-append xs ys)))

-- A header whose fields fit their words is read back field by field.
parse_header-header_bytes :
    (d : RelayData)
    → IsMessage d
    → IsNamed d.cmd
    → parse_header (header_bytes d)
      ≡ record (for_session 0) { session = d.session; cmd = d.cmd; len = d.len }
unfolding parse_header header_bytes
parse_header-header_bytes d m c =
    let named = command_of-command_code d.cmd c in
    rw
      (
        take_front (to_le 4 d.session) _ (length-to_le 4 d.session),
        drop_front (to_le 4 d.session) _ (length-to_le 4 d.session),
        take_front (to_le 4 (command_code d.cmd)) (to_le 8 d.len)
            (length-to_le 4 (command_code d.cmd)),
        of_le-to_le 4 d.session m.word,
        of_le-to_le 4 (command_code d.cmd) named.1,
        named.0,
        drop_front_two (to_le 4 d.session) (to_le 4 (command_code d.cmd)) (to_le 8 d.len) 4 4 8
            (length-to_le 4 d.session) (length-to_le 4 (command_code d.cmd)) refl,
        of_le-to_le 8 d.len (bounded m.fits),
      )
      refl
  where
    bounded : d.len ≤ read_buffer_size → d.len < 256 ^ 8
    bounded h = omega arith

nil_of_length : (xs : Bytes) → length xs ≡ 0 → xs ≡ []
nil_of_length [] h = refl
nil_of_length (x ∷ xs) h = absurd (omega arith)

-- A complete data part is read whole, and nothing after it.
read_body-append :
    (d : RelayData) (payload rest : Bytes)
    → length payload ≡ d.len
    → d.len ≤ length d.bytes
    → (d' : RelayData) × (read_body d (payload ++ rest) ≡ ok (d', rest))
      × (seen d' ≡ record { session = d.session; cmd = d.cmd; payload = payload })
unfolding read_body
read_body-append d payload rest h f = elim (Bool-cases (d.len == 0)) [
  | inl zero_len ↦ (d, ground (arith, nil_of_length payload), ground (arith, nil_of_length payload))
  | inr some_len ↦ (
    record d { bytes = write_at 0 (take d.len (payload ++ rest)) d.bytes },
    ground (arith, length-append payload rest, drop_front payload rest h),
    ground (
      arith,
      length-append payload rest,
      take-write_take d.len (payload ++ rest) d.bytes,
      take_front payload rest h,
    ),
  )
]

pub length-data_buffer : (d : RelayData) → IsMessage d → length (data_buffer d) ≡ d.len
length-data_buffer d m = omega (arith, length-take d.len d.bytes, m.buffer, m.fits)

pub length-buffers : (d : RelayData) → IsMessage d → length (buffers d) ≡ d.len + header_size
unfolding buffers
length-buffers d m = omega (
  arith,
  length-append (header_bytes d) (data_buffer d),
  length-header_bytes d,
  length-data_buffer d m,
)

-- The header is taken off, and its length passes the check.
read_message_header :
    (d : RelayData) (rest : Bytes)
    → IsMessage d
    → IsNamed d.cmd
    → read_message header_size (buffers d ++ rest)
      ≡ read_body
          (record (for_session 0) { session = d.session; cmd = d.cmd; len = d.len })
          (data_buffer d ++ rest)
unfolding read_message buffers
read_message_header d rest m c =
    rw
      (
        append_assoc (header_bytes d) (data_buffer d) rest,
        take_front (header_bytes d) (data_buffer d ++ rest) (length-header_bytes d),
        drop_front (header_bytes d) (data_buffer d ++ rest) (length-header_bytes d),
        parse_header-header_bytes d m c,
        le→ltb read_buffer_size d.len m.fits,
      )
      refl

-- One message with a command that has a name, a session below 2 ^ 32 and data that fit its buffer
-- is, once written, the message read, whatever follows it on the stream.
pub read_message-buffers :
    (d : RelayData) (rest : Bytes)
    → IsMessage d
    → IsNamed d.cmd
    → (d' : RelayData) × (read_message header_size (buffers d ++ rest) ≡ ok (d', rest))
      × (seen d' ≡ seen d)
unfolding for_session
read_message-buffers d rest m c = rw (read_message_header d rest m c) (
    read_body-append (record (for_session 0) { session = d.session; cmd = d.cmd; len = d.len })
      (data_buffer d) rest (length-data_buffer d m)
      (omega (arith, length-replicate {A = ℕ} read_buffer_size 0, m.fits)))

pub read_message_end : read_message (min header_size 0) [] ≡ err bad_header
unfolding read_message
read_message_end = refl

header_available :
    (d : RelayData) (rest : Bytes) → min header_size (length (buffers d ++ rest)) ≡ header_size
unfolding buffers
header_available d rest = omega (
  arith,
  length-append (header_bytes d ++ data_buffer d) rest,
  length-append (header_bytes d) (data_buffer d),
  length-header_bytes d,
)

-- After any sequence of messages is written, each of a command that has a name, a session below 2
-- ^ 32, and data that fit its buffer of 4096 bytes, the reading loop, given at least as many
-- rounds, sees the same sessions, commands and payloads in the same order, and no more.
pub read_messages-write_messages :
    (ds : List RelayData) (rounds : ℕ)
    → AllSendable ds
    → length ds ≤ rounds
    → map (λ d. seen d) (read_messages rounds (write_messages ds)) ≡ map (λ d. seen d) ds
unfolding read_messages write_messages
read_messages-write_messages [] zero s h = refl
read_messages-write_messages [] (suc rounds) s h = rw (read_message_end, read_messages)
read_messages-write_messages (d ∷ ds) zero s h = elim h [ ]
read_messages-write_messages (d ∷ ds) (suc rounds) s h =
    let (d', e, same) = read_message-buffers d (write_messages ds) s.0 s.1 in
    rw (header_available d (write_messages ds), read_messages)
      (rw (e, read_messages) (cc (same, read_messages-write_messages ds rounds s.2 (omega arith))))
