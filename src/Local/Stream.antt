-- ===== src/Local/Stream.antt =====
-- What a client sends, from the reads of its relay to the other end of the TLS stream,
-- src/raw_tcp.cpp (impl_start_read) and src/ssl_relay.cpp.
use ssl_socks.Base.{
  ℕ, suc, ◌^◌, ◌≤◌, ◌<◌, ◌≡◌, refl, ap, ◌∙◌, List, [], ◌∷◌, map, arith, length, length-write_at,
  take-write_at, Bytes,
}
use ssl_socks.Data.{
  read_buffer_size, stop_tcp, data_tcp, RelayData, for_session, for_command, IsMessage,
}
use ssl_socks.Data.Wire.{Seen, seen, read_messages, write_messages, IsNamed, AllSendable}
use ssl_socks.Data.Wire.RoundTrip.{read_messages-write_messages}
use ssl_socks.Local.{Action, sends_request, chunk_message, start_read}
use ssl_socks.Local.Start.{zeros, length-zeros}

-- The messages that go to the manager.
abbrev pub requests_of : List Action → List RelayData
requests_of [] = []
requests_of (sends_request m ∷ acts) = m ∷ requests_of acts
requests_of (_ ∷ acts) = requests_of acts

-- Reads into a buffer of 4096 bytes.
abbrev pub AllFit : List Bytes → Type 0
AllFit [] = Unit {0}
AllFit (chunk ∷ chunks) = (length chunk ≤ read_buffer_size) × AllFit chunks

abbrev pub data_seen : ℕ → Bytes → Seen
data_seen s chunk = record { session = s; cmd = data_tcp; payload = chunk }

-- What the other side is to see: the chunks, and then a stop.
abbrev pub expected : ℕ → List Bytes → List Seen
expected s [] = record { session = s; cmd = stop_tcp; payload = [] } ∷ []
expected s (chunk ∷ chunks) =
    record { session = s; cmd = data_tcp; payload = chunk } ∷ expected s chunks

pub chunk_message-IsMessage :
    (s : ℕ) (chunk : Bytes)
    → s < 2 ^ 32
    → length chunk ≤ read_buffer_size
    → IsMessage (chunk_message s chunk) × IsNamed (chunk_message s chunk).cmd
unfolding chunk_message for_session
chunk_message-IsMessage s chunk w h =
    (record { fits = h; buffer = length-write_at 0 chunk zeros ∙ length-zeros; word = w }, tt)

pub stop-IsMessage :
    (s : ℕ) → s < 2 ^ 32 → IsMessage (for_command s stop_tcp) × IsNamed (for_command s stop_tcp).cmd
unfolding for_command
stop-IsMessage s w = (record { fits = omega arith; buffer = length-zeros; word = w }, tt)

start_read-AllSendable :
    (s : ℕ) (chunks : List Bytes)
    → s < 2 ^ 32
    → AllFit chunks
    → AllSendable (requests_of (start_read s chunks))
unfolding start_read
start_read-AllSendable s [] w h = let (m, n) = stop-IsMessage s w in (m, n, tt)
start_read-AllSendable s (chunk ∷ chunks) w h =
    let (m, n) = chunk_message-IsMessage s chunk w h.0 in
    (m, n, start_read-AllSendable s chunks w h.1)

length-start_read :
    (s : ℕ) (chunks : List Bytes) → length (requests_of (start_read s chunks)) ≡ suc (length chunks)
unfolding start_read
length-start_read s [] = refl
length-start_read s (chunk ∷ chunks) = ap suc (length-start_read s chunks)

pub seen_chunk :
    (s : ℕ) (chunk : Bytes)
    → length chunk ≤ read_buffer_size
    → seen (chunk_message s chunk) ≡ record { session = s; cmd = data_tcp; payload = chunk }
unfolding chunk_message for_session
seen_chunk s chunk h =
    ap (λ (b : Bytes). record { session = s; cmd = data_tcp; payload = b })
      (take-write_at chunk zeros (omega (arith, length-zeros)))

start_read-expected :
    (s : ℕ) (chunks : List Bytes)
    → AllFit chunks
    → map (λ d. seen d) (requests_of (start_read s chunks)) ≡ expected s chunks
unfolding start_read for_command
start_read-expected s [] h = refl
start_read-expected s (chunk ∷ chunks) h =
    ap (λ x. x ∷ map (λ d. seen d) (requests_of (start_read s chunks))) (seen_chunk s chunk h.0)
    ∙ ap (λ rest. data_seen s chunk ∷ rest) (start_read-expected s chunks h.1)

-- What a client sends, in reads of at most 4096 bytes, is written to the TLS stream as messages
-- from which the loop at the other end, given more rounds than there are reads, reads the same
-- bytes, in the same pieces and order, all for this session, and a stop behind them.
pub start_read-write_messages :
    (s : ℕ) (chunks : List Bytes) (rounds : ℕ)
    → s < 2 ^ 32
    → AllFit chunks
    → length chunks < rounds
    → map (λ d. seen d) (read_messages rounds (write_messages (requests_of (start_read s chunks))))
      ≡ expected s chunks
start_read-write_messages s chunks rounds w h n =
    read_messages-write_messages (requests_of (start_read s chunks)) rounds
      (start_read-AllSendable s chunks w h) (omega (arith, length-start_read s chunks, n))
    ∙ start_read-expected s chunks h
