-- ===== src/Data/Wire/Bounds.antt =====
-- What the loop takes from any stream is within bounds, src/ssl_relay.cpp (impl_start_read).
use ssl_socks.Base.{
  ℕ, zero, suc, ◌^◌, ◌≤◌, ◌<◌, min, ◌≡◌, refl, ap, List, [], ◌∷◌, map, arith, length, take, drop,
  length-take, Bytes,
}
use ssl_socks.Base.Words.{AllOctets, of_le-lt}
use ssl_socks.Data.{read_buffer_size, RelayData, header_size, IsMessage}
use ssl_socks.Data.Wire.{
  ReadResult, ok, err, parse_header, read_body, read_message, Seen, seen, read_messages,
  write_messages, AllSendable,
}
use ssl_socks.Data.Wire.RoundTrip.{read_messages-write_messages}
use ssl_socks.Data.Wire.Safety.{accepted, read_message-IsSafe}

abbrev pub AllMessages : List RelayData → Type 0
AllMessages [] = Unit {0}
AllMessages (d ∷ ds) = IsMessage d × AllMessages ds

take-AllOctets : (n : ℕ) (bs : Bytes) → AllOctets bs → AllOctets (take n bs)
take-AllOctets zero bs h = tt
take-AllOctets (suc n) [] h = tt
take-AllOctets (suc n) (b ∷ bs) h = (h.0, take-AllOctets n bs h.1)

drop-AllOctets : (n : ℕ) (bs : Bytes) → AllOctets bs → AllOctets (drop n bs)
drop-AllOctets zero bs h = h
drop-AllOctets (suc n) [] h = tt
drop-AllOctets (suc n) (b ∷ bs) h = drop-AllOctets n bs h.1

session-parse_header : (h : Bytes) → AllOctets h → (parse_header h).session < 2 ^ 32
unfolding parse_header
session-parse_header h b =
    omega (arith, of_le-lt 4 (take 4 h) (take-AllOctets 4 h b) (omega (arith, length-take 4 h)))

read_body-AllOctets :
    (d : RelayData) (stream : Bytes) {d' : RelayData} {rest : Bytes}
    → AllOctets stream
    → read_body d stream ≡ ok (d', rest)
    → (d'.session ≡ d.session) × AllOctets rest
unfolding read_body
read_body-AllOctets d stream h e = ground (arith, drop-AllOctets d.len stream h)

-- One round.
read_message-IsMessage :
    (n : ℕ) (stream : Bytes) (d : RelayData) (rest : Bytes)
    → AllOctets stream
    → read_message n stream ≡ ok (d, rest)
    → IsMessage d × AllOctets rest
read_message-IsMessage n stream d rest h e =
    let (full, f, b, split) = read_message-IsSafe n stream e in
    let (same, small, body) = accepted n stream e in
    let (kept, left) =
      read_body-AllOctets (parse_header (take n stream)) (drop n stream) (drop-AllOctets n stream h)
        body in
    (
      record {
        fits = f;
        buffer = b;
        word =
            omega (arith, kept, session-parse_header (take n stream) (take-AllOctets n stream h));
      },
      left,
    )

round_AllMessages :
    (r : ReadResult (RelayData × Bytes)) (rounds : Bytes → List RelayData)
    → ((d : RelayData) (rest : Bytes) → r ≡ ok (d, rest) → IsMessage d × AllMessages (rounds rest))
    → AllMessages (elim r [ ok (d, rest) ↦ d ∷ rounds rest | err e ↦ [] ])
round_AllMessages (ok (d, rest)) rounds h = h d rest refl
round_AllMessages (err e) rounds h = tt

-- Whatever octets come on the stream, of any number, each message that the loop takes from them, in
-- any number of rounds, has a session below 2 ^ 32, and no more data than its buffer of 4096 bytes
-- holds.
pub read_messages-AllMessages :
    (n : ℕ) (stream : Bytes) → AllOctets stream → AllMessages (read_messages n stream)
unfolding read_messages
read_messages-AllMessages zero stream h = tt
read_messages-AllMessages (suc n) stream h =
    round_AllMessages (read_message (min header_size (length stream)) stream) (read_messages n)
      (λ d rest e.
        let (good, left) =
          read_message-IsMessage (min header_size (length stream)) stream d rest h e in
        (good, read_messages-AllMessages n rest left))

-- The size of what is read, on any stream.
abbrev AllFitting : List RelayData → Type 0
AllFitting [] = Unit {0}
AllFitting (d ∷ ds) =
    (d.len ≤ read_buffer_size) × (length d.bytes ≡ read_buffer_size) × AllFitting ds

round_AllFitting :
    (r : ReadResult (RelayData × Bytes)) (rounds : Bytes → List RelayData)
    → ((d : RelayData) (rest : Bytes)
        → r ≡ ok (d, rest)
        → (d.len ≤ read_buffer_size) × (length d.bytes ≡ read_buffer_size))
    → ((rest : Bytes) → AllFitting (rounds rest))
    → AllFitting (elim r [ ok (d, rest) ↦ d ∷ rounds rest | err e ↦ [] ])
round_AllFitting (ok (d, rest)) rounds h k = ((h d rest refl).0, (h d rest refl).1, k rest)
round_AllFitting (err e) rounds h k = tt

read_messages-AllFitting : (n : ℕ) (stream : Bytes) → AllFitting (read_messages n stream)
unfolding read_messages
read_messages-AllFitting zero stream = tt
read_messages-AllFitting (suc n) stream =
    round_AllFitting (read_message (min header_size (length stream)) stream) (read_messages n)
      (λ d rest e.
        let (full, f, b, split) = read_message-IsSafe (min header_size (length stream)) stream e in
        (f, b))
      (read_messages-AllFitting n)

AllFitting-AllMessages :
    (ds es : List RelayData)
    → AllFitting ds
    → map (λ d. seen d) ds ≡ map (λ d. seen d) es
    → AllSendable es
    → AllMessages ds
AllFitting-AllMessages [] es f e a = tt
AllFitting-AllMessages (d ∷ ds) [] f e a = absurd (cc)
AllFitting-AllMessages (d ∷ ds) (x ∷ es) f e a =
    let (same, rest) = cons_same e in
    (
      record { fits = f.0; buffer = f.1; word = omega (arith, ap (λ m. m.session) same, a.0.word) },
      AllFitting-AllMessages ds es f.2 rest a.2,
    )
  where
    cons_same : {m k : Seen} {ms ks : List Seen} → (m ∷ ms) ≡ (k ∷ ks) → (m ≡ k) × (ms ≡ ks)
    cons_same h = (cc, cc)

-- What is read from messages that were written fits.
pub write_messages-AllMessages :
    (ds : List RelayData) (n : ℕ)
    → AllSendable ds
    → length ds ≤ n
    → AllMessages (read_messages n (write_messages ds))
write_messages-AllMessages ds n a l =
    AllFitting-AllMessages (read_messages n (write_messages ds)) ds
      (read_messages-AllFitting n (write_messages ds)) (read_messages-write_messages ds n a l) a
