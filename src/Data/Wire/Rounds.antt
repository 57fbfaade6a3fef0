-- ===== src/Data/Wire/Rounds.antt =====
-- The reading loop comes to an end, src/ssl_relay.cpp (impl_start_read).
-- A round that is followed by the same is the same.
use ssl_socks.Base.{
  ℕ, zero, suc, ◌≤◌, ◌<◌, min, ◌≡◌, refl, sym, ap, List, [], ◌∷◌, arith, length, length-append,
  length-drop, Bytes,
}
use ssl_socks.Data.{RelayData, header_size, data_buffer}
use ssl_socks.Data.Wire.{ReadResult, ok, err, read_message, read_messages}
use ssl_socks.Data.Wire.RoundTrip.{read_message_end}
use ssl_socks.Data.Wire.Safety.{read_message-IsSafe}

round_same :
    (r : ReadResult (RelayData × Bytes)) (f g : Bytes → List RelayData)
    → ((d : RelayData) (rest : Bytes) → r ≡ ok (d, rest) → f rest ≡ g rest)
    → (elim r [ ok (d, rest) ↦ d ∷ f rest | err e ↦ [] ])
      ≡ (elim r [ ok (d, rest) ↦ d ∷ g rest | err e ↦ [] ])
round_same (ok (d, rest)) f g h = ap (◌∷◌ d) (h d rest refl)
round_same (err e) f g h = refl

read_nothing : (n : ℕ) (stream : Bytes) → length stream ≡ 0 → read_messages n stream ≡ []
unfolding read_messages
read_nothing zero stream h = refl
read_nothing (suc n) [] h = rw (read_message_end, read_messages) refl
read_nothing (suc n) (c ∷ cs) h = absurd (omega (arith, h))

-- A round takes at least a header.
pub round_shrinks :
    (stream rest : Bytes) (d : RelayData)
    → read_message (min header_size (length stream)) stream ≡ ok (d, rest)
    → length rest < length stream
round_shrinks stream rest d e =
    let (full, f, b, split) = read_message-IsSafe (min header_size (length stream)) stream e in
    omega (
      arith,
      full,
      ap (λ xs. length xs) split,
      length-drop header_size stream,
      length-append (data_buffer d) rest,
    )

-- The loop ends by itself: on a stream of any content, all numbers of rounds that are at least its
-- length give the same messages.
pub read_messages-enough :
    (n m : ℕ) (stream : Bytes)
    → length stream ≤ n
    → length stream ≤ m
    → read_messages n stream ≡ read_messages m stream
unfolding read_messages
read_messages-enough zero m stream h k = sym (read_nothing m stream (omega (arith, h)))
read_messages-enough (suc n) zero stream h k = read_nothing (suc n) stream (omega (arith, k))
read_messages-enough (suc n) (suc m) stream h k =
    round_same (read_message (min header_size (length stream)) stream) (read_messages n)
      (read_messages m)
      (λ d rest e.
        let less = round_shrinks stream rest d e in
        read_messages-enough n m rest (omega (arith, less, h)) (omega (arith, less, k)))
