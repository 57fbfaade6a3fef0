-- ===== src/Tls/Reading.antt =====
-- The reading loop of the TLS relay, src/ssl_relay.cpp (impl_start_read), with what it does between the
-- reads, and headers that come in part.
use ssl_socks.Base.{
  ℕ, suc, min, ◌≡◌, refl, ap, ◌∙◌, inl, inr, Bool, true, false, List, [], ◌∷◌, arith, leb, ◌==◌,
  if◌then◌else◌, Bool-cases, length, take, Bytes,
}
use ssl_socks.Data.{RelayData, header_size}
use ssl_socks.Data.Wire.{bad_header, ReadResult, ok, err, read_message, read_messages}

-- What comes of `mngr->add_response(buf)`: it returns, it throws a system_error from a handler that ran
-- at once, or the manager is gone, and there is no call.
pub data HandOver : Type 0 where
  handles throws_error is_gone : HandOver

-- A round of the loop: how many bytes there are for async_read_some, which gives no more than a header
-- and what the stream still has, and what comes of the message.
pub record TlsRound : Type 0 where
  pub there : ℕ
  pub answer : HandOver

pub data ReadAction : Type 0 where
  resets_tls stops_tls : ReadAction
  responds : RelayData → ReadAction

-- An exception is caught, and stops the relay. Without the manager the coroutine returns, and the relay is
-- left as it is.
unfoldable pub hand_over : HandOver → RelayData → List ReadAction → List ReadAction
hand_over handles d after = responds d ∷ after
hand_over throws_error d after = responds d ∷ (stops_tls ∷ [])
hand_over is_gone d after = []

-- The loop, for the given rounds: behind them it waits for the next header.
unfoldable pub tls_read : List TlsRound → Bytes → List ReadAction
unfolding hand_over
tls_read [] stream = []
tls_read (r ∷ rounds) stream =
    elim (read_message (min r.there (min header_size (length stream))) stream) [
      | ok (d, rest) ↦ resets_tls ∷ hand_over r.answer d (tls_read rounds rest)
      | err e ↦ stops_tls ∷ []
    ]

-- The messages alone, for headers of which so many bytes are there.
unfoldable pub read_arrived : List ℕ → Bytes → List RelayData
read_arrived [] stream = []
read_arrived (n ∷ ns) stream =
    elim (read_message (min n (min header_size (length stream))) stream) [
      | ok (d, rest) ↦ d ∷ read_arrived ns rest
      | err e ↦ []
    ]

abbrev pub header_lengths : List TlsRound → List ℕ
header_lengths [] = []
header_lengths (r ∷ rounds) = r.there ∷ header_lengths rounds

abbrev pub answers : List TlsRound → List HandOver
answers [] = []
answers (r ∷ rounds) = r.answer ∷ answers rounds

-- The messages that the manager is given.
abbrev pub responses : List ReadAction → List RelayData
responses [] = []
responses (responds d ∷ acts) = d ∷ responses acts
responses (_ ∷ acts) = responses acts

abbrev pub stops : List ReadAction → Bool
stops [] = false
stops (stops_tls ∷ acts) = true
stops (_ ∷ acts) = stops acts

-- Of these messages the manager gets all up to the first that it throws at, and none from the first that
-- does not find it.
abbrev pub given : List HandOver → List RelayData → List RelayData
given (handles ∷ hs) (d ∷ ds) = d ∷ given hs ds
given (throws_error ∷ hs) (d ∷ ds) = d ∷ []
given (is_gone ∷ hs) (d ∷ ds) = []
given _ _ = []

-- The relay stops where the manager throws, and where it handles all messages and there is a round more.
abbrev pub stopped_by : List HandOver → List RelayData → Bool
stopped_by [] ds = false
stopped_by (a ∷ hs) [] = true
stopped_by (handles ∷ hs) (d ∷ ds) = stopped_by hs ds
stopped_by (throws_error ∷ hs) (d ∷ ds) = true
stopped_by (is_gone ∷ hs) (d ∷ ds) = false

abbrev Gives : List HandOver → List RelayData → List ReadAction → Type 0
Gives xs ds acts = (responses acts ≡ given xs ds) × (stops acts ≡ stopped_by xs ds)

hand_over-Gives :
    (a : HandOver) (xs : List HandOver) (d : RelayData) (ds : List RelayData)
    (after : List ReadAction)
    → Gives xs ds after
    → Gives (a ∷ xs) (d ∷ ds) (resets_tls ∷ hand_over a d after)
unfolding hand_over
hand_over-Gives handles xs d ds after h = (ap (◌∷◌ d) h.0, h.1)
hand_over-Gives throws_error xs d ds after h = (refl, refl)
hand_over-Gives is_gone xs d ds after h = (refl, refl)

round-Gives :
    (a : HandOver) (xs : List HandOver) (r : ReadResult (RelayData × Bytes))
    (f : Bytes → List RelayData) (g : Bytes → List ReadAction)
    → ((rest : Bytes) → Gives xs (f rest) (g rest))
    → Gives
        (a ∷ xs)
        (elim r [ ok (d, rest) ↦ d ∷ f rest | err e ↦ [] ])
        (elim r [ ok (d, rest) ↦ resets_tls ∷ hand_over a d (g rest) | err e ↦ stops_tls ∷ [] ])
round-Gives a xs (ok (d, rest)) f g h = hand_over-Gives a xs d (f rest) (g rest) (h rest)
round-Gives handles xs (err e) f g h = (refl, refl)
round-Gives throws_error xs (err e) f g h = (refl, refl)
round-Gives is_gone xs (err e) f g h = (refl, refl)

tls_read-answers :
    (rounds : List TlsRound) (stream : Bytes)
    → Gives (answers rounds) (read_arrived (header_lengths rounds) stream) (tls_read rounds stream)
unfolding tls_read read_arrived
tls_read-answers [] stream = (refl, refl)
tls_read-answers (r ∷ rounds) stream =
    round-Gives r.answer (answers rounds)
      (read_message (min r.there (min header_size (length stream))) stream)
      (read_arrived (header_lengths rounds)) (tls_read rounds)
      (λ rest. tls_read-answers rounds rest)

-- How many headers come whole, up to the first that does not.
abbrev pub wholes : List ℕ → ℕ
wholes [] = 0
wholes (n ∷ ns) = let rest = wholes ns in if leb 16 n then suc rest else 0

-- A header that comes in part ends the loop.
part_refused :
    (n : ℕ) (stream : Bytes)
    → leb 16 n ≡ false
    → read_message (min n (min header_size (length stream))) stream ≡ err bad_header
unfolding read_message
part_refused n stream h = rw (differs (min header_size (length stream))) refl
  where
    differs : (m : ℕ) → (min n m == header_size) ≡ false
    differs m = ground (arith, h)

whole_read : (n m : ℕ) → leb 16 n ≡ true → min n (min header_size m) ≡ min header_size m
whole_read n m h = ground (arith, h)

first_by :
    (k : ℕ) (r : ReadResult (RelayData × Bytes)) (f g : Bytes → List RelayData)
    → ((rest : Bytes) → f rest ≡ take k (g rest))
    → (elim r [ ok (d, rest) ↦ d ∷ f rest | err e ↦ [] ])
      ≡ take (suc k) (elim r [ ok (d, rest) ↦ d ∷ g rest | err e ↦ [] ])
first_by k (err e) f g h = refl
first_by k (ok (d, rest)) f g h = ap (◌∷◌ d) (h rest)

-- What is read is the first of the messages that the stream holds, as many as headers come whole.
pub read_arrived-read_messages :
    (ns : List ℕ) (stream : Bytes)
    → read_arrived ns stream ≡ take (wholes ns) (read_messages (length ns) stream)
unfolding read_arrived read_messages
read_arrived-read_messages [] stream = refl
read_arrived-read_messages (n ∷ ns) stream = elim (Bool-cases (leb 16 n)) [
  | inl whole ↦ rw whole (
      ap
        (λ k. elim (read_message k stream) [ ok (d, rest) ↦ d ∷ read_arrived ns rest | err e ↦ [] ])
        (whole_read n (length stream) whole)
      ∙ first_by (wholes ns) (read_message (min header_size (length stream)) stream)
          (read_arrived ns) (read_messages (length ns))
          (λ rest. read_arrived-read_messages ns rest))
  | inr part ↦ rw part (
      ap
        (λ (r : ReadResult (RelayData × Bytes)). elim r [
          | ok (d, rest) ↦ d ∷ read_arrived ns rest
          | err e ↦ []
        ])
        (part_refused n stream part))
]

length-header_lengths : (rounds : List TlsRound) → length (header_lengths rounds) ≡ length rounds
length-header_lengths [] = refl
length-header_lengths (r ∷ rounds) = ap suc (length-header_lengths rounds)

-- Whatever the stream holds, however much of each header is there when it is read, and whatever comes of
-- the messages: the loop reads the first of the messages that the stream holds, as many as headers come
-- whole; of these the manager is given, in order, all up to the first that it throws a system_error at,
-- and none from the first that does not find it; and the relay is stopped where it throws, and where
-- all that are read are handled and a round more comes, but not where the manager is gone.
pub tls_read-Gives :
    (rounds : List TlsRound) (stream : Bytes)
    → (responses (tls_read rounds stream)
        ≡ given (answers rounds) (read_arrived (header_lengths rounds) stream))
      × (stops (tls_read rounds stream)
          ≡ stopped_by (answers rounds) (read_arrived (header_lengths rounds) stream))
      × (read_arrived (header_lengths rounds) stream
          ≡ take (wholes (header_lengths rounds)) (read_messages (length rounds) stream))
tls_read-Gives rounds stream =
    let (gives, stopping) = tls_read-answers rounds stream in
    (
      gives,
      stopping,
      read_arrived-read_messages (header_lengths rounds) stream
          ∙ ap (λ n. take (wholes (header_lengths rounds)) (read_messages n stream))
              (length-header_lengths rounds),
    )
