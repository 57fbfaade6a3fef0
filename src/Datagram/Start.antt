-- ===== src/Datagram/Start.antt =====
-- The start of a raw_udp relay, and what it receives, src/raw_udp.cpp (start_relay, impl_start_recv).
use ssl_socks.Address.{Sockaddr, IsSockaddr, get_data_addr}
use ssl_socks.Address.RoundTrip.{unscoped}
use ssl_socks.Base.{
  ℕ, ◌≤◌, ◌≡◌, refl, ap₂, Option, none, some, List, [], ◌∷◌, if◌then◌else◌, length, Bytes,
}
use ssl_socks.Data.{RelayData, udp_data_buffer}
use ssl_socks.Datagram.{received, received_holds}
use ssl_socks.Manager.World.{is_remote}
use ssl_socks.Relay.{ServerType}

pub data UdpAction : Type 0 where
  reuses_udp binds_any receives_next opens_udp stops_udp : UdpAction
  requests_udp : RelayData → UdpAction

-- impl_start_recv(), for the datagrams, with their senders, that come before an error.
unfoldable pub start_recv : ℕ → List (Bytes × Sockaddr) → List UdpAction
unfolding received
start_recv s [] = receives_next ∷ (stops_udp ∷ [])
start_recv s ((payload, peer) ∷ rest) =
    receives_next ∷ (requests_udp (received s payload peer) ∷ start_recv s rest)

-- start_relay(): what runs before the loop of impl_start_recv first waits, and the handler that is
-- posted.
unfoldable pub start_raw_udp : ServerType → List UdpAction
start_raw_udp k =
    if is_remote k
    then reuses_udp ∷ (binds_any ∷ (receives_next ∷ (opens_udp ∷ [])))
    else reuses_udp ∷ (opens_udp ∷ [])

-- What a message that goes to the manager was received from.
abbrev pub datagram_of : UdpAction → Option (ℕ × Bytes × Sockaddr)
datagram_of (requests_udp b) = some (b.session, udp_data_buffer b, get_data_addr b.bytes)
datagram_of _ = none

abbrev pub datagrams_of : List UdpAction → List (ℕ × Bytes × Sockaddr)
datagrams_of [] = []
datagrams_of (a ∷ acts) = elim (datagram_of a) [
  | none ↦ datagrams_of acts
  | some x ↦ x ∷ datagrams_of acts
]

-- What came, each with the session of the relay.
abbrev pub expected_datagrams : ℕ → List (Bytes × Sockaddr) → List (ℕ × Bytes × Sockaddr)
expected_datagrams s [] = []
expected_datagrams s ((payload, peer) ∷ rest) =
    (s, payload, unscoped peer) ∷ expected_datagrams s rest

abbrev pub AllDatagrams : List (Bytes × Sockaddr) → Type 0
AllDatagrams [] = Unit {0}
AllDatagrams ((payload, peer) ∷ rest) =
    IsSockaddr peer × (length payload ≤ 4077) × AllDatagrams rest

-- The datagrams of at most 4077 bytes that reach the relay of a session come to the manager whole,
-- in the order in which they were received, with that session and their senders.
pub start_recv-datagrams :
    (s : ℕ) (incoming : List (Bytes × Sockaddr))
    → AllDatagrams incoming
    → datagrams_of (start_recv s incoming) ≡ expected_datagrams s incoming
unfolding start_recv
start_recv-datagrams s [] h = refl
start_recv-datagrams s ((payload, peer) ∷ rest) h =
    let (a, p) = received_holds s payload peer h.0 h.1 in
    ap₂ (λ x xs. x ∷ xs) (ap₂ (λ q b. (s, q, b)) p a) (start_recv-datagrams s rest h.2)
