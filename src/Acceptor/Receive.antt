-- ===== src/Acceptor/Receive.antt =====
-- A datagram of a client and the address that it was meant for, src/relay_acceptor.cpp
-- (transparent_udp_recv_on).
-- The control messages that IP_RECVORIGDSTADDR and IPV6_RECVORIGDSTADDR ask for, and others.
use ssl_socks.Address.{Sockaddr, IsSockaddr, any6, parse_addr, get_data_addr}
use ssl_socks.Address.RoundTrip.{unscoped}
use ssl_socks.Base.{
  ℕ, zero, suc, ◌+◌, ◌-◌, ◌%◌, ◌^◌, ◌≤◌, ◌≡◌, refl, sym, ap, ◌∙◌, ap₂, Option, none, some, List, [],
  ◌∷◌, ◌++◌, arith, length, get_or, take, replicate, write_at, Bytes,
}
use ssl_socks.Data.{read_buffer_size, udp_head, data_udp, RelayData, empty_udp, udp_data_size}
use ssl_socks.Datagram.{UdpSocket, received, send_datagram, send_datagram-remote}
use ssl_socks.Local.Start.{zeros}
use ssl_socks.Relay.{remote_server}

pub data ControlKind : Type 0 where
  orig_dst_ip orig_dst_ipv6 other_control : ControlKind

-- What recvmsg gives: `none` is its -1.
pub record Incoming : Type 0 where
  pub source : Sockaddr
  pub payload : Option Bytes
  pub controls : List (ControlKind × Sockaddr)

-- The loop over the control messages, on the message's bytes.
unfoldable pub store_controls : List (ControlKind × Sockaddr) → Bytes → Bytes
store_controls [] mem = mem
store_controls ((orig_dst_ip, a) ∷ rest) mem = store_controls rest (parse_addr mem a).0
store_controls ((orig_dst_ipv6, a) ∷ rest) mem = store_controls rest (parse_addr mem a).0
store_controls ((other_control, a) ∷ rest) mem = store_controls rest mem

-- `buf->resize_udp(len)` in 64 bits: -1 becomes the largest std::size_t.
unfoldable pub received_len : Option Bytes → ℕ
received_len none = ((2 ^ 64 - 1) + udp_head) % 2 ^ 64
received_len (some payload) = (length payload + udp_head) % 2 ^ 64

-- The buffer of the message holds what came behind the room for the address, cut off where it does
-- not fit.
unfoldable pub receive_into : Option Bytes → Bytes → Bytes
receive_into none mem = mem
receive_into (some payload) mem = write_at udp_head payload mem

abbrev pub udp_room : ℕ
udp_room = read_buffer_size - udp_head

abbrev pub cut : Option Bytes → Option Bytes
cut none = none
cut (some payload) = some (take udp_room payload)

-- transparent_udp_recv_on(u_sock): the message, whose source stands beside it.
unfoldable pub transparent_udp_recv_on : Incoming → RelayData
unfolding empty_udp store_controls received_len receive_into
transparent_udp_recv_on m = record empty_udp {
  len = received_len (cut m.payload);
  bytes = store_controls m.controls (receive_into (cut m.payload) (replicate read_buffer_size 0));
}

-- No control message of an address.
abbrev pub NoAddress : List (ControlKind × Sockaddr) → Type 0
NoAddress [] = Unit {0}
NoAddress ((other_control, a) ∷ rest) = NoAddress rest
NoAddress (_ ∷ rest) = ⊥

abbrev pub IsAddress : ControlKind → Type 0
IsAddress other_control = ⊥
IsAddress _ = Unit {0}

store_none :
    (cs : List (ControlKind × Sockaddr)) (mem : Bytes) → NoAddress cs → store_controls cs mem ≡ mem
unfolding store_controls
store_none [] mem h = refl
store_none ((other_control, a) ∷ rest) mem h = store_none rest mem h
store_none ((orig_dst_ip, a) ∷ rest) mem h = absurd h
store_none ((orig_dst_ipv6, a) ∷ rest) mem h = absurd h

store_one :
    (cs ds : List (ControlKind × Sockaddr)) (k : ControlKind) (a : Sockaddr) (mem : Bytes)
    → NoAddress cs
    → NoAddress ds
    → IsAddress k
    → store_controls (cs ++ (k, a) ∷ ds) mem ≡ (parse_addr mem a).0
unfolding store_controls
store_one [] ds orig_dst_ip a mem h n i = store_none ds (parse_addr mem a).0 n
store_one [] ds orig_dst_ipv6 a mem h n i = store_none ds (parse_addr mem a).0 n
store_one [] ds other_control a mem h n i = absurd i
store_one ((other_control, b) ∷ cs) ds k a mem h n i = store_one cs ds k a mem h n i
store_one ((orig_dst_ip, b) ∷ cs) ds k a mem h n i = absurd h
store_one ((orig_dst_ipv6, b) ∷ cs) ds k a mem h n i = absurd h

take_whole : (n : ℕ) (xs : Bytes) → length xs ≤ n → take n xs ≡ xs
take_whole zero [] h = refl
take_whole zero (x ∷ xs) h = absurd (omega arith)
take_whole (suc n) [] h = refl
take_whole (suc n) (x ∷ xs) h = ap (◌∷◌ x) (take_whole n xs (omega arith))

-- A datagram of at most 4077 bytes that comes with the address it was meant for, in one control
-- message among others of no address, becomes the message that holds the datagram and that address.
pub transparent_udp_recv_on-received :
    (cs ds : List (ControlKind × Sockaddr)) (k : ControlKind) (dst src : Sockaddr) (payload : Bytes)
    → NoAddress cs
    → NoAddress ds
    → IsAddress k
    → length payload ≤ 4077
    → transparent_udp_recv_on
        (record { source = src; payload = some payload; controls = cs ++ (k, dst) ∷ ds })
      ≡ received 0 payload dst
unfolding transparent_udp_recv_on received received_len receive_into empty_udp
transparent_udp_recv_on-received cs ds k dst src payload h n i l =
    ap₂ (λ m bs. record { session = 0; cmd = data_udp; len = m; bytes = bs }) size_of bytes_of
  where
    whole : take udp_room payload ≡ payload
    whole = take_whole udp_room payload l

    size_of : received_len (some (take udp_room payload)) ≡ length payload + udp_head
    size_of = rw whole (omega (arith, l))

    bytes_of :
        store_controls
          (cs ++ (k, dst) ∷ ds)
          (receive_into (some (take udp_room payload)) (replicate read_buffer_size 0))
        ≡ (parse_addr (write_at udp_head payload (replicate read_buffer_size 0)) dst).0
    bytes_of =
        store_one cs ds k dst _ h n i
        ∙ ap (λ xs. (parse_addr (write_at udp_head xs (replicate read_buffer_size 0)) dst).0) whole

-- A datagram of at most 4077 bytes that comes with the address it was meant for, in one control
-- message among others of no address, is, whatever session the manager gives it, sent by the remote
-- server as it is to that address, without its scope id.
pub send_datagram-transparent_udp_recv_on :
    (cs ds : List (ControlKind × Sockaddr)) (k : ControlKind) (dst src : Sockaddr) (payload : Bytes)
    (s : ℕ) (u : UdpSocket)
    → NoAddress cs
    → NoAddress ds
    → IsAddress k
    → IsSockaddr dst
    → length payload ≤ 4077
    → (b : RelayData) × (b
        ≡ record (transparent_udp_recv_on
            (record { source = src; payload = some payload; controls = cs ++ (k, dst) ∷ ds })) {
              session = s;
            })
      × ((send_datagram remote_server b u).1 ≡ payload)
      × ((send_datagram remote_server b u).2 ≡ unscoped dst)
send_datagram-transparent_udp_recv_on cs ds k dst src payload s u h n i a l =
    let same = transparent_udp_recv_on-received cs ds k dst src payload h n i l in
    let (sent, there) = send_datagram-remote s payload dst u a l in
    (
      record (received 0 payload dst) { session = s },
      ap {A = RelayData} (λ b. record b { session = s }) (sym same),
      sent,
      there,
    )

zeros_first : get_or zeros 0 0 ≡ 0
unfolding replicate
zeros_first = refl

zeros_addr : get_data_addr zeros ≡ any6
unfolding get_data_addr
zeros_addr = rw zeros_first refl

-- The failure of recvmsg is not looked at: the message then has 18 bytes, the size of its data wraps
-- around to the largest one of 64 bits, and it names no address unless a control message does.
pub transparent_udp_recv_on-failed :
    (cs : List (ControlKind × Sockaddr)) (src : Sockaddr)
    → NoAddress cs
    → ((transparent_udp_recv_on (record { source = src; payload = none; controls = cs })).len ≡ 18)
      × (udp_data_size
            (transparent_udp_recv_on (record { source = src; payload = none; controls = cs }))
          ≡ 2 ^ 64 - 1)
      × (get_data_addr
            (transparent_udp_recv_on (record { source = src; payload = none; controls = cs })).bytes
          ≡ any6)
unfolding transparent_udp_recv_on received_len receive_into get_data_addr
transparent_udp_recv_on-failed cs src h =
    (omega arith, omega arith, ap get_data_addr (store_none cs zeros h) ∙ zeros_addr)
