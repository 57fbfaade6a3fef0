-- ===== src/Datagram.antt =====
-- Datagrams, src/raw_udp.cpp (impl_start_recv, get_send_data_addr, internal_send_data) and
-- src/relay_acceptor.cpp (transparent_udp_recv_on): how they become messages, and where these are
-- sent.
pub mod Start
pub mod Orphan
mod Tests
use ssl_socks.Address.{
  Sockaddr, sockaddr_beq, sockaddr_beq_iff, IsSockaddr, any4, parse_addr, get_data_addr,
}
use ssl_socks.Address.RoundTrip.{unscoped, get_data_addr-parse_addr}
use ssl_socks.Base.{
  ℕ, ◌+◌, ◌-◌, ◌%◌, ◌^◌, ◌≤◌, ◌≡◌, refl, sym, ap, ◌∙◌, ◌≢◌, ◌⊎◌, inl, inr, Option, none, some, List,
  [], arith, if◌then◌else◌, Bool-cases, length, take, drop, replicate, write_at, length-write_at,
  take-drop-write_at_self, Bytes, nat_eq, lookup, insert,
}
use ssl_socks.Data.{
  read_buffer_size, udp_head, RelayData, empty_udp, udp_data_size, udp_data_buffer, resize_udp,
}
use ssl_socks.Local.Start.{zeros, length-zeros}
use ssl_socks.Relay.{ServerType, local_server, remote_server, local_transparent}

-- What raw_udp adds to a relay. `bound` is what its socket was bound to last by get_send_data_addr.
pub record UdpSocket : Type 0 where
  pub remote : Sockaddr
  pub here : Sockaddr
  pub bound : Option Sockaddr
  pub known : List (ℕ × Sockaddr)

-- raw_udp(io, config, mngr): default endpoints, and no peers.
abbrev pub new_udp_socket : UdpSocket
new_udp_socket = record { remote = any4; here = any4; bound = none; known = [] }

-- A datagram received into a fresh message, with an address in front: in impl_start_recv that of
-- the sender, with the session of the relay, in transparent_udp_recv_on that of the receiver, with
-- session 0.
unfoldable pub received : ℕ → Bytes → Sockaddr → RelayData
unfolding empty_udp
received s payload a = record (resize_udp empty_udp (length payload)) {
  session = s;
  bytes = (parse_addr (write_at udp_head payload (replicate read_buffer_size 0)) a).0;
}

-- `if (_local != re_addr)`: the socket is opened anew, and bound.
unfoldable pub bind_to : Sockaddr → UdpSocket → UdpSocket
bind_to a u = if sockaddr_beq u.here a then u else record u { here = a; bound = some a }

-- `_peers[session]`, which makes a missing entry.
unfoldable pub peer_of : ℕ → UdpSocket → Sockaddr
peer_of s u = elim (lookup s u.known) [ none ↦ any4 | some a ↦ a ]

-- get_send_data_addr(buf)
unfoldable pub get_send_data_addr : ServerType → RelayData → UdpSocket → UdpSocket × Sockaddr
unfolding bind_to peer_of
get_send_data_addr remote_server b u =
    (record u { remote = get_data_addr b.bytes }, get_data_addr b.bytes)
get_send_data_addr local_transparent b u =
    let v = bind_to (get_data_addr b.bytes) u in
    let a = peer_of b.session v in (record v { known = insert b.session a v.known }, a)
get_send_data_addr local_server b u = (u, u.remote)

-- internal_send_data(buf): the socket afterwards, what is sent, and where to.
unfoldable pub send_datagram : ServerType → RelayData → UdpSocket → UdpSocket × Bytes × Sockaddr
unfolding get_send_data_addr
send_datagram t b u = let (v, a) = get_send_data_addr t b u in (v, udp_data_buffer b, a)

-- A message of a datagram that fits holds it and its address.
pub received_holds :
    (s : ℕ) (payload : Bytes) (a : Sockaddr)
    → IsSockaddr a
    → length payload ≤ 4077
    → (get_data_addr (received s payload a).bytes ≡ unscoped a)
      × (udp_data_buffer (received s payload a) ≡ payload)
unfolding received empty_udp
received_holds s payload a h l =
    let mem = write_at udp_head payload zeros in
    let size_mem = length-write_at udp_head payload zeros in
    let (addr, behind, _) =
      get_data_addr-parse_addr mem a h (omega (arith, size_mem, length-zeros)) in
    (
      addr,
      ap (take (udp_data_size (received s payload a))) behind
          ∙ ap (λ n. take n (drop udp_head mem)) (less_head (length payload) (omega (arith, l)))
          ∙ take-drop-write_at_self udp_head payload zeros (omega (arith, length-zeros, l)),
    )
  where
    less_head : (n : ℕ) → n ≤ 4077 → ((n + udp_head) + (2 ^ 64 - udp_head)) % 2 ^ 64 ≡ n
    less_head n h = omega (arith, h)

-- A datagram of at most 4077 bytes, received by the acceptor with the address that it was meant
-- for, is sent on by the remote server as it is, to that address without its scope id, whatever
-- session it was given between.
pub send_datagram-remote :
    (s : ℕ) (payload : Bytes) (dst : Sockaddr) (u : UdpSocket)
    → IsSockaddr dst
    → length payload ≤ 4077
    → ((send_datagram remote_server (record (received 0 payload dst) { session = s }) u).1
        ≡ payload)
      × ((send_datagram remote_server (record (received 0 payload dst) { session = s }) u).2
          ≡ unscoped dst)
unfolding send_datagram get_send_data_addr
send_datagram-remote s payload dst u h l = let (a, p) = received_holds 0 payload dst h l in (p, a)

bind_to-here : (a : Sockaddr) (u : UdpSocket) → (bind_to a u).here ≡ a
unfolding bind_to
bind_to-here a u = elim (Bool-cases (sockaddr_beq u.here a)) [
  | inl same ↦ rw same ((sockaddr_beq_iff u.here a).0 same)
  | inr differ ↦ rw differ refl
]

bind_to-known : (a : Sockaddr) (u : UdpSocket) → (bind_to a u).known ≡ u.known
unfolding bind_to
bind_to-known a u = elim (Bool-cases (sockaddr_beq u.here a)) [
  | inl same ↦ rw same refl
  | inr differ ↦ rw differ refl
]

peer_of_lem : (s : ℕ) (u : UdpSocket) (a : Sockaddr) → lookup s u.known ≡ some a → peer_of s u ≡ a
unfolding peer_of
peer_of_lem s u a e = rw (e, peer_of) refl

-- The socket is bound to `_local`, unless that is the endpoint of zeros that it begins with.
abbrev pub IsBound : UdpSocket → Type 0
IsBound u = (u.bound ≡ some u.here) ⊎ (u.here ≡ any4)

bind_to-bound : (a : Sockaddr) (u : UdpSocket) → IsBound u → a ≢ any4 → (bind_to a u).bound ≡ some a
unfolding bind_to
bind_to-bound a u h n = elim (Bool-cases (sockaddr_beq u.here a)) [
  | inl same ↦
      let e = (sockaddr_beq_iff u.here a).0 same in
      elim h [ inl b ↦ rw same (b ∙ ap some e) | inr zero_one ↦ absurd (n (sym e ∙ zero_one)) ]
  | inr differ ↦ rw differ refl
]

-- A datagram of at most 4077 bytes that a host sends back to the relay of session `s` is sent by
-- the transparent server as it is to the client that is known for the session, from a socket that is
-- then bound to that host's address without its scope id, where the socket was bound to `_local` unless
-- this was the endpoint of zeros, and the host's address is another.
pub send_datagram-transparent :
    (s : ℕ) (payload : Bytes) (host client : Sockaddr) (u : UdpSocket)
    → IsSockaddr host
    → length payload ≤ 4077
    → lookup s u.known ≡ some client
    → IsBound u
    → unscoped host ≢ any4
    → ((send_datagram local_transparent (received s payload host) u).0.here ≡ unscoped host)
      × ((send_datagram local_transparent (received s payload host) u).0.bound
          ≡ some (unscoped host))
      × ((send_datagram local_transparent (received s payload host) u).1 ≡ payload)
      × ((send_datagram local_transparent (received s payload host) u).2 ≡ client)
unfolding send_datagram get_send_data_addr received
send_datagram-transparent s payload host client u h l e b n =
    let (a, p) = received_holds s payload host h l in
    let there = get_data_addr (received s payload host).bytes in
    (
      bind_to-here there u ∙ a,
      bind_to-bound there u b (λ q. n (sym a ∙ q)) ∙ ap some a,
      p,
      peer_of_lem s (bind_to there u) client (ap (lookup s) (bind_to-known there u) ∙ e),
    )
