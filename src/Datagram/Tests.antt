-- ===== src/Datagram/Tests.antt =====
-- Tests of datagrams.
use ssl_socks.Address.{Sockaddr, inet, inet6, any6, any4}
use ssl_socks.Address.RoundTrip.{unscoped}
use ssl_socks.Base.{
  ℕ, ◌≡◌, refl, ap, ◌≢◌, inl, some, List, [], ◌∷◌, arith, leb, if◌then◌else◌, length, get_or, take,
  Bytes, nat_eq, lookup,
}
use ssl_socks.Datagram.{
  UdpSocket, received, send_datagram, send_datagram-remote, send_datagram-transparent,
}
use ssl_socks.Datagram.Orphan.{recv_while, recv_while-datagrams}
use ssl_socks.Datagram.Start.{start_recv, datagrams_of, expected_datagrams, start_recv-datagrams}
use ssl_socks.Local.Orphan.{in_catch, by_fault}
use ssl_socks.Relay.{remote_server, local_transparent}

abbrev nameserver : Sockaddr
nameserver = inet (9 ∷ (9 ∷ (9 ∷ (9 ∷ [])))) (0 ∷ (53 ∷ []))

abbrev asker : Sockaddr
asker = inet (10 ∷ (0 ∷ (0 ∷ (2 ∷ [])))) (4 ∷ (210 ∷ []))

abbrev udp_socket : UdpSocket
udp_socket = record { remote = any6; here = any6; bound = some any6; known = (2, asker) ∷ [] }

asker_known : lookup 2 udp_socket.known ≡ some asker
unfolding lookup
asker_known = refl

send_datagram-remote_test :
    ((send_datagram remote_server
        (record (received 0 (1 ∷ (2 ∷ [])) nameserver) { session = 2 })
        udp_socket).1
      ≡ 1 ∷ (2 ∷ []))
    × ((send_datagram remote_server
          (record (received 0 (1 ∷ (2 ∷ [])) nameserver) { session = 2 })
          udp_socket).2
        ≡ unscoped nameserver)
send_datagram-remote_test =
    send_datagram-remote 2 (1 ∷ (2 ∷ [])) nameserver udp_socket (refl, refl) (omega arith)

host_not_zeros : unscoped nameserver ≢ any4
host_not_zeros e = absurd (omega (arith, ap first_byte e))
  where
    first_byte : Sockaddr → ℕ
    first_byte (inet a p) = get_or a 0 0
    first_byte (inet6 a p n) = get_or a 0 0

send_datagram-transparent_example :
    ((send_datagram local_transparent (received 2 (3 ∷ []) nameserver) udp_socket).0.here
      ≡ unscoped nameserver)
    × ((send_datagram local_transparent (received 2 (3 ∷ []) nameserver) udp_socket).0.bound
        ≡ some (unscoped nameserver))
    × ((send_datagram local_transparent (received 2 (3 ∷ []) nameserver) udp_socket).1 ≡ 3 ∷ [])
    × ((send_datagram local_transparent (received 2 (3 ∷ []) nameserver) udp_socket).2 ≡ asker)
send_datagram-transparent_example =
    send_datagram-transparent 2 (3 ∷ []) nameserver asker udp_socket (refl, refl) (omega arith)
      asker_known (inl refl) host_not_zeros

abbrev two_datagrams : List (Bytes × Sockaddr)
two_datagrams =
    (1 ∷ [], inet (8 ∷ (8 ∷ (8 ∷ (8 ∷ [])))) (0 ∷ (53 ∷ [])))
    ∷ ((2 ∷ [], inet (9 ∷ (9 ∷ (9 ∷ (9 ∷ [])))) (0 ∷ (53 ∷ []))) ∷ [])

start_recv-datagrams_test :
    datagrams_of (start_recv 3 two_datagrams) ≡ expected_datagrams 3 two_datagrams
start_recv-datagrams_test =
    start_recv-datagrams 3 two_datagrams
      ((refl, refl), omega arith, ((refl, refl), omega arith, tt))

-- The manager is gone before the second comes.
recv_while-datagrams_example :
    (datagrams_of (recv_while 1 3 two_datagrams).0 ≡ expected_datagrams 3 (take 1 two_datagrams))
    × ((recv_while 1 3 two_datagrams).1
        ≡ (if leb (length two_datagrams) 1 then in_catch else by_fault))
recv_while-datagrams_example =
    recv_while-datagrams 1 3 two_datagrams
      ((refl, refl), omega arith, ((refl, refl), omega arith, tt))

recv_while_test : (recv_while 1 3 two_datagrams).1 ≡ by_fault
unfolding recv_while
recv_while_test = refl
