-- ===== src/Acceptor/Tests.antt =====
-- Tests of the acceptor.
use ssl_socks.Acceptor.Clients.{ClientEvent, ends_accept, ends_wait, client_side, start_accept}
use ssl_socks.Acceptor.Clients.Completes.{start_accept-completes}
use ssl_socks.Acceptor.Receive.{
  orig_dst_ip, other_control, Incoming, transparent_udp_recv_on,
  send_datagram-transparent_udp_recv_on, transparent_udp_recv_on-failed,
}
use ssl_socks.Acceptor.Remote.{
  new_remote_acceptor, remote_accept, accepted_before, AllOwn, remote_accept-own,
}
use ssl_socks.Address.{Sockaddr, inet, any6, get_data_addr, AddressText}
use ssl_socks.Address.RoundTrip.{unscoped}
use ssl_socks.Base.{
  ℕ, ◌-◌, ◌^◌, ◌<◌, ◌≡◌, refl, true, false, none, some, List, [], ◌∷◌, arith, length, nat_eq,
  lookup,
}
use ssl_socks.Data.{RelayData, udp_data_size}
use ssl_socks.Datagram.{UdpSocket, send_datagram}
use ssl_socks.Manager.World.{World, completed, new_manager}
use ssl_socks.Relay.{remote_server, local_transparent}

abbrev client_texts : AddressText
client_texts = record { v4_text = λ a. a; v6_text = λ a. a; int_text = λ n. n ∷ [] }

abbrev client_addr : Sockaddr
client_addr = inet (10 ∷ (0 ∷ (0 ∷ (2 ∷ [])))) (4 ∷ (210 ∷ []))

abbrev dns_addr : Sockaddr
dns_addr = inet (8 ∷ (8 ∷ (8 ∷ (8 ∷ [])))) (0 ∷ (53 ∷ []))

-- A query, with a control message of another kind in front.
abbrev query : Incoming
query = record {
  source = client_addr;
  payload = some (1 ∷ (2 ∷ []));
  controls = (other_control, client_addr) ∷ ((orig_dst_ip, dns_addr) ∷ []);
}

abbrev clients : List ClientEvent
clients = ends_accept true ∷ (ends_wait (some query) ∷ (ends_accept false ∷ (ends_wait none ∷ [])))

start_accept-completes_test :
    (w : World) × (start_accept client_texts local_transparent [] clients
      ≡ client_side (completed w))
    × ((s p : ℕ) → lookup s w.relays ≡ some (some p) → (p < w.next) × ((w.objects p).session ≡ s))
start_accept-completes_test = start_accept-completes client_texts local_transparent [] clients refl

-- Two connections, and an error.
remote_accept-own_example :
    AllOwn remote_server
      (remote_accept remote_server
        (true ∷ (true ∷ (false ∷ [])))
        (new_remote_acceptor remote_server)).served
    × ((remote_accept remote_server
          (true ∷ (true ∷ (false ∷ [])))
          (new_remote_acceptor remote_server)).pending
        ≡ new_manager remote_server)
    × (length
          (remote_accept remote_server
            (true ∷ (true ∷ (false ∷ [])))
            (new_remote_acceptor remote_server)).served
        ≡ accepted_before (true ∷ (true ∷ (false ∷ []))))
remote_accept-own_example = remote_accept-own (true ∷ (true ∷ (false ∷ [])))

abbrev remote_udp : UdpSocket
remote_udp = record { remote = any6; here = any6; bound = none; known = [] }

send_datagram-transparent_udp_recv_on_test :
    (b : RelayData) × (b ≡ record (transparent_udp_recv_on query) { session = 2 })
    × ((send_datagram remote_server b remote_udp).1 ≡ 1 ∷ (2 ∷ []))
    × ((send_datagram remote_server b remote_udp).2 ≡ unscoped dns_addr)
send_datagram-transparent_udp_recv_on_test =
    send_datagram-transparent_udp_recv_on ((other_control, client_addr) ∷ []) [] orig_dst_ip
      dns_addr client_addr (1 ∷ (2 ∷ [])) 2 remote_udp tt tt tt (refl, refl) (omega arith)

transparent_udp_recv_on-failed_example :
    ((transparent_udp_recv_on (record { source = client_addr; payload = none; controls = [] })).len
      ≡ 18)
    × (udp_data_size
          (transparent_udp_recv_on (record { source = client_addr; payload = none; controls = [] }))
        ≡ 2 ^ 64 - 1)
    × (get_data_addr
          (transparent_udp_recv_on
            (record { source = client_addr; payload = none; controls = [] })).bytes
        ≡ any6)
transparent_udp_recv_on-failed_example = transparent_udp_recv_on-failed [] client_addr tt
