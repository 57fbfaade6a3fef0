-- ===== src/Tunnel/Tests.antt =====
-- Tests of the tunnels.
mod Mixed
mod Written
mod Complete
mod Returned
mod Straight
use ssl_socks.Acceptor.Receive.{orig_dst_ip, transparent_udp_recv_on}
use ssl_socks.Address.{Sockaddr, inet, AddressText, parse_fixed, parse_address}
use ssl_socks.Address.Grammar.{Request, domain, encode}
use ssl_socks.Address.RoundTrip.{unscoped}
use ssl_socks.Base.{
  ℕ, ◌-◌, ◌≤◌, ◌≡◌, refl, inl, Bool, true, false, Option, some, List, [], ◌∷◌, ◌++◌, map, arith,
  ◌==◌, length, replicate, length-append, length-replicate, Bytes, nat_eq, lookup,
}
use ssl_socks.Data.{
  read_buffer_size, Command, stop_tcp, start_tcp, data_udp, data_tcp, RelayData, for_command,
  IsMessage,
}
use ssl_socks.Data.Wire.{seen, read_messages, write_messages, AllSendable}
use ssl_socks.Datagram.{new_udp_socket, send_datagram}
use ssl_socks.Local.{
  ClientIo, Action, writes_client, sends_request, starts_read, no_auth, start_local, start_read,
}
use ssl_socks.Local.Start.{connect}
use ssl_socks.Local.Stream.{requests_of}
use ssl_socks.Manager.Request.Delivery.{Delivered}
use ssl_socks.Manager.Response.{add_response}
use ssl_socks.Manager.Response.Posting.{Posted, OthersStay, add_response-remote_udp}
use ssl_socks.Manager.Udp.{send_udp_data}
use ssl_socks.Manager.World.{
  World, completed, make, start_local_udp, new_manager, is_remote, manager_start, session_of,
}
use ssl_socks.Relay.{remote_server, local_transparent}
use ssl_socks.Tunnel.{tunnel_run, tunnels, serve}
use ssl_socks.Tunnel.Client.{filled, start_local-serve}
use ssl_socks.Tunnel.Datagrams.{send_udp_data-add_response}
use ssl_socks.Tunnel.Ends.{AllTunnels, AllBuffered, serve-tunnel_run, serve-write_messages}
use ssl_socks.Tunnel.Messages.{chunk_messages}
use ssl_socks.Tunnel.Open.{IsOpen}

abbrev pub tunnel_names : AddressText
tunnel_names = record { v4_text = λ a. a; v6_text = λ a. a; int_text = λ n. n ∷ [] }

abbrev pub to_host : Bytes
to_host = 1 ∷ (1 ∷ (2 ∷ (3 ∷ (4 ∷ (0 ∷ (80 ∷ []))))))

-- A message of session 7 with the given bytes at the front of its buffer.
abbrev pub holding : Command → Bytes → RelayData
holding c bs = record {
  session = 7;
  cmd = c;
  len = length bs;
  bytes = bs ++ replicate (read_buffer_size - length bs) 0;
}

abbrev talk_through : List RelayData
talk_through =
    holding start_tcp to_host
    ∷ (holding data_tcp (104 ∷ (105 ∷ [])) ∷ (holding data_tcp (33 ∷ []) ∷ []))

pub holding-IsMessage : (c : Command) (bs : Bytes) → length bs ≤ 7 → IsMessage (holding c bs)
holding-IsMessage c bs h = record {
  fits = omega (arith, h);
  buffer = omega (
    arith,
    h,
    length-append bs (replicate (read_buffer_size - length bs) 0),
    length-replicate {A = ℕ} (read_buffer_size - length bs) 0,
  );
  word = omega arith;
}

talk-AllSendable : AllSendable talk_through
talk-AllSendable = (
  holding-IsMessage start_tcp to_host (omega arith),
  tt,
  (
    holding-IsMessage data_tcp (104 ∷ (105 ∷ [])) (omega arith),
    tt,
    (holding-IsMessage data_tcp (33 ∷ []) (omega arith), tt, tt),
  ),
)

talk-AllTunnels : AllTunnels tunnel_names (map (λ d. seen d) talk_through)
unfolding parse_address parse_fixed
talk-AllTunnels = ((omega arith, (1 ∷ (2 ∷ (3 ∷ (4 ∷ []))), 80 ∷ [], refl)), (tt, (tt, tt)))

talk-AllBuffered : AllBuffered talk_through
talk-AllBuffered = (
  roomy start_tcp to_host (omega arith),
  (roomy data_tcp (104 ∷ (105 ∷ [])) (omega arith), (roomy data_tcp (33 ∷ []) (omega arith), tt)),
)
  where
    roomy :
        (c : Command) (bs : Bytes)
        → length bs ≤ 7
        → (holding c bs).len ≤ length (holding c bs).bytes
    roomy c bs h = omega (arith, h, (holding-IsMessage c bs h).buffer)

abbrev pub fresh_world : World
fresh_world = new_manager remote_server

pub fresh-IsOpen : IsOpen fresh_world
unfolding new_manager lookup
fresh-IsOpen x = inl refl

serve-write_messages_test :
    (w' : World) × (serve tunnel_names (read_messages 3 (write_messages talk_through)) fresh_world
      ≡ completed w')
    × IsOpen w'
    × (tunnels w' ≡ tunnel_run tunnel_names (map (λ d. seen d) talk_through) (tunnels fresh_world))
serve-write_messages_test =
    serve-write_messages tunnel_names talk_through 3 fresh_world fresh-IsOpen talk-AllSendable
      talk-AllTunnels (omega arith)

serve-tunnel_run_test :
    (w' : World) × (serve tunnel_names talk_through fresh_world ≡ completed w')
    × IsOpen w'
    × (tunnels w' ≡ tunnel_run tunnel_names (map (λ d. seen d) talk_through) (tunnels fresh_world))
serve-tunnel_run_test =
    serve-tunnel_run tunnel_names talk_through fresh_world fresh-IsOpen talk-AllBuffered
      talk-AllTunnels

-- The tunnel of session 7 at the end.
tunnel_test :
    tunnel_run tunnel_names (map (λ d. seen d) talk_through) (tunnels fresh_world) 7
    ≡ some (record {
      host = 1 ∷ (2 ∷ (3 ∷ (4 ∷ [])));
      service = 80 ∷ [];
      passed = (104 ∷ (105 ∷ [])) ∷ ((33 ∷ []) ∷ []);
    })
unfolding parse_address parse_fixed new_manager lookup
tunnel_test = refl

abbrev pub client_request : Request
client_request = domain (b'a' ∷ (b'b' ∷ [])) (0 ∷ (80 ∷ []))

abbrev pub client_talk : ClientIo
client_talk = record {
  greeting = some (5 ∷ (1 ∷ (0 ∷ [])));
  replied = some 2;
  command = some (connect client_request);
  connects = true;
  told = true;
}

abbrev pub every_host : Bytes → Option Bool
every_host host = some true

pub length-connect : length (connect client_request) ≡ 9
unfolding encode
length-connect = refl

start_local-serve_test :
    (m : RelayData) × (rest : List Action) × ((start_local every_host tunnel_names client_talk 7).0
      ≡ writes_client no_auth ∷ (sends_request m ∷ (starts_read ∷ rest)))
    × (requests_of (start_read 7 ((1 ∷ []) ∷ ((2 ∷ []) ∷ [])))
        ≡ chunk_messages 7 ((1 ∷ []) ∷ ((2 ∷ []) ∷ [])) ++ for_command 7 stop_tcp ∷ [])
    × ((w' : World) × (serve tunnel_names
            (read_messages 3 (write_messages (m ∷ chunk_messages 7 ((1 ∷ []) ∷ ((2 ∷ []) ∷ [])))))
            fresh_world
          ≡ completed w')
        × (tunnels w' 7 ≡ some (filled tunnel_names client_request ((1 ∷ []) ∷ ((2 ∷ []) ∷ []))))
        × ((x : ℕ) → (7 == x) ≡ false → tunnels w' x ≡ tunnels fresh_world x))
start_local-serve_test =
    start_local-serve every_host tunnel_names client_talk 7 (5 ∷ (1 ∷ (0 ∷ []))) client_request
      ((1 ∷ []) ∷ ((2 ∷ []) ∷ [])) 3 fresh_world refl refl refl refl (omega (arith, length-connect))
      refl (omega arith) (omega arith, (omega arith, tt)) fresh-IsOpen (omega arith)

abbrev client_from : Sockaddr
client_from = inet (10 ∷ (0 ∷ (0 ∷ (2 ∷ [])))) (4 ∷ (210 ∷ []))

abbrev resolver : Sockaddr
resolver = inet (8 ∷ (8 ∷ (8 ∷ (8 ∷ [])))) (0 ∷ (53 ∷ []))

-- A transparent server whose relay of local datagrams is relay 0.
abbrev near_world : World
near_world = manager_start (new_manager local_transparent)

near_udp : near_world.udp_send ≡ some 0
unfolding manager_start start_local_udp new_manager
near_udp = refl

near_type : is_remote near_world.type ≡ false
unfolding manager_start start_local_udp make new_manager
near_type = refl

fresh_type : fresh_world.type ≡ remote_server
unfolding new_manager
fresh_type = refl

abbrev udp_message : RelayData
udp_message = holding data_udp to_host

add_response-remote_udp_test :
    (w' : World) × (add_response tunnel_names udp_message fresh_world ≡ completed w')
    × ((p : ℕ) × Posted udp_message w' p × OthersStay udp_message fresh_world w')
add_response-remote_udp_test =
    add_response-remote_udp tunnel_names udp_message fresh_world refl fresh_type

send_udp_data-add_response_example :
    (m : RelayData) × (near' : World) × (far' : World) × (send_udp_data client_from
        (transparent_udp_recv_on (record {
          source = client_from;
          payload = some (1 ∷ (2 ∷ []));
          controls = [] ++ (orig_dst_ip, resolver) ∷ [];
        }))
        near_world
      ≡ completed near')
    × (m.session ≡ session_of client_from near')
    × ((q : ℕ) × Delivered m near' q)
    × (add_response tunnel_names m fresh_world ≡ completed far')
    × ((r : ℕ) × Posted m far' r × OthersStay m fresh_world far')
    × ((send_datagram remote_server m new_udp_socket).1 ≡ 1 ∷ (2 ∷ []))
    × ((send_datagram remote_server m new_udp_socket).2 ≡ unscoped resolver)
send_udp_data-add_response_example =
    send_udp_data-add_response tunnel_names [] [] orig_dst_ip resolver client_from (1 ∷ (2 ∷ []))
      near_world fresh_world 0 new_udp_socket tt tt tt (refl, refl) (omega arith) near_type near_udp
      fresh_type
