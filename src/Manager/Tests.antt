-- ===== src/Manager/Tests.antt =====
-- Tests of the manager.
mod Datagrams
mod Sockets
use ssl_socks.Address.{
  Sockaddr, inet, endpoint_eq, AddressText, unsupported, parsed, refused, parse_fixed,
  parse_address,
}
use ssl_socks.Base.{
  ℕ, ◌≡◌, refl, ◌⊎◌, inl, true, false, none, some, [], ◌∷◌, ◌++◌, arith, ◌==◌, if◌then◌else◌,
  nat_eq, lookup,
}
use ssl_socks.Data.{Command, stop_tcp, start_tcp, data_tcp, RelayData, for_command}
use ssl_socks.Manager.Request.{live_ssl, add_request}
use ssl_socks.Manager.Request.Delivery.{
  tasks_of, Delivered, add_request-local, IsStopping, stop_manager-stops, add_request-remote,
}
use ssl_socks.Manager.Response.{add_response}
use ssl_socks.Manager.Response.Routing.{
  add_response-data_tcp, add_response-stopped, add_response-stop_tcp,
}
use ssl_socks.Manager.Response.Starting.{add_response-start_tcp, add_response-malformed}
use ssl_socks.Manager.World.{World, completed, thrown, fault, is_stopped, stop_manager}
use ssl_socks.Relay.{
  ServerType, local_server, remote_server, local_transparent, relay_start, relay_stop, is_stop,
  raw_tcp, push, Relay, new_relay,
}

abbrev pub sample_request : ℕ → Command → RelayData
sample_request s c = record { session = s; cmd = c; len = 0; bytes = [] }

abbrev pub idle_relay : Relay
unfolding new_relay
idle_relay = new_relay raw_tcp

-- A manager of the given type with relay 3 under session 5 and relay 4 for local datagrams.
abbrev pub sample_world : ServerType → World
sample_world t = record {
  type = t;
  ssl = none;
  relays = (5, some 3) ∷ [];
  udp_send = some 4;
  srcs = [];
  udp_srcs = [];
  state = relay_start;
  session = 1;
  objects =
      λ p. record { relay = idle_relay; session = 0; host = []; service = []; started = true };
  next = 6;
}

-- The same, where every relay has stopped.
abbrev pub still_world : ServerType → World
still_world t = record (sample_world t) {
  objects = λ p. record {
    relay = record idle_relay { state = relay_stop };
    session = 0;
    host = [];
    service = [];
    started = true;
  };
}

abbrev pub sample_source : Sockaddr
sample_source = inet (10 ∷ (0 ∷ (0 ∷ (2 ∷ [])))) (4 ∷ (210 ∷ []))

-- A start to 1.2.3.4, port 80, and one that names no kind of address.
abbrev start : RelayData
start = record {
  session = 5;
  cmd = start_tcp;
  len = 7;
  bytes = 1 ∷ (1 ∷ (2 ∷ (3 ∷ (4 ∷ (0 ∷ (80 ∷ []))))));
}

abbrev bad_start : RelayData
bad_start = record { session = 8; cmd = start_tcp; len = 1; bytes = 0 ∷ [] }

abbrev pub texts4 : AddressText
texts4 = record { v4_text = λ a. a; v6_text = λ a. a; int_text = λ n. n ∷ [] }

add_request-local_test :
    (p : ℕ) × Delivered
      (sample_request 5 data_tcp)
      (add_request (sample_request 5 data_tcp) (sample_world local_server))
      p
add_request-local_test =
    add_request-local (sample_request 5 data_tcp) (sample_world local_server) refl

add_request-remote_test :
    ((p : ℕ) × Delivered
        (sample_request 5 data_tcp)
        (add_request (sample_request 5 data_tcp) (sample_world remote_server))
        p)
    ⊎ ((live_ssl (sample_world remote_server) ≡ none)
        × (add_request (sample_request 5 data_tcp) (sample_world remote_server)
            ≡ stop_manager (sample_world remote_server)))
add_request-remote_test =
    add_request-remote (sample_request 5 data_tcp) (sample_world remote_server) refl

stop_manager-stops_test :
    ((stop_manager (sample_world local_server)).relays ≡ [])
    × ((stop_manager (sample_world local_server)).state ≡ relay_stop)
    × IsStopping (stop_manager (sample_world local_server)) 3
stop_manager-stops_test = stop_manager-stops (sample_world local_server) 3 (inl refl)

goes : is_stopped (sample_world local_server) 3 ≡ false
unfolding is_stop new_relay
goes = refl

pub goes_udp : is_stopped (sample_world local_transparent) 4 ≡ false
unfolding is_stop new_relay
goes_udp = refl

stands : is_stopped (still_world local_server) 3 ≡ true
unfolding is_stop
stands = refl

registered : lookup 5 (sample_world local_server).relays ≡ some (some 3)
unfolding lookup
registered = refl

unregistered : lookup 8 (sample_world local_server).relays ≡ none
unfolding lookup
unregistered = refl

add_response-data_tcp_test :
    (w' : World) × (add_response texts4 (sample_request 5 data_tcp) (sample_world local_server)
      ≡ completed w')
    × (tasks_of w' 3
        ≡ tasks_of (sample_world local_server) 3 ++ push (sample_request 5 data_tcp) ∷ [])
    × (w'.relays ≡ (sample_world local_server).relays)
    × (w'.objects 4 ≡ (sample_world local_server).objects 4)
add_response-data_tcp_test =
    add_response-data_tcp texts4 (sample_request 5 data_tcp) (sample_world local_server) 3 4 refl
      registered goes (λ e. ground (arith, e))

add_response-stopped_example :
    (w' : World) × (add_response texts4 (sample_request 5 data_tcp) (still_world local_server)
      ≡ completed w')
    × ((q : ℕ) × Delivered (for_command 5 stop_tcp) w' q)
    × ((x : ℕ)
        → lookup x w'.relays
          ≡ (if 5 == x then none else lookup x (still_world local_server).relays))
add_response-stopped_example =
    add_response-stopped texts4 (sample_request 5 data_tcp) (still_world local_server) 3 refl refl
      registered stands

add_response-stop_tcp_test :
    (w' : World) × (add_response texts4 (sample_request 5 stop_tcp) (sample_world local_server)
      ≡ completed w')
    × IsStopping w' 3
    × ((s : ℕ)
        → lookup s w'.relays
          ≡ (if 5 == s then none else lookup s (sample_world local_server).relays))
    × (add_response texts4 (sample_request 5 stop_tcp) w' ≡ completed w')
add_response-stop_tcp_test =
    add_response-stop_tcp texts4 (sample_request 5 stop_tcp) (sample_world local_server) 3 refl
      registered

start_parsed :
    parse_address texts4 start.bytes start.len ≡ parsed (1 ∷ (2 ∷ (3 ∷ (4 ∷ [])))) (80 ∷ [])
unfolding parse_address parse_fixed
start_parsed = refl

bad_start_refused : parse_address texts4 bad_start.bytes bad_start.len ≡ refused (unsupported 0)
unfolding parse_address
bad_start_refused = refl

add_response-start_tcp_test :
    (w' : World) × (add_response texts4 start (sample_world remote_server) ≡ completed w')
    × (w'.objects 6 ≡ record {
      relay = new_relay raw_tcp;
      session = 5;
      host = 1 ∷ (2 ∷ (3 ∷ (4 ∷ [])));
      service = 80 ∷ [];
      started = true;
    })
    × ((s : ℕ)
        → lookup s w'.relays
          ≡ (if 5 == s then some (some 6) else lookup s (sample_world remote_server).relays))
add_response-start_tcp_test =
    add_response-start_tcp texts4 start (sample_world remote_server) (1 ∷ (2 ∷ (3 ∷ (4 ∷ []))))
      (80 ∷ []) refl start_parsed

add_response-malformed_example :
    (w' : World) × (add_response texts4 bad_start (sample_world remote_server) ≡ thrown w')
    × (add_response texts4 (sample_request 8 data_tcp) w' ≡ fault)
add_response-malformed_example =
    add_response-malformed texts4 bad_start (sample_world remote_server) (unsupported 0)
      (sample_request 8 data_tcp) refl unregistered bad_start_refused refl (inl refl)
