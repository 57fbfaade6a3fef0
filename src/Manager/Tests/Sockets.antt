-- ===== src/Manager/Tests/Sockets.antt =====
-- Tests of relays that cannot be made.
use ssl_socks.Base.{ℕ, ◌≡◌, refl, true, none, nat_eq, lookup, insert}
use ssl_socks.Data.{data_udp, data_tcp, set_session}
use ssl_socks.Manager.Failing.{
  is_built, not_made, not_set, data_tcp_response_or, respond_or, add_response_or, send_udp_data_or,
}
use ssl_socks.Manager.Failing.Datagrams.{
  UdpServed, add_response_or-remote_udp, add_response_or_built,
}
use ssl_socks.Manager.Failing.Lost.{send_udp_data_or-lost}
use ssl_socks.Manager.Request.Delivery.{Delivered}
use ssl_socks.Manager.Response.{relay_at, touch, and_then, add_response}
use ssl_socks.Manager.Tests.{sample_request, sample_world, still_world, sample_source, texts4}
use ssl_socks.Manager.World.{World, completed, thrown, fault, is_stopped, session_of}
use ssl_socks.Relay.{local_server, remote_server, is_stop}

-- The new relay of session 9 cannot bind its socket.
add_response_or-remote_udp_example :
    UdpServed not_set
      (sample_request 9 data_udp)
      (sample_world remote_server)
      (add_response_or not_set texts4 (sample_request 9 data_udp) (sample_world remote_server))
add_response_or-remote_udp_example =
    add_response_or-remote_udp not_set texts4 (sample_request 9 data_udp)
      (sample_world remote_server) refl refl

-- The null entry makes the next data of the session a fault.
null_left_test :
    and_then
      (add_response_or is_built texts4
        (sample_request 9 data_tcp)
        (touch 9 (sample_world remote_server)))
      (λ w. completed w)
    ≡ fault
unfolding add_response_or respond_or data_tcp_response_or touch relay_at lookup insert
null_left_test = refl

add_response_or_built_test :
    add_response_or is_built texts4 (sample_request 9 data_udp) (sample_world remote_server)
    ≡ add_response texts4 (sample_request 9 data_udp) (sample_world remote_server)
add_response_or_built_test =
    add_response_or_built texts4 (sample_request 9 data_udp) (sample_world remote_server)

unknown_source : session_of sample_source (still_world local_server) ≡ 0
unfolding session_of lookup
unknown_source = refl

relay_stands : is_stopped (still_world local_server) 4 ≡ true
unfolding is_stop
relay_stands = refl

no_entry : lookup 2 (still_world local_server).udp_srcs ≡ none
unfolding lookup
no_entry = refl

send_udp_data_or-lost_example :
    (w' : World) × (w'' : World) × (send_udp_data_or not_made is_built sample_source
        (sample_request 0 data_udp)
        (still_world local_server)
      ≡ thrown w')
    × (w'.session ≡ 2)
    × (session_of sample_source w' ≡ 2)
    × (send_udp_data_or is_built is_built sample_source (sample_request 0 data_udp) w'
        ≡ completed w'')
    × ((q : ℕ) × Delivered (set_session 2 (sample_request 0 data_udp)) w'' q)
    × (lookup 2 w''.udp_srcs ≡ none)
send_udp_data_or-lost_example =
    send_udp_data_or-lost sample_source is_built is_built (sample_request 0 data_udp)
      (sample_request 0 data_udp) (still_world local_server) 4 unknown_source refl relay_stands refl
      refl no_entry
