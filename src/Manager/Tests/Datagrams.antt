-- ===== src/Manager/Tests/Datagrams.antt =====
-- Tests of the manager on datagrams, and of its timer.
use ssl_socks.Address.{Sockaddr, endpoint_eq, any6, any4}
use ssl_socks.Base.{◌≡◌, refl, inl, none, some, List, [], ◌∷◌, ◌++◌, nat_eq, lookup}
use ssl_socks.Data.{data_udp, data_tcp}
use ssl_socks.Manager.Request.{add_local_raw_tcp}
use ssl_socks.Manager.Request.Delivery.{tasks_of}
use ssl_socks.Manager.Response.{source_of, add_response}
use ssl_socks.Manager.Response.Datagram.{add_response-data_udp, add_response-unknown_udp}
use ssl_socks.Manager.Tests.{sample_request, sample_world, sample_source, texts4, goes_udp}
use ssl_socks.Manager.Timer.{sweep_srcs, sweep_relays}
use ssl_socks.Manager.Timer.Nulls.{sweep_relays-add_response}
use ssl_socks.Manager.Timer.Sweep.{farewells, Swept, sweep_srcs-Swept}
use ssl_socks.Manager.Udp.{send_udp_data}
use ssl_socks.Manager.Udp.Sessions.{send_udp_data-add_local_raw_tcp}
use ssl_socks.Manager.World.{UdpTimeout, World, completed, next_session, session_of}
use ssl_socks.Relay.{
  local_server, remote_server, local_transparent, full_timeout, push, del_peer_task,
}

no_source : lookup 5 (sample_world local_transparent).udp_srcs ≡ none
unfolding lookup
no_source = refl

no_zeros : lookup any4 (sample_world local_transparent).srcs ≡ none
unfolding lookup
no_zeros = refl

add_response-data_udp_test :
    (w' : World) × (add_response texts4 (sample_request 5 data_udp) (sample_world local_transparent)
      ≡ completed w')
    × (tasks_of w' 4
        ≡ tasks_of (sample_world local_transparent) 4 ++ push (sample_request 5 data_udp) ∷ [])
    × (lookup 5 w'.udp_srcs ≡ some (source_of 5 (sample_world local_transparent)))
    × (lookup (source_of 5 (sample_world local_transparent)) w'.srcs
        ≡ some (record {
          session =
              session_of
                (source_of 5 (sample_world local_transparent))
                (sample_world local_transparent);
          timeout = full_timeout;
        }))
add_response-data_udp_test =
    add_response-data_udp texts4 (sample_request 5 data_udp) (sample_world local_transparent) 4 refl
      refl refl goes_udp

add_response-unknown_udp_example :
    (w' : World) × (add_response texts4 (sample_request 5 data_udp) (sample_world local_transparent)
      ≡ completed w')
    × (lookup any4 w'.srcs ≡ some (record { session = 0; timeout = full_timeout }))
add_response-unknown_udp_example =
    add_response-unknown_udp texts4 (sample_request 5 data_udp) (sample_world local_transparent) 4
      refl refl refl goes_udp no_source no_zeros

new_source : session_of sample_source (sample_world local_server) ≡ 0
unfolding session_of lookup
new_source = refl

free_session :
    lookup (next_session (sample_world local_server).session) (sample_world local_server).relays
    ≡ none
unfolding lookup
free_session = refl

send_udp_data-add_local_raw_tcp_example :
    (w' : World) × (send_udp_data sample_source
        (sample_request 0 data_udp)
        (sample_world local_server)
      ≡ completed w')
    × (session_of sample_source w' ≡ next_session 1)
    × (lookup (session_of sample_source w') (add_local_raw_tcp 2 w').relays ≡ some (some 2))
    × (((add_local_raw_tcp 2 w').objects 2).session ≡ session_of sample_source w')
send_udp_data-add_local_raw_tcp_example =
    send_udp_data-add_local_raw_tcp sample_source (sample_request 0 data_udp)
      (sample_world local_server) 4 2 refl new_source refl free_session

-- One source has a tick left, the other more.
abbrev aging : List (Sockaddr × UdpTimeout)
aging =
    (sample_source, record { session = 2; timeout = 1 })
    ∷ ((any6, record { session = 3; timeout = 4 }) ∷ [])

sweep_srcs-Swept_example :
    Swept 4 aging (sample_world local_server) (sweep_srcs aging (sample_world local_server))
sweep_srcs-Swept_example = sweep_srcs-Swept 4 aging (sample_world local_server) refl

farewells_test : farewells aging ≡ del_peer_task 2 ∷ []
unfolding farewells
farewells_test = refl

-- A null entry as a refused start leaves it.
sweep_relays-add_response_test :
    (w' : World) × (add_response texts4
        (sample_request 8 data_tcp)
        (sweep_relays ((8, none) ∷ ((5, some 3) ∷ [])) (sample_world remote_server))
      ≡ completed w')
sweep_relays-add_response_test =
    sweep_relays-add_response ((8, none) ∷ ((5, some 3) ∷ [])) (sample_world remote_server) texts4
      (sample_request 8 data_tcp) (inl refl)
