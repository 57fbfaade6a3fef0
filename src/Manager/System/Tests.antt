-- ===== src/Manager/System/Tests.antt =====
-- Tests of a manager and its relays at work.
use ssl_socks.Address.{Sockaddr, inet, endpoint_eq, AddressText}
use ssl_socks.Base.{
  ℕ, ◌<◌, ◌≡◌, refl, false, some, List, [], ◌∷◌, map, arith, length-replicate, nat_eq, lookup,
  insert,
}
use ssl_socks.Data.{read_buffer_size, empty_udp}
use ssl_socks.Manager.Request.{live_ssl, renew_ssl, add_request, add_local_raw_tcp}
use ssl_socks.Manager.Run.{sends_udp, starts_manager, adds_local_tcp, make_idle, manager_call}
use ssl_socks.Manager.Run.Kept.{Ensures}
use ssl_socks.Manager.System.{
  SystemEvent, manages, relays_do, system_step, system_run, AllSystemEventsFit, IsCarried,
  system_run-IsCarried, IsAwake, system_run-IsAwake, system_run-registered,
}
use ssl_socks.Manager.System.Idle.{system_run-timer}
use ssl_socks.Manager.Timer.{timer}
use ssl_socks.Manager.Udp.{insert_new, new_udp_session, forward_udp, send_udp_data}
use ssl_socks.Manager.World.{
  World, Outcome, completed, thrown, fault, call, make, start_local_udp, new_manager, is_remote,
  manager_start, session_of,
}
use ssl_socks.Relay.{
  local_server, local_transparent, is_stop, is_init, full_timeout, raw_tcp, new_relay, run_push,
  loop_head, run_send_loop, run_task, send_done, opened, runs, sends, opens, run_first, step,
}

abbrev system_texts : AddressText
system_texts = record { v4_text = λ a. a; v6_text = λ a. a; int_text = λ n. n ∷ [] }

abbrev udp_client : Sockaddr
udp_client = inet (10 ∷ (0 ∷ (0 ∷ (2 ∷ [])))) (4 ∷ (210 ∷ []))

-- A datagram comes before the TLS relay, which is relay 1, has connected; then it is written.
abbrev udp_events : List SystemEvent
udp_events =
    manages starts_manager
    ∷ (manages (sends_udp udp_client empty_udp)
        ∷ (relays_do 1 runs ∷ (relays_do 1 opens ∷ (relays_do 1 runs ∷ (relays_do 1 sends ∷ [])))))

abbrev wire_sessions : ℕ → Outcome → List ℕ
wire_sessions p (completed w) = map (λ d. d.session) (w.objects p).relay.wire
wire_sessions p (thrown w) = []
wire_sessions p fault = []

system_run_test :
    wire_sessions 1 (system_run system_texts udp_events (new_manager local_transparent)) ≡ 2 ∷ []
unfolding system_run system_step manager_call manager_start start_local_udp make new_manager
    new_relay send_udp_data session_of lookup insert new_udp_session insert_new forward_udp
    add_request live_ssl renew_ssl call step run_first run_task run_push is_stop is_init opened
    run_send_loop loop_head send_done empty_udp
system_run_test = refl

udp_events-fit : AllSystemEventsFit udp_events
unfolding empty_udp
udp_events-fit = (
  tt,
  (
    record { fits = omega arith; buffer = length-replicate read_buffer_size 0; named = tt },
    (tt, (tt, (tt, (tt, tt)))),
  ),
)

system_run-IsCarried_example :
    Ensures IsCarried (system_run system_texts udp_events (new_manager local_transparent))
system_run-IsCarried_example =
    system_run-IsCarried system_texts local_transparent udp_events udp_events-fit

system_run-IsAwake_example :
    Ensures IsAwake (system_run system_texts udp_events (new_manager local_transparent))
system_run-IsAwake_example =
    system_run-IsAwake system_texts local_transparent udp_events udp_events-fit

abbrev joined_world : World
joined_world =
    call 0 (λ r. step r opens)
      (add_local_raw_tcp (new_manager local_server).next
        (make_idle raw_tcp (new_manager local_server)))

joined_run :
    system_run system_texts
      (manages adds_local_tcp ∷ (relays_do 0 opens ∷ []))
      (new_manager local_server)
    ≡ completed joined_world
unfolding system_run system_step manager_call
joined_run = refl

joined_entry : lookup 1 joined_world.relays ≡ some (some 0)
unfolding lookup insert add_local_raw_tcp make_idle new_manager call
joined_entry = refl

system_run-registered_example : (0 < joined_world.next) × ((joined_world.objects 0).session ≡ 1)
system_run-registered_example =
    system_run-registered system_texts local_server
      (manages adds_local_tcp ∷ (relays_do 0 opens ∷ [])) joined_world 1 0 joined_run joined_entry

-- A local server with one connection.
abbrev idle_events : List SystemEvent
idle_events = manages starts_manager ∷ (manages adds_local_tcp ∷ (relays_do 1 opens ∷ []))

abbrev idle_world : World
idle_world =
    let started = manager_start (new_manager local_server) in
    call 1 (λ r. step r opens) (add_local_raw_tcp started.next (make_idle raw_tcp started))

idle_run : system_run system_texts idle_events (new_manager local_server) ≡ completed idle_world
unfolding system_run system_step manager_call manager_start start_local_udp make new_manager
idle_run = refl

idle_type : is_remote idle_world.type ≡ false
unfolding manager_start start_local_udp make new_manager add_local_raw_tcp make_idle lookup call
idle_type = refl

idle_udp : idle_world.udp_send ≡ some 0
unfolding manager_start start_local_udp make new_manager add_local_raw_tcp make_idle lookup call
idle_udp = refl

idle_state : is_stop idle_world.state ≡ false
unfolding manager_start start_local_udp make new_manager add_local_raw_tcp make_idle lookup call
    is_stop
idle_state = refl

idle_entry : lookup 1 idle_world.relays ≡ some (some 1)
unfolding manager_start start_local_udp make new_manager add_local_raw_tcp make_idle lookup insert
    call
idle_entry = refl

system_run-timer_example :
    (w' : World) × (timer full_timeout idle_world ≡ completed w')
    × (w'.relays ≡ [])
    × (w'.srcs ≡ [])
system_run-timer_example =
    system_run-timer system_texts local_server idle_events idle_world 0 (tt, (tt, (tt, tt)))
      idle_run idle_type idle_udp idle_state
