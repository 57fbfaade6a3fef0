-- ===== src/Tunnel/Tests/Written.antt =====
-- Tests of messages that are handled while the relays send.
use ssl_socks.Address.{parse_fixed, parse_address}
use ssl_socks.Base.{
  ◌≤◌, ◌≡◌, refl, sym, ap, ◌∙◌, none, some, List, [], ◌∷◌, map, arith, length, Bytes, nat_eq,
  lookup, insert,
}
use ssl_socks.Data.{Command, start_tcp, data_tcp, data_buffer}
use ssl_socks.Manager.Response.{
  relay_at, touch, add_remote_raw_tcp, stop_old, remote_server_start_tcp, data_tcp_response,
  respond, add_response,
}
use ssl_socks.Manager.Run.{adds_response, manager_call}
use ssl_socks.Manager.System.{
  SystemEvent, manages, relays_do, system_step, system_run, AllSystemEventsFit,
}
use ssl_socks.Manager.World.{World, Outcome, completed, thrown, fault, call, make, new_manager}
use ssl_socks.Relay.{
  remote_server, is_stop, is_init, new_relay, run_push, loop_head, run_send_loop, run_task,
  send_done, opened, runs, sends, opens, run_first, step,
}
use ssl_socks.Relay.Wakeup.{IsQuiet}
use ssl_socks.Tunnel.{tunnel_run, tunnels}
use ssl_socks.Tunnel.Interleaved.{AllServe, arrived, system_run-tunnel_run}
use ssl_socks.Tunnel.Interleaved.Wire.{system_run-wire}
use ssl_socks.Tunnel.Open.{IsOpen}
use ssl_socks.Tunnel.Tests.{
  tunnel_names, to_host, holding, holding-IsMessage, fresh_world, fresh-IsOpen,
}

-- A start of session 7, whose relay opens; then data, which it writes.
abbrev written_events : List SystemEvent
written_events =
    manages (adds_response (holding start_tcp to_host))
    ∷ (relays_do 0 opens
        ∷ (relays_do 0 runs
            ∷ (manages (adds_response (holding data_tcp (104 ∷ (105 ∷ []))))
                ∷ (relays_do 0 runs ∷ (relays_do 0 runs ∷ (relays_do 0 sends ∷ []))))))

abbrev pub world_of : Outcome → World
world_of (completed w) = w
world_of (thrown w) = w
world_of fault = fresh_world

abbrev written_world : World
written_world = world_of (system_run tunnel_names written_events fresh_world)

written-AllServe : AllServe tunnel_names written_events
unfolding parse_address parse_fixed
written-AllServe = (
  (roomy start_tcp to_host (omega arith), (omega arith, (1 ∷ (2 ∷ (3 ∷ (4 ∷ []))), 80 ∷ [], refl))),
  (tt, (tt, ((roomy data_tcp (104 ∷ (105 ∷ [])) (omega arith), tt), (tt, (tt, (tt, tt)))))),
)
  where
    roomy :
        (c : Command) (bs : Bytes)
        → length bs ≤ 7
        → (holding c bs).len ≤ length (holding c bs).bytes
    roomy c bs h = omega (arith, h, (holding-IsMessage c bs h).buffer)

written-fits : AllSystemEventsFit written_events
written-fits = (
  holding-IsMessage start_tcp to_host (omega arith),
  (tt, (tt, (holding-IsMessage data_tcp (104 ∷ (105 ∷ [])) (omega arith), (tt, (tt, (tt, tt)))))),
)

system_run-tunnel_run_example :
    (w' : World) × (system_run tunnel_names written_events fresh_world ≡ completed w')
    × IsOpen w'
    × (tunnels w' ≡ tunnel_run tunnel_names (arrived written_events) (tunnels fresh_world))
system_run-tunnel_run_example =
    system_run-tunnel_run tunnel_names written_events fresh_world fresh-IsOpen written-AllServe

written_run : system_run tunnel_names written_events fresh_world ≡ completed written_world
written_run =
    let done = system_run-tunnel_run_example.1 in done ∙ ap (λ o. completed (world_of o)) (sym done)

written_entry : lookup 7 written_world.relays ≡ some (some 0)
unfolding system_run system_step manager_call add_response respond remote_server_start_tcp relay_at
    touch stop_old add_remote_raw_tcp make new_relay parse_address parse_fixed data_tcp_response
    call lookup insert new_manager is_stop is_init step run_first run_task run_push opened
    run_send_loop loop_head send_done
written_entry = refl

written-IsQuiet : IsQuiet (written_world.objects 0).relay
unfolding system_run system_step manager_call add_response respond remote_server_start_tcp relay_at
    touch stop_old add_remote_raw_tcp make new_relay parse_address parse_fixed data_tcp_response
    call lookup insert new_manager is_stop is_init step run_first run_task run_push opened
    run_send_loop loop_head send_done
written-IsQuiet = record { no_tasks = refl; no_write = refl; no_start = refl }

system_run-wire_test :
    tunnel_run tunnel_names (arrived written_events) (λ x. none) 7
    ≡ some (record {
      host = (written_world.objects 0).host;
      service = (written_world.objects 0).service;
      passed = map (λ d. data_buffer d) (written_world.objects 0).relay.wire;
    })
system_run-wire_test =
    system_run-wire tunnel_names remote_server written_events written_world 7 0 written-AllServe
      written-fits written_run written_entry written-IsQuiet
