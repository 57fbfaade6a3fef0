-- ===== src/Tunnel/Tests/Complete.antt =====
-- Tests of a whole connection.
use ssl_socks.Address.{port_number, parse_domain, parse_address}
use ssl_socks.Address.Grammar.{encode, host_text, port_bytes}
use ssl_socks.Base.{
  ◌≤◌, ◌≡◌, refl, sym, ap, ◌∙◌, some, List, [], ◌∷◌, ◌++◌, map, arith, length, replicate, write_at,
  nat_eq, lookup, insert,
}
use ssl_socks.Base.Words.{to_le, of_le}
use ssl_socks.Data.{stop_tcp, RelayData, for_session, for_command, data_buffer}
use ssl_socks.Data.Wire.{
  command_code, command_of, header_bytes, buffers, parse_header, read_body, read_message, seen,
  read_messages, write_messages, AllSendable,
}
use ssl_socks.Local.{
  Action, writes_client, sends_request, starts_read, no_auth, start_message, start_local,
  chunk_message, start_read,
}
use ssl_socks.Local.Stream.{requests_of}
use ssl_socks.Manager.Response.{
  relay_at, touch, add_remote_raw_tcp, stop_old, remote_server_start_tcp, data_tcp_response,
  respond, add_response,
}
use ssl_socks.Manager.Run.{adds_response, manager_call}
use ssl_socks.Manager.System.{SystemEvent, manages, relays_do, system_step, system_run}
use ssl_socks.Manager.World.{World, completed, call, make, new_manager}
use ssl_socks.Relay.{
  is_stop, is_init, new_relay, run_push, loop_head, run_send_loop, run_task, send_done, opened,
  runs, sends, opens, run_first, step,
}
use ssl_socks.Relay.Wakeup.{IsQuiet}
use ssl_socks.Tunnel.Ends.{AllTunnels}
use ssl_socks.Tunnel.Interleaved.{system_run-tunnel_run}
use ssl_socks.Tunnel.Messages.{chunk_messages}
use ssl_socks.Tunnel.Multiplex.{of_session}
use ssl_socks.Tunnel.Tests.{
  tunnel_names, fresh_world, fresh-IsOpen, client_request, client_talk, every_host, length-connect,
}
use ssl_socks.Tunnel.Tests.Mixed.{mixed_messages, mixed_seens, mixed-AllSendable, mixed-AllTunnels}
use ssl_socks.Tunnel.Tests.Written.{world_of}
use ssl_socks.Tunnel.Whole.{messages_in, AllFaultless, stream_serves, start_local-wire}

-- After each message relay 0 does what it can.
abbrev pub busy_events : List RelayData → List SystemEvent
busy_events [] = []
busy_events (d ∷ ds) =
    manages (adds_response d)
    ∷ (relays_do 0 opens
        ∷ (relays_do 0 runs ∷ (relays_do 0 runs ∷ (relays_do 0 sends ∷ busy_events ds))))

pub busy-messages_in : (ds : List RelayData) → messages_in (busy_events ds) ≡ ds
busy-messages_in [] = refl
busy-messages_in (d ∷ ds) = ap (◌∷◌ d) (busy-messages_in ds)

pub busy-AllFaultless : (ds : List RelayData) → AllFaultless (busy_events ds)
busy-AllFaultless [] = tt
busy-AllFaultless (d ∷ ds) = (tt, (tt, (tt, (tt, (tt, busy-AllFaultless ds)))))

abbrev pub busy_of_stream : List RelayData → List SystemEvent
busy_of_stream ds = busy_events (read_messages 3 (write_messages ds))

abbrev pub busy_world : List RelayData → World
busy_world ds = world_of (system_run tunnel_names (busy_of_stream ds) fresh_world)

pub busy_run :
    (ds : List RelayData)
    → AllSendable ds
    → AllTunnels tunnel_names (map (λ d. seen d) ds)
    → length ds ≤ 3
    → system_run tunnel_names (busy_of_stream ds) fresh_world ≡ completed (busy_world ds)
busy_run ds k q l =
    let stream = write_messages ds in
    let (serves, fit, came) =
      stream_serves tunnel_names ds 3 (busy_of_stream ds) k q l
        (busy-AllFaultless (read_messages 3 stream)) (busy-messages_in (read_messages 3 stream)) in
    let done =
      (system_run-tunnel_run tunnel_names (busy_of_stream ds) fresh_world fresh-IsOpen serves).1 in
    done ∙ ap (λ o. completed (world_of o)) (sym done)

abbrev complete_events : List SystemEvent
complete_events = busy_of_stream mixed_messages

abbrev complete_world : World
complete_world = busy_world mixed_messages

complete_entry : lookup 7 complete_world.relays ≡ some (some 0)
unfolding system_run system_step manager_call add_response respond remote_server_start_tcp relay_at
    touch stop_old add_remote_raw_tcp make new_relay parse_address parse_domain data_tcp_response
    call lookup insert new_manager is_stop is_init step run_first run_task run_push opened
    run_send_loop loop_head send_done read_messages read_message parse_header read_body command_of
    of_le for_session write_messages buffers header_bytes to_le command_code start_message
    chunk_message for_command encode replicate write_at
complete_entry = refl

complete-IsQuiet : IsQuiet (complete_world.objects 0).relay
unfolding system_run system_step manager_call add_response respond remote_server_start_tcp relay_at
    touch stop_old add_remote_raw_tcp make new_relay parse_address parse_domain data_tcp_response
    call lookup insert new_manager is_stop is_init step run_first run_task run_push opened
    run_send_loop loop_head send_done read_messages read_message parse_header read_body command_of
    of_le for_session write_messages buffers header_bytes to_le command_code start_message
    chunk_message for_command encode replicate write_at
complete-IsQuiet = record { no_tasks = refl; no_write = refl; no_start = refl }

start_local-wire_example :
    (m : RelayData) × (rest : List Action) × ((start_local every_host tunnel_names client_talk 7).0
      ≡ writes_client no_auth ∷ (sends_request m ∷ (starts_read ∷ rest)))
    × (requests_of (start_read 7 ((1 ∷ []) ∷ []))
        ≡ chunk_messages 7 ((1 ∷ []) ∷ []) ++ for_command 7 stop_tcp ∷ [])
    × (map (λ d. seen d) (m ∷ chunk_messages 7 ((1 ∷ []) ∷ []))
        ≡ of_session 7 (map (λ d. seen d) mixed_messages))
    × ((complete_world.objects 0).host ≡ host_text tunnel_names client_request)
    × ((complete_world.objects 0).service
        ≡ tunnel_names.int_text (port_number (port_bytes client_request) 0))
    × (map (λ d. data_buffer d) (complete_world.objects 0).relay.wire ≡ (1 ∷ []) ∷ [])
start_local-wire_example =
    start_local-wire every_host tunnel_names client_talk 7 (5 ∷ (1 ∷ (0 ∷ []))) client_request
      ((1 ∷ []) ∷ []) mixed_messages 3 complete_events complete_world 0 refl refl refl refl
      (omega (arith, length-connect)) refl (omega arith) (omega arith, tt)
      (ap (of_session 7) mixed_seens) mixed-AllSendable mixed-AllTunnels (omega arith)
      (busy-AllFaultless (read_messages 3 (write_messages mixed_messages)))
      (busy-messages_in (read_messages 3 (write_messages mixed_messages)))
      (busy_run mixed_messages mixed-AllSendable mixed-AllTunnels (omega arith)) complete_entry
      complete-IsQuiet
