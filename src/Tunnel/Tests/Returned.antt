-- ===== src/Tunnel/Tests/Returned.antt =====
-- Tests of what comes back.
use ssl_socks.Address.{parse_domain, parse_address}
use ssl_socks.Address.Grammar.{encode}
use ssl_socks.Base.{
  ◌≡◌, refl, sym, ap, ◌∙◌, subst, some, List, [], ◌∷◌, ◌++◌, map, arith, replicate, write_at,
  nat_eq, lookup, insert,
}
use ssl_socks.Base.Words.{to_le, of_le}
use ssl_socks.Data.{stop_tcp, for_session, for_command, data_buffer}
use ssl_socks.Data.Wire.{
  command_code, command_of, header_bytes, buffers, parse_header, read_body, read_message, seen,
  read_messages, write_messages,
}
use ssl_socks.Local.{start_message, chunk_message, start_read}
use ssl_socks.Local.Stream.{requests_of}
use ssl_socks.Manager.Request.{add_local_raw_tcp}
use ssl_socks.Manager.Response.{
  relay_at, touch, add_remote_raw_tcp, stop_old, remote_server_start_tcp, data_tcp_response,
  respond, add_response,
}
use ssl_socks.Manager.Run.{adds_local_tcp, make_idle, manager_call}
use ssl_socks.Manager.System.{SystemEvent, manages, system_step, system_run}
use ssl_socks.Manager.World.{World, completed, call, make, new_manager}
use ssl_socks.Relay.{
  local_server, is_stop, is_init, new_relay, run_push, loop_head, run_send_loop, run_task,
  send_done, opened, run_first, step,
}
use ssl_socks.Relay.Wakeup.{IsQuiet}
use ssl_socks.Tunnel.Ends.{AllTunnels}
use ssl_socks.Tunnel.Interleaved.{system_run-tunnel_run}
use ssl_socks.Tunnel.Messages.{chunk_messages, seen-chunk_messages}
use ssl_socks.Tunnel.Multiplex.{of_session}
use ssl_socks.Tunnel.Return.{start_read-wire}
use ssl_socks.Tunnel.Tests.{tunnel_names}
use ssl_socks.Tunnel.Tests.Complete.{busy_events, busy-messages_in, busy-AllFaultless}
use ssl_socks.Tunnel.Tests.Mixed.{
  answered_world, answered-IsOpen, answer_messages, answer_seens, answer-AllSendable,
  unnamed_tunnel,
}
use ssl_socks.Tunnel.Tests.Written.{world_of}
use ssl_socks.Tunnel.Whole.{stream_serves}

answered_run :
    system_run tunnel_names (manages adds_local_tcp ∷ []) (new_manager local_server)
    ≡ completed answered_world
unfolding system_run system_step manager_call
answered_run = refl

abbrev returned_events : List SystemEvent
returned_events = busy_events (read_messages 2 (write_messages answer_messages))

abbrev returned_world : World
returned_world = world_of (system_run tunnel_names returned_events answered_world)

answer-AllTunnels : AllTunnels tunnel_names (map (λ d. seen d) answer_messages)
answer-AllTunnels = subst (AllTunnels tunnel_names) (sym answer_seens) (tt, (tt, tt))

returned_run : system_run tunnel_names returned_events answered_world ≡ completed returned_world
returned_run =
    let stream = write_messages answer_messages in
    let (serves, fit, came) =
      stream_serves tunnel_names answer_messages 2 returned_events answer-AllSendable
        answer-AllTunnels (omega arith) (busy-AllFaultless (read_messages 2 stream))
        (busy-messages_in (read_messages 2 stream)) in
    let done =
      (system_run-tunnel_run tunnel_names returned_events answered_world answered-IsOpen
        serves).1 in
    done ∙ ap (λ o. completed (world_of o)) (sym done)

returned_entry : lookup 1 returned_world.relays ≡ some (some 0)
unfolding system_run system_step manager_call add_response respond remote_server_start_tcp relay_at
    touch stop_old add_remote_raw_tcp make new_relay parse_address parse_domain data_tcp_response
    call lookup insert new_manager is_stop is_init step run_first run_task run_push opened
    run_send_loop loop_head send_done read_messages read_message parse_header read_body command_of
    of_le for_session write_messages buffers header_bytes to_le command_code start_message
    chunk_message for_command encode replicate write_at add_local_raw_tcp make_idle
returned_entry = refl

returned-IsQuiet : IsQuiet (returned_world.objects 0).relay
unfolding system_run system_step manager_call add_response respond remote_server_start_tcp relay_at
    touch stop_old add_remote_raw_tcp make new_relay parse_address parse_domain data_tcp_response
    call lookup insert new_manager is_stop is_init step run_first run_task run_push opened
    run_send_loop loop_head send_done read_messages read_message parse_header read_body command_of
    of_le for_session write_messages buffers header_bytes to_le command_code start_message
    chunk_message for_command encode replicate write_at add_local_raw_tcp make_idle
returned-IsQuiet = record { no_tasks = refl; no_write = refl; no_start = refl }

start_read-wire_example :
    (requests_of (start_read 1 ((1 ∷ []) ∷ []))
      ≡ chunk_messages 1 ((1 ∷ []) ∷ []) ++ for_command 1 stop_tcp ∷ [])
    × (map (λ d. data_buffer d) (returned_world.objects 0).relay.wire ≡ [] ++ (1 ∷ []) ∷ [])
start_read-wire_example =
    start_read-wire tunnel_names local_server (manages adds_local_tcp ∷ []) answered_world
      (record { host = []; service = []; passed = [] }) 1 ((1 ∷ []) ∷ []) answer_messages 2
      returned_events returned_world 0 (tt, tt) answered_run answered-IsOpen unnamed_tunnel
      (omega arith, tt)
      (ap (of_session 1) answer_seens
        ∙ sym (seen-chunk_messages 1 ((1 ∷ []) ∷ []) (omega arith, tt)))
      answer-AllSendable answer-AllTunnels (omega arith)
      (busy-AllFaultless (read_messages 2 (write_messages answer_messages)))
      (busy-messages_in (read_messages 2 (write_messages answer_messages))) returned_run
      returned_entry returned-IsQuiet
