-- ===== src/Tunnel/Tests/Straight.antt =====
-- Tests of a transparent client's whole connection.
use ssl_socks.Address.{Sockaddr, inet, store, parse_addr, port_number, parse_fixed, parse_address}
use ssl_socks.Address.Grammar.{host_text, port_bytes}
use ssl_socks.Base.{
  ◌≡◌, refl, sym, ap, ap₂, subst, true, some, List, [], ◌∷◌, ◌++◌, map, arith, replicate, write_at,
  nat_eq, lookup, insert,
}
use ssl_socks.Base.Words.{to_le, of_le}
use ssl_socks.Data.{stop_tcp, RelayData, for_session, for_command, data_buffer}
use ssl_socks.Data.Wire.{
  command_code, command_of, header_bytes, buffers, parse_header, read_body, read_message, seen,
  read_messages, write_messages, AllSendable,
}
use ssl_socks.Local.{transparent_message, start_transparent, chunk_message, start_read}
use ssl_socks.Local.Endings.{request_of}
use ssl_socks.Local.Stream.{requests_of, data_seen, chunk_message-IsMessage, seen_chunk}
use ssl_socks.Manager.Response.{
  relay_at, touch, add_remote_raw_tcp, stop_old, remote_server_start_tcp, data_tcp_response,
  respond, add_response,
}
use ssl_socks.Manager.Run.{manager_call}
use ssl_socks.Manager.System.{system_step, system_run}
use ssl_socks.Manager.World.{World, call, make, new_manager}
use ssl_socks.Relay.{
  is_stop, is_init, new_relay, run_push, loop_head, run_send_loop, run_task, send_done, opened,
  run_first, step,
}
use ssl_socks.Relay.Wakeup.{IsQuiet}
use ssl_socks.Tunnel.Client.{client_seens-AllTunnels}
use ssl_socks.Tunnel.Ends.{AllTunnels}
use ssl_socks.Tunnel.Messages.{
  chunk_messages, data_seens, seen-chunk_messages, chunk_messages-AllSendable, start_seen,
}
use ssl_socks.Tunnel.Multiplex.{of_session}
use ssl_socks.Tunnel.Tests.{tunnel_names}
use ssl_socks.Tunnel.Tests.Complete.{
  busy-messages_in, busy-AllFaultless, busy_of_stream, busy_world, busy_run,
}
use ssl_socks.Tunnel.Transparent.{
  transparent_message-IsMessage, seen-transparent_message, start_transparent-wire,
}

abbrev straight_to : Sockaddr
straight_to = inet (1 ∷ (2 ∷ (3 ∷ (4 ∷ [])))) (0 ∷ (80 ∷ []))

-- The start and one read of session 7, and a read of session 9 between them.
abbrev straight_messages : List RelayData
straight_messages =
    transparent_message 7 straight_to
    ∷ (chunk_message 9 (9 ∷ []) ∷ chunk_messages 7 ((1 ∷ []) ∷ []))

straight_seens :
    map (λ d. seen d) straight_messages
    ≡ start_seen 7 (request_of straight_to) ∷ (data_seen 9 (9 ∷ []) ∷ data_seens 7 ((1 ∷ []) ∷ []))
straight_seens =
    ap₂ (λ x xs. x ∷ xs) (seen-transparent_message 7 straight_to (refl, refl))
      (ap₂ (λ x xs. x ∷ xs) (seen_chunk 9 (9 ∷ []) (omega arith))
        (seen-chunk_messages 7 ((1 ∷ []) ∷ []) (omega arith, tt)))

straight-AllSendable : AllSendable straight_messages
straight-AllSendable =
    let (start, named) = transparent_message-IsMessage 7 straight_to (omega arith) (refl, refl) in
    let (m, n) = chunk_message-IsMessage 9 (9 ∷ []) (omega arith) (omega arith) in
    (
      start,
      named,
      (m, n, chunk_messages-AllSendable 7 ((1 ∷ []) ∷ []) (omega arith) (omega arith, tt)),
    )

straight-AllTunnels : AllTunnels tunnel_names (map (λ d. seen d) straight_messages)
straight-AllTunnels =
    let (start, rest) =
      client_seens-AllTunnels tunnel_names 7 (request_of straight_to) ((1 ∷ []) ∷ [])
        (refl, refl) in
    subst (AllTunnels tunnel_names) (sym straight_seens) (start, (tt, rest))

abbrev straight_world : World
straight_world = busy_world straight_messages

straight_entry : lookup 7 straight_world.relays ≡ some (some 0)
unfolding system_run system_step manager_call add_response respond remote_server_start_tcp relay_at
    touch stop_old add_remote_raw_tcp make new_relay parse_address parse_fixed data_tcp_response
    call lookup insert new_manager is_stop is_init step run_first run_task run_push opened
    run_send_loop loop_head send_done read_messages read_message parse_header read_body command_of
    of_le for_session write_messages buffers header_bytes to_le command_code transparent_message
    parse_addr store chunk_message for_command replicate write_at
straight_entry = refl

straight-IsQuiet : IsQuiet (straight_world.objects 0).relay
unfolding system_run system_step manager_call add_response respond remote_server_start_tcp relay_at
    touch stop_old add_remote_raw_tcp make new_relay parse_address parse_fixed data_tcp_response
    call lookup insert new_manager is_stop is_init step run_first run_task run_push opened
    run_send_loop loop_head send_done read_messages read_message parse_header read_body command_of
    of_le for_session write_messages buffers header_bytes to_le command_code transparent_message
    parse_addr store chunk_message for_command replicate write_at
straight-IsQuiet = record { no_tasks = refl; no_write = refl; no_start = refl }

start_transparent-wire_example :
    (requests_of ((start_transparent true 7 (some straight_to)).0 ++ start_read 7 ((1 ∷ []) ∷ []))
      ≡ (transparent_message 7 straight_to ∷ chunk_messages 7 ((1 ∷ []) ∷ []))
        ++ for_command 7 stop_tcp ∷ [])
    × AllSendable (transparent_message 7 straight_to ∷ chunk_messages 7 ((1 ∷ []) ∷ []))
    × (map (λ d. seen d) (transparent_message 7 straight_to ∷ chunk_messages 7 ((1 ∷ []) ∷ []))
        ≡ of_session 7 (map (λ d. seen d) straight_messages))
    × ((straight_world.objects 0).host ≡ host_text tunnel_names (request_of straight_to))
    × ((straight_world.objects 0).service
        ≡ tunnel_names.int_text (port_number (port_bytes (request_of straight_to)) 0))
    × (map (λ d. data_buffer d) (straight_world.objects 0).relay.wire ≡ (1 ∷ []) ∷ [])
start_transparent-wire_example =
    start_transparent-wire tunnel_names 7 straight_to ((1 ∷ []) ∷ []) straight_messages 3
      (busy_of_stream straight_messages) straight_world 0 (refl, refl) (omega arith)
      (omega arith, tt) (ap (of_session 7) straight_seens) straight-AllSendable straight-AllTunnels
      (omega arith) (busy-AllFaultless (read_messages 3 (write_messages straight_messages)))
      (busy-messages_in (read_messages 3 (write_messages straight_messages)))
      (busy_run straight_messages straight-AllSendable straight-AllTunnels (omega arith))
      straight_entry straight-IsQuiet
