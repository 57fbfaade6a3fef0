-- ===== src/Tunnel/Tests/Mixed.antt =====
-- Tests of sessions that share a stream.
use ssl_socks.Address.Grammar.{encode}
use ssl_socks.Base.{
  ℕ, ◌≡◌, refl, sym, ap, ◌∙◌, ap₂, subst, inl, inr, false, none, some, List, [], ◌∷◌, ◌++◌, map,
  arith, ◌==◌, if_false, length, nat_eq, lookup, insert,
}
use ssl_socks.Data.{stop_tcp, RelayData, for_command}
use ssl_socks.Data.Wire.{seen, read_messages, write_messages, AllSendable}
use ssl_socks.Local.{
  Action, writes_client, sends_request, starts_read, no_auth, start_message, start_local,
  chunk_message, start_read,
}
use ssl_socks.Local.Stream.{requests_of, data_seen, chunk_message-IsMessage, seen_chunk}
use ssl_socks.Manager.Request.{add_local_raw_tcp}
use ssl_socks.Manager.Run.{make_idle}
use ssl_socks.Manager.World.{World, completed, new_manager}
use ssl_socks.Relay.{local_server, raw_tcp, new_relay}
use ssl_socks.Tunnel.{tunnel_run, tunnels, serve}
use ssl_socks.Tunnel.Answers.{start_read-serve}
use ssl_socks.Tunnel.Client.{filled, client_seens-AllTunnels}
use ssl_socks.Tunnel.Ends.{AllTunnels}
use ssl_socks.Tunnel.Messages.{
  chunk_messages, data_seens, seen-chunk_messages, chunk_messages-AllSendable,
  start_message-IsMessage, start_seen, seen-start_message,
}
use ssl_socks.Tunnel.Multiplex.{of_session, serve-of_session}
use ssl_socks.Tunnel.Open.{IsOpen, IsOpen-one, new_relay-Unstopped}
use ssl_socks.Tunnel.Shared.{start_local-shared}
use ssl_socks.Tunnel.Tests.{
  tunnel_names, fresh_world, fresh-IsOpen, client_request, client_talk, every_host, length-connect,
}

length-encode : length (encode client_request) ≡ 6
unfolding encode
length-encode = refl

-- The start and one read of session 7, and a read of session 9 between them.
abbrev pub mixed_messages : List RelayData
mixed_messages =
    start_message 7 (encode client_request ++ []) (length (encode client_request))
    ∷ (chunk_message 9 (9 ∷ []) ∷ chunk_messages 7 ((1 ∷ []) ∷ []))

pub mixed_seens :
    map (λ d. seen d) mixed_messages
    ≡ start_seen 7 client_request ∷ (data_seen 9 (9 ∷ []) ∷ data_seens 7 ((1 ∷ []) ∷ []))
mixed_seens =
    ap₂ (λ x xs. x ∷ xs) (seen-start_message 7 client_request [] (omega (arith, length-encode)))
      (ap₂ (λ x xs. x ∷ xs) (seen_chunk 9 (9 ∷ []) (omega arith))
        (seen-chunk_messages 7 ((1 ∷ []) ∷ []) (omega arith, tt)))

pub mixed-AllSendable : AllSendable mixed_messages
mixed-AllSendable =
    let (m, n) =
      start_message-IsMessage 7 client_request [] (omega arith) (omega (arith, length-encode)) in
    let (m', n') = chunk_message-IsMessage 9 (9 ∷ []) (omega arith) (omega arith) in
    (m, n, (m', n', chunk_messages-AllSendable 7 ((1 ∷ []) ∷ []) (omega arith) (omega arith, tt)))

pub mixed-AllTunnels : AllTunnels tunnel_names (map (λ d. seen d) mixed_messages)
mixed-AllTunnels =
    let (start, rest) =
      client_seens-AllTunnels tunnel_names 7 client_request ((1 ∷ []) ∷ []) refl in
    subst (AllTunnels tunnel_names) (sym mixed_seens) (start, (tt, rest))

serve-of_session_example :
    (w' : World) × (serve tunnel_names (read_messages 3 (write_messages mixed_messages)) fresh_world
      ≡ completed w')
    × ((s : ℕ)
        → tunnels w' s
          ≡ tunnel_run tunnel_names
              (of_session s (map (λ d. seen d) mixed_messages))
              (tunnels fresh_world)
              s)
serve-of_session_example =
    serve-of_session tunnel_names mixed_messages 3 fresh_world fresh-IsOpen mixed-AllSendable
      mixed-AllTunnels (omega arith)

start_local-shared_test :
    (m : RelayData) × (rest : List Action) × ((start_local every_host tunnel_names client_talk 7).0
      ≡ writes_client no_auth ∷ (sends_request m ∷ (starts_read ∷ rest)))
    × (requests_of (start_read 7 ((1 ∷ []) ∷ []))
        ≡ chunk_messages 7 ((1 ∷ []) ∷ []) ++ for_command 7 stop_tcp ∷ [])
    × (map (λ d. seen d) (m ∷ chunk_messages 7 ((1 ∷ []) ∷ []))
        ≡ of_session 7 (map (λ d. seen d) mixed_messages))
    × ((w' : World) × (serve tunnel_names
            (read_messages 3 (write_messages mixed_messages))
            fresh_world
          ≡ completed w')
        × (tunnels w' 7 ≡ some (filled tunnel_names client_request ((1 ∷ []) ∷ []))))
start_local-shared_test =
    start_local-shared every_host tunnel_names client_talk 7 (5 ∷ (1 ∷ (0 ∷ []))) client_request
      ((1 ∷ []) ∷ []) mixed_messages 3 fresh_world refl refl refl refl
      (omega (arith, length-connect)) refl (omega arith) (omega arith, tt)
      (ap (of_session 7) mixed_seens) mixed-AllSendable mixed-AllTunnels fresh-IsOpen (omega arith)

-- A local server with one connection, of session 1.
abbrev pub answered_world : World
answered_world =
    add_local_raw_tcp (new_manager local_server).next (make_idle raw_tcp (new_manager local_server))

pub answered-IsOpen : IsOpen answered_world
unfolding add_local_raw_tcp make_idle new_manager insert lookup
answered-IsOpen =
    IsOpen-one (new_manager local_server) answered_world 1 (λ x. inl refl) (omega arith)
      (λ x n. if_false (some (some 0)) none n) (λ x q n l o. absurd (omega arith))
      (inr (0, refl, (omega arith, refl), new_relay-Unstopped raw_tcp))

abbrev pub answer_messages : List RelayData
answer_messages = chunk_message 9 (9 ∷ []) ∷ chunk_messages 1 ((1 ∷ []) ∷ [])

pub answer_seens :
    map (λ d. seen d) answer_messages ≡ data_seen 9 (9 ∷ []) ∷ data_seens 1 ((1 ∷ []) ∷ [])
answer_seens =
    ap₂ (λ x xs. x ∷ xs) (seen_chunk 9 (9 ∷ []) (omega arith))
      (seen-chunk_messages 1 ((1 ∷ []) ∷ []) (omega arith, tt))

pub answer-AllSendable : AllSendable answer_messages
answer-AllSendable =
    let (m, n) = chunk_message-IsMessage 9 (9 ∷ []) (omega arith) (omega arith) in
    (m, n, chunk_messages-AllSendable 1 ((1 ∷ []) ∷ []) (omega arith) (omega arith, tt))

pub unnamed_tunnel :
    tunnels answered_world 1 ≡ some (record { host = []; service = []; passed = [] })
unfolding add_local_raw_tcp make_idle new_manager new_relay insert lookup
unnamed_tunnel = refl

start_read-serve_example :
    (stop : RelayData) × (w' : World) × (w'' : World) × (requests_of (start_read 1 ((1 ∷ []) ∷ []))
      ≡ chunk_messages 1 ((1 ∷ []) ∷ []) ++ stop ∷ [])
    × (serve tunnel_names (read_messages 3 (write_messages answer_messages)) answered_world
        ≡ completed w')
    × (tunnels w' 1 ≡ some (record { host = []; service = []; passed = (1 ∷ []) ∷ [] }))
    × (serve tunnel_names
          (read_messages 3 (write_messages (answer_messages ++ stop ∷ [])))
          answered_world
        ≡ completed w'')
    × (tunnels w'' 1 ≡ none)
    × ((x : ℕ) → (1 == x) ≡ false → tunnels w'' x ≡ tunnels w' x)
start_read-serve_example =
    start_read-serve tunnel_names 1 ((1 ∷ []) ∷ []) answer_messages 3 answered_world
      (record { host = []; service = []; passed = [] }) (omega arith) (omega arith, tt)
      (ap (of_session 1) answer_seens
        ∙ sym (seen-chunk_messages 1 ((1 ∷ []) ∷ []) (omega arith, tt)))
      answer-AllSendable (subst (AllTunnels tunnel_names) (sym answer_seens) (tt, (tt, tt)))
      (omega arith) answered-IsOpen unnamed_tunnel
