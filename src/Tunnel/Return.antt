-- ===== src/Tunnel/Return.antt =====
-- What a host answers, from its socket to the client's: src/raw_tcp.cpp, src/ssl_relay.cpp,
-- src/relay_manager.cpp and src/base_relay.cpp together.
use ssl_socks.Address.{AddressText}
use ssl_socks.Base.{
  ℕ, ◌≤◌, ◌≡◌, refl, sym, ap, ◌∙◌, subst, some, List, [], ◌∷◌, ◌++◌, map, length, Bytes, nat_eq,
  lookup,
}
use ssl_socks.Data.{stop_tcp, RelayData, for_command, data_buffer}
use ssl_socks.Data.Wire.{seen, read_messages, write_messages, AllSendable}
use ssl_socks.Local.{start_read}
use ssl_socks.Local.Stream.{requests_of, AllFit}
use ssl_socks.Manager.Run.Bounded.{IsBounded}
use ssl_socks.Manager.Run.Bounded.Calls.{new_manager-IsBounded}
use ssl_socks.Manager.Run.Kept.{Ensures}
use ssl_socks.Manager.System.{SystemEvent, system_run, AllSystemEventsFit, system_run-IsBounded}
use ssl_socks.Manager.World.{World, completed, new_manager}
use ssl_socks.Relay.{ServerType}
use ssl_socks.Relay.Wakeup.{IsQuiet}
use ssl_socks.Tunnel.{Tunnel, tunnel_run, tunnels}
use ssl_socks.Tunnel.Ends.{AllTunnels}
use ssl_socks.Tunnel.Interleaved.{arrived}
use ssl_socks.Tunnel.Interleaved.Wire.{wire_passed}
use ssl_socks.Tunnel.Messages.{
  chunk_messages, start_read-chunk_messages, seen-chunk_messages, run_self,
}
use ssl_socks.Tunnel.Multiplex.{of_session, tunnel_run-of_session}
use ssl_socks.Tunnel.Open.{IsOpen}
use ssl_socks.Tunnel.Whole.{messages_in, AllFaultless, stream_serves, same_some_tunnel}

-- The relay of session `s` reads `chunks`, of at most 4096 bytes each. The messages that it makes of
-- them stand on a stream, `ds` in all, among messages of other sessions, each sendable, of a TCP
-- session, and each start naming a host and a service in full. At the other end a manager that has
-- come to a state in which each session has a running relay of its own, and that of `s` was handed the
-- payloads of `u`, reads the stream, given at least as many rounds, and while it handles what it
-- reads, its relays run their handlers, end their writes and complete their starts, in any order. If
-- all of it completes, and at the end the session is registered with a relay that has nothing under
-- way, that relay has written what it was handed before, and then exactly `chunks`, in the same pieces
-- and order.
pub start_read-wire :
    (t : AddressText) (k : ServerType) (before : List SystemEvent) (w : World) (u : Tunnel) (s : ℕ)
    (chunks : List Bytes) (ds : List RelayData) (n : ℕ) (es : List SystemEvent) (w' : World) (p : ℕ)
    → AllSystemEventsFit before
    → system_run t before (new_manager k) ≡ completed w
    → IsOpen w
    → tunnels w s ≡ some u
    → AllFit chunks
    → of_session s (map (λ d. seen d) ds) ≡ map (λ d. seen d) (chunk_messages s chunks)
    → AllSendable ds
    → AllTunnels t (map (λ d. seen d) ds)
    → length ds ≤ n
    → AllFaultless es
    → messages_in es ≡ read_messages n (write_messages ds)
    → system_run t es w ≡ completed w'
    → lookup s w'.relays ≡ some (some p)
    → IsQuiet (w'.objects p).relay
    → (requests_of (start_read s chunks) ≡ chunk_messages s chunks ++ for_command s stop_tcp ∷ [])
      × (map (λ d. data_buffer d) (w'.objects p).relay.wire ≡ u.passed ++ chunks)
start_read-wire t k before w u s chunks ds n es w' p f e o h c m a q l x i g v j =
    let ms = map (λ d. seen d) ds in
    let (serves, fit, came) = stream_serves t ds n es a q l x i in
    let bounded : IsBounded w =
      subst (Ensures IsBounded) e
        (system_run-IsBounded t before (new_manager k) f (new_manager-IsBounded k)) in
    let spec : tunnel_run t (arrived es) (tunnels w) s
        ≡ some (record u { passed = u.passed ++ chunks }) =
      ap (λ xs. tunnel_run t xs (tunnels w) s) came
      ∙ tunnel_run-of_session t s ms (tunnels w) (tunnels w) refl
      ∙ ap (λ xs. tunnel_run t xs (tunnels w) s) (m ∙ seen-chunk_messages s chunks c)
      ∙ run_self t s chunks (tunnels w) u h in
    let out = wire_passed t es w w' s p o bounded serves fit g v j in
    (start_read-chunk_messages s chunks, ap (λ y. y.passed) (same_some_tunnel (sym out ∙ spec)))
