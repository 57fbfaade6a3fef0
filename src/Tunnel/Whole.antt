-- ===== src/Tunnel/Whole.antt =====
-- A client's connection from its request to the socket of the host: src/raw_tcp.cpp, src/ssl_relay.cpp,
-- src/relay_manager.cpp and src/base_relay.cpp together.
use ssl_socks.Address.{AddressText, port_number}
use ssl_socks.Address.Grammar.{Request, IsRequest, host_text, port_bytes}
use ssl_socks.Base.{
  ℕ, ◌^◌, ◌≤◌, ◌<◌, ◌≡◌, refl, sym, ap, ◌∙◌, subst, Bool, true, Option, none, some, List, [], ◌∷◌,
  ◌++◌, map, arith, length, Bytes, nat_eq, lookup,
}
use ssl_socks.Data.{stop_tcp, RelayData, for_command, data_buffer}
use ssl_socks.Data.Wire.{seen, read_messages, write_messages, AllSendable}
use ssl_socks.Data.Wire.Bounds.{AllMessages, write_messages-AllMessages}
use ssl_socks.Data.Wire.RoundTrip.{read_messages-write_messages}
use ssl_socks.Gfw.Lines.{written}
use ssl_socks.Local.{
  ClientIo, Action, writes_client, sends_request, starts_read, no_auth, start_local, start_read,
}
use ssl_socks.Local.Start.{connect}
use ssl_socks.Local.Stream.{requests_of, AllFit}
use ssl_socks.Manager.Run.{
  adds_request, adds_response, sends_udp, starts_manager, adds_local_tcp, sets_ssl, ticks_timer,
}
use ssl_socks.Manager.System.{SystemEvent, manages, relays_do, system_run, AllSystemEventsFit}
use ssl_socks.Manager.World.{World, completed, new_manager}
use ssl_socks.Relay.{
  remote_server, Event, calls_send, calls_add_peer, calls_del_peer, calls_stop, runs, sends, fails,
  opens, misses, ticks, traffic,
}
use ssl_socks.Relay.History.{EventFits}
use ssl_socks.Relay.Wakeup.{IsQuiet}
use ssl_socks.Tunnel.{Tunnel, tunnel_run}
use ssl_socks.Tunnel.Client.{filled, run_client, start_local-acts}
use ssl_socks.Tunnel.Ends.{AllTunnels}
use ssl_socks.Tunnel.Interleaved.{IsOwn, AllServe, arrived}
use ssl_socks.Tunnel.Interleaved.Wire.{system_run-wire}
use ssl_socks.Tunnel.Messages.{chunk_messages, start_read-chunk_messages, data_seens, start_seen}
use ssl_socks.Tunnel.Multiplex.{of_session, tunnel_run-of_session}

-- The messages from the other side among events.
abbrev pub messages_in : List SystemEvent → List RelayData
messages_in [] = []
messages_in (manages (adds_response d) ∷ es) = d ∷ messages_in es
messages_in (_ ∷ es) = messages_in es

-- Only messages come from outside, and the relays do only what they do where nothing fails.
abbrev pub IsFaultless : SystemEvent → Type 0
IsFaultless (manages (adds_response d)) = Unit {0}
IsFaultless (manages _) = ⊥
IsFaultless (relays_do p e) = IsOwn e

abbrev pub AllFaultless : List SystemEvent → Type 0
AllFaultless [] = Unit {0}
AllFaultless (e ∷ es) = IsFaultless e × AllFaultless es

seen-messages_in : (es : List SystemEvent) → map (λ d. seen d) (messages_in es) ≡ arrived es
seen-messages_in [] = refl
seen-messages_in (manages (adds_response d) ∷ es) = ap (◌∷◌ (seen d)) (seen-messages_in es)
seen-messages_in (manages (adds_request d) ∷ es) = seen-messages_in es
seen-messages_in (manages (sends_udp e d) ∷ es) = seen-messages_in es
seen-messages_in (manages starts_manager ∷ es) = seen-messages_in es
seen-messages_in (manages adds_local_tcp ∷ es) = seen-messages_in es
seen-messages_in (manages sets_ssl ∷ es) = seen-messages_in es
seen-messages_in (manages ticks_timer ∷ es) = seen-messages_in es
seen-messages_in (relays_do p e ∷ es) = seen-messages_in es

own-EventFits : (e : Event) → IsOwn e → EventFits e
own-EventFits runs h = tt
own-EventFits sends h = tt
own-EventFits opens h = tt
own-EventFits traffic h = tt
own-EventFits (calls_send b) h = absurd h
own-EventFits (calls_add_peer s e) h = tt
own-EventFits (calls_del_peer s) h = tt
own-EventFits calls_stop h = tt
own-EventFits fails h = tt
own-EventFits misses h = tt
own-EventFits ticks h = tt

-- Messages that fit, and of TCP sessions, are events as the two ends need them.
faultless_serves :
    (t : AddressText) (es : List SystemEvent)
    → AllFaultless es
    → AllMessages (messages_in es)
    → AllTunnels t (map (λ d. seen d) (messages_in es))
    → AllServe t es × AllSystemEventsFit es
faultless_serves t [] f m a = (tt, tt)
faultless_serves t (manages (adds_response d) ∷ es) f m a =
    let (serve_rest, fit_rest) = faultless_serves t es f.1 m.1 a.1 in
    (((omega (arith, m.0.fits, m.0.buffer), a.0), serve_rest), (m.0, fit_rest))
faultless_serves t (relays_do p e ∷ es) f m a =
    let (serve_rest, fit_rest) = faultless_serves t es f.1 m a in
    ((f.0, serve_rest), (own-EventFits e f.0, fit_rest))
faultless_serves t (manages (adds_request d) ∷ es) f m a = absurd f.0
faultless_serves t (manages (sends_udp e d) ∷ es) f m a = absurd f.0
faultless_serves t (manages starts_manager ∷ es) f m a = absurd f.0
faultless_serves t (manages adds_local_tcp ∷ es) f m a = absurd f.0
faultless_serves t (manages sets_ssl ∷ es) f m a = absurd f.0
faultless_serves t (manages ticks_timer ∷ es) f m a = absurd f.0

-- What is read from a stream of such messages serves, whatever the relays do meanwhile.
pub stream_serves :
    (t : AddressText) (ds : List RelayData) (n : ℕ) (es : List SystemEvent)
    → AllSendable ds
    → AllTunnels t (map (λ d. seen d) ds)
    → length ds ≤ n
    → AllFaultless es
    → messages_in es ≡ read_messages n (write_messages ds)
    → AllServe t es × AllSystemEventsFit es × (arrived es ≡ map (λ d. seen d) ds)
stream_serves t ds n es k q z x i =
    let came : map (λ d. seen d) (messages_in es) ≡ map (λ d. seen d) ds =
      ap (λ xs. map (λ d. seen d) xs) i ∙ read_messages-write_messages ds n k z in
    let (serves, fit) =
      faultless_serves t es x (subst AllMessages (sym i) (write_messages-AllMessages ds n k z))
        (subst (AllTunnels t) (sym came) q) in
    (serves, fit, sym (seen-messages_in es) ∙ came)

pub same_some_tunnel : {a b : Tunnel} → some a ≡ some b → a ≡ b
same_some_tunnel e = cc

-- A session whose messages are a start and data, on a stream that is read while the relays do what they do:
-- what its relay was made for, and what it has written.
pub client_wire :
    (t : AddressText) (s : ℕ) (r : Request) (chunks : List Bytes) (ds : List RelayData) (n : ℕ)
    (es : List SystemEvent) (w : World) (p : ℕ)
    → IsRequest r
    → of_session s (map (λ d. seen d) ds) ≡ start_seen s r ∷ data_seens s chunks
    → AllSendable ds
    → AllTunnels t (map (λ d. seen d) ds)
    → length ds ≤ n
    → AllFaultless es
    → messages_in es ≡ read_messages n (write_messages ds)
    → system_run t es (new_manager remote_server) ≡ completed w
    → lookup s w.relays ≡ some (some p)
    → IsQuiet (w.objects p).relay
    → ((w.objects p).host ≡ host_text t r)
      × ((w.objects p).service ≡ t.int_text (port_number (port_bytes r) 0))
      × (map (λ d. data_buffer d) (w.objects p).relay.wire ≡ chunks)
client_wire t s r chunks ds n es w p h e k q z x i u v j =
    let ms = map (λ d. seen d) ds in
    let (serves, fit, came) = stream_serves t ds n es k q z x i in
    let gone_out = system_run-wire t remote_server es w s p serves fit u v j in
    let spec : tunnel_run t (arrived es) (λ x. none) s ≡ some (filled t r chunks) =
      ap (λ xs. tunnel_run t xs (λ x. none) s) came
      ∙ tunnel_run-of_session t s ms (λ x. none) (λ x. none) refl
      ∙ ap (λ xs. tunnel_run t xs (λ x. none) s) e
      ∙ (run_client t s r chunks (λ x. none) h).0 in
    let same = same_some_tunnel (sym gone_out ∙ spec) in
    (ap (λ o. o.host) same, ap (λ o. o.service) same, ap (λ o. o.passed) same)

-- A client sends a greeting, is answered, and sends the command to connect to a blocked host, within
-- 512 bytes, and then data, in reads of at most 4096 bytes. Its relay of session `s`, below 2 ^ 32,
-- hands a start and the reads to the TLS relay, up to the stop at the end of the connection; where
-- they stand on a stream, `ds` in all, among messages of other sessions, each sendable, of a TCP
-- session, and each start naming a host and a service in full, a new remote server reads the stream,
-- given at least as many rounds. While it handles what it reads, its relays run their handlers, end
-- their writes and complete their starts, in any order. If all of it completes, and at the end the
-- session is registered with a relay that has nothing under way, that relay is for the host and port
-- that the client named, and has written exactly what was read from the client, in the same pieces and
-- order.
pub start_local-wire :
    (blocked : Bytes → Option Bool) (t : AddressText) (io : ClientIo) (s : ℕ) (g : Bytes)
    (r : Request) (chunks : List Bytes) (ds : List RelayData) (n : ℕ) (es : List SystemEvent)
    (w : World) (p : ℕ)
    → io.greeting ≡ some g
    → io.replied ≡ some 2
    → io.command ≡ some (connect r)
    → IsRequest r
    → length (connect r) ≤ 512
    → blocked (host_text t r) ≡ some true
    → s < 2 ^ 32
    → AllFit chunks
    → of_session s (map (λ d. seen d) ds) ≡ start_seen s r ∷ data_seens s chunks
    → AllSendable ds
    → AllTunnels t (map (λ d. seen d) ds)
    → length ds ≤ n
    → AllFaultless es
    → messages_in es ≡ read_messages n (write_messages ds)
    → system_run t es (new_manager remote_server) ≡ completed w
    → lookup s w.relays ≡ some (some p)
    → IsQuiet (w.objects p).relay
    → (m : RelayData) × (rest : List Action) × ((start_local blocked t io s).0
        ≡ writes_client no_auth ∷ (sends_request m ∷ (starts_read ∷ rest)))
      × (requests_of (start_read s chunks) ≡ chunk_messages s chunks ++ for_command s stop_tcp ∷ [])
      × (map (λ d. seen d) (m ∷ chunk_messages s chunks) ≡ of_session s (map (λ d. seen d) ds))
      × ((w.objects p).host ≡ host_text t r)
      × ((w.objects p).service ≡ t.int_text (port_number (port_bytes r) 0))
      × (map (λ d. data_buffer d) (w.objects p).relay.wire ≡ chunks)
start_local-wire blocked t io s g r chunks ds n es w p a b c h l y fits f e k q z x i u v j =
    let (m, rest, acts, good, sees) =
      start_local-acts blocked t io s g r chunks a b c h l y fits f in
    let (host, service, written) = client_wire t s r chunks ds n es w p h e k q z x i u v j in
    (m, rest, acts, start_read-chunk_messages s chunks, sees ∙ sym e, host, service, written)
