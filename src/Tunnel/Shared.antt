-- ===== src/Tunnel/Shared.antt =====
-- A client's connection on a TLS stream that carries other sessions too: src/raw_tcp.cpp,
-- src/ssl_relay.cpp and src/relay_manager.cpp.
use ssl_socks.Address.{AddressText}
use ssl_socks.Address.Grammar.{Request, IsRequest, host_text}
use ssl_socks.Base.{
  ℕ, ◌^◌, ◌≤◌, ◌<◌, ◌≡◌, refl, sym, ap, ◌∙◌, Bool, true, Option, some, List, [], ◌∷◌, ◌++◌, map,
  length, Bytes,
}
use ssl_socks.Data.{stop_tcp, RelayData, for_command}
use ssl_socks.Data.Wire.{seen, read_messages, write_messages, AllSendable}
use ssl_socks.Local.{
  ClientIo, Action, writes_client, sends_request, starts_read, no_auth, start_local, start_read,
}
use ssl_socks.Local.Start.{connect}
use ssl_socks.Local.Stream.{requests_of, AllFit}
use ssl_socks.Manager.World.{World, completed}
use ssl_socks.Tunnel.{tunnel_run, tunnels, serve}
use ssl_socks.Tunnel.Client.{filled, run_client, start_local-acts}
use ssl_socks.Tunnel.Ends.{AllTunnels, serve-write_messages}
use ssl_socks.Tunnel.Messages.{chunk_messages, start_read-chunk_messages, data_seens, start_seen}
use ssl_socks.Tunnel.Multiplex.{of_session, tunnel_run-of_session}
use ssl_socks.Tunnel.Open.{IsOpen}

-- A client sends a greeting, is answered, and sends the command to connect to a blocked host, within
-- 512 bytes, and then data, in reads of at most 4096 bytes. Its relay of session `s` hands a start and
-- the reads to the TLS relay, up to the stop at the end of the connection. Where the messages `ds` of a
-- stream, each of them sendable, of a TCP session, and each start naming a host and a service in full,
-- are for this session those, a remote server in which each session has a running relay of its own
-- handles all of them, and the session is then a tunnel to the host and port that the client named,
-- through which exactly these reads have passed, in order, whatever messages of other sessions come
-- between them.
pub start_local-shared :
    (blocked : Bytes → Option Bool) (t : AddressText) (io : ClientIo) (s : ℕ) (g : Bytes)
    (r : Request) (chunks : List Bytes) (ds : List RelayData) (n : ℕ) (w : World)
    → io.greeting ≡ some g
    → io.replied ≡ some 2
    → io.command ≡ some (connect r)
    → IsRequest r
    → length (connect r) ≤ 512
    → blocked (host_text t r) ≡ some true
    → s < 2 ^ 32
    → AllFit chunks
    → of_session s (map (λ d. seen d) ds) ≡ start_seen s r ∷ data_seens s chunks
    → AllSendable ds
    → AllTunnels t (map (λ d. seen d) ds)
    → IsOpen w
    → length ds ≤ n
    → (m : RelayData) × (rest : List Action) × ((start_local blocked t io s).0
        ≡ writes_client no_auth ∷ (sends_request m ∷ (starts_read ∷ rest)))
      × (requests_of (start_read s chunks) ≡ chunk_messages s chunks ++ for_command s stop_tcp ∷ [])
      × (map (λ d. seen d) (m ∷ chunk_messages s chunks) ≡ of_session s (map (λ d. seen d) ds))
      × ((w' : World) × (serve t (read_messages n (write_messages ds)) w ≡ completed w')
          × (tunnels w' s ≡ some (filled t r chunks)))
start_local-shared blocked t io s g r chunks ds n w a b c h l y fits f e k q o z =
    let (m, rest, acts, good, sees) =
      start_local-acts blocked t io s g r chunks a b c h l y fits f in
    let (w', done, still, spec) = serve-write_messages t ds n w o k q z in
    (
      m,
      rest,
      acts,
      start_read-chunk_messages s chunks,
      sees ∙ sym e,
      (
        w',
        done,
        ap (λ v. v s) spec
            ∙ tunnel_run-of_session t s (map (λ d. seen d) ds) (tunnels w) (tunnels w) refl
            ∙ ap (λ ms. tunnel_run t ms (tunnels w) s) e
            ∙ (run_client t s r chunks (tunnels w) h).0,
      ),
    )
