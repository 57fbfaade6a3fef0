-- ===== src/Tunnel/Client.antt =====
-- A client's connection from one end to the other: src/raw_tcp.cpp makes messages of it, src/ssl_relay.cpp
-- carries them, and src/relay_manager.cpp of the remote server handles them.
use ssl_socks.Address.{AddressText, port_number}
use ssl_socks.Address.Grammar.{Request, IsRequest, encode, host_text, port_bytes}
use ssl_socks.Base.{
  ℕ, ◌^◌, ◌≤◌, ◌<◌, ◌≡◌, sym, ap, ◌∙◌, ap₂, subst, Bool, true, false, Option, some, List, [], ◌∷◌,
  ◌++◌, map, arith, ◌==◌, if◌then◌else◌, ==_refl, if_true, if_false, length, Bytes,
}
use ssl_socks.Data.{stop_tcp, RelayData, for_command}
use ssl_socks.Data.Wire.{seen, read_messages, write_messages, AllSendable}
use ssl_socks.Local.{
  ClientIo, Action, writes_client, sends_request, starts_read, no_auth, start_message, route,
  start_local, start_read,
}
use ssl_socks.Local.Start.{connect, least_encode, greeted_routes, route-start}
use ssl_socks.Local.Stream.{requests_of, AllFit}
use ssl_socks.Manager.World.{World, completed}
use ssl_socks.Tunnel.{Tunnel, Tunnels, open_tunnel, tunnel_step, tunnel_run, tunnels, serve}
use ssl_socks.Tunnel.Ends.{AllTunnels, serve-write_messages}
use ssl_socks.Tunnel.Messages.{
  chunk_messages, start_read-chunk_messages, length-chunk_messages, data_seens, seen-chunk_messages,
  chunk_messages-AllSendable, data_seens-AllTunnels, run_self, run_other, start_message-IsMessage,
  start_seen, seen-start_message, start_seen-TunnelsAs,
}
use ssl_socks.Tunnel.Open.{IsOpen}

-- The tunnel of a request that has passed these chunks.
abbrev pub filled : AddressText → Request → List Bytes → Tunnel
filled t r chunks = record {
  host = host_text t r;
  service = t.int_text (port_number (port_bytes r) 0);
  passed = chunks;
}

-- The specification of a start and of the data behind it.
pub run_client :
    (t : AddressText) (s : ℕ) (r : Request) (chunks : List Bytes) (v : Tunnels)
    → IsRequest r
    → (tunnel_run t (start_seen s r ∷ data_seens s chunks) v s ≡ some (filled t r chunks))
      × ((x : ℕ) → (s == x) ≡ false → tunnel_run t (start_seen s r ∷ data_seens s chunks) v x ≡ v x)
run_client t s r chunks v h =
    let opened_tunnel = filled t r [] in
    let v' = tunnel_step t (start_seen s r) v in
    let is_open : (x : ℕ) → v' x ≡ (if s == x then some opened_tunnel else v x) =
      λ x. ap (λ a. open_tunnel s a v x) (start_seen-TunnelsAs t r h) in
    (
      run_self t s chunks v' opened_tunnel
          (is_open s ∙ if_true (some opened_tunnel) (v s) (==_refl s)),
      λ x n. run_other t s chunks v' x n ∙ is_open x ∙ if_false (some opened_tunnel) (v x) n,
    )

module _ (blocked : Bytes → Option Bool) (t : AddressText) (io : ClientIo) (s : ℕ) (g : Bytes)
    (r : Request) (chunks : List Bytes) (a : io.greeting ≡ some g) (b : io.replied ≡ some 2)
    (c : io.command ≡ some (connect r)) (h : IsRequest r) (l : length (connect r) ≤ 512)
    (y : blocked (host_text t r) ≡ some true) (fits : s < 2 ^ 32) (f : AllFit chunks) where
  -- What the start of a client's connection does, and what its messages are.
  pub start_local-acts :
      (m : RelayData) × (rest : List Action) × ((start_local blocked t io s).0
        ≡ writes_client no_auth ∷ (sends_request m ∷ (starts_read ∷ rest)))
      × AllSendable (m ∷ chunk_messages s chunks)
      × (map (λ d. seen d) (m ∷ chunk_messages s chunks) ≡ start_seen s r ∷ data_seens s chunks)
  start_local-acts =
      let (behind, does) = greeted_routes blocked t io s g r a b c h l in
      let (rest, acts) = route-start io s (encode r ++ behind) (length (encode r)) in
      let m = start_message s (encode r ++ behind) (length (encode r)) in
      let (good, named) = start_message-IsMessage s r behind fits (omega arith) in
      (
        m,
        rest,
        ap (λ p. p.0) does
            ∙ ap
                (λ k.
                  writes_client no_auth ∷ (route io s (encode r ++ behind) (length (encode r)) k).0)
                y
            ∙ ap (λ xs. writes_client no_auth ∷ xs) acts,
        (good, named, chunk_messages-AllSendable s chunks fits f),
        ap₂ (λ x xs. x ∷ xs) (seen-start_message s r behind (omega arith))
            (seen-chunk_messages s chunks f),
      )

pub client_seens-AllTunnels :
    (t : AddressText) (s : ℕ) (r : Request) (chunks : List Bytes)
    → IsRequest r
    → AllTunnels t (start_seen s r ∷ data_seens s chunks)
client_seens-AllTunnels t s r chunks h = (
  (
    least_two,
    (host_text t r, t.int_text (port_number (port_bytes r) 0), start_seen-TunnelsAs t r h),
  ),
  data_seens-AllTunnels t s chunks,
)
  where
    least_two : 2 ≤ length (encode r)
    least_two = omega (arith, least_encode r h)

-- A client sends a greeting, is answered, and sends the command to connect to a blocked host, within
-- 512 bytes, and then data, in reads of at most 4096 bytes. What its relay of session `s` hands to
-- the TLS relay is a start and the reads, up to the stop at the end of the connection. On a remote
-- server in which each session has a running relay of its own, that reads them from the stream, the
-- session is then a tunnel to the host and port that the client named, through which exactly these
-- reads have passed, in order, and every other session is as it was.
pub start_local-serve :
    (blocked : Bytes → Option Bool) (t : AddressText) (io : ClientIo) (s : ℕ) (g : Bytes)
    (r : Request) (chunks : List Bytes) (n : ℕ) (w : World)
    → io.greeting ≡ some g
    → io.replied ≡ some 2
    → io.command ≡ some (connect r)
    → IsRequest r
    → length (connect r) ≤ 512
    → blocked (host_text t r) ≡ some true
    → s < 2 ^ 32
    → AllFit chunks
    → IsOpen w
    → length chunks < n
    → (m : RelayData) × (rest : List Action) × ((start_local blocked t io s).0
        ≡ writes_client no_auth ∷ (sends_request m ∷ (starts_read ∷ rest)))
      × (requests_of (start_read s chunks) ≡ chunk_messages s chunks ++ for_command s stop_tcp ∷ [])
      × ((w' : World) × (serve t (read_messages n (write_messages (m ∷ chunk_messages s chunks))) w
            ≡ completed w')
          × (tunnels w' s ≡ some (filled t r chunks))
          × ((x : ℕ) → (s == x) ≡ false → tunnels w' x ≡ tunnels w x))
start_local-serve blocked t io s g r chunks n w a b c h l y fits f o e =
    let (m, rest, acts, good, sees) =
      start_local-acts blocked t io s g r chunks a b c h l y fits f in
    let (w', done, opened_still, spec) =
      serve-write_messages t (m ∷ chunk_messages s chunks) n w o good
        (subst (AllTunnels t) (sym sees) (client_seens-AllTunnels t s r chunks h))
        (omega (arith, length-chunk_messages s chunks)) in
    let is : tunnels w' ≡ tunnel_run t (start_seen s r ∷ data_seens s chunks) (tunnels w) =
      spec ∙ ap (λ ms. tunnel_run t ms (tunnels w)) sees in
    let (here, others) = run_client t s r chunks (tunnels w) h in
    (
      m,
      rest,
      acts,
      start_read-chunk_messages s chunks,
      (w', done, ap (λ v. v s) is ∙ here, λ x q. ap (λ v. v x) is ∙ others x q),
    )
