-- ===== src/Tunnel/Answers.antt =====
-- What a connection sends behind its start, from one end to the other: src/raw_tcp.cpp reads it and makes
-- messages of it, src/ssl_relay.cpp carries them among those of other sessions, and
-- src/relay_manager.cpp hands them to the session's relay. It is the same for a client's data and for the answers of a
-- host.
use ssl_socks.Address.{AddressText}
use ssl_socks.Base.{
  ℕ, ◌^◌, ◌<◌, ◌≡◌, refl, sym, ap, ◌∙◌, ap₂, subst, false, none, some, List, [], ◌∷◌, ◌++◌, map,
  arith, ◌==◌, ==_refl, if_true, if_false, length, length-append, Bytes,
}
use ssl_socks.Data.{stop_tcp, RelayData, for_command}
use ssl_socks.Data.Wire.{Seen, seen, read_messages, write_messages, AllSendable}
use ssl_socks.Local.{start_read}
use ssl_socks.Local.Stream.{requests_of, AllFit, stop-IsMessage}
use ssl_socks.Manager.World.{World, completed}
use ssl_socks.Relay.History.{IsSendable}
use ssl_socks.Tunnel.{Tunnel, Tunnels, tunnel_step, tunnel_run, tunnels, serve}
use ssl_socks.Tunnel.Ends.{TunnelsAs, AllTunnels, serve-write_messages}
use ssl_socks.Tunnel.Messages.{
  chunk_messages, start_read-chunk_messages, seen-chunk_messages, run_self,
}
use ssl_socks.Tunnel.Multiplex.{of_session, tunnel_run-of_session}
use ssl_socks.Tunnel.Open.{IsOpen}

abbrev stop_seen : ℕ → Seen
stop_seen s = record { session = s; cmd = stop_tcp; payload = [] }

seen-stop : (s : ℕ) → seen (for_command s stop_tcp) ≡ stop_seen s
unfolding for_command
seen-stop s = refl

-- A message behind others.
tunnel_run-append :
    (t : AddressText) (ms : List Seen) (m : Seen) (v : Tunnels)
    → tunnel_run t (ms ++ m ∷ []) v ≡ tunnel_step t m (tunnel_run t ms v)
tunnel_run-append t [] m v = refl
tunnel_run-append t (x ∷ ms) m v = tunnel_run-append t ms m (tunnel_step t x v)

seens-append :
    (ds : List RelayData) (d : RelayData)
    → map (λ d. seen d) (ds ++ d ∷ []) ≡ map (λ d. seen d) ds ++ seen d ∷ []
seens-append [] d = refl
seens-append (x ∷ ds) d = ap (◌∷◌ (seen x)) (seens-append ds d)

AllSendable-snoc :
    (ds : List RelayData) (d : RelayData)
    → AllSendable ds
    → IsSendable d
    → AllSendable (ds ++ d ∷ [])
AllSendable-snoc [] d h k = (k.message, k.named, tt)
AllSendable-snoc (x ∷ ds) d h k = (h.0, h.1, AllSendable-snoc ds d h.2 k)

AllTunnels-append :
    (t : AddressText) (ms : List Seen) (m : Seen)
    → AllTunnels t ms
    → TunnelsAs m.cmd t m.payload
    → AllTunnels t (ms ++ m ∷ [])
AllTunnels-append t [] m h k = (k, tt)
AllTunnels-append t (x ∷ ms) m h k = (h.0, AllTunnels-append t ms m h.1 k)

-- The relay of session `s`, below 2 ^ 32, reads `chunks`, of at most 4096 bytes each, and makes
-- messages of them and a stop. The messages come in their order among those of other sessions, `ds` in
-- all, each of them sendable, of a TCP session, and each start naming a host and a service in full;
-- the stop comes behind them. The other end, in which each session has a running relay of its own,
-- that of `s` for a tunnel, given more rounds than `ds` has messages, has after `ds` passed just these
-- chunks, in order, through the tunnel, and after the stop the tunnel is closed, and every other
-- session is as after `ds`.
pub start_read-serve :
    (t : AddressText) (s : ℕ) (chunks : List Bytes) (ds : List RelayData) (n : ℕ) (w : World)
    (u : Tunnel)
    → s < 2 ^ 32
    → AllFit chunks
    → of_session s (map (λ d. seen d) ds) ≡ map (λ d. seen d) (chunk_messages s chunks)
    → AllSendable ds
    → AllTunnels t (map (λ d. seen d) ds)
    → length ds < n
    → IsOpen w
    → tunnels w s ≡ some u
    → (stop : RelayData) × (w' : World) × (w'' : World) × (requests_of (start_read s chunks)
        ≡ chunk_messages s chunks ++ stop ∷ [])
      × (serve t (read_messages n (write_messages ds)) w ≡ completed w')
      × (tunnels w' s ≡ some (record u { passed = u.passed ++ chunks }))
      × (serve t (read_messages n (write_messages (ds ++ stop ∷ []))) w ≡ completed w'')
      × (tunnels w'' s ≡ none)
      × ((x : ℕ) → (s == x) ≡ false → tunnels w'' x ≡ tunnels w' x)
start_read-serve t s chunks ds n w u l f e a k r o h =
    let stop = for_command s stop_tcp in
    let (message, named) = stop-IsMessage s l in
    let ms = map (λ d. seen d) ds in
    let (w', done, still, spec) = serve-write_messages t ds n w o a k (omega (arith, r)) in
    let (w'', done', still', spec') =
      serve-write_messages t (ds ++ stop ∷ []) n w o
        (AllSendable-snoc ds stop a (record { message = message; named = named }))
        (subst (AllTunnels t) (sym (seens-append ds stop)) (
          AllTunnels-append t ms (seen stop) k
            (subst (λ (m : Seen). TunnelsAs m.cmd t m.payload) (sym (seen-stop s)) tt)))
        (omega (arith, length-append ds (stop ∷ []), r)) in
    let after : tunnels w'' ≡ tunnel_step t (stop_seen s) (tunnels w') =
      spec'
      ∙ ap (λ xs. tunnel_run t xs (tunnels w)) (seens-append ds stop)
      ∙ tunnel_run-append t ms (seen stop) (tunnels w)
      ∙ ap₂ (λ m v. tunnel_step t m v) (seen-stop s) (sym spec) in
    (
      stop,
      w',
      w'',
      start_read-chunk_messages s chunks,
      done,
      ap (λ v. v s) spec
          ∙ tunnel_run-of_session t s ms (tunnels w) (tunnels w) refl
          ∙ ap (λ l. tunnel_run t l (tunnels w) s) (e ∙ seen-chunk_messages s chunks f)
          ∙ run_self t s chunks (tunnels w) u h,
      done',
      ap (λ v. v s) after ∙ if_true none (tunnels w' s) (==_refl s),
      λ x q. ap (λ v. v x) after ∙ if_false none (tunnels w' x) q,
    )
