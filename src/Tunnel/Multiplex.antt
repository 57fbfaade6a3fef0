-- ===== src/Tunnel/Multiplex.antt =====
-- Sessions that share one TLS stream, src/relay_manager.cpp and src/ssl_relay.cpp: their messages come
-- interleaved, in any way.
use ssl_socks.Address.{AddressText, AddressResult, parsed, refused, parse_address}
use ssl_socks.Base.{
  ℕ, ◌≤◌, ◌≡◌, refl, sym, ap, ◌∙◌, ap₂, inl, inr, true, false, Option, none, some, List, [], ◌∷◌,
  map, ◌==◌, if◌then◌else◌, ==_iff, Bool-cases, if_true, if_false, length,
}
use ssl_socks.Data.{Command, stop_tcp, start_tcp, data_udp, data_tcp, stop_udp, unknown, RelayData}
use ssl_socks.Data.Wire.{Seen, seen, read_messages, write_messages, AllSendable}
use ssl_socks.Manager.World.{World, completed}
use ssl_socks.Tunnel.{
  Tunnel, Tunnels, open_tunnel, pass, tunnel_step_as, tunnel_step, tunnel_run, tunnels, serve,
}
use ssl_socks.Tunnel.Ends.{AllTunnels, serve-write_messages}
use ssl_socks.Tunnel.Open.{IsOpen}
use mathlib.Core.Option

-- The messages of one session, in their order.
abbrev pub of_session : ℕ → List Seen → List Seen
of_session s [] = []
of_session s (m ∷ ms) = let rest = of_session s ms in if m.session == s then m ∷ rest else rest

of_session_self :
    (s : ℕ) (m : Seen) (ms : List Seen)
    → (m.session == s) ≡ true
    → of_session s (m ∷ ms) ≡ m ∷ of_session s ms
of_session_self s m ms e = if_true (m ∷ of_session s ms) (of_session s ms) e

of_session_other :
    (s : ℕ) (m : Seen) (ms : List Seen)
    → (m.session == s) ≡ false
    → of_session s (m ∷ ms) ≡ of_session s ms
of_session_other s m ms e = if_false (m ∷ of_session s ms) (of_session s ms) e

module _ (t : AddressText) (s : ℕ) where
  -- A message of another session.
  step_other :
      (c : Command) (m : Seen) (v : Tunnels)
      → (m.session == s) ≡ false
      → tunnel_step_as c t m v s ≡ v s
  step_other start_tcp m v n = by_result (parse_address t m.payload (length m.payload))
    where
      by_result : (r : AddressResult) → open_tunnel m.session r v s ≡ v s
      by_result (refused e) = refl
      by_result (parsed host service) =
          if_false (some (record { host = host; service = service; passed = [] })) (v s) n
  step_other data_tcp m v n = if_false (Option.map (pass m.payload) (v m.session)) (v s) n
  step_other stop_tcp m v n = if_false none (v s) n
  step_other data_udp m v n = refl
  step_other stop_udp m v n = refl
  step_other (unknown k) m v n = refl

  -- A message of the session, where its tunnel is the same.
  step_self :
      (c : Command) (m : Seen) (u v : Tunnels)
      → m.session ≡ s
      → u s ≡ v s
      → tunnel_step_as c t m u s ≡ tunnel_step_as c t m v s
  step_self start_tcp m u v k e = by_result (parse_address t m.payload (length m.payload))
    where
      by_result : (r : AddressResult) → open_tunnel m.session r u s ≡ open_tunnel m.session r v s
      by_result (refused r) = e
      by_result (parsed host service) =
          ap
            (λ (x : Option Tunnel).
              if m.session == s
              then some (record { host = host; service = service; passed = [] })
              else x)
            e
  step_self data_tcp m u v k e =
      ap₂ (λ (x y : Option Tunnel). if m.session == s then Option.map (pass m.payload) x else y)
        (ap u k ∙ e ∙ sym (ap v k)) e
  step_self stop_tcp m u v k e = ap (λ (x : Option Tunnel). if m.session == s then none else x) e
  step_self data_udp m u v k e = e
  step_self stop_udp m u v k e = e
  step_self (unknown n) m u v k e = e

  -- A session's tunnel is what its own messages make of it.
  pub tunnel_run-of_session :
      (ms : List Seen) (u v : Tunnels)
      → u s ≡ v s
      → tunnel_run t ms u s ≡ tunnel_run t (of_session s ms) v s
  tunnel_run-of_session [] u v e = e
  tunnel_run-of_session (m ∷ ms) u v e = elim (Bool-cases (m.session == s)) [
    | inl same ↦
        tunnel_run-of_session ms (tunnel_step t m u) (tunnel_step t m v)
          (step_self m.cmd m u v ((==_iff m.session s).0 same) e)
        ∙ sym (ap (λ l. tunnel_run t l v s) (of_session_self s m ms same))
    | inr other ↦
        tunnel_run-of_session ms (tunnel_step t m u) v (step_other m.cmd m u other ∙ e)
        ∙ sym (ap (λ l. tunnel_run t l v s) (of_session_other s m ms other))
  ]

-- Messages of TCP sessions, each of them sendable and each start naming a host and a service in full,
-- are written to one stream and handled at its other end, given at least as many rounds, where each
-- session has a running relay of its own. The tunnel of every session is then the one that its own
-- messages make of the tunnel that it had, whatever messages of other sessions come between them.
pub serve-of_session :
    (t : AddressText) (ds : List RelayData) (n : ℕ) (w : World)
    → IsOpen w
    → AllSendable ds
    → AllTunnels t (map (λ d. seen d) ds)
    → length ds ≤ n
    → (w' : World) × (serve t (read_messages n (write_messages ds)) w ≡ completed w')
      × ((s : ℕ) → tunnels w' s ≡ tunnel_run t (of_session s (map (λ d. seen d) ds)) (tunnels w) s)
serve-of_session t ds n w o a k l =
    let (w', done, still, spec) = serve-write_messages t ds n w o a k l in
    (
      w',
      done,
      λ s.
          ap (λ f. f s) spec
          ∙ tunnel_run-of_session t s (map (λ d. seen d) ds) (tunnels w) (tunnels w) refl,
    )
