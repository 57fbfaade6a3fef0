-- ===== src/Tunnel/Ends.antt =====
-- The two ends of a TLS stream as tunnels: src/ssl_relay.cpp writes and reads the messages, and
-- src/relay_manager.cpp handles them in the order in which they come.
-- A message of a TCP session; a start names a host and a service in full.
use ssl_socks.Address.{AddressText, parsed, parse_address}
use ssl_socks.Address.Grammar.{parse_address-take}
use ssl_socks.Base.{
  ℕ, zero, suc, ◌≤◌, min, ◌≡◌, refl, sym, ap, ◌∙◌, subst, fun_ext, List, [], ◌∷◌, map, arith,
  length, length-take, Bytes,
}
use ssl_socks.Data.{
  Command, stop_tcp, start_tcp, data_udp, data_tcp, stop_udp, unknown, RelayData, header_size,
  data_buffer,
}
use ssl_socks.Data.Wire.{
  ReadResult, ok, err, read_message, Seen, seen, read_messages, write_messages, AllSendable,
}
use ssl_socks.Data.Wire.RoundTrip.{read_messages-write_messages}
use ssl_socks.Data.Wire.Safety.{read_message-IsSafe}
use ssl_socks.Manager.Response.{and_then, add_response}
use ssl_socks.Manager.World.{World, completed}
use ssl_socks.Relay.{opened}
use ssl_socks.Tunnel.{tunnel_run, tunnels, serve}
use ssl_socks.Tunnel.Open.{IsOpen}
use ssl_socks.Tunnel.Refine.{Refines, data_tcp-Refines, stop_tcp-Refines}
use ssl_socks.Tunnel.Starting.{start_tcp-Refines}

abbrev pub TunnelsAs : Command → AddressText → Bytes → Type 0
TunnelsAs start_tcp t payload =
    (2 ≤ length payload)
    × ((host : Bytes) × (service : Bytes) × (parse_address t payload (length payload)
          ≡ parsed host service))
TunnelsAs data_tcp t payload = Unit {0}
TunnelsAs stop_tcp t payload = Unit {0}
TunnelsAs _ t payload = ⊥

abbrev pub AllTunnels : AddressText → List Seen → Type 0
AllTunnels t [] = Unit {0}
AllTunnels t (m ∷ ms) = TunnelsAs m.cmd t m.payload × AllTunnels t ms

abbrev pub AllBuffered : List RelayData → Type 0
AllBuffered [] = Unit {0}
AllBuffered (d ∷ ds) = (d.len ≤ length d.bytes) × AllBuffered ds

module _ (t : AddressText) where
  pub step-Refines :
      (d : RelayData) (w : World) (c : Command)
      → d.cmd ≡ c
      → IsOpen w
      → d.len ≤ length d.bytes
      → TunnelsAs c t (data_buffer d)
      → Refines t d w
  step-Refines d w start_tcp e h f k =
      let full : length (data_buffer d) ≡ d.len = omega (arith, f, length-take d.len d.bytes) in
      let two : 2 ≤ d.len = omega (arith, full, k.0) in
      start_tcp-Refines t d w h k.1.0 k.1.1 e two f (
        sym (parse_address-take t d.bytes d.len two)
        ∙ sym (ap (parse_address t (data_buffer d)) full)
        ∙ k.1.2)
  step-Refines d w data_tcp e h f k = data_tcp-Refines t d w h e
  step-Refines d w stop_tcp e h f k = stop_tcp-Refines t d w h e
  step-Refines d w data_udp e h f k = absurd k
  step-Refines d w stop_udp e h f k = absurd k
  step-Refines d w (unknown n) e h f k = absurd k

  serve_completed :
      (d : RelayData) (ds : List RelayData) (w w' : World)
      → add_response t d w ≡ completed w'
      → serve t (d ∷ ds) w ≡ serve t ds w'
  unfolding serve
  serve_completed d ds w w' e = ap (λ o. and_then o (serve t ds)) e

  -- Handling a sequence of messages of TCP sessions, whose starts name a host and a service and
  -- whose data lie in their buffers, in a state where each session has a running relay of its own,
  -- completes in such a state, and the hosts, services and payloads of all sessions are those that
  -- the specification gives.
  pub serve-tunnel_run :
      (ds : List RelayData) (w : World)
      → IsOpen w
      → AllBuffered ds
      → AllTunnels t (map (λ d. seen d) ds)
      → (w' : World) × (serve t ds w ≡ completed w')
        × IsOpen w'
        × (tunnels w' ≡ tunnel_run t (map (λ d. seen d) ds) (tunnels w))
  unfolding serve
  serve-tunnel_run [] w h b a = (w, refl, h, refl)
  serve-tunnel_run (d ∷ ds) w h b a =
      let (v, done, still, same) = step-Refines d w d.cmd refl h b.0 a.0 in
      let (w', rest, opened, spec) = serve-tunnel_run ds v still b.1 a.1 in
      (
        w',
        serve_completed d ds w v done ∙ rest,
        opened,
        spec ∙ ap (tunnel_run t (map (λ d. seen d) ds)) (fun_ext same),
      )

-- Whatever the loop reads lies in its buffer.
round_AllBuffered :
    (r : ReadResult (RelayData × Bytes)) (rounds : Bytes → List RelayData)
    → ((d : RelayData) (rest : Bytes) → r ≡ ok (d, rest) → d.len ≤ length d.bytes)
    → ((rest : Bytes) → AllBuffered (rounds rest))
    → AllBuffered (elim r [ ok (d, rest) ↦ d ∷ rounds rest | err e ↦ [] ])
round_AllBuffered (ok (d, rest)) rounds h k = (h d rest refl, k rest)
round_AllBuffered (err e) rounds h k = tt

read_messages-AllBuffered : (n : ℕ) (stream : Bytes) → AllBuffered (read_messages n stream)
unfolding read_messages
read_messages-AllBuffered zero stream = tt
read_messages-AllBuffered (suc n) stream =
    round_AllBuffered (read_message (min header_size (length stream)) stream) (read_messages n)
      (λ d rest e.
        let (full, f, b, split) = read_message-IsSafe (min header_size (length stream)) stream e in
        omega (arith, f, b))
      (read_messages-AllBuffered n)

-- Messages of TCP sessions that one end writes, each of them sendable and each start naming a host
-- and a service in full, are read and handled by the other end so that its tunnels are those that
-- the specification gives for what was written: nothing is lost, mixed up or out of order.
pub serve-write_messages :
    (t : AddressText) (ds : List RelayData) (n : ℕ) (w : World)
    → IsOpen w
    → AllSendable ds
    → AllTunnels t (map (λ d. seen d) ds)
    → length ds ≤ n
    → (w' : World) × (serve t (read_messages n (write_messages ds)) w ≡ completed w')
      × IsOpen w'
      × (tunnels w' ≡ tunnel_run t (map (λ d. seen d) ds) (tunnels w))
serve-write_messages t ds n w h s a l =
    let got = read_messages n (write_messages ds) in
    let same : map (λ d. seen d) got ≡ map (λ d. seen d) ds =
      read_messages-write_messages ds n s l in
    let (w', done, opened, spec) =
      serve-tunnel_run t got w h (read_messages-AllBuffered n (write_messages ds))
        (subst (AllTunnels t) (sym same) a) in
    (w', done, opened, spec ∙ ap (λ ms. tunnel_run t ms (tunnels w)) same)
