-- ===== src/Tunnel/Starting.antt =====
-- A start of a session as the specification has it, src/relay_manager.cpp
-- (remote_server_start_tcp).
use ssl_socks.Address.{AddressText, parsed, parse_address}
use ssl_socks.Address.Grammar.{parse_address-take}
use ssl_socks.Base.{
  ℕ, ◌≤◌, ◌<◌, ◌≡◌, refl, sym, ap, ◌∙◌, subst, ◌≢◌, inl, inr, true, false, Option, none, some, [],
  arith, ◌==◌, if◌then◌else◌, ==_refl, if_true, if_false, length, length-take, Bytes, nat_eq,
  lookup, insert, lookup-insert, insert-insert,
}
use ssl_socks.Data.{start_tcp, RelayData, data_buffer}
use ssl_socks.Manager.Response.{relay_at, touch, add_remote_raw_tcp, stop_old, respond}
use ssl_socks.Manager.Response.Routing.{add_response-by}
use ssl_socks.Manager.Response.Starting.{
  stop_old-next, stop_old-relays, start_tcp_parsed, relay_at-none,
}
use ssl_socks.Manager.World.{Object, World, make}
use ssl_socks.Manager.World.Calls.{call_ne, make_self, make_ne}
use ssl_socks.Relay.{raw_tcp, new_relay, stop_relay}
use ssl_socks.Relay.Calm.{Unstopped}
use ssl_socks.Tunnel.{open_tunnel, tunnel_of, tunnel_at, tunnels}
use ssl_socks.Tunnel.Open.{IsOpen, IsOpen-one, new_relay-Unstopped}
use ssl_socks.Tunnel.Refine.{Refines, same_tunnel, relays_differ, by_session, tunnel_step-by}

relay_at-some : (s : ℕ) (w : World) {o : Option ℕ} → lookup s w.relays ≡ some o → relay_at s w ≡ o
unfolding relay_at
relay_at-some s w e = rw (e, relay_at) refl

absent_pointer : {p : ℕ} → none ≡ some p → ⊥
absent_pointer e = cc

same_pointer : {p q : ℕ} → some p ≡ some q → p ≡ q
same_pointer e = cc

-- The old relay of a session is one of that session.
relay_at-session :
    (s p : ℕ) (w : World) → IsOpen w → relay_at s w ≡ some p → (w.objects p).session ≡ s
relay_at-session s p w h e = elim (h s) [
  | inl absent ↦ absurd (absent_pointer (sym (relay_at-none s w absent) ∙ e))
  | inr (q, here, fits, alive) ↦
      subst (λ k. (w.objects k).session ≡ s) (same_pointer (sym (relay_at-some s w here) ∙ e))
        fits.1
]

stop_old-objects :
    (r : Option ℕ) (w : World) (q : ℕ)
    → ((p : ℕ) → r ≡ some p → p ≢ q)
    → (stop_old r w).objects q ≡ w.objects q
unfolding stop_old
stop_old-objects none w q h = refl
stop_old-objects (some p) w q h = call_ne p q stop_relay w (h p refl)

started_tunnel :
    (s : ℕ) (host service : Bytes) (o : ℕ → Object) (n : ℕ)
    → o n ≡ record {
      relay = new_relay raw_tcp;
      session = s;
      host = host;
      service = service;
      started = true;
    }
    → tunnel_at o (some (some n)) ≡ some (record { host = host; service = service; passed = [] })
unfolding new_relay
started_tunnel s host service o n e = ap (λ x. some (tunnel_of x)) e

module _ (t : AddressText) (d : RelayData) (w : World) (h : IsOpen w) (host service : Bytes) where
  old_world : World
  old_world = stop_old (relay_at d.session w) (touch d.session w)

  new_world : World
  new_world = add_remote_raw_tcp d.session host service old_world

  old_next : old_world.next ≡ w.next
  unfolding old_world touch
  old_next = stop_old-next (relay_at d.session w) (touch d.session w)

  new_relays : new_world.relays ≡ insert d.session (some old_world.next) w.relays
  unfolding old_world new_world touch add_remote_raw_tcp
  new_relays =
      ap (insert d.session (some old_world.next))
        (stop_old-relays (relay_at d.session w) (touch d.session w))
      ∙ insert-insert d.session (relay_at d.session w) (some old_world.next) w.relays

  new_object : new_world.objects old_world.next ≡ record {
    relay = new_relay raw_tcp;
    session = d.session;
    host = host;
    service = service;
    started = true;
  }
  unfolding new_world add_remote_raw_tcp
  new_object = make_self raw_tcp d.session host service old_world

  new_other :
      (x q : ℕ)
      → (d.session == x) ≡ false
      → q < w.next
      → (w.objects q).session ≡ x
      → new_world.objects q ≡ w.objects q
  unfolding old_world new_world touch add_remote_raw_tcp
  new_other x q n l o =
      make_ne raw_tcp d.session host service q old_world (omega (arith, old_next))
      ∙ stop_old-objects (relay_at d.session w) (touch d.session w) q
          (λ p e. relays_differ w p q d.session x (relay_at-session d.session p w h e) o n)

  entry :
      (y : ℕ)
      → lookup y new_world.relays
        ≡ (if d.session == y then some (some old_world.next) else lookup y w.relays)
  entry y = rw new_relays (lookup-insert d.session y (some old_world.next) w.relays)

  new_IsOpen : IsOpen new_world
  unfolding new_world add_remote_raw_tcp make
  new_IsOpen =
      IsOpen-one w new_world d.session h (omega (arith, old_next))
        (λ x n. entry x ∙ if_false (some (some old_world.next)) (lookup x w.relays) n) new_other
        (inr (
          old_world.next,
          entry d.session
              ∙ if_true (some (some old_world.next)) (lookup d.session w.relays)
                  (==_refl d.session),
          (omega arith, ap (λ o. o.session) new_object),
          subst (λ (o : Object). Unstopped o.relay) (sym new_object) (new_relay-Unstopped raw_tcp),
        ))

  new_tunnels :
      (x : ℕ)
      → tunnels new_world x ≡ (
          if d.session == x
          then some (record { host = host; service = service; passed = [] })
          else tunnels w x)
  new_tunnels x =
      by_session d.session x (tunnels new_world)
        (some (record { host = host; service = service; passed = [] })) (tunnels w)
        (ap (tunnel_at new_world.objects) (
            entry d.session
            ∙ if_true (some (some old_world.next)) (lookup d.session w.relays) (==_refl d.session))
          ∙ started_tunnel d.session host service new_world.objects old_world.next new_object)
        (λ n.
          same_tunnel w new_world x h
            (entry x ∙ if_false (some (some old_world.next)) (lookup x w.relays) n)
            (λ q. new_other x q n))

  pub start_tcp-Refines :
      d.cmd ≡ start_tcp
      → 2 ≤ d.len
      → d.len ≤ length d.bytes
      → parse_address t d.bytes d.len ≡ parsed host service
      → Refines t d w
  unfolding old_world new_world respond
  start_tcp-Refines c two fits e = (
    new_world,
    add_response-by t d w c ∙ start_tcp_parsed t d w host service e,
    new_IsOpen,
    λ x.
        new_tunnels x
        ∙ ap (λ r. open_tunnel d.session r (tunnels w) x) (sym named)
        ∙ tunnel_step-by t d (tunnels w) x c,
  )
    where
      named : parse_address t (data_buffer d) (length (data_buffer d)) ≡ parsed host service
      named =
          ap (parse_address t (data_buffer d)) (omega (arith, fits, length-take d.len d.bytes))
          ∙ parse_address-take t d.bytes d.len two
          ∙ e
