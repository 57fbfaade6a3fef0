-- ===== src/Tunnel/Interleaved/Wire.antt =====
-- What has gone out to the host of a session, src/relay_manager.cpp and src/base_relay.cpp.
use ssl_socks.Address.{AddressText}
use ssl_socks.Base.{
  ℕ, ◌≡◌, refl, sym, ap, ◌∙◌, ap₂, subst, inl, inr, none, some, List, [], ◌++◌, map, append-nil,
  nat_eq, lookup,
}
use ssl_socks.Data.{RelayData, data_buffer}
use ssl_socks.Manager.Run.Bounded.{IsBounded}
use ssl_socks.Manager.Run.Bounded.Calls.{new_manager-IsBounded}
use ssl_socks.Manager.Run.Kept.{Ensures}
use ssl_socks.Manager.System.{
  SystemEvent, system_run, AllSystemEventsFit, system_run-IsBounded, HasHistory-Inv,
}
use ssl_socks.Manager.World.{World, completed, new_manager}
use ssl_socks.Relay.{ServerType, Relay, opened}
use ssl_socks.Relay.Calm.{waiting, pipeline, Unstopped}
use ssl_socks.Relay.History.{HasHistory}
use ssl_socks.Relay.Wakeup.{IsQuiet, quiet_empty}
use ssl_socks.Tunnel.{tunnel_run, tunnel_at, tunnels}
use ssl_socks.Tunnel.Interleaved.{AllServe, arrived, system_run-tunnel_run}
use ssl_socks.Tunnel.Open.{IsOpen}

entry_same : {a b : ℕ} → some (some a) ≡ some (some b) → a ≡ b
entry_same e = cc

same_world : {v w : World} → completed v ≡ completed w → v ≡ w
same_world e = cc

nothing_waits : (r : Relay) → HasHistory r → Unstopped r → IsQuiet r → pipeline r ≡ r.wire
nothing_waits r h u q =
    ap₂ (λ bs ts. (r.wire ++ bs) ++ waiting ts) (quiet_empty r (HasHistory-Inv r h) q u.state_ne)
      q.no_tasks
    ∙ append-nil (r.wire ++ [])
    ∙ append-nil r.wire

new-IsOpen : (k : ServerType) → IsOpen (new_manager k)
unfolding new_manager lookup
new-IsOpen k x = inl refl

registered_alive :
    (w : World) (s p : ℕ)
    → IsOpen w
    → lookup s w.relays ≡ some (some p)
    → Unstopped (w.objects p).relay
registered_alive w s p h l = elim (h s) [
  | inl absent ↦ absurd (cc)
  | inr (q, here, fits, alive) ↦
      subst (λ z. Unstopped (w.objects z).relay) (entry_same (sym here ∙ l)) alive
]

no_tunnels : (k : ServerType) → tunnels (new_manager k) ≡ (λ x. none)
unfolding new_manager lookup
no_tunnels k = refl

-- From any state in which each session has a running relay of its own, and each relay a history.
pub wire_passed :
    (t : AddressText) (es : List SystemEvent) (u w : World) (s p : ℕ)
    → IsOpen u
    → IsBounded u
    → AllServe t es
    → AllSystemEventsFit es
    → system_run t es u ≡ completed w
    → lookup s w.relays ≡ some (some p)
    → IsQuiet (w.objects p).relay
    → tunnel_run t (arrived es) (tunnels u) s
      ≡ some (record {
        host = (w.objects p).host;
        service = (w.objects p).service;
        passed = map (λ d. data_buffer d) (w.objects p).relay.wire;
      })
wire_passed t es u w s p o b a f e l q =
    let x = w.objects p in
    let (v, done, opened, spec) = system_run-tunnel_run t es u o a in
    let h : IsBounded w = subst (Ensures IsBounded) e (system_run-IsBounded t es u f b) in
    let same : v ≡ w = same_world (sym done ∙ e) in
    sym (ap (λ n. n s) spec)
    ∙ ap (λ y. tunnels y s) same
    ∙ ap (tunnel_at w.objects) l
    ∙ ap
        (λ (ds : List RelayData).
          some
            (record { host = x.host; service = x.service; passed = map (λ d. data_buffer d) ds }))
        (nothing_waits x.relay (h.histories p) (registered_alive w s p (subst IsOpen same opened) l)
          q)

-- Messages of TCP sessions, whose starts name a host and a service and whose data lie in their buffers,
-- come to a new manager, each with a session and data that fit, and between them, in any order, its
-- relays run their handlers, end their writes and complete their starts. A session that is registered
-- at the end, with a relay that has nothing under way, is for the host and service that the
-- specification gives for the messages alone, and its relay has written exactly the payloads that it
-- gives, in order.
pub system_run-wire :
    (t : AddressText) (k : ServerType) (es : List SystemEvent) (w : World) (s p : ℕ)
    → AllServe t es
    → AllSystemEventsFit es
    → system_run t es (new_manager k) ≡ completed w
    → lookup s w.relays ≡ some (some p)
    → IsQuiet (w.objects p).relay
    → tunnel_run t (arrived es) (λ x. none) s
      ≡ some (record {
        host = (w.objects p).host;
        service = (w.objects p).service;
        passed = map (λ d. data_buffer d) (w.objects p).relay.wire;
      })
system_run-wire t k es w s p a f e l q =
    ap (λ u. tunnel_run t (arrived es) u s) (sym (no_tunnels k))
    ∙ wire_passed t es (new_manager k) w s p (new-IsOpen k) (new_manager-IsBounded k) a f e l q
