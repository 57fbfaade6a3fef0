-- ===== src/Tunnel/Interleaved.antt =====
-- Messages that are handled while the relays send, src/relay_manager.cpp and src/base_relay.cpp.
pub mod Wire
use ssl_socks.Address.{AddressText}
use ssl_socks.Base.{
  ℕ, ◌≤◌, ◌≡◌, refl, sym, ap, ◌∙◌, subst, fun_ext, ◌≢◌, inl, inr, false, some, List, [], ◌∷◌, ◌++◌,
  map, append-nil, arith, ◌==◌, ==_iff, Bool-cases, length,
}
use ssl_socks.Data.{RelayData, data_buffer}
use ssl_socks.Data.Wire.{Seen, seen}
use ssl_socks.Manager.Response.{and_then}
use ssl_socks.Manager.Run.{
  adds_request, adds_response, sends_udp, starts_manager, adds_local_tcp, sets_ssl, ticks_timer,
  manager_call,
}
use ssl_socks.Manager.System.{SystemEvent, manages, relays_do, system_step, system_run}
use ssl_socks.Manager.World.{Object, World, completed, call}
use ssl_socks.Manager.World.Calls.{call_self, call_ne}
use ssl_socks.Relay.{
  Relay, opened, Event, calls_send, calls_add_peer, calls_del_peer, calls_stop, runs, sends, fails,
  opens, misses, ticks, traffic, step,
}
use ssl_socks.Relay.Calm.{IsCalm, handed, pipeline, Unstopped, step-Unstopped, step-pipeline}
use ssl_socks.Tunnel.{tunnel_run, tunnel_of, tunnel_at, tunnels}
use ssl_socks.Tunnel.Ends.{TunnelsAs, step-Refines}
use ssl_socks.Tunnel.Open.{IsOpen}

-- What a relay does of its own, as long as nothing fails: it runs the next handler, ends a write,
-- completes its start, and resets its countdown.
abbrev pub IsOwn : Event → Type 0
IsOwn runs = Unit {0}
IsOwn sends = Unit {0}
IsOwn opens = Unit {0}
IsOwn traffic = Unit {0}
IsOwn _ = ⊥

-- A message from the other side, of a TCP session, or an event of a relay.
abbrev pub Serves : AddressText → SystemEvent → Type 0
Serves t (manages (adds_response d)) = (d.len ≤ length d.bytes) × TunnelsAs d.cmd t (data_buffer d)
Serves t (manages _) = ⊥
Serves t (relays_do p e) = IsOwn e

abbrev pub AllServe : AddressText → List SystemEvent → Type 0
AllServe t [] = Unit {0}
AllServe t (e ∷ es) = Serves t e × AllServe t es

-- The messages among the events.
abbrev pub arrived : List SystemEvent → List Seen
arrived [] = []
arrived (manages (adds_response d) ∷ es) = seen d ∷ arrived es
arrived (_ ∷ es) = arrived es

own-IsCalm : (e : Event) → IsOwn e → IsCalm e × (handed (e ∷ []) ≡ [])
own-IsCalm runs h = (tt, refl)
own-IsCalm sends h = (tt, refl)
own-IsCalm opens h = (tt, refl)
own-IsCalm traffic h = (tt, refl)
own-IsCalm (calls_send b) h = absurd h
own-IsCalm (calls_add_peer s e) h = absurd h
own-IsCalm (calls_del_peer s) h = absurd h
own-IsCalm calls_stop h = absurd h
own-IsCalm fails h = absurd h
own-IsCalm misses h = absurd h
own-IsCalm ticks h = absurd h

-- A relay's own event leaves all that it was handed as it is.
step-pipeline_same :
    (r : Relay) (e : Event) → IsOwn e → Unstopped r → pipeline (step r e) ≡ pipeline r
step-pipeline_same r e h u =
    step-pipeline r e (own-IsCalm e h).0 u
    ∙ ap (λ l. pipeline r ++ l) (own-IsCalm e h).1
    ∙ append-nil (pipeline r)

differ : (p q : ℕ) → (p == q) ≡ false → p ≢ q
differ p q e = ground arith

module _ (w : World) (p : ℕ) (e : Event) (own : IsOwn e) where
  abbrev after : World
  after = call p (λ r. step r e) w

  -- A relay that runs, after an event of its own or of another.
  after_same :
      (q : ℕ)
      → Unstopped (w.objects q).relay
      → (tunnel_of (after.objects q) ≡ tunnel_of (w.objects q))
        × ((after.objects q).session ≡ (w.objects q).session)
        × Unstopped (after.objects q).relay
  after_same q u = elim (Bool-cases (p == q)) [
    | inl same ↦
        let k = (==_iff p q).0 same in
        subst
          (λ z.
            (tunnel_of (after.objects z) ≡ tunnel_of (w.objects z))
            × ((after.objects z).session ≡ (w.objects z).session)
            × Unstopped (after.objects z).relay)
          k (at_itself (subst (λ z. Unstopped (w.objects z).relay) (sym k) u))
    | inr other ↦
        let kept = call_ne p q (λ r. step r e) w (differ p q other) in
        (
          ap (λ o. tunnel_of o) kept,
          ap (λ o. o.session) kept,
          subst (λ (o : Object). Unstopped o.relay) (sym kept) u,
        )
  ]
    where
      at_itself :
          Unstopped (w.objects p).relay
          → (tunnel_of (after.objects p) ≡ tunnel_of (w.objects p))
            × ((after.objects p).session ≡ (w.objects p).session)
            × Unstopped (after.objects p).relay
      at_itself v =
          let o = w.objects p in
          let self = call_self p (λ r. step r e) w in
          (
            ap (λ x. tunnel_of x) self
                ∙ ap
                    (λ (l : List RelayData). record {
                      host = o.host;
                      service = o.service;
                      passed = map (λ d. data_buffer d) l;
                    })
                    (step-pipeline_same o.relay e own v),
            ap (λ x. x.session) self,
            subst (λ (x : Object). Unstopped x.relay) (sym self)
                (step-Unstopped o.relay e (own-IsCalm e own).0 v),
          )

  after-IsOpen : IsOpen w → IsOpen after
  unfolding call
  after-IsOpen h x = elim (h x) [
    | inl absent ↦ inl absent
    | inr (q, here, fits, alive) ↦
        let (same, session, still) = after_same q alive in
        inr (q, here, (fits.0, session ∙ fits.1), still)
  ]

  after-tunnels : IsOpen w → (s : ℕ) → tunnels after s ≡ tunnels w s
  unfolding call
  after-tunnels h s = elim (h s) [
    | inl absent ↦ ap (tunnel_at after.objects) absent ∙ sym (ap (tunnel_at w.objects) absent)
    | inr (q, here, fits, alive) ↦
        ap (tunnel_at after.objects) here
        ∙ ap (λ o. some o) (after_same q alive).0
        ∙ sym (ap (tunnel_at w.objects) here)
  ]

-- Messages of TCP sessions, whose starts name a host and a service and whose data lie in their buffers,
-- come to a manager in which each session has a running relay of its own, and between them, in any
-- order, its relays run their handlers, end their writes and complete their starts. The whole completes
-- in such a state, and the hosts, services and payloads of all sessions, the latter whether they are
-- written or still wait, are those that the specification gives for the messages alone.
pub system_run-tunnel_run :
    (t : AddressText) (es : List SystemEvent) (w : World)
    → IsOpen w
    → AllServe t es
    → (w' : World) × (system_run t es w ≡ completed w')
      × IsOpen w'
      × (tunnels w' ≡ tunnel_run t (arrived es) (tunnels w))
unfolding system_run system_step manager_call
system_run-tunnel_run t [] w h a = (w, refl, h, refl)
system_run-tunnel_run t (manages (adds_response d) ∷ es) w h a =
    let (v, done, still, same) = step-Refines t d w d.cmd refl h a.0.0 a.0.1 in
    let (w', rest, opened, spec) = system_run-tunnel_run t es v still a.1 in
    (
      w',
      ap (λ o. and_then o (system_run t es)) done ∙ rest,
      opened,
      spec ∙ ap (tunnel_run t (arrived es)) (fun_ext same),
    )
system_run-tunnel_run t (relays_do p e ∷ es) w h a =
    let v = call p (λ r. step r e) w in
    let (w', rest, opened, spec) = system_run-tunnel_run t es v (after-IsOpen w p e a.0 h) a.1 in
    (w', rest, opened, spec ∙ ap (tunnel_run t (arrived es)) (fun_ext (after-tunnels w p e a.0 h)))
system_run-tunnel_run t (manages (adds_request b) ∷ es) w h a = absurd a.0
system_run-tunnel_run t (manages (sends_udp e b) ∷ es) w h a = absurd a.0
system_run-tunnel_run t (manages starts_manager ∷ es) w h a = absurd a.0
system_run-tunnel_run t (manages adds_local_tcp ∷ es) w h a = absurd a.0
system_run-tunnel_run t (manages sets_ssl ∷ es) w h a = absurd a.0
system_run-tunnel_run t (manages ticks_timer ∷ es) w h a = absurd a.0
