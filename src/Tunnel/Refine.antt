-- ===== src/Tunnel/Refine.antt =====
-- Handling a TCP message does to the sessions what the specification says, src/relay_manager.cpp
-- (add_response).
use ssl_socks.Address.{AddressText}
use ssl_socks.Base.{
  ℕ, ◌<◌, ◌≡◌, refl, sym, ap, ◌∙◌, subst, ◌≢◌, inl, inr, true, false, Option, none, some, List, [],
  ◌∷◌, ◌++◌, map, append_assoc, arith, ◌==◌, if◌then◌else◌, ==_iff, ==_refl, Bool-cases, if_true,
  if_false, nat_eq, lookup, erase, lookup-erase,
}
use ssl_socks.Data.{Command, stop_tcp, data_tcp, RelayData, data_buffer}
use ssl_socks.Data.Wire.{seen}
use ssl_socks.Manager.Response.{data_tcp_response, respond, add_response}
use ssl_socks.Manager.Response.Routing.{
  add_response-by, data_tcp_live, stop_tcp_known, stop_tcp_unknown,
}
use ssl_socks.Manager.Run.Registered.{Fits}
use ssl_socks.Manager.World.{Object, World, completed, call}
use ssl_socks.Manager.World.Calls.{call_self, call_ne}
use ssl_socks.Relay.{push, Relay, send_data, stop_relay}
use ssl_socks.Relay.Calm.{waiting, pipeline, Unstopped, waiting-post}
use ssl_socks.Relay.Fifo.{log}
use ssl_socks.Tunnel.{Tunnels, pass, tunnel_step_as, tunnel_step, tunnel_of, tunnel_at, tunnels}
use ssl_socks.Tunnel.Open.{IsOpen, IsOpen-one, send_data-Unstopped}
use mathlib.Core.Option

-- What one message leaves: an open state, with the tunnels that the specification names.
abbrev pub Refines : AddressText → RelayData → World → Type 0
Refines t d w =
    (w' : World) × (add_response t d w ≡ completed w')
    × IsOpen w'
    × ((s : ℕ) → tunnels w' s ≡ tunnel_step t (seen d) (tunnels w) s)

-- A session of which neither the entry nor the relay changes is the same tunnel.
pub same_tunnel :
    (w w' : World) (x : ℕ)
    → IsOpen w
    → lookup x w'.relays ≡ lookup x w.relays
    → ((q : ℕ) → q < w.next → (w.objects q).session ≡ x → w'.objects q ≡ w.objects q)
    → tunnels w' x ≡ tunnels w x
same_tunnel w w' x h e o = elim (h x) [
  | inl absent ↦ ap (tunnel_at w'.objects) (e ∙ absent) ∙ sym (ap (tunnel_at w.objects) absent)
  | inr (q, here, fits, alive) ↦
      ap (tunnel_at w'.objects) (e ∙ here)
      ∙ ap (λ p. some (tunnel_of p)) (o q fits.0 fits.1)
      ∙ sym (ap (tunnel_at w.objects) here)
]

map-append : {A B : Type 0} (f : A → B) (xs ys : List A) → map f (xs ++ ys) ≡ map f xs ++ map f ys
map-append f [] ys = refl
map-append f (x ∷ xs) ys = ap (◌∷◌ (f x)) (map-append f xs ys)

-- A message handed over comes behind the others.
pipeline-send_data :
    (d : RelayData) (r : Relay)
    → map (λ x. data_buffer x) (pipeline (send_data d r))
      ≡ map (λ x. data_buffer x) (pipeline r) ++ data_buffer d ∷ []
pipeline-send_data d r =
    ap (λ l. map (λ x. data_buffer x) (log r ++ l)) (waiting-post r.tasks (push d))
    ∙ ap (map (λ x. data_buffer x)) (sym (append_assoc (log r) (waiting r.tasks) (d ∷ [])))
    ∙ map-append (λ x. data_buffer x) (pipeline r) (d ∷ [])

-- Two relays of different sessions are different.
pub relays_differ :
    (w : World) (p q s x : ℕ)
    → (w.objects p).session ≡ s
    → (w.objects q).session ≡ x
    → (s == x) ≡ false
    → p ≢ q
relays_differ w p q s x a b n e =
    not-true (sym n ∙ (==_iff s x).1 (sym a ∙ ap (λ k. (w.objects k).session) e ∙ b))
  where
    not-true : false ≡ true → ⊥
    not-true h = cc

-- A value at one session, and the old ones at all others.
pub by_session {ℓ} :
    {A : Type ℓ}
    → (s x : ℕ) (f : ℕ → A) (u : A) (v : ℕ → A) → f s ≡ u
    → ((s == x) ≡ false → f x ≡ v x)
    → f x ≡ (if s == x then u else v x)
by_session s x f u v e h = elim (Bool-cases (s == x)) [
  | inl same ↦ ap f (sym ((==_iff s x).0 same)) ∙ e ∙ sym (if_true u (v x) same)
  | inr other ↦ h other ∙ sym (if_false u (v x) other)
]

pub tunnel_step-by :
    (t : AddressText) (d : RelayData) (v : Tunnels) (x : ℕ) {c : Command}
    → d.cmd ≡ c
    → tunnel_step_as c t (seen d) v x ≡ tunnel_step t (seen d) v x
tunnel_step-by t d v x e = ap (λ c. tunnel_step_as c t (seen d) v x) (sym e)

data_tcp_absent :
    (b : RelayData) (w : World)
    → lookup b.session w.relays ≡ none
    → data_tcp_response b w ≡ completed w
unfolding data_tcp_response
data_tcp_absent b w e = rw (e, data_tcp_response) refl

module _ (t : AddressText) (d : RelayData) (w : World) (h : IsOpen w) where
  -- A relay that a task is posted to, and the tunnels of other sessions.
  call_other :
      (p : ℕ) (f : Relay → Relay) (m : List (ℕ × Option ℕ)) (x : ℕ)
      → (w.objects p).session ≡ d.session
      → (d.session == x) ≡ false
      → lookup x m ≡ lookup x w.relays
      → tunnels (record (call p f w) { relays = m }) x ≡ tunnels w x
  call_other p f m x own n e =
      same_tunnel w (record (call p f w) { relays = m }) x h e
        (λ q l o. call_ne p q f w (relays_differ w p q d.session x own o n))

  data_passed :
      (p : ℕ)
      → lookup d.session w.relays ≡ some (some p)
      → tunnels (call p (send_data d) w) d.session
        ≡ Option.map (pass (data_buffer d)) (tunnels w d.session)
  unfolding call
  data_passed p here =
      let o = w.objects p in
      ap (tunnel_at (call p (send_data d) w).objects) here
      ∙ ap (λ x. some (tunnel_of x)) (call_self p (send_data d) w)
      ∙ ap (λ l. some (record { host = o.host; service = o.service; passed = l }))
          (pipeline-send_data d o.relay)
      ∙ sym (ap (λ r. Option.map (pass (data_buffer d)) (tunnel_at w.objects r)) here)

  data-IsOpen :
      (p : ℕ)
      → lookup d.session w.relays ≡ some (some p)
      → Fits w d.session (some p)
      → Unstopped (w.objects p).relay
      → IsOpen (call p (send_data d) w)
  unfolding call
  data-IsOpen p here fits alive =
      let self = call_self p (send_data d) w in
      IsOpen-one w (call p (send_data d) w) d.session h (omega arith) (λ x n. refl)
        (λ x q n l o. call_ne p q (send_data d) w (relays_differ w p q d.session x fits.1 o n))
        (inr (
          p,
          here,
          (omega (arith, fits.0), ap (λ o. o.session) self ∙ fits.1),
          subst (λ (o : Object). Unstopped o.relay) (sym self)
              (send_data-Unstopped d (w.objects p).relay alive),
        ))

  stop-IsOpen :
      (p : ℕ)
      → (w.objects p).session ≡ d.session
      → IsOpen (record (call p stop_relay w) { relays = erase d.session w.relays })
  unfolding call
  stop-IsOpen p own =
      let w' = record (call p stop_relay w) { relays = erase d.session w.relays } in
      IsOpen-one w w' d.session h (omega arith)
        (λ x n. lookup-erase d.session x w.relays ∙ if_false none (lookup x w.relays) n)
        (λ x q n l o. call_ne p q stop_relay w (relays_differ w p q d.session x own o n))
        (inl (
          lookup-erase d.session d.session w.relays
          ∙ if_true none (lookup d.session w.relays) (==_refl d.session)))

  pub data_tcp-Refines : d.cmd ≡ data_tcp → Refines t d w
  unfolding respond call
  data_tcp-Refines c = elim (h d.session) [
    | inl absent ↦ (
      w,
      add_response-by t d w c ∙ data_tcp_absent d w absent,
      h,
      λ x.
          by_session d.session x (tunnels w)
            (Option.map (pass (data_buffer d)) (tunnels w d.session)) (tunnels w)
            (ap (tunnel_at w.objects) absent
              ∙ sym (ap (λ r. Option.map (pass (data_buffer d)) (tunnel_at w.objects r)) absent))
            (λ n. refl)
          ∙ tunnel_step-by t d (tunnels w) x c,
    )
    | inr (p, here, fits, alive) ↦ (
      call p (send_data d) w,
      add_response-by t d w c ∙ data_tcp_live d w p here alive.state_ne,
      data-IsOpen p here fits alive,
      λ x.
          by_session d.session x (tunnels (call p (send_data d) w))
            (Option.map (pass (data_buffer d)) (tunnels w d.session)) (tunnels w)
            (data_passed p here) (λ n. call_other p (send_data d) w.relays x fits.1 n refl)
          ∙ tunnel_step-by t d (tunnels w) x c,
    )
  ]

  pub stop_tcp-Refines : d.cmd ≡ stop_tcp → Refines t d w
  unfolding respond
  stop_tcp-Refines c = elim (h d.session) [
    | inl absent ↦ (
      w,
      add_response-by t d w c ∙ stop_tcp_unknown d w absent,
      h,
      λ x.
          by_session d.session x (tunnels w) none (tunnels w) (ap (tunnel_at w.objects) absent)
            (λ n. refl)
          ∙ tunnel_step-by t d (tunnels w) x c,
    )
    | inr (p, here, fits, alive) ↦
        let w' = record (call p stop_relay w) { relays = erase d.session w.relays } in
        (
          w',
          add_response-by t d w c ∙ stop_tcp_known d w p here,
          stop-IsOpen p fits.1,
          λ x.
              by_session d.session x (tunnels w') none (tunnels w)
                (ap (tunnel_at w'.objects) (
                  lookup-erase d.session d.session w.relays
                  ∙ if_true none (lookup d.session w.relays) (==_refl d.session)))
                (λ n.
                  call_other p stop_relay w'.relays x fits.1 n
                    (lookup-erase d.session x w.relays ∙ if_false none (lookup x w.relays) n))
              ∙ tunnel_step-by t d (tunnels w) x c,
        )
  ]
