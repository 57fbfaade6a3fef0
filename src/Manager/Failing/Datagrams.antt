-- ===== src/Manager/Failing/Datagrams.antt =====
-- Datagrams on a remote server whose relay may not come up, src/relay_manager.cpp
-- (remote_server_send_udp, add_remote_raw_udp).
use ssl_socks.Address.{AddressText}
use ssl_socks.Base.{
  ℕ, ◌≡◌, refl, sym, ap, ◌∙◌, subst, ◌≢◌, ◌⊎◌, inl, inr, true, false, Option, none, some, [],
  ==_refl, Bool-cases, if_true, if_false, nat_eq, lookup, lookup-insert,
}
use ssl_socks.Data.{data_udp, RelayData}
use ssl_socks.Manager.Failing.{
  Built, is_built, not_made, not_set, add_remote_raw_udp_or, remote_server_send_udp_or,
  data_udp_response_or, respond_or, add_response_or, respond_or_built,
}
use ssl_socks.Manager.Response.{relay_at, touch, add_remote_raw_udp, and_then, add_response}
use ssl_socks.Manager.Response.Posting.{
  Posted, OthersStay, udp_new, udp_live, udp_new-Posted, udp_live-Posted,
}
use ssl_socks.Manager.World.{World, Outcome, completed, thrown, call, is_stopped}
use ssl_socks.Manager.World.Calls.{call_self, make_self}
use ssl_socks.Relay.{remote_server, raw_udp, new_relay, send_data}

-- The relay that the session has had goes on.
abbrev pub Kept : RelayData → World → ℕ → Type 0
Kept b w p = (relay_at b.session w ≡ some p) × (is_stopped w p ≡ false)

-- A new relay, of that session, on which start_relay has been called.
abbrev pub Fresh : RelayData → World → World → ℕ → Type 0
Fresh b w w' p =
    (p ≡ w.next)
    × ((w'.objects p).session ≡ b.session)
    × ((w'.objects p).started ≡ true)
    × ((w'.objects p).relay.opening ≡ true)

-- What the session has is no relay, or a stopped one.
abbrev pub NoneRuns : RelayData → World → Type 0
NoneRuns b w = (p : ℕ) → relay_at b.session w ≡ some p → is_stopped w p ≡ true

abbrev pub UdpServed : Built → RelayData → World → Outcome → Type 0
UdpServed how b w o =
    ((w' : World) × (p : ℕ) × (o ≡ completed w')
      × Posted b w' p
      × OthersStay b w w'
      × (Kept b w p ⊎ ((how ≡ is_built) × Fresh b w w' p)))
    ⊎ ((w' : World) × (o ≡ thrown w')
        × (how ≢ is_built)
        × NoneRuns b w
        × (lookup b.session w'.relays ≡ some (relay_at b.session w))
        × OthersStay b w w'
        × (w'.objects ≡ w.objects))

module _ (b : RelayData) (w : World) where
  udp_new-Fresh : Fresh b w (udp_new b w) w.next
  unfolding udp_new call add_remote_raw_udp new_relay
  udp_new-Fresh =
      let self = call_self w.next (send_data b) (add_remote_raw_udp b.session w) in
      let made = make_self raw_udp b.session [] [] w in
      (
        refl,
        ap (λ o. o.session) self ∙ ap (λ o. o.session) made,
        ap (λ o. o.started) self ∙ ap (λ o. o.started) made,
        ap (λ o. o.relay.opening) self ∙ ap (λ o. o.relay.opening) made,
      )

  refused :
      NoneRuns b w → (how : Built) → how ≢ is_built → UdpServed how b w (thrown (touch b.session w))
  unfolding touch
  refused n how bad_luck = inr (
    touch b.session w,
    refl,
    bad_luck,
    n,
    lookup-insert b.session b.session (relay_at b.session w) w.relays
        ∙ if_true (some (relay_at b.session w)) (lookup b.session w.relays) (==_refl b.session),
    λ x m.
        lookup-insert b.session x (relay_at b.session w) w.relays
        ∙ if_false (some (relay_at b.session w)) (lookup x w.relays) m,
    refl,
  )

  -- A relay is to be made.
  anew_served :
      (how : Built)
      → NoneRuns b w
      → UdpServed how b w (
          and_then
            (add_remote_raw_udp_or how b.session w)
            (λ w'. completed (call w.next (send_data b) w')))
  unfolding add_remote_raw_udp_or udp_new
  anew_served is_built n =
      let (posted, others) = udp_new-Posted b w in
      inl (udp_new b w, w.next, refl, posted, others, inr (refl, udp_new-Fresh))
  anew_served not_made n = refused n not_made (λ e. cc e)
  anew_served not_set n = refused n not_set (λ e. cc e)

  anew : Built → Outcome
  anew how =
      and_then (add_remote_raw_udp_or how b.session w)
        (λ w'. completed (call w.next (send_data b) w'))

  none_there :
      (how : Built) → relay_at b.session w ≡ none → remote_server_send_udp_or how b w ≡ anew how
  unfolding remote_server_send_udp_or anew
  none_there how e = rw (e, remote_server_send_udp_or) refl

  stopped_there :
      (how : Built) (p : ℕ)
      → relay_at b.session w ≡ some p
      → is_stopped w p ≡ true
      → remote_server_send_udp_or how b w ≡ anew how
  unfolding remote_server_send_udp_or anew
  stopped_there how p e h = rw (e, remote_server_send_udp_or) (rw h refl)

  live_there :
      (how : Built) (p : ℕ)
      → relay_at b.session w ≡ some p
      → is_stopped w p ≡ false
      → remote_server_send_udp_or how b w ≡ completed (udp_live b w p)
  unfolding remote_server_send_udp_or udp_live
  live_there how p e h = rw (e, remote_server_send_udp_or) (rw h refl)

  by_session :
      (how : Built) (o : Option ℕ)
      → relay_at b.session w ≡ o
      → UdpServed how b w (remote_server_send_udp_or how b w)
  unfolding anew
  by_session how none e =
      subst (UdpServed how b w) (sym (none_there how e))
        (anew_served how (λ p q. absurd (cc (e, q))))
  by_session how (some p) e = elim (Bool-cases (is_stopped w p)) [
    | inl stopped ↦ subst (UdpServed how b w) (sym (stopped_there how p e stopped)) (
        anew_served how (λ q f. subst (λ x. is_stopped w x ≡ true) (same_some (sym e ∙ f)) stopped))
    | inr live ↦
        let (posted, others) = udp_live-Posted b w p e live in
        inl (udp_live b w p, p, live_there how p e live, posted, others, inl (e, live))
  ]
    where
      same_some : {x y : ℕ} → some x ≡ some y → x ≡ y
      same_some h = cc

-- On a remote server DATA_UDP does one of two things. It completes, and the session of the message then
-- has a relay that has not stopped, to which the message is the last thing posted: the one that it had,
-- or a new one of that session, if that can be made, which has been started. Or the session had no such
-- relay, and a new one could not be made or started: the exception leaves the handler, and the session
-- with the stopped relay that it had, or with a null pointer. No other session changes its relay.
pub add_response_or-remote_udp :
    (how : Built) (t : AddressText) (b : RelayData) (w : World)
    → b.cmd ≡ data_udp
    → w.type ≡ remote_server
    → UdpServed how b w (add_response_or how t b w)
unfolding add_response_or respond_or data_udp_response_or
add_response_or-remote_udp how t b w c k =
    subst (UdpServed how b w)
      (sym (ap (λ x. respond_or how x t b w) c ∙ ap (λ x. data_udp_response_or how x b w) k))
      (by_session b w how (relay_at b.session w) refl)

-- Where the relay can be made, this is add_response.
pub add_response_or_built :
    (t : AddressText) (b : RelayData) (w : World)
    → add_response_or is_built t b w ≡ add_response t b w
unfolding add_response_or add_response
add_response_or_built t b w = respond_or_built b.cmd t b w
