-- ===== src/Manager/Response/Posting.antt =====
-- Datagrams on a remote server, src/relay_manager.cpp (remote_server_send_udp).
-- The session has a running relay, and the message stands last among its handlers.
use ssl_socks.Address.{AddressText}
use ssl_socks.Base.{
  ℕ, ◌≡◌, refl, ap, ◌∙◌, inl, inr, false, Option, none, some, List, [], ◌∷◌, ◌++◌, ◌==◌, ==_refl,
  Bool-cases, if_true, if_false, nat_eq, lookup, lookup-insert,
}
use ssl_socks.Data.{data_udp, RelayData}
use ssl_socks.Manager.Request.Delivery.{tasks_of}
use ssl_socks.Manager.Response.{
  relay_at, touch, add_remote_raw_udp, remote_server_send_udp, data_udp_response, respond,
  add_response,
}
use ssl_socks.Manager.Response.Routing.{add_response-by}
use ssl_socks.Manager.World.{World, completed, call, is_stopped}
use ssl_socks.Manager.World.Calls.{call_self, make_self}
use ssl_socks.Relay.{remote_server, is_stop, raw_udp, Task, push, new_relay, send_data}

abbrev pub Posted : RelayData → World → ℕ → Type 0
Posted b w p =
    (ts : List Task) × (lookup b.session w.relays ≡ some (some p))
    × (is_stopped w p ≡ false)
    × (tasks_of w p ≡ ts ++ push b ∷ [])

-- No session but that of the message has changed its relay.
abbrev pub OthersStay : RelayData → World → World → Type 0
OthersStay b w w' = (x : ℕ) → (b.session == x) ≡ false → lookup x w'.relays ≡ lookup x w.relays

module _ (b : RelayData) (w : World) where
  unfoldable pub udp_new : World
  udp_new = call w.next (send_data b) (add_remote_raw_udp b.session w)

  unfoldable pub udp_live : ℕ → World
  udp_live p = call p (send_data b) (touch b.session w)

  pub udp_new-Posted : Posted b udp_new w.next × OthersStay b w udp_new
  unfolding udp_new call add_remote_raw_udp new_relay is_stop
  udp_new-Posted =
      let self = call_self w.next (send_data b) (add_remote_raw_udp b.session w) in
      let made = make_self raw_udp b.session [] [] w in
      (
        (
          [],
          lookup-insert b.session b.session (some w.next) w.relays
              ∙ if_true (some (some w.next)) (lookup b.session w.relays) (==_refl b.session),
          ap (λ o. is_stop o.relay.state) self ∙ ap (λ o. is_stop o.relay.state) made,
          ap (λ o. o.relay.tasks) self ∙ ap (λ o. o.relay.tasks ++ push b ∷ []) made,
        ),
        λ x n.
            lookup-insert b.session x (some w.next) w.relays
            ∙ if_false (some (some w.next)) (lookup x w.relays) n,
      )

  pub udp_live-Posted :
      (p : ℕ)
      → relay_at b.session w ≡ some p
      → is_stopped w p ≡ false
      → Posted b (udp_live p) p × OthersStay b w (udp_live p)
  unfolding udp_live call touch
  udp_live-Posted p e live =
      let self = call_self p (send_data b) (touch b.session w) in
      (
        (
          tasks_of w p,
          lookup-insert b.session b.session (relay_at b.session w) w.relays
              ∙ if_true (some (relay_at b.session w)) (lookup b.session w.relays)
                  (==_refl b.session)
              ∙ ap some e,
          ap (λ o. is_stop o.relay.state) self ∙ live,
          ap (λ o. o.relay.tasks) self,
        ),
        λ x n.
            lookup-insert b.session x (relay_at b.session w) w.relays
            ∙ if_false (some (relay_at b.session w)) (lookup x w.relays) n,
      )

  udp_by_relay :
      (o : Option ℕ)
      → relay_at b.session w ≡ o
      → (p : ℕ) × Posted b (remote_server_send_udp b w) p
        × OthersStay b w (remote_server_send_udp b w)
  unfolding remote_server_send_udp udp_new udp_live
  udp_by_relay none e =
      let (posted, others) = udp_new-Posted in
      (w.next, rw (e, remote_server_send_udp) posted, rw (e, remote_server_send_udp) others)
  udp_by_relay (some p) e = elim (Bool-cases (is_stopped w p)) [
    | inl stopped ↦
        let (posted, others) = udp_new-Posted in
        (
          w.next,
          rw (e, remote_server_send_udp) (rw stopped posted),
          rw (e, remote_server_send_udp) (rw stopped others),
        )
    | inr live ↦
        let (posted, others) = udp_live-Posted p e live in
        (
          p,
          rw (e, remote_server_send_udp) (rw live posted),
          rw (e, remote_server_send_udp) (rw live others),
        )
  ]

-- On a remote server DATA_UDP completes where a relay can be made, and its session then has a relay that
-- has not stopped, a new one where there was none, to which the message is the last thing posted; no
-- other session changes its relay.
pub add_response-remote_udp :
    (t : AddressText) (b : RelayData) (w : World)
    → b.cmd ≡ data_udp
    → w.type ≡ remote_server
    → (w' : World) × (add_response t b w ≡ completed w')
      × ((p : ℕ) × Posted b w' p × OthersStay b w w')
unfolding respond data_udp_response
add_response-remote_udp t b w c k = (
  remote_server_send_udp b w,
  add_response-by t b w c ∙ ap (λ x. data_udp_response x b w) k,
  udp_by_relay b w (relay_at b.session w) refl,
)
