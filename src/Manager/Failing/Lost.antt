-- ===== src/Manager/Failing/Lost.antt =====
-- A source of datagrams whose relay cannot be made, src/relay_manager.cpp (send_udp_data).
use ssl_socks.Address.{Sockaddr, endpoint_eq}
use ssl_socks.Base.{
  ℕ, ◌≡◌, refl, ap, ◌∙◌, inl, inr, true, false, none, some, ◌==◌, if_true, Option-cases, nat_eq,
  lookup, insert, lookup-insert, beq_refl,
}
use ssl_socks.Data.{RelayData, set_session}
use ssl_socks.Manager.Failing.{
  Built, is_built, not_made, start_local_udp_or, timeout_of, with_session, send_udp_data_or,
  add_request_or_built,
}
use ssl_socks.Manager.Request.{live_ssl, renew_ssl, add_request}
use ssl_socks.Manager.Request.Delivery.{
  add_request_live, add_request_new, Delivered, add_request-local,
}
use ssl_socks.Manager.World.{
  World, completed, thrown, call, is_stopped, make, is_remote, next_session, session_in, session_of,
}
use ssl_socks.Relay.{full_timeout}

add_request-udp_srcs :
    (b : RelayData) (w : World) → is_remote w.type ≡ false → (add_request b w).udp_srcs ≡ w.udp_srcs
unfolding call renew_ssl make
add_request-udp_srcs b w l = elim (Option-cases (live_ssl w)) [
  | inl dead ↦ rw (add_request_new b w dead l) refl
  | inr (p, live) ↦ rw (add_request_live b w p live) refl
]

session_of-with_session :
    (src : Sockaddr) (w : World) → session_of src (with_session src w) ≡ next_session w.session
unfolding session_of
session_of-with_session src w = ap session_in (
    lookup-insert src src (record { session = next_session w.session; timeout = timeout_of src w })
      w.srcs
    ∙ if_true _ (lookup src w.srcs) (beq_refl src))

-- A source that has its session is only forwarded.
known_source :
    (how : Built) (src : Sockaddr) (b : RelayData) (w : World) (s : ℕ)
    → session_of src w ≡ s
    → (s == 0) ≡ false
    → is_remote w.type ≡ false
    → (w' : World) × (send_udp_data_or how is_built src b w ≡ completed w')
      × ((q : ℕ) × Delivered (set_session s b) w' q)
      × (w'.udp_srcs ≡ w.udp_srcs)
unfolding send_udp_data_or
known_source how src b w s e n l =
    let v = record w {
      srcs = insert src (record { session = s; timeout = full_timeout }) w.srcs;
    } in
    (
      add_request (set_session s b) v,
      rw e (rw n (add_request_or_built (set_session s b) v)),
      add_request-local (set_session s b) v l,
      add_request-udp_srcs (set_session s b) v l,
    )

no_relay :
    (src : Sockaddr) (how_ssl : Built) (b : RelayData) (w : World) (p : ℕ)
    → session_of src w ≡ 0
    → w.udp_send ≡ some p
    → is_stopped w p ≡ true
    → send_udp_data_or not_made how_ssl src b w ≡ thrown (with_session src w)
unfolding send_udp_data_or start_local_udp_or
no_relay src how_ssl b w p new u stopped = rw new (simp (u, stopped))

-- On a server that is not remote, whose relay of local datagrams has stopped, a datagram of a new source
-- comes, and the constructor of a new relay throws. The exception leaves the handler, and the source with
-- the next session, which the counter then stands at. Where that is not 0 and no source has had it, the
-- next datagram of the source is the last thing posted to the TLS relay, under that session, if a TLS
-- relay that is needed can be made, and still no entry says to which source an answer goes.
pub send_udp_data_or-lost :
    (src : Sockaddr) (how how_ssl : Built) (b b' : RelayData) (w : World) (p : ℕ)
    → session_of src w ≡ 0
    → w.udp_send ≡ some p
    → is_stopped w p ≡ true
    → is_remote w.type ≡ false
    → (next_session w.session == 0) ≡ false
    → lookup (next_session w.session) w.udp_srcs ≡ none
    → (w' : World) × (w'' : World) × (send_udp_data_or not_made how_ssl src b w ≡ thrown w')
      × (w'.session ≡ next_session w.session)
      × (session_of src w' ≡ next_session w.session)
      × (send_udp_data_or how is_built src b' w' ≡ completed w'')
      × ((q : ℕ) × Delivered (set_session (next_session w.session) b') w'' q)
      × (lookup (next_session w.session) w''.udp_srcs ≡ none)
send_udp_data_or-lost src how how_ssl b b' w p new u stopped l n free =
    let s = next_session w.session in
    let has = session_of-with_session src w in
    let (w'', done, sent, same) = known_source how src b' (with_session src w) s has n l in
    (
      with_session src w,
      w'',
      no_relay src how_ssl b w p new u stopped,
      refl,
      has,
      done,
      sent,
      ap (lookup s) same ∙ free,
    )
