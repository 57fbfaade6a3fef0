-- ===== src/Manager/Udp/Sessions.antt =====
-- How sessions are given out, src/relay_manager.cpp (send_udp_data, add_local_raw_tcp).
use ssl_socks.Address.{Sockaddr, endpoint_eq}
use ssl_socks.Base.{
  ℕ, ◌≡◌, refl, sym, ap, ◌∙◌, subst, inl, inr, true, false, none, some, ==_refl, if_true,
  either_branch, Option-cases, nat_eq, lookup, insert, lookup-insert, beq_refl,
}
use ssl_socks.Data.{RelayData}
use ssl_socks.Manager.Request.{live_ssl, renew_ssl, add_request, add_local_raw_tcp}
use ssl_socks.Manager.Request.Delivery.{add_request_live, add_request_new}
use ssl_socks.Manager.Udp.{new_udp_session, forward_udp, send_udp_data}
use ssl_socks.Manager.World.{
  UdpTimeout, World, completed, fault, call, is_stopped, make, start_local_udp, is_remote,
  next_session, session_in, session_of,
}
use ssl_socks.Relay.{full_timeout}

-- Where a relay `p` gets the counter's session if that is free, it is registered and started under it.
pub add_local_raw_tcp-free :
    (p : ℕ) (w : World)
    → lookup w.session w.relays ≡ none
    → (lookup w.session (add_local_raw_tcp p w).relays ≡ some (some p))
      × (((add_local_raw_tcp p w).objects p).session ≡ w.session)
      × (((add_local_raw_tcp p w).objects p).started ≡ true)
      × ((add_local_raw_tcp p w).session ≡ next_session w.session)
unfolding add_local_raw_tcp
add_local_raw_tcp-free p w e =
    rw (e, add_local_raw_tcp)
      (
        lookup-insert w.session w.session (some p) w.relays ∙ rw (==_refl w.session) refl,
        rw (==_refl p) refl,
        rw (==_refl p) refl,
        refl,
      )

-- On a server that is not remote, a request changes neither the counter nor the tables.
Keeps : World → World → Type 0
Keeps w w' =
    (w'.session ≡ w.session) × (w'.relays ≡ w.relays) × (w'.srcs ≡ w.srcs) × (w'.type ≡ w.type)

add_request-Keeps :
    (b : RelayData) (w : World) → is_remote w.type ≡ false → Keeps w (add_request b w)
unfolding Keeps renew_ssl call make
add_request-Keeps b w l = elim (Option-cases (live_ssl w)) [
  | inl n ↦ rw (add_request_new b w n l) (refl, refl, refl, refl)
  | inr (p, e) ↦ rw (add_request_live b w p e) (refl, refl, refl, refl)
]

-- A new session moves the counter, and leaves the relays as they are.
pub new_udp_session-tables :
    (p : ℕ) (src : Sockaddr) (w : World)
    → ((new_udp_session p src w).session ≡ next_session w.session)
      × ((new_udp_session p src w).relays ≡ w.relays)
      × ((new_udp_session p src w).type ≡ w.type)
unfolding new_udp_session start_local_udp call make
new_udp_session-tables p src w =
    either_branch {A = World}
      (λ w'. (w'.session ≡ next_session w.session) × (w'.relays ≡ w.relays) × (w'.type ≡ w.type))
      (is_stopped w p) (refl, refl, refl) (refl, refl, refl)

pub sent_new :
    (src : Sockaddr) (b : RelayData) (w : World) (p : ℕ)
    → session_of src w ≡ 0
    → w.udp_send ≡ some p
    → send_udp_data src b w
      ≡ completed (forward_udp src (next_session w.session) b (new_udp_session p src w))
unfolding send_udp_data
sent_new src b w p z u =
    rw (z, send_udp_data)
      (subst
        (λ o.
          elim o [
            | none ↦ fault
            | some q ↦
                completed (forward_udp src (next_session w.session) b (new_udp_session q src w))
          ]
          ≡ completed (forward_udp src (next_session w.session) b (new_udp_session p src w)))
        (sym u) refl)

-- What a forwarded datagram leaves in the tables.
pub forwarded-tables :
    (src : Sockaddr) (s : ℕ) (b : RelayData) (w : World)
    → is_remote w.type ≡ false
    → ((forward_udp src s b w).session ≡ w.session)
      × ((forward_udp src s b w).relays ≡ w.relays)
      × (session_of src (forward_udp src s b w) ≡ s)
unfolding forward_udp session_of Keeps
forwarded-tables src s b w l =
    let u : UdpTimeout = record { session = s; timeout = full_timeout } in
    let w' : World = record w { srcs = insert src u w.srcs } in
    let (n, r, m, t) = add_request-Keeps (record b { session = s }) w' l in
    (
      n,
      r,
      ap (λ m. session_in (lookup src m)) m
          ∙ ap session_in (
              lookup-insert src src u w.srcs ∙ if_true (some u) (lookup src w.srcs) (beq_refl src)),
    )

-- On a server that is not remote, with a relay of local datagrams, a datagram of a new source is
-- given the session after the counter, and the next TCP connection, where that session has no
-- relay yet, is registered under the very session that the source has.
pub send_udp_data-add_local_raw_tcp :
    (src : Sockaddr) (b : RelayData) (w : World) (p q : ℕ)
    → is_remote w.type ≡ false
    → session_of src w ≡ 0
    → w.udp_send ≡ some p
    → lookup (next_session w.session) w.relays ≡ none
    → (w' : World) × (send_udp_data src b w ≡ completed w')
      × (session_of src w' ≡ next_session w.session)
      × (lookup (session_of src w') (add_local_raw_tcp q w').relays ≡ some (some q))
      × (((add_local_raw_tcp q w').objects q).session ≡ session_of src w')
send_udp_data-add_local_raw_tcp src b w p q l z u free =
    let made = new_udp_session p src w in
    let (counter, relays, type) = new_udp_session-tables p src w in
    let w' = forward_udp src (next_session w.session) b made in
    let (n, r, own) =
      forwarded-tables src (next_session w.session) b made (ap is_remote type ∙ l) in
    let at : w'.session ≡ next_session w.session = n ∙ counter in
    let (entry, session, _, _) = add_local_raw_tcp-free q w' (rw (at, r, relays) free) in
    let same : w'.session ≡ session_of src w' = at ∙ sym own in
    (
      w',
      sent_new src b w p z u,
      own,
      subst (λ s. lookup s (add_local_raw_tcp q w').relays ≡ some (some q)) same entry,
      session ∙ same,
    )
