-- ===== src/Tunnel/Datagrams.antt =====
-- A client's datagram from one end to the other: src/relay_acceptor.cpp receives it, both managers of
-- src/relay_manager.cpp route it, and src/raw_udp.cpp sends it.
use ssl_socks.Acceptor.Receive.{
  ControlKind, transparent_udp_recv_on, NoAddress, IsAddress, transparent_udp_recv_on-received,
}
use ssl_socks.Address.{Sockaddr, endpoint_eq, IsSockaddr, AddressText}
use ssl_socks.Address.RoundTrip.{unscoped}
use ssl_socks.Base.{
  ℕ, ◌≤◌, ◌≡◌, refl, sym, ap, ◌∙◌, subst, inl, inr, false, some, List, ◌∷◌, ◌++◌, ◌==◌, ==_iff,
  Bool-cases, length, Bytes, nat_eq, insert,
}
use ssl_socks.Data.{data_udp, RelayData, empty_udp, set_session}
use ssl_socks.Datagram.{UdpSocket, received, send_datagram, send_datagram-remote}
use ssl_socks.Manager.Request.Delivery.{Delivered, add_request-local}
use ssl_socks.Manager.Response.{add_response}
use ssl_socks.Manager.Response.Posting.{Posted, OthersStay, add_response-remote_udp}
use ssl_socks.Manager.Udp.{new_udp_session, forward_udp, send_udp_data}
use ssl_socks.Manager.Udp.Sessions.{new_udp_session-tables, sent_new, forwarded-tables}
use ssl_socks.Manager.World.{World, completed, is_remote, next_session, session_of}
use ssl_socks.Relay.{remote_server, full_timeout}

module _ (src : Sockaddr) (b : RelayData) (w : World) (l : is_remote w.type ≡ false) where
  -- A datagram that is forwarded carries the session of its source.
  forwarded_out :
      (s : ℕ) (v : World)
      → is_remote v.type ≡ false
      → (session_of src (forward_udp src s b v) ≡ s)
        × ((q : ℕ) × Delivered (set_session s b) (forward_udp src s b v) q)
  unfolding forward_udp
  forwarded_out s v k =
      let (n, r, own) = forwarded-tables src s b v k in
      (
        own,
        add_request-local (set_session s b)
            (record v { srcs = insert src (record { session = s; timeout = full_timeout }) v.srcs })
            k,
      )

  sent_known :
      (session_of src w == 0) ≡ false
      → send_udp_data src b w ≡ completed (forward_udp src (session_of src w) b w)
  unfolding send_udp_data
  sent_known k = rw (k, send_udp_data) refl

  -- A datagram of a client, whether its source is known or new, goes to the TLS relay with the
  -- session of its source.
  pub send_udp_data-Delivered :
      (p : ℕ)
      → w.udp_send ≡ some p
      → (w' : World) × (send_udp_data src b w ≡ completed w')
        × ((q : ℕ) × Delivered (set_session (session_of src w') b) w' q)
  send_udp_data-Delivered p u = elim (Bool-cases (session_of src w == 0)) [
    | inl fresh ↦
        let (counter, relays, type) = new_udp_session-tables p src w in
        let (own, out) =
          forwarded_out (next_session w.session) (new_udp_session p src w)
            (ap is_remote type ∙ l) in
        (
          forward_udp src (next_session w.session) b (new_udp_session p src w),
          sent_new src b w p ((==_iff (session_of src w) 0).0 fresh) u,
          subst
              (λ s.
                (q : ℕ) × Delivered (set_session s b)
                  (forward_udp src (next_session w.session) b (new_udp_session p src w)) q)
              (sym own) out,
        )
    | inr known ↦
        let (own, out) = forwarded_out (session_of src w) w l in
        (
          forward_udp src (session_of src w) b w,
          sent_known known,
          subst
              (λ s.
                (q : ℕ) × Delivered (set_session s b) (forward_udp src (session_of src w) b w) q)
              (sym own) out,
        )
  ]

received_cmd : (s : ℕ) (payload : Bytes) (a : Sockaddr) → (received s payload a).cmd ≡ data_udp
unfolding received empty_udp
received_cmd s payload a = refl

-- A client's datagram of at most 4077 bytes, that comes to a server which is not remote and has a
-- relay of local datagrams with the address it was meant for, in one control message among others of
-- no address, is handed to the TLS relay as a message of its source's session. Given that message, a
-- remote server posts it to a running relay of that session, and changes no other session's; and
-- what that relay sends is the datagram, to that address without its scope id.
pub send_udp_data-add_response :
    (t : AddressText) (cs ds : List (ControlKind × Sockaddr)) (k : ControlKind) (dst src : Sockaddr)
    (payload : Bytes) (near far : World) (p : ℕ) (u : UdpSocket)
    → NoAddress cs
    → NoAddress ds
    → IsAddress k
    → IsSockaddr dst
    → length payload ≤ 4077
    → is_remote near.type ≡ false
    → near.udp_send ≡ some p
    → far.type ≡ remote_server
    → (m : RelayData) × (near' : World) × (far' : World) × (send_udp_data src
          (transparent_udp_recv_on
            (record { source = src; payload = some payload; controls = cs ++ (k, dst) ∷ ds }))
          near
        ≡ completed near')
      × (m.session ≡ session_of src near')
      × ((q : ℕ) × Delivered m near' q)
      × (add_response t m far ≡ completed far')
      × ((r : ℕ) × Posted m far' r × OthersStay m far far')
      × ((send_datagram remote_server m u).1 ≡ payload)
      × ((send_datagram remote_server m u).2 ≡ unscoped dst)
send_udp_data-add_response t cs ds k dst src payload near far p u h n i a f l e y =
    let b = received 0 payload dst in
    let same = transparent_udp_recv_on-received cs ds k dst src payload h n i f in
    let (near', sent, out) = send_udp_data-Delivered src b near l p e in
    let m = set_session (session_of src near') b in
    let (far', done, there) = add_response-remote_udp t m far (received_cmd 0 payload dst) y in
    let (bytes, where_to) = send_datagram-remote (session_of src near') payload dst u a f in
    (
      m,
      near',
      far',
      ap (λ d. send_udp_data src d near) same ∙ sent,
      refl,
      out,
      done,
      there,
      bytes,
      where_to,
    )
