-- ===== src/Manager/Udp.antt =====
-- Datagrams of local clients, src/relay_manager.cpp (send_udp_data).
pub mod Sessions
use ssl_socks.Address.{Sockaddr, endpoint_eq}
use ssl_socks.Base.{ℕ, none, some, List, ◌==◌, if◌then◌else◌, nat_eq, lookup, insert}
use ssl_socks.Data.{RelayData, set_session}
use ssl_socks.Manager.Request.{add_request}
use ssl_socks.Manager.World.{
  World, Outcome, completed, fault, call, is_stopped, start_local_udp, next_session, session_of,
}
use ssl_socks.Relay.{full_timeout, add_peer_task, post}

-- std::map::insert, which leaves an entry that is there.
unfoldable pub insert_new : ℕ → Sockaddr → List (ℕ × Sockaddr) → List (ℕ × Sockaddr)
insert_new s e m = elim (lookup s m) [ none ↦ insert s e m | some old ↦ m ]

-- The session of a source that has none yet: the next one, known to the relay `p` of local UDP, or
-- to a new one if that is stopped.
unfoldable pub new_udp_session : ℕ → Sockaddr → World → World
unfolding insert_new
new_udp_session p src w =
    let s = next_session w.session in
    let w' = record w { session = s; udp_srcs = insert_new s src w.udp_srcs } in
    if is_stopped w p
    then call w.next (post (add_peer_task s src)) (start_local_udp w')
    else call p (post (add_peer_task s src)) w'

-- `sess.timeout = TIMEOUT; buf->session(sess.session); add_request(buf);`
unfoldable pub forward_udp : Sockaddr → ℕ → RelayData → World → World
forward_udp src s b w =
    add_request (set_session s b)
      (record w { srcs = insert src (record { session = s; timeout = full_timeout }) w.srcs })

-- send_udp_data(src, buf)
unfoldable pub send_udp_data : Sockaddr → RelayData → World → Outcome
unfolding session_of new_udp_session forward_udp
send_udp_data src b w =
    if session_of src w == 0
    then elim w.udp_send [
      | none ↦ fault
      | some p ↦ completed (forward_udp src (next_session w.session) b (new_udp_session p src w))
    ]
    else completed (forward_udp src (session_of src w) b w)
