-- ===== src/Acceptor/Clients/Completes.antt =====
-- The loops for clients come through, src/relay_acceptor.cpp.
-- The relay for datagrams is there.
use ssl_socks.Acceptor.Clients.{
  ClientEvent, ends_accept, ends_wait, local_accept, local_udp_accept, ClientLoops, client_step,
  client_calls, both_loops, remote_side, client_side, start_accept,
}
use ssl_socks.Acceptor.Remote.{new_remote_acceptor, remote_accept}
use ssl_socks.Address.{Sockaddr, AddressText}
use ssl_socks.Base.{
  ℕ, ◌<◌, ◌≡◌, refl, ap, ◌∙◌, inl, inr, Bool, true, false, Option, none, some, List, [], ◌∷◌, ◌++◌,
  ◌==◌, Bool-cases, if_false, either_branch, Option-cases, nat_eq, lookup,
}
use ssl_socks.Data.{RelayData}
use ssl_socks.Manager.Request.{live_ssl, renew_ssl, add_request, add_local_raw_tcp}
use ssl_socks.Manager.Request.Delivery.{add_request_live, add_request_new, add_request_dead}
use ssl_socks.Manager.Response.{and_then}
use ssl_socks.Manager.Run.{
  ManagerCall, adds_request, adds_response, sends_udp, starts_manager, adds_local_tcp, sets_ssl,
  ticks_timer, make_idle, manager_call, run_calls,
}
use ssl_socks.Manager.Run.Soundness.{run_calls-registered}
use ssl_socks.Manager.Udp.{new_udp_session, forward_udp, send_udp_data}
use ssl_socks.Manager.World.{
  World, Outcome, completed, call, is_stopped, make, stop_each, stop_manager, start_local_udp,
  new_manager, is_remote, manager_start, next_session, session_of,
}
use ssl_socks.Relay.{
  ServerType, local_server, remote_server, local_transparent, raw_tcp, stop_relay,
}

abbrev HasUdp : World → Type 0
HasUdp w = (p : ℕ) × (w.udp_send ≡ some p)

stop_each-udp : (m : List (ℕ × Option ℕ)) (w : World) → (stop_each m w).udp_send ≡ w.udp_send
unfolding stop_each call
stop_each-udp [] w = refl
stop_each-udp ((s, none) ∷ m) w = stop_each-udp m w
stop_each-udp ((s, some p) ∷ m) w = stop_each-udp m (call p stop_relay w)

add_request-udp : (b : RelayData) (w : World) → (add_request b w).udp_send ≡ w.udp_send
unfolding renew_ssl stop_manager make call
add_request-udp b w = elim (Option-cases (live_ssl w)) [
  | inr (p, live) ↦ rw (add_request_live b w p live) refl
  | inl dead ↦ elim (Bool-cases (is_remote w.type)) [
    | inl r ↦ rw (add_request_dead b w dead r) (stop_each-udp w.relays w)
    | inr l ↦ rw (add_request_new b w dead l) refl
  ]
]

add_local_raw_tcp-udp : (p : ℕ) (w : World) → (add_local_raw_tcp p w).udp_send ≡ w.udp_send
unfolding add_local_raw_tcp
add_local_raw_tcp-udp p w = elim (Option-cases (lookup w.session w.relays)) [
  | inl absent ↦ rw (absent, add_local_raw_tcp) refl
  | inr (o, here) ↦ rw (here, add_local_raw_tcp) refl
]

new_udp_session-HasUdp :
    (p : ℕ) (src : Sockaddr) (w : World) → HasUdp w → HasUdp (new_udp_session p src w)
unfolding new_udp_session start_local_udp call make
new_udp_session-HasUdp p src w h = either_branch HasUdp (is_stopped w p) (w.next, refl) h

-- A call that completes, and leaves the relay for datagrams.
Completes : Outcome → Type 0
Completes o = (w : World) × (o ≡ completed w) × HasUdp w

forward_udp-HasUdp :
    (src : Sockaddr) (s : ℕ) (b : RelayData) (w : World) → HasUdp w → HasUdp (forward_udp src s b w)
unfolding forward_udp
forward_udp-HasUdp src s b w (p, e) = (p, add_request-udp (record b { session = s }) _ ∙ e)

send_udp_data-Completes :
    (src : Sockaddr) (b : RelayData) (w : World) → HasUdp w → Completes (send_udp_data src b w)
unfolding send_udp_data Completes
send_udp_data-Completes src b w (p, e) =
    either_branch Completes (session_of src w == 0)
      (rw e (
        forward_udp src (next_session w.session) b (new_udp_session p src w),
        refl,
        forward_udp-HasUdp src (next_session w.session) b (new_udp_session p src w)
            (new_udp_session-HasUdp p src w (p, e)),
      ))
      (
        forward_udp src (session_of src w) b w,
        refl,
        forward_udp-HasUdp src (session_of src w) b w (p, e),
      )

-- The calls that the loops make.
abbrev IsClientCall : ManagerCall → Type 0
IsClientCall adds_local_tcp = Unit {0}
IsClientCall (sends_udp src b) = Unit {0}
IsClientCall _ = ⊥

abbrev AllClientCalls : List ManagerCall → Type 0
AllClientCalls [] = Unit {0}
AllClientCalls (c ∷ cs) = IsClientCall c × AllClientCalls cs

AllClientCalls-append :
    (cs ds : List ManagerCall) → AllClientCalls cs → AllClientCalls ds → AllClientCalls (cs ++ ds)
AllClientCalls-append [] ds h k = k
AllClientCalls-append (c ∷ cs) ds h k = (h.0, AllClientCalls-append cs ds h.1 k)

client_step-AllClientCalls :
    (e : ClientEvent) (l : ClientLoops) → AllClientCalls (client_step e l).1
unfolding client_step local_accept local_udp_accept
client_step-AllClientCalls (ends_accept true) l =
    either_branch {A = ClientLoops × List ManagerCall} (λ x. AllClientCalls x.1) l.accepting
      (tt, tt) tt
client_step-AllClientCalls (ends_accept false) l =
    either_branch {A = ClientLoops × List ManagerCall} (λ x. AllClientCalls x.1) l.accepting tt tt
client_step-AllClientCalls (ends_wait none) l =
    either_branch {A = ClientLoops × List ManagerCall} (λ x. AllClientCalls x.1) l.receiving tt tt
client_step-AllClientCalls (ends_wait (some m)) l =
    either_branch {A = ClientLoops × List ManagerCall} (λ x. AllClientCalls x.1) l.receiving
      (tt, tt) tt

client_calls-AllClientCalls :
    (es : List ClientEvent) (l : ClientLoops) → AllClientCalls (client_calls es l)
unfolding client_calls
client_calls-AllClientCalls [] l = tt
client_calls-AllClientCalls (e ∷ es) l =
    AllClientCalls-append (client_step e l).1 (client_calls es (client_step e l).0)
      (client_step-AllClientCalls e l) (client_calls-AllClientCalls es (client_step e l).0)

client_call-Completes :
    (t : AddressText) (c : ManagerCall) (w : World)
    → IsClientCall c
    → HasUdp w
    → Completes (manager_call t c w)
unfolding manager_call Completes make_idle
client_call-Completes t adds_local_tcp w i (p, e) = (
  add_local_raw_tcp w.next (make_idle raw_tcp w),
  refl,
  (p, add_local_raw_tcp-udp w.next (make_idle raw_tcp w) ∙ e),
)
client_call-Completes t (sends_udp src b) w i h = send_udp_data-Completes src b w h
client_call-Completes t (adds_request b) w i h = absurd i
client_call-Completes t (adds_response b) w i h = absurd i
client_call-Completes t starts_manager w i h = absurd i
client_call-Completes t sets_ssl w i h = absurd i
client_call-Completes t ticks_timer w i h = absurd i

client_calls-Completes :
    (t : AddressText) (cs : List ManagerCall) (w : World)
    → AllClientCalls cs
    → HasUdp w
    → Completes (run_calls t cs w)
unfolding run_calls Completes
client_calls-Completes t [] w i h = (w, refl, h)
client_calls-Completes t (c ∷ cs) w i h =
    let (v, done, udp) = client_call-Completes t c w i.0 h in
    let (w', rest, last) = client_calls-Completes t cs v i.1 udp in
    (w', ap (λ o. and_then o (run_calls t cs)) done ∙ rest, last)

manager_start-HasUdp :
    (k : ServerType) → is_remote k ≡ false → HasUdp (manager_start (new_manager k))
unfolding manager_start new_manager start_local_udp make
manager_start-HasUdp local_server l = (0, refl)
manager_start-HasUdp local_transparent l = (0, refl)
manager_start-HasUdp remote_server l = absurd (cc)

-- On a server that is not remote, where relays can be made, whatever connections, datagrams and errors of
-- the two loops come, in any order, each call of the manager is handled to its end, and then a session
-- is registered only with a relay that was made and has that session.
pub start_accept-completes :
    (t : AddressText) (k : ServerType) (arrivals : List Bool) (es : List ClientEvent)
    → is_remote k ≡ false
    → (w : World) × (start_accept t k arrivals es ≡ client_side (completed w))
      × ((s p : ℕ) → lookup s w.relays ≡ some (some p) → (p < w.next) × ((w.objects p).session ≡ s))
unfolding start_accept run_calls Completes manager_call
start_accept-completes t k arrivals es l =
    let (w, done, udp) = runs_through in
    (
      w,
      if_false (remote_side (remote_accept k arrivals (new_remote_acceptor k)))
            (client_side
              (run_calls t (starts_manager ∷ client_calls es both_loops) (new_manager k)))
            l
          ∙ ap client_side done,
      λ s p. run_calls-registered t k (starts_manager ∷ client_calls es both_loops) w s p done,
    )
  where
    runs_through :
        Completes (run_calls t (starts_manager ∷ client_calls es both_loops) (new_manager k))
    runs_through =
        client_calls-Completes t (client_calls es both_loops) (manager_start (new_manager k))
          (client_calls-AllClientCalls es both_loops) (manager_start-HasUdp k l)
