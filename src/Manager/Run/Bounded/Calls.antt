-- ===== src/Manager/Run/Bounded/Calls.antt =====
-- Any sequence of calls keeps the bounds, src/relay_manager.cpp.
use ssl_socks.Address.{Sockaddr, endpoint_eq, AddressText}
use ssl_socks.Base.{
  ℕ, ◌^◌, ◌≤◌, ◌<◌, ◌≡◌, refl, inl, inr, none, some, List, [], ◌∷◌, arith, ◌==◌, either_branch,
  Option-cases, length, nat_eq, lookup, insert,
}
use ssl_socks.Data.{read_buffer_size, RelayData, set_session, IsMessage}
use ssl_socks.Data.Wire.{IsNamed}
use ssl_socks.Manager.Request.{add_local_raw_tcp}
use ssl_socks.Manager.Run.{
  ManagerCall, adds_request, adds_response, sends_udp, starts_manager, adds_local_tcp, sets_ssl,
  ticks_timer, make_idle, manager_call, run_calls,
}
use ssl_socks.Manager.Run.Bounded.{
  IsBounded, Happens, Stores-update, call-IsBounded, IsBounded-same, add_request-IsBounded,
}
use ssl_socks.Manager.Run.Bounded.Responses.{
  start_local_udp-IsBounded, AllInBounds-insert, session_of-word, add_response-IsBounded,
}
use ssl_socks.Manager.Run.Bounded.Rounds.{timer_round-IsBounded}
use ssl_socks.Manager.Run.Kept.{Ensures, Ensures-and_then}
use ssl_socks.Manager.Udp.{insert_new, new_udp_session, forward_udp, send_udp_data}
use ssl_socks.Manager.World.{
  World, completed, fault, is_stopped, start_local_udp, new_manager, set_ssl, is_remote,
  manager_start, next_session, session_of,
}
use ssl_socks.Relay.{
  ServerType, full_timeout, RelayKind, raw_tcp, ssl_relay, add_peer_task, post, calls_add_peer,
  step,
}
use ssl_socks.Relay.Fifo.{taken}
use ssl_socks.Relay.History.{IsSendable, new_relay-HasHistory, step-HasHistory}

add_peer-Happens : (s : ℕ) (e : Sockaddr) → Happens (post (add_peer_task s e))
unfolding step
add_peer-Happens s e r h = step-HasHistory r (calls_add_peer s e) tt h

new_udp_session-IsBounded :
    (p : ℕ) (src : Sockaddr) (w : World) → IsBounded w → IsBounded (new_udp_session p src w)
unfolding new_udp_session
new_udp_session-IsBounded p src w h =
    let s = next_session w.session in
    let w' = record w { session = s; udp_srcs = insert_new s src w.udp_srcs } in
    let h' : IsBounded w' = record {
      counter = omega arith;
      sources = h.sources;
      histories = h.histories;
    } in
    either_branch {A = World} IsBounded (is_stopped w p)
      (call-IsBounded w.next (post (add_peer_task s src)) (start_local_udp w')
        (add_peer-Happens s src) (start_local_udp-IsBounded w' h'))
      (call-IsBounded p (post (add_peer_task s src)) w' (add_peer-Happens s src) h')

-- What a datagram's message is before it is given its session.
pub record IsUnsent (b : RelayData) : Type 0 where
  pub fits : b.len ≤ read_buffer_size
  pub buffer : length b.bytes ≡ read_buffer_size
  pub named : IsNamed b.cmd

forward_udp-IsBounded :
    (src : Sockaddr) (s : ℕ) (b : RelayData) (w : World)
    → s < 2 ^ 32
    → IsUnsent b
    → IsBounded w
    → IsBounded (forward_udp src s b w)
unfolding forward_udp
forward_udp-IsBounded src s b w l u h =
    add_request-IsBounded (set_session s b)
      (record w { srcs = insert src (record { session = s; timeout = full_timeout }) w.srcs })
      (record { message = record { fits = u.fits; buffer = u.buffer; word = l }; named = u.named })
      (record {
        counter = h.counter;
        sources = AllInBounds-insert src _ w.srcs l (omega arith) h.sources;
        histories = h.histories;
      })

send_udp_data-IsBounded :
    (src : Sockaddr) (b : RelayData) (w : World)
    → IsUnsent b
    → IsBounded w
    → Ensures IsBounded (send_udp_data src b w)
unfolding send_udp_data
send_udp_data-IsBounded src b w u h =
    either_branch (Ensures IsBounded) (session_of src w == 0)
      (elim w.udp_send
        as (λ o. Ensures IsBounded (elim o [
          | none ↦ fault
          | some p ↦
              completed (forward_udp src (next_session w.session) b (new_udp_session p src w))
        ])) [
          | none ↦ tt
          | some p ↦
              forward_udp-IsBounded src (next_session w.session) b (new_udp_session p src w)
                (omega arith) u (new_udp_session-IsBounded p src w h)
        ])
      (forward_udp-IsBounded src (session_of src w) b w (session_of-word src w h) u h)

make_idle-IsBounded : (k : RelayKind) (w : World) → IsBounded w → IsBounded (make_idle k w)
unfolding make_idle
make_idle-IsBounded k w h = record {
  counter = h.counter;
  sources = h.sources;
  histories = Stores-update w.objects w.next _ (new_relay-HasHistory k) h.histories;
}

add_local_tcp-IsBounded :
    (w : World) → IsBounded w → IsBounded (add_local_raw_tcp w.next (make_idle raw_tcp w))
unfolding add_local_raw_tcp
add_local_tcp-IsBounded w h =
    let idle = make_idle raw_tcp w in
    let h' = make_idle-IsBounded raw_tcp w h in
    elim (Option-cases (lookup idle.session idle.relays)) [
      | inl free ↦
          rw (free, add_local_raw_tcp)
            (record {
              counter = omega arith;
              sources = h'.sources;
              histories = Stores-update idle.objects w.next _ (h'.histories w.next) h'.histories;
            })
      | inr (o, taken) ↦
          rw (taken, add_local_raw_tcp)
            (record { counter = omega arith; sources = h'.sources; histories = h'.histories })
    ]

-- What the messages of a call are like: a request has a name and fits, what comes from the other side
-- fits, and the session of a datagram is still to be given.
abbrev pub CallFits : ManagerCall → Type 0
CallFits (adds_request b) = IsSendable b
CallFits (adds_response b) = IsMessage b
CallFits (sends_udp src b) = IsUnsent b
CallFits _ = Unit {0}

abbrev pub AllCallsFit : List ManagerCall → Type 0
AllCallsFit [] = Unit {0}
AllCallsFit (c ∷ cs) = CallFits c × AllCallsFit cs

pub manager_call-IsBounded :
    (t : AddressText) (c : ManagerCall) (w : World)
    → CallFits c
    → IsBounded w
    → Ensures IsBounded (manager_call t c w)
unfolding manager_call manager_start set_ssl
manager_call-IsBounded t (adds_request b) w f h = add_request-IsBounded b w f h
manager_call-IsBounded t (adds_response b) w f h = add_response-IsBounded b w f h t
manager_call-IsBounded t (sends_udp src b) w f h = send_udp_data-IsBounded src b w f h
manager_call-IsBounded t starts_manager w f h =
    either_branch {A = World} IsBounded (is_remote w.type) h (start_local_udp-IsBounded w h)
manager_call-IsBounded t adds_local_tcp w f h = add_local_tcp-IsBounded w h
manager_call-IsBounded t sets_ssl w f h =
    IsBounded-same (make_idle ssl_relay w) _ refl refl refl (make_idle-IsBounded ssl_relay w h)
manager_call-IsBounded t ticks_timer w f h = timer_round-IsBounded w h

pub run_calls-IsBounded :
    (t : AddressText) (cs : List ManagerCall) (w : World)
    → AllCallsFit cs
    → IsBounded w
    → Ensures IsBounded (run_calls t cs w)
unfolding run_calls
run_calls-IsBounded t [] w f h = h
run_calls-IsBounded t (c ∷ cs) w f h =
    Ensures-and_then IsBounded (manager_call t c w) (run_calls t cs)
      (manager_call-IsBounded t c w f.0 h) (λ w' h'. run_calls-IsBounded t cs w' f.1 h')

pub new_manager-IsBounded : (k : ServerType) → IsBounded (new_manager k)
unfolding new_manager
new_manager-IsBounded k = record {
  counter = omega arith;
  sources = tt;
  histories = λ p. new_relay-HasHistory raw_tcp;
}
