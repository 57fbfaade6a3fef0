-- ===== src/Manager/Run/Soundness.antt =====
-- Any sequence of calls keeps the table of sessions sound, src/relay_manager.cpp.
use ssl_socks.Address.{Sockaddr, endpoint_eq, AddressText}
use ssl_socks.Base.{
  ℕ, ◌-◌, ◌<◌, ◌≡◌, refl, subst, inl, inr, true, Option, none, some, List, [], ◌∷◌, arith, leb,
  ◌==◌, if◌then◌else◌, ==_refl, either_branch, Option-cases, nat_eq, lookup, erase,
}
use ssl_socks.Data.{RelayData}
use ssl_socks.Manager.Request.{add_local_raw_tcp}
use ssl_socks.Manager.Response.{and_then}
use ssl_socks.Manager.Run.{
  ManagerCall, adds_request, adds_response, sends_udp, starts_manager, adds_local_tcp, sets_ssl,
  ticks_timer, make_idle, manager_call, run_calls,
}
use ssl_socks.Manager.Run.Kept.{
  IsRegistered, Ensures, Ensures-and_then, call-IsRegistered, add_request-IsRegistered,
}
use ssl_socks.Manager.Run.Registered.{
  Registered, Grows, Fits-Grows, Registered-Grows, Grows-trans, Grows-call, ==_ne,
  Registered-insert, Registered-lookup,
}
use ssl_socks.Manager.Run.Steps.{start_local_udp-IsRegistered, add_response-IsRegistered}
use ssl_socks.Manager.Timer.{del_peer_of, sweep_srcs, count_down, sweep_relays, sweeps, timer_round}
use ssl_socks.Manager.Udp.{insert_new, new_udp_session, forward_udp, send_udp_data}
use ssl_socks.Manager.World.{
  UdpTimeout, World, completed, fault, update, call, is_stopped, stop_manager, new_manager, set_ssl,
  is_remote, manager_start, next_session, session_of,
}
use ssl_socks.Relay.{ServerType, raw_tcp, ssl_relay, del_peer_task, post, timeout_down}
use ssl_socks.Relay.Fifo.{taken}

new_udp_session-IsRegistered :
    (p : ℕ) (src : Sockaddr) (w : World) → IsRegistered w → IsRegistered (new_udp_session p src w)
unfolding new_udp_session
new_udp_session-IsRegistered p src w h =
    either_branch {A = World} IsRegistered (is_stopped w p)
      (call-IsRegistered w.next _ _ (
        start_local_udp-IsRegistered
          (record w {
            session = next_session w.session;
            udp_srcs = insert_new (next_session w.session) src w.udp_srcs;
          })
          h))
      (call-IsRegistered p _ _ h)

forward_udp-IsRegistered :
    (src : Sockaddr) (s : ℕ) (b : RelayData) (w : World)
    → IsRegistered w
    → IsRegistered (forward_udp src s b w)
unfolding forward_udp
forward_udp-IsRegistered src s b w h = add_request-IsRegistered (record b { session = s }) _ h

send_udp_data-IsRegistered :
    (src : Sockaddr) (b : RelayData) (w : World)
    → IsRegistered w
    → Ensures IsRegistered (send_udp_data src b w)
unfolding send_udp_data
send_udp_data-IsRegistered src b w h =
    either_branch (Ensures IsRegistered) (session_of src w == 0)
      (elim w.udp_send
        as (λ o. Ensures IsRegistered (elim o [
          | none ↦ fault
          | some p ↦
              completed (forward_udp src (next_session w.session) b (new_udp_session p src w))
        ])) [
          | none ↦ tt
          | some p ↦
              forward_udp-IsRegistered src (next_session w.session) b (new_udp_session p src w)
                (new_udp_session-IsRegistered p src w h)
        ])
      (forward_udp-IsRegistered src (session_of src w) b w h)

add_local_tcp-IsRegistered :
    (w : World) → IsRegistered w → IsRegistered (add_local_raw_tcp w.next (make_idle raw_tcp w))
unfolding add_local_raw_tcp make_idle
add_local_tcp-IsRegistered w h =
    let idle = make_idle raw_tcp w in
    let v : World = record idle {
      objects =
          update idle.objects w.next
            (record (idle.objects w.next) { session = w.session; started = true });
    } in
    elim (Option-cases (lookup w.session w.relays)) [
      | inl free ↦
          rw (free, add_local_raw_tcp)
            (Registered-insert v w.session (some w.next) w.relays
              (omega arith, rw (==_refl w.next) refl)
              (Registered-Grows w v w.relays
                (record {
                  more = omega arith;
                  same = λ q l. rw (==_ne w.next q (omega arith)) refl;
                })
                h))
      | inr (o, taken) ↦
          rw (taken, add_local_raw_tcp)
            (Registered-Grows w idle w.relays
              (record { more = omega arith; same = λ q l. rw (==_ne w.next q (omega arith)) refl })
              h)
    ]

del_peer_of-IsRegistered :
    (s : ℕ) (w : World) → IsRegistered w → Ensures IsRegistered (del_peer_of s w)
unfolding del_peer_of
del_peer_of-IsRegistered s w h =
    elim w.udp_send
      as (λ o.
        Ensures IsRegistered
          (elim o [ none ↦ fault | some p ↦ completed (call p (post (del_peer_task s)) w) ])) [
            | none ↦ tt
            | some p ↦ call-IsRegistered p (post (del_peer_task s)) w h
          ]

sweep_srcs-IsRegistered :
    (m : List (Sockaddr × UdpTimeout)) (w : World)
    → IsRegistered w
    → Ensures IsRegistered (sweep_srcs m w)
unfolding sweep_srcs
sweep_srcs-IsRegistered [] w h = h
sweep_srcs-IsRegistered ((e, u) ∷ rest) w h =
    either_branch (Ensures IsRegistered) (leb (u.timeout - 1) 0)
      (Ensures-and_then IsRegistered (del_peer_of u.session _) (sweep_srcs rest)
        (del_peer_of-IsRegistered u.session (record w { udp_srcs = erase u.session w.udp_srcs }) h)
        (sweep_srcs-IsRegistered rest))
      (Ensures-and_then IsRegistered (sweep_srcs rest w) _ (sweep_srcs-IsRegistered rest w h)
        (λ w' h'. h'))

-- The sweep of the relays only counts down, on relays that there are.
sweep_relays-Grows : (m : List (ℕ × Option ℕ)) (w : World) → Grows w (sweep_relays m w)
unfolding sweep_relays count_down
sweep_relays-Grows [] w = record { more = omega arith; same = λ q l. refl }
sweep_relays-Grows ((s, none) ∷ rest) w = sweep_relays-Grows rest w
sweep_relays-Grows ((s, some p) ∷ rest) w =
    let w' = call p (λ r. (timeout_down r).0) w in
    let g = Grows-trans (Grows-call p (λ r. (timeout_down r).0) w) (sweep_relays-Grows rest w') in
    either_branch {A = World} (Grows w) ((timeout_down (w.objects p).relay).1 == 0) g
      (record { more = g.more; same = g.same })

sweep_relays-IsRegistered :
    (m : List (ℕ × Option ℕ)) (w : World) → Registered w m → IsRegistered (sweep_relays m w)
unfolding sweep_relays count_down
sweep_relays-IsRegistered [] w h = tt
sweep_relays-IsRegistered ((s, none) ∷ rest) w h = sweep_relays-IsRegistered rest w h.1
sweep_relays-IsRegistered ((s, some p) ∷ rest) w h =
    let w' = call p (λ r. (timeout_down r).0) w in
    let g = Grows-call p (λ r. (timeout_down r).0) w in
    let swept = sweep_relays-IsRegistered rest w' (Registered-Grows w w' rest g h.1) in
    either_branch {A = World} IsRegistered ((timeout_down (w.objects p).relay).1 == 0) swept (
      Fits-Grows w (sweep_relays rest w') s (some p) (Grows-trans g (sweep_relays-Grows rest w'))
          h.0,
      swept,
    )

sweeps-IsRegistered : (w : World) → IsRegistered w → Ensures IsRegistered (sweeps w)
unfolding sweeps
sweeps-IsRegistered w h =
    Ensures-and_then IsRegistered (sweep_srcs w.srcs w) _ (sweep_srcs-IsRegistered w.srcs w h)
      (λ w' h'. sweep_relays-IsRegistered w'.relays w' h')

timer_round-IsRegistered : (w : World) → IsRegistered w → Ensures IsRegistered (timer_round w)
unfolding timer_round count_down stop_manager
timer_round-IsRegistered w h =
    elim w.ssl
      as (λ o. Ensures IsRegistered (elim o [
        | none ↦ sweeps w
        | some p ↦
            let (w', left) = count_down p w in
            if left == 0
            then (if is_remote w.type
                then completed (stop_manager w')
                else and_then (del_peer_of 0 (record w' { udp_srcs = []; srcs = [] })) sweeps)
            else sweeps w'
      ])) [
        | none ↦ sweeps-IsRegistered w h
        | some p ↦
            let w' = call p (λ r. (timeout_down r).0) w in
            let h' = call-IsRegistered p (λ r. (timeout_down r).0) w h in
            either_branch (Ensures IsRegistered) ((timeout_down (w.objects p).relay).1 == 0)
              (either_branch (Ensures IsRegistered) (is_remote w.type) tt (
                Ensures-and_then IsRegistered
                  (del_peer_of 0 (record w' { udp_srcs = []; srcs = [] })) sweeps
                  (del_peer_of-IsRegistered 0 (record w' { udp_srcs = []; srcs = [] }) h')
                  sweeps-IsRegistered))
              (sweeps-IsRegistered w' h')
      ]

pub manager_call-IsRegistered :
    (t : AddressText) (c : ManagerCall) (w : World)
    → IsRegistered w
    → Ensures IsRegistered (manager_call t c w)
unfolding manager_call manager_start set_ssl make_idle
manager_call-IsRegistered t (adds_request b) w h = add_request-IsRegistered b w h
manager_call-IsRegistered t (adds_response b) w h = add_response-IsRegistered b w h t
manager_call-IsRegistered t (sends_udp src b) w h = send_udp_data-IsRegistered src b w h
manager_call-IsRegistered t starts_manager w h =
    either_branch {A = World} IsRegistered (is_remote w.type) h (start_local_udp-IsRegistered w h)
manager_call-IsRegistered t adds_local_tcp w h = add_local_tcp-IsRegistered w h
manager_call-IsRegistered t sets_ssl w h =
    Registered-Grows w (make_idle ssl_relay w) w.relays
      (record { more = omega arith; same = λ q l. rw (==_ne w.next q (omega arith)) refl }) h
manager_call-IsRegistered t ticks_timer w h = timer_round-IsRegistered w h

run_calls-IsRegistered :
    (t : AddressText) (cs : List ManagerCall) (w : World)
    → IsRegistered w
    → Ensures IsRegistered (run_calls t cs w)
unfolding run_calls
run_calls-IsRegistered t [] w h = h
run_calls-IsRegistered t (c ∷ cs) w h =
    Ensures-and_then IsRegistered (manager_call t c w) (run_calls t cs)
      (manager_call-IsRegistered t c w h) (run_calls-IsRegistered t cs)

-- After any calls on a new manager, of any kind and in any order, a session is registered only with
-- a relay that was made, and that has this very session.
pub run_calls-registered :
    (t : AddressText) (k : ServerType) (cs : List ManagerCall) (w : World) (s p : ℕ)
    → run_calls t cs (new_manager k) ≡ completed w
    → lookup s w.relays ≡ some (some p)
    → (p < w.next) × ((w.objects p).session ≡ s)
unfolding new_manager
run_calls-registered t k cs w s p e l =
    let sound = run_calls-IsRegistered t cs (new_manager k) tt in
    Registered-lookup w s (some p) w.relays (subst (Ensures IsRegistered) e sound) l
