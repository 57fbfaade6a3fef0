-- ===== src/Manager/Run/Bounded/Rounds.antt =====
-- A round of the timer keeps the bounds, src/relay_manager.cpp.
use ssl_socks.Address.{Sockaddr, endpoint_eq}
use ssl_socks.Base.{
  ℕ, ◌-◌, refl, Option, none, some, List, [], ◌∷◌, arith, leb, ◌==◌, if◌then◌else◌, either_branch,
  nat_eq, erase,
}
use ssl_socks.Manager.Response.{and_then}
use ssl_socks.Manager.Run.Bounded.{
  AllInBounds, IsBounded, Happens, call-IsBounded, IsBounded-same, stop_manager-IsBounded,
}
use ssl_socks.Manager.Run.Kept.{Ensures, Ensures-and_then}
use ssl_socks.Manager.Timer.{del_peer_of, sweep_srcs, count_down, sweep_relays, sweeps, timer_round}
use ssl_socks.Manager.World.{UdpTimeout, World, completed, fault, call, stop_manager, is_remote}
use ssl_socks.Relay.{del_peer_task, post, timeout_down, calls_del_peer, ticks, step}
use ssl_socks.Relay.History.{step-HasHistory}

del_peer-Happens : (s : ℕ) → Happens (post (del_peer_task s))
unfolding step
del_peer-Happens s r h = step-HasHistory r (calls_del_peer s) tt h

timeout_down-Happens : Happens (λ r. (timeout_down r).0)
unfolding step
timeout_down-Happens r h = step-HasHistory r ticks tt h

del_peer_of-IsBounded : (s : ℕ) (w : World) → IsBounded w → Ensures IsBounded (del_peer_of s w)
unfolding del_peer_of
del_peer_of-IsBounded s w h =
    elim w.udp_send
      as (λ o.
        Ensures IsBounded
          (elim o [ none ↦ fault | some p ↦ completed (call p (post (del_peer_task s)) w) ])) [
            | none ↦ tt
            | some p ↦ call-IsBounded p (post (del_peer_task s)) w (del_peer-Happens s) h
          ]

sweep_srcs-IsBounded :
    (m : List (Sockaddr × UdpTimeout)) (w : World)
    → AllInBounds m
    → IsBounded w
    → Ensures IsBounded (sweep_srcs m w)
unfolding sweep_srcs
sweep_srcs-IsBounded [] w a h = record {
  counter = h.counter;
  sources = tt;
  histories = h.histories;
}
sweep_srcs-IsBounded ((e, u) ∷ rest) w a h =
    either_branch (Ensures IsBounded) (leb (u.timeout - 1) 0)
      (Ensures-and_then IsBounded (del_peer_of u.session _) (sweep_srcs rest)
        (del_peer_of-IsBounded u.session (record w { udp_srcs = erase u.session w.udp_srcs })
          (IsBounded-same w _ refl refl refl h))
        (λ w' h'. sweep_srcs-IsBounded rest w' a.2 h'))
      (Ensures-and_then IsBounded (sweep_srcs rest w) _ (sweep_srcs-IsBounded rest w a.2 h)
        (λ w' h'. record {
          counter = h'.counter;
          sources = (a.0, omega (arith, a.1), h'.sources);
          histories = h'.histories;
        }))

sweep_relays-IsBounded :
    (m : List (ℕ × Option ℕ)) (w : World) → IsBounded w → IsBounded (sweep_relays m w)
unfolding sweep_relays count_down
sweep_relays-IsBounded [] w h = IsBounded-same w _ refl refl refl h
sweep_relays-IsBounded ((s, none) ∷ rest) w h = sweep_relays-IsBounded rest w h
sweep_relays-IsBounded ((s, some p) ∷ rest) w h =
    let w' = call p (λ r. (timeout_down r).0) w in
    let swept =
      sweep_relays-IsBounded rest w'
        (call-IsBounded p (λ r. (timeout_down r).0) w timeout_down-Happens h) in
    either_branch {A = World} IsBounded ((timeout_down (w.objects p).relay).1 == 0) swept
      (IsBounded-same (sweep_relays rest w') _ refl refl refl swept)

sweeps-IsBounded : (w : World) → IsBounded w → Ensures IsBounded (sweeps w)
unfolding sweeps
sweeps-IsBounded w h =
    Ensures-and_then IsBounded (sweep_srcs w.srcs w) _ (sweep_srcs-IsBounded w.srcs w h.sources h)
      (λ w' h'. sweep_relays-IsBounded w'.relays w' h')

pub timer_round-IsBounded : (w : World) → IsBounded w → Ensures IsBounded (timer_round w)
unfolding timer_round count_down
timer_round-IsBounded w h =
    elim w.ssl
      as (λ o. Ensures IsBounded (elim o [
        | none ↦ sweeps w
        | some p ↦
            let (w', left) = count_down p w in
            if left == 0
            then (if is_remote w.type
                then completed (stop_manager w')
                else and_then (del_peer_of 0 (record w' { udp_srcs = []; srcs = [] })) sweeps)
            else sweeps w'
      ])) [
        | none ↦ sweeps-IsBounded w h
        | some p ↦
            let w' = call p (λ r. (timeout_down r).0) w in
            let h' = call-IsBounded p (λ r. (timeout_down r).0) w timeout_down-Happens h in
            either_branch (Ensures IsBounded) ((timeout_down (w.objects p).relay).1 == 0)
              (either_branch (Ensures IsBounded) (is_remote w.type) (stop_manager-IsBounded w' h') (
                Ensures-and_then IsBounded (del_peer_of 0 (record w' { udp_srcs = []; srcs = [] }))
                  sweeps
                  (del_peer_of-IsBounded 0 (record w' { udp_srcs = []; srcs = [] })
                    (record { counter = h'.counter; sources = tt; histories = h'.histories }))
                  sweeps-IsBounded))
              (sweeps-IsBounded w' h')
      ]
