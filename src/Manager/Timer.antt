-- ===== src/Manager/Timer.antt =====
-- The rounds of the timer, src/relay_manager.cpp (start_timer), each after RELAY_TICK seconds.
pub mod Nulls
pub mod Sweep
pub mod Expiry
use ssl_socks.Address.{Sockaddr, endpoint_eq}
use ssl_socks.Base.{
  ℕ, zero, suc, ◌-◌, Option, none, some, List, [], ◌∷◌, leb, ◌==◌, if◌then◌else◌, nat_eq, erase,
}
use ssl_socks.Manager.Response.{and_then}
use ssl_socks.Manager.World.{
  UdpTimeout, World, Outcome, completed, fault, call, stop_manager, is_remote,
}
use ssl_socks.Relay.{is_stop, del_peer_task, post, timeout_down}

-- `_udp_send->del_peer(session)`
unfoldable pub del_peer_of : ℕ → World → Outcome
del_peer_of s w = elim w.udp_send [
  | none ↦ fault
  | some p ↦ completed (call p (post (del_peer_task s)) w)
]

-- The loop over `_srcs`: a source whose time is up is dropped, with its session.
unfoldable pub sweep_srcs : List (Sockaddr × UdpTimeout) → World → Outcome
unfolding del_peer_of
sweep_srcs [] w = completed (record w { srcs = [] })
sweep_srcs ((e, u) ∷ rest) w =
    if leb (u.timeout - 1) 0
    then and_then (del_peer_of u.session (record w { udp_srcs = erase u.session w.udp_srcs }))
        (sweep_srcs rest)
    else and_then (sweep_srcs rest w)
        (λ w'. completed (record w' { srcs = (e, record u { timeout = u.timeout - 1 }) ∷ w'.srcs }))

-- timeout_down() on a relay: the state afterwards, and what is returned.
unfoldable pub count_down : ℕ → World → World × ℕ
count_down p w = (call p (λ r. (timeout_down r).0) w, (timeout_down (w.objects p).relay).1)

-- The loop over `_relays`: null entries and relays whose time is up are dropped.
unfoldable pub sweep_relays : List (ℕ × Option ℕ) → World → World
unfolding count_down
sweep_relays [] w = record w { relays = [] }
sweep_relays ((s, none) ∷ rest) w = sweep_relays rest w
sweep_relays ((s, some p) ∷ rest) w =
    let (w', left) = count_down p w in
    let swept = sweep_relays rest w' in
    if left == 0 then swept else record swept { relays = (s, some p) ∷ swept.relays }

unfoldable pub sweeps : World → Outcome
sweeps w = and_then (sweep_srcs w.srcs w) (λ w'. completed (sweep_relays w'.relays w'))

-- A round of the loop behind the wait. A remote server whose TLS relay has run out of time stops;
-- the others forget their datagram sources, and go on.
unfoldable pub timer_round : World → Outcome
unfolding sweeps del_peer_of count_down
timer_round w = elim w.ssl [
  | none ↦ sweeps w
  | some p ↦
      let (w', left) = count_down p w in
      if left == 0
      then (if is_remote w.type
          then completed (stop_manager w')
          else and_then (del_peer_of 0 (record w' { udp_srcs = []; srcs = [] })) sweeps)
      else sweeps w'
]

-- `if (_state == RELAY_STOP) co_return;` in front of the wait: the rounds go on, for as many as are
-- given, until the manager is stopped.
unfoldable pub timer : ℕ → World → Outcome
timer zero w = completed w
timer (suc n) w =
    let rest = and_then (timer_round w) (timer n) in if is_stop w.state then completed w else rest
