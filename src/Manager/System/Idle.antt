-- ===== src/Manager/System/Idle.antt =====
-- A manager at work that falls silent, src/relay_manager.cpp (start_timer) and src/base_relay.cpp.
use ssl_socks.Address.{Sockaddr, AddressText}
use ssl_socks.Base.{ℕ, ◌≡◌, subst, false, some, List, [], ◌∷◌}
use ssl_socks.Manager.Run.Bounded.{AllInBounds, IsBounded}
use ssl_socks.Manager.Run.Bounded.Calls.{new_manager-IsBounded}
use ssl_socks.Manager.Run.Kept.{Ensures}
use ssl_socks.Manager.System.{SystemEvent, system_run, AllSystemEventsFit, system_run-IsBounded}
use ssl_socks.Manager.Timer.{timer}
use ssl_socks.Manager.Timer.Expiry.{timer-forgets}
use ssl_socks.Manager.Timer.Expiry.Counting.{AllSources}
use ssl_socks.Manager.World.{UdpTimeout, World, completed, new_manager, is_remote}
use ssl_socks.Relay.{ServerType, is_stop, full_timeout}
use ssl_socks.Relay.History.Countdown.{HasHistory-timeout}

AllInBounds-AllSources :
    (m : List (Sockaddr × UdpTimeout)) → AllInBounds m → AllSources full_timeout m
AllInBounds-AllSources [] h = tt
AllInBounds-AllSources ((e, u) ∷ m) h = (h.1, AllInBounds-AllSources m h.2)

-- A manager and its relays start anew, and calls of the manager come between what happens to the relays,
-- in any order: requests that have a name and fit, messages of any command that fit, datagrams whose
-- session is still to be given. If all of it completes, and the manager is then that of a server that is
-- not remote, with a relay of local datagrams, and runs, and nothing happens but nine rounds of its
-- timer, these complete, and leave no session of a relay and no source of datagrams: whatever has gone
-- before, what is idle is forgotten.
pub system_run-timer :
    (t : AddressText) (k : ServerType) (es : List SystemEvent) (w : World) (p : ℕ)
    → AllSystemEventsFit es
    → system_run t es (new_manager k) ≡ completed w
    → is_remote w.type ≡ false
    → w.udp_send ≡ some p
    → is_stop w.state ≡ false
    → (w' : World) × (timer full_timeout w ≡ completed w') × (w'.relays ≡ []) × (w'.srcs ≡ [])
system_run-timer t k es w p f e l u r =
    let h : IsBounded w =
      subst (Ensures IsBounded) e
        (system_run-IsBounded t es (new_manager k) f (new_manager-IsBounded k)) in
    timer-forgets p w l u r (λ q. HasHistory-timeout (w.objects q).relay (h.histories q))
      (AllInBounds-AllSources w.srcs h.sources)
