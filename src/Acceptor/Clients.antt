-- ===== src/Acceptor/Clients.antt =====
-- Connections and datagrams of clients, src/relay_acceptor.cpp (local_accept, local_udp_accept,
-- start_accept).
pub mod Completes
-- What the two loops await, in the order in which it comes: the end of an async_accept, `false` for
-- an error, and a datagram to read, `none` for an error of async_wait.
use ssl_socks.Acceptor.Receive.{Incoming, transparent_udp_recv_on}
use ssl_socks.Acceptor.Remote.{RemoteAcceptor, new_remote_acceptor, remote_accept}
use ssl_socks.Address.{AddressText}
use ssl_socks.Base.{Bool, true, false, Option, none, some, List, [], ◌∷◌, ◌++◌, if◌then◌else◌}
use ssl_socks.Manager.Run.{ManagerCall, sends_udp, starts_manager, adds_local_tcp, run_calls}
use ssl_socks.Manager.World.{Outcome, new_manager, is_remote}
use ssl_socks.Relay.{ServerType}

pub data ClientEvent : Type 0 where
  ends_accept : Bool → ClientEvent
  ends_wait : Option Incoming → ClientEvent

-- A round of local_accept: whether the loop goes on, and its call of the manager. The relay was made
-- in front of the accept. An error is thrown, and ends the loop.
unfoldable pub local_accept : Bool → Bool × List ManagerCall
local_accept true = (true, adds_local_tcp ∷ [])
local_accept false = (false, [])

-- A round of local_udp_accept.
unfoldable pub local_udp_accept : Option Incoming → Bool × List ManagerCall
unfolding transparent_udp_recv_on
local_udp_accept none = (false, [])
local_udp_accept (some m) = (true, sends_udp m.source (transparent_udp_recv_on m) ∷ [])

-- Which of the loops go on.
pub record ClientLoops : Type 0 where
  pub accepting : Bool
  pub receiving : Bool

unfoldable pub client_step : ClientEvent → ClientLoops → ClientLoops × List ManagerCall
unfolding local_accept local_udp_accept
client_step (ends_accept connected) l =
    let (goes_on, calls_now) = local_accept connected in
    if l.accepting then (record l { accepting = goes_on }, calls_now) else (l, [])
client_step (ends_wait m) l =
    let (goes_on, calls_now) = local_udp_accept m in
    if l.receiving then (record l { receiving = goes_on }, calls_now) else (l, [])

-- Both loops, from what they have come to.
unfoldable pub client_calls : List ClientEvent → ClientLoops → List ManagerCall
unfolding client_step
client_calls [] l = []
client_calls (e ∷ es) l = (client_step e l).1 ++ client_calls es (client_step e l).0

abbrev pub both_loops : ClientLoops
both_loops = record { accepting = true; receiving = true }

-- What the acceptor has done: for a remote server the managers, else the state of the one manager.
pub data Accepted : Type 0 where
  remote_side : RemoteAcceptor → Accepted
  client_side : Outcome → Accepted

-- start_accept(), and the loops for what comes.
unfoldable pub start_accept : AddressText → ServerType → List Bool → List ClientEvent → Accepted
unfolding remote_accept client_calls
start_accept t k arrivals es =
    if is_remote k
    then remote_side (remote_accept k arrivals (new_remote_acceptor k))
    else client_side (run_calls t (starts_manager ∷ client_calls es both_loops) (new_manager k))
