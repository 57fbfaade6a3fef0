-- ===== src/Manager/Run.antt =====
-- Sequences of calls on one manager, src/relay_manager.hpp. Each runs on the manager's strand, so
-- they come one after another, in any order.
pub mod Bounded
pub mod Kept
pub mod Registered
pub mod Soundness
pub mod Steps
mod Tests
use ssl_socks.Address.{Sockaddr, AddressText}
use ssl_socks.Base.{◌+◌, false, List, [], ◌∷◌}
use ssl_socks.Data.{RelayData}
use ssl_socks.Manager.Request.{add_request, add_local_raw_tcp}
use ssl_socks.Manager.Response.{and_then, add_response}
use ssl_socks.Manager.Timer.{timer_round}
use ssl_socks.Manager.Udp.{send_udp_data}
use ssl_socks.Manager.World.{World, Outcome, completed, update, set_ssl, manager_start}
use ssl_socks.Relay.{RelayKind, raw_tcp, ssl_relay, new_relay}

-- The public operations, and a round of the timer. A relay that is handed over is a new one: the
-- acceptor makes it.
pub data ManagerCall : Type 0 where
  adds_request adds_response : RelayData → ManagerCall
  sends_udp : Sockaddr → RelayData → ManagerCall
  starts_manager adds_local_tcp sets_ssl ticks_timer : ManagerCall

-- make_shared of a relay that is not started yet. Its session is not initialised in the source.
unfoldable pub make_idle : RelayKind → World → World
make_idle k w = record w {
  objects =
      update w.objects w.next
        (record { relay = new_relay k; session = 0; host = []; service = []; started = false });
  next = w.next + 1;
}

unfoldable pub manager_call : AddressText → ManagerCall → World → Outcome
manager_call t (adds_request b) w = completed (add_request b w)
manager_call t (adds_response b) w = add_response t b w
manager_call t (sends_udp src b) w = send_udp_data src b w
manager_call t starts_manager w = completed (manager_start w)
manager_call t adds_local_tcp w = completed (add_local_raw_tcp w.next (make_idle raw_tcp w))
manager_call t sets_ssl w = completed (set_ssl w.next (make_idle ssl_relay w))
manager_call t ticks_timer w = timer_round w

-- A sequence ends at an exception or a fault.
unfoldable pub run_calls : AddressText → List ManagerCall → World → Outcome
run_calls t [] w = completed w
run_calls t (c ∷ cs) w = and_then (manager_call t c w) (run_calls t cs)
