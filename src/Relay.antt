-- ===== src/Relay.antt =====
-- src/relay.hpp, src/base_relay.hpp and src/base_relay.cpp: what every relay does with the messages
-- that it is given to send. A relay runs on a strand, so its handlers run one at a time, in the
-- order in which they were posted, and a coroutine gives way only where it awaits. A history is a
-- list of events: calls from outside, the next posted handler, and the ends of the awaited writes.
pub mod Fifo
pub mod Calm
pub mod History
pub mod Drain
pub mod Wakeup
pub mod Timeout
pub mod Stop
pub mod Sending
mod Tests
use ssl_socks.Address.{Sockaddr}
use ssl_socks.Base.{
  ℕ, ◌-◌, Bool, true, false, ◌&&◌, List, [], ◌∷◌, ◌++◌, ◌==◌, if◌then◌else◌, length, nat_eq, insert,
  erase,
}
use ssl_socks.Data.{RelayData}

pub data ServerType : Type 0 where
  local_server remote_server local_transparent : ServerType

pub data RelayState : Type 0 where
  relay_uninit relay_init relay_start relay_stop : RelayState

unfoldable pub is_stop : RelayState → Bool
is_stop relay_stop = true
is_stop _ = false

unfoldable pub is_init : RelayState → Bool
is_init relay_init = true
is_init _ = false

-- TIMEOUT, in ticks of the manager's timer.
abbrev pub full_timeout : ℕ
full_timeout = 9

-- The classes that derive from base_relay.
pub data RelayKind : Type 0 where
  raw_tcp raw_udp ssl_relay : RelayKind

-- Handlers posted to the strand: the lambda of send_data, the coroutine of start_send before its
-- first await, stop_relay, and the lambdas of raw_udp::add_peer and raw_udp::del_peer.
pub data Task : Type 0 where
  push : RelayData → Task
  send_loop stop_task : Task
  add_peer_task : ℕ → Sockaddr → Task
  del_peer_task : ℕ → Task

-- `_impl->_bufs` is `bufs`, its front first. `sending`: the coroutine of start_send awaits
-- internal_send_data for the front. `opening`: the coroutine of start_relay, which is called once on
-- each relay, has not yet come to `state = RELAY_INIT`. `wire`: what internal_send_data has
-- written. `peers` is that of raw_udp. `shut`: the handler of stop_relay has run, which closes the socket
-- of a raw relay, and on the TLS relay begins the shutdown behind which that is closed.
pub record Relay : Type 0 where
  pub kind : RelayKind
  pub state : RelayState
  pub bufs : List RelayData
  pub timeout : ℕ
  pub tasks : List Task
  pub sending : Bool
  pub opening : Bool
  pub shut : Bool
  pub wire : List RelayData
  pub peers : List (ℕ × Sockaddr)

-- base_relay(io, conf, mngr)
unfoldable pub new_relay : RelayKind → Relay
new_relay k = record {
  kind = k;
  state = relay_uninit;
  bufs = [];
  timeout = full_timeout;
  tasks = [];
  sending = false;
  opening = true;
  shut = false;
  wire = [];
  peers = [];
}

-- run_in_strand(own_strand, func), from another strand.
abbrev pub post : Task → Relay → Relay
post t r = record r { tasks = r.tasks ++ t ∷ [] }

-- send_data(buf), stop_relay() and start_send(), called from another strand.
abbrev pub send_data : RelayData → Relay → Relay
send_data b = post (push b)

abbrev pub stop_relay : Relay → Relay
stop_relay = post stop_task

abbrev pub start_send : Relay → Relay
start_send = post send_loop

-- The lambda of send_data.
unfoldable pub run_push : RelayData → Relay → Relay
run_push b r =
    if is_stop r.state
    then r
    else let r' = record r { bufs = r.bufs ++ b ∷ [] } in
      if is_init r.state && length r'.bufs == 1 then start_send r' else r'

-- The head of the loop of start_send: the end of the queue, a stop, or the next write.
unfoldable pub loop_head : Relay → Relay
loop_head r = elim r.bufs [
  | [] ↦ record r { state = relay_init; sending = false }
  | b ∷ bs ↦
      if is_stop r.state
      then record r { sending = false }
      else record r { timeout = full_timeout; sending = true }
]

-- The coroutine of start_send up to its first await.
unfoldable pub run_send_loop : Relay → Relay
unfolding loop_head
run_send_loop r = if is_init r.state then loop_head (record r { state = relay_start }) else r

-- The state that stop_relay leaves. (raw_tcp returns at once if it is stopped already, which leaves
-- the same.)
unfoldable pub run_stop : Relay → Relay
run_stop r = record r { state = relay_stop; shut = true }

-- Session 0 stands for all of them.
unfoldable pub del_peer : ℕ → List (ℕ × Sockaddr) → List (ℕ × Sockaddr)
del_peer s peers = if s == 0 then [] else erase s peers

unfoldable pub run_task : Task → Relay → Relay
unfolding run_push run_send_loop run_stop
run_task (push b) r = run_push b r
run_task send_loop r = run_send_loop r
run_task stop_task r = run_stop r
run_task (add_peer_task s e) r = record r { peers = insert s e r.peers }
run_task (del_peer_task s) r = record r { peers = del_peer s r.peers }

-- stop_relay() called on the relay's own strand: a dispatch runs at once, and the coroutine of
-- ssl_relay is posted.
unfoldable pub stop_inside : RelayKind → Relay → Relay
unfolding run_stop
stop_inside ssl_relay r = stop_relay r
stop_inside _ r = run_stop r

-- internal_send_data has returned: the front is popped, and the loop goes on.
unfoldable pub send_done : Relay → Relay
unfolding loop_head
send_done r = elim r.bufs [
  | [] ↦ r
  | b ∷ bs ↦ loop_head (record r { bufs = bs; wire = r.wire ++ b ∷ [] })
]

-- It has thrown: the catch of start_send.
unfoldable pub send_failed : Relay → Relay
unfolding stop_inside
send_failed r = stop_inside r.kind (record r { sending = false })

-- `state = RELAY_INIT; start_send();` at the end of start_relay.
unfoldable pub opened : Relay → Relay
opened r = start_send (record r { state = relay_init; opening = false })

-- start_relay has thrown: the relay stops, and does not open.
unfoldable pub open_failed : Relay → Relay
unfolding stop_inside
open_failed r = stop_inside r.kind (record r { opening = false })

abbrev pub reset_timeout : Relay → Relay
reset_timeout r = record r { timeout = full_timeout }

-- timeout_down(), called by the manager: the relay afterwards, and what is returned.
unfoldable pub timeout_down : Relay → Relay × ℕ
timeout_down r =
    if r.timeout == 0
    then (r, 0)
    else let r' = record r { timeout = r.timeout - 1 } in
      (if r.timeout - 1 == 0 then stop_relay r' else r', r.timeout - 1)

pub data Event : Type 0 where
  calls_send : RelayData → Event
  calls_add_peer : ℕ → Sockaddr → Event
  calls_del_peer : ℕ → Event
  calls_stop runs sends fails opens misses ticks traffic : Event

unfoldable pub run_first : List Task → Relay → Relay
unfolding run_task
run_first [] r = r
run_first (t ∷ ts) r = run_task t (record r { tasks = ts })

-- An event that cannot happen in a state changes nothing.
unfoldable pub step : Relay → Event → Relay
unfolding run_first send_done send_failed opened open_failed timeout_down
step r (calls_send b) = send_data b r
step r (calls_add_peer s e) = post (add_peer_task s e) r
step r (calls_del_peer s) = post (del_peer_task s) r
step r calls_stop = stop_relay r
step r runs = run_first r.tasks r
step r sends = if r.sending then send_done r else r
step r fails = if r.sending then send_failed r else r
step r opens = if r.opening then opened r else r
step r misses = if r.opening then open_failed r else r
step r ticks = (timeout_down r).0
step r traffic = reset_timeout r

unfoldable pub run : Relay → List Event → Relay
run r [] = r
run r (e ∷ es) = run (step r e) es
