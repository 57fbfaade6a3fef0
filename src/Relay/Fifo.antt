-- ===== src/Relay/Fifo.antt =====
-- Messages go out once each, in the order in which they were accepted, src/base_relay.cpp.
use ssl_socks.Base.{
  ◌≡◌, refl, sym, ◌∙◌, List, [], ◌∷◌, ◌++◌, append-nil, append_assoc, arith, if◌then◌else◌,
}
use ssl_socks.Data.{RelayData}
use ssl_socks.Relay.{
  RelayState, is_stop, RelayKind, Task, push, send_loop, stop_task, add_peer_task, del_peer_task,
  Relay, new_relay, run_push, loop_head, run_send_loop, run_task, send_done, Event, runs, sends,
  run_first, step, run,
}

-- Everything accepted so far, the oldest first.
abbrev pub log : Relay → List RelayData
log r = r.wire ++ r.bufs

abbrev pub taken : List Task → RelayState → List RelayData
taken (push b ∷ ts) s = if is_stop s then [] else b ∷ []
taken _ s = []

-- The message that an event makes the relay accept, if any: only a running handler of send_data
-- does, and only while the relay is not stopped.
abbrev pub accepted : Relay → Event → List RelayData
accepted r runs = taken r.tasks r.state
accepted r _ = []

loop_head-log : (r : Relay) → log (loop_head r) ≡ log r
unfolding loop_head
loop_head-log r = ground arith

run_push-log :
    (b : RelayData) (r : Relay)
    → log (run_push b r) ≡ log r ++ (if is_stop r.state then [] else b ∷ [])
unfolding run_push
run_push-log b r = ground (arith, append_assoc r.wire r.bufs (b ∷ []), append-nil (log r))

run_send_loop-log : (r : Relay) → log (run_send_loop r) ≡ log r ++ []
unfolding run_send_loop
run_send_loop-log r = ground (arith, append-nil (log r))

pub send_done-log : (bs : List RelayData) (r : Relay) → r.bufs ≡ bs → log (send_done r) ≡ log r
unfolding send_done
send_done-log [] r e = ground arith
send_done-log (b ∷ bs) r e =
    rw (e, send_done)
      (loop_head-log (record r { bufs = bs; wire = r.wire ++ b ∷ [] })
        ∙ append_assoc r.wire (b ∷ []) bs)

run_first-log : (ts : List Task) (r : Relay) → log (run_first ts r) ≡ log r ++ taken ts r.state
unfolding run_first run_task
run_first-log [] r = sym (append-nil (log r))
run_first-log (push b ∷ ts) r = run_push-log b (record r { tasks = ts })
run_first-log (send_loop ∷ ts) r = run_send_loop-log (record r { tasks = ts })
run_first-log (stop_task ∷ ts) r = sym (append-nil (log r))
run_first-log (add_peer_task n p ∷ ts) r = sym (append-nil (log r))
run_first-log (del_peer_task n ∷ ts) r = sym (append-nil (log r))

-- Each event adds to the log what it makes the relay accept, and nothing else: no message is lost,
-- doubled or overtaken between acceptance and the wire, whatever else happens.
pub step-log : (r : Relay) (e : Event) → log (step r e) ≡ log r ++ accepted r e
unfolding step
step-log r runs = run_first-log r.tasks r
step-log r sends = ground (arith, send_done-log r.bufs r refl, append-nil (log r))
step-log r _ = ground (arith, append-nil (log r))

-- All that a history makes the relay accept.
pub accepted_by : Relay → List Event → List RelayData
accepted_by r [] = []
accepted_by r (e ∷ es) = accepted r e ++ accepted_by (step r e) es

run-log : (r : Relay) (es : List Event) → log (run r es) ≡ log r ++ accepted_by r es
unfolding run accepted_by
run-log r [] = sym (append-nil (log r))
run-log r (e ∷ es) =
    run-log (step r e) es
    ∙ rw (step-log r e) (append_assoc (log r) (accepted r e) (accepted_by (step r e) es))

-- After any history of a new relay, what is on the wire and what still waits is, in order, exactly
-- what was accepted.
pub run-new_relay_log :
    (k : RelayKind) (es : List Event)
    → (run (new_relay k) es).wire ++ (run (new_relay k) es).bufs ≡ accepted_by (new_relay k) es
unfolding new_relay
run-new_relay_log k es = run-log (new_relay k) es
