-- ===== src/Relay/History/Countdown.antt =====
-- The countdown of a relay with a history, src/base_relay.cpp.
use ssl_socks.Base.{◌≤◌, sym, subst, List, [], ◌∷◌, arith}
use ssl_socks.Relay.{
  full_timeout, Task, push, send_loop, stop_task, add_peer_task, del_peer_task, Relay, new_relay,
  run_push, loop_head, run_send_loop, run_stop, run_task, stop_inside, send_done, send_failed,
  opened, open_failed, timeout_down, Event, calls_send, calls_add_peer, calls_del_peer, calls_stop,
  runs, sends, fails, opens, misses, ticks, traffic, run_first, step, run,
}
use ssl_socks.Relay.History.{HasHistory}

-- A countdown begins at TIMEOUT.
run_first-timeout :
    (ts : List Task) (r : Relay)
    → r.timeout ≤ full_timeout
    → (run_first ts r).timeout ≤ full_timeout
unfolding run_first run_task run_push run_send_loop run_stop loop_head
run_first-timeout [] r h = h
run_first-timeout (push b ∷ ts) r h = ground arith
run_first-timeout (send_loop ∷ ts) r h = ground arith
run_first-timeout (stop_task ∷ ts) r h = h
run_first-timeout (add_peer_task s e ∷ ts) r h = h
run_first-timeout (del_peer_task s ∷ ts) r h = h

step-timeout :
    (r : Relay) (e : Event) → r.timeout ≤ full_timeout → (step r e).timeout ≤ full_timeout
unfolding step send_done send_failed opened open_failed timeout_down loop_head stop_inside run_stop
step-timeout r (calls_send b) h = h
step-timeout r (calls_add_peer s e) h = h
step-timeout r (calls_del_peer s) h = h
step-timeout r calls_stop h = h
step-timeout r runs h = run_first-timeout r.tasks r h
step-timeout r sends h = ground arith
step-timeout r fails h = ground arith
step-timeout r opens h = ground arith
step-timeout r misses h = ground arith
step-timeout r ticks h = ground arith
step-timeout r traffic h = omega arith

run-timeout :
    (r : Relay) (es : List Event) → r.timeout ≤ full_timeout → (run r es).timeout ≤ full_timeout
unfolding run
run-timeout r [] h = h
run-timeout r (e ∷ es) h = run-timeout (step r e) es (step-timeout r e h)

pub HasHistory-timeout : (r : Relay) → HasHistory r → r.timeout ≤ full_timeout
unfolding new_relay
HasHistory-timeout r h =
    subst (λ (x : Relay). x.timeout ≤ full_timeout) (sym h.origin)
      (run-timeout (new_relay h.kind) h.events (omega arith))
