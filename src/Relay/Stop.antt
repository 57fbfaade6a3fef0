-- ===== src/Relay/Stop.antt =====
-- What a stop does to a relay, src/base_relay.cpp and the stop_relay of its derived classes.
use ssl_socks.Base.{◌≡◌, refl, ◌∙◌, true, false, List, [], ◌∷◌, arith}
use ssl_socks.Data.{RelayData}
use ssl_socks.Relay.{
  relay_init, relay_stop, is_stop, is_init, Task, push, send_loop, stop_task, add_peer_task,
  del_peer_task, Relay, run_push, loop_head, run_send_loop, run_stop, run_task, send_done, opened,
  Event, calls_stop, runs, sends, opens, run_first, step, run,
}

-- A stopped relay with no write and no start_relay under way.
pub record IsDead (r : Relay) : Type 0 where
  pub stopped : r.state ≡ relay_stop
  pub no_write : r.sending ≡ false
  pub no_start : r.opening ≡ false

run_first-IsDead :
    (ts : List Task) (r : Relay)
    → IsDead r
    → IsDead (run_first ts r) × ((run_first ts r).wire ≡ r.wire) × ((run_first ts r).bufs ≡ r.bufs)
unfolding run_first run_task run_push run_send_loop run_stop is_stop is_init
run_first-IsDead [] r d = (d, refl, refl)
run_first-IsDead (push b ∷ ts) r d = ground arith
run_first-IsDead (send_loop ∷ ts) r d = ground arith
run_first-IsDead (stop_task ∷ ts) r d = ground arith
run_first-IsDead (add_peer_task n p ∷ ts) r d = ground arith
run_first-IsDead (del_peer_task n ∷ ts) r d = ground arith

-- Such a relay stays so, takes no message and writes none, whatever happens.
pub step-IsDead :
    (r : Relay) (e : Event)
    → IsDead r
    → IsDead (step r e) × ((step r e).wire ≡ r.wire) × ((step r e).bufs ≡ r.bufs)
unfolding step
step-IsDead r runs d = run_first-IsDead r.tasks r d
step-IsDead r _ d = ground arith

-- A stopped relay that neither writes nor starts stays so, takes no message and writes none,
-- whatever happens.
pub run-IsDead :
    (r : Relay) (es : List Event)
    → IsDead r
    → IsDead (run r es) × ((run r es).wire ≡ r.wire) × ((run r es).bufs ≡ r.bufs)
unfolding run
run-IsDead r [] d = (d, refl, refl)
run-IsDead r (e ∷ es) d =
    let (d', w, b) = step-IsDead r e d in
    let (d'', w', b') = run-IsDead (step r e) es d' in (d'', w' ∙ w, b' ∙ b)

-- A relay that is stopped while it writes its last message, with no handler posted, is idle again,
-- with its socket closed, or on the TLS relay being shut down, once that write succeeds: the loop of
-- start_send tests the state only where a message is left.
pub stop_while_writing :
    (r : Relay) (b : RelayData)
    → r.tasks ≡ []
    → r.sending ≡ true
    → r.bufs ≡ b ∷ []
    → ((run r (calls_stop ∷ runs ∷ [])).state ≡ relay_stop)
      × ((run r (calls_stop ∷ runs ∷ sends ∷ [])).state ≡ relay_init)
      × ((run r (calls_stop ∷ runs ∷ sends ∷ [])).shut ≡ true)
unfolding run step run_first run_task run_stop send_done loop_head
stop_while_writing r b t s e = ground arith

-- A relay that is stopped before its start_relay comes to an end, with no handler posted, is idle
-- again when that comes to its end.
pub stop_while_opening :
    (r : Relay)
    → r.tasks ≡ []
    → r.opening ≡ true
    → ((run r (calls_stop ∷ runs ∷ [])).state ≡ relay_stop)
      × ((run r (calls_stop ∷ runs ∷ opens ∷ [])).state ≡ relay_init)
unfolding run step run_first run_task run_stop opened
stop_while_opening r t s = ground arith
