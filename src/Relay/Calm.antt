-- ===== src/Relay/Calm.antt =====
-- While nothing stops a relay every message handed to send_data gets through, src/base_relay.cpp.
use ssl_socks.Base.{
  ◌≡◌, refl, sym, ap, ◌∙◌, Bool, true, false, ◌||◌, List, [], ◌∷◌, ◌++◌, append-nil, append_assoc,
  arith,
}
use ssl_socks.Data.{RelayData}
use ssl_socks.Relay.{
  is_stop, is_init, RelayKind, Task, push, send_loop, stop_task, add_peer_task, del_peer_task,
  Relay, new_relay, run_push, loop_head, run_send_loop, run_task, send_done, Event, calls_send,
  calls_add_peer, calls_del_peer, calls_stop, runs, sends, fails, opens, misses, ticks, traffic,
  run_first, step, run,
}
use ssl_socks.Relay.Fifo.{log, taken, send_done-log, step-log}

-- Events that do not stop a relay. (A tick may, after enough of them.)
abbrev pub IsCalm : Event → Type 0
IsCalm calls_stop = ⊥
IsCalm fails = ⊥
IsCalm misses = ⊥
IsCalm ticks = ⊥
IsCalm _ = Unit {0}

abbrev pub AllCalm : List Event → Type 0
AllCalm [] = Unit {0}
AllCalm (e ∷ es) = IsCalm e × AllCalm es

abbrev pub has_stop : List Task → Bool
has_stop [] = false
has_stop (stop_task ∷ ts) = true
has_stop (_ ∷ ts) = has_stop ts

-- The messages in handlers of send_data that are still to run.
abbrev pub waiting : List Task → List RelayData
waiting [] = []
waiting (push b ∷ ts) = b ∷ waiting ts
waiting (_ ∷ ts) = waiting ts

-- The messages that a history hands over, in order.
abbrev pub handed : List Event → List RelayData
handed [] = []
handed (calls_send b ∷ es) = b ∷ handed es
handed (_ ∷ es) = handed es

abbrev pub pipeline : Relay → List RelayData
pipeline r = log r ++ waiting r.tasks

-- Neither stopped nor told to stop.
pub record Unstopped (r : Relay) : Type 0 where
  pub state_ne : is_stop r.state ≡ false
  pub tasks_ne : has_stop r.tasks ≡ false

pub waiting-post :
    (ts : List Task) (t : Task) → waiting (ts ++ t ∷ []) ≡ waiting ts ++ waiting (t ∷ [])
waiting-post [] t = refl
waiting-post (push b ∷ ts) t = ap (◌∷◌ b) (waiting-post ts t)
waiting-post (send_loop ∷ ts) t = waiting-post ts t
waiting-post (add_peer_task s e ∷ ts) t = waiting-post ts t
waiting-post (del_peer_task s ∷ ts) t = waiting-post ts t
waiting-post (stop_task ∷ ts) t = waiting-post ts t

pub has_stop-post :
    (ts : List Task) (t : Task) → has_stop (ts ++ t ∷ []) ≡ (has_stop ts || has_stop (t ∷ []))
has_stop-post [] t = refl
has_stop-post (push b ∷ ts) t = has_stop-post ts t
has_stop-post (send_loop ∷ ts) t = has_stop-post ts t
has_stop-post (add_peer_task s e ∷ ts) t = has_stop-post ts t
has_stop-post (del_peer_task s ∷ ts) t = has_stop-post ts t
has_stop-post (stop_task ∷ ts) t = refl

run_first-Unstopped :
    (ts : List Task) (r : Relay)
    → is_stop r.state ≡ false
    → has_stop ts ≡ false
    → has_stop r.tasks ≡ false
    → Unstopped (run_first ts r)
unfolding run_first run_task run_push run_send_loop loop_head is_stop is_init
run_first-Unstopped [] r s t h = record { state_ne = s; tasks_ne = h }
run_first-Unstopped (push b ∷ ts) r s t h = ground (arith, has_stop-post ts send_loop)
run_first-Unstopped (send_loop ∷ ts) r s t h = ground arith
run_first-Unstopped (add_peer_task n e ∷ ts) r s t h = ground arith
run_first-Unstopped (del_peer_task n ∷ ts) r s t h = ground arith
run_first-Unstopped (stop_task ∷ ts) r s t h = absurd (cc)

pub step-Unstopped : (r : Relay) (e : Event) → IsCalm e → Unstopped r → Unstopped (step r e)
unfolding step loop_head is_stop
step-Unstopped r (calls_send b) c u = record {
  state_ne = u.state_ne;
  tasks_ne = has_stop-post r.tasks (push b) ∙ ground (arith, u.tasks_ne);
}
step-Unstopped r (calls_add_peer s e) c u = record {
  state_ne = u.state_ne;
  tasks_ne = has_stop-post r.tasks (add_peer_task s e) ∙ ground (arith, u.tasks_ne);
}
step-Unstopped r (calls_del_peer s) c u = record {
  state_ne = u.state_ne;
  tasks_ne = has_stop-post r.tasks (del_peer_task s) ∙ ground (arith, u.tasks_ne);
}
step-Unstopped r runs c u = run_first-Unstopped r.tasks r u.state_ne u.tasks_ne u.tasks_ne
step-Unstopped r opens c u = ground (arith, has_stop-post r.tasks send_loop)
step-Unstopped r sends c u = ground arith
step-Unstopped r traffic c u = ground arith
step-Unstopped r calls_stop c u = absurd c
step-Unstopped r fails c u = absurd c
step-Unstopped r misses c u = absurd c
step-Unstopped r ticks c u = absurd c

run_first-waiting :
    (ts : List Task) (r : Relay)
    → r.tasks ≡ ts
    → is_stop r.state ≡ false
    → taken ts r.state ++ waiting (run_first ts r).tasks ≡ waiting ts
unfolding run_first run_task run_push run_send_loop loop_head
run_first-waiting [] r e s = ground arith
run_first-waiting (push b ∷ ts) r e s =
    ground (arith, waiting-post ts send_loop, append-nil (waiting ts))
run_first-waiting (send_loop ∷ ts) r e s = ground arith
run_first-waiting (add_peer_task n p ∷ ts) r e s = refl
run_first-waiting (del_peer_task n ∷ ts) r e s = refl
run_first-waiting (stop_task ∷ ts) r e s = refl

send_done-tasks : (r : Relay) → (send_done r).tasks ≡ r.tasks
unfolding send_done loop_head
send_done-tasks r = ground arith

-- How one event moves a message on: from the caller to the strand, to the queue, to the wire.
pub step-pipeline :
    (r : Relay) (e : Event)
    → IsCalm e
    → Unstopped r
    → pipeline (step r e) ≡ pipeline r ++ handed (e ∷ [])
unfolding step
step-pipeline r (calls_send b) c u =
    rw (waiting-post r.tasks (push b)) (sym (append_assoc (log r) (waiting r.tasks) (b ∷ [])))
step-pipeline r (calls_add_peer s e) c u =
    ap (λ l. log r ++ l) (waiting-post r.tasks (add_peer_task s e) ∙ append-nil (waiting r.tasks))
    ∙ sym (append-nil _)
step-pipeline r (calls_del_peer s) c u =
    ap (λ l. log r ++ l) (waiting-post r.tasks (del_peer_task s) ∙ append-nil (waiting r.tasks))
    ∙ sym (append-nil _)
step-pipeline r runs c u =
    ap (λ l. l ++ waiting (run_first r.tasks r).tasks) (step-log r runs)
    ∙ (append_assoc (log r) (taken r.tasks r.state) _
        ∙ (ap (◌++◌ (log r)) (run_first-waiting r.tasks r refl u.state_ne) ∙ sym (append-nil _)))
step-pipeline r opens c u =
    ground
      (arith, waiting-post r.tasks send_loop, append-nil (waiting r.tasks), append-nil (pipeline r))
step-pipeline r sends c u =
    ground (arith, send_done-log r.bufs r refl, send_done-tasks r, append-nil (pipeline r))
step-pipeline r traffic c u = sym (append-nil _)
step-pipeline r calls_stop c u = absurd c
step-pipeline r fails c u = absurd c
step-pipeline r misses c u = absurd c
step-pipeline r ticks c u = absurd c

handed-cons : (e : Event) (es : List Event) → handed (e ∷ []) ++ handed es ≡ handed (e ∷ es)
handed-cons (calls_send b) es = refl
handed-cons _ es = refl

run-pipeline :
    (r : Relay) (es : List Event)
    → AllCalm es
    → Unstopped r
    → pipeline (run r es) ≡ pipeline r ++ handed es
unfolding run
run-pipeline r [] c u = sym (append-nil _)
run-pipeline r (e ∷ es) c u =
    run-pipeline (step r e) es c.1 (step-Unstopped r e c.0 u)
    ∙ (ap (λ l. l ++ handed es) (step-pipeline r e c.0 u)
        ∙ (append_assoc (pipeline r) (handed (e ∷ [])) (handed es)
            ∙ ap (◌++◌ (pipeline r)) (handed-cons e es)))

-- After any history of a new relay without stops, failures and ticks, the messages on the wire,
-- those that are queued and those in handlers still to run are, in this order, exactly those that
-- were handed to send_data.
pub run-new_relay_pipeline :
    (k : RelayKind) (es : List Event)
    → AllCalm es
    → ((run (new_relay k) es).wire ++ (run (new_relay k) es).bufs)
        ++ waiting (run (new_relay k) es).tasks
      ≡ handed es
unfolding new_relay
run-new_relay_pipeline k es c =
    run-pipeline (new_relay k) es c (record { state_ne = unfold is_stop in refl; tasks_ne = refl })
