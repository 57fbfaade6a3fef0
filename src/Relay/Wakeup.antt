-- ===== src/Relay/Wakeup.antt =====
-- No message is forgotten in a queue, src/base_relay.cpp: whenever one waits in an idle relay, a
-- coroutine that will send it has been started.
use ssl_socks.Base.{
  ◌<◌, ◌≡◌, refl, sym, ap, ◌∙◌, ◌⊎◌, Bool, true, false, ◌||◌, List, [], ◌∷◌, ◌++◌, append-nil,
  arith, if◌then◌else◌, length, length-append,
}
use ssl_socks.Data.{RelayData}
use ssl_socks.Relay.{
  relay_uninit, relay_init, relay_start, relay_stop, is_stop, is_init, RelayKind, Task, push,
  send_loop, stop_task, add_peer_task, del_peer_task, Relay, new_relay, post, run_push, loop_head,
  run_send_loop, run_stop, run_task, stop_inside, send_done, send_failed, opened, open_failed,
  timeout_down, Event, calls_send, calls_add_peer, calls_del_peer, calls_stop, runs, sends, fails,
  opens, misses, ticks, traffic, run_first, step, run,
}
use ssl_socks.Relay.Calm.{has_stop, has_stop-post}
use ssl_socks.Relay.Fifo.{accepted_by, run-new_relay_log}

abbrev pub has_loop : List Task → Bool
has_loop [] = false
has_loop (send_loop ∷ ts) = true
has_loop (_ ∷ ts) = has_loop ts

-- One coroutine at most writes, and only while the relay is started or was stopped meanwhile; a
-- queue in an idle relay has a coroutine to come; and a relay that is neither open nor opening is
-- about to stop.
pub record Inv (r : Relay) : Type 0 where
  pub busy : r.state ≡ relay_start → (r.sending || has_stop r.tasks) ≡ true
  pub front : r.sending ≡ true → 0 < length r.bufs
  pub writing : r.sending ≡ true → (r.state ≡ relay_start) ⊎ (r.state ≡ relay_stop)
  pub woken : r.state ≡ relay_init → 0 < length r.bufs → has_loop r.tasks ≡ true
  pub fresh :
      r.opening ≡ true → (r.sending ≡ false) × ((r.state ≡ relay_uninit) ⊎ (r.state ≡ relay_stop))
  pub shut : r.state ≡ relay_uninit → (r.opening || has_stop r.tasks) ≡ true

has_loop-post :
    (ts : List Task) (t : Task) → has_loop (ts ++ t ∷ []) ≡ (has_loop ts || has_loop (t ∷ []))
has_loop-post [] t = refl
has_loop-post (push b ∷ ts) t = has_loop-post ts t
has_loop-post (send_loop ∷ ts) t = refl
has_loop-post (stop_task ∷ ts) t = has_loop-post ts t
has_loop-post (add_peer_task s e ∷ ts) t = has_loop-post ts t
has_loop-post (del_peer_task s ∷ ts) t = has_loop-post ts t

new_relay-Inv : (k : RelayKind) → Inv (new_relay k)
unfolding new_relay
new_relay-Inv k = ground arith

run_push-Inv :
    (b : RelayData) (ts : List Task) (r : Relay)
    → r.tasks ≡ push b ∷ ts
    → Inv r
    → Inv (run_push b (record r { tasks = ts }))
unfolding run_push is_stop is_init
run_push-Inv b ts r e v =
    ground
      (arith, has_loop-post ts send_loop, has_stop-post ts send_loop, length-append r.bufs (b ∷ []))

run_send_loop-Inv :
    (ts : List Task) (r : Relay)
    → r.tasks ≡ send_loop ∷ ts
    → Inv r
    → Inv (run_send_loop (record r { tasks = ts }))
unfolding run_send_loop loop_head is_stop is_init
run_send_loop-Inv ts r e v = ground arith

run_stop-Inv :
    (ts : List Task) (r : Relay)
    → r.tasks ≡ stop_task ∷ ts
    → Inv r
    → Inv (run_stop (record r { tasks = ts }))
unfolding run_stop
run_stop-Inv ts r e v = ground arith

send_done-Inv : (r : Relay) → r.sending ≡ true → Inv r → Inv (send_done r)
unfolding send_done loop_head is_stop
send_done-Inv r s v = ground arith

send_failed-Inv : (r : Relay) → r.sending ≡ true → Inv r → Inv (send_failed r)
unfolding send_failed stop_inside
send_failed-Inv r s v =
    ground (arith, has_loop-post r.tasks stop_task, has_stop-post r.tasks stop_task)

opened-Inv : (r : Relay) → r.opening ≡ true → Inv r → Inv (opened r)
unfolding opened
opened-Inv r s v = ground (arith, has_loop-post r.tasks send_loop, has_stop-post r.tasks send_loop)

open_failed-Inv : (r : Relay) → r.opening ≡ true → Inv r → Inv (open_failed r)
unfolding open_failed stop_inside
open_failed-Inv r s v =
    ground (arith, has_loop-post r.tasks stop_task, has_stop-post r.tasks stop_task)

post-Inv : (t : Task) (r : Relay) → Inv r → Inv (post t r)
post-Inv t r v = ground (arith, has_loop-post r.tasks t, has_stop-post r.tasks t)

timeout_down-Inv : (r : Relay) → Inv r → Inv (timeout_down r).0
unfolding timeout_down
timeout_down-Inv r v =
    ground (arith, has_loop-post r.tasks stop_task, has_stop-post r.tasks stop_task)

run_first-Inv : (ts : List Task) (r : Relay) → r.tasks ≡ ts → Inv r → Inv (run_first ts r)
unfolding run_first run_task
run_first-Inv [] r e v = v
run_first-Inv (push b ∷ ts) r e v = run_push-Inv b ts r e v
run_first-Inv (send_loop ∷ ts) r e v = run_send_loop-Inv ts r e v
run_first-Inv (stop_task ∷ ts) r e v = run_stop-Inv ts r e v
run_first-Inv (add_peer_task n p ∷ ts) r e v = ground arith
run_first-Inv (del_peer_task n ∷ ts) r e v = ground arith

-- A guarded step keeps what both its branches keep.
guarded {ℓ} :
    (P : Relay → Type ℓ) (b : Bool) (r s : Relay) → P r → (b ≡ true → P s) → P (if b then s else r)
guarded P true r s p q = q refl
guarded P false r s p q = p

-- Every event keeps the invariant.
pub step-Inv : (r : Relay) (e : Event) → Inv r → Inv (step r e)
unfolding step
step-Inv r (calls_send b) v = post-Inv (push b) r v
step-Inv r (calls_add_peer s e) v = post-Inv (add_peer_task s e) r v
step-Inv r (calls_del_peer s) v = post-Inv (del_peer_task s) r v
step-Inv r calls_stop v = post-Inv stop_task r v
step-Inv r runs v = run_first-Inv r.tasks r refl v
step-Inv r sends v = guarded Inv r.sending r (send_done r) v (λ s. send_done-Inv r s v)
step-Inv r fails v = guarded Inv r.sending r (send_failed r) v (λ s. send_failed-Inv r s v)
step-Inv r opens v = guarded Inv r.opening r (opened r) v (λ s. opened-Inv r s v)
step-Inv r misses v = guarded Inv r.opening r (open_failed r) v (λ s. open_failed-Inv r s v)
step-Inv r ticks v = timeout_down-Inv r v
step-Inv r traffic v = ground arith

run-Inv : (r : Relay) (es : List Event) → Inv r → Inv (run r es)
unfolding run
run-Inv r [] v = v
run-Inv r (e ∷ es) v = run-Inv (step r e) es (step-Inv r e v)

-- The invariant holds after any history of a new relay.
pub run-new_relay-Inv : (k : RelayKind) (es : List Event) → Inv (run (new_relay k) es)
run-new_relay-Inv k es = run-Inv (new_relay k) es (new_relay-Inv k)

-- Nothing is under way: no handler, no write and no start_relay.
pub record IsQuiet (r : Relay) : Type 0 where
  pub no_tasks : r.tasks ≡ []
  pub no_write : r.sending ≡ false
  pub no_start : r.opening ≡ false

pub quiet_empty : (r : Relay) → Inv r → IsQuiet r → is_stop r.state ≡ false → r.bufs ≡ []
unfolding is_stop
quiet_empty r v q s = nil_of (r.bufs) refl
  where
    state_is : r.state ≡ relay_init
    state_is = ground arith

    nil_of : (bs : List RelayData) → r.bufs ≡ bs → r.bufs ≡ []
    nil_of [] e = e
    nil_of (b ∷ bs) e = absurd (ground (arith, state_is))

-- After any history of a new relay, an idle relay with messages that wait has a run of the sending
-- loop posted: no wake-up is lost.
pub run-woken :
    (k : RelayKind) (es : List Event)
    → (run (new_relay k) es).state ≡ relay_init
    → 0 < length (run (new_relay k) es).bufs
    → has_loop (run (new_relay k) es).tasks ≡ true
run-woken k es i l = let v = run-new_relay-Inv k es in v.woken i l

-- After any history of a new relay, once nothing is under way and the relay is not stopped,
-- everything that it accepted is on the wire, in order: no message is left in the queue.
pub run-quiet :
    (k : RelayKind) (es : List Event)
    → IsQuiet (run (new_relay k) es)
    → is_stop (run (new_relay k) es).state ≡ false
    → (run (new_relay k) es).wire ≡ accepted_by (new_relay k) es
run-quiet k es q s =
    sym (append-nil _)
    ∙ (ap (◌++◌ ((run (new_relay k) es).wire)) (sym (quiet_empty _ (run-new_relay-Inv k es) q s))
        ∙ run-new_relay_log k es)
