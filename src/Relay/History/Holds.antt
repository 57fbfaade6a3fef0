-- ===== src/Relay/History/Holds.antt =====
-- The messages that a relay with a history holds, src/base_relay.cpp.
use ssl_socks.Base.{
  ℕ, ◌-◌, ◌≡◌, refl, sym, subst, false, ◌&&◌, List, [], ◌∷◌, ◌++◌, arith, ◌==◌, either_branch,
  length,
}
use ssl_socks.Data.{RelayData}
use ssl_socks.Data.Wire.{AllSendable}
use ssl_socks.Relay.{
  relay_init, relay_start, is_stop, is_init, RelayKind, raw_tcp, raw_udp, ssl_relay, Task, push,
  send_loop, stop_task, add_peer_task, del_peer_task, Relay, new_relay, post, run_push, loop_head,
  run_send_loop, run_stop, run_task, stop_inside, send_done, send_failed, opened, open_failed,
  timeout_down, Event, calls_send, calls_add_peer, calls_del_peer, calls_stop, runs, sends, fails,
  opens, misses, ticks, traffic, run_first, step, run,
}
use ssl_socks.Relay.Calm.{waiting, waiting-post}
use ssl_socks.Relay.History.{IsSendable, EventFits, AllEventsFit, HasHistory}

-- What a relay holds can be sent: in handlers, in the queue, and what has been written.
pub record Holds (r : Relay) : Type 0 where
  pub tasks : AllSendable (waiting r.tasks)
  pub bufs : AllSendable r.bufs
  pub wire : AllSendable r.wire

AllSendable-append :
    (ds es : List RelayData) → AllSendable ds → AllSendable es → AllSendable (ds ++ es)
AllSendable-append [] es h k = k
AllSendable-append (d ∷ ds) es h k = (h.0, h.1, AllSendable-append ds es h.2 k)

post-Holds : (k : Task) (r : Relay) → AllSendable (waiting (k ∷ [])) → Holds r → Holds (post k r)
post-Holds k r h g = record {
  tasks =
      subst AllSendable (sym (waiting-post r.tasks k))
        (AllSendable-append (waiting r.tasks) (waiting (k ∷ [])) g.tasks h);
  bufs = g.bufs;
  wire = g.wire;
}

loop_head-Holds : (r : Relay) → Holds r → Holds (loop_head r)
unfolding loop_head
loop_head-Holds r h = ground arith

run_push-Holds : (b : RelayData) (r : Relay) → IsSendable b → Holds r → Holds (run_push b r)
unfolding run_push
run_push-Holds b r s h =
    let r' = record r { bufs = r.bufs ++ b ∷ [] } in
    let h' : Holds r' = record {
      tasks = h.tasks;
      bufs = AllSendable-append r.bufs (b ∷ []) h.bufs (s.message, s.named, tt);
      wire = h.wire;
    } in
    either_branch {A = Relay} Holds (is_stop r.state) h (
      either_branch {A = Relay} Holds (is_init r.state && length r'.bufs == 1)
        (post-Holds send_loop r' tt h') h')

run_send_loop-Holds : (r : Relay) → Holds r → Holds (run_send_loop r)
unfolding run_send_loop
run_send_loop-Holds r h =
    either_branch {A = Relay} Holds (is_init r.state)
      (loop_head-Holds (record r { state = relay_start })
        (record { tasks = h.tasks; bufs = h.bufs; wire = h.wire }))
      h

run_first-Holds :
    (ts : List Task) (r : Relay) → AllSendable (waiting ts) → Holds r → Holds (run_first ts r)
unfolding run_first run_task run_stop
run_first-Holds [] r a h = h
run_first-Holds (push b ∷ ts) r a h =
    run_push-Holds b (record r { tasks = ts }) (record { message = a.0; named = a.1 })
      (record { tasks = a.2; bufs = h.bufs; wire = h.wire })
run_first-Holds (send_loop ∷ ts) r a h =
    run_send_loop-Holds (record r { tasks = ts })
      (record { tasks = a; bufs = h.bufs; wire = h.wire })
run_first-Holds (stop_task ∷ ts) r a h = record { tasks = a; bufs = h.bufs; wire = h.wire }
run_first-Holds (add_peer_task s e ∷ ts) r a h = record { tasks = a; bufs = h.bufs; wire = h.wire }
run_first-Holds (del_peer_task s ∷ ts) r a h = record { tasks = a; bufs = h.bufs; wire = h.wire }

send_done-Holds : (bs : List RelayData) (r : Relay) → r.bufs ≡ bs → Holds r → Holds (send_done r)
unfolding send_done
send_done-Holds [] r e h = rw (e, send_done) h
send_done-Holds (b ∷ bs) r e h =
    let front = subst AllSendable e h.bufs in
    rw (e, send_done)
      (loop_head-Holds (record r { bufs = bs; wire = r.wire ++ b ∷ [] })
        (record {
          tasks = h.tasks;
          bufs = front.2;
          wire = AllSendable-append r.wire (b ∷ []) h.wire (front.0, front.1, tt);
        }))

stop_inside-Holds : (k : RelayKind) (r : Relay) → Holds r → Holds (stop_inside k r)
unfolding stop_inside run_stop
stop_inside-Holds ssl_relay r h = post-Holds stop_task r tt h
stop_inside-Holds raw_tcp r h = record { tasks = h.tasks; bufs = h.bufs; wire = h.wire }
stop_inside-Holds raw_udp r h = record { tasks = h.tasks; bufs = h.bufs; wire = h.wire }

-- What has changed is not what the relay holds.
Holds-same :
    (r s : Relay) → s.tasks ≡ r.tasks → s.bufs ≡ r.bufs → s.wire ≡ r.wire → Holds r → Holds s
Holds-same r s a b c h = record {
  tasks = subst (λ ts. AllSendable (waiting ts)) (sym a) h.tasks;
  bufs = subst AllSendable (sym b) h.bufs;
  wire = subst AllSendable (sym c) h.wire;
}

timeout_down-Holds : (r : Relay) → Holds r → Holds (timeout_down r).0
unfolding timeout_down
timeout_down-Holds r h =
    let r' = record r { timeout = r.timeout - 1 } in
    let h' = Holds-same r r' refl refl refl h in
    either_branch (λ (x : Relay × ℕ). Holds x.0) (r.timeout == 0) h
      (either_branch {A = Relay} Holds (r.timeout - 1 == 0) (post-Holds stop_task r' tt h') h')

step-Holds : (r : Relay) (e : Event) → EventFits e → Holds r → Holds (step r e)
unfolding step send_failed opened open_failed
step-Holds r (calls_send b) f h = post-Holds (push b) r (f.message, f.named, tt) h
step-Holds r (calls_add_peer s e) f h = post-Holds (add_peer_task s e) r tt h
step-Holds r (calls_del_peer s) f h = post-Holds (del_peer_task s) r tt h
step-Holds r calls_stop f h = post-Holds stop_task r tt h
step-Holds r runs f h = run_first-Holds r.tasks r h.tasks h
step-Holds r sends f h =
    either_branch {A = Relay} Holds r.sending (send_done-Holds r.bufs r refl h) h
step-Holds r fails f h =
    either_branch {A = Relay} Holds r.sending
      (stop_inside-Holds r.kind (record r { sending = false }) (Holds-same r _ refl refl refl h)) h
step-Holds r opens f h =
    either_branch {A = Relay} Holds r.opening
      (post-Holds send_loop (record r { state = relay_init; opening = false }) tt
        (Holds-same r _ refl refl refl h))
      h
step-Holds r misses f h =
    either_branch {A = Relay} Holds r.opening
      (stop_inside-Holds r.kind (record r { opening = false }) (Holds-same r _ refl refl refl h)) h
step-Holds r ticks f h = timeout_down-Holds r h
step-Holds r traffic f h = Holds-same r _ refl refl refl h

run-Holds : (r : Relay) (es : List Event) → AllEventsFit es → Holds r → Holds (run r es)
unfolding run
run-Holds r [] f h = h
run-Holds r (e ∷ es) f h = run-Holds (step r e) es f.1 (step-Holds r e f.0 h)

-- A relay with a history holds only messages that can be sent.
pub HasHistory-Holds : (r : Relay) → HasHistory r → Holds r
unfolding new_relay
HasHistory-Holds r h =
    subst Holds (sym h.origin)
      (run-Holds (new_relay h.kind) h.events h.fits (record { tasks = tt; bufs = tt; wire = tt }))
