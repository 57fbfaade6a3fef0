-- ===== src/Relay/Drain.antt =====
-- A relay that is left alone comes to rest, src/base_relay.cpp.
use ssl_socks.Base.{
  ℕ, zero, suc, ◌+◌, ◌≤◌, ◌<◌, ◌≡◌, refl, sym, ap, subst, ◌⊎◌, inl, inr, true, List, [], ◌∷◌, ◌++◌,
  arith, if◌then◌else◌, Bool-cases, if_true, length, length-append,
}
use ssl_socks.Data.{RelayData}
use ssl_socks.Relay.{
  RelayKind, Task, push, send_loop, stop_task, add_peer_task, del_peer_task, Relay, new_relay,
  run_push, loop_head, run_send_loop, run_stop, run_task, send_done, opened, Event, calls_send,
  calls_add_peer, calls_del_peer, calls_stop, runs, sends, fails, opens, misses, ticks, traffic,
  run_first, step, run,
}
use ssl_socks.Relay.Wakeup.{Inv, step-Inv, run-new_relay-Inv, IsQuiet}

-- What can happen of itself: a handler is posted, a write is under way, the start has not ended.
abbrev pub Enabled : Relay → Event → Type 0
Enabled r runs = 0 < length r.tasks
Enabled r sends = r.sending ≡ true
Enabled r opens = r.opening ≡ true
Enabled r _ = ⊥

-- What is left to do: a handler of send_data may bring a message and a run of the loop.
abbrev pub weight : List Task → ℕ
weight [] = 0
weight (push b ∷ ts) = 3 + weight ts
weight (_ ∷ ts) = 1 + weight ts

abbrev pub effort : Relay → ℕ
effort r = weight r.tasks + length r.bufs + (if r.opening then 2 else 0)

weight-append : (ts us : List Task) → weight (ts ++ us) ≡ weight ts + weight us
weight-append [] us = omega arith
weight-append (push b ∷ ts) us = omega (arith, weight-append ts us)
weight-append (send_loop ∷ ts) us = omega (arith, weight-append ts us)
weight-append (stop_task ∷ ts) us = omega (arith, weight-append ts us)
weight-append (add_peer_task s e ∷ ts) us = omega (arith, weight-append ts us)
weight-append (del_peer_task s ∷ ts) us = omega (arith, weight-append ts us)

run_first-effort :
    (ts : List Task) (r : Relay) → r.tasks ≡ ts → 0 < length ts → effort (run_first ts r) < effort r
unfolding run_first run_task run_push run_send_loop run_stop loop_head
run_first-effort [] r e h = absurd (omega arith)
run_first-effort (push b ∷ ts) r e h =
    ground (arith, weight-append ts (send_loop ∷ []), length-append r.bufs (b ∷ []), ap weight e)
run_first-effort (send_loop ∷ ts) r e h = ground (arith, ap weight e)
run_first-effort (stop_task ∷ ts) r e h = ground (arith, ap weight e)
run_first-effort (add_peer_task s k ∷ ts) r e h = ground (arith, ap weight e)
run_first-effort (del_peer_task s ∷ ts) r e h = ground (arith, ap weight e)

send_done-effort :
    (bs : List RelayData) (r : Relay)
    → r.bufs ≡ bs
    → 0 < length bs
    → effort (send_done r) < effort r
unfolding send_done loop_head
send_done-effort [] r e h = absurd (omega arith)
send_done-effort (b ∷ bs) r e h = ground (arith, ap (λ xs. length xs) e)

opened-effort : (r : Relay) → r.opening ≡ true → effort (opened r) < effort r
unfolding opened
opened-effort r h = ground (arith, weight-append r.tasks (send_loop ∷ []))

-- Whatever happens of itself leaves less to do.
step-effort : (r : Relay) (e : Event) → Inv r → Enabled r e → effort (step r e) < effort r
unfolding step
step-effort r runs v h = run_first-effort r.tasks r refl h
step-effort r sends v h =
    subst (λ (x : Relay). effort x < effort r) (sym (if_true (send_done r) r h))
      (send_done-effort r.bufs r refl (v.front h))
step-effort r opens v h =
    subst (λ (x : Relay). effort x < effort r) (sym (if_true (opened r) r h)) (opened-effort r h)
step-effort r (calls_send b) v h = absurd h
step-effort r (calls_add_peer s e) v h = absurd h
step-effort r (calls_del_peer s) v h = absurd h
step-effort r calls_stop v h = absurd h
step-effort r fails v h = absurd h
step-effort r misses v h = absurd h
step-effort r ticks v h = absurd h
step-effort r traffic v h = absurd h

-- Events that can happen of themselves, one after another.
abbrev pub AllEnabled : Relay → List Event → Type 0
AllEnabled r [] = Unit {0}
AllEnabled r (e ∷ es) = Enabled r e × AllEnabled (step r e) es

run-effort :
    (r : Relay) (es : List Event)
    → Inv r
    → AllEnabled r es
    → length es + effort (run r es) ≤ effort r
unfolding run
run-effort r [] v h = omega arith
run-effort r (e ∷ es) v h =
    omega (arith, step-effort r e v h.0, run-effort (step r e) es (step-Inv r e v) h.1)

abbrev pub Rests : Relay → Type 0
Rests r = (es : List Event) × AllEnabled r es × IsQuiet (run r es)

Rests-step : (r : Relay) (e : Event) → Enabled r e → Rests (step r e) → Rests r
unfolding run
Rests-step r e h (es, enabled, quiet) = (e ∷ es, (h, enabled), quiet)

no_task : (ts : List Task) → (ts ≡ []) ⊎ (0 < length ts)
no_task [] = inl refl
no_task (t ∷ ts) = inr (omega arith)

-- Either nothing is under way, or something can happen.
rests_or_goes_on : (r : Relay) → IsQuiet r ⊎ ((e : Event) × Enabled r e)
rests_or_goes_on r = elim (no_task r.tasks) [
  | inr some_task ↦ inr (runs, some_task)
  | inl none_left ↦ elim (Bool-cases r.sending) [
    | inl busy ↦ inr (sends, busy)
    | inr idle ↦ elim (Bool-cases r.opening) [
      | inl starting ↦ inr (opens, starting)
      | inr started ↦ inl (record { no_tasks = none_left; no_write = idle; no_start = started })
    ]
  ]
]

comes_to_rest : (n : ℕ) (r : Relay) → effort r ≤ n → Inv r → Rests r
unfolding run
comes_to_rest zero r l v = elim (rests_or_goes_on r) [
  | inl quiet ↦ ([], tt, quiet)
  | inr (e, h) ↦ absurd (omega (arith, step-effort r e v h, l))
]
comes_to_rest (suc n) r l v = elim (rests_or_goes_on r) [
  | inl quiet ↦ ([], tt, quiet)
  | inr (e, h) ↦
      Rests-step r e h
        (comes_to_rest n (step r e) (omega (arith, step-effort r e v h, l)) (step-Inv r e v))
]

-- After any history of a new relay, what can happen of itself, that is handlers, ends of writes and the
-- end of the start, comes to an end: in no order can more such events follow than the effort that is
-- left, which each of them makes less; and some such events lead to a relay with nothing under way.
pub run-Rests :
    (k : RelayKind) (before : List Event)
    → ((es : List Event)
        → AllEnabled (run (new_relay k) before) es
        → length es + effort (run (run (new_relay k) before) es)
          ≤ effort (run (new_relay k) before))
      × Rests (run (new_relay k) before)
run-Rests k before =
    let v = run-new_relay-Inv k before in
    (
      λ es h. run-effort (run (new_relay k) before) es v h,
      comes_to_rest (effort (run (new_relay k) before)) (run (new_relay k) before) (omega arith) v,
    )
