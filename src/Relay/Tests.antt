-- ===== src/Relay/Tests.antt =====
-- Tests of the relay.
use ssl_socks.Base.{
  ℕ, ◌+◌, ◌≤◌, ◌<◌, ◌≡◌, refl, ◌↔◌, true, false, some, List, [], ◌∷◌, ◌++◌, arith, leb,
  if◌then◌else◌, length, replicate, length-replicate,
}
use ssl_socks.Data.{data_tcp, RelayData, IsMessage}
use ssl_socks.Relay.{
  relay_init, relay_start, relay_stop, is_stop, is_init, full_timeout, raw_tcp, raw_udp, ssl_relay,
  stop_task, Relay, new_relay, Event, calls_send, calls_stop, runs, sends, opens, traffic, step,
  run,
}
use ssl_socks.Relay.Calm.{waiting, handed, run-new_relay_pipeline}
use ssl_socks.Relay.Drain.{effort, AllEnabled, Rests, run-Rests}
use ssl_socks.Relay.Fifo.{accepted_by, run-new_relay_log}
use ssl_socks.Relay.Sending.{returned, class_of, internal_send_data, internal_send_data_complete}
use ssl_socks.Relay.Stop.{IsDead, run-IsDead, stop_while_writing, stop_while_opening}
use ssl_socks.Relay.Timeout.{tick_times, tick_times-traffic}
use ssl_socks.Relay.Wakeup.{has_loop, IsQuiet, run-woken, run-quiet}

abbrev note : ℕ → RelayData
note s = record { session = s; cmd = data_tcp; len = 1; bytes = 9 ∷ [] }

-- Two messages, the first before the relay opens, and both written.
abbrev history : List Event
history =
    calls_send (note 1)
    ∷ (runs ∷ (opens ∷ (runs ∷ (calls_send (note 2) ∷ (runs ∷ (sends ∷ (sends ∷ [])))))))

history_test : (run (new_relay raw_tcp) history).wire ≡ note 1 ∷ (note 2 ∷ [])
unfolding run step new_relay is_stop is_init
history_test = refl

history-IsQuiet : IsQuiet (run (new_relay raw_tcp) history)
unfolding run step new_relay is_stop is_init
history-IsQuiet = record { no_tasks = refl; no_write = refl; no_start = refl }

history_goes : is_stop (run (new_relay raw_tcp) history).state ≡ false
unfolding run step new_relay is_stop is_init
history_goes = refl

run-quiet_test : (run (new_relay raw_tcp) history).wire ≡ accepted_by (new_relay raw_tcp) history
run-quiet_test = run-quiet raw_tcp history history-IsQuiet history_goes

run-new_relay_pipeline_example :
    ((run (new_relay raw_tcp) history).wire ++ (run (new_relay raw_tcp) history).bufs)
      ++ waiting (run (new_relay raw_tcp) history).tasks
    ≡ handed history
run-new_relay_pipeline_example =
    run-new_relay_pipeline raw_tcp history (tt, (tt, (tt, (tt, (tt, (tt, (tt, (tt, tt))))))))

run-new_relay_log_test :
    (run (new_relay raw_udp) history).wire ++ (run (new_relay raw_udp) history).bufs
    ≡ accepted_by (new_relay raw_udp) history
run-new_relay_log_test = run-new_relay_log raw_udp history

-- A message accepted before the relay opens, which has just opened.
abbrev opening_history : List Event
opening_history = calls_send (note 1) ∷ (runs ∷ (opens ∷ []))

is_idle : (run (new_relay raw_tcp) opening_history).state ≡ relay_init
unfolding run step new_relay is_stop is_init
is_idle = refl

has_one : 0 < length (run (new_relay raw_tcp) opening_history).bufs
unfolding run step new_relay is_stop is_init
has_one = omega arith

run-woken_test : has_loop (run (new_relay raw_tcp) opening_history).tasks ≡ true
run-woken_test = run-woken raw_tcp opening_history is_idle has_one

abbrev busy_relay : Relay
unfolding new_relay
busy_relay = record (new_relay raw_tcp) {
  state = relay_start;
  opening = false;
  sending = true;
  bufs = note 1 ∷ [];
}

stop_while_writing_example :
    ((run busy_relay (calls_stop ∷ (runs ∷ []))).state ≡ relay_stop)
    × ((run busy_relay (calls_stop ∷ (runs ∷ (sends ∷ [])))).state ≡ relay_init)
    × ((run busy_relay (calls_stop ∷ (runs ∷ (sends ∷ [])))).shut ≡ true)
unfolding busy_relay
stop_while_writing_example = stop_while_writing busy_relay (note 1) refl refl refl

abbrev fresh_relay : Relay
unfolding new_relay
fresh_relay = new_relay raw_tcp

stop_while_opening_test :
    ((run fresh_relay (calls_stop ∷ (runs ∷ []))).state ≡ relay_stop)
    × ((run fresh_relay (calls_stop ∷ (runs ∷ (opens ∷ [])))).state ≡ relay_init)
unfolding fresh_relay
stop_while_opening_test = stop_while_opening fresh_relay refl refl

tick_times-traffic_test :
    (tick_times 12 (step fresh_relay traffic)).tasks
    ≡ fresh_relay.tasks ++ (if leb full_timeout 12 then stop_task ∷ [] else [])
tick_times-traffic_test = tick_times-traffic 12 fresh_relay

abbrev dead_relay : Relay
unfolding new_relay
dead_relay = record (new_relay raw_tcp) { state = relay_stop; opening = false; bufs = note 3 ∷ [] }

run-IsDead_test :
    IsDead (run dead_relay history)
    × ((run dead_relay history).wire ≡ dead_relay.wire)
    × ((run dead_relay history).bufs ≡ dead_relay.bufs)
unfolding dead_relay
run-IsDead_test =
    run-IsDead dead_relay history (record { stopped = refl; no_write = refl; no_start = refl })

abbrev full_note : RelayData
full_note = record { session = 1; cmd = data_tcp; len = 2; bytes = 9 ∷ (8 ∷ replicate 4094 0) }

full_note-IsMessage : IsMessage full_note
full_note-IsMessage = record {
  fits = omega arith;
  buffer = omega (arith, length-replicate {A = ℕ} 4094 0);
  word = omega arith;
}

internal_send_data_complete_test :
    (internal_send_data (class_of ssl_relay) full_note (some 18) ≡ returned 18)
    ↔ (18 ≡ length ((class_of ssl_relay).outgoing full_note))
internal_send_data_complete_test =
    internal_send_data_complete ssl_relay full_note 18 full_note-IsMessage

run-Rests_example :
    ((es : List Event)
      → AllEnabled (run (new_relay raw_tcp) opening_history) es
      → length es + effort (run (run (new_relay raw_tcp) opening_history) es)
        ≤ effort (run (new_relay raw_tcp) opening_history))
    × Rests (run (new_relay raw_tcp) opening_history)
run-Rests_example = run-Rests raw_tcp opening_history
