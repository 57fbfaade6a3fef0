-- ===== src/Local/Direct/Countdown.antt =====
-- A direct relay and the countdown of the relay that owns it, src/raw_tcp.cpp (impl_local_relay) and
-- src/base_relay.cpp (timeout_down).
use ssl_socks.Base.{
  ℕ, suc, ◌-◌, ◌≡◌, refl, ap, ◌∙◌, ap₂, Bool, true, false, List, [], ◌∷◌, ◌++◌, leb, if◌then◌else◌,
}
use ssl_socks.Local.Direct.{LineEvent, Direct, direct_step, direct_run}
use ssl_socks.Relay.{
  full_timeout, raw_tcp, stop_task, Relay, run_stop, stop_inside, timeout_down, traffic, step,
}
use ssl_socks.Relay.Timeout.{tick_times, stop_at, timeout_down_lem, tick_times-traffic}

pub record Connection : Type 0 where
  pub owner : Relay
  pub lines : Direct

pub data ConnectionEvent : Type 0 where
  line_event : Bool → LineEvent → ConnectionEvent
  timer_tick : ConnectionEvent

-- `_owner->stop_relay()` in the catch, which runs at once on the relay's strand.
abbrev pub stops_now : Bool → Bool → Relay → Relay
stops_now true false r = stop_inside raw_tcp r
stops_now before after r = r

abbrev pub alive_of : Bool → Direct → Bool
alive_of true d = d.to_client.alive
alive_of false d = d.to_remote.alive

-- The loops neither send through start_send nor reset the countdown.
unfoldable pub connection_step : ℕ → ConnectionEvent → Connection → Connection
unfolding direct_step
connection_step s (line_event dir e) c =
    let d = direct_step s dir e c.lines in
    record { owner = stops_now (alive_of dir c.lines) (alive_of dir d) c.owner; lines = d }
connection_step s timer_tick c = record c { owner = (timeout_down c.owner).0 }

unfoldable pub connection_run : ℕ → List ConnectionEvent → Connection → Connection
unfolding connection_step
connection_run s [] c = c
connection_run s (e ∷ es) c = connection_run s es (connection_step s e c)

abbrev pub ticks_of : List ConnectionEvent → ℕ
ticks_of [] = 0
ticks_of (timer_tick ∷ es) = suc (ticks_of es)
ticks_of (line_event dir e ∷ es) = ticks_of es

abbrev pub lines_of : List ConnectionEvent → List (Bool × LineEvent)
lines_of [] = []
lines_of (timer_tick ∷ es) = lines_of es
lines_of (line_event dir e ∷ es) = (dir, e) ∷ lines_of es

-- Two relays that tick alike.
abbrev TickAlike : Relay → Relay → Type 0
TickAlike r q = (r.timeout ≡ q.timeout) × (r.tasks ≡ q.tasks)

TickAlike-tick : (r q : Relay) → TickAlike r q → TickAlike (timeout_down r).0 (timeout_down q).0
TickAlike-tick r q h =
    rw (timeout_down_lem r, timeout_down_lem q)
      (ap (λ n. n - 1) h.0, ap₂ (λ ts n. ts ++ stop_at 1 n) h.1 h.0)

TickAlike-stops :
    (before after : Bool) (r q : Relay) → TickAlike r q → TickAlike (stops_now before after r) q
unfolding stop_inside run_stop
TickAlike-stops true false r q h = h
TickAlike-stops true true r q h = h
TickAlike-stops false after r q h = h

connection_run-TickAlike :
    (s : ℕ) (es : List ConnectionEvent) (c : Connection) (q : Relay)
    → TickAlike c.owner q
    → TickAlike (connection_run s es c).owner (tick_times (ticks_of es) q)
      × ((connection_run s es c).lines ≡ direct_run s (lines_of es) c.lines)
unfolding connection_run connection_step direct_run tick_times
connection_run-TickAlike s [] c q h = (h, refl)
connection_run-TickAlike s (timer_tick ∷ es) c q h =
    connection_run-TickAlike s es (connection_step s timer_tick c) (timeout_down q).0
      (TickAlike-tick c.owner q h)
connection_run-TickAlike s (line_event dir e ∷ es) c q h =
    connection_run-TickAlike s es (connection_step s (line_event dir e) c) q (
      TickAlike-stops (alive_of dir c.lines) (alive_of dir (direct_step s dir e c.lines)) c.owner q
        h)

-- However much a direct connection carries, its relay is told to stop, once, at the ninth tick of
-- the timer after its countdown was reset: reads and writes do not reset it, and carry on the same
-- between the ticks.
pub connection_run-countdown :
    (s : ℕ) (es : List ConnectionEvent) (r : Relay) (d : Direct)
    → ((connection_run s es (record { owner = step r traffic; lines = d })).owner.tasks
        ≡ r.tasks ++ (if leb full_timeout (ticks_of es) then stop_task ∷ [] else []))
      × ((connection_run s es (record { owner = step r traffic; lines = d })).lines
          ≡ direct_run s (lines_of es) d)
connection_run-countdown s es r d =
    let (alike, lines) =
      connection_run-TickAlike s es (record { owner = step r traffic; lines = d }) (step r traffic)
        (refl, refl) in
    (alike.1 ∙ tick_times-traffic (ticks_of es) r, lines)
