-- ===== src/Manager/System.antt =====
-- A manager and its relays at work, src/relay_manager.cpp and src/base_relay.cpp: each of them runs on
-- a strand of its own, so that the calls of the manager and what happens to the relays come in any
-- order.
pub mod Idle
mod Tests
use ssl_socks.Address.{endpoint_eq, AddressText}
use ssl_socks.Base.{
  ℕ, ◌^◌, ◌≤◌, ◌<◌, ◌≡◌, sym, subst, true, false, some, List, [], ◌∷◌, map, length, nat_eq, lookup,
}
use ssl_socks.Data.Wire.{seen, read_messages, write_messages}
use ssl_socks.Data.Wire.RoundTrip.{read_messages-write_messages}
use ssl_socks.Manager.Response.{and_then}
use ssl_socks.Manager.Run.{ManagerCall, manager_call}
use ssl_socks.Manager.Run.Bounded.{AllInBounds, IsBounded, call-IsBounded}
use ssl_socks.Manager.Run.Bounded.Calls.{CallFits, manager_call-IsBounded, new_manager-IsBounded}
use ssl_socks.Manager.Run.Kept.{
  IsRegistered, Ensures, Ensures-and_then, Ensures-map, call-IsRegistered,
}
use ssl_socks.Manager.Run.Registered.{Registered-lookup}
use ssl_socks.Manager.Run.Soundness.{manager_call-IsRegistered}
use ssl_socks.Manager.World.{World, Outcome, completed, call, new_manager}
use ssl_socks.Relay.{ServerType, relay_init, is_stop, Relay, Event, step}
use ssl_socks.Relay.History.{EventFits, HasHistory, step-HasHistory}
use ssl_socks.Relay.History.Holds.{HasHistory-Holds}
use ssl_socks.Relay.Wakeup.{has_loop, Inv, run-new_relay-Inv, IsQuiet, quiet_empty}

pub data SystemEvent : Type 0 where
  manages : ManagerCall → SystemEvent
  relays_do : ℕ → Event → SystemEvent

unfoldable pub system_step : AddressText → SystemEvent → World → Outcome
system_step t (manages c) w = manager_call t c w
system_step t (relays_do p e) w = completed (call p (λ r. step r e) w)

-- An exception or a fault ends the process.
unfoldable pub system_run : AddressText → List SystemEvent → World → Outcome
system_run t [] w = completed w
system_run t (e ∷ es) w = and_then (system_step t e w) (system_run t es)

-- What is handed over, from outside or by a relay's owner, can be written to a stream.
abbrev pub SystemEventFits : SystemEvent → Type 0
SystemEventFits (manages c) = CallFits c
SystemEventFits (relays_do p e) = EventFits e

abbrev pub AllSystemEventsFit : List SystemEvent → Type 0
AllSystemEventsFit [] = Unit {0}
AllSystemEventsFit (e ∷ es) = SystemEventFits e × AllSystemEventsFit es

system_step-IsBounded :
    (t : AddressText) (e : SystemEvent) (w : World)
    → SystemEventFits e
    → IsBounded w
    → Ensures IsBounded (system_step t e w)
unfolding system_step
system_step-IsBounded t (manages c) w f h = manager_call-IsBounded t c w f h
system_step-IsBounded t (relays_do p e) w f h =
    call-IsBounded p (λ r. step r e) w (λ r g. step-HasHistory r e f g) h

pub system_run-IsBounded :
    (t : AddressText) (es : List SystemEvent) (w : World)
    → AllSystemEventsFit es
    → IsBounded w
    → Ensures IsBounded (system_run t es w)
unfolding system_run
system_run-IsBounded t [] w f h = h
system_run-IsBounded t (e ∷ es) w f h =
    Ensures-and_then IsBounded (system_step t e w) (system_run t es)
      (system_step-IsBounded t e w f.0 h) (λ w' h'. system_run-IsBounded t es w' f.1 h')

-- The sessions are words, and what each relay has written to its stream is read from it as it was.
abbrev pub IsCarried : World → Type 0
IsCarried w =
    (w.session < 2 ^ 32)
    × AllInBounds w.srcs
    × ((p n : ℕ)
        → length (w.objects p).relay.wire ≤ n
        → map (λ d. seen d) (read_messages n (write_messages (w.objects p).relay.wire))
          ≡ map (λ d. seen d) (w.objects p).relay.wire)

-- A manager and its relays start anew, and calls of the manager come between what happens to the
-- relays, in any order: requests that have a name and fit, messages of any command that fit, datagrams
-- whose session is still to be given. At the end, or where an exception was thrown, the counter and the
-- sessions of all sources are below 2 ^ 32, no source is left more than nine ticks, and what a relay has
-- written as messages is read by the other end of its stream, given at least as many rounds, as the same
-- sessions, commands and payloads.
pub system_run-IsCarried :
    (t : AddressText) (k : ServerType) (es : List SystemEvent)
    → AllSystemEventsFit es
    → Ensures IsCarried (system_run t es (new_manager k))
system_run-IsCarried t k es f =
    Ensures-map IsBounded IsCarried (system_run t es (new_manager k))
      (λ w h. (
        h.counter,
        h.sources,
        λ p n l.
            read_messages-write_messages (w.objects p).relay.wire n
              (HasHistory-Holds (w.objects p).relay (h.histories p)).wire l,
      ))
      (system_run-IsBounded t es (new_manager k) f (new_manager-IsBounded k))

-- No message of a relay is forgotten.
abbrev pub IsAwake : World → Type 0
IsAwake w =
    (p : ℕ)
    → (IsQuiet (w.objects p).relay
        → is_stop (w.objects p).relay.state ≡ false
        → (w.objects p).relay.bufs ≡ [])
      × ((w.objects p).relay.state ≡ relay_init
          → 0 < length (w.objects p).relay.bufs
          → has_loop (w.objects p).relay.tasks ≡ true)

pub HasHistory-Inv : (r : Relay) → HasHistory r → Inv r
HasHistory-Inv r h = subst Inv (sym h.origin) (run-new_relay-Inv h.kind h.events)

-- A manager and its relays start anew, and calls of the manager come between what happens to the relays,
-- in any order: requests that have a name and fit, messages of any command that fit, datagrams whose
-- session is still to be given. At the end, or where an exception was thrown, each relay that is not
-- stopped and has nothing under way has an empty queue, and each that is idle with messages in its queue
-- has a run of the sending loop posted.
pub system_run-IsAwake :
    (t : AddressText) (k : ServerType) (es : List SystemEvent)
    → AllSystemEventsFit es
    → Ensures IsAwake (system_run t es (new_manager k))
system_run-IsAwake t k es f =
    Ensures-map IsBounded IsAwake (system_run t es (new_manager k))
      (λ w h p.
        let v = HasHistory-Inv (w.objects p).relay (h.histories p) in
        (λ q s. quiet_empty (w.objects p).relay v q s, λ i l. v.woken i l))
      (system_run-IsBounded t es (new_manager k) f (new_manager-IsBounded k))

system_step-IsRegistered :
    (t : AddressText) (e : SystemEvent) (w : World)
    → IsRegistered w
    → Ensures IsRegistered (system_step t e w)
unfolding system_step
system_step-IsRegistered t (manages c) w h = manager_call-IsRegistered t c w h
system_step-IsRegistered t (relays_do p e) w h = call-IsRegistered p (λ r. step r e) w h

system_run-IsRegistered :
    (t : AddressText) (es : List SystemEvent) (w : World)
    → IsRegistered w
    → Ensures IsRegistered (system_run t es w)
unfolding system_run
system_run-IsRegistered t [] w h = h
system_run-IsRegistered t (e ∷ es) w h =
    Ensures-and_then IsRegistered (system_step t e w) (system_run t es)
      (system_step-IsRegistered t e w h) (system_run-IsRegistered t es)

-- A manager and its relays start anew, and calls of the manager, of any kind, come between what happens
-- to the relays, in any order. At the end a session is registered only with a relay that was made, and
-- that has this very session.
pub system_run-registered :
    (t : AddressText) (k : ServerType) (es : List SystemEvent) (w : World) (s p : ℕ)
    → system_run t es (new_manager k) ≡ completed w
    → lookup s w.relays ≡ some (some p)
    → (p < w.next) × ((w.objects p).session ≡ s)
unfolding new_manager
system_run-registered t k es w s p e l =
    let sound = system_run-IsRegistered t es (new_manager k) tt in
    Registered-lookup w s (some p) w.relays (subst (Ensures IsRegistered) e sound) l
