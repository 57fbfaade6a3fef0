-- ===== src/Relay/History.antt =====
-- Relays that came to their state by a history, src/base_relay.cpp.
pub mod Holds
pub mod Countdown
use ssl_socks.Base.{◌≡◌, refl, sym, ap, ◌∙◌, List, [], ◌∷◌, ◌++◌}
use ssl_socks.Data.{RelayData, IsMessage}
use ssl_socks.Data.Wire.{IsNamed}
use ssl_socks.Relay.{RelayKind, Relay, new_relay, Event, calls_send, step, run}

pub record IsSendable (b : RelayData) : Type 0 where
  pub message : IsMessage b
  pub named : IsNamed b.cmd

-- What is handed over can be written to a stream.
abbrev pub EventFits : Event → Type 0
EventFits (calls_send b) = IsSendable b
EventFits _ = Unit {0}

abbrev pub AllEventsFit : List Event → Type 0
AllEventsFit [] = Unit {0}
AllEventsFit (e ∷ es) = EventFits e × AllEventsFit es

-- A relay that a new one has become.
pub record HasHistory (r : Relay) : Type 0 where
  pub kind : RelayKind
  pub events : List Event
  pub origin : r ≡ run (new_relay kind) events
  pub fits : AllEventsFit events

run-append : (r : Relay) (es : List Event) (e : Event) → run r (es ++ e ∷ []) ≡ step (run r es) e
unfolding run
run-append r [] e = refl
run-append r (x ∷ es) e = run-append (step r x) es e

AllEventsFit-append :
    (es : List Event) (e : Event) → AllEventsFit es → EventFits e → AllEventsFit (es ++ e ∷ [])
AllEventsFit-append [] e h k = (k, tt)
AllEventsFit-append (x ∷ es) e h k = (h.0, AllEventsFit-append es e h.1 k)

pub new_relay-HasHistory : (k : RelayKind) → HasHistory (new_relay k)
unfolding run
new_relay-HasHistory k = record { kind = k; events = []; origin = refl; fits = tt }

pub step-HasHistory : (r : Relay) (e : Event) → EventFits e → HasHistory r → HasHistory (step r e)
step-HasHistory r e f h = record {
  kind = h.kind;
  events = h.events ++ e ∷ [];
  origin = ap (λ x. step x e) h.origin ∙ sym (run-append (new_relay h.kind) h.events e);
  fits = AllEventsFit-append h.events e h.fits f;
}
