-- ===== src/Manager/Run/Bounded.antt =====
-- What the calls of a manager keep within bounds, src/relay_manager.cpp: sessions, which are uint32_t,
-- and the messages that are posted to relays.
pub mod Responses
pub mod Rounds
pub mod Calls
use ssl_socks.Address.{Sockaddr}
use ssl_socks.Base.{
  ℕ, ◌^◌, ◌≤◌, ◌<◌, ◌≡◌, refl, sym, subst, inl, inr, Option, none, some, List, [], ◌∷◌, arith, ◌==◌,
  Bool-cases, either_branch, Option-cases, Bytes,
}
use ssl_socks.Data.{RelayData}
use ssl_socks.Manager.Request.{live_ssl, renew_ssl, add_request}
use ssl_socks.Manager.Request.Delivery.{add_request_live, add_request_new, add_request_dead}
use ssl_socks.Manager.World.{
  Object, UdpTimeout, World, update, call, make, stop_each, stop_manager, is_remote,
}
use ssl_socks.Relay.{
  full_timeout, RelayKind, ssl_relay, Relay, send_data, stop_relay, calls_send, calls_stop, step,
}
use ssl_socks.Relay.History.{IsSendable, HasHistory, new_relay-HasHistory, step-HasHistory}

abbrev pub AllInBounds : List (Sockaddr × UdpTimeout) → Type 0
AllInBounds [] = Unit {0}
AllInBounds ((e, u) ∷ m) = (u.session < 2 ^ 32) × (u.timeout ≤ full_timeout) × AllInBounds m

-- The counter and the sessions of sources are words, their countdowns begin at TIMEOUT, and each relay came to its state by a history of
-- its own, in which it was handed only what can be written to a stream.
pub record IsBounded (w : World) : Type 0 where
  pub counter : w.session < 2 ^ 32
  pub sources : AllInBounds w.srcs
  pub histories : (p : ℕ) → HasHistory (w.objects p).relay

-- What a relay does by an event.
abbrev pub Happens : (Relay → Relay) → Type 0
Happens f = (r : Relay) → HasHistory r → HasHistory (f r)

pub send_data-Happens : (b : RelayData) → IsSendable b → Happens (send_data b)
unfolding step
send_data-Happens b s r h = step-HasHistory r (calls_send b) s h

pub stop_relay-Happens : Happens stop_relay
unfolding step
stop_relay-Happens r h = step-HasHistory r calls_stop tt h

-- The relays of a later state.
abbrev pub Stores : (ℕ → Object) → Type 0
Stores f = (p : ℕ) → HasHistory (f p).relay

pub Stores-update :
    (f : ℕ → Object) (p : ℕ) (o : Object) → HasHistory o.relay → Stores f → Stores (update f p o)
Stores-update f p o h g q = either_branch (λ (x : Object). HasHistory x.relay) (p == q) h (g q)

pub call-IsBounded :
    (p : ℕ) (f : Relay → Relay) (w : World) → Happens f → IsBounded w → IsBounded (call p f w)
unfolding call
call-IsBounded p f w k h = record {
  counter = h.counter;
  sources = h.sources;
  histories =
      Stores-update w.objects p (record (w.objects p) { relay = f (w.objects p).relay })
        (k (w.objects p).relay (h.histories p)) h.histories;
}

pub make-IsBounded :
    (k : RelayKind) (s : ℕ) (a b : Bytes) (w : World) → IsBounded w → IsBounded (make k s a b w)
unfolding make
make-IsBounded k s a b w h = record {
  counter = h.counter;
  sources = h.sources;
  histories = Stores-update w.objects w.next _ (new_relay-HasHistory k) h.histories;
}

pub stop_each-IsBounded :
    (m : List (ℕ × Option ℕ)) (w : World) → IsBounded w → IsBounded (stop_each m w)
unfolding stop_each
stop_each-IsBounded [] w h = h
stop_each-IsBounded ((s, none) ∷ m) w h = stop_each-IsBounded m w h
stop_each-IsBounded ((s, some p) ∷ m) w h =
    stop_each-IsBounded m (call p stop_relay w) (call-IsBounded p stop_relay w stop_relay-Happens h)

-- What is left out of the bounds.
pub IsBounded-same :
    (w v : World)
    → v.session ≡ w.session
    → v.srcs ≡ w.srcs
    → v.objects ≡ w.objects
    → IsBounded w
    → IsBounded v
IsBounded-same w v a b c h = record {
  counter = omega (arith, a, h.counter);
  sources = subst AllInBounds (sym b) h.sources;
  histories = subst Stores (sym c) h.histories;
}

pub stop_manager-IsBounded : (w : World) → IsBounded w → IsBounded (stop_manager w)
unfolding stop_manager
stop_manager-IsBounded w h =
    IsBounded-same (stop_each w.relays w) _ refl refl refl (stop_each-IsBounded w.relays w h)

pub add_request-IsBounded :
    (b : RelayData) (w : World) → IsSendable b → IsBounded w → IsBounded (add_request b w)
unfolding renew_ssl
add_request-IsBounded b w s h = elim (Option-cases (live_ssl w)) [
  | inr (p, live) ↦
      rw (add_request_live b w p live) (call-IsBounded p (send_data b) w (send_data-Happens b s) h)
  | inl dead ↦ elim (Bool-cases (is_remote w.type)) [
    | inl r ↦ rw (add_request_dead b w dead r) (stop_manager-IsBounded w h)
    | inr l ↦ rw (add_request_new b w dead l) (
        call-IsBounded w.next (send_data b) (renew_ssl w) (send_data-Happens b s) (
          IsBounded-same (make ssl_relay 0 [] [] w) _ refl refl refl
            (make-IsBounded ssl_relay 0 [] [] w h)))
  ]
]
