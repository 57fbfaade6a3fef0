-- ===== src/Manager/Request/Delivery.antt =====
-- Where a request goes, src/relay_manager.cpp (add_request).
use ssl_socks.Base.{
  ℕ, ◌≡◌, refl, ap, ◌∙◌, ◌⊎◌, inl, inr, true, false, Option, none, some, List, [], ◌∷◌, ◌++◌, arith,
  Option-cases,
}
use ssl_socks.Data.{RelayData}
use ssl_socks.Manager.Request.{live_ssl, renew_ssl, add_request}
use ssl_socks.Manager.World.{World, call, is_stopped, make, stop_each, stop_manager, is_remote}
use ssl_socks.Manager.World.Calls.{call_self, make_self}
use ssl_socks.Relay.{
  relay_stop, is_stop, ssl_relay, Task, push, stop_task, new_relay, send_data, stop_relay,
}
use ssl_socks.Relay.Calm.{has_stop, has_stop-post}

abbrev pub tasks_of : World → ℕ → List Task
tasks_of w p = (w.objects p).relay.tasks

pub add_request_live :
    (b : RelayData) (w : World) (p : ℕ)
    → live_ssl w ≡ some p
    → add_request b w ≡ call p (send_data b) w
unfolding add_request
add_request_live b w p e = rw (e, add_request) refl

pub add_request_new :
    (b : RelayData) (w : World)
    → live_ssl w ≡ none
    → is_remote w.type ≡ false
    → add_request b w ≡ call w.next (send_data b) (renew_ssl w)
unfolding add_request
add_request_new b w e l = rw (e, add_request) (rw l refl)

pub add_request_dead :
    (b : RelayData) (w : World)
    → live_ssl w ≡ none
    → is_remote w.type ≡ true
    → add_request b w ≡ stop_manager w
unfolding add_request
add_request_dead b w e l = rw (e, add_request) (rw l refl)

live_ssl-some :
    (w : World) (p : ℕ) → live_ssl w ≡ some p → (w.ssl ≡ some p) × (is_stopped w p ≡ false)
unfolding live_ssl
live_ssl-some w p e = ground arith

-- The message stands last among the handlers of `p`, which is the TLS relay and not stopped.
abbrev pub Delivered : RelayData → World → ℕ → Type 0
Delivered b w p =
    (ts : List Task) × (w.ssl ≡ some p)
    × (is_stopped w p ≡ false)
    × (tasks_of w p ≡ ts ++ push b ∷ [])

Delivered-live :
    (b : RelayData) (w : World) (p : ℕ)
    → live_ssl w ≡ some p
    → Delivered b (call p (send_data b) w) p
unfolding call
Delivered-live b w p e =
    let (s, live) = live_ssl-some w p e in
    let self = call_self p (send_data b) w in
    (tasks_of w p, s, ap (λ o. is_stop o.relay.state) self ∙ live, ap (λ o. o.relay.tasks) self)

Delivered-new :
    (b : RelayData) (w : World) → Delivered b (call w.next (send_data b) (renew_ssl w)) w.next
unfolding call renew_ssl is_stop new_relay
Delivered-new b w =
    let self = call_self w.next (send_data b) (renew_ssl w) in
    let made = make_self ssl_relay 0 [] [] w in
    (
      [],
      refl,
      ap (λ o. is_stop o.relay.state) self ∙ ap (λ o. is_stop o.relay.state) made,
      ap (λ o. o.relay.tasks) self ∙ ap (λ o. o.relay.tasks ++ push b ∷ []) made,
    )

-- On a server that is not remote a request is never refused: afterwards there is a TLS relay that
-- is not stopped, and the request is the last thing posted to it.
pub add_request-local :
    (b : RelayData) (w : World)
    → is_remote w.type ≡ false
    → (p : ℕ) × Delivered b (add_request b w) p
add_request-local b w l = elim (Option-cases (live_ssl w)) [
  | inl dead ↦ (w.next, rw (add_request_new b w dead l) (Delivered-new b w))
  | inr (p, live) ↦ (p, rw (add_request_live b w p live) (Delivered-live b w p live))
]

-- The sessions stay as they are.
pub add_request-relays :
    (b : RelayData) (w : World) → is_remote w.type ≡ false → (add_request b w).relays ≡ w.relays
unfolding call renew_ssl make
add_request-relays b w l = elim (Option-cases (live_ssl w)) [
  | inl dead ↦ rw (add_request_new b w dead l) refl
  | inr (p, live) ↦ rw (add_request_live b w p live) refl
]

-- A relay under some session of the list.
abbrev pub Holds : ℕ → List (ℕ × Option ℕ) → Type 0
Holds p [] = ⊥
Holds p ((s, none) ∷ rest) = Holds p rest
Holds p ((s, some q) ∷ rest) = (p ≡ q) ⊎ Holds p rest

-- A stop is among the handlers to run.
abbrev pub IsStopping : World → ℕ → Type 0
IsStopping w p = has_stop (tasks_of w p) ≡ true

call-IsStopping : (p q : ℕ) (w : World) → IsStopping w p → IsStopping (call q stop_relay w) p
unfolding call
call-IsStopping p q w h = ground (arith, has_stop-post (tasks_of w p) stop_task)

pub call_self-IsStopping : (q : ℕ) (w : World) → IsStopping (call q stop_relay w) q
call_self-IsStopping q w =
    ap (λ o. has_stop o.relay.tasks) (call_self q stop_relay w)
    ∙ ground (arith, has_stop-post (tasks_of w q) stop_task)

stop_each-keeps :
    (rs : List (ℕ × Option ℕ)) (p : ℕ) (w : World) → IsStopping w p → IsStopping (stop_each rs w) p
unfolding stop_each
stop_each-keeps [] p w h = h
stop_each-keeps ((s, none) ∷ rest) p w h = stop_each-keeps rest p w h
stop_each-keeps ((s, some q) ∷ rest) p w h =
    stop_each-keeps rest p (call q stop_relay w) (call-IsStopping p q w h)

stop_each-stops :
    (rs : List (ℕ × Option ℕ)) (p : ℕ) (w : World) → Holds p rs → IsStopping (stop_each rs w) p
unfolding stop_each
stop_each-stops [] p w h = absurd h
stop_each-stops ((s, none) ∷ rest) p w h = stop_each-stops rest p w h
stop_each-stops ((s, some q) ∷ rest) p w (inl e) =
    stop_each-keeps rest p (call q stop_relay w) (rw e (call_self-IsStopping q w))
stop_each-stops ((s, some q) ∷ rest) p w (inr h) = stop_each-stops rest p (call q stop_relay w) h

-- Stopping the manager keeps no relay, and each one that it held is told to stop.
pub stop_manager-stops :
    (w : World) (p : ℕ)
    → Holds p w.relays
    → ((stop_manager w).relays ≡ [])
      × ((stop_manager w).state ≡ relay_stop)
      × IsStopping (stop_manager w) p
unfolding stop_manager
stop_manager-stops w p h = (refl, refl, stop_each-stops w.relays p w h)

-- On a remote server a request goes to its TLS relay or, if that is gone, stops the manager.
pub add_request-remote :
    (b : RelayData) (w : World)
    → is_remote w.type ≡ true
    → ((p : ℕ) × Delivered b (add_request b w) p)
      ⊎ ((live_ssl w ≡ none) × (add_request b w ≡ stop_manager w))
add_request-remote b w l = elim (Option-cases (live_ssl w)) [
  | inl dead ↦ inr (dead, add_request_dead b w dead l)
  | inr (p, live) ↦ inl (p, rw (add_request_live b w p live) (Delivered-live b w p live))
]
