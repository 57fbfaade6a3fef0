-- ===== src/Manager/Run/Kept.antt =====
-- Each call keeps the table of sessions sound, src/relay_manager.cpp.
use ssl_socks.Base.{
  ℕ, ◌+◌, ◌≡◌, refl, ap, inl, inr, Option, none, some, List, [], arith, Bool-cases, Option-cases,
  Bytes, nat_eq, lookup, insert, erase,
}
use ssl_socks.Data.{stop_tcp, RelayData, for_command}
use ssl_socks.Manager.Request.{live_ssl, renew_ssl, add_request}
use ssl_socks.Manager.Request.Delivery.{add_request_live, add_request_new, add_request_dead}
use ssl_socks.Manager.Response.{data_tcp_response, and_then}
use ssl_socks.Manager.Response.Routing.{data_tcp_live, data_tcp_stopped}
use ssl_socks.Manager.Run.Registered.{
  Registered, Grows, Registered-Grows, Grows-call, Grows-new, Registered-insert, Registered-erase,
}
use ssl_socks.Manager.World.{
  World, Outcome, completed, thrown, fault, call, is_stopped, make, stop_manager, is_remote,
}
use ssl_socks.Manager.World.Calls.{make_self}
use ssl_socks.Relay.{RelayKind, ssl_relay, Relay, send_data}

abbrev pub IsRegistered : World → Type 0
IsRegistered w = Registered w w.relays

-- What holds of the state that a handler leaves.
abbrev pub Ensures : (World → Type 0) → Outcome → Type 0
Ensures P (completed w) = P w
Ensures P (thrown w) = P w
Ensures P fault = Unit {0}

pub Ensures-and_then :
    (P : World → Type 0) (o : Outcome) (f : World → Outcome)
    → Ensures P o
    → ((w : World) → P w → Ensures P (f w))
    → Ensures P (and_then o f)
Ensures-and_then P (completed w) f h g = g w h
Ensures-and_then P (thrown w) f h g = h
Ensures-and_then P fault f h g = tt

pub Ensures-map :
    (P Q : World → Type 0) (o : Outcome) → ((w : World) → P w → Q w) → Ensures P o → Ensures Q o
Ensures-map P Q (completed w) f h = f w h
Ensures-map P Q (thrown w) f h = f w h
Ensures-map P Q fault f h = tt

-- A call on a relay.
pub call-IsRegistered :
    (p : ℕ) (f : Relay → Relay) (w : World) → IsRegistered w → IsRegistered (call p f w)
unfolding call
call-IsRegistered p f w h = Registered-Grows w (call p f w) w.relays (Grows-call p f w) h

-- A new relay.
pub make-Grows : (k : RelayKind) (s : ℕ) (a b : Bytes) (w : World) → Grows w (make k s a b w)
unfolding make
make-Grows k s a b w = Grows-new w (make k s a b w) _ refl refl

pub make-IsRegistered :
    (k : RelayKind) (s : ℕ) (a b : Bytes) (w : World)
    → IsRegistered w
    → IsRegistered (make k s a b w)
unfolding make
make-IsRegistered k s a b w h =
    Registered-Grows w (make k s a b w) w.relays (make-Grows k s a b w) h

next-make : (k : RelayKind) (s : ℕ) (a b : Bytes) (w : World) → (make k s a b w).next ≡ w.next + 1
unfolding make
next-make k s a b w = refl

-- A new relay, put into the table.
pub put-Registered :
    (k : RelayKind) (s : ℕ) (a b : Bytes) (w : World) (m : List (ℕ × Option ℕ))
    → Registered w m
    → Registered (make k s a b w) (insert s (some w.next) m)
put-Registered k s a b w m h =
    Registered-insert (make k s a b w) s (some w.next) m
      (omega (arith, next-make k s a b w), ap (λ o. o.session) (make_self k s a b w))
      (Registered-Grows w (make k s a b w) m (make-Grows k s a b w) h)

pub add_request-IsRegistered :
    (b : RelayData) (w : World) → IsRegistered w → IsRegistered (add_request b w)
unfolding renew_ssl stop_manager
add_request-IsRegistered b w h = elim (Option-cases (live_ssl w)) [
  | inr (p, live) ↦ rw (add_request_live b w p live) (call-IsRegistered p (send_data b) w h)
  | inl dead ↦ elim (Bool-cases (is_remote w.type)) [
    | inl r ↦ rw (add_request_dead b w dead r) tt
    | inr l ↦ rw (add_request_new b w dead l) (
        call-IsRegistered w.next (send_data b) (renew_ssl w)
          (make-IsRegistered ssl_relay 0 [] [] w h))
  ]
]

-- The branches of add_response.
module _ (b : RelayData) (w : World) (h : IsRegistered w) where
  pub data_tcp-IsRegistered : Ensures IsRegistered (data_tcp_response b w)
  unfolding data_tcp_response
  data_tcp-IsRegistered = elim (Option-cases (lookup b.session w.relays)) [
    | inl absent ↦ rw (absent, data_tcp_response) h
    | inr (o, here) ↦ by_entry o here
  ]
    where
      by_entry :
          (o : Option ℕ)
          → lookup b.session w.relays ≡ some o
          → Ensures IsRegistered (data_tcp_response b w)
      by_entry none here = rw (here, data_tcp_response) tt
      by_entry (some p) here = elim (Bool-cases (is_stopped w p)) [
        | inl stopped ↦ rw (data_tcp_stopped b w p here stopped) (
            add_request-IsRegistered (for_command b.session stop_tcp)
              (record w { relays = erase b.session w.relays })
              (Registered-erase w b.session w.relays h))
        | inr live ↦ rw (data_tcp_live b w p here live) (call-IsRegistered p (send_data b) w h)
      ]
