-- ===== src/Manager/World/Calls.antt =====
-- What a call on one relay does to the store, src/relay_manager.cpp.
use ssl_socks.Base.{ℕ, ◌≡◌, refl, ◌≢◌, true, arith, ==_refl, Bytes}
use ssl_socks.Manager.World.{World, call, make}
use ssl_socks.Relay.{RelayKind, Relay, new_relay}

pub call_self :
    (p : ℕ) (f : Relay → Relay) (w : World)
    → (call p f w).objects p ≡ record (w.objects p) { relay = f (w.objects p).relay }
unfolding call
call_self p f w = rw (==_refl p) refl

pub call_ne :
    (p q : ℕ) (f : Relay → Relay) (w : World) → p ≢ q → (call p f w).objects q ≡ w.objects q
unfolding call
call_ne p q f w h = ground arith

pub make_self :
    (k : RelayKind) (s : ℕ) (h v : Bytes) (w : World)
    → (make k s h v w).objects w.next
      ≡ record { relay = new_relay k; session = s; host = h; service = v; started = true }
unfolding make
make_self k s h v w = rw (==_refl w.next) refl

pub make_ne :
    (k : RelayKind) (s : ℕ) (h v : Bytes) (q : ℕ) (w : World)
    → w.next ≢ q
    → (make k s h v w).objects q ≡ w.objects q
unfolding make
make_ne k s h v q w e = ground arith
