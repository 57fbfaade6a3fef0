-- ===== src/Acceptor/Remote.antt =====
-- Connections from the other side, src/relay_acceptor.cpp (remote_accept).
-- The manager for the next connection, and those that have one.
use ssl_socks.Base.{
  ℕ, suc, ◌+◌, ◌≡◌, refl, sym, subst, Bool, true, false, some, List, [], ◌∷◌, ◌++◌, arith, length,
  length-append,
}
use ssl_socks.Manager.Run.{make_idle}
use ssl_socks.Manager.World.{World, update, new_manager, set_ssl, manager_start}
use ssl_socks.Relay.{ServerType, remote_server, ssl_relay, new_relay}

pub record RemoteAcceptor : Type 0 where
  pub pending : World
  pub served : List World

abbrev pub new_remote_acceptor : ServerType → RemoteAcceptor
new_remote_acceptor k = record { pending = new_manager k; served = [] }

-- start_relay on a relay that was made before.
unfoldable pub start_object : ℕ → World → World
start_object p w = record w {
  objects = update w.objects p (record (w.objects p) { started = true });
}

-- One connection: the relay `p`, made in front of the accept, is given to the pending manager, and
-- started; then there is a new one.
unfoldable pub accept_remote : ServerType → RemoteAcceptor → RemoteAcceptor
unfolding make_idle start_object new_manager
accept_remote k a =
    let p = a.pending.next in
    let w = manager_start (set_ssl p (make_idle ssl_relay a.pending)) in
    record { pending = new_manager k; served = a.served ++ start_object p w ∷ [] }

-- The loop of remote_accept over the ends of async_accept: an error is thrown, and ends it.
unfoldable pub remote_accept : ServerType → List Bool → RemoteAcceptor → RemoteAcceptor
unfolding accept_remote
remote_accept k [] a = a
remote_accept k (true ∷ arrivals) a = remote_accept k arrivals (accept_remote k a)
remote_accept k (false ∷ arrivals) a = a

-- How many connections come before the first error.
abbrev pub accepted_before : List Bool → ℕ
accepted_before [] = 0
accepted_before (true ∷ arrivals) = suc (accepted_before arrivals)
accepted_before (false ∷ arrivals) = 0

-- A manager with a started TLS relay that is not stopped, and nothing else.
pub record OwnManager (k : ServerType) (w : World) : Type 0 where
  pub tls : w.ssl ≡ some 0
  pub alone : w.next ≡ 1
  pub runs_tls : (w.objects 0).started ≡ true
  pub is_tls : (w.objects 0).relay ≡ new_relay ssl_relay
  pub no_sessions : w.relays ≡ []
  pub same_type : w.type ≡ k

abbrev pub AllOwn : ServerType → List World → Type 0
AllOwn k [] = Unit {0}
AllOwn k (w ∷ ws) = OwnManager k w × AllOwn k ws

AllOwn-append :
    (k : ServerType) (xs ys : List World) → AllOwn k xs → AllOwn k ys → AllOwn k (xs ++ ys)
AllOwn-append k [] ys h g = g
AllOwn-append k (x ∷ xs) ys h g = (h.0, AllOwn-append k xs ys h.1 g)

abbrev serve_one : World
serve_one =
    start_object 0 (manager_start (set_ssl 0 (make_idle ssl_relay (new_manager remote_server))))

serve_one-OwnManager : OwnManager remote_server serve_one
unfolding start_object manager_start set_ssl make_idle new_manager new_relay
serve_one-OwnManager = record {
  tls = refl;
  alone = refl;
  runs_tls = refl;
  is_tls = refl;
  no_sessions = refl;
  same_type = refl;
}

remote_accept-AllOwn :
    (arrivals : List Bool) (a : RemoteAcceptor)
    → a.pending ≡ new_manager remote_server
    → AllOwn remote_server a.served
    → AllOwn remote_server (remote_accept remote_server arrivals a).served
      × ((remote_accept remote_server arrivals a).pending ≡ new_manager remote_server)
      × (length (remote_accept remote_server arrivals a).served
          ≡ length a.served + accepted_before arrivals)
unfolding remote_accept accept_remote
remote_accept-AllOwn [] a f h = (h, f, omega arith)
remote_accept-AllOwn (false ∷ arrivals) a f h = (h, f, omega arith)
remote_accept-AllOwn (true ∷ arrivals) a f h =
    let b = accept_remote remote_server a in
    let (own, fresh, count) = remote_accept-AllOwn arrivals b refl (
      AllOwn-append remote_server a.served _ h (
        subst
            (λ w.
              OwnManager remote_server
                (start_object w.next (manager_start (set_ssl w.next (make_idle ssl_relay w)))))
            (sym f) serve_one-OwnManager,
        tt,
      )) in
    (
      own,
      fresh,
      omega (
        arith,
        count,
        length-append a.served (
            start_object a.pending.next
              (manager_start (set_ssl a.pending.next (make_idle ssl_relay a.pending)))
            ∷ []),
      ),
    )

-- Each connection that a remote server accepts before an error has a manager of its own, with the
-- connection's TLS relay, started, and with no session and no relay of another connection; the
-- manager for the next one is a new one.
pub remote_accept-own :
    (arrivals : List Bool)
    → AllOwn remote_server
        (remote_accept remote_server arrivals (new_remote_acceptor remote_server)).served
      × ((remote_accept remote_server arrivals (new_remote_acceptor remote_server)).pending
          ≡ new_manager remote_server)
      × (length (remote_accept remote_server arrivals (new_remote_acceptor remote_server)).served
          ≡ accepted_before arrivals)
remote_accept-own arrivals =
    let (own, fresh, count) =
      remote_accept-AllOwn arrivals (new_remote_acceptor remote_server) refl tt in
    (own, fresh, omega (arith, count))
