-- ===== src/Local/Connect.antt =====
-- The start of a raw_tcp relay, src/raw_tcp.cpp (start_relay, impl_start_remote).
-- The branches of `server_type` as the array of start_relay is indexed.
use ssl_socks.Address.{Sockaddr, AddressText}
use ssl_socks.Base.{
  ℕ, zero, suc, ◌≡◌, refl, Bool, true, false, ◌&&◌, Option, none, some, List, [], ◌∷◌, ◌++◌,
  if◌then◌else◌, either_branch, Bytes,
}
use ssl_socks.Local.{
  ClientIo, Action, writes_client, sends_request, starts_read, starts_send, Ending, running, failed,
  uncaught, left_early, caught_with, no_auth, ok_back, start_local, transparent_message,
  start_transparent,
}
use ssl_socks.Local.Endings.{Closed, start_local-Closed}
use ssl_socks.Relay.{ServerType, local_server, remote_server, local_transparent}

unfoldable pub type_index : ServerType → ℕ
type_index local_server = 0
type_index remote_server = 1
type_index local_transparent = 2

-- What a remote server's relay awaits: whether the host was resolved, and connected to.
pub record RemoteIo : Type 0 where
  pub resolved : Bool
  pub connected : Bool

-- impl_start_remote(): the relay is ready, and reads, only after it is connected; the catch tells the
-- manager if it is there.
unfoldable pub start_remote : Bool → RemoteIo → ℕ → List Action × Ending
unfolding caught_with
start_remote managed io s =
    if io.resolved && io.connected
    then (starts_send ∷ (starts_read ∷ []), running)
    else (caught_with managed s, failed)

-- What the three starts await, and whether the manager is there for the last two.
pub record StartIo : Type 0 where
  pub managed : Bool
  pub client : ClientIo
  pub server : RemoteIo
  pub endpoint : Option Sockaddr

-- `run_relay[]`, by the index.
abbrev pub run_relay :
    (Bytes → Option Bool) → AddressText → StartIo → ℕ → List (List Action × Ending)
run_relay blocked t io s =
    start_local blocked t io.client s
    ∷ (start_remote io.managed io.server s ∷ (start_transparent io.managed s io.endpoint ∷ []))

-- start_relay(); an index behind the end of the array would be a fault.
unfoldable pub start_raw_tcp :
    ServerType → (Bytes → Option Bool) → AddressText → StartIo → ℕ → Option (List Action × Ending)
unfolding type_index
start_raw_tcp k blocked t io s = get_elem (run_relay blocked t io s) (type_index k)
  where
    get_elem : List (List Action × Ending) → ℕ → Option (List Action × Ending)
    get_elem [] i = none
    get_elem (x ∷ xs) zero = some x
    get_elem (x ∷ xs) (suc i) = get_elem xs i

-- A relay that runs is ready to send; one that failed has just stopped, and told its manager of a
-- STOP_TCP of its session if that is there; one that left early has done nothing.
abbrev pub Settled : ℕ → List Action × Ending → Type 0
Settled s (acts, running) =
    (front : List Action) × (back : List Action) × (acts ≡ front ++ (starts_send ∷ back))
Settled s (acts, failed) =
    (front : List Action) × (managed : Bool) × (acts ≡ front ++ caught_with managed s)
Settled s (acts, uncaught) = Unit {0}
Settled s (acts, left_early) = acts ≡ []

Closed-Settled :
    (before : List Action) (s : ℕ) (res : List Action × Ending)
    → Closed before s res
    → Settled s res
unfolding caught_with
Closed-Settled before s (acts, running) (front, e) = (front, writes_client ok_back ∷ [], e)
Closed-Settled before s (acts, failed) (front, e) = (front, true, e)
Closed-Settled before s (acts, uncaught) h = tt
Closed-Settled before s (acts, left_early) h = absurd h

start_remote-Settled :
    (managed : Bool) (io : RemoteIo) (s : ℕ) → Settled s (start_remote managed io s)
unfolding start_remote
start_remote-Settled managed io s =
    either_branch {A = List Action × Ending} (Settled s) (io.resolved && io.connected)
      ([], starts_read ∷ [], refl) ([], managed, refl)

start_transparent-Settled :
    (managed : Bool) (s : ℕ) (dst : Option Sockaddr) → Settled s (start_transparent managed s dst)
unfolding start_transparent
start_transparent-Settled managed s none = ([], managed, refl)
start_transparent-Settled true s (some dst) =
    (sends_request (transparent_message s dst) ∷ (starts_read ∷ []), [], refl)
start_transparent-Settled false s (some dst) = refl

-- The start that each type of server has.
abbrev pub start_on :
    ServerType → (Bytes → Option Bool) → AddressText → StartIo → ℕ → List Action × Ending
start_on local_server blocked t io s = start_local blocked t io.client s
start_on remote_server blocked t io s = start_remote io.managed io.server s
start_on local_transparent blocked t io s = start_transparent io.managed s io.endpoint

-- What the start of a relay is on each type of server, and how it ends.
pub start_raw_tcp-Settled :
    (k : ServerType) (blocked : Bytes → Option Bool) (t : AddressText) (io : StartIo) (s : ℕ)
    → (start_raw_tcp k blocked t io s ≡ some (start_on k blocked t io s))
      × Settled s (start_on k blocked t io s)
unfolding start_raw_tcp
start_raw_tcp-Settled local_server blocked t io s = (
  refl,
  Closed-Settled (writes_client no_auth ∷ []) s (start_local blocked t io.client s)
      (start_local-Closed blocked t io.client s),
)
start_raw_tcp-Settled remote_server blocked t io s =
    (refl, start_remote-Settled io.managed io.server s)
start_raw_tcp-Settled local_transparent blocked t io s =
    (refl, start_transparent-Settled io.managed s io.endpoint)
