-- ===== src/Manager/World.antt =====
-- The state of src/relay_manager.cpp: the manager's fields, and the relays that it points to. A
-- shared_ptr is a number, and what it points to stands in a store. Calls that a relay runs on its
-- own strand are posted there; the state and the countdown of a relay are read and written at once.
pub mod Calls
use ssl_socks.Address.{Sockaddr, endpoint_eq}
use ssl_socks.Base.{
  ℕ, ◌+◌, ◌%◌, ◌^◌, Bool, true, false, Option, none, some, List, [], ◌∷◌, ◌==◌, if◌then◌else◌,
  Bytes, nat_eq, lookup,
}
use ssl_socks.Relay.{
  ServerType, remote_server, RelayState, relay_start, relay_stop, is_stop, RelayKind, raw_tcp,
  raw_udp, Relay, new_relay, stop_relay,
}

-- A relay, with the members of its derived class that the manager sets, and whether start_relay was
-- called.
pub record Object : Type 0 where
  pub relay : Relay
  pub session : ℕ
  pub host : Bytes
  pub service : Bytes
  pub started : Bool

-- udp_timeout
pub record UdpTimeout : Type 0 where
  pub session : ℕ
  pub timeout : ℕ

pub record World : Type 0 where
  pub type : ServerType
  pub ssl : Option ℕ
  pub relays : List (ℕ × Option ℕ)
  pub udp_send : Option ℕ
  pub srcs : List (Sockaddr × UdpTimeout)
  pub udp_srcs : List (ℕ × Sockaddr)
  pub state : RelayState
  pub session : ℕ
  pub objects : ℕ → Object
  pub next : ℕ

-- What a handler ends with: a call through a null pointer is a `fault`, and an exception leaves the
-- state as it was when it was thrown.
pub data Outcome : Type 0 where
  completed thrown : World → Outcome
  fault : Outcome

abbrev pub update : (ℕ → Object) → ℕ → Object → ℕ → Object
update f p o q = if p == q then o else f q

-- A call on the relay that `p` points to.
unfoldable pub call : ℕ → (Relay → Relay) → World → World
call p f w = record w {
  objects = update w.objects p (record (w.objects p) { relay = f (w.objects p).relay });
}

abbrev pub is_stopped : World → ℕ → Bool
is_stopped w p = is_stop (w.objects p).relay.state

-- make_shared of a relay, and start_relay on it.
unfoldable pub make : RelayKind → ℕ → Bytes → Bytes → World → World
unfolding new_relay
make k session host service w = record w {
  objects = update w.objects w.next (record {
    relay = new_relay k;
    session = session;
    host = host;
    service = service;
    started = true;
  });
  next = w.next + 1;
}

-- stop_manager: every relay is told to stop, and forgotten.
unfoldable pub stop_each : List (ℕ × Option ℕ) → World → World
stop_each [] w = w
stop_each ((s, none) ∷ rest) w = stop_each rest w
stop_each ((s, some p) ∷ rest) w = stop_each rest (call p stop_relay w)

unfoldable pub stop_manager : World → World
stop_manager w = record (stop_each w.relays w) { relays = []; state = relay_stop }

-- start_local_udp, where neither the constructor nor start_relay throws; start_local_udp_or of
-- Manager/Failing has the exceptions.
unfoldable pub start_local_udp : World → World
start_local_udp w = record (make raw_udp 0 [] [] w) { udp_send = some w.next }

-- relay_manager(io, config), and the first call that its owner makes: set_ssl on a remote server.
unfoldable pub new_manager : ServerType → World
unfolding new_relay
new_manager t = record {
  type = t;
  ssl = none;
  relays = [];
  udp_send = none;
  srcs = [];
  udp_srcs = [];
  state = relay_start;
  session = 1;
  objects = λ p. record {
    relay = new_relay raw_tcp;
    session = 0;
    host = [];
    service = [];
    started = false;
  };
  next = 0;
}

unfoldable pub set_ssl : ℕ → World → World
set_ssl p w = record w { ssl = some p }

abbrev pub is_remote : ServerType → Bool
is_remote remote_server = true
is_remote _ = false

-- manager_start, without the timer, whose rounds are in Timer.
unfoldable pub manager_start : World → World
manager_start w = if is_remote w.type then w else start_local_udp w

-- The counter of sessions is a uint32_t.
abbrev pub next_session : ℕ → ℕ
next_session s = (s + 1) % 2 ^ 32

-- What `_srcs[src]` says of the session, 0 if it is new.
abbrev pub session_in : Option UdpTimeout → ℕ
session_in none = 0
session_in (some u) = u.session

unfoldable pub session_of : Sockaddr → World → ℕ
session_of src w = session_in (lookup src w.srcs)
