-- ===== src/Tunnel.antt =====
-- What the TCP messages from one side mean on the other, src/relay_manager.cpp: the sessions as
-- tunnels to a host and a service, each with the payloads that were handed to its relay.
pub mod Open
pub mod Refine
pub mod Starting
pub mod Ends
pub mod Messages
pub mod Client
pub mod Multiplex
pub mod Answers
pub mod Shared
pub mod Interleaved
pub mod Whole
pub mod Transparent
pub mod Return
pub mod Datagrams
mod Tests
use ssl_socks.Address.{AddressText, AddressResult, parsed, refused, parse_address}
use ssl_socks.Base.{
  ℕ, Option, none, some, List, [], ◌∷◌, ◌++◌, map, ◌==◌, if◌then◌else◌, length, Bytes, nat_eq,
  lookup,
}
use ssl_socks.Data.{Command, stop_tcp, start_tcp, data_tcp, RelayData, data_buffer}
use ssl_socks.Data.Wire.{Seen}
use ssl_socks.Manager.Response.{and_then, add_response}
use ssl_socks.Manager.World.{Object, World, Outcome, completed}
use ssl_socks.Relay.Calm.{pipeline}
use mathlib.Core.Option

pub record Tunnel : Type 0 where
  pub host : Bytes
  pub service : Bytes
  pub passed : List Bytes

abbrev pub Tunnels : Type 0
Tunnels = ℕ → Option Tunnel

-- The specification: a start opens a tunnel in place of an old one, data pass through an open one,
-- and a stop closes it. Nothing else has an effect.
abbrev pub open_tunnel : ℕ → AddressResult → Tunnels → Tunnels
open_tunnel s (refused e) v = v
open_tunnel s (parsed host service) v =
    λ x. if s == x then some (record { host = host; service = service; passed = [] }) else v x

abbrev pub pass : Bytes → Tunnel → Tunnel
pass payload n = record n { passed = n.passed ++ payload ∷ [] }

abbrev pub tunnel_step_as : Command → AddressText → Seen → Tunnels → Tunnels
tunnel_step_as start_tcp t m v =
    open_tunnel m.session (parse_address t m.payload (length m.payload)) v
tunnel_step_as data_tcp t m v =
    λ x. if m.session == x then Option.map (pass m.payload) (v m.session) else v x
tunnel_step_as stop_tcp t m v = λ x. if m.session == x then none else v x
tunnel_step_as _ t m v = v

abbrev pub tunnel_step : AddressText → Seen → Tunnels → Tunnels
tunnel_step t m v = tunnel_step_as m.cmd t m v

abbrev pub tunnel_run : AddressText → List Seen → Tunnels → Tunnels
tunnel_run t [] v = v
tunnel_run t (m ∷ ms) v = tunnel_run t ms (tunnel_step t m v)

-- The manager's state as tunnels: the payloads that were handed to the relay of a session, whether they
-- are written, queued, or in handlers still to run.
abbrev pub tunnel_of : Object → Tunnel
tunnel_of o = record {
  host = o.host;
  service = o.service;
  passed = map (λ d. data_buffer d) (pipeline o.relay);
}

abbrev pub tunnel_at : (ℕ → Object) → Option (Option ℕ) → Option Tunnel
tunnel_at objects none = none
tunnel_at objects (some none) = none
tunnel_at objects (some (some p)) = some (tunnel_of (objects p))

abbrev pub tunnels : World → Tunnels
tunnels w s = tunnel_at w.objects (lookup s w.relays)

-- The messages of a sequence, handled one after another.
unfoldable pub serve : AddressText → List RelayData → World → Outcome
serve t [] w = completed w
serve t (d ∷ ds) w = and_then (add_response t d w) (serve t ds)
