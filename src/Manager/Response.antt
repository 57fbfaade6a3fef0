-- ===== src/Manager/Response.antt =====
-- Messages from the other side, src/relay_manager.cpp (add_response).
pub mod Datagram
pub mod Posting
pub mod Routing
pub mod Starting
use ssl_socks.Address.{Sockaddr, endpoint_eq, any4, AddressText, parsed, refused, parse_address}
use ssl_socks.Base.{ℕ, Option, none, some, [], if◌then◌else◌, Bytes, nat_eq, lookup, insert, erase}
use ssl_socks.Data.{
  Command, stop_tcp, start_tcp, data_udp, data_tcp, stop_udp, unknown, RelayData, for_command,
}
use ssl_socks.Manager.Request.{add_request}
use ssl_socks.Manager.World.{
  World, Outcome, completed, thrown, fault, call, is_stopped, make, start_local_udp, session_of,
}
use ssl_socks.Relay.{
  ServerType, local_server, remote_server, local_transparent, full_timeout, raw_tcp, raw_udp,
  send_data, stop_relay,
}

-- local_transparent_send_udp(buf)
unfoldable pub local_transparent_send_udp : RelayData → World → Outcome
local_transparent_send_udp b w = elim w.udp_send [
  | none ↦ fault
  | some p ↦
      if is_stopped w p
      then completed (call w.next (send_data b) (start_local_udp w))
      else completed (call p (send_data b) w)
]

-- `_relays[session]`: a missing entry is made, and holds a null pointer.
unfoldable pub relay_at : ℕ → World → Option ℕ
relay_at s w = elim (lookup s w.relays) [ none ↦ none | some r ↦ r ]

unfoldable pub touch : ℕ → World → World
unfolding relay_at
touch s w = record w { relays = insert s (relay_at s w) w.relays }

-- add_remote_raw_udp(session), whose result goes into `_relays`, where neither the constructor nor
-- start_relay throws; add_remote_raw_udp_or of Manager/Failing has the exceptions.
unfoldable pub add_remote_raw_udp : ℕ → World → World
add_remote_raw_udp s w = record (make raw_udp s [] [] w) {
  relays = insert s (some w.next) w.relays;
}

-- remote_server_send_udp(buf)
unfoldable pub remote_server_send_udp : RelayData → World → World
unfolding relay_at touch add_remote_raw_udp
remote_server_send_udp b w = elim (relay_at b.session w) [
  | none ↦ call w.next (send_data b) (add_remote_raw_udp b.session w)
  | some p ↦
      if is_stopped w p
      then call w.next (send_data b) (add_remote_raw_udp b.session w)
      else call p (send_data b) (touch b.session w)
]

-- add_remote_raw_tcp(sess, host, service)
unfoldable pub add_remote_raw_tcp : ℕ → Bytes → Bytes → World → World
add_remote_raw_tcp s host service w = record (make raw_tcp s host service w) {
  relays = insert s (some w.next) w.relays;
}

-- An old relay of the session is told to stop.
unfoldable pub stop_old : Option ℕ → World → World
stop_old none w = w
stop_old (some p) w = call p stop_relay w

-- remote_server_start_tcp(buf): the entry of the session is touched, and an old relay stopped,
-- before the address is parsed, which may throw.
unfoldable pub remote_server_start_tcp : AddressText → RelayData → World → Outcome
remote_server_start_tcp t b w =
    let w' = stop_old (relay_at b.session w) (touch b.session w) in
    elim (parse_address t b.bytes b.len) [
      | refused e ↦ thrown w'
      | parsed host service ↦ completed (add_remote_raw_tcp b.session host service w')
    ]

-- The branch of DATA_TCP.
unfoldable pub data_tcp_response : RelayData → World → Outcome
data_tcp_response b w = elim (lookup b.session w.relays) [
  | none ↦ completed w
  | some none ↦ fault
  | some (some p) ↦
      if is_stopped w p
      then completed (
          add_request (for_command b.session stop_tcp)
            (record w { relays = erase b.session w.relays }))
      else completed (call p (send_data b) w)
]

-- `_udp_srcs[session]`
unfoldable pub source_of : ℕ → World → Sockaddr
source_of s w = elim (lookup s w.udp_srcs) [ none ↦ any4 | some e ↦ e ]

-- _srcs[_udp_srcs[session]].timeout = TIMEOUT: missing entries are made, of zeros.
unfoldable pub refresh_src : ℕ → World → World
unfolding source_of session_of
refresh_src s w = record w {
  udp_srcs = insert s (source_of s w) w.udp_srcs;
  srcs =
      insert (source_of s w)
        (record { session = session_of (source_of s w) w; timeout = full_timeout }) w.srcs;
}

-- What follows a call that may not come back.
abbrev pub and_then : Outcome → (World → Outcome) → Outcome
and_then (completed w) f = f w
and_then (thrown w) f = thrown w
and_then fault f = fault

-- The branch of DATA_UDP.
unfoldable pub data_udp_response : ServerType → RelayData → World → Outcome
data_udp_response local_transparent b w =
    and_then (local_transparent_send_udp b w) (λ w'. completed (refresh_src b.session w'))
data_udp_response remote_server b w = completed (remote_server_send_udp b w)
data_udp_response local_server b w = completed w

-- The branch of STOP_TCP.
unfoldable pub stop_tcp_response : RelayData → World → Outcome
stop_tcp_response b w = elim (lookup b.session w.relays) [
  | none ↦ completed w
  | some none ↦ fault
  | some (some p) ↦ completed (record (call p stop_relay w) { relays = erase b.session w.relays })
]

-- The branches on the command; the last two do nothing.
unfoldable pub respond : Command → AddressText → RelayData → World → Outcome
respond data_tcp t b w = data_tcp_response b w
respond data_udp t b w = data_udp_response w.type b w
respond start_tcp t b w = remote_server_start_tcp t b w
respond stop_tcp t b w = stop_tcp_response b w
respond stop_udp t b w = completed w
respond (unknown n) t b w = completed w

-- add_response(buf)
unfoldable pub add_response : AddressText → RelayData → World → Outcome
unfolding respond
add_response t b w = respond b.cmd t b w
