-- ===== src/Manager/Failing.antt =====
-- Relays that cannot be made, src/relay_manager.cpp: the constructors of ssl_relay (src/ssl_relay.cpp,
-- init_ssl) and raw_udp open files and a socket, and raw_udp::start_relay sets an option and binds, all of
-- which may throw. The definitions without `_or` are the same handlers where none of it throws.
pub mod Datagrams
pub mod Lost
use ssl_socks.Address.{Sockaddr, endpoint_eq, AddressText}
use ssl_socks.Base.{
  ℕ, ◌≡◌, refl, ap, false, Option, none, some, arith, ◌==◌, if◌then◌else◌, nat_eq, lookup, insert,
  erase,
}
use ssl_socks.Data.{
  Command, stop_tcp, start_tcp, data_udp, data_tcp, stop_udp, unknown, RelayData, for_command,
  set_session,
}
use ssl_socks.Manager.Request.{live_ssl, renew_ssl, add_request}
use ssl_socks.Manager.Response.{
  local_transparent_send_udp, relay_at, touch, add_remote_raw_udp, remote_server_send_udp,
  data_tcp_response, refresh_src, and_then, data_udp_response, respond,
}
use ssl_socks.Manager.Udp.{insert_new}
use ssl_socks.Manager.World.{
  World, Outcome, completed, thrown, fault, update, call, is_stopped, stop_manager, start_local_udp,
  is_remote, next_session, session_of,
}
use ssl_socks.Relay.{
  ServerType, local_server, remote_server, local_transparent, full_timeout, add_peer_task, post,
  send_data,
}

-- What comes of making a relay and starting it: the constructor may throw, or its start_relay.
pub data Built : Type 0 where
  is_built not_made not_set : Built

-- The TLS relay of add_request, of which only the constructor may throw: the old pointer stays.
unfoldable pub renew_ssl_or : Built → World → Outcome
renew_ssl_or not_made w = thrown w
renew_ssl_or _ w = completed (renew_ssl w)

-- add_request(buf)
unfoldable pub add_request_or : Built → RelayData → World → Outcome
unfolding renew_ssl_or
add_request_or how b w = elim (live_ssl w) [
  | some p ↦ completed (call p (send_data b) w)
  | none ↦
      if is_remote w.type
      then completed (stop_manager w)
      else and_then (renew_ssl_or how w) (λ w'. completed (call w.next (send_data b) w'))
]

-- The relay `p` is made, and its start_relay has thrown.
abbrev pub unstarted : ℕ → World → World
unstarted p w = record w { objects = update w.objects p (record (w.objects p) { started = false }) }

-- start_local_udp(): the pointer is assigned before start_relay is called.
unfoldable pub start_local_udp_or : Built → World → Outcome
start_local_udp_or is_built w = completed (start_local_udp w)
start_local_udp_or not_made w = thrown w
start_local_udp_or not_set w = thrown (unstarted w.next (start_local_udp w))

-- manager_start()
unfoldable pub manager_start_or : Built → World → Outcome
unfolding start_local_udp_or
manager_start_or how w = if is_remote w.type then completed w else start_local_udp_or how w

-- local_transparent_send_udp(buf)
unfoldable pub local_transparent_send_udp_or : Built → RelayData → World → Outcome
unfolding start_local_udp_or
local_transparent_send_udp_or how b w = elim w.udp_send [
  | none ↦ fault
  | some p ↦
      if is_stopped w p
      then and_then (start_local_udp_or how w) (λ w'. completed (call w.next (send_data b) w'))
      else completed (call p (send_data b) w)
]

-- `relay = add_remote_raw_udp(session)`: the entry of the session, touched before, is assigned only if
-- nothing throws.
unfoldable pub add_remote_raw_udp_or : Built → ℕ → World → Outcome
add_remote_raw_udp_or is_built s w = completed (add_remote_raw_udp s w)
add_remote_raw_udp_or _ s w = thrown (touch s w)

-- remote_server_send_udp(buf)
unfoldable pub remote_server_send_udp_or : Built → RelayData → World → Outcome
unfolding add_remote_raw_udp_or
remote_server_send_udp_or how b w =
    let anew =
      and_then (add_remote_raw_udp_or how b.session w)
        (λ w'. completed (call w.next (send_data b) w')) in
    elim (relay_at b.session w) [
      | none ↦ anew
      | some p ↦
          if is_stopped w p then anew else completed (call p (send_data b) (touch b.session w))
    ]

-- The branch of DATA_TCP.
unfoldable pub data_tcp_response_or : Built → RelayData → World → Outcome
unfolding add_request_or
data_tcp_response_or how b w = elim (lookup b.session w.relays) [
  | none ↦ completed w
  | some none ↦ fault
  | some (some p) ↦
      if is_stopped w p
      then add_request_or how (for_command b.session stop_tcp)
          (record w { relays = erase b.session w.relays })
      else completed (call p (send_data b) w)
]

-- The branch of DATA_UDP.
unfoldable pub data_udp_response_or : Built → ServerType → RelayData → World → Outcome
unfolding local_transparent_send_udp_or remote_server_send_udp_or
data_udp_response_or how local_transparent b w =
    and_then (local_transparent_send_udp_or how b w) (λ w'. completed (refresh_src b.session w'))
data_udp_response_or how remote_server b w = remote_server_send_udp_or how b w
data_udp_response_or how local_server b w = completed w

-- add_response(buf): a handler makes one relay at most.
unfoldable pub respond_or : Built → Command → AddressText → RelayData → World → Outcome
unfolding data_tcp_response_or data_udp_response_or
respond_or how data_tcp t b w = data_tcp_response_or how b w
respond_or how data_udp t b w = data_udp_response_or how w.type b w
respond_or how c t b w = respond c t b w

unfoldable pub add_response_or : Built → AddressText → RelayData → World → Outcome
unfolding respond_or
add_response_or how t b w = respond_or how b.cmd t b w

-- What is left to a source, 0 if it is new.
abbrev pub timeout_of : Sockaddr → World → ℕ
timeout_of src w = elim (lookup src w.srcs) [ none ↦ 0 | some u ↦ u.timeout ]

-- send_udp_data(src, buf), where the relay of local datagrams comes up as `how` says, and the TLS relay as
-- `how_ssl`. A new source has its session before the relay is made.
abbrev pub with_session : Sockaddr → World → World
with_session src w = record w {
  session = next_session w.session;
  srcs =
      insert src (record { session = next_session w.session; timeout = timeout_of src w }) w.srcs;
}

unfoldable pub send_udp_data_or : Built → Built → Sockaddr → RelayData → World → Outcome
unfolding start_local_udp_or add_request_or insert_new
send_udp_data_or how how_ssl src b w =
    let forward = λ (s : ℕ) (v : World).
      add_request_or how_ssl (set_session s b)
        (record v { srcs = insert src (record { session = s; timeout = full_timeout }) v.srcs }) in
    if session_of src w == 0
    then elim w.udp_send [
      | none ↦ fault
      | some p ↦
          let s = next_session w.session in
          let known = λ (q : ℕ) (v : World).
            call q (post (add_peer_task s src))
              (record v { udp_srcs = insert_new s src v.udp_srcs }) in
          if is_stopped w p
          then and_then (start_local_udp_or how (with_session src w))
              (λ v. forward s (known w.next v))
          else forward s (known p (with_session src w))
    ]
    else forward (session_of src w) w

-- Where nothing throws, these are the handlers without `_or`.
pub add_request_or_built :
    (b : RelayData) (w : World) → add_request_or is_built b w ≡ completed (add_request b w)
unfolding add_request_or renew_ssl_or add_request
add_request_or_built b w = by_ssl (live_ssl w)
  where
    by_ssl :
        (o : Option ℕ)
        → (elim o [
          | some p ↦ completed (call p (send_data b) w)
          | none ↦
              if is_remote w.type
              then completed (stop_manager w)
              else completed (call w.next (send_data b) (renew_ssl w))
        ])
          ≡ completed (elim o [
            | some p ↦ call p (send_data b) w
            | none ↦
                if is_remote w.type then stop_manager w else call w.next (send_data b) (renew_ssl w)
          ])
    by_ssl (some p) = refl
    by_ssl none = ground arith

remote_server_send_udp_or_built :
    (b : RelayData) (w : World)
    → remote_server_send_udp_or is_built b w ≡ completed (remote_server_send_udp b w)
unfolding remote_server_send_udp_or add_remote_raw_udp_or remote_server_send_udp
remote_server_send_udp_or_built b w = ground arith

data_tcp_response_or_built :
    (b : RelayData) (w : World) → data_tcp_response_or is_built b w ≡ data_tcp_response b w
unfolding data_tcp_response_or data_tcp_response
data_tcp_response_or_built b w = ground (
  arith,
  add_request_or_built (for_command b.session stop_tcp)
      (record w { relays = erase b.session w.relays }),
)

local_transparent_send_udp_or_built :
    (b : RelayData) (w : World)
    → local_transparent_send_udp_or is_built b w ≡ local_transparent_send_udp b w
unfolding local_transparent_send_udp_or start_local_udp_or local_transparent_send_udp
local_transparent_send_udp_or_built b w = refl

pub respond_or_built :
    (c : Command) (t : AddressText) (b : RelayData) (w : World)
    → respond_or is_built c t b w ≡ respond c t b w
unfolding respond_or data_udp_response_or respond data_udp_response
respond_or_built data_tcp t b w = data_tcp_response_or_built b w
respond_or_built data_udp t b w = by_type w.type
  where
    by_type : (k : ServerType) → data_udp_response_or is_built k b w ≡ data_udp_response k b w
    by_type local_transparent =
        ap (λ o. and_then o (λ w'. completed (refresh_src b.session w')))
          (local_transparent_send_udp_or_built b w)
    by_type remote_server = remote_server_send_udp_or_built b w
    by_type local_server = refl
respond_or_built start_tcp t b w = refl
respond_or_built stop_tcp t b w = refl
respond_or_built stop_udp t b w = refl
respond_or_built (unknown n) t b w = refl
