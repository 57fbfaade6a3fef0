-- ===== src/Manager/Run/Bounded/Responses.antt =====
-- The branches of add_response keep the bounds, src/relay_manager.cpp.
use ssl_socks.Address.{
  Sockaddr, endpoint_eq, AddressText, AddressResult, parsed, refused, parse_address,
}
use ssl_socks.Base.{
  ℕ, ◌^◌, ◌≤◌, ◌<◌, ◌≡◌, refl, sym, subst, inl, inr, Option, none, some, List, [], ◌∷◌, arith,
  if◌then◌else◌, Bool-cases, either_branch, Option-cases, nat_eq, lookup, insert, erase,
}
use ssl_socks.Data.{
  Command, stop_tcp, start_tcp, data_udp, data_tcp, stop_udp, unknown, RelayData, for_command,
  IsMessage,
}
use ssl_socks.Data.Wire.{IsNamed}
use ssl_socks.Local.Stream.{stop-IsMessage}
use ssl_socks.Manager.Response.{
  local_transparent_send_udp, relay_at, touch, add_remote_raw_udp, remote_server_send_udp,
  add_remote_raw_tcp, stop_old, remote_server_start_tcp, data_tcp_response, source_of, refresh_src,
  data_udp_response, stop_tcp_response, respond, add_response,
}
use ssl_socks.Manager.Response.Routing.{data_tcp_live, data_tcp_stopped, stop_tcp_known}
use ssl_socks.Manager.Run.Bounded.{
  AllInBounds, IsBounded, send_data-Happens, stop_relay-Happens, call-IsBounded, make-IsBounded,
  IsBounded-same, add_request-IsBounded,
}
use ssl_socks.Manager.Run.Kept.{Ensures, Ensures-and_then}
use ssl_socks.Manager.World.{
  UdpTimeout, World, completed, fault, call, is_stopped, make, start_local_udp, session_in,
  session_of,
}
use ssl_socks.Relay.{
  ServerType, local_server, remote_server, local_transparent, full_timeout, raw_tcp, raw_udp,
  send_data, stop_relay,
}
use ssl_socks.Relay.History.{IsSendable}

pub start_local_udp-IsBounded : (w : World) → IsBounded w → IsBounded (start_local_udp w)
unfolding start_local_udp
start_local_udp-IsBounded w h =
    IsBounded-same (make raw_udp 0 [] [] w) _ refl refl refl (make-IsBounded raw_udp 0 [] [] w h)

touch-IsBounded : (s : ℕ) (w : World) → IsBounded w → IsBounded (touch s w)
unfolding touch
touch-IsBounded s w h = IsBounded-same w _ refl refl refl h

stop_old-IsBounded : (r : Option ℕ) (w : World) → IsBounded w → IsBounded (stop_old r w)
unfolding stop_old
stop_old-IsBounded none w h = h
stop_old-IsBounded (some p) w h = call-IsBounded p stop_relay w stop_relay-Happens h

pub AllInBounds-insert :
    (e : Sockaddr) (u : UdpTimeout) (m : List (Sockaddr × UdpTimeout))
    → u.session < 2 ^ 32
    → u.timeout ≤ full_timeout
    → AllInBounds m
    → AllInBounds (insert e u m)
unfolding insert
AllInBounds-insert e u [] l k h = (l, k, tt)
AllInBounds-insert e u ((x, old) ∷ m) l k h =
    either_branch AllInBounds (endpoint_eq.beq x e) (l, k, h.2)
      (h.0, h.1, AllInBounds-insert e u m l k h.2)

session_in-word :
    (e : Sockaddr) (m : List (Sockaddr × UdpTimeout))
    → AllInBounds m
    → session_in (lookup e m) < 2 ^ 32
unfolding lookup
session_in-word e [] h = omega arith
session_in-word e ((k, u) ∷ m) h =
    either_branch (λ (o : Option UdpTimeout). session_in o < 2 ^ 32) (endpoint_eq.beq k e) h.0
      (session_in-word e m h.2)

pub session_of-word : (e : Sockaddr) (w : World) → IsBounded w → session_of e w < 2 ^ 32
unfolding session_of
session_of-word e w h = session_in-word e w.srcs h.sources

refresh_src-IsBounded : (s : ℕ) (w : World) → IsBounded w → IsBounded (refresh_src s w)
unfolding refresh_src
refresh_src-IsBounded s w h = record {
  counter = h.counter;
  sources =
      AllInBounds-insert (source_of s w) _ w.srcs (session_of-word (source_of s w) w h)
        (omega arith) h.sources;
  histories = h.histories;
}

module _ (b : RelayData) (w : World) (m : IsMessage b) (h : IsBounded w) where
  data_tcp-IsBounded : b.cmd ≡ data_tcp → Ensures IsBounded (data_tcp_response b w)
  unfolding data_tcp_response for_command
  data_tcp-IsBounded c = elim (Option-cases (lookup b.session w.relays)) [
    | inl absent ↦ rw (absent, data_tcp_response) h
    | inr (o, here) ↦ by_entry o here
  ]
    where
      by_entry :
          (o : Option ℕ)
          → lookup b.session w.relays ≡ some o
          → Ensures IsBounded (data_tcp_response b w)
      by_entry none here = rw (here, data_tcp_response) tt
      by_entry (some p) here = elim (Bool-cases (is_stopped w p)) [
        | inl stopped ↦ rw (data_tcp_stopped b w p here stopped) (
            add_request-IsBounded (for_command b.session stop_tcp)
              (record w { relays = erase b.session w.relays })
              (record { message = (stop-IsMessage b.session m.word).0; named = tt })
              (IsBounded-same w _ refl refl refl h))
        | inr live ↦ rw (data_tcp_live b w p here live) (
            call-IsBounded p (send_data b) w
              (send_data-Happens b (record { message = m; named = subst IsNamed (sym c) tt })) h)
      ]

  stop_tcp-IsBounded : Ensures IsBounded (stop_tcp_response b w)
  unfolding stop_tcp_response
  stop_tcp-IsBounded = elim (Option-cases (lookup b.session w.relays)) [
    | inl absent ↦ rw (absent, stop_tcp_response) h
    | inr (o, here) ↦ by_entry o here
  ]
    where
      by_entry :
          (o : Option ℕ)
          → lookup b.session w.relays ≡ some o
          → Ensures IsBounded (stop_tcp_response b w)
      by_entry none here = rw (here, stop_tcp_response) tt
      by_entry (some p) here = rw (stop_tcp_known b w p here) (
          IsBounded-same (call p stop_relay w) _ refl refl refl
            (call-IsBounded p stop_relay w stop_relay-Happens h))

  start_tcp-IsBounded : (t : AddressText) → Ensures IsBounded (remote_server_start_tcp t b w)
  unfolding remote_server_start_tcp add_remote_raw_tcp
  start_tcp-IsBounded t = by_result (parse_address t b.bytes b.len) refl
    where
      v : World
      v = stop_old (relay_at b.session w) (touch b.session w)

      kept : IsBounded v
      kept =
          stop_old-IsBounded (relay_at b.session w) (touch b.session w)
            (touch-IsBounded b.session w h)

      by_result :
          (r : AddressResult)
          → parse_address t b.bytes b.len ≡ r
          → Ensures IsBounded (remote_server_start_tcp t b w)
      by_result (refused e) q = rw (q, remote_server_start_tcp) kept
      by_result (parsed host port) q =
          rw (q, remote_server_start_tcp)
            (IsBounded-same (make raw_tcp b.session host port v) _ refl refl refl
              (make-IsBounded raw_tcp b.session host port v kept))

module _ (b : RelayData) (w : World) (s : IsSendable b) (h : IsBounded w) where
  local_udp-IsBounded : Ensures IsBounded (local_transparent_send_udp b w)
  unfolding local_transparent_send_udp
  local_udp-IsBounded =
      elim w.udp_send
        as (λ o. Ensures IsBounded (elim o [
          | none ↦ fault
          | some p ↦
              if is_stopped w p
              then completed (call w.next (send_data b) (start_local_udp w))
              else completed (call p (send_data b) w)
        ])) [
          | none ↦ tt
          | some p ↦
              either_branch (Ensures IsBounded) (is_stopped w p)
                (call-IsBounded w.next (send_data b) (start_local_udp w) (send_data-Happens b s)
                  (start_local_udp-IsBounded w h))
                (call-IsBounded p (send_data b) w (send_data-Happens b s) h)
        ]

  new_remote-IsBounded : IsBounded (call w.next (send_data b) (add_remote_raw_udp b.session w))
  unfolding add_remote_raw_udp
  new_remote-IsBounded =
      call-IsBounded w.next (send_data b) (add_remote_raw_udp b.session w) (send_data-Happens b s) (
        IsBounded-same (make raw_udp b.session [] [] w) _ refl refl refl
          (make-IsBounded raw_udp b.session [] [] w h))

  remote_udp-IsBounded : IsBounded (remote_server_send_udp b w)
  unfolding remote_server_send_udp
  remote_udp-IsBounded =
      elim (relay_at b.session w)
        as (λ o. IsBounded (elim o [
          | none ↦ call w.next (send_data b) (add_remote_raw_udp b.session w)
          | some p ↦
              if is_stopped w p
              then call w.next (send_data b) (add_remote_raw_udp b.session w)
              else call p (send_data b) (touch b.session w)
        ])) [
          | none ↦ new_remote-IsBounded
          | some p ↦ either_branch IsBounded (is_stopped w p) new_remote-IsBounded (
              call-IsBounded p (send_data b) (touch b.session w) (send_data-Happens b s)
                (touch-IsBounded b.session w h))
        ]

  data_udp-IsBounded : (k : ServerType) → Ensures IsBounded (data_udp_response k b w)
  unfolding data_udp_response
  data_udp-IsBounded local_server = h
  data_udp-IsBounded remote_server = remote_udp-IsBounded
  data_udp-IsBounded local_transparent =
      Ensures-and_then IsBounded (local_transparent_send_udp b w)
        (λ w'. completed (refresh_src b.session w')) local_udp-IsBounded
        (λ w' h'. refresh_src-IsBounded b.session w' h')

module _ (b : RelayData) (w : World) (m : IsMessage b) (h : IsBounded w) (t : AddressText) where
  respond-IsBounded : (c : Command) → b.cmd ≡ c → Ensures IsBounded (respond c t b w)
  unfolding respond
  respond-IsBounded data_tcp e = data_tcp-IsBounded b w m h e
  respond-IsBounded data_udp e =
      data_udp-IsBounded b w (record { message = m; named = subst IsNamed (sym e) tt }) h w.type
  respond-IsBounded start_tcp e = start_tcp-IsBounded b w m h t
  respond-IsBounded stop_tcp e = stop_tcp-IsBounded b w m h
  respond-IsBounded stop_udp e = h
  respond-IsBounded (unknown n) e = h

  pub add_response-IsBounded : Ensures IsBounded (add_response t b w)
  unfolding add_response
  add_response-IsBounded = respond-IsBounded b.cmd refl
