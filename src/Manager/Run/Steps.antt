-- ===== src/Manager/Run/Steps.antt =====
-- Each operation of the manager keeps the table of sessions sound, src/relay_manager.cpp.
use ssl_socks.Address.{AddressText, AddressResult, parsed, refused, parse_address}
use ssl_socks.Base.{
  ℕ, ◌≡◌, refl, inl, inr, Option, none, some, [], arith, if◌then◌else◌, either_branch, Option-cases,
  nat_eq, lookup, insert,
}
use ssl_socks.Data.{Command, stop_tcp, start_tcp, data_udp, data_tcp, stop_udp, unknown, RelayData}
use ssl_socks.Manager.Response.{
  local_transparent_send_udp, relay_at, touch, add_remote_raw_udp, remote_server_send_udp,
  add_remote_raw_tcp, stop_old, remote_server_start_tcp, refresh_src, data_udp_response,
  stop_tcp_response, respond, add_response,
}
use ssl_socks.Manager.Response.Routing.{stop_tcp_known}
use ssl_socks.Manager.Run.Kept.{
  IsRegistered, Ensures, Ensures-and_then, call-IsRegistered, make-IsRegistered, put-Registered,
  data_tcp-IsRegistered,
}
use ssl_socks.Manager.Run.Registered.{
  Fits, Registered-Grows, Grows-call, Registered-insert, Registered-erase, Registered-lookup,
}
use ssl_socks.Manager.World.{World, completed, fault, call, is_stopped, start_local_udp}
use ssl_socks.Relay.{
  ServerType, local_server, remote_server, local_transparent, raw_tcp, raw_udp, send_data,
  stop_relay,
}

-- The entry of a session is one that may stand under it.
relay_at-Fits : (s : ℕ) (w : World) → IsRegistered w → Fits w s (relay_at s w)
unfolding relay_at
relay_at-Fits s w h = elim (Option-cases (lookup s w.relays)) [
  | inl absent ↦ rw (absent, relay_at) tt
  | inr (o, here) ↦ rw (here, relay_at) (Registered-lookup w s o w.relays h here)
]

touch-IsRegistered : (s : ℕ) (w : World) → IsRegistered w → IsRegistered (touch s w)
unfolding touch
touch-IsRegistered s w h =
    Registered-Grows w (touch s w) (insert s (relay_at s w) w.relays)
      (record { more = omega arith; same = λ p l. refl })
      (Registered-insert w s (relay_at s w) w.relays (relay_at-Fits s w h) h)

stop_old-IsRegistered : (r : Option ℕ) (w : World) → IsRegistered w → IsRegistered (stop_old r w)
unfolding stop_old
stop_old-IsRegistered none w h = h
stop_old-IsRegistered (some p) w h = call-IsRegistered p stop_relay w h

module _ (b : RelayData) (w : World) (h : IsRegistered w) where
  stop_tcp-IsRegistered : Ensures IsRegistered (stop_tcp_response b w)
  unfolding stop_tcp_response
  stop_tcp-IsRegistered = elim (Option-cases (lookup b.session w.relays)) [
    | inl absent ↦ rw (absent, stop_tcp_response) h
    | inr (o, here) ↦ by_entry o here
  ]
    where
      by_entry :
          (o : Option ℕ)
          → lookup b.session w.relays ≡ some o
          → Ensures IsRegistered (stop_tcp_response b w)
      by_entry none here = rw (here, stop_tcp_response) tt
      by_entry (some p) here = rw (stop_tcp_known b w p here) (
          Registered-erase (call p stop_relay w) b.session w.relays
            (Registered-Grows w (call p stop_relay w) w.relays (Grows-call p stop_relay w) h))

  start_tcp-IsRegistered : (t : AddressText) → Ensures IsRegistered (remote_server_start_tcp t b w)
  unfolding remote_server_start_tcp add_remote_raw_tcp
  start_tcp-IsRegistered t = by_result (parse_address t b.bytes b.len) refl
    where
      v : World
      v = stop_old (relay_at b.session w) (touch b.session w)

      kept : IsRegistered v
      kept =
          stop_old-IsRegistered (relay_at b.session w) (touch b.session w)
            (touch-IsRegistered b.session w h)

      by_result :
          (r : AddressResult)
          → parse_address t b.bytes b.len ≡ r
          → Ensures IsRegistered (remote_server_start_tcp t b w)
      by_result (refused e) q = rw (q, remote_server_start_tcp) kept
      by_result (parsed host port) q =
          rw (q, remote_server_start_tcp)
            (put-Registered raw_tcp b.session host port v v.relays kept)

pub start_local_udp-IsRegistered : (w : World) → IsRegistered w → IsRegistered (start_local_udp w)
unfolding start_local_udp
start_local_udp-IsRegistered w h = make-IsRegistered raw_udp 0 [] [] w h

-- What touches neither the relays nor the store.
refresh_src-IsRegistered : (s : ℕ) (w : World) → IsRegistered w → IsRegistered (refresh_src s w)
unfolding refresh_src
refresh_src-IsRegistered s w h = h

module _ (b : RelayData) (w : World) (h : IsRegistered w) where
  local_udp-IsRegistered : Ensures IsRegistered (local_transparent_send_udp b w)
  unfolding local_transparent_send_udp
  local_udp-IsRegistered =
      elim w.udp_send
        as (λ o. Ensures IsRegistered (elim o [
          | none ↦ fault
          | some p ↦
              if is_stopped w p
              then completed (call w.next (send_data b) (start_local_udp w))
              else completed (call p (send_data b) w)
        ])) [
          | none ↦ tt
          | some p ↦
              either_branch (Ensures IsRegistered) (is_stopped w p)
                (call-IsRegistered w.next (send_data b) (start_local_udp w)
                  (start_local_udp-IsRegistered w h))
                (call-IsRegistered p (send_data b) w h)
        ]

  new_remote_udp : IsRegistered (call w.next (send_data b) (add_remote_raw_udp b.session w))
  unfolding add_remote_raw_udp
  new_remote_udp =
      call-IsRegistered w.next (send_data b) (add_remote_raw_udp b.session w)
        (put-Registered raw_udp b.session [] [] w w.relays h)

  remote_udp-IsRegistered : IsRegistered (remote_server_send_udp b w)
  unfolding remote_server_send_udp
  remote_udp-IsRegistered =
      elim (relay_at b.session w)
        as (λ o. IsRegistered (elim o [
          | none ↦ call w.next (send_data b) (add_remote_raw_udp b.session w)
          | some p ↦
              if is_stopped w p
              then call w.next (send_data b) (add_remote_raw_udp b.session w)
              else call p (send_data b) (touch b.session w)
        ])) [
          | none ↦ new_remote_udp
          | some p ↦ either_branch IsRegistered (is_stopped w p) new_remote_udp (
              call-IsRegistered p (send_data b) (touch b.session w)
                (touch-IsRegistered b.session w h))
        ]

  data_udp-IsRegistered : (k : ServerType) → Ensures IsRegistered (data_udp_response k b w)
  unfolding data_udp_response
  data_udp-IsRegistered local_server = h
  data_udp-IsRegistered remote_server = remote_udp-IsRegistered
  data_udp-IsRegistered local_transparent =
      Ensures-and_then IsRegistered (local_transparent_send_udp b w)
        (λ w'. completed (refresh_src b.session w')) local_udp-IsRegistered
        (λ w' h'. refresh_src-IsRegistered b.session w' h')

  respond-IsRegistered : (c : Command) (t : AddressText) → Ensures IsRegistered (respond c t b w)
  unfolding respond
  respond-IsRegistered data_tcp t = data_tcp-IsRegistered b w h
  respond-IsRegistered data_udp t = data_udp-IsRegistered w.type
  respond-IsRegistered start_tcp t = start_tcp-IsRegistered b w h t
  respond-IsRegistered stop_tcp t = stop_tcp-IsRegistered b w h
  respond-IsRegistered stop_udp t = h
  respond-IsRegistered (unknown n) t = h

  pub add_response-IsRegistered : (t : AddressText) → Ensures IsRegistered (add_response t b w)
  unfolding add_response
  add_response-IsRegistered t = respond-IsRegistered b.cmd t
