-- ===== src/Manager/Response/Datagram.antt =====
-- Datagrams from the other side, src/relay_manager.cpp (add_response).
use ssl_socks.Address.{Sockaddr, endpoint_eq, any4, AddressText}
use ssl_socks.Base.{
  ℕ, ◌≡◌, refl, sym, ap, ◌∙◌, subst, false, none, some, [], ◌∷◌, ◌++◌, if◌then◌else◌, ==_refl,
  if_true, nat_eq, lookup, lookup-insert, beq_refl,
}
use ssl_socks.Data.{data_udp, RelayData}
use ssl_socks.Manager.Request.Delivery.{tasks_of}
use ssl_socks.Manager.Response.{
  local_transparent_send_udp, source_of, refresh_src, and_then, data_udp_response, respond,
  add_response,
}
use ssl_socks.Manager.Response.Routing.{add_response-by}
use ssl_socks.Manager.World.{
  UdpTimeout, World, completed, fault, call, is_stopped, start_local_udp, session_in, session_of,
}
use ssl_socks.Manager.World.Calls.{call_self}
use ssl_socks.Relay.{ServerType, local_transparent, full_timeout, push, send_data}

-- The relay of local datagrams takes one, while it is not stopped.
sent_local :
    (b : RelayData) (w : World) (p : ℕ)
    → w.udp_send ≡ some p
    → is_stopped w p ≡ false
    → local_transparent_send_udp b w ≡ completed (call p (send_data b) w)
unfolding local_transparent_send_udp
sent_local b w p e s =
    subst
      (λ o.
        elim o [
          | none ↦ fault
          | some q ↦
              if is_stopped w q
              then completed (call w.next (send_data b) (start_local_udp w))
              else completed (call q (send_data b) w)
        ]
        ≡ completed (call p (send_data b) w))
      (sym e) (rw s refl)

transparent :
    (k : ServerType) (b : RelayData) (w w' : World)
    → k ≡ local_transparent
    → local_transparent_send_udp b w ≡ completed w'
    → data_udp_response k b w ≡ completed (refresh_src b.session w')
unfolding data_udp_response
transparent k b w w' e h =
    ap (λ j. data_udp_response j b w) e
    ∙ ap (λ o. and_then o (λ v. completed (refresh_src b.session v))) h

-- `_udp_srcs[session]` and `_srcs` of that are there once they were refreshed.
refreshed :
    (s : ℕ) (w : World)
    → (lookup s (refresh_src s w).udp_srcs ≡ some (source_of s w))
      × (lookup (source_of s w) (refresh_src s w).srcs
          ≡ some (record { session = session_of (source_of s w) w; timeout = full_timeout }))
unfolding refresh_src
refreshed s w =
    let e = source_of s w in
    let u : UdpTimeout = record { session = session_of e w; timeout = full_timeout } in
    (
      lookup-insert s s e w.udp_srcs ∙ if_true (some e) (lookup s w.udp_srcs) (==_refl s),
      lookup-insert e e u w.srcs ∙ if_true (some u) (lookup e w.srcs) (beq_refl e),
    )

sent_tasks :
    (s p : ℕ) (b : RelayData) (w : World)
    → tasks_of (refresh_src s (call p (send_data b) w)) p ≡ tasks_of w p ++ push b ∷ []
unfolding call refresh_src
sent_tasks s p b w = ap (λ o. o.relay.tasks) (call_self p (send_data b) w)

-- On a transparent server, a datagram is posted to the relay of local datagrams while that is not
-- stopped. Then its session has a source, which keeps its session and gets its full time; where the
-- session is not known, that source is the address of zeros.
pub add_response-data_udp :
    (t : AddressText) (b : RelayData) (w : World) (p : ℕ)
    → b.cmd ≡ data_udp
    → w.type ≡ local_transparent
    → w.udp_send ≡ some p
    → is_stopped w p ≡ false
    → (w' : World) × (add_response t b w ≡ completed w')
      × (tasks_of w' p ≡ tasks_of w p ++ push b ∷ [])
      × (lookup b.session w'.udp_srcs ≡ some (source_of b.session w))
      × (lookup (source_of b.session w) w'.srcs
          ≡ some
              (record { session = session_of (source_of b.session w) w; timeout = full_timeout }))
unfolding respond call source_of session_of
add_response-data_udp t b w p c l u s =
    let v = call p (send_data b) w in
    let (known, fresh) = refreshed b.session v in
    (
      refresh_src b.session v,
      add_response-by t b w c ∙ transparent w.type b w v l (sent_local b w p u s),
      sent_tasks b.session p b w,
      known,
      fresh,
    )

unknown-source : (s : ℕ) (w : World) → lookup s w.udp_srcs ≡ none → source_of s w ≡ any4
unfolding source_of
unknown-source s w e = rw (e, source_of) refl

unknown-session : (e : Sockaddr) (w : World) → lookup e w.srcs ≡ none → session_of e w ≡ 0
unfolding session_of
unknown-session e w n = ap session_in n

abbrev timed : ℕ → UdpTimeout
timed s = record { session = s; timeout = full_timeout }

-- On a transparent server with a running relay of local datagrams, a datagram from the other side,
-- where neither its session nor the address of zeros is known, makes that address a source of
-- session 0.
pub add_response-unknown_udp :
    (t : AddressText) (b : RelayData) (w : World) (p : ℕ)
    → b.cmd ≡ data_udp
    → w.type ≡ local_transparent
    → w.udp_send ≡ some p
    → is_stopped w p ≡ false
    → lookup b.session w.udp_srcs ≡ none
    → lookup any4 w.srcs ≡ none
    → (w' : World) × (add_response t b w ≡ completed w')
      × (lookup any4 w'.srcs ≡ some (record { session = 0; timeout = full_timeout }))
add_response-unknown_udp t b w p c l u s none_known none_there =
    let (w', done, _, _, fresh) = add_response-data_udp t b w p c l u s in
    let at : source_of b.session w ≡ any4 = unknown-source b.session w none_known in
    (
      w',
      done,
      subst
            (λ e.
              lookup e w'.srcs ≡ some (record { session = session_of e w; timeout = full_timeout }))
            at fresh
          ∙ ap (λ s. some (timed s)) (unknown-session any4 w none_there),
    )
