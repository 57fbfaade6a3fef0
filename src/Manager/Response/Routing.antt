-- ===== src/Manager/Response/Routing.antt =====
-- Data and stops from the other side, src/relay_manager.cpp (add_response).
use ssl_socks.Address.{AddressText}
use ssl_socks.Base.{
  ℕ, ◌≡◌, refl, ap, ◌∙◌, ◌≢◌, true, false, none, some, [], ◌∷◌, ◌++◌, ◌==◌, if◌then◌else◌, ==_refl,
  nat_eq, lookup, erase, lookup-erase,
}
use ssl_socks.Data.{Command, stop_tcp, data_tcp, RelayData, for_command}
use ssl_socks.Manager.Request.{add_request}
use ssl_socks.Manager.Request.Delivery.{
  tasks_of, Delivered, add_request-local, add_request-relays, IsStopping, call_self-IsStopping,
}
use ssl_socks.Manager.Response.{data_tcp_response, stop_tcp_response, respond, add_response}
use ssl_socks.Manager.World.{World, completed, call, is_stopped, is_remote}
use ssl_socks.Manager.World.Calls.{call_self, call_ne}
use ssl_socks.Relay.{push, send_data, stop_relay}

pub add_response-by :
    (t : AddressText) (b : RelayData) (w : World) {c : Command}
    → b.cmd ≡ c
    → add_response t b w ≡ respond c t b w
unfolding add_response
add_response-by t b w e = ap (λ c. respond c t b w) e

pub data_tcp_live :
    (b : RelayData) (w : World) (p : ℕ)
    → lookup b.session w.relays ≡ some (some p)
    → is_stopped w p ≡ false
    → data_tcp_response b w ≡ completed (call p (send_data b) w)
unfolding data_tcp_response
data_tcp_live b w p e s = rw (e, data_tcp_response) (rw s refl)

pub data_tcp_stopped :
    (b : RelayData) (w : World) (p : ℕ)
    → lookup b.session w.relays ≡ some (some p)
    → is_stopped w p ≡ true
    → data_tcp_response b w
      ≡ completed (
          add_request
            (for_command b.session stop_tcp)
            (record w { relays = erase b.session w.relays }))
unfolding data_tcp_response
data_tcp_stopped b w p e s = rw (e, data_tcp_response) (rw s refl)

pub stop_tcp_known :
    (b : RelayData) (w : World) (p : ℕ)
    → lookup b.session w.relays ≡ some (some p)
    → stop_tcp_response b w
      ≡ completed (record (call p stop_relay w) { relays = erase b.session w.relays })
unfolding stop_tcp_response
stop_tcp_known b w p e = rw (e, stop_tcp_response) refl

pub stop_tcp_unknown :
    (b : RelayData) (w : World)
    → lookup b.session w.relays ≡ none
    → stop_tcp_response b w ≡ completed w
unfolding stop_tcp_response
stop_tcp_unknown b w e = rw (e, stop_tcp_response) refl

module _ (t : AddressText) (b : RelayData) (w : World) where
  -- Data for a session with a relay that is not stopped are posted to that relay, behind all that
  -- was posted before, and neither another relay nor the table of sessions changes.
  pub add_response-data_tcp :
      (p q : ℕ)
      → b.cmd ≡ data_tcp
      → lookup b.session w.relays ≡ some (some p)
      → is_stopped w p ≡ false
      → p ≢ q
      → (w' : World) × (add_response t b w ≡ completed w')
        × (tasks_of w' p ≡ tasks_of w p ++ push b ∷ [])
        × (w'.relays ≡ w.relays)
        × (w'.objects q ≡ w.objects q)
  unfolding call respond
  add_response-data_tcp p q c e s n = (
    call p (send_data b) w,
    add_response-by t b w c ∙ data_tcp_live b w p e s,
    ap (λ o. o.relay.tasks) (call_self p (send_data b) w),
    refl,
    call_ne p q (send_data b) w n,
  )

  -- On a server that is not remote, data for a registered relay that has stopped drop its session, and
  -- no other, and leave a request to stop that session as the last thing posted to the TLS relay.
  pub add_response-stopped :
      (p : ℕ)
      → is_remote w.type ≡ false
      → b.cmd ≡ data_tcp
      → lookup b.session w.relays ≡ some (some p)
      → is_stopped w p ≡ true
      → (w' : World) × (add_response t b w ≡ completed w')
        × ((q : ℕ) × Delivered (for_command b.session stop_tcp) w' q)
        × ((x : ℕ) → lookup x w'.relays ≡ (if b.session == x then none else lookup x w.relays))
  unfolding respond
  add_response-stopped p l c e s =
      let w' = record w { relays = erase b.session w.relays } in
      (
        add_request (for_command b.session stop_tcp) w',
        add_response-by t b w c ∙ data_tcp_stopped b w p e s,
        add_request-local (for_command b.session stop_tcp) w' l,
        λ x.
            ap (λ m. lookup x m) (add_request-relays (for_command b.session stop_tcp) w' l)
            ∙ lookup-erase b.session x w.relays,
      )

  -- A stop reaches the relay of the session, which is forgotten, while all other sessions stay; a
  -- second stop of the session changes nothing.
  pub add_response-stop_tcp :
      (p : ℕ)
      → b.cmd ≡ stop_tcp
      → lookup b.session w.relays ≡ some (some p)
      → (w' : World) × (add_response t b w ≡ completed w')
        × IsStopping w' p
        × ((s : ℕ) → lookup s w'.relays ≡ (if b.session == s then none else lookup s w.relays))
        × (add_response t b w' ≡ completed w')
  unfolding respond
  add_response-stop_tcp p c e =
      let w' = record (call p stop_relay w) { relays = erase b.session w.relays } in
      (
        w',
        add_response-by t b w c ∙ stop_tcp_known b w p e,
        call_self-IsStopping p w,
        λ s. lookup-erase b.session s w.relays,
        add_response-by t b w' c
            ∙ stop_tcp_unknown b w'
                (lookup-erase b.session b.session w.relays ∙ rw (==_refl b.session) refl),
      )
