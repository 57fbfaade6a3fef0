-- ===== src/Manager/Request.antt =====
-- Messages for the other side, src/relay_manager.cpp (add_request), and new local connections
-- (add_local_raw_tcp).
pub mod Delivery
use ssl_socks.Base.{ℕ, true, Option, none, some, [], if◌then◌else◌, nat_eq, lookup, insert}
use ssl_socks.Data.{RelayData}
use ssl_socks.Manager.World.{
  World, update, call, is_stopped, make, stop_manager, is_remote, next_session,
}
use ssl_socks.Relay.{ssl_relay, send_data}

-- The TLS relay, if there is one that is not stopped.
unfoldable pub live_ssl : World → Option ℕ
live_ssl w = elim w.ssl [ none ↦ none | some p ↦ if is_stopped w p then none else some p ]

-- A new TLS relay takes the place of the old one, where its constructor does not throw; renew_ssl_or of
-- Manager/Failing has the exception.
unfoldable pub renew_ssl : World → World
renew_ssl w = record (make ssl_relay 0 [] [] w) { ssl = some w.next }

-- add_request(buf)
unfoldable pub add_request : RelayData → World → World
add_request b w = elim (live_ssl w) [
  | some p ↦ call p (send_data b) w
  | none ↦ if is_remote w.type then stop_manager w else call w.next (send_data b) (renew_ssl w)
]

-- add_local_raw_tcp(tcp_relay): the relay `p`, made and connected by the acceptor, gets the next
-- session. If that is taken, the relay is dropped.
unfoldable pub add_local_raw_tcp : ℕ → World → World
add_local_raw_tcp p w =
    let w' = record w { session = next_session w.session } in
    elim (lookup w.session w.relays) [
      | some r ↦ w'
      | none ↦ record w' {
        relays = insert w.session (some p) w.relays;
        objects = update w.objects p (record (w.objects p) { session = w.session; started = true });
      }
    ]
