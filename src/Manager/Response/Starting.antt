-- ===== src/Manager/Response/Starting.antt =====
-- Starting a relay for the other side, src/relay_manager.cpp (remote_server_start_tcp).
use ssl_socks.Address.{AddressText, AddressError, parsed, refused, parse_address}
use ssl_socks.Base.{
  ℕ, ◌≡◌, refl, ap, ◌∙◌, subst, ◌⊎◌, inl, inr, Bool, true, false, Option, none, some, ◌==◌,
  if◌then◌else◌, ==_refl, Bytes, nat_eq, lookup, lookup-insert,
}
use ssl_socks.Data.{stop_tcp, start_tcp, data_tcp, RelayData}
use ssl_socks.Manager.Response.{
  relay_at, touch, add_remote_raw_tcp, stop_old, remote_server_start_tcp, data_tcp_response,
  stop_tcp_response, respond, add_response,
}
use ssl_socks.Manager.Response.Routing.{add_response-by}
use ssl_socks.Manager.World.{World, completed, thrown, fault, call}
use ssl_socks.Manager.World.Calls.{make_self}
use ssl_socks.Relay.{raw_tcp, new_relay}

pub stop_old-next : (r : Option ℕ) (w : World) → (stop_old r w).next ≡ w.next
unfolding stop_old call
stop_old-next none w = refl
stop_old-next (some p) w = refl

pub stop_old-relays : (r : Option ℕ) (w : World) → (stop_old r w).relays ≡ w.relays
unfolding stop_old call
stop_old-relays none w = refl
stop_old-relays (some p) w = refl

data_tcp_null :
    (b : RelayData) (w : World)
    → lookup b.session w.relays ≡ some none
    → data_tcp_response b w ≡ fault
unfolding data_tcp_response
data_tcp_null b w e = rw (e, data_tcp_response) refl

stop_tcp_null :
    (b : RelayData) (w : World)
    → lookup b.session w.relays ≡ some none
    → stop_tcp_response b w ≡ fault
unfolding stop_tcp_response
stop_tcp_null b w e = rw (e, stop_tcp_response) refl

null_fault :
    (t : AddressText) (d : RelayData) (w : World)
    → lookup d.session w.relays ≡ some none
    → (d.cmd ≡ data_tcp) ⊎ (d.cmd ≡ stop_tcp)
    → add_response t d w ≡ fault
unfolding respond
null_fault t d w e (inl c) = add_response-by t d w c ∙ data_tcp_null d w e
null_fault t d w e (inr c) = add_response-by t d w c ∙ stop_tcp_null d w e

pub start_tcp_parsed :
    (t : AddressText) (b : RelayData) (w : World) (host service : Bytes)
    → parse_address t b.bytes b.len ≡ parsed host service
    → remote_server_start_tcp t b w
      ≡ completed (
          add_remote_raw_tcp b.session host service
            (stop_old (relay_at b.session w) (touch b.session w)))
unfolding remote_server_start_tcp
start_tcp_parsed t b w host service e = rw (e, remote_server_start_tcp) refl

start_tcp_refused :
    (t : AddressText) (b : RelayData) (w : World) (e : AddressError)
    → parse_address t b.bytes b.len ≡ refused e
    → remote_server_start_tcp t b w ≡ thrown (stop_old (relay_at b.session w) (touch b.session w))
unfolding remote_server_start_tcp
start_tcp_refused t b w e h = rw (h, remote_server_start_tcp) refl

pub relay_at-none : (s : ℕ) (w : World) → lookup s w.relays ≡ none → relay_at s w ≡ none
unfolding relay_at
relay_at-none s w e = rw (e, relay_at) refl

-- The second of two tests of the same thing is not needed.
then_only {ℓ} :
    {A : Type ℓ}
    → (c : Bool) → {x x' z : A} (u y : A) → x ≡ x'
    → z ≡ (if c then u else y)
    → (if c then x else z) ≡ (if c then x' else y)
then_only true u y e h = e
then_only false u y e h = h

module _ (t : AddressText) (b : RelayData) (w : World) where
  -- The table of sessions once an entry was touched and its old relay stopped.
  pub touched-relays :
      (s : ℕ)
      → lookup s (stop_old (relay_at b.session w) (touch b.session w)).relays
        ≡ (if b.session == s then some (relay_at b.session w) else lookup s w.relays)
  unfolding touch
  touched-relays s =
      rw (stop_old-relays (relay_at b.session w) (touch b.session w))
        (lookup-insert b.session s (relay_at b.session w) w.relays)

  -- A start with a good address puts a new relay to that host and service under the session,
  -- started, in place of an old one; all other sessions stay.
  pub add_response-start_tcp :
      (host service : Bytes)
      → b.cmd ≡ start_tcp
      → parse_address t b.bytes b.len ≡ parsed host service
      → (w' : World) × (add_response t b w ≡ completed w')
        × (w'.objects w.next ≡ record {
          relay = new_relay raw_tcp;
          session = b.session;
          host = host;
          service = service;
          started = true;
        })
        × ((s : ℕ)
            → lookup s w'.relays
              ≡ (if b.session == s then some (some w.next) else lookup s w.relays))
  unfolding add_remote_raw_tcp touch respond
  add_response-start_tcp host service c e =
      let old = stop_old (relay_at b.session w) (touch b.session w) in
      let next : old.next ≡ w.next = stop_old-next (relay_at b.session w) (touch b.session w) in
      (
        add_remote_raw_tcp b.session host service old,
        add_response-by t b w c ∙ start_tcp_parsed t b w host service e,
        subst
            (λ n. (add_remote_raw_tcp b.session host service old).objects n ≡ record {
              relay = new_relay raw_tcp;
              session = b.session;
              host = host;
              service = service;
              started = true;
            })
            next (make_self raw_tcp b.session host service old),
        λ s.
            lookup-insert b.session s (some old.next) old.relays
            ∙ then_only (b.session == s) (some (relay_at b.session w)) (lookup s w.relays)
                (ap (λ n. some (some n)) next) (touched-relays s),
      )

  -- A start with a bad address for a session that is not there throws, and leaves a null entry
  -- behind: the next data or stop for that session goes through a null pointer.
  pub add_response-malformed :
      (e : AddressError) (d : RelayData)
      → b.cmd ≡ start_tcp
      → lookup b.session w.relays ≡ none
      → parse_address t b.bytes b.len ≡ refused e
      → d.session ≡ b.session
      → (d.cmd ≡ data_tcp) ⊎ (d.cmd ≡ stop_tcp)
      → (w' : World) × (add_response t b w ≡ thrown w') × (add_response t d w' ≡ fault)
  unfolding respond
  add_response-malformed e d c n h same cmd =
      let w' = stop_old (relay_at b.session w) (touch b.session w) in
      let null_entry : lookup b.session w'.relays ≡ some none =
        touched-relays b.session
        ∙ rw (==_refl b.session) refl
        ∙ ap some (relay_at-none b.session w n) in
      (
        w',
        add_response-by t b w c ∙ start_tcp_refused t b w e h,
        null_fault t d w' (ap (λ s. lookup s w'.relays) same ∙ null_entry) cmd,
      )
