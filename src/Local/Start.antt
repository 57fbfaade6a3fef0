-- ===== src/Local/Start.antt =====
-- A client that asks for a blocked host, from its socks5 messages to the relay on the remote server,
-- src/raw_tcp.cpp (impl_start_local) and src/relay_manager.cpp (remote_server_start_tcp).
use ssl_socks.Address.{AddressText, port_number, parse_address}
use ssl_socks.Address.Grammar.{
  Request, ip4, ip6, domain, IsRequest, encode, host_text, port_bytes, meaning,
  parse_address-encode,
}
use ssl_socks.Base.{
  ℕ, suc, ◌-◌, ◌≤◌, ◌≡◌, refl, ap, ◌∙◌, Bool, true, Option, some, List, [], ◌∷◌, ◌++◌, arith,
  le→ltb, length, drop, replicate, write_at, length-append, length-replicate, take-length_append,
  length-write_at, write_at-append, Bytes,
}
use ssl_socks.Data.{read_buffer_size, start_tcp, RelayData, for_command}
use ssl_socks.Local.{
  ClientIo, Action, writes_client, sends_request, starts_read, no_auth, greeted, start_message,
  finish_local, then_do, route, decide, run_command, negotiate, start_local,
}
use ssl_socks.Manager.Response.{add_response}
use ssl_socks.Manager.Response.Starting.{add_response-start_tcp}
use ssl_socks.Manager.World.{Object, World, completed}
use ssl_socks.Relay.{raw_tcp, new_relay}

-- The command CONNECT, with the address behind it.
abbrev pub connect : Request → Bytes
connect r = 5 ∷ (1 ∷ (0 ∷ encode r))

length-greeted : (g : Bytes) → length (greeted g) ≡ 512
unfolding greeted
length-greeted g =
    length-write_at 0 no_auth (write_at 0 g (replicate 512 0))
    ∙ length-write_at 0 g (replicate 512 0)
    ∙ length-replicate 512 0

pub least_encode : (r : Request) → IsRequest r → 4 ≤ length (encode r)
unfolding encode
least_encode (ip4 a p) h = omega (arith, h.0, h.1, length-append a p)
least_encode (ip6 a p) h = omega (arith, h.0, h.1, length-append a p)
least_encode (domain n p) h = omega (arith, h, length-append n p)

abbrev pub zeros : Bytes
zeros = replicate read_buffer_size 0

pub length-zeros : length zeros ≡ 4096
length-zeros = length-replicate {A = ℕ} read_buffer_size 0

-- The message of a start holds the address that it was made from.
start_message-parse :
    (t : AddressText) (s : ℕ) (r : Request) (rest : Bytes)
    → IsRequest r
    → length (encode r) ≤ 509
    → parse_address t
        (start_message s (encode r ++ rest) (length (encode r))).bytes
        (start_message s (encode r ++ rest) (length (encode r))).len
      ≡ meaning t r
unfolding start_message
start_message-parse t s r rest h l = rw (take-length_append (encode r) rest) (
    rw (write_at-append (encode r) zeros (omega (arith, length-zeros, l))) (
      parse_address-encode t r (drop (length (encode r)) zeros) (length (encode r)) h
        (omega arith)))

less_three : (n : ℕ) → suc (suc (suc n)) - 3 ≡ n
less_three n = omega arith

command_routes :
    (blocked : Bytes → Option Bool) (t : AddressText) (io : ClientIo) (s : ℕ) (r : Request)
    (rest : Bytes)
    → IsRequest r
    → run_command blocked t io s (connect r ++ rest) (length (connect r))
      ≡ route io s (encode r ++ rest) (length (encode r)) (blocked (host_text t r))
unfolding run_command decide
command_routes blocked t io s r rest h =
    rw (le→ltb (length (connect r)) 6 (omega (arith, least_encode r h)), run_command)
      (ap (λ n. decide blocked io s (encode r ++ rest) n (parse_address t (encode r ++ rest) n))
          (less_three (length (encode r)))
        ∙ ap (decide blocked io s (encode r ++ rest) (length (encode r)))
            (parse_address-encode t r rest (length (encode r)) h (omega arith)))

start_local-negotiate :
    (blocked : Bytes → Option Bool) (t : AddressText) (io : ClientIo) (s : ℕ) {g c : Option Bytes}
    {n : Option ℕ}
    → io.greeting ≡ g
    → io.replied ≡ n
    → io.command ≡ c
    → start_local blocked t io s ≡ negotiate blocked t io s g n c
unfolding start_local
start_local-negotiate blocked t io s {g} {c} {n} a b e =
    ap (λ x. negotiate blocked t io s x io.replied io.command) a
    ∙ ap (λ x. negotiate blocked t io s g x io.command) b
    ∙ ap (negotiate blocked t io s g n) e

negotiated :
    (blocked : Bytes → Option Bool) (t : AddressText) (io : ClientIo) (s : ℕ) (g : Bytes)
    (r : Request)
    → negotiate blocked t io s (some g) (some 2) (some (connect r))
      ≡ then_do
          (writes_client no_auth ∷ [])
          (run_command blocked t io s (write_at 0 (connect r) (greeted g)) (length (connect r)))
unfolding negotiate
negotiated blocked t io s g r = refl

-- What a client's messages come to, when it was answered.
pub greeted_routes :
    (blocked : Bytes → Option Bool) (t : AddressText) (io : ClientIo) (s : ℕ) (g : Bytes)
    (r : Request)
    → io.greeting ≡ some g
    → io.replied ≡ some 2
    → io.command ≡ some (connect r)
    → IsRequest r
    → length (connect r) ≤ 512
    → (rest : Bytes) × (start_local blocked t io s
        ≡ then_do
            (writes_client no_auth ∷ [])
            (route io s (encode r ++ rest) (length (encode r)) (blocked (host_text t r))))
greeted_routes blocked t io s g r a b c h l =
    let rest = drop (length (connect r)) (greeted g) in
    (
      rest,
      start_local-negotiate blocked t io s a b c
          ∙ negotiated blocked t io s g r
          ∙ ap
              (λ buf.
                then_do (writes_client no_auth ∷ [])
                  (run_command blocked t io s buf (length (connect r))))
              (write_at-append (connect r) (greeted g) (omega (arith, length-greeted g, l)))
          ∙ ap (then_do (writes_client no_auth ∷ [])) (command_routes blocked t io s r rest h),
    )

pub route-start :
    (io : ClientIo) (s : ℕ) (from : Bytes) (n : ℕ)
    → (rest : List Action) × ((route io s from n (some true)).0
        ≡ sends_request (start_message s from n) ∷ (starts_read ∷ rest))
unfolding route
route-start io s from n = ((finish_local io s).0, refl)

start_message-session :
    (s : ℕ) (from : Bytes) (n : ℕ)
    → ((start_message s from n).session ≡ s) × ((start_message s from n).cmd ≡ start_tcp)
unfolding start_message for_command
start_message-session s from n = (refl, refl)

-- The relay that a start on the remote server makes.
abbrev pub started_relay : AddressText → ℕ → Request → Object
started_relay t s r = record {
  relay = new_relay raw_tcp;
  session = s;
  host = host_text t r;
  service = t.int_text (port_number (port_bytes r) 0);
  started = true;
}

-- A client that sends a greeting, is answered, and sends the command to connect to a blocked host,
-- within 512 bytes, has this effect: the first message for the remote server, given to its
-- manager, makes and starts a relay of the same session to the host and port that the client
-- named.
pub start_local-add_response :
    (blocked : Bytes → Option Bool) (t : AddressText) (io : ClientIo) (s : ℕ) (g : Bytes)
    (r : Request) (w : World)
    → io.greeting ≡ some g
    → io.replied ≡ some 2
    → io.command ≡ some (connect r)
    → IsRequest r
    → length (connect r) ≤ 512
    → blocked (host_text t r) ≡ some true
    → (m : RelayData) × (rest : List Action) × ((start_local blocked t io s).0
        ≡ writes_client no_auth ∷ (sends_request m ∷ (starts_read ∷ rest)))
      × ((w' : World) × (add_response t m w ≡ completed w')
          × (w'.objects w.next ≡ started_relay t s r))
start_local-add_response blocked t io s g r w a b c h l y =
    let (behind, e) = greeted_routes blocked t io s g r a b c h l in
    let n = length (encode r) in
    let (rest, does) = route-start io s (encode r ++ behind) n in
    let m = start_message s (encode r ++ behind) n in
    let (own, start) = start_message-session s (encode r ++ behind) n in
    let (w', done, made, _) =
      add_response-start_tcp t m w (host_text t r) (t.int_text (port_number (port_bytes r) 0)) start
        (start_message-parse t s r behind h (omega arith)) in
    (
      m,
      rest,
      ap (λ p. p.0) e
          ∙ ap (λ o. writes_client no_auth ∷ (route io s (encode r ++ behind) n o).0) y
          ∙ ap (λ acts. writes_client no_auth ∷ acts) does,
      (w', done, made ∙ ap (λ k. started_relay t k r) own),
    )
