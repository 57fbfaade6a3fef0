-- ===== src/Local/Endings.antt =====
-- How the start of a connection ends, src/raw_tcp.cpp (impl_start_local, impl_start_transparent).
use ssl_socks.Address.{
  Sockaddr, inet, inet6, IsSockaddr, store, parse_addr, AddressText, AddressResult, parsed, refused,
  parse_address,
}
use ssl_socks.Address.Grammar.{Request, ip4, ip6, IsRequest, encode, meaning, parse_address-encode}
use ssl_socks.Base.{
  ℕ, suc, ◌+◌, ◌-◌, ◌≤◌, ◌≡◌, refl, sym, ap, ◌∙◌, ap₂, Bool, true, false, not, ◌||◌, Option, none,
  some, List, [], ◌∷◌, ◌++◌, append-nil, append_assoc, arith, ltb, ◌==◌, either_branch, length,
  get_or, drop, write_at, length-append, length-drop, write_at-append, write_at-append_behind,
  Bytes,
}
use ssl_socks.Local.{
  ClientIo, Action, writes_client, sends_request, starts_read, starts_send, starts_relay, Ending,
  running, failed, uncaught, left_early, give_up, no_auth, ok_back, greeted, start_message,
  finish_local, then_do, route, decide, run_command, negotiate, start_local, transparent_message,
}
use ssl_socks.Local.Start.{zeros, length-zeros}

-- A relay that runs has just become ready and told its client so; one that failed has just sent a
-- STOP_TCP of its session and stopped; another exception leaves what was done in front of it.
abbrev pub Closed : List Action → ℕ → List Action × Ending → Type 0
Closed before s (acts, running) =
    (front : List Action) × (acts ≡ front ++ (starts_send ∷ (writes_client ok_back ∷ [])))
Closed before s (acts, failed) = (front : List Action) × (acts ≡ front ++ give_up s)
Closed before s (acts, uncaught) = acts ≡ before
Closed before s (acts, left_early) = ⊥

then_do-Closed :
    (front : List Action) (s : ℕ) (res : List Action × Ending)
    → Closed [] s res
    → Closed front s (then_do front res)
then_do-Closed front s (acts, running) (f, e) =
    (front ++ f, ap (◌++◌ front) e ∙ sym (append_assoc front f _))
then_do-Closed front s (acts, failed) (f, e) =
    (front ++ f, ap (◌++◌ front) e ∙ sym (append_assoc front f _))
then_do-Closed front s (acts, uncaught) e = ap (◌++◌ front) e ∙ append-nil front
then_do-Closed front s (acts, left_early) e = e

finish_local-Closed :
    (before front : List Action) (io : ClientIo) (s : ℕ)
    → Closed before s (then_do front (finish_local io s))
unfolding finish_local
finish_local-Closed before front io s =
    either_branch {A = List Action × Ending} (λ x. Closed before s (then_do front x)) io.told
      (front, refl)
      (
        front ++ (starts_send ∷ (writes_client ok_back ∷ [])),
        sym (append_assoc front (starts_send ∷ (writes_client ok_back ∷ [])) (give_up s)),
      )

route-Closed :
    (io : ClientIo) (s : ℕ) (from : Bytes) (n : ℕ) (o : Option Bool)
    → Closed [] s (route io s from n o)
unfolding route
route-Closed io s from n none = refl
route-Closed io s from n (some true) =
    finish_local-Closed [] (sends_request (start_message s from n) ∷ (starts_read ∷ [])) io s
route-Closed io s from n (some false) =
    either_branch {A = List Action × Ending} (Closed [] s) io.connects
      (finish_local-Closed [] (starts_relay true ∷ (starts_relay false ∷ [])) io s) ([], refl)

decide-Closed :
    (blocked : Bytes → Option Bool) (io : ClientIo) (s : ℕ) (from : Bytes) (n : ℕ)
    (a : AddressResult)
    → Closed [] s (decide blocked io s from n a)
unfolding decide
decide-Closed blocked io s from n (refused e) = ([], refl)
decide-Closed blocked io s from n (parsed host port) = route-Closed io s from n (blocked host)

run_command-Closed :
    (blocked : Bytes → Option Bool) (t : AddressText) (io : ClientIo) (s : ℕ) (buf : Bytes)
    (len : ℕ)
    → Closed [] s (run_command blocked t io s buf len)
unfolding run_command
run_command-Closed blocked t io s buf len =
    either_branch {A = List Action × Ending} (Closed [] s) (ltb len 6 || not (get_or buf 1 0 == 1))
      ([], refl) (decide-Closed blocked io s (drop 3 buf) (len - 3) _)

negotiate-Closed :
    (blocked : Bytes → Option Bool) (t : AddressText) (io : ClientIo) (s : ℕ) (g : Option Bytes)
    (n : Option ℕ) (c : Option Bytes)
    → Closed (writes_client no_auth ∷ []) s (negotiate blocked t io s g n c)
unfolding negotiate
negotiate-Closed blocked t io s none n c = ([], refl)
negotiate-Closed blocked t io s (some g) none c = (writes_client no_auth ∷ [], refl)
negotiate-Closed blocked t io s (some g) (some n) none = (writes_client no_auth ∷ [], refl)
negotiate-Closed blocked t io s (some g) (some n) (some c) =
    either_branch {A = List Action × Ending} (Closed (writes_client no_auth ∷ []) s) (not (n == 2))
      (writes_client no_auth ∷ [], refl)
      (then_do-Closed (writes_client no_auth ∷ []) s _
        (run_command-Closed blocked t io s (write_at 0 c (greeted g)) (length c)))

-- Whatever the client sends and whichever step fails, the start of a connection ends in one of these
-- ways: the relay is ready and has told its client so last; it has, last, sent a STOP_TCP of its
-- session and stopped; or is_blocked threw, and the relay has only answered the greeting.
pub start_local-Closed :
    (blocked : Bytes → Option Bool) (t : AddressText) (io : ClientIo) (s : ℕ)
    → Closed (writes_client no_auth ∷ []) s (start_local blocked t io s)
unfolding start_local
start_local-Closed blocked t io s =
    negotiate-Closed blocked t io s io.greeting io.replied io.command

-- The request of an address as a transparent client connects to it.
abbrev pub request_of : Sockaddr → Request
request_of (inet a p) = ip4 a p
request_of (inet6 a p n) = ip6 a p

-- What `store` writes, one part behind the other.
store-append :
    (tag n : ℕ) (a p mem : Bytes)
    → length a ≡ n
    → length p ≡ 2
    → n + 3 ≤ length mem
    → (rest : Bytes) × (store tag (suc n) a p mem ≡ tag ∷ ((a ++ p) ++ rest))
unfolding store write_at
store-append tag n a p (m ∷ mem) e l h =
    let behind = drop (length a) mem in
    (
      drop (length p) behind,
      ap (λ xs. tag ∷ write_at n p (write_at 0 a xs)) (write_at-append [] mem (omega arith))
          ∙ ap (λ xs. tag ∷ write_at n p xs) (write_at-append a mem (omega (arith, e, h)))
          ∙ ap (λ k. tag ∷ write_at k p (a ++ behind)) (sym e)
          ∙ ap (◌∷◌ tag) (write_at-append_behind a p behind)
          ∙ ap (λ xs. tag ∷ (a ++ xs))
              (write_at-append p behind (omega (arith, l, e, h, length-drop (length a) mem)))
          ∙ ap (◌∷◌ tag) (sym (append_assoc a p (drop (length p) behind))),
    )
store-append tag n a p [] e l h = absurd (omega (arith, h))

pub request_of-IsRequest : (dst : Sockaddr) → IsSockaddr dst → IsRequest (request_of dst)
request_of-IsRequest (inet a p) h = h
request_of-IsRequest (inet6 a p n) h = h

-- The message of a transparent connection is the address as a client of socks5 writes it.
pub transparent_message-encode :
    (s : ℕ) (dst : Sockaddr)
    → IsSockaddr dst
    → (rest : Bytes) × ((transparent_message s dst).bytes ≡ encode (request_of dst) ++ rest)
      × ((transparent_message s dst).len ≡ length (encode (request_of dst)))
unfolding transparent_message parse_addr encode
transparent_message-encode s (inet a p) h =
    let (rest, e) = store-append 1 4 a p zeros h.0 h.1 (omega (arith, length-zeros)) in
    (rest, e, omega (arith, h.0, h.1, length-append a p))
transparent_message-encode s (inet6 a p n) h =
    let (rest, e) = store-append 4 16 a p zeros h.0 h.1 (omega (arith, length-zeros)) in
    (rest, e, omega (arith, h.0, h.1, length-append a p))

-- The message of a transparent connection holds the address, of 4 or 16 bytes with a port of two,
-- that the client connected to: the other side reads that host and port from it.
pub transparent_message-parse :
    (t : AddressText) (s : ℕ) (dst : Sockaddr)
    → IsSockaddr dst
    → parse_address t (transparent_message s dst).bytes (transparent_message s dst).len
      ≡ meaning t (request_of dst)
transparent_message-parse t s dst h =
    let (rest, e, n) = transparent_message-encode s dst h in
    ap₂ (parse_address t) e n
    ∙ parse_address-encode t (request_of dst) rest (length (encode (request_of dst)))
        (request_of-IsRequest dst h) (omega arith)
