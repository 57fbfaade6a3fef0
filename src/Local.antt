-- ===== src/Local.antt =====
-- The start of a relay for a client's connection, src/raw_tcp.cpp (impl_start_local,
-- impl_start_transparent). What the coroutine awaits is its input, and what it does its output.
pub mod Connect
pub mod Direct
pub mod Endings
pub mod Start
pub mod Stream
pub mod Orphan
mod Tests
use ssl_socks.Address.{
  Sockaddr, parse_addr, AddressText, AddressResult, parsed, refused, parse_address,
}
use ssl_socks.Base.{
  ℕ, ◌-◌, Bool, true, false, not, ◌||◌, Option, none, some, List, [], ◌∷◌, ◌++◌, ltb, ◌==◌,
  if◌then◌else◌, length, get_or, take, drop, replicate, write_at, Bytes,
}
use ssl_socks.Data.{read_buffer_size, stop_tcp, start_tcp, RelayData, for_session, for_command}

-- What the awaited operations give; `none` is a system_error. `told` says that the last reply
-- was written, and `connects` that the host was resolved and connected to.
pub record ClientIo : Type 0 where
  pub greeting : Option Bytes
  pub replied : Option ℕ
  pub command : Option Bytes
  pub connects : Bool
  pub told : Bool

-- What a relay does: it writes to its client, gives a message to the manager, starts to read from
-- the client, starts the direct relay in one direction, is ready to send, stops, or resets its
-- countdown.
pub data Action : Type 0 where
  writes_client : Bytes → Action
  sends_request : RelayData → Action
  starts_read starts_send stops_relay resets : Action
  starts_relay : Bool → Action

-- How a start ends: with a relay that runs, in the catch, with an exception that is no system_error, or
-- with a return where the manager is gone.
pub data Ending : Type 0 where
  running failed uncaught left_early : Ending

-- The catch: `mngr->add_request(stop_buf); stop_relay();`
abbrev pub give_up : ℕ → List Action
give_up s = sends_request (for_command s stop_tcp) ∷ (stops_relay ∷ [])

-- The same, whether the manager is there or not: it is told where it is.
unfoldable pub caught_with : Bool → ℕ → List Action
caught_with true s = give_up s
caught_with false s = stops_relay ∷ []

-- The reply to the greeting, and the reply to the command.
abbrev pub no_auth : Bytes
no_auth = 5 ∷ (0 ∷ [])

abbrev pub ok_back : Bytes
ok_back = 5 ∷ (0 ∷ (0 ∷ (1 ∷ (0 ∷ (0 ∷ (0 ∷ (0 ∷ (0 ∷ (0 ∷ [])))))))))

-- The buffer of 512 bytes once the greeting was received, and `5, 0` put in front.
unfoldable pub greeted : Bytes → Bytes
greeted g = write_at 0 no_auth (write_at 0 g (replicate 512 0))

-- The START_TCP message with the first `n` bytes of `data`.
unfoldable pub start_message : ℕ → Bytes → ℕ → RelayData
unfolding for_command
start_message s from n = record (for_command s start_tcp) {
  bytes = write_at 0 (take n from) (replicate read_buffer_size 0);
  len = n;
}

-- `state = RELAY_INIT; start_send();` and the reply.
unfoldable pub finish_local : ClientIo → ℕ → List Action × Ending
finish_local io s =
    if io.told
    then (starts_send ∷ (writes_client ok_back ∷ []), running)
    else (starts_send ∷ (writes_client ok_back ∷ give_up s), failed)

abbrev pub then_do : List Action → List Action × Ending → List Action × Ending
then_do front (rest, ending) = (front ++ rest, ending)

-- The branches on what is_blocked says of the host.
unfoldable pub route : ClientIo → ℕ → Bytes → ℕ → Option Bool → List Action × Ending
unfolding finish_local start_message
route io s from n none = ([], uncaught)
route io s from n (some true) =
    then_do (sends_request (start_message s from n) ∷ (starts_read ∷ [])) (finish_local io s)
route io s from n (some false) =
    if io.connects
    then then_do (starts_relay true ∷ (starts_relay false ∷ [])) (finish_local io s)
    else (give_up s, failed)

-- What parse_address made of the command.
unfoldable pub decide :
    (Bytes → Option Bool) → ClientIo → ℕ → Bytes → ℕ → AddressResult → List Action × Ending
unfolding route
decide blocked io s from n (refused e) = (give_up s, failed)
decide blocked io s from n (parsed host port) = route io s from n (blocked host)

-- The command: `buf` with the `len` bytes received.
unfoldable pub run_command :
    (Bytes → Option Bool) → AddressText → ClientIo → ℕ → Bytes → ℕ → List Action × Ending
run_command blocked t io s buf len =
    if ltb len 6 || not (get_or buf 1 0 == 1)
    then (give_up s, failed)
    else decide blocked io s (drop 3 buf) (len - 3) (parse_address t (drop 3 buf) (len - 3))

-- The greeting, the reply to it, and the command.
unfoldable pub negotiate :
    (Bytes → Option Bool)
    → AddressText
    → ClientIo
    → ℕ
    → Option Bytes
    → Option ℕ
    → Option Bytes
    → List Action × Ending
unfolding run_command greeted
negotiate blocked t io s none n c = (give_up s, failed)
negotiate blocked t io s (some g) none c = (writes_client no_auth ∷ give_up s, failed)
negotiate blocked t io s (some g) (some n) none = (writes_client no_auth ∷ give_up s, failed)
negotiate blocked t io s (some g) (some n) (some c) =
    if not (n == 2)
    then (writes_client no_auth ∷ give_up s, failed)
    else then_do (writes_client no_auth ∷ [])
        (run_command blocked t io s (write_at 0 c (greeted g)) (length c))

-- impl_start_local(), for a relay of session `s` whose manager is there. `blocked` is
-- config.gfw.is_blocked. The relay gives up as well where a reply is not written in full.
unfoldable pub start_local :
    (Bytes → Option Bool) → AddressText → ClientIo → ℕ → List Action × Ending
unfolding negotiate
start_local blocked t io s = negotiate blocked t io s io.greeting io.replied io.command

-- The message of impl_start_transparent: the address that the client connected to.
unfoldable pub transparent_message : ℕ → Sockaddr → RelayData
unfolding for_command
transparent_message s dst = record (for_command s start_tcp) {
  bytes = (parse_addr (replicate read_buffer_size 0) dst).0;
  len = (parse_addr (replicate read_buffer_size 0) dst).1;
}

-- impl_start_transparent(), where the manager is there or not; `none` is the error of local_endpoint.
unfoldable pub start_transparent : Bool → ℕ → Option Sockaddr → List Action × Ending
unfolding caught_with transparent_message
start_transparent managed s none = (caught_with managed s, failed)
start_transparent true s (some dst) =
    (sends_request (transparent_message s dst) ∷ (starts_read ∷ (starts_send ∷ [])), running)
start_transparent false s (some dst) = ([], left_early)

-- relay_data(session), filled by a read and resized to it.
unfoldable pub chunk_message : ℕ → Bytes → RelayData
unfolding for_session
chunk_message s chunk = record (for_session s) {
  bytes = write_at 0 chunk (replicate read_buffer_size 0);
  len = length chunk;
}

-- impl_start_read(), for a relay whose manager is there: what the reads give, up to the error that
-- ends them.
unfoldable pub start_read : ℕ → List Bytes → List Action
unfolding chunk_message
start_read s [] = give_up s
start_read s (chunk ∷ chunks) =
    sends_request (chunk_message s chunk) ∷ (resets ∷ start_read s chunks)
