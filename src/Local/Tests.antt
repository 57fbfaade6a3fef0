-- ===== src/Local/Tests.antt =====
-- Tests of the start of a connection.
use ssl_socks.Address.{inet, AddressText, parse_address}
use ssl_socks.Address.Grammar.{Request, ip4, domain, encode, meaning}
use ssl_socks.Base.{
  ◌≡◌, refl, Bool, true, false, Option, none, some, List, [], ◌∷◌, ◌++◌, map, arith, leb,
  if◌then◌else◌, length, Bytes,
}
use ssl_socks.Data.{RelayData}
use ssl_socks.Data.Wire.{seen, read_messages, write_messages}
use ssl_socks.Local.{
  ClientIo, Action, writes_client, sends_request, starts_read, no_auth, start_local,
  transparent_message, start_read,
}
use ssl_socks.Local.Connect.{StartIo, start_raw_tcp, Settled, start_on, start_raw_tcp-Settled}
use ssl_socks.Local.Direct.{
  LineEvent, line_reads, line_writes, line_breaks, new_line, read_line, write_line, line_step,
  line_run, new_direct, direct_step, direct_run,
}
use ssl_socks.Local.Direct.Countdown.{
  ConnectionEvent, line_event, timer_tick, connection_run, ticks_of, lines_of,
  connection_run-countdown,
}
use ssl_socks.Local.Direct.Farewell.{ended, direct_run-ended}
use ssl_socks.Local.Direct.Order.{events_of, InOrder, direct_run-InOrder}
use ssl_socks.Local.Endings.{Closed, start_local-Closed, transparent_message-parse}
use ssl_socks.Local.Orphan.{by_fault, read_while, OrphanReads, read_while-OrphanReads}
use ssl_socks.Local.Start.{connect, started_relay, start_local-add_response}
use ssl_socks.Local.Stream.{requests_of, expected, start_read-write_messages}
use ssl_socks.Manager.Response.{add_response}
use ssl_socks.Manager.World.{World, completed, new_manager}
use ssl_socks.Relay.{remote_server, full_timeout, raw_tcp, stop_task, new_relay, traffic, step}

abbrev names : AddressText
names = record { v4_text = λ a. a; v6_text = λ a. a; int_text = λ n. n ∷ [] }

-- A host of two letters, and port 80.
abbrev wanted : Request
wanted = domain (b'a' ∷ (b'b' ∷ [])) (0 ∷ (80 ∷ []))

abbrev talk : ClientIo
talk = record {
  greeting = some (5 ∷ (1 ∷ (0 ∷ [])));
  replied = some 2;
  command = some (connect wanted);
  connects = true;
  told = true;
}

abbrev all_blocked : Bytes → Option Bool
all_blocked host = some true

connect-length : length (connect wanted) ≡ 9
unfolding encode
connect-length = refl

start_local-add_response_test :
    (m : RelayData) × (rest : List Action) × ((start_local all_blocked names talk 5).0
      ≡ writes_client no_auth ∷ (sends_request m ∷ (starts_read ∷ rest)))
    × ((w' : World) × (add_response names m (new_manager remote_server) ≡ completed w')
        × (w'.objects (new_manager remote_server).next ≡ started_relay names 5 wanted))
start_local-add_response_test =
    start_local-add_response all_blocked names talk 5 (5 ∷ (1 ∷ (0 ∷ []))) wanted
      (new_manager remote_server) refl refl refl refl (omega (arith, connect-length)) refl

start_local-Closed_example :
    Closed (writes_client no_auth ∷ []) 5 (start_local all_blocked names talk 5)
start_local-Closed_example = start_local-Closed all_blocked names talk 5

transparent_message-parse_test :
    parse_address names
      (transparent_message 5 (inet (1 ∷ (2 ∷ (3 ∷ (4 ∷ [])))) (0 ∷ (80 ∷ [])))).bytes
      (transparent_message 5 (inet (1 ∷ (2 ∷ (3 ∷ (4 ∷ [])))) (0 ∷ (80 ∷ [])))).len
    ≡ meaning names (ip4 (1 ∷ (2 ∷ (3 ∷ (4 ∷ [])))) (0 ∷ (80 ∷ [])))
transparent_message-parse_test =
    transparent_message-parse names 5 (inet (1 ∷ (2 ∷ (3 ∷ (4 ∷ [])))) (0 ∷ (80 ∷ []))) (refl, refl)

start_read-write_messages_test :
    map
      (λ d. seen d)
      (read_messages 3 (write_messages (requests_of (start_read 5 ((7 ∷ []) ∷ ((8 ∷ []) ∷ []))))))
    ≡ expected 5 ((7 ∷ []) ∷ ((8 ∷ []) ∷ []))
start_read-write_messages_test =
    start_read-write_messages 5 ((7 ∷ []) ∷ ((8 ∷ []) ∷ [])) 3 (omega arith)
      (omega arith, (omega arith, tt)) (omega arith)

-- Both directions, of which one breaks.
abbrev both_ways : List (Bool × LineEvent)
both_ways =
    (true, line_reads (1 ∷ (2 ∷ [])))
    ∷ ((false, line_reads (7 ∷ [])) ∷ ((true, line_writes 2) ∷ ((false, line_breaks) ∷ [])))

direct_run-InOrder_example :
    InOrder (direct_run 5 both_ways new_direct).to_client
    × InOrder (direct_run 5 both_ways new_direct).to_remote
    × ((direct_run 5 both_ways new_direct).to_client ≡ line_run (events_of true both_ways) new_line)
    × ((direct_run 5 both_ways new_direct).to_remote
        ≡ line_run (events_of false both_ways) new_line)
direct_run-InOrder_example = direct_run-InOrder 5 both_ways

direct_run-ended_test :
    (direct_run 5 both_ways new_direct).told
    ≡ ended 5 (direct_run 5 both_ways new_direct).to_client.alive
      ++ ended 5 (direct_run 5 both_ways new_direct).to_remote.alive
direct_run-ended_test = direct_run-ended 5 both_ways

passed_test : (direct_run 5 both_ways new_direct).to_client.passed ≡ 1 ∷ (2 ∷ [])
unfolding direct_run direct_step line_step read_line write_line
passed_test = refl

abbrev unreachable : StartIo
unreachable = record {
  managed = true;
  client = talk;
  server = record { resolved = true; connected = false };
  endpoint = none;
}

start_raw_tcp-Settled_test :
    (start_raw_tcp remote_server all_blocked names unreachable 5
      ≡ some (start_on remote_server all_blocked names unreachable 5))
    × Settled 5 (start_on remote_server all_blocked names unreachable 5)
start_raw_tcp-Settled_test = start_raw_tcp-Settled remote_server all_blocked names unreachable 5

-- Traffic between nine ticks.
abbrev busy : List ConnectionEvent
busy =
    timer_tick
    ∷ (timer_tick
        ∷ (line_event true (line_reads (1 ∷ []))
            ∷ (timer_tick
                ∷ (timer_tick
                    ∷ (line_event true (line_writes 1)
                        ∷ (timer_tick
                            ∷ (timer_tick ∷ (timer_tick ∷ (timer_tick ∷ (timer_tick ∷ []))))))))))

connection_run-countdown_example :
    ((connection_run 5 busy
        (record { owner = step (new_relay raw_tcp) traffic; lines = new_direct })).owner.tasks
      ≡ (new_relay raw_tcp).tasks
        ++ (if leb full_timeout (ticks_of busy) then stop_task ∷ [] else []))
    × ((connection_run 5 busy
          (record { owner = step (new_relay raw_tcp) traffic; lines = new_direct })).lines
        ≡ direct_run 5 (lines_of busy) new_direct)
connection_run-countdown_example = connection_run-countdown 5 busy (new_relay raw_tcp) new_direct

-- Two reads, of which the second finds the manager gone.
read_while-OrphanReads_example : OrphanReads 1 5 ((1 ∷ []) ∷ ((2 ∷ []) ∷ []))
read_while-OrphanReads_example = read_while-OrphanReads 1 5 ((1 ∷ []) ∷ ((2 ∷ []) ∷ []))

orphan_test : (read_while 1 5 ((1 ∷ []) ∷ ((2 ∷ []) ∷ []))).1 ≡ by_fault
unfolding read_while
orphan_test = refl
