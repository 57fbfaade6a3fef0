-- ===== src/Lib.antt =====
-- A model of ssl-socks, a proxy: a local server takes connections and datagrams from clients, by
-- socks5 or as a transparent proxy, and sends what is to be proxied over one TLS stream to a remote
-- server, which talks to the real hosts.
--
-- The parts and their files. Paths are from the repository's root.
-- - Base: Booleans, lists of bytes, words in little-endian form, and maps as association lists.
-- - Data: src/relay_data.hpp. The message, with its constructors and buffers (RelayData). Data/Wire:
--   its form on the TLS stream, as ssl_relay::internal_send_data writes it and
--   ssl_impl::impl_start_read of src/ssl_relay.cpp reads it.
-- - Address: src/utils.cpp. parse_addr and parse_address, and get_data_addr of src/raw_udp.cpp, on the
--   memory at the pointer they take. Address/Grammar describes the addresses by how they are written;
--   Address/Hex has buf_to_string.
-- - Gfw: src/gfwlist.cpp. load_list, which makes regular expressions of a file's lines (Gfw), and
--   is_blocked, which searches a host for them; Gfw/Text has replace_string, Gfw/Regex a matcher.
-- - Relay: src/base_relay.cpp and what raw_tcp, raw_udp and ssl_relay add to it. The queue of messages,
--   the state, the countdown, and the handlers on the relay's strand; Relay/Sending has
--   internal_send_data of the three classes.
-- - Manager: src/relay_manager.cpp. World is manager_impl with the relays that it points to; Request
--   has add_request and add_local_raw_tcp, Response has add_response, Udp has send_udp_data, and Timer
--   has the rounds of start_timer. Manager/Run is any sequence of calls on one manager,
--   and Manager/System such a sequence among the events of all its relays. Manager/Failing has
--   what the handlers do where making a relay throws.
-- - Tunnel: the two ends together. What the TCP messages of one side mean on the other, as a
--   specification on sessions (tunnel_step); Tunnel/Client has a client's connection, from its request
--   to the other side's relay, and Tunnel/Datagrams a client's datagram. Tunnel/Multiplex and
--   Tunnel/Shared have the sessions that share a stream, and Tunnel/Answers what comes behind a start, in
--   either direction; Tunnel/Interleaved has the messages among the events of the relays, and
--   Tunnel/Whole the way from a client's request to the host's socket, Tunnel/Transparent that of a
--   transparent client, and Tunnel/Return the way back.
-- - Local: src/raw_tcp.cpp. The start of a client's connection, by socks5 (impl_start_local) or as a
--   transparent proxy (impl_start_transparent), and its reads (impl_start_read): what the coroutines
--   await is an argument, and what they do a list of actions, the messages for the manager among them.
--   Local/Direct has the two loops of impl_local_relay as events in any order, and Local/Connect
--   impl_start_remote and the choice that start_relay makes. Local/Orphan has the reads of a relay whose
--   manager goes.
-- - Datagram: src/raw_udp.cpp. The messages that received datagrams make, in impl_start_recv and in
--   transparent_udp_recv_on of src/relay_acceptor.cpp, and where internal_send_data sends them;
--   Datagram/Start has start_relay and the loop of impl_start_recv, Datagram/Orphan that loop
--   where the manager goes.
-- - Tls: src/ssl_relay.cpp. init_ssl, start_relay as steps that succeed or not, and in Tls/Reading what
--   impl_start_read does with the messages that it reads.
-- - Acceptor: src/relay_acceptor.cpp. The constructor's steps (Sockets), transparent_udp_recv_on
--   (Receive), remote_accept (Remote), local_accept, local_udp_accept and start_accept (Clients): each
--   accepted connection and datagram is a call of Manager/Run.
-- - Config and Server: src/main.cpp and relay_config of src/relay.hpp. get_config on what the accessors
--   of the JSON library give, the options, the helpers on text, the rounds of server_start, and main.
--
-- A manager calls relays by posting to their strands: `call` changes one relay of the store, and
-- send_data, stop_relay and the peers' operations of Relay append a handler to its `tasks`. What a
-- relay then does with its handlers, in which order with the ends of its writes, is a list of events of
-- Relay (`run`); Relay/History has the states that such lists lead to. Data is what passes
-- between them, and what the manager of the other side is given.
--
-- State is passed explicitly. A byte is a number, a number of the native kind; the counter of sessions
-- wraps at 2 ^ 32, and a header holds session, command and length in 4, 4 and 8 bytes. An exception is
-- a value of a result type or an Outcome, with the state at the point where it was thrown; a call
-- through a null pointer is `fault`. What asio and boost make of an address or number as text is a
-- parameter (AddressText), and so is std::regex_search on expressions outside the syntax of Gfw/Regex.
--
-- Fuel. replace_loop has the length of its text as fuel, since every occurrence that is replaced takes a
-- byte of it. read_messages and timer take a number of rounds, since the loops in the source end only with
-- an error or a stop: each round of the first takes the 16 bytes of a header at least, so that the length of
-- the stream is enough, and a round of the timer is one tick. tls_read takes a list of rounds, with what
-- async_read_some and the manager make of each.
--
-- Not modelled: the sockets, name resolution, the TLS handshake and the system calls, whose answers are
-- arguments; the JSON library of src/json.hpp, by its accessors a parameter (Json), since it is a copy of
-- another project; src/util.c, which is not used; the text of log messages; memory that runs out. The
-- sequences of calls, and what stands on them, are those in which relays can be made; Manager/Failing has
-- the single handlers where one cannot. A start by socks5 and the loops of impl_local_relay have their
-- manager; the two other starts have it or not, and Local/Orphan, Datagram/Orphan and Tls/Reading have the
-- loops that lose it. An exception on a thread that is being joined is left out. Data races on a relay's
-- state, which the manager reads from another strand, are not modelled: it is read and written at once.
pub mod Acceptor
pub mod Address
pub mod Base
pub mod Config
pub mod Data
pub mod Datagram
pub mod Gfw
pub mod Local
pub mod Manager
pub mod Relay
pub mod Server
pub mod Tls
pub mod Tunnel
