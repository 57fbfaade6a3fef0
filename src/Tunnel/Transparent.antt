-- ===== src/Tunnel/Transparent.antt =====
-- A transparent client's connection up to the socket of the host: src/raw_tcp.cpp
-- (impl_start_transparent), src/ssl_relay.cpp, src/relay_manager.cpp and src/base_relay.cpp together.
use ssl_socks.Address.{
  Sockaddr, inet, inet6, IsSockaddr, store, parse_addr, AddressText, port_number,
}
use ssl_socks.Address.Grammar.{encode, host_text, port_bytes}
use ssl_socks.Base.{
  ℕ, ◌^◌, ◌≤◌, ◌<◌, ◌≡◌, sym, ap, ◌∙◌, ap₂, true, some, List, [], ◌∷◌, ◌++◌, map, arith, length,
  take, write_at, take-length_append, length-write_at, Bytes, nat_eq, lookup,
}
use ssl_socks.Data.{stop_tcp, start_tcp, RelayData, for_command, data_buffer, IsMessage}
use ssl_socks.Data.Wire.{seen, read_messages, write_messages, IsNamed, AllSendable}
use ssl_socks.Gfw.Lines.{written}
use ssl_socks.Local.{transparent_message, start_transparent, start_read}
use ssl_socks.Local.Endings.{request_of, request_of-IsRequest, transparent_message-encode}
use ssl_socks.Local.Start.{zeros, length-zeros}
use ssl_socks.Local.Stream.{requests_of, AllFit}
use ssl_socks.Manager.System.{SystemEvent, system_run}
use ssl_socks.Manager.World.{World, completed, new_manager}
use ssl_socks.Relay.{remote_server}
use ssl_socks.Relay.Wakeup.{IsQuiet}
use ssl_socks.Tunnel.Ends.{AllTunnels}
use ssl_socks.Tunnel.Messages.{
  chunk_messages, start_read-chunk_messages, data_seens, seen-chunk_messages,
  chunk_messages-AllSendable, start_seen,
}
use ssl_socks.Tunnel.Multiplex.{of_session}
use ssl_socks.Tunnel.Whole.{messages_in, AllFaultless, client_wire}

pub transparent_message-IsMessage :
    (s : ℕ) (dst : Sockaddr)
    → s < 2 ^ 32
    → IsSockaddr dst
    → IsMessage (transparent_message s dst) × IsNamed (transparent_message s dst).cmd
unfolding transparent_message parse_addr store for_command
transparent_message-IsMessage s (inet a p) w h = (
  record {
    fits = omega arith;
    buffer =
        length-write_at 5 p (write_at 1 a (write_at 0 (1 ∷ []) zeros))
        ∙ length-write_at 1 a (write_at 0 (1 ∷ []) zeros)
        ∙ length-write_at 0 (1 ∷ []) zeros
        ∙ length-zeros;
    word = w;
  },
  tt,
)
transparent_message-IsMessage s (inet6 a p n) w h = (
  record {
    fits = omega arith;
    buffer =
        length-write_at 17 p (write_at 1 a (write_at 0 (4 ∷ []) zeros))
        ∙ length-write_at 1 a (write_at 0 (4 ∷ []) zeros)
        ∙ length-write_at 0 (4 ∷ []) zeros
        ∙ length-zeros;
    word = w;
  },
  tt,
)

pub seen-transparent_message :
    (s : ℕ) (dst : Sockaddr)
    → IsSockaddr dst
    → seen (transparent_message s dst) ≡ start_seen s (request_of dst)
unfolding transparent_message for_command
seen-transparent_message s dst h =
    let (rest, e, n) = transparent_message-encode s dst h in
    ap (λ (b : Bytes). record { session = s; cmd = start_tcp; payload = b })
      (ap₂ take n e ∙ take-length_append (encode (request_of dst)) rest)

-- A transparent client connects to the address `dst`, of 4 or 16 bytes with a port of two, and sends
-- data, in reads of at most 4096 bytes. What its relay of session `s`, below 2 ^ 32, hands to the TLS
-- relay is a start, which can be sent, and the reads, up to the stop at the end of the connection.
-- Where they stand on a stream, `ds` in all, among messages of other sessions, each sendable, of a TCP
-- session, and each start naming a host and a service in full, a new remote server reads the stream,
-- given at least as many rounds. While it handles what it reads, its relays run their handlers, end
-- their writes and complete their starts, in any order. If all of it completes, and at the end the
-- session is registered with a relay that has nothing under way, that relay is for the address and
-- port `dst` as text, and has written exactly what was read from the client, in the same pieces and
-- order.
pub start_transparent-wire :
    (t : AddressText) (s : ℕ) (dst : Sockaddr) (chunks : List Bytes) (ds : List RelayData) (n : ℕ)
    (es : List SystemEvent) (w : World) (p : ℕ)
    → IsSockaddr dst
    → s < 2 ^ 32
    → AllFit chunks
    → of_session s (map (λ d. seen d) ds) ≡ start_seen s (request_of dst) ∷ data_seens s chunks
    → AllSendable ds
    → AllTunnels t (map (λ d. seen d) ds)
    → length ds ≤ n
    → AllFaultless es
    → messages_in es ≡ read_messages n (write_messages ds)
    → system_run t es (new_manager remote_server) ≡ completed w
    → lookup s w.relays ≡ some (some p)
    → IsQuiet (w.objects p).relay
    → (requests_of ((start_transparent true s (some dst)).0 ++ start_read s chunks)
        ≡ (transparent_message s dst ∷ chunk_messages s chunks) ++ for_command s stop_tcp ∷ [])
      × AllSendable (transparent_message s dst ∷ chunk_messages s chunks)
      × (map (λ d. seen d) (transparent_message s dst ∷ chunk_messages s chunks)
          ≡ of_session s (map (λ d. seen d) ds))
      × ((w.objects p).host ≡ host_text t (request_of dst))
      × ((w.objects p).service ≡ t.int_text (port_number (port_bytes (request_of dst)) 0))
      × (map (λ d. data_buffer d) (w.objects p).relay.wire ≡ chunks)
unfolding start_transparent
start_transparent-wire t s dst chunks ds n es w p h y f e k q z x i u v j =
    let (host, service, written) =
      client_wire t s (request_of dst) chunks ds n es w p (request_of-IsRequest dst h) e k q z x i u
        v j in
    let (good, named) = transparent_message-IsMessage s dst y h in
    (
      ap (◌∷◌ (transparent_message s dst)) (start_read-chunk_messages s chunks),
      (good, named, chunk_messages-AllSendable s chunks y f),
      ap₂ (λ x xs. x ∷ xs) (seen-transparent_message s dst h) (seen-chunk_messages s chunks f)
          ∙ sym e,
      host,
      service,
      written,
    )
