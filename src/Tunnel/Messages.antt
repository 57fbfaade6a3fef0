-- ===== src/Tunnel/Messages.antt =====
-- The messages of a client's connection, src/raw_tcp.cpp, and what they are at the other end.
use ssl_socks.Address.{AddressText, parse_address}
use ssl_socks.Address.Grammar.{Request, IsRequest, encode, meaning, parse_address-encode}
use ssl_socks.Base.{
  ℕ, suc, ◌^◌, ◌≤◌, ◌<◌, ◌≡◌, refl, sym, ap, ◌∙◌, ap₂, false, some, List, [], ◌∷◌, ◌++◌, map,
  append-nil, append_assoc, arith, ◌==◌, ==_refl, if_true, if_false, length, take, write_at,
  take-length_append, length-write_at, take-write_at, Bytes,
}
use ssl_socks.Data.{stop_tcp, start_tcp, RelayData, for_command, IsMessage}
use ssl_socks.Data.Wire.{Seen, seen, IsNamed, AllSendable}
use ssl_socks.Local.{start_message, chunk_message, start_read}
use ssl_socks.Local.Start.{zeros, length-zeros}
use ssl_socks.Local.Stream.{requests_of, AllFit, data_seen, chunk_message-IsMessage, seen_chunk}
use ssl_socks.Tunnel.{Tunnel, Tunnels, pass, tunnel_step, tunnel_run}
use ssl_socks.Tunnel.Ends.{AllTunnels}
use mathlib.Core.Option

-- The messages of start_read, up to the stop.
abbrev pub chunk_messages : ℕ → List Bytes → List RelayData
chunk_messages s [] = []
chunk_messages s (chunk ∷ chunks) = chunk_message s chunk ∷ chunk_messages s chunks

pub start_read-chunk_messages :
    (s : ℕ) (chunks : List Bytes)
    → requests_of (start_read s chunks) ≡ chunk_messages s chunks ++ for_command s stop_tcp ∷ []
unfolding start_read
start_read-chunk_messages s [] = refl
start_read-chunk_messages s (chunk ∷ chunks) =
    ap (◌∷◌ (chunk_message s chunk)) (start_read-chunk_messages s chunks)

pub length-chunk_messages :
    (s : ℕ) (chunks : List Bytes) → length (chunk_messages s chunks) ≡ length chunks
length-chunk_messages s [] = refl
length-chunk_messages s (chunk ∷ chunks) = ap suc (length-chunk_messages s chunks)

abbrev pub data_seens : ℕ → List Bytes → List Seen
data_seens s [] = []
data_seens s (chunk ∷ chunks) = data_seen s chunk ∷ data_seens s chunks

pub seen-chunk_messages :
    (s : ℕ) (chunks : List Bytes)
    → AllFit chunks
    → map (λ d. seen d) (chunk_messages s chunks) ≡ data_seens s chunks
seen-chunk_messages s [] h = refl
seen-chunk_messages s (chunk ∷ chunks) h =
    ap₂ (λ x xs. x ∷ xs) (seen_chunk s chunk h.0) (seen-chunk_messages s chunks h.1)

pub chunk_messages-AllSendable :
    (s : ℕ) (chunks : List Bytes)
    → s < 2 ^ 32
    → AllFit chunks
    → AllSendable (chunk_messages s chunks)
chunk_messages-AllSendable s [] w h = tt
chunk_messages-AllSendable s (chunk ∷ chunks) w h =
    let (m, n) = chunk_message-IsMessage s chunk w h.0 in
    (m, n, chunk_messages-AllSendable s chunks w h.1)

module _ (t : AddressText) (s : ℕ) where
  pub data_seens-AllTunnels : (chunks : List Bytes) → AllTunnels t (data_seens s chunks)
  data_seens-AllTunnels [] = tt
  data_seens-AllTunnels (chunk ∷ chunks) = (tt, data_seens-AllTunnels chunks)

  -- Data fill the tunnel of their session.
  pub run_self :
      (chunks : List Bytes) (v : Tunnels) (n : Tunnel)
      → v s ≡ some n
      → tunnel_run t (data_seens s chunks) v s ≡ some (record n { passed = n.passed ++ chunks })
  run_self [] v n e = e ∙ ap (λ p. some (record n { passed = p })) (sym (append-nil n.passed))
  run_self (chunk ∷ chunks) v n e =
      run_self chunks (tunnel_step t (data_seen s chunk) v) (pass chunk n)
        (if_true (Option.map (pass chunk) (v s)) (v s) (==_refl s) ∙ ap (Option.map (pass chunk)) e)
      ∙ ap (λ p. some (record n { passed = p })) (append_assoc n.passed (chunk ∷ []) chunks)

  pub run_other :
      (chunks : List Bytes) (v : Tunnels) (x : ℕ)
      → (s == x) ≡ false
      → tunnel_run t (data_seens s chunks) v x ≡ v x
  run_other [] v x n = refl
  run_other (chunk ∷ chunks) v x n =
      run_other chunks (tunnel_step t (data_seen s chunk) v) x n
      ∙ if_false (Option.map (pass chunk) (v s)) (v x) n

-- The message of a start.
pub start_message-IsMessage :
    (s : ℕ) (r : Request) (behind : Bytes)
    → s < 2 ^ 32
    → length (encode r) ≤ 509
    → IsMessage (start_message s (encode r ++ behind) (length (encode r)))
      × IsNamed (start_message s (encode r ++ behind) (length (encode r))).cmd
unfolding start_message for_command
start_message-IsMessage s r behind w l = (
  record {
    fits = omega arith;
    buffer = length-write_at 0 (take (length (encode r)) (encode r ++ behind)) zeros ∙ length-zeros;
    word = w;
  },
  tt,
)

abbrev pub start_seen : ℕ → Request → Seen
start_seen s r = record { session = s; cmd = start_tcp; payload = encode r }

pub seen-start_message :
    (s : ℕ) (r : Request) (behind : Bytes)
    → length (encode r) ≤ 509
    → seen (start_message s (encode r ++ behind) (length (encode r))) ≡ start_seen s r
unfolding start_message for_command
seen-start_message s r behind l =
    ap (λ (b : Bytes). record { session = s; cmd = start_tcp; payload = b })
      (ap (λ xs. take (length (encode r)) (write_at 0 xs zeros))
          (take-length_append (encode r) behind)
        ∙ take-write_at (encode r) zeros (omega (arith, length-zeros, l)))

pub start_seen-TunnelsAs :
    (t : AddressText) (r : Request)
    → IsRequest r
    → parse_address t (encode r) (length (encode r)) ≡ meaning t r
start_seen-TunnelsAs t r h =
    ap (λ xs. parse_address t xs (length (encode r))) (sym (append-nil (encode r)))
    ∙ parse_address-encode t r [] (length (encode r)) h (omega arith)
