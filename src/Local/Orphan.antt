-- ===== src/Local/Orphan.antt =====
-- Raw relays whose manager is gone, src/raw_tcp.cpp: `manager` is a weak pointer, and `lock()` then gives
-- a null pointer. It does not come back.
use ssl_socks.Base.{
  ℕ, zero, suc, ◌<◌, ◌≡◌, refl, ap, ◌∙◌, Bool, true, List, [], ◌∷◌, ◌++◌, arith, ltb, leb,
  if◌then◌else◌, length, take, Bytes,
}
use ssl_socks.Data.{stop_tcp, for_command}
use ssl_socks.Local.{
  Action, sends_request, stops_relay, resets, caught_with, chunk_message, start_read,
}
use ssl_socks.Local.Stream.{requests_of}
use ssl_socks.Tunnel.Messages.{chunk_messages}

-- How a coroutine ends: in its catch, by a return, or by a call through the null pointer.
pub data OrphanEnd : Type 0 where
  in_catch by_return by_fault : OrphanEnd

-- impl_start_read(), where the manager is there for so many more reads. The test of the pointer has an
-- empty body.
unfoldable pub read_while : ℕ → ℕ → List Bytes → List Action × OrphanEnd
unfolding caught_with chunk_message
read_while managed s [] = (caught_with (ltb 0 managed) s, in_catch)
read_while zero s (chunk ∷ chunks) = ([], by_fault)
read_while (suc managed) s (chunk ∷ chunks) =
    let (acts, how) = read_while managed s chunks in
    (sends_request (chunk_message s chunk) ∷ (resets ∷ acts), how)

-- What is done with the reads.
abbrev pub read_actions : ℕ → List Bytes → List Action
read_actions s [] = []
read_actions s (chunk ∷ chunks) =
    sends_request (chunk_message s chunk) ∷ (resets ∷ read_actions s chunks)

-- What is done behind `n` reads, of which so many may find the manager: it is told to stop the session
-- if it is there still, the relay stops if no read came without it, and nothing is done otherwise.
abbrev pub after_reads : ℕ → ℕ → ℕ → List Action
after_reads (suc managed) s (suc n) = after_reads managed s n
after_reads (suc managed) s zero = sends_request (for_command s stop_tcp) ∷ (stops_relay ∷ [])
after_reads zero s zero = stops_relay ∷ []
after_reads zero s (suc n) = []

-- The reads that find the manager, and the end.
abbrev pub OrphanReads : ℕ → ℕ → List Bytes → Type 0
OrphanReads managed s chunks =
    (requests_of (read_while managed s chunks).0
      ≡ chunk_messages s (take managed chunks)
        ++ (if ltb (length chunks) managed then for_command s stop_tcp ∷ [] else []))
    × ((read_while managed s chunks).1
        ≡ (if leb (length chunks) managed then in_catch else by_fault))
    × ((read_while managed s chunks).0
        ≡ read_actions s (take managed chunks) ++ after_reads managed s (length chunks))

ltb-suc : (n k : ℕ) → ltb n k ≡ ltb (suc n) (suc k)
ltb-suc n k = ground arith

ltb-suc_zero : (k : ℕ) → ltb 0 (suc k) ≡ true
ltb-suc_zero k = ground arith

pub leb_both : (n k : ℕ) → leb n k ≡ leb (suc n) (suc k)
leb_both n k = ground arith

-- While the manager is there, what is read is handed to it, in order. If it outlives the reads and
-- the error that ends them, it is told to stop the session as well; if it is gone when that error comes,
-- the relay only stops; and if it is gone when something is read, there is a call through the null
-- pointer.
pub read_while-OrphanReads : (managed s : ℕ) (chunks : List Bytes) → OrphanReads managed s chunks
unfolding read_while caught_with
read_while-OrphanReads zero s [] = (refl, refl, refl)
read_while-OrphanReads (suc managed) s [] =
    (ground arith, ground arith, ap (λ b. caught_with b s) (ltb-suc_zero managed))
read_while-OrphanReads zero s (chunk ∷ chunks) = (ground arith, ground arith, refl)
read_while-OrphanReads (suc managed) s (chunk ∷ chunks) =
    let h = read_while-OrphanReads managed s chunks in
    (
      ap (◌∷◌ (chunk_message s chunk)) h.0
          ∙ ap
              (λ (b : Bool).
                chunk_message s chunk
                ∷ (chunk_messages s (take managed chunks)
                    ++ (if b then for_command s stop_tcp ∷ [] else [])))
              (ltb-suc (length chunks) managed),
      h.1 ∙ ap (λ (b : Bool). if b then in_catch else by_fault) (leb_both (length chunks) managed),
      ap (λ acts. sends_request (chunk_message s chunk) ∷ (resets ∷ acts)) h.2,
    )

-- With a manager that outlives the connection this is what start_read does.
pub read_while-start_read :
    (managed s : ℕ) (chunks : List Bytes)
    → length chunks < managed
    → read_while managed s chunks ≡ (start_read s chunks, in_catch)
unfolding read_while caught_with start_read
read_while-start_read (suc managed) s [] h =
    ap (λ b. (caught_with b s, in_catch)) (ltb-suc_zero managed)
read_while-start_read zero s chunks h = absurd (omega arith)
read_while-start_read (suc managed) s (chunk ∷ chunks) h =
    ap
      (λ (p : List Action × OrphanEnd).
        (sends_request (chunk_message s chunk) ∷ (resets ∷ p.0), p.1))
      (read_while-start_read managed s chunks (omega (arith, h)))
