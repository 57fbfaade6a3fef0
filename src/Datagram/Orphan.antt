-- ===== src/Datagram/Orphan.antt =====
-- A raw_udp relay whose manager goes, src/raw_udp.cpp (impl_start_recv): the pointer that `lock()` gives is
-- not tested.
use ssl_socks.Address.{Sockaddr}
use ssl_socks.Base.{
  ℕ, zero, suc, ◌≤◌, ◌≡◌, refl, ap, ◌∙◌, ap₂, Bool, List, [], ◌∷◌, arith, leb, if◌then◌else◌,
  length, take, Bytes,
}
use ssl_socks.Datagram.{received, received_holds}
use ssl_socks.Datagram.Start.{
  UdpAction, receives_next, stops_udp, requests_udp, start_recv, datagrams_of, expected_datagrams,
  AllDatagrams,
}
use ssl_socks.Local.Orphan.{OrphanEnd, in_catch, by_fault, leb_both}

-- impl_start_recv(), where the manager is there for so many more datagrams.
unfoldable pub recv_while : ℕ → ℕ → List (Bytes × Sockaddr) → List UdpAction × OrphanEnd
unfolding received
recv_while managed s [] = (receives_next ∷ (stops_udp ∷ []), in_catch)
recv_while zero s ((payload, peer) ∷ rest) = (receives_next ∷ [], by_fault)
recv_while (suc managed) s ((payload, peer) ∷ rest) =
    let (acts, how) = recv_while managed s rest in
    (receives_next ∷ (requests_udp (received s payload peer) ∷ acts), how)

-- The datagrams of at most 4077 bytes that reach the relay of a session come to the manager whole, in
-- the order in which they were received, with that session and their senders, up to as many as find
-- the manager there. If all do, the loop ends in its catch; the first that does not makes it call through
-- the null pointer.
pub recv_while-datagrams :
    (managed s : ℕ) (incoming : List (Bytes × Sockaddr))
    → AllDatagrams incoming
    → (datagrams_of (recv_while managed s incoming).0
        ≡ expected_datagrams s (take managed incoming))
      × ((recv_while managed s incoming).1
          ≡ (if leb (length incoming) managed then in_catch else by_fault))
unfolding recv_while
recv_while-datagrams zero s [] h = (refl, refl)
recv_while-datagrams (suc managed) s [] h = (refl, ground arith)
recv_while-datagrams zero s ((payload, peer) ∷ rest) h = (refl, ground arith)
recv_while-datagrams (suc managed) s ((payload, peer) ∷ rest) h =
    let (a, p) = received_holds s payload peer h.0 h.1 in
    let (got, ends) = recv_while-datagrams managed s rest h.2 in
    (
      ap₂ (λ x xs. x ∷ xs) (ap₂ (λ q b. (s, q, b)) p a) got,
      ends ∙ ap (λ (b : Bool). if b then in_catch else by_fault) (leb_both (length rest) managed),
    )

-- With a manager that outlives the relay this is what start_recv does.
pub recv_while-start_recv :
    (managed s : ℕ) (incoming : List (Bytes × Sockaddr))
    → length incoming ≤ managed
    → recv_while managed s incoming ≡ (start_recv s incoming, in_catch)
unfolding recv_while start_recv
recv_while-start_recv managed s [] h = refl
recv_while-start_recv zero s (x ∷ rest) h = absurd (omega (arith, h))
recv_while-start_recv (suc managed) s ((payload, peer) ∷ rest) h =
    ap
      (λ (p : List UdpAction × OrphanEnd).
        (receives_next ∷ (requests_udp (received s payload peer) ∷ p.0), p.1))
      (recv_while-start_recv managed s rest (omega (arith, h)))
