-- ===== src/Manager/Timer/Sweep.antt =====
-- The sources that a round of the timer lets go, src/relay_manager.cpp (start_timer).
use ssl_socks.Address.{Sockaddr, endpoint_eq}
use ssl_socks.Base.{
  ℕ, ◌-◌, ◌≡◌, refl, sym, ap, ◌∙◌, subst, inl, inr, Bool, none, some, List, [], ◌∷◌, ◌++◌,
  append-nil, append_assoc, leb, if◌then◌else◌, Bool-cases, nat_eq, erase,
}
use ssl_socks.Manager.Request.Delivery.{tasks_of}
use ssl_socks.Manager.Response.{and_then}
use ssl_socks.Manager.Timer.{del_peer_of, sweep_srcs}
use ssl_socks.Manager.World.{UdpTimeout, World, Outcome, completed, fault, call}
use ssl_socks.Manager.World.Calls.{call_self}
use ssl_socks.Relay.{Task, del_peer_task, post}

abbrev is_over : UdpTimeout → Bool
is_over u = leb (u.timeout - 1) 0

-- The sources whose time is not up, one tick later.
unfoldable pub survivors : List (Sockaddr × UdpTimeout) → List (Sockaddr × UdpTimeout)
survivors [] = []
survivors ((e, u) ∷ rest) =
    if is_over u then survivors rest else (e, record u { timeout = u.timeout - 1 }) ∷ survivors rest

-- What the relay of local datagrams is told of the others.
unfoldable pub farewells : List (Sockaddr × UdpTimeout) → List Task
farewells [] = []
farewells ((e, u) ∷ rest) =
    if is_over u then del_peer_task u.session ∷ farewells rest else farewells rest

-- The table of sessions without those of the others.
unfoldable pub forget : List (Sockaddr × UdpTimeout) → List (ℕ × Sockaddr) → List (ℕ × Sockaddr)
forget [] m = m
forget ((e, u) ∷ rest) m = if is_over u then forget rest (erase u.session m) else forget rest m

-- What a sweep of the sources `m` ends with, where `p` is the relay of local datagrams.
unfoldable pub Swept : ℕ → List (Sockaddr × UdpTimeout) → World → Outcome → Type 0
Swept p m w o =
    (w' : World) × (o ≡ completed w')
    × (w'.srcs ≡ survivors m)
    × (w'.udp_srcs ≡ forget m w.udp_srcs)
    × (tasks_of w' p ≡ tasks_of w p ++ farewells m)
    × (w'.relays ≡ w.relays)

pub del_peer_of_lem :
    (s p : ℕ) (w : World)
    → w.udp_send ≡ some p
    → del_peer_of s w ≡ completed (call p (post (del_peer_task s)) w)
unfolding del_peer_of
del_peer_of_lem s p w e =
    subst
      (λ o.
        elim o [ none ↦ fault | some q ↦ completed (call q (post (del_peer_task s)) w) ]
        ≡ completed (call p (post (del_peer_task s)) w))
      (sym e) refl

-- Where there is a relay of local datagrams, a round drops every source whose time is up, and its
-- session, and tells that relay of each, in order; every other source loses one tick. The relays
-- stay registered.
pub sweep_srcs-Swept :
    (p : ℕ) (m : List (Sockaddr × UdpTimeout)) (w : World)
    → w.udp_send ≡ some p
    → Swept p m w (sweep_srcs m w)
unfolding sweep_srcs Swept survivors farewells forget call
sweep_srcs-Swept p [] w e =
    (record w { srcs = [] }, refl, refl, refl, sym (append-nil (tasks_of w p)), refl)
sweep_srcs-Swept p ((s, u) ∷ rest) w e = elim (Bool-cases (is_over u)) [
  | inl over ↦
      let task = post (del_peer_task u.session) in
      let w0 : World = record w { udp_srcs = erase u.session w.udp_srcs } in
      let (w', done, srcs, sessions, tasks, relays) = sweep_srcs-Swept p rest (call p task w0) e in
      rw over (
        w',
        ap (λ o. and_then o (sweep_srcs rest)) (del_peer_of_lem u.session p w0 e) ∙ done,
        srcs,
        sessions,
        tasks
            ∙ ap (λ o. o.relay.tasks ++ farewells rest) (call_self p task w0)
            ∙ append_assoc (tasks_of w p) (del_peer_task u.session ∷ []) (farewells rest),
        relays,
      )
  | inr stays ↦
      let (w', done, srcs, sessions, tasks, relays) = sweep_srcs-Swept p rest w e in
      let kept : Sockaddr × UdpTimeout = (s, record u { timeout = u.timeout - 1 }) in
      rw stays (
        record w' { srcs = kept ∷ w'.srcs },
        ap (λ o. and_then o (λ v. completed (record v { srcs = kept ∷ v.srcs }))) done,
        ap (λ l. kept ∷ l) srcs,
        sessions,
        tasks,
        relays,
      )
]
