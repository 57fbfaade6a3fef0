-- ===== src/Manager/Timer/Expiry/Unchanged.antt =====
-- What sweeps leave alone, src/relay_manager.cpp (start_timer).
use ssl_socks.Address.{Sockaddr, endpoint_eq}
use ssl_socks.Base.{
  ℕ, ◌-◌, ◌≤◌, ◌≡◌, refl, ap, ◌∙◌, Option, none, some, List, [], ◌∷◌, arith, leb, ◌==◌,
  either_branch, nat_eq, erase,
}
use ssl_socks.Manager.Run.Kept.{Ensures, Ensures-and_then, Ensures-map}
use ssl_socks.Manager.Timer.{del_peer_of, sweep_srcs, count_down, sweep_relays}
use ssl_socks.Manager.Timer.Expiry.Counting.{Lowers, call-Lowers}
use ssl_socks.Manager.World.{UdpTimeout, World, completed, fault, call}
use ssl_socks.Relay.{del_peer_task, Relay, post, timeout_down}

-- What a round leaves alone, on a server that is not remote.
pub record Steady (w w' : World) : Type 0 where
  pub lowers : Lowers w.objects w'.objects
  pub type_same : w'.type ≡ w.type
  pub udp_same : w'.udp_send ≡ w.udp_send
  pub state_same : w'.state ≡ w.state

pub Steady-trans : (u v w : World) → Steady u v → Steady v w → Steady u w
Steady-trans u v w g h = record {
  lowers = λ q. omega (arith, g.lowers q, h.lowers q);
  type_same = h.type_same ∙ g.type_same;
  udp_same = h.udp_same ∙ g.udp_same;
  state_same = h.state_same ∙ g.state_same;
}

pub Steady-call :
    (p : ℕ) (f : Relay → Relay) (w : World)
    → ((r : Relay) → (f r).timeout ≤ r.timeout)
    → Steady w (call p f w)
Steady-call p f w h = record {
  lowers = call-Lowers p f w h;
  type_same = unfold call in refl;
  udp_same = unfold call in refl;
  state_same = unfold call in refl;
}

pub del_peer_of-Steady : (s : ℕ) (w : World) → Ensures (Steady w) (del_peer_of s w)
unfolding del_peer_of
del_peer_of-Steady s w =
    elim w.udp_send
      as (λ o.
        Ensures (Steady w)
          (elim o [ none ↦ fault | some p ↦ completed (call p (post (del_peer_task s)) w) ])) [
            | none ↦ tt
            | some p ↦ Steady-call p (post (del_peer_task s)) w (λ r. omega arith)
          ]

pub Steady-refl :
    (w v : World)
    → v.objects ≡ w.objects
    → v.type ≡ w.type
    → v.udp_send ≡ w.udp_send
    → v.state ≡ w.state
    → Steady w v
Steady-refl w v a b c d = record {
  lowers = λ q. omega (arith, ap (λ f. (f q).relay.timeout) a);
  type_same = b;
  udp_same = c;
  state_same = d;
}

pub sweep_srcs-Steady :
    (m : List (Sockaddr × UdpTimeout)) (w : World) → Ensures (Steady w) (sweep_srcs m w)
unfolding sweep_srcs
sweep_srcs-Steady [] w = Steady-refl w _ refl refl refl refl
sweep_srcs-Steady ((e, u) ∷ m) w =
    let w0 : World = record w { udp_srcs = erase u.session w.udp_srcs } in
    either_branch (Ensures (Steady w)) (leb (u.timeout - 1) 0)
      (Ensures-and_then (Steady w) (del_peer_of u.session w0) (sweep_srcs m)
        (Ensures-map (Steady w0) (Steady w) (del_peer_of u.session w0)
          (λ v g. Steady-trans w w0 v (Steady-refl w w0 refl refl refl refl) g)
          (del_peer_of-Steady u.session w0))
        (λ w' h'.
          Ensures-map (Steady w') (Steady w) (sweep_srcs m w') (λ v g. Steady-trans w w' v h' g)
            (sweep_srcs-Steady m w')))
      (Ensures-and_then (Steady w) (sweep_srcs m w) _ (sweep_srcs-Steady m w)
        (λ w' h'. Steady-trans w w' _ h' (Steady-refl w' _ refl refl refl refl)))

abbrev pub RestSame : World → World → Type 0
RestSame w v =
    (v.type ≡ w.type) × (v.udp_send ≡ w.udp_send) × (v.state ≡ w.state) × (v.srcs ≡ w.srcs)

pub sweep_relays-RestSame : (m : List (ℕ × Option ℕ)) (w : World) → RestSame w (sweep_relays m w)
unfolding sweep_relays count_down call
sweep_relays-RestSame [] w = (refl, refl, refl, refl)
sweep_relays-RestSame ((s, none) ∷ m) w = sweep_relays-RestSame m w
sweep_relays-RestSame ((s, some p) ∷ m) w =
    let w' = call p (λ r. (timeout_down r).0) w in
    let same = sweep_relays-RestSame m w' in
    either_branch (RestSame w) ((timeout_down (w.objects p).relay).1 == 0) same same
