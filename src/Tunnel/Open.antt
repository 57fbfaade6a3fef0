-- ===== src/Tunnel/Open.antt =====
-- States of the manager in which each session has a relay that runs, src/relay_manager.cpp.
use ssl_socks.Base.{
  ℕ, ◌≤◌, ◌<◌, ◌≡◌, refl, sym, ap, ◌∙◌, subst, ◌⊎◌, inl, inr, false, none, some, arith, ◌==◌,
  ==_iff, Bool-cases, nat_eq, lookup,
}
use ssl_socks.Data.{RelayData}
use ssl_socks.Manager.Run.Registered.{Fits}
use ssl_socks.Manager.World.{Object, World}
use ssl_socks.Relay.{is_stop, RelayKind, Relay, new_relay, send_data, calls_send, step}
use ssl_socks.Relay.Calm.{Unstopped, step-Unstopped}

-- A session is not there, or has a relay that was made for it, and that is neither stopped nor told to
-- stop.
abbrev pub RunsOrNot : World → ℕ → Type 0
RunsOrNot w x =
    (lookup x w.relays ≡ none)
    ⊎ ((p : ℕ) × (lookup x w.relays ≡ some (some p))
        × Fits w x (some p)
        × Unstopped (w.objects p).relay)

-- Each session that is there has a running relay of its own.
abbrev pub IsOpen : World → Type 0
IsOpen w = (x : ℕ) → RunsOrNot w x

-- A change of one session.
pub IsOpen-one :
    (w w' : World) (s : ℕ)
    → IsOpen w
    → w.next ≤ w'.next
    → ((x : ℕ) → (s == x) ≡ false → lookup x w'.relays ≡ lookup x w.relays)
    → ((x q : ℕ)
        → (s == x) ≡ false
        → q < w.next
        → (w.objects q).session ≡ x
        → w'.objects q ≡ w.objects q)
    → RunsOrNot w' s
    → IsOpen w'
IsOpen-one w w' s h l e f own x = elim (Bool-cases (s == x)) [
  | inl same ↦ subst (RunsOrNot w') ((==_iff s x).0 same) own
  | inr other ↦ elim (h x) [
    | inl absent ↦ inl (e x other ∙ absent)
    | inr (q, here, fits, alive) ↦
        let kept = f x q other fits.0 fits.1 in
        inr (
          q,
          e x other ∙ here,
          (omega (arith, l, fits.0), ap (λ o. o.session) kept ∙ fits.1),
          subst (λ (o : Object). Unstopped o.relay) (sym kept) alive,
        )
  ]
]

-- A message handed to a relay.
pub send_data-Unstopped : (b : RelayData) (r : Relay) → Unstopped r → Unstopped (send_data b r)
unfolding step
send_data-Unstopped b r u = step-Unstopped r (calls_send b) tt u

pub new_relay-Unstopped : (k : RelayKind) → Unstopped (new_relay k)
unfolding new_relay is_stop
new_relay-Unstopped k = record { state_ne = refl; tasks_ne = refl }
