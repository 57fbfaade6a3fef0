-- ===== src/Manager/Timer/Expiry/Counting.antt =====
-- How sweeps count down, src/relay_manager.cpp (start_timer).
use ssl_socks.Address.{Sockaddr}
use ssl_socks.Base.{
  ℕ, zero, suc, ◌-◌, ◌≤◌, ◌≡◌, refl, ap, subst, inl, inr, true, Option, none, some, List, [], ◌∷◌,
  arith, leb, ◌==◌, ==_iff, Bool-cases, either_branch,
}
use ssl_socks.Manager.Timer.{count_down, sweep_relays}
use ssl_socks.Manager.Timer.Sweep.{survivors}
use ssl_socks.Manager.World.{Object, UdpTimeout, World, call}
use ssl_socks.Manager.World.Calls.{call_self}
use ssl_socks.Relay.{Relay, timeout_down}
use ssl_socks.Relay.Timeout.{timeout_down_lem}

-- The countdowns of the relays that a table points to, and of sources.
abbrev pub AllRelays : ℕ → (ℕ → Object) → List (ℕ × Option ℕ) → Type 0
AllRelays n f [] = Unit {0}
AllRelays n f ((s, none) ∷ m) = AllRelays n f m
AllRelays n f ((s, some p) ∷ m) = ((f p).relay.timeout ≤ n) × AllRelays n f m

abbrev pub AllSources : ℕ → List (Sockaddr × UdpTimeout) → Type 0
AllSources n [] = Unit {0}
AllSources n ((e, u) ∷ m) = (u.timeout ≤ n) × AllSources n m

-- Relays and sources that are left for at most so many rounds; with none left there is none.
abbrev pub RelaysFor : ℕ → (ℕ → Object) → List (ℕ × Option ℕ) → Type 0
RelaysFor zero f m = m ≡ []
RelaysFor (suc n) f m = AllRelays (suc n) f m

abbrev pub SourcesFor : ℕ → List (Sockaddr × UdpTimeout) → Type 0
SourcesFor zero m = m ≡ []
SourcesFor (suc n) m = AllSources (suc n) m

abbrev pub Lowers : (ℕ → Object) → (ℕ → Object) → Type 0
Lowers f g = (q : ℕ) → (g q).relay.timeout ≤ (f q).relay.timeout

pub AllRelays-Lowers :
    (n : ℕ) (f g : ℕ → Object) (m : List (ℕ × Option ℕ))
    → Lowers f g
    → AllRelays n f m
    → AllRelays n g m
AllRelays-Lowers n f g [] l h = tt
AllRelays-Lowers n f g ((s, none) ∷ m) l h = AllRelays-Lowers n f g m l h
AllRelays-Lowers n f g ((s, some p) ∷ m) l h =
    (omega (arith, l p, h.0), AllRelays-Lowers n f g m l h.1)

pub call-Lowers :
    (p : ℕ) (f : Relay → Relay) (w : World)
    → ((r : Relay) → (f r).timeout ≤ r.timeout)
    → Lowers w.objects (call p f w).objects
unfolding call
call-Lowers p f w h q = elim (Bool-cases (p == q)) [
  | inl e ↦ rw e (
      subst (λ x. (f (w.objects p).relay).timeout ≤ (w.objects x).relay.timeout) ((==_iff p q).0 e)
        (h (w.objects p).relay))
  | inr n ↦ rw n (omega arith)
]

pub timeout_down-lowers : (r : Relay) → (timeout_down r).0.timeout ≤ r.timeout
timeout_down-lowers r = rw (timeout_down_lem r) (omega arith)

-- The sweep of the relays.
pub sweep_relays-Lowers :
    (m : List (ℕ × Option ℕ)) (w : World) → Lowers w.objects (sweep_relays m w).objects
unfolding sweep_relays count_down
sweep_relays-Lowers [] w q = omega arith
sweep_relays-Lowers ((s, none) ∷ m) w q = sweep_relays-Lowers m w q
sweep_relays-Lowers ((s, some p) ∷ m) w q =
    let w' = call p (λ r. (timeout_down r).0) w in
    let l : ((sweep_relays m w').objects q).relay.timeout ≤ (w.objects q).relay.timeout = omega (
      arith,
      call-Lowers p (λ r. (timeout_down r).0) w timeout_down-lowers q,
      sweep_relays-Lowers m w' q,
    ) in
    either_branch (λ (v : World). (v.objects q).relay.timeout ≤ (w.objects q).relay.timeout)
      ((timeout_down (w.objects p).relay).1 == 0) l l

pub counted :
    (n p : ℕ) (w : World)
    → (w.objects p).relay.timeout ≤ suc n
    → ((call p (λ r. (timeout_down r).0) w).objects p).relay.timeout ≤ n
counted n p w h = omega (
  arith,
  h,
  ap (λ o. o.relay.timeout) (call_self p (λ r. (timeout_down r).0) w),
  ap (λ r. r.timeout) (timeout_down_lem (w.objects p).relay),
)

pub sweep_relays-AllRelays :
    (n : ℕ) (m : List (ℕ × Option ℕ)) (w : World)
    → AllRelays (suc n) w.objects m
    → AllRelays n (sweep_relays m w).objects (sweep_relays m w).relays
unfolding sweep_relays count_down
sweep_relays-AllRelays n [] w h = tt
sweep_relays-AllRelays n ((s, none) ∷ m) w h = sweep_relays-AllRelays n m w h
sweep_relays-AllRelays n ((s, some p) ∷ m) w h =
    let w' = call p (λ r. (timeout_down r).0) w in
    let rest = sweep_relays-AllRelays n m w' (
      AllRelays-Lowers (suc n) w.objects w'.objects m
        (call-Lowers p (λ r. (timeout_down r).0) w timeout_down-lowers) h.1) in
    either_branch (λ (v : World). AllRelays n v.objects v.relays)
      ((timeout_down (w.objects p).relay).1 == 0) rest
      (omega (arith, counted n p w h.0, sweep_relays-Lowers m w' p), rest)

pub timeout_down-last : (r : Relay) → r.timeout ≤ 1 → (timeout_down r).1 ≡ 0
unfolding timeout_down
timeout_down-last r h = ground arith

pub sweep_relays-last :
    (m : List (ℕ × Option ℕ)) (w : World) → AllRelays 1 w.objects m → (sweep_relays m w).relays ≡ []
unfolding sweep_relays count_down
sweep_relays-last [] w h = refl
sweep_relays-last ((s, none) ∷ m) w h = sweep_relays-last m w h
sweep_relays-last ((s, some p) ∷ m) w h =
    let w' = call p (λ r. (timeout_down r).0) w in
    rw (timeout_down-last (w.objects p).relay h.0) (
      sweep_relays-last m w' (
        AllRelays-Lowers 1 w.objects w'.objects m
          (call-Lowers p (λ r. (timeout_down r).0) w timeout_down-lowers) h.1))

pub sweep_relays-RelaysFor :
    (n : ℕ) (m : List (ℕ × Option ℕ)) (w : World)
    → AllRelays (suc n) w.objects m
    → RelaysFor n (sweep_relays m w).objects (sweep_relays m w).relays
sweep_relays-RelaysFor zero m w h = sweep_relays-last m w h
sweep_relays-RelaysFor (suc n) m w h = sweep_relays-AllRelays (suc n) m w h

-- The sweep of the sources.
pub survivors-AllSources :
    (n : ℕ) (m : List (Sockaddr × UdpTimeout)) → AllSources (suc n) m → AllSources n (survivors m)
unfolding survivors
survivors-AllSources n [] h = tt
survivors-AllSources n ((e, u) ∷ m) h =
    let rest = survivors-AllSources n m h.1 in
    either_branch (AllSources n) (leb (u.timeout - 1) 0) rest (omega (arith, h.0), rest)

pub over_at_last : (t : ℕ) → t ≤ 1 → leb (t - 1) 0 ≡ true
over_at_last t h = ground arith

pub survivors-last : (m : List (Sockaddr × UdpTimeout)) → AllSources 1 m → survivors m ≡ []
unfolding survivors
survivors-last [] h = refl
survivors-last ((e, u) ∷ m) h = rw (over_at_last u.timeout h.0) (survivors-last m h.1)

pub survivors-SourcesFor :
    (n : ℕ) (m : List (Sockaddr × UdpTimeout)) → AllSources (suc n) m → SourcesFor n (survivors m)
survivors-SourcesFor zero m h = survivors-last m h
survivors-SourcesFor (suc n) m h = survivors-AllSources (suc n) m h
