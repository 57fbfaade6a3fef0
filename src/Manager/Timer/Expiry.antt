-- ===== src/Manager/Timer/Expiry.antt =====
-- What the rounds of the timer leave where nothing else happens, src/relay_manager.cpp (start_timer).
pub mod Counting
pub mod Unchanged
use ssl_socks.Base.{
  ℕ, zero, suc, ◌≤◌, ◌≡◌, refl, sym, ap, ◌∙◌, subst, Bool, false, Option, none, some, List, [], ◌∷◌,
  arith, ◌==◌, if◌then◌else◌, if_false, either_branch,
}
use ssl_socks.Manager.Response.{and_then}
use ssl_socks.Manager.Run.Kept.{Ensures}
use ssl_socks.Manager.Timer.{
  del_peer_of, sweep_srcs, count_down, sweep_relays, sweeps, timer_round, timer,
}
use ssl_socks.Manager.Timer.Expiry.Counting.{
  AllRelays, AllSources, RelaysFor, SourcesFor, AllRelays-Lowers, call-Lowers, timeout_down-lowers,
  sweep_relays-RelaysFor, survivors-SourcesFor,
}
use ssl_socks.Manager.Timer.Expiry.Unchanged.{Steady, sweep_srcs-Steady, sweep_relays-RestSame}
use ssl_socks.Manager.Timer.Sweep.{Swept, del_peer_of_lem, sweep_srcs-Swept}
use ssl_socks.Manager.World.{World, Outcome, completed, call, stop_manager, is_remote}
use ssl_socks.Relay.{is_stop, full_timeout, del_peer_task, Relay, post, timeout_down}

-- What is left for so many more rounds, on a server that is not remote and has a relay of local
-- datagrams.
record Aged (n p : ℕ) (w : World) : Type 0 where
  relays_for : RelaysFor n w.objects w.relays
  sources_for : SourcesFor n w.srcs
  local : is_remote w.type ≡ false
  udp : w.udp_send ≡ some p
  active : is_stop w.state ≡ false

abbrev Round : ℕ → ℕ → Outcome → Type 0
Round n p o = (w' : World) × (o ≡ completed w') × Aged n p w'

completed-Ensures :
    (P : World → Type 0) (o : Outcome) (w : World) → o ≡ completed w → Ensures P o → P w
completed-Ensures P o w e h = subst (Ensures P) e h

sweeps-Round : (n p : ℕ) (w : World) → Aged (suc n) p w → Round n p (sweeps w)
unfolding sweeps Swept
sweeps-Round n p w h =
    let (v, done, srcs, sessions, tasks, relays) = sweep_srcs-Swept p w.srcs w h.udp in
    let steady =
      completed-Ensures (Steady w) (sweep_srcs w.srcs w) v done (sweep_srcs-Steady w.srcs w) in
    let w' = sweep_relays v.relays v in
    let same = sweep_relays-RestSame v.relays v in
    (
      w',
      ap (λ o. and_then o (λ x. completed (sweep_relays x.relays x))) done,
      (record {
        relays_for = sweep_relays-RelaysFor n v.relays v (
            subst (AllRelays (suc n) v.objects) (sym relays)
              (AllRelays-Lowers (suc n) w.objects v.objects w.relays steady.lowers h.relays_for));
        sources_for =
            subst (SourcesFor n) (sym (same.3 ∙ srcs))
              (survivors-SourcesFor n w.srcs h.sources_for);
        local = ap (λ k. is_remote k) (same.0 ∙ steady.type_same) ∙ h.local;
        udp = same.1 ∙ steady.udp_same ∙ h.udp;
        active = ap (λ k. is_stop k) (same.2 ∙ steady.state_same) ∙ h.active;
      }),
    )

call-Aged :
    (n q p : ℕ) (f : Relay → Relay) (w : World)
    → ((r : Relay) → (f r).timeout ≤ r.timeout)
    → Aged (suc n) p w
    → Aged (suc n) p (call q f w)
unfolding call
call-Aged n q p f w l h = record {
  relays_for =
      AllRelays-Lowers (suc n) w.objects (call q f w).objects w.relays (call-Lowers q f w l)
        h.relays_for;
  sources_for = h.sources_for;
  local = h.local;
  udp = h.udp;
  active = h.active;
}

-- The TLS relay has run out of time: the sources are forgotten, and the relay of local datagrams told.
forgotten-Round :
    (n p : ℕ) (w : World)
    → Aged (suc n) p w
    → Round n p (and_then (del_peer_of 0 (record w { udp_srcs = []; srcs = [] })) sweeps)
forgotten-Round n p w h =
    let w0 : World = record w { udp_srcs = []; srcs = [] } in
    let (w', done, aged) = sweeps-Round n p (call p (post (del_peer_task 0)) w0) (
      call-Aged n p p (post (del_peer_task 0)) w0 (λ r. omega arith)
        (record {
          relays_for = h.relays_for;
          sources_for = tt;
          local = h.local;
          udp = h.udp;
          active = h.active;
        })) in
    (w', ap (λ o. and_then o sweeps) (del_peer_of_lem 0 p w0 h.udp) ∙ done, aged)

timer_round-Round : (n p : ℕ) (w : World) → Aged (suc n) p w → Round n p (timer_round w)
unfolding timer_round count_down
timer_round-Round n p w h =
    elim w.ssl
      as (λ o. Round n p (elim o [
        | none ↦ sweeps w
        | some q ↦
            let (w', left) = count_down q w in
            if left == 0
            then (if is_remote w.type
                then completed (stop_manager w')
                else and_then (del_peer_of 0 (record w' { udp_srcs = []; srcs = [] })) sweeps)
            else sweeps w'
      ])) [
        | none ↦ sweeps-Round n p w h
        | some q ↦
            let w' = call q (λ r. (timeout_down r).0) w in
            let h' = call-Aged n q p (λ r. (timeout_down r).0) w timeout_down-lowers h in
            either_branch (Round n p) ((timeout_down (w.objects q).relay).1 == 0)
              (subst
                (λ (b : Bool). Round n p (
                  if b
                  then completed (stop_manager w')
                  else and_then (del_peer_of 0 (record w' { udp_srcs = []; srcs = [] })) sweeps))
                (sym h.local) (forgotten-Round n p w' h'))
              (sweeps-Round n p w' h')
      ]

timer-Round : (n p : ℕ) (w : World) → Aged n p w → Round 0 p (timer n w)
unfolding timer
timer-Round zero p w h = (w, refl, h)
timer-Round (suc n) p w h =
    let (v, done, aged) = timer_round-Round n p w h in
    let (w', rest, last) = timer-Round n p v aged in
    (
      w',
      if_false (completed w) (and_then (timer_round w) (timer n)) h.active
          ∙ ap (λ o. and_then o (timer n)) done
          ∙ rest,
      last,
    )

-- On a server that is not remote and has a relay of local datagrams, and whose manager runs, nine
-- rounds of the timer with nothing between them complete, and leave no session of a relay and no source
-- of datagrams, provided that no countdown was above TIMEOUT.
pub timer-forgets :
    (p : ℕ) (w : World)
    → is_remote w.type ≡ false
    → w.udp_send ≡ some p
    → is_stop w.state ≡ false
    → ((q : ℕ) → (w.objects q).relay.timeout ≤ full_timeout)
    → AllSources full_timeout w.srcs
    → (w' : World) × (timer full_timeout w ≡ completed w') × (w'.relays ≡ []) × (w'.srcs ≡ [])
timer-forgets p w l u r f h =
    let (w', done, last) = timer-Round full_timeout p w (record {
      relays_for = all_relays w.relays;
      sources_for = h;
      local = l;
      udp = u;
      active = r;
    }) in
    (w', done, last.relays_for, last.sources_for)
  where
    all_relays : (m : List (ℕ × Option ℕ)) → AllRelays full_timeout w.objects m
    all_relays [] = tt
    all_relays ((s, none) ∷ m) = all_relays m
    all_relays ((s, some q) ∷ m) = (f q, all_relays m)
