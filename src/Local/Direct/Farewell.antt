-- ===== src/Local/Direct/Farewell.antt =====
-- What a direct relay tells the manager, src/raw_tcp.cpp (the catch of impl_local_relay).
-- The farewell of a loop, if it has ended.
use ssl_socks.Base.{ℕ, ◌≡◌, refl, ap, ◌∙◌, Bool, true, false, List, [], ◌∷◌, ◌++◌, append-nil}
use ssl_socks.Local.{Action, give_up}
use ssl_socks.Local.Direct.{
  Line, LineEvent, line_reads, line_writes, line_breaks, line_step, Direct, new_direct, farewell,
  direct_step, direct_run,
}

abbrev pub ended : ℕ → Bool → List Action
ended s true = []
ended s false = give_up s

StaysEnded : Line → Line → Type 0
StaysEnded l l' = l.alive ≡ false → l'.alive ≡ false

line_step-StaysEnded : (e : LineEvent) (l : Line) → StaysEnded l (line_step e l)
unfolding line_step StaysEnded
line_step-StaysEnded (line_reads chunk) l h = rw h refl
line_step-StaysEnded (line_writes n) l h = rw h refl
line_step-StaysEnded line_breaks l h = refl

no_return : true ≡ false → ⊥
no_return e = cc

farewell_lem :
    (s : ℕ) (a b c : Bool)
    → (a ≡ false → b ≡ false)
    → ((ended s a ++ ended s c) ++ farewell s a b ≡ ended s b ++ ended s c)
      × ((ended s c ++ ended s a) ++ farewell s a b ≡ ended s c ++ ended s b)
farewell_lem s true true c h = (append-nil _, append-nil _)
farewell_lem s true false true h = (refl, refl)
farewell_lem s true false false h = (refl, refl)
farewell_lem s false true c h = absurd (no_return (h refl))
farewell_lem s false false c h = (append-nil _, append-nil _)

Told : ℕ → Direct → Type 0
Told s r = r.told ≡ ended s r.to_client.alive ++ ended s r.to_remote.alive

direct_run-Told :
    (s : ℕ) (es : List (Bool × LineEvent)) (r : Direct) → Told s r → Told s (direct_run s es r)
unfolding direct_run direct_step Told StaysEnded
direct_run-Told s [] r h = h
direct_run-Told s ((true, e) ∷ es) r h = direct_run-Told s es (direct_step s true e r) (
    ap (λ told. told ++ farewell s r.to_client.alive (line_step e r.to_client).alive) h
    ∙ (farewell_lem s r.to_client.alive (line_step e r.to_client).alive r.to_remote.alive
        (line_step-StaysEnded e r.to_client)).0)
direct_run-Told s ((false, e) ∷ es) r h = direct_run-Told s es (direct_step s false e r) (
    ap (λ told. told ++ farewell s r.to_remote.alive (line_step e r.to_remote).alive) h
    ∙ (farewell_lem s r.to_remote.alive (line_step e r.to_remote).alive r.to_client.alive
        (line_step-StaysEnded e r.to_remote)).1)

-- After any reads, writes and errors, a direct relay has sent one STOP_TCP of its session and
-- stopped once for each direction that has ended, and has told the manager nothing else.
pub direct_run-ended :
    (s : ℕ) (es : List (Bool × LineEvent))
    → (direct_run s es new_direct).told
      ≡ ended s (direct_run s es new_direct).to_client.alive
        ++ ended s (direct_run s es new_direct).to_remote.alive
unfolding Told
direct_run-ended s es = direct_run-Told s es new_direct refl
