-- ===== src/Manager/Timer/Nulls.antt =====
-- What a round of the timer makes of null entries, src/relay_manager.cpp (start_timer).
use ssl_socks.Address.{AddressText}
use ssl_socks.Base.{
  ℕ, ◌≡◌, refl, ◌∙◌, ◌⊎◌, inl, inr, Option, none, some, List, [], ◌∷◌, ◌==◌, Bool-cases, if_true,
  either_branch, nat_eq, lookup,
}
use ssl_socks.Data.{stop_tcp, data_tcp, RelayData}
use ssl_socks.Manager.Response.{data_tcp_response, stop_tcp_response, respond, add_response}
use ssl_socks.Manager.Response.Routing.{
  add_response-by, data_tcp_live, data_tcp_stopped, stop_tcp_known, stop_tcp_unknown,
}
use ssl_socks.Manager.Timer.{count_down, sweep_relays}
use ssl_socks.Manager.World.{World, completed, is_stopped}

-- No session is registered with a null pointer.
unfoldable pub NoNull : List (ℕ × Option ℕ) → Type 0
NoNull [] = Unit {0}
NoNull ((s, none) ∷ rest) = ⊥
NoNull ((s, some p) ∷ rest) = NoNull rest

sweep_relays-NoNull : (m : List (ℕ × Option ℕ)) (w : World) → NoNull (sweep_relays m w).relays
unfolding sweep_relays NoNull
sweep_relays-NoNull [] w = tt
sweep_relays-NoNull ((s, none) ∷ rest) w = sweep_relays-NoNull rest w
sweep_relays-NoNull ((s, some p) ∷ rest) w =
    either_branch {A = World} (λ v. NoNull v.relays) ((count_down p w).1 == 0)
      (sweep_relays-NoNull rest (count_down p w).0) (sweep_relays-NoNull rest (count_down p w).0)

lookup-NoNull :
    (s : ℕ) (m : List (ℕ × Option ℕ))
    → NoNull m
    → (lookup s m ≡ none) ⊎ ((p : ℕ) × (lookup s m ≡ some (some p)))
unfolding NoNull lookup
lookup-NoNull s [] h = inl refl
lookup-NoNull s ((k, none) ∷ rest) h = elim h [ ]
lookup-NoNull s ((k, some p) ∷ rest) h = elim (Bool-cases (k == s)) [
  | inl same ↦ inr (p, if_true (some (some p)) (lookup s rest) same)
  | inr other ↦ rw other (lookup-NoNull s rest h)
]

data_tcp_absent :
    (b : RelayData) (w : World)
    → lookup b.session w.relays ≡ none
    → data_tcp_response b w ≡ completed w
unfolding data_tcp_response
data_tcp_absent b w e = rw (e, data_tcp_response) refl

data_tcp-completes :
    (b : RelayData) (w : World)
    → NoNull w.relays
    → (w' : World) × (data_tcp_response b w ≡ completed w')
data_tcp-completes b w h = elim (lookup-NoNull b.session w.relays h) [
  | inl absent ↦ (w, data_tcp_absent b w absent)
  | inr (p, here) ↦ elim (Bool-cases (is_stopped w p)) [
    | inl stopped ↦ (_, data_tcp_stopped b w p here stopped)
    | inr live ↦ (_, data_tcp_live b w p here live)
  ]
]

stop_tcp-completes :
    (b : RelayData) (w : World)
    → NoNull w.relays
    → (w' : World) × (stop_tcp_response b w ≡ completed w')
stop_tcp-completes b w h = elim (lookup-NoNull b.session w.relays h) [
  | inl absent ↦ (w, stop_tcp_unknown b w absent)
  | inr (p, here) ↦ (_, stop_tcp_known b w p here)
]

-- After a sweep of the relays no data and no stop for a TCP session go through a null pointer: the
-- handler completes, whatever the session.
pub sweep_relays-add_response :
    (m : List (ℕ × Option ℕ)) (w : World) (t : AddressText) (b : RelayData)
    → (b.cmd ≡ data_tcp) ⊎ (b.cmd ≡ stop_tcp)
    → (w' : World) × (add_response t b (sweep_relays m w) ≡ completed w')
unfolding respond
sweep_relays-add_response m w t b (inl c) =
    let v = sweep_relays m w in
    let (w', e) = data_tcp-completes b v (sweep_relays-NoNull m w) in
    (w', add_response-by t b v c ∙ e)
sweep_relays-add_response m w t b (inr c) =
    let v = sweep_relays m w in
    let (w', e) = stop_tcp-completes b v (sweep_relays-NoNull m w) in
    (w', add_response-by t b v c ∙ e)
