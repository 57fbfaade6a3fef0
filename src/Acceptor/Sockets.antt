-- ===== src/Acceptor/Sockets.antt =====
-- The constructor of acceptor_impl, src/relay_acceptor.cpp.
use ssl_socks.Base.{
  ◌≡◌, refl, ap, ◌⊎◌, inl, inr, Bool, true, false, List, [], ◌∷◌, ◌++◌, if◌then◌else◌, Bool-cases,
}
use ssl_socks.Config.{ConfigInt, RelayConfig}
use ssl_socks.Relay.{ServerType, local_transparent}

pub data AcceptorSocket : Type 0 where
  tcp_acceptor udp_acceptor : AcceptorSocket

-- The options that are set, with their values, and the rest of what the constructor does.
pub data AcceptorStep : Type 0 where
  reuses_address keeps_alive only_v6 transparent orig_dst6 orig_dst4 :
      AcceptorSocket → Bool → AcceptorStep
  binds : AcceptorSocket → ConfigInt → AcceptorStep
  listens : AcceptorSocket → AcceptorStep

-- The options of a transparent server.
abbrev pub transparent_steps : List AcceptorStep
transparent_steps =
    transparent tcp_acceptor true
    ∷ (transparent udp_acceptor true
        ∷ (orig_dst6 udp_acceptor true ∷ (orig_dst4 udp_acceptor true ∷ [])))

abbrev pub is_transparent : ServerType → Bool
is_transparent local_transparent = true
is_transparent _ = false

-- The try block of the constructor.
unfoldable pub acceptor_steps : RelayConfig → List AcceptorStep
acceptor_steps c =
    reuses_address tcp_acceptor true
    ∷ (keeps_alive tcp_acceptor true
        ∷ (reuses_address udp_acceptor true
            ∷ (keeps_alive udp_acceptor true
                ∷ (only_v6 tcp_acceptor false
                    ∷ (only_v6 udp_acceptor false
                        ∷ ((if is_transparent c.type then transparent_steps else [])
                            ++ (binds tcp_acceptor c.local_port
                                ∷ (listens tcp_acceptor
                                    ∷ (binds udp_acceptor c.local_port ∷ [])))))))))

-- The steps up to the first that throws. The catch only logs that, so the acceptor is used as it is.
unfoldable pub open_acceptor : (AcceptorStep → Bool) → List AcceptorStep → List AcceptorStep
open_acceptor works [] = []
open_acceptor works (a ∷ steps) =
    let rest = open_acceptor works steps in if works a then a ∷ rest else []

-- relay_acceptor(io, config)
unfoldable pub new_acceptor : (AcceptorStep → Bool) → RelayConfig → List AcceptorStep
unfolding acceptor_steps open_acceptor
new_acceptor works c = open_acceptor works (acceptor_steps c)

-- All steps work.
abbrev pub AllWork : (AcceptorStep → Bool) → List AcceptorStep → Type 0
AllWork works [] = Unit {0}
AllWork works (a ∷ steps) = (works a ≡ true) × AllWork works steps

-- Either every step was done, or the acceptor is left with those in front of one that failed.
pub open_acceptor-partial :
    (works : AcceptorStep → Bool) (steps : List AcceptorStep)
    → (AllWork works steps × (open_acceptor works steps ≡ steps))
      ⊎ ((a : AcceptorStep) × (rest : List AcceptorStep) × (steps
            ≡ open_acceptor works steps ++ a ∷ rest)
          × (works a ≡ false))
unfolding open_acceptor
open_acceptor-partial works [] = inl (tt, refl)
open_acceptor-partial works (a ∷ steps) = elim (Bool-cases (works a)) [
  | inr miss ↦ rw miss (inr (a, steps, refl, miss))
  | inl hit ↦ rw hit (elim (open_acceptor-partial works steps) [
    | inl (all, e) ↦ inl ((refl, all), ap (◌∷◌ a) e)
    | inr (b, rest, e, n) ↦ inr (b, rest, ap (◌∷◌ a) e, n)
  ])
]
