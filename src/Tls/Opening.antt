-- ===== src/Tls/Opening.antt =====
-- When a TLS relay opens, src/ssl_relay.cpp (start_relay).
use ssl_socks.Base.{
  ◌≡◌, refl, ap, ◌⊎◌, inl, inr, Bool, true, false, ◌&&◌, some, List, [], ◌∷◌, ◌++◌, arith,
  Bool-cases, Bytes,
}
use ssl_socks.Config.{RelayConfig}
use ssl_socks.Manager.World.{is_remote}
use ssl_socks.Tls.{
  tls_server, tls_client, TlsContext, role_of, init_ssl, TlsIo, TlsAction, looks_up, connects_peer,
  sets_no_delay, shakes_hands, opens_send, opens_read, gives_up, attempt, tls_steps, start_tls,
}

abbrev pub all_done : List (TlsAction × Bool) → Bool
all_done [] = true
all_done ((a, b) ∷ steps) = b && all_done steps

abbrev pub actions_of : List (TlsAction × Bool) → List TlsAction
actions_of [] = []
actions_of ((a, b) ∷ steps) = a ∷ actions_of steps

-- All steps are done and the relay opens, or one fails behind steps that are done, and nothing comes
-- behind it but the stop.
abbrev pub OpensOrNot : List (TlsAction × Bool) → List TlsAction → Type 0
OpensOrNot steps acts =
    ((all_done steps ≡ true) × (acts ≡ actions_of steps ++ (opens_send ∷ (opens_read ∷ []))))
    ⊎ ((done : List (TlsAction × Bool)) × (a : TlsAction) × (rest : List (TlsAction × Bool))
        × (steps ≡ done ++ (a, false) ∷ rest)
        × (all_done done ≡ true)
        × (acts ≡ actions_of done ++ (a ∷ (gives_up ∷ []))))

attempt-OpensOrNot :
    (steps : List (TlsAction × Bool))
    → OpensOrNot steps (attempt steps (opens_send ∷ (opens_read ∷ [])))
unfolding attempt
attempt-OpensOrNot [] = inl (refl, refl)
attempt-OpensOrNot ((a, false) ∷ steps) = inr ([], a, steps, refl, refl, refl)
attempt-OpensOrNot ((a, true) ∷ steps) = elim (attempt-OpensOrNot steps) [
  | inl (all, e) ↦ inl (all, ap (◌∷◌ a) e)
  | inr (done, x, rest, split, all, e) ↦
      inr ((a, true) ∷ done, x, rest, ap (◌∷◌ (a, true)) split, all, ap (◌∷◌ a) e)
]

-- The steps on either side, with what comes of each.
abbrev pub steps_in_order : Bool → RelayConfig → TlsIo → List (TlsAction × Bool)
steps_in_order true c io =
    (sets_no_delay, io.sets_option) ∷ ((shakes_hands tls_server, io.shakes) ∷ [])
steps_in_order false c io =
    (looks_up c.remote_ip c.remote_port, io.resolves)
    ∷ ((connects_peer, io.connects)
        ∷ ((sets_no_delay, io.sets_option) ∷ ((shakes_hands tls_client, io.shakes) ∷ [])))

-- The TLS relay of a remote server sets its option and then shakes hands as the server; any other
-- looks up and connects to the configured address before, and shakes hands as the client. It sends and
-- reads only after every one of these steps has succeeded; where one fails, no other comes behind it,
-- and the relay stops.
pub start_tls-OpensOrNot :
    (c : RelayConfig) (io : TlsIo)
    → OpensOrNot (steps_in_order (is_remote c.type) c io) (start_tls c io)
unfolding start_tls tls_steps role_of
start_tls-OpensOrNot c io = elim (Bool-cases (is_remote c.type)) [
  | inl far ↦ rw far (attempt-OpensOrNot (steps_in_order true c io))
  | inr near ↦ rw near (attempt-OpensOrNot (steps_in_order false c io))
]

-- Of two servers of which one is remote and the other is not, and whose files load, one shakes hands
-- as the server and the other as the client, each with a context for that and with its own
-- certificate, and each refuses a peer without a certificate that it can verify.
pub init_ssl-pair :
    (loads : Bytes → Bool) (near far : RelayConfig) (a b : TlsContext)
    → is_remote near.type ≡ false
    → is_remote far.type ≡ true
    → init_ssl loads near ≡ some a
    → init_ssl loads far ≡ some b
    → (a.method ≡ tls_client)
      × (b.method ≡ tls_server)
      × (role_of near.type ≡ a.method)
      × (role_of far.type ≡ b.method)
      × (a.verify_peer ≡ true)
      × (a.fail_if_no_peer_cert ≡ true)
      × (b.verify_peer ≡ true)
      × (b.fail_if_no_peer_cert ≡ true)
      × (a.certificate_file ≡ near.cert)
      × (b.certificate_file ≡ far.cert)
unfolding init_ssl role_of
init_ssl-pair loads near far a b n f e g = ground arith
