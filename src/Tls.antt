-- ===== src/Tls.antt =====
-- src/ssl_relay.cpp (init_ssl, start_relay): how the TLS relay comes up. What is awaited is the
-- input, and what is done the output.
pub mod Opening
pub mod Reading
mod Tests
-- The two modes of a context and of a handshake.
use ssl_socks.Base.{
  Bool, true, false, ◌&&◌, Option, none, some, List, [], ◌∷◌, if◌then◌else◌, Bytes,
}
use ssl_socks.Config.{RelayConfig}
use ssl_socks.Manager.World.{is_remote}
use ssl_socks.Relay.{ServerType, ssl_relay, Relay, new_relay}

pub data TlsRole : Type 0 where
  tls_server tls_client : TlsRole

-- ssl::context
pub record TlsContext : Type 0 where
  pub method : TlsRole
  pub trusted : Bytes
  pub verify_peer : Bool
  pub fail_if_no_peer_cert : Bool
  pub certificate_file : Bytes
  pub private_key_file : Bytes

-- `config.type == REMOTE_SERVER ? server : client`
unfoldable pub role_of : ServerType → TlsRole
role_of k = if is_remote k then tls_server else tls_client

-- init_ssl(config); `loads` says whether a file is read without an exception.
unfoldable pub init_ssl : (Bytes → Bool) → RelayConfig → Option TlsContext
unfolding role_of
init_ssl loads c =
    let ca =
      (b'/' ∷ b'e' ∷ b't' ∷ b'c' ∷ b'/' ∷ b's' ∷ b's' ∷ b'l' ∷ b'-' ∷ b's' ∷ b'o' ∷ b'c' ∷ b'k'
        ∷ b's' ∷ b'/' ∷ b'c' ∷ b'a' ∷ b'.' ∷ b'c' ∷ b'r' ∷ b't' ∷ []) in
    if loads ca && (loads c.cert && loads c.key)
    then some (record {
      method = role_of c.type;
      trusted = ca;
      verify_peer = true;
      fail_if_no_peer_cert = true;
      certificate_file = c.cert;
      private_key_file = c.key;
    })
    else none

-- ssl_impl, with the relay that owns it.
pub record TlsRelay : Type 0 where
  pub context : TlsContext
  pub base : Relay

-- ssl_relay(io, config, mngr); `none` is an exception of the context.
unfoldable pub new_tls_relay : (Bytes → Bool) → RelayConfig → Option TlsRelay
unfolding init_ssl new_relay
new_tls_relay loads c = elim (init_ssl loads c) [
  | none ↦ none
  | some ctx ↦ some (record { context = ctx; base = new_relay ssl_relay })
]

-- Which of the awaited operations succeed, and whether the option is set.
pub record TlsIo : Type 0 where
  pub resolves : Bool
  pub connects : Bool
  pub sets_option : Bool
  pub shakes : Bool

-- What the coroutine of start_relay does.
pub data TlsAction : Type 0 where
  looks_up : Bytes → Bytes → TlsAction
  connects_peer sets_no_delay : TlsAction
  shakes_hands : TlsRole → TlsAction
  opens_send opens_read gives_up : TlsAction

-- A sequence of steps, each with its success: a system_error ends it in the catch.
unfoldable pub attempt : List (TlsAction × Bool) → List TlsAction → List TlsAction
attempt [] done = done
attempt ((a, true) ∷ steps) done = a ∷ attempt steps done
attempt ((a, false) ∷ steps) done = a ∷ (gives_up ∷ [])

-- The steps in front of `state = RELAY_INIT; start_send();`.
unfoldable pub tls_steps : RelayConfig → TlsIo → List (TlsAction × Bool)
unfolding role_of
tls_steps c io =
    let secure =
      (sets_no_delay, io.sets_option) ∷ ((shakes_hands (role_of c.type), io.shakes) ∷ []) in
    if is_remote c.type
    then secure
    else (looks_up c.remote_ip c.remote_port, io.resolves) ∷ ((connects_peer, io.connects) ∷ secure)

-- start_relay()
unfoldable pub start_tls : RelayConfig → TlsIo → List TlsAction
unfolding attempt tls_steps
start_tls c io = attempt (tls_steps c io) (opens_send ∷ (opens_read ∷ []))
