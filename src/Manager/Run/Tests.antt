-- ===== src/Manager/Run/Tests.antt =====
-- Tests of sequences of calls.
use ssl_socks.Address.{AddressText}
use ssl_socks.Base.{◌<◌, ◌≡◌, refl, some, [], ◌∷◌, nat_eq, lookup, insert}
use ssl_socks.Manager.Request.{add_local_raw_tcp}
use ssl_socks.Manager.Run.{adds_local_tcp, make_idle, manager_call, run_calls}
use ssl_socks.Manager.Run.Soundness.{run_calls-registered}
use ssl_socks.Manager.World.{World, completed, new_manager}
use ssl_socks.Relay.{local_server, raw_tcp}

abbrev run_texts : AddressText
run_texts = record { v4_text = λ a. a; v6_text = λ a. a; int_text = λ n. n ∷ [] }

-- A local connection on a new manager.
abbrev connected_world : World
connected_world =
    add_local_raw_tcp (new_manager local_server).next (make_idle raw_tcp (new_manager local_server))

connected_run :
    run_calls run_texts (adds_local_tcp ∷ []) (new_manager local_server) ≡ completed connected_world
unfolding run_calls manager_call
connected_run = refl

connected_entry : lookup 1 connected_world.relays ≡ some (some 0)
unfolding lookup insert add_local_raw_tcp make_idle new_manager
connected_entry = refl

run_calls-registered_test : (0 < connected_world.next) × ((connected_world.objects 0).session ≡ 1)
run_calls-registered_test =
    run_calls-registered run_texts local_server (adds_local_tcp ∷ []) connected_world 1 0
      connected_run connected_entry
