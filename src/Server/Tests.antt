-- ===== src/Server/Tests.antt =====
-- Tests of the rounds.
use ssl_socks.Base.{
  ◌≡◌, refl, Option, none, some, List, [], ◌∷◌, if◌then◌else◌, replicate, Bytes, equal,
}
use ssl_socks.Config.{
  ConfigInt, int_pos, RelayConfig, port_key, threads_key, type_key, server_port_key, server_key,
  cert_key, key_key, log_key, Json, type_of, peer_unless, get_config, CommandOption, option_c,
  other_option, conf_file, default_conf_file, read_config,
}
use ssl_socks.Server.{
  makes_acceptor, starts_accept, runs_io, stops_io, sleeps, terminates, starts_thread, joins_thread,
  RoundEnd, accept_throws, run_returns, run_throws, run_throws_other, worker_throws, spawn_throws,
  severity_warning, severity_error, severity_fatal, init_log, thread_count, start_threads,
  join_threads, try_round, server_round, server_start, main,
}
use ssl_socks.Server.Program.{main-Joins}
use ssl_socks.Server.Threads.{started_by, joined_by, threads_of, joined_of}

round_test :
    server_round (int_pos 1) run_throws_other
    ≡ makes_acceptor
      ∷ (starts_accept
          ∷ (starts_thread 0 ∷ (runs_io ∷ (stops_io ∷ (sleeps ∷ (joins_thread 0 ∷ []))))))
unfolding server_round try_round thread_count start_threads join_threads replicate
round_test = refl

init_log_test : init_log ≡ severity_warning ∷ (severity_error ∷ (severity_fatal ∷ []))
init_log_test = refl

-- A document of a remote server with two threads.
abbrev remote_document : Json
remote_document = record {
  get_int = λ k. some (int_pos 2);
  get_string = λ k. elim k [
    | type_key ↦ some (b'r' ∷ b'e' ∷ b'm' ∷ b'o' ∷ b't' ∷ b'e' ∷ [])
    | port_key ↦ some []
    | threads_key ↦ some []
    | server_port_key ↦ some []
    | server_key ↦ some []
    | cert_key ↦ some []
    | key_key ↦ some []
    | log_key ↦ some []
  ];
  gfwlist_or = λ file. some file;
}

-- Only this file holds a document.
abbrev parse_named : Bytes → Option Json
parse_named file = if equal file (b'c' ∷ []) then some remote_document else none

abbrev named_options : List CommandOption
named_options = option_c (b'd' ∷ []) ∷ (other_option ∷ (option_c (b'c' ∷ []) ∷ []))

abbrev three_rounds : List RoundEnd
three_rounds = spawn_throws 1 ∷ (run_throws ∷ (worker_throws ∷ []))

main_runs :
    main (λ n. []) (λ f. []) parse_named named_options three_rounds
    ≡ some (server_start (int_pos 2) three_rounds)
unfolding main read_config conf_file get_config peer_unless type_of equal
main_runs = refl

main-Joins_example :
    (j : Json) × (d : RelayConfig) × (k : ConfigInt) × (parse_named
        (conf_file named_options default_conf_file)
      ≡ some j)
    × (get_config (λ n. []) (λ f. []) j ≡ some d)
    × (j.get_int threads_key ≡ some k)
    × (started_by (server_start (int_pos 2) three_rounds)
        ≡ threads_of (thread_count k) three_rounds)
    × (joined_by (server_start (int_pos 2) three_rounds) ≡ joined_of (thread_count k) three_rounds)
main-Joins_example =
    main-Joins (λ n. []) (λ f. []) parse_named named_options three_rounds
      (server_start (int_pos 2) three_rounds) main_runs

-- Without its file the program ends before it starts anything.
main_test : main (λ n. []) (λ f. []) parse_named [] three_rounds ≡ none
unfolding main read_config conf_file equal
main_test = refl

-- The process ends in the second round.
ended_test :
    server_start (int_pos 1) (accept_throws ∷ (worker_throws ∷ (run_returns ∷ [])))
    ≡ makes_acceptor
      ∷ (starts_accept
          ∷ (stops_io
              ∷ (sleeps
                  ∷ (makes_acceptor
                      ∷ (starts_accept ∷ (starts_thread 0 ∷ (runs_io ∷ (terminates ∷ []))))))))
unfolding server_start server_round try_round thread_count start_threads join_threads
ended_test = refl
