-- ===== src/Server.antt =====
-- src/main.cpp (server_start, main): the rounds of the server, each with an io_context, an acceptor and
-- threads of its own.
pub mod Threads
pub mod Program
mod Tests
-- What a round does, in order. A thread is known by its place in `server_th`.
use ssl_socks.Base.{
  ℕ, zero, suc, ◌+◌, min, Bool, true, false, Option, some, List, [], ◌∷◌, ◌++◌, if◌then◌else◌,
  replicate, Bytes,
}
use ssl_socks.Config.{◌>>=◌, ConfigInt, int_pos, int_negsuc, Json, CommandOption, read_config}

pub data ServerAction : Type 0 where
  makes_acceptor starts_accept runs_io stops_io sleeps terminates : ServerAction
  starts_thread joins_thread : ℕ → ServerAction

-- How a round ends: the constructor of the acceptor throws, in front of the try block, which ends the
-- process; start_accept throws; the thread at a place below the configured number cannot be started, a
-- std::system_error; io.run() on the main thread returns, throws a std::exception, or throws something
-- else; or io.run() throws on one of the threads, where nothing catches, while the main thread is in its own,
-- which ends the process too.
pub data RoundEnd : Type 0 where
  acceptor_throws accept_throws run_returns run_throws run_throws_other worker_throws : RoundEnd
  spawn_throws : ℕ → RoundEnd

abbrev pub ends_process : RoundEnd → Bool
ends_process acceptor_throws = true
ends_process worker_throws = true
ends_process _ = false

-- The severities, in order, and the filter that init_log sets.
pub data Severity : Type 0 where
  severity_trace severity_debug severity_info severity_warning severity_error severity_fatal :
      Severity

abbrev pub is_logged : Severity → Bool
is_logged severity_trace = false
is_logged severity_debug = false
is_logged severity_info = false
is_logged _ = true

abbrev pub logged : List Severity → List Severity
logged [] = []
logged (v ∷ vs) = if is_logged v then v ∷ logged vs else logged vs

-- init_log(log_file): which of its six messages reach the file.
abbrev pub init_log : List Severity
init_log = logged (
    severity_trace
    ∷ (severity_debug
        ∷ (severity_info ∷ (severity_warning ∷ (severity_error ∷ (severity_fatal ∷ []))))))

-- How often `for (int i = 0; i < thread_num; i++)` runs.
unfoldable pub thread_count : ConfigInt → ℕ
thread_count (int_pos n) = n
thread_count (int_negsuc n) = 0

-- The loop over emplace_back, from the thread `i`.
unfoldable pub start_threads : ℕ → ℕ → List ServerAction
start_threads i zero = []
start_threads i (suc n) = starts_thread i ∷ start_threads (i + 1) n

-- A loop over `server_th` that joins the threads that are joinable.
unfoldable pub join_threads : ℕ → List Bool → List ServerAction
join_threads i [] = []
join_threads i (true ∷ rest) = joins_thread i ∷ join_threads (i + 1) rest
join_threads i (false ∷ rest) = join_threads (i + 1) rest

-- The try block and the catches: what is done, and which threads are joinable afterwards.
unfoldable pub try_round : ℕ → RoundEnd → List ServerAction × List Bool
unfolding start_threads join_threads
try_round n acceptor_throws = (terminates ∷ [], [])
try_round n accept_throws = (starts_accept ∷ (stops_io ∷ (sleeps ∷ [])), [])
try_round n run_returns = (starts_accept ∷ (start_threads 0 n ++ runs_io ∷ []), replicate n true)
try_round n run_throws = (
  starts_accept
      ∷ (start_threads 0 n
          ++ (runs_io ∷ (stops_io ∷ (join_threads 0 (replicate n true) ++ sleeps ∷ [])))),
  replicate n false,
)
try_round n run_throws_other = (
  starts_accept ∷ (start_threads 0 n ++ (runs_io ∷ (stops_io ∷ (sleeps ∷ [])))),
  replicate n true,
)
try_round n worker_throws =
    (starts_accept ∷ (start_threads 0 n ++ (runs_io ∷ (terminates ∷ []))), [])
try_round n (spawn_throws i) = (
  starts_accept
      ∷ (start_threads 0 (min i n)
          ++ (stops_io ∷ (join_threads 0 (replicate (min i n) true) ++ sleeps ∷ []))),
  replicate (min i n) false,
)

-- A round, with the loop behind the catches.
unfoldable pub server_round : ConfigInt → RoundEnd → List ServerAction
unfolding thread_count try_round
server_round k e =
    let (acts, joinable) = try_round (thread_count k) e in
    makes_acceptor ∷ (acts ++ join_threads 0 joinable)

-- server_start(config), for the rounds that end in the given ways; none follows the end of the process.
unfoldable pub server_start : ConfigInt → List RoundEnd → List ServerAction
unfolding server_round
server_start k [] = []
server_start k (e ∷ es) = server_round k e ++ (if ends_process e then [] else server_start k es)

-- main(argc, argv), for rounds that end in the given ways; `none` is an exception before the first round.
unfoldable pub main :
    (ConfigInt → Bytes)
    → (Bytes → Bytes)
    → (Bytes → Option Json)
    → List CommandOption
    → List RoundEnd
    → Option (List ServerAction)
unfolding read_config server_start
main decimal contents parse options ends = do
  config ← read_config decimal contents parse options
  some (server_start config.thread_num ends)
