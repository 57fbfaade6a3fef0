-- ===== src/Server/Program.antt =====
-- The whole program, src/main.cpp (main): the configuration that it reads and the threads of its rounds.
use ssl_socks.Base.{◌≡◌, subst, Option, some, List, Bytes}
use ssl_socks.Config.{
  bind-elim, ConfigInt, RelayConfig, threads_key, Json, get_config, CommandOption, conf_file,
  default_conf_file, read_config,
}
use ssl_socks.Config.Reading.{get_config-ReadFrom}
use ssl_socks.Server.{ServerAction, RoundEnd, thread_count, server_start, main}
use ssl_socks.Server.Threads.{started_by, joined_by, threads_of, joined_of, server_start-threads_of}

-- Where main comes to its rounds, the file that the options name, or else the default one, holds a
-- document, of which get_config makes a configuration. Each round starts as many threads as the document
-- says, none for a negative number, or those in front of the first that cannot be started, and none if
-- the acceptor or start_accept throws. Each of them is joined once, in the order of their starts, and no
-- other, except those of a round in which an exception on a thread ends the process. Behind such a round,
-- and behind an exception of the acceptor's constructor, no thread is started or joined.
pub main-Joins :
    (decimal : ConfigInt → Bytes) (contents : Bytes → Bytes) (parse : Bytes → Option Json)
    (options : List CommandOption) (ends : List RoundEnd) (acts : List ServerAction)
    → main decimal contents parse options ends ≡ some acts
    → (j : Json) × (d : RelayConfig) × (k : ConfigInt) × (parse
          (conf_file options default_conf_file)
        ≡ some j)
      × (get_config decimal contents j ≡ some d)
      × (j.get_int threads_key ≡ some k)
      × (started_by acts ≡ threads_of (thread_count k) ends)
      × (joined_by acts ≡ joined_of (thread_count k) ends)
unfolding main read_config
main-Joins decimal contents parse options ends acts e =
    bind-elim (read_config decimal contents parse options) _ e (λ d read e1.
      bind-elim (parse (conf_file options default_conf_file)) _ read (λ j found got.
        let k = d.thread_num in
        let does : server_start k ends ≡ acts = same_actions e1 in
        (
          j,
          d,
          k,
          found,
          got,
          (get_config-ReadFrom decimal contents j d got).1,
          subst (λ xs. started_by xs ≡ threads_of (thread_count k) ends) does
              (server_start-threads_of k ends).0,
          subst (λ xs. joined_by xs ≡ joined_of (thread_count k) ends) does
              (server_start-threads_of k ends).1,
        )))
  where
    same_actions : {xs ys : List ServerAction} → some xs ≡ some ys → xs ≡ ys
    same_actions h = cc
