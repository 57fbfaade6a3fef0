-- ===== src/Server/Threads.antt =====
-- Which threads a round starts and joins, src/main.cpp (server_start).
use ssl_socks.Base.{
  ℕ, zero, suc, ◌+◌, min, ◌≡◌, refl, ap, ◌∙◌, ap₂, Bool, true, false, List, [], ◌∷◌, ◌++◌,
  append-nil, if◌then◌else◌, replicate,
}
use ssl_socks.Config.{ConfigInt}
use ssl_socks.Server.{
  ServerAction, makes_acceptor, starts_accept, runs_io, stops_io, sleeps, terminates, starts_thread,
  joins_thread, RoundEnd, acceptor_throws, accept_throws, run_returns, run_throws, run_throws_other,
  worker_throws, spawn_throws, ends_process, thread_count, start_threads, join_threads, try_round,
  server_round, server_start,
}

abbrev pub started_by : List ServerAction → List ℕ
started_by [] = []
started_by (starts_thread i ∷ acts) = i ∷ started_by acts
started_by (_ ∷ acts) = started_by acts

abbrev pub joined_by : List ServerAction → List ℕ
joined_by [] = []
joined_by (joins_thread i ∷ acts) = i ∷ joined_by acts
joined_by (_ ∷ acts) = joined_by acts

-- The places from `i` on.
unfoldable pub places : ℕ → ℕ → List ℕ
places i zero = []
places i (suc n) = i ∷ places (i + 1) n

started_by-append :
    (xs ys : List ServerAction) → started_by (xs ++ ys) ≡ started_by xs ++ started_by ys
started_by-append [] ys = refl
started_by-append (makes_acceptor ∷ xs) ys = started_by-append xs ys
started_by-append (starts_accept ∷ xs) ys = started_by-append xs ys
started_by-append (terminates ∷ xs) ys = started_by-append xs ys
started_by-append (runs_io ∷ xs) ys = started_by-append xs ys
started_by-append (stops_io ∷ xs) ys = started_by-append xs ys
started_by-append (sleeps ∷ xs) ys = started_by-append xs ys
started_by-append (starts_thread i ∷ xs) ys = ap (◌∷◌ i) (started_by-append xs ys)
started_by-append (joins_thread i ∷ xs) ys = started_by-append xs ys

joined_by-append : (xs ys : List ServerAction) → joined_by (xs ++ ys) ≡ joined_by xs ++ joined_by ys
joined_by-append [] ys = refl
joined_by-append (makes_acceptor ∷ xs) ys = joined_by-append xs ys
joined_by-append (starts_accept ∷ xs) ys = joined_by-append xs ys
joined_by-append (terminates ∷ xs) ys = joined_by-append xs ys
joined_by-append (runs_io ∷ xs) ys = joined_by-append xs ys
joined_by-append (stops_io ∷ xs) ys = joined_by-append xs ys
joined_by-append (sleeps ∷ xs) ys = joined_by-append xs ys
joined_by-append (starts_thread i ∷ xs) ys = joined_by-append xs ys
joined_by-append (joins_thread i ∷ xs) ys = ap (◌∷◌ i) (joined_by-append xs ys)

start_threads-places :
    (i n : ℕ) → (started_by (start_threads i n) ≡ places i n) × (joined_by (start_threads i n) ≡ [])
unfolding start_threads places
start_threads-places i zero = (refl, refl)
start_threads-places i (suc n) = let (s, j) = start_threads-places (i + 1) n in (ap (◌∷◌ i) s, j)

join_threads-places :
    (i n : ℕ)
    → (joined_by (join_threads i (replicate n true)) ≡ places i n)
      × (started_by (join_threads i (replicate n true)) ≡ [])
      × (join_threads i (replicate n false) ≡ [])
unfolding join_threads places replicate
join_threads-places i zero = (refl, refl, refl)
join_threads-places i (suc n) =
    let (j, s, f) = join_threads-places (i + 1) n in (ap (◌∷◌ i) j, s, f)

-- What a sequence starts and joins.
abbrev Effects : List ServerAction → List ℕ → List ℕ → Type 0
Effects acts started joined = (started_by acts ≡ started) × (joined_by acts ≡ joined)

Effects-append :
    (xs ys : List ServerAction) {s j s' j' : List ℕ}
    → Effects xs s j
    → Effects ys s' j'
    → Effects (xs ++ ys) (s ++ s') (j ++ j')
Effects-append xs ys h k = (
  started_by-append xs ys ∙ ap₂ (λ us vs. us ++ vs) h.0 k.0,
  joined_by-append xs ys ∙ ap₂ (λ us vs. us ++ vs) h.1 k.1,
)

-- The threads of a round, and those of them that it joins, of `n` that are configured.
abbrev pub round_threads : ℕ → RoundEnd → List ℕ
round_threads n acceptor_throws = []
round_threads n accept_throws = []
round_threads n (spawn_throws i) = places 0 (min i n)
round_threads n _ = places 0 n

abbrev pub round_joins : ℕ → RoundEnd → List ℕ
round_joins n worker_throws = []
round_joins n e = round_threads n e

-- A round that accepts connections and starts `n` threads.
accepting-Effects :
    (n : ℕ) (middle after : List ServerAction) {js js' : List ℕ}
    → Effects middle [] js
    → Effects after [] js'
    → Effects
        (makes_acceptor ∷ ((starts_accept ∷ (start_threads 0 n ++ middle)) ++ after))
        (places 0 n)
        (js ++ js')
accepting-Effects n middle after h k =
    let (started, joined) =
      Effects-append (start_threads 0 n ++ middle) after
        (Effects-append (start_threads 0 n) middle (start_threads-places 0 n) h) k in
    (started ∙ append-nil (places 0 n ++ []) ∙ append-nil (places 0 n), joined)

-- The catch joins all threads, and the loop behind it none.
caught-Effects :
    (n : ℕ) (front : List ServerAction)
    → Effects front [] []
    → Effects
        (makes_acceptor
          ∷ ((starts_accept
                ∷ (start_threads 0 n
                    ++ (front ++ (join_threads 0 (replicate n true) ++ sleeps ∷ []))))
              ++ join_threads 0 (replicate n false)))
        (places 0 n)
        (places 0 n)
caught-Effects n front h =
    let (j, s, f) = join_threads-places 0 n in
    let (started, joined) =
      accepting-Effects n (front ++ (join_threads 0 (replicate n true) ++ sleeps ∷ []))
        (join_threads 0 (replicate n false))
        (Effects-append front (join_threads 0 (replicate n true) ++ sleeps ∷ []) h
          (Effects-append (join_threads 0 (replicate n true)) (sleeps ∷ []) (s, j) (refl, refl)))
        (ap started_by f, ap joined_by f) in
    (started, joined ∙ append-nil (places 0 n ++ []) ∙ append-nil (places 0 n))

round-Effects :
    (k : ConfigInt) (e : RoundEnd)
    → Effects (server_round k e) (round_threads (thread_count k) e) (round_joins (thread_count k) e)
unfolding server_round try_round join_threads
round-Effects k acceptor_throws = (refl, refl)
round-Effects k accept_throws = (refl, refl)
round-Effects k run_returns =
    let n = thread_count k in
    let (j, s, f) = join_threads-places 0 n in
    accepting-Effects n (runs_io ∷ []) (join_threads 0 (replicate n true)) (refl, refl) (s, j)
round-Effects k run_throws =
    caught-Effects (thread_count k) (runs_io ∷ (stops_io ∷ [])) (refl, refl)
round-Effects k run_throws_other =
    let n = thread_count k in
    let (j, s, f) = join_threads-places 0 n in
    accepting-Effects n (runs_io ∷ (stops_io ∷ (sleeps ∷ []))) (join_threads 0 (replicate n true))
      (refl, refl) (s, j)
round-Effects k worker_throws =
    accepting-Effects (thread_count k) (runs_io ∷ (terminates ∷ [])) [] (refl, refl) (refl, refl)
round-Effects k (spawn_throws i) =
    caught-Effects (min i (thread_count k)) (stops_io ∷ []) (refl, refl)

-- The threads of the rounds up to the end of the process, and those of them that are joined.
abbrev pub threads_of : ℕ → List RoundEnd → List ℕ
threads_of n [] = []
threads_of n (e ∷ es) =
    let rest = threads_of n es in round_threads n e ++ (if ends_process e then [] else rest)

abbrev pub joined_of : ℕ → List RoundEnd → List ℕ
joined_of n [] = []
joined_of n (e ∷ es) =
    let rest = joined_of n es in round_joins n e ++ (if ends_process e then [] else rest)

Effects-unless :
    (b : Bool) (acts : List ServerAction) (ss js : List ℕ)
    → Effects acts ss js
    → Effects (if b then [] else acts) (if b then [] else ss) (if b then [] else js)
Effects-unless true acts ss js h = (refl, refl)
Effects-unless false acts ss js h = h

pub server_start-threads_of :
    (k : ConfigInt) (es : List RoundEnd)
    → (started_by (server_start k es) ≡ threads_of (thread_count k) es)
      × (joined_by (server_start k es) ≡ joined_of (thread_count k) es)
unfolding server_start
server_start-threads_of k [] = (refl, refl)
server_start-threads_of k (e ∷ es) =
    Effects-append (server_round k e) (if ends_process e then [] else server_start k es)
      (round-Effects k e)
      (Effects-unless (ends_process e) (server_start k es) (threads_of (thread_count k) es)
        (joined_of (thread_count k) es) (server_start-threads_of k es))
