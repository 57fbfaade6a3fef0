-- ===== src/Relay/Timeout.antt =====
-- The countdown of src/base_relay.cpp (timeout_down, reset_timeout).
use ssl_socks.Base.{
  ℕ, zero, suc, ◌-◌, ◌≡◌, refl, ◌∙◌, ◌&&◌, List, [], ◌∷◌, ◌++◌, append-nil, append_assoc, arith,
  ltb, leb, if◌then◌else◌,
}
use ssl_socks.Relay.{
  full_timeout, Task, stop_task, Relay, reset_timeout, timeout_down, traffic, step,
}

unfoldable pub tick_times : ℕ → Relay → Relay
tick_times zero r = r
tick_times (suc n) r = tick_times n (timeout_down r).0

-- The stop that the last tick of a countdown posts.
abbrev pub stop_at : ℕ → ℕ → List Task
stop_at n left = if ltb 0 left && leb left n then stop_task ∷ [] else []

pub timeout_down_lem :
    (r : Relay)
    → (timeout_down r).0
      ≡ record r { timeout = r.timeout - 1; tasks = r.tasks ++ stop_at 1 r.timeout }
unfolding timeout_down
timeout_down_lem r = ground (arith, append-nil r.tasks)

stop_at_add :
    (n left : ℕ) (ts : List Task)
    → (ts ++ stop_at 1 left) ++ stop_at n (left - 1) ≡ ts ++ stop_at (suc n) left
stop_at_add n left ts =
    ground
      (arith, append-nil ts, append-nil (ts ++ stop_task ∷ []), append_assoc ts (stop_task ∷ []) [])

-- Ticks only count down, to 0 and not below; the tick that comes to 0 posts one stop, and no other
-- tick does: a relay is told to stop exactly when its countdown ends without traffic.
pub tick_times_lem :
    (n : ℕ) (r : Relay)
    → tick_times n r ≡ record r { timeout = r.timeout - n; tasks = r.tasks ++ stop_at n r.timeout }
unfolding tick_times
tick_times_lem zero r = ground (arith, append-nil r.tasks)
tick_times_lem (suc n) r =
    rw (timeout_down_lem r) (tick_times_lem n _ ∙ (ground (arith, stop_at_add n r.timeout r.tasks)))

-- Nine ticks of the timer after traffic a relay is told to stop, once, however many more there are.
pub tick_times-traffic :
    (n : ℕ) (r : Relay)
    → (tick_times n (step r traffic)).tasks
      ≡ r.tasks ++ (if leb full_timeout n then stop_task ∷ [] else [])
unfolding step
tick_times-traffic n r = rw (tick_times_lem n (reset_timeout r)) refl
