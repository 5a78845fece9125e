-- ===== src/Client/LongPoll/Bounds.antt =====
-- How long a poll waits.
use xirtam_core.Prelude.{
  Bool, ℕ, ◌/◌, ◌≤◌, sym, ap, subst, inl, inr, List, [], ◌∷◌, Bool-cases, some, none, ok, err,
  arith, if◌then◌else◌,
}
use xirtam_core.Client.LongPoll.{
  long_poll_min_ms, long_poll_max_ms, WorkerEvent, new_request, poll_response, shutdown, Worker,
  Response, long_poll_inc_ms, saturating_add, clamp, aimd_increase, aimd_decrease, next_timeout,
  new_worker, turn, run_server_worker,
}

abbrev pub Within : ℕ → Type 0
Within timeout_ms = (long_poll_min_ms ≤ timeout_ms) × (timeout_ms ≤ long_poll_max_ms)

clamp-Within : (n : ℕ) → Within (clamp long_poll_min_ms long_poll_max_ms n)
clamp-Within n = (ground arith, ground arith)

next_timeout-Within :
    (response : Response) (timeout_ms : ℕ)
    → Within timeout_ms
    → Within (next_timeout response timeout_ms)
unfolding next_timeout aimd_increase aimd_decrease
next_timeout-Within none timeout_ms h = clamp-Within (timeout_ms / 2)
next_timeout-Within (some (err e)) timeout_ms h = h
next_timeout-Within (some (ok [])) timeout_ms h =
    clamp-Within (saturating_add timeout_ms long_poll_inc_ms)
next_timeout-Within (some (ok (row ∷ rows))) timeout_ms h = h

turn-Within :
    (event : WorkerEvent) (worker : Worker)
    → Within worker.timeout_ms
    → Within (turn event worker).timeout_ms
unfolding turn
turn-Within (new_request request) worker h = h
turn-Within shutdown worker h = h
turn-Within (poll_response response) worker h = next_timeout-Within response worker.timeout_ms h

run-Within :
    (events : List WorkerEvent) (worker : Worker)
    → Within worker.timeout_ms
    → Within (run_server_worker events worker).timeout_ms
unfolding run_server_worker
run-Within [] worker h = h
run-Within (event ∷ events) worker h =
    let select : Bool → Worker =
      λ b. if b then worker else run_server_worker events (turn event worker) in
    let rest = run-Within events (turn event worker) (turn-Within event worker h) in
    elim (Bool-cases worker.stopped) [
      | inl stopped ↦ subst (λ (w : Worker). Within w.timeout_ms) (sym (ap select stopped)) h
      | inr runs ↦ subst (λ (w : Worker). Within w.timeout_ms) (sym (ap select runs)) rest
    ]

-- Whatever requests and responses come, and in whatever order, a worker asks the server to wait for
-- at least 15 seconds and at most half an hour.
pub run_server_worker-bounds :
    (events : List WorkerEvent)
    → (15_000 ≤ (run_server_worker events new_worker).timeout_ms)
      × ((run_server_worker events new_worker).timeout_ms ≤ 1_800_000)
unfolding new_worker
run_server_worker-bounds events = run-Within events new_worker (omega arith, omega arith)
