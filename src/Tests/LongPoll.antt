-- ===== src/Tests/LongPoll.antt =====
-- Two callers of one worker.
use xirtam_core.Prelude.{◌≡◌, ◌≤◌, ◌+◌, refl, false, none, List, [], ◌∷◌, some, ok}
use xirtam_core.Structs.{MailboxEntry}
use xirtam_core.Client.LongPoll.{
  PollRequest, WorkerEvent, new_request, poll_response, shutdown, new_worker, run_server_worker,
}
use xirtam_core.Client.LongPoll.Bounds.{run_server_worker-bounds}
use xirtam_core.Client.LongPoll.Answered.{waiting, answered, asked, run_server_worker_conserves}

abbrev request : PollRequest
request = record { auth = 1; mailbox = 5; after = 10; respond_to = 100 }

abbrev other : PollRequest
other = record { auth = 1; mailbox = 6; after = 10; respond_to = 101 }

abbrev letter : MailboxEntry
letter = record {
  message = record { kind = "v1.direct_message"; inner = [] };
  received_at = 20;
  sender_auth_token_hash = none;
}

abbrev events : List WorkerEvent
events =
    new_request request
    ∷ new_request other
    ∷ poll_response (some (ok []))
    ∷ poll_response (some (ok ((5, letter ∷ []) ∷ [])))
    ∷ shutdown
    ∷ []

run_server_worker-bounds_example :
    (15_000 ≤ (run_server_worker events new_worker).timeout_ms)
    × ((run_server_worker events new_worker).timeout_ms ≤ 1_800_000)
run_server_worker-bounds_example = run_server_worker-bounds events

runs : new_worker.stopped ≡ false
unfolding new_worker
runs = refl

run_server_worker_conserves_example :
    waiting 100 (run_server_worker events new_worker).pending
      + answered 100 (run_server_worker events new_worker).sent
    ≡ waiting 100 new_worker.pending + answered 100 new_worker.sent + asked 100 events
run_server_worker_conserves_example = run_server_worker_conserves 100 events new_worker runs
