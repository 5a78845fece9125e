-- ===== src/Client/LongPoll/Answered.antt =====
-- No request is lost, and none is answered twice.
use xirtam_core.Prelude.{
  ℕ, suc, ◌+◌, ◌≡◌, refl, ◌∙◌, ap, inl, inr, true, false, none, some, List, [], ◌∷◌, ◌++◌, ◌==◌,
  nat_eq, Option-cases, ok, err, arith, if◌then◌else◌,
}
use xirtam_core.Structs.{MailboxId, MailboxEntry}
use xirtam_core.Client.LongPoll.{
  PollRequest, Reply, refused, shut_down, WorkerEvent, new_request, poll_response, shutdown, Worker,
  Response, Key, build_args, answer_for, answer_all, reply_all, username_poll_response, turn,
  run_server_worker,
}

-- how often a channel occurs
unfoldable pub waiting : ℕ → List PollRequest → ℕ
waiting id [] = 0
waiting id (request ∷ pending) =
    let rest = waiting id pending in if request.respond_to == id then suc rest else rest

unfoldable pub answered : ℕ → List (ℕ × Reply) → ℕ
answered id [] = 0
answered id (reply ∷ replies) =
    let rest = answered id replies in if reply.0 == id then suc rest else rest

-- how often a channel is in the requests that come before the worker stops
unfoldable pub asked : ℕ → List WorkerEvent → ℕ
asked id [] = 0
asked id (new_request request ∷ events) =
    let rest = asked id events in if request.respond_to == id then suc rest else rest
asked id (poll_response response ∷ events) = asked id events
asked id (shutdown ∷ events) = 0

waiting-append :
    (id : ℕ) (a b : List PollRequest) → waiting id (a ++ b) ≡ waiting id a + waiting id b
unfolding waiting
waiting-append id [] b = omega arith
waiting-append id (r ∷ a) b = ground (arith, waiting-append id a b)

answered-append :
    (id : ℕ) (a b : List (ℕ × Reply)) → answered id (a ++ b) ≡ answered id a + answered id b
unfolding answered
answered-append id [] b = omega arith
answered-append id (r ∷ a) b = ground (arith, answered-append id a b)

answered-reply_all :
    (id : ℕ) (reply : Reply) (pending : List PollRequest)
    → answered id (reply_all reply pending) ≡ waiting id pending
unfolding answered waiting
answered-reply_all id reply [] = refl
answered-reply_all id reply (r ∷ pending) = ground (arith, answered-reply_all id reply pending)

-- the requests that are left and the answers that were sent, of a part of a response
abbrev Split : ℕ → List PollRequest → List PollRequest × List (ℕ × Reply) → Type 0
Split id pending parts = waiting id parts.0 + answered id parts.1 ≡ waiting id pending

answer_all-Split :
    (id : ℕ) (mailbox_keys : List (Key × List ℕ)) (response : List (MailboxId × List MailboxEntry))
    (idx : ℕ) (pending : List PollRequest)
    → Split id pending (answer_all mailbox_keys response idx pending)
unfolding answer_all waiting answered
answer_all-Split id mailbox_keys response idx [] = refl
answer_all-Split id mailbox_keys response idx (request ∷ pending) =
    let rest = answer_all-Split id mailbox_keys response (idx + 1) pending in
    elim (Option-cases (answer_for mailbox_keys response idx request)) [
      | inl no_entry ↦ rw (no_entry, answer_all) (ground (arith, rest))
      | inr (e, found) ↦ rw (found, answer_all) (ground (arith, rest))
    ]

username_poll_response-Split :
    (id : ℕ) (response : Response) (mailbox_keys : List (Key × List ℕ)) (pending : List PollRequest)
    → Split id pending (username_poll_response response mailbox_keys pending)
unfolding username_poll_response waiting answered
username_poll_response-Split id none mailbox_keys pending = omega arith
username_poll_response-Split id (some (err e)) mailbox_keys pending =
    omega (arith, answered-reply_all id (refused e) pending)
username_poll_response-Split id (some (ok [])) mailbox_keys pending = omega arith
username_poll_response-Split id (some (ok (row ∷ rows))) mailbox_keys pending =
    answer_all-Split id mailbox_keys (row ∷ rows) 0 pending

abbrev pub known : ℕ → Worker → ℕ
known id worker = waiting id worker.pending + answered id worker.sent

poll_response-known :
    (id : ℕ) (response : Response) (worker : Worker)
    → known id (turn (poll_response response) worker) ≡ known id worker
unfolding turn
poll_response-known id response worker =
    let keys = (build_args worker.pending).1 in
    let parts = username_poll_response response keys worker.pending in
    omega (
      arith,
      username_poll_response-Split id response keys worker.pending,
      answered-append id parts.1 worker.sent,
    )

shutdown-known : (id : ℕ) (worker : Worker) → known id (turn shutdown worker) ≡ known id worker
unfolding turn waiting
shutdown-known id worker = omega (
  arith,
  answered-append id (reply_all shut_down worker.pending) worker.sent,
  answered-reply_all id shut_down worker.pending,
)

new_request-known :
    (id : ℕ) (request : PollRequest) (worker : Worker)
    → known id (turn (new_request request) worker) ≡ known id worker + waiting id (request ∷ [])
unfolding turn
new_request-known id request worker = omega (arith, waiting-append id worker.pending (request ∷ []))

-- a worker that has stopped stays as it is
run_stopped :
    (events : List WorkerEvent) (worker : Worker)
    → worker.stopped ≡ true
    → run_server_worker events worker ≡ worker
unfolding run_server_worker
run_stopped [] worker h = refl
run_stopped (event ∷ events) worker h =
    ap (λ b. if b then worker else run_server_worker events (turn event worker)) h

run_goes_on :
    (event : WorkerEvent) (events : List WorkerEvent) (worker : Worker)
    → worker.stopped ≡ false
    → run_server_worker (event ∷ events) worker ≡ run_server_worker events (turn event worker)
unfolding run_server_worker
run_goes_on event events worker h =
    ap (λ b. if b then worker else run_server_worker events (turn event worker)) h

-- From a worker that runs, every channel is at any moment as often in the pending requests and the
-- sent answers together as it was at first and in the requests that came since: no request is lost,
-- and none is answered twice.
pub run_server_worker_conserves :
    (id : ℕ) (events : List WorkerEvent) (worker : Worker)
    → worker.stopped ≡ false
    → waiting id (run_server_worker events worker).pending
        + answered id (run_server_worker events worker).sent
      ≡ waiting id worker.pending + answered id worker.sent + asked id events
unfolding run_server_worker asked
run_server_worker_conserves id [] worker runs = omega arith
run_server_worker_conserves id (new_request request ∷ events) worker runs =
    let rest =
      run_server_worker_conserves id events (turn (new_request request) worker)
        (unfold turn in runs) in
    let now : waiting id (request ∷ []) ≡ (if request.respond_to == id then suc 0 else 0) =
      unfold waiting in refl in
    ap (known id) (run_goes_on (new_request request) events worker runs)
    ∙ rest
    ∙ ground (arith, new_request-known id request worker, now)
run_server_worker_conserves id (poll_response response ∷ events) worker runs =
    ap (known id) (run_goes_on (poll_response response) events worker runs)
    ∙ run_server_worker_conserves id events (turn (poll_response response) worker)
        (unfold turn in runs)
    ∙ ap (λ n. n + asked id events) (poll_response-known id response worker)
run_server_worker_conserves id (shutdown ∷ events) worker runs =
    ap (known id) (
      run_goes_on shutdown events worker runs
      ∙ run_stopped events (turn shutdown worker) (unfold turn in refl))
    ∙ shutdown-known id worker
    ∙ omega arith
