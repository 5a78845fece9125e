-- ===== src/Client/LongPoll.antt =====
-- libraries/nullspace-client/src/long_poll.rs: the worker of a server, which merges the requests of
-- its callers into one long poll. An event is what wins the race of a turn; the answers that it sends
-- are collected. A `HashMap` is an association list. The channel of a request is a number.
use xirtam_core.Prelude.{
  ℕ, ◌+◌, ◌*◌, ◌-◌, ◌^◌, ◌/◌, ◌≡◌, ◌↔◌, Bool, true, false, ◌&&◌, Option, none, some, List, [], ◌∷◌,
  ◌++◌, map, String, ltb, leb, ◌==◌, nat_eq, pair_eq, lookup, insert, contains, min, Result, ok,
  err, if◌then◌else◌,
}
use xirtam_core.Structs.{
  Bytes, AuthToken, MailboxId, NanoTimestamp, MailboxEntry, MailboxRecvArgs, ServerRpcError,
}
pub mod Bounds
pub mod Answered

abbrev pub long_poll_min_ms : ℕ
long_poll_min_ms = 15_000

abbrev pub long_poll_max_ms : ℕ
long_poll_max_ms = 30 * 60 * 1000

abbrev pub long_poll_inc_ms : ℕ
long_poll_inc_ms = 5_000

pub record PollRequest : Type 0 where
  pub auth : AuthToken
  pub mailbox : MailboxId
  pub after : NanoTimestamp
  pub respond_to : ℕ

-- what a caller is told
pub data Reply : Type 0 where
  entry : MailboxEntry → Reply
  refused : ServerRpcError → Reply
  shut_down : Reply

-- none where the call fails
abbrev pub Response : Type 0
Response = Option (Result ServerRpcError (List (MailboxId × List MailboxEntry)))

pub data WorkerEvent : Type 0 where
  new_request : PollRequest → WorkerEvent
  poll_response : Response → WorkerEvent
  shutdown : WorkerEvent

pub record Worker : Type 0 where
  pub pending : List PollRequest
  pub timeout_ms : ℕ
  -- the answers that were sent, the last first
  pub sent : List (ℕ × Reply)
  pub stopped : Bool

-- `u64::saturating_add` and `clamp`
abbrev pub saturating_add : ℕ → ℕ → ℕ
saturating_add a b = min (a + b) (2 ^ 64 - 1)

abbrev pub clamp : ℕ → ℕ → ℕ → ℕ
clamp low high n = if ltb n low then low else if ltb high n then high else n

unfoldable pub aimd_increase : ℕ → ℕ
aimd_increase current =
    clamp long_poll_min_ms long_poll_max_ms (saturating_add current long_poll_inc_ms)

-- Half of a number below 2 ^ 53 is exact in `f64`, and the cast drops the fraction.
unfoldable pub aimd_decrease : ℕ → ℕ
aimd_decrease current = clamp long_poll_min_ms long_poll_max_ms (current / 2)

abbrev pub Key : Type 0
Key = MailboxId × AuthToken

abbrev pub key_of : PollRequest → Key
key_of request = (request.mailbox, request.auth)

-- `indices.entry(key).or_default().push(idx)`
abbrev pub push_index : Key → ℕ → List (Key × List ℕ) → List (Key × List ℕ)
push_index key idx indices = elim (lookup key indices) [
  | none ↦ insert key (idx ∷ []) indices
  | some list ↦ insert key (list ++ idx ∷ []) indices
]

-- `min_after.entry(key).and_modify(..).or_insert(req.after)`
abbrev pub lower : Key → NanoTimestamp → List (Key × NanoTimestamp) → List (Key × NanoTimestamp)
lower key after min_after = elim (lookup key min_after) [
  | none ↦ insert key after min_after
  | some existing ↦ insert key (if ltb after existing then after else existing) min_after
]

-- the loop of `build_args`, from an index on
unfoldable pub build_from :
    ℕ
    → List PollRequest
    → List (Key × NanoTimestamp) × List (Key × List ℕ)
    → List (Key × NanoTimestamp) × List (Key × List ℕ)
build_from idx [] maps = maps
build_from idx (request ∷ pending) maps =
    build_from (idx + 1) pending
      (lower (key_of request) request.after maps.0, push_index (key_of request) idx maps.1)

abbrev pub recv_args : Key × NanoTimestamp → MailboxRecvArgs
recv_args row = record { auth = row.0.1; mailbox = row.0.0; after = row.1 }

unfoldable pub build_args : List PollRequest → List MailboxRecvArgs × List (Key × List ℕ)
build_args pending = let maps = build_from 0 pending ([], []) in (map recv_args maps.0, maps.1)

-- the first entry that is newer
unfoldable pub first_newer : NanoTimestamp → List MailboxEntry → Option MailboxEntry
first_newer after [] = none
first_newer after (e ∷ entries) =
    let rest = first_newer after entries in if ltb after e.received_at then some e else rest

-- what a request at an index gets from a response
unfoldable pub answer_for :
    List (Key × List ℕ)
    → List (MailboxId × List MailboxEntry)
    → ℕ
    → PollRequest
    → Option MailboxEntry
answer_for mailbox_keys response idx request = elim (lookup (key_of request) mailbox_keys) [
  | none ↦ none
  | some indices ↦
      if contains indices idx
      then elim (lookup request.mailbox response) [
        | none ↦ none
        | some entries ↦ first_newer request.after entries
      ]
      else none
]

-- the loop over the pending requests: those still pending, and the answers that were sent
unfoldable pub answer_all :
    List (Key × List ℕ)
    → List (MailboxId × List MailboxEntry)
    → ℕ
    → List PollRequest
    → List PollRequest × List (ℕ × Reply)
answer_all mailbox_keys response idx [] = ([], [])
answer_all mailbox_keys response idx (request ∷ pending) =
    let (still, sent) = answer_all mailbox_keys response (idx + 1) pending in
    elim (answer_for mailbox_keys response idx request) [
      | none ↦ (request ∷ still, sent)
      | some e ↦ (still, (request.respond_to, entry e) ∷ sent)
    ]

-- `for request in pending.drain(..)`
abbrev pub reply_all : Reply → List PollRequest → List (ℕ × Reply)
reply_all reply pending = map (λ request. (request.respond_to, reply)) pending

unfoldable pub username_poll_response :
    Response → List (Key × List ℕ) → List PollRequest → List PollRequest × List (ℕ × Reply)
username_poll_response none mailbox_keys pending = (pending, [])
username_poll_response (some (err e)) mailbox_keys pending = ([], reply_all (refused e) pending)
username_poll_response (some (ok [])) mailbox_keys pending = (pending, [])
username_poll_response (some (ok (row ∷ rows))) mailbox_keys pending =
    answer_all mailbox_keys (row ∷ rows) 0 pending

-- the `match &response` that sets the timeout
unfoldable pub next_timeout : Response → ℕ → ℕ
next_timeout none timeout_ms = aimd_decrease timeout_ms
next_timeout (some (err e)) timeout_ms = timeout_ms
next_timeout (some (ok [])) timeout_ms = aimd_increase timeout_ms
next_timeout (some (ok (row ∷ rows))) timeout_ms = timeout_ms

unfoldable pub new_worker : Worker
new_worker = record { pending = []; timeout_ms = long_poll_min_ms; sent = []; stopped = false }

-- One turn of `run_server_worker`. While nothing is pending the worker only waits for a request.
unfoldable pub turn : WorkerEvent → Worker → Worker
turn (new_request request) worker = record worker { pending = worker.pending ++ request ∷ [] }
turn shutdown worker = record worker {
  pending = [];
  sent = reply_all shut_down worker.pending ++ worker.sent;
  stopped = true;
}
turn (poll_response response) worker =
    let (still, replies) =
      username_poll_response response (build_args worker.pending).1 worker.pending in
    record worker {
      pending = still;
      timeout_ms = next_timeout response worker.timeout_ms;
      sent = replies ++ worker.sent;
    }

-- the loop, on the events that come, until it breaks
unfoldable pub run_server_worker : List WorkerEvent → Worker → Worker
run_server_worker [] worker = worker
run_server_worker (event ∷ events) worker =
    let rest = run_server_worker events (turn event worker) in
    if worker.stopped then worker else rest
