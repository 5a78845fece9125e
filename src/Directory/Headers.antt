-- ===== src/Directory/Headers.antt =====
-- libraries/nullspace-dirclient/src/header_sync.rs: the client's copy of the directory's headers.
-- The semaphore makes a sync one step. `get_headers` answers `v1_get_headers`, none where the call
-- fails. A batch that was committed stays when a later step fails, so that a sync returns the table
-- beside its result.

pub mod Chain
pub mod Sync
use xirtam_core.Prelude.{
  ℕ, zero, suc, ◌+◌, ◌-◌, min, Bool, true, false, not, Option, none, some, List, [], ◌∷◌, length,
  leb, ◌==◌, nat_eq, lookup, insert, Result, ok, err, guard, ◌>>=◌, ◌>>◌, if◌then◌else◌,
}
use xirtam_core.Structs.{Hash, zero_hash, DirectoryAnchor, DirectoryHeader}
use xirtam_core.Env.{Env}
use xirtam_core.Crypto.{digest}

-- _dirclient_headers: header and header_hash by height
abbrev pub Headers : Type 0
Headers = List (ℕ × (DirectoryHeader × Hash))

pub data SyncError : Type 0 where
  rpc_failed range_incomplete chain_mismatch anchor_mismatch gap : SyncError

unfoldable pub max_stored_height : Headers → Option ℕ
max_stored_height [] = none
max_stored_height ((height, row) ∷ rows) = elim (max_stored_height rows) [
  | none ↦ some height
  | some best ↦ some (if leb height best then best else height)
]

unfoldable pub load_header : ℕ → Headers → Option DirectoryHeader
load_header height rows = elim (lookup height rows) [ some row ↦ some row.0 | none ↦ none ]

unfoldable pub load_header_hash : ℕ → Headers → Option Hash
load_header_hash height rows = elim (lookup height rows) [ some row ↦ some row.1 | none ↦ none ]

abbrev pub batch_limit : ℕ
batch_limit = 1_000

-- the rows of a batch, oldest first
unfoldable pub commit : List (ℕ × (DirectoryHeader × Hash)) → Headers → Headers
commit [] rows = rows
commit ((height, row) ∷ staged) rows = commit staged (insert height row rows)

module _ (env : Env) where
  -- `Hash::digest(&data)` over the BCS bytes of a header
  unfoldable pub header_hash : DirectoryHeader → Hash
  header_hash header = digest env (env.bcs_header header)

  -- the loop over a batch: the rows to write, and the hash of the last
  unfoldable pub stage :
      ℕ
      → Hash
      → List DirectoryHeader
      → Result SyncError (List (ℕ × (DirectoryHeader × Hash)) × Hash)
  stage next expected_prev [] = ok ([], expected_prev)
  stage next expected_prev (header ∷ headers) = do
    guard (header.prev == expected_prev) chain_mismatch
    let hash = header_hash header
    rest ← stage (next + 1) hash headers
    ok ((next, (header, hash)) ∷ rest.0, rest.1)

  module _ (get_headers : ℕ → ℕ → Option (List DirectoryHeader)) (anchor : DirectoryAnchor) where
    abbrev pub batch_end : ℕ → ℕ
    batch_end next = min (next + batch_limit - 1) anchor.last_header_height

    -- one turn of the `while`, up to the commit
    unfoldable pub fetch_batch :
        ℕ → Hash → Result SyncError (List (ℕ × (DirectoryHeader × Hash)) × Hash)
    fetch_batch next prev_hash = elim (get_headers next (batch_end next)) [
      | none ↦ err rpc_failed
      | some headers ↦ do
        guard (length headers == batch_end next - next + 1) range_incomplete
        stage next prev_hash headers
    ]

    -- The `while`. Every turn starts at a greater height, so that as many turns as there are
    -- heights left are enough fuel.
    unfoldable pub sync_loop : ℕ → ℕ → Hash → Headers → Headers × Result SyncError Hash
    sync_loop zero next prev_hash rows = (rows, ok prev_hash)
    sync_loop (suc fuel) next prev_hash rows =
        if leb next anchor.last_header_height
        then elim (fetch_batch next prev_hash) [
          | err e ↦ (rows, err e)
          | ok batch ↦ sync_loop fuel (batch_end next + 1) batch.1 (commit batch.0 rows)
        ]
        else (rows, ok prev_hash)

    abbrev pub check_anchor :
        Headers × Result SyncError Hash → Headers × Result SyncError (Unit {0})
    check_anchor (rows, err e) = (rows, err e)
    check_anchor (rows, ok prev_hash) =
        (rows, if prev_hash == anchor.last_header_hash then ok tt else err anchor_mismatch)

    -- the heights left, and so the fuel
    abbrev pub turns : ℕ → ℕ
    turns next = anchor.last_header_height + 1 - next

    unfoldable pub sync_headers : Headers → Headers × Result SyncError (Unit {0})
    sync_headers rows = elim (max_stored_height rows) [
      | none ↦ check_anchor (sync_loop (turns 0) 0 zero_hash rows)
      | some current ↦ elim (load_header_hash current rows) [
        | none ↦ (rows, err gap)
        | some prev_hash ↦
            check_anchor (sync_loop (turns (current + 1)) (current + 1) prev_hash rows)
      ]
    ]
