-- ===== src/Directory/Serve.antt =====
-- The handlers of the directory server and the task that commits chunks:
-- binaries/nullspace-directory/src/server.rs. The clock, random bytes and the answer of the origin
-- that a mirror forwards to are arguments. A handler returns the state beside its result.
use xirtam_core.Prelude.{
  ℕ, ◌+◌, Bool, true, false, Option, none, some, List, [], ◌∷◌, ◌++◌, String, ltb, leb, nat_eq,
  lookup, insert, Result, ok, err, or_fail, guard, ◌>>=◌, ◌>>◌, if◌then◌else◌, string_eq,
}
use xirtam_core.Structs.{
  Bytes, Hash, SigningSecret, Timestamp, zero_hash, blank_signature, PowSeed, PowSolution,
  DirectoryErr, retry_later, update_rejected, DirectoryAnchor, DirectoryHeader, DirectoryUpdate,
  DirectoryHistoryError, no_owners, invalid_signature, invalid_prev_hash, DirectoryResponse,
  DirectoryChunk,
}
use xirtam_core.Env.{Env}
use xirtam_core.Crypto.{Signable, sign}
use xirtam_core.Directory.History.{verify_history}
use xirtam_core.Directory.Headers.{header_hash}
use xirtam_core.Directory.Merkle.{Smt, key_hash, decode_history, load_history_from_smt}
use xirtam_core.Directory.Pow.{Equix, pow_effort, new_seed, validate_solution}
use xirtam_core.Directory.State.{
  Updates, MirrorState, DirectoryState, insert_pow_seed, fetch_pow_seed, purge_pow_seeds,
  load_last_header, insert_chunk, load_headers, load_chunk,
}
pub mod Loops
pub mod Committed
pub mod Growth
pub mod Steps
pub mod Staged
pub mod Progress
pub mod Answers
pub mod Lost

-- `DirectoryHistoryError`'s messages
abbrev pub history_error : DirectoryHistoryError → DirectoryErr
history_error no_owners = update_rejected "no owners available to verify update"
history_error invalid_signature = update_rejected "invalid update signature"
history_error invalid_prev_hash = update_rejected "update hash does not link to previous update"

-- `verify_history().map_err(..)`
abbrev pub or_rejected : Result DirectoryHistoryError (Unit {0}) → Result DirectoryErr (Unit {0})
or_rejected (err e) = err (history_error e)
or_rejected (ok u) = ok u

-- `staging.get(&key)`, no updates where there is no entry
unfoldable pub pending : String → Updates → List DirectoryUpdate
pending key updates = elim (lookup key updates) [ none ↦ [] | some list ↦ list ]

unfoldable pub v1_get_pow_seed : Timestamp → Hash → DirectoryState → DirectoryState × PowSeed
v1_get_pow_seed now seed_bytes state =
    let seed = new_seed now seed_bytes in
    (purge_pow_seeds now (insert_pow_seed seed pow_effort state), seed)

unfoldable pub v1_get_chunk : ℕ → DirectoryState → Result DirectoryErr DirectoryChunk
v1_get_chunk height state = or_fail (load_chunk height state) (update_rejected "chunk not found")

unfoldable pub v1_get_headers : ℕ → ℕ → DirectoryState → Result DirectoryErr (List DirectoryHeader)
v1_get_headers first last state = ok (load_headers first last state)

-- `if let Some(mirror) = &self.state.mirror { return .. }`
abbrev pub at_origin {ℓ} : {A : Type ℓ} → Option MirrorState → A → A → A
at_origin (some mirror) forwarded here = forwarded
at_origin none forwarded here = here

module _ (env : Env) where
  -- impl Signable for DirectoryAnchor
  abbrev pub anchor_signable : Signable DirectoryAnchor
  anchor_signable = record {
    signed_value = λ a. env.bcs_anchor_body a.directory_id a.last_header_height a.last_header_hash;
    signature = λ a. a.signature;
    set_signature = λ a s. record a { signature = s };
  }

  unfoldable pub v1_get_anchor : DirectoryState → Result DirectoryErr DirectoryAnchor
  v1_get_anchor state = elim state.mirror [
    | some mirror ↦ or_fail mirror.anchor retry_later
    | none ↦ do
      secret_key ← or_fail state.secret_key retry_later
      last ← or_fail (load_last_header state) retry_later
      ok (
          sign env anchor_signable
            (record {
              directory_id = state.directory_id;
              last_header_height = last.0;
              last_header_hash = header_hash env last.1;
              signature = blank_signature;
            })
            secret_key)
  ]

  -- the height, the hash to name and the root to build on: the last header's, or those of the start
  unfoldable pub next_place : DirectoryState → ℕ × (Hash × Option Hash)
  next_place state = elim (load_last_header state) [
    | none ↦ (0, (zero_hash, none))
    | some last ↦ (last.0 + 1, (header_hash env last.1, some last.1.smt_root))
  ]

  module _ {ℓ} {Tree : Type ℓ} (smt : Smt Tree) where
    unfoldable pub build_history_and_proof :
        String → Hash → Result DirectoryErr (List DirectoryUpdate × Bytes)
    build_history_and_proof key root = do
      (val, proof) ←
          or_fail (smt.get_with_proof (smt.open_tree root) (key_hash env key)) retry_later
      history ← or_fail (decode_history env val) retry_later
      ok (history, proof)

    unfoldable pub v1_get_item : String → DirectoryState → Result DirectoryErr DirectoryResponse
    v1_get_item key state = do
      last ← or_fail (load_last_header state) retry_later
      (history, proof) ← build_history_and_proof key last.1.smt_root
      ok (record { history = history; proof_height = last.0; proof_merkle_branch = proof })

    -- of `v1_insert_update`, what comes after the purge and before the lock on `staging`
    unfoldable pub admit_update :
        Equix
        → Timestamp
        → String
        → PowSolution
        → DirectoryState
        → Result DirectoryErr (List DirectoryUpdate)
    admit_update equix now key pow_solution state = do
      (use_before, effort) ←
          or_fail (fetch_pow_seed pow_solution.seed state) (update_rejected "unknown pow seed")
      guard (ltb now use_before) (update_rejected "pow seed expired")
      validate_solution env equix
          (record { effort = effort; seed = pow_solution.seed; use_before = use_before }) effort
          pow_solution
      last ← or_fail (load_last_header state) retry_later
      load_history_from_smt env smt last.1.smt_root key

  -- of `v1_insert_update`, what is done under the lock, with the history that was read before it
  unfoldable pub stage_update :
      String
      → DirectoryUpdate
      → List DirectoryUpdate
      → DirectoryState
      → DirectoryState × Result DirectoryErr (Unit {0})
  stage_update key update history state =
      let waiting = pending key state.staging in
      elim (verify_history env (history ++ waiting ++ update ∷ [])) [
        | err e ↦ (state, err (history_error e))
        | ok _ ↦
            (record state { staging = insert key (waiting ++ update ∷ []) state.staging }, ok tt)
      ]

  module _ {ℓ} {Tree : Type ℓ} (smt : Smt Tree) where
    -- `v1_insert_update`, on a server that is no mirror
    unfoldable pub insert_here :
        Equix
        → Timestamp
        → String
        → DirectoryUpdate
        → PowSolution
        → DirectoryState
        → DirectoryState × Result DirectoryErr (Unit {0})
    insert_here equix now key update pow_solution state =
        let purged = purge_pow_seeds now state in
        elim (admit_update smt equix now key pow_solution purged) [
          | err e ↦ (purged, err e)
          | ok history ↦ stage_update key update history purged
        ]

    unfoldable pub v1_insert_update :
        Equix
        → (String → DirectoryUpdate → PowSolution → Result DirectoryErr (Unit {0}))
        → Timestamp
        → String
        → DirectoryUpdate
        → PowSolution
        → DirectoryState
        → DirectoryState × Result DirectoryErr (Unit {0})
    v1_insert_update equix forward_insert now key update pow_solution state =
        at_origin state.mirror (state, forward_insert key update pow_solution)
          (insert_here equix now key update pow_solution state)

    -- the history of a key under the last root; before the first header there is none
    unfoldable pub base_history : Option Hash → String → Result DirectoryErr (List DirectoryUpdate)
    base_history none key = ok []
    base_history (some root) key = load_history_from_smt env smt root key

    -- the first loop of `commit_chunk`
    unfoldable pub check_updates : Option Hash → Updates → Result DirectoryErr (Unit {0})
    check_updates root [] = ok tt
    check_updates root ((key, list) ∷ updates) = do
      history ← base_history root key
      or_rejected (verify_history env (history ++ list))
      check_updates root updates

    -- the second loop
    unfoldable pub write_updates : Option Hash → Updates → Tree → Result DirectoryErr Tree
    write_updates root [] tree = ok tree
    write_updates root ((key, list) ∷ updates) tree = do
      history ← base_history root key
      written ←
          or_fail (smt.write tree (key_hash env key) (env.bcs_history (history ++ list)))
            retry_later
      write_updates root updates written

    -- the tree to write to
    abbrev pub base_tree : Option Hash → Tree
    base_tree none = smt.empty_tree
    base_tree (some root) = smt.open_tree root

    -- both loops and the commit of the tree: the new root
    unfoldable pub build_root : Option Hash → Updates → Result DirectoryErr Hash
    build_root root updates = do
      check_updates root updates
      tree ← write_updates root updates (base_tree root)
      or_fail (smt.commit_tree tree) retry_later

    -- The staged updates are taken first, and are gone also where the rest fails. The source's error
    -- only goes to a log; it stands here as a `DirectoryErr`.
    unfoldable pub commit_chunk :
        Timestamp → DirectoryState → DirectoryState × Result DirectoryErr (Unit {0})
    commit_chunk now state =
        let taken = record state { staging = [] } in
        let (height, (prev, root)) = next_place state in
        elim (build_root root state.staging) [
          | err e ↦ (taken, err e)
          | ok smt_root ↦
              let header : DirectoryHeader = record {
                prev = prev;
                smt_root = smt_root;
                time_unix = now;
              } in
              let chunk : DirectoryChunk = record { header = header; updates = state.staging } in
              elim (insert_chunk height header (header_hash env header) chunk taken) [
                | none ↦ (taken, err retry_later)
                | some committed ↦ (committed, ok tt)
              ]
        ]
