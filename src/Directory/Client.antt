-- ===== src/Directory/Client.antt =====
-- The client of the directory: libraries/nullspace-dirclient/src/lib.rs. The answers of the
-- directory are arguments, none where a call fails; `anchors` are the answers of `v1_get_anchor` in
-- the order in which the loop asks for them. The pool of headers and the cache of anchors are the
-- client's state; the cache is not evicted here.
use xirtam_core.Prelude.{
  ℕ, Bool, true, false, not, Option, none, some, List, [], ◌∷◌, String, ltb, ◌==◌, nat_eq,
  string_eq, lookup, insert, any, Result, ok, err, guard, or_fail, ◌>>=◌, ◌>>◌, if◌then◌else◌,
}
use xirtam_core.Structs.{
  Bytes, Hash, SigningPublic, SigningSecret, Blob, DirectoryAnchor, DirectoryHeader,
  DirectoryUpdate, DirectoryUpdateInner, add_owner, del_owner, update, DirectoryHistoryError,
  DirectoryResponse,
}
use xirtam_core.Env.{Env}
use xirtam_core.Crypto.{verify}
use xirtam_core.Directory.History.{
  verify_history, prev_update_hash, signed_update, update_hash, DirectoryListing, build_listing,
}
use xirtam_core.Directory.Headers.{Headers, SyncError, max_stored_height, load_header, sync_headers}
use xirtam_core.Directory.Merkle.{Smt, key_hash}
use xirtam_core.Directory.Serve.{anchor_signable}
pub mod Verified
pub mod Honest

pub record DirClient : Type 0 where
  pub anchor_pk : SigningPublic
  pub pool : Headers
  pub anchor_cache : List (ℕ × DirectoryAnchor)

pub data ClientError : Type 0 where
  rpc_failed no_answer invalid_signature header_chain_mismatch no_header invalid_proof : ClientError
  unexpected_kind undecodable timeout : ClientError
  sync_failed : SyncError → ClientError
  bad_history : DirectoryHistoryError → ClientError

-- `?` on another error type
abbrev pub lift {ℓ κ} :
    {E : Type ℓ} {A : Type κ} → (E → ClientError) → Result E A → Result ClientError A
lift f (err e) = err (f e)
lift f (ok a) = ok a

module _ (env : Env) where
  unfoldable pub anchor_verified : SigningPublic → DirectoryAnchor → Bool
  unfolding verify
  anchor_verified pk anchor = verify env (anchor_signable env) anchor pk

  -- the future of `try_get_with`: the first anchor that is not below the height
  unfoldable pub await_anchor :
      SigningPublic → ℕ → List (Option DirectoryAnchor) → Result ClientError DirectoryAnchor
  await_anchor pk height [] = err no_answer
  await_anchor pk height (none ∷ anchors) = err rpc_failed
  await_anchor pk height (some anchor ∷ anchors) =
      let rest = await_anchor pk height anchors in
      if anchor_verified pk anchor
      then if ltb anchor.last_header_height height then rest else ok anchor
      else err invalid_signature

  -- `anchor_cache.try_get_with`: only an anchor that was found is kept
  unfoldable pub try_get_with :
      ℕ → List (Option DirectoryAnchor) → DirClient → DirClient × Result ClientError DirectoryAnchor
  try_get_with height anchors client = elim (lookup height client.anchor_cache) [
    | some anchor ↦ (client, ok anchor)
    | none ↦ elim (await_anchor client.anchor_pk height anchors) [
      | err e ↦ (client, err e)
      | ok anchor ↦
          (record client { anchor_cache = insert height anchor client.anchor_cache }, ok anchor)
    ]
  ]

  -- an empty history is absence from the tree
  abbrev pub history_value : List DirectoryUpdate → Bytes
  history_value [] = []
  history_value (u ∷ us) = env.bcs_history (u ∷ us)

  module _ {ℓ} {Tree : Type ℓ} (smt : Smt Tree) where
    unfoldable pub verify_response :
        Headers → String → DirectoryAnchor → DirectoryResponse → Result ClientError (Unit {0})
    verify_response pool key anchor response = do
      guard (not (ltb anchor.last_header_height response.proof_height)) header_chain_mismatch
      header ← or_fail (load_header response.proof_height pool) no_header
      guard
          (smt.verify_proof response.proof_merkle_branch header.smt_root (key_hash env key)
            (history_value response.history))
          invalid_proof

    module _ (get_headers : ℕ → ℕ → Option (List DirectoryHeader)) where
      -- the part after the anchor is known
      unfoldable pub sync_and_verify :
          String
          → DirectoryResponse
          → DirectoryAnchor
          → DirClient
          → DirClient × Result ClientError DirectoryResponse
      sync_and_verify key response anchor client =
          let (pool, synced) = sync_headers env get_headers anchor client.pool in
          (
            record client { pool = pool },
            (do lift sync_failed synced; verify_response pool key anchor response; ok response),
          )

      unfoldable pub fetch_verified_response :
          String
          → Option DirectoryResponse
          → List (Option DirectoryAnchor)
          → DirClient
          → DirClient × Result ClientError DirectoryResponse
      fetch_verified_response key none anchors client = (client, err rpc_failed)
      fetch_verified_response key (some response) anchors client =
          let (cached, found) = try_get_with response.proof_height anchors client in
          elim found [
            | err e ↦ (cached, err e)
            | ok anchor ↦ sync_and_verify key response anchor cached
          ]

  unfoldable pub query_raw :
      Result ClientError DirectoryResponse → Result ClientError DirectoryListing
  query_raw fetched = do response ← fetched; lift bad_history (build_listing env response)

  -- `get_user_descriptor` and `get_server_descriptor` from the listing on, with the kind of the blob
  -- and its decoder
  unfoldable pub get_descriptor {κ} :
      {A : Type κ} → String → (Bytes → Option A) → DirectoryListing → Result ClientError (Option A)
  get_descriptor kind decode listing = elim listing.latest [
    | none ↦ ok none
    | some latest ↦ do
      guard (latest.kind == kind) unexpected_kind
      descriptor ← or_fail (decode latest.inner) undecodable
      ok (some descriptor)
  ]

  -- `fetched` is what `fetch_verified_response` gives for the name
  unfoldable pub get_user_descriptor {κ} :
      {A : Type κ}
      → (Bytes → Option A)
      → Result ClientError DirectoryResponse
      → Result ClientError (Option A)
  get_user_descriptor decode fetched = do
    listing ← query_raw fetched
    get_descriptor "v1.user_descriptor" decode listing

  unfoldable pub get_server_descriptor {κ} :
      {A : Type κ}
      → (Bytes → Option A)
      → Result ClientError DirectoryResponse
      → Result ClientError (Option A)
  get_server_descriptor decode fetched = do
    listing ← query_raw fetched
    get_descriptor "v1.server_descriptor" decode listing

  -- the update that follows a response
  unfoldable pub next_update :
      DirectoryUpdateInner → SigningSecret → DirectoryResponse → Result ClientError DirectoryUpdate
  next_update update_type signer response = do
    lift bad_history (verify_history env response.history)
    ok (signed_update env (prev_update_hash env response.history) update_type signer)

  -- one turn of `wait_for_update`
  unfoldable pub has_update : Hash → DirectoryResponse → Bool
  has_update expected_hash response = any (λ u. update_hash env u == expected_hash) response.history

  -- `wait_for_update`, on the responses that it fetches until the time is up
  unfoldable pub wait_for_update :
      Hash → List (Result ClientError DirectoryResponse) → Result ClientError (Unit {0})
  wait_for_update expected_hash [] = err timeout
  wait_for_update expected_hash (fetched ∷ later) =
      let rest = wait_for_update expected_hash later in
      do response ← fetched; if has_update expected_hash response then ok tt else rest

  -- `inserted` is the proof of work and the call of `v1_insert_update`; `later` are the responses
  -- that are fetched while the client waits.
  module _ (inserted : DirectoryUpdate → Result ClientError (Unit {0}))
      (later : List (Result ClientError DirectoryResponse)) where
    unfoldable pub insert_raw : DirectoryUpdate → Result ClientError (Unit {0})
    insert_raw u = do inserted u; wait_for_update (update_hash env u) later

    unfoldable pub publish :
        DirectoryUpdateInner
        → SigningSecret
        → Result ClientError DirectoryResponse
        → Result ClientError (Unit {0})
    publish update_type signer fetched = do
      response ← fetched
      u ← next_update update_type signer response
      insert_raw u

    -- the descriptor as its BCS bytes
    unfoldable pub insert_user_descriptor :
        Bytes → SigningSecret → Result ClientError DirectoryResponse → Result ClientError (Unit {0})
    insert_user_descriptor descriptor =
        publish (update (record { kind = "v1.user_descriptor"; inner = descriptor }))

    unfoldable pub insert_server_descriptor :
        Bytes → SigningSecret → Result ClientError DirectoryResponse → Result ClientError (Unit {0})
    insert_server_descriptor descriptor =
        publish (update (record { kind = "v1.server_descriptor"; inner = descriptor }))

    unfoldable pub add_owner_update :
        SigningPublic
        → SigningSecret
        → Result ClientError DirectoryResponse
        → Result ClientError (Unit {0})
    add_owner_update owner = publish (add_owner owner)

    unfoldable pub add_server_owner_update :
        SigningPublic
        → SigningSecret
        → Result ClientError DirectoryResponse
        → Result ClientError (Unit {0})
    add_server_owner_update owner = publish (add_owner owner)

    unfoldable pub del_owner_update :
        SigningPublic
        → SigningSecret
        → Result ClientError DirectoryResponse
        → Result ClientError (Unit {0})
    del_owner_update owner = publish (del_owner owner)

    unfoldable pub del_server_owner_update :
        SigningPublic
        → SigningSecret
        → Result ClientError DirectoryResponse
        → Result ClientError (Unit {0})
    del_server_owner_update owner = publish (del_owner owner)

-- `sync_progress`
unfoldable pub sync_progress : Option DirectoryAnchor → DirClient → Result ClientError (ℕ × ℕ)
sync_progress none client = err rpc_failed
sync_progress (some anchor) client = ok (
  (elim (max_stored_height client.pool) [ none ↦ 0 | some height ↦ height ]),
  anchor.last_header_height,
)
