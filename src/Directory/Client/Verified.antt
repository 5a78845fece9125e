-- ===== src/Directory/Client/Verified.antt =====
-- A response that the client accepts is what the tree holds, under a header of the client's chain,
-- with an anchor that the directory signed.
use xirtam_core.Prelude.{
  ℕ, ◌+◌, ◌≤◌, ◌<◌, ◌≡◌, refl, sym, ◌∙◌, ap, subst, inl, inr, ◌⊎◌, Bool, true, false, not, Option,
  none, some, List, [], ◌∷◌, String, ltb, leb, leb→le, leb-false, nat_eq, Bool-cases, Option-cases,
  arith, Result, ok, err, guard, guard-eq-ok, >>=-eq-ok, or_fail-eq-ok, ok-inj, err-ne-ok,
  Result-cases,
}
use xirtam_core.Prelude.Dict.{lookup}
use xirtam_core.Structs.{
  Hash, SigningPublic, DirectoryAnchor, DirectoryHeader, DirectoryUpdate, DirectoryResponse,
}
use xirtam_core.Env.{Env, ReadsHistories}
use xirtam_core.Directory.Headers.{Headers, load_header, sync_headers}
use xirtam_core.Directory.Headers.Chain.{IsChain}
use xirtam_core.Directory.Headers.Sync.{sync_headers-IsChain, sync_headers-anchored, start}
use xirtam_core.Directory.Merkle.{
  Smt, ProofsSound, key_hash, decode_history, decode_history-bcs, history_in,
}
use xirtam_core.Directory.Client.{
  DirClient, ClientError, no_header, sync_failed, lift, anchor_verified, await_anchor, try_get_with,
  history_value, verify_response, sync_and_verify, fetch_verified_response,
}

module _ (env : Env) where
  -- Every anchor in the cache was signed by the directory.
  abbrev pub IsSigned : DirClient → Type 0
  IsSigned client =
      (height : ℕ) (anchor : DirectoryAnchor)
      → lookup height client.anchor_cache ≡ some anchor
      → anchor_verified env client.anchor_pk anchor ≡ true

  await_anchor_verified :
      (pk : SigningPublic) (height : ℕ) (anchors : List (Option DirectoryAnchor))
      (anchor : DirectoryAnchor)
      → await_anchor env pk height anchors ≡ ok anchor
      → anchor_verified env pk anchor ≡ true
  unfolding await_anchor
  await_anchor_verified pk height [] anchor h = absurd (err-ne-ok h)
  await_anchor_verified pk height (none ∷ anchors) anchor h = absurd (err-ne-ok h)
  await_anchor_verified pk height (some a ∷ anchors) anchor h =
      elim (Bool-cases (anchor_verified env pk a)) [
        | inr bad ↦ absurd (err-ne-ok (rw bad at h))
        | inl good ↦ elim (Bool-cases (ltb a.last_header_height height)) [
          | inl low ↦ await_anchor_verified pk height anchors anchor (rw (good, low) at h)
          | inr fits ↦
              subst (λ x. anchor_verified env pk x ≡ true) (ok-inj (rw (good, fits) at h)) good
        ]
      ]

  try_get_with-IsSigned :
      (height : ℕ) (anchors : List (Option DirectoryAnchor)) (client : DirClient)
      (anchor : DirectoryAnchor)
      → IsSigned client
      → (try_get_with env height anchors client).1 ≡ ok anchor
      → (anchor_verified env client.anchor_pk anchor ≡ true)
        × ((try_get_with env height anchors client).0.pool ≡ client.pool)
  unfolding try_get_with
  try_get_with-IsSigned height anchors client anchor signed h =
      elim (Option-cases (lookup height client.anchor_cache)) [
        | inr (cached, hit) ↦ (
          subst (λ x. anchor_verified env client.anchor_pk x ≡ true)
              (ok-inj (rw (hit, try_get_with) at h)) (signed height cached hit),
          rw (hit, try_get_with) refl,
        )
        | inl miss ↦ elim (Result-cases (await_anchor env client.anchor_pk height anchors)) [
          | inl (e, failed) ↦ absurd (err-ne-ok (rw (failed) at (rw (miss, try_get_with) at h)))
          | inr (found, awaited) ↦ (
            subst (λ x. anchor_verified env client.anchor_pk x ≡ true)
                (ok-inj (rw awaited at (rw (miss, try_get_with) at h)))
                (await_anchor_verified client.anchor_pk height anchors found awaited),
            rw (miss, try_get_with) (rw awaited refl),
          )
        ]
      ]

  guard-ok : (b : Bool) (e : ClientError) → guard b e ≡ ok tt → b ≡ true
  guard-ok true e h = refl
  guard-ok false e h = cc

  module _ {ℓ} {Tree : Type ℓ} (smt : Smt Tree) (sound : ProofsSound smt)
      (reads : ReadsHistories env) where
    value_holds :
        (tree : Tree) (hash : Hash) (history : List DirectoryUpdate)
        → smt.get tree hash ≡ some (history_value env history)
        → history_in env smt tree hash ≡ some history
    unfolding history_in decode_history
    value_holds tree hash [] got = rw (got, history_in) refl
    value_holds tree hash (u ∷ us) got =
        rw (got, history_in) (decode_history-bcs env reads (u ∷ us))

    -- what `verify_response` shows
    pub verify_response_sound :
        (pool : Headers) (key : String) (anchor : DirectoryAnchor) (response : DirectoryResponse)
        → verify_response env smt pool key anchor response ≡ ok tt
        → (response.proof_height ≤ anchor.last_header_height)
          × ((header : DirectoryHeader) × (load_header response.proof_height pool ≡ some header)
              × (history_in env smt (smt.open_tree header.smt_root) (key_hash env key)
                  ≡ some response.history))
    unfolding verify_response
    verify_response_sound pool key anchor response h =
        let (below, h1) =
          guard-eq-ok (not (ltb anchor.last_header_height response.proof_height)) _ _ h in
        let (header, loaded, h2) =
          or_fail-eq-ok (load_header response.proof_height pool) no_header _ h1 in
        let proved =
          sound response.proof_merkle_branch header.smt_root (key_hash env key)
            (history_value env response.history) (guard-ok _ _ h2) in
        (
          ground (arith, below),
          (
            header,
            loaded,
            value_holds (smt.open_tree header.smt_root) (key_hash env key) response.history proved,
          ),
        )

    lift-ok :
        {E : Type 0} (f : E → ClientError) (r : Result E (Unit {0})) → lift f r ≡ ok tt → r ≡ ok tt
    lift-ok f (err e) h = absurd (err-ne-ok h)
    lift-ok f (ok u) h = refl

    module _ (get_headers : ℕ → ℕ → Option (List DirectoryHeader)) (key : String)
        (anchors : List (Option DirectoryAnchor)) (client : DirClient)
        (chain : IsChain env client.pool) (signed : IsSigned client) where
      -- what the client knows of a response that it accepts
      pub record Backed (after : DirClient) (response : DirectoryResponse) : Type 0 where
        pub anchor : DirectoryAnchor
        pub header : DirectoryHeader
        pub anchored : anchor_verified env client.anchor_pk anchor ≡ true
        pub within : response.proof_height ≤ anchor.last_header_height
        pub chained : IsChain env after.pool
        pub stored : load_header response.proof_height after.pool ≡ some header
        -- the chain has the anchor's hash at the anchor's height, unless it was longer before
        pub ends :
            (anchor.last_header_height + 1 < start env get_headers anchor client.pool)
            ⊎ ((row : DirectoryHeader × Hash) × (lookup anchor.last_header_height after.pool
                  ≡ some row)
                × (row.1 ≡ anchor.last_header_hash))

      sync_and_verify_sound :
          (response accepted : DirectoryResponse) (anchor : DirectoryAnchor) (cached : DirClient)
          → anchor_verified env client.anchor_pk anchor ≡ true
          → cached.pool ≡ client.pool
          → (sync_and_verify env smt get_headers key response anchor cached).1 ≡ ok accepted
          → (b : Backed (sync_and_verify env smt get_headers key response anchor cached).0 accepted)
            × (accepted ≡ response)
            × (history_in env smt (smt.open_tree b.header.smt_root) (key_hash env key)
                ≡ some accepted.history)
      unfolding sync_and_verify
      sync_and_verify_sound response accepted anchor cached good same h =
          let rows = cached.pool in
          let (u, lifted, h1) =
            >>=-eq-ok (lift sync_failed (sync_headers env get_headers anchor rows).1) _ h in
          let synced = lift-ok sync_failed (sync_headers env get_headers anchor rows).1 lifted in
          let (v, verified, h2) =
            >>=-eq-ok
              (verify_response env smt (sync_headers env get_headers anchor rows).0 key anchor
                response)
              _ h1 in
          let is : response ≡ accepted = ok-inj h2 in
          let chain' : IsChain env rows = subst (IsChain env) (sym same) chain in
          let (within, (header, stored, held)) =
            verify_response_sound (sync_headers env get_headers anchor rows).0 key anchor response
              verified in
          let place : (anchor.last_header_height + 1 < start env get_headers anchor client.pool)
              ⊎ ((row : DirectoryHeader × Hash) × (lookup anchor.last_header_height
                      (sync_headers env get_headers anchor rows).0
                    ≡ some row)
                  × (row.1 ≡ anchor.last_header_hash)) =
            elim (Bool-cases
              (leb (start env get_headers anchor rows) (anchor.last_header_height + 1))) [
                | inl reach ↦ inr (
                    sync_headers-anchored env get_headers anchor rows chain'
                      (leb→le (start env get_headers anchor rows) (anchor.last_header_height + 1)
                        reach)
                      synced)
                | inr far ↦ inl (
                    subst (λ p. anchor.last_header_height + 1 < start env get_headers anchor p) same
                      (leb-false (start env get_headers anchor rows) _ far))
              ] in
          (
            record {
              anchor = anchor;
              header = header;
              anchored = good;
              within =
                  subst (λ (r : DirectoryResponse). r.proof_height ≤ anchor.last_header_height) is
                    within;
              chained = sync_headers-IsChain env get_headers anchor rows chain';
              stored =
                  subst
                    (λ (r : DirectoryResponse).
                      load_header r.proof_height (sync_headers env get_headers anchor rows).0
                      ≡ some header)
                    is stored;
              ends = place;
            },
            sym is,
            subst
                (λ (r : DirectoryResponse).
                  history_in env smt (smt.open_tree header.smt_root) (key_hash env key)
                  ≡ some r.history)
                is held,
          )

      fetch_failed :
          (response : DirectoryResponse) (e : ClientError)
          → (try_get_with env response.proof_height anchors client).1 ≡ err e
          → (fetch_verified_response env smt get_headers key (some response) anchors client).1
            ≡ err e
      unfolding fetch_verified_response
      fetch_failed response e h = rw (h, fetch_verified_response) refl

      pub fetch_found :
          (response : DirectoryResponse) (anchor : DirectoryAnchor)
          → (try_get_with env response.proof_height anchors client).1 ≡ ok anchor
          → fetch_verified_response env smt get_headers key (some response) anchors client
            ≡ sync_and_verify env smt get_headers key response anchor
                (try_get_with env response.proof_height anchors client).0
      unfolding fetch_verified_response
      fetch_found response anchor h = rw (h, fetch_verified_response) refl

      -- Let the client's headers be a hash chain and its cached anchors signed. If it accepts a
      -- response, whatever the directory answers, then its headers are still a hash chain, and the
      -- history in the response is what the tree holds for the key under the header of the chain at
      -- the height of the response. That height is not above a signed anchor's, and the chain has
      -- the anchor's hash at the anchor's height, unless it had passed that height before.
      pub fetch_verified_response_sound :
          (response accepted : DirectoryResponse)
          → (fetch_verified_response env smt get_headers key (some response) anchors client).1
            ≡ ok accepted
          → (b : Backed
              (fetch_verified_response env smt get_headers key (some response) anchors client).0
              accepted)
            × (accepted ≡ response)
            × (history_in env smt (smt.open_tree b.header.smt_root) (key_hash env key)
                ≡ some accepted.history)
      fetch_verified_response_sound response accepted h =
          elim (Result-cases (try_get_with env response.proof_height anchors client).1) [
            | inl (e, failed) ↦ absurd (err-ne-ok (sym (fetch_failed response e failed) ∙ h))
            | inr (anchor, found) ↦
                let runs = fetch_found response anchor found in
                let (good, same) =
                  try_get_with-IsSigned response.proof_height anchors client anchor signed found in
                subst
                  (λ (r : DirClient × Result ClientError DirectoryResponse).
                    (b : Backed r.0 accepted) × (accepted ≡ response)
                    × (history_in env smt (smt.open_tree b.header.smt_root) (key_hash env key)
                        ≡ some accepted.history))
                  (sym runs)
                  (sync_and_verify_sound response accepted anchor _ good same
                    (ap (λ r. r.1) (sym runs) ∙ h))
          ]
