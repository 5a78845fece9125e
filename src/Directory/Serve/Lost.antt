-- ===== src/Directory/Serve/Lost.antt =====
-- Commits that fail, and the interleaving that leads to one: an update that was checked against the
-- root before a commit and is staged after it.
use xirtam_core.Prelude.{
  ◌≡◌, ◌≢◌, refl, sym, ◌∙◌, ap, inl, inr, ◌⊎◌, List, [], ◌∷◌, ◌++◌, String, In, All-at, string_eq,
  ok-inj, err-ne-ok, ok, err, Result-cases, nat_eq,
}
use mathlib.Core.List.{append-nil, append_cancel_left}
use xirtam_core.Prelude.Dict.{lookup, insert, without}
use xirtam_core.Structs.{Hash, Timestamp, DirectoryErr, DirectoryUpdate, zero_hash}
use xirtam_core.Env.{Env, ReadsHistories}
use xirtam_core.Directory.History.{verify_history, prev_update_hash}
use xirtam_core.Directory.History.Valid.{Valid, link, verify_history_iff}
use xirtam_core.Directory.History.Append.{
  prev_update_hash-hash_after, Valid-split, verify_history_prefix,
}
use xirtam_core.Directory.History.Tamper.{Collision, prev_update_hash_unique}
use xirtam_core.Directory.Merkle.{Smt, ActsAsMap}
use xirtam_core.Directory.State.{DirectoryState, load_last_header}
use xirtam_core.Directory.Serve.{
  pending, next_place, base_history, build_root, commit_chunk, stage_update,
}
use xirtam_core.Directory.Serve.Loops.{Continues, Once, Apart}
use xirtam_core.Directory.Serve.Committed.{Committed, root_of, commit_chunk-failed}
use xirtam_core.Directory.Serve.Growth.{build_root-parts}
use xirtam_core.Directory.Serve.Staged.{emptied}
use xirtam_core.Directory.Serve.Answers.{commit_chunk-base_history}

-- the update after a history names its last hash
next-prev :
    (env : Env) (history : List DirectoryUpdate) (update : DirectoryUpdate)
    → verify_history env (history ++ update ∷ []) ≡ ok tt
    → update.prev_update_hash ≡ prev_update_hash env history
next-prev env history update h =
    let v =
      (Valid-split env [] zero_hash history (update ∷ [])
        ((verify_history_iff env (history ++ update ∷ [])).0 h)).1 in
    first v ∙ sym (prev_update_hash-hash_after env history)
  where
    first :
        {owners : List Hash} {prev : Hash}
        → Valid env owners prev (update ∷ [])
        → update.prev_update_hash ≡ prev
    first (link _ _ _ _ linked allowed v) = linked

-- an update on a server with nothing staged
stage_update-first :
    (env : Env) (key : String) (update : DirectoryUpdate) (history : List DirectoryUpdate)
    (state : DirectoryState)
    → state.staging ≡ []
    → verify_history env (history ++ update ∷ []) ≡ ok tt
    → stage_update env key update history state
      ≡ (record state { staging = (key, update ∷ []) ∷ [] }, ok tt)
unfolding stage_update pending lookup insert without
stage_update-first env key update history state nothing accepted =
    let accepted' : verify_history env (history ++ [] ++ update ∷ []) ≡ ok tt =
      rw (append-nil history) accepted in
    let waits : pending key state.staging ≡ [] = ap (pending key) nothing in
    let accepted'' : verify_history env (history ++ pending key state.staging ++ update ∷ [])
        ≡ ok tt =
      ap (λ w. verify_history env (history ++ w ++ update ∷ [])) waits ∙ accepted' in
    rw (accepted'', stage_update)
      (ap (λ s. (record state { staging = s }, ok tt))
        (ap (λ s. insert key (pending key s ++ update ∷ []) s) nothing))

module _ {ℓ} {Tree : Type ℓ} (env : Env) (smt : Smt Tree) (map_like : ActsAsMap smt)
    (reads : ReadsHistories env) where
  -- If one staged list does not continue what its key has, a commit fails, leaves the tables as they
  -- were, and drops what was staged for every key.
  pub commit_chunk_loses :
      (now : Timestamp) (state : DirectoryState) (key : String)
      (list history : List DirectoryUpdate)
      → In (key, list) state.staging
      → base_history env smt (root_of env smt state) key ≡ ok history
      → verify_history env (history ++ list) ≢ ok tt
      → (e : DirectoryErr) × (commit_chunk env smt now state
          ≡ (record state { staging = [] }, err e))
  commit_chunk_loses now state key list history m based broken =
      elim (Result-cases (build_root env smt (root_of env smt state) state.staging)) [
        | inl (e, failed) ↦ (e, commit_chunk-failed env smt now state e failed)
        | inr (smt_root, built) ↦
            let parts =
              build_root-parts env smt map_like reads (root_of env smt state) state.staging smt_root
                built in
            let (history', based', v) =
              All-at (Continues env smt (root_of env smt state)) (key, list) state.staging parts.0
                m in
            let same : history' ≡ history = ok-inj (sym based' ∙ based) in
            absurd (broken (ap (λ h. verify_history env (h ++ list)) (sym same) ∙ v))
      ]

  -- What continues a history does not continue a longer one.
  prev_update_hash_unique-apart :
      (history more : List DirectoryUpdate) (update : DirectoryUpdate)
      → more ≢ []
      → verify_history env (history ++ update ∷ []) ≡ ok tt
      → verify_history env (history ++ more) ≡ ok tt
      → Collision env ⊎ (verify_history env ((history ++ more) ++ update ∷ []) ≢ ok tt)
  prev_update_hash_unique-apart history more update some_more shorter longer =
      elim (Result-cases (verify_history env ((history ++ more) ++ update ∷ []))) [
        | inl (e, refused) ↦ inr (λ h. err-ne-ok (sym refused ∙ h))
        | inr (u, accepted) ↦
            elim (prev_update_hash_unique env history (history ++ more)
              (verify_history_prefix env history (update ∷ []) shorter) longer
              (sym (next-prev env history update shorter)
                ∙ next-prev env (history ++ more) update accepted)) [
                  | inr collision ↦ inl collision
                  | inl same ↦ absurd (
                      some_more
                        (sym (append_cancel_left history [] more (append-nil history ∙ same))))
                ]
      ]

  -- `v1_insert_update` reads the history of its key before it takes the lock. Suppose that a commit
  -- comes in between, and that it commits something for that key. Then the update, which was checked
  -- against the older history, is staged, and the next commit fails and drops all that is staged,
  -- or updates that collide under the hash function are at hand.
  pub stale_update_loses :
      (now later : Timestamp) (state : DirectoryState) (key : String) (update : DirectoryUpdate)
      (history : List DirectoryUpdate)
      → Committed env smt state
      → Once state.staging
      → Apart env key state.staging
      → pending key state.staging ≢ []
      → base_history env smt (root_of env smt state) key ≡ ok history
      → verify_history env (history ++ pending key state.staging) ≡ ok tt
      → (commit_chunk env smt now state).1 ≡ ok tt
      → verify_history env (history ++ update ∷ []) ≡ ok tt
      → Collision env
        ⊎ ((stage_update env key update history (commit_chunk env smt now state).0).1 ≡ ok tt)
          × ((e : DirectoryErr) × (commit_chunk env smt later
                  (stage_update env key update history (commit_chunk env smt now state).0).0
                ≡ ((commit_chunk env smt now state).0, err e)))
  stale_update_loses now later state key update history tables once apart some_pending based
        pending_ok done update_ok =
      let t = (commit_chunk env smt now state).0 in
      let waiting = pending key state.staging in
      let nothing : t.staging ≡ [] = emptied env smt map_like reads now state tables in
      let onto = stage_update-first env key update history t nothing update_ok in
      elim (prev_update_hash_unique-apart history waiting update some_pending update_ok
        pending_ok) [
          | inl collision ↦ inl collision
          | inr broken ↦
              let based' =
                commit_chunk-base_history env smt map_like reads now state tables done key history
                  once apart based in
              let (e, failed) =
                commit_chunk_loses later (record t { staging = (key, update ∷ []) ∷ [] }) key
                  (update ∷ []) (history ++ waiting) (inl refl)
                  (unfold next_place load_last_header in based') broken in
              inr (
                ap (λ r. r.1) onto,
                (
                  e,
                  ap (λ r. commit_chunk env smt later r.0) onto
                      ∙ failed
                      ∙ ap (λ s. (record t { staging = s }, err e)) (sym nothing),
                ),
              )
        ]
