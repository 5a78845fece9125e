-- ===== src/Directory/Serve/Answers.antt =====
-- What the server answers after a commit.
use xirtam_core.Prelude.{
  true, ◌≡◌, refl, sym, ◌∙◌, ap, subst, inl, inr, Option, none, some, List, ◌++◌, String,
  Option-cases, none-ne-some, ok, or_fail, ok-inj, Result-cases, err-ne-ok,
}
use xirtam_core.Structs.{
  Bytes, Hash, Timestamp, DirectoryErr, retry_later, DirectoryHeader, DirectoryUpdate,
  DirectoryResponse,
}
use xirtam_core.Env.{Env, ReadsHistories}
use xirtam_core.Directory.Merkle.{
  Smt, ActsAsMap, key_hash, decode_history, history_in, load_history_from_smt,
}
use xirtam_core.Directory.State.{DirectoryState, load_last_header}
use xirtam_core.Directory.Serve.{
  pending, next_place, base_history, base_tree, build_root, commit_chunk, build_history_and_proof,
  v1_get_item,
}
use xirtam_core.Directory.Serve.Loops.{Once, Apart, write_updates-pending}
use xirtam_core.Directory.Serve.Committed.{
  Committed, next_place-Place, next_place-last, root_of, taken, new_header, new_chunk, with_chunk,
  commit_chunk-failed, commit_chunk-built,
}
use xirtam_core.Directory.Serve.Growth.{
  build_root-parts, commit-history_in, load_last_header-with_chunk,
}

module _ {ℓ} {Tree : Type ℓ} (env : Env) (smt : Smt Tree) where
  or_fail-ok :
      {A : Type 0} (o : Option A) (e : DirectoryErr) (a : A) → or_fail o e ≡ ok a → o ≡ some a
  or_fail-ok none e a h = absurd (err-ne-ok h)
  or_fail-ok (some b) e a h = ap some (ok-inj h)

  module _ (map_like : ActsAsMap smt) (reads : ReadsHistories env) where
    -- the base of a key, as the tree that a commit starts from holds it
    base_tree-history :
        (root : Option Hash) (key : String) (history : List DirectoryUpdate)
        → base_history env smt root key ≡ ok history
        → history_in env smt (base_tree env smt root) (key_hash env key) ≡ some history
    unfolding base_history load_history_from_smt history_in decode_history
    base_tree-history none key history h =
        rw (map_like.get-empty (key_hash env key), history_in) (ap some (ok-inj h))
    base_tree-history (some root) key history h =
        or_fail-ok (history_in env smt (smt.open_tree root) (key_hash env key)) retry_later history
          h

    module _ (now : Timestamp) (state : DirectoryState) (tables : Committed env smt state)
        (done : (commit_chunk env smt now state).1 ≡ ok tt) where
      -- the root of a commit that succeeded, and the state that it left
      pub commit_chunk-root :
          (smt_root : Hash) × (build_root env smt (root_of env smt state) state.staging
            ≡ ok smt_root)
          × ((commit_chunk env smt now state).0
              ≡ with_chunk env smt
                  (next_place env state).0
                  (new_chunk env smt now state smt_root)
                  (taken env smt state))
      commit_chunk-root =
          elim (Result-cases (build_root env smt (root_of env smt state) state.staging)) [
            | inl (e, failed) ↦ absurd (
                err-ne-ok
                  (sym (ap (λ r. r.1) (commit_chunk-failed env smt now state e failed)) ∙ done))
            | inr (smt_root, built) ↦ (
              smt_root,
              built,
              ap (λ r. r.0) (commit_chunk-built env smt now state smt_root tables built),
            )
          ]

      commit_chunk-last :
          (smt_root : Hash)
          → (commit_chunk env smt now state).0
            ≡ with_chunk env smt
                (next_place env state).0
                (new_chunk env smt now state smt_root)
                (taken env smt state)
          → load_last_header (commit_chunk env smt now state).0
            ≡ some ((next_place env state).0, new_header env smt now state smt_root)
      commit_chunk-last smt_root left =
          ap load_last_header left
          ∙ load_last_header-with_chunk env smt (next_place env state).0 (next_place env state).1.0
              (new_chunk env smt now state smt_root) (taken env smt state)
              (next_place-Place env state tables.chain).tip

      module _ (key : String) (history : List DirectoryUpdate) (once : Once state.staging)
          (apart : Apart env key state.staging)
          (based : base_history env smt (root_of env smt state) key ≡ ok history) where
        root_holds :
            (smt_root : Hash)
            → build_root env smt (root_of env smt state) state.staging ≡ ok smt_root
            → history_in env smt (smt.open_tree smt_root) (key_hash env key)
              ≡ some (history ++ pending key state.staging)
        root_holds smt_root built =
            let (all, tree, written, stored) =
              build_root-parts env smt map_like reads (root_of env smt state) state.staging smt_root
                built in
            commit-history_in env smt map_like reads tree smt_root (key_hash env key) stored
            ∙ write_updates-pending env smt map_like reads (root_of env smt state) state.staging
                (base_tree env smt (root_of env smt state)) tree key history once apart based
                (base_tree-history (root_of env smt state) key history based) written

        -- After a commit, the base of a key is what it was with what was staged for the key.
        pub commit_chunk-base_history :
            base_history env smt (root_of env smt (commit_chunk env smt now state).0) key
            ≡ ok (history ++ pending key state.staging)
        unfolding base_history load_history_from_smt
        commit_chunk-base_history =
            let (smt_root, built, left) = commit_chunk-root in
            let place =
              next_place-last env (commit_chunk env smt now state).0 _
                (commit_chunk-last smt_root left) in
            subst (λ p. base_history env smt p.1.1 key ≡ ok (history ++ pending key state.staging))
              (sym place) (rw (root_holds smt_root built) refl)

        history_in-value :
            (tree : Tree) (hash : Hash) (found : List DirectoryUpdate)
            → history_in env smt tree hash ≡ some found
            → (val : Bytes) × (smt.get tree hash ≡ some val) × (decode_history env val ≡ some found)
        unfolding history_in
        history_in-value tree hash found h = elim (Option-cases (smt.get tree hash)) [
          | inl failed ↦ absurd (none-ne-some (rw (failed, history_in) at h))
          | inr (val, got) ↦ (val, got, (rw (got, history_in) at h))
        ]

        -- After a commit, `v1_get_item` answers a key with what the root before held for it and the
        -- updates that were staged for it, at the height of the new header, with a proof that
        -- verifies against the root of that header.
        pub commit_chunk-get_item :
            (response : DirectoryResponse) × (header : DirectoryHeader) × (val : Bytes)
            × (v1_get_item env smt key (commit_chunk env smt now state).0 ≡ ok response)
            × (load_last_header (commit_chunk env smt now state).0
                ≡ some (response.proof_height, header))
            × (response.history ≡ history ++ pending key state.staging)
            × (decode_history env val ≡ some response.history)
            × (smt.verify_proof response.proof_merkle_branch header.smt_root (key_hash env key) val
                ≡ true)
        unfolding v1_get_item build_history_and_proof
        commit_chunk-get_item =
            let (smt_root, built, left) = commit_chunk-root in
            let last = commit_chunk-last smt_root left in
            let (val, got, decoded) =
              history_in-value (smt.open_tree smt_root) (key_hash env key) _
                (root_holds smt_root built) in
            let (proof, given, verified) = map_like.proves smt_root (key_hash env key) val got in
            let response : DirectoryResponse = record {
              history = history ++ pending key state.staging;
              proof_height = (next_place env state).0;
              proof_merkle_branch = proof;
            } in
            (
              response,
              new_header env smt now state smt_root,
              val,
              rw (last, v1_get_item) (rw (given, build_history_and_proof) (rw decoded refl)),
              last,
              refl,
              decoded,
              verified,
            )
