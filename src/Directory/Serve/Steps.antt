-- ===== src/Directory/Serve/Steps.antt =====
-- The handlers and the task that commits run side by side: `v1_insert_update` reads the history of
-- its key before it takes the lock on `staging`, so that other steps may come in between. A step
-- here is a part that runs without a pause; a staged update may come with any history.
use xirtam_core.Prelude.{
  ◌≡◌, refl, sym, subst, String, List, [], ◌∷◌, ◌++◌, none-ne-some, inl, inr, Result-cases,
}
use xirtam_core.Prelude.Dict.{lookup}
use xirtam_core.Directory.Headers.{max_stored_height}
use xirtam_core.Structs.{Hash, Timestamp, DirectoryUpdate}
use xirtam_core.Env.{Env, ReadsHistories}
use xirtam_core.Directory.History.{verify_history}
use xirtam_core.Directory.Merkle.{Smt, ActsAsMap}
use xirtam_core.Directory.State.{DirectoryState, load_last_header, insert_pow_seed, purge_pow_seeds}
use xirtam_core.Directory.Serve.{pending, v1_get_pow_seed, commit_chunk, stage_update}
use xirtam_core.Directory.Serve.Committed.{Committed}
use xirtam_core.Directory.Serve.Growth.{
  Extends, Extends-refl, Extends-trans, Committed-same, Grown, commit_chunk-Grown,
}

module _ {ℓ} {Tree : Type ℓ} (env : Env) (smt : Smt Tree) where
  pub data Step (state : DirectoryState) : DirectoryState → Type ℓ where
    seeded :
        (now : Timestamp) (seed_bytes : Hash) → Step state (v1_get_pow_seed now seed_bytes state).0
    purged : (now : Timestamp) → Step state (purge_pow_seeds now state)
    staged :
        (key : String) (update : DirectoryUpdate) (history : List DirectoryUpdate)
        → Step state (stage_update env key update history state).0
    committed : (now : Timestamp) → Step state (commit_chunk env smt now state).0

  pub data Run (state : DirectoryState) : DirectoryState → Type ℓ where
    start : Run state state
    next : (middle last : DirectoryState) → Run state middle → Step middle last → Run state last

  stage_update-tables :
      (key : String) (update : DirectoryUpdate) (history : List DirectoryUpdate)
      (state : DirectoryState)
      → ((stage_update env key update history state).0.headers ≡ state.headers)
        × ((stage_update env key update history state).0.chunks ≡ state.chunks)
  unfolding stage_update
  stage_update-tables key update history state =
      elim (Result-cases
        (verify_history env (history ++ pending key state.staging ++ update ∷ []))) [
          | inl (e, refused) ↦ (rw (refused, stage_update) refl, rw (refused, stage_update) refl)
          | inr (u, accepted) ↦ (rw (accepted, stage_update) refl, rw (accepted, stage_update) refl)
        ]

  module _ (map_like : ActsAsMap smt) (reads : ReadsHistories env) where
    Step-Grown :
        (old new : DirectoryState) → Committed env smt old → Step old new → Grown env smt old new
    unfolding v1_get_pow_seed insert_pow_seed purge_pow_seeds
    Step-Grown old new c (seeded now seed_bytes) =
        (Committed-same env smt old _ refl refl c, Extends-refl old.headers)
    Step-Grown old new c (purged now) =
        (Committed-same env smt old _ refl refl c, Extends-refl old.headers)
    Step-Grown old new c (staged key update history) =
        let (headers, chunks) = stage_update-tables key update history old in
        (
          Committed-same env smt old _ (sym headers) (sym chunks) c,
          subst (Extends old.headers) (sym headers) (Extends-refl old.headers),
        )
    Step-Grown old new c (committed now) = commit_chunk-Grown env smt map_like reads now old c

    -- However the handlers and the commits interleave, the stored headers stay a hash chain, every
    -- history under the root of the last header verifies, and no stored header changes.
    pub Run-Committed :
        (old new : DirectoryState)
        → Committed env smt old
        → Run old new
        → Committed env smt new × Extends old.headers new.headers
    Run-Committed old new c start = (c, Extends-refl old.headers)
    Run-Committed old new c (next middle _ run step) =
        let (before, extends) = Run-Committed old middle c run in
        let (after, extends') = Step-Grown middle new before step in
        (after, Extends-trans extends extends')

    -- an empty directory
    pub empty-Committed :
        (state : DirectoryState) → state.headers ≡ [] → state.chunks ≡ [] → Committed env smt state
    unfolding load_last_header max_stored_height lookup
    empty-Committed state none' none'' = record {
      chain = record {
        hashed = λ h row e. absurd (none-ne-some (rw none' at e));
        linked = λ h row e. absurd (none-ne-some (rw none' at e));
        genesis = λ row e. absurd (none-ne-some (rw none' at e));
      };
      aligned = λ h e. rw none'' refl;
      verified = λ last e. absurd (none-ne-some (rw none' at e));
    }
