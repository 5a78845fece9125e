-- ===== src/Directory/Serve/Staged.antt =====
-- What is staged. Where no two steps of the server overlap, every staged list continues what its key
-- has under the last root.
use xirtam_core.Prelude.{
  ℕ, ◌≡◌, refl, sym, ◌∙◌, ap, subst, inl, inr, Option, none, some, List, [], ◌∷◌, ◌++◌, String,
  string_eq, ◌==◌, All, Bool-cases, Result, ok, err, >>=-eq-ok, or_fail-eq-ok, guard-eq-ok,
  Result-cases, lookup-without, lookup-without_self, arith, ltb,
}
use mathlib.Core.List.{append_assoc}
use xirtam_core.Prelude.Dict.{insert, without}
use xirtam_core.Structs.{Hash, Timestamp, DirectoryErr, DirectoryUpdate, PowSolution}
use xirtam_core.Env.{Env, ReadsHistories}
use xirtam_core.Directory.History.{verify_history}
use xirtam_core.Directory.Merkle.{Smt, ActsAsMap}
use xirtam_core.Directory.Pow.{Equix, validate_solution}
use xirtam_core.Directory.State.{
  Updates, MirrorState, DirectoryState, load_last_header, insert_pow_seed, purge_pow_seeds,
  fetch_pow_seed,
}
use xirtam_core.Directory.Serve.{
  pending, next_place, base_history, build_root, commit_chunk, at_origin, insert_here, stage_update,
  admit_update, v1_insert_update, v1_get_pow_seed,
}
use xirtam_core.Directory.Serve.Loops.{Continues, Once}
use xirtam_core.Directory.Serve.Committed.{
  Committed, next_place-last, root_of, commit_chunk-failed, commit_chunk-built,
}
use xirtam_core.Directory.Serve.Growth.{commit_chunk-Grown, Committed-same}

module _ {ℓ} {Tree : Type ℓ} (env : Env) (smt : Smt Tree) where
  All-without :
      (P : String × List DirectoryUpdate → Type 0) (key : String) (updates : Updates)
      → All P updates
      → All P (without key updates)
  unfolding without
  All-without P key [] all = tt
  All-without P key ((k, list) ∷ updates) (h, all) = elim (Bool-cases (k == key)) [
    | inl same ↦ rw same (All-without P key updates all)
    | inr other ↦ rw other (h, All-without P key updates all)
  ]

  Once-without : (key : String) (updates : Updates) → Once updates → Once (without key updates)
  unfolding without
  Once-without key [] once = tt
  Once-without key ((k, list) ∷ updates) (alone, once) =
      let rest = Once-without key updates once in
      elim (Bool-cases (k == key)) [
        | inl same ↦ rw same rest
        | inr other ↦ rw other (ground (arith, lookup-without key k updates, alone), rest)
      ]

  -- The tables hold, a key has one list, and each staged list continues what its key has.
  pub record Ready (state : DirectoryState) : Type ℓ where
    pub tables : Committed env smt state
    pub once : Once state.staging
    pub continues : All (Continues env smt (root_of env smt state)) state.staging

  admit_update-base :
      (equix : Equix) (now : Timestamp) (key : String) (pow_solution : PowSolution)
      (state : DirectoryState) (history : List DirectoryUpdate)
      → admit_update env smt equix now key pow_solution state ≡ ok history
      → base_history env smt (root_of env smt state) key ≡ ok history
  unfolding admit_update base_history
  admit_update-base equix now key pow_solution state history h =
      let (seed, fetched, h1) = or_fail-eq-ok (fetch_pow_seed pow_solution.seed state) _ _ h in
      let (fresh, h2) = guard-eq-ok (ltb now seed.0) _ _ h1 in
      let (u, solved, h3) = >>=-eq-ok (validate_solution env equix _ seed.1 pow_solution) _ h2 in
      let (last, found, h4) = or_fail-eq-ok (load_last_header state) _ _ h3 in
      subst (λ place. base_history env smt place.1.1 key ≡ ok history)
        (sym (next_place-last env state last found)) h4

  stage_update-Ready :
      (key : String) (update : DirectoryUpdate) (history : List DirectoryUpdate)
      (state : DirectoryState)
      → base_history env smt (root_of env smt state) key ≡ ok history
      → Ready state
      → Ready (stage_update env key update history state).0
  unfolding stage_update insert next_place load_last_header
  stage_update-Ready key update history state based ready =
      elim (Result-cases
        (verify_history env (history ++ pending key state.staging ++ update ∷ []))) [
          | inl (e, refused) ↦ rw (refused, stage_update) ready
          | inr (u, accepted) ↦
              let waiting = pending key state.staging in
              let all : verify_history env (history ++ (waiting ++ update ∷ [])) ≡ ok tt =
                ap (verify_history env) (sym (append_assoc history waiting (update ∷ [])))
                ∙ accepted in
              rw (accepted, stage_update)
                (record {
                  tables = Committed-same env smt state _ refl refl ready.tables;
                  once = (
                    lookup-without_self key state.staging,
                    Once-without key state.staging ready.once,
                  );
                  continues = (
                    (history, based, all),
                    All-without (Continues env smt (root_of env smt state)) key state.staging
                        ready.continues,
                  );
                })
        ]

  Ready-seeds :
      (seeds : List (Hash × (Timestamp × ℕ))) (state : DirectoryState)
      → Ready state
      → Ready (record state { pow_seeds = seeds })
  unfolding next_place load_last_header
  Ready-seeds seeds state ready = record {
    tables = Committed-same env smt state _ refl refl ready.tables;
    once = ready.once;
    continues = ready.continues;
  }

  insert_refused :
      (equix : Equix) (now : Timestamp) (key : String) (update : DirectoryUpdate)
      (pow_solution : PowSolution) (state : DirectoryState) (e : DirectoryErr)
      → admit_update env smt equix now key pow_solution (purge_pow_seeds now state) ≡ err e
      → insert_here env smt equix now key update pow_solution state
        ≡ (purge_pow_seeds now state, err e)
  unfolding insert_here
  insert_refused equix now key update pow_solution state e h = rw (h, insert_here) refl

  insert_admitted :
      (equix : Equix) (now : Timestamp) (key : String) (update : DirectoryUpdate)
      (pow_solution : PowSolution) (state : DirectoryState) (history : List DirectoryUpdate)
      → admit_update env smt equix now key pow_solution (purge_pow_seeds now state) ≡ ok history
      → insert_here env smt equix now key update pow_solution state
        ≡ stage_update env key update history (purge_pow_seeds now state)
  unfolding insert_here
  insert_admitted equix now key update pow_solution state history h = rw (h, insert_here) refl

  at_origin-both :
      (P : DirectoryState × Result DirectoryErr (Unit {0}) → Type ℓ) (m : Option MirrorState)
      (forwarded here : DirectoryState × Result DirectoryErr (Unit {0}))
      → P forwarded
      → P here
      → P (at_origin m forwarded here)
  at_origin-both P none forwarded here f h = h
  at_origin-both P (some m) forwarded here f h = f

  purge-Ready :
      (now : Timestamp) (state : DirectoryState) → Ready state → Ready (purge_pow_seeds now state)
  unfolding purge_pow_seeds
  purge-Ready now state ready = Ready-seeds _ state ready

  insert_here-Ready :
      (equix : Equix) (now : Timestamp) (key : String) (update : DirectoryUpdate)
      (pow_solution : PowSolution) (state : DirectoryState)
      → Ready state
      → Ready (insert_here env smt equix now key update pow_solution state).0
  insert_here-Ready equix now key update pow_solution state ready =
      let purged = purge-Ready now state ready in
      elim (Result-cases
        (admit_update env smt equix now key pow_solution (purge_pow_seeds now state))) [
          | inl (e, refused) ↦
              subst (λ r. Ready r.0)
                (sym (insert_refused equix now key update pow_solution state e refused)) purged
          | inr (history, admitted) ↦
              subst (λ r. Ready r.0)
                (sym (insert_admitted equix now key update pow_solution state history admitted))
                (stage_update-Ready key update history (purge_pow_seeds now state)
                  (admit_update-base equix now key pow_solution _ history admitted) purged)
        ]

  -- A call of `v1_insert_update` that nothing interrupts keeps each staged list a continuation of
  -- what its key has, whatever is sent.
  pub v1_insert_update-Ready :
      (equix : Equix)
      (forward : String → DirectoryUpdate → PowSolution → Result DirectoryErr (Unit {0}))
      (now : Timestamp) (key : String) (update : DirectoryUpdate) (pow_solution : PowSolution)
      (state : DirectoryState)
      → Ready state
      → Ready (v1_insert_update env smt equix forward now key update pow_solution state).0
  unfolding v1_insert_update
  v1_insert_update-Ready equix forward now key update pow_solution state ready =
      at_origin-both (λ r. Ready r.0) state.mirror _ _ ready
        (insert_here-Ready equix now key update pow_solution state ready)

  pub v1_get_pow_seed-Ready :
      (now : Timestamp) (seed_bytes : Hash) (state : DirectoryState)
      → Ready state
      → Ready (v1_get_pow_seed now seed_bytes state).0
  unfolding v1_get_pow_seed insert_pow_seed purge_pow_seeds
  v1_get_pow_seed-Ready now seed_bytes state ready = Ready-seeds _ state ready

  module _ (map_like : ActsAsMap smt) (reads : ReadsHistories env) where
    pub emptied :
        (now : Timestamp) (state : DirectoryState)
        → Committed env smt state
        → (commit_chunk env smt now state).0.staging ≡ []
    emptied now state c =
        elim (Result-cases (build_root env smt (root_of env smt state) state.staging)) [
          | inl (e, failed) ↦ ap (λ r. r.0.staging) (commit_chunk-failed env smt now state e failed)
          | inr (smt_root, built) ↦
              ap (λ r. r.0.staging) (commit_chunk-built env smt now state smt_root c built)
        ]

    pub commit_chunk-Ready :
        (now : Timestamp) (state : DirectoryState)
        → Ready state
        → Ready (commit_chunk env smt now state).0
    commit_chunk-Ready now state ready = record {
      tables = (commit_chunk-Grown env smt map_like reads now state ready.tables).0;
      once = rw (emptied now state ready.tables) tt;
      continues = rw (emptied now state ready.tables) tt;
    }
