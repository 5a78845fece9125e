-- ===== src/Directory/Mirror/Keeps.antt =====
-- What a mirror's tables hold, whatever the origin answers.
use xirtam_core.Prelude.{
  ℕ, zero, suc, ◌+◌, ◌≡◌, refl, sym, ◌∙◌, ap, subst, inl, inr, Bool, true, false, Option, none,
  some, Option-cases, Bool-cases, ltb, ◌==◌, nat_eq, nat_beq_iff, Result, ok, err, guard-eq-ok,
  >>=-eq-ok, or_fail, ok-inj, err-ne-ok, some-inj, Result-cases, arith, if◌then◌else◌,
}
use xirtam_core.Structs.{Hash, DirectoryErr, DirectoryAnchor, DirectoryChunk}
use xirtam_core.Env.{Env, ReadsHistories}
use xirtam_core.Directory.Headers.{header_hash}
use xirtam_core.Directory.Headers.Chain.{Tip}
use xirtam_core.Directory.Merkle.{Smt, ActsAsMap}
use xirtam_core.Directory.State.{DirectoryState, insert_chunk}
use xirtam_core.Directory.Serve.{next_place, build_root}
use xirtam_core.Directory.Serve.Committed.{
  Committed, next_place-Place, insert_chunk-free, with_chunk, root_of,
}
use xirtam_core.Directory.Serve.Growth.{
  Extends, Extends-refl, Extends-trans, Extends-insert, Grown, Committed-same, with_chunk-Committed,
  build_root-IsVerified,
}
use xirtam_core.Directory.Mirror.{
  MirrorError, rpc_failed, or_rejected, set_anchor, load_local_head, apply_chunk, follow, close,
  sync_from, sync_once, reached,
}

or_rejected-ok :
    (r : Result DirectoryErr Hash) {root : Hash} → or_rejected r ≡ ok root → r ≡ ok root
or_rejected-ok (err e) h = absurd (err-ne-ok h)
or_rejected-ok (ok root) h = ap ok (ok-inj h)

module _ {ℓ} {Tree : Type ℓ} (env : Env) (smt : Smt Tree) where
  -- what a chunk that is applied is like
  pub record Applied (height : ℕ) (chunk : DirectoryChunk) (state after : DirectoryState)
      : Type ℓ where
    pub at : height ≡ (next_place env state).0
    pub linked : chunk.header.prev ≡ (next_place env state).1.0
    pub root : build_root env smt (root_of env smt state) chunk.updates ≡ ok chunk.header.smt_root
    pub inserted :
        insert_chunk height chunk.header (header_hash env chunk.header) chunk state ≡ some after

  pub apply_chunk-Applied :
      (height : ℕ) (chunk : DirectoryChunk) (state after : DirectoryState)
      → apply_chunk env smt height chunk state ≡ ok after
      → Applied height chunk state after
  unfolding apply_chunk
  apply_chunk-Applied height chunk state after h =
      let (at, h1) = guard-eq-ok (height == (next_place env state).0) _ _ h in
      let (linked, h2) = guard-eq-ok (chunk.header.prev == (next_place env state).1.0) _ _ h1 in
      let (smt_root, built, h3) =
        >>=-eq-ok (or_rejected (build_root env smt (root_of env smt state) chunk.updates)) _ h2 in
      let (same, h4) = guard-eq-ok (smt_root == chunk.header.smt_root) _ _ h3 in
      record {
        at = (nat_beq_iff _ _).0 at;
        linked = (nat_beq_iff _ _).0 linked;
        root =
            or_rejected-ok (build_root env smt (root_of env smt state) chunk.updates) built
            ∙ ap ok ((nat_beq_iff _ _).0 same);
        inserted = found _ h4;
      }
    where
      found :
          {o : Option DirectoryState} (e : MirrorError) → or_fail o e ≡ ok after → o ≡ some after
      found {o = none} e h = absurd (err-ne-ok h)
      found {o = some r} e h = ap some (ok-inj h)

  module _ (map_like : ActsAsMap smt) (reads : ReadsHistories env) where
    apply_chunk-Grown :
        (height : ℕ) (chunk : DirectoryChunk) (state after : DirectoryState)
        → Committed env smt state
        → apply_chunk env smt height chunk state ≡ ok after
        → Grown env smt state after
    apply_chunk-Grown height chunk state after c h =
        let applied = apply_chunk-Applied height chunk state after h in
        let place = next_place-Place env state c.chain in
        let tip : Tip env height chunk.header.prev state.headers =
          subst (λ n. Tip env n chunk.header.prev state.headers) (sym applied.at)
            (subst (λ p. Tip env (next_place env state).0 p state.headers) (sym applied.linked)
              place.tip) in
        let free = tip.free height (omega arith) in
        let is : with_chunk env smt height chunk state ≡ after = some-inj (
          sym (insert_chunk-free env smt height chunk state free (c.aligned height free))
          ∙ applied.inserted) in
        subst (Grown env smt state) is (
          with_chunk-Committed env smt height chunk state c tip (
              build_root-IsVerified env smt map_like reads state chunk.updates chunk.header.smt_root
                c applied.root),
          Extends-insert state.headers height _ free,
        )

    module _ (get_chunk : ℕ → Option DirectoryChunk) (anchor : DirectoryAnchor) where
      -- the turns of the loop
      no_chunk :
          (turns next : ℕ) (last_height : Option ℕ) (last_hash : Hash) (state : DirectoryState)
          → get_chunk next ≡ none
          → follow env smt get_chunk anchor (suc turns) next last_height last_hash state
            ≡ (state, err rpc_failed)
      unfolding follow
      no_chunk turns next last_height last_hash state h = rw (h, follow) refl

      bad_chunk :
          (turns next : ℕ) (last_height : Option ℕ) (last_hash : Hash) (state : DirectoryState)
          (chunk : DirectoryChunk) (e : MirrorError)
          → get_chunk next ≡ some chunk
          → apply_chunk env smt next chunk state ≡ err e
          → follow env smt get_chunk anchor (suc turns) next last_height last_hash state
            ≡ (state, err e)
      unfolding follow
      bad_chunk turns next last_height last_hash state chunk e got h = rw (got, follow) (rw h refl)

      pub good_chunk :
          (turns next : ℕ) (last_height : Option ℕ) (last_hash : Hash)
          (state after : DirectoryState) (chunk : DirectoryChunk)
          → get_chunk next ≡ some chunk
          → apply_chunk env smt next chunk state ≡ ok after
          → follow env smt get_chunk anchor (suc turns) next last_height last_hash state
            ≡ follow env smt get_chunk anchor turns
                (next + 1)
                (some next)
                (header_hash env chunk.header)
                after
      unfolding follow
      good_chunk turns next last_height last_hash state after chunk got h =
          rw (got, follow) (rw h refl)

      follow-Grown :
          (turns next : ℕ) (last_height : Option ℕ) (last_hash : Hash) (state : DirectoryState)
          → Committed env smt state
          → Grown env smt state
              (follow env smt get_chunk anchor turns next last_height last_hash state).0
      follow-Grown zero next last_height last_hash state c =
          unfold follow in (c, Extends-refl state.headers)
      follow-Grown (suc turns) next last_height last_hash state c =
          elim (Option-cases (get_chunk next)) [
            | inl failed ↦
                subst (λ r. Grown env smt state r.0)
                  (sym (no_chunk turns next last_height last_hash state failed))
                  (c, Extends-refl state.headers)
            | inr (chunk, got) ↦ elim (Result-cases (apply_chunk env smt next chunk state)) [
              | inl (e, refused) ↦
                  subst (λ r. Grown env smt state r.0)
                    (sym (bad_chunk turns next last_height last_hash state chunk e got refused))
                    (c, Extends-refl state.headers)
              | inr (after, applied) ↦
                  let (c', ext) = apply_chunk-Grown next chunk state after c applied in
                  let (c'', ext') =
                    follow-Grown turns (next + 1) (some next) (header_hash env chunk.header) after
                      c' in
                  subst (λ r. Grown env smt state r.0)
                    (sym
                      (good_chunk turns next last_height last_hash state after chunk got applied))
                    (c'', Extends-trans ext ext')
            ]
          ]

      set_anchor-Grown :
          (old state : DirectoryState)
          → Grown env smt old state
          → Grown env smt old (set_anchor anchor state)
      set_anchor-Grown old state (c, ext) =
          (Committed-same env smt state (set_anchor anchor state) refl refl c, ext)

      if-Grown :
          (b : Bool) (old x y : DirectoryState)
          → Grown env smt old x
          → Grown env smt old y
          → Grown env smt old (if b then x else y)
      if-Grown true old x y gx gy = gx
      if-Grown false old x y gx gy = gy

      close-Grown :
          (old : DirectoryState) (r : DirectoryState × Result MirrorError (Option ℕ × Hash))
          → Grown env smt old r.0
          → Grown env smt old (close env smt get_chunk anchor r).0
      close-Grown old (state, err e) g = g
      close-Grown old (state, ok (last_height, last_hash)) g =
          if-Grown (reached env smt get_chunk anchor last_height last_hash) old
            (set_anchor anchor state) state (set_anchor-Grown old state g) g

      sync_from-Grown :
          (last_height : Option ℕ) (last_hash : Hash) (state : DirectoryState)
          → Committed env smt state
          → Grown env smt state (sync_from env smt get_chunk anchor last_height last_hash state).0
      sync_from-Grown none last_hash state c =
          close-Grown state _ (follow-Grown _ 0 none last_hash state c)
      sync_from-Grown (some height) last_hash state c =
          let same : Grown env smt state state = (c, Extends-refl state.headers) in
          elim (Bool-cases (ltb anchor.last_header_height height)) [
            | inl ahead ↦ rw ahead same
            | inr behind ↦ elim (Bool-cases (height == anchor.last_header_height)) [
              | inl at ↦ elim (Bool-cases (last_hash == anchor.last_header_hash)) [
                | inl agrees ↦ rw (behind, at, agrees) (set_anchor-Grown state state same)
                | inr differs ↦ rw (behind, at, differs) same
              ]
              | inr below ↦
                  rw (behind, below)
                    (close-Grown state _
                      (follow-Grown _ (height + 1) (some height) last_hash state c))
            ]
          ]

    -- Whatever the origin answers and wherever a sync stops, a mirror keeps its headers a hash chain,
    -- only histories that verify under the root of its last header, and every header it had.
    pub sync_once-Committed :
        (anchor : Option DirectoryAnchor) (get_chunk : ℕ → Option DirectoryChunk)
        (state : DirectoryState)
        → Committed env smt state
        → Committed env smt (sync_once env smt anchor get_chunk state).0
          × Extends state.headers (sync_once env smt anchor get_chunk state).0.headers
    unfolding sync_once
    sync_once-Committed none get_chunk state c = (c, Extends-refl state.headers)
    sync_once-Committed (some anchor) get_chunk state c =
        sync_from-Grown get_chunk anchor (load_local_head env state).0 (load_local_head env state).1
          state c
