-- ===== src/Directory/Serve/Committed.antt =====
-- What the tables of the directory server hold, whatever is staged and in whatever order handlers
-- and commits run.
use xirtam_core.Prelude.{
  ℕ, suc, ◌+◌, ◌≤◌, ◌≡◌, refl, sym, ◌∙◌, ap, subst, inl, inr, Option, none, some, [], nat_eq,
  nat_beq_iff, lookup, insert, lookup-insert, lookup-insert_self, Option-cases, none-ne-some,
  some-inj, arith, ok, err,
}
use xirtam_core.Structs.{Hash, Timestamp, DirectoryErr, DirectoryHeader, DirectoryChunk}
use xirtam_core.Env.{Env}
use xirtam_core.Directory.Headers.{Headers, max_stored_height, load_header, header_hash}
use xirtam_core.Directory.Headers.Chain.{IsChain, Tip}
use xirtam_core.Directory.Headers.Sync.{max_stored_height-none, max_stored_height-EndsAt}
use xirtam_core.Directory.Merkle.{Smt}
use xirtam_core.Directory.State.{DirectoryState, load_last_header, insert_chunk}
use xirtam_core.Directory.Serve.{next_place, build_root, commit_chunk}
use xirtam_core.Directory.Serve.Loops.{IsVerified}

-- the greatest height after a row above all others
pub max_stored_height-insert :
    (rows : Headers) (height : ℕ) (row : DirectoryHeader × Hash)
    → ((h : ℕ) → height ≤ h → lookup h rows ≡ none)
    → max_stored_height (insert height row rows) ≡ some height
max_stored_height-insert rows height row free =
    elim (Option-cases (max_stored_height (insert height row rows))) [
      | inl empty ↦ absurd (
          none-ne-some (
            sym (max_stored_height-none (insert height row rows) empty height)
            ∙ lookup-insert_self height row rows))
      | inr (top, found) ↦
          let (above, (last, here)) = max_stored_height-EndsAt (insert height row rows) top found in
          let same : height ≡ top = ground (
            arith,
            above height,
            lookup-insert_self height row rows,
            lookup-insert height top row rows,
            nat_beq_iff height top,
            free top,
            here,
          ) in
          found ∙ ap some (sym same)
    ]

module _ (env : Env) where
  -- what `next_place` finds in a table that is a chain
  pub record Place (state : DirectoryState) (place : ℕ × (Hash × Option Hash)) : Type 0 where
    pub tip : Tip env place.0 place.1.0 state.headers
    pub root :
        (r : Hash)
        → place.1.1 ≡ some r
        → (last : ℕ × DirectoryHeader) × (load_last_header state ≡ some last)
          × (last.1.smt_root ≡ r)

  load_last_header-none :
      (state : DirectoryState)
      → max_stored_height state.headers ≡ none
      → load_last_header state ≡ none
  unfolding load_last_header
  load_last_header-none state empty = rw (empty, load_last_header) refl

  pub load_last_header-some :
      (state : DirectoryState) (top : ℕ) (row : DirectoryHeader × Hash)
      → max_stored_height state.headers ≡ some top
      → lookup top state.headers ≡ some row
      → load_last_header state ≡ some (top, row.0)
  unfolding load_last_header load_header
  load_last_header-some state top row found here =
      rw (found, load_last_header) (rw (here, load_header) refl)

  pub next_place-last :
      (s : DirectoryState) (last : ℕ × DirectoryHeader)
      → load_last_header s ≡ some last
      → next_place env s ≡ (last.0 + 1, (header_hash env last.1, some last.1.smt_root))
  unfolding next_place
  next_place-last s last h = rw (h, next_place) refl

  pub next_place-Place :
      (state : DirectoryState) → IsChain env state.headers → Place state (next_place env state)
  unfolding next_place
  next_place-Place state chain = elim (Option-cases (max_stored_height state.headers)) [
    | inl empty ↦
        rw (load_last_header-none state empty, next_place)
          (record {
            tip = record {
              free = λ h _. max_stored_height-none state.headers empty h;
              below = refl;
            };
            root = λ r h. absurd (none-ne-some h);
          })
    | inr (top, found) ↦
        let (above, (row, here)) = max_stored_height-EndsAt state.headers top found in
        let last = load_last_header-some state top row found here in
        let at : suc top ≡ top + 1 = omega arith in
        subst (Place state) (sym (next_place-last state (top, row.0) last)) (record {
          tip =
              subst (λ n. Tip env n (header_hash env row.0) state.headers) at
                (record {
                  free = λ h over. above h (omega (arith, over));
                  below = (row, here, chain.hashed top row here);
                });
          root = λ r h. ((top, row.0), last, some-inj h);
        })
  ]

  module _ {ℓ} {Tree : Type ℓ} (smt : Smt Tree) where
    -- The headers are a chain, no chunk is stored where no header is, and every history under the
    -- root of the last header verifies.
    pub record Committed (state : DirectoryState) : Type ℓ where
      pub chain : IsChain env state.headers
      pub aligned : (h : ℕ) → lookup h state.headers ≡ none → lookup h state.chunks ≡ none
      pub verified :
          (last : ℕ × DirectoryHeader)
          → load_last_header state ≡ some last
          → IsVerified env smt (smt.open_tree last.1.smt_root)

    -- the header and the state of a commit that succeeds
    abbrev pub new_header : Timestamp → DirectoryState → Hash → DirectoryHeader
    new_header now state smt_root = record {
      prev = (next_place env state).1.0;
      smt_root = smt_root;
      time_unix = now;
    }

    abbrev pub new_chunk : Timestamp → DirectoryState → Hash → DirectoryChunk
    new_chunk now state smt_root = record {
      header = new_header now state smt_root;
      updates = state.staging;
    }

    abbrev pub with_chunk : ℕ → DirectoryChunk → DirectoryState → DirectoryState
    with_chunk height chunk state = record state {
      headers = insert height (chunk.header, header_hash env chunk.header) state.headers;
      chunks = insert height chunk state.chunks;
    }

    abbrev pub taken : DirectoryState → DirectoryState
    taken state = record state { staging = [] }

    abbrev pub root_of : DirectoryState → Option Hash
    root_of state = (next_place env state).1.1

    pub insert_chunk-free :
        (height : ℕ) (chunk : DirectoryChunk) (state : DirectoryState)
        → lookup height state.headers ≡ none
        → lookup height state.chunks ≡ none
        → insert_chunk height chunk.header (header_hash env chunk.header) chunk state
          ≡ some (with_chunk height chunk state)
    unfolding insert_chunk
    insert_chunk-free height chunk state free free' = rw (free, insert_chunk) (rw free' refl)

    pub commit_chunk-failed :
        (now : Timestamp) (state : DirectoryState) (e : DirectoryErr)
        → build_root env smt (root_of state) state.staging ≡ err e
        → commit_chunk env smt now state ≡ (taken state, err e)
    unfolding commit_chunk
    commit_chunk-failed now state e h = rw (h, commit_chunk) refl

    pub commit_chunk-built :
        (now : Timestamp) (state : DirectoryState) (smt_root : Hash)
        → Committed state
        → build_root env smt (root_of state) state.staging ≡ ok smt_root
        → commit_chunk env smt now state ≡ (
          with_chunk (next_place env state).0 (new_chunk now state smt_root) (taken state),
          ok tt,
        )
    unfolding commit_chunk
    commit_chunk-built now state smt_root c h =
        let place = next_place-Place state c.chain in
        let free = place.tip.free (next_place env state).0 (omega arith) in
        rw (h, commit_chunk)
          (rw
            (insert_chunk-free (next_place env state).0 (new_chunk now state smt_root) (taken state)
              free (c.aligned _ free))
            refl)
