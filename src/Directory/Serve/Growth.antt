-- ===== src/Directory/Serve/Growth.antt =====
-- A chunk that is linked and whose root is verified keeps what the tables hold; commits make such
-- chunks. The mirror uses the same lemmas.
use xirtam_core.Prelude.{
  ℕ, ◌≡◌, refl, sym, ◌∙◌, ap, subst, inl, inr, Option, none, some, nat_eq, nat_beq_iff, lookup,
  insert, lookup-insert, lookup-insert_self, Option-cases, some-inj, arith, ok, >>=-eq-ok,
  Result-cases, err-ne-ok, All, ok-inj, or_fail,
}
use xirtam_core.Structs.{
  Hash, Timestamp, DirectoryErr, retry_later, DirectoryHeader, DirectoryChunk,
}
use xirtam_core.Env.{Env, ReadsHistories}
use xirtam_core.Directory.Headers.{Headers, header_hash}
use xirtam_core.Directory.Headers.Chain.{IsChain, Tip, IsChain-insert}
use xirtam_core.Directory.Merkle.{Smt, ActsAsMap, history_in}
use xirtam_core.Directory.State.{Updates, DirectoryState, load_last_header}
use xirtam_core.Directory.Serve.{
  next_place, check_updates, write_updates, base_tree, build_root, commit_chunk,
}
use xirtam_core.Directory.Serve.Loops.{
  IsVerified, Continues, check_updates-Continues, empty-IsVerified, write_updates-IsVerified,
}
use xirtam_core.Directory.Serve.Committed.{
  max_stored_height-insert, next_place-Place, load_last_header-some, Committed, new_chunk,
  with_chunk, taken, root_of, commit_chunk-failed, commit_chunk-built,
}

-- every stored header stays
pub record Extends (old new : Headers) : Type 0 where
  pub keeps :
      (h : ℕ) (row : DirectoryHeader × Hash) → lookup h old ≡ some row → lookup h new ≡ some row

pub Extends-refl : (rows : Headers) → Extends rows rows
Extends-refl rows = record { keeps = λ h row e. e }

pub Extends-trans : {a b c : Headers} → Extends a b → Extends b c → Extends a c
Extends-trans x y = record { keeps = λ h row e. y.keeps h row (x.keeps h row e) }

pub Extends-insert :
    (rows : Headers) (height : ℕ) (row : DirectoryHeader × Hash)
    → lookup height rows ≡ none
    → Extends rows (insert height row rows)
Extends-insert rows height new free = record {
  keeps = λ h row e. ground (arith, lookup-insert height h new rows, nat_beq_iff height h, free, e);
}

module _ {ℓ} {Tree : Type ℓ} (env : Env) (smt : Smt Tree) where
  -- Only the tables matter.
  pub Committed-same :
      (a b : DirectoryState)
      → a.headers ≡ b.headers
      → a.chunks ≡ b.chunks
      → Committed env smt a
      → Committed env smt b
  unfolding load_last_header
  Committed-same a b e f c = record {
    chain = subst (IsChain env) e c.chain;
    aligned = λ h free. subst (λ chunks. lookup h chunks ≡ none) f (c.aligned h (rw e free));
    verified = λ last found. c.verified last (rw e found);
  }

  pub load_last_header-with_chunk :
      (height : ℕ) (last : Hash) (chunk : DirectoryChunk) (state : DirectoryState)
      → Tip env height last state.headers
      → load_last_header (with_chunk env smt height chunk state) ≡ some (height, chunk.header)
  load_last_header-with_chunk height last chunk state tip =
      load_last_header-some env (with_chunk env smt height chunk state) height
        (chunk.header, header_hash env chunk.header)
        (max_stored_height-insert state.headers height _ tip.free)
        (lookup-insert_self height _ state.headers)

  pub with_chunk-Committed :
      (height : ℕ) (chunk : DirectoryChunk) (state : DirectoryState)
      → Committed env smt state
      → Tip env height chunk.header.prev state.headers
      → IsVerified env smt (smt.open_tree chunk.header.smt_root)
      → Committed env smt (with_chunk env smt height chunk state)
  with_chunk-Committed height chunk state c tip verified =
      let row : DirectoryHeader × Hash = (chunk.header, header_hash env chunk.header) in
      record {
        chain =
            (IsChain-insert env chunk.header state.headers height chunk.header.prev c.chain tip
              refl).0;
        aligned = λ h free. ground (
          arith,
          lookup-insert height h row state.headers,
          lookup-insert height h chunk state.chunks,
          c.aligned h,
          free,
        );
        verified = λ last found.
            let same : ◌≡◌ {A = ℕ × DirectoryHeader} (height, chunk.header) last = some-inj (
              sym (load_last_header-with_chunk height chunk.header.prev chunk state tip) ∙ found) in
            subst (λ (l : ℕ × DirectoryHeader). IsVerified env smt (smt.open_tree l.1.smt_root))
              same verified;
      }

  -- what any step leaves
  abbrev pub Grown : DirectoryState → DirectoryState → Type ℓ
  Grown old new = Committed env smt new × Extends old.headers new.headers

  module _ (map_like : ActsAsMap smt) (reads : ReadsHistories env) where
    pub base_tree-IsVerified :
        (state : DirectoryState)
        → Committed env smt state
        → IsVerified env smt (base_tree env smt (root_of env smt state))
    base_tree-IsVerified state c =
        let place = next_place-Place env state c.chain in
        elim (Option-cases (root_of env smt state)) [
          | inl empty ↦ rw (empty, base_tree) (empty-IsVerified env smt map_like reads)
          | inr (root, found) ↦
              let (last, is_last, e) = place.root root found in
              rw (found, base_tree)
                (subst (λ r. IsVerified env smt (smt.open_tree r)) e (c.verified last is_last))
        ]

    pub commit-history_in :
        (tree : Tree) (root hash : Hash)
        → smt.commit_tree tree ≡ some root
        → history_in env smt (smt.open_tree root) hash ≡ history_in env smt tree hash
    unfolding history_in
    commit-history_in tree root hash h = rw (map_like.get-commit tree root hash h, history_in) refl

    pub build_root-parts :
        (root : Option Hash) (updates : Updates) (smt_root : Hash)
        → build_root env smt root updates ≡ ok smt_root
        → All (Continues env smt root) updates
          × (tree : Tree) × (write_updates env smt root updates (base_tree env smt root) ≡ ok tree)
          × (smt.commit_tree tree ≡ some smt_root)
    unfolding build_root
    build_root-parts root updates smt_root h =
        let (u, checked, h1) = >>=-eq-ok (check_updates env smt root updates) _ h in
        let (tree, written, h2) =
          >>=-eq-ok (write_updates env smt root updates (base_tree env smt root)) _ h1 in
        (check_updates-Continues env smt root updates checked, tree, written, found h2)
      where
        found :
            {o : Option Hash}
            → or_fail {E = DirectoryErr} o retry_later ≡ ok smt_root
            → o ≡ some smt_root
        found {o = none} h = absurd (err-ne-ok h)
        found {o = some r} h = ap some (ok-inj h)

    pub build_root-IsVerified :
        (state : DirectoryState) (updates : Updates) (smt_root : Hash)
        → Committed env smt state
        → build_root env smt (root_of env smt state) updates ≡ ok smt_root
        → IsVerified env smt (smt.open_tree smt_root)
    build_root-IsVerified state updates smt_root c h hash =
        let (all, tree, written, stored) =
          build_root-parts (root_of env smt state) updates smt_root h in
        let (history, here, v) =
          write_updates-IsVerified env smt map_like reads (root_of env smt state) updates
            (base_tree env smt (root_of env smt state)) tree all written
            (base_tree-IsVerified state c) hash in
        (history, commit-history_in tree smt_root hash stored ∙ here, v)

    pub commit_chunk-Grown :
        (now : Timestamp) (state : DirectoryState)
        → Committed env smt state
        → Grown state (commit_chunk env smt now state).0
    commit_chunk-Grown now state c =
        elim (Result-cases (build_root env smt (root_of env smt state) state.staging)) [
          | inl (e, failed) ↦
              subst (λ r. Grown state r.0) (sym (commit_chunk-failed env smt now state e failed))
                (Committed-same state (taken env smt state) refl refl c, Extends-refl state.headers)
          | inr (smt_root, built) ↦
              let place = next_place-Place env state c.chain in
              let (height, _) = next_place env state in
              subst (λ r. Grown state r.0)
                (sym (commit_chunk-built env smt now state smt_root c built))
                (
                  with_chunk-Committed _ (new_chunk env smt now state smt_root)
                      (taken env smt state) (Committed-same state (taken env smt state) refl refl c)
                      place.tip (build_root-IsVerified state state.staging smt_root c built),
                  Extends-insert state.headers _ _ (place.tip.free _ (omega arith)),
                )
        ]
