-- ===== src/Directory/Headers/Chain.antt =====
-- The stored headers are a hash chain from the first header, and end at the anchor.
use xirtam_core.Prelude.{
  ℕ, zero, suc, ◌+◌, ◌-◌, ◌≤◌, ◌<◌, ◌≡◌, refl, sym, ap, ◌∙◌, subst, inl, inr, true, false, Option,
  none, some, List, [], ◌∷◌, length, leb, leb→le, ◌==◌, nat_eq, nat_beq_iff, lookup, insert,
  lookup-insert, lookup-insert_self, Bool-cases, Option-cases, arith, Result, ok, err, guard-eq-ok,
  >>=-eq-ok, ok-inj, Result-cases,
}
use xirtam_core.Structs.{Hash, zero_hash, DirectoryAnchor, DirectoryHeader}
use xirtam_core.Env.{Env}
use xirtam_core.Directory.Headers.{
  Headers, SyncError, commit, header_hash, stage, batch_end, fetch_batch, sync_loop, turns,
}

module _ (env : Env) where
  -- Each row has the hash of its header, and each header that of the one below.
  pub record IsChain (rows : Headers) : Type 0 where
    pub hashed :
        (h : ℕ) (row : DirectoryHeader × Hash)
        → lookup h rows ≡ some row
        → row.1 ≡ header_hash env row.0
    pub linked :
        (h : ℕ) (row : DirectoryHeader × Hash)
        → lookup (suc h) rows ≡ some row
        → (below : DirectoryHeader × Hash) × (lookup h rows ≡ some below) × (row.0.prev ≡ below.1)
    pub genesis : (row : DirectoryHeader × Hash) → lookup 0 rows ≡ some row → row.0.prev ≡ zero_hash

  -- `last` is the hash of the row below `next`
  abbrev pub Below : ℕ → Hash → Headers → Type 0
  Below zero last rows = last ≡ zero_hash
  Below (suc h) last rows =
      (row : DirectoryHeader × Hash) × (lookup h rows ≡ some row) × (row.1 ≡ last)

  pub record Tip (next : ℕ) (last : Hash) (rows : Headers) : Type 0 where
    pub free : (h : ℕ) → next ≤ h → lookup h rows ≡ none
    pub below : Below next last rows

  module _ (header : DirectoryHeader) (rows : Headers) where
    abbrev pub new : DirectoryHeader × Hash
    new = (header, header_hash env header)

    pub fresh_height :
        (next h : ℕ) (row : DirectoryHeader × Hash)
        → lookup next rows ≡ none
        → lookup h rows ≡ some row
        → lookup h (insert next new rows) ≡ some row
    fresh_height next h row free here =
        ground (arith, lookup-insert next h new rows, nat_beq_iff next h, free, here)

    linked-insert :
        (next : ℕ) (last : Hash)
        → IsChain rows
        → Tip next last rows
        → header.prev ≡ last
        → (h : ℕ) (row : DirectoryHeader × Hash) → lookup (suc h) (insert next new rows) ≡ some row
        → (below : DirectoryHeader × Hash) × (lookup h (insert next new rows) ≡ some below)
          × (row.0.prev ≡ below.1)
    linked-insert next last chain tip joins h row e = elim (Bool-cases (next == suc h)) [
      | inl same ↦
          let at : next ≡ suc h = (nat_beq_iff _ _).0 same in
          let is_new : new ≡ row = ground (arith, lookup-insert next (suc h) new rows, e, same) in
          let (below, found, hash) : Below (suc h) last rows =
            subst (λ n. Below n last rows) at tip.below in
          (
            below,
            fresh_height next h below (tip.free next (omega arith)) found,
            ap (λ r. r.0.prev) (sym is_new) ∙ joins ∙ sym hash,
          )
      | inr other ↦
          let old : lookup (suc h) rows ≡ some row =
            ground (arith, lookup-insert next (suc h) new rows, e, other) in
          let (below, found, prev) = chain.linked h row old in
          (below, fresh_height next h below (tip.free next (omega arith)) found, prev)
    ]

    genesis-insert :
        (next : ℕ) (last : Hash)
        → IsChain rows
        → Tip next last rows
        → header.prev ≡ last
        → (row : DirectoryHeader × Hash) → lookup 0 (insert next new rows) ≡ some row
        → row.0.prev ≡ zero_hash
    genesis-insert zero last chain tip joins row e =
        let is_new : new ≡ row = ground (arith, lookup-insert_self 0 new rows, e) in
        ap (λ r. r.0.prev) (sym is_new) ∙ joins ∙ tip.below
    genesis-insert (suc next) last chain tip joins row e =
        chain.genesis row (ground (arith, lookup-insert (suc next) 0 new rows, e))

    hashed-insert :
        (next : ℕ)
        → IsChain rows
        → (h : ℕ) (row : DirectoryHeader × Hash) → lookup h (insert next new rows) ≡ some row
        → row.1 ≡ header_hash env row.0
    hashed-insert next chain h row e = elim (Bool-cases (next == h)) [
      | inl same ↦
          let is_new : new ≡ row = ground (arith, lookup-insert next h new rows, e, same) in
          subst (λ r. r.1 ≡ header_hash env r.0) is_new refl
      | inr other ↦ chain.hashed h row (ground (arith, lookup-insert next h new rows, e, other))
    ]

    pub IsChain-insert :
        (next : ℕ) (last : Hash)
        → IsChain rows
        → Tip next last rows
        → header.prev ≡ last
        → IsChain (insert next new rows)
          × Tip (suc next) (header_hash env header) (insert next new rows)
    IsChain-insert next last chain tip joins = (
      record {
        hashed = hashed-insert next chain;
        linked = linked-insert next last chain tip joins;
        genesis = genesis-insert next last chain tip joins;
      },
      record {
        free = λ h above. ground (
          arith,
          lookup-insert next h new rows,
          nat_beq_iff next h,
          tip.free h (omega (arith, above)),
          above,
        );
        below = (new, lookup-insert_self next new rows, refl);
      },
    )

  abbrev Chained : ℕ → List (ℕ × (DirectoryHeader × Hash)) × Hash → Headers → Type 0
  Chained next batch rows = IsChain (commit batch.0 rows) × Tip next batch.1 (commit batch.0 rows)

  stage-IsChain :
      (headers : List DirectoryHeader) (next : ℕ) (last : Hash) (rows : Headers)
      (batch : List (ℕ × (DirectoryHeader × Hash)) × Hash)
      → IsChain rows
      → Tip next last rows
      → stage env next last headers ≡ ok batch
      → Chained (next + length headers) batch rows
  unfolding stage commit
  stage-IsChain [] next last rows batch chain tip e =
      let same : next ≡ next + 0 = omega arith in
      subst (λ b. Chained (next + 0) b rows) (ok-inj e)
        (chain, subst (λ n. Tip n last rows) same tip)
  stage-IsChain (header ∷ headers) next last rows batch chain tip e =
      let (joins, k) = guard-eq-ok (header.prev == last) _ _ e in
      let (rest, f, g) = >>=-eq-ok (stage env (next + 1) (header_hash env header) headers) _ k in
      let (chain', tip') =
        IsChain-insert header rows next last chain tip ((nat_beq_iff _ _).0 joins) in
      let at : suc next ≡ next + 1 = omega arith in
      let tip'' =
        subst
          (λ n. Tip n (header_hash env header) (insert next (header, header_hash env header) rows))
          at tip' in
      let done =
        stage-IsChain headers (next + 1) (header_hash env header)
          (insert next (header, header_hash env header) rows) rest chain' tip'' f in
      let sum : next + 1 + length headers ≡ next + suc (length headers) = omega arith in
      subst (λ b. Chained (next + suc (length headers)) b rows) (ok-inj g)
        (subst (λ n. Chained n rest (insert next (header, header_hash env header) rows)) sum done)

  module _ (get_headers : ℕ → ℕ → Option (List DirectoryHeader)) (anchor : DirectoryAnchor) where
    fetch_batch-IsChain :
        (next : ℕ) (last : Hash) (rows : Headers)
        (batch : List (ℕ × (DirectoryHeader × Hash)) × Hash)
        → IsChain rows
        → Tip next last rows
        → next ≤ anchor.last_header_height
        → fetch_batch env get_headers anchor next last ≡ ok batch
        → Chained (batch_end env get_headers anchor next + 1) batch rows
    unfolding fetch_batch
    fetch_batch-IsChain next last rows batch chain tip left e =
        let end' = batch_end env get_headers anchor next in
        elim (Option-cases (get_headers next end')) [
          | inl failed ↦ absurd (ground (arith, e, failed))
          | inr (headers, answer) ↦
              let e' = rw (answer, fetch_batch) at e in
              let (full, k) = guard-eq-ok (length headers == end' - next + 1) _ _ e' in
              let size : length headers ≡ end' - next + 1 = (nat_beq_iff _ _).0 full in
              let sum : next + length headers ≡ end' + 1 = ground (arith, size, left) in
              subst (λ n. Chained n batch rows) sum
                (stage-IsChain headers next last rows batch chain tip k)
        ]

    -- what a sync leaves, and where it stands if it has not failed
    abbrev pub Reached : Headers × Result SyncError Hash → ℕ → Type 0
    Reached r start =
        IsChain r.0
        × ((last : Hash)
            → r.1 ≡ ok last
            → (next : ℕ) × Tip next last r.0
              × (anchor.last_header_height < next)
              × (start ≤ anchor.last_header_height + 1 → next ≡ anchor.last_header_height + 1))

    module _ (fuel next : ℕ) (last : Hash) (rows : Headers) where
      pub loop_past :
          leb next anchor.last_header_height ≡ false
          → sync_loop env get_headers anchor (suc fuel) next last rows ≡ (rows, ok last)
      unfolding sync_loop
      loop_past past = rw (past, sync_loop) refl

      loop_failed :
          (e : SyncError)
          → leb next anchor.last_header_height ≡ true
          → fetch_batch env get_headers anchor next last ≡ err e
          → sync_loop env get_headers anchor (suc fuel) next last rows ≡ (rows, err e)
      unfolding sync_loop
      loop_failed e left failed = rw (left, sync_loop) (rw failed refl)

      pub loop_goes_on :
          (batch : List (ℕ × (DirectoryHeader × Hash)) × Hash)
          → leb next anchor.last_header_height ≡ true
          → fetch_batch env get_headers anchor next last ≡ ok batch
          → sync_loop env get_headers anchor (suc fuel) next last rows
            ≡ sync_loop env get_headers anchor fuel
                (batch_end env get_headers anchor next + 1)
                batch.1
                (commit batch.0 rows)
      unfolding sync_loop
      loop_goes_on batch left fetched = rw (left, sync_loop) (rw fetched refl)

    Reached-past :
        (next : ℕ) (last : Hash) (rows : Headers)
        → IsChain rows
        → Tip next last rows
        → anchor.last_header_height < next
        → Reached (rows, ok last) next
    Reached-past next last rows chain tip past = (
      chain,
      λ l e. (next, subst (λ x. Tip next x rows) (ok-inj e) tip, past, λ h. omega (arith, h, past)),
    )

    pub sync_loop-Reached :
        (fuel next : ℕ) (last : Hash) (rows : Headers)
        → IsChain rows
        → Tip next last rows
        → turns env get_headers anchor next ≤ fuel
        → Reached (sync_loop env get_headers anchor fuel next last rows) next
    sync_loop-Reached zero next last rows chain tip enough =
        unfold sync_loop in Reached-past next last rows chain tip (omega (arith, enough))
    sync_loop-Reached (suc fuel) next last rows chain tip enough =
        elim (Bool-cases (leb next anchor.last_header_height)) [
          | inr past ↦
              subst (λ r. Reached r next) (sym (loop_past fuel next last rows past))
                (Reached-past next last rows chain tip (ground (arith, past)))
          | inl left ↦
              let within : next ≤ anchor.last_header_height =
                leb→le next anchor.last_header_height left in
              elim (Result-cases (fetch_batch env get_headers anchor next last)) [
                | inl (e, failed) ↦
                    subst (λ r. Reached r next)
                      (sym (loop_failed fuel next last rows e left failed)) (chain, λ l h. cc)
                | inr (batch, fetched) ↦
                    let (chain', tip') =
                      fetch_batch-IsChain next last rows batch chain tip within fetched in
                    let (kept, stands) =
                      sync_loop-Reached fuel (batch_end env get_headers anchor next + 1) batch.1
                        (commit batch.0 rows) chain' tip' (ground (arith, enough, within)) in
                    subst (λ r. Reached r next)
                      (sym (loop_goes_on fuel next last rows batch left fetched))
                      (
                        kept,
                        λ l h.
                            let (n, at, past, exact) = stands l h in
                            (n, at, past, λ _. exact (ground arith)),
                      )
              ]
        ]
