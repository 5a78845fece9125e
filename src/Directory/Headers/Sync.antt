-- ===== src/Directory/Headers/Sync.antt =====
-- `sync_headers`, from the height at which the table ends.
use xirtam_core.Prelude.{
  ℕ, zero, suc, ◌+◌, ◌≤◌, ◌<◌, ◌≡◌, refl, sym, subst, inl, inr, Option, none, some, List, [], ◌∷◌,
  leb, ◌==◌, nat_eq, nat_beq_iff, Bool-cases, Option-cases, arith, Result, ok, err,
}
use xirtam_core.Prelude.Dict.{lookup}
use xirtam_core.Structs.{Hash, zero_hash, DirectoryAnchor, DirectoryHeader}
use xirtam_core.Env.{Env}
use xirtam_core.Directory.Headers.{
  Headers, SyncError, max_stored_height, load_header_hash, sync_loop, check_anchor, turns,
  sync_headers,
}
use xirtam_core.Directory.Headers.Chain.{IsChain, Below, Tip, Reached, sync_loop-Reached}

pub max_stored_height-none :
    (rows : Headers) → max_stored_height rows ≡ none → (h : ℕ) → lookup h rows ≡ none
unfolding max_stored_height lookup
max_stored_height-none [] e h = refl
max_stored_height-none ((k, row) ∷ rows) e h = ground arith

-- nothing above the height, and a row at it
abbrev pub EndsAt : ℕ → Headers → Type 0
EndsAt top rows =
    ((h : ℕ) → top < h → lookup h rows ≡ none)
    × ((row : DirectoryHeader × Hash) × (lookup top rows ≡ some row))

pub max_stored_height-EndsAt :
    (rows : Headers) (top : ℕ) → max_stored_height rows ≡ some top → EndsAt top rows
unfolding max_stored_height lookup
max_stored_height-EndsAt [] top e = cc
max_stored_height-EndsAt ((k, row) ∷ rows) top e = elim (Option-cases (max_stored_height rows)) [
  | inl empty ↦
      let free = max_stored_height-none rows empty in
      (λ h above. ground (arith, e, empty, free h, above), (row, ground (arith, e, empty)))
  | inr (best, found) ↦
      let (free, (old, here)) = max_stored_height-EndsAt rows best found in
      elim (Bool-cases (leb k best)) [
        | inl le ↦
            let same : best ≡ top = ground (arith, e, found, le) in
            (
              λ h above. ground (arith, same, le, above, free h (omega (arith, same, above))),
              elim (Bool-cases (k == top)) [
                | inl at ↦ (row, ground (arith, at))
                | inr other ↦ (old, ground (arith, other, here, same))
              ],
            )
        | inr gt ↦
            let same : k ≡ top = ground (arith, e, found, gt) in
            (
              λ h above. ground (arith, same, above, free h (ground (arith, same, gt, above))),
              (row, ground (arith, same)),
            )
      ]
]

module _ (env : Env) (get_headers : ℕ → ℕ → Option (List DirectoryHeader))
    (anchor : DirectoryAnchor) where
  abbrev pub outcome : Headers × Result SyncError Hash → Headers × Result SyncError (Unit {0})
  outcome = check_anchor env get_headers anchor

  check_anchor-rows : (r : Headers × Result SyncError Hash) → (outcome r).0 ≡ r.0
  check_anchor-rows (rows, err e) = refl
  check_anchor-rows (rows, ok hash) = refl

  check_anchor-ok :
      (r : Headers × Result SyncError Hash)
      → (outcome r).1 ≡ ok tt
      → r.1 ≡ ok anchor.last_header_hash
  check_anchor-ok (rows, err e) h = cc
  check_anchor-ok (rows, ok hash) h = ground (arith, nat_beq_iff hash anchor.last_header_hash)

  -- what `sync_headers` leaves, from a table that ends below `start`
  abbrev Synced : Headers × Result SyncError (Unit {0}) → ℕ → Type 0
  Synced r start =
      IsChain env r.0
      × (r.1 ≡ ok tt
          → start ≤ anchor.last_header_height + 1
          → (row : DirectoryHeader × Hash) × (lookup anchor.last_header_height r.0 ≡ some row)
            × (row.1 ≡ anchor.last_header_hash))

  Below-at :
      (rows : Headers) (next : ℕ)
      → Below env next anchor.last_header_hash rows
      → next ≡ anchor.last_header_height + 1
      → (row : DirectoryHeader × Hash) × (lookup anchor.last_header_height rows ≡ some row)
        × (row.1 ≡ anchor.last_header_hash)
  Below-at rows zero at e = absurd (omega (arith, e))
  Below-at rows (suc h) (row, here, hash) e =
      let same : h ≡ anchor.last_header_height = omega (arith, e) in
      (row, subst (λ n. lookup n rows ≡ some row) same here, hash)

  Reached-Synced :
      (r : Headers × Result SyncError Hash) (start : ℕ)
      → Reached env get_headers anchor r start
      → Synced (outcome r) start
  Reached-Synced r start (chain, stands) = (
    rw (check_anchor-rows r) chain,
    λ done in_reach.
        let (next, tip, past, exact) = stands anchor.last_header_hash (check_anchor-ok r done) in
        subst
          (λ rows.
            (row : DirectoryHeader × Hash) × (lookup anchor.last_header_height rows ≡ some row)
            × (row.1 ≡ anchor.last_header_hash))
          (sym (check_anchor-rows r)) (Below-at r.0 next tip.below (exact in_reach)),
  )

  -- the height from which a sync starts
  abbrev pub start : Headers → ℕ
  start rows = elim (max_stored_height rows) [ none ↦ 0 | some current ↦ current + 1 ]

  pub sync_headers-empty :
      (rows : Headers)
      → max_stored_height rows ≡ none
      → (sync_headers env get_headers anchor rows
          ≡ outcome
              (sync_loop env get_headers anchor (turns env get_headers anchor 0) 0 zero_hash rows))
        × (start rows ≡ 0)
  unfolding sync_headers
  sync_headers-empty rows empty = (rw (empty, sync_headers) refl, rw (empty, start) refl)

  pub sync_headers-top :
      (rows : Headers) (current : ℕ) (row : DirectoryHeader × Hash)
      → max_stored_height rows ≡ some current
      → lookup current rows ≡ some row
      → (sync_headers env get_headers anchor rows
          ≡ outcome (
              sync_loop env get_headers anchor
                (turns env get_headers anchor (current + 1))
                (current + 1)
                row.1
                rows))
        × (start rows ≡ current + 1)
  unfolding sync_headers load_header_hash
  sync_headers-top rows current row top here =
      (rw (top, sync_headers) (rw (here, load_header_hash) refl), rw (top, start) refl)

  sync_headers-Synced :
      (rows : Headers)
      → IsChain env rows
      → Synced (sync_headers env get_headers anchor rows) (start rows)
  sync_headers-Synced rows chain = elim (Option-cases (max_stored_height rows)) [
    | inl empty ↦
        let (runs, from) = sync_headers-empty rows empty in
        rw (runs, from)
          (Reached-Synced _ 0 (
            sync_loop-Reached env get_headers anchor (turns env get_headers anchor 0) 0 zero_hash
              rows chain
              (record { free = λ h _. max_stored_height-none rows empty h; below = refl })
              (omega arith)))
    | inr (current, top) ↦
        let (free, (row, here)) = max_stored_height-EndsAt rows current top in
        let tip : Tip env (suc current) row.1 rows = record {
          free = λ h above. free h (omega (arith, above));
          below = (row, here, refl);
        } in
        let at : suc current ≡ current + 1 = omega arith in
        let (runs, from) = sync_headers-top rows current row top here in
        rw (runs, from)
          (Reached-Synced _ (current + 1) (
            sync_loop-Reached env get_headers anchor (turns env get_headers anchor (current + 1))
              (current + 1) row.1 rows chain (subst (λ n. Tip env n row.1 rows) at tip)
              (omega arith)))
  ]

  module _ (rows : Headers) (chain : IsChain env rows) where
    -- From a table that is a hash chain, a sync leaves a hash chain, whatever the server answers and
    -- wherever the sync stops.
    pub sync_headers-IsChain : IsChain env (sync_headers env get_headers anchor rows).0
    sync_headers-IsChain = (sync_headers-Synced rows chain).0

    -- If a sync from a hash chain succeeds, with an anchor that is not below the end of the table,
    -- then the row at the anchor's height has the anchor's hash.
    pub sync_headers-anchored :
        start rows ≤ anchor.last_header_height + 1
        → (sync_headers env get_headers anchor rows).1 ≡ ok tt
        → (row : DirectoryHeader × Hash) × (lookup anchor.last_header_height
              (sync_headers env get_headers anchor rows).0
            ≡ some row)
          × (row.1 ≡ anchor.last_header_hash)
    sync_headers-anchored in_reach done = (sync_headers-Synced rows chain).1 done in_reach
