-- ===== src/Directory/Serve/Loops.antt =====
-- The two loops of `commit_chunk` over the staged updates, and the tree that they write.
use xirtam_core.Prelude.{
  ◌≡◌, ◌≢◌, refl, sym, ◌∙◌, ap, subst, inl, inr, ◌⊎◌, true, false, Option, none, some, List, [],
  ◌∷◌, ◌++◌, String, ◌==◌, nat_eq, nat_beq_iff, string_eq, All, Bool-cases, Result, ok, err,
  or_fail-eq-ok, >>=-eq-ok, ok-inj, none-ne-some, if◌then◌else◌, true-ne-false,
}
use mathlib.Core.List.{append-nil}
use xirtam_core.Prelude.Dict.{lookup}
use xirtam_core.Structs.{Hash, DirectoryUpdate}
use xirtam_core.Env.{Env, ReadsHistories}
use xirtam_core.Directory.History.{verify_from, verify_history}
use xirtam_core.Directory.Merkle.{
  Smt, ActsAsMap, key_hash, decode_history, decode_history-bcs, history_in,
}
use xirtam_core.Directory.State.{Updates}
use xirtam_core.Directory.Serve.{or_rejected, pending, base_history, check_updates, write_updates}

pub or_rejected-ok : {r : Result _ (Unit {0})} → or_rejected r ≡ ok tt → r ≡ ok tt
or_rejected-ok {r = ok tt} h = refl
or_rejected-ok {r = err e} h = cc

-- No two entries share a key.
abbrev pub Once : Updates → Type 0
Once [] = Unit
Once ((key, list) ∷ updates) = (lookup key updates ≡ none) × Once updates

-- No other key of the entries shares the hash of this one.
abbrev pub Apart : Env → String → Updates → Type 0
Apart env key updates =
    All (λ entry. (entry.0 ≡ key) ⊎ (key_hash env entry.0 ≢ key_hash env key)) updates

module _ {ℓ} {Tree : Type ℓ} (env : Env) (smt : Smt Tree) where
  -- Every value of the tree decodes to a history that verifies.
  abbrev pub IsVerified : Tree → Type 0
  IsVerified tree =
      (hash : Hash)
      → (history : List DirectoryUpdate) × (history_in env smt tree hash ≡ some history)
        × (verify_history env history ≡ ok tt)

  -- A staged list continues what its key has under the root.
  abbrev pub Continues : Option Hash → String × List DirectoryUpdate → Type 0
  Continues root entry =
      (history : List DirectoryUpdate) × (base_history env smt root entry.0 ≡ ok history)
      × (verify_history env (history ++ entry.1) ≡ ok tt)

  pub check_updates-Continues :
      (root : Option Hash) (updates : Updates)
      → check_updates env smt root updates ≡ ok tt
      → All (Continues root) updates
  unfolding check_updates
  check_updates-Continues root [] h = tt
  check_updates-Continues root ((key, list) ∷ updates) h =
      let (history, based, h1) = >>=-eq-ok (base_history env smt root key) _ h in
      let (u, checked, h2) = >>=-eq-ok (or_rejected (verify_history env (history ++ list))) _ h1 in
      ((history, based, or_rejected-ok checked), check_updates-Continues root updates h2)

  pub Continues-check_updates :
      (root : Option Hash) (updates : Updates)
      → All (Continues root) updates
      → check_updates env smt root updates ≡ ok tt
  unfolding check_updates
  Continues-check_updates root [] all = refl
  Continues-check_updates root ((key, list) ∷ updates) ((history, based, verified), all) =
      rw (based, check_updates) (rw verified (Continues-check_updates root updates all))

  module _ (map_like : ActsAsMap smt) (reads : ReadsHistories env) where
    pub history_in-write :
        (tree written : Tree) (at hash : Hash) (history : List DirectoryUpdate)
        → smt.write tree at (env.bcs_history history) ≡ some written
        → history_in env smt written hash
          ≡ (if at == hash then some history else history_in env smt tree hash)
    unfolding history_in
    history_in-write tree written at hash history h =
        let got = map_like.get-write tree written at hash (env.bcs_history history) h in
        elim (Bool-cases (at == hash)) [
          | inl same ↦
              let got' : smt.get written hash ≡ some (env.bcs_history history) = rw same at got in
              rw (got', history_in, same) (decode_history-bcs env reads history)
          | inr other ↦
              let got' : smt.get written hash ≡ smt.get tree hash = rw other at got in
              rw (got', history_in, other) refl
        ]

    pub empty-IsVerified : IsVerified smt.empty_tree
    unfolding history_in decode_history verify_history verify_from
    empty-IsVerified hash = ([], rw (map_like.get-empty hash, history_in) refl, refl)

    write-IsVerified :
        (tree written : Tree) (at : Hash) (history : List DirectoryUpdate)
        → smt.write tree at (env.bcs_history history) ≡ some written
        → verify_history env history ≡ ok tt
        → IsVerified tree
        → IsVerified written
    write-IsVerified tree written at history h verified all hash =
        let now = history_in-write tree written at hash history h in
        elim (Bool-cases (at == hash)) [
          | inl same ↦ (history, rw same at now, verified)
          | inr other ↦ (let (old, here, v) = all hash in (old, (rw other at now) ∙ here, v))
        ]

    pub write_updates-IsVerified :
        (root : Option Hash) (updates : Updates) (tree written : Tree)
        → All (Continues root) updates
        → write_updates env smt root updates tree ≡ ok written
        → IsVerified tree
        → IsVerified written
    unfolding write_updates
    write_updates-IsVerified root [] tree written all h v = subst IsVerified (ok-inj h) v
    write_updates-IsVerified root ((key, list) ∷ updates) tree written ((history, based, ver), all)
          h v =
        let (history', based', h1) = >>=-eq-ok (base_history env smt root key) _ h in
        let same : history ≡ history' = ok-inj (sym based ∙ based') in
        let (next, wrote, h2) =
          or_fail-eq-ok (smt.write tree (key_hash env key) (env.bcs_history (history' ++ list))) _ _
            h1 in
        write_updates-IsVerified root updates next written all h2 (
          write-IsVerified tree next (key_hash env key) (history' ++ list) wrote
            (subst (λ x. verify_history env (x ++ list) ≡ ok tt) same ver) v)

    -- Entries of other hashes leave a hash alone.
    pub write_updates-other :
        (root : Option Hash) (updates : Updates) (tree written : Tree) (hash : Hash)
        → All (λ entry. key_hash env entry.0 ≢ hash) updates
        → write_updates env smt root updates tree ≡ ok written
        → history_in env smt written hash ≡ history_in env smt tree hash
    unfolding write_updates
    write_updates-other root [] tree written hash away h =
        ap (λ t. history_in env smt t hash) (sym (ok-inj h))
    write_updates-other root ((key, list) ∷ updates) tree written hash (here, away) h =
        let (history, based, h1) = >>=-eq-ok (base_history env smt root key) _ h in
        let (next, wrote, h2) =
          or_fail-eq-ok (smt.write tree (key_hash env key) (env.bcs_history (history ++ list))) _ _
            h1 in
        let now = history_in-write tree next (key_hash env key) hash (history ++ list) wrote in
        elim (Bool-cases (key_hash env key == hash)) [
          | inl same ↦ absurd (here ((nat_beq_iff _ _).0 same))
          | inr other ↦
              write_updates-other root updates next written hash away h2 ∙ (rw other at now)
        ]

    absent-away :
        (key : String) (updates : Updates)
        → lookup key updates ≡ none
        → Apart env key updates
        → All (λ entry. key_hash env entry.0 ≢ key_hash env key) updates
    unfolding lookup
    absent-away key [] h apart = tt
    absent-away key ((k, list) ∷ updates) h (here, apart) = elim (Bool-cases (k == key)) [
      | inl same ↦ absurd (none-ne-some (sym (rw same at h)))
      | inr other ↦ (
        elim here [
          | inl e ↦ absurd (true-ne-false ((string_eq.same_iff k key).1 e) other)
          | inr n ↦ n
        ],
        absent-away key updates (rw other at h) apart,
      )
    ]

    -- The tree holds for a key what the root held and the list staged for it.
    pub write_updates-pending :
        (root : Option Hash) (updates : Updates) (tree written : Tree) (key : String)
        (history : List DirectoryUpdate)
        → Once updates
        → Apart env key updates
        → base_history env smt root key ≡ ok history
        → history_in env smt tree (key_hash env key) ≡ some history
        → write_updates env smt root updates tree ≡ ok written
        → history_in env smt written (key_hash env key) ≡ some (history ++ pending key updates)
    unfolding write_updates pending lookup
    write_updates-pending root [] tree written key history once apart based here h =
        ap (λ t. history_in env smt t (key_hash env key)) (sym (ok-inj h))
        ∙ here
        ∙ ap some (sym (append-nil history))
    write_updates-pending root ((k, list) ∷ updates) tree written key history (alone, once)
          (apart_k, apart) based here h =
        let (history', based', h1) = >>=-eq-ok (base_history env smt root k) _ h in
        let (next, wrote, h2) =
          or_fail-eq-ok (smt.write tree (key_hash env k) (env.bcs_history (history' ++ list))) _ _
            h1 in
        let now =
          history_in-write tree next (key_hash env k) (key_hash env key) (history' ++ list) wrote in
        elim (Bool-cases (k == key)) [
          | inl same ↦
              let e : k ≡ key = (string_eq.same_iff k key).0 same in
              let same_history : history' ≡ history =
                ok-inj (sym based' ∙ ap (base_history env smt root) e ∙ based) in
              let hit : (key_hash env k == key_hash env key) ≡ true =
                (nat_beq_iff _ _).1 (ap (key_hash env) e) in
              let alone' : lookup key updates ≡ none = rw e at alone in
              write_updates-other root updates next written (key_hash env key)
                (absent-away key updates alone' apart) h2
              ∙ (rw hit at now)
              ∙ rw (same, same_history, pending) refl
          | inr other ↦ elim apart_k [
            | inl e ↦ absurd (true-ne-false ((string_eq.same_iff k key).1 e) other)
            | inr away ↦
                let miss : (key_hash env k == key_hash env key) ≡ false =
                  elim (Bool-cases (key_hash env k == key_hash env key)) [
                    | inl m ↦ absurd (away ((nat_beq_iff _ _).0 m))
                    | inr m ↦ m
                  ] in
                let now' : history_in env smt next (key_hash env key) ≡ some history =
                  (rw miss at now) ∙ here in
                write_updates-pending root updates next written key history once apart based now' h2
                ∙ rw (other, pending) refl
          ]
        ]
