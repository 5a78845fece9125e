-- ===== src/Directory/History/Rightful.antt =====
-- The rules of a history, told by what each update finds in the updates before it, and
-- `verify_history` as their decision.
use xirtam_core.Prelude.{
  ◌≡◌, ◌≢◌, refl, sym, ap, ◌∙◌, subst, ◌↔◌, ◌⊎◌, inl, inr, Bool, true, not, List, [], ◌∷◌, ◌==◌,
  nat_eq, nat_beq_iff, In, In-append_left, In-append_right, In-append_split, any-witness, any-In,
  keep, contains, Bool-cases, true-ne-false, ok,
}
use xirtam_core.Structs.{
  Hash, SigningPublic, zero_hash, DirectoryUpdate, DirectoryUpdateInner, add_owner, del_owner, Blob,
  update,
}
use xirtam_core.Env.{Env}
use xirtam_core.Crypto.{digest}
use xirtam_core.Directory.History.{
  Owners, apply_owners, update_hash, update_verified, verify_history,
}
use xirtam_core.Directory.History.Valid.{
  Authorized, by_owner, by_first, Valid, done, link, verify_history_iff,
}

-- A key owns a name after some updates, the newest first: one of them adds it, and none that is
-- newer deletes it.
pub data Owns (key : SigningPublic) : List DirectoryUpdate → Type 0 where
  added :
      (u : DirectoryUpdate) (past : List DirectoryUpdate)
      → u.update_type ≡ add_owner key
      → Owns key (u ∷ past)
  kept :
      (u : DirectoryUpdate) (past : List DirectoryUpdate)
      → u.update_type ≢ del_owner key
      → Owns key past
      → Owns key (u ∷ past)

Owns-cases :
    (key : SigningPublic) (u : DirectoryUpdate) (past : List DirectoryUpdate)
    → Owns key (u ∷ past)
    → (u.update_type ≡ add_owner key) ⊎ ((u.update_type ≢ del_owner key) × Owns key past)
Owns-cases key u past (added _ _ e) = inl e
Owns-cases key u past (kept _ _ ne o) = inr (ne, o)

module _ (key gone : SigningPublic) where
  abbrev stays : SigningPublic → Bool
  stays existing = not (existing == gone)

  In-keep_from : (owners : Owners) → In key (keep stays owners) → In key owners × (key ≢ gone)
  In-keep_from [] m = elim m [ ]
  In-keep_from (x ∷ owners) m = elim (Bool-cases (x == gone)) [
    | inl e ↦ (let (n, other) = In-keep_from owners (rw e at m) in (inr n, other))
    | inr e ↦ elim (rw e at m) [
      | inl same ↦ (inl same, λ g. true-ne-false ((nat_beq_iff x gone).1 (sym same ∙ g)) e)
      | inr n ↦ (let (n', other) = In-keep_from owners n in (inr n', other))
    ]
  ]

  In-keep_to : (owners : Owners) → In key owners → key ≢ gone → In key (keep stays owners)
  In-keep_to [] m other = m
  In-keep_to (x ∷ owners) m other = elim (Bool-cases (x == gone)) [
    | inl e ↦ rw e (elim m [
      | inl same ↦ absurd (other (same ∙ (nat_beq_iff x gone).0 e))
      | inr n ↦ In-keep_to owners n other
    ])
    | inr e ↦ rw e (elim m [ inl same ↦ inl same | inr n ↦ inr (In-keep_to owners n other) ])
  ]

contains_iff :
    (owners : Owners) (key : SigningPublic) → (contains owners key ≡ true) ↔ In key owners
contains_iff owners key = (
  λ h.
      (let (k, m, same) = any-witness (λ x. x == key) owners h in
        subst (λ x. In x owners) ((nat_beq_iff k key).0 same) m),
  λ m. any-In (λ x. x == key) key owners m ((nat_beq_iff key key).1 refl),
)

add-inj : {k j : SigningPublic} → add_owner k ≡ add_owner j → k ≡ j
add-inj e = cc

del-inj : {k j : SigningPublic} → del_owner k ≡ del_owner j → k ≡ j
del-inj e = cc

add-ne-del : {k j : SigningPublic} → add_owner k ≢ del_owner j
add-ne-del e = cc

update-ne-del : {blob : Blob} {k : SigningPublic} → update blob ≢ del_owner k
update-ne-del e = cc

update-ne-add : {blob : Blob} {k : SigningPublic} → update blob ≢ add_owner k
update-ne-add e = cc

-- the list of owners that the loop keeps
abbrev Tracks : Owners → List DirectoryUpdate → Type 0
Tracks owners past = (key : SigningPublic) → In key owners ↔ Owns key past

module _ (owners : Owners) (past : List DirectoryUpdate) (tracks : Tracks owners past)
    (u : DirectoryUpdate) where
  Tracks-add :
      (owner : SigningPublic)
      → u.update_type ≡ add_owner owner
      → Tracks (apply_owners (add_owner owner) owners) (u ∷ past)
  unfolding apply_owners
  Tracks-add owner e key = elim (Bool-cases (contains owners owner)) [
    | inl here ↦ rw here (
      λ m. kept u past (λ d. add-ne-del (sym e ∙ d)) ((tracks key).0 m),
      λ o. elim (Owns-cases key u past o) [
        | inl f ↦
            subst (λ k. In k owners) (add-inj (sym e ∙ f)) ((contains_iff owners owner).0 here)
        | inr (_, o') ↦ (tracks key).1 o'
      ],
    )
    | inr new ↦ rw new (
      λ m. elim (In-append_split key owners (owner ∷ []) m) [
        | inl n ↦ kept u past (λ d. add-ne-del (sym e ∙ d)) ((tracks key).0 n)
        | inr n ↦ elim n [
          | inl same ↦ added u past (e ∙ ap add_owner (sym same))
          | inr none' ↦ elim none' [ ]
        ]
      ],
      λ o. elim (Owns-cases key u past o) [
        | inl f ↦ In-append_right key owners (owner ∷ []) (inl (sym (add-inj (sym e ∙ f))))
        | inr (_, o') ↦ In-append_left key owners (owner ∷ []) ((tracks key).1 o')
      ],
    )
  ]

  Tracks-del :
      (owner : SigningPublic)
      → u.update_type ≡ del_owner owner
      → Tracks (apply_owners (del_owner owner) owners) (u ∷ past)
  unfolding apply_owners
  Tracks-del owner e key = (
    λ m.
        (let (n, other) = In-keep_from key owner owners m in
          kept u past (λ d. other (sym (del-inj (sym e ∙ d)))) ((tracks key).0 n)),
    λ o. elim (Owns-cases key u past o) [
      | inl f ↦ absurd (add-ne-del (sym f ∙ e))
      | inr (ne, o') ↦
          In-keep_to key owner owners ((tracks key).1 o') (λ g. ne (e ∙ ap del_owner (sym g)))
    ],
  )

  Tracks-update :
      (blob : Blob)
      → u.update_type ≡ update blob
      → Tracks (apply_owners (update blob) owners) (u ∷ past)
  unfolding apply_owners
  Tracks-update blob e key = (
    λ m. kept u past (λ d. update-ne-del (sym e ∙ d)) ((tracks key).0 m),
    λ o. elim (Owns-cases key u past o) [
      | inl f ↦ absurd (update-ne-add (sym e ∙ f))
      | inr (_, o') ↦ (tracks key).1 o'
    ],
  )

  Tracks-apply :
      (t : DirectoryUpdateInner) → u.update_type ≡ t → Tracks (apply_owners t owners) (u ∷ past)
  Tracks-apply (add_owner owner) e = Tracks-add owner e
  Tracks-apply (del_owner owner) e = Tracks-del owner e
  Tracks-apply (update blob) e = Tracks-update blob e

module _ (env : Env) where
  -- the hash that the update after these must name
  abbrev pub tip : List DirectoryUpdate → Hash
  tip [] = zero_hash
  tip (newest ∷ past) = digest env (env.bcs_update newest)

  -- An owner has signed the update; or nobody owns the name, and the update makes its own signer
  -- the first owner.
  pub data Allowed (past : List DirectoryUpdate) (u : DirectoryUpdate) : Type 0 where
    owner_signs :
        (owner : SigningPublic)
        → Owns owner past
        → update_verified env u owner ≡ true
        → Allowed past u
    claims :
        (owner : SigningPublic)
        → ((key : SigningPublic) → Owns key past → ⊥)
        → u.update_type ≡ add_owner owner
        → update_verified env u owner ≡ true
        → Allowed past u

  -- After the updates `past`, the newest first, each of the others names the one before it and is
  -- allowed by those before it.
  pub data Rightful : List DirectoryUpdate → List DirectoryUpdate → Type 0 where
    finished : (past : List DirectoryUpdate) → Rightful past []
    follows :
        (past : List DirectoryUpdate) (u : DirectoryUpdate) (us : List DirectoryUpdate)
        → u.prev_update_hash ≡ tip past
        → Allowed past u
        → Rightful (u ∷ past) us
        → Rightful past (u ∷ us)

  Authorized-Allowed :
      (owners : Owners) (past : List DirectoryUpdate) (u : DirectoryUpdate)
      → Tracks owners past
      → Authorized env u owners
      → Allowed past u
  Authorized-Allowed owners past u tracks (by_owner _ owner m v) =
      owner_signs owner ((tracks owner).0 m) v
  Authorized-Allowed [] past u tracks (by_first owner e v) =
      claims owner (λ key o. elim ((tracks key).1 o) [ ]) e v

  Allowed-Authorized :
      (owners : Owners) (past : List DirectoryUpdate) (u : DirectoryUpdate)
      → Tracks owners past
      → Allowed past u
      → Authorized env u owners
  Allowed-Authorized owners past u tracks (owner_signs owner o v) =
      by_owner owners owner ((tracks owner).1 o) v
  Allowed-Authorized [] past u tracks (claims owner none' e v) = by_first owner e v
  Allowed-Authorized (o ∷ owners) past u tracks (claims owner none' e v) =
      absurd (none' o ((tracks o).0 (inl refl)))

  Valid-Rightful :
      (owners : Owners) (past us : List DirectoryUpdate)
      → Tracks owners past
      → Valid env owners (tip past) us
      → Rightful past us
  unfolding update_hash
  Valid-Rightful owners past [] tracks v = finished past
  Valid-Rightful owners past (u ∷ us) tracks (link _ _ _ _ linked allowed v) =
      follows past u us linked (Authorized-Allowed owners past u tracks allowed) (
        Valid-Rightful (apply_owners u.update_type owners) (u ∷ past) us
          (Tracks-apply owners past tracks u u.update_type refl) v)

  Rightful-Valid :
      (owners : Owners) (past us : List DirectoryUpdate)
      → Tracks owners past
      → Rightful past us
      → Valid env owners (tip past) us
  unfolding update_hash
  Rightful-Valid owners past [] tracks r = done owners (tip past)
  Rightful-Valid owners past (u ∷ us) tracks (follows _ _ _ linked allowed r) =
      link owners (tip past) u us linked (Allowed-Authorized owners past u tracks allowed) (
        Rightful-Valid (apply_owners u.update_type owners) (u ∷ past) us
          (Tracks-apply owners past tracks u u.update_type refl) r)

  nobody : Tracks [] []
  nobody key = (λ m. elim m [ ], λ o. elim o [ ])

  -- `verify_history` accepts a history exactly when each update names the hash of the one before
  -- it, the first one zeros, and is signed by a key that an earlier update has added and none since
  -- has deleted, or, where there is no such key, by the key that it adds itself.
  pub verify_history-Rightful :
      (us : List DirectoryUpdate) → (verify_history env us ≡ ok tt) ↔ Rightful [] us
  verify_history-Rightful us = (
    λ h. Valid-Rightful [] [] us nobody ((verify_history_iff env us).0 h),
    λ r. (verify_history_iff env us).1 (Rightful-Valid [] [] us nobody r),
  )
