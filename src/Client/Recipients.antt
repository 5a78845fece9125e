-- ===== src/Client/Recipients.antt =====
-- libraries/nullspace-client/src/convo/send.rs and rekey.rs: the keys that a message is sealed for.
-- The maps of a user's devices are lists of pairs in the order of their keys.
use xirtam_core.Prelude.{
  ◌≡◌, refl, true, Option, none, some, List, [], ◌∷◌, ◌==◌, nat_eq, nat_beq_iff, none-ne-some,
  some-inj, lookup, In, All, Bool-cases, Option-cases, inl, inr, Result, ok, err, if◌then◌else◌,
}
use xirtam_core.Structs.{Hash, DhPublic, CertificateChain, SignedMediumPk}
use xirtam_core.Env.{Env}
use xirtam_core.Crypto.{verify}
use xirtam_core.Certificate.{pk_hash, last_device}
use xirtam_core.Server.Device.{medium_pk_signable}

data RecipientsError : Type 0 where
  no_keys : RecipientsError

module _ (env : Env) where
  -- the key of one device: its certificate has the hash of the entry, and it has signed the key
  unfoldable medium_key : Hash → CertificateChain → List (Hash × SignedMediumPk) → Option DhPublic
  medium_key device_hash chain medium_pks =
      if pk_hash env (last_device chain).pk == device_hash
      then elim (lookup device_hash medium_pks) [
        | none ↦ none
        | some medium_pk ↦
            if verify env (medium_pk_signable env) medium_pk (last_device chain).pk
            then some medium_pk.medium_pk
            else none
      ]
      else none

  -- `collect_recipients` of rekey.rs, and the loop of that of send.rs
  unfoldable collect_recipients :
      List (Hash × CertificateChain) → List (Hash × SignedMediumPk) → List DhPublic
  collect_recipients [] medium_pks = []
  collect_recipients ((device_hash, chain) ∷ chains) medium_pks =
      let rest = collect_recipients chains medium_pks in
      elim (medium_key device_hash chain medium_pks) [ some key ↦ key ∷ rest | none ↦ rest ]

  -- send.rs
  unfoldable recipients_from_peer :
      List (Hash × CertificateChain)
      → List (Hash × SignedMediumPk)
      → Result RecipientsError (List DhPublic)
  recipients_from_peer chains medium_pks = elim (collect_recipients chains medium_pks) [
    | [] ↦ err no_keys
    | key ∷ keys ↦ ok (key ∷ keys)
  ]

  -- A key that a device of the map has signed, and that stands under the device's hash.
  record Signed (chains : List (Hash × CertificateChain))
      (medium_pks : List (Hash × SignedMediumPk)) (key : DhPublic) : Type 0 where
    device_hash : Hash
    chain : CertificateChain
    medium_pk : SignedMediumPk
    listed : In (device_hash, chain) chains
    hashes : pk_hash env (last_device chain).pk ≡ device_hash
    stands : lookup device_hash medium_pks ≡ some medium_pk
    signs : verify env (medium_pk_signable env) medium_pk (last_device chain).pk ≡ true
    is_key : medium_pk.medium_pk ≡ key

  medium_key-Signed :
      (device_hash : Hash) (chain : CertificateChain) (chains : List (Hash × CertificateChain))
      (medium_pks : List (Hash × SignedMediumPk)) (key : DhPublic)
      → In (device_hash, chain) chains
      → medium_key device_hash chain medium_pks ≡ some key
      → Signed chains medium_pks key
  unfolding medium_key
  medium_key-Signed device_hash chain chains medium_pks key listed h =
      elim (Bool-cases (pk_hash env (last_device chain).pk == device_hash)) [
        | inr e ↦ absurd (none-ne-some (rw (e, medium_key) at h))
        | inl e ↦ elim (Option-cases (lookup device_hash medium_pks)) [
          | inl missing ↦ absurd (none-ne-some (rw (e, missing, medium_key) at h))
          | inr (medium_pk, stands) ↦
              elim (Bool-cases
                (verify env (medium_pk_signable env) medium_pk (last_device chain).pk)) [
                  | inr bad ↦ absurd (none-ne-some (rw (e, stands, bad, medium_key) at h))
                  | inl signs ↦ record {
                    device_hash = device_hash;
                    chain = chain;
                    medium_pk = medium_pk;
                    listed = listed;
                    hashes = (nat_beq_iff _ _).0 e;
                    stands = stands;
                    signs = signs;
                    is_key = some-inj (rw (e, stands, signs, medium_key) at h);
                  }
                ]
        ]
      ]

  Signed-later :
      (entry : Hash × CertificateChain) (chains : List (Hash × CertificateChain))
      (medium_pks : List (Hash × SignedMediumPk)) (keys : List DhPublic)
      → All (Signed chains medium_pks) keys
      → All (Signed (entry ∷ chains) medium_pks) keys
  Signed-later entry chains medium_pks [] all = tt
  Signed-later entry chains medium_pks (key ∷ keys) (s, all) = (
    record {
      device_hash = s.device_hash;
      chain = s.chain;
      medium_pk = s.medium_pk;
      listed = inr s.listed;
      hashes = s.hashes;
      stands = s.stands;
      signs = s.signs;
      is_key = s.is_key;
    },
    Signed-later entry chains medium_pks keys all,
  )

  -- Every collected key is signed by a device of the map.
  collect_recipients_sound :
      (chains : List (Hash × CertificateChain)) (medium_pks : List (Hash × SignedMediumPk))
      → All (Signed chains medium_pks) (collect_recipients chains medium_pks)
  unfolding collect_recipients
  collect_recipients_sound [] medium_pks = tt
  collect_recipients_sound ((device_hash, chain) ∷ chains) medium_pks =
      let later =
        Signed-later (device_hash, chain) chains medium_pks _
          (collect_recipients_sound chains medium_pks) in
      elim (Option-cases (medium_key device_hash chain medium_pks)) [
        | inl e ↦ rw (e, collect_recipients) later
        | inr (key, e) ↦
            rw (e, collect_recipients)
              (
                medium_key-Signed device_hash chain ((device_hash, chain) ∷ chains) medium_pks key
                    (inl refl) e,
                later,
              )
      ]
