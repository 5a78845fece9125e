-- ===== src/Server/Profile.antt =====
-- binaries/nullspace-server/src/profile.rs. A value stands for its BCS bytes. The column `created`
-- of user_profiles is that of the profile beside it.
use xirtam_core.Prelude.{
  ◌^◌, ◌<◌, ◌≡◌, subst, Bool, true, false, not, Option, none, some, List, In, any, any-witness,
  keep, ltb, leb, ◌==◌, arith, string_eq, nat_eq, lookup, insert, lookup-insert, lookup-insert_self,
  Result, ok, guard, guard-eq-ok, ok-inj, ◌>>◌,
}
use xirtam_core.Structs.{
  Hash, UserName, UserProfile, CertificateChain, ServerRpcError, access_denied, retry_later,
}
use xirtam_core.Env.{Env}
use xirtam_core.Crypto.{Signable, keyed_digest, verify}
use xirtam_core.Certificate.{last_device}
use xirtam_core.Server.Database.{Database}

abbrev pub Profiles : Type 0
Profiles = List (UserName × UserProfile)

unfoldable pub profile_get : UserName → Profiles → Option UserProfile
profile_get username profiles = lookup username profiles

-- SELECT cert_chain FROM device_certificates WHERE username = ?
abbrev pub device_rows : UserName → Database → List (Hash × (UserName × CertificateChain))
device_rows username db = keep (λ row. row.1.0 == username) db.device_certificates

module _ (env : Env) where
  abbrev pub profile_signable : Signable UserProfile
  unfolding keyed_digest
  profile_signable = record {
    signed_value = λ p. env.hash_bytes (
        keyed_digest env (env.text_bytes "user_profile")
          (env.bcs_profile_body p.display_name p.avatar p.created));
    signature = λ p. p.signature;
    set_signature = λ p s. record p { signature = s };
  }

  -- `profile.verify(device.pk.signing_public()).is_ok()`
  abbrev pub signed_by : UserProfile → Hash × (UserName × CertificateChain) → Bool
  signed_by profile row = verify env profile_signable profile (last_device row.1.1).pk

  unfoldable pub profile_set :
      UserName → UserProfile → Database → Profiles → Result ServerRpcError Profiles
  unfolding profile_get
  profile_set username profile db profiles = do
    guard (any (signed_by profile) (device_rows username db)) access_denied
    guard (ltb profile.created (2 ^ 63)) retry_later
    guard
        (elim (profile_get username profiles) [
          | some previous ↦ not (leb profile.created previous.created)
          | none ↦ true
        ])
        access_denied
    ok (insert username profile profiles)

  module _ (username : UserName) (profile : UserProfile) (db : Database)
      (profiles profiles' : Profiles) where
    -- what holds of a profile that was accepted
    pub record Accepted : Type 0 where
      pub signer : Hash × (UserName × CertificateChain)
      pub on_record : In signer (device_rows username db)
      pub signed : signed_by profile signer ≡ true
      pub newer :
          (previous : UserProfile)
          → lookup username profiles ≡ some previous
          → previous.created < profile.created
      pub stored : lookup username profiles' ≡ some profile
      pub others :
          (other : UserName)
          → (username == other) ≡ false
          → lookup other profiles' ≡ lookup other profiles

    -- A profile that is accepted is signed by the key of a device that is on record for the user, is
    -- newer than the one that it replaces, and replaces no other user's.
    pub profile_set_sound : profile_set username profile db profiles ≡ ok profiles' → Accepted
    unfolding profile_set profile_get
    profile_set_sound h =
        let (verified, k) = guard-eq-ok (any (signed_by profile) (device_rows username db)) _ _ h in
        let (in_range, l) = guard-eq-ok (ltb profile.created (2 ^ 63)) _ _ k in
        let (newer, n) =
          guard-eq-ok
            (elim (lookup username profiles) [
              | some previous ↦ not (leb profile.created previous.created)
              | none ↦ true
            ])
            _ _ l in
        let (signer, on_record, signed) =
          any-witness (signed_by profile) (device_rows username db) verified in
        let done = ok-inj n in
        record {
          signer = signer;
          on_record = on_record;
          signed = signed;
          newer = λ previous here. ground (arith, newer, here);
          stored =
              subst (λ ps. lookup username ps ≡ some profile) done
                (lookup-insert_self username profile profiles);
          others = λ other away.
              subst (λ ps. lookup other ps ≡ lookup other profiles) done
                (ground (arith, lookup-insert username other profile profiles));
        }
