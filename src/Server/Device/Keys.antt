-- ===== src/Server/Device/Keys.antt =====
-- Medium-term keys.
use xirtam_core.Prelude.{
  ◌^◌, ◌≡◌, subst, true, false, some, ltb, ◌==◌, arith, nat_eq, string_eq, nat_beq_iff, lookup,
  lookup-insert, lookup-insert_self, ok, or_fail-eq-ok, guard-eq-ok, ok-inj,
}
use xirtam_core.Structs.{Hash, UserName, AuthToken, CertificateChain, SignedMediumPk, access_denied}
use xirtam_core.Env.{Env}
use xirtam_core.Crypto.{verify}
use xirtam_core.Certificate.{pk_hash, last_device}
use xirtam_core.Server.Database.{Database}
use xirtam_core.Server.Device.{token_row, certificate_of, medium_pk_signable, device_add_medium_pk}

module _ (env : Env) (auth : AuthToken) (medium_pk : SignedMediumPk) (db db' : Database) where
  -- the device whose token was shown, and the chain of its key
  pub record Owner : Type 0 where
    pub username : UserName
    pub device_hash : Hash
    pub chain : CertificateChain
    pub row : token_row auth db.device_auth_tokens ≡ some (username, device_hash)
    pub certificate : certificate_of username device_hash db ≡ some chain
    pub key : pk_hash env (last_device chain).pk ≡ device_hash
    pub signed : verify env (medium_pk_signable env) medium_pk (last_device chain).pk ≡ true
    pub stored : lookup device_hash db'.device_medium_pks ≡ some medium_pk
    pub others :
        (h : Hash)
        → (device_hash == h) ≡ false
        → lookup h db'.device_medium_pks ≡ lookup h db.device_medium_pks

  -- A medium-term key that is accepted is stored for the device whose token was shown, is signed by
  -- the key of that device, which the chain on record certifies, and replaces no other device's key.
  pub device_add_medium_pk_sound : device_add_medium_pk env auth medium_pk db ≡ ok db' → Owner
  unfolding device_add_medium_pk
  device_add_medium_pk_sound h =
      let ((username, device_hash), row, k) =
        or_fail-eq-ok (token_row auth db.device_auth_tokens) access_denied _ h in
      let (chain, certificate, l) =
        or_fail-eq-ok (certificate_of username device_hash db) access_denied _ k in
      let (key, n) = guard-eq-ok (pk_hash env (last_device chain).pk == device_hash) _ _ l in
      let (signed, o) =
        guard-eq-ok (verify env (medium_pk_signable env) medium_pk (last_device chain).pk) _ _ n in
      let (created, p) = guard-eq-ok (ltb medium_pk.created (2 ^ 63)) _ _ o in
      let done = ok-inj p in
      record {
        username = username;
        device_hash = device_hash;
        chain = chain;
        row = row;
        certificate = certificate;
        key = (nat_beq_iff _ _).0 key;
        signed = signed;
        stored =
            subst (λ d. lookup device_hash d.device_medium_pks ≡ some medium_pk) done
              (lookup-insert_self device_hash medium_pk db.device_medium_pks);
        others = λ other away.
            subst (λ d. lookup other d.device_medium_pks ≡ lookup other db.device_medium_pks) done
              (ground (arith, lookup-insert device_hash other medium_pk db.device_medium_pks));
      }
