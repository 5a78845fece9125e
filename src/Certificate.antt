-- ===== src/Certificate.antt =====
-- libraries/nullspace-structs/src/certificate.rs: issuing certificates, and the verification of a
-- chain. The proofs are in the modules below.
pub mod Relation
pub mod Steps
pub mod Loops
pub mod Rounds
pub mod Verify
pub mod Issue
use xirtam_core.Prelude.{
  ℕ, zero, suc, Bool, true, false, Option, none, some, List, [], ◌∷◌, ◌++◌, ltb, ◌==◌, nat_eq, any,
  length, Result, ok, err, guard, ◌>>=◌, ◌>>◌, if◌then◌else◌,
}
use xirtam_core.Structs.{
  Hash, Timestamp, SigningPublic, blank_signature, DevicePublic, DeviceSecret, DeviceCertificate,
  CertificateChain, certificate_eq,
}
use xirtam_core.Env.{Env}
use xirtam_core.Crypto.{Signable, digest, public_key, sign, verify}

pub data VerifyError : Type 0 where
  bad_signature no_trusted_root unverifiable_entries leaf_not_authenticated : VerifyError
  -- not an error of the source: the loop's fuel ran out, which never happens
  out_of_fuel : VerifyError

-- the variables that the two loops of `verify` share
pub record Progress : Type 0 where
  pub trusted_signers : List SigningPublic
  pub trusted_root_found : Bool
  pub this_verified : Bool

abbrev pub start : Progress
start = record { trusted_signers = []; trusted_root_found = false; this_verified = false }

-- `pending` before the first loop, and what `iter` yields
abbrev pub entries : CertificateChain → List DeviceCertificate
entries chain = chain.ancestors ++ chain.this ∷ []

unfoldable pub last_device : CertificateChain → DeviceCertificate
last_device chain = chain.this

abbrev pub is_empty : List DeviceCertificate → Bool
is_empty [] = true
is_empty (_ ∷ _) = false

-- the three tests that end `verify`
unfoldable pub conclude : Option (Progress × List DeviceCertificate) → Result VerifyError (Unit {0})
conclude none = err out_of_fuel
conclude (some (q, left)) = do
  guard (is_empty left) unverifiable_entries
  guard q.this_verified leaf_not_authenticated
  ok tt

module _ (env : Env) where
  -- impl Signable for DeviceCertificate
  abbrev pub certificate_signable : Signable DeviceCertificate
  certificate_signable = record {
    signed_value = λ c. env.bcs_certificate_body c.pk c.expiry c.can_issue;
    signature = λ c. c.signature;
    set_signature = λ c s. record c { signature = s };
  }

  -- `cert.verify(pk).is_ok()`
  unfoldable pub verified_by : DeviceCertificate → SigningPublic → Bool
  unfolding verify
  verified_by cert pk = verify env certificate_signable cert pk

  -- `pk.bcs_hash()`
  unfoldable pub pk_hash : DevicePublic → Hash
  unfolding digest
  pk_hash pk = digest env (env.bcs_public pk)

  unfoldable pub self_signed : DeviceSecret → Timestamp → Bool → DeviceCertificate
  unfolding sign public_key
  self_signed secret expiry can_issue =
      sign env certificate_signable
        (record {
          pk = public_key env secret;
          expiry = expiry;
          can_issue = can_issue;
          signature = blank_signature;
        })
        secret

  unfoldable pub issue_certificate :
      DeviceSecret → DevicePublic → Timestamp → Bool → DeviceCertificate
  unfolding sign
  issue_certificate secret subject expiry can_issue =
      sign env certificate_signable
        (record {
          pk = subject;
          expiry = expiry;
          can_issue = can_issue;
          signature = blank_signature;
        })
        secret

  module _ (now : Timestamp) (this : DeviceCertificate) where
    -- `if cert.expiry > now { .. }`, which both loops do with a certificate that they remove
    unfoldable pub admit : DeviceCertificate → Progress → Progress
    admit cert p =
        if ltb now cert.expiry
        then record p {
          trusted_signers =
              if cert.can_issue then p.trusted_signers ++ cert.pk ∷ [] else p.trusted_signers;
          this_verified = if cert == this then true else p.this_verified;
        }
        else p

    unfoldable pub admit_root : DeviceCertificate → Progress → Progress
    unfolding admit
    admit_root cert p =
        if ltb now cert.expiry then record (admit cert p) { trusted_root_found = true } else p

    -- The first loop: entries whose key hashes to the trusted hash leave `pending`.
    unfoldable pub take_roots :
        Hash
        → List DeviceCertificate
        → Progress
        → Result VerifyError (Progress × List DeviceCertificate)
    take_roots trusted [] p = ok (p, [])
    take_roots trusted (cert ∷ rest) p = elim (pk_hash cert.pk == trusted) [
      | true ↦ elim (verified_by cert cert.pk) [
        | true ↦ take_roots trusted rest (admit_root cert p)
        | false ↦ err bad_signature
      ]
      | false ↦ take_roots trusted rest p >>= λ r. ok (r.0, cert ∷ r.1)
    ]

    -- `trusted_signers.iter().any(|pk| cert.verify(*pk).is_ok())`
    unfoldable pub vouched_for : Progress → DeviceCertificate → Bool
    unfolding verified_by
    vouched_for p cert = any (λ pk. verified_by cert pk) p.trusted_signers

    -- The inner `while` of the second loop: the new state, what stays pending, and `progress`.
    unfoldable pub pass :
        List DeviceCertificate → Progress → Progress × List DeviceCertificate × Bool
    pass [] p = (p, [], false)
    pass (cert ∷ rest) p = elim (vouched_for p cert) [
      | true ↦ (let (q, left, _) = pass rest (admit cert p) in (q, left, true))
      | false ↦ (let (q, left, progress) = pass rest p in (q, cert ∷ left, progress))
    ]

    -- `while progress && !pending.is_empty()`
    unfoldable pub rounds :
        ℕ → List DeviceCertificate → Progress → Option (Progress × List DeviceCertificate)
    rounds zero pending p = none
    rounds (suc fuel) [] p = some (p, [])
    rounds (suc fuel) (cert ∷ rest) p =
        let (q, left, progress) = pass (cert ∷ rest) p in
        elim progress [ true ↦ rounds fuel left q | false ↦ some (q, left) ]

  -- `verify`, with the clock as an argument
  unfoldable pub verify_chain : Timestamp → CertificateChain → Hash → Result VerifyError (Unit {0})
  unfolding conclude
  verify_chain now chain trusted_pk_hash = do
    r ← take_roots now chain.this trusted_pk_hash (entries chain) start
    guard r.0.trusted_root_found no_trusted_root
    conclude (rounds now chain.this (suc (length r.1)) r.1 r.0)
