-- ===== src/Tests/Certificate.antt =====
-- A root device, a device that it admits, and a third that the second admits.
use xirtam_core.Prelude.{◌≡◌, ◌≢◌, refl, true, false, [], ◌∷◌, arith, ok, err}
use xirtam_core.Structs.{Hash, DeviceCertificate, CertificateChain}
use xirtam_core.Crypto.{public_key}
use xirtam_core.Certificate.{
  leaf_not_authenticated, out_of_fuel, pk_hash, last_device, self_signed, issue_certificate,
  verify_chain, admit_root, take_roots, vouched_for, pass, rounds,
}
use xirtam_core.Certificate.Relation.{Authentic}
use xirtam_core.Certificate.Verify.{verify_chain_sound, verify_chain_complete, verify_chain_ends}
use xirtam_core.Certificate.Issue.{self_signed-chain, issue-extend, extend}
use xirtam_core.Client.Bundle.{Identity, BundleInner, new_device_bundle, bundle_for}
use xirtam_core.Client.Bundle.Accepted.{new_device_bundle-verifies}
use xirtam_core.Tests.Toy.{toy, toy-SignsCorrectly}

abbrev pub root : DeviceCertificate
unfolding self_signed
root = self_signed toy 1 500 true

abbrev pub trusted : Hash
unfolding pk_hash
trusted = pk_hash toy 1001

abbrev pub phone : DeviceCertificate
unfolding issue_certificate
phone = issue_certificate toy 1 1002 400 true

abbrev pub chain : CertificateChain
chain = record { ancestors = root ∷ []; this = phone }

pub accepted : verify_chain toy 100 chain trusted ≡ ok tt
unfolding verify_chain take_roots admit_root vouched_for pass rounds root trusted phone self_signed
    issue_certificate pk_hash
accepted = refl

pub phone-pk : (last_device chain).pk ≡ public_key toy 2
unfolding last_device phone issue_certificate public_key
phone-pk = refl

-- The order of the entries does not matter, and an expired leaf is refused.
shuffled :
    verify_chain toy 100 (record { ancestors = phone ∷ root ∷ []; this = phone }) trusted ≡ ok tt
unfolding verify_chain take_roots admit_root vouched_for pass rounds root trusted phone self_signed
    issue_certificate pk_hash
shuffled = refl

expired : verify_chain toy 400 chain trusted ≡ err leaf_not_authenticated
unfolding verify_chain take_roots admit_root vouched_for pass rounds root trusted phone self_signed
    issue_certificate pk_hash
expired = refl

verify_chain_sound_example : Authentic toy trusted 100 chain
verify_chain_sound_example = verify_chain_sound toy trusted 100 chain accepted

verify_chain_complete_example : verify_chain toy 100 chain trusted ≡ ok tt
verify_chain_complete_example =
    verify_chain_complete toy trusted 100 chain (verify_chain_sound toy trusted 100 chain accepted)

verify_chain_ends_example : verify_chain toy 400 chain trusted ≢ err out_of_fuel
verify_chain_ends_example = verify_chain_ends toy trusted 400 chain

issue-extend_example :
    verify_chain toy 100 (extend chain (issue_certificate toy 2 1003 300 false)) trusted ≡ ok tt
unfolding root trusted phone public_key pk_hash issue_certificate
issue-extend_example =
    issue-extend toy toy-SignsCorrectly trusted 100 300 false 2 chain 1003 accepted refl refl
      (omega arith) refl

seven_verifies :
    verify_chain toy 100
      (record { ancestors = []; this = self_signed toy 7 500 false })
      (pk_hash toy (public_key toy 7))
    ≡ ok tt
seven_verifies = self_signed-chain toy toy-SignsCorrectly trusted 100 500 false 7 (omega arith)

abbrev identity : Identity
identity = record { username = "@alice"; device_secret = 2; cert_chain = chain }

abbrev bundle : BundleInner
unfolding bundle_for
bundle = bundle_for toy identity 3 false 300

new_device_bundle-verifies_example :
    (verify_chain toy 100 bundle.cert_chain trusted ≡ ok tt)
    × ((last_device bundle.cert_chain).pk ≡ public_key toy bundle.device_secret)
    × (bundle.username ≡ identity.username)
unfolding new_device_bundle root trusted phone bundle public_key pk_hash issue_certificate
new_device_bundle-verifies_example =
    new_device_bundle-verifies toy toy-SignsCorrectly identity 3 false 300 trusted 100 bundle
      accepted refl (omega arith) refl
