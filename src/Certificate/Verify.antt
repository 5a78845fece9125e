-- ===== src/Certificate/Verify.antt =====
-- `CertificateChain::verify` decides whether a chain is authentic.
use xirtam_core.Prelude.{
  suc, ◌≡◌, refl, inl, inr, true, Option, none, some, List, [], ◌∷◌, arith, In, In-append_right,
  any-In, length, Result, ok, err, guard, guard-true, guard-eq-ok, guard-eq-err, ◌∙◌, ◌>>=◌, ◌>>◌,
  true-ne-false, ◌≢◌,
}
use xirtam_core.Structs.{Hash, Timestamp, DeviceCertificate, CertificateChain}
use xirtam_core.Env.{Env}
use xirtam_core.Certificate.{
  VerifyError, no_trusted_root, out_of_fuel, Progress, start, entries, verified_by, take_roots,
  vouched_for, rounds, conclude, verify_chain,
}
use xirtam_core.Certificate.Relation.{Vouched, rooted, issued, Authentic}
use xirtam_core.Certificate.Steps.{Sound, Handled}
use xirtam_core.Certificate.Loops.{
  Outcome, Outcome-trans, RootsTaken, RootsEnsure, take_roots-RootsEnsure,
}
use xirtam_core.Certificate.Rounds.{RoundsDone, RoundsEnsure, rounds-RoundsEnsure}

concluded :
    (o : Option (Progress × List DeviceCertificate))
    → conclude o ≡ ok tt
    → (q : Progress) × (o ≡ some (q, [])) × (q.this_verified ≡ true)
unfolding conclude
concluded none h = cc
concluded (some (q, [])) h = (q, refl, ground arith)
concluded (some (q, c ∷ cs)) h = cc

module _ (env : Env) (trusted : Hash) (now : Timestamp) (chain : CertificateChain) where
  abbrev all : List DeviceCertificate
  all = entries chain

  abbrev after_roots :
      Progress × List DeviceCertificate → Option (Progress × List DeviceCertificate)
  after_roots r = rounds env now chain.this (suc (length r.1)) r.1 r.0

  abbrev rest_of_verify :
      Result VerifyError (Progress × List DeviceCertificate) → Result VerifyError (Unit {0})
  rest_of_verify m =
      m >>= λ r. guard r.0.trusted_root_found no_trusted_root >> conclude (after_roots r)

  Sound-start : Sound env trusted now chain.this all start
  Sound-start = record { signers = tt; leaf = λ h. cc; root = λ h. cc }

  roots :
      RootsEnsure env trusted now chain.this all all start
        (take_roots env now chain.this trusted all start)
  roots = take_roots-RootsEnsure env trusted now chain.this all all start Sound-start (λ c m. m)

  after_roots-RoundsEnsure :
      (r : Progress × List DeviceCertificate)
      → RootsTaken env trusted now chain.this all all start r.0 r.1
      → RoundsEnsure env trusted now chain.this all r.1 r.0 (after_roots r)
  after_roots-RoundsEnsure r a =
      rounds-RoundsEnsure env trusted now chain.this all (suc (length r.1)) r.1 r.0 (omega arith)
        a.outcome.sound a.outcome.within

  this_listed : In chain.this all
  this_listed = In-append_right chain.this chain.ancestors (chain.this ∷ []) (inl refl)

  rest_sound :
      (m : Result VerifyError (Progress × List DeviceCertificate))
      → RootsEnsure env trusted now chain.this all all start m
      → rest_of_verify m ≡ ok tt
      → Authentic env trusted now chain
  rest_sound (err e) a h = cc
  rest_sound (ok r) a h =
      let (found, h') = guard-eq-ok r.0.trusted_root_found no_trusted_root _ h in
      let (q, done, leaf) = concluded (after_roots r) h' in
      let b : RoundsDone env trusted now chain.this all r.1 r.0 (q, []) =
        rw done at (after_roots-RoundsEnsure r a) in
      let handled : (c : DeviceCertificate)
          → In c all
          → Handled env trusted now chain.this all q c =
        λ c m.
          elim ((Outcome-trans env trusted now chain.this all a.outcome b.outcome).covers c m) [
            | inl none' ↦ elim none' [ ]
            | inr k ↦ k
          ] in
      record {
        roots_signed = a.signed;
        live_root = a.outcome.sound.root found;
        all_vouched = λ c m. (handled c m).vouched;
        leaf_live = (b.outcome.sound.leaf leaf).1;
      }

  -- Nothing that is vouched for stays pending.
  none_left :
      (r : Progress × List DeviceCertificate) (q : Progress) (left : List DeviceCertificate)
      → RootsTaken env trusted now chain.this all all start r.0 r.1
      → RoundsDone env trusted now chain.this all r.1 r.0 (q, left)
      → {c : DeviceCertificate} → Vouched env trusted now all c
      → ¬ In c left
  unfolding vouched_for
  none_left r q left a b (rooted c root own) m =
      true-ne-false root (a.no_roots c (b.outcome.within c m))
  none_left r q left a b (issued c d listed v live issues signed) m =
      elim ((Outcome-trans env trusted now chain.this all a.outcome b.outcome).covers d listed) [
        | inl pending ↦ none_left r q left a b v pending
        | inr handled ↦
            true-ne-false
              (any-In (λ pk. verified_by env c pk) d.pk q.trusted_signers
                (handled.signs live issues) signed)
              (b.stuck c m)
      ]

  left_empty : (left : List DeviceCertificate) → ((c : DeviceCertificate) → ¬ In c left) → left ≡ []
  left_empty [] h = refl
  left_empty (c ∷ left) h = absurd (h c (inl refl))

  conclude_complete :
      (r : Progress × List DeviceCertificate) (o : Option (Progress × List DeviceCertificate))
      → RootsTaken env trusted now chain.this all all start r.0 r.1
      → RoundsEnsure env trusted now chain.this all r.1 r.0 o
      → Authentic env trusted now chain
      → conclude o ≡ ok tt
  unfolding conclude
  conclude_complete r none a b h = absurd b
  conclude_complete r (some (q, left)) a b h =
      let total : Outcome env trusted now chain.this all all start q left =
        Outcome-trans env trusted now chain.this all a.outcome b.outcome in
      let e : left ≡ [] =
        left_empty left λ c m. none_left r q left a b (h.all_vouched c (total.within c m)) m in
      let leaf : q.this_verified ≡ true = elim (total.covers chain.this this_listed) [
        | inl pending ↦ elim (rw e at pending) [ ]
        | inr handled ↦ handled.marks h.leaf_live refl
      ] in
      rw (e, leaf) refl

  rest_complete :
      (m : Result VerifyError (Progress × List DeviceCertificate))
      → RootsEnsure env trusted now chain.this all all start m
      → Authentic env trusted now chain
      → rest_of_verify m ≡ ok tt
  rest_complete (err e) a h =
      let forged = a.1 in
      absurd
        (true-ne-false (h.roots_signed forged.entry forged.listed forged.is_root) forged.unsigned)
  rest_complete (ok r) a h =
      let found : r.0.trusted_root_found ≡ true =
        a.found h.live_root.root h.live_root.listed h.live_root.is_root h.live_root.live in
      guard-true r.0.trusted_root_found no_trusted_root _ found
      ∙ conclude_complete r (after_roots r) a (after_roots-RoundsEnsure r a) h

  conclude_ends :
      (r : Progress × List DeviceCertificate) (o : Option (Progress × List DeviceCertificate))
      → RoundsEnsure env trusted now chain.this all r.1 r.0 o
      → conclude o ≢ err out_of_fuel
  unfolding conclude
  conclude_ends r none b h = b
  conclude_ends r (some (q, [])) b h = ground arith
  conclude_ends r (some (q, c ∷ left)) b h = cc

  rest_ends :
      (m : Result VerifyError (Progress × List DeviceCertificate))
      → RootsEnsure env trusted now chain.this all all start m
      → rest_of_verify m ≢ err out_of_fuel
  rest_ends (err e) a h = cc
  rest_ends (ok r) a h =
      elim (guard-eq-err r.0.trusted_root_found no_trusted_root (conclude (after_roots r)) h) [
        | inl e ↦ cc
        | inr e ↦ conclude_ends r (after_roots r) (after_roots-RoundsEnsure r a) e
      ]

  -- If `verify` accepts a chain, then it is authentic: every entry with the root key is signed by
  -- itself and one of these is live, every entry is signed by the root key or by the key of a live
  -- entry with the right to issue that is itself vouched for, and the leaf has not expired.
  pub verify_chain_sound :
      verify_chain env now chain trusted ≡ ok tt → Authentic env trusted now chain
  unfolding verify_chain
  verify_chain_sound h = rest_sound _ roots h

  -- `verify` accepts every authentic chain, in whatever order its entries stand.
  pub verify_chain_complete :
      Authentic env trusted now chain → verify_chain env now chain trusted ≡ ok tt
  unfolding verify_chain
  verify_chain_complete h = rest_complete _ roots h

  -- The loops of `verify` end: the fuel, one more than there are pending entries, never runs out.
  pub verify_chain_ends : verify_chain env now chain trusted ≢ err out_of_fuel
  unfolding verify_chain
  verify_chain_ends h = rest_ends _ roots h
