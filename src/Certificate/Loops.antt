-- ===== src/Certificate/Loops.antt =====
-- The two loops of `verify`: what they leave pending, and what the state then says of the rest.
use xirtam_core.Prelude.{
  ◌≡◌, refl, ◌⊎◌, inl, inr, true, false, List, [], ◌∷◌, ◌<◌, In, any-witness, All-at, ◌==◌, nat_eq,
  Bool-cases, Result, ok, err, ◌>>=◌, true-ne-false,
}
use xirtam_core.Structs.{Hash, Timestamp, DeviceCertificate}
use xirtam_core.Env.{Env}
use xirtam_core.Certificate.{
  VerifyError, bad_signature, Progress, admit, admit_root, verified_by, pk_hash, take_roots,
  vouched_for, pass,
}
use xirtam_core.Certificate.Relation.{IsRoot, Vouched, Issuer, rooted, issued}
use xirtam_core.Certificate.Steps.{
  Sound, Extends, Handled, Extends-refl, Extends-trans, Handled-mono, admit-Extends, admit-Handled,
  admit-Sound, admit_root-Extends, admit_root-Handled, admit_root-Sound, admit_root-found,
}

module _ (env : Env) (trusted : Hash) (now : Timestamp) (this : DeviceCertificate)
    (all : List DeviceCertificate) where
  -- From pending `cs` at state `p` to pending `left` at state `q`.
  pub record Outcome (cs : List DeviceCertificate) (p q : Progress) (left : List DeviceCertificate)
      : Type 0 where
    pub sound : Sound env trusted now this all q
    pub extends : Extends env trusted now this all p q
    pub covers :
        (c : DeviceCertificate) → In c cs → In c left ⊎ Handled env trusted now this all q c
    pub within : (c : DeviceCertificate) → In c left → In c cs

  pub Outcome-refl :
      (cs : List DeviceCertificate) (p : Progress)
      → Sound env trusted now this all p
      → Outcome cs p p cs
  Outcome-refl cs p s = record {
    sound = s;
    extends = Extends-refl env trusted now this all p;
    covers = λ c m. inl m;
    within = λ c m. m;
  }

  pub Outcome-trans :
      {cs ds es : List DeviceCertificate} {p q r : Progress}
      → Outcome cs p q ds
      → Outcome ds q r es
      → Outcome cs p r es
  Outcome-trans {cs} {ds} {es} {p} {q} {r} a b = record {
    sound = b.sound;
    extends = Extends-trans env trusted now this all a.extends b.extends;
    covers = λ c m. elim (a.covers c m) [
      | inl d ↦ b.covers c d
      | inr h ↦ inr (Handled-mono env trusted now this all b.extends h)
    ];
    within = λ c m. a.within c (b.within c m);
  }

  -- The entry at the front stays pending, or is removed.
  Outcome-skip :
      (c : DeviceCertificate) {cs left : List DeviceCertificate} {p q : Progress}
      → Outcome cs p q left
      → Outcome (c ∷ cs) p q (c ∷ left)
  Outcome-skip c a = record {
    sound = a.sound;
    extends = a.extends;
    covers = λ d m. elim m [
      | inl e ↦ inl (inl e)
      | inr m' ↦ elim (a.covers d m') [ inl l ↦ inl (inr l) | inr h ↦ inr h ]
    ];
    within = λ d m. elim m [ inl e ↦ inl e | inr m' ↦ inr (a.within d m') ];
  }

  Outcome-remove :
      (c : DeviceCertificate) {cs left : List DeviceCertificate} {p p' q : Progress}
      → Extends env trusted now this all p p'
      → Handled env trusted now this all p' c
      → Outcome cs p' q left
      → Outcome (c ∷ cs) p q left
  Outcome-remove c {q = q} x h a = record {
    sound = a.sound;
    extends = Extends-trans env trusted now this all x a.extends;
    covers = λ d m. elim m [
      | inl e ↦ inr (rw e (Handled-mono env trusted now this all a.extends h))
      | inr m' ↦ a.covers d m'
    ];
    within = λ d m. inr (a.within d m);
  }

  -- an entry that a trusted signer signed is vouched for
  Vouched-by_signer :
      (c : DeviceCertificate) (p : Progress)
      → Sound env trusted now this all p
      → vouched_for env now this p c ≡ true
      → Vouched env trusted now all c
  unfolding vouched_for
  Vouched-by_signer c p s h =
      let (pk, m, v) = any-witness (λ pk. verified_by env c pk) p.trusted_signers h in
      let issuer : Issuer env trusted now all pk = All-at _ pk p.trusted_signers s.signers m in
      issued c issuer.holder issuer.listed issuer.vouched issuer.live issuer.issues
        (rw issuer.key v)

  -- What the first loop adds to an outcome.
  pub record RootsTaken (cs : List DeviceCertificate) (p q : Progress)
      (left : List DeviceCertificate) : Type 0 where
    pub outcome : Outcome cs p q left
    pub no_roots : (c : DeviceCertificate) → In c left → (pk_hash env c.pk == trusted) ≡ false
    pub signed :
        (c : DeviceCertificate)
        → In c cs
        → IsRoot env trusted now all c
        → verified_by env c c.pk ≡ true
    pub found :
        (c : DeviceCertificate)
        → In c cs
        → IsRoot env trusted now all c
        → now < c.expiry
        → q.trusted_root_found ≡ true

  -- A root entry that does not verify under its own key.
  pub record Forged (cs : List DeviceCertificate) : Type 0 where
    pub entry : DeviceCertificate
    pub listed : In entry cs
    pub is_root : IsRoot env trusted now all entry
    pub unsigned : verified_by env entry entry.pk ≡ false

  Forged-later : (c : DeviceCertificate) {cs : List DeviceCertificate} → Forged cs → Forged (c ∷ cs)
  Forged-later c a = record {
    entry = a.entry;
    listed = inr a.listed;
    is_root = a.is_root;
    unsigned = a.unsigned;
  }

  abbrev pub RootsEnsure :
      List DeviceCertificate
      → Progress
      → Result VerifyError (Progress × List DeviceCertificate)
      → Type 0
  RootsEnsure cs p (ok r) = RootsTaken cs p r.0 r.1
  RootsEnsure cs p (err e) = (e ≡ bad_signature) × Forged cs

  RootsEnsure-skip :
      (c : DeviceCertificate) (cs : List DeviceCertificate) (p : Progress)
      (r : Result VerifyError (Progress × List DeviceCertificate))
      → (pk_hash env c.pk == trusted) ≡ false
      → RootsEnsure cs p r
      → RootsEnsure (c ∷ cs) p (r >>= λ r. ok (r.0, c ∷ r.1))
  RootsEnsure-skip c cs p (ok r) other a = record {
    outcome = Outcome-skip c a.outcome;
    no_roots = λ d m. elim m [ inl e ↦ rw e other | inr n ↦ a.no_roots d n ];
    signed = λ d m k. elim m [
      | inl e ↦ absurd (true-ne-false (rw e at k) other)
      | inr n ↦ a.signed d n k
    ];
    found = λ d m k. elim m [
      | inl e ↦ absurd (true-ne-false (rw e at k) other)
      | inr n ↦ a.found d n k
    ];
  }
  RootsEnsure-skip c cs p (err e) other a = (a.0, Forged-later c a.1)

  RootsEnsure-remove :
      (c : DeviceCertificate) (cs : List DeviceCertificate) (p : Progress)
      (r : Result VerifyError (Progress × List DeviceCertificate))
      → IsRoot env trusted now all c
      → verified_by env c c.pk ≡ true
      → RootsEnsure cs (admit_root env now this c p) r
      → RootsEnsure (c ∷ cs) p r
  RootsEnsure-remove c cs p (ok r) root own a = record {
    outcome =
        Outcome-remove c (admit_root-Extends env trusted now this all c p)
          (admit_root-Handled env trusted now this all c p (rooted c root own)) a.outcome;
    no_roots = a.no_roots;
    signed = λ d m k. elim m [ inl e ↦ rw e own | inr n ↦ a.signed d n k ];
    found = λ d m k live. elim m [
      | inl e ↦
          a.outcome.extends.root (admit_root-found env trusted now this all c p (rw e at live))
      | inr n ↦ a.found d n k live
    ];
  }
  RootsEnsure-remove c cs p (err e) root own a = (a.0, Forged-later c a.1)

  pub take_roots-RootsEnsure :
      (cs : List DeviceCertificate) (p : Progress)
      → Sound env trusted now this all p
      → ((c : DeviceCertificate) → In c cs → In c all)
      → RootsEnsure cs p (take_roots env now this trusted cs p)
  unfolding take_roots
  take_roots-RootsEnsure [] p s m = record {
    outcome = Outcome-refl [] p s;
    no_roots = λ c h. elim h [ ];
    signed = λ c h. elim h [ ];
    found = λ c h. elim h [ ];
  }
  take_roots-RootsEnsure (c ∷ cs) p s m = elim (Bool-cases (pk_hash env c.pk == trusted)) [
    | inl root ↦ elim (Bool-cases (verified_by env c c.pk)) [
      | inl own ↦
          rw (root, own, take_roots)
            (RootsEnsure-remove c cs p _ root own (
              take_roots-RootsEnsure cs (admit_root env now this c p)
                (admit_root-Sound env trusted now this all c p (m c (inl refl)) root
                  (rooted c root own) s)
                (λ d n. m d (inr n))))
      | inr forged ↦
          rw (root, forged, take_roots)
            (refl, record { entry = c; listed = inl refl; is_root = root; unsigned = forged })
    ]
    | inr other ↦
        rw (other, take_roots)
          (RootsEnsure-skip c cs p _ other (take_roots-RootsEnsure cs p s (λ d n. m d (inr n))))
  ]

  pub pass-Outcome :
      (cs : List DeviceCertificate) (p : Progress)
      → Sound env trusted now this all p
      → ((c : DeviceCertificate) → In c cs → In c all)
      → Outcome cs p (pass env now this cs p).0 (pass env now this cs p).1
  unfolding pass
  pass-Outcome [] p s m = Outcome-refl [] p s
  pass-Outcome (c ∷ cs) p s m = elim (Bool-cases (vouched_for env now this p c)) [
    | inl signed ↦
        let v : Vouched env trusted now all c = Vouched-by_signer c p s signed in
        rw (signed, pass)
          (Outcome-remove c (admit-Extends env trusted now this all c p)
            (admit-Handled env trusted now this all c p v)
            (pass-Outcome cs (admit env now this c p)
              (admit-Sound env trusted now this all c p (m c (inl refl)) v s) (λ d n. m d (inr n))))
    | inr unsigned ↦ rw (unsigned, pass) (Outcome-skip c (pass-Outcome cs p s (λ d n. m d (inr n))))
  ]
