-- ===== src/Certificate/Steps.antt =====
-- The invariant of the two loops of `verify`, and what one step of either does to it.
use xirtam_core.Prelude.{
  ◌≡◌, refl, inl, inr, true, List, [], ◌∷◌, ◌<◌, arith, In, All, All-append, In-append_left,
  In-append_right, ◌==◌, nat_eq, ltb, ltb→lt, lt→ltb, Bool-cases,
}
use xirtam_core.Structs.{
  Hash, Timestamp, SigningPublic, DeviceCertificate, certificate_eq, certificate_beq_iff,
}
use xirtam_core.Env.{Env}
use xirtam_core.Certificate.{Progress, admit, admit_root}
use xirtam_core.Certificate.Relation.{IsRoot, Vouched, Issuer, LiveRoot}

module _ (env : Env) (trusted : Hash) (now : Timestamp) (this : DeviceCertificate)
    (all : List DeviceCertificate) where
  pub record Sound (p : Progress) : Type 0 where
    pub signers : All (Issuer env trusted now all) p.trusted_signers
    pub leaf : p.this_verified ≡ true → Vouched env trusted now all this × (now < this.expiry)
    pub root : p.trusted_root_found ≡ true → LiveRoot env trusted now all

  pub record Extends (p q : Progress) : Type 0 where
    pub signers : (pk : SigningPublic) → In pk p.trusted_signers → In pk q.trusted_signers
    pub leaf : p.this_verified ≡ true → q.this_verified ≡ true
    pub root : p.trusted_root_found ≡ true → q.trusted_root_found ≡ true

  -- What a removed entry leaves behind in the state.
  pub record Handled (q : Progress) (c : DeviceCertificate) : Type 0 where
    pub vouched : Vouched env trusted now all c
    pub signs : now < c.expiry → c.can_issue ≡ true → In c.pk q.trusted_signers
    pub marks : now < c.expiry → c ≡ this → q.this_verified ≡ true

  pub Extends-refl : (p : Progress) → Extends p p
  Extends-refl p = record { signers = λ pk h. h; leaf = λ h. h; root = λ h. h }

  pub Extends-trans : {p q r : Progress} → Extends p q → Extends q r → Extends p r
  Extends-trans a b = record {
    signers = λ pk h. b.signers pk (a.signers pk h);
    leaf = λ h. b.leaf (a.leaf h);
    root = λ h. b.root (a.root h);
  }

  pub Handled-mono :
      {p q : Progress} {c : DeviceCertificate} → Extends p q → Handled p c → Handled q c
  Handled-mono {c} x h = record {
    vouched = h.vouched;
    signs = λ a b. x.signers c.pk (h.signs a b);
    marks = λ a b. x.leaf (h.marks a b);
  }

  module _ (c : DeviceCertificate) (p : Progress) where
    pub admit-Extends : Extends p (admit env now this c p)
    unfolding admit
    admit-Extends = record {
      signers = λ pk h. ground (arith, In-append_left pk p.trusted_signers (c.pk ∷ []));
      leaf = λ h. ground arith;
      root = λ h. ground arith;
    }

    pub admit-Handled : Vouched env trusted now all c → Handled (admit env now this c p) c
    unfolding admit
    admit-Handled v = record {
      vouched = v;
      signs = λ live issues.
          rw (lt→ltb now c.expiry live, issues)
            (In-append_right c.pk p.trusted_signers (c.pk ∷ []) (inl refl));
      marks = λ live e. rw (lt→ltb now c.expiry live, (certificate_beq_iff c this).1 e) refl;
    }

    pub admit-Sound :
        In c all → Vouched env trusted now all c → Sound p → Sound (admit env now this c p)
    unfolding admit
    admit-Sound m v s = elim (Bool-cases (ltb now c.expiry)) [
      | inr old ↦ rw old s
      | inl live ↦ rw live (record {
        signers = elim (Bool-cases c.can_issue) [
          | inr plain ↦ rw plain s.signers
          | inl issues ↦ rw issues (
              All-append (Issuer env trusted now all) p.trusted_signers (c.pk ∷ []) s.signers (
                record {
                  holder = c;
                  listed = m;
                  vouched = v;
                  live = ltb→lt now c.expiry live;
                  issues = issues;
                  key = refl;
                },
                tt,
              ))
        ];
        leaf = λ h. elim (Bool-cases (c == this)) [
          | inr other ↦ s.leaf (rw other at h)
          | inl same ↦
              let e : c ≡ this = (certificate_beq_iff c this).0 same in
              (rw e at v, rw e at (ltb→lt now c.expiry live))
        ];
        root = s.root;
      })
    ]

    pub admit_root-Extends : Extends p (admit_root env now this c p)
    unfolding admit_root
    admit_root-Extends = record {
      signers = λ pk h. ground (arith, In-append_left pk p.trusted_signers (c.pk ∷ []));
      leaf = λ h. ground arith;
      root = λ h. ground arith;
    }

    pub admit_root-Handled : Vouched env trusted now all c → Handled (admit_root env now this c p) c
    unfolding admit_root
    admit_root-Handled v = record {
      vouched = v;
      signs = λ live issues.
          rw (lt→ltb now c.expiry live, issues)
            (In-append_right c.pk p.trusted_signers (c.pk ∷ []) (inl refl));
      marks = λ live e. rw (lt→ltb now c.expiry live, (certificate_beq_iff c this).1 e) refl;
    }

    pub admit_root-found : now < c.expiry → (admit_root env now this c p).trusted_root_found ≡ true
    unfolding admit_root
    admit_root-found live = rw (lt→ltb now c.expiry live)

    pub admit_root-Sound :
        In c all
        → IsRoot env trusted now all c
        → Vouched env trusted now all c
        → Sound p
        → Sound (admit_root env now this c p)
    unfolding admit_root
    admit_root-Sound m r v s = elim (Bool-cases (ltb now c.expiry)) [
      | inr old ↦ rw old s
      | inl live ↦
          let old : Sound (admit env now this c p) = admit-Sound m v s in
          rw live (record {
            signers = (rw (live, admit) at (old.signers));
            leaf = (rw (live, admit) at (old.leaf));
            root =
                λ _. record { root = c; listed = m; is_root = r; live = ltb→lt now c.expiry live };
          })
    ]
