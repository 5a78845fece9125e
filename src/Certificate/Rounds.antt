-- ===== src/Certificate/Rounds.antt =====
-- The outer loop of `verify`: it ends, and only when nothing is pending or nobody signs the rest.
use xirtam_core.Prelude.{
  ℕ, zero, suc, ◌≡◌, refl, ap, inl, inr, true, false, Option, none, some, List, [], ◌∷◌, ◌<◌, ◌≤◌,
  arith, In, Bool-cases, length, true-ne-false,
}
use xirtam_core.Structs.{Hash, Timestamp, DeviceCertificate}
use xirtam_core.Env.{Env}
use xirtam_core.Certificate.{Progress, admit, vouched_for, pass, rounds}
use xirtam_core.Certificate.Steps.{Sound}
use xirtam_core.Certificate.Loops.{Outcome, Outcome-refl, Outcome-trans, pass-Outcome}

module _ (env : Env) (trusted : Hash) (now : Timestamp) (this : DeviceCertificate)
    (all : List DeviceCertificate) where
  pub length-pass :
      (cs : List DeviceCertificate) (p : Progress) → length (pass env now this cs p).1 ≤ length cs
  unfolding pass
  length-pass [] p = omega arith
  length-pass (c ∷ cs) p = elim (Bool-cases (vouched_for env now this p c)) [
    | inl h ↦ rw (h, pass) (omega (arith, length-pass cs (admit env now this c p)))
    | inr h ↦ rw (h, pass) (omega (arith, length-pass cs p))
  ]

  -- A pass that makes progress removes an entry.
  pub length-pass_progress :
      (cs : List DeviceCertificate) (p : Progress)
      → (pass env now this cs p).2 ≡ true
      → length (pass env now this cs p).1 < length cs
  unfolding pass
  length-pass_progress [] p e = cc
  length-pass_progress (c ∷ cs) p e = elim (Bool-cases (vouched_for env now this p c)) [
    | inl h ↦ rw (h, pass) (omega (arith, length-pass cs (admit env now this c p)))
    | inr h ↦ rw (h, pass) (omega (arith, length-pass_progress cs p (rw (h, pass) at e)))
  ]

  -- Nobody among the trusted signers signed these.
  abbrev pub Stuck : List DeviceCertificate → Progress → Type 0
  Stuck left q = (c : DeviceCertificate) → In c left → vouched_for env now this q c ≡ false

  -- A pass without progress changed nothing.
  pub pass_idle :
      (cs : List DeviceCertificate) (p : Progress)
      → (pass env now this cs p).2 ≡ false
      → ((pass env now this cs p).0 ≡ p) × ((pass env now this cs p).1 ≡ cs) × Stuck cs p
  unfolding pass
  pass_idle [] p e = (refl, refl, λ c m. elim m [ ])
  pass_idle (c ∷ cs) p e = elim (Bool-cases (vouched_for env now this p c)) [
    | inl h ↦ absurd (true-ne-false (rw (h, pass) refl) e)
    | inr h ↦
        let (same, kept, stuck) = pass_idle cs p (rw (h, pass) at e) in
        rw (h, pass) (same, ap (◌∷◌ c) kept, λ d m. elim m [ inl k ↦ rw k h | inr n ↦ stuck d n ])
  ]

  pub record RoundsDone (cs : List DeviceCertificate) (p : Progress)
      (r : Progress × List DeviceCertificate) : Type 0 where
    pub outcome : Outcome env trusted now this all cs p r.0 r.1
    pub stuck : Stuck r.1 r.0

  abbrev pub RoundsEnsure :
      List DeviceCertificate → Progress → Option (Progress × List DeviceCertificate) → Type 0
  RoundsEnsure cs p none = ⊥
  RoundsEnsure cs p (some r) = RoundsDone cs p r

  RoundsEnsure-trans :
      {cs ds : List DeviceCertificate} {p q : Progress}
      (o : Option (Progress × List DeviceCertificate))
      → Outcome env trusted now this all cs p q ds
      → RoundsEnsure ds q o
      → RoundsEnsure cs p o
  RoundsEnsure-trans none a h = h
  RoundsEnsure-trans (some r) a h = record {
    outcome = Outcome-trans env trusted now this all a h.outcome;
    stuck = h.stuck;
  }

  -- With more fuel than there are pending entries the loop ends, and nothing more can be removed.
  pub rounds-RoundsEnsure :
      (fuel : ℕ) (cs : List DeviceCertificate) (p : Progress)
      → length cs < fuel
      → Sound env trusted now this all p
      → ((c : DeviceCertificate) → In c cs → In c all)
      → RoundsEnsure cs p (rounds env now this fuel cs p)
  unfolding rounds
  rounds-RoundsEnsure zero cs p h s m = absurd (omega arith)
  rounds-RoundsEnsure (suc fuel) [] p h s m = record {
    outcome = Outcome-refl env trusted now this all [] p s;
    stuck = λ c n. elim n [ ];
  }
  rounds-RoundsEnsure (suc fuel) (c ∷ cs) p h s m =
      let a : Outcome env trusted now this all (c ∷ cs) p (pass env now this (c ∷ cs) p).0
          (pass env now this (c ∷ cs) p).1 =
        pass-Outcome env trusted now this all (c ∷ cs) p s m in
      elim (Bool-cases (pass env now this (c ∷ cs) p).2) [
        | inl more ↦
            rw (more, rounds)
              (RoundsEnsure-trans _ a (
                rounds-RoundsEnsure fuel _ _ (omega (arith, length-pass_progress (c ∷ cs) p more))
                  a.sound (λ d n. m d (a.within d n))))
        | inr idle ↦
            let (same, kept, stuck) = pass_idle (c ∷ cs) p idle in
            rw (idle, rounds) (record { outcome = a; stuck = rw (same, kept) stuck })
      ]
