-- ===== src/Client/Retry.antt =====
-- libraries/nullspace-client/src/retry.rs. The argument `call` is what the closure answers, by the
-- number of the call from 0; the waits are returned in milliseconds, in their order.
use xirtam_core.Prelude.{
  ℕ, zero, suc, ◌+◌, ◌^◌, ◌≤◌, ◌<◌, min, ◌≡◌, refl, sym, ltb→lt, lt→ltb, subst, ◌⊎◌, inl, inr, Bool,
  true, false, Option, none, some, List, [], ◌∷◌, length, ltb, Bool-cases, arith, Result, ok, err,
  Result-cases, if◌then◌else◌,
}
use xirtam_core.Server.Database.{saturating_mul}

-- `checked_shl` of 1 by less than 64 is the power of 2
unfoldable pub transient_backoff : ℕ → ℕ
unfolding saturating_mul
transient_backoff transient_attempt = min (saturating_mul 25 (2 ^ min transient_attempt 62)) 20_000

abbrev pub failed {ℓ κ} : {E : Type ℓ} {T : Type κ} → Result E T → Bool
failed (ok _) = false
failed (err _) = true

module _ {ℓ κ} {E : Type ℓ} {T : Type κ} (call : ℕ → Result E T) where
  abbrev pub after_wait : ℕ → Option (Result E T × List ℕ) → Option (Result E T × List ℕ)
  after_wait attempts none = none
  after_wait attempts (some (r, waits)) = some (r, transient_backoff attempts ∷ waits)

  unfoldable pub retry_from : ℕ → ℕ → Option (Result E T × List ℕ)
  retry_from zero attempts = none
  retry_from (suc fuel) attempts =
      let again = after_wait attempts (retry_from fuel (attempts + 1)) in
      elim (call attempts) [
        | ok v ↦ some (ok v, [])
        | err e ↦ if ltb attempts 7 then again else some (err e, [])
      ]

  -- the loop, with fuel for eight calls
  unfoldable pub retry_backoff : Option (Result E T × List ℕ)
  retry_backoff = retry_from 8 0

  -- the calls that were made after `start` calls
  record Stops (run : Option (Result E T × List ℕ)) (start : ℕ) : Type (ℓ ⊔ κ) where
    n : ℕ
    waits : List ℕ
    done : run ≡ some (call n, waits)
    from : start ≤ n
    within : n ≤ 7
    count : length waits + start ≡ n
    errors : (k : ℕ) → start ≤ k → k < n → failed (call k) ≡ true
    last : (failed (call n) ≡ false) ⊎ (n ≡ 7)

  module _ (fuel start : ℕ) where
    stop_ok : (v : T) → call start ≡ ok v → retry_from (suc fuel) start ≡ some (ok v, [])
    unfolding retry_from
    stop_ok v e = rw (e, retry_from) refl

    give_up :
        (x : E)
        → call start ≡ err x
        → ltb start 7 ≡ false
        → retry_from (suc fuel) start ≡ some (err x, [])
    unfolding retry_from
    give_up x e full = rw (e, retry_from) (rw full refl)

    go_on :
        (x : E)
        → call start ≡ err x
        → ltb start 7 ≡ true
        → retry_from (suc fuel) start ≡ after_wait start (retry_from fuel (start + 1))
    unfolding retry_from
    go_on x e more = rw (e, retry_from) (rw more refl)

  Stops-here :
      (run : Option (Result E T × List ℕ)) (start : ℕ)
      → start ≤ 7
      → run ≡ some (call start, [])
      → (failed (call start) ≡ false) ⊎ (start ≡ 7)
      → Stops run start
  Stops-here run start within done last = record {
    n = start;
    waits = [];
    done = done;
    from = omega arith;
    within = within;
    count = omega arith;
    errors = λ k low high. absurd (omega (arith, low, high));
    last = last;
  }

  -- one more error, before a run that stops
  one_more :
      (run : Option (Result E T × List ℕ)) (start : ℕ)
      → failed (call start) ≡ true
      → Stops run (start + 1)
      → Stops (after_wait start run) start
  one_more run start error rest = record {
    n = rest.n;
    waits = transient_backoff start ∷ rest.waits;
    done = rw (rest.done) refl;
    from = omega (arith, rest.from);
    within = rest.within;
    count = omega (arith, rest.count);
    errors = λ k low high. elim (Bool-cases (ltb start k)) [
      | inl above ↦ rest.errors k (omega (arith, ltb→lt start k above)) high
      | inr same ↦
          let at : start ≡ k = ground (arith, same, low) in
          subst (λ j. failed (call j) ≡ true) at error
    ];
    last = rest.last;
  }

  retry_from-Stops :
      (fuel start : ℕ) → start + suc fuel ≡ 8 → Stops (retry_from (suc fuel) start) start
  retry_from-Stops zero start total = elim (Result-cases (call start)) [
    | inr (v, e) ↦
        Stops-here _ start (omega (arith, total)) (rw e (stop_ok zero start v e)) (inl (rw e refl))
    | inl (x, e) ↦
        let full : ltb start 7 ≡ false = ground (arith, total) in
        Stops-here _ start (omega (arith, total)) (rw e (give_up zero start x e full))
          (inr (omega (arith, total)))
  ]
  retry_from-Stops (suc fuel) start total = elim (Result-cases (call start)) [
    | inr (v, e) ↦
        Stops-here _ start (omega (arith, total)) (rw e (stop_ok (suc fuel) start v e))
          (inl (rw e refl))
    | inl (x, e) ↦
        let more : ltb start 7 ≡ true = lt→ltb start 7 (omega (arith, total)) in
        subst (λ run. Stops run start) (sym (go_on (suc fuel) start x e more))
          (one_more (retry_from (suc fuel) (start + 1)) start (rw e refl)
            (retry_from-Stops fuel (start + 1) (omega (arith, total))))
  ]

  -- The loop ends after at most eight calls. It answers what the last of its calls answers, waits
  -- once between two calls, every call before the last fails, and the last succeeds or is the
  -- eighth.
  pub retry_backoff_ends :
      (n : ℕ) × (waits : List ℕ) × (retry_backoff ≡ some (call n, waits))
      × (n ≤ 7)
      × (length waits ≡ n)
      × ((k : ℕ) → k < n → failed (call k) ≡ true)
      × ((failed (call n) ≡ false) ⊎ (n ≡ 7))
  unfolding retry_backoff
  retry_backoff_ends =
      let s = retry_from-Stops 7 0 refl in
      (
        s.n,
        s.waits,
        s.done,
        s.within,
        omega (arith, s.count),
        λ k high. s.errors k (omega arith) high,
        s.last,
      )
