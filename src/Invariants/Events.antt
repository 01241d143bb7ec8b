-- ===== src/Invariants/Events.antt =====
-- The outbox publisher: its retry policy, and the rows of `import_dispatch_outbox`.
use fastapi_shipment_import.Base.{
  ℕ, suc, zero, ◌+◌, ◌≤◌, ◌<◌, ◌≡◌, refl, arith, true, false, not, Bool-cases, inl, inr, none, some,
  List, [], ◌∷◌, length, get_elem?, is_some, leb, ◌↔◌,
}
use fastapi_shipment_import.Settings.{Settings, validated, validate_retry_delays}
use fastapi_shipment_import.Repositories.Outbox.{ClaimedOutboxEvent}
use fastapi_shipment_import.Services.Publisher.{FailureOutcome, failure_outcome, retry_outcome}

get_elem?-some {ℓ} :
    {A : Type ℓ} (xs : List A) (n : ℕ) → n < length xs → (x : A) × (get_elem? xs n ≡ some x)
get_elem?-some [] n h = absurd (omega arith)
get_elem?-some (x ∷ xs) zero h = (x, refl)
get_elem?-some (x ∷ xs) (suc n) h = get_elem?-some xs n (omega arith)

get_elem?-none {ℓ} : {A : Type ℓ} (xs : List A) (n : ℕ) → length xs ≤ n → get_elem? xs n ≡ none
get_elem?-none [] n h = refl
get_elem?-none (x ∷ xs) zero h = absurd (omega arith)
get_elem?-none (x ∷ xs) (suc n) h = get_elem?-none xs n (omega arith)

four_delays :
    (settings : Settings)
    → validated settings ≡ true
    → length settings.outbox_retry_delays_seconds ≡ 4
unfolding validated validate_retry_delays
four_delays settings h = ground arith

-- Under validated settings with outbox_max_attempts at most 5, a failed dispatch always has an
-- outcome: one more attempt, exhausted exactly if the maximum is reached, and a next time exactly
-- if it is not.
pub failure_outcome-decides :
    (settings : Settings) (failed_at : ℕ) (claimed : ClaimedOutboxEvent)
    → validated settings ≡ true
    → settings.outbox_max_attempts ≤ 5
    → (outcome : FailureOutcome) × (failure_outcome settings failed_at claimed ≡ some outcome)
      × (outcome.attempt_count ≡ claimed.attempt_count + 1)
      × (outcome.exhausted ≡ leb settings.outbox_max_attempts outcome.attempt_count)
      × (is_some outcome.available_at ≡ not outcome.exhausted)
unfolding failure_outcome retry_outcome
failure_outcome-decides settings failed_at claimed h small =
    elim (Bool-cases (leb settings.outbox_max_attempts (claimed.attempt_count + 1))) [
      | inl t ↦ (
        record { attempt_count = claimed.attempt_count + 1; exhausted = true; available_at = none },
        ground (arith, t),
        refl,
        ground (arith, t),
        refl,
      )
      | inr f ↦
          let (delay, e) =
            get_elem?-some settings.outbox_retry_delays_seconds claimed.attempt_count
              (ground (arith, f, small, four_delays settings h)) in
          (
            record {
              attempt_count = claimed.attempt_count + 1;
              exhausted = false;
              available_at = some (failed_at + delay);
            },
            ground (arith, f, e),
            refl,
            ground (arith, f),
            refl,
          )
    ]

-- Under validated settings, where a failed dispatch is not the last allowed, the retry delay is
-- missing, an IndexError, exactly when the event already had four attempts or more.
pub failure_outcome-lacks_delay :
    (settings : Settings) (failed_at : ℕ) (claimed : ClaimedOutboxEvent)
    → validated settings ≡ true
    → claimed.attempt_count + 1 < settings.outbox_max_attempts
    → (failure_outcome settings failed_at claimed ≡ none) ↔ (4 ≤ claimed.attempt_count)
unfolding failure_outcome retry_outcome
failure_outcome-lacks_delay settings failed_at claimed h more =
    let four = four_delays settings h in
    (
      λ e. elim (Bool-cases (leb 4 claimed.attempt_count)) [
        | inl t ↦ ground (arith, t)
        | inr f ↦
            let (delay, found) =
              get_elem?-some settings.outbox_retry_delays_seconds claimed.attempt_count
                (ground (arith, f, four)) in
            absurd (ground (arith, e, found, more))
      ],
      λ late.
          let missing =
            get_elem?-none settings.outbox_retry_delays_seconds claimed.attempt_count
              (omega (arith, four, late)) in
          ground (arith, missing, more),
    )
