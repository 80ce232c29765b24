-- ===== src/Console/Retry.antt =====
-- `retryOnError` of pkg/console/util.go. The process is what its n-th call returns; the pauses are
-- left out. The number of retries is not negative, as at each call in the source: a negative one would
-- be counted down without an end.
use harvester_installer.Prelude.{
  Result, arith, err, false, ok, refl, suc, succeeds, zero, ℕ, ◌+◌, ◌<◌, ◌∙◌, ◌≡◌, ◌≤◌,
}

-- The `for` loop: `retry_num` counts down, `calls` is the number of calls made before.
unfoldable pub retry_from {ℓ} :
    {E : Type ℓ} → (ℕ → Result E (Unit {0})) → ℕ → ℕ → Result E (Unit {0}) × ℕ
retry_from process zero calls = (process calls, suc calls)
retry_from process (suc retry_num) calls = elim (process calls) [
  | ok _ ↦ (ok tt, suc calls)
  | err e ↦ retry_from process retry_num (suc calls)
]

-- The result, and the number of calls.
unfoldable pub retry_on_error {ℓ} :
    {E : Type ℓ} → ℕ → (ℕ → Result E (Unit {0})) → Result E (Unit {0}) × ℕ
retry_on_error retry_num process = retry_from process retry_num 0

module _ {ℓ} {E : Type ℓ} (process : ℕ → Result E (Unit {0})) where
  retry-ok : (n first : ℕ) → process first ≡ ok tt → retry_from process n first ≡ (ok tt, suc first)
  unfolding retry_from
  retry-ok zero first h = rw h
  retry-ok (suc n) first h = ground arith

  retry-err :
      (n first : ℕ)
      → succeeds (process first) ≡ false
      → retry_from process (suc n) first ≡ retry_from process n (suc first)
  unfolding retry_from
  retry-err n first h = ground arith

  retry_from-stops :
      (retry_num first k : ℕ)
      → k ≤ retry_num
      → ((j : ℕ) → j < k → succeeds (process (first + j)) ≡ false)
      → process (first + k) ≡ ok tt
      → retry_from process retry_num first ≡ (ok tt, suc (first + k))
  retry_from-stops retry_num first zero low fails done =
      let same : first + 0 ≡ first = omega arith in
      rw same (retry-ok retry_num first (rw same at done))
  retry_from-stops zero first (suc k) low fails done = absurd (omega arith)
  retry_from-stops (suc n) first (suc k) low fails done =
      let here : first + 0 ≡ first = omega arith in
      let next : (j : ℕ) → first + suc j ≡ suc first + j = λ j. omega arith in
      retry-err n first (rw here at (fails 0 (omega arith)))
      ∙ rw (next k) (
          retry_from-stops n (suc first) k (omega arith)
            (λ j h. rw (next j) at (fails (suc j) (omega arith))) (rw (next k) at done))

  retry_from-gives_up :
      (retry_num first : ℕ)
      → ((j : ℕ) → j ≤ retry_num → succeeds (process (first + j)) ≡ false)
      → retry_from process retry_num first ≡ (process (first + retry_num), suc (first + retry_num))
  retry_from-gives_up zero first fails =
      let same : first + 0 ≡ first = omega arith in rw same (unfold retry_from in refl)
  retry_from-gives_up (suc n) first fails =
      let here : first + 0 ≡ first = omega arith in
      let next : (j : ℕ) → first + suc j ≡ suc first + j = λ j. omega arith in
      retry-err n first (rw here at (fails 0 (omega arith)))
      ∙ rw (next n)
          (retry_from-gives_up n (suc first) (λ j h. rw (next j) at (fails (suc j) (omega arith))))

  -- If `k ≤ n` and call `k + 1` is the first call to succeed, then `retryOnError` with `n` retries
  -- succeeds and makes `k + 1` calls.
  pub retry_on_error-stops :
      (n k : ℕ)
      → k ≤ n
      → ((j : ℕ) → j < k → succeeds (process j) ≡ false)
      → process k ≡ ok tt
      → retry_on_error n process ≡ (ok tt, suc k)
  unfolding retry_on_error
  retry_on_error-stops n k low fails done =
      let zero-add : (j : ℕ) → 0 + j ≡ j = λ j. omega arith in
      retry_from-stops n 0 k low (λ j h. rw (zero-add j) (fails j h)) (rw (zero-add k) done)
      ∙ rw (zero-add k)

  -- If none of the first `n + 1` calls succeeds, then `retryOnError` with `n` retries makes just these
  -- calls and returns the result of the last.
  pub retry_on_error-gives_up :
      (n : ℕ)
      → ((j : ℕ) → j ≤ n → succeeds (process j) ≡ false)
      → retry_on_error n process ≡ (process n, suc n)
  unfolding retry_on_error
  retry_on_error-gives_up n fails =
      let zero-add : (j : ℕ) → 0 + j ≡ j = λ j. omega arith in
      retry_from-gives_up n 0 (λ j h. rw (zero-add j) (fails j h)) ∙ rw (zero-add n)
