-- ===== src/Common/Retry/Attempts.antt =====
-- Which attempt decides the result of `ExecuteWithRetry` in common/retry.go.
use cardano_infrastructure.Base.{
  ℕ, zero, suc, ◌+◌, ◌<◌, ◌≡◌, ◌⊎◌, ap₂, refl, sym, ◌∙◌, ap, subst, Bool, true, not, Bool-cases,
  Option-cases, inl, inr, Option, none, some, List, arith, if◌then◌else◌,
}
use cardano_infrastructure.Common.Retry.{
  RetryError, RetryConfig, retry_loop, round, after_wait, execute_with_retry, configured,
  default_config, err_retry_timeout,
}

module _ {ℓ} {A : Type ℓ} (retryable : RetryError → Bool) (handler : ℕ → A × Option RetryError)
    (done : ℕ → Option RetryError) where
  -- Round `j` fails with an error that can be retried, and the wait after it ends in time.
  abbrev pub IsRetried : ℕ → Type 0
  IsRetried j = (e : RetryError) × ((handler j).1 ≡ some e) × (retryable e ≡ true) × (done j ≡ none)

  one_round :
      (n count : ℕ) (result : A)
      → IsRetried count
      → retry_loop retryable handler done (suc n) count result
        ≡ retry_loop retryable handler done n (count + 1) (handler count).0
  unfolding retry_loop round after_wait
  one_round n count result (e, f, r, d) =
      let rest = retry_loop retryable handler done n (count + 1) (handler count).0 in
      let last = (handler count).0 in
      ap (λ x. round retryable last x (done count) rest) f
      ∙ ap (λ b. if not b then (last, some e) else after_wait last (done count) rest) r
      ∙ ap (λ d. after_wait last d rest) d

  success_round :
      (n count : ℕ) (result : A)
      → (handler count).1 ≡ none
      → retry_loop retryable handler done (suc n) count result ≡ ((handler count).0, none)
  unfolding retry_loop round
  success_round n count result f =
      let rest = retry_loop retryable handler done n (count + 1) (handler count).0 in
      ap (λ x. round retryable (handler count).0 x (done count) rest) f

  later :
      (count k : ℕ)
      → ((j : ℕ) → j < suc k → IsRetried (count + j))
      → (j : ℕ) → j < k
      → IsRetried (count + 1 + j)
  later count k h j l =
      let e : count + suc j ≡ count + 1 + j = omega arith in
      subst IsRetried e (h (suc j) (omega arith))

  pub first_success :
      (k n count : ℕ) (result : A)
      → k < n
      → ((j : ℕ) → j < k → IsRetried (count + j))
      → (handler (count + k)).1 ≡ none
      → retry_loop retryable handler done n count result ≡ ((handler (count + k)).0, none)
  first_success k zero count result l h f = absurd (omega arith)
  first_success zero (suc n) count result l h f =
      let e : count + 0 ≡ count = omega arith in
      success_round n count result (ap (λ c. (handler c).1) (sym e) ∙ f)
      ∙ ap (λ c. ((handler c).0, none)) (sym e)
  first_success (suc k) (suc n) count result l h f =
      let e : count + 1 + k ≡ count + suc k = omega arith in
      let z : count + 0 ≡ count = omega arith in
      one_round n count result (subst IsRetried z (h 0 (omega arith)))
      ∙ first_success k n (count + 1) (handler count).0 (omega arith) (later count k h)
          (ap (λ c. (handler c).1) e ∙ f)
      ∙ ap (λ c. ((handler c).0, none)) e

  pub all_retried :
      (n count : ℕ) (result : A)
      → ((j : ℕ) → j < n → IsRetried (count + j))
      → (retry_loop retryable handler done n count result).1 ≡ some err_retry_timeout
  unfolding retry_loop
  all_retried zero count result h = refl
  all_retried (suc n) count result h =
      let z : count + 0 ≡ count = omega arith in
      ap (λ x. x.1) (one_round n count result (subst IsRetried z (h 0 (omega arith))))
      ∙ all_retried n (count + 1) (handler count).0 (later count n h)

  -- A result without error comes from round `count + k`, and the rounds before it were retried.
  abbrev pub SucceedsAt : ℕ → ℕ → A → Type ℓ
  SucceedsAt n count r =
      (k : ℕ) × (k < n)
      × ((j : ℕ) → j < k → IsRetried (count + j))
      × (handler (count + k) ≡ (r, none))

  earlier :
      (n count : ℕ) (r : A)
      → IsRetried count
      → SucceedsAt n (count + 1) r
      → SucceedsAt (suc n) count r
  earlier n count r first (k, l, h, e) = (
    suc k,
    omega arith,
    shifted,
    ap handler (let s : count + suc k ≡ count + 1 + k = omega arith in s) ∙ e,
  )
    where
      shifted : (j : ℕ) → j < suc k → IsRetried (count + j)
      shifted zero m = subst IsRetried (let s : count ≡ count + 0 = omega arith in s) first
      shifted (suc j) m =
          subst IsRetried (let s : count + 1 + j ≡ count + suc j = omega arith in s)
            (h j (omega arith))

  round_inv :
      (last : A) (failure : Option RetryError) (count : ℕ) (rest : A × Option RetryError) (r : A)
      → (handler count).1 ≡ failure
      → round retryable last failure (done count) rest ≡ (r, none)
      → ((last ≡ r) × (failure ≡ none)) ⊎ (IsRetried count × (rest ≡ (r, none)))
  unfolding round after_wait
  round_inv last none count rest r f h = inl (ap (λ x. x.0) h, refl)
  round_inv last (some e) count rest r f h =
      let by : Bool → A × Option RetryError =
        λ b. if not b then (last, some e) else after_wait last (done count) rest in
      elim (Bool-cases (retryable e)) [
        | inr q ↦ absurd (cc (sym (ap (λ x. x.1) (ap by q)) ∙ ap (λ x. x.1) h))
        | inl q ↦ elim (Option-cases (done count)) [
          | inl d ↦ inr ((e, f, q, d), sym (ap by q ∙ ap (λ m. after_wait last m rest) d) ∙ h)
          | inr (x, d) ↦ absurd (
              cc (
                sym (ap (λ x. x.1) (ap by q ∙ ap (λ m. after_wait last m rest) d))
                ∙ ap (λ x. x.1) h))
        ]
      ]

  pub success_inv :
      (n count : ℕ) (result r : A)
      → retry_loop retryable handler done n count result ≡ (r, none)
      → SucceedsAt n count r
  unfolding retry_loop
  success_inv zero count result r h = absurd (cc (ap (λ x. x.1) h))
  success_inv (suc n) count result r h =
      let rest = retry_loop retryable handler done n (count + 1) (handler count).0 in
      elim (round_inv (handler count).0 (handler count).1 count rest r refl h) [
        | inl (e, f) ↦
            let z : count + 0 ≡ count = omega arith in
            (
              0,
              omega arith,
              λ j l. absurd (omega (arith, l)),
              ap handler z ∙ ap₂ (λ a b. (a, b)) e f,
            )
        | inr (retried, e) ↦
            earlier n count r retried (success_inv n (count + 1) (handler count).0 r e)
      ]

module _ {ℓ} {A : Type ℓ} (handler : ℕ → A × Option RetryError) (done : ℕ → Option RetryError)
    (options : List (RetryConfig → RetryConfig)) where
  abbrev pub config : RetryConfig
  config = configured options default_config

  -- If the handler succeeds in round `k`, within the configured count, and every round before it
  -- fails with an error that can be retried, with no context done in its wait, then `ExecuteWithRetry`
  -- returns the result of round `k` without error.
  pub execute_with_retry_succeeds :
      (zero_value : A) (k : ℕ)
      → k < config.retry_count
      → ((j : ℕ) → j < k → IsRetried config.is_retryable_error handler done j)
      → (handler k).1 ≡ none
      → execute_with_retry zero_value handler done options ≡ ((handler k).0, none)
  unfolding execute_with_retry
  execute_with_retry_succeeds zero_value k l h f =
      let z : 0 + k ≡ k = omega arith in
      first_success config.is_retryable_error handler done k config.retry_count 0 zero_value l
        (λ j m.
          subst (IsRetried config.is_retryable_error handler done)
            (let s : j ≡ 0 + j = omega arith in s) (h j m))
        (ap (λ c. (handler c).1) z ∙ f)
      ∙ ap (λ c. ((handler c).0, none)) z

  -- If every round of the configured count fails with an error that can be retried, with no context
  -- done in its wait, then the error is `ErrRetryTimeout`.
  pub execute_with_retry_times_out :
      (zero_value : A)
      → ((j : ℕ) → j < config.retry_count → IsRetried config.is_retryable_error handler done j)
      → (execute_with_retry zero_value handler done options).1 ≡ some err_retry_timeout
  unfolding execute_with_retry
  execute_with_retry_times_out zero_value h =
      all_retried config.is_retryable_error handler done config.retry_count 0 zero_value (λ j m.
        subst (IsRetried config.is_retryable_error handler done)
          (let s : j ≡ 0 + j = omega arith in s) (h j m))

  -- A result of `ExecuteWithRetry` without error is what the handler returned in a round within the
  -- configured count, and every round before it was retried.
  pub execute_with_retry-SucceedsAt :
      (zero_value r : A)
      → execute_with_retry zero_value handler done options ≡ (r, none)
      → SucceedsAt config.is_retryable_error handler done config.retry_count 0 r
  unfolding execute_with_retry
  execute_with_retry-SucceedsAt zero_value r h =
      success_inv config.is_retryable_error handler done config.retry_count 0 zero_value r h
