-- ===== src/Common/Retry/Tests.antt =====
-- A handler for common/retry.go that fails twice and then succeeds, and one that never does.
use cardano_infrastructure.Base.{
  ℕ, zero, suc, ◌<◌, ◌≡◌, refl, Bool, true, false, Option, none, some, List, [], ◌∷◌, ascii, arith,
}
use cardano_infrastructure.Common.Retry.{
  RetryError, RetryConfig, with_retry_count, with_is_retryable_error, configured, retry_loop, round,
  after_wait, execute_with_retry, err_retry_timeout,
}
use cardano_infrastructure.Common.Retry.Attempts.{
  IsRetried, SucceedsAt, config, execute_with_retry_succeeds, execute_with_retry_times_out,
  execute_with_retry-SucceedsAt,
}

abbrev try_again : RetryError
try_again = record {
  text = ascii "retry try again";
  is_canceled = false;
  is_deadline_exceeded = false;
  is_net_timeout = false;
  is_try_again = true;
}

abbrev third : ℕ → ℕ × Option RetryError
third zero = (0, some try_again)
third (suc zero) = (0, some try_again)
third n = (7, none)

abbrev never : ℕ → ℕ × Option RetryError
never n = (0, some try_again)

abbrev no_context : ℕ → Option RetryError
no_context n = none

abbrev options : List (RetryConfig → RetryConfig)
options = with_retry_count 4 ∷ with_is_retryable_error (λ e. e.is_try_again) ∷ []

abbrev retryable : RetryError → Bool
retryable = λ e. e.is_try_again

four : (config third no_context options).retry_count ≡ 4
unfolding configured
four = refl

first_two : (j : ℕ) → j < 2 → IsRetried retryable third no_context j
first_two zero h = (try_again, refl, refl, refl)
first_two (suc zero) h = (try_again, refl, refl, refl)
first_two (suc (suc j)) h = absurd (omega arith)

succeeded : execute_with_retry 0 third no_context options ≡ (7, none)
unfolding execute_with_retry configured retry_loop round after_wait
succeeded = refl

execute_with_retry_succeeds_example : execute_with_retry 0 third no_context options ≡ (7, none)
unfolding configured
execute_with_retry_succeeds_example =
    execute_with_retry_succeeds third no_context options 0 2 (omega arith) first_two refl

execute_with_retry_times_out_example :
    (execute_with_retry 0 never no_context options).1 ≡ some err_retry_timeout
unfolding configured
execute_with_retry_times_out_example =
    execute_with_retry_times_out never no_context options 0 (λ j h. (try_again, refl, refl, refl))

execute_with_retry-SucceedsAt_example : SucceedsAt retryable third no_context 4 0 7
unfolding configured
execute_with_retry-SucceedsAt_example =
    execute_with_retry-SucceedsAt third no_context options 0 7 succeeded
