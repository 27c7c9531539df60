-- ===== src/Common/Retry.antt =====
-- common/retry.go: the retry loop, less its logging. The handler is run once per round; what happens
-- in a round is its result and then, if the round is after_wait for, whether the context was done first.
-- A count below 0 does what 0 does. `net.Error` and the `errors` of Go are seen through what the code asks of them.
pub mod Attempts
mod Tests
use cardano_infrastructure.Base.{
  ℕ, zero, suc, ◌+◌, Bool, true, false, ◌||◌, not, Option, none, some, List, [], ◌∷◌, Bytes, ascii,
  ◌==◌, if◌then◌else◌,
}

-- An error as far as the code looks at it: its text, and what `errors.Is` and `errors.As` find in it.
pub record RetryError : Type 0 where
  pub text : Bytes
  pub is_canceled : Bool
  pub is_deadline_exceeded : Bool
  pub is_net_timeout : Bool
  pub is_try_again : Bool

abbrev pub default_retry_count : ℕ
default_retry_count = 10

abbrev pub err_retry_timeout : RetryError
err_retry_timeout = record {
  text = ascii "timeout";
  is_canceled = false;
  is_deadline_exceeded = false;
  is_net_timeout = false;
  is_try_again = false;
}

unfoldable pub is_context_done_err : RetryError → Bool
is_context_done_err e = e.is_canceled || e.is_deadline_exceeded

unfoldable pub is_retryable_error_default : RetryError → Bool
is_retryable_error_default e =
    if is_context_done_err e then false else if e.is_net_timeout then true else e.is_try_again

-- `strings.HasPrefix` and `strings.Contains`.
unfoldable pub has_prefix : Bytes → Bytes → Bool
has_prefix s [] = true
has_prefix [] (b ∷ bs) = false
has_prefix (c ∷ s) (b ∷ bs) = if c == b then has_prefix s bs else false

unfoldable pub str_contains : Bytes → Bytes → Bool
str_contains [] msg = has_prefix [] msg
str_contains (c ∷ s) msg = has_prefix (c ∷ s) msg || str_contains s msg

abbrev pub retryable_messages : List Bytes
retryable_messages =
    ascii "replacement transaction underpriced"
    ∷ ascii "replacement tx underpriced"
    ∷ ascii "nonce too low"
    ∷ ascii "intrinsic gas too low"
    ∷ ascii "tx with the same nonce is already present"
    ∷ ascii "rejected future tx due to low slots"
    ∷ ascii "transaction underpriced"
    ∷ ascii "status code 429"
    ∷ ascii "status code 500"
    ∷ ascii "i/o timeout"
    ∷ []

unfoldable pub any_message : Bytes → List Bytes → Bool
any_message text [] = false
any_message text (msg ∷ msgs) = str_contains text msg || any_message text msgs

unfoldable pub is_retryable_error : Option RetryError → Bool
is_retryable_error none = false
is_retryable_error (some e) =
    if any_message e.text retryable_messages then true else is_retryable_error_default e

-- What the loop reads; the time to wait only decides when a round ends.
pub record RetryConfig : Type 0 where
  pub retry_count : ℕ
  pub is_retryable_error : RetryError → Bool

abbrev pub default_config : RetryConfig
default_config = record {
  retry_count = default_retry_count;
  is_retryable_error = λ e. is_retryable_error (some e);
}

abbrev pub with_retry_count : ℕ → RetryConfig → RetryConfig
with_retry_count retry_count c = record c { retry_count = retry_count }

abbrev pub with_is_retryable_error : (RetryError → Bool) → RetryConfig → RetryConfig
with_is_retryable_error fn c = record c { is_retryable_error = fn }

unfoldable pub configured : List (RetryConfig → RetryConfig) → RetryConfig → RetryConfig
configured [] config = config
configured (opt ∷ options) config = configured options (opt config)

module _ {ℓ} {A : Type ℓ} where
  -- The `select` of a round: the context is done first, or the wait is over and `rest` follows.
  unfoldable pub after_wait : A → Option RetryError → A × Option RetryError → A × Option RetryError
  after_wait result none rest = rest
  after_wait result (some e) rest = (result, some e)

  -- A round whose handler returned `result` and `err`.
  unfoldable pub round :
      (RetryError → Bool)
      → A
      → Option RetryError
      → Option RetryError
      → A × Option RetryError
      → A × Option RetryError
  round retryable result none stopped rest = (result, none)
  round retryable result (some e) stopped rest =
      if not (retryable e) then (result, some e) else after_wait result stopped rest

  -- `handler count` is what the call of round `count` returns, `done count` the error of the context if
  -- it is done while that round waits. The result is the last one of the handler, or `result`.
  unfoldable pub retry_loop :
      (RetryError → Bool)
      → (ℕ → A × Option RetryError)
      → (ℕ → Option RetryError)
      → ℕ
      → ℕ
      → A
      → A × Option RetryError
  retry_loop retryable handler done zero count result = (result, some err_retry_timeout)
  retry_loop retryable handler done (suc n) count result =
      round retryable (handler count).0 (handler count).1 (done count)
        (retry_loop retryable handler done n (count + 1) (handler count).0)

  -- `zero_value` is the zero value of the result's type.
  unfoldable pub execute_with_retry :
      A
      → (ℕ → A × Option RetryError)
      → (ℕ → Option RetryError)
      → List (RetryConfig → RetryConfig)
      → A × Option RetryError
  execute_with_retry zero_value handler done options =
      let config = configured options default_config in
      retry_loop config.is_retryable_error handler done config.retry_count 0 zero_value
