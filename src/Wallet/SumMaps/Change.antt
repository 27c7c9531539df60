-- ===== src/Wallet/SumMaps/Change.antt =====
-- What `CreateTxOutputChange` returns.
use cardano_infrastructure.Base.{
  ℕ, ◌+◌, ◌-◌, ◌%◌, ◌^◌, ◌≡◌, refl, sym, ◌∙◌, ap, subst, inl, inr, false, Bool-cases, none, some,
  List, [], ◌∷◌, Bytes, bytes_eq, bytes_eq_sound, ltb, arith, All, ok, err, eq_of_ok, Result-cases,
}
use cardano_infrastructure.Wallet.Data.{
  TokenAmount, SumMap, sum_at, ada_token_name, first_amount, token_name,
}
use cardano_infrastructure.Wallet.Data.Sums.{part, tokens_in}
use cardano_infrastructure.Wallet.SumMaps.{
  TxOutput, find_sum, invalid_amount, change_loop, create_tx_output_change,
}
use cardano_infrastructure.Wallet.SumMaps.Laws.{IsMap}
use cardano_infrastructure.Wallet.SumMaps.Rounds.{NamesTokens, Leaves, change_loop-Leaves}

-- No token is in the list twice.
unfoldable pub NoRepeat : List TokenAmount → Type 0
NoRepeat [] = Unit
NoRepeat (token ∷ tokens) =
    All (λ t. bytes_eq (token_name t) (token_name token) ≡ false) tokens × NoRepeat tokens

tokens_in-none :
    (key : Bytes) (tokens : List TokenAmount)
    → All (λ t. bytes_eq (token_name t) key ≡ false) tokens
    → tokens_in key tokens ≡ 0
unfolding tokens_in part
tokens_in-none key [] h = refl
tokens_in-none key (token ∷ tokens) (e, h) = rw e omega (arith, tokens_in-none key tokens h)

-- Without repetitions the first amount of a token is all that there is of it.
first_amount-NoRepeat :
    (key : Bytes) (tokens : List TokenAmount)
    → NoRepeat tokens
    → first_amount key tokens ≡ tokens_in key tokens
unfolding NoRepeat first_amount tokens_in part
first_amount-NoRepeat key [] h = refl
first_amount-NoRepeat key (token ∷ tokens) (a, h) =
    elim (Bool-cases (bytes_eq (token_name token) key)) [
      | inl e ↦
          let same = bytes_eq_sound (token_name token) key e in
          let others =
            tokens_in-none key tokens
              (subst (λ k. All (λ t. bytes_eq (token_name t) k ≡ false) tokens) same a) in
          rw e omega (arith, others)
      | inr e ↦ rw e omega (arith, first_amount-NoRepeat key tokens h)
    ]

-- What the base output and the total have of a token is in the change and in the outputs.
pub record KeepsToken (base_tokens : List TokenAmount) (outputs_sum total : SumMap) (key : Bytes)
    (tokens : List TokenAmount) : Type 0 where
  pub present :
      (amount : ℕ)
      → find_sum total key ≡ some amount
      → tokens_in key tokens + sum_at outputs_sum key
        ≡ (amount + tokens_in key base_tokens) % 2 ^ 64
  pub absent : find_sum total key ≡ none → tokens_in key tokens ≡ 0

Leaves-KeepsToken :
    (base_tokens : List TokenAmount) (outputs_sum total : SumMap) (key : Bytes)
    (tokens : List TokenAmount)
    → NoRepeat base_tokens
    → Leaves base_tokens outputs_sum total key tokens
    → KeepsToken base_tokens outputs_sum total key tokens
Leaves-KeepsToken base_tokens outputs_sum total key tokens r v = record {
  present = λ amount e.
      v.present amount e
      ∙ ap (λ n. (amount + n) % 2 ^ 64) (first_amount-NoRepeat key base_tokens r);
  absent = v.absent;
}

-- The change, per token and in lovelace.
pub record IsChange (base : TxOutput) (total_sum outputs_sum : SumMap) (change : TxOutput)
    : Type 0 where
  pub addr : change.addr ≡ base.addr
  pub lovelace :
      change.amount + sum_at outputs_sum ada_token_name
      ≡ (base.amount + sum_at total_sum ada_token_name) % 2 ^ 64
  pub tokens :
      (key : Bytes)
      → bytes_eq ada_token_name key ≡ false
      → KeepsToken base.tokens outputs_sum total_sum key change.tokens

-- If `CreateTxOutputChange` returns no error, no token is twice in the base output, and the keys of the
-- total are lovelace and full names of tokens, each once, then the change and the outputs together have
-- what the base output and the total have, as a `uint64`: in lovelace, and in every token that the total
-- has. Of no other token is there any change.
pub create_tx_output_change-IsChange :
    (base : TxOutput) (total_sum outputs_sum : SumMap) (change : TxOutput)
    → NoRepeat base.tokens
    → NamesTokens total_sum
    → IsMap total_sum
    → create_tx_output_change base total_sum outputs_sum ≡ ok change
    → IsChange base total_sum outputs_sum change
unfolding create_tx_output_change
create_tx_output_change-IsChange base total_sum outputs_sum change once n m h =
    let has = (base.amount + sum_at total_sum ada_token_name) % 2 ^ 64 in
    let output = sum_at outputs_sum ada_token_name in
    let rest = change_loop base.tokens outputs_sum total_sum in
    let whole = create_tx_output_change base total_sum outputs_sum in
    elim (Bool-cases (ltb has output)) [
      | inl e ↦ let failed : whole ≡ err invalid_amount = simp e refl in absurd (cc (failed, h))
      | inr e ↦ elim (Result-cases rest) [
        | inl (ts, r) ↦
            let made : whole
                ≡ ok (record { addr = base.addr; amount = has - output; tokens = ts }) =
              simp (e, r) refl in
            let same : record { addr = base.addr; amount = has - output; tokens = ts } ≡ change =
              eq_of_ok (sym made ∙ h) in
            subst (IsChange base total_sum outputs_sum) same (record {
              addr = refl;
              lovelace = ground arith;
              tokens = λ key a.
                  Leaves-KeepsToken base.tokens outputs_sum total_sum key ts once
                    (change_loop-Leaves base.tokens outputs_sum key total_sum ts n m a r);
            })
        | inr (x, r) ↦ let failed : whole ≡ err x = simp (e, r) refl in absurd (cc (failed, h))
      ]
    ]
