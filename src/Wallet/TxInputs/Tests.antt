-- ===== src/Wallet/TxInputs/Tests.antt =====
-- Runs of `GetUTXOsForAmount`.
use cardano_infrastructure.Base.{ℕ, ◌≡◌, refl, ◌≤◌, arith, List, [], ◌∷◌, ok, err, bytes_eq}
use cardano_infrastructure.Wallet.Data.{
  Utxo, ada_token_name, add_amount, sub_amount, add_tokens, sub_tokens, add_utxo, sub_utxo,
  get_token_amount, sum_at, set_sum, get_utxos_sum, sum_loop,
}
use cardano_infrastructure.Wallet.Data.Sums.{utxo_in, part, tokens_in}
use cardano_infrastructure.Wallet.TxInputs.{
  TxInputs, not_enough_funds, utxos2_tx_inputs, min_loop, find_min_chosen, joined, without_min,
  within_limit, amount_loop, get_utxos_for_amount,
}
use cardano_infrastructure.Wallet.TxInputs.Select.{IsPicked, get_utxos_for_amount-IsPicked}
use cardano_infrastructure.Wallet.TxInputs.Enough.{
  get_utxos_for_amount_enough, get_utxos_for_amount_insufficient,
}

abbrev coin : ℕ → Utxo
coin n = record { hash = n ∷ []; index = n; amount = n; tokens = [] }

abbrev coins : List Utxo
coins = coin 5 ∷ coin 3 ∷ coin 7 ∷ []

-- The third output takes the place of the smallest.
abbrev picked : TxInputs
picked = record {
  inputs = record { hash = 5 ∷ []; index = 5 } ∷ record { hash = 7 ∷ []; index = 7 } ∷ [];
  sum = (ada_token_name, 12) ∷ [];
}

picking : get_utxos_for_amount coins ada_token_name 12 2 ≡ ok picked
unfolding get_utxos_for_amount amount_loop within_limit without_min joined find_min_chosen min_loop
    get_token_amount add_utxo sub_utxo add_tokens sub_tokens add_amount sub_amount sum_at set_sum
    bytes_eq utxos2_tx_inputs
picking = refl

get_utxos_for_amount-IsPicked_example : IsPicked coins ada_token_name 12 2 picked
get_utxos_for_amount-IsPicked_example =
    get_utxos_for_amount-IsPicked coins ada_token_name 12 2 picked picking

coins_sum : 15 ≤ sum_at (get_utxos_sum coins) ada_token_name
unfolding get_utxos_sum sum_loop add_utxo add_tokens add_amount sum_at set_sum bytes_eq
coins_sum = omega arith

get_utxos_for_amount_enough_example :
    (r : TxInputs) × (get_utxos_for_amount coins ada_token_name 15 3 ≡ ok r)
get_utxos_for_amount_enough_example =
    get_utxos_for_amount_enough (coin 5) (coin 3 ∷ coin 7 ∷ []) ada_token_name 15 3 (omega arith)
      coins_sum

get_utxos_for_amount_insufficient_example :
    get_utxos_for_amount coins ada_token_name 16 3 ≡ err not_enough_funds
unfolding utxo_in part tokens_in bytes_eq
get_utxos_for_amount_insufficient_example =
    get_utxos_for_amount_insufficient coins ada_token_name 16 3 (omega arith)
