-- ===== src/Wallet/SumMaps.antt =====
-- The sums of wallet/transaction_extended.go and wallet/utils.go: their differences and sums, those of
-- outputs and of tokens, and the output that gives the change. The texts of errors are left out.
pub mod Laws
pub mod Rounds
pub mod Change
mod Tests
use cardano_infrastructure.Base.{
  ℕ, ◌+◌, ◌-◌, ◌%◌, ◌^◌, Bool, true, false, Option, none, some, List, [], ◌∷◌, Bytes, bytes_eq, ltb,
  if◌then◌else◌, Result, ok, err, map_ok, ◌>>=◌,
}
use cardano_infrastructure.Wallet.Data.{
  TokenAmount, Utxo, SumMap, ada_token_name, first_amount, sum_at, add_amount, add_tokens,
}
use cardano_infrastructure.Wallet.Tokens.{Token, new_token_with_full_name}

pub record TxOutput : Type 0 where
  pub addr : Bytes
  pub amount : ℕ
  pub tokens : List TokenAmount

abbrev pub new_token_amount : Token → ℕ → TokenAmount
new_token_amount token amount = record {
  policy_id = token.policy_id;
  name = token.name;
  amount = amount;
}

-- `amount, exists := sum[name]`.
unfoldable pub find_sum : SumMap → Bytes → Option ℕ
find_sum [] key = none
find_sum ((name, amount) ∷ sum) key = if bytes_eq name key then some amount else find_sum sum key

outputs_loop : SumMap → List TxOutput → SumMap
outputs_loop result [] = result
outputs_loop result (output ∷ outputs) =
    outputs_loop (add_tokens (add_amount result ada_token_name output.amount) output.tokens) outputs

unfoldable pub get_outputs_sum : List TxOutput → SumMap
unfolding outputs_loop
get_outputs_sum outputs = outputs_loop [] outputs

unfoldable pub get_tokens_sum_map : List TokenAmount → SumMap
get_tokens_sum_map tokens = add_tokens [] tokens

-- One round of `SubtractSumMaps`, with what the rest of the map becomes.
unfoldable pub subtracted : Bytes → ℕ → Option ℕ → SumMap → SumMap
subtracted name amount none rest = (name, amount) ∷ rest
subtracted name amount (some to_subtract) rest =
    if ltb to_subtract amount then (name, amount - to_subtract) ∷ rest else rest

unfoldable pub subtract_sum_maps : SumMap → SumMap → SumMap
unfolding subtracted
subtract_sum_maps [] b = []
subtract_sum_maps ((name, amount) ∷ a) b =
    subtracted name amount (find_sum b name) (subtract_sum_maps a b)

unfoldable pub add_sum_maps : SumMap → SumMap → SumMap
add_sum_maps a [] = a
add_sum_maps a ((name, amount) ∷ b) = add_sum_maps (add_amount a name amount) b

pub data ChangeError : Type 0 where
  invalid_amount : ChangeError
  invalid_token_amount : ChangeError
  invalid_token_name : ChangeError

-- The token that a round appends to those of the later ones.
unfoldable pub change_token :
    Option Token → ℕ → Result ChangeError (List TokenAmount) → Result ChangeError (List TokenAmount)
change_token none amount rest = err invalid_token_name
change_token (some token) amount rest =
    map_ok (λ tokens. new_token_amount token amount ∷ tokens) rest

unfoldable pub change_loop :
    List TokenAmount → SumMap → SumMap → Result ChangeError (List TokenAmount)
unfolding change_token
change_loop base_tokens outputs_sum [] = ok []
change_loop base_tokens outputs_sum ((name, token_amount) ∷ total_sum) =
    let rest = change_loop base_tokens outputs_sum total_sum in
    let total = (token_amount + first_amount name base_tokens) % 2 ^ 64 in
    let output = sum_at outputs_sum name in
    if bytes_eq name ada_token_name
    then rest
    else if ltb total output
    then err invalid_token_amount
    else if ltb 0 (total - output)
    then change_token (new_token_with_full_name name true) (total - output) rest
    else rest

unfoldable pub create_tx_output_change : TxOutput → SumMap → SumMap → Result ChangeError TxOutput
unfolding change_loop
create_tx_output_change base total_sum outputs_sum =
    let total_amount = (base.amount + sum_at total_sum ada_token_name) % 2 ^ 64 in
    let output_amount = sum_at outputs_sum ada_token_name in
    if ltb total_amount output_amount
    then err invalid_amount
    else map_ok
        (λ tokens. record {
          addr = base.addr;
          amount = total_amount - output_amount;
          tokens = tokens;
        })
        (change_loop base.tokens outputs_sum total_sum)

any_hash : Bytes → List Utxo → Bool
any_hash tx_hash [] = false
any_hash tx_hash (utxo ∷ utxos) =
    if bytes_eq utxo.hash tx_hash then true else any_hash tx_hash utxos

-- `IsTxInUtxos` on what the retriever returns.
unfoldable pub is_tx_in_utxos : {E : Type 0} → Result E (List Utxo) → Bytes → Result E Bool
unfolding any_hash
is_tx_in_utxos retrieved tx_hash = map_ok (any_hash tx_hash) retrieved
