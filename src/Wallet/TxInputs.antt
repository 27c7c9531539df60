-- ===== src/Wallet/TxInputs.antt =====
-- wallet/transaction_extended.go: the inputs of a transaction, and `GetUTXOsForAmount`, the selection
-- for one token. A slice is a list, and every index that the code uses is within it. A negative limit
-- does what 0 does. The texts of errors are left out.
pub mod Swap
pub mod Smallest
pub mod Select
pub mod Enough
mod Tests
use cardano_infrastructure.Base.{
  ℕ, ◌+◌, ◌-◌, List, [], ◌∷◌, ◌++◌, Bytes, Result, ok, err, ltb, if◌then◌else◌, length, get_or, set,
  take, drop, map,
}
use cardano_infrastructure.Wallet.Data.{
  Utxo, SumMap, sum_at, get_token_amount, add_utxo, sub_utxo, get_utxos_sum,
}

pub record TxInput : Type 0 where
  pub hash : Bytes
  pub index : ℕ

pub record TxInputs : Type 0 where
  pub inputs : List TxInput
  pub sum : SumMap

abbrev pub zero_utxo : Utxo
zero_utxo = record { hash = []; index = 0; amount = 0; tokens = [] }

abbrev pub tx_input_of : Utxo → TxInput
tx_input_of utxo = record { hash = utxo.hash; index = utxo.index }

unfoldable pub utxos2_tx_inputs : List Utxo → List TxInput
utxos2_tx_inputs utxos = map tx_input_of utxos

-- The loop of `findMinUtxo`, from index `i` on: the smallest output so far and its index.
unfoldable pub min_loop : Bytes → ℕ → Utxo → ℕ → List Utxo → Utxo × ℕ
min_loop name i min_utxo idx [] = (min_utxo, idx)
min_loop name i min_utxo idx (utxo ∷ utxos) =
    if ltb (get_token_amount utxo name) (get_token_amount min_utxo name)
    then min_loop name (i + 1) utxo i utxos
    else min_loop name (i + 1) min_utxo idx utxos

-- `utxos[i], utxos[j] = utxos[j], utxos[i]`.
unfoldable pub swap : List Utxo → ℕ → ℕ → List Utxo
swap utxos i j = set (set utxos i (get_or utxos j zero_utxo)) j (get_or utxos i zero_utxo)

-- `findMinUtxo` of `GetUTXOsForAmount`.
unfoldable pub find_min_chosen : Bytes → List Utxo → Utxo × ℕ
find_min_chosen token_name utxos = min_loop token_name 1 (get_or utxos 0 zero_utxo) 0 (drop 1 utxos)

pub data AmountError : Type 0 where
  limit_reached : AmountError
  not_enough_funds : AmountError

-- The variables of `GetUTXOsForAmount`.
pub record Choice : Type 0 where
  pub current_sum : SumMap
  pub chosen_utxos : List Utxo

unfoldable pub joined : Choice → Utxo → Choice
joined s utxo = record {
  current_sum = add_utxo s.current_sum utxo;
  chosen_utxos = s.chosen_utxos ++ (utxo ∷ []);
}

unfoldable pub without_min : Bytes → Choice → Choice
without_min token_name s =
    let last_idx = length s.chosen_utxos - 1 in
    let (min_utxo, min_idx) = find_min_chosen token_name s.chosen_utxos in
    record {
      current_sum = sub_utxo s.current_sum min_utxo;
      chosen_utxos =
          take last_idx (set s.chosen_utxos min_idx (get_or s.chosen_utxos last_idx zero_utxo));
    }

unfoldable pub within_limit : Bytes → ℕ → Choice → Choice
within_limit token_name max_inputs s =
    if ltb max_inputs (length s.chosen_utxos) then without_min token_name s else s

-- The loop over the outputs; `failed` is the result after it.
unfoldable pub amount_loop :
    Bytes → ℕ → ℕ → AmountError → List Utxo → Choice → Result AmountError TxInputs
amount_loop token_name desired_sum max_inputs failed [] s = err failed
amount_loop token_name desired_sum max_inputs failed (utxo ∷ utxos) s =
    let s' = within_limit token_name max_inputs (joined s utxo) in
    let rest = amount_loop token_name desired_sum max_inputs failed utxos s' in
    if ltb (sum_at s'.current_sum token_name) desired_sum
    then rest
    else ok (record { inputs = utxos2_tx_inputs s'.chosen_utxos; sum = s'.current_sum })

unfoldable pub get_utxos_for_amount : List Utxo → Bytes → ℕ → ℕ → Result AmountError TxInputs
get_utxos_for_amount utxos token_name desired_sum max_inputs =
    let failed =
      if ltb (sum_at (get_utxos_sum utxos) token_name) desired_sum
      then not_enough_funds
      else limit_reached in
    amount_loop token_name desired_sum max_inputs failed utxos
      (record { current_sum = []; chosen_utxos = [] })
