-- ===== src/SendTx/UtxoHelper.antt =====
-- sendtx/utxo_helper.go: the selection of outputs that a transaction spends. A slice is a list, and
-- every index that the code uses is within it. The conditions are a list of the map's entries in the
-- order in which `range` gives them, which may be any. The two `int` limits are natural numbers: a
-- negative one does what 0 does. The texts of errors are left out.
pub mod Select
mod Tests
use cardano_infrastructure.Base.{
  ℕ, zero, suc, ◌+◌, ◌-◌, min, Bool, true, false, ◌&&◌, not, List, [], ◌∷◌, Bytes, Result, ok, err,
  ltb, ◌==◌, if◌then◌else◌, length, get_or, set, take, drop, map,
}
use cardano_infrastructure.Wallet.TxInputs.{
  TxInput, TxInputs, zero_utxo, utxos2_tx_inputs, min_loop, swap,
}
use cardano_infrastructure.Wallet.Data.{
  Utxo, SumMap, sum_at, ada_token_name, get_token_amount, add_utxo, sub_utxo,
}

pub data SelectError : Type 0 where
  utxos_limit_reached : SelectError
  utxos_could_not_select : SelectError

abbrev pub Conditions : Type 0
Conditions = List (Bytes × ℕ)

unfoldable pub does_sum_satisfy_condition : SumMap → Conditions → Bool
does_sum_satisfy_condition current_sum [] = true
does_sum_satisfy_condition current_sum ((token_name, desired_amount) ∷ conditions) =
    not (ltb (sum_at current_sum token_name) desired_amount)
    && does_sum_satisfy_condition current_sum conditions

-- The loop of `prepareTxInputs`.
unfoldable pub add_utxos : SumMap → List Utxo → SumMap
add_utxos sum [] = sum
add_utxos sum (utxo ∷ utxos) = add_utxos (add_utxo sum utxo) utxos

abbrev pub extra_count : List Utxo → ℕ → ℕ → ℕ → ℕ
extra_count utxos max_inputs try_at_least choosen_count =
    min (length utxos - choosen_count)
      (min (try_at_least - choosen_count) (max_inputs - choosen_count))

unfoldable pub prepare_tx_inputs : List Utxo → SumMap → ℕ → ℕ → ℕ → TxInputs
prepare_tx_inputs utxos current_sum max_inputs try_at_least choosen_count =
    let cnt = extra_count utxos max_inputs try_at_least choosen_count in
    record {
      inputs = utxos2_tx_inputs (take (choosen_count + cnt) utxos);
      sum = add_utxos current_sum (take cnt (drop choosen_count utxos));
    }

-- The first loop of `findMinUtxo`, over the conditions.
unfoldable pub replace_loop : SumMap → Bytes → ℕ → Conditions → Bytes
replace_loop current_sum replace_token_name biggest_diff [] = replace_token_name
replace_loop current_sum replace_token_name biggest_diff
      ((token_name, desired_amount) ∷ conditions) =
    let sum = sum_at current_sum token_name in
    if ltb sum desired_amount && ltb biggest_diff (desired_amount - sum)
    then replace_loop current_sum token_name (desired_amount - sum) conditions
    else replace_loop current_sum replace_token_name biggest_diff conditions

unfoldable pub find_min_utxo : List Utxo → SumMap → Conditions → Utxo × ℕ
find_min_utxo utxos current_sum conditions =
    let first = get_or utxos 0 zero_utxo in
    min_loop (replace_loop current_sum ada_token_name 0 conditions) 1 first 0 (drop 1 utxos)

-- The variables of `GetUTXOsForAmounts`.
pub record Selection : Type 0 where
  pub utxos : List Utxo
  pub current_sum : SumMap
  pub current_sum_total : SumMap
  pub choosen_count : ℕ

-- The body of the loop up to the first test.
unfoldable pub chosen : Selection → ℕ → Selection
chosen s i =
    let utxo = get_or s.utxos i zero_utxo in
    record {
      utxos = swap s.utxos s.choosen_count i;
      current_sum = add_utxo s.current_sum utxo;
      current_sum_total = add_utxo s.current_sum_total utxo;
      choosen_count = s.choosen_count + 1;
    }

-- `replace the smallest utxo with the current one`.
unfoldable pub replaced : Selection → Conditions → Selection
replaced s conditions =
    let (min_utxo, idx) = find_min_utxo (take s.choosen_count s.utxos) s.current_sum conditions in
    record s {
      utxos = swap s.utxos idx (s.choosen_count - 1);
      current_sum = sub_utxo s.current_sum min_utxo;
      choosen_count = s.choosen_count - 1;
    }

unfoldable pub limited : Selection → Conditions → ℕ → Selection
limited s conditions max_inputs = if s.choosen_count == max_inputs then replaced s conditions else s

-- The rounds of the loop from `i` on, of which `n` are left.
unfoldable pub select_loop : Conditions → ℕ → ℕ → ℕ → ℕ → Selection → Result SelectError TxInputs
select_loop conditions max_inputs try_at_least zero i s =
    if does_sum_satisfy_condition s.current_sum_total conditions
    then err utxos_limit_reached
    else err utxos_could_not_select
select_loop conditions max_inputs try_at_least (suc n) i s =
    let s' = chosen s i in
    let rest =
      select_loop conditions max_inputs try_at_least n (i + 1) (limited s' conditions max_inputs) in
    if does_sum_satisfy_condition s'.current_sum conditions
    then ok (prepare_tx_inputs s'.utxos s'.current_sum max_inputs try_at_least s'.choosen_count)
    else rest

unfoldable pub get_utxos_for_amounts : List Utxo → Conditions → ℕ → ℕ → Result SelectError TxInputs
get_utxos_for_amounts utxos conditions max_inputs try_at_least =
    select_loop conditions max_inputs try_at_least (length utxos) 0
      (record { utxos = utxos; current_sum = []; current_sum_total = []; choosen_count = 0 })
