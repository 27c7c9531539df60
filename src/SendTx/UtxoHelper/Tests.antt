-- ===== src/SendTx/UtxoHelper/Tests.antt =====
-- Runs of sendtx/utxo_helper.go.
use cardano_infrastructure.Base.{ℕ, ◌≡◌, refl, List, [], ◌∷◌, Result, ok, err, bytes_eq}
use cardano_infrastructure.Wallet.Data.{
  Utxo, ada_token_name, add_amount, sub_amount, add_tokens, sub_tokens, add_utxo, sub_utxo,
  get_token_amount, sum_at, set_sum,
}
use cardano_infrastructure.Wallet.TxInputs.{TxInput, TxInputs, utxos2_tx_inputs, min_loop, swap}
use cardano_infrastructure.SendTx.UtxoHelper.{
  Conditions, does_sum_satisfy_condition, prepare_tx_inputs, replace_loop, find_min_utxo, chosen,
  replaced, limited, select_loop, get_utxos_for_amounts, SelectError,
}
use cardano_infrastructure.SendTx.UtxoHelper.Select.{IsSelected, get_utxos_for_amounts-IsSelected}

abbrev utxo : ℕ → Utxo
utxo n = record { hash = n ∷ []; index = n; amount = n; tokens = [] }

-- At most two of these are to reach 11: the smallest is replaced.
abbrev utxos : List Utxo
utxos = utxo 5 ∷ utxo 3 ∷ utxo 7 ∷ []

abbrev conditions : Conditions
conditions = (ada_token_name, 11) ∷ []

indices_of : Result SelectError TxInputs → List ℕ
indices_of (ok r) = map_index r.inputs
  where
    map_index : List TxInput → List ℕ
    map_index [] = []
    map_index (i ∷ is) = i.index ∷ map_index is
indices_of (err e) = []

abbrev selected : TxInputs
selected =
    prepare_tx_inputs (utxo 5 ∷ utxo 7 ∷ utxo 3 ∷ [])
      (add_utxo (sub_utxo (add_utxo (add_utxo [] (utxo 5)) (utxo 3)) (utxo 3)) (utxo 7)) 2 0 2

selection : get_utxos_for_amounts utxos conditions 2 0 ≡ ok selected
unfolding get_utxos_for_amounts select_loop chosen limited replaced find_min_utxo min_loop
    replace_loop does_sum_satisfy_condition swap get_token_amount add_utxo sub_utxo add_tokens
    sub_tokens add_amount sub_amount sum_at set_sum bytes_eq
selection = refl

selected_inputs : indices_of (get_utxos_for_amounts utxos conditions 2 0) ≡ 5 ∷ 7 ∷ []
unfolding indices_of get_utxos_for_amounts select_loop chosen limited replaced find_min_utxo
    min_loop replace_loop does_sum_satisfy_condition swap get_token_amount add_utxo sub_utxo
    add_tokens sub_tokens add_amount sub_amount sum_at set_sum bytes_eq prepare_tx_inputs
    utxos2_tx_inputs
selected_inputs = refl

get_utxos_for_amounts-IsSelected_example : IsSelected utxos conditions 2 selected
get_utxos_for_amounts-IsSelected_example =
    get_utxos_for_amounts-IsSelected utxos conditions 2 0 selected selection
