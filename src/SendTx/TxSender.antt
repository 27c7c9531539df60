-- ===== src/SendTx/TxSender.antt =====
-- sendtx/tx_sender.go: bridging and generic transactions. A provider's calls are retried as common/retry.go
-- does it. The calls of the operating system act on the state `W`. The texts of errors are shortened.
mod Tests
pub mod Create
pub mod Bridge
pub mod Request
pub mod Settled
pub mod Tokens
pub mod Given
pub mod Balance
pub mod Paid
use cardano_infrastructure.Base.{
  ℕ, ◌+◌, ◌-◌, ◌%◌, ◌^◌, max, Bool, true, false, ◌&&◌, ◌||◌, not, Option, none, some, List, [], ◌∷◌,
  ◌++◌, Bytes, ascii, bytes_eq, Result, ok, err, ltb, ◌==◌, if◌then◌else◌, map,
}
use cardano_infrastructure.Common.Retry.{RetryConfig, RetryError, execute_with_retry}
use cardano_infrastructure.Wallet.Data.{
  TokenAmount, Utxo, SumMap, ada_token_name, token_name, encode_to_string, sum_at, add_amount,
  sub_amount, delete_sum, get_utxos_sum,
}
use cardano_infrastructure.Wallet.Tokens.{Token, new_token_with_full_name, get_tokens_from_sum_map}
use cardano_infrastructure.Wallet.TxInputs.{TxInput, TxInputs}
use cardano_infrastructure.Wallet.SumMaps.{
  TxOutput, new_token_amount, subtract_sum_maps, get_tokens_sum_map,
}
use cardano_infrastructure.Wallet.Address.{
  AddressError, Byron, CardanoAddress, CardanoAddressInfo, CardanoAddressPayload, get_info,
}
use cardano_infrastructure.Wallet.AddressText.{TextCodec, new_cardano_address_from_string}
use cardano_infrastructure.Wallet.CommandHelper.{
  WalletError, refused, invalid_token, invalid_address, Io, ◌>>=◌, ◌>>◌, pass_on, returned, failed,
  lifted, Os, removing,
}
use cardano_infrastructure.Wallet.CliUtils.{CliUtils, latest_era, get_policy_id, new_tx_builder}
use cardano_infrastructure.Wallet.TxBuilder.{
  ℤ, negsuc, IPolicyScript, TxBuilder, add_inputs, add_inputs_with_script, add_outputs, set_fee,
  set_meta_data, set_protocol_parameters, set_test_net_magic, set_time_to_live,
  update_output_amount, remove_output,
}
use cardano_infrastructure.Wallet.TxBuilder.Run.{
  Codec, calculate_fee, calculate_min_utxo, build, sign_tx,
}
use cardano_infrastructure.SendTx.Data.{
  TxProvider, ChainConfig, BridgingTxReceiver, TxInfo, TxFeeInfo, BridgingTxPreparedData,
  TxBuilderPopulationData, BridgingTxDto, TxReceiversDto, GenericTxDto, default_potential_fee,
  default_max_inputs_per_tx, default_ttl_slot_number_inc,
}
use cardano_infrastructure.SendTx.Metadata.{
  BridgingRequestMetadata, bridging_meta_data_type, addr_to_meta_data_addr, set_or_default,
  metadata_transactions, get_output_amounts,
}
use cardano_infrastructure.SendTx.UtxoHelper.{SelectError, Conditions, get_utxos_for_amounts}

pub record TxSender : Type 0 where
  pub min_amount_to_bridge : ℕ
  pub max_inputs_per_tx : ℕ
  pub chain_config_map : List (Bytes × ChainConfig)
  pub retry_options : List (RetryConfig → RetryConfig)
  pub utxos_transformer : Option (List Utxo → List Utxo)

unfoldable pub max_min_utxo : ℕ → List (Bytes × ChainConfig) → ℕ
max_min_utxo amount [] = amount
max_min_utxo amount ((name, config) ∷ configs) =
    max_min_utxo (max amount config.min_utxo_value) configs

unfoldable pub with_options : List (TxSender → TxSender) → TxSender → TxSender
with_options [] snd = snd
with_options (opt ∷ options) snd = with_options options (opt snd)

unfoldable pub new_tx_sender : List (Bytes × ChainConfig) → List (TxSender → TxSender) → TxSender
unfolding max_min_utxo with_options
new_tx_sender chain_config_map options = with_options options (record {
  min_amount_to_bridge = max_min_utxo 0 chain_config_map;
  max_inputs_per_tx = default_max_inputs_per_tx;
  chain_config_map = chain_config_map;
  retry_options = [];
  utxos_transformer = none;
})

abbrev pub with_utxos_transformer : Option (List Utxo → List Utxo) → TxSender → TxSender
with_utxos_transformer utxos_transformer snd = record snd { utxos_transformer = utxos_transformer }

abbrev pub with_max_inputs_per_tx : ℕ → TxSender → TxSender
with_max_inputs_per_tx max_inputs_per_tx snd = record snd { max_inputs_per_tx = max_inputs_per_tx }

abbrev pub with_retry_options : List (RetryConfig → RetryConfig) → TxSender → TxSender
with_retry_options retry_options snd = record snd { retry_options = retry_options }

unfoldable pub find_config : List (Bytes × ChainConfig) → Bytes → Result WalletError ChainConfig
find_config [] chain_id = err (refused (ascii "chain config not found"))
find_config ((name, config) ∷ configs) chain_id =
    if bytes_eq name chain_id then ok config else find_config configs chain_id

unfoldable pub get_configs : TxSender → Bytes → Bytes → Result WalletError ChainConfig
get_configs snd src_chain_id dst_chain_id =
    source_then (find_config snd.chain_config_map src_chain_id)
  where
    source_then : Result WalletError ChainConfig → Result WalletError ChainConfig
    source_then (err e) = err e
    source_then (ok src) = destination_then (find_config snd.chain_config_map dst_chain_id)
      where
        destination_then : Result WalletError ChainConfig → Result WalletError ChainConfig
        destination_then (err e) = err e
        destination_then (ok dst) = ok src

-- `a - b` on a `uint64`.
unfoldable pub sub_u64 : ℕ → ℕ → ℕ
sub_u64 a b = (a + (2 ^ 64 - b % 2 ^ 64)) % 2 ^ 64

unfoldable pub retried : {A : Type 0} → A × Option RetryError → Result WalletError A
retried (a, none) = ok a
retried (a, some e) = err (refused e.text)

unfoldable pub check_fees : ChainConfig → ℕ → Result WalletError (Unit {0})
check_fees config bridging_fee =
    if ltb bridging_fee config.min_bridging_fee_amount
    then err (refused (ascii "bridging fee is too low"))
    else ok tt

-- The tokens of an output for `GetMinUtxoForSumMap`.
unfoldable pub min_utxo_token :
    Option Token → ℕ → Result WalletError (List TokenAmount) → Result WalletError (List TokenAmount)
min_utxo_token none amount rest = err invalid_token
min_utxo_token (some token) amount (err e) = err e
min_utxo_token (some token) amount (ok tokens) = ok (new_token_amount token amount ∷ tokens)

unfoldable pub min_utxo_tokens : SumMap → Result WalletError (List TokenAmount)
unfolding min_utxo_token
min_utxo_tokens [] = ok []
min_utxo_tokens ((name, amount) ∷ sum) =
    let rest = min_utxo_tokens sum in
    if not (bytes_eq name ada_token_name) && ltb 0 amount
    then min_utxo_token (new_token_with_full_name name true) amount rest
    else rest

abbrev pub output_of : TxReceiversDto → TxOutput
output_of rcv = record { addr = rcv.addr; amount = rcv.amount; tokens = rcv.native_tokens }

-- `outputLovelace` after the loop over the receivers.
unfoldable pub add_lovelace : ℕ → List TxReceiversDto → ℕ
add_lovelace sum [] = sum
add_lovelace sum (rcv ∷ receivers) = add_lovelace ((sum + rcv.amount) % 2 ^ 64) receivers

-- The entry of a token in `outputNativeTokens`, which `nameToIndex` finds.
unfoldable pub add_native_token : List TokenAmount → TokenAmount → List TokenAmount
add_native_token [] token = token ∷ []
add_native_token (t ∷ ts) token =
    let rest = add_native_token ts token in
    if bytes_eq (token_name t) (token_name token)
    then record t { amount = (t.amount + token.amount) % 2 ^ 64 } ∷ ts
    else t ∷ rest

unfoldable pub add_native_tokens : List TokenAmount → List TokenAmount → List TokenAmount
add_native_tokens native [] = native
add_native_tokens native (token ∷ tokens) = add_native_tokens (add_native_token native token) tokens

unfoldable pub native_tokens_of : List TokenAmount → List TxReceiversDto → List TokenAmount
unfolding add_native_tokens
native_tokens_of native [] = native
native_tokens_of native (rcv ∷ receivers) =
    native_tokens_of (add_native_tokens native rcv.native_tokens) receivers

unfoldable pub add_conditions : Conditions → List TokenAmount → Conditions
add_conditions conditions [] = conditions
add_conditions conditions (token ∷ tokens) =
    add_conditions (add_amount conditions (token_name token) token.amount) tokens

-- The loop that takes the tokens of the outputs from the sum of the inputs.
unfoldable pub take_tokens : SumMap → List TokenAmount → SumMap
take_tokens sum [] = sum
take_tokens sum (token ∷ tokens) =
    let less = sub_amount sum (token_name token) token.amount in
    let dropped = take_tokens (delete_sum less (token_name token)) tokens in
    let kept = take_tokens less tokens in
    if sum_at less (token_name token) == 0 then dropped else kept

unfoldable pub transformed : Option (List Utxo → List Utxo) → List Utxo → List Utxo
transformed none utxos = utxos
transformed (some transform_utxos) utxos = transform_utxos utxos

unfoldable pub selected_or : Result SelectError TxInputs → Result WalletError TxInputs
selected_or (ok inputs) = ok inputs
selected_or (err e) = err (refused (ascii "couldn't select UTXOs"))

-- A panic on the way to the tokens is an error here too.
unfoldable pub tokens_or : Option (List TokenAmount) → Result WalletError (List TokenAmount)
tokens_or none = err invalid_token
tokens_or (some tokens) = ok tokens

unfoldable pub add_sender_inputs : Option IPolicyScript → List TxInput → TxBuilder → TxBuilder
add_sender_inputs none inputs b = add_inputs inputs b
add_sender_inputs (some script) inputs b = add_inputs_with_script (some script) inputs b

unfoldable pub witness_count_of : Option IPolicyScript → ℕ
witness_count_of none = 1
witness_count_of (some script) = script.count

-- The operations on the last output, whose index is there.
unfoldable pub builder_or : Option TxBuilder → Result WalletError TxBuilder
builder_or none = err (refused (ascii "index out of range"))
builder_or (some b) = ok b

-- What `createTx` does between `CalculateFee` and `Build`.
unfoldable pub settle_change :
    TxBuilder → TxBuilderPopulationData → ℕ → Result WalletError TxBuilder
unfolding builder_or sub_u64
settle_change b data' fee =
    let change = sub_u64 data'.change_lovelace fee in
    if not (change == 0)
      && (ltb data'.change_lovelace change || ltb change data'.change_min_utxo_amount)
    then err (refused (ascii "insufficient remaining amount"))
    else if not (change == 0)
    then builder_or (update_output_amount (negsuc 0) change [] (set_fee fee b))
    else builder_or (remove_output (negsuc 0) (set_fee fee b))

-- The builder once `populateTxBuilder` has filled it, but for the time to live.
unfoldable pub populated :
    TxBuilder → ChainConfig → GenericTxDto → ℕ → TxInputs → List TokenAmount → TxBuilder
unfolding add_sender_inputs sub_u64
populated b config tx_dto conditions_lovelace inputs remaining =
    add_outputs
      (record {
        addr = tx_dto.sender_addr;
        amount = sub_u64 (sum_at inputs.sum ada_token_name) conditions_lovelace;
        tokens = remaining;
      }
        ∷ [])
      (add_outputs (map output_of tx_dto.receivers) (
        add_sender_inputs tx_dto.sender_addr_policy_script inputs.inputs
          (set_test_net_magic config.test_net_magic (set_meta_data tx_dto.metadata b))))

-- What `populateTxBuilder` pays, selects and gives back, once the unspent outputs and the least change
-- are known.
unfoldable pub conditions_of : ChainConfig → GenericTxDto → ℕ → Conditions
conditions_of config tx_dto change_min_utxo =
    let output_lovelace = add_lovelace 0 tx_dto.receivers in
    let potential_fee = set_or_default config.potential_fee default_potential_fee in
    add_conditions
      ((ada_token_name, ((output_lovelace + potential_fee) % 2 ^ 64 + change_min_utxo) % 2 ^ 64)
        ∷ [])
      (native_tokens_of [] tx_dto.receivers)

-- The inputs after the tokens of the outputs were taken from their sum.
unfoldable pub inputs_left : TxInputs → List TokenAmount → TxInputs
inputs_left inputs native = record inputs { sum = take_tokens inputs.sum native }

unfoldable pub population_of : ℕ → ℕ → TxInputs → TxBuilderPopulationData
unfolding sub_u64
population_of output_lovelace change_min_utxo inputs = record {
  change_lovelace = sub_u64 (sum_at inputs.sum ada_token_name) output_lovelace;
  change_min_utxo_amount = change_min_utxo;
  chosen_inputs = inputs;
}
