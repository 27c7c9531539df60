-- ===== src/SendTx/TxSender/Create.antt =====
-- The transactions of sendtx/tx_sender.go, made with cardano-cli. encoding/json of the metadata is
-- `marshal`; `done` is the error of the context, if it is done while a retry waits.
use cardano_infrastructure.Base.{
  ℕ, ◌+◌, ◌%◌, ◌^◌, max, Option, none, some, List, [], ◌∷◌, Bytes, map_ok, Result, ok,
}
use cardano_infrastructure.Common.Retry.{RetryError, execute_with_retry}
use cardano_infrastructure.Wallet.Data.{TokenAmount, SumMap, ada_token_name, sum_at, get_utxos_sum}
use cardano_infrastructure.Wallet.Tokens.{get_tokens_from_sum_map}
use cardano_infrastructure.Wallet.SumMaps.{subtract_sum_maps, get_tokens_sum_map}
use cardano_infrastructure.Wallet.Address.{Byron}
use cardano_infrastructure.Wallet.AddressText.{TextCodec}
use cardano_infrastructure.Wallet.CommandHelper.{WalletError, Io, ◌>>=◌, returned, lifted, Os}
use cardano_infrastructure.Wallet.TxBuilder.{TxBuilder, set_protocol_parameters, set_time_to_live}
use cardano_infrastructure.Wallet.TxBuilder.Run.{Codec, calculate_fee, calculate_min_utxo, build}
use cardano_infrastructure.SendTx.Data.{
  TxProvider, ChainConfig, TxInfo, TxFeeInfo, TxBuilderPopulationData, GenericTxDto,
  default_ttl_slot_number_inc,
}
use cardano_infrastructure.SendTx.Metadata.{BridgingRequestMetadata, set_or_default}
use cardano_infrastructure.SendTx.UtxoHelper.{get_utxos_for_amounts}
use cardano_infrastructure.SendTx.TxSender.{
  TxSender, find_config, retried, min_utxo_tokens, add_lovelace, native_tokens_of, conditions_of,
  transformed, selected_or, tokens_or, inputs_left, populated, population_of, witness_count_of,
  settle_change,
}

module _ {W : Type 0} (os : Os W) (codec : Codec) (texts : TextCodec) (byron : Byron)
    (marshal : BridgingRequestMetadata → Result WalletError Bytes)
    (done_with : ℕ → Option RetryError) (snd : TxSender) where
  unfoldable pub get_min_utxo_for_sum_map : TxBuilder → Bytes → SumMap → Io W ℕ
  get_min_utxo_for_sum_map b user_address sum_map = do
    tokens ← lifted (min_utxo_tokens sum_map)
    calculate_min_utxo codec os b
        (record { addr = user_address; amount = sum_at sum_map ada_token_name; tokens = tokens })

  unfoldable pub adjust_lovelace_output : TxBuilder → Bytes → List TokenAmount → ℕ → ℕ → Io W ℕ
  adjust_lovelace_output b addr [] default_min_utxo lovelace_output_base =
      returned (max lovelace_output_base default_min_utxo)
  adjust_lovelace_output b addr (token ∷ tokens) default_min_utxo lovelace_output_base = do
    calculated_min_utxo ← get_min_utxo_for_sum_map b addr (get_tokens_sum_map (token ∷ tokens))
    returned (max (max lovelace_output_base calculated_min_utxo) default_min_utxo)

  unfoldable pub protocol_parameters_or :
      Option Bytes → TxProvider → Result WalletError (Option Bytes)
  protocol_parameters_or (some parameters) provider = ok (some parameters)
  protocol_parameters_or none provider =
      retried (execute_with_retry none provider.get_protocol_parameters done_with snd.retry_options)

  unfoldable pub populate_protocol_parameters :
      TxBuilder → ChainConfig → Result WalletError TxBuilder
  unfolding protocol_parameters_or
  populate_protocol_parameters b config =
      map_ok (λ parameters. set_protocol_parameters parameters b)
        (protocol_parameters_or config.protocol_parameters config.tx_provider)

  unfoldable pub populate_time_to_live : TxBuilder → ChainConfig → Result WalletError TxBuilder
  populate_time_to_live b config =
      map_ok
        (λ slot.
          set_time_to_live
            ((slot + set_or_default config.ttl_slot_number_inc default_ttl_slot_number_inc)
              % 2 ^ 64)
            b)
        (retried (execute_with_retry 0 config.tx_provider.get_tip_slot done_with snd.retry_options))

  -- Every caller has looked the chain up: without it the source takes the zero configuration, whose
  -- missing provider panics, which is an error here.
  unfoldable pub populate_tx_builder :
      TxBuilder → GenericTxDto → Io W (TxBuilder × TxBuilderPopulationData)
  populate_tx_builder b tx_dto = do
    config ← lifted (find_config snd.chain_config_map tx_dto.src_chain_id)
    utxos ← lifted (
        retried (
          execute_with_retry [] (config.tx_provider.get_utxos tx_dto.sender_addr) done_with
            snd.retry_options))
    potential_change_token_cost ← get_min_utxo_for_sum_map b tx_dto.sender_addr (
        subtract_sum_maps (get_utxos_sum utxos)
          (get_tokens_sum_map (native_tokens_of [] tx_dto.receivers)))
    let change_min_utxo = max config.min_utxo_value potential_change_token_cost
    let conditions = conditions_of config tx_dto change_min_utxo
    inputs ← lifted (
        selected_or (
          get_utxos_for_amounts (transformed snd.utxos_transformer utxos) conditions
            snd.max_inputs_per_tx 1))
    let left = inputs_left inputs (native_tokens_of [] tx_dto.receivers)
    remaining ← lifted (tokens_or (get_tokens_from_sum_map left.sum []))
    b' ← lifted (
        populate_time_to_live
          (populated b config tx_dto (sum_at conditions ada_token_name) left remaining) config)
    returned (b', population_of (add_lovelace 0 tx_dto.receivers) change_min_utxo left)

  unfoldable pub calculate_tx_fee : TxBuilder → GenericTxDto → Io W TxFeeInfo
  calculate_tx_fee b tx_dto = do
    (b', data') ← populate_tx_builder b tx_dto
    fee ← calculate_fee codec os b' (witness_count_of tx_dto.sender_addr_policy_script)
    returned (record { fee = fee; change_min_utxo_amount = data'.change_min_utxo_amount })

  -- `createTx` up to `Build`.
  unfoldable pub prepare_tx : TxBuilder → GenericTxDto → Io W (TxBuilder × TxBuilderPopulationData)
  prepare_tx b tx_dto = do
    (b', data') ← populate_tx_builder b tx_dto
    fee ← calculate_fee codec os b' (witness_count_of tx_dto.sender_addr_policy_script)
    settled ← lifted (settle_change b' data' fee)
    returned (settled, data')

  unfoldable pub create_tx : TxBuilder → GenericTxDto → Io W TxInfo
  create_tx b tx_dto = do
    (settled, data') ← prepare_tx b tx_dto
    (tx_raw, tx_hash) ← build codec os settled
    returned (record {
      tx_raw = tx_raw;
      tx_hash = tx_hash;
      change_min_utxo_amount = data'.change_min_utxo_amount;
      chosen_inputs = data'.chosen_inputs;
    })
