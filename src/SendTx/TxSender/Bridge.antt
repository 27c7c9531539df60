-- ===== src/SendTx/TxSender/Bridge.antt =====
-- The bridging and the generic transactions of sendtx/tx_sender.go, from the request to the result.
use cardano_infrastructure.Base.{
  ℕ, ◌+◌, ◌-◌, ◌%◌, ◌^◌, Bool, true, false, Option, none, some, List, [], ◌∷◌, Bytes, ascii,
  bytes_eq, map_ok, Result, ok, err, ltb, if◌then◌else◌,
}
use cardano_infrastructure.Common.Retry.{RetryError, execute_with_retry}
use cardano_infrastructure.Wallet.Data.{encode_to_string}
use cardano_infrastructure.Wallet.Address.{
  AddressError, Byron, CardanoAddress, CardanoAddressInfo, CardanoAddressPayload, get_info,
}
use cardano_infrastructure.Wallet.AddressText.{TextCodec, new_cardano_address_from_string}
use cardano_infrastructure.Wallet.CommandHelper.{
  WalletError, refused, invalid_address, Io, ◌>>=◌, ◌>>◌, returned, lifted, Os, removing,
}
use cardano_infrastructure.Wallet.CliUtils.{CliUtils, latest_era, get_policy_id, new_tx_builder}
use cardano_infrastructure.Wallet.TxBuilder.{IPolicyScript, TxBuilder}
use cardano_infrastructure.Wallet.TxBuilder.Run.{Codec, sign_tx}
use cardano_infrastructure.SendTx.Data.{
  ChainConfig, BridgingTxReceiver, TxInfo, TxFeeInfo, BridgingTxPreparedData, BridgingTxDto,
  TxReceiversDto, GenericTxDto,
}
use cardano_infrastructure.SendTx.Metadata.{
  BridgingRequestMetadata, bridging_meta_data_type, addr_to_meta_data_addr, metadata_transactions,
  get_output_amounts,
}
use cardano_infrastructure.SendTx.TxSender.{TxSender, find_config, get_configs, retried, check_fees}
use cardano_infrastructure.SendTx.TxSender.Create.{
  adjust_lovelace_output, populate_protocol_parameters, create_tx, calculate_tx_fee,
}

abbrev pub cli_of : ChainConfig → CliUtils
cli_of config = record { cardano_cli_binary = config.cardano_cli_binary; era = latest_era }

-- `addr.GetInfo().Payment.Payload`: an address without a payment part, as a reward address, panics.
unfoldable pub payment_payload : Option CardanoAddressPayload → Result WalletError Bytes
payment_payload none = err (refused (ascii "nil pointer dereference"))
payment_payload (some p) = ok p.payload

unfoldable pub payment_in :
    {A : Type 0} → Option (CardanoAddressInfo × A) → Result WalletError Bytes
unfolding payment_payload
payment_in none = err (refused (ascii "slice out of range"))
payment_in (some (info, address)) = payment_payload info.payment

unfoldable pub parsed_or :
    {byron : Byron}
    → Result AddressError (CardanoAddress byron)
    → Result WalletError (CardanoAddress byron)
parsed_or (ok address) = ok address
parsed_or (err e) = err invalid_address

unfoldable pub belongs : Bytes → Bytes → Result WalletError (Unit {0})
belongs payload policy_id =
    if bytes_eq (encode_to_string payload) policy_id
    then ok tt
    else err (refused (ascii "policy script does not belong to address"))

-- `CreateMetadata`, once the configurations are looked up.
unfoldable pub metadata_for :
    TxSender
    → Bytes
    → Bytes
    → List BridgingTxReceiver
    → ℕ
    → Result WalletError ChainConfig
    → Result WalletError BridgingRequestMetadata
metadata_for snd sender_addr dst_chain_id receivers bridging_fee (err e) = err e
metadata_for snd sender_addr dst_chain_id receivers bridging_fee (ok config) =
    map_ok
      (λ txs. record {
        bridging_tx_type = bridging_meta_data_type;
        destination_chain_id = dst_chain_id;
        sender_addr = addr_to_meta_data_addr sender_addr;
        transactions = txs;
        bridging_fee = bridging_fee;
      })
      (metadata_transactions snd.min_amount_to_bridge receivers)

unfoldable pub create_metadata :
    TxSender
    → Bytes
    → Bytes
    → Bytes
    → List BridgingTxReceiver
    → ℕ
    → Result WalletError BridgingRequestMetadata
unfolding metadata_for
create_metadata snd sender_addr src_chain_id dst_chain_id receivers bridging_fee =
    metadata_for snd sender_addr dst_chain_id receivers bridging_fee
      (get_configs snd src_chain_id dst_chain_id)

abbrev pub bridging_address_or : Bytes → Bytes → Bytes
bridging_address_or [] multi_sig_addr = multi_sig_addr
bridging_address_or (c ∷ address) multi_sig_addr = c ∷ address

-- The amounts of `prepareBridgingTx`, once the output is adjusted.
unfoldable pub prepared_data : TxBuilder → Bytes → ℕ → ℕ → ℕ → BridgingTxPreparedData
prepared_data b bridging_address base before_charges bridging_fee = record {
  tx_builder = b;
  output_lovelace = (before_charges + bridging_fee) % 2 ^ 64;
  output_native_tokens = [];
  bridging_address = bridging_address;
  bridging_fee =
      if ltb base before_charges
      then (bridging_fee + (before_charges - base)) % 2 ^ 64
      else bridging_fee;
}

module _ {W : Type 0} (os : Os W) (codec : Codec) (texts : TextCodec) (byron : Byron)
    (marshal : BridgingRequestMetadata → Result WalletError Bytes)
    (done_with : ℕ → Option RetryError) (snd : TxSender) where
  check_policy : Option IPolicyScript → ChainConfig → CardanoAddress byron → Io W (Unit {0})
  unfolding payment_in belongs
  check_policy none config address = returned tt
  check_policy (some script) config address = do
    policy_id ← get_policy_id os (cli_of config) script
    payload ← lifted (payment_in (get_info byron address))
    lifted (belongs payload policy_id)

  unfoldable pub check_address : Bytes → Option IPolicyScript → ChainConfig → Io W (Unit {0})
  unfolding check_policy parsed_or
  check_address addr policy_script config = do
    address ← lifted (parsed_or (new_cardano_address_from_string texts byron addr))
    check_policy policy_script config address

  unfoldable pub check_address_if :
      Bool → Bytes → Option IPolicyScript → ChainConfig → Io W (Unit {0})
  check_address_if false addr policy_script config = returned tt
  check_address_if true addr policy_script config = check_address addr policy_script config

  unfoldable pub prepare_bridging_tx : BridgingTxDto → Bool → Io W BridgingTxPreparedData
  unfolding check_address_if
  prepare_bridging_tx tx_dto validate_address_data = do
    config ← lifted (get_configs snd tx_dto.src_chain_id tx_dto.dst_chain_id)
    check_address_if validate_address_data tx_dto.sender_addr tx_dto.sender_addr_policy_script
        config
    lifted (check_fees config tx_dto.bridging_fee)
    b ← new_tx_builder os (cli_of config)
    b' ← lifted (populate_protocol_parameters os codec texts byron marshal done_with snd b config)
    before_charges ←
        adjust_lovelace_output os codec texts byron marshal done_with snd b'
          (bridging_address_or tx_dto.bridging_address config.multi_sig_addr) []
          config.min_utxo_value (get_output_amounts tx_dto.receivers)
    returned (
        prepared_data b' (bridging_address_or tx_dto.bridging_address config.multi_sig_addr)
          (get_output_amounts tx_dto.receivers) before_charges tx_dto.bridging_fee)

  -- The generic request for a prepared bridging transaction, once its metadata is made.
  unfoldable pub dto_with_metadata :
      BridgingTxDto
      → BridgingTxPreparedData
      → Result WalletError BridgingRequestMetadata
      → Result WalletError (GenericTxDto × BridgingRequestMetadata)
  dto_with_metadata tx_dto prepared (err e) = err e
  dto_with_metadata tx_dto prepared (ok metadata) =
      map_ok
        (λ metadata_raw. (
          record {
            src_chain_id = tx_dto.src_chain_id;
            sender_addr = tx_dto.sender_addr;
            sender_addr_policy_script = tx_dto.sender_addr_policy_script;
            metadata = some metadata_raw;
            receivers =
                record {
                  addr = prepared.bridging_address;
                  amount = prepared.output_lovelace;
                  native_tokens = prepared.output_native_tokens;
                }
                ∷ [];
          },
          metadata,
        ))
        (marshal metadata)

  unfoldable pub create_generic_tx_dto_and_metadata :
      BridgingTxDto
      → BridgingTxPreparedData
      → Result WalletError (GenericTxDto × BridgingRequestMetadata)
  unfolding dto_with_metadata
  create_generic_tx_dto_and_metadata tx_dto prepared = dto_with_metadata tx_dto prepared (
      create_metadata snd tx_dto.sender_addr tx_dto.src_chain_id tx_dto.dst_chain_id
        tx_dto.receivers prepared.bridging_fee)

  unfoldable pub create_bridging_tx : BridgingTxDto → Io W (TxInfo × BridgingRequestMetadata)
  create_bridging_tx tx_dto = do
    prepared ← prepare_bridging_tx tx_dto true
    removing os prepared.tx_builder.base_directory (do
      (generic_dto, metadata) ← lifted (create_generic_tx_dto_and_metadata tx_dto prepared)
      tx_info ← create_tx os codec texts byron marshal done_with snd prepared.tx_builder generic_dto
      returned (tx_info, metadata))

  unfoldable pub calculate_bridging_tx_fee :
      BridgingTxDto → Io W (TxFeeInfo × BridgingRequestMetadata)
  calculate_bridging_tx_fee tx_dto = do
    prepared ← prepare_bridging_tx tx_dto true
    removing os prepared.tx_builder.base_directory (do
      (generic_dto, metadata) ← lifted (create_generic_tx_dto_and_metadata tx_dto prepared)
      tx_fee_info ←
          calculate_tx_fee os codec texts byron marshal done_with snd prepared.tx_builder
            generic_dto
      returned (tx_fee_info, metadata))

  unfoldable pub get_bridging_fee : BridgingTxDto → Io W ℕ
  get_bridging_fee tx_dto = do
    prepared ← prepare_bridging_tx tx_dto false
    removing os prepared.tx_builder.base_directory (returned prepared.bridging_fee)

  -- The loop of `CreateTxGeneric` over the receivers.
  unfoldable pub adjust_receivers : TxBuilder → ℕ → List TxReceiversDto → Io W (List TxReceiversDto)
  adjust_receivers b min_utxo_value [] = returned []
  adjust_receivers b min_utxo_value (rcv ∷ receivers) = do
    amount ←
        adjust_lovelace_output os codec texts byron marshal done_with snd b rcv.addr
          rcv.native_tokens min_utxo_value rcv.amount
    rest ← adjust_receivers b min_utxo_value receivers
    returned (record rcv { amount = amount } ∷ rest)

  -- `CreateTxGeneric` with its builder.
  unfoldable pub create_generic_with : ChainConfig → GenericTxDto → TxBuilder → Io W TxInfo
  create_generic_with config tx_dto b = do
    check_address tx_dto.sender_addr tx_dto.sender_addr_policy_script config
    b' ← lifted (populate_protocol_parameters os codec texts byron marshal done_with snd b config)
    receivers ← adjust_receivers b' config.min_utxo_value tx_dto.receivers
    create_tx os codec texts byron marshal done_with snd b'
        (record tx_dto { receivers = receivers })

  unfoldable pub create_tx_generic : GenericTxDto → Io W TxInfo
  create_tx_generic tx_dto = do
    config ← lifted (find_config snd.chain_config_map tx_dto.src_chain_id)
    b ← new_tx_builder os (cli_of config)
    removing os b.base_directory (create_generic_with config tx_dto b)

  unfoldable pub submit_with : ChainConfig → Bytes → Bytes → TxBuilder → Io W (Unit {0})
  submit_with config tx_raw signing_key b = do
    tx_signed ← sign_tx codec os b tx_raw (signing_key ∷ [])
    lifted (
        retried (
          execute_with_retry tt (config.tx_provider.submit_tx tx_signed) done_with
            snd.retry_options))

  unfoldable pub submit_tx : Bytes → Bytes → Bytes → Io W (Unit {0})
  submit_tx chain_id tx_raw signing_key = do
    config ← lifted (find_config snd.chain_config_map chain_id)
    b ← new_tx_builder os (cli_of config)
    removing os b.base_directory (submit_with config tx_raw signing_key b)
