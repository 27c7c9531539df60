-- ===== src/SendTx/Data.antt =====
-- sendtx/data.go: the configuration of chains and the requests for transactions. A provider is what each
-- attempt of a call on it returns.
use cardano_infrastructure.Base.{ℕ, Option, List, Bytes}
use cardano_infrastructure.Common.Retry.{RetryError}
use cardano_infrastructure.Wallet.Data.{Utxo, TokenAmount}
use cardano_infrastructure.Wallet.TxInputs.{TxInputs}
use cardano_infrastructure.Wallet.TxBuilder.{IPolicyScript, TxBuilder}

pub record TxProvider : Type 0 where
  pub get_utxos : Bytes → ℕ → List Utxo × Option RetryError
  pub get_tip_slot : ℕ → ℕ × Option RetryError
  pub get_protocol_parameters : ℕ → Option Bytes × Option RetryError
  pub submit_tx : Bytes → ℕ → Unit {0} × Option RetryError

abbrev pub default_potential_fee : ℕ
default_potential_fee = 400000

abbrev pub default_max_inputs_per_tx : ℕ
default_max_inputs_per_tx = 50

abbrev pub default_ttl_slot_number_inc : ℕ
default_ttl_slot_number_inc = 500

pub record ChainConfig : Type 0 where
  pub cardano_cli_binary : Bytes
  pub tx_provider : TxProvider
  pub multi_sig_addr : Bytes
  pub test_net_magic : ℕ
  pub ttl_slot_number_inc : ℕ
  pub min_utxo_value : ℕ
  pub min_bridging_fee_amount : ℕ
  pub potential_fee : ℕ
  pub protocol_parameters : Option Bytes

pub record BridgingTxReceiver : Type 0 where
  pub addr : Bytes
  pub amount : ℕ

pub record TxInfo : Type 0 where
  pub tx_raw : Bytes
  pub tx_hash : Bytes
  pub change_min_utxo_amount : ℕ
  pub chosen_inputs : TxInputs

pub record TxFeeInfo : Type 0 where
  pub fee : ℕ
  pub change_min_utxo_amount : ℕ

pub record BridgingTxPreparedData : Type 0 where
  pub tx_builder : TxBuilder
  pub output_lovelace : ℕ
  pub output_native_tokens : List TokenAmount
  pub bridging_address : Bytes
  pub bridging_fee : ℕ

pub record TxBuilderPopulationData : Type 0 where
  pub change_lovelace : ℕ
  pub change_min_utxo_amount : ℕ
  pub chosen_inputs : TxInputs

pub record BridgingTxDto : Type 0 where
  pub src_chain_id : Bytes
  pub dst_chain_id : Bytes
  pub sender_addr : Bytes
  pub sender_addr_policy_script : Option IPolicyScript
  pub receivers : List BridgingTxReceiver
  pub bridging_address : Bytes
  pub bridging_fee : ℕ

pub record TxReceiversDto : Type 0 where
  pub addr : Bytes
  pub amount : ℕ
  pub native_tokens : List TokenAmount

pub record GenericTxDto : Type 0 where
  pub src_chain_id : Bytes
  pub sender_addr : Bytes
  pub sender_addr_policy_script : Option IPolicyScript
  pub metadata : Option Bytes
  pub receivers : List TxReceiversDto
