-- ===== src/SendTx/Metadata.antt =====
-- sendtx/metadata.go and sendtx/utils.go: the metadata of a bridging request.
pub mod Created
use cardano_infrastructure.Base.{
  ℕ, ◌+◌, ◌%◌, ◌^◌, List, [], ◌∷◌, Bytes, ascii, Result, ok, err, ltb, ◌==◌, if◌then◌else◌,
}
use cardano_infrastructure.Common.Utils.{split_string}
use cardano_infrastructure.Wallet.Texts.{trim_prefix}
use cardano_infrastructure.Wallet.CommandHelper.{WalletError, refused}
use cardano_infrastructure.SendTx.Data.{BridgingTxReceiver}

abbrev pub split_string_length : ℕ
split_string_length = 40

abbrev pub bridging_meta_data_type : Bytes
bridging_meta_data_type = ascii "bridge"

pub record BridgingRequestMetadataTransaction : Type 0 where
  pub address : List Bytes
  pub amount : ℕ

pub record BridgingRequestMetadata : Type 0 where
  pub bridging_tx_type : Bytes
  pub destination_chain_id : Bytes
  pub sender_addr : List Bytes
  pub transactions : List BridgingRequestMetadataTransaction
  pub bridging_fee : ℕ

unfoldable pub addr_to_meta_data_addr : Bytes → List Bytes
addr_to_meta_data_addr addr =
    split_string (trim_prefix (trim_prefix addr (ascii "0x")) (ascii "0X")) split_string_length

unfoldable pub set_or_default : ℕ → ℕ → ℕ
set_or_default val def = if val == 0 then def else val

-- The loop of `GetOutputAmounts` of the metadata, from a sum on.
unfoldable pub add_transactions : ℕ → List BridgingRequestMetadataTransaction → ℕ
add_transactions sum [] = sum
add_transactions sum (x ∷ transactions) = add_transactions ((sum + x.amount) % 2 ^ 64) transactions

unfoldable pub metadata_output_amounts : BridgingRequestMetadata → ℕ
unfolding add_transactions
metadata_output_amounts brm = add_transactions brm.bridging_fee brm.transactions

-- The loop of `getOutputAmounts` of sendtx/tx_sender.go.
unfoldable pub add_receivers : ℕ → List BridgingTxReceiver → ℕ
add_receivers sum [] = sum
add_receivers sum (x ∷ receivers) = add_receivers ((sum + x.amount) % 2 ^ 64) receivers

unfoldable pub get_output_amounts : List BridgingTxReceiver → ℕ
unfolding add_receivers
get_output_amounts receivers = add_receivers 0 receivers

-- One receiver of `CreateMetadata`, before those that follow.
unfoldable pub with_receiver :
    ℕ
    → Bytes
    → ℕ
    → Result WalletError (List BridgingRequestMetadataTransaction)
    → Result WalletError (List BridgingRequestMetadataTransaction)
with_receiver min_amount_to_bridge [] amount rest =
    err (refused (ascii "receiver address is empty"))
with_receiver min_amount_to_bridge (c ∷ addr) amount (err e) =
    if ltb amount min_amount_to_bridge
    then err (refused (ascii "amount for receiver is too low"))
    else err e
with_receiver min_amount_to_bridge (c ∷ addr) amount (ok transactions) =
    if ltb amount min_amount_to_bridge
    then err (refused (ascii "amount for receiver is too low"))
    else ok (record { address = addr_to_meta_data_addr (c ∷ addr); amount = amount } ∷ transactions)

unfoldable pub metadata_transactions :
    ℕ → List BridgingTxReceiver → Result WalletError (List BridgingRequestMetadataTransaction)
unfolding with_receiver
metadata_transactions min_amount_to_bridge [] = ok []
metadata_transactions min_amount_to_bridge (x ∷ receivers) =
    with_receiver min_amount_to_bridge x.addr x.amount
      (metadata_transactions min_amount_to_bridge receivers)
