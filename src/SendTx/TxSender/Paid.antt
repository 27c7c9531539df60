-- ===== src/SendTx/TxSender/Paid.antt =====
-- What a prepared transaction spends and pays.
use cardano_infrastructure.Base.{
  ℕ, ◌+◌, ◌%◌, ◌^◌, ◌≤◌, ◌≡◌, ◌⊎◌, Option, List, [], ◌∷◌, ◌++◌, map, Bytes, Result,
}
use cardano_infrastructure.Common.Retry.{RetryError}
use cardano_infrastructure.Wallet.Data.{Utxo, ada_token_name}
use cardano_infrastructure.Wallet.Data.Sums.{utxos_in}
use cardano_infrastructure.Wallet.TxInputs.{TxInputs}
use cardano_infrastructure.Wallet.SumMaps.{TxOutput}
use cardano_infrastructure.Wallet.Address.{Byron}
use cardano_infrastructure.Wallet.AddressText.{TextCodec}
use cardano_infrastructure.Wallet.CommandHelper.{WalletError, Os}
use cardano_infrastructure.Wallet.TxBuilder.{TxBuilder}
use cardano_infrastructure.Wallet.TxBuilder.Run.{Codec}
use cardano_infrastructure.SendTx.Data.{GenericTxDto, TxBuilderPopulationData}
use cardano_infrastructure.SendTx.Metadata.{BridgingRequestMetadata}
use cardano_infrastructure.SendTx.UtxoHelper.{Conditions}
use cardano_infrastructure.SendTx.UtxoHelper.Select.{IsSelected}
use cardano_infrastructure.SendTx.TxSender.{TxSender, transformed, output_of}
use cardano_infrastructure.SendTx.TxSender.Given.{receivers_amount, IsGiven}
use cardano_infrastructure.SendTx.TxSender.Balance.{tx_inputs_of}

module _ {W : Type 0} (os : Os W) (codec : Codec) (texts : TextCodec) (byron : Byron)
    (marshal : BridgingRequestMetadata → Result WalletError Bytes)
    (done_with : ℕ → Option RetryError) (snd : TxSender) where
  -- `settled` spends a selection of the unspent outputs given and pays the receivers, the fee and a change, which
  -- is the last output unless it is 0, and then not below `change_min_utxo_amount`.
  pub record IsPaid (b : TxBuilder) (tx_dto : GenericTxDto) (settled : TxBuilder)
      (data' : TxBuilderPopulationData) : Type 0 where
    pub utxos : List Utxo
    pub conditions : Conditions
    pub selected : TxInputs
    pub is_selected :
        IsSelected
          (transformed snd.utxos_transformer utxos)
          conditions
          snd.max_inputs_per_tx
          selected
    pub given :
        IsGiven os codec texts byron marshal done_with snd b tx_dto utxos conditions
          data'.change_min_utxo_amount
    pub inputs :
        settled.inputs ≡ b.inputs ++ tx_inputs_of tx_dto.sender_addr_policy_script selected.inputs
    pub change : ℕ
    pub out : TxOutput
    pub returns_to : out.addr ≡ tx_dto.sender_addr
    pub balance :
        (receivers_amount tx_dto.receivers + change + settled.fee) % 2 ^ 64
        ≡ utxos_in ada_token_name is_selected.picked % 2 ^ 64
    pub outputs :
        ((change ≡ 0) × (settled.outputs ≡ b.outputs ++ map output_of tx_dto.receivers))
        ⊎ ((data'.change_min_utxo_amount ≤ change)
            × (settled.outputs
                ≡ (b.outputs ++ map output_of tx_dto.receivers)
                  ++ (record out { amount = change } ∷ [])))
