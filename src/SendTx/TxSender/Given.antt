-- ===== src/SendTx/TxSender/Given.antt =====
-- Where the unspent outputs and the least change of a prepared transaction come from.
use cardano_infrastructure.Base.{
  ℕ, ◌+◌, ◌%◌, ◌^◌, ◌≡◌, ◌∙◌, ap, Option, none, some, List, [], ◌∷◌, Bytes, Result, ok, eq_of_ok,
  arith, max,
}
use cardano_infrastructure.Common.Retry.{RetryError, execute_with_retry}
use cardano_infrastructure.Common.Retry.Attempts.{execute_with_retry-SucceedsAt}
use cardano_infrastructure.Wallet.Data.{Utxo, ada_token_name, get_utxos_sum}
use cardano_infrastructure.Wallet.SumMaps.{subtract_sum_maps, get_tokens_sum_map}
use cardano_infrastructure.Wallet.Address.{Byron}
use cardano_infrastructure.Wallet.AddressText.{TextCodec}
use cardano_infrastructure.Wallet.CommandHelper.{WalletError, Os}
use cardano_infrastructure.Wallet.TxBuilder.{TxBuilder}
use cardano_infrastructure.Wallet.TxBuilder.Run.{Codec}
use cardano_infrastructure.SendTx.Data.{
  ChainConfig, TxReceiversDto, GenericTxDto, default_potential_fee,
}
use cardano_infrastructure.SendTx.Metadata.{BridgingRequestMetadata, set_or_default}
use cardano_infrastructure.SendTx.UtxoHelper.{Conditions}
use cardano_infrastructure.SendTx.TxSender.{
  TxSender, find_config, retried, add_lovelace, native_tokens_of, conditions_of, add_conditions,
}
use cardano_infrastructure.SendTx.TxSender.Create.{get_min_utxo_for_sum_map}

unfoldable pub receivers_amount : List TxReceiversDto → ℕ
receivers_amount [] = 0
receivers_amount (rcv ∷ receivers) = rcv.amount + receivers_amount receivers

pub add_lovelace_lem :
    (s t : ℕ) (receivers : List TxReceiversDto)
    → s ≡ t % 2 ^ 64
    → add_lovelace s receivers ≡ (t + receivers_amount receivers) % 2 ^ 64
unfolding add_lovelace receivers_amount
add_lovelace_lem s t [] h = omega arith
add_lovelace_lem s t (rcv ∷ receivers) h =
    add_lovelace_lem ((s + rcv.amount) % 2 ^ 64) (t + rcv.amount) receivers (omega arith)
    ∙ omega arith

retried-ok : {A : Type 0} (r : A × Option RetryError) {a : A} → retried r ≡ ok a → r ≡ (a, none)
unfolding retried
retried-ok (x, none) h = ap (λ y. (y, none)) (eq_of_ok h)
retried-ok (x, some e) h = absurd (cc h)

module _ {W : Type 0} (os : Os W) (codec : Codec) (texts : TextCodec) (byron : Byron)
    (marshal : BridgingRequestMetadata → Result WalletError Bytes)
    (done_with : ℕ → Option RetryError) (snd : TxSender) where
  -- Where the unspent outputs, the conditions and the least change come from.
  pub record IsGiven (b : TxBuilder) (tx_dto : GenericTxDto) (utxos : List Utxo)
      (conditions : Conditions) (change_min_utxo : ℕ) : Type 0 where
    pub config : ChainConfig
    pub configured : find_config snd.chain_config_map tx_dto.src_chain_id ≡ ok config
    -- A call of the provider for the sender's address returned the unspent outputs.
    pub call : ℕ
    pub provided : config.tx_provider.get_utxos tx_dto.sender_addr call ≡ (utxos, none)
    -- cardano-cli was asked for the least lovelace of an output to the sender with all that is left.
    pub cost : ℕ
    pub before : W
    pub after : W
    pub asked :
        get_min_utxo_for_sum_map os codec texts byron marshal done_with snd b tx_dto.sender_addr
          (subtract_sum_maps
            (get_utxos_sum utxos)
            (get_tokens_sum_map (native_tokens_of [] tx_dto.receivers)))
          before
        ≡ (ok cost, after)
    pub least : change_min_utxo ≡ max config.min_utxo_value cost
    -- Wanted are the lovelace of the receivers, of the potential fee and of the least change, and the
    -- receivers' tokens.
    pub wanted :
        conditions
        ≡ add_conditions
            ((
              ada_token_name,
              (receivers_amount tx_dto.receivers
                    + set_or_default config.potential_fee default_potential_fee
                    + change_min_utxo)
                  % 2 ^ 64,
            )
              ∷ [])
            (native_tokens_of [] tx_dto.receivers)

  pub retried_given :
      (tx_dto : GenericTxDto) (config : ChainConfig) (utxos : List Utxo)
      → retried (
          execute_with_retry []
            (config.tx_provider.get_utxos tx_dto.sender_addr)
            done_with
            snd.retry_options)
        ≡ ok utxos
      → (call : ℕ) × (config.tx_provider.get_utxos tx_dto.sender_addr call ≡ (utxos, none))
  retried_given tx_dto config utxos h =
      let fetch = config.tx_provider.get_utxos tx_dto.sender_addr in
      let (k, _, _, e) =
        execute_with_retry-SucceedsAt fetch done_with snd.retry_options [] utxos (retried-ok _ h) in
      (k, ap fetch (let z : k ≡ 0 + k = omega arith in z) ∙ e)

  pub conditions_wanted :
      (config : ChainConfig) (tx_dto : GenericTxDto) (change_min_utxo : ℕ)
      → conditions_of config tx_dto change_min_utxo
        ≡ add_conditions
            ((
              ada_token_name,
              (receivers_amount tx_dto.receivers
                    + set_or_default config.potential_fee default_potential_fee
                    + change_min_utxo)
                  % 2 ^ 64,
            )
              ∷ [])
            (native_tokens_of [] tx_dto.receivers)
  unfolding conditions_of
  conditions_wanted config tx_dto change_min_utxo =
      let paid = add_lovelace_lem 0 0 tx_dto.receivers (omega arith) in
      let fee = set_or_default config.potential_fee default_potential_fee in
      let sum : ((add_lovelace 0 tx_dto.receivers + fee) % 2 ^ 64 + change_min_utxo) % 2 ^ 64
          ≡ (receivers_amount tx_dto.receivers + fee + change_min_utxo) % 2 ^ 64 =
        omega (arith, paid) in
      ap (λ n. add_conditions ((ada_token_name, n) ∷ []) (native_tokens_of [] tx_dto.receivers)) sum
