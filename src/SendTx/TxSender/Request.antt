-- ===== src/SendTx/TxSender/Request.antt =====
-- The request, its metadata and the output to the bridge.
use cardano_infrastructure.Base.{
  ℕ, ◌+◌, ◌-◌, ◌%◌, ◌^◌, ◌≡◌, refl, sym, ◌∙◌, ap, subst, inl, inr, Bool, Bool-cases, Option, some,
  List, [], ◌∷◌, Bytes, Result, ok, err, Result-cases, eq_of_ok, map_ok-eq-ok, arith, ltb, max,
}
use cardano_infrastructure.Common.Retry.{RetryError}
use cardano_infrastructure.Wallet.Address.{Byron}
use cardano_infrastructure.Wallet.AddressText.{TextCodec}
use cardano_infrastructure.Wallet.CommandHelper.{WalletError, Os}
use cardano_infrastructure.Wallet.CommandHelper.Steps.{pass_on-ok}
use cardano_infrastructure.Wallet.CliUtils.{new_tx_builder}
use cardano_infrastructure.Wallet.TxBuilder.{TxBuilder}
use cardano_infrastructure.Wallet.TxBuilder.Run.{Codec}
use cardano_infrastructure.SendTx.Data.{
  ChainConfig, BridgingTxReceiver, BridgingTxDto, BridgingTxPreparedData, GenericTxDto,
}
use cardano_infrastructure.SendTx.Metadata.{
  BridgingRequestMetadata, metadata_output_amounts, add_receivers, get_output_amounts,
  metadata_transactions,
}
use cardano_infrastructure.SendTx.Metadata.Created.{add_transactions-receivers}
use cardano_infrastructure.SendTx.TxSender.{TxSender, find_config, get_configs, check_fees}
use cardano_infrastructure.SendTx.TxSender.Create.{
  populate_protocol_parameters, adjust_lovelace_output,
}
use cardano_infrastructure.SendTx.TxSender.Bridge.{
  cli_of, bridging_address_or, prepared_data, metadata_for, create_metadata, dto_with_metadata,
  check_address_if, prepare_bridging_tx, create_generic_tx_dto_and_metadata,
}

-- The metadata that is made for some receivers and a fee has the receivers' amounts and the fee.
metadata_for-amounts :
    (snd : TxSender) (sender_addr dst : Bytes) (receivers : List BridgingTxReceiver) (fee : ℕ)
    (found : Result WalletError ChainConfig) (metadata : BridgingRequestMetadata)
    → metadata_for snd sender_addr dst receivers fee found ≡ ok metadata
    → metadata_output_amounts metadata ≡ add_receivers fee receivers
unfolding metadata_for metadata_output_amounts
metadata_for-amounts snd sender_addr dst receivers fee (err e) metadata h = absurd (cc h)
metadata_for-amounts snd sender_addr dst receivers fee (ok config) metadata h =
    let (txs, t, e) = map_ok-eq-ok _ (metadata_transactions snd.min_amount_to_bridge receivers) h in
    ap metadata_output_amounts (sym e)
    ∙ add_transactions-receivers snd.min_amount_to_bridge receivers txs fee t

-- A sum from a start and the sum from 0.
add_receivers_start :
    (s t : ℕ) (receivers : List BridgingTxReceiver)
    → add_receivers ((s + t) % 2 ^ 64) receivers
      ≡ (s + add_receivers (t % 2 ^ 64) receivers) % 2 ^ 64
unfolding add_receivers
add_receivers_start s t [] = omega arith
add_receivers_start s t (x ∷ receivers) =
    let left : ((s + t) % 2 ^ 64 + x.amount) % 2 ^ 64 ≡ (s + (t + x.amount)) % 2 ^ 64 =
      omega arith in
    let right : (t + x.amount) % 2 ^ 64 ≡ (t % 2 ^ 64 + x.amount) % 2 ^ 64 = omega arith in
    ap (λ n. add_receivers n receivers) left
    ∙ add_receivers_start s (t + x.amount) receivers
    ∙ ap (λ n. (s + add_receivers n receivers) % 2 ^ 64) right

add_receivers_from :
    (s : ℕ) (receivers : List BridgingTxReceiver)
    → add_receivers s receivers % 2 ^ 64 ≡ (s + get_output_amounts receivers) % 2 ^ 64
unfolding add_receivers get_output_amounts
add_receivers_from s [] = omega arith
add_receivers_from s (x ∷ receivers) =
    let start : (s + x.amount) % 2 ^ 64 ≡ (s + (0 + x.amount)) % 2 ^ 64 = omega arith in
    omega (
      arith,
      ap (λ n. add_receivers n receivers) start ∙ add_receivers_start s (0 + x.amount) receivers,
    )

-- The output to the bridge and the fee in the metadata, for amounts that add up to `base`.
prepared_amounts :
    (b : TxBuilder) (address : Bytes) (base min_utxo fee : ℕ) (receivers : List BridgingTxReceiver)
    → get_output_amounts receivers ≡ base
    → add_receivers (prepared_data b address base (max base min_utxo) fee).bridging_fee receivers
        % 2 ^ 64
      ≡ (prepared_data b address base (max base min_utxo) fee).output_lovelace
unfolding prepared_data
prepared_amounts b address base min_utxo fee receivers h =
    elim (Bool-cases (ltb base (max base min_utxo))) [
      | inl e ↦ simp e (
          ground
            (arith, add_receivers_from ((fee + (max base min_utxo - base)) % 2 ^ 64) receivers, h))
      | inr e ↦ simp e (ground (arith, add_receivers_from fee receivers, h))
    ]

-- The configurations are found only if the source's is, and it is the one returned.
get_configs-source :
    (snd : TxSender) (src dst : Bytes) (config : ChainConfig)
    → get_configs snd src dst ≡ ok config
    → find_config snd.chain_config_map src ≡ ok config
unfolding get_configs
get_configs-source snd src dst config h =
    let whole = get_configs snd src dst in
    elim (Result-cases (find_config snd.chain_config_map src)) [
      | inr (x, e) ↦ let failed : whole ≡ err x = simp e refl in absurd (cc (failed, h))
      | inl (c, e) ↦ elim (Result-cases (find_config snd.chain_config_map dst)) [
        | inr (x, f) ↦ let failed : whole ≡ err x = simp (e, f) refl in absurd (cc (failed, h))
        | inl (d, f) ↦ let found : whole ≡ ok c = simp (e, f) refl in e ∙ sym found ∙ h
      ]
    ]

-- The bridge's address is the one asked for, or else that of the chain.
pub data ToBridge (multi_sig_addr : Bytes) : Bytes → Bytes → Type 0 where
  asked : (c : ℕ) (address : Bytes) → ToBridge multi_sig_addr (c ∷ address) (c ∷ address)
  of_chain : ToBridge multi_sig_addr [] multi_sig_addr

bridging_address_or-ToBridge :
    (address multi_sig_addr : Bytes)
    → ToBridge multi_sig_addr address (bridging_address_or address multi_sig_addr)
bridging_address_or-ToBridge [] multi_sig_addr = of_chain
bridging_address_or-ToBridge (c ∷ address) multi_sig_addr = asked c address

-- The one output of a bridging transaction, and the metadata that comes with it.
pub record IsPromised (snd : TxSender)
    (marshal : BridgingRequestMetadata → Result WalletError Bytes) (tx_dto : BridgingTxDto)
    (generic_dto : GenericTxDto) (metadata : BridgingRequestMetadata) : Type 0 where
  pub config : ChainConfig
  pub configured : find_config snd.chain_config_map tx_dto.src_chain_id ≡ ok config
  pub address : Bytes
  pub to_bridge : ToBridge config.multi_sig_addr tx_dto.bridging_address address
  pub amount : ℕ
  pub pays :
      generic_dto.receivers ≡ record { addr = address; amount = amount; native_tokens = [] } ∷ []
  pub promised : metadata_output_amounts metadata % 2 ^ 64 ≡ amount
  pub raised :
      amount
      ≡ (max (get_output_amounts tx_dto.receivers) config.min_utxo_value + tx_dto.bridging_fee)
        % 2 ^ 64
  pub sender : generic_dto.sender_addr ≡ tx_dto.sender_addr
  pub raw : Bytes
  pub written : marshal metadata ≡ ok raw
  pub carried : generic_dto.metadata ≡ some raw

-- The request for a prepared bridging transaction.
abbrev request_of : BridgingTxDto → BridgingTxPreparedData → Bytes → GenericTxDto
request_of tx_dto prepared raw = record {
  src_chain_id = tx_dto.src_chain_id;
  sender_addr = tx_dto.sender_addr;
  sender_addr_policy_script = tx_dto.sender_addr_policy_script;
  metadata = some raw;
  receivers =
      record {
        addr = prepared.bridging_address;
        amount = prepared.output_lovelace;
        native_tokens = prepared.output_native_tokens;
      }
      ∷ [];
}

dto_with_metadata-made :
    {W : Type 0} (os : Os W) (codec : Codec) (texts : TextCodec) (byron : Byron)
    (marshal : BridgingRequestMetadata → Result WalletError Bytes)
    (done_with : ℕ → Option RetryError) (snd : TxSender) (tx_dto : BridgingTxDto)
    (prepared : BridgingTxPreparedData) (made : Result WalletError BridgingRequestMetadata)
    (generic_dto : GenericTxDto) (metadata : BridgingRequestMetadata)
    → dto_with_metadata os codec texts byron marshal done_with snd tx_dto prepared made
      ≡ ok (generic_dto, metadata)
    → (made ≡ ok metadata)
      × (raw : Bytes) × (marshal metadata ≡ ok raw)
      × (request_of tx_dto prepared raw ≡ generic_dto)
unfolding dto_with_metadata
dto_with_metadata-made os codec texts byron marshal done_with snd tx_dto prepared (err e)
      generic_dto metadata h =
    absurd (cc h)
dto_with_metadata-made os codec texts byron marshal done_with snd tx_dto prepared (ok m) generic_dto
      metadata h =
    let (raw, r, e) = map_ok-eq-ok _ (marshal m) h in
    (ap ok (ap (λ p. p.1) e), raw, ap marshal (sym (ap (λ p. p.1) e)) ∙ r, ap (λ p. p.0) e)

module _ {W : Type 0} (os : Os W) (codec : Codec) (texts : TextCodec) (byron : Byron)
    (marshal : BridgingRequestMetadata → Result WalletError Bytes)
    (done_with : ℕ → Option RetryError) (snd : TxSender) where
  prepared_shape :
      (tx_dto : BridgingTxDto) (validate : Bool) (prepared : BridgingTxPreparedData) (w w' : W)
      → prepare_bridging_tx os codec texts byron marshal done_with snd tx_dto validate w
        ≡ (ok prepared, w')
      → (config : ChainConfig) × (get_configs snd tx_dto.src_chain_id tx_dto.dst_chain_id
          ≡ ok config)
        × (b : TxBuilder) × (prepared_data b
              (bridging_address_or tx_dto.bridging_address config.multi_sig_addr)
              (get_output_amounts tx_dto.receivers)
              (max (get_output_amounts tx_dto.receivers) config.min_utxo_value)
              tx_dto.bridging_fee
            ≡ prepared)
  unfolding prepare_bridging_tx adjust_lovelace_output
  prepared_shape tx_dto validate prepared w w' h =
      let r1 = get_configs snd tx_dto.src_chain_id tx_dto.dst_chain_id in
      let (config, w1, k1, h1) = pass_on-ok (r1, w) _ h in
      let r2 =
        check_address_if os codec texts byron marshal done_with snd validate tx_dto.sender_addr
          tx_dto.sender_addr_policy_script config w1 in
      let (_, w2, _, h2) = pass_on-ok r2 _ h1 in
      let (_, w3, _, h3) = pass_on-ok (check_fees config tx_dto.bridging_fee, w2) _ h2 in
      let (b, w4, _, h4) = pass_on-ok (new_tx_builder os (cli_of config) w3) _ h3 in
      let (b', w5, _, h5) =
        pass_on-ok
          (populate_protocol_parameters os codec texts byron marshal done_with snd b config, w4) _
          h4 in
      (config, ap (λ p. p.0) k1, b', eq_of_ok (ap (λ p. p.0) h5))

  -- The output, for the data that were prepared from a configuration.
  prepared-IsPromised :
      (tx_dto : BridgingTxDto) (config : ChainConfig) (b : TxBuilder)
      (metadata : BridgingRequestMetadata) (raw : Bytes)
      → let prepared =
          prepared_data b
            (bridging_address_or tx_dto.bridging_address config.multi_sig_addr)
            (get_output_amounts tx_dto.receivers)
            (max (get_output_amounts tx_dto.receivers) config.min_utxo_value)
            tx_dto.bridging_fee in
        get_configs snd tx_dto.src_chain_id tx_dto.dst_chain_id ≡ ok config
        → create_metadata snd tx_dto.sender_addr tx_dto.src_chain_id tx_dto.dst_chain_id
            tx_dto.receivers prepared.bridging_fee
          ≡ ok metadata
        → marshal metadata ≡ ok raw
        → IsPromised snd marshal tx_dto (request_of tx_dto prepared raw) metadata
  unfolding create_metadata prepared_data
  prepared-IsPromised tx_dto config b metadata raw c made r =
      let base = get_output_amounts tx_dto.receivers in
      let address = bridging_address_or tx_dto.bridging_address config.multi_sig_addr in
      let prepared =
        prepared_data b address base (max base config.min_utxo_value) tx_dto.bridging_fee in
      record {
        config = config;
        configured = get_configs-source snd tx_dto.src_chain_id tx_dto.dst_chain_id config c;
        address = address;
        to_bridge = bridging_address_or-ToBridge tx_dto.bridging_address config.multi_sig_addr;
        amount = prepared.output_lovelace;
        pays = refl;
        promised =
            ap (λ n. n % 2 ^ 64)
              (metadata_for-amounts snd tx_dto.sender_addr tx_dto.dst_chain_id tx_dto.receivers
                prepared.bridging_fee (get_configs snd tx_dto.src_chain_id tx_dto.dst_chain_id)
                metadata made)
            ∙ prepared_amounts b address base config.min_utxo_value tx_dto.bridging_fee
                tx_dto.receivers refl;
        raised = refl;
        sender = refl;
        raw = raw;
        written = r;
        carried = refl;
      }

-- The request that `CreateBridgingTx` makes of a prepared bridging transaction, for the same sender, has
-- one output. It goes to the bridge, that is to the address asked for or else to that of the source chain,
-- has no tokens, and has, modulo 2 ^ 64, the bridging fee and the amounts of the receivers, these raised
-- to the chain's least amount if they are below it. This is exactly what the metadata that the request
-- carries promises, the amounts of its transactions and its bridging fee.
pub create_generic_tx_dto_and_metadata-IsPromised :
    {W : Type 0} (os : Os W) (codec : Codec) (texts : TextCodec) (byron : Byron)
    (marshal : BridgingRequestMetadata → Result WalletError Bytes)
    (done_with : ℕ → Option RetryError) (snd : TxSender) (tx_dto : BridgingTxDto) (validate : Bool)
    (prepared : BridgingTxPreparedData) (generic_dto : GenericTxDto)
    (metadata : BridgingRequestMetadata) (w w' : W)
    → prepare_bridging_tx os codec texts byron marshal done_with snd tx_dto validate w
      ≡ (ok prepared, w')
    → create_generic_tx_dto_and_metadata os codec texts byron marshal done_with snd tx_dto prepared
      ≡ ok (generic_dto, metadata)
    → IsPromised snd marshal tx_dto generic_dto metadata
unfolding create_generic_tx_dto_and_metadata
create_generic_tx_dto_and_metadata-IsPromised os codec texts byron marshal done_with snd tx_dto
      validate prepared generic_dto metadata w w' h k =
    let (config, c, b, shape) =
      prepared_shape os codec texts byron marshal done_with snd tx_dto validate prepared w w' h in
    let (made, raw, r, same) =
      dto_with_metadata-made os codec texts byron marshal done_with snd tx_dto prepared
        (create_metadata snd tx_dto.sender_addr tx_dto.src_chain_id tx_dto.dst_chain_id
          tx_dto.receivers prepared.bridging_fee)
        generic_dto metadata k in
    subst (λ dto. IsPromised snd marshal tx_dto dto metadata)
      (ap (λ p. request_of tx_dto p raw) shape ∙ same)
      (prepared-IsPromised os codec texts byron marshal done_with snd tx_dto config b metadata raw c
        (ap
            (λ p.
              create_metadata snd tx_dto.sender_addr tx_dto.src_chain_id tx_dto.dst_chain_id
                tx_dto.receivers p.bridging_fee)
            shape
          ∙ made)
        r)
