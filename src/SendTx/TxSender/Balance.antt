-- ===== src/SendTx/TxSender/Balance.antt =====
-- Where the money of a prepared transaction comes from and goes to.
use cardano_infrastructure.Base.{
  ℕ, ◌+◌, ◌%◌, ◌^◌, ◌≡◌, refl, ap, subst, Option, none, some, List, [], ◌∷◌, ◌++◌, map, Bytes,
  Result, ok, err, map_ok-eq-ok, eq_of_ok, max,
}
use cardano_infrastructure.Common.Retry.{RetryError, execute_with_retry}
use cardano_infrastructure.Wallet.Data.{Utxo, TokenAmount, ada_token_name, sum_at, get_utxos_sum}
use cardano_infrastructure.Wallet.Tokens.{get_tokens_from_sum_map}
use cardano_infrastructure.Wallet.TxInputs.{TxInput, TxInputs}
use cardano_infrastructure.Wallet.SumMaps.{TxOutput, subtract_sum_maps, get_tokens_sum_map}
use cardano_infrastructure.Wallet.Address.{Byron}
use cardano_infrastructure.Wallet.AddressText.{TextCodec}
use cardano_infrastructure.Wallet.CommandHelper.{WalletError, Os}
use cardano_infrastructure.Wallet.CommandHelper.Steps.{pass_on-ok}
use cardano_infrastructure.Wallet.TxBuilder.{
  IPolicyScript, TxBuilder, TxInputWithPolicyScript, with_script, add_inputs,
  add_inputs_with_script, add_outputs, set_meta_data, set_test_net_magic, set_time_to_live,
}
use cardano_infrastructure.Wallet.TxBuilder.Run.{Codec}
use cardano_infrastructure.SendTx.Data.{
  ChainConfig, GenericTxDto, TxBuilderPopulationData, default_ttl_slot_number_inc,
}
use cardano_infrastructure.SendTx.Metadata.{BridgingRequestMetadata, set_or_default}
use cardano_infrastructure.SendTx.UtxoHelper.{SelectError, Conditions, get_utxos_for_amounts}
use cardano_infrastructure.SendTx.UtxoHelper.Select.{IsSelected, get_utxos_for_amounts-IsSelected}
use cardano_infrastructure.SendTx.TxSender.{
  TxSender, find_config, retried, add_lovelace, native_tokens_of, conditions_of, transformed,
  selected_or, tokens_or, inputs_left, add_sender_inputs, output_of, populated, population_of,
  sub_u64, take_tokens,
}
use cardano_infrastructure.SendTx.TxSender.Create.{
  get_min_utxo_for_sum_map, populate_time_to_live, populate_tx_builder,
}
use cardano_infrastructure.SendTx.TxSender.Tokens.{take_tokens-ada}
use cardano_infrastructure.SendTx.TxSender.Given.{IsGiven, retried_given, conditions_wanted}

selected_or-ok :
    (r : Result SelectError TxInputs) {inputs : TxInputs}
    → selected_or r ≡ ok inputs
    → r ≡ ok inputs
unfolding selected_or
selected_or-ok (ok i) h = ap ok (eq_of_ok h)
selected_or-ok (err e) h = absurd (cc h)

lifted_ok :
    {W A : Type 0} {r : Result WalletError A} {a : A} {w w' : W}
    → ◌≡◌ {A = Result WalletError A × W} (r, w) (ok a, w')
    → r ≡ ok a
lifted_ok h = ap (λ p. p.0) h

-- The outputs and inputs of the builder before the fee is known.
abbrev pub tx_inputs_of : Option IPolicyScript → List TxInput → List TxInputWithPolicyScript
tx_inputs_of script inputs = map (with_script script) inputs

-- What a builder was filled with, and from which unspent outputs.
pub record IsPopulated (snd : TxSender) (b : TxBuilder) (tx_dto : GenericTxDto) (b' : TxBuilder)
    (data' : TxBuilderPopulationData) (utxos : List Utxo) (conditions : Conditions) : Type 0 where
  pub selected : TxInputs
  pub is_selected :
      IsSelected (transformed snd.utxos_transformer utxos) conditions snd.max_inputs_per_tx selected
  pub front : TxBuilder
  pub out : TxOutput
  pub filled : b' ≡ add_outputs (out ∷ []) front
  pub receives : out.addr ≡ tx_dto.sender_addr
  pub outputs : front.outputs ≡ b.outputs ++ map output_of tx_dto.receivers
  pub inputs :
      front.inputs ≡ b.inputs ++ tx_inputs_of tx_dto.sender_addr_policy_script selected.inputs
  pub data_is :
      data'.change_lovelace
      ≡ sub_u64 (sum_at selected.sum ada_token_name) (add_lovelace 0 tx_dto.receivers)

sender_inputs :
    (script : Option IPolicyScript) (inputs : List TxInput) (b : TxBuilder)
    → (add_sender_inputs script inputs b).inputs ≡ b.inputs ++ tx_inputs_of script inputs
unfolding add_sender_inputs add_inputs add_inputs_with_script
sender_inputs none inputs b = refl
sender_inputs (some script) inputs b = refl

sender_outputs :
    (script : Option IPolicyScript) (inputs : List TxInput) (b : TxBuilder)
    → (add_sender_inputs script inputs b).outputs ≡ b.outputs
unfolding add_sender_inputs add_inputs add_inputs_with_script
sender_outputs none inputs b = refl
sender_outputs (some script) inputs b = refl

-- The same for the parts that the population is made of.
populated-IsPopulated :
    (snd : TxSender) (b : TxBuilder) (tx_dto : GenericTxDto) (config : ChainConfig)
    (utxos : List Utxo) (conditions : Conditions) (change_min_utxo ttl : ℕ) (selected : TxInputs)
    (remaining native : List TokenAmount)
    → IsSelected (transformed snd.utxos_transformer utxos) conditions snd.max_inputs_per_tx selected
    → IsPopulated snd b tx_dto
        (set_time_to_live ttl (
          populated b config tx_dto
            (sum_at conditions ada_token_name)
            (inputs_left selected native)
            remaining))
        (population_of
          (add_lovelace 0 tx_dto.receivers)
          change_min_utxo
          (inputs_left selected native))
        utxos
        conditions
unfolding populated population_of inputs_left add_outputs set_meta_data set_test_net_magic
    set_time_to_live
populated-IsPopulated snd b tx_dto config utxos conditions change_min_utxo ttl selected remaining
      native v =
    let script = tx_dto.sender_addr_policy_script in
    let start = set_test_net_magic config.test_net_magic (set_meta_data tx_dto.metadata b) in
    record {
      selected = selected;
      is_selected = v;
      front = set_time_to_live ttl (
          add_outputs (map output_of tx_dto.receivers)
            (add_sender_inputs script selected.inputs start));
      out = record {
        addr = tx_dto.sender_addr;
        amount =
            sub_u64 (sum_at (take_tokens selected.sum native) ada_token_name)
              (sum_at conditions ada_token_name);
        tokens = remaining;
      };
      filled = refl;
      receives = refl;
      outputs =
          ap (λ outputs. outputs ++ map output_of tx_dto.receivers)
            (sender_outputs script selected.inputs start);
      inputs = sender_inputs script selected.inputs start;
      data_is =
          ap (λ n. sub_u64 n (add_lovelace 0 tx_dto.receivers))
            (take_tokens-ada selected.sum native);
    }

module _ {W : Type 0} (os : Os W) (codec : Codec) (texts : TextCodec) (byron : Byron)
    (marshal : BridgingRequestMetadata → Result WalletError Bytes)
    (done_with : ℕ → Option RetryError) (snd : TxSender) where
  -- What a builder was filled with, and where that comes from.
  abbrev pub Populated : TxBuilder → GenericTxDto → TxBuilder → TxBuilderPopulationData → Type 0
  Populated b tx_dto b' data' =
      (utxos : List Utxo) × (conditions : Conditions) × (IsPopulated snd b tx_dto b' data' utxos
        conditions)
      × (IsGiven os codec texts byron marshal done_with snd b tx_dto utxos conditions
          data'.change_min_utxo_amount)

  time_to_live_set :
      (b : TxBuilder) (config : ChainConfig) (b' : TxBuilder)
      → populate_time_to_live os codec texts byron marshal done_with snd b config ≡ ok b'
      → (ttl : ℕ) × (set_time_to_live ttl b ≡ b')
  unfolding populate_time_to_live
  time_to_live_set b config b' h =
      let (slot, _, e) = map_ok-eq-ok _ _ h in
      ((slot + set_or_default config.ttl_slot_number_inc default_ttl_slot_number_inc) % 2 ^ 64, e)

  -- The last steps, once every part is there.
  ending :
      (b : TxBuilder) (tx_dto : GenericTxDto) (b' : TxBuilder) (data' : TxBuilderPopulationData)
      (config : ChainConfig) (utxos : List Utxo) (conditions : Conditions) (change_min_utxo : ℕ)
      (selected : TxInputs) (remaining native : List TokenAmount) (filled : TxBuilder)
      (w3 w4 w5 w6 w' : W)
      → ◌≡◌ {A = Result WalletError TxInputs × W}
          (
            selected_or (
                get_utxos_for_amounts
                  (transformed snd.utxos_transformer utxos)
                  conditions
                  snd.max_inputs_per_tx
                  1),
            w3,
          )
          (ok selected, w4)
      → ◌≡◌ {A = Result WalletError TxBuilder × W}
          (
            populate_time_to_live os codec texts byron marshal done_with snd
                (populated b config tx_dto
                  (sum_at conditions ada_token_name)
                  (inputs_left selected native)
                  remaining)
                config,
            w5,
          )
          (ok filled, w6)
      → ◌≡◌ {A = Result WalletError (TxBuilder × TxBuilderPopulationData) × W}
          (
            ok (
              filled,
              population_of
                  (add_lovelace 0 tx_dto.receivers)
                  change_min_utxo
                  (inputs_left selected native),
            ),
            w6,
          )
          (ok (b', data'), w')
      → IsGiven os codec texts byron marshal done_with snd b tx_dto utxos conditions change_min_utxo
      → Populated b tx_dto b' data'
  unfolding population_of
  ending b tx_dto b' data' config utxos conditions change_min_utxo selected remaining native filled
        w3 w4 w5 w6 w' k4 k6 h6 given =
      let before =
        populated b config tx_dto (sum_at conditions ada_token_name) (inputs_left selected native)
          remaining in
      let data'' =
        population_of (add_lovelace 0 tx_dto.receivers) change_min_utxo
          (inputs_left selected native) in
      let (ttl, timed) = time_to_live_set before config filled (ap (λ p. p.0) k6) in
      let same : (filled, data'') ≡ (b', data') = eq_of_ok (ap (λ p. p.0) h6) in
      subst (λ p. Populated b tx_dto p.0 p.1) same
        (subst (λ x. Populated b tx_dto x data'') timed
          (
            utxos,
            conditions,
            populated-IsPopulated snd b tx_dto config utxos conditions change_min_utxo ttl selected
                remaining native
                (get_utxos_for_amounts-IsSelected (transformed snd.utxos_transformer utxos)
                  conditions snd.max_inputs_per_tx 1 selected
                  (selected_or-ok _ (ap (λ p. p.0) k4))),
            given,
          ))

  pub populate_tx_builder-IsPopulated :
      (b : TxBuilder) (tx_dto : GenericTxDto) (b' : TxBuilder) (data' : TxBuilderPopulationData)
      (w w' : W)
      → populate_tx_builder os codec texts byron marshal done_with snd b tx_dto w
        ≡ (ok (b', data'), w')
      → Populated b tx_dto b' data'
  unfolding populate_tx_builder
  populate_tx_builder-IsPopulated b tx_dto b' data' w w' h =
      let r1 = find_config snd.chain_config_map tx_dto.src_chain_id in
      let (config, w1, k1, h1) = pass_on-ok (r1, w) _ h in
      let r2 = retried (
        execute_with_retry [] (config.tx_provider.get_utxos tx_dto.sender_addr) done_with
          snd.retry_options) in
      let (utxos, w2, k2, h2) = pass_on-ok (r2, w1) _ h1 in
      let (call, provided) =
        retried_given os codec texts byron marshal done_with snd tx_dto config utxos
          (ap (λ p. p.0) k2) in
      let native = native_tokens_of [] tx_dto.receivers in
      let r3 =
        get_min_utxo_for_sum_map os codec texts byron marshal done_with snd b tx_dto.sender_addr
          (subtract_sum_maps (get_utxos_sum utxos) (get_tokens_sum_map native)) w2 in
      let (cost, w3, k3, h3) = pass_on-ok r3 _ h2 in
      let change_min_utxo = max config.min_utxo_value cost in
      let conditions = conditions_of config tx_dto change_min_utxo in
      let given = transformed snd.utxos_transformer utxos in
      let r4 = get_utxos_for_amounts given conditions snd.max_inputs_per_tx 1 in
      let (selected, w4, k4, h4) = pass_on-ok (selected_or r4, w3) _ h3 in
      let left = inputs_left selected native in
      let r5 = tokens_or (get_tokens_from_sum_map left.sum []) in
      let (remaining, w5, _, h5) = pass_on-ok (r5, w4) _ h4 in
      let before = populated b config tx_dto (sum_at conditions ada_token_name) left remaining in
      let r6 = populate_time_to_live os codec texts byron marshal done_with snd before config in
      let (filled, w6, k6, h6) = pass_on-ok (r6, w5) _ h5 in
      ending b tx_dto b' data' config utxos conditions change_min_utxo selected remaining native
        filled w3 w4 w5 w6 w' k4 k6 h6
        (record {
          config = config;
          configured = ap (λ p. p.0) k1;
          call = call;
          provided = provided;
          cost = cost;
          before = w2;
          after = w3;
          asked = k3;
          least = refl;
          wanted =
              conditions_wanted os codec texts byron marshal done_with snd config tx_dto
                change_min_utxo;
        })
