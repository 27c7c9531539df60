-- ===== src/SendTx/TxSender/Tests.antt =====
-- A transaction of one receiver, in a world where cardano-cli answers every question with 200.
use cardano_infrastructure.Base.{
  ℕ, ◌≡◌, refl, arith, true, false, Option, none, some, [], ◌∷◌, Bytes, ascii, bytes_eq,
  if◌then◌else◌, Result, ok, All, length, ◌<◌, ◌≤◌,
}
use cardano_infrastructure.Common.Retry.{RetryError, has_prefix}
use cardano_infrastructure.Common.Utils.{split_string, split_loop}
use cardano_infrastructure.Common.Utils.Pieces.{joined_pieces, split_string_whole}
use cardano_infrastructure.Wallet.Data.{Utxo, ada_token_name}
use cardano_infrastructure.Wallet.Texts.{to_lower_byte, to_lower, trim_prefix}
use cardano_infrastructure.Wallet.Address.{Byron}
use cardano_infrastructure.Wallet.AddressText.{TextCodec}
use cardano_infrastructure.Wallet.CommandHelper.{
  WalletError, Os, returned, command_error, command_result, run_command,
}
use cardano_infrastructure.Wallet.TxBuilder.{TxBuilder, set_protocol_parameters}
use cardano_infrastructure.Wallet.TxBuilder.Run.{Codec}
use cardano_infrastructure.SendTx.Data.{
  TxProvider, ChainConfig, GenericTxDto, TxBuilderPopulationData, BridgingTxDto,
  BridgingTxPreparedData,
}
use cardano_infrastructure.SendTx.Metadata.{
  BridgingRequestMetadata, bridging_meta_data_type, addr_to_meta_data_addr, get_output_amounts,
  add_receivers, with_receiver, metadata_transactions,
}
use cardano_infrastructure.Wallet.CliUtils.{
  new_tx_builder, get_real_era_name, find_era, first_some, era_at, not_empty, up_to_bracket,
  era_or_unknown,
}
use cardano_infrastructure.SendTx.TxSender.Bridge.{
  prepared_data, prepare_bridging_tx, check_address_if, create_generic_tx_dto_and_metadata,
  dto_with_metadata, create_metadata, metadata_for,
}
use cardano_infrastructure.SendTx.TxSender.Request.{
  IsPromised, create_generic_tx_dto_and_metadata-IsPromised,
}
use cardano_infrastructure.SendTx.TxSender.{TxSender, find_config, get_configs, check_fees}
use cardano_infrastructure.SendTx.TxSender.Create.{
  adjust_lovelace_output, populate_protocol_parameters, protocol_parameters_or,
}

abbrev answering : Os (Unit {0})
answering = record {
  write_file = λ path bytes. returned tt;
  read_file = λ path. returned [];
  mkdir_temp = λ name. returned name;
  remove_all = λ path w. w;
  exec = λ binary args w. (record { std_out = ascii "200"; std_err = []; failure = none }, w);
}

abbrev codec : Codec
codec = record {
  fee_of = λ text. none;
  tx_hash_of = λ text. none;
  cbor_hex = λ text. some text;
  envelope = λ type desc hex. ok hex;
  key_json = λ type desc hex. ok hex;
  cbor_bytes = λ bytes. ok bytes;
}

abbrev texts : TextCodec
texts = record { base58_decode = λ s. s; decode_to_base256 = λ s. some s }

abbrev byron : Byron
byron = record {
  unmarshal_raw = λ bytes. (record { tag_number = 24; tag_content = none; checksum = 0 }, true);
  checksum_ieee = λ bytes. 0;
  unmarshal_byron = λ bytes. none;
}

abbrev marshal : BridgingRequestMetadata → Result WalletError Bytes
marshal metadata = ok []

abbrev going_on : ℕ → Option RetryError
going_on count = none

abbrev coin : ℕ → Utxo
coin n = record { hash = ascii "aa"; index = n; amount = n; tokens = [] }

abbrev provider : TxProvider
provider = record {
  get_utxos = λ addr count.
      (if bytes_eq addr (ascii "addr1s") then coin 3000 ∷ coin 2000 ∷ [] else [], none);
  get_tip_slot = λ count. (7, none);
  get_protocol_parameters = λ count. (some [], none);
  submit_tx = λ tx count. (tt, none);
}

abbrev config : ChainConfig
config = record {
  cardano_cli_binary = ascii "cardano-cli";
  tx_provider = provider;
  multi_sig_addr = ascii "addr1m";
  test_net_magic = 0;
  ttl_slot_number_inc = 0;
  min_utxo_value = 100;
  min_bridging_fee_amount = 10;
  potential_fee = 300;
  protocol_parameters = some [];
}

abbrev sender : TxSender
sender = record {
  min_amount_to_bridge = 100;
  max_inputs_per_tx = 50;
  chain_config_map = (ascii "prime", config) ∷ [];
  retry_options = [];
  utxos_transformer = none;
}

abbrev request : GenericTxDto
request = record {
  src_chain_id = ascii "prime";
  sender_addr = ascii "addr1s";
  sender_addr_policy_script = none;
  metadata = none;
  receivers = record { addr = ascii "addr1r"; amount = 1000; native_tokens = [] } ∷ [];
}

abbrev fresh : TxBuilder
fresh = record {
  base_directory = ascii "/tmp";
  inputs = [];
  outputs = [];
  mints = record { tokens = []; policy_scripts = [] };
  certificates = [];
  metadata = none;
  protocol_parameters = some [];
  time_to_live = 0;
  test_net_magic = 0;
  fee = 0;
  withdrawal_data = record { stake_address = []; reward_amount = 0; policy_script = none };
  era = ascii "latest";
  real_era_name = ascii "Conway";
  cardano_cli_binary = ascii "cardano-cli";
}

-- Of 3000 the receiver has 1000 and the fee is 200.
abbrev paid : TxBuilder
paid = record fresh {
  inputs =
      record { tx_input = record { hash = ascii "aa"; index = 3000 }; policy_script = none } ∷ [];
  outputs =
      record { addr = ascii "addr1r"; amount = 1000; tokens = [] }
      ∷ record { addr = ascii "addr1s"; amount = 1800; tokens = [] }
      ∷ [];
  time_to_live = 507;
  fee = 200;
}

abbrev population : TxBuilderPopulationData
population = record {
  change_lovelace = 2000;
  change_min_utxo_amount = 200;
  chosen_inputs = record {
    inputs = record { hash = ascii "aa"; index = 3000 } ∷ [];
    sum = (ada_token_name, 3000) ∷ [];
  };
}

split_string_whole_example :
    (joined_pieces (split_string (ascii "addr1") 2) ≡ ascii "addr1")
    × All (λ p. (0 < length p) × (length p ≤ 2)) (split_string (ascii "addr1") 2)
split_string_whole_example = split_string_whole (ascii "addr1") 2 (omega arith)

-- A world in which cardano-cli only prints its help.
abbrev helping : Os (Unit {0})
helping = record {
  write_file = λ path bytes. returned tt;
  read_file = λ path. returned [];
  mkdir_temp = λ name. returned (ascii "/tmp");
  remove_all = λ path w. w;
  exec = λ binary args w.
      (record { std_out = ascii "Latest era commands (Conway)"; std_err = []; failure = none }, w);
}

-- 60 are less than the 100 that an output needs: it is raised by 40.
abbrev raising : TxSender
raising = record sender { min_amount_to_bridge = 50 }

abbrev bridging : BridgingTxDto
bridging = record {
  src_chain_id = ascii "prime";
  dst_chain_id = ascii "prime";
  sender_addr = ascii "addr1s";
  sender_addr_policy_script = none;
  receivers = record { addr = ascii "addr1r"; amount = 60 } ∷ [];
  bridging_address = [];
  bridging_fee = 10;
}

abbrev promised : BridgingRequestMetadata
promised = record {
  bridging_tx_type = bridging_meta_data_type;
  destination_chain_id = ascii "prime";
  sender_addr = ascii "addr1s" ∷ [];
  transactions = record { address = ascii "addr1r" ∷ []; amount = 60 } ∷ [];
  bridging_fee = 50;
}

abbrev prepared : BridgingTxPreparedData
prepared = prepared_data fresh (ascii "addr1m") 60 100 10

abbrev generic : GenericTxDto
generic = record {
  src_chain_id = ascii "prime";
  sender_addr = ascii "addr1s";
  sender_addr_policy_script = none;
  metadata = some [];
  receivers = record { addr = ascii "addr1m"; amount = 110; native_tokens = [] } ∷ [];
}

bridging-prepared :
    prepare_bridging_tx helping codec texts byron marshal going_on raising bridging false tt
    ≡ (ok prepared, tt)
unfolding prepare_bridging_tx check_address_if get_configs find_config check_fees new_tx_builder
    get_real_era_name find_era first_some era_at not_empty up_to_bracket has_prefix era_or_unknown
    run_command command_result command_error populate_protocol_parameters protocol_parameters_or
    set_protocol_parameters adjust_lovelace_output get_output_amounts add_receivers bytes_eq
    to_lower to_lower_byte
bridging-prepared = refl

bridging_made :
    create_generic_tx_dto_and_metadata helping codec texts byron marshal going_on raising bridging
      prepared
    ≡ ok (generic, promised)
unfolding create_generic_tx_dto_and_metadata dto_with_metadata create_metadata metadata_for
    get_configs find_config bytes_eq metadata_transactions with_receiver addr_to_meta_data_addr
    split_string split_loop trim_prefix has_prefix prepared_data
bridging_made = refl

create_generic_tx_dto_and_metadata-IsPromised_example :
    IsPromised raising marshal bridging generic promised
create_generic_tx_dto_and_metadata-IsPromised_example =
    create_generic_tx_dto_and_metadata-IsPromised helping codec texts byron marshal going_on raising
      bridging false prepared generic promised tt tt bridging-prepared bridging_made
