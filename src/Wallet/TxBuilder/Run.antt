-- ===== src/Wallet/TxBuilder/Run.antt =====
-- The runs of cardano-cli by the builder of wallet/transaction.go, with what wallet/txwitness.go and
-- wallet/wallet.go write for them. encoding/json and cbor are the parameter Codec.
use cardano_infrastructure.Base.{
  ℕ, ◌+◌, max, Option, none, some, List, [], ◌∷◌, ◌++◌, Bytes, ascii, Result, ok, err, ◌==◌, ltb,
  if◌then◌else◌, length, take, replicate, ◌-◌, ◌/◌,
}
use cardano_infrastructure.Wallet.Data.{encode_to_string, ada_token_name}
use cardano_infrastructure.Wallet.Tokens.{decode_string}
use cardano_infrastructure.Wallet.Texts.{
  format_uint, parse_uint, parse_uint_any, to_lower, trim_space, trim_prefix, before_space,
}
use cardano_infrastructure.Wallet.SumMaps.{TxOutput}
use cardano_infrastructure.Wallet.CommandHelper.{
  WalletError, unmarshal_error, protocol_parameters_not_set, invalid_number, Io, ◌>>=◌, ◌>>◌,
  returned, failed, lifted, Os, run_command, get_test_net_magic_args, join_path,
}
use cardano_infrastructure.Wallet.TxBuilder.{
  TxBuilder, tx_output_string, check_outputs, inputs_witness_count, get_certificates_witness_count,
  withdrawal_witness_count,
}
use cardano_infrastructure.Wallet.TxBuilder.Apply.{draft_tx_file, numbered, build_raw_tx}

-- The calls of encoding/json and cbor. `fee_of` and `tx_hash_of` read one field of an object, `cbor_hex`
-- the field of that name; a text that is no such object, on which the code panics or fails, gives `none`.
-- `envelope` is the JSON of a map of a type, a description and a cborHex, `key_json` that of a `Key`.
pub record Codec : Type 0 where
  pub fee_of : Bytes → Option ℕ
  pub tx_hash_of : Bytes → Option Bytes
  pub cbor_hex : Bytes → Option Bytes
  pub envelope : Bytes → Bytes → Bytes → Result WalletError Bytes
  pub key_json : Bytes → Bytes → Bytes → Result WalletError Bytes
  pub cbor_bytes : Bytes → Result WalletError Bytes

unfoldable pub parsed_number : Option ℕ → Result WalletError ℕ
parsed_number none = err invalid_number
parsed_number (some n) = ok n

unfoldable pub or_parsed : Option ℕ → Bytes → Result WalletError ℕ
unfolding parsed_number
or_parsed (some fee) response = ok fee
or_parsed none response = parsed_number (parse_uint (before_space response))

unfoldable pub decoded_hex : Option Bytes → Result WalletError Bytes
decoded_hex none = err unmarshal_error
decoded_hex (some bytes) = ok bytes

unfoldable pub from_cbor_hex : Option Bytes → Result WalletError Bytes
unfolding decoded_hex
from_cbor_hex none = err unmarshal_error
from_cbor_hex (some hex) = decoded_hex (decode_string hex)

unfoldable pub or_trimmed : Option Bytes → Bytes → Bytes
or_trimmed none res = trim_space res
or_trimmed (some tx_hash) res = tx_hash

abbrev pub key_size : ℕ
key_size = 32

abbrev pub key_extended_size : ℕ
key_extended_size = 128

unfoldable pub padded_to : ℕ → Bytes → Bytes
padded_to size key =
    if ltb (length key) size then replicate (size - length key) 0 ++ key else take size key

unfoldable pub pad_key_to_size : Bytes → Bytes
unfolding padded_to
pad_key_to_size key =
    padded_to (if ltb (key_extended_size / 2) (length key) then key_extended_size else key_size) key

abbrev pub ledger_cddl_format_desc : Bytes
ledger_cddl_format_desc = ascii "Ledger Cddl Format"

module _ (codec : Codec) where
  unfoldable pub tx_witness_json : Bytes → Bytes → Result WalletError Bytes
  tx_witness_json witness era =
      codec.envelope (ascii "TxWitness " ++ (era ++ ascii "Era")) (ascii "Key Witness ShelleyEra")
        (encode_to_string witness)

  unfoldable pub unwitnessed_json : Bytes → Bytes → Result WalletError Bytes
  unwitnessed_json tx era =
      codec.envelope (ascii "Unwitnessed Tx " ++ (era ++ ascii "Era")) ledger_cddl_format_desc
        (encode_to_string tx)

  unfoldable pub witnessed_json : Bytes → Bytes → Result WalletError Bytes
  witnessed_json tx era =
      codec.envelope (ascii "Witnessed Tx " ++ (era ++ ascii "Era")) ledger_cddl_format_desc
        (encode_to_string tx)

  unfoldable pub raw_from_json : Bytes → Result WalletError Bytes
  raw_from_json bytes = from_cbor_hex (codec.cbor_hex bytes)

  module _ {W : Type 0} (os : Os W) where
    unfoldable pub protocol_params_path : TxBuilder → Bytes
    protocol_params_path b = join_path b.base_directory (ascii "protocol-parameters.json")

    unfoldable pub write_protocol_params : TxBuilder → Option Bytes → Io W Bytes
    unfolding protocol_params_path
    write_protocol_params b none = failed protocol_parameters_not_set
    write_protocol_params b (some protocol_parameters) = do
      os.write_file (protocol_params_path b) protocol_parameters
      returned (protocol_params_path b)

    unfoldable pub counted_witnesses : TxBuilder → ℕ
    counted_witnesses b =
        max
          (inputs_witness_count b.inputs
            + get_certificates_witness_count b.certificates
            + withdrawal_witness_count b.withdrawal_data)
          1

    unfoldable pub witness_count_or : TxBuilder → ℕ → ℕ
    unfolding counted_witnesses
    witness_count_or b witness_count =
        if witness_count == 0 then counted_witnesses b else witness_count

    unfoldable pub min_fee_args : TxBuilder → Bytes → ℕ → List Bytes
    min_fee_args b path witness_count =
        (b.era
          ∷ ascii "transaction"
          ∷ ascii "calculate-min-fee"
          ∷ ascii "--tx-body-file"
          ∷ join_path b.base_directory draft_tx_file
          ∷ ascii "--tx-in-count"
          ∷ format_uint (length b.inputs)
          ∷ ascii "--tx-out-count"
          ∷ format_uint (length b.outputs)
          ∷ ascii "--witness-count"
          ∷ format_uint witness_count
          ∷ ascii "--protocol-params-file"
          ∷ path
          ∷ [])
        ++ get_test_net_magic_args b.test_net_magic

    unfoldable pub calculate_fee : TxBuilder → ℕ → Io W ℕ
    calculate_fee b witness_count = do
      path ← write_protocol_params b b.protocol_parameters
      build_raw_tx os b path 0
      response ←
          run_command os b.cardano_cli_binary
            (min_fee_args b path (witness_count_or b witness_count))
      lifted (or_parsed (codec.fee_of response) response)

    -- The number in the response of `calculate-min-required-utxo`.
    unfoldable pub min_utxo_text : Bytes → Bytes
    min_utxo_text result =
        trim_prefix (trim_space (trim_prefix (to_lower (trim_space result)) ada_token_name))
          (ascii "coin ")

    unfoldable pub calculate_min_utxo : TxBuilder → TxOutput → Io W ℕ
    unfolding min_utxo_text
    calculate_min_utxo b output = do
      path ← write_protocol_params b b.protocol_parameters
      result ← run_command os b.cardano_cli_binary (
          b.era
          ∷ ascii "transaction"
          ∷ ascii "calculate-min-required-utxo"
          ∷ ascii "--protocol-params-file"
          ∷ path
          ∷ ascii "--tx-out"
          ∷ tx_output_string output
          ∷ [])
      lifted (parsed_number (parse_uint_any (min_utxo_text result)))

    unfoldable pub get_tx_hash_in : Bytes → Bytes → Bytes → Bytes → Bytes → Io W Bytes
    get_tx_hash_in binary era tx_raw base_directory era_name = do
      tx_bytes ← lifted (unwitnessed_json tx_raw era_name)
      os.write_file (join_path base_directory (ascii "tx.tmp")) tx_bytes
      res ← run_command os binary (
          era
          ∷ ascii "transaction"
          ∷ ascii "txid"
          ∷ ascii "--tx-body-file"
          ∷ join_path base_directory (ascii "tx.tmp")
          ∷ [])
      returned (or_trimmed (codec.tx_hash_of res) res)

    -- `Build` after the protocol parameters are known to be set.
    unfoldable pub build_with : TxBuilder → Bytes → Io W (Bytes × Bytes)
    build_with b protocol_parameters = do
      lifted (check_outputs b)
      path ← write_protocol_params b (some protocol_parameters)
      build_raw_tx os b path b.fee
      bytes ← os.read_file (join_path b.base_directory draft_tx_file)
      tx_raw ← lifted (raw_from_json bytes)
      tx_hash ← get_tx_hash_in b.cardano_cli_binary b.era tx_raw b.base_directory b.real_era_name
      returned (tx_raw, tx_hash)

    unfoldable pub build_if : TxBuilder → Option Bytes → Io W (Bytes × Bytes)
    unfolding build_with
    build_if b none = failed protocol_parameters_not_set
    build_if b (some protocol_parameters) = build_with b protocol_parameters

    unfoldable pub build : TxBuilder → Io W (Bytes × Bytes)
    build b = build_if b b.protocol_parameters

    unfoldable pub key_type : Bytes → Bytes
    key_type signing_key =
        if ltb key_size (length signing_key)
        then ascii "PaymentExtendedSigningKeyShelley_ed25519_bip32"
        else ascii "PaymentSigningKeyShelley_ed25519"

    -- `NewKeyFromBytes` and `Key.WriteToFile`.
    unfoldable pub write_key : Bytes → Bytes → Bytes → Io W (Unit {0})
    write_key type signing_key path = do
      cbor_bytes ← lifted (codec.cbor_bytes (pad_key_to_size signing_key))
      bytes ← lifted (codec.key_json type [] (encode_to_string cbor_bytes))
      os.write_file path bytes

    unfoldable pub create_tx_witness : TxBuilder → Bytes → Bytes → Io W Bytes
    create_tx_witness b tx_raw signing_key = do
      tx_bytes ← lifted (unwitnessed_json tx_raw b.real_era_name)
      os.write_file (join_path b.base_directory (ascii "tx.raw")) tx_bytes
      write_key (key_type signing_key) signing_key (join_path b.base_directory (ascii "tx.skey"))
      run_command os b.cardano_cli_binary (
          (b.era
            ∷ ascii "transaction"
            ∷ ascii "witness"
            ∷ ascii "--signing-key-file"
            ∷ join_path b.base_directory (ascii "tx.skey")
            ∷ ascii "--tx-body-file"
            ∷ join_path b.base_directory (ascii "tx.raw")
            ∷ ascii "--out-file"
            ∷ join_path b.base_directory (ascii "tx.wit")
            ∷ [])
          ++ get_test_net_magic_args b.test_net_magic)
      bytes ← os.read_file (join_path b.base_directory (ascii "tx.wit"))
      lifted (raw_from_json bytes)

    -- The files of the witnesses, from number `i` on.
    unfoldable pub write_witnesses : TxBuilder → ℕ → List Bytes → Io W (List Bytes)
    write_witnesses b i [] = returned []
    write_witnesses b i (witness ∷ witnesses) = do
      content ← lifted (tx_witness_json witness b.real_era_name)
      os.write_file (join_path b.base_directory (numbered (ascii "witness-") i [])) content
      paths ← write_witnesses b (i + 1) witnesses
      returned (join_path b.base_directory (numbered (ascii "witness-") i []) ∷ paths)

    unfoldable pub witness_args : List Bytes → List Bytes
    witness_args [] = []
    witness_args (path ∷ paths) = ascii "--witness-file" ∷ path ∷ witness_args paths

    unfoldable pub assemble_args : TxBuilder → List Bytes → List Bytes
    unfolding witness_args
    assemble_args b paths =
        (b.era
          ∷ ascii "transaction"
          ∷ ascii "assemble"
          ∷ ascii "--tx-body-file"
          ∷ join_path b.base_directory (ascii "tx.raw")
          ∷ ascii "--out-file"
          ∷ join_path b.base_directory (ascii "tx.sig")
          ∷ [])
        ++ witness_args paths

    unfoldable pub assemble_tx_witnesses : TxBuilder → Bytes → List Bytes → Io W Bytes
    assemble_tx_witnesses b tx_raw witnesses = do
      paths ← write_witnesses b 1 witnesses
      tx_bytes ← lifted (unwitnessed_json tx_raw b.real_era_name)
      os.write_file (join_path b.base_directory (ascii "tx.raw")) tx_bytes
      run_command os b.cardano_cli_binary (assemble_args b paths)
      bytes ← os.read_file (join_path b.base_directory (ascii "tx.sig"))
      lifted (raw_from_json bytes)

    unfoldable pub create_witnesses : TxBuilder → Bytes → List Bytes → Io W (List Bytes)
    create_witnesses b tx_raw [] = returned []
    create_witnesses b tx_raw (signer ∷ signers) = do
      witness ← create_tx_witness b tx_raw signer
      witnesses ← create_witnesses b tx_raw signers
      returned (witness ∷ witnesses)

    -- A signer is its payment signing key.
    unfoldable pub sign_tx : TxBuilder → Bytes → List Bytes → Io W Bytes
    sign_tx b tx_raw signers = do
      witnesses ← create_witnesses b tx_raw signers
      assemble_tx_witnesses b tx_raw witnesses
