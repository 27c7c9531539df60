-- ===== src/Wallet/TxBuilder/Apply.antt =====
-- The arguments for `transaction build-raw` in wallet/transaction.go, with the files they name.
use cardano_infrastructure.Base.{ℕ, ◌+◌, Option, none, some, List, [], ◌∷◌, ◌++◌, Bytes, ascii}
use cardano_infrastructure.Wallet.Data.{TokenAmount}
use cardano_infrastructure.Wallet.Texts.{format_uint}
use cardano_infrastructure.Wallet.SumMaps.{TxOutput}
use cardano_infrastructure.Wallet.CommandHelper.{
  Io, ◌>>=◌, ◌>>◌, returned, Os, run_command, join_path, write_serializable_to_file,
}
use cardano_infrastructure.Wallet.TxBuilder.{
  IPolicyScript, ICertificate, TxInputWithPolicyScript, TxTokenMintInputs,
  TxCertificateWithPolicyScript, TxWithdrawalDataPolicyScript, TxBuilder, tx_input_string,
  token_amount_string, tx_output_string,
}

abbrev pub draft_tx_file : Bytes
draft_tx_file = ascii "tx.draft"

-- `fmt.Sprintf("…%d…", index)`.
unfoldable pub numbered : Bytes → ℕ → Bytes → Bytes
numbered front index back = front ++ (format_uint index ++ back)

-- The text that `txTokenMintInputs.Apply` builds.
unfoldable pub mint_string : List TokenAmount → Bytes
mint_string [] = []
mint_string (token ∷ []) = token_amount_string token
mint_string (token ∷ u ∷ tokens) =
    token_amount_string token ++ (ascii "+" ++ mint_string (u ∷ tokens))

unfoldable pub withdrawal_string : TxWithdrawalDataPolicyScript → Bytes
withdrawal_string data' = data'.stake_address ++ (ascii "+" ++ format_uint data'.reward_amount)

unfoldable pub add_outputs_args : List TxOutput → List Bytes → List Bytes
add_outputs_args [] args = args
add_outputs_args (out ∷ outputs) args =
    add_outputs_args outputs (args ++ (ascii "--tx-out" ∷ tx_output_string out ∷ []))

-- The arguments before the first that is optional.
unfoldable pub first_args : TxBuilder → Bytes → ℕ → List Bytes
first_args b protocol_params_file_path fee =
    b.era
    ∷ ascii "transaction"
    ∷ ascii "build-raw"
    ∷ ascii "--protocol-params-file"
    ∷ protocol_params_file_path
    ∷ ascii "--fee"
    ∷ format_uint fee
    ∷ ascii "--invalid-hereafter"
    ∷ format_uint b.time_to_live
    ∷ ascii "--out-file"
    ∷ join_path b.base_directory draft_tx_file
    ∷ []

module _ {W : Type 0} (os : Os W) where
  unfoldable pub apply_script :
      Bytes → Bytes → Bytes → Option IPolicyScript → List Bytes → Io W (List Bytes)
  apply_script flag base_path file_name none args = returned args
  apply_script flag base_path file_name (some script) args = do
    file_path ← write_serializable_to_file os script.bytes_json base_path file_name
    returned (args ++ (flag ∷ file_path ∷ []))

  unfoldable pub apply_input : TxInputWithPolicyScript → Bytes → ℕ → List Bytes → Io W (List Bytes)
  apply_input input base_path indx args =
      apply_script (ascii "--tx-in-script-file") base_path
        (numbered (ascii "ps_") indx (ascii ".json")) input.policy_script
        (args ++ (ascii "--tx-in" ∷ tx_input_string input.tx_input ∷ []))

  unfoldable pub apply_inputs :
      List TxInputWithPolicyScript → Bytes → ℕ → List Bytes → Io W (List Bytes)
  apply_inputs [] base_path i args = returned args
  apply_inputs (input ∷ inputs) base_path i args = do
    args' ← apply_input input base_path i args
    apply_inputs inputs base_path (i + 1) args'

  unfoldable pub apply_mint_scripts :
      List IPolicyScript → Bytes → ℕ → List Bytes → Io W (List Bytes)
  apply_mint_scripts [] base_path i args = returned args
  apply_mint_scripts (script ∷ scripts) base_path i args = do
    args' ←
        apply_script (ascii "--minting-script-file") base_path
          (numbered (ascii "ps_mint_") i (ascii ".json")) (some script) args
    apply_mint_scripts scripts base_path (i + 1) args'

  unfoldable pub apply_mint_tokens :
      List TokenAmount → List IPolicyScript → Bytes → List Bytes → Io W (List Bytes)
  apply_mint_tokens [] scripts base_path args = returned args
  apply_mint_tokens (token ∷ tokens) scripts base_path args =
      apply_mint_scripts scripts base_path 0
        (args ++ (ascii "--mint" ∷ mint_string (token ∷ tokens) ∷ []))

  unfoldable pub apply_mints : TxTokenMintInputs → Bytes → List Bytes → Io W (List Bytes)
  apply_mints mints base_path args =
      apply_mint_tokens mints.tokens mints.policy_scripts base_path args

  unfoldable pub apply_some_certificate :
      Option ICertificate → Option IPolicyScript → Bytes → ℕ → List Bytes → Io W (List Bytes)
  apply_some_certificate none script base_path index args = returned args
  apply_some_certificate (some certificate) script base_path index args = do
    file_path ←
        write_serializable_to_file os certificate.bytes_json base_path
          (numbered (ascii "certificate_") index (ascii ".cert"))
    apply_script (ascii "--certificate-script-file") base_path
        (numbered (ascii "cert_policy_") index (ascii ".json")) script
        (args ++ (ascii "--certificate-file" ∷ file_path ∷ []))

  unfoldable pub apply_certificates :
      List TxCertificateWithPolicyScript → Bytes → ℕ → List Bytes → Io W (List Bytes)
  apply_certificates [] base_path i args = returned args
  apply_certificates (cert ∷ certificates) base_path i args = do
    args' ← apply_some_certificate cert.certificate cert.policy_script base_path i args
    apply_certificates certificates base_path (i + 1) args'

  unfoldable pub apply_withdrawal_of :
      Bytes → TxWithdrawalDataPolicyScript → Bytes → List Bytes → Io W (List Bytes)
  apply_withdrawal_of [] data' base_path args = returned args
  apply_withdrawal_of (c ∷ address) data' base_path args =
      apply_script (ascii "--withdrawal-script-file") base_path (ascii "policy_withdrawal.json")
        data'.policy_script (args ++ (ascii "--withdrawal" ∷ withdrawal_string data' ∷ []))

  unfoldable pub apply_withdrawal :
      TxWithdrawalDataPolicyScript → Bytes → List Bytes → Io W (List Bytes)
  apply_withdrawal data' base_path args =
      apply_withdrawal_of data'.stake_address data' base_path args

  unfoldable pub apply_metadata : Option Bytes → Bytes → List Bytes → Io W (List Bytes)
  apply_metadata none base_path args = returned args
  apply_metadata (some metadata) base_path args = do
    os.write_file (join_path base_path (ascii "metadata.json")) metadata
    returned
        (args ++ (ascii "--metadata-json-file" ∷ join_path base_path (ascii "metadata.json") ∷ []))

  -- `buildRawTx` up to the run of the command.
  unfoldable pub build_raw_args : TxBuilder → Bytes → ℕ → Io W (List Bytes)
  build_raw_args b protocol_params_file_path fee = do
    with_metadata ←
        apply_metadata b.metadata b.base_directory (first_args b protocol_params_file_path fee)
    with_certificates ← apply_certificates b.certificates b.base_directory 0 with_metadata
    with_withdrawal ← apply_withdrawal b.withdrawal_data b.base_directory with_certificates
    with_mints ← apply_mints b.mints b.base_directory with_withdrawal
    with_inputs ← apply_inputs b.inputs b.base_directory 0 with_mints
    returned (add_outputs_args b.outputs with_inputs)

  unfoldable pub build_raw_tx : TxBuilder → Bytes → ℕ → Io W Bytes
  build_raw_tx b protocol_params_file_path fee = do
    args ← build_raw_args b protocol_params_file_path fee
    run_command os b.cardano_cli_binary args
