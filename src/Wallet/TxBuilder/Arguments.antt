-- ===== src/Wallet/TxBuilder/Arguments.antt =====
-- What the command line of `buildRawTx` says.
use cardano_infrastructure.Base.{
  ℕ, ◌+◌, ◌≡◌, ap, subst, false, Option, none, some, List, [], ◌∷◌, ◌++◌, Bytes, ascii, bytes_eq,
  ok, eq_of_ok, Result,
}
use cardano_infrastructure.Wallet.Data.{TokenAmount}
use cardano_infrastructure.Wallet.SumMaps.{TxOutput}
use cardano_infrastructure.Wallet.CommandHelper.{
  WalletError, Os, join_path, write_serializable_to_file,
}
use cardano_infrastructure.Wallet.CommandHelper.Steps.{pass_on-ok}
use cardano_infrastructure.Wallet.TxBuilder.{
  IPolicyScript, ICertificate, TxInputWithPolicyScript, TxCertificateWithPolicyScript,
  TxWithdrawalDataPolicyScript, TxBuilder, tx_input_string, tx_output_string,
}
use cardano_infrastructure.Wallet.TxBuilder.Flags.{
  tagged, Adds, Adds-nothing, Adds-trans, Adds-foreign, Adds-after, Adds-cons, tagged-nil,
}
use cardano_infrastructure.Wallet.TxBuilder.Apply.{
  numbered, mint_string, withdrawal_string, add_outputs_args, first_args, apply_script, apply_input,
  apply_inputs, apply_mint_scripts, apply_mint_tokens, apply_mints, apply_some_certificate,
  apply_certificates, apply_withdrawal_of, apply_withdrawal, apply_metadata, build_raw_args,
}

-- The flags that come only with files and with what may be absent.
pub record IsForeign (key : Bytes) : Type 0 where
  pub metadata : bytes_eq (ascii "--metadata-json-file") key ≡ false
  pub certificate : bytes_eq (ascii "--certificate-file") key ≡ false
  pub certificate_script : bytes_eq (ascii "--certificate-script-file") key ≡ false
  pub withdrawal : bytes_eq (ascii "--withdrawal") key ≡ false
  pub withdrawal_script : bytes_eq (ascii "--withdrawal-script-file") key ≡ false
  pub mint : bytes_eq (ascii "--mint") key ≡ false
  pub minting_script : bytes_eq (ascii "--minting-script-file") key ≡ false
  pub input_script : bytes_eq (ascii "--tx-in-script-file") key ≡ false

returned_eq :
    {W A : Type 0} {a b : A} {w w' : W}
    → ◌≡◌ {A = Result WalletError A × W} (ok a, w) (ok b, w')
    → a ≡ b
returned_eq h = eq_of_ok (ap (λ p. p.0) h)

-- The inputs and the outputs, as the command line writes them.
abbrev pub input_strings : List TxInputWithPolicyScript → List Bytes
input_strings [] = []
input_strings (input ∷ inputs) = tx_input_string input.tx_input ∷ input_strings inputs

abbrev pub output_strings : List TxOutput → List Bytes
output_strings [] = []
output_strings (output ∷ outputs) = tx_output_string output ∷ output_strings outputs

add_outputs_args-Adds :
    (key : Bytes) (outputs : List TxOutput) (args : List Bytes)
    → Adds key
        (tagged (ascii "--tx-out") key (output_strings outputs))
        args
        (add_outputs_args outputs args)
unfolding add_outputs_args
add_outputs_args-Adds key [] args =
    subst (λ vs. Adds key vs args args) (tagged-nil (ascii "--tx-out") key) (Adds-nothing key args)
add_outputs_args-Adds key (output ∷ outputs) args =
    Adds-cons key (ascii "--tx-out") (tx_output_string output) (output_strings outputs) args _
      (add_outputs_args-Adds key outputs _)

module _ {W : Type 0} (os : Os W) (key : Bytes) where
  apply_script-Adds :
      (flag base_path file_name : Bytes) (script : Option IPolicyScript) (args args' : List Bytes)
      (w w' : W)
      → bytes_eq flag key ≡ false
      → apply_script os flag base_path file_name script args w ≡ (ok args', w')
      → Adds key [] args args'
  unfolding apply_script
  apply_script-Adds flag base_path file_name none args args' w w' e h =
      subst (Adds key [] args) (returned_eq h) (Adds-nothing key args)
  apply_script-Adds flag base_path file_name (some script) args args' w w' e h =
      let (path, w1, _, k) =
        pass_on-ok (write_serializable_to_file os script.bytes_json base_path file_name w) _ h in
      subst (Adds key [] args) (returned_eq k) (Adds-foreign key flag path args e)

  apply_mint_scripts-Adds :
      (scripts : List IPolicyScript) (base_path : Bytes) (i : ℕ) (args args' : List Bytes)
      (w w' : W)
      → IsForeign key
      → apply_mint_scripts os scripts base_path i args w ≡ (ok args', w')
      → Adds key [] args args'
  unfolding apply_mint_scripts
  apply_mint_scripts-Adds [] base_path i args args' w w' f h =
      subst (Adds key [] args) (returned_eq h) (Adds-nothing key args)
  apply_mint_scripts-Adds (script ∷ scripts) base_path i args args' w w' f h =
      let flag = ascii "--minting-script-file" in
      let name = numbered (ascii "ps_mint_") i (ascii ".json") in
      let (a, w1, k, l) =
        pass_on-ok (apply_script os flag base_path name (some script) args w) _ h in
      Adds-trans key [] [] args a args'
        (apply_script-Adds flag base_path name (some script) args a w w1 f.minting_script k)
        (apply_mint_scripts-Adds scripts base_path (i + 1) a args' w1 w' f l)

  apply_mint_tokens-Adds :
      (tokens : List TokenAmount) (scripts : List IPolicyScript) (base_path : Bytes)
      (args args' : List Bytes) (w w' : W)
      → IsForeign key
      → apply_mint_tokens os tokens scripts base_path args w ≡ (ok args', w')
      → Adds key [] args args'
  unfolding apply_mint_tokens
  apply_mint_tokens-Adds [] scripts base_path args args' w w' f h =
      subst (Adds key [] args) (returned_eq h) (Adds-nothing key args)
  apply_mint_tokens-Adds (token ∷ tokens) scripts base_path args args' w w' f h =
      Adds-after key (ascii "--mint") (mint_string (token ∷ tokens)) args args' f.mint
        (apply_mint_scripts-Adds scripts base_path 0 _ args' w w' f h)

  apply_some_certificate-Adds :
      (certificate : Option ICertificate) (script : Option IPolicyScript) (base_path : Bytes)
      (i : ℕ) (args args' : List Bytes) (w w' : W)
      → IsForeign key
      → apply_some_certificate os certificate script base_path i args w ≡ (ok args', w')
      → Adds key [] args args'
  unfolding apply_some_certificate
  apply_some_certificate-Adds none script base_path i args args' w w' f h =
      subst (Adds key [] args) (returned_eq h) (Adds-nothing key args)
  apply_some_certificate-Adds (some certificate) script base_path i args args' w w' f h =
      let name = numbered (ascii "certificate_") i (ascii ".cert") in
      let (path, w1, _, l) =
        pass_on-ok (write_serializable_to_file os certificate.bytes_json base_path name w) _ h in
      Adds-after key (ascii "--certificate-file") path args args' f.certificate (
        apply_script-Adds (ascii "--certificate-script-file") base_path
          (numbered (ascii "cert_policy_") i (ascii ".json")) script _ args' w1 w'
          f.certificate_script l)

  apply_certificates-Adds :
      (certificates : List TxCertificateWithPolicyScript) (base_path : Bytes) (i : ℕ)
      (args args' : List Bytes) (w w' : W)
      → IsForeign key
      → apply_certificates os certificates base_path i args w ≡ (ok args', w')
      → Adds key [] args args'
  unfolding apply_certificates
  apply_certificates-Adds [] base_path i args args' w w' f h =
      subst (Adds key [] args) (returned_eq h) (Adds-nothing key args)
  apply_certificates-Adds (cert ∷ certificates) base_path i args args' w w' f h =
      let (a, w1, k, l) =
        pass_on-ok
          (apply_some_certificate os cert.certificate cert.policy_script base_path i args w) _ h in
      Adds-trans key [] [] args a args'
        (apply_some_certificate-Adds cert.certificate cert.policy_script base_path i args a w w1 f
          k)
        (apply_certificates-Adds certificates base_path (i + 1) a args' w1 w' f l)

  apply_withdrawal_of-Adds :
      (address : Bytes) (data' : TxWithdrawalDataPolicyScript) (base_path : Bytes)
      (args args' : List Bytes) (w w' : W)
      → IsForeign key
      → apply_withdrawal_of os address data' base_path args w ≡ (ok args', w')
      → Adds key [] args args'
  unfolding apply_withdrawal_of
  apply_withdrawal_of-Adds [] data' base_path args args' w w' f h =
      subst (Adds key [] args) (returned_eq h) (Adds-nothing key args)
  apply_withdrawal_of-Adds (c ∷ address) data' base_path args args' w w' f h =
      Adds-after key (ascii "--withdrawal") (withdrawal_string data') args args' f.withdrawal (
        apply_script-Adds (ascii "--withdrawal-script-file") base_path
          (ascii "policy_withdrawal.json") data'.policy_script _ args' w w' f.withdrawal_script h)

  apply_metadata-Adds :
      (metadata : Option Bytes) (base_path : Bytes) (args args' : List Bytes) (w w' : W)
      → IsForeign key
      → apply_metadata os metadata base_path args w ≡ (ok args', w')
      → Adds key [] args args'
  unfolding apply_metadata
  apply_metadata-Adds none base_path args args' w w' f h =
      subst (Adds key [] args) (returned_eq h) (Adds-nothing key args)
  apply_metadata-Adds (some metadata) base_path args args' w w' f h =
      let path = join_path base_path (ascii "metadata.json") in
      let (_, w1, _, k) = pass_on-ok (os.write_file path metadata w) _ h in
      subst (Adds key [] args) (returned_eq k)
        (Adds-foreign key (ascii "--metadata-json-file") path args f.metadata)

  apply_inputs-Adds :
      (inputs : List TxInputWithPolicyScript) (base_path : Bytes) (i : ℕ) (args args' : List Bytes)
      (w w' : W)
      → IsForeign key
      → apply_inputs os inputs base_path i args w ≡ (ok args', w')
      → Adds key (tagged (ascii "--tx-in") key (input_strings inputs)) args args'
  unfolding apply_inputs apply_input
  apply_inputs-Adds [] base_path i args args' w w' f h =
      subst (λ vs. Adds key vs args args') (tagged-nil (ascii "--tx-in") key)
        (subst (Adds key [] args) (returned_eq h) (Adds-nothing key args))
  apply_inputs-Adds (input ∷ inputs) base_path i args args' w w' f h =
      let flag = ascii "--tx-in-script-file" in
      let name = numbered (ascii "ps_") i (ascii ".json") in
      let start = args ++ (ascii "--tx-in" ∷ tx_input_string input.tx_input ∷ []) in
      let (a, w1, k, l) =
        pass_on-ok (apply_script os flag base_path name input.policy_script start w) _ h in
      Adds-cons key (ascii "--tx-in") (tx_input_string input.tx_input) (input_strings inputs) args
        args'
        (Adds-trans key [] (tagged (ascii "--tx-in") key (input_strings inputs)) start a args'
          (apply_script-Adds flag base_path name input.policy_script start a w w1 f.input_script k)
          (apply_inputs-Adds inputs base_path (i + 1) a args' w1 w' f l))

  pub build_raw_args-Adds :
      (b : TxBuilder) (path : Bytes) (fee : ℕ) (args : List Bytes) (w w' : W)
      → IsForeign key
      → build_raw_args os b path fee w ≡ (ok args, w')
      → Adds key
          (tagged (ascii "--tx-in") key (input_strings b.inputs)
            ++ tagged (ascii "--tx-out") key (output_strings b.outputs))
          (first_args b path fee)
          args
  unfolding build_raw_args apply_withdrawal apply_mints
  build_raw_args-Adds b path fee args w w' f h =
      let base = b.base_directory in
      let a0 = first_args b path fee in
      let (a1, w1, k1, h1) = pass_on-ok (apply_metadata os b.metadata base a0 w) _ h in
      let (a2, w2, k2, h2) = pass_on-ok (apply_certificates os b.certificates base 0 a1 w1) _ h1 in
      let (a3, w3, k3, h3) = pass_on-ok (apply_withdrawal os b.withdrawal_data base a2 w2) _ h2 in
      let (a4, w4, k4, h4) = pass_on-ok (apply_mints os b.mints base a3 w3) _ h3 in
      let (a5, w5, k5, h5) = pass_on-ok (apply_inputs os b.inputs base 0 a4 w4) _ h4 in
      let ins = tagged (ascii "--tx-in") key (input_strings b.inputs) in
      let outs = tagged (ascii "--tx-out") key (output_strings b.outputs) in
      Adds-trans key [] (ins ++ outs) a0 a1 args
        (apply_metadata-Adds b.metadata base a0 a1 w w1 f k1)
        (Adds-trans key [] (ins ++ outs) a1 a2 args
          (apply_certificates-Adds b.certificates base 0 a1 a2 w1 w2 f k2)
          (Adds-trans key [] (ins ++ outs) a2 a3 args
            (apply_withdrawal_of-Adds b.withdrawal_data.stake_address b.withdrawal_data base a2 a3
              w2 w3 f k3)
            (Adds-trans key [] (ins ++ outs) a3 a4 args
              (apply_mint_tokens-Adds b.mints.tokens b.mints.policy_scripts base a3 a4 w3 w4 f k4)
              (Adds-trans key ins outs a4 a5 args
                (apply_inputs-Adds b.inputs base 0 a4 a5 w4 w5 f k5)
                (subst (Adds key outs a5) (returned_eq h5)
                  (add_outputs_args-Adds key b.outputs a5))))))
