-- ===== src/Wallet/TxBuilder.antt =====
-- wallet/transaction.go: the transaction builder and the operations that change it. A slice is a list,
-- an index out of range gives `none`, where the code panics.
pub mod Outputs
pub mod Apply
pub mod Flags
pub mod Arguments
pub mod Spelling
pub mod CommandLine
pub mod Run
pub mod KeySizes
pub mod Refusals
mod Tests
use cardano_infrastructure.Base.{
  ℕ, zero, suc, ◌+◌, ◌-◌, min, Bool, true, false, Option, none, some, List, [], ◌∷◌, ◌++◌, Bytes,
  ascii, Result, ok, err, ◌==◌, ltb, leb, if◌then◌else◌, length, get_or, set, take, drop, map,
}
use mathlib.Core.Option
use cardano_infrastructure.Wallet.Data.{TokenAmount, encode_to_string}
use cardano_infrastructure.Wallet.Texts.{format_uint}
use cardano_infrastructure.Wallet.TxInputs.{TxInput}
use cardano_infrastructure.Wallet.SumMaps.{TxOutput}
use cardano_infrastructure.Wallet.CommandHelper.{WalletError, amounts_not_specified}

-- An `IPolicyScript`: the pointer by which two are compared, its JSON and its signature count.
pub record IPolicyScript : Type 0 where
  pub pointer : ℕ
  pub bytes_json : Result WalletError Bytes
  pub count : ℕ

-- An `ICertificate`.
pub record ICertificate : Type 0 where
  pub bytes_json : Result WalletError Bytes

pub record TxInputWithPolicyScript : Type 0 where
  pub tx_input : TxInput
  pub policy_script : Option IPolicyScript

pub record TxTokenMintInputs : Type 0 where
  pub tokens : List TokenAmount
  pub policy_scripts : List IPolicyScript

pub record TxCertificateWithPolicyScript : Type 0 where
  pub certificate : Option ICertificate
  pub policy_script : Option IPolicyScript

pub record TxWithdrawalDataPolicyScript : Type 0 where
  pub stake_address : Bytes
  pub reward_amount : ℕ
  pub policy_script : Option IPolicyScript

pub record TxBuilder : Type 0 where
  pub base_directory : Bytes
  pub inputs : List TxInputWithPolicyScript
  pub outputs : List TxOutput
  pub mints : TxTokenMintInputs
  pub certificates : List TxCertificateWithPolicyScript
  pub metadata : Option Bytes
  pub protocol_parameters : Option Bytes
  pub time_to_live : ℕ
  pub test_net_magic : ℕ
  pub fee : ℕ
  pub withdrawal_data : TxWithdrawalDataPolicyScript
  pub era : Bytes
  pub real_era_name : Bytes
  pub cardano_cli_binary : Bytes

unfoldable pub tx_input_string : TxInput → Bytes
tx_input_string i = i.hash ++ (ascii "#" ++ format_uint i.index)

unfoldable pub token_amount_string : TokenAmount → Bytes
token_amount_string tt' =
    format_uint tt'.amount
    ++ (ascii " " ++ (tt'.policy_id ++ (ascii "." ++ encode_to_string tt'.name)))

-- The loop of `TxOutput.String`.
unfoldable pub plus_tokens : List TokenAmount → Bytes
plus_tokens [] = []
plus_tokens (token ∷ tokens) = ascii "+" ++ (token_amount_string token ++ plus_tokens tokens)

unfoldable pub tx_output_string : TxOutput → Bytes
tx_output_string o = o.addr ++ (ascii "+" ++ (format_uint o.amount ++ plus_tokens o.tokens))

abbrev pub with_script : Option IPolicyScript → TxInput → TxInputWithPolicyScript
with_script script input = record { tx_input = input; policy_script = script }

unfoldable pub add_inputs_with_script : Option IPolicyScript → List TxInput → TxBuilder → TxBuilder
add_inputs_with_script script inputs b = record b {
  inputs = b.inputs ++ map (with_script script) inputs;
}

unfoldable pub paired : List TxInput → List (Option IPolicyScript) → List TxInputWithPolicyScript
paired [] scripts = []
paired (input ∷ inputs) [] = []
paired (input ∷ inputs) (script ∷ scripts) = with_script script input ∷ paired inputs scripts

unfoldable pub add_inputs_with_scripts :
    List TxInput → List (Option IPolicyScript) → TxBuilder → TxBuilder
add_inputs_with_scripts inputs scripts b = record b { inputs = b.inputs ++ paired inputs scripts }

unfoldable pub add_inputs : List TxInput → TxBuilder → TxBuilder
add_inputs inputs b = record b { inputs = b.inputs ++ map (with_script none) inputs }

unfoldable pub add_outputs : List TxOutput → TxBuilder → TxBuilder
add_outputs outputs b = record b { outputs = b.outputs ++ outputs }

-- An `int`: `pos n` is n, `negsuc n` is -(n + 1).
pub data ℤ : Type 0 where
  pos : ℕ → ℤ
  negsuc : ℕ → ℤ

-- A negative index counts from the end. An index that is then out of range panics where it is used.
unfoldable pub index_in : ℤ → ℕ → Option ℕ
index_in (pos i) len = if ltb i len then some i else none
index_in (negsuc n) len = if ltb n len then some (len - (n + 1)) else none

unfoldable pub replaced_at : TxOutput → TxBuilder → ℕ → TxBuilder
replaced_at output b i = record b { outputs = set b.outputs i output }

unfoldable pub replace_output : ℤ → TxOutput → TxBuilder → Option TxBuilder
replace_output index output b =
    Option.map (replaced_at output b) (index_in index (length b.outputs))

-- The loop over the amounts: those beyond the tokens are ignored.
unfoldable pub set_amounts : List TokenAmount → List ℕ → List TokenAmount
set_amounts tokens [] = tokens
set_amounts [] (amount ∷ amounts) = []
set_amounts (token ∷ tokens) (amount ∷ amounts) =
    record token { amount = amount } ∷ set_amounts tokens amounts

abbrev pub zero_output : TxOutput
zero_output = record { addr = []; amount = 0; tokens = [] }

unfoldable pub updated_at : ℕ → List ℕ → TxBuilder → ℕ → TxBuilder
updated_at amount token_amounts b i =
    let output = get_or b.outputs i zero_output in
    record b {
      outputs =
          set b.outputs i
            (record output { amount = amount; tokens = set_amounts output.tokens token_amounts });
    }

unfoldable pub update_output_amount : ℤ → ℕ → List ℕ → TxBuilder → Option TxBuilder
update_output_amount index amount token_amounts b =
    Option.map (updated_at amount token_amounts b) (index_in index (length b.outputs))

unfoldable pub removed_at : TxBuilder → ℕ → TxBuilder
removed_at b i = record b { outputs = take i b.outputs ++ drop (i + 1) b.outputs }

unfoldable pub remove_output : ℤ → TxBuilder → Option TxBuilder
remove_output index b = Option.map (removed_at b) (index_in index (length b.outputs))

unfoldable pub add_token_mints : List IPolicyScript → List TokenAmount → TxBuilder → TxBuilder
add_token_mints policy_scripts tokens b = record b {
  mints = record {
    tokens = b.mints.tokens ++ tokens;
    policy_scripts = b.mints.policy_scripts ++ policy_scripts;
  };
}

abbrev pub certificate_of : Option IPolicyScript → ICertificate → TxCertificateWithPolicyScript
certificate_of script cert = record { certificate = some cert; policy_script = script }

unfoldable pub add_certificates : Option IPolicyScript → List ICertificate → TxBuilder → TxBuilder
add_certificates script certificates b = record b {
  certificates = b.certificates ++ map (certificate_of script) certificates;
}

unfoldable pub set_test_net_magic : ℕ → TxBuilder → TxBuilder
set_test_net_magic test_net_magic b = record b { test_net_magic = test_net_magic }

unfoldable pub set_fee : ℕ → TxBuilder → TxBuilder
set_fee fee b = record b { fee = fee }

unfoldable pub set_meta_data : Option Bytes → TxBuilder → TxBuilder
set_meta_data metadata b = record b { metadata = metadata }

unfoldable pub set_protocol_parameters : Option Bytes → TxBuilder → TxBuilder
set_protocol_parameters protocol_parameters b = record b {
  protocol_parameters = protocol_parameters;
}

unfoldable pub set_time_to_live : ℕ → TxBuilder → TxBuilder
set_time_to_live time_to_live b = record b { time_to_live = time_to_live }

unfoldable pub set_withdrawal_data : Bytes → ℕ → Option IPolicyScript → TxBuilder → TxBuilder
set_withdrawal_data stake_address rewards_amount policy_script b = record b {
  withdrawal_data = record {
    stake_address = stake_address;
    reward_amount = rewards_amount;
    policy_script = policy_script;
  };
}

-- The outputs without an amount, with their indices from `i` on.
unfoldable pub without_amount : ℕ → List TxOutput → List (Bytes × ℕ)
without_amount i [] = []
without_amount i (x ∷ xs) =
    let rest = without_amount (i + 1) xs in if x.amount == 0 then (x.addr, i) ∷ rest else rest

-- `errors.Join`, which gives no error for none.
unfoldable pub joined_errors : List (Bytes × ℕ) → Result WalletError (Unit {0})
joined_errors [] = ok tt
joined_errors (e ∷ errs) = err (amounts_not_specified (e ∷ errs))

unfoldable pub check_outputs : TxBuilder → Result WalletError (Unit {0})
unfolding without_amount joined_errors
check_outputs b = joined_errors (without_amount 0 b.outputs)

unfoldable pub script_count : ℕ → Option IPolicyScript → ℕ
script_count otherwise none = otherwise
script_count otherwise (some script) = script.count

unfoldable pub input_witness_count : TxInputWithPolicyScript → ℕ
input_witness_count input = script_count 1 input.policy_script

unfoldable pub inputs_witness_count : List TxInputWithPolicyScript → ℕ
inputs_witness_count [] = 0
inputs_witness_count (input ∷ inputs) = input_witness_count input + inputs_witness_count inputs

unfoldable pub without_script_count : Option ICertificate → ℕ
without_script_count none = 0
without_script_count (some certificate) = 1

unfoldable pub certificate_witness_count : TxCertificateWithPolicyScript → ℕ
certificate_witness_count cert =
    script_count (without_script_count cert.certificate) cert.policy_script

-- `cert.policyScript != nil && slices.Contains(processedScripts, cert.policyScript)`.
unfoldable pub same_script : Option IPolicyScript → Option IPolicyScript → Bool
same_script (some x) (some y) = x.pointer == y.pointer
same_script _ _ = false

unfoldable pub already_processed : Option IPolicyScript → List (Option IPolicyScript) → Bool
already_processed script [] = false
already_processed script (x ∷ processed) =
    if same_script script x then true else already_processed script processed

unfoldable pub certificates_loop :
    ℕ → List (Option IPolicyScript) → List TxCertificateWithPolicyScript → ℕ
certificates_loop witness_count processed [] = witness_count
certificates_loop witness_count processed (cert ∷ certificates) =
    let next = processed ++ (cert.policy_script ∷ []) in
    let skipped = certificates_loop witness_count next certificates in
    let counted =
      certificates_loop (witness_count + certificate_witness_count cert) next certificates in
    if already_processed cert.policy_script processed then skipped else counted

unfoldable pub get_certificates_witness_count : List TxCertificateWithPolicyScript → ℕ
get_certificates_witness_count certificates = certificates_loop 0 [] certificates

unfoldable pub stake_count : Bytes → ℕ
stake_count [] = 0
stake_count (c ∷ address) = 1

unfoldable pub withdrawal_witness_count : TxWithdrawalDataPolicyScript → ℕ
withdrawal_witness_count data' = script_count (stake_count data'.stake_address) data'.policy_script
