-- ===== src/Wallet/TxBuilder/Tests.antt =====
-- Runs of the builder in a world in which every call succeeds.
use cardano_infrastructure.Base.{
  ℕ, ◌+◌, ◌≡◌, refl, none, some, List, [], ◌∷◌, Bytes, ascii, ok, err, here, there, ◌⊎◌, length,
}
use cardano_infrastructure.Wallet.TxInputs.{TxInput}
use cardano_infrastructure.Wallet.SumMaps.{TxOutput}
use cardano_infrastructure.Wallet.CommandHelper.{
  Os, returned, protocol_parameters_not_set, amounts_not_specified, write_serializable_to_file,
}
use cardano_infrastructure.Wallet.TxBuilder.{
  IPolicyScript, TxBuilder, with_script, negsuc, add_outputs, remove_output, update_output_amount,
}
use cardano_infrastructure.Wallet.TxBuilder.Apply.{
  build_raw_args, apply_metadata, apply_certificates, apply_withdrawal, apply_withdrawal_of,
  apply_mints, apply_mint_tokens, apply_inputs, apply_input, apply_script,
}
use cardano_infrastructure.Wallet.TxBuilder.CommandLine.{SaysTx, build_raw_args-SaysTx}
use cardano_infrastructure.Wallet.TxBuilder.Outputs.{
  remove_output-add_outputs, update_output_amount-add_outputs,
}
use cardano_infrastructure.Wallet.TxBuilder.Refusals.{Named, build_refused}
use cardano_infrastructure.Wallet.TxBuilder.Run.{Codec, build, pad_key_to_size}
use cardano_infrastructure.Wallet.TxBuilder.KeySizes.{length-pad_key_to_size}

abbrev pub quiet : Os (Unit {0})
quiet = record {
  write_file = λ path bytes. returned tt;
  read_file = λ path. returned [];
  mkdir_temp = λ name. returned name;
  remove_all = λ path w. w;
  exec = λ binary args w. (record { std_out = []; std_err = []; failure = none }, w);
}

abbrev pub plain : Codec
plain = record {
  fee_of = λ text. none;
  tx_hash_of = λ text. none;
  cbor_hex = λ text. some text;
  envelope = λ type desc hex. ok hex;
  key_json = λ type desc hex. ok hex;
  cbor_bytes = λ bytes. ok bytes;
}

abbrev coin : TxInput
coin = record { hash = ascii "aa"; index = 1 }

abbrev two_of_three : IPolicyScript
two_of_three = record { pointer = 1; bytes_json = ok (ascii "{}"); count = 3 }

abbrev output : ℕ → TxOutput
output amount = record {
  addr = ascii "addr1";
  amount = amount;
  tokens = record { policy_id = ascii "ab"; name = ascii "g"; amount = 2 } ∷ [];
}

abbrev builder : ℕ → TxBuilder
builder amount = record {
  base_directory = ascii "/tmp";
  inputs = with_script (some two_of_three) coin ∷ [];
  outputs = output amount ∷ [];
  mints = record { tokens = []; policy_scripts = [] };
  certificates = [];
  metadata = some (ascii "{}");
  protocol_parameters = some (ascii "{}");
  time_to_live = 7;
  test_net_magic = 0;
  fee = 3;
  withdrawal_data = record { stake_address = []; reward_amount = 0; policy_script = none };
  era = ascii "latest";
  real_era_name = ascii "Conway";
  cardano_cli_binary = ascii "cardano-cli";
}

args_of : List Bytes
unfolding build_raw_args
args_of = elim (build_raw_args quiet (builder 5) (ascii "/tmp/pp") 3 tt).0 [
  | ok args ↦ args
  | err e ↦ []
]

args_built : build_raw_args quiet (builder 5) (ascii "/tmp/pp") 3 tt ≡ (ok args_of, tt)
unfolding args_of build_raw_args apply_metadata apply_certificates apply_withdrawal
    apply_withdrawal_of apply_mints apply_mint_tokens apply_inputs apply_input apply_script
    write_serializable_to_file
args_built = refl

build_raw_args-SaysTx_example : SaysTx (builder 5) 3 args_of
build_raw_args-SaysTx_example =
    build_raw_args-SaysTx quiet (builder 5) (ascii "/tmp/pp") 3 args_of tt tt args_built

-- A world that counts the files written and the commands run.
abbrev counting : Os ℕ
counting = record {
  write_file = λ path bytes n. (ok tt, n + 1);
  read_file = λ path n. (ok [], n);
  mkdir_temp = λ name n. (ok name, n + 1);
  remove_all = λ path n. n + 1;
  exec = λ binary args n. (record { std_out = []; std_err = []; failure = none }, n + 1);
}

-- The second of two outputs has no amount.
abbrev lacking : TxBuilder
lacking = record (builder 5) { outputs = output 5 ∷ output 0 ∷ [] }

build_refused_example :
    ((lacking.protocol_parameters ≡ none)
      × (build plain counting lacking 4 ≡ (err protocol_parameters_not_set, 4)))
    ⊎ ((errs : List (Bytes × ℕ)) × (Named (output 0) lacking.outputs 0 errs)
        × (build plain counting lacking 4 ≡ (err (amounts_not_specified errs), 4)))
build_refused_example = build_refused plain counting lacking (output 0) 4 (there (here refl)) refl

remove_output-add_outputs_example :
    remove_output (negsuc 0) (add_outputs (output 9 ∷ []) (builder 5)) ≡ some (builder 5)
remove_output-add_outputs_example = remove_output-add_outputs (builder 5) (output 9)

update_output_amount-add_outputs_example :
    update_output_amount (negsuc 0) 4 [] (add_outputs (output 9 ∷ []) (builder 5))
    ≡ some (add_outputs (output 4 ∷ []) (builder 5))
update_output_amount-add_outputs_example = update_output_amount-add_outputs (builder 5) (output 9) 4

length-pad_key_to_size_example :
    (length (pad_key_to_size (ascii "key")) ≡ 32) ⊎ (length (pad_key_to_size (ascii "key")) ≡ 128)
length-pad_key_to_size_example = length-pad_key_to_size (ascii "key")
