-- ===== src/Wallet/TxBuilder/CommandLine.antt =====
-- The whole command line of `buildRawTx`.
use cardano_infrastructure.Base.{
  ℕ, ◌≡◌, refl, sym, ◌∙◌, ap, List, [], ◌∷◌, ◌++◌, append-nil, map, Bytes, ascii, bytes_eq, ok,
  drop,
}
use cardano_infrastructure.Wallet.Texts.{format_uint}
use cardano_infrastructure.Wallet.CommandHelper.{Os}
use cardano_infrastructure.Wallet.TxBuilder.{TxBuilder}
use cardano_infrastructure.Wallet.TxBuilder.Apply.{first_args, build_raw_args}
use cardano_infrastructure.Wallet.TxBuilder.Flags.{values_of, tagged, Adds}
use cardano_infrastructure.Wallet.TxBuilder.Arguments.{
  IsForeign, input_strings, output_strings, build_raw_args-Adds,
}
use cardano_infrastructure.Wallet.TxBuilder.Spelling.{
  spelled_input, spelled_output, inputs_spelled, outputs_spelled,
}

-- The arguments behind the three words of the command.
abbrev pub flags_of : List Bytes → List Bytes
flags_of args = drop 3 args

pub record SaysTx (b : TxBuilder) (fee : ℕ) (args : List Bytes) : Type 0 where
  pub inputs : values_of (ascii "--tx-in") (flags_of args) ≡ map spelled_input b.inputs
  pub outputs : values_of (ascii "--tx-out") (flags_of args) ≡ map spelled_output b.outputs
  pub fee_is : values_of (ascii "--fee") (flags_of args) ≡ format_uint fee ∷ []
  pub time_to_live :
      values_of (ascii "--invalid-hereafter") (flags_of args) ≡ format_uint b.time_to_live ∷ []

values_of-Adds :
    (key : Bytes) (vs args args' : List Bytes) (v : Adds key vs args args')
    → values_of key v.more ≡ vs
unfolding values_of
values_of-Adds key vs args args' v =
    ap (values_of key) (sym (append-nil v.more)) ∙ v.values_are [] ∙ append-nil vs

module _ {W : Type 0} (os : Os W) (b : TxBuilder) (path : Bytes) (fee : ℕ) (args : List Bytes)
    (w w' : W) (h : build_raw_args os b path fee w ≡ (ok args, w')) where
  -- The values behind a flag that is no file's: those of the first arguments, then those added.
  values_split :
      (key : Bytes)
      → IsForeign key
      → (more : List Bytes) × (values_of key (flags_of args)
          ≡ values_of key (flags_of (first_args b path fee ++ more)))
        × (values_of key more
            ≡ tagged (ascii "--tx-in") key (input_strings b.inputs)
              ++ tagged (ascii "--tx-out") key (output_strings b.outputs))
  values_split key f =
      let v = build_raw_args-Adds os key b path fee args w w' f h in
      (
        v.more,
        ap (λ a. values_of key (flags_of a)) v.continues,
        values_of-Adds key _ (first_args b path fee) args v,
      )

  inputs_said : values_of (ascii "--tx-in") (flags_of args) ≡ input_strings b.inputs
  unfolding values_of first_args bytes_eq
  inputs_said =
      let (more, e, k) = values_split (ascii "--tx-in") (record {
        metadata = refl;
        certificate = refl;
        certificate_script = refl;
        withdrawal = refl;
        withdrawal_script = refl;
        mint = refl;
        minting_script = refl;
        input_script = refl;
      }) in
      e ∙ k ∙ append-nil (input_strings b.inputs)

  outputs_said : values_of (ascii "--tx-out") (flags_of args) ≡ output_strings b.outputs
  unfolding values_of first_args bytes_eq
  outputs_said =
      let (more, e, k) = values_split (ascii "--tx-out") (record {
        metadata = refl;
        certificate = refl;
        certificate_script = refl;
        withdrawal = refl;
        withdrawal_script = refl;
        mint = refl;
        minting_script = refl;
        input_script = refl;
      }) in
      e ∙ k

  fee_said : values_of (ascii "--fee") (flags_of args) ≡ format_uint fee ∷ []
  unfolding values_of first_args bytes_eq
  fee_said =
      let (more, e, k) = values_split (ascii "--fee") (record {
        metadata = refl;
        certificate = refl;
        certificate_script = refl;
        withdrawal = refl;
        withdrawal_script = refl;
        mint = refl;
        minting_script = refl;
        input_script = refl;
      }) in
      e ∙ ap (λ vs. format_uint fee ∷ vs) k

  time_to_live_said :
      values_of (ascii "--invalid-hereafter") (flags_of args) ≡ format_uint b.time_to_live ∷ []
  unfolding values_of first_args bytes_eq
  time_to_live_said =
      let (more, e, k) = values_split (ascii "--invalid-hereafter") (record {
        metadata = refl;
        certificate = refl;
        certificate_script = refl;
        withdrawal = refl;
        withdrawal_script = refl;
        mint = refl;
        minting_script = refl;
        input_script = refl;
      }) in
      e ∙ ap (λ vs. format_uint b.time_to_live ∷ vs) k

-- If `buildRawTx` reaches the run of the command, whatever files it has written, then the command line
-- names exactly the inputs and the outputs of the builder, in their order, an input by its hash and index,
-- an output by its address, its amount and all its tokens, and names once the fee that it was called with
-- and once the builder's time to live.
pub build_raw_args-SaysTx :
    {W : Type 0} (os : Os W) (b : TxBuilder) (path : Bytes) (fee : ℕ) (args : List Bytes) (w w' : W)
    → build_raw_args os b path fee w ≡ (ok args, w')
    → SaysTx b fee args
build_raw_args-SaysTx os b path fee args w w' h = record {
  inputs = inputs_said os b path fee args w w' h ∙ inputs_spelled b.inputs;
  outputs = outputs_said os b path fee args w w' h ∙ outputs_spelled b.outputs;
  fee_is = fee_said os b path fee args w w' h;
  time_to_live = time_to_live_said os b path fee args w w' h;
}
