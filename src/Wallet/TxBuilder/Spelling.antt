-- ===== src/Wallet/TxBuilder/Spelling.antt =====
-- How the texts of inputs and outputs in wallet/transaction.go are put together from their parts.
use cardano_infrastructure.Base.{
  ◌≡◌, refl, ◌∙◌, ap, ap₂, List, [], ◌∷◌, ◌++◌, map, append-nil, Bytes, ascii,
}
use cardano_infrastructure.Wallet.Data.{TokenAmount, encode_to_string}
use cardano_infrastructure.Wallet.SumMaps.{TxOutput}
use cardano_infrastructure.Wallet.Texts.{format_uint}
use cardano_infrastructure.Wallet.TxBuilder.{
  TxInputWithPolicyScript, tx_input_string, token_amount_string, plus_tokens, tx_output_string,
}
use cardano_infrastructure.Wallet.TxBuilder.Arguments.{input_strings, output_strings}

-- Words with a text between each two of them.
unfoldable pub joined : Bytes → List Bytes → Bytes
joined between [] = []
joined between (word ∷ []) = word
joined between (word ∷ next ∷ words) = word ++ (between ++ joined between (next ∷ words))

-- `hash#index`.
abbrev pub spelled_input : TxInputWithPolicyScript → Bytes
spelled_input input =
    joined (ascii "#") (input.tx_input.hash ∷ format_uint input.tx_input.index ∷ [])

-- `amount policy.name`, the name in hexadecimal digits.
abbrev pub spelled_token : TokenAmount → Bytes
spelled_token token = joined (ascii " ") (
    format_uint token.amount
    ∷ joined (ascii ".") (token.policy_id ∷ encode_to_string token.name ∷ [])
    ∷ [])

-- `address+amount`, and every token behind a further `+`.
abbrev pub spelled_output : TxOutput → Bytes
spelled_output output =
    joined (ascii "+") (output.addr ∷ format_uint output.amount ∷ map spelled_token output.tokens)

token_spelled : (token : TokenAmount) → token_amount_string token ≡ spelled_token token
unfolding token_amount_string joined
token_spelled token = refl

tokens_spelled :
    (word : Bytes) (tokens : List TokenAmount)
    → word ++ plus_tokens tokens ≡ joined (ascii "+") (word ∷ map spelled_token tokens)
unfolding plus_tokens joined
tokens_spelled word [] = append-nil word
tokens_spelled word (token ∷ tokens) =
    ap (λ s. word ++ (ascii "+" ++ s))
      (ap (λ s. s ++ plus_tokens tokens) (token_spelled token)
        ∙ tokens_spelled (spelled_token token) tokens)

output_spelled : (output : TxOutput) → tx_output_string output ≡ spelled_output output
unfolding tx_output_string joined
output_spelled output =
    ap (λ s. output.addr ++ (ascii "+" ++ s))
      (tokens_spelled (format_uint output.amount) output.tokens)

input_spelled :
    (input : TxInputWithPolicyScript) → tx_input_string input.tx_input ≡ spelled_input input
unfolding tx_input_string joined
input_spelled input = refl

pub inputs_spelled :
    (inputs : List TxInputWithPolicyScript) → input_strings inputs ≡ map spelled_input inputs
inputs_spelled [] = refl
inputs_spelled (input ∷ inputs) = ap₂ ◌∷◌ (input_spelled input) (inputs_spelled inputs)

pub outputs_spelled :
    (outputs : List TxOutput) → output_strings outputs ≡ map spelled_output outputs
outputs_spelled [] = refl
outputs_spelled (output ∷ outputs) = ap₂ ◌∷◌ (output_spelled output) (outputs_spelled outputs)
