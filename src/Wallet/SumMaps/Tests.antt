-- ===== src/Wallet/SumMaps/Tests.antt =====
-- Runs of the sums of wallet/transaction_extended.go.
use cardano_infrastructure.Base.{
  ◌+◌, ◌-◌, ◌%◌, ◌^◌, ◌≡◌, refl, inl, inr, [], ◌∷◌, ok, bytes_eq, arith, ascii, Bytes,
}
use cardano_infrastructure.Wallet.Data.{
  SumMap, sum_at, first_amount, ada_token_name, token_name, encode_to_string, hex_digit,
}
use cardano_infrastructure.Wallet.Tokens.{
  Token, token_string, new_token_with_full_name, split, in_first, token_of_parts, decode_string,
  decoded_byte, hex_value,
}
use cardano_infrastructure.Wallet.SumMaps.{
  TxOutput, new_token_amount, find_sum, subtract_sum_maps, add_sum_maps, change_token, change_loop,
  create_tx_output_change,
}
use cardano_infrastructure.Wallet.SumMaps.Laws.{
  IsMap, sum_at-subtract_sum_maps, sum_at-add_sum_maps,
}
use cardano_infrastructure.Wallet.SumMaps.Rounds.{IsTokenName, NamesTokens}
use cardano_infrastructure.Wallet.SumMaps.Change.{
  NoRepeat, IsChange, create_tx_output_change-IsChange,
}

abbrev gold : Token
gold = record { policy_id = ascii "ab"; name = ascii "g" }

abbrev gold_name : Bytes
gold_name = ascii "ab.67"

abbrev total : SumMap
total = (ada_token_name, 50) ∷ (gold_name, 9) ∷ []

abbrev outputs : SumMap
outputs = (ada_token_name, 20) ∷ (gold_name, 4) ∷ []

abbrev base : TxOutput
base = record { addr = ascii "a"; amount = 10; tokens = new_token_amount gold 1 ∷ [] }

abbrev change : TxOutput
change = record { addr = ascii "a"; amount = 40; tokens = new_token_amount gold 6 ∷ [] }

total-IsMap : IsMap total
unfolding IsMap find_sum bytes_eq
total-IsMap = (refl, (refl, tt))

outputs-IsMap : IsMap outputs
unfolding IsMap find_sum bytes_eq
outputs-IsMap = (refl, (refl, tt))

gold-IsTokenName : IsTokenName gold_name
unfolding token_string encode_to_string hex_digit
gold-IsTokenName = record {
  token = gold;
  no_dot = (refl, (refl, tt));
  in_bytes = (omega arith, tt);
  is_name = refl;
}

total-NamesTokens : NamesTokens total
unfolding NamesTokens
total-NamesTokens = (inl refl, (inr gold-IsTokenName, tt))

changing : create_tx_output_change base total outputs ≡ ok change
unfolding create_tx_output_change change_loop change_token sum_at first_amount bytes_eq token_name
    encode_to_string hex_digit new_token_with_full_name split in_first token_of_parts decode_string
    decoded_byte hex_value
changing = refl

base-NoRepeat : NoRepeat base.tokens
unfolding NoRepeat
base-NoRepeat = (tt, tt)

-- Of a token that is twice in the base output only the first amount counts.
changing_repeated :
    create_tx_output_change
      (record base { tokens = new_token_amount gold 1 ∷ new_token_amount gold 2 ∷ [] })
      total
      outputs
    ≡ ok change
unfolding create_tx_output_change change_loop change_token sum_at first_amount bytes_eq token_name
    encode_to_string hex_digit new_token_with_full_name split in_first token_of_parts decode_string
    decoded_byte hex_value
changing_repeated = refl

create_tx_output_change-IsChange_example : IsChange base total outputs change
create_tx_output_change-IsChange_example =
    create_tx_output_change-IsChange base total outputs change base-NoRepeat total-NamesTokens
      total-IsMap changing

sum_at-subtract_sum_maps_example :
    sum_at (subtract_sum_maps total outputs) gold_name
    ≡ sum_at total gold_name - sum_at outputs gold_name
sum_at-subtract_sum_maps_example = sum_at-subtract_sum_maps total outputs gold_name total-IsMap

gold_small : sum_at total gold_name ≡ 9
unfolding sum_at bytes_eq
gold_small = refl

sum_at-add_sum_maps_example :
    sum_at (add_sum_maps total outputs) gold_name
    ≡ (sum_at total gold_name + sum_at outputs gold_name) % 2 ^ 64
sum_at-add_sum_maps_example =
    sum_at-add_sum_maps total outputs gold_name (omega (arith, gold_small)) outputs-IsMap
