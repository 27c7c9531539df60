-- ===== src/Wallet/Tests.antt =====
-- A network and a token of wallet, and the theorems at them.
use cardano_infrastructure.Base.{◌≡◌, ◌↔◌, ◌⊎◌, refl, true, [], ◌∷◌, ascii, some, arith}
use cardano_infrastructure.Wallet.Network.{
  get_prefix, get_stake_prefix, is_address_with_valid_prefix,
}
use cardano_infrastructure.Wallet.Network.Prefixes.{Begins, prefix_is_valid}
use cardano_infrastructure.Wallet.Tokens.{Token, token_string, new_token_with_full_name}
use cardano_infrastructure.Wallet.Tokens.FullName.{new_token_with_full_name-token_string}

prefix_is_valid_example :
    ((is_address_with_valid_prefix (ascii "stake_test1v") ≡ true) ↔ (
      Begins (ascii "stake_test1v") (get_prefix 1)
      ⊎ Begins (ascii "stake_test1v") (get_stake_prefix 1)))
    × ((Begins (ascii "stake_test1v") (get_prefix 0)
          ⊎ Begins (ascii "stake_test1v") (get_stake_prefix 0))
        → is_address_with_valid_prefix (ascii "stake_test1v") ≡ true)
prefix_is_valid_example = prefix_is_valid (ascii "stake_test1v")

abbrev token : Token
token = record { policy_id = ascii "29f8"; name = 46 ∷ 255 ∷ [] }

new_token_with_full_name-token_string_example :
    new_token_with_full_name (token_string token) true ≡ some token
new_token_with_full_name-token_string_example =
    new_token_with_full_name-token_string token (refl, (refl, (refl, (refl, tt))))
      (omega arith, (omega arith, tt))
