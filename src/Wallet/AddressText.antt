-- ===== src/Wallet/AddressText.antt =====
-- `NewCardanoAddressFromString` of wallet/address.go. The base58 of gouroboros and wallet/bech32, a copy of
-- another library, are parameters.
use cardano_infrastructure.Base.{
  Bool, true, false, Option, none, some, [], ◌∷◌, Bytes, Result, err, if◌then◌else◌,
}
use cardano_infrastructure.Wallet.Network.{is_address_with_valid_prefix}
use cardano_infrastructure.Wallet.Address.{
  AddressError, invalid_address_data, CardanoAddressType, byron_address, Byron, CardanoAddress,
  get_address_type_from_header, new_cardano_address,
}

pub record TextCodec : Type 0 where
  pub base58_decode : Bytes → Bytes
  pub decode_to_base256 : Bytes → Option Bytes

unfoldable pub is_byron_type : CardanoAddressType → Bool
is_byron_type byron_address = true
is_byron_type _ = false

module _ (codec : TextCodec) (byron : Byron) where
  unfoldable pub from_base58 : Bytes → Result AddressError (CardanoAddress byron)
  unfolding is_byron_type
  from_base58 [] = err invalid_address_data
  from_base58 (header ∷ data') =
      let address = new_cardano_address byron (header ∷ data') in
      if is_byron_type (get_address_type_from_header header)
      then address
      else err invalid_address_data

  unfoldable pub from_bech32 : Option Bytes → Result AddressError (CardanoAddress byron)
  from_bech32 none = err invalid_address_data
  from_bech32 (some data') = new_cardano_address byron data'

  -- The text that the code keeps for `String` is left out.
  unfoldable pub new_cardano_address_from_string :
      Bytes → Result AddressError (CardanoAddress byron)
  unfolding from_base58 from_bech32
  new_cardano_address_from_string raw =
      let base58 = from_base58 (codec.base58_decode raw) in
      let bech32 = from_bech32 (codec.decode_to_base256 raw) in
      if is_address_with_valid_prefix raw then bech32 else base58
