-- ===== src/Wallet/Address/Tests.antt =====
-- Addresses of wallet/address.go, and their theorems at them.
use cardano_infrastructure.Base.{
  ◌≡◌, refl, false, true, some, none, [], ◌∷◌, ◌++◌, arith, replicate,
}
use cardano_infrastructure.Wallet.Address.Pointer.{
  StakePointer, variable_loop, variable_encode, get_stake_pointer,
}
use cardano_infrastructure.Wallet.Address.Pointer.RoundTrip.{get_stake_pointer-variable_encode}
use cardano_infrastructure.Wallet.Address.{
  Byron, CardanoAddressPayload, CardanoAddressInfo, info_of_type, pointer_address,
}
use cardano_infrastructure.Wallet.Address.RoundTrip.{
  IsInfo, pointer, ReadsBack, get_info-to_cardano_address,
}

abbrev stake_pointer : StakePointer
stake_pointer = record { slot = 2498243; tx_index = 27; cert_index = 3 }

-- The pointer of the example in CIP-19.
pointer_bytes : variable_encode 2498243 ≡ 129 ∷ 152 ∷ 189 ∷ 67 ∷ []
unfolding variable_encode variable_loop
pointer_bytes = refl

get_stake_pointer-variable_encode_example :
    get_stake_pointer (variable_encode 2498243 ++ (variable_encode 27 ++ variable_encode 3))
    ≡ some stake_pointer
get_stake_pointer-variable_encode_example =
    get_stake_pointer-variable_encode stake_pointer (omega arith) (omega arith) (omega arith)

-- Nothing is an address of Byron.
abbrev no_byron : Byron
no_byron = record {
  unmarshal_raw = λ bytes. (record { tag_number = 0; tag_content = none; checksum = 0 }, false);
  checksum_ieee = λ bytes. 0;
  unmarshal_byron = λ bytes. none;
}

abbrev script : CardanoAddressPayload
script = record { payload = replicate 28 7; is_script = true }

abbrev parts : CardanoAddressInfo
parts = record (info_of_type pointer_address) {
  network = 1;
  payment = some script;
  stake_pointer = some stake_pointer;
}

parts-IsInfo : IsInfo parts
parts-IsInfo =
    pointer 1 script stake_pointer (omega arith) refl (omega arith) (omega arith) (omega arith)

get_info-to_cardano_address_example : ReadsBack no_byron parts
get_info-to_cardano_address_example = get_info-to_cardano_address no_byron parts parts-IsInfo
