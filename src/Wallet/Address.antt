-- ===== src/Wallet/Address.antt =====
-- wallet/address.go and wallet/address_types.go: the formats of addresses, less the texts of bech32 and
-- base58. A byte is a number below 256, an array `[KeyHashSize]byte` a list of 28 bytes; the disjoint
-- bits that the source joins with `|` are added. `none` is a panic: a nil pointer, or a slice out of
-- bounds, none of them with spare capacity.
pub mod Pointer
pub mod RoundTrip
mod Tests
use cardano_infrastructure.Base.{
  ℕ, ◌+◌, ◌*◌, ◌/◌, ◌%◌, Bool, true, false, ◌&&◌, ◌||◌, not, Option, none, some, List, [], ◌∷◌,
  ◌++◌, Bytes, Result, ok, err, ◌>>=◌, ltb, leb, ◌==◌, if◌then◌else◌, length, take, drop,
}
use cardano_infrastructure.Indexer.Data.{uint}
use cardano_infrastructure.Wallet.Address.Pointer.{StakePointer, variable_encode, get_stake_pointer}

abbrev pub key_hash_size : ℕ
key_hash_size = 28

abbrev pub main_net_network : ℕ
main_net_network = 1

abbrev pub test_net_network : ℕ
test_net_network = 0

abbrev pub test_net_protocol_magic : ℕ
test_net_protocol_magic = 1097911063

-- Every error of the package here wraps `ErrInvalidAddressData`, but that of the hash function.
pub data AddressError : Type 0 where
  invalid_address_data : AddressError
  no_key_hash : AddressError

pub data CardanoAddressType : Type 0 where
  unsupported_address : CardanoAddressType
  byron_address : CardanoAddressType
  base_address : CardanoAddressType
  pointer_address : CardanoAddressType
  enterprise_address : CardanoAddressType
  reward_address : CardanoAddressType

pub record CardanoAddressPayload : Type 0 where
  pub payload : Bytes
  pub is_script : Bool

pub record CardanoAddressInfo : Type 0 where
  pub address_type : CardanoAddressType
  pub network : ℕ
  pub payment : Option CardanoAddressPayload
  pub stake : Option CardanoAddressPayload
  pub stake_pointer : Option StakePointer
  pub extra : Bytes

-- The zero value of Go, but for the type.
abbrev pub info_of_type : CardanoAddressType → CardanoAddressInfo
info_of_type t = record {
  address_type = t;
  network = 0;
  payment = none;
  stake = none;
  stake_pointer = none;
  extra = [];
}

pub data CardanoAddressParser : Type 0 where
  base_parser : CardanoAddressParser
  pointer_parser : CardanoAddressParser
  enterprise_parser : CardanoAddressParser
  reward_parser : CardanoAddressParser
  byron_parser : CardanoAddressParser

-- The parser of `addressParsers` whose `GetAddressType` is the type.
unfoldable pub get_address_parser : CardanoAddressType → Result AddressError CardanoAddressParser
get_address_parser unsupported_address = err invalid_address_data
get_address_parser byron_address = ok byron_parser
get_address_parser base_address = ok base_parser
get_address_parser pointer_address = ok pointer_parser
get_address_parser enterprise_address = ok enterprise_parser
get_address_parser reward_address = ok reward_parser

unfoldable pub get_address_type_from_header : ℕ → CardanoAddressType
get_address_type_from_header header =
    let kind = header / 16 % 16 in
    if kind == 8
    then byron_address
    else if leb kind 3
    then base_address
    else if kind == 4 || kind == 5
    then pointer_address
    else if kind == 6 || kind == 7
    then enterprise_address
    else if kind == 14 || kind == 15
    then reward_address
    else unsupported_address

unfoldable pub to_byte : Bool → ℕ
to_byte false = 0
to_byte true = 1

-- The payload that `data` starts with; `bit` is 1 or 2, for `header&1` or `header&2`.
abbrev pub payload_of : ℕ → ℕ → Bytes → CardanoAddressPayload
payload_of header bit data_ = record {
  payload = take key_hash_size data_;
  is_script = header / 16 / bit % 2 == 1;
}

-- `FromCardanoAddressInfo` of each parser.
unfoldable pub base_bytes : CardanoAddressInfo → Option Bytes
unfolding to_byte
base_bytes a = elim a.payment [
  | none ↦ none
  | some p ↦ elim a.stake [
    | none ↦ none
    | some s ↦ some (
        (to_byte p.is_script * 16 + to_byte s.is_script * 32 + a.network % 16)
        ∷ (p.payload ++ (s.payload ++ a.extra)))
  ]
]

unfoldable pub pointer_bytes : CardanoAddressInfo → Option Bytes
unfolding to_byte variable_encode
pointer_bytes a = elim a.payment [
  | none ↦ none
  | some p ↦ elim a.stake_pointer [
    | none ↦ none
    | some sp ↦ some (
        (64 + to_byte p.is_script * 16 + a.network % 16)
        ∷ (p.payload
            ++ ((variable_encode sp.slot
                  ++ (variable_encode sp.tx_index ++ variable_encode sp.cert_index))
                ++ a.extra)))
  ]
]

unfoldable pub enterprise_bytes : CardanoAddressInfo → Option Bytes
unfolding to_byte
enterprise_bytes a = elim a.payment [
  | none ↦ none
  | some p ↦ some ((96 + to_byte p.is_script * 16 + a.network % 16) ∷ (p.payload ++ a.extra))
]

unfoldable pub reward_bytes : CardanoAddressInfo → Option Bytes
unfolding to_byte
reward_bytes a = elim a.stake [
  | none ↦ none
  | some s ↦ some ((224 + to_byte s.is_script * 16 + a.network % 16) ∷ (s.payload ++ a.extra))
]

unfoldable pub from_cardano_address_info : CardanoAddressParser → CardanoAddressInfo → Option Bytes
unfolding base_bytes pointer_bytes enterprise_bytes reward_bytes
from_cardano_address_info base_parser a = base_bytes a
from_cardano_address_info pointer_parser a = pointer_bytes a
from_cardano_address_info enterprise_parser a = enterprise_bytes a
from_cardano_address_info reward_parser a = reward_bytes a
from_cardano_address_info byron_parser a = some a.extra

-- `IsValid` and `ToCardanoAddressInfo` of the parsers but Byron's.
unfoldable pub base_is_valid : Bytes → Result AddressError (Unit {0})
base_is_valid bytes =
    if ltb (length bytes) (1 + key_hash_size * 2) then err invalid_address_data else ok tt

unfoldable pub pointer_is_valid : Bytes → Result AddressError (Unit {0})
pointer_is_valid bytes =
    if ltb (length bytes) (1 + key_hash_size + 1 + 1 + 1)
    then err invalid_address_data
    else elim (get_stake_pointer (drop (1 + key_hash_size) bytes)) [
      | none ↦ err invalid_address_data
      | some pointer ↦ ok tt
    ]

unfoldable pub enterprise_is_valid : Bytes → Result AddressError (Unit {0})
enterprise_is_valid bytes =
    if not (length bytes == key_hash_size + 1) then err invalid_address_data else ok tt

unfoldable pub reward_is_valid : Bytes → Result AddressError (Unit {0})
reward_is_valid bytes =
    if not (length bytes == key_hash_size + 1) then err invalid_address_data else ok tt

unfoldable pub base_info : Bytes → Option CardanoAddressInfo
base_info [] = none
base_info (header ∷ bytes) =
    if ltb (length bytes) (key_hash_size * 2)
    then none
    else some (record (info_of_type base_address) {
      network = header % 16;
      payment = some (payload_of header 1 bytes);
      stake = some (payload_of header 2 (drop key_hash_size bytes));
      extra = drop (2 * key_hash_size) bytes;
    })

unfoldable pub pointer_info : Bytes → Option CardanoAddressInfo
pointer_info [] = none
pointer_info (header ∷ bytes) =
    if ltb (length bytes) key_hash_size
    then none
    else some (record (info_of_type pointer_address) {
      network = header % 16;
      payment = some (payload_of header 1 bytes);
      stake_pointer = get_stake_pointer (drop key_hash_size bytes);
    })

unfoldable pub enterprise_info : Bytes → Option CardanoAddressInfo
enterprise_info [] = none
enterprise_info (header ∷ bytes) =
    if ltb (length bytes) key_hash_size
    then none
    else some (record (info_of_type enterprise_address) {
      network = header % 16;
      payment = some (payload_of header 1 bytes);
      extra = drop key_hash_size bytes;
    })

unfoldable pub reward_info : Bytes → Option CardanoAddressInfo
reward_info [] = none
reward_info (header ∷ bytes) =
    if ltb (length bytes) key_hash_size
    then none
    else some (record (info_of_type reward_address) {
      network = header % 16;
      stake = some (payload_of header 1 bytes);
      extra = drop key_hash_size bytes;
    })

-- What the Byron parser takes from fxamacker/cbor and hash/crc32. `unmarshal_raw` gives the variable
-- that `cbor.Unmarshal` has filled, as far as it did, and whether it returned no error.
pub record RawAddr : Type 0 where
  pub tag_number : ℕ
  pub tag_content : Option Bytes
  pub checksum : ℕ

pub record ByronAttrs : Type 0 where
  pub hashed : Bytes
  pub network : Bytes

pub record Byron : Type 0 where
  pub unmarshal_raw : Bytes → RawAddr × Bool
  pub checksum_ieee : Bytes → ℕ
  pub unmarshal_byron : Bytes → Option ByronAttrs

-- `binary.BigEndian.Uint32` of the bytes behind the first.
abbrev pub byron_network : Bytes → ℕ
byron_network [] = main_net_network
byron_network (b ∷ bs) =
    if (length (b ∷ bs) == 1 && b == 1)
      || (length (b ∷ bs) == 5 && uint bs == test_net_protocol_magic)
    then test_net_network
    else main_net_network

-- The types of `rawAddr.Tag.Content`.
content_of : Option Bytes → Bytes
content_of none = []
content_of (some tag) = tag

module _ (byron : Byron) where
  is_byron : RawAddr × Bool → Result AddressError (Unit {0})
  is_byron (raw_addr, false) = err invalid_address_data
  is_byron (raw_addr, true) = elim raw_addr.tag_content [
    | none ↦ err invalid_address_data
    | some raw_tag ↦
        if not (raw_addr.tag_number == 24)
        then err invalid_address_data
        else if not (raw_addr.checksum == byron.checksum_ieee raw_tag)
        then err invalid_address_data
        else ok tt
  ]

  -- `IsValid` of each parser.
  unfoldable pub is_valid : CardanoAddressParser → Bytes → Result AddressError (Unit {0})
  unfolding is_byron base_is_valid pointer_is_valid enterprise_is_valid reward_is_valid
  is_valid base_parser bytes = base_is_valid bytes
  is_valid pointer_parser bytes = pointer_is_valid bytes
  is_valid enterprise_parser bytes = enterprise_is_valid bytes
  is_valid reward_parser bytes = reward_is_valid bytes
  is_valid byron_parser bytes = is_byron (byron.unmarshal_raw bytes)

  byron_info : Bytes → Option ByronAttrs → Option CardanoAddressInfo
  byron_info bytes none = some (info_of_type unsupported_address)
  byron_info bytes (some attrs) =
      if ltb (length attrs.hashed) key_hash_size
      then none
      else some (record (info_of_type byron_address) {
        network = byron_network attrs.network;
        payment = some (record { payload = take key_hash_size attrs.hashed; is_script = false });
        extra = bytes;
      })

  -- `ToCardanoAddressInfo` of each parser.
  unfoldable pub to_cardano_address_info : CardanoAddressParser → Bytes → Option CardanoAddressInfo
  unfolding byron_info content_of base_info pointer_info enterprise_info reward_info
  to_cardano_address_info byron_parser bytes =
      byron_info bytes
        (byron.unmarshal_byron (content_of (byron.unmarshal_raw bytes).0.tag_content))
  to_cardano_address_info base_parser bytes = base_info bytes
  to_cardano_address_info pointer_parser bytes = pointer_info bytes
  to_cardano_address_info enterprise_parser bytes = enterprise_info bytes
  to_cardano_address_info reward_parser bytes = reward_info bytes

  -- An address without the cached text.
  pub record CardanoAddress : Type 0 where
    pub raw : Bytes
    pub address_parser : CardanoAddressParser
    pub cached_address_info : CardanoAddressInfo

  unfoldable pub new_cardano_address : Bytes → Result AddressError CardanoAddress
  new_cardano_address [] = err invalid_address_data
  new_cardano_address (header ∷ bytes) = do
    parser ← get_address_parser (get_address_type_from_header header)
    valid ← is_valid parser (header ∷ bytes)
    ok (record {
      raw = header ∷ bytes;
      address_parser = parser;
      cached_address_info = info_of_type unsupported_address;
    })

  cached_info : CardanoAddress → CardanoAddressType → Option (CardanoAddressInfo × CardanoAddress)
  cached_info a unsupported_address = elim (to_cardano_address_info a.address_parser a.raw) [
    | none ↦ none
    | some info ↦ some (info, record a { cached_address_info = info })
  ]
  cached_info a t = some (a.cached_address_info, a)

  -- `GetInfo` reads the bytes once and keeps what it read.
  unfoldable pub get_info : CardanoAddress → Option (CardanoAddressInfo × CardanoAddress)
  unfolding cached_info
  get_info a = cached_info a a.cached_address_info.address_type

  address_of : Option Bytes → Option (Result AddressError CardanoAddress)
  address_of none = none
  address_of (some bytes) = some (new_cardano_address bytes)

  parsed_address :
      CardanoAddressInfo
      → Result AddressError CardanoAddressParser
      → Option (Result AddressError CardanoAddress)
  unfolding address_of
  parsed_address cai (err e) = some (err e)
  parsed_address cai (ok parser) = address_of (from_cardano_address_info parser cai)

  unfoldable pub to_cardano_address :
      CardanoAddressInfo → Option (Result AddressError CardanoAddress)
  unfolding parsed_address
  to_cardano_address cai = parsed_address cai (get_address_parser cai.address_type)

  -- `GetKeyHashBytes`, the hash of golang.org/x/crypto/blake2b, is `key_hash`.
  module _ (key_hash : Bytes → Result AddressError Bytes) where
    key_payload : Bytes → CardanoAddressPayload
    key_payload hash = record { payload = take key_hash_size hash; is_script = false }

    stake_base : ℕ → Bytes → Result AddressError Bytes → Option (Result AddressError CardanoAddress)
    unfolding key_payload
    stake_base network payment_hash (err e) = some (err e)
    stake_base network payment_hash (ok stake_hash) =
        to_cardano_address (record (info_of_type base_address) {
          network = network;
          payment = some (key_payload payment_hash);
          stake = some (key_payload stake_hash);
        })

    payment_base :
        ℕ → Result AddressError Bytes → Bytes → Option (Result AddressError CardanoAddress)
    unfolding stake_base
    payment_base network (err e) stake_verification_key = some (err e)
    payment_base network (ok payment_hash) stake_verification_key =
        stake_base network payment_hash (key_hash stake_verification_key)

    pub new_base_address : ℕ → Bytes → Bytes → Option (Result AddressError CardanoAddress)
    unfolding payment_base
    new_base_address network payment_verification_key stake_verification_key =
        payment_base network (key_hash payment_verification_key) stake_verification_key

    payment_enterprise : ℕ → Result AddressError Bytes → Option (Result AddressError CardanoAddress)
    unfolding key_payload
    payment_enterprise network (err e) = some (err e)
    payment_enterprise network (ok payment_hash) =
        to_cardano_address (record (info_of_type enterprise_address) {
          network = network;
          payment = some (key_payload payment_hash);
        })

    pub new_enterprise_address : ℕ → Bytes → Option (Result AddressError CardanoAddress)
    unfolding payment_enterprise
    new_enterprise_address network verification_key =
        payment_enterprise network (key_hash verification_key)

    stake_reward : ℕ → Result AddressError Bytes → Option (Result AddressError CardanoAddress)
    unfolding key_payload
    stake_reward network (err e) = some (err e)
    stake_reward network (ok stake_hash) =
        to_cardano_address (record (info_of_type reward_address) {
          network = network;
          stake = some (key_payload stake_hash);
        })

    pub new_reward_address : ℕ → Bytes → Option (Result AddressError CardanoAddress)
    unfolding stake_reward
    new_reward_address network verification_key = stake_reward network (key_hash verification_key)
