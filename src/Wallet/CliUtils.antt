-- ===== src/Wallet/CliUtils.antt =====
-- wallet/cli_utils.go: addresses, hashes and certificates that cardano-cli computes.
mod Tests
use cardano_infrastructure.Base.{
  ℕ, ◌+◌, Bool, true, false, Option, none, some, List, [], ◌∷◌, ◌++◌, Bytes, ascii, bytes_eq,
  Result, ok, err, ◌==◌, if◌then◌else◌, length, drop, take,
}
use cardano_infrastructure.Common.Retry.{has_prefix}
use cardano_infrastructure.Wallet.Texts.{format_uint, to_lower, to_upper_byte, trim_newlines}
use cardano_infrastructure.Wallet.CommandHelper.{
  refused, WalletError, unmarshal_error, unknown_era, invalid_address, Io, ◌>>=◌, ◌>>◌, pass_on,
  returned, failed, lifted, Os, run_command, get_test_net_magic_args, join_path, removing,
  write_serializable_to_file,
}
use cardano_infrastructure.Wallet.TxBuilder.{IPolicyScript, TxBuilder}
use cardano_infrastructure.Wallet.TxBuilder.Run.{Codec, get_tx_hash_in}

pub record CliUtils : Type 0 where
  pub cardano_cli_binary : Bytes
  pub era : Bytes

pub record AddressInfo : Type 0 where
  pub address : Bytes
  pub base16 : Bytes
  pub encoding : Bytes
  pub era : Bytes
  pub type : Bytes

pub record Certificate : Type 0 where
  pub type : Bytes
  pub description : Bytes
  pub cbor_hex : Bytes

-- The calls of encoding/json for these two types, and of wallet/bech32 for `getBech32Key`.
pub record CliCodec : Type 0 where
  pub address_info_of : Bytes → Option AddressInfo
  pub certificate_of : Bytes → Option Certificate
  pub get_bech32_key : Bytes → Bytes → Result WalletError Bytes

abbrev pub latest_era : Bytes
latest_era = ascii "latest"

-- The text up to the closing bracket, unless there is none.
unfoldable pub up_to_bracket : Bytes → Option Bytes
up_to_bracket [] = none
up_to_bracket (c ∷ s) =
    let rest = up_to_bracket s in
    if c == 41 then some [] else elim rest [ none ↦ none | some text ↦ some (c ∷ text) ]

-- `([^)]+)` matches no empty text.
unfoldable pub not_empty : Option Bytes → Option Bytes
not_empty none = none
not_empty (some []) = none
not_empty (some (c ∷ s)) = some (c ∷ s)

unfoldable pub era_at : Bytes → Option Bytes
era_at s =
    if has_prefix s (ascii "Latest era commands (")
    then not_empty (up_to_bracket (drop (length (ascii "Latest era commands (")) s))
    else none

unfoldable pub first_some : Option Bytes → Option Bytes → Option Bytes
first_some (some x) other = some x
first_some none other = other

-- The first match of the regular expression.
unfoldable pub find_era : Bytes → Option Bytes
find_era [] = none
find_era (c ∷ s) = first_some (era_at (c ∷ s)) (find_era s)

unfoldable pub era_or_unknown : Option Bytes → Result WalletError Bytes
era_or_unknown none = err unknown_era
era_or_unknown (some name) = ok name

-- An empty era panics.
unfoldable pub capitalized : Bytes → Result WalletError Bytes
capitalized [] = err (refused (ascii "slice out of range"))
capitalized (c ∷ s) = ok (to_upper_byte c ∷ s)

unfoldable pub address_info_or : Option AddressInfo → Result WalletError AddressInfo
address_info_or none = err invalid_address
address_info_or (some info) = ok info

-- The error of a command, joined with `ErrInvalidAddressData`.
unfoldable pub as_invalid_address :
    {W A : Type 0} → Result WalletError A × W → Result WalletError A × W
as_invalid_address (ok a, w) = (ok a, w)
as_invalid_address (err e, w) = (err invalid_address, w)

unfoldable pub certificate_or : Option Certificate → Result WalletError Certificate
certificate_or none = err unmarshal_error
certificate_or (some cert) = ok cert

module _ {W : Type 0} (os : Os W) (cu : CliUtils) where
  unfoldable pub address_build : List Bytes → ℕ → Io W Bytes
  address_build args test_net_magic = do
    response ← run_command os cu.cardano_cli_binary (args ++ get_test_net_magic_args test_net_magic)
    returned (trim_newlines response)

  unfoldable pub base_address_in : ℕ → IPolicyScript → IPolicyScript → Bytes → Io W Bytes
  base_address_in test_net_magic policy_script stake_policy_script base_directory = do
    path ← write_serializable_to_file os policy_script.bytes_json base_directory (ascii "ps.json")
    stake_path ←
        write_serializable_to_file os stake_policy_script.bytes_json base_directory
          (ascii "stake-ps.json")
    address_build
        (cu.era
          ∷ ascii "address"
          ∷ ascii "build"
          ∷ ascii "--payment-script-file"
          ∷ path
          ∷ ascii "--stake-script-file"
          ∷ stake_path
          ∷ [])
        test_net_magic

  unfoldable pub get_policy_script_base_address : ℕ → IPolicyScript → IPolicyScript → Io W Bytes
  get_policy_script_base_address test_net_magic policy_script stake_policy_script = do
    base_directory ← os.mkdir_temp (ascii "ps-multisig-addr")
    removing os base_directory
        (base_address_in test_net_magic policy_script stake_policy_script base_directory)

  unfoldable pub enterprise_address_in : ℕ → IPolicyScript → Bytes → Io W Bytes
  enterprise_address_in test_net_magic policy_script base_directory = do
    path ← write_serializable_to_file os policy_script.bytes_json base_directory (ascii "ps.json")
    address_build
        (cu.era ∷ ascii "address" ∷ ascii "build" ∷ ascii "--payment-script-file" ∷ path ∷ [])
        test_net_magic

  unfoldable pub get_policy_script_enterprise_address : ℕ → IPolicyScript → Io W Bytes
  get_policy_script_enterprise_address test_net_magic policy_script = do
    base_directory ← os.mkdir_temp (ascii "ps-multisig-addr")
    removing os base_directory (enterprise_address_in test_net_magic policy_script base_directory)

  unfoldable pub reward_address_in : ℕ → IPolicyScript → Bytes → Io W Bytes
  reward_address_in test_net_magic policy_script base_directory = do
    path ← write_serializable_to_file os policy_script.bytes_json base_directory (ascii "ps.json")
    address_build
        (cu.era ∷ ascii "stake-address" ∷ ascii "build" ∷ ascii "--stake-script-file" ∷ path ∷ [])
        test_net_magic

  unfoldable pub get_policy_script_reward_address : ℕ → IPolicyScript → Io W Bytes
  get_policy_script_reward_address test_net_magic policy_script = do
    base_directory ← os.mkdir_temp (ascii "ps-reward-multisig-addr")
    removing os base_directory (reward_address_in test_net_magic policy_script base_directory)

  unfoldable pub policy_id_in : IPolicyScript → Bytes → Io W Bytes
  policy_id_in policy_script base_directory = do
    path ←
        write_serializable_to_file os policy_script.bytes_json base_directory
          (ascii "policy-script.json")
    response ←
        run_command os cu.cardano_cli_binary
          (cu.era ∷ ascii "transaction" ∷ ascii "policyid" ∷ ascii "--script-file" ∷ path ∷ [])
    returned (trim_newlines response)

  unfoldable pub get_policy_id : IPolicyScript → Io W Bytes
  get_policy_id policy_script = do
    base_directory ← os.mkdir_temp (ascii "ps-policy-id")
    removing os base_directory (policy_id_in policy_script base_directory)

  unfoldable pub get_real_era_name : Io W Bytes
  get_real_era_name =
      if bytes_eq (to_lower cu.era) latest_era
      then (run_command os cu.cardano_cli_binary (ascii "--help" ∷ []) >>= λ list.
          lifted (era_or_unknown (find_era list)))
      else lifted (capitalized cu.era)

  unfoldable pub new_tx_builder : Io W TxBuilder
  new_tx_builder = do
    base_directory ← os.mkdir_temp (ascii "cardano-txs")
    real_era_name ← get_real_era_name
    returned (record {
      base_directory = base_directory;
      inputs = [];
      outputs = [];
      mints = record { tokens = []; policy_scripts = [] };
      certificates = [];
      metadata = none;
      protocol_parameters = none;
      time_to_live = 0;
      test_net_magic = 0;
      fee = 0;
      withdrawal_data = record { stake_address = []; reward_amount = 0; policy_script = none };
      era = cu.era;
      real_era_name = real_era_name;
      cardano_cli_binary = cu.cardano_cli_binary;
    })

  unfoldable pub tx_hash_in : Codec → Bytes → Bytes → Io W Bytes
  tx_hash_in codec tx_raw base_directory = do
    real_era_name ← get_real_era_name
    get_tx_hash_in codec os cu.cardano_cli_binary cu.era tx_raw base_directory real_era_name

  unfoldable pub get_tx_hash : Codec → Bytes → Io W Bytes
  get_tx_hash codec tx_raw = do
    base_directory ← os.mkdir_temp (ascii "tx-hash-retriever")
    removing os base_directory (tx_hash_in codec tx_raw base_directory)

  module _ (codec : CliCodec) where
    unfoldable pub get_address_info : Bytes → Io W AddressInfo
    get_address_info address w =
        pass_on
          (as_invalid_address (
            run_command os cu.cardano_cli_binary
              (cu.era ∷ ascii "address" ∷ ascii "info" ∷ ascii "--address" ∷ address ∷ []) w))
          (λ res. lifted (address_info_or (codec.address_info_of (trim_newlines res))))

    -- `GetWalletAddress` with a stake key.
    unfoldable pub wallet_addresses : Bytes → Bytes → ℕ → Io W (Bytes × Bytes)
    wallet_addresses bech32_string stake_verification_key test_net_magic = do
      bech32_stake ← lifted (codec.get_bech32_key stake_verification_key (ascii "stake_vk"))
      addr ←
          address_build
            (cu.era
              ∷ ascii "address"
              ∷ ascii "build"
              ∷ ascii "--payment-verification-key"
              ∷ bech32_string
              ∷ ascii "--stake-verification-key"
              ∷ bech32_stake
              ∷ [])
            test_net_magic
      stake_addr ←
          address_build
            (cu.era
              ∷ ascii "stake-address"
              ∷ ascii "build"
              ∷ ascii "--stake-verification-key"
              ∷ bech32_stake
              ∷ [])
            test_net_magic
      returned (addr, stake_addr)

    unfoldable pub addresses_for : Bytes → Bytes → ℕ → Io W (Bytes × Bytes)
    addresses_for bech32_string [] test_net_magic = do
      addr ←
          address_build
            (cu.era
              ∷ ascii "address"
              ∷ ascii "build"
              ∷ ascii "--payment-verification-key"
              ∷ bech32_string
              ∷ [])
            test_net_magic
      returned (addr, [])
    addresses_for bech32_string (k ∷ key) test_net_magic =
        wallet_addresses bech32_string (k ∷ key) test_net_magic

    unfoldable pub get_wallet_address : Bytes → Bytes → ℕ → Io W (Bytes × Bytes)
    get_wallet_address verification_key stake_verification_key test_net_magic = do
      bech32_string ← lifted (codec.get_bech32_key verification_key (ascii "addr_vk"))
      addresses_for bech32_string stake_verification_key test_net_magic

    unfoldable pub get_key_hash : Bytes → Io W Bytes
    get_key_hash key = do
      bech32_string ← lifted (codec.get_bech32_key key (ascii "addr_vk"))
      result ← run_command os cu.cardano_cli_binary (
          cu.era
          ∷ ascii "address"
          ∷ ascii "key-hash"
          ∷ ascii "--payment-verification-key"
          ∷ bech32_string
          ∷ [])
      returned (trim_newlines result)

    unfoldable pub read_certificate : Bytes → Io W Certificate
    read_certificate path = do
      bytes ← os.read_file path
      lifted (certificate_or (codec.certificate_of bytes))

    unfoldable pub registration_in : Bytes → ℕ → Bytes → Io W Certificate
    registration_in stake_address key_reg_deposit_amount base_directory = do
      run_command os cu.cardano_cli_binary (
          cu.era
          ∷ ascii "stake-address"
          ∷ ascii "registration-certificate"
          ∷ ascii "--stake-address"
          ∷ stake_address
          ∷ ascii "--key-reg-deposit-amt"
          ∷ format_uint key_reg_deposit_amount
          ∷ ascii "--out-file"
          ∷ join_path base_directory (ascii "registration.cert")
          ∷ [])
      read_certificate (join_path base_directory (ascii "registration.cert"))

    unfoldable pub create_registration_certificate : Bytes → ℕ → Io W Certificate
    create_registration_certificate stake_address key_reg_deposit_amount = do
      base_directory ← os.mkdir_temp (ascii "registration-cert")
      removing os base_directory
          (registration_in stake_address key_reg_deposit_amount base_directory)

    unfoldable pub delegation_args : Bytes → Bytes → Bytes → Bytes → List Bytes
    delegation_args command stake_address pool_id path =
        cu.era
        ∷ ascii "stake-address"
        ∷ command
        ∷ ascii "--stake-address"
        ∷ stake_address
        ∷ ascii "--stake-pool-id"
        ∷ pool_id
        ∷ ascii "--out-file"
        ∷ path
        ∷ []

    -- A command, and another if it fails.
    unfoldable pub or_else :
        Result WalletError Bytes × W → Io W Bytes → Result WalletError Bytes × W
    or_else (ok response, w) other = (ok response, w)
    or_else (err e, w) other = other w

    unfoldable pub delegation_in : Bytes → Bytes → Bytes → Io W Certificate
    unfolding delegation_args or_else
    delegation_in stake_address pool_id base_directory w =
        let path = join_path base_directory (ascii "delegation.cert") in
        pass_on
          (or_else
            (run_command os cu.cardano_cli_binary
              (delegation_args (ascii "delegation-certificate") stake_address pool_id path) w)
            (run_command os cu.cardano_cli_binary
              (delegation_args (ascii "stake-delegation-certificate") stake_address pool_id path)))
          (λ response. read_certificate path)

    unfoldable pub create_delegation_certificate : Bytes → Bytes → Io W Certificate
    create_delegation_certificate stake_address pool_id = do
      base_directory ← os.mkdir_temp (ascii "delegation-cert")
      removing os base_directory (delegation_in stake_address pool_id base_directory)
