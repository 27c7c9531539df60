-- ===== src/Wallet/CommandHelper.antt =====
-- wallet/command_helper.go: running cardano-cli, and the file system that the code around it uses. The
-- state `W` of the world and the calls on it are parameters. A computation runs on a state and gives a
-- result and the next state.
pub mod Steps
use cardano_infrastructure.Base.{
  ℕ, Bool, ◌||◌, Option, none, some, List, [], ◌∷◌, ◌++◌, Bytes, ascii, Result, ok, err, ◌==◌,
  if◌then◌else◌,
}
use cardano_infrastructure.Wallet.Texts.{format_uint}

pub data WalletError : Type 0 where
  os_error : Bytes → WalletError
  run_command_error : Bytes → WalletError
  marshal_error : WalletError
  unmarshal_error : WalletError
  protocol_parameters_not_set : WalletError
  amounts_not_specified : List (Bytes × ℕ) → WalletError
  invalid_token : WalletError
  invalid_number : WalletError
  unknown_era : WalletError
  invalid_address : WalletError
  bech32_error : WalletError
  refused : Bytes → WalletError

abbrev pub Io : Type 0 → Type 0 → Type 0
Io W A = W → Result WalletError A × W

module _ {W : Type 0} where
  abbrev pub pass_on :
      {A B : Type 0} → Result WalletError A × W → (A → Io W B) → Result WalletError B × W
  pass_on (ok a, w) f = f a w
  pass_on (err e, w) f = (err e, w)

  infixl 5 ◌>>=◌ ◌>>◌
  abbrev pub ◌>>=◌ : {A B : Type 0} → Io W A → (A → Io W B) → Io W B
  (m >>= f) w = pass_on (m w) f

  abbrev pub ◌>>◌ : {A B : Type 0} → Io W A → Io W B → Io W B
  m >> k = m >>= (λ a. k)

  abbrev pub returned : {A : Type 0} → A → Io W A
  returned a w = (ok a, w)

  abbrev pub failed : {A : Type 0} → WalletError → Io W A
  failed e w = (err e, w)

  abbrev pub lifted : {A : Type 0} → Result WalletError A → Io W A
  lifted r w = (r, w)

-- A finished process: what it wrote to stdout and to stderr, and the error of `cmd.Run`.
pub record Finished : Type 0 where
  pub std_out : Bytes
  pub std_err : Bytes
  pub failure : Option Bytes

-- The calls of `os` and `os/exec`. `exec` passes the environment on.
pub record Os (W : Type 0) : Type 0 where
  pub write_file : Bytes → Bytes → Io W (Unit {0})
  pub read_file : Bytes → Io W Bytes
  pub mkdir_temp : Bytes → Io W Bytes
  pub remove_all : Bytes → W → W
  pub exec : Bytes → List Bytes → W → Finished × W

abbrev pub main_net_protocol_magic : ℕ
main_net_protocol_magic = 764824073

unfoldable pub command_error : Option Bytes → Bytes → Result WalletError Bytes
command_error (some text) std_out = err (run_command_error text)
command_error none std_out = ok std_out

-- Anything on stderr is an error, even of a process that succeeds.
unfoldable pub command_result : Finished → Result WalletError Bytes
unfolding command_error
command_result f = with_std_err f.std_err
  where
    with_std_err : Bytes → Result WalletError Bytes
    with_std_err [] = command_error f.failure f.std_out
    with_std_err (c ∷ text) = err (run_command_error (c ∷ text))

unfoldable pub run_command : {W : Type 0} → Os W → Bytes → List Bytes → Io W Bytes
run_command os binary args w =
    let (finished, w') = os.exec binary args w in (command_result finished, w')

unfoldable pub get_test_net_magic_args : ℕ → List Bytes
get_test_net_magic_args testnet_magic =
    if testnet_magic == 0 || testnet_magic == main_net_protocol_magic
    then ascii "--mainnet" ∷ []
    else ascii "--testnet-magic" ∷ format_uint testnet_magic ∷ []

-- `filepath.Join` of a clean directory and a file name.
unfoldable pub join_path : Bytes → Bytes → Bytes
join_path directory name = directory ++ (ascii "/" ++ name)

-- `defer os.RemoveAll(directory)` around a computation.
unfoldable pub removing : {W A : Type 0} → Os W → Bytes → Io W A → Io W A
removing os directory m w = let (r, w') = m w in (r, os.remove_all directory w')

-- What the code asks of an `ISerializable`, and the file that `writeSerializableToFile` makes of it.
unfoldable pub write_serializable_to_file :
    {W : Type 0} → Os W → Result WalletError Bytes → Bytes → Bytes → Io W Bytes
write_serializable_to_file os json base_directory file_name = do
  bytes ← lifted json
  os.write_file (join_path base_directory file_name) bytes
  returned (join_path base_directory file_name)
