-- ===== src/Wallet.antt =====
-- wallet: addresses, their networks, tokens, and the sums of unspent outputs.
pub mod Address
pub mod AddressText
pub mod CliUtils
pub mod CommandHelper
pub mod Data
pub mod Network
pub mod PolicyScript
pub mod SumMaps
pub mod Texts
pub mod Tokens
pub mod TxBuilder
pub mod TxInputs
mod Tests
