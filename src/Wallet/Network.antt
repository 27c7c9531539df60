-- ===== src/Wallet/Network.antt =====
-- wallet/network_type.go: the prefixes of the texts of addresses.
pub mod Prefixes
use cardano_infrastructure.Base.{ℕ, Bool, true, ◌||◌, List, [], Bytes, ascii, ◌==◌, if◌then◌else◌}
use cardano_infrastructure.Common.Retry.{has_prefix}

unfoldable pub get_prefix : ℕ → Bytes
get_prefix n = if n == 1 then ascii "addr" else if n == 0 then ascii "addr_test" else []

unfoldable pub get_stake_prefix : ℕ → Bytes
get_stake_prefix n = if n == 1 then ascii "stake" else if n == 0 then ascii "stake_test" else []

unfoldable pub is_main_net : ℕ → Bool
is_main_net n = n == 1

unfoldable pub is_address_with_valid_prefix : Bytes → Bool
is_address_with_valid_prefix addr =
    has_prefix addr (ascii "addr") || has_prefix addr (ascii "stake")
