-- ===== src/Wallet/CliUtils/Tests.antt =====
-- Runs of wallet/cli_utils.go.
use cardano_infrastructure.Base.{◌≡◌, refl, none, some, ascii}
use cardano_infrastructure.Common.Retry.{has_prefix}
use cardano_infrastructure.Wallet.CliUtils.{up_to_bracket, not_empty, era_at, first_some, find_era}

era_found :
    find_era (ascii "x Latest era commands () Latest era commands (Conway) y")
    ≡ some (ascii "Conway")
unfolding find_era first_some era_at not_empty up_to_bracket has_prefix
era_found = refl

era_missing : find_era (ascii "Latest era commands (Conway") ≡ none
unfolding find_era first_some era_at not_empty up_to_bracket has_prefix
era_missing = refl
