-- ===== src/Indexer/Utils/Tests.antt =====
-- Two stored outputs of indexer/utils.go, and the order in which they are returned.
use mathlib.Core.List.{Perm}
use cardano_infrastructure.Base.{[], ◌∷◌, replicate}
use cardano_infrastructure.Indexer.Data.{TxInputOutput, zero_output}
use cardano_infrastructure.Indexer.Utils.{sort_tx_input_outputs}
use cardano_infrastructure.Indexer.Utils.Sort.{IsSorted, sort_tx_input_outputs_lem}

abbrev later : TxInputOutput
later = record {
  input = record { hash = replicate 32 1; index = 0 };
  output = record zero_output { slot = 9 };
}

abbrev sooner : TxInputOutput
sooner = record {
  input = record { hash = replicate 32 2; index = 1 };
  output = record zero_output { slot = 4 };
}

sort_tx_input_outputs_lem_example :
    IsSorted (sort_tx_input_outputs (later ∷ sooner ∷ []))
    × Perm (sort_tx_input_outputs (later ∷ sooner ∷ [])) (later ∷ sooner ∷ [])
sort_tx_input_outputs_lem_example = sort_tx_input_outputs_lem (later ∷ sooner ∷ [])
