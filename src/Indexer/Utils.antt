-- ===== src/Indexer/Utils.antt =====
-- indexer/utils.go: what a block adds to and takes from the stored outputs, and the order in which
-- stored outputs are returned. A `map[string]bool` in which every value is true is the list of its
-- keys.
pub mod Sort
mod Tests
use cardano_infrastructure.Base.{
  ℕ, zero, suc, ◌+◌, ◌%◌, ◌^◌, Bool, true, false, ◌||◌, List, [], ◌∷◌, ◌++◌, Bytes, ltb, ◌==◌,
  if◌then◌else◌, bytes_eq, bytes_lt, map, not,
}
use cardano_infrastructure.Indexer.Data.{Hash, Tx, TxInput, TxOutput, TxInputOutput}

-- `m[address]` of such a map.
unfoldable pub contains : List Bytes → Bytes → Bool
contains [] address = false
contains (x ∷ xs) address = bytes_eq x address || contains xs address

-- `len(m) == 0 || m[address]`.
unfoldable pub wanted : List Bytes → Bytes → Bool
unfolding contains
wanted [] address = true
wanted (x ∷ xs) address = contains (x ∷ xs) address

unfoldable pub get_tx_hashes : List Tx → List Hash
get_tx_hashes txs = map (λ tx. tx.hash) txs

-- The inner loop of `getTxOutputs`, from the output of index `i` on.
unfoldable pub outputs_from : Hash → List Bytes → ℕ → List TxOutput → List TxInputOutput
outputs_from hash interest i [] = []
outputs_from hash interest i (out ∷ outs) =
    let rest = outputs_from hash interest (i + 1) outs in
    if wanted interest out.address
    then record { input = record { hash = hash; index = i % 2 ^ 32 }; output = out } ∷ rest
    else rest

unfoldable pub get_tx_outputs : List Tx → List Bytes → List TxInputOutput
unfolding outputs_from wanted
get_tx_outputs [] interest = []
get_tx_outputs (tx ∷ txs) interest =
    outputs_from tx.hash interest 0 tx.outputs ++ get_tx_outputs txs interest

-- The inner loop of `getTxInputs`.
unfoldable pub inputs_of : List Bytes → List TxInputOutput → List TxInput
inputs_of interest [] = []
inputs_of interest (inp ∷ inps) =
    let rest = inputs_of interest inps in
    if wanted interest inp.output.address then inp.input ∷ rest else rest

unfoldable pub get_tx_inputs : List Tx → List Bytes → List TxInput
unfolding inputs_of wanted
get_tx_inputs [] interest = []
get_tx_inputs (tx ∷ txs) interest = inputs_of interest tx.inputs ++ get_tx_inputs txs interest

-- The comparison that `SortTxInputOutputs` hands to `sort.Slice`.
unfoldable pub less : TxInputOutput → TxInputOutput → Bool
less first second =
    if not (first.output.slot == second.output.slot)
    then ltb first.output.slot second.output.slot
    else if not (bytes_eq first.input.hash second.input.hash)
    then bytes_lt first.input.hash second.input.hash
    else ltb first.input.index second.input.index

-- `sort.Slice` by insertion: two items that `less` orders neither way keep no promised order.
unfoldable pub insert : TxInputOutput → List TxInputOutput → List TxInputOutput
insert x [] = x ∷ []
insert x (y ∷ ys) = let rest = insert x ys in if less y x then y ∷ rest else x ∷ y ∷ ys

unfoldable pub sort_tx_input_outputs : List TxInputOutput → List TxInputOutput
unfolding insert less
sort_tx_input_outputs [] = []
sort_tx_input_outputs (x ∷ xs) = insert x (sort_tx_input_outputs xs)
