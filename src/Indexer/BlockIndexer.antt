-- ===== src/Indexer/BlockIndexer.antt =====
-- indexer/block_indexer.go. A method returns what it returns in the source and the new indexer,
-- with the database in it. The handler of confirmed blocks and the retriever of a block's
-- transactions are functions, and `RollForward` also returns the handler's call, if it was made.
-- The mutex makes each method one step. Log lines are left out.
pub mod Pending
pub mod Forward
pub mod Backward
pub mod Interest
pub mod Steps
pub mod Finality
mod Tests
use cardano_infrastructure.Base.{
  ℕ, ◌≡◌, Bool, true, false, ◌&&◌, ◌||◌, Option, none, some, List, [], ◌∷◌, ◌+◌, Result, ok, err,
  ◌>>=◌, Bytes, ◌==◌, if◌then◌else◌, bytes_eq, bit_and, map,
}
use mathlib.Core.Option
use cardano_infrastructure.Common.CircularQueue
use cardano_infrastructure.Common.CircularQueue.{CircularQueue}
use cardano_infrastructure.Indexer.Data.{
  BlockPoint, BlockHeader, CardanoBlock, Tx, TxInput, TxInputOutput, TxOutput, Error, fatal,
  process_confirmed_block, zero_header, zero_point, to_cardano_block,
}
use cardano_infrastructure.Indexer.Utils.{contains, get_tx_hashes, get_tx_outputs, get_tx_inputs}
use cardano_infrastructure.Indexer.Database.{
  BlockIndexerDb, WriterCall, set_latest_block_point, add_tx_outputs, add_confirmed_block,
  add_confirmed_txs, remove_tx_outputs,
}

abbrev pub address_check_inputs : ℕ
address_check_inputs = 1

abbrev pub address_check_outputs : ℕ
address_check_outputs = 2

abbrev pub address_check_all : ℕ
address_check_all = 3

pub record BlockIndexerConfig : Type 0 where
  pub starting_block_point : Option BlockPoint
  pub confirmation_block_count : ℕ
  pub addresses_of_interest : List Bytes
  pub keep_all_tx_outputs_in_db : Bool
  pub address_check : ℕ
  pub soft_delete_utxo : Bool
  pub keep_all_txs_hashes_in_block : Bool

-- `addressesOfInterest[x] = true` for each address of a list.
unfoldable pub add_addresses : List Bytes → List Bytes → List Bytes
add_addresses interest [] = interest
add_addresses interest (x ∷ xs) =
    add_addresses (if contains interest x then interest else x ∷ interest) xs

unfoldable pub any_output : List Bytes → List TxOutput → Bool
any_output interest [] = false
any_output interest (out ∷ outs) = contains interest out.address || any_output interest outs

unfoldable pub any_input : List Bytes → List TxInputOutput → Bool
any_input interest [] = false
any_input interest (inp ∷ inps) = contains interest inp.output.address || any_input interest inps

unfoldable pub is_tx_output_of_interest : BlockIndexerConfig → List Bytes → Tx → Bool
is_tx_output_of_interest config interest tx =
    if bit_and config.address_check address_check_outputs == 0
    then false
    else any_output interest tx.outputs

unfoldable pub is_tx_input_of_interest : BlockIndexerConfig → List Bytes → Tx → Bool
is_tx_input_of_interest config interest tx =
    if bit_and config.address_check address_check_inputs == 0
    then false
    else any_input interest tx.inputs

-- The loop of `filterTxsOfInterest`.
unfoldable pub filter_loop : BlockIndexerConfig → List Bytes → List Tx → List Tx
filter_loop config interest [] = []
filter_loop config interest (tx ∷ txs) =
    let rest = filter_loop config interest txs in
    if is_tx_input_of_interest config interest tx || is_tx_output_of_interest config interest tx
    then tx ∷ rest
    else rest

unfoldable pub filter_txs_of_interest : BlockIndexerConfig → List Bytes → List Tx → List Tx
filter_txs_of_interest config [] txs = txs
filter_txs_of_interest config (x ∷ interest) txs = filter_loop config (x ∷ interest) txs

abbrev pub point_of : BlockHeader → BlockPoint
point_of header = record { block_slot = header.slot; block_hash = header.hash }

-- `Push`, whose error `RollForward` drops.
abbrev pub push_header : CircularQueue BlockHeader → BlockHeader → CircularQueue BlockHeader
push_header q header = elim (CircularQueue.push q header) [ ok q' ↦ q' | err e ↦ q ]

abbrev pub is_at : BlockPoint → BlockHeader → Bool
is_at point header = header.slot == point.block_slot && bytes_eq header.hash point.block_hash

module _ (db : BlockIndexerDb) where
  open db use {Store, get_tx_output, get_latest_block_point, execute}

  pub record BlockIndexer : Type 0 where
    pub config : BlockIndexerConfig
    pub latest_block_point : Option BlockPoint
    pub unconfirmed_blocks : CircularQueue BlockHeader
    pub addresses_of_interest : List Bytes
    pub store : Store

  -- `none` is the panic on an `AddressCheck` that checks neither inputs nor outputs.
  pub new_block_indexer : BlockIndexerConfig → Store → Option BlockIndexer
  new_block_indexer config store =
      if bit_and config.address_check address_check_all == 0
      then none
      else some (record {
        config = config;
        latest_block_point = none;
        unconfirmed_blocks = CircularQueue.new zero_header config.confirmation_block_count;
        addresses_of_interest = add_addresses [] config.addresses_of_interest;
        store = store;
      })

  pub add_new_addresses_of_interest : BlockIndexer → List Bytes → BlockIndexer
  add_new_addresses_of_interest bi addresses = record bi {
    addresses_of_interest = add_addresses bi.addresses_of_interest addresses;
  }

  -- The output that an input gets: its own, if that has an address, or the stored one.
  pub populated_output : Store → TxInputOutput → Result Error TxOutput
  populated_output store inp =
      if bytes_eq inp.output.address [] then get_tx_output store inp.input else ok inp.output

  -- The inner loop of `populateOutputsForEachInput`.
  pub populate_inputs : Store → List TxInputOutput → Result Error (List TxInputOutput)
  unfolding populated_output
  populate_inputs store [] = ok []
  populate_inputs store (inp ∷ inps) = do
    out ← populated_output store inp
    rest ← populate_inputs store inps
    ok (record inp { output = out } ∷ rest)

  -- The source sets the outputs in place; the transactions with their new inputs are returned.
  pub populate_outputs_for_each_input : Store → List Tx → Result Error (List Tx)
  populate_outputs_for_each_input store [] = ok []
  populate_outputs_for_each_input store (tx ∷ txs) = do
    inputs ← populate_inputs store tx.inputs
    rest ← populate_outputs_for_each_input store txs
    ok (record tx { inputs = inputs } ∷ rest)

  -- What a confirmed block makes of its populated transactions.
  unfoldable pub relevant_txs : BlockIndexer → List Tx → List Tx
  relevant_txs bi all_txs = filter_txs_of_interest bi.config bi.addresses_of_interest all_txs

  unfoldable pub confirmed_block : BlockIndexer → BlockHeader → List Tx → CardanoBlock
  confirmed_block bi header all_txs = to_cardano_block header (
      if bi.config.keep_all_txs_hashes_in_block
      then get_tx_hashes all_txs
      else get_tx_hashes (relevant_txs bi all_txs))

  unfoldable pub outputs_to_save : BlockIndexer → List Tx → List TxInputOutput
  outputs_to_save bi all_txs =
      if bi.config.keep_all_tx_outputs_in_db
      then get_tx_outputs all_txs []
      else get_tx_outputs (relevant_txs bi all_txs) bi.addresses_of_interest

  unfoldable pub outputs_to_remove : BlockIndexer → List Tx → List TxInput
  outputs_to_remove bi all_txs =
      if bi.config.keep_all_tx_outputs_in_db
      then get_tx_inputs all_txs []
      else get_tx_inputs (relevant_txs bi all_txs) bi.addresses_of_interest

  -- The calls of the database transaction, in the order of the source.
  unfoldable pub writer_calls : BlockIndexer → BlockHeader → List Tx → List WriterCall
  writer_calls bi header all_txs =
      add_confirmed_txs (relevant_txs bi all_txs)
      ∷ add_confirmed_block (confirmed_block bi header all_txs)
      ∷ set_latest_block_point (some (point_of header))
      ∷ add_tx_outputs (outputs_to_save bi all_txs)
      ∷ remove_tx_outputs (outputs_to_remove bi all_txs) bi.config.soft_delete_utxo
      ∷ []

  abbrev pub Confirmed : Type 0
  Confirmed = CardanoBlock × List Tx × BlockPoint

  -- The end of `processConfirmedBlock`, by what `Execute` returned.
  executed : Confirmed → Option Error × Store → Result Error Confirmed × Store
  executed c (none, store) = (ok c, store)
  executed c (some e, store) = (err e, store)

  -- Its part behind `populateOutputsForEachInput`.
  populated_block :
      BlockIndexer → BlockHeader → Result Error (List Tx) → Result Error Confirmed × Store
  populated_block bi header (err e) = (err e, bi.store)
  populated_block bi header (ok all_txs) =
      executed (confirmed_block bi header all_txs, relevant_txs bi all_txs, point_of header)
        (execute bi.store (writer_calls bi header all_txs))

  pub process_block : BlockIndexer → BlockHeader → List Tx → Result Error Confirmed × Store
  unfolding populated_block executed
  process_block bi header txs =
      populated_block bi header (populate_outputs_for_each_input bi.store txs)

  abbrev pub Handler : Type 0
  Handler = CardanoBlock → List Tx → Option Error

  abbrev pub Forwarded : Type 0
  Forwarded = Option Error × Option (CardanoBlock × List Tx) × BlockIndexer

  -- The end of `RollForward`, by what `processConfirmedBlock` returned.
  confirmed_forward :
      BlockIndexer → Handler → BlockHeader → Result Error Confirmed × Store → Forwarded
  confirmed_forward bi handler header (err e, store) =
      (some (process_confirmed_block e), none, record bi { store = store })
  confirmed_forward bi handler header (ok (block, txs, point), store) = (
    handler block txs,
    some (block, txs),
    record bi {
      latest_block_point = some point;
      unconfirmed_blocks =
          push_header (CircularQueue.pop zero_header bi.unconfirmed_blocks).1 header;
      store = store;
    },
  )

  retrieved_forward : BlockIndexer → Handler → BlockHeader → Result Error (List Tx) → Forwarded
  retrieved_forward bi handler header (err e) = (some (process_confirmed_block e), none, bi)
  retrieved_forward bi handler header (ok txs) =
      confirmed_forward bi handler header
        (process_block bi (CircularQueue.peek zero_header bi.unconfirmed_blocks) txs)

  pub roll_forward :
      BlockIndexer → Handler → BlockHeader → (BlockHeader → Result Error (List Tx)) → Forwarded
  unfolding retrieved_forward confirmed_forward
  roll_forward bi handler header retriever =
      if CircularQueue.is_full bi.unconfirmed_blocks
      then retrieved_forward bi handler header
          (retriever (CircularQueue.peek zero_header bi.unconfirmed_blocks))
      else (none, none, record bi { unconfirmed_blocks = push_header bi.unconfirmed_blocks header })

  -- The part of `RollBackward` behind the search. Without a latest point it dereferences nil.
  backward_to_latest :
      BlockIndexer → BlockPoint → Option BlockPoint → Option (Option Error × BlockIndexer)
  backward_to_latest bi point none = none
  backward_to_latest bi point (some latest) =
      if latest.block_slot == point.block_slot && bytes_eq latest.block_hash point.block_hash
      then some
          (none, record bi { unconfirmed_blocks = CircularQueue.set_count bi.unconfirmed_blocks 0 })
      else some (some (fatal point latest), bi)

  backward_found : BlockIndexer → BlockPoint → Option ℕ → Option (Option Error × BlockIndexer)
  backward_found bi point none = backward_to_latest bi point bi.latest_block_point
  backward_found bi point (some indx) = some (
    none,
    record bi { unconfirmed_blocks = CircularQueue.set_count bi.unconfirmed_blocks (indx + 1) },
  )

  -- `none` is the panic of a nil dereference.
  pub roll_backward : BlockIndexer → BlockPoint → Option (Option Error × BlockIndexer)
  unfolding backward_found backward_to_latest
  roll_backward bi point =
      backward_found bi point (CircularQueue.find zero_header bi.unconfirmed_blocks (is_at point))

  -- `Reset`, by the point that the database has.
  reset_at : BlockIndexer → Option BlockPoint → BlockPoint × BlockIndexer
  reset_at bi stored =
      let configured = Option.get_or bi.config.starting_block_point zero_point in
      let latest = Option.get_or stored configured in
      (
        latest,
        record bi {
          latest_block_point = some latest;
          unconfirmed_blocks = CircularQueue.set_count bi.unconfirmed_blocks 0;
        },
      )

  pub reset : BlockIndexer → Result Error (BlockPoint × BlockIndexer)
  unfolding reset_at
  reset bi = do stored ← get_latest_block_point bi.store; ok (reset_at bi stored)
