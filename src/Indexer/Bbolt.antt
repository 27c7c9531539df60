-- ===== src/Indexer/Bbolt.antt =====
-- indexer/db/bbolt/bbolt.go and bbolt_txwriter.go: the database of the indexer over bbolt, opened
-- and with its buckets created. A queued operation of the transaction writer is the call that queued
-- it. Error texts are left out: an error is the one of the store or of the codec.
pub mod External
pub mod Writer
pub mod Instance
mod Tests
use cardano_infrastructure.Base.{
  ℕ, zero, suc, ◌+◌, ◌≡◌, Bool, true, false, ◌&&◌, ◌||◌, not, Option, none, some, List, [], ◌∷◌,
  ◌++◌, Result, ok, err, ◌>>=◌, Bytes, bytes_eq, bytes_lt, ascii, length, ltb, ◌==◌, if◌then◌else◌,
}
use mathlib.Core.List.{reverse}
use cardano_infrastructure.Indexer.Data.{
  Error, other, BlockPoint, TxInput, TxOutput, TxInputOutput, Tx, CardanoBlock, zero_output, tx_key,
  tx_input_key, tx_input_set, cardano_block_key, slot_number_to_key,
}
use cardano_infrastructure.Indexer.Utils.{sort_tx_input_outputs}
use cardano_infrastructure.Indexer.Database.{
  WriterCall, set_latest_block_point, add_tx_outputs, add_confirmed_block, add_confirmed_txs,
  remove_tx_outputs, delete_all_tx_outputs_physically,
}
use cardano_infrastructure.Indexer.Bbolt.External.{Buckets, Bolt, Json, Codec}

abbrev pub default_key : Bytes
default_key = ascii "default"

-- What a call appends to the queue: nothing, if its list is empty.
pub queued : WriterCall → List WriterCall
queued (add_tx_outputs []) = []
queued (add_confirmed_txs []) = []
queued (remove_tx_outputs [] soft) = []
queued call = call ∷ []

pub operations : List WriterCall → List WriterCall
unfolding queued
operations [] = []
operations (call ∷ calls) = queued call ++ operations calls

-- `len(data) > 0` and then `json.Unmarshal`, or the default.
pub decoded : {A : Type 0} → Codec A → A → Option Bytes → Result Error A
decoded codec default none = ok default
decoded codec default (some []) = ok default
decoded codec default (some (b ∷ bs)) = codec.unmarshal (b ∷ bs)

-- The loops over a cursor. `n` values are in the result before; with a positive `max_cnt` the loop
-- ends when the result has that many.
pub collect : {A : Type 0} → Codec A → ℕ → ℕ → List (Bytes × Bytes) → Result Error (List A)
collect codec max_cnt n [] = ok []
collect codec max_cnt n ((k, v) ∷ rest) = do
  item ← codec.unmarshal v
  let more = collect codec max_cnt (n + 1) rest
  others ← (if ltb 0 max_cnt && n + 1 == max_cnt then ok [] else more)
  ok (item ∷ others)

-- `item.Input.Set`, whose error is made of the number of bytes.
input_of : Bytes → Result Error TxInput
input_of k = elim (tx_input_set k) [ ok i ↦ ok i | err n ↦ err (other n) ]

module _ (bolt : Bolt) (json : Json) where
  open bolt use {Bucket, get, put, delete, recreate, cursor, seek, Db, view, update}

  -- The loop of `AddTxOutputs` over the bucket of outputs.
  pub put_outputs : Bucket → List TxInputOutput → Result Error Bucket
  put_outputs bucket [] = ok bucket
  put_outputs bucket (inp_out ∷ rest) = do
    bytes ← json.outputs.marshal inp_out.output
    bucket' ← put bucket (tx_input_key inp_out.input) bytes
    put_outputs bucket' rest

  -- The loop of `AddConfirmedTxs`.
  pub put_txs : Bucket → List Tx → Result Error Bucket
  put_txs bucket [] = ok bucket
  put_txs bucket (tx ∷ rest) = do
    bytes ← json.txs.marshal tx
    bucket' ← put bucket (tx_key tx) bytes
    put_txs bucket' rest

  -- A soft delete marks the output that is stored under the key, if there is one.
  mark_used : Bucket → Bytes → Option Bytes → Result Error Bucket
  mark_used bucket key none = ok bucket
  mark_used bucket key (some []) = ok bucket
  mark_used bucket key (some (b ∷ bs)) = do
    result ← json.outputs.unmarshal (b ∷ bs)
    bytes ← json.outputs.marshal (record result { is_used = true })
    put bucket key bytes

  pub remove_output : Bool → Bucket → TxInput → Result Error Bucket
  unfolding mark_used
  remove_output soft bucket inp =
      let key = tx_input_key inp in
      if not soft then delete bucket key else mark_used bucket key (get bucket key)

  -- The loop of `RemoveTxOutputs`.
  pub remove_outputs : Bool → Bucket → List TxInput → Result Error Bucket
  unfolding remove_output
  remove_outputs soft bucket [] = ok bucket
  remove_outputs soft bucket (inp ∷ rest) = do
    bucket' ← remove_output soft bucket inp
    remove_outputs soft bucket' rest

  -- A queued operation.
  pub run_operation : Buckets Bucket → WriterCall → Result Error (Buckets Bucket)
  unfolding put_outputs put_txs remove_outputs
  run_operation tx (set_latest_block_point point) = do
    bytes ← json.points.marshal point
    bucket ← put tx.latest_block_point default_key bytes
    ok (record tx { latest_block_point = bucket })
  run_operation tx (add_tx_outputs tx_outputs) = do
    bucket ← put_outputs tx.tx_outputs tx_outputs
    ok (record tx { tx_outputs = bucket })
  run_operation tx (add_confirmed_block block) = do
    bytes ← json.blocks.marshal block
    bucket ← put tx.confirmed_blocks (cardano_block_key block) bytes
    ok (record tx { confirmed_blocks = bucket })
  run_operation tx (add_confirmed_txs txs) = do
    bucket ← put_txs tx.unprocessed_txs txs
    ok (record tx { unprocessed_txs = bucket })
  run_operation tx (remove_tx_outputs tx_inputs soft) = do
    bucket ← remove_outputs soft tx.tx_outputs tx_inputs
    ok (record tx { tx_outputs = bucket })
  run_operation tx delete_all_tx_outputs_physically = do
    bucket ← recreate tx.tx_outputs
    ok (record tx { tx_outputs = bucket })

  pub run_operations : List WriterCall → Buckets Bucket → Result Error (Buckets Bucket)
  unfolding run_operation
  run_operations [] tx = ok tx
  run_operations (op ∷ ops) tx = do tx' ← run_operation tx op; run_operations ops tx'

  pub execute : Db → List WriterCall → Option Error × Db
  unfolding run_operations operations
  execute db calls = update db (run_operations (operations calls))

  pub get_latest_block_point : Db → Result Error (Option BlockPoint)
  unfolding decoded
  get_latest_block_point db =
      decoded json.points none (get (view db).latest_block_point default_key)

  pub get_tx_output : Db → TxInput → Result Error TxOutput
  unfolding decoded
  get_tx_output db tx_input =
      decoded json.outputs zero_output (get (view db).tx_outputs (tx_input_key tx_input))

  -- The loop of `MarkConfirmedTxsProcessed`.
  pub mark_processed : List Tx → Buckets Bucket → Result Error (Buckets Bucket)
  mark_processed [] tx = ok tx
  mark_processed (card_tx ∷ rest) tx = do
    unprocessed ← delete tx.unprocessed_txs (tx_key card_tx)
    bytes ← json.txs.marshal card_tx
    processed ← put tx.processed_txs (tx_key card_tx) bytes
    mark_processed rest (record tx { unprocessed_txs = unprocessed; processed_txs = processed })

  pub mark_confirmed_txs_processed : Db → List Tx → Option Error × Db
  unfolding mark_processed
  mark_confirmed_txs_processed db txs = update db (mark_processed txs)

  pub get_unprocessed_confirmed_txs : Db → ℕ → Result Error (List Tx)
  unfolding collect
  get_unprocessed_confirmed_txs db max_cnt =
      collect json.txs max_cnt 0 (cursor (view db).unprocessed_txs)

  pub get_latest_confirmed_blocks : Db → ℕ → Result Error (List CardanoBlock)
  unfolding collect
  get_latest_confirmed_blocks db max_cnt =
      collect json.blocks max_cnt 0 (reverse (cursor (view db).confirmed_blocks))

  pub get_confirmed_blocks_from : Db → ℕ → ℕ → Result Error (List CardanoBlock)
  unfolding collect
  get_confirmed_blocks_from db slot_number max_cnt =
      collect json.blocks max_cnt 0
        (seek (view db).confirmed_blocks (slot_number_to_key slot_number))

  -- The loop of `GetAllTxOutputs`.
  pub select_outputs : Bytes → Bool → List (Bytes × Bytes) → Result Error (List TxInputOutput)
  unfolding input_of
  select_outputs address only_not_used [] = ok []
  select_outputs address only_not_used ((k, v) ∷ rest) = do
    output ← json.outputs.unmarshal v
    let others = select_outputs address only_not_used rest
    let kept : Result Error (List TxInputOutput) = do
      input ← input_of k
      more ← others
      ok (record { input = input; output = output } ∷ more)
    if not (bytes_eq output.address address) || (only_not_used && output.is_used)
        then others
        else kept

  pub get_all_tx_outputs : Db → Bytes → Bool → Result Error (List TxInputOutput)
  unfolding select_outputs
  get_all_tx_outputs db address only_not_used = do
    result ← select_outputs address only_not_used (cursor (view db).tx_outputs)
    ok (sort_tx_input_outputs result)
