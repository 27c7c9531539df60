-- ===== src/Indexer/Database.antt =====
-- indexer/database.go: what the block indexer asks of its database. The methods of a
-- `DBTransactionWriter` before `Execute` only queue work, so a transaction is the list of their
-- calls, and `execute` stands for `OpenTx`, those calls and `Execute`.
use cardano_infrastructure.Base.{Bool, ◌≡◌, Option, none, some, List, [], ◌∷◌, Result, ok}
use cardano_infrastructure.Indexer.Data.{
  BlockPoint, TxInput, TxOutput, TxInputOutput, CardanoBlock, Tx, Error,
}

pub data WriterCall : Type 0 where
  set_latest_block_point : Option BlockPoint → WriterCall
  add_tx_outputs : List TxInputOutput → WriterCall
  add_confirmed_block : CardanoBlock → WriterCall
  add_confirmed_txs : List Tx → WriterCall
  remove_tx_outputs : List TxInput → Bool → WriterCall
  delete_all_tx_outputs_physically : WriterCall

-- The point that the last `SetLatestBlockPoint` of the calls writes over `point`.
abbrev pub latest_of : Option BlockPoint → List WriterCall → Option BlockPoint
latest_of point [] = point
latest_of point (set_latest_block_point p ∷ calls) = latest_of p calls
latest_of point (add_tx_outputs outs ∷ calls) = latest_of point calls
latest_of point (add_confirmed_block b ∷ calls) = latest_of point calls
latest_of point (add_confirmed_txs txs ∷ calls) = latest_of point calls
latest_of point (remove_tx_outputs ins soft ∷ calls) = latest_of point calls
latest_of point (delete_all_tx_outputs_physically ∷ calls) = latest_of point calls

-- The interface `BlockIndexerDB`, with what the block indexer relies on: a failed `Execute` leaves
-- what is read as it was, and after a successful one the latest point is the one that was set.
pub record BlockIndexerDb : Type 1 where
  pub Store : Type 0
  pub get_tx_output : Store → TxInput → Result Error TxOutput
  pub get_latest_block_point : Store → Result Error (Option BlockPoint)
  pub execute : Store → List WriterCall → Option Error × Store
  -- The points that the store is able to hold.
  pub Storable : BlockPoint → Type 0
  pub get_tx_output_failed :
      (s : Store) (calls : List WriterCall) (e : Error)
      → (execute s calls).0 ≡ some e
      → (i : TxInput) → get_tx_output (execute s calls).1 i ≡ get_tx_output s i
  pub get_latest_failed :
      (s : Store) (calls : List WriterCall) (e : Error)
      → (execute s calls).0 ≡ some e
      → get_latest_block_point (execute s calls).1 ≡ get_latest_block_point s
  pub get_latest_executed :
      (s : Store) (calls : List WriterCall) (p : BlockPoint)
      → Storable p
      → (execute s calls).0 ≡ none
      → latest_of none calls ≡ some p
      → get_latest_block_point (execute s calls).1 ≡ ok (some p)
