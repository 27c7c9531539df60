-- ===== src/Indexer/BlockIndexer/Steps.antt =====
-- Each method of indexer/block_indexer.go on each of its branches.
use cardano_infrastructure.Base.{
  ℕ, ◌<◌, ◌≡◌, refl, ◌∙◌, ap, sym, true, false, Option, some, none, List, ◌∷◌, Result, ok, err,
  arith, length, ◌==◌, inl, inr, Bool-cases, ◌⊎◌,
}
use cardano_infrastructure.Common.CircularQueue
use cardano_infrastructure.Indexer.Data.{
  BlockHeader, Tx, TxInput, Error, process_confirmed_block, zero_header,
}
use cardano_infrastructure.Indexer.Database.{BlockIndexerDb}
use cardano_infrastructure.Indexer.BlockIndexer.{
  BlockIndexer, Handler, Forwarded, Confirmed, point_of, push_header, roll_forward,
  retrieved_forward, confirmed_forward, populated_block, executed, process_block, writer_calls,
  populate_outputs_for_each_input, confirmed_block, relevant_txs,
}
use cardano_infrastructure.Indexer.BlockIndexer.Pending.{Holds, peek-Holds, is_full-Holds}

module _ (db : BlockIndexerDb) where
  open db use {Store, get_tx_output, get_latest_block_point, execute}

  -- The stores answer every read alike.
  pub record SameReads (s t : Store) : Type 0 where
    pub outputs : (i : TxInput) → get_tx_output s i ≡ get_tx_output t i
    pub latest : get_latest_block_point s ≡ get_latest_block_point t

  -- While fewer blocks than `k` wait, a new block is put behind them and nothing else happens.
  pub roll_forward_waits :
      (bi : BlockIndexer db) (handler : Handler db) (header : BlockHeader)
      (retriever : BlockHeader → Result Error (List Tx)) {k : ℕ} {xs : List BlockHeader}
      → Holds k bi.unconfirmed_blocks xs
      → length xs < k
      → roll_forward db bi handler header retriever
        ≡ (none, none, record bi { unconfirmed_blocks = push_header bi.unconfirmed_blocks header })
  unfolding roll_forward
  roll_forward_waits bi handler header retriever {k} {xs} h lt =
      let room : (length xs == k) ≡ false = ground arith in rw (is_full-Holds h ∙ room)

  -- How the processing of a block of transactions `txs` ends.
  pub data Processed (bi : BlockIndexer db) (header : BlockHeader) (txs : List Tx)
      : Result Error (Confirmed db) × Store → Type 0 where
    failed :
        (e : Error) (store : Store)
        → SameReads store bi.store
        → Processed bi header txs (err e, store)
    succeeded :
        (all_txs : List Tx) (store : Store)
        → populate_outputs_for_each_input db bi.store txs ≡ ok all_txs
        → execute bi.store (writer_calls db bi header all_txs) ≡ (none, store)
        → Processed bi header txs (
          ok (confirmed_block db bi header all_txs, relevant_txs db bi all_txs, point_of header),
          store,
        )

  executed-Processed :
      (bi : BlockIndexer db) (header : BlockHeader) (txs all_txs : List Tx)
      (r : Option Error × Store)
      → populate_outputs_for_each_input db bi.store txs ≡ ok all_txs
      → execute bi.store (writer_calls db bi header all_txs) ≡ r
      → Processed bi header txs (
          executed db
            (confirmed_block db bi header all_txs, relevant_txs db bi all_txs, point_of header)
            r)
  unfolding executed
  executed-Processed bi header txs all_txs (none, store) p e = succeeded all_txs store p e
  executed-Processed bi header txs all_txs (some x, store) p e =
      let calls = writer_calls db bi header all_txs in
      let fails : (execute bi.store calls).0 ≡ some x = ap (λ r. r.0) e in
      failed x store (record {
        outputs = λ i.
            ap (λ r. get_tx_output r.1 i) (sym e)
            ∙ db.get_tx_output_failed bi.store calls x fails i;
        latest =
            ap (λ r. get_latest_block_point r.1) (sym e)
            ∙ db.get_latest_failed bi.store calls x fails;
      })

  populated-Processed :
      (bi : BlockIndexer db) (header : BlockHeader) (txs : List Tx) (r : Result Error (List Tx))
      → populate_outputs_for_each_input db bi.store txs ≡ r
      → Processed bi header txs (populated_block db bi header r)
  unfolding populated_block
  populated-Processed bi header txs (err x) p =
      failed x bi.store (record { outputs = λ i. refl; latest = refl })
  populated-Processed bi header txs (ok all_txs) p =
      executed-Processed bi header txs all_txs _ p refl

  pub process_block-Processed :
      (bi : BlockIndexer db) (header : BlockHeader) (txs : List Tx)
      → Processed bi header txs (process_block db bi header txs)
  unfolding process_block
  process_block-Processed bi header txs = populated-Processed bi header txs _ refl

  -- How a `RollForward` on a full queue with the oldest block `first` ends.
  pub data Advanced (bi : BlockIndexer db) (handler : Handler db) (header first : BlockHeader)
      (retrieved : Result Error (List Tx)) : Forwarded db → Type 0 where
    failed :
        (e : Error) (store : Store)
        → SameReads store bi.store
        → Advanced bi handler header first retrieved
            (some (process_confirmed_block e), none, record bi { store = store })
    confirmed :
        (txs all_txs : List Tx) (store : Store)
        → retrieved ≡ ok txs
        → populate_outputs_for_each_input db bi.store txs ≡ ok all_txs
        → execute bi.store (writer_calls db bi first all_txs) ≡ (none, store)
        → Advanced bi handler header first retrieved (
          handler (confirmed_block db bi first all_txs) (relevant_txs db bi all_txs),
          some (confirmed_block db bi first all_txs, relevant_txs db bi all_txs),
          record bi {
            latest_block_point = some (point_of first);
            unconfirmed_blocks =
                push_header (CircularQueue.pop zero_header bi.unconfirmed_blocks).1 header;
            store = store;
          },
        )

  confirmed-Advanced :
      (bi : BlockIndexer db) (handler : Handler db) (header first : BlockHeader) (txs : List Tx)
      (retrieved : Result Error (List Tx)) (r : Result Error (Confirmed db) × Store)
      → retrieved ≡ ok txs
      → Processed bi first txs r
      → Advanced bi handler header first retrieved (confirmed_forward db bi handler header r)
  unfolding confirmed_forward
  confirmed-Advanced bi handler header first txs retrieved r e (Processed.failed x store same) =
      Advanced.failed x store same
  confirmed-Advanced bi handler header first txs retrieved r e
        (Processed.succeeded all_txs store p q) =
      Advanced.confirmed txs all_txs store e p q

  retrieved-Advanced :
      (bi : BlockIndexer db) (handler : Handler db) (header first : BlockHeader)
      (retrieved : Result Error (List Tx))
      → CircularQueue.peek zero_header bi.unconfirmed_blocks ≡ first
      → Advanced bi handler header first retrieved
          (retrieved_forward db bi handler header retrieved)
  unfolding retrieved_forward
  retrieved-Advanced bi handler header first (err x) e =
      Advanced.failed x bi.store (record { outputs = λ i. refl; latest = refl })
  retrieved-Advanced bi handler header first (ok txs) e = rw e (
      confirmed-Advanced bi handler header first txs (ok txs) _ refl
        (process_block-Processed bi first txs))

  -- On a full queue the oldest block is processed.
  pub roll_forward-Advanced :
      (bi : BlockIndexer db) (handler : Handler db) (header : BlockHeader)
      (retriever : BlockHeader → Result Error (List Tx)) {k : ℕ} (first : BlockHeader)
      (xs : List BlockHeader)
      → Holds k bi.unconfirmed_blocks (first ∷ xs)
      → length (first ∷ xs) ≡ k
      → Advanced bi handler header first
          (retriever first)
          (roll_forward db bi handler header retriever)
  unfolding roll_forward
  roll_forward-Advanced bi handler header retriever {k} first xs h e =
      let full : (length (first ∷ xs) == k) ≡ true = ground arith in
      let p = peek-Holds first xs h in
      rw (is_full-Holds h ∙ full)
        (rw p (retrieved-Advanced bi handler header first (retriever first) p))

  -- `RollForward` makes room for the block at once, or processes the oldest one.
  pub roll_forward-cases :
      (bi : BlockIndexer db) (handler : Handler db) (header : BlockHeader)
      (retriever : BlockHeader → Result Error (List Tx))
      → let first = CircularQueue.peek zero_header bi.unconfirmed_blocks in
        (roll_forward db bi handler header retriever ≡ (
          none,
          none,
          record bi { unconfirmed_blocks = push_header bi.unconfirmed_blocks header },
        ))
        ⊎ Advanced bi handler header first
            (retriever first)
            (roll_forward db bi handler header retriever)
  unfolding roll_forward
  roll_forward-cases bi handler header retriever =
      let first = CircularQueue.peek zero_header bi.unconfirmed_blocks in
      elim (Bool-cases (CircularQueue.is_full bi.unconfirmed_blocks)) [
        | inl full ↦
            inr (rw full (retrieved-Advanced bi handler header first (retriever first) refl))
        | inr room ↦ inl (rw room)
      ]
