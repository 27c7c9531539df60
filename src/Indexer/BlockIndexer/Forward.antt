-- ===== src/Indexer/BlockIndexer/Forward.antt =====
-- `RollForward` of indexer/block_indexer.go: what a failed step leaves alone and what a confirmed
-- block does.
use cardano_infrastructure.Base.{
  ℕ, ◌≡◌, refl, ap, ap₂, sym, subst, eq_of_some, true, some, none, List, [], ◌∷◌, ◌++◌, Result,
  length, inl, inr,
}
use cardano_infrastructure.Indexer.Data.{
  BlockHeader, CardanoBlock, Tx, Error, is_process_confirmed_block, to_cardano_block,
}
use cardano_infrastructure.Indexer.Database.{BlockIndexerDb}
use cardano_infrastructure.Indexer.BlockIndexer.{
  BlockIndexer, Handler, Forwarded, point_of, roll_forward, confirmed_block, relevant_txs,
}
use cardano_infrastructure.Indexer.BlockIndexer.Pending.{
  Holds, length-Holds, push_header-Holds, pop-Holds,
}
use cardano_infrastructure.Indexer.BlockIndexer.Steps.{
  SameReads, Advanced, roll_forward-cases, roll_forward-Advanced,
}

module _ (db : BlockIndexerDb) where
  open db use {Store, get_tx_output, get_latest_block_point}

  -- The indexer as it was: its memory is the same and the database answers every read alike.
  pub record Unchanged (bi' bi : BlockIndexer db) : Type 0 where
    pub config : bi'.config ≡ bi.config
    pub latest : bi'.latest_block_point ≡ bi.latest_block_point
    pub queue : bi'.unconfirmed_blocks ≡ bi.unconfirmed_blocks
    pub addresses : bi'.addresses_of_interest ≡ bi.addresses_of_interest
    pub reads : SameReads db bi'.store bi.store

  -- A call of `RollForward` that stopped before the handler.
  abbrev Stopped : BlockIndexer db → Error → BlockIndexer db → Type 0
  Stopped bi e bi' = Unchanged bi' bi × (is_process_confirmed_block e ≡ true)

  Advanced-failed :
      {bi : BlockIndexer db} {handler : Handler db} {header first : BlockHeader}
      {retrieved : Result Error (List Tx)} {r : Forwarded db} {e : Error}
      → Advanced db bi handler header first retrieved r
      → r.1 ≡ none
      → r.0 ≡ some e
      → Stopped bi e r.2
  unfolding is_process_confirmed_block
  Advanced-failed {e = e} (Advanced.failed x store same) h p = (
    record { config = refl; latest = refl; queue = refl; addresses = refl; reads = same },
    ap is_process_confirmed_block (sym (eq_of_some p)),
  )
  Advanced-failed (Advanced.confirmed txs all_txs store p q r) h k = cc

  -- If `RollForward` returns an error and did not reach the handler of confirmed blocks, then the
  -- error is a `processConfirmedBlockError`, and memory and database are as they were: the step can
  -- be tried again.
  pub roll_forward_failed :
      (bi : BlockIndexer db) (handler : Handler db) (header : BlockHeader)
      (retriever : BlockHeader → Result Error (List Tx)) (e : Error)
      → (roll_forward db bi handler header retriever).1 ≡ none
      → (roll_forward db bi handler header retriever).0 ≡ some e
      → Unchanged (roll_forward db bi handler header retriever).2 bi
        × (is_process_confirmed_block e ≡ true)
  roll_forward_failed bi handler header retriever e h p =
      elim (roll_forward-cases db bi handler header retriever) [
        | inl waits ↦ cc (ap (λ r. r.0) waits)
        | inr advanced ↦ Advanced-failed advanced h p
      ]

  -- What has happened when the block `first` was confirmed and given to the handler.
  pub record Confirms (k : ℕ) (bi bi' : BlockIndexer db) (first header : BlockHeader)
      (xs : List BlockHeader) (block : CardanoBlock) (txs : List Tx) : Type 0 where
    pub is_first : to_cardano_block first block.txs ≡ block
    pub pending : Holds k bi'.unconfirmed_blocks (xs ++ (header ∷ []))
    pub latest : bi'.latest_block_point ≡ some (point_of first)
    pub config : bi'.config ≡ bi.config

  Advanced-Confirms :
      {k : ℕ} {bi : BlockIndexer db} {handler : Handler db} {header first : BlockHeader}
      (xs : List BlockHeader) {retrieved : Result Error (List Tx)} {r : Forwarded db}
      {block : CardanoBlock} {txs : List Tx}
      → Holds k bi.unconfirmed_blocks (first ∷ xs)
      → Advanced db bi handler header first retrieved r
      → r.1 ≡ some (block, txs)
      → Confirms k bi r.2 first header xs block txs × (r.0 ≡ handler block txs)
  unfolding confirmed_block to_cardano_block
  Advanced-Confirms xs h (Advanced.failed e store same) p = cc
  Advanced-Confirms {k} {bi} {handler} {header} {first} xs {block = block} {txs = txs} h
        (Advanced.confirmed retrieved_txs all_txs store e q x) p =
      let both = eq_of_some p in
      let b : confirmed_block db bi first all_txs ≡ block = ap (λ c. c.0) both in
      let t : relevant_txs db bi all_txs ≡ txs = ap (λ c. c.1) both in
      (
        record {
          is_first = subst (λ c. to_cardano_block first c.txs ≡ c) b refl;
          pending = push_header-Holds header (pop-Holds first xs h) (length-Holds h);
          latest = refl;
          config = refl;
        },
        ap₂ handler b t,
      )

  -- If the handler of confirmed blocks is called while `first` and `xs` wait, `k` blocks in all, then
  -- the block that it is given is `first`, its error is returned, `xs` and the new block wait now,
  -- and the latest point in memory is that of `first`.
  pub roll_forward-Confirms :
      (bi : BlockIndexer db) (handler : Handler db) (header : BlockHeader)
      (retriever : BlockHeader → Result Error (List Tx)) (k : ℕ) (first : BlockHeader)
      (xs : List BlockHeader) (block : CardanoBlock) (txs : List Tx)
      → Holds k bi.unconfirmed_blocks (first ∷ xs)
      → length (first ∷ xs) ≡ k
      → (roll_forward db bi handler header retriever).1 ≡ some (block, txs)
      → Confirms k bi (roll_forward db bi handler header retriever).2 first header xs block txs
        × ((roll_forward db bi handler header retriever).0 ≡ handler block txs)
  roll_forward-Confirms bi handler header retriever k first xs block txs h e p =
      Advanced-Confirms xs h (roll_forward-Advanced db bi handler header retriever first xs h e) p
