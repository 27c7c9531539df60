-- ===== src/Indexer/Bbolt/Writer.antt =====
-- What a transaction of indexer/db/bbolt/bbolt_txwriter.go does to the stored outputs.
use cardano_infrastructure.Base.{
  ◌≡◌, refl, ◌∙◌, ap, sym, subst, Bool, true, false, Option, none, some, List, [], ◌∷◌, ◌++◌,
  Result, ok, Bytes, bytes_eq, bytes_eq_refl, bytes_eq_sound, arith, eq_of_ok, bind-eq-ok,
  Bool-cases, inl, inr, Elem, here, there, append_assoc,
}
use cardano_infrastructure.Indexer.Data.{
  Error, TxInput, TxOutput, BlockHeader, Tx, tx_input_key, zero_output, is_not_used,
}
use cardano_infrastructure.Indexer.Database.{
  WriterCall, remove_tx_outputs, add_confirmed_txs, add_confirmed_block, set_latest_block_point,
  add_tx_outputs,
}
use cardano_infrastructure.Indexer.BlockIndexer.{
  BlockIndexer, writer_calls, outputs_to_remove, outputs_to_save, relevant_txs, confirmed_block,
  point_of,
}
use cardano_infrastructure.Indexer.Bbolt.External.{Buckets, Bolt, Json}
use cardano_infrastructure.Indexer.Bbolt.{
  remove_output, remove_outputs, mark_used, run_operation, run_operations, queued, operations,
  execute, decoded, get_tx_output,
}
use cardano_infrastructure.Indexer.Bbolt.Instance.{decoded-marshal, bbolt_db}

operations-append :
    (xs ys : List WriterCall) → operations (xs ++ ys) ≡ operations xs ++ operations ys
unfolding operations
operations-append [] ys = refl
operations-append (x ∷ xs) ys =
    ap (λ l. queued x ++ l) (operations-append xs ys)
    ∙ sym (append_assoc (queued x) (operations xs) (operations ys))

module _ (bolt : Bolt) (json : Json) where
  open bolt use {Bucket, get, put, delete, Db, view, update}

  -- What the bucket has for an input.
  stored : Bucket → TxInput → Result Error TxOutput
  stored b i = decoded json.outputs zero_output (get b (tx_input_key i))

  -- No usable output is read for the input.
  IsSpent : Bucket → TxInput → Type 0
  IsSpent b i = (out : TxOutput) → stored b i ≡ ok out → is_not_used out ≡ false

  IsSpent-of_get :
      (b b' : Bucket) (i : TxInput)
      → get b' (tx_input_key i) ≡ get b (tx_input_key i)
      → IsSpent b i
      → IsSpent b' i
  unfolding IsSpent stored
  IsSpent-of_get b b' i e h out r = h out (ap (decoded json.outputs zero_output) (sym e) ∙ r)

  IsSpent-of_zero : (b : Bucket) (i : TxInput) → stored b i ≡ ok zero_output → IsSpent b i
  unfolding IsSpent is_not_used bytes_eq
  IsSpent-of_zero b i e out r =
      subst (λ o. is_not_used o ≡ false) {x = zero_output} (eq_of_ok (sym e ∙ r)) refl

  IsSpent-of_none : (b : Bucket) (i : TxInput) → get b (tx_input_key i) ≡ none → IsSpent b i
  unfolding stored decoded
  IsSpent-of_none b i e = IsSpent-of_zero b i (ap (decoded json.outputs zero_output) e)

  IsSpent-of_empty : (b : Bucket) (i : TxInput) → get b (tx_input_key i) ≡ some [] → IsSpent b i
  unfolding stored decoded
  IsSpent-of_empty b i e = IsSpent-of_zero b i (ap (decoded json.outputs zero_output) e)

  used_is_spent : (o : TxOutput) → is_not_used (record o { is_used = true }) ≡ false
  unfolding is_not_used
  used_is_spent o = ground arith

  -- A soft delete leaves no usable output under its key.
  marked :
      (b b' : Bucket) (i : TxInput) (found : Option Bytes)
      → get b (tx_input_key i) ≡ found
      → mark_used bolt json b (tx_input_key i) found ≡ ok b'
      → IsSpent b' i
  unfolding mark_used IsSpent stored
  marked b b' i none e h = subst (λ x. IsSpent x i) (eq_of_ok h) (IsSpent-of_none b i e)
  marked b b' i (some []) e h = subst (λ x. IsSpent x i) (eq_of_ok h) (IsSpent-of_empty b i e)
  marked b b' i (some (x ∷ xs)) e h =
      let key = tx_input_key i in
      let (result, u, h') = bind-eq-ok (json.outputs.unmarshal (x ∷ xs)) _ h in
      let used : TxOutput = record result { is_used = true } in
      let (bytes, m, h'') = bind-eq-ok (json.outputs.marshal used) _ h' in
      let text = json.used_IsText result (json.outputs.unmarshal-IsText result (x ∷ xs) u) in
      let read : get b' key ≡ some bytes =
        bolt.get-put b b' key bytes key h'' ∙ rw (bytes_eq_refl key) refl in
      let now : stored b' i ≡ ok used =
        ap (decoded json.outputs zero_output) read
        ∙ decoded-marshal bolt json json.outputs zero_output used bytes text m in
      λ out r. subst (λ o. is_not_used o ≡ false) (eq_of_ok (sym now ∙ r)) (used_is_spent result)

  removed-IsSpent :
      (soft : Bool) (b b' : Bucket) (i : TxInput)
      → remove_output bolt json soft b i ≡ ok b'
      → IsSpent b' i
  unfolding remove_output
  removed-IsSpent false b b' i h =
      let key = tx_input_key i in
      IsSpent-of_none b' i (bolt.get-delete b b' key key h ∙ rw (bytes_eq_refl key) refl)
  removed-IsSpent true b b' i h = marked b b' i (get b (tx_input_key i)) refl h

  -- A removal leaves what is stored under another key.
  marked_other :
      (b b' : Bucket) (key other : Bytes) (found : Option Bytes)
      → bytes_eq key other ≡ false
      → mark_used bolt json b key found ≡ ok b'
      → get b' other ≡ get b other
  unfolding mark_used
  marked_other b b' key other none ne h = ap (λ x. get x other) (sym (eq_of_ok h))
  marked_other b b' key other (some []) ne h = ap (λ x. get x other) (sym (eq_of_ok h))
  marked_other b b' key other (some (x ∷ xs)) ne h =
      let (result, u, h') = bind-eq-ok (json.outputs.unmarshal (x ∷ xs)) _ h in
      let (bytes, m, h'') =
        bind-eq-ok (json.outputs.marshal (record result { is_used = true })) _ h' in
      bolt.get-put b b' key bytes other h'' ∙ rw ne refl

  removed_other :
      (soft : Bool) (b b' : Bucket) (i : TxInput) (other : Bytes)
      → bytes_eq (tx_input_key i) other ≡ false
      → remove_output bolt json soft b i ≡ ok b'
      → get b' other ≡ get b other
  unfolding remove_output
  removed_other false b b' i other ne h = bolt.get-delete b b' (tx_input_key i) other h ∙ rw ne refl
  removed_other true b b' i other ne h =
      marked_other b b' (tx_input_key i) other (get b (tx_input_key i)) ne h

  -- What is spent stays spent under further removals.
  removed_keeps :
      (soft : Bool) (b b' : Bucket) (i j : TxInput)
      → remove_output bolt json soft b i ≡ ok b'
      → IsSpent b j
      → IsSpent b' j
  unfolding IsSpent stored
  removed_keeps soft b b' i j h s = elim (Bool-cases (bytes_eq (tx_input_key i) (tx_input_key j))) [
    | inl same ↦
        let e = bytes_eq_sound (tx_input_key i) (tx_input_key j) same in
        let r = removed-IsSpent soft b b' i h in
        λ out q. r out (ap (λ k. decoded json.outputs zero_output (get b' k)) e ∙ q)
    | inr ne ↦ IsSpent-of_get b b' j (removed_other soft b b' i (tx_input_key j) ne h) s
  ]

  removals_keep :
      (soft : Bool) (ins : List TxInput) (b b' : Bucket) (j : TxInput)
      → remove_outputs bolt json soft b ins ≡ ok b'
      → IsSpent b j
      → IsSpent b' j
  unfolding remove_outputs
  removals_keep soft [] b b' j h s = subst (λ x. IsSpent x j) (eq_of_ok h) s
  removals_keep soft (i ∷ ins) b b' j h s =
      let (b1, first, rest) = bind-eq-ok (remove_output bolt json soft b i) _ h in
      removals_keep soft ins b1 b' j rest (removed_keeps soft b b1 i j first s)

  removals-IsSpent :
      (soft : Bool) (ins : List TxInput) (b b' : Bucket) (j : TxInput)
      → remove_outputs bolt json soft b ins ≡ ok b'
      → Elem j ins
      → IsSpent b' j
  unfolding remove_outputs
  removals-IsSpent soft [] b b' j h m = elim m [ ]
  removals-IsSpent soft (i ∷ ins) b b' j h (here e) =
      let (b1, first, rest) = bind-eq-ok (remove_output bolt json soft b i) _ h in
      removals_keep soft ins b1 b' j rest
        (subst (IsSpent b1) (sym e) (removed-IsSpent soft b b1 i first))
  removals-IsSpent soft (i ∷ ins) b b' j h (there m) =
      let (b1, first, rest) = bind-eq-ok (remove_output bolt json soft b i) _ h in
      removals-IsSpent soft ins b1 b' j rest m

  -- The operations that end with a removal.
  last_removal :
      (calls : List WriterCall) (soft : Bool) (ins : List TxInput) (tx tx' : Buckets Bucket)
      (j : TxInput)
      → run_operations bolt json (calls ++ operations (remove_tx_outputs ins soft ∷ [])) tx ≡ ok tx'
      → Elem j ins
      → IsSpent tx'.tx_outputs j
  unfolding run_operations operations queued run_operation
  last_removal [] soft [] tx tx' j h m = elim m [ ]
  last_removal [] soft (i ∷ ins) tx tx' j h m =
      let (tx1, first, rest) =
        bind-eq-ok (run_operation bolt json tx (remove_tx_outputs (i ∷ ins) soft)) _ h in
      let (b, removal, e) =
        bind-eq-ok (remove_outputs bolt json soft tx.tx_outputs (i ∷ ins)) _ first in
      subst (λ x. IsSpent x.tx_outputs j) (eq_of_ok rest)
        (subst (λ x. IsSpent x.tx_outputs j) (eq_of_ok e)
          (removals-IsSpent soft (i ∷ ins) tx.tx_outputs b j removal m))
  last_removal (call ∷ calls) soft ins tx tx' j h m =
      let (tx1, first, rest) = bind-eq-ok (run_operation bolt json tx call) _ h in
      last_removal calls soft ins tx1 tx' j rest m

  -- After a transaction that ends with a removal.
  executed_removal :
      (db : Db) (calls : List WriterCall) (soft : Bool) (ins : List TxInput) (j : TxInput)
      → (execute bolt json db (calls ++ (remove_tx_outputs ins soft ∷ []))).0 ≡ none
      → Elem j ins
      → IsSpent
          (view (execute bolt json db (calls ++ (remove_tx_outputs ins soft ∷ []))).1).tx_outputs
          j
  unfolding execute
  executed_removal db calls soft ins j e m =
      let last = remove_tx_outputs ins soft ∷ [] in
      let done =
        bolt.update_committed db (run_operations bolt json (operations (calls ++ last))) e in
      last_removal (operations calls) soft ins (view db) _ j
        (ap (λ ops. run_operations bolt json ops (view db)) (sym (operations-append calls last))
          ∙ done)
        m

  -- After the transaction of a confirmed block has been executed, the database has no usable output
  -- for any input that the block removes: not the output that was stored before, nor one that the
  -- same transaction added. It is gone, or marked as used by a soft delete.
  pub confirmed_block-spends :
      (bi : BlockIndexer (bbolt_db bolt json)) (header : BlockHeader) (all_txs : List Tx)
      (j : TxInput) (out : TxOutput)
      → (execute bolt json bi.store (writer_calls (bbolt_db bolt json) bi header all_txs)).0 ≡ none
      → Elem j (outputs_to_remove (bbolt_db bolt json) bi all_txs)
      → get_tx_output bolt json
          (execute bolt json bi.store (writer_calls (bbolt_db bolt json) bi header all_txs)).1
          j
        ≡ ok out
      → is_not_used out ≡ false
  unfolding writer_calls get_tx_output IsSpent stored
  confirmed_block-spends bi header all_txs j out e m r =
      executed_removal bi.store
        (add_confirmed_txs (relevant_txs (bbolt_db bolt json) bi all_txs)
          ∷ add_confirmed_block (confirmed_block (bbolt_db bolt json) bi header all_txs)
          ∷ set_latest_block_point (some (point_of header))
          ∷ add_tx_outputs (outputs_to_save (bbolt_db bolt json) bi all_txs)
          ∷ [])
        bi.config.soft_delete_utxo (outputs_to_remove (bbolt_db bolt json) bi all_txs) j e m out r
