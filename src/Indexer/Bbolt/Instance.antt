-- ===== src/Indexer/Bbolt/Instance.antt =====
-- The database of indexer/db/bbolt is one that indexer/block_indexer.go can work with: it has the
-- interface `BlockIndexerDB` and the properties that the block indexer relies on.
use cardano_infrastructure.Base.{
  ◌≡◌, refl, ◌∙◌, ap, sym, subst, Option, none, some, List, [], ◌∷◌, ok, Bytes, bytes_eq_refl,
  arith, eq_of_ok, bind-eq-ok,
}
use cardano_infrastructure.Indexer.Data.{
  Error, BlockPoint, TxInput, cardano_block_key, tx_input_key, zero_point, zero_output,
}
use cardano_infrastructure.Indexer.Database.{
  WriterCall, set_latest_block_point, add_tx_outputs, add_confirmed_block, add_confirmed_txs,
  remove_tx_outputs, delete_all_tx_outputs_physically, latest_of, BlockIndexerDb,
}
use cardano_infrastructure.Indexer.Bbolt.External.{Buckets, Bolt, Json, Codec}
use cardano_infrastructure.Indexer.Bbolt.{
  default_key, put_outputs, put_txs, remove_outputs, run_operation, run_operations, queued,
  operations, execute, decoded, get_latest_block_point, get_tx_output,
}

-- Dropping the calls with empty lists does not change which point is set last.
latest_of-operations :
    (p : Option BlockPoint) (calls : List WriterCall)
    → latest_of p (operations calls) ≡ latest_of p calls
unfolding operations queued
latest_of-operations p [] = refl
latest_of-operations p (set_latest_block_point q ∷ calls) = latest_of-operations q calls
latest_of-operations p (add_tx_outputs [] ∷ calls) = latest_of-operations p calls
latest_of-operations p (add_tx_outputs (x ∷ xs) ∷ calls) = latest_of-operations p calls
latest_of-operations p (add_confirmed_block b ∷ calls) = latest_of-operations p calls
latest_of-operations p (add_confirmed_txs [] ∷ calls) = latest_of-operations p calls
latest_of-operations p (add_confirmed_txs (x ∷ xs) ∷ calls) = latest_of-operations p calls
latest_of-operations p (remove_tx_outputs [] soft ∷ calls) = latest_of-operations p calls
latest_of-operations p (remove_tx_outputs (x ∷ xs) soft ∷ calls) = latest_of-operations p calls
latest_of-operations p (delete_all_tx_outputs_physically ∷ calls) = latest_of-operations p calls

latest_of-cons :
    (o : Option BlockPoint) (call : WriterCall) (calls : List WriterCall)
    → latest_of o (call ∷ calls) ≡ latest_of (latest_of o (call ∷ [])) calls
latest_of-cons o (set_latest_block_point q) calls = refl
latest_of-cons o call calls = refl

module _ (bolt : Bolt) (json : Json) where
  open bolt use {Bucket, get, put, Db, view, update}

  -- The bucket holds the point under its one key.
  Knows : Buckets Bucket → BlockPoint → Type 0
  Knows tx p = decoded json.points none (get tx.latest_block_point default_key) ≡ ok (some p)

  pub decoded-marshal :
      {A : Type 0} (codec : Codec A) (default a : A) (text : Bytes)
      → codec.IsText a
      → codec.marshal a ≡ ok text
      → decoded codec default (some text) ≡ ok a
  unfolding decoded
  decoded-marshal codec default a [] t m = absurd (omega (arith, codec.marshal_pos a [] m))
  decoded-marshal codec default a (b ∷ bs) t m = codec.unmarshal-marshal a (b ∷ bs) t m

  same_latest :
      (tx tx' : Buckets Bucket) (p : BlockPoint)
      → tx'.latest_block_point ≡ tx.latest_block_point
      → Knows tx p
      → Knows tx' p
  unfolding Knows
  same_latest tx tx' p e h =
      subst (λ b. decoded json.points none (get b default_key) ≡ ok (some p)) (sym e) h

  set_latest-Knows :
      (tx tx' : Buckets Bucket) (p : BlockPoint)
      → json.points.IsText (some p)
      → run_operation bolt json tx (set_latest_block_point (some p)) ≡ ok tx'
      → Knows tx' p
  unfolding run_operation Knows
  set_latest-Knows tx tx' p t e =
      let (bytes, m, e') = bind-eq-ok (json.points.marshal (some p)) _ e in
      let (bucket, w, e'') = bind-eq-ok (put tx.latest_block_point default_key bytes) _ e' in
      let read : get bucket default_key ≡ some bytes =
        bolt.get-put tx.latest_block_point bucket default_key bytes default_key w
        ∙ rw (bytes_eq_refl default_key) refl in
      subst (λ b. decoded json.points none (get b default_key) ≡ ok (some p))
        (ap (λ x. x.latest_block_point) (eq_of_ok e''))
        (ap (decoded json.points none) read ∙ decoded-marshal json.points none (some p) bytes t m)

  -- No operation but `SetLatestBlockPoint` touches the point.
  latest_kept :
      (tx tx' : Buckets Bucket) (call : WriterCall)
      → ((q : Option BlockPoint) → latest_of q (call ∷ []) ≡ q)
      → run_operation bolt json tx call ≡ ok tx'
      → tx'.latest_block_point ≡ tx.latest_block_point
  unfolding run_operation
  latest_kept tx tx' (set_latest_block_point p) h e = cc (sym (h none) ∙ h (some zero_point))
  latest_kept tx tx' (add_tx_outputs outs) h e =
      let (b, p, e') = bind-eq-ok (put_outputs bolt json tx.tx_outputs outs) _ e in
      ap (λ x. x.latest_block_point) (sym (eq_of_ok e'))
  latest_kept tx tx' (add_confirmed_block block) h e =
      let (bytes, m, e') = bind-eq-ok (json.blocks.marshal block) _ e in
      let (b, p, e'') = bind-eq-ok (put tx.confirmed_blocks (cardano_block_key block) bytes) _ e' in
      ap (λ x. x.latest_block_point) (sym (eq_of_ok e''))
  latest_kept tx tx' (add_confirmed_txs txs) h e =
      let (b, p, e') = bind-eq-ok (put_txs bolt json tx.unprocessed_txs txs) _ e in
      ap (λ x. x.latest_block_point) (sym (eq_of_ok e'))
  latest_kept tx tx' (remove_tx_outputs ins soft) h e =
      let (b, p, e') = bind-eq-ok (remove_outputs bolt json soft tx.tx_outputs ins) _ e in
      ap (λ x. x.latest_block_point) (sym (eq_of_ok e'))
  latest_kept tx tx' delete_all_tx_outputs_physically h e =
      let (b, p, e') = bind-eq-ok (bolt.recreate tx.tx_outputs) _ e in
      ap (λ x. x.latest_block_point) (sym (eq_of_ok e'))

  kept-Knows :
      (tx tx' : Buckets Bucket) (call : WriterCall) (o : Option BlockPoint) (p : BlockPoint)
      → ((q : Option BlockPoint) → latest_of q (call ∷ []) ≡ q)
      → run_operation bolt json tx call ≡ ok tx'
      → (o ≡ some p → Knows tx p)
      → latest_of o (call ∷ []) ≡ some p
      → Knows tx' p
  kept-Knows tx tx' call o p k e h l =
      same_latest tx tx' p (latest_kept tx tx' call k e) (h (sym (k o) ∙ l))

  step-Knows :
      (tx tx' : Buckets Bucket) (call : WriterCall) (o : Option BlockPoint) (p : BlockPoint)
      → json.points.IsText (some p)
      → run_operation bolt json tx call ≡ ok tx'
      → (o ≡ some p → Knows tx p)
      → latest_of o (call ∷ []) ≡ some p
      → Knows tx' p
  step-Knows tx tx' (set_latest_block_point q) o p t e h l =
      set_latest-Knows tx tx' p t
        (ap (λ x. run_operation bolt json tx (set_latest_block_point x)) (sym l) ∙ e)
  step-Knows tx tx' (add_tx_outputs x) o p t e h l =
      kept-Knows tx tx' (add_tx_outputs x) o p (λ q. refl) e h l
  step-Knows tx tx' (add_confirmed_block x) o p t e h l =
      kept-Knows tx tx' (add_confirmed_block x) o p (λ q. refl) e h l
  step-Knows tx tx' (add_confirmed_txs x) o p t e h l =
      kept-Knows tx tx' (add_confirmed_txs x) o p (λ q. refl) e h l
  step-Knows tx tx' (remove_tx_outputs x soft) o p t e h l =
      kept-Knows tx tx' (remove_tx_outputs x soft) o p (λ q. refl) e h l
  step-Knows tx tx' delete_all_tx_outputs_physically o p t e h l =
      kept-Knows tx tx' delete_all_tx_outputs_physically o p (λ q. refl) e h l

  run_operations-Knows :
      (ops : List WriterCall) (tx tx' : Buckets Bucket) (o : Option BlockPoint) (p : BlockPoint)
      → json.points.IsText (some p)
      → run_operations bolt json ops tx ≡ ok tx'
      → latest_of o ops ≡ some p
      → (o ≡ some p → Knows tx p)
      → Knows tx' p
  unfolding run_operations
  run_operations-Knows [] tx tx' o p t e l h = subst (λ x. Knows x p) (eq_of_ok e) (h l)
  run_operations-Knows (op ∷ ops) tx tx' o p t e l h =
      let (tx1, first, rest) = bind-eq-ok (run_operation bolt json tx op) _ e in
      run_operations-Knows ops tx1 tx' (latest_of o (op ∷ [])) p t rest
        (sym (latest_of-cons o op ops) ∙ l) (step-Knows tx tx1 op o p t first h)

  -- A successful `Execute` of calls of which the last `SetLatestBlockPoint` set `p` makes `p` the
  -- point that is read.
  pub get_latest_executed :
      (db : Db) (calls : List WriterCall) (p : BlockPoint)
      → json.points.IsText (some p)
      → (execute bolt json db calls).0 ≡ none
      → latest_of none calls ≡ some p
      → get_latest_block_point bolt json (execute bolt json db calls).1 ≡ ok (some p)
  unfolding execute get_latest_block_point Knows
  get_latest_executed db calls p t e l =
      run_operations-Knows (operations calls) (view db) _ none p t
        (bolt.update_committed db (run_operations bolt json (operations calls)) e)
        (latest_of-operations none calls ∙ l) (λ h. cc)

  pub get_tx_output_failed :
      (db : Db) (calls : List WriterCall) (e : Error)
      → (execute bolt json db calls).0 ≡ some e
      → (i : TxInput)
      → get_tx_output bolt json (execute bolt json db calls).1 i ≡ get_tx_output bolt json db i
  unfolding execute get_tx_output
  get_tx_output_failed db calls e h i =
      ap (λ tx. decoded json.outputs zero_output (get tx.tx_outputs (tx_input_key i)))
        (bolt.update_failed db (run_operations bolt json (operations calls)) e h)

  pub get_latest_failed :
      (db : Db) (calls : List WriterCall) (e : Error)
      → (execute bolt json db calls).0 ≡ some e
      → get_latest_block_point bolt json (execute bolt json db calls).1
        ≡ get_latest_block_point bolt json db
  unfolding execute get_latest_block_point
  get_latest_failed db calls e h =
      ap (λ tx. decoded json.points none (get tx.latest_block_point default_key))
        (bolt.update_failed db (run_operations bolt json (operations calls)) e h)

  -- The bbolt database behind the interface of the block indexer.
  abbrev pub bbolt_db : BlockIndexerDb
  bbolt_db = record {
    Store = Db;
    get_tx_output = get_tx_output bolt json;
    get_latest_block_point = get_latest_block_point bolt json;
    execute = execute bolt json;
    Storable = λ p. json.points.IsText (some p);
    get_tx_output_failed = get_tx_output_failed;
    get_latest_failed = get_latest_failed;
    get_latest_executed = get_latest_executed;
  }
