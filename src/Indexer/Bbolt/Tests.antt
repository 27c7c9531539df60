-- ===== src/Indexer/Bbolt/Tests.antt =====
-- A small store and codec, and the theorems on indexer/db/bbolt at them.
use cardano_infrastructure.Base.{
  ℕ, zero, suc, subst, ◌≡◌, ◌<◌, refl, ◌∙◌, ap, sym, Bool, true, false, Option, none, some, List,
  [], ◌∷◌, Result, ok, err, Bytes, bytes_eq, bytes_eq_sound, arith, length, eq_of_ok, if◌then◌else◌,
  Bool-cases, inl, inr, Elem, here, replicate, ascii,
}
use cardano_infrastructure.Indexer.Data.{
  Error, other, BlockHeader, TxOutput, TxInputOutput, Tx, tx_input_key, tx_key, put_uint,
  cardano_block_key, slot_number_to_key, zero_output, zero_header, is_not_used, to_cardano_block,
}
use cardano_infrastructure.Indexer.Utils.{
  get_tx_hashes, get_tx_inputs, get_tx_outputs, inputs_of, outputs_from, contains, wanted,
}
use cardano_infrastructure.Indexer.BlockIndexer.{
  BlockIndexerConfig, BlockIndexer, writer_calls, outputs_to_remove, outputs_to_save, relevant_txs,
  confirmed_block, filter_txs_of_interest, filter_loop, is_tx_input_of_interest,
  is_tx_output_of_interest, any_input, any_output,
}
use cardano_infrastructure.Indexer.Bbolt.External.{Buckets, Bolt, Json, Codec}
use cardano_infrastructure.Indexer.Bbolt.{
  put_outputs, put_txs, remove_output, remove_outputs, mark_used, run_operation, run_operations,
  queued, operations, execute, decoded, get_tx_output,
}
use cardano_infrastructure.Indexer.Bbolt.Instance.{bbolt_db}
use cardano_infrastructure.Indexer.Bbolt.Writer.{confirmed_block-spends}

-- A bucket is the list of its pairs, the last one written first.
abbrev Pairs : Type 0
Pairs = List (Bytes × Bytes)

find_key : Pairs → Bytes → Option Bytes
find_key [] j = none
find_key ((k, v) ∷ b) j = if bytes_eq k j then some v else find_key b j

drop_key : Pairs → Bytes → Pairs
drop_key [] k = []
drop_key ((i, v) ∷ b) k = let rest = drop_key b k in if bytes_eq i k then rest else (i, v) ∷ rest

find_key-drop_key :
    (b : Pairs) (k j : Bytes)
    → find_key (drop_key b k) j ≡ (if bytes_eq k j then none else find_key b j)
unfolding find_key drop_key
find_key-drop_key [] k j = elim (Bool-cases (bytes_eq k j)) [
  | inl e ↦ rw e refl
  | inr e ↦ rw e refl
]
find_key-drop_key ((i, v) ∷ b) k j = elim (Bool-cases (bytes_eq i k)) [
  | inl e ↦
      rw (e, bytes_eq_sound i k e)
        (find_key-drop_key b k j
          ∙ elim (Bool-cases (bytes_eq k j)) [ inl h ↦ rw h refl | inr h ↦ rw h refl ])
  | inr e ↦ elim (Bool-cases (bytes_eq i j)) [
    | inr h ↦ rw (e, h) (find_key-drop_key b k j)
    | inl h ↦ elim (Bool-cases (bytes_eq k j)) [
      | inl g ↦ absurd (cc (e, bytes_eq_sound k j g, h))
      | inr g ↦ rw (e, h, g) refl
    ]
  ]
]

-- A transaction commits whenever its function has no error.
finish : Buckets Pairs → Result Error (Buckets Pairs) → Option Error × Buckets Pairs
finish db (ok db') = (none, db')
finish db (err e) = (some e, db)

finish_failed :
    (db : Buckets Pairs) (r : Result Error (Buckets Pairs)) (e : Error)
    → (finish db r).0 ≡ some e
    → (finish db r).1 ≡ db
unfolding finish
finish_failed db (ok x) e h = cc h
finish_failed db (err x) e h = refl

finish_committed :
    (db : Buckets Pairs) (r : Result Error (Buckets Pairs))
    → (finish db r).0 ≡ none
    → r ≡ ok (finish db r).1
unfolding finish
finish_committed db (ok x) h = refl
finish_committed db (err x) h = cc h

finish_returns :
    (db : Buckets Pairs) (r : Result Error (Buckets Pairs)) (e : Error)
    → r ≡ err e
    → (finish db r).0 ≡ some e
unfolding finish
finish_returns db r e h = rw h refl

abbrev pairs : Bolt
unfolding find_key finish drop_key
pairs = record {
  Bucket = Pairs;
  get = find_key;
  put = λ b k v. ok ((k, v) ∷ b);
  delete = λ b k. ok (drop_key b k);
  recreate = λ b. ok [];
  cursor = λ b. b;
  seek = λ b k. b;
  get-put = λ b b' k v j e. ap (λ x. find_key x j) (sym (eq_of_ok e));
  get-delete = λ b b' k j e. ap (λ x. find_key x j) (sym (eq_of_ok e)) ∙ find_key-drop_key b k j;
  get-recreate = λ b b' j e. ap (λ x. find_key x j) (sym (eq_of_ok e));
  Db = Buckets Pairs;
  view = λ db. db;
  update = λ db f. finish db (f db);
  update_failed = λ db f e h. finish_failed db (f db) e h;
  update_committed = λ db f h. finish_committed db (f db) h;
  update_returns = λ db f e h. finish_returns db (f db) e h;
}

-- A codec that knows one value.
single_unmarshal : {A : Type 0} → A → Bytes → Result Error A
single_unmarshal a [] = err (other 1)
single_unmarshal a (b ∷ bs) = ok a

single_text : {A : Type 0} (a x : A) (text : Bytes) → single_unmarshal a text ≡ ok x → x ≡ a
unfolding single_unmarshal
single_text a x [] h = cc h
single_text a x (b ∷ bs) h = sym (eq_of_ok h)

single_pos : (text : Bytes) → ◌≡◌ {A = Result Error Bytes} (ok (1 ∷ [])) (ok text) → 0 < length text
single_pos text m = rw (← eq_of_ok m) omega arith

abbrev single : {A : Type 0} → A → Codec A
unfolding single_unmarshal
single a = record {
  marshal = λ x. ok (1 ∷ []);
  unmarshal = single_unmarshal a;
  IsText = λ x. x ≡ a;
  unmarshal-marshal = λ x text t m. ap (single_unmarshal a) (sym (eq_of_ok m)) ∙ ap ok (sym t);
  unmarshal-IsText = λ x text h. single_text a x text h;
  marshal_pos = λ x text m. single_pos text m;
}

abbrev hash : ℕ → Bytes
hash n = replicate 32 n

abbrev header : BlockHeader
header = record { slot = 2; hash = hash 2; number = 2; era_id = 6 }

abbrev stored_output : TxOutput
stored_output = record zero_output { address = ascii "addr1"; amount = 5 }

abbrev spent : TxInputOutput
spent = record { input = record { hash = hash 9; index = 1 }; output = stored_output }

abbrev spending : Tx
spending = record {
  block_slot = 2;
  block_hash = hash 2;
  indx = 0;
  hash = hash 20;
  metadata = [];
  inputs = spent ∷ [];
  outputs = [];
  fee = 1;
  valid = true;
}

-- Outputs are one output, unused or used.
output_text : TxOutput → Bytes
output_text o = if o.is_used then 1 ∷ [] else 0 ∷ []

output_value : Bytes → Result Error TxOutput
output_value [] = err (other 1)
output_value (zero ∷ bs) = ok stored_output
output_value (suc b ∷ bs) = ok (record stored_output { is_used = true })

IsStoredOutput : TxOutput → Type 0
IsStoredOutput o = o ≡ record stored_output { is_used = o.is_used }

output_value-flag :
    (u : Bool)
    → output_value (if u then 1 ∷ [] else 0 ∷ []) ≡ ok (record stored_output { is_used = u })
unfolding output_value
output_value-flag true = refl
output_value-flag false = refl

output_value-text :
    (o : TxOutput) (text : Bytes)
    → IsStoredOutput o
    → ◌≡◌ {A = Result Error Bytes} (ok (output_text o)) (ok text)
    → output_value text ≡ ok o
unfolding output_text IsStoredOutput
output_value-text o text t m =
    ap output_value (sym (eq_of_ok m)) ∙ output_value-flag o.is_used ∙ ap ok (sym t)

output_value-IsStoredOutput :
    (o : TxOutput) (text : Bytes) → output_value text ≡ ok o → IsStoredOutput o
unfolding output_value IsStoredOutput
output_value-IsStoredOutput o [] h = cc h
output_value-IsStoredOutput o (zero ∷ bs) h = subst IsStoredOutput (eq_of_ok h) refl
output_value-IsStoredOutput o (suc n ∷ bs) h = subst IsStoredOutput (eq_of_ok h) refl

output_text_pos :
    (o : TxOutput) (text : Bytes)
    → ◌≡◌ {A = Result Error Bytes} (ok (output_text o)) (ok text)
    → 0 < length text
unfolding output_text
output_text_pos o text m = elim (Bool-cases o.is_used) [
  | inl e ↦ rw (← eq_of_ok m, e) omega arith
  | inr e ↦ rw (← eq_of_ok m, e) omega arith
]

abbrev json : Json
unfolding output_text output_value IsStoredOutput
json = record {
  points = single (some (record { block_slot = 2; block_hash = hash 2 }));
  outputs = record {
    marshal = λ o. ok (output_text o);
    unmarshal = output_value;
    IsText = IsStoredOutput;
    unmarshal-marshal = λ o text t m. output_value-text o text t m;
    unmarshal-IsText = λ o text h. output_value-IsStoredOutput o text h;
    marshal_pos = λ o text m. output_text_pos o text m;
  };
  txs = single spending;
  blocks = single (to_cardano_block header (hash 20 ∷ []));
  used_IsText = λ o t. ap {A = TxOutput} (λ x. record x { is_used = true }) t;
}

abbrev config : BlockIndexerConfig
config = record {
  starting_block_point = none;
  confirmation_block_count = 2;
  addresses_of_interest = ascii "addr1" ∷ [];
  keep_all_tx_outputs_in_db = false;
  address_check = 3;
  soft_delete_utxo = true;
  keep_all_txs_hashes_in_block = false;
}

-- A database with the output that the block spends.
abbrev store : Buckets Pairs
store = record {
  tx_outputs = (tx_input_key spent.input, 0 ∷ []) ∷ [];
  latest_block_point = [];
  processed_txs = [];
  unprocessed_txs = [];
  confirmed_blocks = [];
}

abbrev indexer : BlockIndexer (bbolt_db pairs json)
unfolding pairs
indexer = record {
  config = config;
  latest_block_point = none;
  unconfirmed_blocks = record {
    items = zero_header ∷ zero_header ∷ [];
    count = 0;
    size = 2;
    pos = 0;
  };
  addresses_of_interest = ascii "addr1" ∷ [];
  store = store;
}

to_remove : Elem spent.input (outputs_to_remove (bbolt_db pairs json) indexer (spending ∷ []))
unfolding pairs json indexer outputs_to_remove relevant_txs get_tx_inputs inputs_of wanted contains
    bytes_eq filter_txs_of_interest filter_loop is_tx_input_of_interest is_tx_output_of_interest
    any_input any_output
to_remove = here refl

no_error :
    (execute pairs json indexer.store
      (writer_calls (bbolt_db pairs json) indexer header (spending ∷ []))).0
    ≡ none
unfolding pairs json indexer outputs_to_remove outputs_to_save relevant_txs confirmed_block single
    single_unmarshal execute writer_calls run_operations run_operation operations queued put_outputs
    put_txs remove_outputs remove_output mark_used get_tx_inputs get_tx_outputs outputs_from
    inputs_of wanted contains bytes_eq filter_txs_of_interest filter_loop is_tx_input_of_interest
    is_tx_output_of_interest any_input any_output find_key finish output_text output_value
    tx_input_key tx_key put_uint cardano_block_key slot_number_to_key to_cardano_block get_tx_hashes
no_error = refl

found :
    get_tx_output pairs json
      (execute pairs json indexer.store
        (writer_calls (bbolt_db pairs json) indexer header (spending ∷ []))).1
      spent.input
    ≡ ok (record stored_output { is_used = true })
unfolding pairs json indexer outputs_to_remove outputs_to_save relevant_txs confirmed_block single
    single_unmarshal execute get_tx_output decoded writer_calls run_operations run_operation
    operations queued put_outputs put_txs remove_outputs remove_output mark_used get_tx_inputs
    get_tx_outputs outputs_from inputs_of wanted contains bytes_eq filter_txs_of_interest
    filter_loop is_tx_input_of_interest is_tx_output_of_interest any_input any_output find_key
    finish output_text output_value tx_input_key tx_key put_uint cardano_block_key
    slot_number_to_key to_cardano_block get_tx_hashes
found = refl

confirmed_block-spends_example : is_not_used (record stored_output { is_used = true }) ≡ false
confirmed_block-spends_example =
    confirmed_block-spends pairs json indexer header (spending ∷ []) spent.input
      (record stored_output { is_used = true }) no_error to_remove found
