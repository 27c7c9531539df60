-- ===== src/Indexer/BlockIndexer/Interest.antt =====
-- Which transactions of a confirmed block indexer/block_indexer.go keeps, and which stored outputs
-- they add and remove.
use cardano_infrastructure.Base.{
  ◌≡◌, ◌∙◌, ap, sym, subst, true, false, ◌||◌, List, [], ◌∷◌, ok, arith, inl, inr, Bytes, All,
  All-append, Elem, here, there, Elem-append_left, Elem-append_right, Bool-cases, bytes_eq,
  bytes_eq_refl, ◌==◌, bit_and, eq_of_ok, bind-eq-ok,
}
use cardano_infrastructure.Indexer.Data.{Tx, TxInput, TxInputOutput, TxOutput}
use cardano_infrastructure.Indexer.Utils.{contains, wanted, get_tx_inputs, inputs_of}
use cardano_infrastructure.Indexer.Database.{BlockIndexerDb}
use cardano_infrastructure.Indexer.BlockIndexer.{
  BlockIndexerConfig, BlockIndexer, populated_output, populate_inputs,
  populate_outputs_for_each_input, filter_loop, filter_txs_of_interest, relevant_txs,
  outputs_to_remove, address_check_inputs, is_tx_input_of_interest, is_tx_output_of_interest,
  any_input,
}

module _ (db : BlockIndexerDb) where
  open db use {Store, get_tx_output}

  -- The input carries what the database has for it.
  abbrev Resolved : Store → TxInputOutput → Type 0
  Resolved store inp = get_tx_output store inp.input ≡ ok inp.output

  -- A retriever leaves the outputs of the inputs empty.
  abbrev pub IsBlank : Tx → Type 0
  IsBlank tx = All (λ inp. inp.output.address ≡ []) tx.inputs

  populated_output-blank :
      (store : Store) (inp : TxInputOutput)
      → inp.output.address ≡ []
      → populated_output db store inp ≡ get_tx_output store inp.input
  unfolding populated_output
  populated_output-blank store inp b =
      let blank : bytes_eq inp.output.address [] ≡ true = rw b (bytes_eq_refl []) in rw blank

  populate_inputs-Resolved :
      (store : Store) (inps inps' : List TxInputOutput)
      → All (λ inp. inp.output.address ≡ []) inps
      → populate_inputs db store inps ≡ ok inps'
      → All (Resolved store) inps'
  unfolding populate_inputs
  populate_inputs-Resolved store [] inps' b e = subst (All (Resolved store)) (eq_of_ok e) tt
  populate_inputs-Resolved store (inp ∷ inps) inps' (b, bs) e =
      let (out, p, e') = bind-eq-ok (populated_output db store inp) _ e in
      let (rest, q, e'') = bind-eq-ok _ _ e' in
      let found : get_tx_output store inp.input ≡ ok out =
        sym (populated_output-blank store inp b) ∙ p in
      subst (All (Resolved store)) {x = record inp { output = out } ∷ rest} (eq_of_ok e'')
        (found, populate_inputs-Resolved store inps rest bs q)

  ResolvedTx : Store → Tx → Type 0
  ResolvedTx store tx = All (Resolved store) tx.inputs

  populate-Resolved :
      (store : Store) (txs all_txs : List Tx)
      → All IsBlank txs
      → populate_outputs_for_each_input db store txs ≡ ok all_txs
      → All (ResolvedTx store) all_txs
  unfolding populate_outputs_for_each_input ResolvedTx
  populate-Resolved store [] all_txs b e = subst (All (ResolvedTx store)) (eq_of_ok e) tt
  populate-Resolved store (tx ∷ txs) all_txs (b, bs) e =
      let (inps, p, e') = bind-eq-ok _ _ e in
      let (rest, q, e'') = bind-eq-ok _ _ e' in
      let found : All (Resolved store) inps = populate_inputs-Resolved store tx.inputs inps b p in
      subst (All (ResolvedTx store)) {x = record tx { inputs = inps } ∷ rest} (eq_of_ok e'')
        (found, populate-Resolved store txs rest bs q)

  filter_loop-All :
      (P : Tx → Type 0) (config : BlockIndexerConfig) (interest : List Bytes) (txs : List Tx)
      → All P txs
      → All P (filter_loop config interest txs)
  unfolding filter_loop
  filter_loop-All P config interest [] a = tt
  filter_loop-All P config interest (tx ∷ txs) (p, a) =
      let rest = filter_loop-All P config interest txs a in
      elim (Bool-cases (
        is_tx_input_of_interest config interest tx
        || is_tx_output_of_interest config interest tx)) [
          | inl e ↦ rw e (p, rest)
          | inr e ↦ rw e rest
        ]

  -- What the removal of an input rests on.
  abbrev pub WasStored : Store → List Bytes → TxInput → Type 0
  WasStored store interest i =
      (out : TxOutput) × (get_tx_output store i ≡ ok out) × (contains interest out.address ≡ true)

  inputs_of-WasStored :
      (store : Store) (x : Bytes) (interest : List Bytes) (inps : List TxInputOutput)
      → All (Resolved store) inps
      → All (WasStored store (x ∷ interest)) (inputs_of (x ∷ interest) inps)
  unfolding inputs_of wanted
  inputs_of-WasStored store x interest [] a = tt
  inputs_of-WasStored store x interest (inp ∷ inps) (r, a) =
      let rest = inputs_of-WasStored store x interest inps a in
      elim (Bool-cases (contains (x ∷ interest) inp.output.address)) [
        | inl e ↦ rw e ((inp.output, r, e), rest)
        | inr e ↦ rw e rest
      ]

  get_tx_inputs-WasStored :
      (store : Store) (x : Bytes) (interest : List Bytes) (txs : List Tx)
      → All (ResolvedTx store) txs
      → All (WasStored store (x ∷ interest)) (get_tx_inputs txs (x ∷ interest))
  unfolding get_tx_inputs ResolvedTx
  get_tx_inputs-WasStored store x interest [] a = tt
  get_tx_inputs-WasStored store x interest (tx ∷ txs) (r, a) =
      All-append (WasStored store (x ∷ interest)) (inputs_of (x ∷ interest) tx.inputs)
        (get_tx_inputs txs (x ∷ interest)) (inputs_of-WasStored store x interest tx.inputs r)
        (get_tx_inputs-WasStored store x interest txs a)

  -- If the indexer keeps only the outputs of its addresses of interest, there is one or more, and
  -- the inputs of the block came without outputs, then each input that it removes from the database
  -- had an output of such an address stored before the block.
  pub removed-WasStored :
      (bi : BlockIndexer db) (txs all_txs : List Tx) (x : Bytes) (interest : List Bytes)
      → bi.config.keep_all_tx_outputs_in_db ≡ false
      → bi.addresses_of_interest ≡ x ∷ interest
      → All IsBlank txs
      → populate_outputs_for_each_input db bi.store txs ≡ ok all_txs
      → All (WasStored bi.store bi.addresses_of_interest) (outputs_to_remove db bi all_txs)
  unfolding outputs_to_remove relevant_txs filter_txs_of_interest
  removed-WasStored bi txs all_txs x interest k a b e = simp k (
      rw a (
        get_tx_inputs-WasStored bi.store x interest (filter_loop bi.config (x ∷ interest) all_txs) (
          filter_loop-All (ResolvedTx bi.store) bi.config (x ∷ interest) all_txs
            (populate-Resolved bi.store txs all_txs b e))))

  any_input-Elem :
      (interest : List Bytes) (inps : List TxInputOutput) (inp : TxInputOutput)
      → Elem inp inps
      → contains interest inp.output.address ≡ true
      → any_input interest inps ≡ true
  unfolding any_input
  any_input-Elem interest [] inp h c = elim h [ ]
  any_input-Elem interest (x ∷ xs) inp (here e) c =
      let c' : contains interest x.output.address ≡ true =
        subst (λ t. contains interest t.output.address ≡ true) e c in
      rw c'
  any_input-Elem interest (x ∷ xs) inp (there h) c =
      ground (arith, any_input-Elem interest xs inp h c)

  inputs_of-Elem :
      (x : Bytes) (interest : List Bytes) (inps : List TxInputOutput) (inp : TxInputOutput)
      → Elem inp inps
      → contains (x ∷ interest) inp.output.address ≡ true
      → Elem inp.input (inputs_of (x ∷ interest) inps)
  unfolding inputs_of wanted
  inputs_of-Elem x interest [] inp h c = elim h [ ]
  inputs_of-Elem x interest (y ∷ ys) inp (here e) c =
      let c' : contains (x ∷ interest) y.output.address ≡ true =
        subst (λ t. contains (x ∷ interest) t.output.address ≡ true) e c in
      rw c' (here (ap (λ t. t.input) e))
  inputs_of-Elem x interest (y ∷ ys) inp (there h) c =
      let rest = inputs_of-Elem x interest ys inp h c in
      elim (Bool-cases (contains (x ∷ interest) y.output.address)) [
        | inl e ↦ rw e (there rest)
        | inr e ↦ rw e rest
      ]

  filter_loop-Elem :
      (config : BlockIndexerConfig) (interest : List Bytes) (txs : List Tx) (tx : Tx)
      → Elem tx txs
      → is_tx_input_of_interest config interest tx ≡ true
      → Elem tx (filter_loop config interest txs)
  unfolding filter_loop
  filter_loop-Elem config interest [] tx h c = elim h [ ]
  filter_loop-Elem config interest (y ∷ ys) tx (here e) c =
      let c' : is_tx_input_of_interest config interest y ≡ true =
        subst (λ t. is_tx_input_of_interest config interest t ≡ true) e c in
      rw c' (here e)
  filter_loop-Elem config interest (y ∷ ys) tx (there h) c =
      let rest = filter_loop-Elem config interest ys tx h c in
      elim (Bool-cases
        (is_tx_input_of_interest config interest y || is_tx_output_of_interest config interest y)) [
          | inl e ↦ rw e (there rest)
          | inr e ↦ rw e rest
        ]

  get_tx_inputs-Elem :
      (x : Bytes) (interest : List Bytes) (txs : List Tx) (tx : Tx) (inp : TxInputOutput)
      → Elem tx txs
      → Elem inp tx.inputs
      → contains (x ∷ interest) inp.output.address ≡ true
      → Elem inp.input (get_tx_inputs txs (x ∷ interest))
  unfolding get_tx_inputs
  get_tx_inputs-Elem x interest [] tx inp h i c = elim h [ ]
  get_tx_inputs-Elem x interest (y ∷ ys) tx inp (here e) i c =
      Elem-append_left inp.input (inputs_of (x ∷ interest) y.inputs)
        (get_tx_inputs ys (x ∷ interest))
        (inputs_of-Elem x interest y.inputs inp (subst (λ t. Elem inp t.inputs) e i) c)
  get_tx_inputs-Elem x interest (y ∷ ys) tx inp (there h) i c =
      Elem-append_right inp.input (inputs_of (x ∷ interest) y.inputs)
        (get_tx_inputs ys (x ∷ interest)) (get_tx_inputs-Elem x interest ys tx inp h i c)

  -- If the indexer keeps only the outputs of its addresses of interest, there is one or more, and
  -- inputs are checked, then a transaction of a block with an input whose output has such an address
  -- is kept, and that input is removed from the database.
  pub spent-removed :
      (bi : BlockIndexer db) (all_txs : List Tx) (x : Bytes) (interest : List Bytes) (tx : Tx)
      (inp : TxInputOutput)
      → bi.config.keep_all_tx_outputs_in_db ≡ false
      → bi.addresses_of_interest ≡ x ∷ interest
      → (bit_and bi.config.address_check address_check_inputs == 0) ≡ false
      → Elem tx all_txs
      → Elem inp tx.inputs
      → contains bi.addresses_of_interest inp.output.address ≡ true
      → Elem tx (relevant_txs db bi all_txs) × Elem inp.input (outputs_to_remove db bi all_txs)
  unfolding outputs_to_remove relevant_txs filter_txs_of_interest is_tx_input_of_interest
  spent-removed bi all_txs x interest tx inp k a b h i c =
      let c' : contains (x ∷ interest) inp.output.address ≡ true =
        subst (λ l. contains l inp.output.address ≡ true) a c in
      let relevant =
        filter_loop-Elem bi.config (x ∷ interest) all_txs tx h
          (rw b (any_input-Elem (x ∷ interest) tx.inputs inp i c')) in
      simp k (
        rw a (
          relevant,
          get_tx_inputs-Elem x interest (filter_loop bi.config (x ∷ interest) all_txs) tx inp
              relevant i c',
        ))
