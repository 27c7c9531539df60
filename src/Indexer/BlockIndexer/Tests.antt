-- ===== src/Indexer/BlockIndexer/Tests.antt =====
-- Runs of indexer/block_indexer.go over a small database, and its theorems at them.
use cardano_infrastructure.Base.{
  ℕ, ◌-◌, ◌≡◌, ◌≤◌, refl, ap, true, false, List, [], ◌∷◌, ◌++◌, Option, some, none, Result, ok, err,
  arith, length, All, Elem, here, replicate, Bytes, ascii, map, bytes_eq,
}
use cardano_infrastructure.Common.CircularQueue.{push, pop, peek, is_full, set_count, find, to_list}
use cardano_infrastructure.Indexer.Data.{
  BlockPoint, BlockHeader, Tx, TxInputOutput, TxOutput, Error, other, zero_output, zero_header,
  process_confirmed_block, is_process_confirmed_block, to_cardano_block,
}
use cardano_infrastructure.Indexer.Utils.{get_tx_hashes, contains}
use cardano_infrastructure.Indexer.Database.{
  BlockIndexerDb, WriterCall, latest_of, set_latest_block_point, add_tx_outputs,
  add_confirmed_block, add_confirmed_txs, remove_tx_outputs, delete_all_tx_outputs_physically,
}
use cardano_infrastructure.Indexer.BlockIndexer.{
  BlockIndexerConfig, BlockIndexer, Handler, point_of, roll_forward, roll_backward, reset,
  process_block, writer_calls, populate_outputs_for_each_input, populate_inputs, relevant_txs,
  outputs_to_remove, confirmed_block, filter_txs_of_interest, filter_loop, is_tx_input_of_interest,
  is_tx_output_of_interest, any_input, any_output,
}
use cardano_infrastructure.Indexer.BlockIndexer.Pending.{Holds}
use cardano_infrastructure.Indexer.BlockIndexer.Forward.{
  Unchanged, Confirms, roll_forward_failed, roll_forward-Confirms,
}
use cardano_infrastructure.Indexer.BlockIndexer.Backward.{
  RolledBack, Truncated, roll_backward-RolledBack, roll_backward-Truncated, reset_lem,
}
use cardano_infrastructure.Indexer.BlockIndexer.Finality.{
  Run, begin, waited, confirmed, Linked, last_point, confirmed_chain,
}
use cardano_infrastructure.Indexer.BlockIndexer.Interest.{
  WasStored, removed-WasStored, spent-removed,
}

-- A database that keeps the latest point and always has the same output.
abbrev Memory : Type 0
Memory = Option BlockPoint × TxOutput

latest_of-some :
    (o : Option BlockPoint) (calls : List WriterCall) (p : BlockPoint)
    → latest_of none calls ≡ some p
    → latest_of o calls ≡ some p
latest_of-some o [] p e = cc
latest_of-some o (set_latest_block_point q ∷ calls) p e = e
latest_of-some o (add_tx_outputs x ∷ calls) p e = latest_of-some o calls p e
latest_of-some o (add_confirmed_block x ∷ calls) p e = latest_of-some o calls p e
latest_of-some o (add_confirmed_txs x ∷ calls) p e = latest_of-some o calls p e
latest_of-some o (remove_tx_outputs x soft ∷ calls) p e = latest_of-some o calls p e
latest_of-some o (delete_all_tx_outputs_physically ∷ calls) p e = latest_of-some o calls p e

no_error :
    (s : Memory) (calls : List WriterCall) (e : Error)
    → ◌≡◌ {A = Option Error} none (some e)
    → ◌≡◌ {A = Result Error (Option BlockPoint)} (ok (latest_of s.0 calls)) (ok s.0)
no_error s calls e h = cc

abbrev memory : BlockIndexerDb
memory = record {
  Store = Memory;
  get_tx_output = λ s i. ok s.1;
  get_latest_block_point = λ s. ok s.0;
  execute = λ s calls. (none, (latest_of s.0 calls, s.1));
  Storable = λ p. Unit {0};
  get_tx_output_failed = λ s calls e h i. refl;
  get_latest_failed = λ s calls e h. no_error s calls e h;
  get_latest_executed = λ s calls p t h l. ap ok (latest_of-some s.0 calls p l);
}

abbrev hash : ℕ → Bytes
hash n = replicate 32 n

abbrev header : ℕ → BlockHeader
header n = record { slot = n; hash = hash n; number = n; era_id = 6 }

abbrev point : ℕ → BlockPoint
point n = record { block_slot = n; block_hash = hash n }

abbrev config : BlockIndexerConfig
config = record {
  starting_block_point = none;
  confirmation_block_count = 2;
  addresses_of_interest = ascii "addr1" ∷ [];
  keep_all_tx_outputs_in_db = false;
  address_check = 3;
  soft_delete_utxo = false;
  keep_all_txs_hashes_in_block = false;
}

abbrev wanted_output : TxOutput
wanted_output = record zero_output { address = ascii "addr1"; amount = 5 }

-- An indexer at block 1 with the given blocks waiting.
abbrev at_one : List BlockHeader → ℕ → BlockIndexer memory
at_one items count = record {
  config = config;
  latest_block_point = some (point 1);
  unconfirmed_blocks = record { items = items; count = count; size = 2; pos = 0 };
  addresses_of_interest = ascii "addr1" ∷ [];
  store = (some (point 1), wanted_output);
}

abbrev empty : BlockIndexer memory
empty = at_one (zero_header ∷ zero_header ∷ []) 0

abbrev full : BlockIndexer memory
full = at_one (header 2 ∷ header 3 ∷ []) 2

abbrev spending : Tx
spending = record {
  block_slot = 2;
  block_hash = hash 2;
  indx = 0;
  hash = hash 20;
  metadata = [];
  inputs = record { input = record { hash = hash 9; index = 1 }; output = zero_output } ∷ [];
  outputs = [];
  fee = 1;
  valid = true;
}

abbrev spent : TxInputOutput
spent = record { input = record { hash = hash 9; index = 1 }; output = wanted_output }

-- The transaction with the stored output of its input.
abbrev resolved : Tx
resolved = record spending { inputs = spent ∷ [] }

abbrev retriever : BlockHeader → Result Error (List Tx)
retriever h = ok (spending ∷ [])

abbrev accept : Handler memory
accept block txs = none

full-Holds : Holds 2 full.unconfirmed_blocks (header 2 ∷ header 3 ∷ [])
unfolding to_list
full-Holds = record { valid = omega arith; sized = refl; holds = refl }

-- The block that a full queue confirms: it keeps the spending transaction.
confirms_first :
    (roll_forward memory full accept (header 4) retriever).1
    ≡ some (to_cardano_block (header 2) (hash 20 ∷ []), resolved ∷ [])
unfolding roll_forward is_full peek process_block populate_outputs_for_each_input populate_inputs
    confirmed_block relevant_txs filter_txs_of_interest filter_loop is_tx_input_of_interest
    is_tx_output_of_interest any_input any_output contains to_cardano_block get_tx_hashes bytes_eq
confirms_first = refl

roll_forward-Confirms_example :
    Confirms memory 2 full
      (roll_forward memory full accept (header 4) retriever).2
      (header 2)
      (header 4)
      (header 3 ∷ [])
      (to_cardano_block (header 2) (hash 20 ∷ []))
      (resolved ∷ [])
    × ((roll_forward memory full accept (header 4) retriever).0
        ≡ accept (to_cardano_block (header 2) (hash 20 ∷ [])) (resolved ∷ []))
roll_forward-Confirms_example =
    roll_forward-Confirms memory full accept (header 4) retriever 2 (header 2) (header 3 ∷ [])
      (to_cardano_block (header 2) (hash 20 ∷ [])) (resolved ∷ []) full-Holds refl confirms_first

abbrev refuse : BlockHeader → Result Error (List Tx)
refuse h = err (other 7)

roll_forward_failed_example :
    Unchanged memory (roll_forward memory full accept (header 4) refuse).2 full
    × (is_process_confirmed_block (process_confirmed_block (other 7)) ≡ true)
unfolding roll_forward is_full
roll_forward_failed_example =
    roll_forward_failed memory full accept (header 4) refuse (process_confirmed_block (other 7))
      refl refl

roll_backward-RolledBack_example :
    RolledBack memory 2 full
      (header 2 ∷ header 3 ∷ [])
      (point 2)
      (roll_backward memory full (point 2))
roll_backward-RolledBack_example =
    roll_backward-RolledBack memory 2 full (header 2 ∷ header 3 ∷ []) (point 2) full-Holds

abbrev one_waiting : BlockIndexer memory
one_waiting = at_one (header 2 ∷ header 3 ∷ []) 1

to_two : roll_backward memory full (point 2) ≡ some (none, one_waiting)
unfolding roll_backward find set_count bytes_eq
to_two = refl

roll_backward-Truncated_example :
    Truncated memory 2 full one_waiting (header 2 ∷ header 3 ∷ []) (point 2)
roll_backward-Truncated_example =
    roll_backward-Truncated memory 2 full one_waiting (header 2 ∷ header 3 ∷ []) (point 2)
      full-Holds to_two

reset_lem_example :
    (bi' : BlockIndexer memory) × (reset memory full ≡ ok (point 1, bi'))
    × Holds 2 bi'.unconfirmed_blocks []
    × (bi'.latest_block_point ≡ some (point 1))
    × (bi'.store ≡ full.store)
reset_lem_example =
    reset_lem memory 2 full (header 2 ∷ header 3 ∷ []) (some (point 1)) full-Holds refl

-- Two blocks wait, and the third confirms the first of them.
abbrev parent : BlockPoint → BlockPoint
parent p = point (p.block_slot - 1)

empty-Holds : Holds 2 empty.unconfirmed_blocks []
unfolding to_list
empty-Holds = record { valid = omega arith; sized = refl; holds = refl }

abbrev one : BlockIndexer memory
one = at_one (header 2 ∷ zero_header ∷ []) 1

abbrev after_four : BlockIndexer memory
after_four = record full {
  latest_block_point = some (point 2);
  unconfirmed_blocks = record { items = header 4 ∷ header 3 ∷ []; count = 2; size = 2; pos = 1 };
  store = (some (point 2), wanted_output);
}

three_blocks : Run memory parent 2 (point 1) after_four (point 2 ∷ [])
unfolding to_list roll_forward is_full push pop peek process_block populate_outputs_for_each_input
    populate_inputs confirmed_block relevant_txs filter_txs_of_interest filter_loop
    is_tx_input_of_interest is_tx_output_of_interest any_input any_output contains to_cardano_block
    get_tx_hashes bytes_eq writer_calls
three_blocks =
    confirmed {bi = full} {points = []} accept (header 4) retriever none
      (to_cardano_block (header 2) (hash 20 ∷ [])) (resolved ∷ []) after_four
      (waited {bi = one} {points = []} accept (header 3) retriever full
        (waited {bi = empty} {points = []} accept (header 2) retriever one
          (begin empty empty-Holds refl) refl refl)
        refl refl)
      refl refl

confirmed_chain_example :
    Linked parent
      (point 1)
      ((point 2 ∷ []) ++ map point_of (to_list zero_header after_four.unconfirmed_blocks))
    × (after_four.latest_block_point ≡ some (last_point (point 1) (point 2 ∷ [])))
    × (length (to_list zero_header after_four.unconfirmed_blocks) ≤ 2)
confirmed_chain_example =
    confirmed_chain memory parent 2 (point 1) after_four (point 2 ∷ []) (omega arith) three_blocks

populated : populate_outputs_for_each_input memory full.store (spending ∷ []) ≡ ok (resolved ∷ [])
unfolding populate_outputs_for_each_input populate_inputs bytes_eq
populated = refl

removed-WasStored_example :
    All
      (WasStored memory full.store full.addresses_of_interest)
      (outputs_to_remove memory full (resolved ∷ []))
removed-WasStored_example =
    removed-WasStored memory full (spending ∷ []) (resolved ∷ []) (ascii "addr1") [] refl refl
      ((refl, tt), tt) populated

spent-removed_example :
    Elem resolved (relevant_txs memory full (resolved ∷ []))
    × Elem spent.input (outputs_to_remove memory full (resolved ∷ []))
unfolding contains bytes_eq
spent-removed_example =
    spent-removed memory full (resolved ∷ []) (ascii "addr1") [] resolved spent refl refl refl
      (here refl) (here refl) refl
