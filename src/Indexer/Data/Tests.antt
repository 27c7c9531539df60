-- ===== src/Indexer/Data/Tests.antt =====
-- Runs of the keys of indexer/data.go, and their theorems at concrete records.
use cardano_infrastructure.Base.{
  ℕ, ◌≡◌, ◌≤◌, ◌<◌, ◌⊎◌, length, take, refl, true, [], ◌∷◌, ok, Bytes, arith, replicate, bytes_lt,
  ltb, ◌==◌, ◌&&◌, ◌||◌,
}
use cardano_infrastructure.Indexer.Data.{
  Tx, TxInput, IsHash, hash_size, uint, put_uint, tx_key, tx_input_key, tx_input_set,
  new_hash_from_bytes,
}
use cardano_infrastructure.Indexer.Data.Keys.{
  tx_input_set-tx_input_key, tx_key_order, new_hash_from_bytes-IsHash,
}

abbrev input : TxInput
input = record { hash = replicate 32 7; index = 258 }

abbrev tx_at : ℕ → ℕ → Tx
tx_at slot indx = record {
  block_slot = slot;
  block_hash = replicate 32 1;
  indx = indx;
  hash = replicate 32 2;
  metadata = [];
  inputs = [];
  outputs = [];
  fee = 0;
  valid = true;
}

key_bytes : put_uint 4 258 ≡ 0 ∷ 0 ∷ 1 ∷ 2 ∷ []
unfolding put_uint
key_bytes = refl

abbrev short : Bytes
short = 5 ∷ 6 ∷ []

new_hash_from_bytes-IsHash_example :
    IsHash (new_hash_from_bytes short)
    × (((length short ≤ hash_size) × (uint (new_hash_from_bytes short) ≡ uint short))
        ⊎ ((hash_size < length short) × (new_hash_from_bytes short ≡ take hash_size short)))
new_hash_from_bytes-IsHash_example = new_hash_from_bytes-IsHash short

tx_input_set-tx_input_key_example : tx_input_set (tx_input_key input) ≡ ok input
tx_input_set-tx_input_key_example = tx_input_set-tx_input_key input refl (omega arith)

tx_key_order_example :
    bytes_lt (tx_key (tx_at 255 9)) (tx_key (tx_at 256 3))
    ≡ (ltb 255 256 || (255 == 256 && ltb 9 3))
tx_key_order_example =
    tx_key_order (tx_at 255 9) (tx_at 256 3) (omega arith) (omega arith) (omega arith) (omega arith)
