-- ===== src/Indexer/Bbolt/External.antt =====
-- What indexer/db/bbolt takes from elsewhere: the key-value store go.etcd.io/bbolt and
-- encoding/json, with the documented behaviour that the package relies on.
use cardano_infrastructure.Base.{
  ◌≡◌, ◌<◌, true, Option, none, some, List, Result, ok, err, Bytes, bytes_eq, length, if◌then◌else◌,
}
use cardano_infrastructure.Indexer.Data.{Error, BlockPoint, TxOutput, Tx, CardanoBlock}

-- The buckets that `Init` creates.
pub record Buckets (B : Type 0) : Type 0 where
  pub tx_outputs : B
  pub latest_block_point : B
  pub processed_txs : B
  pub unprocessed_txs : B
  pub confirmed_blocks : B

-- A bucket maps keys to values. `get` is `none` on a missing key, `cursor` lists the pairs in the
-- order of the keys, `seek` those from a key on, and `recreate` is `DeleteBucket` and then `CreateBucket`. `update` runs a
-- function in a read-write transaction: its error rolls everything back, and so does a commit that
-- fails; `view` is what a read-only transaction sees.
pub record Bolt : Type 1 where
  pub Bucket : Type 0
  pub get : Bucket → Bytes → Option Bytes
  pub put : Bucket → Bytes → Bytes → Result Error Bucket
  pub delete : Bucket → Bytes → Result Error Bucket
  pub recreate : Bucket → Result Error Bucket
  pub cursor : Bucket → List (Bytes × Bytes)
  pub seek : Bucket → Bytes → List (Bytes × Bytes)
  pub get-put :
      (b b' : Bucket) (k v j : Bytes)
      → put b k v ≡ ok b'
      → get b' j ≡ (if bytes_eq k j then some v else get b j)
  pub get-delete :
      (b b' : Bucket) (k j : Bytes)
      → delete b k ≡ ok b'
      → get b' j ≡ (if bytes_eq k j then none else get b j)
  pub get-recreate : (b b' : Bucket) (j : Bytes) → recreate b ≡ ok b' → get b' j ≡ none
  pub Db : Type 0
  pub view : Db → Buckets Bucket
  pub update : Db → (Buckets Bucket → Result Error (Buckets Bucket)) → Option Error × Db
  pub update_failed :
      (db : Db) (f : Buckets Bucket → Result Error (Buckets Bucket)) (e : Error)
      → (update db f).0 ≡ some e
      → view (update db f).1 ≡ view db
  pub update_committed :
      (db : Db) (f : Buckets Bucket → Result Error (Buckets Bucket))
      → (update db f).0 ≡ none
      → f (view db) ≡ ok (view (update db f).1)
  -- The function's own error is what `Update` returns.
  pub update_returns :
      (db : Db) (f : Buckets Bucket → Result Error (Buckets Bucket)) (e : Error)
      → f (view db) ≡ err e
      → (update db f).0 ≡ some e

-- `json.Marshal` and `json.Unmarshal` at a type. A value whose strings are valid UTF-8 (`IsText`)
-- comes back, what is read is such a value, and no text is empty.
pub record Codec (A : Type 0) : Type 1 where
  pub marshal : A → Result Error Bytes
  pub unmarshal : Bytes → Result Error A
  pub IsText : A → Type 0
  pub unmarshal-marshal :
      (a : A) (text : Bytes) → IsText a → marshal a ≡ ok text → unmarshal text ≡ ok a
  pub unmarshal-IsText : (a : A) (text : Bytes) → unmarshal text ≡ ok a → IsText a
  pub marshal_pos : (a : A) (text : Bytes) → marshal a ≡ ok text → 0 < length text

pub record Json : Type 1 where
  pub points : Codec (Option BlockPoint)
  pub outputs : Codec TxOutput
  pub txs : Codec Tx
  pub blocks : Codec CardanoBlock
  -- A flag is no text.
  pub used_IsText :
      (o : TxOutput) → Codec.IsText outputs o → Codec.IsText outputs (record o { is_used = true })
