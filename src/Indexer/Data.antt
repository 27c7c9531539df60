-- ===== src/Indexer/Data.antt =====
-- indexer/data.go and `SlotNumberToKey` of indexer/utils.go: the records of the indexer, its errors
-- and the keys under which the database holds them. A Go string, a `[]byte` and a `Hash` are lists
-- of bytes, a nil slice is an empty one, and a pointer that is never nil is what it points to.
pub mod BigEndian
pub mod Keys
mod Tests
use cardano_infrastructure.Base.{
  ℕ, zero, suc, ◌+◌, ◌-◌, ◌*◌, ◌/◌, ◌%◌, ◌<◌, ◌^◌, ◌≡◌, min, Bool, true, false, not, ◌&&◌, Option,
  none, some, List, [], ◌∷◌, ◌++◌, Bytes, Result, ok, err, ◌==◌, if◌then◌else◌, length, take, drop,
  replicate, bytes_eq,
}

abbrev pub hash_size : ℕ
hash_size = 32

abbrev pub Hash : Type 0
Hash = Bytes

-- What the Go type `[32]byte` and the integer types grant.
abbrev pub IsHash : Hash → Type 0
IsHash h = length h ≡ hash_size

abbrev pub IsU32 : ℕ → Type 0
IsU32 v = v < 256 ^ 4

abbrev pub IsU64 : ℕ → Type 0
IsU64 v = v < 256 ^ 8

abbrev pub zero_hash : Hash
zero_hash = replicate hash_size 0

pub record BlockPoint : Type 0 where
  pub block_slot : ℕ
  pub block_hash : Hash

pub record BlockHeader : Type 0 where
  pub slot : ℕ
  pub hash : Hash
  pub number : ℕ
  pub era_id : ℕ

pub record TxInput : Type 0 where
  pub hash : Hash
  pub index : ℕ

pub record TokenAmount : Type 0 where
  pub policy_id : Bytes
  pub name : Bytes
  pub amount : ℕ

pub record TxOutput : Type 0 where
  pub address : Bytes
  pub slot : ℕ
  pub amount : ℕ
  pub datum : Bytes
  pub datum_hash : Hash
  pub is_used : Bool
  pub tokens : List TokenAmount

pub record TxInputOutput : Type 0 where
  pub input : TxInput
  pub output : TxOutput

pub record Tx : Type 0 where
  pub block_slot : ℕ
  pub block_hash : Hash
  pub indx : ℕ
  pub hash : Hash
  pub metadata : Bytes
  pub inputs : List TxInputOutput
  pub outputs : List TxOutput
  pub fee : ℕ
  pub valid : Bool

pub record CardanoBlock : Type 0 where
  pub slot : ℕ
  pub hash : Hash
  pub number : ℕ
  pub era_id : ℕ
  pub txs : List Hash

-- An error of the database, of a retriever or of a handler (`other`), the fatal error of a roll
-- backward, which names the new and the latest point, and `processConfirmedBlockError`, which
-- wraps another.
pub data Error : Type 0 where
  other : ℕ → Error
  fatal : BlockPoint → BlockPoint → Error
  process_confirmed_block : Error → Error

-- `errors.Is(err, ErrBlockIndexerFatal)`, which looks through the wrapper.
unfoldable pub is_fatal : Error → Bool
is_fatal (other n) = false
is_fatal (fatal p q) = true
is_fatal (process_confirmed_block e) = is_fatal e

-- `errors.As(err, &processConfirmedBlockErr)`.
unfoldable pub is_process_confirmed_block : Error → Bool
is_process_confirmed_block (process_confirmed_block e) = true
is_process_confirmed_block _ = false

-- The zero values of Go.
abbrev pub zero_output : TxOutput
zero_output = record {
  address = [];
  slot = 0;
  amount = 0;
  datum = [];
  datum_hash = zero_hash;
  is_used = false;
  tokens = [];
}

abbrev pub zero_header : BlockHeader
zero_header = record { slot = 0; hash = zero_hash; number = 0; era_id = 0 }

abbrev pub zero_point : BlockPoint
zero_point = record { block_slot = 0; block_hash = zero_hash }

-- `PutUint64` and `PutUint32` of encoding/binary: the last `n` bytes of `v`, the highest first.
unfoldable pub put_uint : ℕ → ℕ → Bytes
put_uint zero v = []
put_uint (suc n) v = put_uint n (v / 256) ++ ((v % 256) ∷ [])

uint_loop : ℕ → Bytes → ℕ
uint_loop acc [] = acc
uint_loop acc (b ∷ bs) = uint_loop (acc * 256 + b) bs

-- `Uint32` of encoding/binary.
unfoldable pub uint : Bytes → ℕ
unfolding uint_loop
uint bs = uint_loop 0 bs

unfoldable pub slot_number_to_key : ℕ → Bytes
slot_number_to_key slot_number = put_uint 8 slot_number

unfoldable pub new_hash_from_bytes : Bytes → Hash
new_hash_from_bytes bytes =
    let size = min hash_size (length bytes) in
    if length bytes == hash_size then bytes else replicate (hash_size - size) 0 ++ take size bytes

unfoldable pub cardano_block_key : CardanoBlock → Bytes
unfolding slot_number_to_key
cardano_block_key cb = slot_number_to_key cb.slot

unfoldable pub tx_key : Tx → Bytes
tx_key tx = put_uint 8 tx.block_slot ++ put_uint 4 tx.indx

unfoldable pub tx_input_key : TxInput → Bytes
tx_input_key ti = ti.hash ++ put_uint 4 ti.index

-- `TxInput.Set`. The error carries the number of bytes.
unfoldable pub tx_input_set : Bytes → Result ℕ TxInput
unfolding uint
tx_input_set bytes =
    if length bytes == hash_size + 4
    then ok (record { hash = take hash_size bytes; index = uint (drop hash_size bytes) })
    else err (length bytes)

unfoldable pub is_not_used : TxOutput → Bool
is_not_used t = not (bytes_eq t.address []) && not t.is_used

unfoldable pub to_cardano_block : BlockHeader → List Hash → CardanoBlock
to_cardano_block header txs = record {
  slot = header.slot;
  hash = header.hash;
  number = header.number;
  era_id = header.era_id;
  txs = txs;
}
