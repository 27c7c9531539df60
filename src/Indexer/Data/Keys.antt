-- ===== src/Indexer/Data/Keys.antt =====
-- The keys of indexer/data.go: which record a key stands for, and in what order a cursor that goes
-- through the keys meets the records.
use cardano_infrastructure.Base.{
  ℕ, zero, suc, ◌+◌, ◌-◌, ◌≤◌, ◌<◌, ◌⊎◌, ◌≡◌, refl, sym, ap, ◌∙◌, ◌++◌, Bytes, ok, arith, length,
  length-append, length-take, take_all, leb, length-replicate, take, drop, take-append, drop-append,
  ltb, ◌==◌, ◌&&◌, ◌||◌, bytes_lt, bytes_lt-append, min, Bool-cases, inl, inr, ==_iff, replicate,
  subst,
}
use cardano_infrastructure.Indexer.Data.{
  hash_size, IsHash, IsU32, IsU64, Tx, TxInput, CardanoBlock, put_uint, uint, uint_loop, tx_key,
  tx_input_key, tx_input_set, cardano_block_key, slot_number_to_key, new_hash_from_bytes,
}
use cardano_infrastructure.Indexer.Data.BigEndian.{
  length-put_uint, uint-put_uint, put_uint_order, bytes_eq-put_uint,
}

set_of_parts :
    (bytes : Bytes) (ti : TxInput)
    → length bytes ≡ hash_size + 4
    → take hash_size bytes ≡ ti.hash
    → uint (drop hash_size bytes) ≡ ti.index
    → tx_input_set bytes ≡ ok ti
unfolding tx_input_set
set_of_parts bytes ti size front back =
    rw size (ap ok (λ i. record { hash = front i; index = back i }))

-- `Set` reads back the input whose `Key` it is given, if the hash has 32 bytes and the index 32
-- bits.
pub tx_input_set-tx_input_key :
    (ti : TxInput) → IsHash ti.hash → IsU32 ti.index → tx_input_set (tx_input_key ti) ≡ ok ti
unfolding tx_input_key
tx_input_set-tx_input_key ti h i =
    let index = put_uint 4 ti.index in
    let key = ti.hash ++ index in
    set_of_parts key ti (omega (arith, length-append ti.hash index, length-put_uint 4 ti.index))
      (subst (λ n. take n key ≡ ti.hash) h (take-append ti.hash index))
      (ap uint (subst (λ n. drop n key ≡ index) h (drop-append ti.hash index))
        ∙ uint-put_uint 4 ti.index i)

-- Different inputs have different keys.
pub tx_input_key-injective :
    (s t : TxInput)
    → IsHash s.hash
    → IsHash t.hash
    → IsU32 s.index
    → IsU32 t.index
    → tx_input_key s ≡ tx_input_key t
    → s ≡ t
tx_input_key-injective s t hs ht is it e =
    cc (tx_input_set-tx_input_key s hs is, tx_input_set-tx_input_key t ht it)

-- The keys of two transactions whose slots have 64 bits and whose indices have 32 compare, byte by
-- byte, as their slots do, and in the same slot as their indices do.
pub tx_key_order :
    (t u : Tx)
    → IsU64 t.block_slot
    → IsU64 u.block_slot
    → IsU32 t.indx
    → IsU32 u.indx
    → bytes_lt (tx_key t) (tx_key u)
      ≡ (ltb t.block_slot u.block_slot || (t.block_slot == u.block_slot && ltb t.indx u.indx))
unfolding tx_key
tx_key_order t u ht hu it iu =
    bytes_lt-append (put_uint 8 t.block_slot) (put_uint 8 u.block_slot) (put_uint 4 t.indx)
      (put_uint 4 u.indx) (length-put_uint 8 t.block_slot ∙ sym (length-put_uint 8 u.block_slot))
    ∙ rw (
      put_uint_order 8 t.block_slot u.block_slot ht hu,
      bytes_eq-put_uint 8 t.block_slot u.block_slot ht hu,
      put_uint_order 4 t.indx u.indx it iu,
    )

-- The keys of the confirmed blocks are ordered by their slots.
pub cardano_block_key_order :
    (b c : CardanoBlock)
    → IsU64 b.slot
    → IsU64 c.slot
    → bytes_lt (cardano_block_key b) (cardano_block_key c) ≡ ltb b.slot c.slot
unfolding cardano_block_key slot_number_to_key
cardano_block_key_order b c hb hc = put_uint_order 8 b.slot c.slot hb hc

uint_loop-zeros : (n : ℕ) (bs : Bytes) → uint_loop 0 (replicate n 0 ++ bs) ≡ uint_loop 0 bs
unfolding uint_loop
uint_loop-zeros zero bs = refl
uint_loop-zeros (suc n) bs = uint_loop-zeros n bs

uint-zeros : (n : ℕ) (bs : Bytes) → uint (replicate n 0 ++ bs) ≡ uint bs
unfolding uint
uint-zeros n bs = uint_loop-zeros n bs

-- Every byte slice gives a hash of 32 bytes. One of at most 32 bytes gives the hash that is the same
-- big-endian number, a longer one the hash of its first 32 bytes.
pub new_hash_from_bytes-IsHash :
    (bs : Bytes)
    → IsHash (new_hash_from_bytes bs)
      × (((length bs ≤ hash_size) × (uint (new_hash_from_bytes bs) ≡ uint bs))
          ⊎ ((hash_size < length bs) × (new_hash_from_bytes bs ≡ take hash_size bs)))
unfolding new_hash_from_bytes
new_hash_from_bytes-IsHash bs =
    let size = min hash_size (length bs) in
    let of_size : IsHash (replicate (hash_size - size) 0 ++ take size bs) = omega (
      arith,
      length-append (replicate (hash_size - size) 0) (take size bs),
      length-replicate (hash_size - size) (let z : ℕ = 0 in z),
      length-take size bs,
    ) in
    elim (Bool-cases (length bs == hash_size)) [
      | inl e ↦ rw e ((==_iff _ _).0 e, inl (ground (arith, e), refl))
      | inr e ↦ elim (Bool-cases (leb (length bs) hash_size)) [
        | inl l ↦
            let whole : size ≡ length bs = ground arith in
            let all : take size bs ≡ bs =
              ap (λ n. take n bs) whole ∙ take_all (length bs) bs (omega arith) in
            rw e (
              of_size,
              inl (ground arith, uint-zeros (hash_size - size) (take size bs) ∙ ap uint all),
            )
        | inr l ↦
            let whole : size ≡ hash_size = ground arith in
            rw e (
              of_size,
              inr (ground arith, ap (λ n. replicate (hash_size - n) 0 ++ take n bs) whole),
            )
      ]
    ]
