-- ===== src/Wallet/Address/Pointer.antt =====
-- The three numbers of a stake pointer, wallet/address_types.go: `variableEncode` of
-- `FromCardanoAddressInfo` and `getStakePointer`. A byte is a number below 256; the disjoint bits that
-- the source joins with `|` are added.
pub mod RoundTrip
use mathlib.Core.List.{reverse}
use cardano_infrastructure.Base.{
  ℕ, zero, suc, ◌+◌, ◌*◌, ◌/◌, ◌%◌, ◌^◌, Bool, Option, none, some, List, [], ◌∷◌, ◌++◌, Bytes, ◌==◌,
  if◌then◌else◌, length, drop,
}

pub record StakePointer : Type 0 where
  pub slot : ℕ
  pub tx_index : ℕ
  pub cert_index : ℕ

-- The loop of `variableEncode` as long as `num > 0`, on fuel: the bytes that it appends.
unfoldable pub variable_loop : ℕ → ℕ → Bytes
variable_loop zero num = []
variable_loop (suc fuel) num =
    let rest = variable_loop fuel (num / 128) in if num == 0 then [] else (num % 128 + 128) ∷ rest

-- A `uint64` has at most ten groups of seven bits.
unfoldable pub variable_encode : ℕ → Bytes
unfolding variable_loop
variable_encode num = reverse ((num % 128) ∷ variable_loop 10 (num / 128))

-- `readOne` from `result` on, with `bytes_read_cnt` bytes read: the number and the count, or
-- `none` for `ErrInvalidAddressData`.
unfoldable pub read_loop : ℕ → ℕ → Bytes → Option (ℕ × ℕ)
read_loop result bytes_read_cnt [] = none
read_loop result bytes_read_cnt (rbyte ∷ raw) =
    let result' = (result * 128) % 2 ^ 64 + rbyte % 128 in
    let rest = read_loop result' (bytes_read_cnt + 1) raw in
    if rbyte / 128 % 2 == 0 then some (result', bytes_read_cnt + 1) else rest

unfoldable pub read_one : Bytes → Option (ℕ × ℕ)
unfolding read_loop
read_one raw = read_loop 0 0 raw

-- The parts of `getStakePointer` after each read. A read that fails ends it.
pub read_all : Bytes → ℕ → ℕ → ℕ → Option (ℕ × ℕ) → Option StakePointer
read_all raw slot tx_index read none = none
read_all raw slot tx_index read (some (cert_index, cnt)) =
    if read + cnt == length raw
    then some (record { slot = slot; tx_index = tx_index; cert_index = cert_index })
    else none

pub read_two : Bytes → ℕ → ℕ → Option (ℕ × ℕ) → Option StakePointer
read_two raw slot read none = none
read_two raw slot read (some (tx_index, cnt)) =
    read_all raw slot tx_index (read + cnt) (read_one (drop (read + cnt) raw))

pub read_first : Bytes → Option (ℕ × ℕ) → Option StakePointer
read_first raw none = none
read_first raw (some (slot, cnt)) = read_two raw slot cnt (read_one (drop cnt raw))

unfoldable pub get_stake_pointer : Bytes → Option StakePointer
get_stake_pointer raw = read_first raw (read_one raw)
