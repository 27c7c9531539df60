-- ===== src/Wallet/Data.antt =====
-- wallet/data.go and wallet/utils.go: tokens, unspent outputs and their sums. A `map[string]uint64`
-- is the list of its entries, one for each key, in the order in which `range` gives them.
pub mod Sums
use cardano_infrastructure.Base.{
  ℕ, zero, suc, ◌+◌, ◌-◌, ◌/◌, ◌%◌, ◌^◌, Bool, List, [], ◌∷◌, ◌++◌, Bytes, ascii, bytes_eq, ltb,
  if◌then◌else◌,
}

abbrev pub ada_token_name : Bytes
ada_token_name = ascii "lovelace"

pub record TokenAmount : Type 0 where
  pub policy_id : Bytes
  pub name : Bytes
  pub amount : ℕ

pub record Utxo : Type 0 where
  pub hash : Bytes
  pub index : ℕ
  pub amount : ℕ
  pub tokens : List TokenAmount

unfoldable pub hex_digit : ℕ → ℕ
hex_digit n = if ltb n 10 then n + 48 else n + 87

-- `hex.EncodeToString`.
unfoldable pub encode_to_string : Bytes → Bytes
unfolding hex_digit
encode_to_string [] = []
encode_to_string (b ∷ bs) = hex_digit (b / 16) ∷ hex_digit (b % 16) ∷ encode_to_string bs

unfoldable pub token_name : TokenAmount → Bytes
unfolding encode_to_string
token_name tt' = tt'.policy_id ++ (ascii "." ++ encode_to_string tt'.name)

-- The loop of `GetTokenAmount`: the first token of the name.
unfoldable pub first_amount : Bytes → List TokenAmount → ℕ
first_amount name [] = 0
first_amount name (token ∷ tokens) =
    if bytes_eq (token_name token) name then token.amount else first_amount name tokens

unfoldable pub get_token_amount : Utxo → Bytes → ℕ
unfolding first_amount
get_token_amount utxo name =
    if bytes_eq name ada_token_name then utxo.amount else first_amount name utxo.tokens

abbrev pub SumMap : Type 0
SumMap = List (Bytes × ℕ)

-- `sum[name]`, which is 0 for a missing key.
unfoldable pub sum_at : SumMap → Bytes → ℕ
sum_at [] key = 0
sum_at ((name, amount) ∷ sum) key = if bytes_eq name key then amount else sum_at sum key

-- `sum[name] = amount`.
unfoldable pub set_sum : SumMap → Bytes → ℕ → SumMap
set_sum [] key amount = (key, amount) ∷ []
set_sum ((name, old) ∷ sum) key amount =
    let rest = set_sum sum key amount in
    if bytes_eq name key then (name, amount) ∷ sum else (name, old) ∷ rest

-- `delete(sum, name)`.
unfoldable pub delete_sum : SumMap → Bytes → SumMap
delete_sum [] key = []
delete_sum ((name, amount) ∷ sum) key =
    let rest = delete_sum sum key in if bytes_eq name key then rest else (name, amount) ∷ rest

-- `sum[name] += amount` and `sum[name] -= amount` on a `uint64`.
unfoldable pub add_amount : SumMap → Bytes → ℕ → SumMap
unfolding sum_at set_sum
add_amount sum name amount = set_sum sum name ((sum_at sum name + amount) % 2 ^ 64)

unfoldable pub sub_amount : SumMap → Bytes → ℕ → SumMap
unfolding sum_at set_sum
sub_amount sum name amount =
    set_sum sum name ((sum_at sum name + (2 ^ 64 - amount % 2 ^ 64)) % 2 ^ 64)

unfoldable pub add_tokens : SumMap → List TokenAmount → SumMap
add_tokens sum [] = sum
add_tokens sum (token ∷ tokens) = add_tokens (add_amount sum (token_name token) token.amount) tokens

unfoldable pub sub_tokens : SumMap → List TokenAmount → SumMap
sub_tokens sum [] = sum
sub_tokens sum (token ∷ tokens) = sub_tokens (sub_amount sum (token_name token) token.amount) tokens

unfoldable pub add_utxo : SumMap → Utxo → SumMap
add_utxo sum utxo = add_tokens (add_amount sum ada_token_name utxo.amount) utxo.tokens

unfoldable pub sub_utxo : SumMap → Utxo → SumMap
sub_utxo sum utxo = sub_tokens (sub_amount sum ada_token_name utxo.amount) utxo.tokens

unfoldable pub sum_loop : SumMap → List Utxo → SumMap
sum_loop result [] = result
sum_loop result (utxo ∷ utxos) = sum_loop (add_utxo result utxo) utxos

unfoldable pub get_utxos_sum : List Utxo → SumMap
unfolding sum_loop
get_utxos_sum utxos = sum_loop [] utxos
