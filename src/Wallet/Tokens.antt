-- ===== src/Wallet/Tokens.antt =====
-- The full names of tokens in wallet/data.go, and `GetTokensFromSumMap` of wallet/utils.go. A map is the
-- list of its entries in the order in which `range` gives them. The texts of errors are left out.
pub mod FullName
use cardano_infrastructure.Base.{
  ℕ, ◌+◌, ◌-◌, ◌*◌, Bool, true, false, ◌&&◌, ◌||◌, not, Option, none, some, List, [], ◌∷◌, ◌++◌,
  Bytes, ascii, bytes_eq, bytes_lt, leb, ◌==◌, if◌then◌else◌,
}
use mathlib.Core.Option
use cardano_infrastructure.Indexer.Utils.{contains}
use cardano_infrastructure.Wallet.Data.{TokenAmount, ada_token_name, encode_to_string, token_name}

pub record Token : Type 0 where
  pub policy_id : Bytes
  pub name : Bytes

abbrev pub dot : ℕ
dot = 46

unfoldable pub token_string : Token → Bytes
token_string t = t.policy_id ++ (dot ∷ encode_to_string t.name)

-- `hex.DecodeString`.
unfoldable pub hex_value : ℕ → Option ℕ
hex_value c =
    if leb 48 c && leb c 57
    then some (c - 48)
    else if leb 97 c && leb c 102
    then some (c - 87)
    else if leb 65 c && leb c 70
    then some (c - 55)
    else none

-- A byte of two digits, before the bytes that follow.
unfoldable pub decoded_byte : Option ℕ → Option ℕ → Option Bytes → Option Bytes
decoded_byte (some h) (some l) (some bs) = some ((h * 16 + l) ∷ bs)
decoded_byte _ _ _ = none

unfoldable pub decode_string : Bytes → Option Bytes
decode_string [] = some []
decode_string (h ∷ []) = none
decode_string (h ∷ l ∷ s) = decoded_byte (hex_value h) (hex_value l) (decode_string s)

-- The byte put before the first of the parts.
unfoldable pub in_first : ℕ → List Bytes → List Bytes
in_first c [] = (c ∷ []) ∷ []
in_first c (p ∷ ps) = (c ∷ p) ∷ ps

-- `strings.Split(name, ".")`.
unfoldable pub split : Bytes → List Bytes
split [] = [] ∷ []
split (c ∷ s) = if c == dot then [] ∷ split s else in_first c (split s)

unfoldable pub token_of_parts : Bool → List Bytes → Option Token
token_of_parts is_name_encoded (p ∷ n ∷ []) =
    if not is_name_encoded
    then some (record { policy_id = p; name = n })
    else Option.map (λ name. record { policy_id = p; name = name }) (decode_string n)
token_of_parts is_name_encoded _ = none

unfoldable pub new_token_with_full_name : Bytes → Bool → Option Token
new_token_with_full_name name is_name_encoded = token_of_parts is_name_encoded (split name)

unfoldable pub first_token : Option Token → Option Token → Option Token
first_token (some token) other = some token
first_token none other = other

unfoldable pub new_token_with_full_name_try : Bytes → Option Token
new_token_with_full_name_try name =
    first_token (new_token_with_full_name name true) (new_token_with_full_name name false)

-- `tokens = append(tokens, …)` where the rest of the loop gives `rest`.
unfoldable pub appended : Option Token → ℕ → Option (List TokenAmount) → Option (List TokenAmount)
appended (some token) amount (some rest) =
    some (record { policy_id = token.policy_id; name = token.name; amount = amount } ∷ rest)
appended _ _ _ = none

unfoldable pub tokens_loop : List Bytes → List (Bytes × ℕ) → Option (List TokenAmount)
unfolding appended
tokens_loop skip_token_names [] = some []
tokens_loop skip_token_names ((name, amount) ∷ sum) =
    let rest = tokens_loop skip_token_names sum in
    if bytes_eq name ada_token_name || contains skip_token_names name
    then rest
    else appended (new_token_with_full_name_try name) amount rest

-- `sort.Slice` by the names, by insertion.
unfoldable pub insert_token : TokenAmount → List TokenAmount → List TokenAmount
insert_token t [] = t ∷ []
insert_token t (u ∷ us) =
    let rest = insert_token t us in
    if bytes_lt (token_name u) (token_name t) then u ∷ rest else t ∷ u ∷ us

unfoldable pub sort_tokens : List TokenAmount → List TokenAmount
unfolding insert_token
sort_tokens [] = []
sort_tokens (t ∷ ts) = insert_token t (sort_tokens ts)

-- `none` is an error or, for an empty map, the panic of `make` with a capacity below 0.
unfoldable pub get_tokens_from_sum_map : List (Bytes × ℕ) → List Bytes → Option (List TokenAmount)
unfolding tokens_loop sort_tokens
get_tokens_from_sum_map [] skip_token_names = none
get_tokens_from_sum_map (entry ∷ sum) skip_token_names =
    Option.map sort_tokens (tokens_loop skip_token_names (entry ∷ sum))
