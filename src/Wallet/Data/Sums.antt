-- ===== src/Wallet/Data/Sums.antt =====
-- The sums of wallet/utils.go, as natural numbers modulo 2 ^ 64.
use cardano_infrastructure.Base.{
  ℕ, ◌+◌, ◌%◌, ◌^◌, ◌≡◌, refl, ◌∙◌, Bool-cases, inl, inr, List, [], ◌∷◌, Bytes, bytes_eq, ap,
  bytes_eq_iff, bytes_eq_sound, if◌then◌else◌, arith,
}
use cardano_infrastructure.Wallet.Data.{
  TokenAmount, Utxo, token_name, ada_token_name, SumMap, add_amount, sub_amount, add_tokens,
  sub_tokens, add_utxo, sub_utxo, sum_loop, get_utxos_sum, sum_at, set_sum, delete_sum,
}

unfoldable pub part : Bytes → Bytes → ℕ → ℕ
part name key amount = if bytes_eq name key then amount else 0

unfoldable pub tokens_in : Bytes → List TokenAmount → ℕ
tokens_in key [] = 0
tokens_in key (token ∷ tokens) = part (token_name token) key token.amount + tokens_in key tokens

-- All that an output, and a list of them, has of a token.
unfoldable pub utxo_in : Bytes → Utxo → ℕ
utxo_in key utxo = part ada_token_name key utxo.amount + tokens_in key utxo.tokens

abbrev pub utxos_in : Bytes → List Utxo → ℕ
utxos_in key [] = 0
utxos_in key (utxo ∷ utxos) = utxo_in key utxo + utxos_in key utxos

pub sum_at-set_sum :
    (sum : SumMap) (name key : Bytes) (amount : ℕ)
    → sum_at (set_sum sum name amount) key ≡ (if bytes_eq name key then amount else sum_at sum key)
unfolding sum_at set_sum
sum_at-set_sum [] name key amount = refl
sum_at-set_sum ((n, old) ∷ sum) name key amount = ground (
  arith,
  bytes_eq_iff n name,
  bytes_eq_iff n key,
  bytes_eq_iff name key,
  sum_at-set_sum sum name key amount,
)

pub sum_at-delete_sum :
    (sum : SumMap) (name key : Bytes)
    → sum_at (delete_sum sum name) key ≡ (if bytes_eq name key then 0 else sum_at sum key)
unfolding sum_at delete_sum
sum_at-delete_sum [] name key = ground arith
sum_at-delete_sum ((n, old) ∷ sum) name key = ground (
  arith,
  bytes_eq_iff n name,
  bytes_eq_iff n key,
  bytes_eq_iff name key,
  sum_at-delete_sum sum name key,
)

pub add_amount_lem :
    (sum : SumMap) (name key : Bytes) (amount s : ℕ)
    → sum_at sum key ≡ s % 2 ^ 64
    → sum_at (add_amount sum name amount) key ≡ (s + part name key amount) % 2 ^ 64
unfolding add_amount part
add_amount_lem sum name key amount s h = elim (Bool-cases (bytes_eq name key)) [
  | inl e ↦
      let same : sum_at sum name ≡ sum_at sum key = ap (sum_at sum) (bytes_eq_sound name key e) in
      sum_at-set_sum sum name key _ ∙ rw e omega (arith, same)
  | inr e ↦ sum_at-set_sum sum name key _ ∙ rw e omega arith
]

pub sub_amount_lem :
    (sum : SumMap) (name key : Bytes) (amount s : ℕ)
    → sum_at sum key ≡ (s + part name key amount) % 2 ^ 64
    → sum_at (sub_amount sum name amount) key ≡ s % 2 ^ 64
unfolding sub_amount part
sub_amount_lem sum name key amount s h = elim (Bool-cases (bytes_eq name key)) [
  | inl e ↦
      let same : sum_at sum name ≡ sum_at sum key = ap (sum_at sum) (bytes_eq_sound name key e) in
      let k : sum_at sum key ≡ (s + amount) % 2 ^ 64 = h ∙ rw e refl in
      sum_at-set_sum sum name key _ ∙ rw e omega (arith, same)
  | inr e ↦
      let k : sum_at sum key ≡ (s + 0) % 2 ^ 64 = h ∙ rw e refl in
      sum_at-set_sum sum name key _ ∙ rw e omega arith
]

add_tokens_lem :
    (sum : SumMap) (key : Bytes) (tokens : List TokenAmount) (s : ℕ)
    → sum_at sum key ≡ s % 2 ^ 64
    → sum_at (add_tokens sum tokens) key ≡ (s + tokens_in key tokens) % 2 ^ 64
unfolding add_tokens tokens_in
add_tokens_lem sum key [] s h = omega arith
add_tokens_lem sum key (token ∷ tokens) s h = omega (
  arith,
  add_tokens_lem (add_amount sum (token_name token) token.amount) key tokens
      (s + part (token_name token) key token.amount)
      (add_amount_lem sum (token_name token) key token.amount s h),
)

sub_tokens_lem :
    (sum : SumMap) (key : Bytes) (tokens : List TokenAmount) (s : ℕ)
    → sum_at sum key ≡ (s + tokens_in key tokens) % 2 ^ 64
    → sum_at (sub_tokens sum tokens) key ≡ s % 2 ^ 64
unfolding sub_tokens tokens_in
sub_tokens_lem sum key [] s h = omega arith
sub_tokens_lem sum key (token ∷ tokens) s h =
    sub_tokens_lem (sub_amount sum (token_name token) token.amount) key tokens s (
      sub_amount_lem sum (token_name token) key token.amount (s + tokens_in key tokens)
        (omega arith))

pub add_utxo_lem :
    (sum : SumMap) (key : Bytes) (utxo : Utxo) (s : ℕ)
    → sum_at sum key ≡ s % 2 ^ 64
    → sum_at (add_utxo sum utxo) key ≡ (s + utxo_in key utxo) % 2 ^ 64
unfolding add_utxo utxo_in
add_utxo_lem sum key utxo s h = omega (
  arith,
  add_tokens_lem (add_amount sum ada_token_name utxo.amount) key utxo.tokens
      (s + part ada_token_name key utxo.amount)
      (add_amount_lem sum ada_token_name key utxo.amount s h),
)

pub sub_utxo_lem :
    (sum : SumMap) (key : Bytes) (utxo : Utxo) (s : ℕ)
    → sum_at sum key ≡ (s + utxo_in key utxo) % 2 ^ 64
    → sum_at (sub_utxo sum utxo) key ≡ s % 2 ^ 64
unfolding sub_utxo utxo_in
sub_utxo_lem sum key utxo s h =
    sub_tokens_lem (sub_amount sum ada_token_name utxo.amount) key utxo.tokens s (
      sub_amount_lem sum ada_token_name key utxo.amount (s + tokens_in key utxo.tokens)
        (omega arith))

sum_loop_lem :
    (sum : SumMap) (key : Bytes) (utxos : List Utxo) (s : ℕ)
    → sum_at sum key ≡ s % 2 ^ 64
    → sum_at (sum_loop sum utxos) key ≡ (s + utxos_in key utxos) % 2 ^ 64
unfolding sum_loop
sum_loop_lem sum key [] s h = omega arith
sum_loop_lem sum key (utxo ∷ utxos) s h = omega (
  arith,
  sum_loop_lem (add_utxo sum utxo) key utxos (s + utxo_in key utxo) (add_utxo_lem sum key utxo s h),
)

-- `GetUtxosSum` has of every token what all the outputs have of it, modulo 2 ^ 64.
pub get_utxos_sum_lem :
    (key : Bytes) (utxos : List Utxo)
    → sum_at (get_utxos_sum utxos) key ≡ utxos_in key utxos % 2 ^ 64
unfolding get_utxos_sum sum_at
get_utxos_sum_lem key utxos = omega (arith, sum_loop_lem [] key utxos 0 (omega arith))
