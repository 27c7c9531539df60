-- ===== src/Wallet/SumMaps/Laws.antt =====
-- Differences, sums and keys of the sums of wallet/transaction_extended.go.
use cardano_infrastructure.Base.{
  ℕ, ◌+◌, ◌-◌, ◌%◌, ◌^◌, ◌<◌, ◌≡◌, refl, sym, ◌∙◌, ap, inl, inr, false, Bool-cases, Option, none,
  some, List, [], ◌∷◌, Bytes, bytes_eq, bytes_eq_iff, bytes_eq_sound, bytes_eq_refl, ltb,
  if◌then◌else◌, arith,
}
use cardano_infrastructure.Wallet.Data.{
  SumMap, sum_at, set_sum, add_amount, ada_token_name, get_utxos_sum, sum_loop, TokenAmount, Utxo,
  add_tokens, add_utxo, token_name,
}
use cardano_infrastructure.Wallet.Data.Sums.{part, add_amount_lem}
use cardano_infrastructure.Wallet.SumMaps.{find_sum, subtracted, subtract_sum_maps, add_sum_maps}

-- No key stands in the list twice, as in a map of Go.
unfoldable pub IsMap : SumMap → Type 0
IsMap [] = Unit
IsMap ((name, amount) ∷ sum) = (find_sum sum name ≡ none) × IsMap sum

abbrev pub amount_of : Option ℕ → ℕ
amount_of none = 0
amount_of (some amount) = amount

pub sum_at-find_sum : (sum : SumMap) (key : Bytes) → sum_at sum key ≡ amount_of (find_sum sum key)
unfolding sum_at find_sum
sum_at-find_sum [] key = refl
sum_at-find_sum ((name, amount) ∷ sum) key = elim (Bool-cases (bytes_eq name key)) [
  | inl e ↦ simp e refl
  | inr e ↦ simp e (sum_at-find_sum sum key)
]

pub find_sum-cons_self :
    (sum : SumMap) (key : Bytes) (amount : ℕ) → find_sum ((key, amount) ∷ sum) key ≡ some amount
unfolding find_sum
find_sum-cons_self sum key amount = simp (bytes_eq_refl key) refl

pub find_sum-cons_ne :
    (sum : SumMap) (name key : Bytes) (amount : ℕ)
    → bytes_eq name key ≡ false
    → find_sum ((name, amount) ∷ sum) key ≡ find_sum sum key
unfolding find_sum
find_sum-cons_ne sum name key amount e = simp e refl

find_sum-set_sum :
    (sum : SumMap) (name key : Bytes) (amount : ℕ)
    → find_sum (set_sum sum name amount) key
      ≡ (if bytes_eq name key then some amount else find_sum sum key)
unfolding find_sum set_sum
find_sum-set_sum [] name key amount = refl
find_sum-set_sum ((n, old) ∷ sum) name key amount = ground (
  arith,
  bytes_eq_iff n name,
  bytes_eq_iff n key,
  bytes_eq_iff name key,
  find_sum-set_sum sum name key amount,
)

set_sum-IsMap :
    (sum : SumMap) (name : Bytes) (amount : ℕ) → IsMap sum → IsMap (set_sum sum name amount)
unfolding IsMap set_sum find_sum
set_sum-IsMap [] name amount v = (refl, tt)
set_sum-IsMap ((n, old) ∷ sum) name amount (h, v) = elim (Bool-cases (bytes_eq n name)) [
  | inl e ↦ simp e (h, v)
  | inr e ↦
      let k : bytes_eq name n ≡ false = ground (arith, bytes_eq_iff n name, bytes_eq_iff name n) in
      let none_left : find_sum (set_sum sum name amount) n ≡ none =
        find_sum-set_sum sum name n amount ∙ simp k h in
      simp e (none_left, set_sum-IsMap sum name amount v)
]

add_amount-IsMap :
    (sum : SumMap) (name : Bytes) (amount : ℕ) → IsMap sum → IsMap (add_amount sum name amount)
unfolding add_amount
add_amount-IsMap sum name amount v = set_sum-IsMap sum name _ v

add_tokens-IsMap :
    (sum : SumMap) (tokens : List TokenAmount) → IsMap sum → IsMap (add_tokens sum tokens)
unfolding add_tokens
add_tokens-IsMap sum [] v = v
add_tokens-IsMap sum (token ∷ tokens) v =
    add_tokens-IsMap (add_amount sum (token_name token) token.amount) tokens
      (add_amount-IsMap sum (token_name token) token.amount v)

sum_loop-IsMap : (sum : SumMap) (utxos : List Utxo) → IsMap sum → IsMap (sum_loop sum utxos)
unfolding sum_loop add_utxo
sum_loop-IsMap sum [] v = v
sum_loop-IsMap sum (utxo ∷ utxos) v = sum_loop-IsMap (add_utxo sum utxo) utxos (
    add_tokens-IsMap (add_amount sum ada_token_name utxo.amount) utxo.tokens
      (add_amount-IsMap sum ada_token_name utxo.amount v))

-- No key stands twice in what `GetUtxosSum` returns.
pub get_utxos_sum-IsMap : (utxos : List Utxo) → IsMap (get_utxos_sum utxos)
unfolding get_utxos_sum IsMap
get_utxos_sum-IsMap utxos = sum_loop-IsMap [] utxos tt

sum_at-subtracted :
    (name : Bytes) (amount : ℕ) (o : Option ℕ) (rest : SumMap) (key : Bytes)
    → find_sum rest name ≡ none
    → sum_at (subtracted name amount o rest) key
      ≡ (if bytes_eq name key then amount - amount_of o else sum_at rest key)
unfolding subtracted sum_at
sum_at-subtracted name amount none rest key h = ground arith
sum_at-subtracted name amount (some k) rest key h = elim (Bool-cases (ltb k amount)) [
  | inl e ↦ simp e refl
  | inr e ↦ elim (Bool-cases (bytes_eq name key)) [
    | inl f ↦
        let absent : find_sum rest key ≡ none =
          ap (find_sum rest) (sym (bytes_eq_sound name key f)) ∙ h in
        let zero_left : sum_at rest key ≡ 0 = sum_at-find_sum rest key ∙ ap amount_of absent in
        let less : amount - k ≡ 0 = ground arith in simp (e, f) (zero_left ∙ sym less)
    | inr f ↦ simp (e, f) refl
  ]
]

find_sum-subtracted :
    (name : Bytes) (amount : ℕ) (o : Option ℕ) (rest : SumMap) (key : Bytes)
    → bytes_eq name key ≡ false
    → find_sum (subtracted name amount o rest) key ≡ find_sum rest key
unfolding subtracted
find_sum-subtracted name amount none rest key h = find_sum-cons_ne rest name key amount h
find_sum-subtracted name amount (some k) rest key h = elim (Bool-cases (ltb k amount)) [
  | inl e ↦ simp e (find_sum-cons_ne rest name key (amount - k) h)
  | inr e ↦ simp e refl
]

subtract-none :
    (a b : SumMap) (key : Bytes)
    → find_sum a key ≡ none
    → find_sum (subtract_sum_maps a b) key ≡ none
unfolding subtract_sum_maps
subtract-none [] b key h = h
subtract-none ((name, amount) ∷ a) b key h = elim (Bool-cases (bytes_eq name key)) [
  | inl e ↦
      let found : find_sum ((name, amount) ∷ a) key ≡ some amount =
        ap (λ n. find_sum ((n, amount) ∷ a) key) (bytes_eq_sound name key e)
        ∙ find_sum-cons_self a key amount in
      absurd (cc (found, h))
  | inr e ↦
      find_sum-subtracted name amount (find_sum b name) (subtract_sum_maps a b) key e
      ∙ subtract-none a b key (sym (find_sum-cons_ne a name key amount e) ∙ h)
]

-- `SubtractSumMaps` takes from every token of the first map what the second has of it, and stops at 0.
pub sum_at-subtract_sum_maps :
    (a b : SumMap) (key : Bytes)
    → IsMap a
    → sum_at (subtract_sum_maps a b) key ≡ sum_at a key - sum_at b key
unfolding subtract_sum_maps sum_at IsMap
sum_at-subtract_sum_maps [] b key v = omega arith
sum_at-subtract_sum_maps ((name, amount) ∷ a) b key (h, v) =
    sum_at-subtracted name amount (find_sum b name) (subtract_sum_maps a b) key
      (subtract-none a b name h)
    ∙ elim (Bool-cases (bytes_eq name key)) [
      | inl e ↦
          let same : amount_of (find_sum b name) ≡ sum_at b key =
            sym (sum_at-find_sum b name) ∙ ap (sum_at b) (bytes_eq_sound name key e) in
          simp e (ap (λ n. amount - n) same)
      | inr e ↦ simp e (sum_at-subtract_sum_maps a b key v)
    ]

added :
    (a b : SumMap) (key : Bytes) (s : ℕ)
    → sum_at a key ≡ s % 2 ^ 64
    → IsMap b
    → sum_at (add_sum_maps a b) key ≡ (s + sum_at b key) % 2 ^ 64
unfolding add_sum_maps sum_at IsMap part
added a [] key s h v = omega arith
added a ((name, amount) ∷ b) key s h (k, v) =
    added (add_amount a name amount) b key (s + part name key amount)
      (add_amount_lem a name key amount s h) v
    ∙ elim (Bool-cases (bytes_eq name key)) [
      | inl e ↦
          let zero_left : sum_at b key ≡ 0 =
            sum_at-find_sum b key
            ∙ ap amount_of (ap (find_sum b) (sym (bytes_eq_sound name key e)) ∙ k) in
          simp e (omega (arith, zero_left))
      | inr e ↦ simp e (omega arith)
    ]

-- `AddSumMaps` gives every token the sum of the two amounts, modulo 2 ^ 64.
pub sum_at-add_sum_maps :
    (a b : SumMap) (key : Bytes)
    → sum_at a key < 2 ^ 64
    → IsMap b
    → sum_at (add_sum_maps a b) key ≡ (sum_at a key + sum_at b key) % 2 ^ 64
sum_at-add_sum_maps a b key h v = added a b key (sum_at a key) (omega arith) v
