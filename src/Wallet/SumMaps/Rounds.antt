-- ===== src/Wallet/SumMaps/Rounds.antt =====
-- What the rounds of `CreateTxOutputChange` leave of each token.
use cardano_infrastructure.Base.{
  ℕ, ◌+◌, ◌-◌, ◌%◌, ◌^◌, ◌<◌, ◌≤◌, ◌≡◌, refl, sym, ◌∙◌, ap, subst, inl, inr, ◌⊎◌, eq_of_some, true,
  false, Bool-cases, none, some, List, [], ◌∷◌, Bytes, bytes_eq, bytes_eq_sound, bytes_eq_refl, ltb,
  arith, All, ◌==◌, Result, ok, err, eq_of_ok,
}
use cardano_infrastructure.Wallet.Data.{
  TokenAmount, SumMap, sum_at, ada_token_name, first_amount, token_name,
}
use cardano_infrastructure.Wallet.Data.Sums.{part, tokens_in}
use cardano_infrastructure.Wallet.Tokens.{
  Token, dot, token_string, split, in_first, token_of_parts, new_token_with_full_name,
}
use cardano_infrastructure.Wallet.Tokens.FullName.{new_token_with_full_name-token_string}
use cardano_infrastructure.Wallet.SumMaps.{
  new_token_amount, find_sum, ChangeError, invalid_token_amount, change_token, change_loop,
}
use cardano_infrastructure.Wallet.SumMaps.Laws.{IsMap, find_sum-cons_self, find_sum-cons_ne}

-- The full name of a token.
pub record IsTokenName (name : Bytes) : Type 0 where
  pub token : Token
  pub no_dot : All (λ b. (b == dot) ≡ false) token.policy_id
  pub in_bytes : All (λ b. b < 256) token.name
  pub is_name : token_string token ≡ name

-- Every key is lovelace or the full name of a token.
unfoldable pub NamesTokens : SumMap → Type 0
NamesTokens [] = Unit
NamesTokens ((name, amount) ∷ sum) = ((name ≡ ada_token_name) ⊎ IsTokenName name) × NamesTokens sum

-- What the change leaves of one entry of the total.
unfoldable pub left_of : List TokenAmount → SumMap → Bytes → ℕ → ℕ
left_of base_tokens outputs_sum name amount =
    (amount + first_amount name base_tokens) % 2 ^ 64 - sum_at outputs_sum name

token_of_name :
    (name : Bytes) (v : IsTokenName name) → new_token_with_full_name name true ≡ some v.token
token_of_name name v =
    ap (λ n. new_token_with_full_name n true) (sym v.is_name)
    ∙ new_token_with_full_name-token_string v.token v.no_dot v.in_bytes

token_name-new_token_amount :
    (name : Bytes) (v : IsTokenName name) (amount : ℕ)
    → token_name (new_token_amount v.token amount) ≡ name
unfolding token_name token_string
token_name-new_token_amount name v amount = v.is_name

change_token-leaves :
    (name key : Bytes) (v : IsTokenName name) (amount : ℕ)
    (rest : Result ChangeError (List TokenAmount)) (tokens : List TokenAmount)
    → change_token (new_token_with_full_name name true) amount rest ≡ ok tokens
    → (others : List TokenAmount) × (rest ≡ ok others)
      × (tokens_in key tokens ≡ part name key amount + tokens_in key others)
unfolding change_token tokens_in
change_token-leaves name key v amount (err e) tokens h =
    absurd (cc (ap (λ t. change_token t amount (err e)) (sym (token_of_name name v)) ∙ h))
change_token-leaves name key v amount (ok others) tokens h =
    let e : new_token_amount v.token amount ∷ others ≡ tokens =
      eq_of_ok (ap (λ t. change_token t amount (ok others)) (sym (token_of_name name v)) ∙ h) in
    (
      others,
      refl,
      ap (tokens_in key) (sym e)
          ∙ ap (λ n. part n key amount + tokens_in key others)
              (token_name-new_token_amount name v amount),
    )

-- One round for a token's name: what it leaves comes before the tokens of the later rounds.
round_leaves :
    (base_tokens : List TokenAmount) (outputs_sum : SumMap) (name key : Bytes) (amount : ℕ)
    (total : SumMap) (tokens : List TokenAmount)
    → IsTokenName name
    → bytes_eq name ada_token_name ≡ false
    → change_loop base_tokens outputs_sum ((name, amount) ∷ total) ≡ ok tokens
    → (others : List TokenAmount) × (change_loop base_tokens outputs_sum total ≡ ok others)
      × (tokens_in key tokens
          ≡ part name key (left_of base_tokens outputs_sum name amount) + tokens_in key others)
      × (sum_at outputs_sum name ≤ (amount + first_amount name base_tokens) % 2 ^ 64)
unfolding change_loop left_of part
round_leaves base_tokens outputs_sum name key amount total tokens v a h =
    let has = (amount + first_amount name base_tokens) % 2 ^ 64 in
    let output = sum_at outputs_sum name in
    let whole = change_loop base_tokens outputs_sum ((name, amount) ∷ total) in
    let rest = change_loop base_tokens outputs_sum total in
    elim (Bool-cases (ltb has output)) [
      | inl e ↦
          let failed : whole ≡ err invalid_token_amount = simp (a, e) refl in
          absurd (cc (failed, h))
      | inr e ↦ elim (Bool-cases (ltb 0 (has - output))) [
        | inl f ↦
            let made : whole
                ≡ change_token (new_token_with_full_name name true) (has - output) rest =
              simp (a, e, f) refl in
            let (others, r, t) =
              change_token-leaves name key v (has - output) rest tokens (sym made ∙ h) in
            (others, r, t, ground arith)
        | inr f ↦
            let zero_left : has - output ≡ 0 = ground arith in
            let same : whole ≡ rest = simp (a, e, f) refl in
            (tokens, sym same ∙ h, ground (arith, zero_left), ground arith)
      ]
    ]

-- Per token, what a loop over `total` leaves.
pub record Leaves (base_tokens : List TokenAmount) (outputs_sum total : SumMap) (key : Bytes)
    (tokens : List TokenAmount) : Type 0 where
  pub present :
      (amount : ℕ)
      → find_sum total key ≡ some amount
      → tokens_in key tokens + sum_at outputs_sum key
        ≡ (amount + first_amount key base_tokens) % 2 ^ 64
  pub absent : find_sum total key ≡ none → tokens_in key tokens ≡ 0

Leaves-ada :
    (base_tokens : List TokenAmount) (outputs_sum : SumMap) (key : Bytes) (amount : ℕ)
    (total : SumMap) (tokens : List TokenAmount)
    → bytes_eq ada_token_name key ≡ false
    → Leaves base_tokens outputs_sum total key tokens
    → Leaves base_tokens outputs_sum ((ada_token_name, amount) ∷ total) key tokens
Leaves-ada base_tokens outputs_sum key amount total tokens e v =
    let same = find_sum-cons_ne total ada_token_name key amount e in
    record { present = λ n h. v.present n (sym same ∙ h); absent = λ h. v.absent (sym same ∙ h) }

Leaves-cons :
    (base_tokens : List TokenAmount) (outputs_sum : SumMap) (name key : Bytes) (amount : ℕ)
    (total : SumMap) (tokens others : List TokenAmount)
    → find_sum total name ≡ none
    → tokens_in key tokens
      ≡ part name key (left_of base_tokens outputs_sum name amount) + tokens_in key others
    → sum_at outputs_sum name ≤ (amount + first_amount name base_tokens) % 2 ^ 64
    → Leaves base_tokens outputs_sum total key others
    → Leaves base_tokens outputs_sum ((name, amount) ∷ total) key tokens
unfolding left_of part
Leaves-cons base_tokens outputs_sum name key amount total tokens others u t l v =
    elim (Bool-cases (bytes_eq name key)) [
      | inl e ↦ record {
        present = λ n h.
            let same : name ≡ key = bytes_eq_sound name key e in
            let found : find_sum ((name, amount) ∷ total) key ≡ some amount =
              ap (find_sum ((name, amount) ∷ total)) (sym same)
              ∙ find_sum-cons_self total name amount in
            let n_is : amount ≡ n = eq_of_some (sym found ∙ h) in
            let zero_left = v.absent (ap (find_sum total) (sym same) ∙ u) in
            let outputs = ap (sum_at outputs_sum) same in
            let first = ap (λ k. first_amount k base_tokens) same in
            let t' : tokens_in key tokens
                ≡ ((amount + first_amount name base_tokens) % 2 ^ 64 - sum_at outputs_sum name)
                  + tokens_in key others =
              t ∙ simp e refl in
            omega (arith, t', l, zero_left, outputs, first, n_is);
        absent = λ h.
            let same : name ≡ key = bytes_eq_sound name key e in
            let found : find_sum ((name, amount) ∷ total) key ≡ some amount =
              ap (find_sum ((name, amount) ∷ total)) (sym same)
              ∙ find_sum-cons_self total name amount in
            absurd (cc (found, h));
      }
      | inr e ↦
          let same = find_sum-cons_ne total name key amount e in
          let t' : tokens_in key tokens ≡ tokens_in key others = ground (arith, t) in
          record {
            present = λ n h. ap (λ x. x + sum_at outputs_sum key) t' ∙ v.present n (sym same ∙ h);
            absent = λ h. t' ∙ v.absent (sym same ∙ h);
          }
    ]

ada_unread : new_token_with_full_name ada_token_name true ≡ none
unfolding new_token_with_full_name split in_first token_of_parts
ada_unread = refl

-- The name of a token has a dot, which lovelace has not.
not_ada : (name : Bytes) → IsTokenName name → bytes_eq name ada_token_name ≡ false
not_ada name v = elim (Bool-cases (bytes_eq name ada_token_name)) [
  | inl e ↦
      let read = ap (λ n. new_token_with_full_name n true) (bytes_eq_sound name ada_token_name e) in
      absurd (cc (token_of_name name v, read, ada_unread))
  | inr e ↦ e
]

change_loop-ada :
    (base_tokens : List TokenAmount) (outputs_sum total : SumMap) (amount : ℕ)
    → change_loop base_tokens outputs_sum ((ada_token_name, amount) ∷ total)
      ≡ change_loop base_tokens outputs_sum total
unfolding change_loop
change_loop-ada base_tokens outputs_sum total amount = simp (bytes_eq_refl ada_token_name) refl

change_loop-nil :
    (base_tokens : List TokenAmount) (outputs_sum : SumMap)
    → change_loop base_tokens outputs_sum [] ≡ ok []
unfolding change_loop
change_loop-nil base_tokens outputs_sum = refl

pub change_loop-Leaves :
    (base_tokens : List TokenAmount) (outputs_sum : SumMap) (key : Bytes) (total : SumMap)
    (tokens : List TokenAmount)
    → NamesTokens total
    → IsMap total
    → bytes_eq ada_token_name key ≡ false
    → change_loop base_tokens outputs_sum total ≡ ok tokens
    → Leaves base_tokens outputs_sum total key tokens
unfolding NamesTokens IsMap find_sum tokens_in
change_loop-Leaves base_tokens outputs_sum key [] tokens n m a h = record {
  present = λ n e. absurd (cc e);
  absent =
      λ e. ap (tokens_in key) (sym (eq_of_ok (sym (change_loop-nil base_tokens outputs_sum) ∙ h)));
}
change_loop-Leaves base_tokens outputs_sum key ((name, amount) ∷ total) tokens (inl e, n) (u, m) a
      h =
    let same : change_loop base_tokens outputs_sum ((name, amount) ∷ total)
        ≡ change_loop base_tokens outputs_sum total =
      ap (λ x. change_loop base_tokens outputs_sum ((x, amount) ∷ total)) e
      ∙ change_loop-ada base_tokens outputs_sum total amount in
    subst (λ x. Leaves base_tokens outputs_sum ((x, amount) ∷ total) key tokens) (sym e)
      (Leaves-ada base_tokens outputs_sum key amount total tokens a
        (change_loop-Leaves base_tokens outputs_sum key total tokens n m a (sym same ∙ h)))
change_loop-Leaves base_tokens outputs_sum key ((name, amount) ∷ total) tokens (inr v, n) (u, m) a
      h =
    let (others, r, t, l) =
      round_leaves base_tokens outputs_sum name key amount total tokens v (not_ada name v) h in
    Leaves-cons base_tokens outputs_sum name key amount total tokens others u t l
      (change_loop-Leaves base_tokens outputs_sum key total others n m a r)
