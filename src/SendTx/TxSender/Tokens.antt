-- ===== src/SendTx/TxSender/Tokens.antt =====
-- Taking tokens from a sum leaves its lovelace.
use cardano_infrastructure.Base.{
  ℕ, ◌≡◌, refl, ◌∙◌, ap, inl, inr, true, false, Bool, Bool-cases, List, [], ◌∷◌, ◌++◌, Bytes,
  bytes_eq, bytes_eq_sound, ◌==◌, if◌then◌else◌,
}
use cardano_infrastructure.Wallet.Data.{
  TokenAmount, SumMap, ada_token_name, token_name, encode_to_string, sum_at, sub_amount, delete_sum,
}
use cardano_infrastructure.Wallet.Data.Sums.{sum_at-set_sum, sum_at-delete_sum}
use cardano_infrastructure.SendTx.TxSender.{take_tokens}

-- A text with a dot is not one without.
has_dot : Bytes → Bool
has_dot [] = false
has_dot (c ∷ s) = if c == 46 then true else has_dot s

has_dot-append : (s t : Bytes) → has_dot (s ++ (46 ∷ t)) ≡ true
unfolding has_dot
has_dot-append [] t = refl
has_dot-append (c ∷ s) t = elim (Bool-cases (c == 46)) [
  | inl e ↦ simp e refl
  | inr e ↦ simp e (has_dot-append s t)
]

pub token_name_not_ada : (token : TokenAmount) → bytes_eq (token_name token) ada_token_name ≡ false
unfolding token_name has_dot
token_name_not_ada token = elim (Bool-cases (bytes_eq (token_name token) ada_token_name)) [
  | inl e ↦
      let same = ap has_dot (bytes_eq_sound (token_name token) ada_token_name e) in
      let dotted = has_dot-append token.policy_id (encode_to_string token.name) in
      absurd (cc (same, dotted))
  | inr e ↦ e
]

sub_amount-ada :
    (sum : SumMap) (token : TokenAmount) (amount : ℕ)
    → sum_at (sub_amount sum (token_name token) amount) ada_token_name ≡ sum_at sum ada_token_name
unfolding sub_amount
sub_amount-ada sum token amount =
    sum_at-set_sum sum (token_name token) ada_token_name _ ∙ simp (token_name_not_ada token) refl

delete_sum-ada :
    (sum : SumMap) (token : TokenAmount)
    → sum_at (delete_sum sum (token_name token)) ada_token_name ≡ sum_at sum ada_token_name
delete_sum-ada sum token =
    sum_at-delete_sum sum (token_name token) ada_token_name ∙ simp (token_name_not_ada token) refl

pub take_tokens-ada :
    (sum : SumMap) (tokens : List TokenAmount)
    → sum_at (take_tokens sum tokens) ada_token_name ≡ sum_at sum ada_token_name
unfolding take_tokens
take_tokens-ada sum [] = refl
take_tokens-ada sum (token ∷ tokens) =
    let less = sub_amount sum (token_name token) token.amount in
    elim (Bool-cases (sum_at less (token_name token) == 0)) [
      | inl e ↦ simp e (
          take_tokens-ada (delete_sum less (token_name token)) tokens
          ∙ delete_sum-ada less token
          ∙ sub_amount-ada sum token token.amount)
      | inr e ↦ simp e (take_tokens-ada less tokens ∙ sub_amount-ada sum token token.amount)
    ]
