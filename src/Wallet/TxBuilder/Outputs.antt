-- ===== src/Wallet/TxBuilder/Outputs.antt =====
-- The operations of the builder on its last output.
use cardano_infrastructure.Base.{
  ℕ, suc, ◌+◌, ◌-◌, ◌≡◌, refl, ◌∙◌, ap, ap₂, true, some, List, [], ◌∷◌, ◌++◌, append-nil, arith,
  length, length-append, get_or, set, drop, take-append, ltb, lt→ltb,
}
use mathlib.Core.Option
use cardano_infrastructure.Wallet.Data.{TokenAmount}
use cardano_infrastructure.Wallet.SumMaps.{TxOutput}
use cardano_infrastructure.Wallet.TxBuilder.{
  TxBuilder, negsuc, index_in, add_outputs, removed_at, remove_output, updated_at,
  update_output_amount, set_amounts, zero_output,
}

drop-append_suc : (xs : List TxOutput) (o : TxOutput) → drop (length xs + 1) (xs ++ (o ∷ [])) ≡ []
drop-append_suc [] o = refl
drop-append_suc (x ∷ xs) o =
    let e : suc (length xs) + 1 ≡ suc (length xs + 1) = omega arith in
    ap (λ n. drop n (x ∷ (xs ++ (o ∷ [])))) e ∙ drop-append_suc xs o

get_or-append : (xs : List TxOutput) (o d : TxOutput) → get_or (xs ++ (o ∷ [])) (length xs) d ≡ o
get_or-append [] o d = refl
get_or-append (x ∷ xs) o d = get_or-append xs o d

set-append :
    (xs : List TxOutput) (o p : TxOutput) → set (xs ++ (o ∷ [])) (length xs) p ≡ xs ++ (p ∷ [])
set-append [] o p = refl
set-append (x ∷ xs) o p = ap (◌∷◌ x) (set-append xs o p)

-- The index -1 behind outputs `xs` and one more.
last_index :
    (xs : List TxOutput) (o : TxOutput)
    → index_in (negsuc 0) (length (xs ++ (o ∷ []))) ≡ some (length xs)
unfolding index_in
last_index xs o =
    let long = length-append xs (o ∷ []) in
    let e : ltb 0 (length (xs ++ (o ∷ []))) ≡ true = lt→ltb _ _ (omega (arith, long)) in
    let i : length (xs ++ (o ∷ [])) - (0 + 1) ≡ length xs = omega (arith, long) in simp (e, i) refl

-- `RemoveOutput(-1)` takes back the output that was added last, and nothing else.
pub remove_output-add_outputs :
    (b : TxBuilder) (o : TxOutput) → remove_output (negsuc 0) (add_outputs (o ∷ []) b) ≡ some b
unfolding remove_output removed_at add_outputs
remove_output-add_outputs b o =
    ap (Option.map (removed_at (add_outputs (o ∷ []) b))) (last_index b.outputs o)
    ∙ ap (λ outputs. some (record b { outputs = outputs }))
        (ap₂ (λ x y. x ++ y) (take-append b.outputs (o ∷ [])) (drop-append_suc b.outputs o)
          ∙ append-nil b.outputs)

-- `UpdateOutputAmount(-1, amount)` changes the amount of the output that was added last, and keeps its
-- tokens, its address and the outputs before it.
pub update_output_amount-add_outputs :
    (b : TxBuilder) (o : TxOutput) (amount : ℕ)
    → update_output_amount (negsuc 0) amount [] (add_outputs (o ∷ []) b)
      ≡ some (add_outputs (record o { amount = amount } ∷ []) b)
unfolding update_output_amount updated_at add_outputs set_amounts
update_output_amount-add_outputs b o amount =
    ap (Option.map (updated_at amount [] (add_outputs (o ∷ []) b))) (last_index b.outputs o)
    ∙ ap (λ outputs. some (record b { outputs = outputs }))
        (ap
            (λ x.
              set (b.outputs ++ (o ∷ [])) (length b.outputs)
                (record x { amount = amount; tokens = set_amounts x.tokens [] }))
            (get_or-append b.outputs o zero_output)
          ∙ set-append b.outputs o _
          ∙ ap (λ ts. b.outputs ++ (record o { amount = amount; tokens = ts } ∷ []))
              (no_amounts o.tokens))
  where
    no_amounts : (tokens : List TokenAmount) → set_amounts tokens [] ≡ tokens
    no_amounts [] = refl
    no_amounts (t ∷ ts) = refl
