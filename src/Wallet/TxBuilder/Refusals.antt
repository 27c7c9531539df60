-- ===== src/Wallet/TxBuilder/Refusals.antt =====
-- When `Build` refuses a transaction before it touches a file.
use cardano_infrastructure.Base.{
  ℕ, zero, suc, ◌+◌, ◌≡◌, ◌⊎◌, refl, sym, subst, ap, ap₂, Option, none, some, inl, inr, Bool-cases,
  true, Option-cases, List, [], ◌∷◌, Bytes, err, ◌==◌, arith, Elem, here, there,
}
use cardano_infrastructure.Wallet.SumMaps.{TxOutput}
use cardano_infrastructure.Wallet.CommandHelper.{
  protocol_parameters_not_set, amounts_not_specified, Os,
}
use cardano_infrastructure.Wallet.TxBuilder.{
  TxBuilder, without_amount, joined_errors, check_outputs,
}
use cardano_infrastructure.Wallet.TxBuilder.Run.{Codec, build_with, build_if, build}

unfoldable pub output_at : List TxOutput → ℕ → Option TxOutput
output_at [] i = none
output_at (x ∷ xs) zero = some x
output_at (x ∷ xs) (suc i) = output_at xs i

-- The error names the output by its address and its place, counted from `i`.
abbrev pub Named : TxOutput → List TxOutput → ℕ → List (Bytes × ℕ) → Type 0
Named out outputs i errs = (k : ℕ) × (output_at outputs k ≡ some out) × Elem (out.addr, i + k) errs

Named-later :
    (out x : TxOutput) (xs : List TxOutput) (i : ℕ) (errs : List (Bytes × ℕ))
    → Named out xs (i + 1) errs
    → Named out (x ∷ xs) i errs
unfolding output_at
Named-later out x xs i errs (k, e, l) =
    let place : i + 1 + k ≡ i + suc k = omega arith in
    (suc k, e, subst (λ n. Elem (out.addr, n) errs) place l)

without_amount-Named :
    (out : TxOutput) (outputs : List TxOutput) (i : ℕ)
    → Elem out outputs
    → out.amount ≡ 0
    → Named out outputs i (without_amount i outputs)
unfolding without_amount output_at
without_amount-Named out [] i h z = elim h [ ]
without_amount-Named out (x ∷ xs) i (here e) z =
    let zero_amount : (x.amount == 0) ≡ true = ground (arith, ap (λ o. o.amount) e) in
    let place : i ≡ i + 0 = omega arith in
    let same : (out.addr, i + 0) ≡ (x.addr, i) = ap₂ (λ o n. (o.addr, n)) e (sym place) in
    (0, ap some (sym e), simp zero_amount (here same))
without_amount-Named out (x ∷ xs) i (there h) z =
    let later = Named-later out x xs i _ (without_amount-Named out xs (i + 1) h z) in
    elim (Bool-cases (x.amount == 0)) [
      | inl e ↦ (later.0, later.1, simp e (there later.2))
      | inr e ↦ (later.0, later.1, simp e later.2)
    ]

joined_errors-Named :
    (out : TxOutput) (outputs : List TxOutput) (errs : List (Bytes × ℕ))
    → Named out outputs 0 errs
    → joined_errors errs ≡ err (amounts_not_specified errs)
unfolding joined_errors
joined_errors-Named out outputs [] (k, e, l) = elim l [ ]
joined_errors-Named out outputs (x ∷ errs) n = refl

-- With an output of amount 0 among its outputs `Build` fails and leaves the world as it was: no file is
-- written and no command is run. Without protocol parameters the error is that they are not set, else it
-- is that of `CheckOutputs`, which names that output by its address and its index.
pub build_refused :
    {W : Type 0} (codec : Codec) (os : Os W) (b : TxBuilder) (out : TxOutput) (w : W)
    → Elem out b.outputs
    → out.amount ≡ 0
    → ((b.protocol_parameters ≡ none) × (build codec os b w ≡ (err protocol_parameters_not_set, w)))
      ⊎ ((errs : List (Bytes × ℕ)) × (Named out b.outputs 0 errs)
          × (build codec os b w ≡ (err (amounts_not_specified errs), w)))
unfolding build build_if build_with check_outputs
build_refused codec os b out w h z = elim (Option-cases b.protocol_parameters) [
  | inl none_set ↦ inl (none_set, simp none_set refl)
  | inr (parameters, set) ↦
      let errs = without_amount 0 b.outputs in
      let named = without_amount-Named out b.outputs 0 h z in
      inr (errs, named, simp (set, joined_errors-Named out b.outputs errs named) refl)
]
