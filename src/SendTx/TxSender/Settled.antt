-- ===== src/SendTx/TxSender/Settled.antt =====
-- The last output of a transaction, once the fee is known.
use cardano_infrastructure.Base.{
  ℕ, ◌+◌, ◌%◌, ◌^◌, ◌≤◌, ◌≡◌, refl, sym, ◌∙◌, ap, subst, inl, inr, ◌⊎◌, ◌||◌, Bool-cases, [], ◌∷◌,
  ◌++◌, ascii, ok, err, eq_of_ok, arith, ltb, ◌==◌,
}
use cardano_infrastructure.Wallet.SumMaps.{TxOutput}
use cardano_infrastructure.Wallet.CommandHelper.{refused}
use cardano_infrastructure.Wallet.TxBuilder.{
  TxBuilder, negsuc, add_outputs, set_fee, update_output_amount, remove_output,
}
use cardano_infrastructure.Wallet.TxBuilder.Outputs.{
  remove_output-add_outputs, update_output_amount-add_outputs,
}
use cardano_infrastructure.SendTx.Data.{TxBuilderPopulationData}
use cardano_infrastructure.SendTx.TxSender.{sub_u64, builder_or, settle_change}

-- `settled` is `b` with the fee, and with the change as the last output unless there is none.
pub record IsSettled (b : TxBuilder) (out : TxOutput) (data' : TxBuilderPopulationData) (fee : ℕ)
    (settled : TxBuilder) : Type 0 where
  pub change : ℕ
  pub fee_is : settled.fee ≡ fee
  pub inputs_are : settled.inputs ≡ b.inputs
  pub balance : (change + fee) % 2 ^ 64 ≡ data'.change_lovelace % 2 ^ 64
  pub last :
      ((change ≡ 0) × (settled.outputs ≡ b.outputs))
      ⊎ ((data'.change_min_utxo_amount ≤ change)
          × (settled.outputs ≡ b.outputs ++ (record out { amount = change } ∷ [])))

pub sub_u64_lem : (a b : ℕ) → (sub_u64 a b + b) % 2 ^ 64 ≡ a % 2 ^ 64
unfolding sub_u64
sub_u64_lem a b = omega arith

pub settle_change-IsSettled :
    (b : TxBuilder) (out : TxOutput) (data' : TxBuilderPopulationData) (fee : ℕ)
    (settled : TxBuilder)
    → settle_change (add_outputs (out ∷ []) b) data' fee ≡ ok settled
    → IsSettled b out data' fee settled
unfolding settle_change builder_or set_fee add_outputs
settle_change-IsSettled b out data' fee settled h =
    let change = sub_u64 data'.change_lovelace fee in
    let whole = settle_change (add_outputs (out ∷ []) b) data' fee in
    let short = ltb data'.change_lovelace change || ltb change data'.change_min_utxo_amount in
    elim (Bool-cases (change == 0)) [
      | inl e ↦
          let made : whole
              ≡ builder_or (remove_output (negsuc 0) (add_outputs (out ∷ []) (set_fee fee b))) =
            simp e refl in
          let same : set_fee fee b ≡ settled =
            eq_of_ok
              (sym (made ∙ ap builder_or (remove_output-add_outputs (set_fee fee b) out)) ∙ h) in
          subst (IsSettled b out data' fee) same (record {
            change = change;
            fee_is = refl;
            inputs_are = refl;
            balance = sub_u64_lem data'.change_lovelace fee;
            last = inl (ground arith, refl);
          })
      | inr e ↦ elim (Bool-cases short) [
        | inl f ↦
            let failed : whole ≡ err (refused (ascii "insufficient remaining amount")) =
              simp (e, f) refl in
            absurd (cc (failed, h))
        | inr f ↦
            let made : whole
                ≡ builder_or (
                    update_output_amount (negsuc 0) change []
                      (add_outputs (out ∷ []) (set_fee fee b))) =
              simp (e, f) refl in
            let same : add_outputs (record out { amount = change } ∷ []) (set_fee fee b) ≡ settled =
              eq_of_ok (
                sym (
                  made
                  ∙ ap builder_or (update_output_amount-add_outputs (set_fee fee b) out change))
                ∙ h) in
            subst (IsSettled b out data' fee) same (record {
              change = change;
              fee_is = refl;
              inputs_are = refl;
              balance = sub_u64_lem data'.change_lovelace fee;
              last = inr (ground arith, refl);
            })
      ]
    ]
