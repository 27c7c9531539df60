-- ===== src/SendTx/Metadata/Created.antt =====
-- The receivers in the metadata of sendtx/metadata.go.
use cardano_infrastructure.Base.{
  ℕ, ◌+◌, ◌%◌, ◌^◌, ◌≤◌, ◌≡◌, refl, sym, ◌∙◌, ap, inl, inr, Bool-cases, List, [], ◌∷◌, Bytes, ascii,
  Result, ok, err, eq_of_ok, arith, ltb,
}
use cardano_infrastructure.Wallet.CommandHelper.{WalletError, refused}
use cardano_infrastructure.SendTx.Data.{BridgingTxReceiver}
use cardano_infrastructure.SendTx.Metadata.{
  BridgingRequestMetadataTransaction, addr_to_meta_data_addr, add_transactions, add_receivers,
  with_receiver, metadata_transactions,
}

-- A receiver that is accepted.
with_receiver-ok :
    (min_amount : ℕ) (addr : Bytes) (amount : ℕ)
    (rest : Result WalletError (List BridgingRequestMetadataTransaction))
    (txs : List BridgingRequestMetadataTransaction)
    → with_receiver min_amount addr amount rest ≡ ok txs
    → (others : List BridgingRequestMetadataTransaction) × (rest ≡ ok others)
      × (min_amount ≤ amount)
      × (record { address = addr_to_meta_data_addr addr; amount = amount } ∷ others ≡ txs)
unfolding with_receiver
with_receiver-ok min_amount [] amount rest txs h = absurd (cc h)
with_receiver-ok min_amount (c ∷ addr) amount (err e) txs h =
    elim (Bool-cases (ltb amount min_amount)) [
      | inl b ↦
          let failed : with_receiver min_amount (c ∷ addr) amount (err e)
              ≡ err (refused (ascii "amount for receiver is too low")) =
            simp b refl in
          absurd (cc (failed, h))
      | inr b ↦
          let failed : with_receiver min_amount (c ∷ addr) amount (err e) ≡ err e = simp b refl in
          absurd (cc (failed, h))
    ]
with_receiver-ok min_amount (c ∷ addr) amount (ok others) txs h =
    let tx : BridgingRequestMetadataTransaction = record {
      address = addr_to_meta_data_addr (c ∷ addr);
      amount = amount;
    } in
    elim (Bool-cases (ltb amount min_amount)) [
      | inl b ↦
          let failed : with_receiver min_amount (c ∷ addr) amount (ok others)
              ≡ err (refused (ascii "amount for receiver is too low")) =
            simp b refl in
          absurd (cc (failed, h))
      | inr b ↦
          let made : with_receiver min_amount (c ∷ addr) amount (ok others) ≡ ok (tx ∷ others) =
            simp b refl in
          (others, refl, ground arith, eq_of_ok (sym made ∙ h))
    ]

-- The sums over the metadata and over the request are the same.
pub add_transactions-receivers :
    (min_amount : ℕ) (receivers : List BridgingTxReceiver)
    (txs : List BridgingRequestMetadataTransaction) (s : ℕ)
    → metadata_transactions min_amount receivers ≡ ok txs
    → add_transactions s txs ≡ add_receivers s receivers
unfolding metadata_transactions add_transactions add_receivers
add_transactions-receivers min_amount [] txs s h = ap (add_transactions s) (sym (eq_of_ok h))
add_transactions-receivers min_amount (x ∷ receivers) txs s h =
    let (others, r, _, e) =
      with_receiver-ok min_amount x.addr x.amount (metadata_transactions min_amount receivers) txs
        h in
    ap (add_transactions s) (sym e)
    ∙ add_transactions-receivers min_amount receivers others ((s + x.amount) % 2 ^ 64) r
