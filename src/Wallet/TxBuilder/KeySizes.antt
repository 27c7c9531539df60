-- ===== src/Wallet/TxBuilder/KeySizes.antt =====
-- The sizes of padded keys.
use cardano_infrastructure.Base.{
  ℕ, ◌-◌, ◌/◌, ◌≡◌, ◌∙◌, inl, inr, ◌⊎◌, Bool-cases, Bytes, arith, length, length-append,
  length-replicate, length-take, replicate, ltb,
}
use cardano_infrastructure.Wallet.TxBuilder.Run.{key_extended_size, padded_to, pad_key_to_size}

length-padded_to : (size : ℕ) (key : Bytes) → length (padded_to size key) ≡ size
unfolding padded_to
length-padded_to size key = elim (Bool-cases (ltb (length key) size)) [
  | inl e ↦ simp e (
      length-append (replicate (size - length key) 0) key
      ∙ ground (arith, length-replicate {A = ℕ} (size - length key) 0))
  | inr e ↦ simp e (ground (arith, length-take size key))
]

-- `PadKeyToSize` gives 32 bytes or 128, whatever the size of the key.
pub length-pad_key_to_size :
    (key : Bytes) → (length (pad_key_to_size key) ≡ 32) ⊎ (length (pad_key_to_size key) ≡ 128)
unfolding pad_key_to_size
length-pad_key_to_size key = elim (Bool-cases (ltb (key_extended_size / 2) (length key))) [
  | inl e ↦ inr (simp e (length-padded_to 128 key))
  | inr e ↦ inl (simp e (length-padded_to 32 key))
]
