-- ===== src/Wallet/Network/Prefixes.antt =====
-- The prefixes of wallet/network_type.go and the test for them.
use cardano_infrastructure.Base.{
  ◌≡◌, ◌↔◌, ◌⊎◌, refl, ◌∙◌, ap, true, false, ◌||◌, ◌==◌, Bool, Bool-cases, inl, inr, [], ◌∷◌, ◌++◌,
  Bytes, ascii, arith,
}
use cardano_infrastructure.Common.Retry.{has_prefix}
use cardano_infrastructure.Wallet.Network.{
  get_prefix, get_stake_prefix, is_address_with_valid_prefix,
}

abbrev pub Begins : Bytes → Bytes → Type 0
Begins s p = (rest : Bytes) × (s ≡ p ++ rest)

has_prefix-Begins : (s p : Bytes) → has_prefix s p ≡ true → Begins s p
unfolding has_prefix
has_prefix-Begins s [] h = (s, refl)
has_prefix-Begins [] (b ∷ bs) h = absurd (cc h)
has_prefix-Begins (c ∷ s) (b ∷ bs) h = elim (Bool-cases (c == b)) [
  | inl e ↦
      let (rest, k) = has_prefix-Begins s bs (ground (arith, h)) in
      (rest, ground (arith, ap (λ t. c ∷ t) k))
  | inr e ↦ absurd (ground (arith, h))
]

Begins-has_prefix : (p rest : Bytes) → has_prefix (p ++ rest) p ≡ true
unfolding has_prefix
Begins-has_prefix [] rest = refl
Begins-has_prefix (b ∷ bs) rest = ground (arith, Begins-has_prefix bs rest)

either : {a b : Bool} → (a || b) ≡ true → (a ≡ true) ⊎ (b ≡ true)
either {a = true} h = inl refl
either {a = false} h = inr h

payments :
    (addr rest : Bytes) → addr ≡ ascii "addr" ++ rest → is_address_with_valid_prefix addr ≡ true
unfolding is_address_with_valid_prefix
payments addr rest e =
    ap is_address_with_valid_prefix e
    ∙ ap (λ b. b || has_prefix (ascii "addr" ++ rest) (ascii "stake"))
        (Begins-has_prefix (ascii "addr") rest)

stakes :
    (addr rest : Bytes) → addr ≡ ascii "stake" ++ rest → is_address_with_valid_prefix addr ≡ true
unfolding is_address_with_valid_prefix has_prefix
stakes addr rest e = ap is_address_with_valid_prefix e

-- A text is taken for an address of bech32 exactly if it begins with the prefix of the main network for
-- payments or with that for stakes; the texts with a prefix of the test network are among these.
pub prefix_is_valid :
    (addr : Bytes)
    → ((is_address_with_valid_prefix addr ≡ true)
        ↔ (Begins addr (get_prefix 1) ⊎ Begins addr (get_stake_prefix 1)))
      × ((Begins addr (get_prefix 0) ⊎ Begins addr (get_stake_prefix 0))
          → is_address_with_valid_prefix addr ≡ true)
unfolding get_prefix get_stake_prefix is_address_with_valid_prefix
prefix_is_valid addr = (
  (
    λ h. elim (either h) [
      | inl e ↦ inl (has_prefix-Begins addr (ascii "addr") e)
      | inr e ↦ inr (has_prefix-Begins addr (ascii "stake") e)
    ],
    λ b. elim b [ inl (rest, e) ↦ payments addr rest e | inr (rest, e) ↦ stakes addr rest e ],
  ),
  λ b. elim b [
    | inl (rest, e) ↦ payments addr (ascii "_test" ++ rest) e
    | inr (rest, e) ↦ stakes addr (ascii "_test" ++ rest) e
  ],
)
