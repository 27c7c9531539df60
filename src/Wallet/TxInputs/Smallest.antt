-- ===== src/Wallet/TxInputs/Smallest.antt =====
-- The smallest output that `findMinUtxo` finds.
use cardano_infrastructure.Base.{
  ℕ, zero, suc, ◌+◌, ◌<◌, ◌≡◌, refl, subst, inl, inr, Bool-cases, List, [], ◌∷◌, Bytes, arith,
  length, get_or, take, ltb,
}
use cardano_infrastructure.Wallet.Data.{Utxo, get_token_amount}
use cardano_infrastructure.Wallet.TxInputs.{zero_utxo, min_loop, find_min_chosen}

pub get_or-take :
    (xs : List Utxo) (n j : ℕ) → j < n → get_or (take n xs) j zero_utxo ≡ get_or xs j zero_utxo
get_or-take xs zero j h = absurd (omega arith)
get_or-take [] (suc n) j h = refl
get_or-take (x ∷ xs) (suc n) zero h = refl
get_or-take (x ∷ xs) (suc n) (suc j) h = get_or-take xs n j (omega arith)

-- The pair is an output of the list and its index.
abbrev pub IsAt : List Utxo → Utxo × ℕ → Type 0
IsAt us (u, i) = (i < length us) × (get_or us i zero_utxo ≡ u)

pub min_loop-IsAt :
    (us : List Utxo) (name : Bytes) (i : ℕ) (u : Utxo) (idx : ℕ) (rest : List Utxo)
    → IsAt us (u, idx)
    → ((j : ℕ) → j < length rest → IsAt us (get_or rest j zero_utxo, i + j))
    → IsAt us (min_loop name i u idx rest)
unfolding min_loop
min_loop-IsAt us name i u idx [] a h = a
min_loop-IsAt us name i u idx (v ∷ rest) a h =
    let at : IsAt us (v, i) = subst (λ k. IsAt us (v, k)) (omega arith) (h 0 (omega arith)) in
    let later : (j : ℕ) → j < length rest → IsAt us (get_or rest j zero_utxo, i + 1 + j) = λ j l.
      subst (λ k. IsAt us (get_or rest j zero_utxo, k)) (omega arith) (h (suc j) (omega arith)) in
    elim (Bool-cases (ltb (get_token_amount v name) (get_token_amount u name))) [
      | inl e ↦ simp e (min_loop-IsAt us name (i + 1) v i rest at later)
      | inr e ↦ simp e (min_loop-IsAt us name (i + 1) u idx rest a later)
    ]

pub find_min_chosen-IsAt :
    (token_name : Bytes) (us : List Utxo) → 0 < length us → IsAt us (find_min_chosen token_name us)
unfolding find_min_chosen
find_min_chosen-IsAt token_name [] h = absurd (omega arith)
find_min_chosen-IsAt token_name (u ∷ rest) h =
    min_loop-IsAt (u ∷ rest) token_name 1 u 0 rest (h, refl)
      (λ j l.
        let e : suc j ≡ 1 + j = omega arith in
        subst (λ k. IsAt (u ∷ rest) (get_or rest j zero_utxo, k)) e (omega arith, refl))
