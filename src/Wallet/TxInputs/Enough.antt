-- ===== src/Wallet/TxInputs/Enough.antt =====
-- When `GetUTXOsForAmount` finds enough and when it does not.
use cardano_infrastructure.Base.{
  ℕ, ◌+◌, ◌%◌, ◌^◌, ◌<◌, ◌≤◌, ◌≡◌, refl, sym, ◌∙◌, ap, inl, inr, Bool-cases, List, [], ◌∷◌, Bytes,
  arith, length, ltb, true, lt→ltb, ok, err,
}
use cardano_infrastructure.Wallet.Data.{Utxo, sum_at, get_utxos_sum}
use cardano_infrastructure.Wallet.Data.Sums.{utxo_in, utxos_in, add_utxo_lem, get_utxos_sum_lem}
use cardano_infrastructure.Wallet.TxInputs.{
  TxInputs, AmountError, not_enough_funds, Choice, joined, within_limit, amount_loop,
  get_utxos_for_amount,
}
use cardano_infrastructure.Wallet.TxInputs.Select.{
  length-joined, without_min-Dropped, without_min-sum,
}
use cardano_infrastructure.Wallet.TxInputs.Swap.{utxos_in-append}

-- The sum is that of the chosen outputs.
abbrev Summed : Bytes → Choice → Type 0
Summed key s = sum_at s.current_sum key ≡ utxos_in key s.chosen_utxos % 2 ^ 64

joined-sum :
    (key : Bytes) (s : Choice) (u : Utxo)
    → utxos_in key (joined s u).chosen_utxos ≡ utxos_in key s.chosen_utxos + utxo_in key u
unfolding joined
joined-sum key s u = utxos_in-append key s.chosen_utxos u

joined-Summed : (key : Bytes) (s : Choice) (u : Utxo) → Summed key s → Summed key (joined s u)
unfolding joined
joined-Summed key s u h =
    add_utxo_lem s.current_sum key u _ h
    ∙ ap (λ n. n % 2 ^ 64) (sym (utxos_in-append key s.chosen_utxos u))

-- With room for an output nothing is dropped.
within_limit-room :
    (token_name : Bytes) (max_inputs : ℕ) (s : Choice)
    → length s.chosen_utxos ≤ max_inputs
    → within_limit token_name max_inputs s ≡ s
unfolding within_limit
within_limit-room token_name max_inputs s h =
    elim (Bool-cases (ltb max_inputs (length s.chosen_utxos))) [
      | inl e ↦ absurd (ground arith)
      | inr e ↦ simp e refl
    ]

-- Dropping takes nothing from the sum that is not there.
within_limit-Summed :
    (token_name : Bytes) (max_inputs : ℕ) (s : Choice)
    → Summed token_name s
    → Summed token_name (within_limit token_name max_inputs s)
      × (utxos_in token_name (within_limit token_name max_inputs s).chosen_utxos
          ≤ utxos_in token_name s.chosen_utxos)
unfolding within_limit
within_limit-Summed token_name max_inputs s h =
    elim (Bool-cases (ltb max_inputs (length s.chosen_utxos))) [
      | inl e ↦
          let d = without_min-Dropped token_name s (ground arith) in
          simp e (without_min-sum token_name s token_name d h, omega (arith, d.kept_sum token_name))
      | inr e ↦ simp e (h, omega arith)
    ]

-- One round with room.
amount_loop-room :
    (token_name : Bytes) (desired_sum max_inputs : ℕ) (failed : AmountError) (u : Utxo)
    (rest : List Utxo) (s : Choice)
    → length s.chosen_utxos + 1 ≤ max_inputs
    → (ltb (sum_at (joined s u).current_sum token_name) desired_sum ≡ true
        → (r : TxInputs) × (amount_loop token_name desired_sum max_inputs failed rest (joined s u)
            ≡ ok r))
    → (r : TxInputs) × (amount_loop token_name desired_sum max_inputs failed (u ∷ rest) s ≡ ok r)
unfolding amount_loop
amount_loop-room token_name desired_sum max_inputs failed u rest s l later =
    let same : within_limit token_name max_inputs (joined s u) ≡ joined s u =
      within_limit-room token_name max_inputs (joined s u) (omega (arith, length-joined s u)) in
    elim (Bool-cases (ltb (sum_at (joined s u).current_sum token_name) desired_sum)) [
      | inl e ↦ rw same (simp e (later e))
      | inr e ↦ rw same (simp e (_, refl))
    ]

amount_loop-enough :
    (token_name : Bytes) (desired_sum max_inputs : ℕ) (failed : AmountError) (u : Utxo)
    (rest : List Utxo) (s : Choice)
    → Summed token_name s
    → length s.chosen_utxos + length (u ∷ rest) ≤ max_inputs
    → desired_sum ≤ (utxos_in token_name s.chosen_utxos + utxos_in token_name (u ∷ rest)) % 2 ^ 64
    → (r : TxInputs) × (amount_loop token_name desired_sum max_inputs failed (u ∷ rest) s ≡ ok r)
amount_loop-enough token_name desired_sum max_inputs failed u [] s h l k =
    amount_loop-room token_name desired_sum max_inputs failed u [] s (omega arith) (λ e.
      let total = joined-sum token_name s u in
      let h' = joined-Summed token_name s u h in
      let short : sum_at (joined s u).current_sum token_name < desired_sum = ground arith in
      absurd (omega (arith, total, h', short)))
amount_loop-enough token_name desired_sum max_inputs failed u (v ∷ rest) s h l k =
    amount_loop-room token_name desired_sum max_inputs failed u (v ∷ rest) s (omega arith) (λ e.
      let total = joined-sum token_name s u in
      amount_loop-enough token_name desired_sum max_inputs failed v rest (joined s u)
        (joined-Summed token_name s u h) (omega (arith, length-joined s u)) (omega (arith, total)))

-- With a limit that all the outputs keep, and at least one output, `GetUTXOsForAmount` succeeds when
-- all of them together have the desired amount of the token, as a `uint64`.
pub get_utxos_for_amount_enough :
    (u : Utxo) (us : List Utxo) (token_name : Bytes) (desired_sum max_inputs : ℕ)
    → length (u ∷ us) ≤ max_inputs
    → desired_sum ≤ sum_at (get_utxos_sum (u ∷ us)) token_name
    → (r : TxInputs) × (get_utxos_for_amount (u ∷ us) token_name desired_sum max_inputs ≡ ok r)
unfolding get_utxos_for_amount sum_at
get_utxos_for_amount_enough u us token_name desired_sum max_inputs l k =
    let total = get_utxos_sum_lem token_name (u ∷ us) in
    amount_loop-enough token_name desired_sum max_inputs _ u us
      (record { current_sum = []; chosen_utxos = [] }) (omega arith) (omega arith)
      (omega (arith, total))

amount_loop-insufficient :
    (token_name : Bytes) (desired_sum max_inputs : ℕ) (failed : AmountError) (rest : List Utxo)
    (s : Choice)
    → Summed token_name s
    → utxos_in token_name s.chosen_utxos + utxos_in token_name rest < desired_sum
    → amount_loop token_name desired_sum max_inputs failed rest s ≡ err failed
unfolding amount_loop
amount_loop-insufficient token_name desired_sum max_inputs failed [] s h k = refl
amount_loop-insufficient token_name desired_sum max_inputs failed (u ∷ rest) s h k =
    let s' = within_limit token_name max_inputs (joined s u) in
    let (h', less) =
      within_limit-Summed token_name max_inputs (joined s u) (joined-Summed token_name s u h) in
    let total = joined-sum token_name s u in
    let small : sum_at s'.current_sum token_name < desired_sum = omega (arith, h', less, total) in
    let e : ltb (sum_at s'.current_sum token_name) desired_sum ≡ true = lt→ltb _ _ small in
    simp e (
      amount_loop-insufficient token_name desired_sum max_inputs failed rest s' h'
        (omega (arith, less, total)))

-- When all the outputs together have less of the token than is desired, whatever the limit,
-- `GetUTXOsForAmount` fails and says that there are not enough funds.
pub get_utxos_for_amount_insufficient :
    (us : List Utxo) (token_name : Bytes) (desired_sum max_inputs : ℕ)
    → utxos_in token_name us < desired_sum
    → get_utxos_for_amount us token_name desired_sum max_inputs ≡ err not_enough_funds
unfolding get_utxos_for_amount sum_at
get_utxos_for_amount_insufficient us token_name desired_sum max_inputs k =
    let total = get_utxos_sum_lem token_name us in
    let e : ltb (sum_at (get_utxos_sum us) token_name) desired_sum ≡ true =
      lt→ltb _ _ (omega (arith, total)) in
    simp e (
      amount_loop-insufficient token_name desired_sum max_inputs not_enough_funds us
        (record { current_sum = []; chosen_utxos = [] }) (omega arith) (omega arith))
