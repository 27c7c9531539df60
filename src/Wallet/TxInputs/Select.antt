-- ===== src/Wallet/TxInputs/Select.antt =====
-- What `GetUTXOsForAmount` returns.
use mathlib.Core.List.{Perm}
use mathlib.Core.List.Perm
use cardano_infrastructure.Base.{
  ℕ, suc, ◌+◌, ◌-◌, ◌%◌, ◌^◌, ◌<◌, ◌≤◌, ◌≡◌, refl, sym, ◌∙◌, ap, ap₂, subst, inl, inr, Bool-cases,
  List, [], ◌∷◌, ◌++◌, append_assoc, Bytes, arith, length, length-append, length-set, length-take,
  get_or, set, get_or-set_self, take, take-suc, take_all, ltb, ok, eq_of_ok,
}
use cardano_infrastructure.Wallet.Data.{Utxo, sum_at, get_utxos_sum}
use cardano_infrastructure.Wallet.Data.Sums.{
  utxo_in, utxos_in, add_utxo_lem, sub_utxo_lem, get_utxos_sum_lem,
}
use cardano_infrastructure.Wallet.TxInputs.{
  TxInputs, zero_utxo, swap, utxos2_tx_inputs, find_min_chosen, AmountError, Choice, joined,
  without_min, within_limit, amount_loop, get_utxos_for_amount,
}
use cardano_infrastructure.Wallet.TxInputs.Smallest.{find_min_chosen-IsAt}
use cardano_infrastructure.Wallet.TxInputs.Swap.{
  middle-Perm, swap-Perm, take-set_above, utxos_in-swap_out, utxos_in-append,
}

-- Before the outputs of `rest` are looked at: the sums are those of the chosen outputs.
record Chosen (us rest : List Utxo) (s : Choice) : Type 0 where
  others : List Utxo
  split : Perm (s.chosen_utxos ++ (others ++ rest)) us
  summed : (key : Bytes) → sum_at s.current_sum key ≡ utxos_in key s.chosen_utxos % 2 ^ 64

joined-Chosen :
    (us rest : List Utxo) (u : Utxo) (s : Choice)
    → Chosen us (u ∷ rest) s
    → Chosen us rest (joined s u)
unfolding joined
joined-Chosen us rest u s v = record {
  others = v.others;
  split =
      subst (λ x. Perm x us) (sym (append_assoc s.chosen_utxos (u ∷ []) (v.others ++ rest)))
        (Perm.trans (Perm.append_left s.chosen_utxos (Perm.symm (middle-Perm u v.others rest)))
          v.split);
  summed = λ key.
      add_utxo_lem s.current_sum key u _ (v.summed key)
      ∙ ap (λ n. n % 2 ^ 64) (sym (utxos_in-append key s.chosen_utxos u));
}

-- A list with a last element, without the one at `i`, whose place the last one takes.
dropped-Perm :
    (xs : List Utxo) (n i : ℕ)
    → length xs ≡ suc n
    → i ≤ n
    → Perm (take n (set xs i (get_or xs n zero_utxo)) ++ (get_or xs i zero_utxo ∷ [])) xs
unfolding swap
dropped-Perm xs n i h l =
    let ys = swap xs i n in
    let long : length ys ≡ suc n =
      length-set (set xs i (get_or xs n zero_utxo)) n (get_or xs i zero_utxo)
      ∙ length-set xs i (get_or xs n zero_utxo)
      ∙ h in
    let whole : ys ≡ take n ys ++ (get_or ys n zero_utxo ∷ []) =
      sym (take_all (suc n) ys (omega (arith, long)))
      ∙ take-suc zero_utxo n ys (omega (arith, long)) in
    let front : take n ys ≡ take n (set xs i (get_or xs n zero_utxo)) =
      take-set_above (set xs i (get_or xs n zero_utxo)) n n (get_or xs i zero_utxo) (omega arith) in
    let last : get_or ys n zero_utxo ≡ get_or xs i zero_utxo =
      get_or-set_self (set xs i (get_or xs n zero_utxo)) n (get_or xs i zero_utxo) zero_utxo
        (omega (arith, h, length-set xs i (get_or xs n zero_utxo))) in
    subst (λ x. Perm x xs) (whole ∙ ap₂ (λ x y. x ++ (y ∷ [])) front last)
      (swap-Perm xs i n (omega arith) (omega arith))

dropped-sum :
    (key : Bytes) (xs : List Utxo) (n i : ℕ)
    → length xs ≡ suc n
    → i ≤ n
    → utxos_in key (take n (set xs i (get_or xs n zero_utxo))) + utxo_in key (get_or xs i zero_utxo)
      ≡ utxos_in key xs
unfolding swap
dropped-sum key xs n i h l =
    let front =
      take-set_above (set xs i (get_or xs n zero_utxo)) n n (get_or xs i zero_utxo) (omega arith) in
    let m : n + 1 ≡ suc n = omega arith in
    ap (λ t. utxos_in key t + utxo_in key (get_or xs i zero_utxo)) (sym front)
    ∙ utxos_in-swap_out key xs n i l (omega arith)
    ∙ ap (λ c. utxos_in key (take c xs)) m
    ∙ ap (utxos_in key) (take_all (suc n) xs (omega arith))

-- The output that goes, its index, and the number of those that stay.
pub record Dropped (token_name : Bytes) (s : Choice) : Type 0 where
  pub gone : Utxo
  pub kept_split : Perm ((without_min token_name s).chosen_utxos ++ (gone ∷ [])) s.chosen_utxos
  pub kept_sum :
      (key : Bytes)
      → utxos_in key (without_min token_name s).chosen_utxos + utxo_in key gone
        ≡ utxos_in key s.chosen_utxos
  pub kept_count : length (without_min token_name s).chosen_utxos + 1 ≡ length s.chosen_utxos
  pub is_min : (find_min_chosen token_name s.chosen_utxos).0 ≡ gone

pub without_min-Dropped :
    (token_name : Bytes) (s : Choice) → 0 < length s.chosen_utxos → Dropped token_name s
unfolding without_min
without_min-Dropped token_name s h =
    let xs = s.chosen_utxos in
    let n = length xs - 1 in
    let i = (find_min_chosen token_name xs).1 in
    let at = find_min_chosen-IsAt token_name xs h in
    record {
      gone = get_or xs i zero_utxo;
      kept_split = dropped-Perm xs n i (omega arith) (omega (arith, at.0));
      kept_sum = λ key. dropped-sum key xs n i (omega arith) (omega (arith, at.0));
      kept_count = omega (
        arith,
        length-take n (set xs i (get_or xs n zero_utxo)),
        length-set xs i (get_or xs n zero_utxo),
      );
      is_min = sym at.1;
    }

pub without_min-sum :
    (token_name : Bytes) (s : Choice) (key : Bytes)
    → (d : Dropped token_name s) → sum_at s.current_sum key ≡ utxos_in key s.chosen_utxos % 2 ^ 64
    → sum_at (without_min token_name s).current_sum key
      ≡ utxos_in key (without_min token_name s).chosen_utxos % 2 ^ 64
unfolding without_min
without_min-sum token_name s key d h =
    sub_utxo_lem s.current_sum key (find_min_chosen token_name s.chosen_utxos).0 _ (
      h
      ∙ ap (λ n. n % 2 ^ 64) (sym (d.kept_sum key))
      ∙ ap (λ u. (utxos_in key (without_min token_name s).chosen_utxos + utxo_in key u) % 2 ^ 64)
          (sym d.is_min))

without_min-Chosen :
    (us rest : List Utxo) (token_name : Bytes) (s : Choice)
    → 0 < length s.chosen_utxos
    → Chosen us rest s
    → Chosen us rest (without_min token_name s)
without_min-Chosen us rest token_name s h v =
    let d = without_min-Dropped token_name s h in
    let kept = (without_min token_name s).chosen_utxos in
    record {
      others = d.gone ∷ v.others;
      split =
          Perm.trans
            (subst (λ x. Perm x (s.chosen_utxos ++ (v.others ++ rest)))
              (append_assoc kept (d.gone ∷ []) (v.others ++ rest))
              (Perm.append_right (v.others ++ rest) d.kept_split))
            v.split;
      summed = λ key. without_min-sum token_name s key d (v.summed key);
    }

within_limit-Chosen :
    (us rest : List Utxo) (token_name : Bytes) (max_inputs : ℕ) (s : Choice)
    → Chosen us rest s
    → Chosen us rest (within_limit token_name max_inputs s)
unfolding within_limit
within_limit-Chosen us rest token_name max_inputs s v =
    elim (Bool-cases (ltb max_inputs (length s.chosen_utxos))) [
      | inl e ↦ simp e (without_min-Chosen us rest token_name s (ground arith) v)
      | inr e ↦ simp e v
    ]

within_limit_bounded :
    (token_name : Bytes) (max_inputs : ℕ) (s : Choice)
    → length s.chosen_utxos ≤ max_inputs + 1
    → length (within_limit token_name max_inputs s).chosen_utxos ≤ max_inputs
unfolding within_limit
within_limit_bounded token_name max_inputs s h =
    elim (Bool-cases (ltb max_inputs (length s.chosen_utxos))) [
      | inl e ↦ simp e (omega (arith, (without_min-Dropped token_name s (ground arith)).kept_count))
      | inr e ↦ simp e (ground arith)
    ]

pub length-joined :
    (s : Choice) (u : Utxo) → length (joined s u).chosen_utxos ≡ length s.chosen_utxos + 1
unfolding joined
length-joined s u = length-append s.chosen_utxos (u ∷ [])

-- `r` is made of outputs of `us`, none of them twice: `picked`. Its sum is theirs, as a `uint64`, it
-- has the desired sum of the token, and no more than `max_inputs` are picked.
pub record IsPicked (us : List Utxo) (token_name : Bytes) (desired_sum max_inputs : ℕ)
    (r : TxInputs) : Type 0 where
  pub picked : List Utxo
  pub others : List Utxo
  pub split : Perm (picked ++ others) us
  pub inputs : r.inputs ≡ utxos2_tx_inputs picked
  pub sum : (key : Bytes) → sum_at r.sum key ≡ sum_at (get_utxos_sum picked) key
  pub bounded : length picked ≤ max_inputs
  pub enough : desired_sum ≤ sum_at r.sum token_name

amount_loop-IsPicked :
    (us : List Utxo) (token_name : Bytes) (desired_sum max_inputs : ℕ) (failed : AmountError)
    (rest : List Utxo) (s : Choice) (r : TxInputs)
    → Chosen us rest s
    → length s.chosen_utxos ≤ max_inputs
    → amount_loop token_name desired_sum max_inputs failed rest s ≡ ok r
    → IsPicked us token_name desired_sum max_inputs r
unfolding amount_loop
amount_loop-IsPicked us token_name desired_sum max_inputs failed [] s r v b h = cc
amount_loop-IsPicked us token_name desired_sum max_inputs failed (u ∷ rest) s r v b h =
    let s' = within_limit token_name max_inputs (joined s u) in
    let v' : Chosen us rest s' =
      within_limit-Chosen us rest token_name max_inputs (joined s u)
        (joined-Chosen us rest u s v) in
    let b' : length s'.chosen_utxos ≤ max_inputs =
      within_limit_bounded token_name max_inputs (joined s u) (omega (arith, length-joined s u)) in
    elim (Bool-cases (ltb (sum_at s'.current_sum token_name) desired_sum)) [
      | inl e ↦
          amount_loop-IsPicked us token_name desired_sum max_inputs failed rest s' r v' b'
            (sym (simp e refl) ∙ h)
      | inr e ↦
          subst (IsPicked us token_name desired_sum max_inputs) (eq_of_ok (sym (simp e refl) ∙ h))
            (record {
              picked = s'.chosen_utxos;
              others = v'.others ++ rest;
              split = v'.split;
              inputs = refl;
              sum = λ key. v'.summed key ∙ sym (get_utxos_sum_lem key s'.chosen_utxos);
              bounded = b';
              enough = ground arith;
            })
    ]

-- If `GetUTXOsForAmount` returns no error, then its inputs are outputs that it was given, none of
-- them twice and no more than the limit, its sum is their sum modulo 2 ^ 64, and that sum has at
-- least the desired amount of the token.
pub get_utxos_for_amount-IsPicked :
    (us : List Utxo) (token_name : Bytes) (desired_sum max_inputs : ℕ) (r : TxInputs)
    → get_utxos_for_amount us token_name desired_sum max_inputs ≡ ok r
    → IsPicked us token_name desired_sum max_inputs r
unfolding get_utxos_for_amount sum_at
get_utxos_for_amount-IsPicked us token_name desired_sum max_inputs r h =
    amount_loop-IsPicked us token_name desired_sum max_inputs _ us _ r
      (record { others = []; split = Perm.refl us; summed = λ key. omega arith }) (omega arith) h
