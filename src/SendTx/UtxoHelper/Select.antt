-- ===== src/SendTx/UtxoHelper/Select.antt =====
-- What `GetUTXOsForAmounts` of sendtx/utxo_helper.go returns.
use mathlib.Core.List.{Perm}
use mathlib.Core.List.Perm
use cardano_infrastructure.Base.{
  ℕ, zero, suc, ◌+◌, ◌-◌, ◌%◌, ◌^◌, ◌<◌, ◌≤◌, ◌≡◌, refl, sym, ◌∙◌, ap, ap₂, subst, inl, inr, true,
  ◌&&◌, not, Bool-cases, List, [], ◌∷◌, ◌++◌, Bytes, arith, length, length-set, length-take, get_or,
  set, take, drop, take-append-drop, ltb, All, ◌==◌, ok, eq_of_ok,
}
use cardano_infrastructure.Wallet.Data.{
  Utxo, SumMap, sum_at, ada_token_name, add_utxo, get_utxos_sum,
}
use cardano_infrastructure.Wallet.Data.Sums.{
  utxo_in, utxos_in, add_utxo_lem, sub_utxo_lem, get_utxos_sum_lem,
}
use cardano_infrastructure.Wallet.TxInputs.{zero_utxo, swap, utxos2_tx_inputs, TxInputs}
use cardano_infrastructure.Wallet.TxInputs.Smallest.{get_or-take, IsAt, min_loop-IsAt}
use cardano_infrastructure.SendTx.UtxoHelper.{
  Conditions, does_sum_satisfy_condition, add_utxos, extra_count, prepare_tx_inputs, replace_loop,
  find_min_utxo, Selection, chosen, replaced, limited, select_loop, get_utxos_for_amounts,
}
use cardano_infrastructure.Wallet.TxInputs.Swap.{swap-Perm, utxos_in-swap_in, utxos_in-swap_out}

length-swap : (xs : List Utxo) (i j : ℕ) → length (swap xs i j) ≡ length xs
unfolding swap
length-swap xs i j =
    length-set (set xs i (get_or xs j zero_utxo)) j (get_or xs i zero_utxo)
    ∙ length-set xs i (get_or xs j zero_utxo)

find_min_utxo-IsAt :
    (us : List Utxo) (sum : SumMap) (conditions : Conditions)
    → 0 < length us
    → IsAt us (find_min_utxo us sum conditions)
unfolding find_min_utxo
find_min_utxo-IsAt [] sum conditions h = absurd (omega arith)
find_min_utxo-IsAt (u ∷ rest) sum conditions h =
    min_loop-IsAt (u ∷ rest) (replace_loop sum ada_token_name 0 conditions) 1 u 0 rest (h, refl)
      (λ j l.
        let e : suc j ≡ 1 + j = omega arith in
        subst (λ k. IsAt (u ∷ rest) (get_or rest j zero_utxo, k)) e (omega arith, refl))

-- Before index `i` is looked at: the sums are those of the selected outputs.
record Sound (us : List Utxo) (i : ℕ) (s : Selection) : Type 0 where
  within : s.choosen_count ≤ i
  long : length s.utxos ≡ length us
  same : Perm s.utxos us
  summed :
      (key : Bytes)
      → sum_at s.current_sum key ≡ utxos_in key (take s.choosen_count s.utxos) % 2 ^ 64

chosen-Sound :
    (us : List Utxo) (i : ℕ) (s : Selection)
    → i < length us
    → Sound us i s
    → Sound us (i + 1) (chosen s i)
unfolding chosen
chosen-Sound us i s h v =
    let inside : i < length s.utxos = omega (arith, v.long) in
    let before : s.choosen_count < length s.utxos = omega (arith, v.long, v.within) in
    record {
      within = omega (arith, v.within);
      long = length-swap s.utxos s.choosen_count i ∙ v.long;
      same = Perm.trans (swap-Perm s.utxos s.choosen_count i before inside) v.same;
      summed = λ key.
          add_utxo_lem s.current_sum key (get_or s.utxos i zero_utxo) _ (v.summed key)
          ∙ ap (λ n. n % 2 ^ 64)
              (sym (utxos_in-swap_in key s.utxos s.choosen_count i v.within inside));
    }

replaced-Sound :
    (us : List Utxo) (i : ℕ) (s : Selection) (conditions : Conditions)
    → 0 < s.choosen_count
    → i ≤ length us
    → Sound us i s
    → Sound us i (replaced s conditions)
unfolding replaced
replaced-Sound us i s conditions h l v =
    let front = take s.choosen_count s.utxos in
    let found = find_min_utxo front s.current_sum conditions in
    let n = s.choosen_count - 1 in
    let size : length front ≡ s.choosen_count =
      omega (arith, length-take s.choosen_count s.utxos, v.long, v.within) in
    let at : IsAt front found = find_min_utxo-IsAt front s.current_sum conditions (omega arith) in
    let early : found.1 < s.choosen_count = omega (arith, at.0) in
    let here : get_or s.utxos found.1 zero_utxo ≡ found.0 =
      sym (get_or-take s.utxos s.choosen_count found.1 early) ∙ at.1 in
    let inside : n < length s.utxos = omega (arith, v.long, v.within) in
    let next : n + 1 ≡ s.choosen_count = omega arith in
    record {
      within = omega (arith, v.within);
      long = length-swap s.utxos found.1 n ∙ v.long;
      same = Perm.trans (swap-Perm s.utxos found.1 n (omega arith) inside) v.same;
      summed = λ key. sub_utxo_lem s.current_sum key found.0 _ (
          v.summed key
          ∙ ap (λ c. utxos_in key (take c s.utxos) % 2 ^ 64) (sym next)
          ∙ ap (λ c. c % 2 ^ 64)
              (sym (utxos_in-swap_out key s.utxos n found.1 (omega arith) inside))
          ∙ ap (λ u. (utxos_in key (take n (swap s.utxos found.1 n)) + utxo_in key u) % 2 ^ 64)
              here);
    }

limited-Sound :
    (us : List Utxo) (i : ℕ) (s : Selection) (conditions : Conditions) (max_inputs : ℕ)
    → 0 < s.choosen_count
    → i ≤ length us
    → Sound us i s
    → Sound us i (limited s conditions max_inputs)
unfolding limited
limited-Sound us i s conditions max_inputs h l v =
    elim (Bool-cases (s.choosen_count == max_inputs)) [
      | inl e ↦ simp e (replaced-Sound us i s conditions h l v)
      | inr e ↦ simp e v
    ]

-- With a limit there is room for one more output before each round.
abbrev HasRoom : ℕ → Selection → Type 0
HasRoom max_inputs s = 0 < max_inputs → s.choosen_count < max_inputs

limited-HasRoom :
    (s : Selection) (conditions : Conditions) (max_inputs : ℕ)
    → (0 < max_inputs → s.choosen_count ≤ max_inputs)
    → HasRoom max_inputs (limited s conditions max_inputs)
unfolding limited replaced
limited-HasRoom s conditions max_inputs h p = elim (Bool-cases (s.choosen_count == max_inputs)) [
  | inl e ↦ simp e (omega (arith, h p))
  | inr e ↦ simp e (ground (arith, h p))
]

chosen_bounded :
    (s : Selection) (i max_inputs : ℕ)
    → HasRoom max_inputs s
    → 0 < max_inputs
    → (chosen s i).choosen_count ≤ max_inputs
unfolding chosen
chosen_bounded s i max_inputs h p = omega (arith, h p)

chosen_pos : (s : Selection) (i : ℕ) → 0 < (chosen s i).choosen_count
unfolding chosen
chosen_pos s i = omega arith

does_sum_same :
    (f g : SumMap) (conditions : Conditions)
    → ((key : Bytes) → sum_at f key ≡ sum_at g key)
    → does_sum_satisfy_condition f conditions ≡ does_sum_satisfy_condition g conditions
unfolding does_sum_satisfy_condition
does_sum_same f g [] h = refl
does_sum_same f g ((name, amount) ∷ conditions) h =
    ap₂ (λ x y. not (ltb x amount) && y) (h name) (does_sum_same f g conditions h)

add_utxos_lem :
    (sum : SumMap) (key : Bytes) (us : List Utxo) (s : ℕ)
    → sum_at sum key ≡ s % 2 ^ 64
    → sum_at (add_utxos sum us) key ≡ (s + utxos_in key us) % 2 ^ 64
unfolding add_utxos
add_utxos_lem sum key [] s h = omega arith
add_utxos_lem sum key (u ∷ us) s h =
    omega (
      arith,
      add_utxos_lem (add_utxo sum u) key us (s + utxo_in key u) (add_utxo_lem sum key u s h),
    )

utxos_in-take-drop :
    (key : Bytes) (us : List Utxo) (n m : ℕ)
    → utxos_in key (take (n + m) us) ≡ utxos_in key (take n us) + utxos_in key (take m (drop n us))
utxos_in-take-drop key us zero m =
    let e : 0 + m ≡ m = omega arith in ap (λ k. utxos_in key (take k us)) e ∙ omega arith
utxos_in-take-drop key [] (suc n) m =
    let e : suc n + m ≡ suc (n + m) = omega arith in
    ap (λ k. utxos_in key (take k [])) e ∙ nothing m
  where
    nothing : (m : ℕ) → 0 ≡ 0 + utxos_in key (take m [])
    nothing zero = omega arith
    nothing (suc m) = omega arith
utxos_in-take-drop key (u ∷ us) (suc n) m =
    let e : suc n + m ≡ suc (n + m) = omega arith in
    ap (λ k. utxos_in key (take k (u ∷ us))) e ∙ omega (arith, utxos_in-take-drop key us n m)

take-take : (us : List Utxo) (n m : ℕ) → take n (take (n + m) us) ≡ take n us
take-take us zero m = refl
take-take [] (suc n) m =
    let e : suc n + m ≡ suc (n + m) = omega arith in ap (λ k. take (suc n) (take k [])) e
take-take (u ∷ us) (suc n) m =
    let e : suc n + m ≡ suc (n + m) = omega arith in
    ap (λ k. take (suc n) (take k (u ∷ us))) e ∙ ap (◌∷◌ u) (take-take us n m)

-- `r` is made of outputs of `us`, none of them twice: `picked`. Its sum is theirs, as a `uint64`. No
-- more than `max_inputs` are picked, if that is positive, and the first `needed` of them already
-- satisfy the conditions.
pub record IsSelected (us : List Utxo) (conditions : Conditions) (max_inputs : ℕ) (r : TxInputs)
    : Type 0 where
  pub picked : List Utxo
  pub others : List Utxo
  pub split : Perm (picked ++ others) us
  pub inputs : r.inputs ≡ utxos2_tx_inputs picked
  pub sum : (key : Bytes) → sum_at r.sum key ≡ sum_at (get_utxos_sum picked) key
  pub bounded : 0 < max_inputs → length picked ≤ max_inputs
  pub needed : ℕ
  pub enough : All (λ c. c.1 ≤ sum_at (get_utxos_sum (take needed picked)) c.0) conditions

-- The test of a sum is that of each condition.
satisfied-All :
    (sum : SumMap) (conditions : Conditions)
    → does_sum_satisfy_condition sum conditions ≡ true
    → All (λ c. c.1 ≤ sum_at sum c.0) conditions
unfolding does_sum_satisfy_condition
satisfied-All sum [] h = tt
satisfied-All sum ((name, amount) ∷ conditions) h =
    elim (Bool-cases (ltb (sum_at sum name) amount)) [
      | inl e ↦ absurd (ground (arith, h))
      | inr e ↦ (ground arith, satisfied-All sum conditions (ground (arith, h)))
    ]

prepare-IsSelected :
    (us : List Utxo) (i : ℕ) (s : Selection) (conditions : Conditions) (max_inputs try_at_least : ℕ)
    → Sound us i s
    → (0 < max_inputs → s.choosen_count ≤ max_inputs)
    → does_sum_satisfy_condition s.current_sum conditions ≡ true
    → IsSelected us conditions max_inputs
        (prepare_tx_inputs s.utxos s.current_sum max_inputs try_at_least s.choosen_count)
unfolding prepare_tx_inputs
prepare-IsSelected us i s conditions max_inputs try_at_least v b e =
    let c = s.choosen_count in
    let n = extra_count s.utxos max_inputs try_at_least c in
    record {
      picked = take (c + n) s.utxos;
      others = drop (c + n) s.utxos;
      split = subst (λ x. Perm x us) (sym (take-append-drop (c + n) s.utxos)) v.same;
      inputs = refl;
      sum = λ key.
          add_utxos_lem s.current_sum key (take n (drop c s.utxos)) _ (v.summed key)
          ∙ ap (λ m. m % 2 ^ 64) (sym (utxos_in-take-drop key s.utxos c n))
          ∙ sym (get_utxos_sum_lem key (take (c + n) s.utxos));
      bounded = λ p. omega (arith, length-take (c + n) s.utxos, b p);
      needed = c;
      enough = satisfied-All _ conditions (
          does_sum_same _ s.current_sum conditions (λ key.
            get_utxos_sum_lem key (take c (take (c + n) s.utxos))
            ∙ ap (λ x. utxos_in key x % 2 ^ 64) (take-take s.utxos c n)
            ∙ sym (v.summed key))
          ∙ e);
    }

select_loop-IsSelected :
    (us : List Utxo) (conditions : Conditions) (max_inputs try_at_least n i : ℕ) (s : Selection)
    (r : TxInputs)
    → i + n ≡ length us
    → Sound us i s
    → HasRoom max_inputs s
    → select_loop conditions max_inputs try_at_least n i s ≡ ok r
    → IsSelected us conditions max_inputs r
unfolding select_loop
select_loop-IsSelected us conditions max_inputs try_at_least zero i s r l v p h =
    elim (Bool-cases (does_sum_satisfy_condition s.current_sum_total conditions)) [
      | inl e ↦ absurd (cc (e, h))
      | inr e ↦ absurd (cc (e, h))
    ]
select_loop-IsSelected us conditions max_inputs try_at_least (suc n) i s r l v p h =
    let s' = chosen s i in
    let v' : Sound us (i + 1) s' = chosen-Sound us i s (omega arith) v in
    let b : 0 < max_inputs → s'.choosen_count ≤ max_inputs = chosen_bounded s i max_inputs p in
    elim (Bool-cases (does_sum_satisfy_condition s'.current_sum conditions)) [
      | inl e ↦
          subst (IsSelected us conditions max_inputs) (eq_of_ok (sym (simp e refl) ∙ h))
            (prepare-IsSelected us (i + 1) s' conditions max_inputs try_at_least v' b e)
      | inr e ↦
          select_loop-IsSelected us conditions max_inputs try_at_least n (i + 1)
            (limited s' conditions max_inputs) r (omega arith)
            (limited-Sound us (i + 1) s' conditions max_inputs (chosen_pos s i) (omega arith) v')
            (limited-HasRoom s' conditions max_inputs b) (sym (simp e refl) ∙ h)
    ]

-- If `GetUTXOsForAmounts` returns no error, then its inputs are outputs that it was given, none of
-- them twice, its sum is their sum modulo 2 ^ 64, a positive limit is kept, and the sum of the first of
-- them, those chosen before more were added to reach the least number, has at least the amount of every condition.
pub get_utxos_for_amounts-IsSelected :
    (us : List Utxo) (conditions : Conditions) (max_inputs try_at_least : ℕ) (r : TxInputs)
    → get_utxos_for_amounts us conditions max_inputs try_at_least ≡ ok r
    → IsSelected us conditions max_inputs r
unfolding get_utxos_for_amounts sum_at
get_utxos_for_amounts-IsSelected us conditions max_inputs try_at_least r h =
    select_loop-IsSelected us conditions max_inputs try_at_least (length us) 0 _ r (omega arith)
      (record {
        within = omega arith;
        long = refl;
        same = Perm.refl us;
        summed = λ key. omega arith;
      })
      (λ p. p) h
