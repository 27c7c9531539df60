-- ===== src/Wallet/TxInputs/Swap.antt =====
-- Swaps in a slice of outputs, and what they do to sums.
use mathlib.Core.List.{Perm}
use mathlib.Core.List.Perm
use cardano_infrastructure.Base.{
  ℕ, zero, suc, ap₂, ◌+◌, ◌<◌, ◌≤◌, ◌≡◌, refl, sym, ◌∙◌, ap, subst, inl, inr, Bool-cases, List, [],
  ◌∷◌, ◌++◌, arith, length, length-set, get_or, set, take, take-suc, get_or-set_self, get_or-set_ne,
  ◌==◌,
}
use cardano_infrastructure.Wallet.Data.{Utxo}
use cardano_infrastructure.Wallet.Data.Sums.{utxo_in, utxos_in}
use cardano_infrastructure.Wallet.TxInputs.{zero_utxo, swap}

pub set-Perm :
    (xs : List Utxo) (i : ℕ) (v : Utxo)
    → i < length xs
    → Perm (v ∷ xs) (get_or xs i zero_utxo ∷ set xs i v)
set-Perm [] i v h = absurd (omega arith)
set-Perm (x ∷ xs) zero v h = Perm.swap x v xs
set-Perm (x ∷ xs) (suc i) v h = Perm.trans (Perm.swap x v xs) (
    Perm.trans (Perm.cons x (set-Perm xs i v (omega arith)))
      (Perm.swap (get_or xs i zero_utxo) x (set xs i v)))

pub middle-Perm : (u : Utxo) (xs ys : List Utxo) → Perm (xs ++ (u ∷ ys)) (u ∷ (xs ++ ys))
middle-Perm u [] ys = Perm.refl (u ∷ ys)
middle-Perm u (x ∷ xs) ys =
    Perm.trans (Perm.cons x (middle-Perm u xs ys)) (Perm.swap u x (xs ++ ys))

-- The value at `j` once `i` has that value too.
get_or-set_same :
    (xs : List Utxo) (i j : ℕ)
    → i < length xs
    → get_or (set xs i (get_or xs j zero_utxo)) j zero_utxo ≡ get_or xs j zero_utxo
get_or-set_same xs i j h = elim (Bool-cases (i == j)) [
  | inl e ↦
      let k : i ≡ j = ground arith in
      subst (λ m. get_or (set xs i (get_or xs j zero_utxo)) m zero_utxo ≡ get_or xs j zero_utxo) k
        (get_or-set_self xs i (get_or xs j zero_utxo) zero_utxo h)
  | inr e ↦ get_or-set_ne xs i j (get_or xs j zero_utxo) zero_utxo (λ k. ground arith)
]

-- A swap keeps every output, as often as it was there.
pub swap-Perm : (xs : List Utxo) (i j : ℕ) → i < length xs → j < length xs → Perm (swap xs i j) xs
unfolding swap
swap-Perm xs i j h k =
    let a = get_or xs i zero_utxo in
    let b = get_or xs j zero_utxo in
    let ys = set xs i b in
    let second = set-Perm ys j a (omega (arith, length-set xs i b)) in
    Perm.symm (
      Perm.cons_inv (
        Perm.trans (set-Perm xs i b h)
          (subst (λ x. Perm (a ∷ ys) (x ∷ set ys j a)) (get_or-set_same xs i j h) second)))

pub take-set_above : (xs : List Utxo) (n i : ℕ) (v : Utxo) → n ≤ i → take n (set xs i v) ≡ take n xs
take-set_above xs zero i v h = refl
take-set_above [] (suc n) i v h = refl
take-set_above (x ∷ xs) (suc n) zero v h = absurd (omega arith)
take-set_above (x ∷ xs) (suc n) (suc i) v h = ap (◌∷◌ x) (take-set_above xs n i v (omega arith))

-- Writing one of the first `n` outputs changes their sum by the difference.
utxos_in-set :
    (key : List ℕ) (xs : List Utxo) (n i : ℕ) (v : Utxo)
    → i < n
    → n ≤ length xs
    → utxos_in key (take n (set xs i v)) + utxo_in key (get_or xs i zero_utxo)
      ≡ utxos_in key (take n xs) + utxo_in key v
utxos_in-set key xs zero i v h k = absurd (omega arith)
utxos_in-set key [] (suc n) i v h k = absurd (omega arith)
utxos_in-set key (x ∷ xs) (suc n) zero v h k = omega arith
utxos_in-set key (x ∷ xs) (suc n) (suc i) v h k =
    omega (arith, utxos_in-set key xs n i v (omega arith) (omega arith))

pub utxos_in-append :
    (key : List ℕ) (xs : List Utxo) (x : Utxo)
    → utxos_in key (xs ++ (x ∷ [])) ≡ utxos_in key xs + utxo_in key x
utxos_in-append key [] x = omega arith
utxos_in-append key (y ∷ ys) x = omega (arith, utxos_in-append key ys x)

utxos_in-take-suc :
    (key : List ℕ) (xs : List Utxo) (n : ℕ)
    → n < length xs
    → utxos_in key (take (suc n) xs)
      ≡ utxos_in key (take n xs) + utxo_in key (get_or xs n zero_utxo)
utxos_in-take-suc key xs n h =
    ap (utxos_in key) (take-suc zero_utxo n xs h)
    ∙ utxos_in-append key (take n xs) (get_or xs n zero_utxo)

-- The first place of a swap has the value of the second.
pub swapped_first :
    (xs : List Utxo) (n i : ℕ)
    → n < length xs
    → i < length xs
    → get_or (swap xs n i) n zero_utxo ≡ get_or xs i zero_utxo
unfolding swap
swapped_first xs n i h k =
    let a = get_or xs n zero_utxo in
    let b = get_or xs i zero_utxo in
    let ys = set xs n b in
    elim (Bool-cases (n == i)) [
      | inl e ↦
          let m : i ≡ n = ground arith in
          subst
            (λ j.
              get_or (set (set xs n (get_or xs j zero_utxo)) j a) n zero_utxo
              ≡ get_or xs j zero_utxo)
            (sym m) (get_or-set_self (set xs n a) n a zero_utxo (omega (arith, length-set xs n a)))
      | inr e ↦
          get_or-set_ne ys i n a zero_utxo (λ m. ground arith) ∙ get_or-set_self xs n b zero_utxo h
    ]

-- The output at `i` joins the first `n`.
pub utxos_in-swap_in :
    (key : List ℕ) (xs : List Utxo) (n i : ℕ)
    → n ≤ i
    → i < length xs
    → utxos_in key (take (n + 1) (swap xs n i))
      ≡ utxos_in key (take n xs) + utxo_in key (get_or xs i zero_utxo)
unfolding swap
utxos_in-swap_in key xs n i h k =
    let a = get_or xs n zero_utxo in
    let b = get_or xs i zero_utxo in
    let ys = set xs n b in
    let zs = set ys i a in
    let long : n < length zs = omega (arith, length-set xs n b, length-set ys i a) in
    let front : take n zs ≡ take n xs =
      take-set_above ys n i a h ∙ take-set_above xs n n b (omega arith) in
    let last : get_or zs n zero_utxo ≡ b = swapped_first xs n i (omega arith) k in
    let m : n + 1 ≡ suc n = omega arith in
    ap (λ c. utxos_in key (take c zs)) m
    ∙ utxos_in-take-suc key zs n long
    ∙ ap₂ (λ t u. utxos_in key t + utxo_in key u) front last

-- The output at `i` leaves the first `n + 1`.
pub utxos_in-swap_out :
    (key : List ℕ) (xs : List Utxo) (n i : ℕ)
    → i ≤ n
    → n < length xs
    → utxos_in key (take n (swap xs i n)) + utxo_in key (get_or xs i zero_utxo)
      ≡ utxos_in key (take (n + 1) xs)
unfolding swap
utxos_in-swap_out key xs n i h k =
    let a = get_or xs i zero_utxo in
    let b = get_or xs n zero_utxo in
    let ys = set xs i b in
    let m : n + 1 ≡ suc n = omega arith in
    let all : utxos_in key (take (n + 1) xs) ≡ utxos_in key (take n xs) + utxo_in key b =
      ap (λ c. utxos_in key (take c xs)) m ∙ utxos_in-take-suc key xs n k in
    let front : utxos_in key (take n (set ys n a)) ≡ utxos_in key (take n ys) =
      ap (utxos_in key) (take-set_above ys n n a (omega arith)) in
    elim (Bool-cases (i == n)) [
      | inl e ↦
          let j : i ≡ n = ground arith in
          let same : utxo_in key a ≡ utxo_in key b =
            ap (λ c. utxo_in key (get_or xs c zero_utxo)) j in
          let rest : utxos_in key (take n ys) ≡ utxos_in key (take n xs) =
            ap (utxos_in key) (take-set_above xs n i b (omega arith)) in
          omega (arith, all, front, same, rest)
      | inr e ↦ omega (arith, all, front, utxos_in-set key xs n i b (ground arith) (omega arith))
    ]
