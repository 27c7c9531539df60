-- ===== src/Wallet/PolicyScript/Canonical.antt =====
-- The script that `NewPolicyScript` of wallet/policy_script.go makes of some keys in any order.
use cardano_infrastructure.Base.{
  ℕ, ◌+◌, ◌≡◌, refl, sym, ◌∙◌, ap, ap₂, true, false, Bool-cases, inl, inr, List, [], ◌∷◌, Bytes,
  bytes_eq, bytes_lt, bytes_eq_sound, bytes_eq_refl, bytes_lt_irrefl, bytes_lt_trans,
  bytes_lt-total, arith, if◌then◌else◌, All,
}
use cardano_infrastructure.Wallet.PolicyScript.{
  insert_key, sort_keys, sig_scripts, script, at_least_type, new_policy_script,
}

-- How often a key hash stands in a list.
abbrev pub count : Bytes → List Bytes → ℕ
count key [] = 0
count key (x ∷ xs) = (if bytes_eq x key then 1 else 0) + count key xs

abbrev IsAscending : List Bytes → Type 0
IsAscending [] = Unit {0}
IsAscending (x ∷ xs) = All (λ y. bytes_lt y x ≡ false) xs × IsAscending xs

not_lt_trans : (x y z : Bytes) → bytes_lt y x ≡ false → bytes_lt z y ≡ false → bytes_lt z x ≡ false
not_lt_trans x y z h k = elim (Bool-cases (bytes_lt z x)) [
  | inr e ↦ e
  | inl e ↦ elim (Bool-cases (bytes_lt x y)) [
    | inl l ↦ cc (bytes_lt_trans z x y e l, k)
    | inr g ↦ let same : x ≡ y = bytes_lt-total x y g h in ap (bytes_lt z) same ∙ k
  ]
]

All-not_lt :
    (x y : Bytes) (zs : List Bytes)
    → bytes_lt y x ≡ false
    → All (λ z. bytes_lt z y ≡ false) zs
    → All (λ z. bytes_lt z x ≡ false) zs
All-not_lt x y [] h a = tt
All-not_lt x y (z ∷ zs) h (p, a) = (not_lt_trans x y z h p, All-not_lt x y zs h a)

insert_key-All :
    (w x : Bytes) (xs : List Bytes)
    → bytes_lt x w ≡ false
    → All (λ z. bytes_lt z w ≡ false) xs
    → All (λ z. bytes_lt z w ≡ false) (insert_key x xs)
unfolding insert_key
insert_key-All w x [] h a = (h, tt)
insert_key-All w x (y ∷ ys) h (p, a) = elim (Bool-cases (bytes_lt y x)) [
  | inl e ↦ rw e (p, insert_key-All w x ys h a)
  | inr e ↦ rw e (h, (p, a))
]

lt_asymm : (x y : Bytes) → bytes_lt x y ≡ true → bytes_lt y x ≡ false
lt_asymm x y h = elim (Bool-cases (bytes_lt y x)) [
  | inl e ↦ cc (bytes_lt_trans x y x h e, bytes_lt_irrefl x)
  | inr e ↦ e
]

insert_key-IsAscending :
    (x : Bytes) (xs : List Bytes) → IsAscending xs → IsAscending (insert_key x xs)
unfolding insert_key
insert_key-IsAscending x [] s = (tt, tt)
insert_key-IsAscending x (y ∷ ys) (a, s) = elim (Bool-cases (bytes_lt y x)) [
  | inl e ↦ rw e (insert_key-All y x ys (lt_asymm y x e) a, insert_key-IsAscending x ys s)
  | inr e ↦ rw e ((e, All-not_lt x y ys e a), (a, s))
]

sort_keys-IsAscending : (xs : List Bytes) → IsAscending (sort_keys xs)
unfolding sort_keys
sort_keys-IsAscending [] = tt
sort_keys-IsAscending (x ∷ xs) = insert_key-IsAscending x (sort_keys xs) (sort_keys-IsAscending xs)

count-insert_key :
    (key x : Bytes) (xs : List Bytes) → count key (insert_key x xs) ≡ count key (x ∷ xs)
unfolding insert_key
count-insert_key key x [] = refl
count-insert_key key x (y ∷ ys) = elim (Bool-cases (bytes_lt y x)) [
  | inl e ↦ rw e omega (arith, count-insert_key key x ys)
  | inr e ↦ rw e refl
]

count-sort_keys : (key : Bytes) (xs : List Bytes) → count key (sort_keys xs) ≡ count key xs
unfolding sort_keys
count-sort_keys key [] = refl
count-sort_keys key (x ∷ xs) =
    omega (arith, count-insert_key key x (sort_keys xs), count-sort_keys key xs)

-- A key before all keys of a list is not among them.
count_absent :
    (x : Bytes) (y : Bytes) (ys : List Bytes)
    → bytes_lt x y ≡ true
    → All (λ z. bytes_lt z y ≡ false) ys
    → count x ys ≡ 0
count_absent x y [] h a = refl
count_absent x y (z ∷ zs) h (p, a) = elim (Bool-cases (bytes_eq z x)) [
  | inl e ↦ cc (bytes_eq_sound z x e, h, p)
  | inr e ↦ rw e omega (arith, count_absent x y zs h a)
]

count_self : (x : Bytes) (xs : List Bytes) → count x (x ∷ xs) ≡ 1 + count x xs
count_self x xs = rw (bytes_eq_refl x) refl

count_other : (x y : Bytes) (ys : List Bytes) → bytes_lt x y ≡ true → count x (y ∷ ys) ≡ count x ys
count_other x y ys h = elim (Bool-cases (bytes_eq y x)) [
  | inl e ↦ cc (bytes_eq_sound y x e, h, bytes_lt_irrefl x)
  | inr e ↦ rw e omega arith
]

abbrev SameKeys : List Bytes → List Bytes → Type 0
SameKeys xs ys = (key : Bytes) → count key xs ≡ count key ys

-- The first keys of two such lists, when one of them comes first.
first_missing :
    (x y : Bytes) (xs ys : List Bytes)
    → bytes_lt x y ≡ true
    → All (λ z. bytes_lt z y ≡ false) ys
    → count x (x ∷ xs) ≡ count x (y ∷ ys)
    → ⊥
first_missing x y xs ys h a e =
    omega (arith, count_self x xs, count_other x y ys h, count_absent x y ys h a)

ascending_unique : (xs ys : List Bytes) → IsAscending xs → IsAscending ys → SameKeys xs ys → xs ≡ ys
ascending_unique [] [] s t h = refl
ascending_unique [] (y ∷ ys) s t h = absurd (omega (arith, h y, count_self y ys))
ascending_unique (x ∷ xs) [] s t h = absurd (omega (arith, h x, count_self x xs))
ascending_unique (x ∷ xs) (y ∷ ys) (a, s) (b, t) h = elim (Bool-cases (bytes_lt x y)) [
  | inl e ↦ absurd (first_missing x y xs ys e b (h x))
  | inr e ↦ elim (Bool-cases (bytes_lt y x)) [
    | inl f ↦ absurd (first_missing y x ys xs f a (sym (h y)))
    | inr f ↦
        let same : x ≡ y = bytes_lt-total x y e f in
        let rest : SameKeys xs ys =
          λ key. omega (arith, h key, ap (λ z. count key (z ∷ ys)) same) in
        ap₂ ◌∷◌ same (ascending_unique xs ys s t rest)
  ]
]

-- The script does not depend on the order of the key hashes: two lists with the same key hashes,
-- each as often, give one script, and so one policy id.
pub new_policy_script_unordered :
    (keys keys' : List Bytes) (required : ℕ)
    → ((key : Bytes) → count key keys ≡ count key keys')
    → new_policy_script keys required ≡ new_policy_script keys' required
unfolding new_policy_script
new_policy_script_unordered keys keys' required h =
    ap (λ ks. script at_least_type required (sig_scripts ks) [] 0)
      (ascending_unique (sort_keys keys) (sort_keys keys') (sort_keys-IsAscending keys)
        (sort_keys-IsAscending keys')
        (λ key. count-sort_keys key keys ∙ h key ∙ sym (count-sort_keys key keys')))
