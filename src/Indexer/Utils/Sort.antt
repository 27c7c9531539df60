-- ===== src/Indexer/Utils/Sort.antt =====
-- The order in which indexer/utils.go returns stored outputs.
use mathlib.Core.List.{Perm}
use mathlib.Core.List.Perm
use cardano_infrastructure.Base.{
  ◌<◌, ◌≤◌, ◌≡◌, true, false, List, [], ◌∷◌, arith, Bool-cases, inl, inr, All, bytes_eq,
  bytes_eq_iff, bytes_lt, bytes_lt_irrefl, bytes_lt_trans, bytes_lt-total, bytes_eq_sound, Bytes,
  sym, ◌∙◌, ◌==◌,
}
use cardano_infrastructure.Indexer.Data.{TxInputOutput}
use cardano_infrastructure.Indexer.Utils.{less, insert, sort_tx_input_outputs}

-- The documented order: by slot, then by the bytes of the hash, then by the index.
pub data Precedes (x y : TxInputOutput) : Type 0 where
  by_slot : x.output.slot < y.output.slot → Precedes x y
  by_hash : x.output.slot ≡ y.output.slot → bytes_lt x.input.hash y.input.hash ≡ true → Precedes x y
  by_index :
      x.output.slot ≡ y.output.slot
      → x.input.hash ≡ y.input.hash
      → x.input.index ≤ y.input.index
      → Precedes x y

bytes_lt-asymm : (xs ys : Bytes) → bytes_lt xs ys ≡ true → bytes_lt ys xs ≡ false
bytes_lt-asymm xs ys h = elim (Bool-cases (bytes_lt ys xs)) [
  | inl e ↦ cc (bytes_lt_trans xs ys xs h e, bytes_lt_irrefl xs)
  | inr e ↦ e
]

bytes_lt-ne : (xs ys : Bytes) → bytes_lt xs ys ≡ true → bytes_eq ys xs ≡ false
bytes_lt-ne xs ys h = elim (Bool-cases (bytes_eq ys xs)) [
  | inl e ↦ cc (bytes_eq_sound ys xs e, bytes_lt_irrefl xs)
  | inr e ↦ e
]

Precedes→less : {x y : TxInputOutput} → Precedes x y → less y x ≡ false
unfolding less
Precedes→less {x} {y} (by_slot h) = ground arith
Precedes→less {x} {y} (by_hash s h) =
    ground
      (arith, bytes_lt-asymm x.input.hash y.input.hash h, bytes_lt-ne x.input.hash y.input.hash h)
Precedes→less {x} {y} (by_index s h i) = ground (arith, bytes_eq_iff y.input.hash x.input.hash)

less→Precedes : (x y : TxInputOutput) → less y x ≡ false → Precedes x y
unfolding less
less→Precedes x y h = elim (Bool-cases (y.output.slot == x.output.slot)) [
  | inr e ↦ by_slot (grind arith)
  | inl e ↦ elim (Bool-cases (bytes_eq y.input.hash x.input.hash)) [
    | inl p ↦ by_index (ground arith) (sym (bytes_eq_sound _ _ p)) (ground arith)
    | inr p ↦ by_hash (ground arith) (elim (Bool-cases (bytes_lt x.input.hash y.input.hash)) [
      | inl q ↦ q
      | inr q ↦ absurd (
          ground (
            arith,
            bytes_lt-total x.input.hash y.input.hash,
            bytes_eq_iff y.input.hash x.input.hash,
          ))
    ])
  ]
]

-- Of two items one that `less` puts first precedes the other.
less-true : (x y : TxInputOutput) → less y x ≡ true → Precedes y x
unfolding less
less-true x y h = elim (Bool-cases (y.output.slot == x.output.slot)) [
  | inr e ↦ by_slot (ground arith)
  | inl e ↦ elim (Bool-cases (bytes_eq y.input.hash x.input.hash)) [
    | inl p ↦ by_index (ground arith) (bytes_eq_sound _ _ p) (ground arith)
    | inr p ↦ by_hash (ground arith) (ground arith)
  ]
]

Precedes-trans : {x y z : TxInputOutput} → Precedes x y → Precedes y z → Precedes x z
Precedes-trans (by_slot h) (by_slot k) = by_slot (omega arith)
Precedes-trans (by_slot h) (by_hash s k) = by_slot (omega arith)
Precedes-trans (by_slot h) (by_index s t k) = by_slot (omega arith)
Precedes-trans (by_hash s h) (by_slot k) = by_slot (omega arith)
Precedes-trans (by_hash s h) (by_hash t k) = by_hash (s ∙ t) (bytes_lt_trans _ _ _ h k)
Precedes-trans (by_hash s h) (by_index t e k) = by_hash (s ∙ t) (rw (← e) h)
Precedes-trans (by_index s e h) (by_slot k) = by_slot (omega arith)
Precedes-trans (by_index s e h) (by_hash t k) = by_hash (s ∙ t) (rw e k)
Precedes-trans (by_index s e h) (by_index t f k) = by_index (s ∙ t) (e ∙ f) (omega arith)

-- Every item precedes all that follow it.
abbrev pub IsSorted : List TxInputOutput → Type 0
IsSorted [] = Unit {0}
IsSorted (x ∷ xs) = All (λ y. Precedes x y) xs × IsSorted xs

Precedes-All :
    {x y : TxInputOutput} (xs : List TxInputOutput)
    → Precedes x y
    → All (λ z. Precedes y z) xs
    → All (λ z. Precedes x z) xs
Precedes-All [] h a = tt
Precedes-All (z ∷ xs) h (p, a) = (Precedes-trans h p, Precedes-All xs h a)

insert-All :
    {w : TxInputOutput} (x : TxInputOutput) (xs : List TxInputOutput)
    → Precedes w x
    → All (λ z. Precedes w z) xs
    → All (λ z. Precedes w z) (insert x xs)
unfolding insert
insert-All x [] h a = (h, tt)
insert-All x (y ∷ ys) h (p, a) = elim (Bool-cases (less y x)) [
  | inl e ↦ rw e (p, insert-All x ys h a)
  | inr e ↦ rw e (h, (p, a))
]

insert-IsSorted :
    (x : TxInputOutput) (xs : List TxInputOutput) → IsSorted xs → IsSorted (insert x xs)
unfolding insert
insert-IsSorted x [] s = (tt, tt)
insert-IsSorted x (y ∷ ys) (a, s) = elim (Bool-cases (less y x)) [
  | inl e ↦ rw e (insert-All x ys (less-true x y e) a, insert-IsSorted x ys s)
  | inr e ↦ let h = less→Precedes x y e in rw e ((h, Precedes-All ys h a), (a, s))
]

insert-perm : (x : TxInputOutput) (xs : List TxInputOutput) → Perm (insert x xs) (x ∷ xs)
unfolding insert
insert-perm x [] = Perm.refl _
insert-perm x (y ∷ ys) = elim (Bool-cases (less y x)) [
  | inl e ↦ rw e (Perm.trans (Perm.cons y (insert-perm x ys)) (Perm.swap x y ys))
  | inr e ↦ rw e (Perm.refl _)
]

sort-IsSorted : (xs : List TxInputOutput) → IsSorted (sort_tx_input_outputs xs)
unfolding sort_tx_input_outputs
sort-IsSorted [] = tt
sort-IsSorted (x ∷ xs) = insert-IsSorted x (sort_tx_input_outputs xs) (sort-IsSorted xs)

sort-perm : (xs : List TxInputOutput) → Perm (sort_tx_input_outputs xs) xs
unfolding sort_tx_input_outputs
sort-perm [] = Perm.refl _
sort-perm (x ∷ xs) =
    Perm.trans (insert-perm x (sort_tx_input_outputs xs)) (Perm.cons x (sort-perm xs))

-- The sorted list holds the same items, each as often, and every item precedes those behind it: by
-- a lower slot, by a lower hash in the same slot, or by an index that is not higher.
pub sort_tx_input_outputs_lem :
    (xs : List TxInputOutput)
    → IsSorted (sort_tx_input_outputs xs) × Perm (sort_tx_input_outputs xs) xs
sort_tx_input_outputs_lem xs = (sort-IsSorted xs, sort-perm xs)
