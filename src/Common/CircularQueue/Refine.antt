-- ===== src/Common/CircularQueue/Refine.antt =====
-- A valid circular queue of common/circular_queue.go behaves as the list of its items, oldest
-- first.
use cardano_infrastructure.Base.{
  ℕ, zero, suc, ◌+◌, ◌-◌, ◌%◌, ◌≤◌, ◌<◌, ◌≡◌, ◌≢◌, refl, Bool, false, none, some, [], ◌∷◌, ◌++◌, ok,
  err, arith, ap, ap₂, ◌∙◌, length, get_or, set, take, find_index, take_all, drop, map_ok, sym,
  Bool-cases, inl, inr, ==_iff, min, eq-nil_of_length, length-set, get_or-set_self, get_or-set_ne,
  if◌then◌else◌, ◌==◌,
}
use mathlib.Core.Option
use native.Mathlib.Decide.{dec_lt}
use native.Mathlib.Nat.{mod-add-mod, add-zero, mod-eq_of_lt}
use cardano_infrastructure.Common.CircularQueue.{
  CircularQueue, slot, populated, new, push, pop, peek, set_count, clear_from, clear_loop, find,
  find_loop, to_list, to_list_loop, is_full,
}
use cardano_infrastructure.Common.CircularQueue.Invariant.{IsValid, slot-lt, slot-ne}

module _ {ℓ} {A : Type ℓ} (def : A) where
  length-to_list_loop : (q : CircularQueue A) (n i : ℕ) → length (to_list_loop def q n i) ≡ n
  unfolding to_list_loop
  length-to_list_loop q zero i = refl
  length-to_list_loop q (suc n) i = ap suc (length-to_list_loop q n (i + 1))

  pub length-to_list : (q : CircularQueue A) → length (to_list def q) ≡ q.count
  unfolding to_list
  length-to_list q = length-to_list_loop q q.count 0

  -- The rounds agree where the slots that they read agree. `m` is `k + i`.
  to_list_loop_ext :
      (q q' : CircularQueue A) (k n i m : ℕ)
      → m ≡ k + i
      → ((j : ℕ)
          → i ≤ j
          → j < i + n
          → get_or q.items (slot q (k + j)) def ≡ get_or q'.items (slot q' j) def)
      → to_list_loop def q n m ≡ to_list_loop def q' n i
  unfolding to_list_loop
  to_list_loop_ext q q' k zero i m e h = refl
  to_list_loop_ext q q' k (suc n) i m e h = ap₂ ◌∷◌ (rw e (h i (omega arith) (omega arith))) (
      to_list_loop_ext q q' k n (i + 1) (m + 1) (omega arith)
        (λ j lo hi. h j (omega arith) (omega arith)))

  to_list_loop_same :
      (q q' : CircularQueue A) (n : ℕ)
      → ((j : ℕ) → j < n → get_or q.items (slot q j) def ≡ get_or q'.items (slot q' j) def)
      → to_list_loop def q n 0 ≡ to_list_loop def q' n 0
  to_list_loop_same q q' n h =
      to_list_loop_ext q q' 0 n 0 0 (omega arith)
        (λ j lo hi. let e : 0 + j ≡ j = omega arith in rw e (h j (omega arith)))

  to_list_loop_snoc :
      (q : CircularQueue A) (n i j : ℕ)
      → j ≡ i + n
      → to_list_loop def q (suc n) i
        ≡ to_list_loop def q n i ++ (get_or q.items (slot q j) def ∷ [])
  unfolding to_list_loop
  to_list_loop_snoc q zero i j e =
      ap (λ t. get_or q.items (slot q t) def ∷ []) (let e' : i ≡ j = omega arith in e')
  to_list_loop_snoc q (suc n) i j e =
      ap (◌∷◌ (get_or q.items (slot q i) def)) (to_list_loop_snoc q n (i + 1) j (omega arith))

  take-to_list_loop :
      (q : CircularQueue A) (n m i : ℕ)
      → n ≤ m
      → take n (to_list_loop def q m i) ≡ to_list_loop def q n i
  unfolding to_list_loop
  take-to_list_loop q zero m i h = refl
  take-to_list_loop q (suc n) zero i h = absurd (omega arith)
  take-to_list_loop q (suc n) (suc m) i h =
      ap (◌∷◌ (get_or q.items (slot q i) def)) (take-to_list_loop q n m (i + 1) (omega arith))

  find_loop-to_list_loop :
      (q : CircularQueue A) (p : A → Bool) (n i : ℕ)
      → find_loop def q p n i ≡ Option.map (λ j. i + j) (find_index p (to_list_loop def q n i))
  unfolding find_loop to_list_loop
  find_loop-to_list_loop q p zero i = refl
  find_loop-to_list_loop q p (suc n) i = ground (arith, find_loop-to_list_loop q p n (i + 1))

  find_loop-to_list_loop_zero :
      (q : CircularQueue A) (p : A → Bool) (n : ℕ)
      → find_loop def q p n 0 ≡ find_index p (to_list_loop def q n 0)
  find_loop-to_list_loop_zero q p n =
      find_loop-to_list_loop q p n 0
      ∙ elim (find_index p (to_list_loop def q n 0)) as (λ o. Option.map (λ j. 0 + j) o ≡ o) [
        | none ↦ refl
        | some j ↦ ap some (omega arith)
      ]

  push_stored :
      {q : CircularQueue A} (x : A)
      → IsValid q
      → q.count < q.size
      → to_list def (record q { items = set q.items (slot q q.count) x; count = q.count + 1 })
        ≡ to_list def q ++ (x ∷ [])
  unfolding to_list
  push_stored {q} x v h =
      let q' : CircularQueue A = record q {
        items = set q.items (slot q q.count) x;
        count = suc q.count;
      } in
      let c : q.count + 1 ≡ suc q.count = omega arith in
      rw c (
        to_list_loop_snoc q' q.count 0 q.count (omega arith)
        ∙ ap₂ (λ a b. a ++ (b ∷ []))
            (to_list_loop_same q' q q.count (λ j hj.
              get_or-set_ne q.items (slot q q.count) (slot q j) x def
                (λ e. slot-ne q j q.count v hj h (sym e))))
            (get_or-set_self q.items (slot q q.count) x def
              (omega (arith, v.storage, slot-lt q q.count v h))))

  -- On a valid queue, `Push` appends to a list that is bounded by the size: an error if it is full.
  pub push_refines :
      {q : CircularQueue A} (x : A)
      → IsValid q
      → map_ok (to_list def) (push q x) ≡ (
          if length (to_list def q) == q.size
          then err (populated q.size)
          else ok (to_list def q ++ (x ∷ [])))
  unfolding push
  push_refines {q} x v = elim (Bool-cases (q.count == q.size)) [
    | inl e ↦ rw (length-to_list q, e) (ap (λ n. err (populated n)) ((==_iff _ _).0 e))
    | inr e ↦ rw (length-to_list q, e) (ap ok (push_stored x v (not_full e)))
  ]
    where
      not_full : (q.count == q.size) ≡ false → q.count < q.size
      not_full e = grind (arith, v.bounded)

  to_list_of_zero : (q : CircularQueue A) → q.count ≡ 0 → to_list def q ≡ []
  to_list_of_zero q e = eq-nil_of_length (to_list def q) (length-to_list q ∙ e)

  to_list_of_suc :
      (q : CircularQueue A) (n : ℕ)
      → q.count ≡ suc n
      → to_list def q ≡ get_or q.items (slot q 0) def ∷ to_list_loop def q n 1
  unfolding to_list to_list_loop
  to_list_of_suc q n e = ap (λ c. to_list_loop def q c 0) e

  slot-zero : {q : CircularQueue A} → IsValid q → 0 < q.size → slot q 0 ≡ q.pos
  slot-zero {q} v h = rw add-zero (mod-eq_of_lt (v.pos_in h))

  -- The queue that `Pop` leaves behind.
  popped : CircularQueue A → CircularQueue A
  popped q = record q {
    items = set q.items q.pos def;
    pos = (q.pos + 1) % q.size;
    count = q.count - 1;
  }

  to_list-popped :
      {q : CircularQueue A} (n : ℕ)
      → IsValid q
      → q.count ≡ suc n
      → to_list def (popped q) ≡ to_list_loop def q n 1
  unfolding to_list popped
  to_list-popped {q} n v e =
      let c : q.count - 1 ≡ n = omega arith in
      ap (λ k. to_list_loop def (popped q) k 0) c
      ∙ sym (to_list_loop_ext q (popped q) 1 n 0 1 (omega arith) (λ j lo hi. same j hi))
    where
      next : (j : ℕ) → slot q (1 + j) ≡ slot (popped q) j
      next j = sym (mod-add-mod (q.pos + 1) q.size j ∙ ap (λ k. k % q.size) (omega arith))

      apart : (j : ℕ) → j < 0 + n → q.pos ≢ slot q (1 + j)
      apart j hj c =
          slot-ne q 0 (1 + j) v (omega arith) (omega (arith, v.bounded))
            (slot-zero v (omega (arith, v.bounded)) ∙ c)

      same :
          (j : ℕ)
          → j < 0 + n
          → get_or q.items (slot q (1 + j)) def
            ≡ get_or (set q.items q.pos def) (slot (popped q) j) def
      same j hj =
          sym (get_or-set_ne q.items q.pos (slot q (1 + j)) def def (apart j hj))
          ∙ ap (λ k. get_or (set q.items q.pos def) k def) (next j)

  -- On a valid queue, `Pop` takes the oldest item; on an empty one it gives the zero value and the
  -- queue stays empty.
  pub pop_refines :
      {q : CircularQueue A}
      → IsValid q
      → ((pop def q).0 ≡ get_or (to_list def q) 0 def)
        × (to_list def (pop def q).1 ≡ drop 1 (to_list def q))
  unfolding pop popped
  pop_refines {q} v = elim (Bool-cases (q.count == 0)) [
    | inl e ↦ let nil = to_list_of_zero q ((==_iff _ _).0 e) in rw (e, nil) (refl, refl)
    | inr e ↦
        let n = q.count - 1 in
        let c : q.count ≡ suc n = grind arith in
        rw (e, to_list_of_suc q n c)
          (
            ap (λ i. get_or q.items i def) (sym (slot-zero v (omega (arith, v.bounded)))),
            to_list-popped n v c,
          )
  ]

  -- `Peek` reads the oldest item, or gives the zero value of an empty queue.
  pub peek_refines : {q : CircularQueue A} → IsValid q → peek def q ≡ get_or (to_list def q) 0 def
  unfolding peek
  peek_refines {q} v = elim (Bool-cases (q.count == 0)) [
    | inl e ↦ rw (e, to_list_of_zero q ((==_iff _ _).0 e))
    | inr e ↦
        let n = q.count - 1 in
        let c : q.count ≡ suc n = grind arith in
        rw (e, to_list_of_suc q n c)
          (ap (λ i. get_or q.items i def) (sym (slot-zero v (omega (arith, v.bounded)))))
  ]

  -- `Find` gives the position of the first item that the handler accepts.
  pub find_refines :
      (q : CircularQueue A) (p : A → Bool) → find def q p ≡ find_index p (to_list def q)
  unfolding find to_list
  find_refines q p = find_loop-to_list_loop_zero q p q.count

  -- On a valid queue, `SetCount` with no more than the count keeps the oldest items.
  pub set_count_refines :
      {q : CircularQueue A} (n : ℕ)
      → IsValid q
      → n ≤ q.count
      → to_list def (set_count q n) ≡ take n (to_list def q)
  unfolding set_count to_list
  set_count_refines {q} n v h =
      let q' : CircularQueue A = record q { count = min n q.size } in
      let c : min n q.size ≡ n = omega (arith, v.bounded) in
      to_list_loop_same q' q (min n q.size) (λ j hj. refl)
      ∙ ap (λ k. to_list_loop def q k 0) c
      ∙ sym (take-to_list_loop q n q.count 0 h)

  -- The rounds of `ClearFrom` lower the count and leave the slots below `i` alone.
  clear_loop_lem :
      (n i : ℕ) {q : CircularQueue A}
      → IsValid q
      → i + n ≤ q.size
      → ((clear_loop def n i q).count ≡ q.count - n)
        × ((clear_loop def n i q).pos ≡ q.pos)
        × ((clear_loop def n i q).size ≡ q.size)
        × ((j : ℕ)
            → j < i
            → get_or (clear_loop def n i q).items (slot q j) def ≡ get_or q.items (slot q j) def)
  unfolding clear_loop
  clear_loop_lem zero i v h = (omega arith, refl, refl, λ j hj. refl)
  clear_loop_lem (suc n) i {q} v h =
      let q' : CircularQueue A = record q {
        items = set q.items (slot q i) def;
        count = q.count - 1;
      } in
      let v' : IsValid q' = record {
        storage = omega (arith, length-set q.items (slot q i) def, v.storage);
        bounded = omega (arith, v.bounded);
        pos_in = v.pos_in;
      } in
      let (c, p, z, kept) = clear_loop_lem n (i + 1) v' (omega arith) in
      (
        omega arith,
        p,
        z,
        λ j hj.
            kept j (omega arith)
            ∙ get_or-set_ne q.items (slot q i) (slot q j) def def
                (λ e. slot-ne q j i v hj (omega arith) (sym e)),
      )

  -- On a valid queue, `ClearFrom` keeps the items before `from`; at `from` past the end it keeps
  -- all.
  pub clear_from_refines :
      {q : CircularQueue A} (from : ℕ)
      → IsValid q
      → to_list def (clear_from def q from) ≡ take from (to_list def q)
  unfolding clear_from to_list
  clear_from_refines {q} from v = elim (dec_lt from q.count) [
    | yes h ↦
        let (c, p, z, kept) = clear_loop_lem (q.count - from) from v (omega (arith, v.bounded)) in
        let q' = clear_loop def (q.count - from) from q in
        let c' : q'.count ≡ from = omega arith in
        ap (λ k. to_list_loop def q' k 0) c'
        ∙ to_list_loop_same q' q from
            (λ j hj. ap₂ (λ a b. get_or q'.items ((a + j) % b) def) p z ∙ kept j hj)
        ∙ sym (take-to_list_loop q from q.count 0 (omega arith))
    | no h ↦
        let z : q.count - from ≡ 0 = omega arith in
        ap (λ k. to_list_loop def (clear_loop def k from q) (clear_loop def k from q).count 0) z
        ∙ sym (take_all from _ (omega (arith, length-to_list_loop q q.count 0)))
  ]

  -- `IsFull` and `Len` are about the number of items.
  pub is_full_refines : (q : CircularQueue A) → is_full q ≡ (length (to_list def q) == q.size)
  unfolding is_full
  is_full_refines q = rw length-to_list

module _ {ℓ} {A : Type ℓ} where
  pub size-push :
      (q : CircularQueue A) {q' : CircularQueue A} (x : A) → push q x ≡ ok q' → q'.size ≡ q.size
  unfolding push
  size-push q {q'} x e = ground arith

  pub size-pop : (def : A) (q : CircularQueue A) → (pop def q).1.size ≡ q.size
  unfolding pop
  size-pop def q = ground arith

  pub size-set_count : (q : CircularQueue A) (n : ℕ) → (set_count q n).size ≡ q.size
  unfolding set_count
  size-set_count q n = refl

  pub to_list-new : (def : A) (size : ℕ) → to_list def (new def size) ≡ []
  unfolding to_list new to_list_loop
  to_list-new def size = refl
