-- ===== src/Common/CircularQueue/Invariant.antt =====
-- The representation invariant of the circular queue of common/circular_queue.go, and where its
-- reads and writes fall.
use cardano_infrastructure.Base.{
  ℕ, zero, suc, ◌+◌, ◌-◌, ◌*◌, ◌%◌, ◌≤◌, ◌<◌, ◌≡◌, ◌≢◌, ◌⊎◌, inl, inr, ok, arith, length,
  length-set, length-replicate,
}
use native.Mathlib.Nat.{mod-eq_of_lt, mod-eq-sub-mod}
use native.Mathlib.Decide.{dec_lt}
use cardano_infrastructure.Common.CircularQueue.{
  CircularQueue, slot, new, push, pop, set_count, clear_from, clear_loop,
}

pub record IsValid {ℓ} {A : Type ℓ} (q : CircularQueue A) : Type 0 where
  pub storage : length q.items ≡ q.size
  pub bounded : q.count ≤ q.size
  pub pos_in : 0 < q.size → q.pos < q.size

-- A remainder below twice the divisor.
mod_cases : (a m : ℕ) → a < 2 * m → ((a < m) × (a % m ≡ a)) ⊎ ((m ≤ a) × (a % m ≡ a - m))
mod_cases a m h = elim (dec_lt a m) [
  | yes p ↦ inl (p, mod-eq_of_lt p)
  | no p ↦ inr (
    omega arith,
    omega (
      arith,
      mod-eq-sub-mod {n = a} {m = m} (omega arith),
      mod-eq_of_lt {n = a - m} {m = m} (omega arith),
    ),
  )
]

module _ {ℓ} {A : Type ℓ} where
  pub slot-lt : (q : CircularQueue A) (i : ℕ) → IsValid q → i < q.size → slot q i < q.size
  slot-lt q i v h = omega (arith, mod_cases (q.pos + i) q.size (omega arith))

  -- Two indices below the size have different slots.
  pub slot-ne :
      (q : CircularQueue A) (i j : ℕ) → IsValid q → i < j → j < q.size → slot q i ≢ slot q j
  slot-ne q i j v hi hj = omega (
    arith,
    mod_cases (q.pos + i) q.size (omega arith),
    mod_cases (q.pos + j) q.size (omega arith),
  )

  pub new-IsValid : (def : A) (size : ℕ) → IsValid (new def size)
  unfolding new
  new-IsValid def size = record {
    storage = length-replicate size def;
    bounded = omega arith;
    pos_in = λ h. h;
  }

  pub push-IsValid : {q q' : CircularQueue A} (x : A) → IsValid q → push q x ≡ ok q' → IsValid q'
  unfolding push
  push-IsValid {q} {q'} x v e = ground (arith, length-set q.items (slot q q.count) x)

  pub pop-IsValid : {q : CircularQueue A} (def : A) → IsValid q → IsValid (pop def q).1
  unfolding pop
  pop-IsValid {q} def v = ground (arith, length-set q.items q.pos def, mod_cases (q.pos + 1) q.size)

  pub set_count-IsValid : {q : CircularQueue A} (n : ℕ) → IsValid q → IsValid (set_count q n)
  unfolding set_count
  set_count-IsValid n v = record { storage = v.storage; bounded = omega arith; pos_in = v.pos_in }

  clear_loop-IsValid :
      (def : A) (n i : ℕ) {q : CircularQueue A} → IsValid q → IsValid (clear_loop def n i q)
  unfolding clear_loop
  clear_loop-IsValid def zero i v = v
  clear_loop-IsValid def (suc n) i {q} v = clear_loop-IsValid def n (i + 1) (record {
    storage = omega (arith, length-set q.items (slot q i) def);
    bounded = omega arith;
    pos_in = v.pos_in;
  })

  pub clear_from-IsValid :
      (def : A) {q : CircularQueue A} (from : ℕ) → IsValid q → IsValid (clear_from def q from)
  unfolding clear_from
  clear_from-IsValid def {q} from v = clear_loop-IsValid def (q.count - from) from v
