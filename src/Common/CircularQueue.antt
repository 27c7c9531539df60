-- ===== src/Common/CircularQueue.antt =====
-- common/circular_queue.go: `CircularQueue[T]`. A method with a pointer receiver returns the new
-- queue. `def` is the zero value of `T`. A read out of range gives `def` and a write out of range
-- changes nothing, where Go would panic: `IsValid` and `slot-lt` rule both out. A Go `int` is a number here:
-- the negative arguments that `SetCount` and `ClearFrom` accept are left out.
pub mod Invariant
pub mod Refine
mod Tests
use cardano_infrastructure.Base.{
  ℕ, zero, suc, ◌+◌, ◌-◌, ◌%◌, min, Bool, true, false, Option, none, some, List, [], ◌∷◌, Result,
  ok, err, ◌==◌, if◌then◌else◌, get_or, set, replicate,
}

pub record CircularQueue {ℓ} (A : Type ℓ) : Type ℓ where
  pub items : List A
  pub count : ℕ
  pub size : ℕ
  pub pos : ℕ

-- The error of `Push`: the queue is already populated with `count` items.
pub data Populated : Type 0 where
  populated : ℕ → Populated

-- The slot of the `i`-th oldest item.
abbrev pub slot {ℓ} : {A : Type ℓ} → CircularQueue A → ℕ → ℕ
slot q i = (q.pos + i) % q.size

module _ {ℓ} {A : Type ℓ} where
  unfoldable pub push : CircularQueue A → A → Result Populated (CircularQueue A)
  push q item =
      if q.count == q.size
      then err (populated q.count)
      else ok (record q { items = set q.items (slot q q.count) item; count = q.count + 1 })

  unfoldable pub len : CircularQueue A → ℕ
  len q = q.count

  unfoldable pub is_full : CircularQueue A → Bool
  is_full q = q.count == q.size

  unfoldable pub set_count : CircularQueue A → ℕ → CircularQueue A
  set_count q cnt = record q { count = min cnt q.size }

module _ {ℓ} {A : Type ℓ} (def : A) where
  unfoldable pub new : ℕ → CircularQueue A
  new size = record { items = replicate size def; count = 0; size = size; pos = 0 }

  unfoldable pub pop : CircularQueue A → A × CircularQueue A
  pop q = if q.count == 0 then (def, q) else (
    get_or q.items q.pos def,
    record q { items = set q.items q.pos def; pos = (q.pos + 1) % q.size; count = q.count - 1 },
  )

  unfoldable pub peek : CircularQueue A → A
  peek q = if q.count == 0 then def else get_or q.items q.pos def

  -- The rounds `i`, `i + 1`, … of the loop, of which `n` are left.
  clear_loop : ℕ → ℕ → CircularQueue A → CircularQueue A
  clear_loop zero i q = q
  clear_loop (suc n) i q =
      clear_loop n (i + 1) (record q { items = set q.items (slot q i) def; count = q.count - 1 })

  unfoldable pub clear_from : CircularQueue A → ℕ → CircularQueue A
  unfolding clear_loop
  clear_from q from = clear_loop (q.count - from) from q

  find_loop : CircularQueue A → (A → Bool) → ℕ → ℕ → Option ℕ
  find_loop q handler zero i = none
  find_loop q handler (suc n) i =
      if handler (get_or q.items (slot q i) def) then some i else find_loop q handler n (i + 1)

  -- `none` is the -1 of the source.
  unfoldable pub find : CircularQueue A → (A → Bool) → Option ℕ
  unfolding find_loop
  find q handler = find_loop q handler q.count 0

  to_list_loop : CircularQueue A → ℕ → ℕ → List A
  to_list_loop q zero i = []
  to_list_loop q (suc n) i = get_or q.items (slot q i) def ∷ to_list_loop q n (i + 1)

  unfoldable pub to_list : CircularQueue A → List A
  unfolding to_list_loop
  to_list q = to_list_loop q q.count 0
