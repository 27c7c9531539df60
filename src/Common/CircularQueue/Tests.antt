-- ===== src/Common/CircularQueue/Tests.antt =====
-- Runs of the circular queue of common/circular_queue.go, and its theorems at concrete queues.
use cardano_infrastructure.Base.{
  ℕ, ◌≡◌, refl, [], ◌∷◌, ◌++◌, some, ok, err, arith, length, get_or, drop, take, find_index, map_ok,
  ◌==◌, if◌then◌else◌,
}
use cardano_infrastructure.Common.CircularQueue.{
  CircularQueue, populated, push, pop, set_count, clear_from, find, to_list,
}
use cardano_infrastructure.Common.CircularQueue.Invariant.{IsValid}
use cardano_infrastructure.Common.CircularQueue.Refine.{
  push_refines, pop_refines, find_refines, set_count_refines, clear_from_refines,
}

-- A queue of size 3 whose two items, 7 and 8, go round the end of the slice.
abbrev wrapped : CircularQueue ℕ
wrapped = record { items = 8 ∷ 0 ∷ 7 ∷ []; count = 2; size = 3; pos = 2 }

wrapped-IsValid : IsValid wrapped
wrapped-IsValid = omega arith

wrapped_items : to_list 0 wrapped ≡ 7 ∷ 8 ∷ []
unfolding to_list
wrapped_items = refl

wrapped-find : find 0 wrapped (λ x. x == 8) ≡ some 1
unfolding find
wrapped-find = refl

-- `SetCount` past the count brings back a slot that holds no item.
grown : to_list 0 (set_count wrapped 3) ≡ 7 ∷ 8 ∷ 0 ∷ []
unfolding to_list set_count
grown = refl

push_refines_example : map_ok (to_list 0) (push wrapped 9) ≡ (
    if length (to_list 0 wrapped) == 3
    then err (populated 3)
    else ok (to_list 0 wrapped ++ (9 ∷ [])))
push_refines_example = push_refines 0 9 wrapped-IsValid

pop_refines_example :
    ((pop 0 wrapped).0 ≡ get_or (to_list 0 wrapped) 0 0)
    × (to_list 0 (pop 0 wrapped).1 ≡ drop 1 (to_list 0 wrapped))
pop_refines_example = pop_refines 0 wrapped-IsValid

clear_from_refines_example : to_list 0 (clear_from 0 wrapped 1) ≡ take 1 (to_list 0 wrapped)
clear_from_refines_example = clear_from_refines 0 1 wrapped-IsValid

set_count_refines_example : to_list 0 (set_count wrapped 1) ≡ take 1 (to_list 0 wrapped)
set_count_refines_example = set_count_refines 0 1 wrapped-IsValid (omega arith)

find_refines_example : find 0 wrapped (λ x. x == 8) ≡ find_index (λ x. x == 8) (to_list 0 wrapped)
find_refines_example = find_refines 0 wrapped (λ x. x == 8)
