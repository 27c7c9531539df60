-- ===== src/Indexer/BlockIndexer/Pending.antt =====
-- The unconfirmed blocks of indexer/block_indexer.go as a list, oldest first: what the queue
-- operations of the block indexer make of it.
use cardano_infrastructure.Base.{
  ℕ, ◌≤◌, ◌<◌, ◌≡◌, refl, ◌∙◌, ap, Bool, false, List, [], ◌∷◌, ◌++◌, Result, ok, err, arith, length,
  take, drop, get_or, ◌==◌, map_ok, find_index,
}
use cardano_infrastructure.Common.CircularQueue
use cardano_infrastructure.Common.CircularQueue.{CircularQueue, Populated}
use cardano_infrastructure.Common.CircularQueue.Invariant.{
  IsValid, push-IsValid, pop-IsValid, set_count-IsValid,
}
use cardano_infrastructure.Common.CircularQueue.Refine.{
  push_refines, pop_refines, peek_refines, find_refines, set_count_refines, is_full_refines,
  size-push, size-pop, size-set_count, length-to_list,
}
use cardano_infrastructure.Indexer.Data.{BlockHeader, zero_header}
use cardano_infrastructure.Indexer.BlockIndexer.{push_header}

abbrev pub Queue : Type 0
Queue = CircularQueue BlockHeader

abbrev pub items : Queue → List BlockHeader
items q = CircularQueue.to_list zero_header q

-- The queue is valid, of the size `k`, and holds `xs`.
pub record Holds (k : ℕ) (q : Queue) (xs : List BlockHeader) : Type 0 where
  pub valid : IsValid q
  pub sized : q.size ≡ k
  pub holds : items q ≡ xs

pub length-Holds : {k : ℕ} {q : Queue} {xs : List BlockHeader} → Holds k q xs → length xs ≤ k
length-Holds {k} {q} {xs} h =
    omega (arith, ap length h.holds, length-to_list zero_header q, h.valid.bounded, h.sized)

pub is_full-Holds :
    {k : ℕ} {q : Queue} {xs : List BlockHeader}
    → Holds k q xs
    → CircularQueue.is_full q ≡ (length xs == k)
is_full-Holds {k} {q} {xs} h = is_full_refines zero_header q ∙ rw (h.holds, h.sized)

push-Holds :
    {k : ℕ} {q : Queue} {xs : List BlockHeader} (x : BlockHeader)
    → Holds k q xs
    → length xs < k
    → map_ok items (CircularQueue.push q x) ≡ ok (xs ++ (x ∷ []))
push-Holds {k} {q} {xs} x h lt =
    let room : (length xs == k) ≡ false = ground arith in
    push_refines zero_header x h.valid ∙ rw (h.holds, h.sized, room)

pushed :
    {k : ℕ} {q : Queue} {xs : List BlockHeader} (x : BlockHeader) (r : Result Populated Queue)
    → CircularQueue.push q x ≡ r
    → Holds k q xs
    → map_ok items r ≡ ok (xs ++ (x ∷ []))
    → Holds k (elim r [ ok q' ↦ q' | err e ↦ q ]) (xs ++ (x ∷ []))
pushed {k} {q} {xs} x (ok q') e h s = record {
  valid = push-IsValid x h.valid e;
  sized = size-push q x e ∙ h.sized;
  holds = cc;
}
pushed {k} {q} {xs} x (err p) e h s = cc

pub push_header-Holds :
    {k : ℕ} {q : Queue} {xs : List BlockHeader} (x : BlockHeader)
    → Holds k q xs
    → length xs < k
    → Holds k (push_header q x) (xs ++ (x ∷ []))
push_header-Holds {k} {q} {xs} x h lt = pushed x (CircularQueue.push q x) refl h (push-Holds x h lt)

pub pop-Holds :
    {k : ℕ} {q : Queue} (x : BlockHeader) (xs : List BlockHeader)
    → Holds k q (x ∷ xs)
    → Holds k (CircularQueue.pop zero_header q).1 xs
pop-Holds {k} {q} x xs h = record {
  valid = pop-IsValid zero_header h.valid;
  sized = size-pop zero_header q ∙ h.sized;
  holds = (pop_refines zero_header h.valid).1 ∙ ap (drop 1) h.holds;
}

pub peek-Holds :
    {k : ℕ} {q : Queue} (x : BlockHeader) (xs : List BlockHeader)
    → Holds k q (x ∷ xs)
    → CircularQueue.peek zero_header q ≡ x
peek-Holds {k} {q} x xs h =
    peek_refines zero_header h.valid ∙ ap (λ l. get_or l 0 zero_header) h.holds

pub find-Holds :
    {k : ℕ} {q : Queue} (xs : List BlockHeader) (p : BlockHeader → Bool)
    → Holds k q xs
    → CircularQueue.find zero_header q p ≡ find_index p xs
find-Holds {k} {q} xs p h = find_refines zero_header q p ∙ ap (find_index p) h.holds

pub set_count-Holds :
    {k : ℕ} {q : Queue} (xs : List BlockHeader) (n : ℕ)
    → Holds k q xs
    → n ≤ length xs
    → Holds k (CircularQueue.set_count q n) (take n xs)
set_count-Holds {k} {q} xs n h le = record {
  valid = set_count-IsValid n h.valid;
  sized = size-set_count q n ∙ h.sized;
  holds =
      set_count_refines zero_header n h.valid
        (omega (arith, ap length h.holds, length-to_list zero_header q))
      ∙ ap (take n) h.holds;
}
