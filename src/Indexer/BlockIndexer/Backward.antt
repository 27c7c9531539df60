-- ===== src/Indexer/BlockIndexer/Backward.antt =====
-- `RollBackward` and `Reset` of indexer/block_indexer.go on each of their branches.
use mathlib.Core.Option
use cardano_infrastructure.Base.{
  ℕ, suc, ◌+◌, ◌≡◌, refl, ◌∙◌, ap, sym, subst, true, Option, some, none, List, [], ◌∷◌, ◌++◌, ok,
  arith, Bool-cases, inl, inr, take, drop, take-suc, take-append-drop, get_or, find_index,
  find_index_lem, bytes_eq, bytes_eq_sound, bytes_eq_refl, ◌==◌, ◌&&◌, eq_of_some, ◌>>=◌,
}
use cardano_infrastructure.Common.CircularQueue
use cardano_infrastructure.Indexer.Data.{
  BlockPoint, BlockHeader, Error, fatal, zero_header, zero_point,
}
use cardano_infrastructure.Indexer.Database.{BlockIndexerDb}
use cardano_infrastructure.Indexer.BlockIndexer.{
  BlockIndexer, point_of, is_at, roll_backward, backward_found, backward_to_latest, reset, reset_at,
}
use cardano_infrastructure.Indexer.BlockIndexer.Pending.{Holds, find-Holds, set_count-Holds}

-- The newest point, waiting or latest.
abbrev pub tip : Option BlockPoint → List BlockHeader → Option BlockPoint
tip latest [] = latest
tip latest (x ∷ xs) = tip (some (point_of x)) xs

pub tip-snoc :
    (latest : Option BlockPoint) (xs : List BlockHeader) (x : BlockHeader)
    → tip latest (xs ++ (x ∷ [])) ≡ some (point_of x)
tip-snoc latest [] x = refl
tip-snoc latest (y ∷ xs) x = tip-snoc (some (point_of y)) xs x

-- The test of `RollBackward` compares points.
point_eq :
    (p q : BlockPoint)
    → (p.block_slot == q.block_slot && bytes_eq p.block_hash q.block_hash) ≡ true
    → p ≡ q
point_eq p q h = λ i. record { block_slot = s i; block_hash = t i }
  where
    s : p.block_slot ≡ q.block_slot
    s = ground arith

    t : p.block_hash ≡ q.block_hash
    t = bytes_eq_sound _ _ (ground arith)

point_eq_refl :
    (p : BlockPoint) → (p.block_slot == p.block_slot && bytes_eq p.block_hash p.block_hash) ≡ true
point_eq_refl p = ground (arith, bytes_eq_refl p.block_hash)

module _ (db : BlockIndexerDb) where
  open db use {Store, get_latest_block_point}

  -- How `RollBackward` to `point` ends while `xs` wait.
  pub data RolledBack (k : ℕ) (bi : BlockIndexer db) (xs : List BlockHeader) (point : BlockPoint)
      : Option (Option Error × BlockIndexer db) → Type 0 where
    to_pending :
        (i : ℕ) (q : CircularQueue.CircularQueue BlockHeader)
        → find_index (is_at point) xs ≡ some i
        → Holds k q (take (suc i) xs)
        → RolledBack k bi xs point (some (none, record bi { unconfirmed_blocks = q }))
    to_latest :
        (q : CircularQueue.CircularQueue BlockHeader)
        → find_index (is_at point) xs ≡ none
        → bi.latest_block_point ≡ some point
        → Holds k q []
        → RolledBack k bi xs point (some (none, record bi { unconfirmed_blocks = q }))
    below_latest :
        (latest : BlockPoint)
        → find_index (is_at point) xs ≡ none
        → bi.latest_block_point ≡ some latest
        → (latest ≡ point → ⊥)
        → RolledBack k bi xs point (some (some (fatal point latest), bi))
    before_reset :
        find_index (is_at point) xs ≡ none
        → bi.latest_block_point ≡ none
        → RolledBack k bi xs point none

  backward_to_latest-RolledBack :
      (k : ℕ) (bi : BlockIndexer db) (xs : List BlockHeader) (point : BlockPoint)
      (latest : Option BlockPoint)
      → Holds k bi.unconfirmed_blocks xs
      → find_index (is_at point) xs ≡ none
      → bi.latest_block_point ≡ latest
      → RolledBack k bi xs point (backward_to_latest db bi point latest)
  unfolding backward_to_latest
  backward_to_latest-RolledBack k bi xs point none h f l = before_reset f l
  backward_to_latest-RolledBack k bi xs point (some p) h f l =
      let same = p.block_slot == point.block_slot && bytes_eq p.block_hash point.block_hash in
      elim (Bool-cases same) [
        | inl e ↦ rw e (
            to_latest _ f (l ∙ ap some (point_eq p point e)) (set_count-Holds xs 0 h (omega arith)))
        | inr e ↦ rw e (
            below_latest p f l (λ q. cc (
              e,
              subst
                  (λ t.
                    (t.block_slot == point.block_slot && bytes_eq t.block_hash point.block_hash)
                    ≡ true)
                  (sym q) (point_eq_refl point),
            )))
      ]

  backward_found-RolledBack :
      (k : ℕ) (bi : BlockIndexer db) (xs : List BlockHeader) (point : BlockPoint) (found : Option ℕ)
      → Holds k bi.unconfirmed_blocks xs
      → find_index (is_at point) xs ≡ found
      → RolledBack k bi xs point (backward_found db bi point found)
  unfolding backward_found
  backward_found-RolledBack k bi xs point (some i) h f =
      let (lt, at) = find_index_lem (is_at point) zero_header xs i f in
      to_pending i _ f (
        subst (λ n. Holds k (CircularQueue.set_count bi.unconfirmed_blocks (i + 1)) (take n xs))
          (let e : i + 1 ≡ suc i = omega arith in e) (set_count-Holds xs (i + 1) h (omega arith)))
  backward_found-RolledBack k bi xs point none h f =
      backward_to_latest-RolledBack k bi xs point bi.latest_block_point h f refl

  -- `RollBackward` to a point while `xs` wait, on every branch: to the first waiting block at the
  -- point, which it keeps with those before it; else to the latest confirmed point, which drops all
  -- that wait; else to the fatal error, which changes nothing; and before the first `Reset` to a
  -- panic.
  pub roll_backward-RolledBack :
      (k : ℕ) (bi : BlockIndexer db) (xs : List BlockHeader) (point : BlockPoint)
      → Holds k bi.unconfirmed_blocks xs
      → RolledBack k bi xs point (roll_backward db bi point)
  unfolding roll_backward
  roll_backward-RolledBack k bi xs point h =
      rw (find-Holds xs (is_at point) h)
        (backward_found-RolledBack k bi xs point (find_index (is_at point) xs) h refl)

  -- What a roll backward that succeeds leaves: a front of the waiting blocks, on top of the same
  -- latest point, and with the wanted point as the newest.
  pub record Truncated (k : ℕ) (bi bi' : BlockIndexer db) (xs : List BlockHeader)
      (point : BlockPoint) : Type 0 where
    pub kept : List BlockHeader
    pub dropped : List BlockHeader
    pub split : kept ++ dropped ≡ xs
    pub pending : Holds k bi'.unconfirmed_blocks kept
    pub latest : bi'.latest_block_point ≡ bi.latest_block_point
    pub store : bi'.store ≡ bi.store
    pub at_point : tip bi'.latest_block_point kept ≡ some point

  RolledBack-Truncated :
      {k : ℕ} {bi : BlockIndexer db} {xs : List BlockHeader} {point : BlockPoint}
      {r : Option (Option Error × BlockIndexer db)} (bi' : BlockIndexer db)
      → RolledBack k bi xs point r
      → r ≡ some (none, bi')
      → Truncated k bi bi' xs point
  RolledBack-Truncated {k} {bi} {xs} {point} bi' (to_pending i q f h) e =
      let (lt, at) = find_index_lem (is_at point) zero_header xs i f in
      let last = get_or xs i zero_header in
      let newest : tip bi.latest_block_point (take (suc i) xs) ≡ some (point_of last) =
        ap (tip bi.latest_block_point) (take-suc zero_header i xs lt)
        ∙ tip-snoc bi.latest_block_point (take i xs) last in
      subst (λ b. Truncated k bi b xs point) (ap (λ r. r.1) (eq_of_some e))
        (record {
          kept = take (suc i) xs;
          dropped = drop (suc i) xs;
          split = take-append-drop (suc i) xs;
          pending = h;
          latest = refl;
          store = refl;
          at_point = newest ∙ ap some (point_eq (point_of last) point at);
        })
  RolledBack-Truncated {k} {bi} {xs} {point} bi' (to_latest q f l h) e =
      subst (λ b. Truncated k bi b xs point) (ap (λ r. r.1) (eq_of_some e))
        (record {
          kept = [];
          dropped = xs;
          split = refl;
          pending = h;
          latest = refl;
          store = refl;
          at_point = l;
        })
  RolledBack-Truncated bi' (below_latest latest f l ne) e = cc
  RolledBack-Truncated bi' (before_reset f l) e = cc

  -- A `RollBackward` that returns no error keeps a front of the waiting blocks, leaves the latest
  -- confirmed point and the database alone, and makes the wanted point the newest one.
  pub roll_backward-Truncated :
      (k : ℕ) (bi bi' : BlockIndexer db) (xs : List BlockHeader) (point : BlockPoint)
      → Holds k bi.unconfirmed_blocks xs
      → roll_backward db bi point ≡ some (none, bi')
      → Truncated k bi bi' xs point
  roll_backward-Truncated k bi bi' xs point h e =
      RolledBack-Truncated bi' (roll_backward-RolledBack k bi xs point h) e

  -- If the latest point can be read from the database, `Reset` drops all waiting blocks and goes to
  -- that point, or without one to the configured one, or without both to the zero point. It leaves
  -- the database alone.
  pub reset_lem :
      (k : ℕ) (bi : BlockIndexer db) (xs : List BlockHeader) (stored : Option BlockPoint)
      → Holds k bi.unconfirmed_blocks xs
      → get_latest_block_point bi.store ≡ ok stored
      → let point =
          Option.get_or stored (Option.get_or bi.config.starting_block_point zero_point) in
        (bi' : BlockIndexer db) × (reset db bi ≡ ok (point, bi'))
        × Holds k bi'.unconfirmed_blocks []
        × (bi'.latest_block_point ≡ some point)
        × (bi'.store ≡ bi.store)
  unfolding reset reset_at
  reset_lem k bi xs stored h e = (
    (reset_at db bi stored).1,
    rw (e, ◌>>=◌) refl,
    set_count-Holds xs 0 h (omega arith),
    refl,
    refl,
  )
