-- ===== src/Indexer/BlockIndexer/Finality.antt =====
-- Sequences of `RollForward` and `RollBackward` calls on the indexer of indexer/block_indexer.go:
-- what reaches the handler of confirmed blocks is one chain.
use cardano_infrastructure.Base.{
  ℕ, suc, ◌≡◌, ◌≤◌, ◌<◌, refl, ◌∙◌, ap, sym, subst, Option, some, none, List, [], ◌∷◌, ◌++◌, map,
  Result, arith, length, inl, inr, ◌⊎◌, append_assoc, eq_of_some,
}
use mathlib.Core.List.{map-append}
use native.Mathlib.Decide.{dec_lt}
use cardano_infrastructure.Indexer.Data.{
  BlockPoint, BlockHeader, CardanoBlock, Tx, Error, to_cardano_block,
}
use cardano_infrastructure.Indexer.Database.{BlockIndexerDb}
use cardano_infrastructure.Indexer.BlockIndexer.{
  BlockIndexer, Handler, Forwarded, point_of, roll_forward, roll_backward,
}
use cardano_infrastructure.Indexer.BlockIndexer.Pending.{
  Holds, items, push_header-Holds, length-Holds,
}
use cardano_infrastructure.Indexer.BlockIndexer.Steps.{
  Advanced, roll_forward_waits, roll_forward-Advanced,
}
use cardano_infrastructure.Indexer.BlockIndexer.Forward.{
  Unchanged, roll_forward_failed, roll_forward-Confirms,
}
use cardano_infrastructure.Indexer.BlockIndexer.Backward.{tip, Truncated, roll_backward-Truncated}

abbrev pub block_point : CardanoBlock → BlockPoint
block_point b = record { block_slot = b.slot; block_hash = b.hash }

-- `parent` is the point of the block before: the node sends blocks that say on what they build.
module _ (parent : BlockPoint → BlockPoint) where
  -- Each point builds on the one before it, the first on `start`.
  abbrev pub Linked : BlockPoint → List BlockPoint → Type 0
  Linked start [] = Unit {0}
  Linked start (p ∷ ps) = (parent p ≡ start) × Linked p ps

abbrev pub last_point : BlockPoint → List BlockPoint → BlockPoint
last_point start [] = start
last_point start (p ∷ ps) = last_point p ps

module _ (parent : BlockPoint → BlockPoint) where
  Linked-snoc :
      (start : BlockPoint) (ps : List BlockPoint) (p : BlockPoint)
      → Linked parent start ps
      → parent p ≡ last_point start ps
      → Linked parent start (ps ++ (p ∷ []))
  Linked-snoc start [] p l e = (e, tt)
  Linked-snoc start (q ∷ ps) p (h, l) e = (h, Linked-snoc q ps p l e)

  Linked-front :
      (start : BlockPoint) (ps qs : List BlockPoint)
      → Linked parent start (ps ++ qs)
      → Linked parent start ps
  Linked-front start [] qs l = tt
  Linked-front start (p ∷ ps) qs (h, l) = (h, Linked-front p ps qs l)

last_point-append :
    (start : BlockPoint) (ps : List BlockPoint) (qs : List BlockPoint)
    → last_point start (ps ++ qs) ≡ last_point (last_point start ps) qs
last_point-append start [] qs = refl
last_point-append start (p ∷ ps) qs = last_point-append p ps qs

tip-last_point :
    (start : BlockPoint) (xs : List BlockHeader)
    → tip (some start) xs ≡ some (last_point start (map point_of xs))
tip-last_point start [] = refl
tip-last_point start (x ∷ xs) = tip-last_point (point_of x) xs

module _ (db : BlockIndexerDb) (parent : BlockPoint → BlockPoint) where
  -- Calls made one after the other from an indexer just reset to `start`, with the points of the
  -- blocks given to the handler. A block that is sent builds on the newest point. Handlers and
  -- retrievers are arbitrary, and may fail.
  pub data Run (k : ℕ) (start : BlockPoint) : BlockIndexer db → List BlockPoint → Type 0 where
    begin :
        (bi : BlockIndexer db)
        → Holds k bi.unconfirmed_blocks []
        → bi.latest_block_point ≡ some start
        → Run k start bi []
    waited :
        {bi : BlockIndexer db} {points : List BlockPoint} (handler : Handler db)
        (header : BlockHeader) (retriever : BlockHeader → Result Error (List Tx))
        (bi' : BlockIndexer db)
        → Run k start bi points
        → tip bi.latest_block_point (items bi.unconfirmed_blocks) ≡ some (parent (point_of header))
        → roll_forward db bi handler header retriever ≡ (none, none, bi')
        → Run k start bi' points
    confirmed :
        {bi : BlockIndexer db} {points : List BlockPoint} (handler : Handler db)
        (header : BlockHeader) (retriever : BlockHeader → Result Error (List Tx))
        (error : Option Error) (block : CardanoBlock) (txs : List Tx) (bi' : BlockIndexer db)
        → Run k start bi points
        → tip bi.latest_block_point (items bi.unconfirmed_blocks) ≡ some (parent (point_of header))
        → roll_forward db bi handler header retriever ≡ (error, some (block, txs), bi')
        → Run k start bi' (points ++ (block_point block ∷ []))
    failed :
        {bi : BlockIndexer db} {points : List BlockPoint} (handler : Handler db)
        (header : BlockHeader) (retriever : BlockHeader → Result Error (List Tx)) (error : Error)
        (bi' : BlockIndexer db)
        → Run k start bi points
        → roll_forward db bi handler header retriever ≡ (some error, none, bi')
        → Run k start bi' points
    rolled_back :
        {bi : BlockIndexer db} {points : List BlockPoint} (point : BlockPoint)
        (bi' : BlockIndexer db)
        → Run k start bi points
        → roll_backward db bi point ≡ some (none, bi')
        → Run k start bi' points

  -- The confirmed points and then the waiting ones are one chain, and the latest point is the last
  -- confirmed one.
  pub record IsChain (k : ℕ) (start : BlockPoint) (bi : BlockIndexer db) (points : List BlockPoint)
      : Type 0 where
    pub waiting : List BlockHeader
    pub pending : Holds k bi.unconfirmed_blocks waiting
    pub linked : Linked parent start (points ++ map point_of waiting)
    pub latest : bi.latest_block_point ≡ some (last_point start points)

  -- A block is put behind fewer than `k` waiting blocks, or there is an oldest one of `k`.
  abbrev Fullness : ℕ → List BlockHeader → Type 0
  Fullness k xs =
      (length xs < k)
      ⊎ ((first : BlockHeader) × (rest : List BlockHeader) × (xs ≡ first ∷ rest)
          × (length (first ∷ rest) ≡ k))

  fullness : (k : ℕ) (xs : List BlockHeader) → length xs ≤ k → 0 < k → Fullness k xs
  fullness k [] le pos = inl pos
  fullness k (x ∷ xs) le pos = elim (dec_lt (suc (length xs)) k) [
    | yes lt ↦ inl lt
    | no ge ↦ inr (x, xs, refl, omega arith)
  ]

  Advanced-not_silent :
      {bi bi' : BlockIndexer db} {handler : Handler db} {header first : BlockHeader}
      {retrieved : Result Error (List Tx)} {r : Forwarded db}
      → Advanced db bi handler header first retrieved r
      → r ≡ (none, none, bi')
      → ⊥
  Advanced-not_silent (Advanced.failed e store same) p = cc
  Advanced-not_silent (Advanced.confirmed txs all_txs store e q x) p = cc

  -- The points of a chain with one more block waiting.
  extended :
      {k : ℕ} {start : BlockPoint} {bi : BlockIndexer db} {points : List BlockPoint}
      (c : IsChain k start bi points) (header : BlockHeader)
      → tip bi.latest_block_point (items bi.unconfirmed_blocks) ≡ some (parent (point_of header))
      → Linked parent start (points ++ map point_of (c.waiting ++ (header ∷ [])))
  extended {k} {start} {bi} {points} c header t =
      let front = points ++ map point_of c.waiting in
      let newest : parent (point_of header) ≡ last_point start front = eq_of_some (
        sym t
        ∙ ap (tip bi.latest_block_point) c.pending.holds
        ∙ ap (λ l. tip l c.waiting) c.latest
        ∙ tip-last_point (last_point start points) c.waiting
        ∙ ap some (sym (last_point-append start points (map point_of c.waiting)))) in
      let regroup : front ++ (point_of header ∷ [])
          ≡ points ++ map point_of (c.waiting ++ (header ∷ [])) =
        append_assoc points (map point_of c.waiting) (point_of header ∷ [])
        ∙ ap (λ l. points ++ l) (sym (map-append point_of c.waiting (header ∷ []))) in
      subst (Linked parent start) regroup
        (Linked-snoc parent start front (point_of header) c.linked newest)

  -- A call that neither fails nor confirms has put the block behind the waiting ones.
  waited-IsChain :
      {k : ℕ} {start : BlockPoint} {bi bi' : BlockIndexer db} {points : List BlockPoint}
      (handler : Handler db) (header : BlockHeader)
      (retriever : BlockHeader → Result Error (List Tx)) (c : IsChain k start bi points)
      → Fullness k c.waiting
      → tip bi.latest_block_point (items bi.unconfirmed_blocks) ≡ some (parent (point_of header))
      → roll_forward db bi handler header retriever ≡ (none, none, bi')
      → IsChain k start bi' points
  waited-IsChain {k} {start} {bi} {bi'} {points} handler header retriever c (inl room) t e =
      let same =
        ap (λ r. r.2)
          (sym (roll_forward_waits db bi handler header retriever c.pending room) ∙ e) in
      subst (λ b. IsChain k start b points) same
        (record {
          waiting = c.waiting ++ (header ∷ []);
          pending = push_header-Holds header c.pending room;
          linked = extended c header t;
          latest = c.latest;
        })
  waited-IsChain {k} {bi = bi} handler header retriever c (inr (first, rest, w, full)) t e =
      let h = subst (Holds k bi.unconfirmed_blocks) w c.pending in
      absurd (
        Advanced-not_silent (roll_forward-Advanced db bi handler header retriever first rest h full)
          e)

  -- A call that confirms moves the oldest waiting block to the confirmed ones.
  confirmed-IsChain :
      {k : ℕ} {start : BlockPoint} {bi bi' : BlockIndexer db} {points : List BlockPoint}
      (handler : Handler db) (header : BlockHeader)
      (retriever : BlockHeader → Result Error (List Tx)) (error : Option Error)
      (block : CardanoBlock) (txs : List Tx) (c : IsChain k start bi points)
      → Fullness k c.waiting
      → tip bi.latest_block_point (items bi.unconfirmed_blocks) ≡ some (parent (point_of header))
      → roll_forward db bi handler header retriever ≡ (error, some (block, txs), bi')
      → IsChain k start bi' (points ++ (block_point block ∷ []))
  unfolding to_cardano_block
  confirmed-IsChain {bi = bi} handler header retriever error block txs c (inl room) t e =
      cc (roll_forward_waits db bi handler header retriever c.pending room)
  confirmed-IsChain {k} {start} {bi} {bi'} {points} handler header retriever error block txs c
        (inr (first, rest, w, full)) t e =
      let h = subst (Holds k bi.unconfirmed_blocks) w c.pending in
      let called = ap (λ r. r.1) e in
      let (done, returned) =
        roll_forward-Confirms db bi handler header retriever k first rest block txs h full called in
      let same : block_point block ≡ point_of first = ap block_point (sym done.is_first) in
      subst (λ b. IsChain k start b (points ++ (block_point block ∷ []))) (ap (λ r. r.2) e)
        (record {
          waiting = rest ++ (header ∷ []);
          pending = done.pending;
          linked =
              subst (Linked parent start)
                (ap (λ l. points ++ map point_of (l ++ (header ∷ []))) w
                  ∙ sym (
                      append_assoc points (point_of first ∷ [])
                        (map point_of (rest ++ (header ∷ []))))
                  ∙ ap (λ p. (points ++ (p ∷ [])) ++ map point_of (rest ++ (header ∷ [])))
                      (sym same))
                (extended c header t);
          latest =
              done.latest
              ∙ ap some (sym (last_point-append start points (block_point block ∷ []) ∙ same));
        })

  Unchanged-IsChain :
      {k : ℕ} {start : BlockPoint} {bi bi' : BlockIndexer db} {points : List BlockPoint}
      → IsChain k start bi points
      → Unchanged db bi' bi
      → IsChain k start bi' points
  Unchanged-IsChain {k} c u = record {
    waiting = c.waiting;
    pending = subst (λ q. Holds k q c.waiting) (sym u.queue) c.pending;
    linked = c.linked;
    latest = u.latest ∙ c.latest;
  }

  Truncated-IsChain :
      {k : ℕ} {start : BlockPoint} {bi bi' : BlockIndexer db} {points : List BlockPoint}
      {point : BlockPoint} (c : IsChain k start bi points)
      → Truncated db k bi bi' c.waiting point
      → IsChain k start bi' points
  Truncated-IsChain {start = start} {points = points} c t = record {
    waiting = t.kept;
    pending = t.pending;
    linked = Linked-front parent start (points ++ map point_of t.kept) (map point_of t.dropped) (
        subst (Linked parent start)
          (ap (λ l. points ++ map point_of l) (sym t.split)
            ∙ ap (λ l. points ++ l) (map-append point_of t.kept t.dropped)
            ∙ sym (append_assoc points (map point_of t.kept) (map point_of t.dropped)))
          c.linked);
    latest = t.latest ∙ c.latest;
  }

  Run-IsChain :
      {k : ℕ} {start : BlockPoint} {bi : BlockIndexer db} {points : List BlockPoint}
      → 0 < k
      → Run k start bi points
      → IsChain k start bi points
  Run-IsChain pos (begin bi h l) = record { waiting = []; pending = h; linked = tt; latest = l }
  Run-IsChain {k} pos (waited handler header retriever bi' r t e) =
      let c = Run-IsChain pos r in
      waited-IsChain handler header retriever c (fullness k c.waiting (length-Holds c.pending) pos)
        t e
  Run-IsChain {k} pos (confirmed handler header retriever error block txs bi' r t e) =
      let c = Run-IsChain pos r in
      confirmed-IsChain handler header retriever error block txs c
        (fullness k c.waiting (length-Holds c.pending) pos) t e
  Run-IsChain pos (failed {bi} {points} handler header retriever error bi' r e) =
      let u =
        roll_forward_failed db bi handler header retriever error (ap (λ x. x.1) e)
          (ap (λ x. x.0) e) in
      Unchanged-IsChain (Run-IsChain pos r) (subst (λ b. Unchanged db b bi) (ap (λ x. x.2) e) u.0)
  Run-IsChain {k} pos (rolled_back {bi} {points} point bi' r e) =
      let c = Run-IsChain pos r in
      Truncated-IsChain c (roll_backward-Truncated db k bi bi' c.waiting point c.pending e)

  -- After any sequence of `RollForward`s, each that succeeds or reaches the handler with a block that
  -- builds on the newest point, and of `RollBackward`s without error, from an indexer just reset to `start` that asks for
  -- `k` confirmations, one or more: the points of the blocks given to the handler and then those of
  -- the waiting blocks are one chain from `start`, each building on the one before it. The latest
  -- point is that of the last block given to the handler, and at most `k` blocks wait.
  pub confirmed_chain :
      (k : ℕ) (start : BlockPoint) (bi : BlockIndexer db) (points : List BlockPoint)
      → 0 < k
      → Run k start bi points
      → Linked parent start (points ++ map point_of (items bi.unconfirmed_blocks))
        × (bi.latest_block_point ≡ some (last_point start points))
        × (length (items bi.unconfirmed_blocks) ≤ k)
  confirmed_chain k start bi points pos r =
      let c = Run-IsChain pos r in
      (
        subst (λ l. Linked parent start (points ++ map point_of l)) (sym c.pending.holds) c.linked,
        c.latest,
        omega (arith, length-Holds c.pending, ap length c.pending.holds),
      )
