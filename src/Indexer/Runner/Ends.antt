-- ===== src/Indexer/Runner/Ends.antt =====
-- How `execute` of indexer/block_indexer_runner.go ends.
use cardano_infrastructure.Base.{
  ◌≡◌, refl, true, false, Option, none, some, List, [], ◌∷◌, Bool-cases, inl, inr,
}
use cardano_infrastructure.Indexer.Data.{
  BlockPoint, BlockHeader, Error, is_fatal, is_process_confirmed_block,
}
use cardano_infrastructure.Indexer.Runner.{
  QueueItem, Wait, closed, stopped, delayed, Executed, returned, attempt_failed, attempt, attempted,
  execute_item,
}

module _ {S Retriever : Type 0} (roll_backward : S → BlockPoint → Option Error × S)
    (roll_forward : S → BlockHeader → Retriever → Option Error × S)
    (item : QueueItem Retriever) where
  -- An attempt from `s` fails with a `processConfirmedBlockError` that is not fatal, and leaves `t`.
  pub record FailsToProcess (s t : S) : Type 0 where
    pub error : Error
    pub fails : attempt roll_backward roll_forward s item ≡ (some error, t)
    pub not_fatal : is_fatal error ≡ false
    pub is_process : is_process_confirmed_block error ≡ true

  -- Such attempts, each with the whole delay behind it, lead from `s` to a state, and `rest` of the
  -- waits is left.
  pub data Retried : S → List Wait → S → List Wait → Type 0 where
    start : (s : S) (waits : List Wait) → Retried s waits s waits
    again :
        (s t u : S) (waits rest : List Wait)
        → FailsToProcess s t
        → Retried t waits u rest
        → Retried s (delayed ∷ waits) u rest

  -- What the attempt behind those decides.
  pub data Decided : S → List Wait → Executed S → Type 0 where
    processed :
        (t u : S) (rest : List Wait)
        → attempt roll_backward roll_forward t item ≡ (none, u)
        → Decided t rest (returned false u)
    fatal_sent :
        (t u : S) (rest : List Wait) (e : Error)
        → attempt roll_backward roll_forward t item ≡ (some e, u)
        → is_fatal e ≡ true
        → Decided t rest (record { break_loop = some true; sent = some e; state = u })
    given_up :
        (t u : S) (rest : List Wait) (e : Error)
        → attempt roll_backward roll_forward t item ≡ (some e, u)
        → is_fatal e ≡ false
        → is_process_confirmed_block e ≡ false
        → Decided t rest (returned false u)
    told_closed :
        (t u : S) (rest : List Wait)
        → FailsToProcess t u
        → Decided t (closed ∷ rest) (returned true u)
    told_stopped :
        (t u : S) (rest : List Wait)
        → FailsToProcess t u
        → Decided t (stopped ∷ rest) (returned true u)
    waiting :
        (t u : S)
        → FailsToProcess t u
        → Decided t [] (record { break_loop = none; sent = none; state = u })

  pub record Ends (s : S) (waits : List Wait) (x : Executed S) : Type 0 where
    pub last : S
    pub rest : List Wait
    pub retried : Retried s waits last rest
    pub decided : Decided last rest x

  -- An attempt whose error is not tried again decides, whatever would follow.
  attempt_failed-Ends :
      (s t : S) (waits : List Wait) (e : Error) (next : Executed S)
      → attempt roll_backward roll_forward s item ≡ (some e, t)
      → (FailsToProcess s t → Ends s waits next)
      → Ends s waits (attempt_failed e t next)
  unfolding attempt_failed
  attempt_failed-Ends s t waits e next h k = elim (Bool-cases (is_fatal e)) [
    | inl severe ↦ rw severe (record {
      last = s;
      rest = waits;
      retried = start s waits;
      decided = fatal_sent s t waits e h severe;
    })
    | inr mild ↦ elim (Bool-cases (is_process_confirmed_block e)) [
      | inl process ↦
          rw mild (
            rw process
              (k (record { error = e; fails = h; not_fatal = mild; is_process = process })))
      | inr unlike ↦ rw mild (
          rw unlike (record {
            last = s;
            rest = waits;
            retried = start s waits;
            decided = given_up s t waits e h mild unlike;
          }))
    ]
  ]

  at_once : (s : S) (waits : List Wait) (x : Executed S) → Decided s waits x → Ends s waits x
  at_once s waits x d = record { last = s; rest = waits; retried = start s waits; decided = d }

  attempted-Ends :
      (s : S) (r : Option Error × S) (waits : List Wait)
      → attempt roll_backward roll_forward s item ≡ r
      → Ends s waits (attempted roll_backward roll_forward item r waits)
  unfolding attempted
  attempted-Ends s (none, t) waits h = at_once s waits _ (processed s t waits h)
  attempted-Ends s (some e, t) [] h =
      attempt_failed-Ends s t [] e _ h (λ f. at_once s [] _ (waiting s t f))
  attempted-Ends s (some e, t) (closed ∷ waits) h =
      attempt_failed-Ends s t (closed ∷ waits) e _ h
        (λ f. at_once s (closed ∷ waits) _ (told_closed s t waits f))
  attempted-Ends s (some e, t) (stopped ∷ waits) h =
      attempt_failed-Ends s t (stopped ∷ waits) e _ h
        (λ f. at_once s (stopped ∷ waits) _ (told_stopped s t waits f))
  attempted-Ends s (some e, t) (delayed ∷ waits) h =
      let after = attempted-Ends t (attempt roll_backward roll_forward t item) waits refl in
      attempt_failed-Ends s t (delayed ∷ waits) e _ h (λ f. record {
        last = after.last;
        rest = after.rest;
        retried = again s t after.last waits after.rest f after.retried;
        decided = after.decided;
      })

  -- `execute` repeats the item while its handler fails with a `processConfirmedBlockError` that is
  -- not fatal and the whole delay passes, each attempt from the state that the one before it left.
  -- The attempt behind those decides: if it succeeds, or fails with an error of another kind, then
  -- the runner goes on to the next item and sends nothing; if it fails with a fatal error, then the
  -- loop breaks and that error is sent; if it fails as before, then the loop breaks without an error
  -- when the runner is closed or stopped, and still waits when nothing more happens.
  pub execute_item-Ends :
      (s : S) (waits : List Wait)
      → Ends s waits (execute_item roll_backward roll_forward s item waits)
  unfolding execute_item
  execute_item-Ends s waits = attempted-Ends s _ waits refl
