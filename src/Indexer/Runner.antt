-- ===== src/Indexer/Runner.antt =====
-- `execute` of indexer/block_indexer_runner.go. The handler of an item, `RollBackward`
-- or `RollForward` of the syncer's handler, is a function on its own state. What ends each wait
-- between two attempts is given in order; the channels themselves and the log lines are left out.
pub mod Ends
mod Tests
use cardano_infrastructure.Base.{
  Bool, true, false, not, Option, none, some, List, [], ◌∷◌, if◌then◌else◌,
}
use cardano_infrastructure.Indexer.Data.{
  BlockPoint, BlockHeader, Error, is_fatal, is_process_confirmed_block,
}

-- A `blockIndexerRunnerQueueItem`, with a point or with a header and its retriever.
pub data QueueItem (Retriever : Type 0) : Type 0 where
  backward : BlockPoint → QueueItem Retriever
  forward : BlockHeader → Retriever → QueueItem Retriever

-- The three cases of the `select` behind a failed attempt.
pub data Wait : Type 0 where
  closed : Wait
  stopped : Wait
  delayed : Wait

-- What `execute` returns, `none` while it still waits, what it sent on the error channel, and the
-- state of the handler.
pub record Executed (S : Type 0) : Type 0 where
  pub break_loop : Option Bool
  pub sent : Option Error
  pub state : S

module _ {S : Type 0} where
  abbrev pub returned : Bool → S → Executed S
  returned b s = record { break_loop = some b; sent = none; state = s }

  -- An error of an attempt, by its kind; `next` is what follows the ones that are tried again.
  unfoldable pub attempt_failed : Error → S → Executed S → Executed S
  attempt_failed e s next =
      if is_fatal e
      then record { break_loop = some true; sent = some e; state = s }
      else if not (is_process_confirmed_block e)
      then returned false s
      else next

  module _ {Retriever : Type 0} (roll_backward : S → BlockPoint → Option Error × S)
      (roll_forward : S → BlockHeader → Retriever → Option Error × S) where
    unfoldable pub attempt : S → QueueItem Retriever → Option Error × S
    attempt s (backward point) = roll_backward s point
    attempt s (forward header retriever) = roll_forward s header retriever

    -- The loop, from behind an attempt.
    unfoldable pub attempted : QueueItem Retriever → Option Error × S → List Wait → Executed S
    attempted item (none, s) waits = returned false s
    attempted item (some e, s) [] =
        attempt_failed e s (record { break_loop = none; sent = none; state = s })
    attempted item (some e, s) (closed ∷ waits) = attempt_failed e s (returned true s)
    attempted item (some e, s) (stopped ∷ waits) = attempt_failed e s (returned true s)
    attempted item (some e, s) (delayed ∷ waits) =
        attempt_failed e s (attempted item (attempt s item) waits)

    unfoldable pub execute_item : S → QueueItem Retriever → List Wait → Executed S
    execute_item s item waits = attempted item (attempt s item) waits
