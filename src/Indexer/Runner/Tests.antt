-- ===== src/Indexer/Runner/Tests.antt =====
-- Runs of `execute` of indexer/block_indexer_runner.go over a handler that counts its calls.
use cardano_infrastructure.Base.{
  ℕ, ◌+◌, ◌≡◌, refl, true, false, Option, none, some, [], ◌∷◌, Bytes, ◌==◌, if◌then◌else◌,
}
use cardano_infrastructure.Indexer.Data.{
  BlockPoint, BlockHeader, Error, other, process_confirmed_block, fatal, zero_header, zero_point,
  is_fatal, is_process_confirmed_block,
}
use cardano_infrastructure.Indexer.Runner.{
  QueueItem, backward, forward, closed, delayed, execute_item, attempt, attempted, attempt_failed,
}
use cardano_infrastructure.Indexer.Runner.Ends.{Ends, execute_item-Ends}

-- A block is processed at the third attempt.
abbrev third_time : ℕ → BlockHeader → Bytes → Option Error × ℕ
third_time n header txs = (if n == 2 then none else some (process_confirmed_block (other 7)), n + 1)

abbrev out_of_reach : ℕ → BlockPoint → Option Error × ℕ
out_of_reach n point = (some (fatal point zero_point), n + 1)

abbrev block : QueueItem Bytes
block = forward zero_header []

execute_third :
    execute_item out_of_reach third_time 0 block (delayed ∷ delayed ∷ closed ∷ [])
    ≡ (record { break_loop = some false; sent = none; state = 3 })
unfolding execute_item attempt attempted attempt_failed is_fatal is_process_confirmed_block
execute_third = refl

execute_closed :
    execute_item out_of_reach third_time 0 block (delayed ∷ closed ∷ [])
    ≡ (record { break_loop = some true; sent = none; state = 2 })
unfolding execute_item attempt attempted attempt_failed is_fatal is_process_confirmed_block
execute_closed = refl

execute_fatal :
    execute_item out_of_reach third_time 0 (backward zero_point) (delayed ∷ [])
    ≡ (record { break_loop = some true; sent = some (fatal zero_point zero_point); state = 1 })
unfolding execute_item attempt attempted attempt_failed is_fatal is_process_confirmed_block
execute_fatal = refl

execute_item-Ends_example :
    Ends out_of_reach third_time block 0
      (delayed ∷ delayed ∷ closed ∷ [])
      (execute_item out_of_reach third_time 0 block (delayed ∷ delayed ∷ closed ∷ []))
execute_item-Ends_example =
    execute_item-Ends out_of_reach third_time block 0 (delayed ∷ delayed ∷ closed ∷ [])
