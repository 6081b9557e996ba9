-- ===== src/Db/Async/Tests.antt =====
-- pkg/db/async.go at work: a queue of two places, batches of two and one retry.
use mmo_server.Common.{
  ℕ, ◌≡◌, refl, true, [], ◌∷◌, some, length, Str, Str_discrete, ℕ_discrete, lookup, insert, erase,
  str_key, arith,
}
use mmo_server.Db.Async.{
  AsyncConfig, AsyncOperation, AsyncDb, exec, new_async_db, enqueue_operation, enqueue_each,
  process_batch, add_to_batch, process_batch_by_timer, process_batches, process_pending_batches,
  submit, complete_operation, process_operation, remove_at, wake_retry, work, close, accepted,
  closed,
}
use mmo_server.Db.Async.Batches.{IsValid}
use mmo_server.Db.Async.Steps.{started, stepped, submitted, Reachable-IsValid}
use mmo_server.Db.Async.Retry.{GivenUp, turns, turns-GivenUp, process_batch-queue}

program : Unit {0}
unfolding lookup insert erase Str_discrete ℕ_discrete new_async_db enqueue_operation enqueue_each
    process_batch add_to_batch process_batch_by_timer process_batches process_pending_batches submit
    complete_operation process_operation work close remove_at wake_retry turns
program = tt

abbrev config : AsyncConfig
config = record { queue_size = 2; max_retries = 1; enable_batching = true; batch_size = 3 }

abbrev insert_sql : Str
insert_sql = b'I' ∷ b'N' ∷ b'S' ∷ b'E' ∷ b'R' ∷ b'T' ∷ []

abbrev operation : ℕ → AsyncOperation
operation n = record {
  type = exec;
  sql = insert_sql;
  args = [];
  callback = some n;
  context = 0;
  retry_count = 0;
  batch_id = [];
}

abbrev a0 : AsyncDb
a0 = new_async_db config

abbrev a1 : AsyncDb
a1 = (submit a0 (operation 1)).0

abbrev a2 : AsyncDb
a2 = (submit a1 (operation 2)).0

-- The third operation completes a batch, and there is no place for it in the queue.
third_dropped :
    ((submit a2 (operation 3)).1 ≡ accepted) × (length (submit a2 (operation 3)).0.queue ≡ 2)
unfolding program
third_dropped = (refl, refl)

after_close : (submit (close a2) (operation 3)).1 ≡ closed
unfolding program
after_close = refl

Reachable-IsValid_example : IsValid a2
Reachable-IsValid_example =
    Reachable-IsValid config
      (stepped (stepped started (submitted (operation 1))) (submitted (operation 2)))

abbrev alone : AsyncDb
alone = record a0 { queue = operation 1 ∷ [] }

turns-GivenUp_example : GivenUp 1 (operation 1) [] alone (turns 2 [] alone)
unfolding new_async_db
turns-GivenUp_example = turns-GivenUp 1 alone (operation 1) [] (omega arith) (omega arith) refl

abbrev batched : AsyncDb
batched = record alone { batch_queues = (insert_sql, operation 2 ∷ operation 3 ∷ []) ∷ [] }

process_batch-queue_example :
    ((process_batch batched insert_sql).queue ≡ operation 1 ∷ operation 2 ∷ [])
    × ((process_batch batched insert_sql).batch_queues ≡ [])
    × ((process_batch batched insert_sql).called ≡ [])
unfolding program
process_batch-queue_example =
    process_batch-queue batched insert_sql (operation 2) (operation 3 ∷ []) refl (omega arith)

abbrev asleep : AsyncDb
asleep = record a0 { queue = operation 1 ∷ operation 2 ∷ []; retrying = operation 3 ∷ [] }

-- The queue is full when the sleep of a retry ends: the operation is dropped, and no callback called.
retry_dropped :
    ((wake_retry asleep 0).retrying ≡ [])
    × ((wake_retry asleep 0).queue ≡ asleep.queue)
    × ((wake_retry asleep 0).called ≡ [])
unfolding program
retry_dropped = (refl, refl, refl)
