-- ===== src/Db/Async.antt =====
-- pkg/db/async.go: `asyncDB`. The pool, the clock and the result handlers are no part of the state:
-- what an attempt at an operation gives is an argument. The queue is a channel with a buffer of
-- `queue_size`, which is positive, and a timer is known by the batch ID that it flushes. Times and
-- averages are left out, and the counters do not wrap around.
pub mod Laws
pub mod Retry
pub mod Steps
pub mod Batches
mod Tests
use mmo_server.Common.{
  or_empty, ℕ, zero, suc, get_elem?, ◌+◌, Bool, true, false, not, ◌&&◌, ◌||◌, List, [], ◌∷◌, ◌++◌,
  map, Option, none, some, ite, length, take, leb, ltb, if◌then◌else◌, Str, Str_discrete, Dict,
  str_key, lookup, insert, erase,
}

pub record AsyncConfig : Type 0 where
  pub queue_size : ℕ
  pub max_retries : ℕ
  pub enable_batching : Bool
  pub batch_size : ℕ

unfoldable pub default_async_config : AsyncConfig
default_async_config = record {
  queue_size = 1000;
  max_retries = 3;
  enable_batching = true;
  batch_size = 100;
}

pub record AsyncStats : Type 0 where
  pub queued_operations : ℕ
  pub completed_operations : ℕ
  pub failed_operations : ℕ
  pub retry_count : ℕ
  pub batches_processed : ℕ

pub data OperationType : Type 0 where
  query : OperationType
  exec : OperationType

-- The callback and the context are names of what the caller passed.
pub record AsyncOperation : Type 0 where
  pub type : OperationType
  pub sql : Str
  pub args : List Str
  pub callback : Option ℕ
  pub context : ℕ
  pub retry_count : ℕ
  pub batch_id : Str

-- What an attempt at an operation gives: the rows affected or read, or an error.
pub data Attempt : Type 0 where
  done : ℕ → Attempt
  error : Str → Attempt

pub data AsyncResult : Type 0 where
  success : ℕ → AsyncResult
  cancelled : AsyncResult
  failure : Str → AsyncResult

-- `retrying` holds the operations whose workers sleep before they put them back, the latest last, and
-- `called` the callbacks that were started, the latest first.
pub record AsyncDb : Type 0 where
  pub config : AsyncConfig
  pub queue : List AsyncOperation
  pub retrying : List AsyncOperation
  pub stats : AsyncStats
  pub batch_queues : Dict Str (List AsyncOperation)
  pub batch_timers : Dict Str (Unit {0})
  pub is_closed : Bool
  pub called : List (ℕ × AsyncResult)

abbrev no_stats : AsyncStats
no_stats = record {
  queued_operations = 0;
  completed_operations = 0;
  failed_operations = 0;
  retry_count = 0;
  batches_processed = 0;
}

unfoldable pub new_async_db : AsyncConfig → AsyncDb
new_async_db config = record {
  config = config;
  queue = [];
  retrying = [];
  stats = no_stats;
  batch_queues = [];
  batch_timers = [];
  is_closed = false;
  called = [];
}

-- `false` is the error that the queue is full.
unfoldable pub enqueue_operation : AsyncDb → AsyncOperation → AsyncDb × Bool
enqueue_operation a op =
    if ltb (length a.queue) a.config.queue_size
    then (
      record a {
        queue = a.queue ++ (op ∷ []);
        stats = record a.stats { queued_operations = a.stats.queued_operations + 1 };
      },
      true,
    )
    else (a, false)

-- The loop of `processBatch`, which ignores the error.
unfoldable pub enqueue_each : AsyncDb → List AsyncOperation → AsyncDb
unfolding enqueue_operation
enqueue_each a [] = a
enqueue_each a (op ∷ ops) = enqueue_each (enqueue_operation a op).0 ops

abbrev pub process_operations : AsyncDb → Str → List AsyncOperation → AsyncDb
process_operations a id [] = a
process_operations a id (op ∷ ops) =
    enqueue_each
      (record a {
        batch_queues = erase id a.batch_queues;
        stats = record a.stats { batches_processed = a.stats.batches_processed + 1 };
      })
      (op ∷ ops)

unfoldable pub process_batch : AsyncDb → Str → AsyncDb
unfolding enqueue_each
process_batch a id = elim (lookup id a.batch_queues) [
  | none ↦ a
  | some ops ↦ process_operations a id ops
]

abbrev pub start_timer : Str → Dict Str (Unit {0}) → Dict Str (Unit {0})
start_timer id timers = elim (lookup id timers) [ none ↦ insert id tt timers | some t ↦ timers ]

unfoldable pub add_to_batch : AsyncDb → Str → AsyncOperation → AsyncDb
unfolding process_batch
add_to_batch a id op =
    let ops = or_empty (lookup id a.batch_queues) ++ (record op { batch_id = id } ∷ []) in
    let a' : AsyncDb = record a { batch_queues = insert id ops a.batch_queues } in
    if leb a.config.batch_size (length ops)
    then process_batch a' id
    else record a' { batch_timers = start_timer id a'.batch_timers }

-- The timer of a batch ID fires.
unfoldable pub process_batch_by_timer : AsyncDb → Str → AsyncDb
unfolding process_batch
process_batch_by_timer a id = process_batch (record a { batch_timers = erase id a.batch_timers }) id

unfoldable pub process_batches : AsyncDb → List Str → AsyncDb
unfolding process_batch
process_batches a [] = a
process_batches a (id ∷ ids) = process_batches (process_batch a id) ids

unfoldable pub process_pending_batches : AsyncDb → AsyncDb
unfolding process_batches
process_pending_batches a =
    process_batches (record a { batch_timers = [] }) (map (λ e. e.0) a.batch_queues)

abbrev pub same : Str → Str → Bool
same s t = ite (Str_discrete s t) true false

abbrev select_word : Str
select_word = b'S' ∷ b'E' ∷ b'L' ∷ b'E' ∷ b'C' ∷ b'T' ∷ []

abbrev insert_word : Str
insert_word = b'I' ∷ b'N' ∷ b'S' ∷ b'E' ∷ b'R' ∷ b'T' ∷ []

abbrev update_word : Str
update_word = b'U' ∷ b'P' ∷ b'D' ∷ b'A' ∷ b'T' ∷ b'E' ∷ []

abbrev delete_word : Str
delete_word = b'D' ∷ b'E' ∷ b'L' ∷ b'E' ∷ b'T' ∷ b'E' ∷ []

abbrev pub is_batchable_query : Str → Bool
is_batchable_query sql = ltb 6 (length sql) && same (take 6 sql) select_word

abbrev pub is_batchable_exec : Str → Bool
is_batchable_exec sql =
    let prefix = take 6 sql in
    not (ltb (length sql) 6)
    && (same prefix insert_word || same prefix update_word || same prefix delete_word)

abbrev pub get_batch_id : Str → Str
get_batch_id sql = if leb (length sql) 20 then sql else take 20 sql

pub data Submitted : Type 0 where
  accepted : Submitted
  closed : Submitted
  queue_full : Submitted

abbrev pub is_batchable : AsyncOperation → Bool
is_batchable op = elim op.type [
  | query ↦ is_batchable_query op.sql
  | exec ↦ is_batchable_exec op.sql
]

abbrev enqueued : AsyncDb × Bool → AsyncDb × Submitted
enqueued (a, fine) = (a, if fine then accepted else queue_full)

abbrev submit_open : AsyncDb → AsyncOperation → Str → AsyncDb × Submitted
submit_open a op [] = enqueued (enqueue_operation a op)
submit_open a op (c ∷ id) =
    if a.config.enable_batching && is_batchable op
    then (add_to_batch a (c ∷ id) op, accepted)
    else enqueued (enqueue_operation a op)

-- `QueryAsync` and `ExecAsync` of a new operation of their type.
unfoldable pub submit : AsyncDb → AsyncOperation → AsyncDb × Submitted
unfolding enqueue_operation add_to_batch
submit a op = if a.is_closed then (a, closed) else submit_open a op (get_batch_id op.sql)

abbrev pub call : Option ℕ → AsyncResult → List (ℕ × AsyncResult) → List (ℕ × AsyncResult)
call none result called = called
call (some k) result called = (k, result) ∷ called

unfoldable pub complete_operation : AsyncDb → AsyncOperation → AsyncResult → AsyncDb
complete_operation a op result = record a {
  stats = record a.stats { completed_operations = a.stats.completed_operations + 1 };
  called = call op.callback result a.called;
}

abbrev pub count_retry : AsyncDb → AsyncDb
count_retry a = record a { stats = record a.stats { retry_count = a.stats.retry_count + 1 } }

abbrev pub count_failure : AsyncDb → AsyncDb
count_failure a = record a {
  stats = record a.stats { failed_operations = a.stats.failed_operations + 1 };
}

-- The worker of a retry begins to sleep.
abbrev pub sleep_retry : AsyncDb → AsyncOperation → AsyncDb
sleep_retry a op = record a { retrying = a.retrying ++ (op ∷ []) }

-- `processOperation`, up to its sleep: whether the context is done, and what the attempt gives.
unfoldable pub process_operation : AsyncDb → AsyncOperation → Bool → Attempt → AsyncDb
unfolding complete_operation
process_operation a op is_done attempt =
    if is_done then complete_operation a op cancelled else (elim attempt [
      | done rows ↦ complete_operation a op (success rows)
      | error e ↦
          if ltb op.retry_count a.config.max_retries
          then sleep_retry (count_retry a) (record op { retry_count = op.retry_count + 1 })
          else complete_operation (count_failure a) op (failure e)
    ])

unfoldable pub remove_at : ℕ → List AsyncOperation → List AsyncOperation
remove_at n [] = []
remove_at zero (op ∷ ops) = ops
remove_at (suc n) (op ∷ ops) = op ∷ remove_at n ops

-- The sleep of the n-th retry ends: the operation goes back to the queue, and is dropped if that is
-- full.
unfoldable pub wake_retry : AsyncDb → ℕ → AsyncDb
unfolding enqueue_operation remove_at
wake_retry a n = elim (get_elem? a.retrying n) [
  | none ↦ a
  | some op ↦ (enqueue_operation (record a { retrying = remove_at n a.retrying }) op).0
]

-- A worker takes an operation from the queue and processes it, up to its sleep if it is to be retried.
unfoldable pub work : AsyncDb → Bool → Attempt → AsyncDb
unfolding process_operation
work a is_done attempt = elim a.queue [
  | [] ↦ a
  | op ∷ ops ↦ process_operation (record a { queue = ops }) op is_done attempt
]

-- `Close`, up to the channel that stops the workers.
unfoldable pub close : AsyncDb → AsyncDb
unfolding process_pending_batches
close a = if a.is_closed then a else process_pending_batches (record a { is_closed = true })
