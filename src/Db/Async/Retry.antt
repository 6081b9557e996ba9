-- ===== src/Db/Async/Retry.antt =====
-- An operation of pkg/db/async.go from the queue to its callback, and what a full queue does to a
-- batch.
use mmo_server.Common.{
  ℕ, zero, suc, ◌+◌, ◌-◌, ◌≤◌, ◌<◌, ◌≡◌, refl, sym, subst, false, ap, ◌∙◌, none, get_elem?, List,
  [], ◌∷◌, ◌++◌, some, length, take, Str, str_key, lookup, arith, erase,
}
use mmo_server.Db.Async.{
  AsyncOperation, AsyncDb, failure, error, enqueue_operation, process_batch, call,
  complete_operation, count_retry, count_failure, process_operation, work, wake_retry, sleep_retry,
  remove_at,
}
use mmo_server.Db.Async.Laws.{added, enqueue_room, enqueue_each-Framed, queue-enqueue_each}

-- Of a batch that is processed, as many operations reach the queue as there is room for, in their
-- order and behind those that wait. The others are dropped: the batch is gone, and no callback is
-- called.
pub process_batch-queue :
    (a : AsyncDb) (id : Str) (op : AsyncOperation) (ops : List AsyncOperation)
    → lookup id a.batch_queues ≡ some (op ∷ ops)
    → length a.queue ≤ a.config.queue_size
    → ((process_batch a id).queue
        ≡ a.queue ++ take (a.config.queue_size - length a.queue) (op ∷ ops))
      × ((process_batch a id).batch_queues ≡ erase id a.batch_queues)
      × ((process_batch a id).called ≡ a.called)
unfolding process_batch
process_batch-queue a id op ops e h =
    let a1 : AsyncDb = record a {
      batch_queues = erase id a.batch_queues;
      stats = record a.stats { batches_processed = a.stats.batches_processed + 1 };
    } in
    let same = enqueue_each-Framed a1 (op ∷ ops) in
    rw (e, process_batch) (queue-enqueue_each a1 (op ∷ ops) h, same.batch_queues, same.called)

-- So many turns of a worker in which the database gives the error, each with the end of the sleep of
-- the retry that it may begin.
unfoldable pub turns : ℕ → Str → AsyncDb → AsyncDb
turns zero e a = a
turns (suc n) e a = turns n e (wake_retry (work a false (error e)) (length a.retrying))

no_retry : (ops : List AsyncOperation) → get_elem? ops (length ops) ≡ none
no_retry [] = refl
no_retry (op ∷ ops) = no_retry ops

last_retry :
    (ops : List AsyncOperation) (op : AsyncOperation)
    → get_elem? (ops ++ (op ∷ [])) (length ops) ≡ some op
last_retry [] op = refl
last_retry (x ∷ ops) op = last_retry ops op

remove_at-last :
    (ops : List AsyncOperation) (op : AsyncOperation)
    → remove_at (length ops) (ops ++ (op ∷ [])) ≡ ops
unfolding remove_at
remove_at-last [] op = refl
remove_at-last (x ∷ ops) op = ap (λ l. x ∷ l) (remove_at-last ops op)

-- The operation that fell asleep last comes back to an empty queue.
wake_retry-sleep_retry :
    (a : AsyncDb) (op : AsyncOperation)
    → length a.queue < a.config.queue_size
    → wake_retry (sleep_retry a op) (length a.retrying) ≡ added a op
unfolding wake_retry
wake_retry-sleep_retry a op h =
    rw (last_retry a.retrying op, wake_retry)
      (ap (λ ops. (enqueue_operation (record a { retrying = ops }) op).0)
          (remove_at-last a.retrying op)
        ∙ ap (λ r. r.0) (enqueue_room a op h))

no_wake : (a : AsyncDb) → wake_retry a (length a.retrying) ≡ a
unfolding wake_retry
no_wake a = rw (no_retry a.retrying, wake_retry) refl

retry_turn :
    (a : AsyncDb) (op : AsyncOperation) (e : Str)
    → op.retry_count < a.config.max_retries
    → 0 < a.config.queue_size
    → a.queue ≡ op ∷ []
    → wake_retry (work a false (error e)) (length a.retrying)
      ≡ added
          (count_retry (record a { queue = [] }))
          (record op { retry_count = op.retry_count + 1 })
unfolding work process_operation
retry_turn a op e h s q =
    let op' : AsyncOperation = record op { retry_count = op.retry_count + 1 } in
    let a' = count_retry (record a { queue = [] }) in
    let asleep : work a false (error e) ≡ sleep_retry a' op' = rw q (ground arith) in
    ap (λ b. wake_retry b (length a.retrying)) asleep ∙ wake_retry-sleep_retry a' op' s

last_turn :
    (a : AsyncDb) (op : AsyncOperation) (e : Str)
    → a.config.max_retries ≤ op.retry_count
    → a.queue ≡ op ∷ []
    → wake_retry (work a false (error e)) (length a.retrying)
      ≡ complete_operation (count_failure (record a { queue = [] })) op (failure e)
unfolding work process_operation complete_operation
last_turn a op e h q =
    let b = complete_operation (count_failure (record a { queue = [] })) op (failure e) in
    let over : work a false (error e) ≡ b = rw q (ground arith) in
    ap (λ x. wake_retry x (length a.retrying)) over ∙ no_wake b

-- The state once the operation has failed for good, after so many retries.
abbrev pub GivenUp : ℕ → AsyncOperation → Str → AsyncDb → AsyncDb → Type 0
GivenUp n op e a b =
    (b.queue ≡ [])
    × (b.retrying ≡ a.retrying)
    × (b.called ≡ call op.callback (failure e) a.called)
    × (b.stats.failed_operations ≡ a.stats.failed_operations + 1)
    × (b.stats.completed_operations ≡ a.stats.completed_operations + 1)
    × (b.stats.retry_count ≡ a.stats.retry_count + n)

-- An operation that waits alone, and on which the database always fails, is tried once and then
-- again, after a sleep, for each retry that it has left, with no other operation put in between. After
-- exactly these turns of a worker the queue is empty, the operation sleeps no more, the callback has been called once, with the error, and the counters tell one failed and one
-- completed operation and the number of retries.
pub turns-GivenUp :
    (n : ℕ) (a : AsyncDb) (op : AsyncOperation) (e : Str)
    → op.retry_count + n ≡ a.config.max_retries
    → 0 < a.config.queue_size
    → a.queue ≡ op ∷ []
    → GivenUp n op e a (turns (suc n) e a)
unfolding turns
turns-GivenUp zero a op e h s q =
    rw (last_turn a op e (omega (arith, h)) q)
      (unfold complete_operation in (refl, refl, refl, refl, refl, omega arith))
turns-GivenUp (suc n) a op e h s q =
    let op' : AsyncOperation = record op { retry_count = op.retry_count + 1 } in
    let a' = added (count_retry (record a { queue = [] })) op' in
    let (empty, asleep, called, failed, completed, retried) =
      turns-GivenUp n a' op' e (omega (arith, h)) s refl in
    subst (λ b. GivenUp (suc n) op e a (turns (suc n) e b))
      (sym (retry_turn a op e (omega (arith, h)) s q))
      (empty, asleep, called, failed, completed, omega (arith, retried))
