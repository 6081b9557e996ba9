-- ===== src/Db/Async/Batches.antt =====
-- In pkg/db/async.go no batch waits without a timer.

use mmo_server.Common.{
  ◌+◌, ◌-◌, ◌≤◌, ◌<◌, ◌≡◌, ◌≢◌, inl, inr, refl, sym, ap, subst, ◌∙◌, List, [], ◌∷◌, none, some, ite,
  if_neg, length, take, length-append, length-take, Str, Str_discrete, str_key, lookup, erase,
  IsMap, lookup-erase, erase-IsMap, Option-cases, arith,
}
use mmo_server.Db.Async.{AsyncOperation, AsyncDb, enqueue_each, process_operations, process_batch}
use mmo_server.Db.Async.Laws.{enqueue_each-Framed, queue-enqueue_each}

pub record Filled (a : AsyncDb) : Type 0 where
  pub bounded : length a.queue ≤ a.config.queue_size
  pub batches_map : IsMap a.batch_queues
  pub filled :
      (id : Str) (ops : List AsyncOperation) → lookup id a.batch_queues ≡ some ops → 0 < length ops

-- The queue is within its size, and a batch that waits is not empty, is below the batch size and has
-- a timer.
pub record IsValid (a : AsyncDb) : Type 0 where
  pub sound : Filled a
  pub waiting :
      (id : Str) (ops : List AsyncOperation)
      → lookup id a.batch_queues ≡ some ops
      → (length ops < a.config.batch_size) × (lookup id a.batch_timers ≡ some tt)

-- What `processBatch` does beside the queue.
pub record Flushed (id : Str) (a b : AsyncDb) : Type 0 where
  pub sound : Filled b
  pub left :
      (j : Str) → lookup j b.batch_queues ≡ ite (Str_discrete id j) none (lookup j a.batch_queues)
  pub timers : b.batch_timers ≡ a.batch_timers
  pub config : b.config ≡ a.config

pub bounded-enqueue_each :
    (a : AsyncDb) (ops : List AsyncOperation)
    → length a.queue ≤ a.config.queue_size
    → length (enqueue_each a ops).queue ≤ a.config.queue_size
bounded-enqueue_each a ops h =
    let room = a.config.queue_size - length a.queue in
    rw (queue-enqueue_each a ops h)
      (omega (arith, length-append a.queue (take room ops), length-take room ops))

process_operations-Flushed :
    (a : AsyncDb) (id : Str) (ops : List AsyncOperation)
    → Filled a
    → lookup id a.batch_queues ≡ some ops
    → Flushed id a (process_operations a id ops)
process_operations-Flushed a id [] v e = absurd (omega (arith, v.filled id [] e))
process_operations-Flushed a id (op ∷ ops) v e =
    let a1 : AsyncDb = record a {
      batch_queues = erase id a.batch_queues;
      stats = record a.stats { batches_processed = a.stats.batches_processed + 1 };
    } in
    let same = enqueue_each-Framed a1 (op ∷ ops) in
    let left = λ (j : Str). ap (lookup j) same.batch_queues ∙ lookup-erase id j a.batch_queues in
    record {
      sound = record {
        bounded = rw same.config (bounded-enqueue_each a1 (op ∷ ops) v.bounded);
        batches_map = rw same.batch_queues (erase-IsMap id a.batch_queues v.batches_map);
        filled = λ j l s. ground (arith, left j, v.filled j l);
      };
      left = left;
      timers = same.batch_timers;
      config = same.config;
    }

pub process_batch-Flushed : (a : AsyncDb) (id : Str) → Filled a → Flushed id a (process_batch a id)
unfolding process_batch
process_batch-Flushed a id v = elim (Option-cases (lookup id a.batch_queues)) [
  | inl n ↦
      rw (n, process_batch)
        (record { sound = v; left = λ j. ground arith; timers = refl; config = refl })
  | inr (ops, s) ↦ rw (s, process_batch) (process_operations-Flushed a id ops v s)
]

-- The batch of an ID may lack its timer before it is processed.
pub flush-IsValid :
    (a : AsyncDb) (id : Str)
    → Filled a
    → ((j : Str) (ops : List AsyncOperation)
        → id ≢ j
        → lookup j a.batch_queues ≡ some ops
        → (length ops < a.config.batch_size) × (lookup j a.batch_timers ≡ some tt))
    → IsValid (process_batch a id)
flush-IsValid a id v w =
    let f = process_batch-Flushed a id v in
    record {
      sound = f.sound;
      waiting = λ j ops s. elim (Str_discrete id j) [
        | yes p ↦ absurd (ground (arith, f.left j))
        | no p ↦
            let old = w j ops p (sym (f.left j ∙ if_neg (Str_discrete id j) p _ _) ∙ s) in
            (
              subst (λ c. length ops < c.batch_size) (sym f.config) old.0,
              ap (lookup j) f.timers ∙ old.1,
            )
      ];
    }
