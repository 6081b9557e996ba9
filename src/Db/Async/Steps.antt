-- ===== src/Db/Async/Steps.antt =====
-- The calls of pkg/db/async.go and the steps of its workers and timers, in any order.

use mmo_server.Common.{
  ℕ, or_empty, ◌≤◌, ◌<◌, ◌≡◌, ◌⊎◌, inl, inr, refl, sym, ap, subst, ◌∙◌, Bool, true, false, ◌&&◌,
  List, [], ◌∷◌, ◌++◌, map, none, some, ite, if_pos, if_neg, get_elem?, length, length-append, leb,
  ltb, if◌then◌else◌, Str, Str_discrete, Dict, str_key, lookup, insert, erase, lookup-insert,
  lookup-erase, insert-IsMap, Bool-cases, Option-cases, arith, dec_lt,
}
use mmo_server.Db.Async.{
  AsyncConfig, AsyncOperation, AsyncDb, Attempt, done, error, enqueue_operation, process_batch,
  start_timer, add_to_batch, process_batch_by_timer, process_batches, process_pending_batches,
  submit, submit_open, complete_operation, process_operation, work, close,
}
use mmo_server.Db.Async.{Submitted, new_async_db, is_batchable, get_batch_id, remove_at, wake_retry}
use mmo_server.Db.Async.Laws.{enqueue_room, enqueue_full}
use mmo_server.Db.Async.Batches.{Filled, IsValid, process_batch-Flushed, flush-IsValid}

process_batch_by_timer-IsValid :
    (a : AsyncDb) (id : Str) → IsValid a → IsValid (process_batch_by_timer a id)
unfolding process_batch_by_timer
process_batch_by_timer-IsValid a id v =
    let a' : AsyncDb = record a { batch_timers = erase id a.batch_timers } in
    flush-IsValid a' id
      (record {
        bounded = v.sound.bounded;
        batches_map = v.sound.batches_map;
        filled = v.sound.filled;
      })
      (λ j ops ne s.
        let old = v.waiting j ops s in (old.0, ground (arith, lookup-erase id j a.batch_timers)))

lookup-start_timer :
    (id j : Str) (t : Dict Str (Unit {0}))
    → lookup j (start_timer id t) ≡ ite (Str_discrete id j) (some tt) (lookup j t)
lookup-start_timer id j t = elim (Option-cases (lookup id t)) [
  | inl n ↦ rw (n, start_timer) (lookup-insert id j tt t)
  | inr (u, s) ↦
      rw (s, start_timer)
        (elim (Str_discrete id j) [
          | yes p ↦ rw (if_pos (Str_discrete id j) p) (sym (ap (λ k. lookup k t) p) ∙ s)
          | no p ↦ sym (if_neg (Str_discrete id j) p _ _)
        ])
]

add_to_batch-IsValid :
    (a : AsyncDb) (id : Str) (op : AsyncOperation) → IsValid a → IsValid (add_to_batch a id op)
unfolding add_to_batch
add_to_batch-IsValid a id op v =
    let ops = or_empty (lookup id a.batch_queues) ++ (record op { batch_id = id } ∷ []) in
    let a' : AsyncDb = record a { batch_queues = insert id ops a.batch_queues } in
    let size =
      length-append (or_empty (lookup id a.batch_queues)) (record op { batch_id = id } ∷ []) in
    let look = λ (j : Str). lookup-insert id j ops a.batch_queues in
    let sound : Filled a' = record {
      bounded = v.sound.bounded;
      batches_map = insert-IsMap id ops a.batch_queues v.sound.batches_map;
      filled = λ j l s. ground (arith, look j, v.sound.filled j l, size);
    } in
    elim (Bool-cases (leb a.config.batch_size (length ops))) [
      | inl e ↦ rw e (
          flush-IsValid a' id sound
            (λ j l ne s. v.waiting j l (sym (look j ∙ if_neg (Str_discrete id j) ne _ _) ∙ s)))
      | inr e ↦ rw e (record {
        sound = record {
          bounded = sound.bounded;
          batches_map = sound.batches_map;
          filled = sound.filled;
        };
        waiting = λ j l s. elim (Str_discrete id j) [
          | yes p ↦
              let this : ops ≡ l = ground (arith, look j) in
              (
                subst (λ k. length k < a.config.batch_size) this (ground arith),
                lookup-start_timer id j a.batch_timers ∙ if_pos (Str_discrete id j) p _ _,
              )
          | no p ↦
              let old = v.waiting j l (sym (look j ∙ if_neg (Str_discrete id j) p _ _) ∙ s) in
              (
                old.0,
                lookup-start_timer id j a.batch_timers ∙ if_neg (Str_discrete id j) p _ _ ∙ old.1,
              )
        ];
      })
    ]

abbrev Among : Str → List Str → Type 0
Among j [] = ⊥
Among j (id ∷ ids) = (id ≡ j) ⊎ Among j ids

process_batches-IsValid :
    (a : AsyncDb) (ids : List Str)
    → Filled a
    → ((j : Str) → (lookup j a.batch_queues ≡ none) ⊎ Among j ids)
    → IsValid (process_batches a ids)
unfolding process_batches
process_batches-IsValid a [] v h = record {
  sound = v;
  waiting = λ j ops s. absurd (no_batch j ops s);
}
  where
    no_batch : (j : Str) (ops : List AsyncOperation) → lookup j a.batch_queues ≡ some ops → ⊥
    no_batch j ops s = elim (h j) [ inl n ↦ cc | inr x ↦ x ]
process_batches-IsValid a (id ∷ ids) v h =
    let f = process_batch-Flushed a id v in
    process_batches-IsValid (process_batch a id) ids f.sound λ j. elim (h j) [
      | inl n ↦ inl (f.left j ∙ ground arith)
      | inr (inl p) ↦ inl (f.left j ∙ if_pos (Str_discrete id j) p _ _)
      | inr (inr m) ↦ inr m
    ]

Among-keys :
    (m : Dict Str (List AsyncOperation)) (j : Str)
    → (lookup j m ≡ none) ⊎ Among j (map (λ e. e.0) m)
unfolding lookup
Among-keys [] j = inl refl
Among-keys ((id, ops) ∷ m) j = elim (Str_discrete id j) [
  | yes p ↦ inr (inl p)
  | no p ↦ elim (Among-keys m j) [
    | inl n ↦ inl (if_neg (Str_discrete id j) p _ _ ∙ n)
    | inr h ↦ inr (inr h)
  ]
]

process_pending-IsValid : (a : AsyncDb) → IsValid a → IsValid (process_pending_batches a)
unfolding process_pending_batches
process_pending-IsValid a v =
    process_batches-IsValid (record a { batch_timers = [] }) (map (λ e. e.0) a.batch_queues)
      (record {
        bounded = v.sound.bounded;
        batches_map = v.sound.batches_map;
        filled = v.sound.filled;
      })
      (Among-keys a.batch_queues)

enqueue_operation-IsValid :
    (a : AsyncDb) (op : AsyncOperation) → IsValid a → IsValid (enqueue_operation a op).0
enqueue_operation-IsValid a op v = elim (dec_lt (length a.queue) a.config.queue_size) [
  | yes h ↦ rw (enqueue_room a op h) (record {
    sound = record {
      bounded = omega (arith, length-append a.queue (op ∷ []));
      batches_map = v.sound.batches_map;
      filled = v.sound.filled;
    };
    waiting = v.waiting;
  })
  | no h ↦ rw (enqueue_full a op (omega arith)) v
]

if-IsValid : (b : Bool) (x y : AsyncDb) → IsValid x → IsValid y → IsValid (if b then x else y)
if-IsValid true x y v w = v
if-IsValid false x y v w = w

if-IsValid_submitted :
    (b : Bool) (x y : AsyncDb × Submitted)
    → IsValid x.0
    → IsValid y.0
    → IsValid (if b then x else y).0
if-IsValid_submitted true x y v w = v
if-IsValid_submitted false x y v w = w

submit_open-IsValid :
    (a : AsyncDb) (op : AsyncOperation) (id : Str) → IsValid a → IsValid (submit_open a op id).0
submit_open-IsValid a op [] v = enqueue_operation-IsValid a op v
submit_open-IsValid a op (c ∷ id) v =
    if-IsValid_submitted (a.config.enable_batching && is_batchable op) _ _
      (add_to_batch-IsValid a (c ∷ id) op v) (enqueue_operation-IsValid a op v)

submit-IsValid : (a : AsyncDb) (op : AsyncOperation) → IsValid a → IsValid (submit a op).0
unfolding submit
submit-IsValid a op v =
    if-IsValid_submitted a.is_closed _ _ v (submit_open-IsValid a op (get_batch_id op.sql) v)

-- The counters, the callbacks and the closing leave it valid.
same-IsValid :
    (a b : AsyncDb)
    → b.config ≡ a.config
    → b.batch_queues ≡ a.batch_queues
    → b.batch_timers ≡ a.batch_timers
    → length b.queue ≤ length a.queue
    → IsValid a
    → IsValid b
same-IsValid a b c q t l v = record {
  sound = record {
    bounded = rw c (omega (arith, v.sound.bounded));
    batches_map = rw q v.sound.batches_map;
    filled = rw q v.sound.filled;
  };
  waiting = rw (c, q, t) v.waiting;
}

process_operation-IsValid :
    (a : AsyncDb) (op : AsyncOperation) (is_done : Bool) (attempt : Attempt)
    → IsValid a
    → IsValid (process_operation a op is_done attempt)
unfolding process_operation complete_operation
process_operation-IsValid a op true attempt v = same-IsValid a _ refl refl refl (omega arith) v
process_operation-IsValid a op false (done rows) v = same-IsValid a _ refl refl refl (omega arith) v
process_operation-IsValid a op false (error e) v =
    elim (Bool-cases (ltb op.retry_count a.config.max_retries)) [
      | inl h ↦ rw h (same-IsValid a _ refl refl refl (omega arith) v)
      | inr h ↦ rw h (same-IsValid a _ refl refl refl (omega arith) v)
    ]

work_on-IsValid :
    (a : AsyncDb) (q : List AsyncOperation) (is_done : Bool) (attempt : Attempt)
    → a.queue ≡ q
    → IsValid a
    → IsValid (elim q [
      | [] ↦ a
      | op ∷ ops ↦ process_operation (record a { queue = ops }) op is_done attempt
    ])
work_on-IsValid a [] is_done attempt e v = v
work_on-IsValid a (op ∷ ops) is_done attempt e v =
    process_operation-IsValid (record a { queue = ops }) op is_done attempt
      (same-IsValid a _ refl refl refl (omega (arith, ap length e)) v)

work-IsValid :
    (a : AsyncDb) (is_done : Bool) (attempt : Attempt)
    → IsValid a
    → IsValid (work a is_done attempt)
unfolding work
work-IsValid a is_done attempt v = work_on-IsValid a a.queue is_done attempt refl v

wake_retry-IsValid : (a : AsyncDb) (n : ℕ) → IsValid a → IsValid (wake_retry a n)
unfolding wake_retry
wake_retry-IsValid a n v = elim (Option-cases (get_elem? a.retrying n)) [
  | inl h ↦ rw (h, wake_retry) v
  | inr (op, h) ↦
      rw (h, wake_retry)
        (enqueue_operation-IsValid (record a { retrying = remove_at n a.retrying }) op
          (same-IsValid a _ refl refl refl (omega arith) v))
]

close-IsValid : (a : AsyncDb) → IsValid a → IsValid (close a)
unfolding close
close-IsValid a v =
    let v' = same-IsValid a (record a { is_closed = true }) refl refl refl (omega arith) v in
    if-IsValid a.is_closed _ _ v (process_pending-IsValid (record a { is_closed = true }) v')

-- A call, a timer, a worker's turn or the end of the sleep before a retry.
pub data Step : AsyncDb → AsyncDb → Type 0 where
  submitted : {a : AsyncDb} (op : AsyncOperation) → Step a (submit a op).0
  timer_fired : {a : AsyncDb} (id : Str) → Step a (process_batch_by_timer a id)
  worked : {a : AsyncDb} (is_done : Bool) (attempt : Attempt) → Step a (work a is_done attempt)
  woken : {a : AsyncDb} (n : ℕ) → Step a (wake_retry a n)
  waited : {a : AsyncDb} → Step a (process_pending_batches a)
  closing : {a : AsyncDb} → Step a (close a)

-- What may come of a new state.
pub data Reachable (config : AsyncConfig) : AsyncDb → Type 0 where
  started : Reachable config (new_async_db config)
  stepped : {a b : AsyncDb} → Reachable config a → Step a b → Reachable config b

Step-IsValid : {a b : AsyncDb} → Step a b → IsValid a → IsValid b
Step-IsValid (submitted {a} op) v = submit-IsValid a op v
Step-IsValid (timer_fired {a} id) v = process_batch_by_timer-IsValid a id v
Step-IsValid (worked {a} is_done attempt) v = work-IsValid a is_done attempt v
Step-IsValid (woken {a} n) v = wake_retry-IsValid a n v
Step-IsValid (waited {a}) v = process_pending-IsValid a v
Step-IsValid (closing {a}) v = close-IsValid a v

-- After any sequence of calls, timers, turns of the workers and ends of their sleeps, the queue is within its size, and
-- every batch that waits is not empty, is below the batch size and has a timer that will flush it.
pub Reachable-IsValid : (config : AsyncConfig) {a : AsyncDb} → Reachable config a → IsValid a
Reachable-IsValid config started =
    unfold new_async_db lookup in
    record {
      sound = record { bounded = omega arith; batches_map = tt; filled = λ id ops s. absurd (cc) };
      waiting = λ id ops s. absurd (cc);
    }
Reachable-IsValid config (stepped r s) = Step-IsValid s (Reachable-IsValid config r)
