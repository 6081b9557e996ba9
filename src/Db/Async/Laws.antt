-- ===== src/Db/Async/Laws.antt =====
-- What reaches the queue of pkg/db/async.go, and that no batch waits without a timer.

use mmo_server.Common.{
  ℕ, zero, suc, ◌+◌, ◌-◌, ◌≤◌, ◌<◌, ◌≡◌, refl, sym, ap, ◌∙◌, true, false, List, [], ◌∷◌, ◌++◌,
  append_assoc, append-nil, length, take, length-append, str_key, arith, dec_lt,
}
use mmo_server.Db.Async.{AsyncOperation, AsyncDb, enqueue_operation, enqueue_each}

take_pos :
    {A : Type 0} (n : ℕ) (x : A) (xs : List A) → 0 < n → take n (x ∷ xs) ≡ x ∷ take (n - 1) xs
take_pos zero x xs h = absurd (omega arith)
take_pos (suc n) x xs h = ap (λ k. x ∷ take k xs) (omega arith)

take_nil : {A : Type 0} (n : ℕ) → take {A = A} n [] ≡ []
take_nil zero = refl
take_nil (suc n) = refl

abbrev pub added : AsyncDb → AsyncOperation → AsyncDb
added a op = record a {
  queue = a.queue ++ (op ∷ []);
  stats = record a.stats { queued_operations = a.stats.queued_operations + 1 };
}

pub enqueue_room :
    (a : AsyncDb) (op : AsyncOperation)
    → length a.queue < a.config.queue_size
    → enqueue_operation a op ≡ (added a op, true)
unfolding enqueue_operation
enqueue_room a op h = ground arith

pub enqueue_full :
    (a : AsyncDb) (op : AsyncOperation)
    → a.config.queue_size ≤ length a.queue
    → enqueue_operation a op ≡ (a, false)
unfolding enqueue_operation
enqueue_full a op h = ground arith

first_room :
    (a : AsyncDb) (op : AsyncOperation) (ops : List AsyncOperation)
    → length a.queue < a.config.queue_size
    → enqueue_each a (op ∷ ops) ≡ enqueue_each (added a op) ops
unfolding enqueue_each
first_room a op ops h = ap (λ r. enqueue_each r.0 ops) (enqueue_room a op h)

first_full :
    (a : AsyncDb) (op : AsyncOperation) (ops : List AsyncOperation)
    → a.config.queue_size ≤ length a.queue
    → enqueue_each a (op ∷ ops) ≡ enqueue_each a ops
unfolding enqueue_each
first_full a op ops h = ap (λ r. enqueue_each r.0 ops) (enqueue_full a op h)

length-added : (a : AsyncDb) (op : AsyncOperation) → length (added a op).queue ≡ length a.queue + 1
length-added a op = omega (arith, length-append a.queue (op ∷ []))

-- What is left of the state when the queue and the counters are put aside.
pub record Framed (a b : AsyncDb) : Type 0 where
  pub config : b.config ≡ a.config
  pub batch_queues : b.batch_queues ≡ a.batch_queues
  pub batch_timers : b.batch_timers ≡ a.batch_timers
  pub is_closed : b.is_closed ≡ a.is_closed
  pub called : b.called ≡ a.called

added-Framed : (a : AsyncDb) (op : AsyncOperation) → Framed a (added a op)
added-Framed a op = record {
  config = refl;
  batch_queues = refl;
  batch_timers = refl;
  is_closed = refl;
  called = refl;
}

trans-Framed : (a b c : AsyncDb) → Framed a b → Framed b c → Framed a c
trans-Framed a b c f g = record {
  config = g.config ∙ f.config;
  batch_queues = g.batch_queues ∙ f.batch_queues;
  batch_timers = g.batch_timers ∙ f.batch_timers;
  is_closed = g.is_closed ∙ f.is_closed;
  called = g.called ∙ f.called;
}

pub enqueue_each-Framed : (a : AsyncDb) (ops : List AsyncOperation) → Framed a (enqueue_each a ops)
enqueue_each-Framed a [] =
    unfold enqueue_each in
    record {
      config = refl;
      batch_queues = refl;
      batch_timers = refl;
      is_closed = refl;
      called = refl;
    }
enqueue_each-Framed a (op ∷ ops) = elim (dec_lt (length a.queue) a.config.queue_size) [
  | yes h ↦
      rw (first_room a op ops h)
        (trans-Framed a (added a op) _ (added-Framed a op) (enqueue_each-Framed (added a op) ops))
  | no h ↦ rw (first_full a op ops (omega arith)) (enqueue_each-Framed a ops)
]

-- The batch goes to the end of the queue as far as there is room, and the rest of it is lost.
pub queue-enqueue_each :
    (a : AsyncDb) (ops : List AsyncOperation)
    → length a.queue ≤ a.config.queue_size
    → (enqueue_each a ops).queue ≡ a.queue ++ take (a.config.queue_size - length a.queue) ops
queue-enqueue_each a [] h =
    unfold enqueue_each in
    rw (take_nil (a.config.queue_size - length a.queue)) (sym (append-nil a.queue))
queue-enqueue_each a (op ∷ ops) h = elim (dec_lt (length a.queue) a.config.queue_size) [
  | yes p ↦
      let n = a.config.queue_size - length a.queue in
      let size = length-added a op in
      let less : a.config.queue_size - length (added a op).queue ≡ n - 1 = rw size (omega arith) in
      let rest = queue-enqueue_each (added a op) ops (omega (arith, size)) in
      ap (λ b. b.queue) (first_room a op ops p)
      ∙ rest
      ∙ ap (λ k. (a.queue ++ (op ∷ [])) ++ take k ops) less
      ∙ append_assoc a.queue (op ∷ []) (take (n - 1) ops)
      ∙ ap (λ l. a.queue ++ l) (sym (take_pos n op ops (omega arith)))
  | no p ↦
      let none_left : a.config.queue_size - length a.queue ≡ 0 = omega arith in
      ap (λ b. b.queue) (first_full a op ops (omega arith))
      ∙ queue-enqueue_each a ops h
      ∙ rw none_left refl
]
