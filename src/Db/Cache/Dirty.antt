-- ===== src/Db/Cache/Dirty.antt =====
-- Which dirty entries a `Flush` of pkg/db/cache_sync.go takes away.

use mmo_server.Common.{
  ◌≡◌, ◌⊎◌, inl, inr, refl, ◌∙◌, Bool, true, false, ◌||◌, ◌&&◌, List, [], ◌∷◌, none, ite,
  if◌then◌else◌, Bool-cases, Str, Str_discrete, Dict, str_key, lookup, erase, lookup-erase, arith,
}
use mmo_server.Db.Cache.{EntityData, DirtyEntry, CacheSync, Storage, format_dirty_key}
use mmo_server.Db.Cache.Flush.{
  end_batch, write_batch, flush_batch, flush_batches, flush_entities, execute_delete_multi,
  written_fields, update_sql, update_args, updates, delete_ids,
}

abbrev pub key_of : DirtyEntry → Str
key_of e = format_dirty_key e.entity_type e.entity_id

-- Whether one of the entries has the key.
unfoldable pub among : Str → List DirtyEntry → Bool
among k [] = false
among k (e ∷ es) = ite (Str_discrete (key_of e) k) true (among k es)

-- A batch that has been written takes away whatever is stored under the keys of its entries, also
-- what `Set` or `Delete` has put there since the flush began, and nothing else.
pub end_batch-lookup :
    (k : Str) (es : List DirtyEntry) (cs : CacheSync)
    → lookup k (end_batch es cs).dirty_entries
      ≡ (if among k es then none else lookup k cs.dirty_entries)
unfolding end_batch among
end_batch-lookup k [] cs = refl
end_batch-lookup k (e ∷ es) cs =
    end_batch-lookup k es (record cs { dirty_entries = erase (key_of e) cs.dirty_entries })
    ∙ ground (arith, lookup-erase (key_of e) k cs.dirty_entries)

end_batch-config : (es : List DirtyEntry) (cs : CacheSync) → (end_batch es cs).config ≡ cs.config
unfolding end_batch
end_batch-config [] cs = refl
end_batch-config (e ∷ es) cs = end_batch-config es _

-- The dirty entries under a key, before and after a part of a flush: gone if it is said so and there
-- was no error, and else as they were or, if they have been written, gone.
pub record Left (k : Str) (covered : Bool) (fine written : Type 0) (cs cs' : CacheSync)
    : Type 0 where
  pub alone : covered ≡ false → lookup k cs'.dirty_entries ≡ lookup k cs.dirty_entries
  pub gone : fine → covered ≡ true → lookup k cs'.dirty_entries ≡ none
  pub falls :
      ((lookup k cs'.dirty_entries ≡ none) × written)
      ⊎ (lookup k cs'.dirty_entries ≡ lookup k cs.dirty_entries)
  pub config : cs'.config ≡ cs.config

pub Left-none : (k : Str) (R W : Type 0) (cs : CacheSync) → Left k false R W cs cs
Left-none k R W cs = record {
  alone = λ e. refl;
  gone = λ r e. absurd (cc);
  falls = inr refl;
  config = refl;
}

pub Left-then :
    (k : Str) (b c : Bool) (Q R W : Type 0) (cs cs' cs'' : CacheSync)
    → (R → Q)
    → Left k b Q W cs cs'
    → Left k c R W cs' cs''
    → Left k (b || c) R W cs cs''
Left-then k true c Q R W cs cs' cs'' i f g = record {
  alone = λ e. absurd (cc);
  gone = λ r e. elim g.falls [ inl n ↦ n.0 | inr s ↦ s ∙ f.gone (i r) refl ];
  falls = elim g.falls [
    | inl n ↦ inl n
    | inr s ↦ elim f.falls [ inl n ↦ inl (s ∙ n.0, n.1) | inr t ↦ inr (s ∙ t) ]
  ];
  config = g.config ∙ f.config;
}
Left-then k false c Q R W cs cs' cs'' i f g = record {
  alone = λ e. g.alone e ∙ f.alone refl;
  gone = λ r e. g.gone r e;
  falls = elim g.falls [ inl n ↦ inl n | inr s ↦ inr (s ∙ f.alone refl) ];
  config = g.config ∙ f.config;
}

unfoldable pub any_among : Str → List (List DirtyEntry) → Bool
any_among k [] = false
any_among k (es ∷ rest) = among k es || any_among k rest

pub and_both : (a b : Bool) → (a && b) ≡ true → (a ≡ true) × (b ≡ true)
and_both true b h = (refl, h)
and_both false b h = absurd (cc)

pub and_true : (a b : Bool) → a ≡ true → b ≡ true → (a && b) ≡ true
and_true a b h k = rw (h, k) refl

module _ {S : Type 0} (env : Storage S) where
  -- A database that takes every statement.
  abbrev pub Reliable : Type 0
  Reliable = (sql : Str) (args : List Str) (s : S) → (env.exec sql args s).1 ≡ true

  -- A batch with an entry that has the key, of which the database took every statement.
  abbrev pub Written : Str → Type 0
  Written k =
      (type : Str) × (es : List DirtyEntry) × (s : S) × (among k es ≡ true)
      × ((write_batch env type es s).1 ≡ true)

  flush_entities-Reliable :
      Reliable
      → (type : Str) (m : Dict Str EntityData) (s : S) → (flush_entities env type m s).1 ≡ true
  unfolding flush_entities
  flush_entities-Reliable r type [] s = refl
  flush_entities-Reliable r type ((id, x) ∷ m) s =
      let fields = written_fields x in
      let sql = update_sql type fields in
      rw (r sql (update_args fields id) s) (flush_entities-Reliable r type m _)

  execute_delete-Reliable :
      Reliable
      → (type : Str) (ids : List Str) (s : S) → (execute_delete_multi env type ids s).1 ≡ true
  unfolding execute_delete_multi
  execute_delete-Reliable r type [] s = refl
  execute_delete-Reliable r type (id ∷ ids) s = r _ _ s

  write_batch-Reliable :
      Reliable → (type : Str) (es : List DirtyEntry) (s : S) → (write_batch env type es s).1 ≡ true
  unfolding write_batch
  write_batch-Reliable r type es s =
      rw (flush_entities-Reliable r type (updates es) s)
        (execute_delete-Reliable r type (delete_ids es) _)

  flush_batch-Left :
      (k type : Str) (es : List DirtyEntry) (cs : CacheSync) (s : S)
      → Left k
          (among k es)
          ((flush_batch env type es cs s).2 ≡ true)
          (Written k)
          cs
          (flush_batch env type es cs s).0
  unfolding flush_batch
  flush_batch-Left k type es cs s = elim (Bool-cases (write_batch env type es s).1) [
    | inl e ↦ rw e (record {
      alone = λ h. end_batch-lookup k es cs ∙ rw h refl;
      gone = λ r h. end_batch-lookup k es cs ∙ rw h refl;
      falls = elim (Bool-cases (among k es)) [
        | inl b ↦ inl (end_batch-lookup k es cs ∙ rw b refl, (type, es, s, b, e))
        | inr b ↦ inr (end_batch-lookup k es cs ∙ rw b refl)
      ];
      config = end_batch-config es cs;
    })
    | inr e ↦
        rw e
          (record { alone = λ h. refl; gone = λ r h. absurd (cc); falls = inr refl; config = refl })
  ]

  -- No error at the end is none in between.
  pub flush_batches-fine :
      (type : Str) (rest : List (List DirtyEntry)) (cs : CacheSync) (s : S) (fine : Bool)
      → (flush_batches env type rest cs s fine).2 ≡ true
      → fine ≡ true
  unfolding flush_batches
  flush_batches-fine type [] cs s fine h = h
  flush_batches-fine type (es ∷ rest) cs s fine h =
      (and_both _ _ (flush_batches-fine type rest _ _ _ h)).0

  pub flush_batches-Reliable :
      Reliable
      → (type : Str) (rest : List (List DirtyEntry)) (cs : CacheSync) (s : S) (fine : Bool)
      → fine ≡ true
      → (flush_batches env type rest cs s fine).2 ≡ true
  unfolding flush_batches flush_batch
  flush_batches-Reliable r type [] cs s fine h = h
  flush_batches-Reliable r type (es ∷ rest) cs s fine h =
      flush_batches-Reliable r type rest _ _ _ (and_true _ _ h (write_batch-Reliable r type es s))

  pub flush_batches-Left :
      (k type : Str) (rest : List (List DirtyEntry)) (cs : CacheSync) (s : S) (fine : Bool)
      → Left k
          (any_among k rest)
          ((flush_batches env type rest cs s fine).2 ≡ true)
          (Written k)
          cs
          (flush_batches env type rest cs s fine).0
  unfolding flush_batches any_among
  flush_batches-Left k type [] cs s fine = Left-none k (fine ≡ true) (Written k) cs
  flush_batches-Left k type (es ∷ rest) cs s fine =
      Left-then k (among k es) (any_among k rest) _ _ (Written k) cs _ _
        (λ r. (and_both _ _ (flush_batches-fine type rest _ _ _ r)).1)
        (flush_batch-Left k type es cs s) (flush_batches-Left k type rest _ _ _)
