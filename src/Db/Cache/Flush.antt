-- ===== src/Db/Cache/Flush.antt =====
-- pkg/db/cache_sync.go: `Flush`, the batches that it writes, and the statements that it sends. The
-- range over a map is over the association list in its order. The batch size is positive.
use mmo_server.Common.{
  ℕ, zero, suc, ◌+◌, ◌-◌, ◌/◌, Bool, true, false, ◌&&◌, List, [], ◌∷◌, ◌++◌, map, ite, length, take,
  drop, or_empty, if◌then◌else◌, Str, Str_discrete, Dict, str_key, lookup, insert, erase,
}
use mmo_server.Common.Literals.{utf8, join}
use mmo_server.Common.Decimal.{decimal}
use mmo_server.Db.Cache.{
  EntityData, DirtyStatus, new, pending, flushing, Content, updated, deleted, DirtyEntry, CacheSync,
  CacheSyncStats, Storage, format_dirty_key, placeholders, delete_one, delete_many,
}

-- The fields of an update, less the ID.
unfoldable pub written_fields : EntityData → EntityData
written_fields [] = []
written_fields ((field, value) ∷ x) =
    ite (Str_discrete field (utf8 "id")) (written_fields x) ((field, value) ∷ written_fields x)

unfoldable pub update_sql : Str → EntityData → Str
unfolding placeholders decimal
update_sql type x =
    let fields = map (λ f. f.0) x in
    utf8 "UPDATE "
    ++ type
    ++ utf8 " SET "
    ++ join (utf8 ", ") fields
    ++ utf8 " = "
    ++ join (utf8 ", ") (placeholders 1 fields)
    ++ utf8 " WHERE id = $"
    ++ decimal (length fields + 1)

abbrev pub update_args : EntityData → Str → List Str
update_args x id = map (λ f. f.1) x ++ (id ∷ [])

abbrev pub is_new : DirtyStatus → Bool
is_new new = true
is_new pending = false
is_new flushing = false

abbrev pub mark_pending : DirtyEntry → DirtyEntry
mark_pending e = if is_new e.status then record e { status = pending } else e

-- The first part of `Flush`, under the lock: the new entries become pending.
unfoldable pub mark_all : Dict Str DirtyEntry → Dict Str DirtyEntry
mark_all [] = []
mark_all ((key, e) ∷ m) = (key, mark_pending e) ∷ mark_all m

unfoldable pub new_entries : Dict Str DirtyEntry → List DirtyEntry
new_entries [] = []
new_entries ((key, e) ∷ m) =
    let rest = new_entries m in if is_new e.status then mark_pending e ∷ rest else rest

abbrev pub begin_flush : CacheSync → CacheSync
begin_flush cs = record cs { dirty_entries = mark_all cs.dirty_entries }

unfoldable pub group : List DirtyEntry → Dict Str (List DirtyEntry) → Dict Str (List DirtyEntry)
group [] m = m
group (e ∷ es) m = group es (insert e.entity_type (or_empty (lookup e.entity_type m) ++ (e ∷ [])) m)

-- `entries[start:end]` for so many batches.
unfoldable pub batches : ℕ → ℕ → List DirtyEntry → List (List DirtyEntry)
batches zero size es = []
batches (suc count) size es = take size es ∷ batches count size (drop size es)

abbrev pub batch_count : ℕ → ℕ → ℕ
batch_count n size = (n + size - 1) / size

unfoldable pub updates : List DirtyEntry → Dict Str EntityData
updates [] = []
updates (e ∷ es) = elim e.content [
  | updated x ↦ (e.entity_id, x) ∷ updates es
  | deleted ↦ updates es
]

unfoldable pub delete_ids : List DirtyEntry → List Str
delete_ids [] = []
delete_ids (e ∷ es) = elim e.content [
  | updated x ↦ delete_ids es
  | deleted ↦ e.entity_id ∷ delete_ids es
]

-- Under the lock again: the entries of a batch that is written go, by their keys.
unfoldable pub end_batch : List DirtyEntry → CacheSync → CacheSync
unfolding format_dirty_key
end_batch [] cs = cs
end_batch (e ∷ es) cs = end_batch es (record cs {
  dirty_entries = erase (format_dirty_key e.entity_type e.entity_id) cs.dirty_entries;
})

module _ {S : Type 0} (env : Storage S) where
  -- `flushEntities`, which stops at the first update that fails.
  unfoldable pub flush_entities : Str → Dict Str EntityData → S → S × Bool
  unfolding written_fields update_sql
  flush_entities type [] s = (s, true)
  flush_entities type ((id, x) ∷ m) s =
      let fields = written_fields x in
      let (s', fine) = env.exec (update_sql type fields) (update_args fields id) s in
      let rest = flush_entities type m s' in if fine then rest else (s', false)

  unfoldable pub execute_delete : Str → Str → S → S × Bool
  unfolding delete_one
  execute_delete type id s = env.exec (delete_one type) (id ∷ []) s

  unfoldable pub execute_delete_multi : Str → List Str → S → S × Bool
  unfolding delete_many
  execute_delete_multi type [] s = (s, true)
  execute_delete_multi type (id ∷ ids) s = env.exec (delete_many type (id ∷ ids)) (id ∷ ids) s

  -- `flushEntry` of an update; a deletion has a call of its own.
  abbrev pub flush_entry : Str → Str → Content → S → S × Bool
  flush_entry type id deleted s = execute_delete type id s
  flush_entry type id (updated x) s = flush_entities type ((id, x) ∷ []) s

  abbrev then_delete : Str → List Str → S × Bool → S × Bool
  then_delete type ids (s, fine) = if fine then execute_delete_multi type ids s else (s, false)

  -- What `flushBatch` sends to the database.
  unfoldable pub write_batch : Str → List DirtyEntry → S → S × Bool
  unfolding flush_entities execute_delete_multi updates delete_ids
  write_batch type es s = then_delete type (delete_ids es) (flush_entities type (updates es) s)

  abbrev pub after_write : List DirtyEntry → CacheSync → S × Bool → CacheSync × S × Bool
  after_write es cs (s, fine) = (if fine then end_batch es cs else cs, s, fine)

  unfoldable pub flush_batch : Str → List DirtyEntry → CacheSync → S → CacheSync × S × Bool
  unfolding write_batch end_batch
  flush_batch type es cs s = after_write es cs (write_batch type es s)

  -- The batches of a type, each whatever came of the one before.
  unfoldable pub flush_batches :
      Str → List (List DirtyEntry) → CacheSync → S → Bool → CacheSync × S × Bool
  unfolding flush_batch
  flush_batches type [] cs s fine = (cs, s, fine)
  flush_batches type (es ∷ rest) cs s fine =
      let (cs', s', written) = flush_batch type es cs s in
      flush_batches type rest cs' s' (fine && written)

  unfoldable pub flush_types :
      Dict Str (List DirtyEntry) → CacheSync → S → Bool → CacheSync × S × Bool
  unfolding flush_batches batches
  flush_types [] cs s fine = (cs, s, fine)
  flush_types ((type, es) ∷ m) cs s fine =
      let size = cs.config.batch_size in
      let (cs', s', written) =
        flush_batches type (batches (batch_count (length es) size) size es) cs s true in
      flush_types m cs' s' (fine && written)

  abbrev pub count_flush : ℕ → CacheSync × S × Bool → CacheSync × S × Bool
  count_flush n (cs, s, fine) = (
    record cs {
      stats = record cs.stats {
        flush_count = cs.stats.flush_count + 1;
        flushed_entries = cs.stats.flushed_entries + n;
      };
    },
    s,
    fine,
  )

  abbrev pub flush_entries : List DirtyEntry → CacheSync → S → CacheSync × S × Bool
  flush_entries [] cs s = (cs, s, true)
  flush_entries (e ∷ es) cs s =
      count_flush (length (e ∷ es)) (flush_types (group (e ∷ es) []) cs s true)

  -- `Flush`, while nothing else changes the dirty entries; `false` is the first error.
  unfoldable pub flush : CacheSync → S → CacheSync × S × Bool
  unfolding mark_all new_entries group flush_types
  flush cs s = flush_entries (new_entries cs.dirty_entries) (begin_flush cs) s

  -- `Close`: the last flush, whose error is ignored. The loop of the ticker stops.
  unfoldable pub close : CacheSync → S → CacheSync × S
  unfolding flush
  close cs s =
      if cs.is_closed
      then (cs, s)
      else (let (cs', s', fine) = flush (record cs { is_closed = true }) s in (cs', s'))

-- `Stats`
unfoldable pub copy_stats : CacheSync → CacheSyncStats
copy_stats cs = record cs.stats { dirty_count = length cs.dirty_entries }
