-- ===== src/Db/Cache/Many.antt =====
-- pkg/db/cache_sync.go: `Set`, `Delete` and the calls for many entities.
use mmo_server.Common.{
  ℕ, zero, suc, ◌+◌, ◌-◌, Bool, true, false, List, [], ◌∷◌, ◌++◌, map, Option, none, some, ite,
  length, take, drop, get_elem?, if◌then◌else◌, Str, Str_discrete, Dict, str_key, lookup, insert,
}
use mmo_server.Common.Literals.{utf8}
use mmo_server.Db.Cache.{
  EntityData, Content, updated, deleted, WriteOptions, CacheSync, Storage, Result, ok, cache_failed,
  failed, format_cache_key, format_dirty_key, entry_of, put_dirty, count_hit, count_miss,
  select_many,
}
use mmo_server.Db.Cache.Flush.{flush_entry, flush_entities, execute_delete_multi}

abbrev pub written : Bool → Result (Unit {0})
written b = if b then ok tt else failed

-- The loop that adds many entries.
unfoldable pub put_each : CacheSync → Str → WriteOptions → Dict Str Content → CacheSync
unfolding put_dirty
put_each cs type opts [] = cs
put_each cs type opts ((id, content) ∷ m) =
    put_each (put_dirty cs (entry_of type id content opts)) type opts m

module _ {S : Type 0} (env : Storage S) where
  abbrev now : CacheSync → S × Bool → CacheSync × S × Result (Unit {0})
  now cs (s, fine) = (cs, s, written fine)

  abbrev pub set_cached :
      CacheSync
      → Str
      → Str
      → EntityData
      → WriteOptions
      → S × Bool
      → CacheSync × S × Result (Unit {0})
  set_cached cs type id x opts (s, fine) =
      if fine
      then (if opts.immediate
          then now cs (flush_entry env type id (updated x) s)
          else (put_dirty cs (entry_of type id (updated x) opts), s, ok tt))
      else (cs, s, cache_failed)

  -- `Set`; the flush that it may start is a step of its own, see `is_full`.
  unfoldable pub set :
      CacheSync → Str → Str → EntityData → WriteOptions → S → CacheSync × S × Result (Unit {0})
  unfolding put_dirty format_cache_key
  set cs type id x opts s =
      set_cached cs type id x opts (env.cache_set (format_cache_key type id) x s)

  -- `Delete`, which ignores an error of the cache.
  unfoldable pub delete :
      CacheSync → Str → Str → WriteOptions → S → CacheSync × S × Result (Unit {0})
  unfolding put_dirty format_cache_key
  delete cs type id opts s =
      let s' = (env.cache_delete (format_cache_key type id) s).0 in
      if opts.immediate
      then now cs (flush_entry env type id deleted s')
      else (put_dirty cs (entry_of type id deleted opts), s', ok tt)

  abbrev pub as_updates : Dict Str EntityData → Dict Str Content
  as_updates m = map (λ e. (e.0, updated e.1)) m

  abbrev set_cached_multi :
      CacheSync
      → Str
      → Dict Str EntityData
      → WriteOptions
      → S × Bool
      → CacheSync × S × Result (Unit {0})
  set_cached_multi cs type m opts (s, fine) =
      if fine
      then (if opts.immediate
          then now cs (flush_entities env type m s)
          else (put_each cs type opts (as_updates m), s, ok tt))
      else (cs, s, cache_failed)

  -- `SetMulti` of at least one entity; with none it does nothing.
  unfoldable pub set_multi :
      CacheSync → Str → Dict Str EntityData → WriteOptions → S → CacheSync × S × Result (Unit {0})
  unfolding put_each format_cache_key
  set_multi cs type [] opts s = (cs, s, ok tt)
  set_multi cs type (e ∷ m) opts s =
      set_cached_multi cs type (e ∷ m) opts
        (env.cache_set_multi (map (λ d. (format_cache_key type d.0, d.1)) (e ∷ m)) s)

  unfoldable pub uncache : Str → List Str → S → S
  unfolding format_cache_key
  uncache type [] s = s
  uncache type (id ∷ ids) s = uncache type ids (env.cache_delete (format_cache_key type id) s).0

  -- `DeleteMulti`
  unfoldable pub delete_multi :
      CacheSync → Str → List Str → WriteOptions → S → CacheSync × S × Result (Unit {0})
  unfolding put_each uncache
  delete_multi cs type [] opts s = (cs, s, ok tt)
  delete_multi cs type (id ∷ ids) opts s =
      let s' = uncache type (id ∷ ids) s in
      if opts.immediate
      then now cs (execute_delete_multi env type (id ∷ ids) s')
      else (put_each cs type opts (map (λ i. (i, deleted)) (id ∷ ids)), s', ok tt)

abbrev pub Found : Type 0
Found = Dict Str EntityData

-- The loop over what the cache gives for each ID: what is found, and the IDs that are missing.
unfoldable pub take_cached :
    List Str
    → List (Option EntityData)
    → CacheSync
    → Found
    → List Str
    → CacheSync × Found × List Str
take_cached [] xs cs found missing = (cs, found, missing)
take_cached (id ∷ ids) [] cs found missing = (cs, found, missing)
take_cached (id ∷ ids) (none ∷ xs) cs found missing =
    take_cached ids xs (count_miss cs) found (missing ++ (id ∷ []))
take_cached (id ∷ ids) (some x ∷ xs) cs found missing =
    take_cached ids xs (count_hit cs) (insert id x found) missing

unfoldable pub index_of : Str → List Str → Option ℕ
index_of id [] = none
index_of id (j ∷ js) =
    ite (Str_discrete j id) (some 0) (elim (index_of id js) [ none ↦ none | some i ↦ some (suc i) ])

-- The slice `missingIDs` is the first `size` places of its array.
pub record Missing : Type 0 where
  pub array : List Str
  pub size : ℕ

-- `missingIDs = append(missingIDs[:i], missingIDs[i+1:]...)`, in place.
unfoldable pub remove_at : ℕ → Missing → Missing
remove_at i m = record {
  array = take i m.array ++ drop (i + 1) (take m.size m.array) ++ drop (m.size - 1) m.array;
  size = m.size - 1;
}

unfoldable pub remove_missing : Str → Missing → Missing
unfolding index_of remove_at
remove_missing id m = elim (index_of id (take m.size m.array)) [ none ↦ m | some i ↦ remove_at i m ]

abbrev pub dirty_data : CacheSync → Str → Str → Option EntityData
dirty_data cs type id = elim (lookup (format_dirty_key type id) cs.dirty_entries) [
  | none ↦ none
  | some e ↦ elim e.content [ deleted ↦ none | updated x ↦ some x ]
]

abbrev id_of : EntityData → Option Str
id_of row = elim (lookup (utf8 "id") row) [
  | none ↦ none
  | some [] ↦ none
  | some (x ∷ id) ↦ some (x ∷ id)
]

module _ {S : Type 0} (env : Storage S) where
  abbrev taken : Str → Str → Missing → Found → S → Option EntityData → Missing × Found × S
  taken type id m found s none = (m, found, s)
  taken type id m found s (some x) =
      (remove_missing id m, insert id x found, (env.cache_set (format_cache_key type id) x s).0)

  abbrev at_place : CacheSync → Str → Missing → Found → S → Option Str → Missing × Found × S
  at_place cs type m found s none = (m, found, s)
  at_place cs type m found s (some id) = taken type id m found s (dirty_data cs type id)

  -- The range over the slice `missingIDs` reads so many places of the array, from a place on, while
  -- the body of the loop shifts the array.
  unfoldable pub take_dirty : ℕ → ℕ → CacheSync → Str → Missing → Found → S → Missing × Found × S
  unfolding remove_missing format_dirty_key format_cache_key
  take_dirty zero i cs type m found s = (m, found, s)
  take_dirty (suc n) i cs type m found s =
      let (m', found', s') = at_place cs type m found s (get_elem? m.array i) in
      take_dirty n (i + 1) cs type m' found' s'

  -- The rows of the query that have an ID.
  unfoldable pub take_rows : Str → List EntityData → Found → S → Found × S
  unfolding format_cache_key
  take_rows type [] found s = (found, s)
  take_rows type (row ∷ rows) found s = elim (id_of row) [
    | none ↦ take_rows type rows found s
    | some id ↦
        take_rows type rows (insert id row found) (env.cache_set (format_cache_key type id) row s).0
  ]

  abbrev queried :
      CacheSync → Str → Found → S × Option (List EntityData) → CacheSync × S × Bool × Found
  queried cs type found (s, none) = (cs, s, false, found)
  queried cs type found (s, some rows) =
      let (found', s') = take_rows type rows found s in (cs, s', true, found')

  abbrev query_missing : CacheSync → Str → List Str → Found → S → CacheSync × S × Bool × Found
  query_missing cs type [] found s = (cs, s, true, found)
  query_missing cs type (id ∷ ids) found s =
      queried cs type found (env.query (select_many type (id ∷ ids)) (id ∷ ids) s)

  abbrev after_cached : Str → S → CacheSync × Found × List Str → CacheSync × S × Bool × Found
  after_cached type s (cs, found, missing) =
      let n = length missing in
      let (m, found', s') = take_dirty n 0 cs type (record { array = missing; size = n }) found s in
      query_missing cs type (take m.size m.array) found' s'

  abbrev from_cache :
      CacheSync
      → Str
      → List Str
      → S
      → Option (List (Option EntityData))
      → CacheSync × S × Bool × Found
  from_cache cs type ids s none = after_cached type s (cs, [], [])
  from_cache cs type ids s (some xs) = after_cached type s (take_cached ids xs cs [] [])

  -- `GetMulti`; `false` is an error beside what was found.
  unfoldable pub get_multi : CacheSync → Str → List Str → S → CacheSync × S × Bool × Found
  unfolding take_cached take_dirty take_rows select_many format_cache_key
  get_multi cs type [] s = (cs, s, true, [])
  get_multi cs type (id ∷ ids) s =
      from_cache cs type (id ∷ ids) s
        (env.cache_get_multi (map (format_cache_key type) (id ∷ ids)) s)
