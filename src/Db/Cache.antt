-- ===== src/Db/Cache.antt =====
-- pkg/db/cache_sync.go: `cacheSync`. The cache and the database are the record `Storage` over a state
-- of their own; a query or a command waits for its callback. The value of a field is opaque and
-- stands as a byte string. Times are left out, and the counters do not wrap around.
pub mod Flush
pub mod Many
pub mod Dirty
pub mod Groups
pub mod Pending
pub mod Reads
pub mod Runs
mod Tests
use mmo_server.Common.{
  ℕ, ◌+◌, Bool, true, false, List, [], ◌∷◌, ◌++◌, Option, none, some, length, leb, if◌then◌else◌,
  Str, Dict, str_key, lookup, insert,
}
use mmo_server.Common.Literals.{utf8, join}
use mmo_server.Common.Decimal.{decimal}

pub record CacheSyncConfig : Type 0 where
  pub batch_size : ℕ
  pub max_dirty_size : ℕ

unfoldable pub default_cache_sync_config : CacheSyncConfig
default_cache_sync_config = record { batch_size = 100; max_dirty_size = 1000 }

abbrev pub EntityData : Type 0
EntityData = Dict Str Str

pub data DirtyStatus : Type 0 where
  new : DirtyStatus
  pending : DirtyStatus
  flushing : DirtyStatus

-- The field `Data`: `deleted` is the nil that stands for a deletion.
pub data Content : Type 0 where
  updated : EntityData → Content
  deleted : Content

pub record DirtyEntry : Type 0 where
  pub entity_type : Str
  pub entity_id : Str
  pub content : Content
  pub status : DirtyStatus
  pub version : ℕ
  pub tags : List Str

pub record WriteOptions : Type 0 where
  pub immediate : Bool
  pub version : ℕ
  pub tags : List Str

pub record CacheSyncStats : Type 0 where
  pub cache_hits : ℕ
  pub cache_misses : ℕ
  pub dirty_count : ℕ
  pub flush_count : ℕ
  pub flushed_entries : ℕ

pub record CacheSync : Type 0 where
  pub config : CacheSyncConfig
  pub dirty_entries : Dict Str DirtyEntry
  pub stats : CacheSyncStats
  pub is_closed : Bool

-- The Redis cache by key, and the database by the text of a statement and its arguments. A read of
-- the cache gives nothing where it fails, and one of many keys as a whole may fail; a query gives its
-- rows, by column.
pub record Storage (S : Type 0) : Type 0 where
  pub cache_get : Str → S → Option EntityData
  pub cache_get_multi : List Str → S → Option (List (Option EntityData))
  pub cache_set : Str → EntityData → S → S × Bool
  pub cache_set_multi : Dict Str EntityData → S → S × Bool
  pub cache_delete : Str → S → S × Bool
  pub query : Str → List Str → S → S × Option (List EntityData)
  pub exec : Str → List Str → S → S × Bool

pub data Result {ℓ} (A : Type ℓ) : Type ℓ where
  ok : A → Result A
  cache_failed : Result A
  not_found : Result A
  failed : Result A

abbrev no_stats : CacheSyncStats
no_stats = record {
  cache_hits = 0;
  cache_misses = 0;
  dirty_count = 0;
  flush_count = 0;
  flushed_entries = 0;
}

unfoldable pub new_cache_sync : CacheSyncConfig → CacheSync
new_cache_sync config = record {
  config = config;
  dirty_entries = [];
  stats = no_stats;
  is_closed = false;
}

unfoldable pub format_cache_key : Str → Str → Str
format_cache_key type id = utf8 "entity:" ++ type ++ (b':' ∷ id)

unfoldable pub format_dirty_key : Str → Str → Str
format_dirty_key type id = type ++ (b':' ∷ id)

abbrev pub count_hit : CacheSync → CacheSync
count_hit cs = record cs { stats = record cs.stats { cache_hits = cs.stats.cache_hits + 1 } }

abbrev pub count_miss : CacheSync → CacheSync
count_miss cs = record cs { stats = record cs.stats { cache_misses = cs.stats.cache_misses + 1 } }

-- `[]string{"$1", "$2", …}` from a number on.
unfoldable pub placeholders : ℕ → List Str → List Str
unfolding decimal
placeholders i [] = []
placeholders i (x ∷ xs) = (b'$' ∷ decimal i) ∷ placeholders (i + 1) xs

unfoldable pub select_one : Str → Str
select_one type = utf8 "SELECT * FROM " ++ type ++ utf8 " WHERE id = $1"

unfoldable pub delete_one : Str → Str
delete_one type = utf8 "DELETE FROM " ++ type ++ utf8 " WHERE id = $1"

abbrev where_in : List Str → Str
where_in ids = utf8 " WHERE id IN (" ++ join (utf8 ", ") (placeholders 1 ids) ++ utf8 ")"

unfoldable pub select_many : Str → List Str → Str
unfolding placeholders
select_many type ids = utf8 "SELECT * FROM " ++ type ++ where_in ids

unfoldable pub delete_many : Str → List Str → Str
unfolding placeholders
delete_many type ids = utf8 "DELETE FROM " ++ type ++ where_in ids

abbrev pub entry_of : Str → Str → Content → WriteOptions → DirtyEntry
entry_of type id content opts = record {
  entity_type = type;
  entity_id = id;
  content = content;
  status = new;
  version = opts.version;
  tags = opts.tags;
}

-- `cs.dirtyEntries[dirtyKey] = ...`
unfoldable pub put_dirty : CacheSync → DirtyEntry → CacheSync
unfolding format_dirty_key
put_dirty cs e = record cs {
  dirty_entries = insert (format_dirty_key e.entity_type e.entity_id) e cs.dirty_entries;
}

-- Whether a `Flush` is started, in a goroutine of its own.
abbrev pub is_full : CacheSync → Bool
is_full cs = leb cs.config.max_dirty_size (length cs.dirty_entries)

module _ {S : Type 0} (env : Storage S) where
  abbrev pub fetched :
      CacheSync → Str → S × Option (List EntityData) → CacheSync × S × Result EntityData
  fetched cs key (s, none) = (cs, s, failed)
  fetched cs key (s, some []) = (cs, s, not_found)
  fetched cs key (s, some (row ∷ rows)) = (cs, (env.cache_set key row s).0, ok row)

  -- What `Get` does once neither the cache nor a dirty entry has the data.
  unfoldable pub get_stored : CacheSync → Str → Str → S → CacheSync × S × Result EntityData
  unfolding select_one format_cache_key
  get_stored cs type id s =
      fetched (count_miss cs) (format_cache_key type id) (env.query (select_one type) (id ∷ []) s)

  abbrev pub get_content : CacheSync → Str → Str → Content → S → CacheSync × S × Result EntityData
  get_content cs type id deleted s = get_stored cs type id s
  get_content cs type id (updated x) s =
      (cs, (env.cache_set (format_cache_key type id) x s).0, ok x)

  unfoldable pub get_uncached : CacheSync → Str → Str → S → CacheSync × S × Result EntityData
  unfolding get_stored format_dirty_key format_cache_key
  get_uncached cs type id s = elim (lookup (format_dirty_key type id) cs.dirty_entries) [
    | none ↦ get_stored cs type id s
    | some e ↦ get_content cs type id e.content s
  ]

  -- `Get`
  unfoldable pub get : CacheSync → Str → Str → S → CacheSync × S × Result EntityData
  unfolding get_uncached format_cache_key
  get cs type id s = elim (env.cache_get (format_cache_key type id) s) [
    | some x ↦ (count_hit cs, s, ok x)
    | none ↦ get_uncached cs type id s
  ]
