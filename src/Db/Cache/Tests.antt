-- ===== src/Db/Cache/Tests.antt =====
-- pkg/db/cache_sync.go over an empty cache and a database that takes every statement and counts the
-- arguments of its queries.
use mmo_server.Common.{
  if◌then◌else◌, ℕ, ◌+◌, ◌≡◌, ◌≢◌, refl, true, false, [], ◌∷◌, none, some, map, length, ap, Str,
  Str_discrete, ℕ_discrete, str_key, lookup, insert, erase, arith,
}
use mmo_server.Db.Cache.{
  new, EntityData, DirtyEntry, CacheSync, WriteOptions, Storage, ok, updated, new_cache_sync,
  put_dirty, entry_of, get_stored, get, format_dirty_key,
}
use mmo_server.Db.Cache.Flush.{
  flush, mark_all, new_entries, group, batches, updates, delete_ids, end_batch, is_new,
}
use mmo_server.Db.Cache.Many.{
  set, delete, get_multi, take_cached, take_dirty, take_rows, remove_missing, remove_at, index_of,
}
use mmo_server.Db.Cache.Dirty.{Reliable, among}
use mmo_server.Db.Cache.Pending.{IsValid, flush-Reliable}
use mmo_server.Db.Cache.Runs.{Later, stays, set_other, gets, flushes}

program : Unit {0}
unfolding lookup insert erase Str_discrete ℕ_discrete new_cache_sync put_dirty format_dirty_key get
    get_stored set delete get_multi take_cached take_dirty take_rows remove_missing remove_at
    index_of mark_all new_entries group batches updates delete_ids end_batch among
program = tt

abbrev row : Str → EntityData
row id = (b'i' ∷ b'd' ∷ [], id) ∷ []

abbrev counting : Storage ℕ
counting = record {
  cache_get = λ k s. none;
  cache_get_multi = λ ks s. some (map (λ k. none) ks);
  cache_set = λ k x s. (s, true);
  cache_set_multi = λ m s. (s, true);
  cache_delete = λ k s. (s, true);
  query = λ sql args s. (s + length args, some (map row args));
  exec = λ sql args s. (s, true);
}

abbrev later : WriteOptions
later = record { immediate = false; version = 1; tags = [] }

abbrev type : Str
type = b't' ∷ []

abbrev a : Str
a = b'a' ∷ []

abbrev b : Str
b = b'b' ∷ []

abbrev c : Str
c = b'c' ∷ []

abbrev hp : Str → EntityData
hp n = (b'h' ∷ b'p' ∷ [], n) ∷ []

abbrev cs0 : CacheSync
cs0 = new_cache_sync (record { batch_size = 2; max_dirty_size = 10 })

abbrev entry : Str → Str → DirtyEntry
entry id n = entry_of type id (updated (hp n)) later

abbrev cs1 : CacheSync
cs1 = put_dirty (put_dirty (put_dirty cs0 (entry a (1 ∷ []))) (entry b (2 ∷ []))) (entry c (3 ∷ []))

-- Three entities wait to be written, and none is cached. The range over `missingIDs` takes the
-- first and the last of them and misses the second, which is asked of the database.
second_queried :
    ((get_multi counting cs1 type (a ∷ b ∷ c ∷ []) 0).1 ≡ 1)
    × (lookup b (get_multi counting cs1 type (a ∷ b ∷ c ∷ []) 0).3 ≡ some (row b))
unfolding program
second_queried = (refl, refl)

cs1-IsValid : IsValid cs1
unfolding program
cs1-IsValid = record {
  keys_map = (refl, (refl, (refl, tt)));
  keyed = (refl, (refl, (refl, tt)));
  size_pos = omega arith;
}

a_found : lookup (format_dirty_key type a) cs1.dirty_entries ≡ some (entry a (1 ∷ []))
unfolding program
a_found = refl

counting-Reliable : Reliable counting
counting-Reliable sql args s = refl

flush-Reliable_example :
    lookup (format_dirty_key type a) (flush counting cs1 0).0.dirty_entries
    ≡ (if is_new new then none else some (entry a (1 ∷ [])))
flush-Reliable_example =
    flush-Reliable counting cs1 0 (format_dirty_key type a) (entry a (1 ∷ [])) cs1-IsValid
      counting-Reliable a_found

-- The entry that `Set` has put since is taken away with the batch of the one before.
update_lost :
    lookup
      (format_dirty_key type a)
      (end_batch (entry a (1 ∷ []) ∷ []) (put_dirty cs1 (entry a (9 ∷ [])))).dirty_entries
    ≡ none
unfolding program
update_lost = refl

abbrev set_a : CacheSync
set_a = (set counting cs1 type a (hp (9 ∷ [])) later 0).0

abbrev set_b : CacheSync
set_b = (set counting (get counting set_a type c 1).0 type b (hp (8 ∷ [])) later 2).0

abbrev third : Str → ℕ
third (x ∷ y ∷ z ∷ s) = z
third s = 0

b-other : format_dirty_key type b ≢ format_dirty_key type a
unfolding program
b-other e = let apart : ◌≡◌ {A = ℕ} 98 97 = ap third e in omega arith

-- Another entity is read, one is set and all are flushed.
run : Later counting type a set_a (flush counting set_b 3).0
run = flushes (set_other (gets stays type c 1) type b (hp (8 ∷ [])) later 2 b-other) 3

deleted_row_found : (get counting (delete counting cs1 type a later 0).0 type a 5).2 ≡ ok (row a)
unfolding program
deleted_row_found = refl
