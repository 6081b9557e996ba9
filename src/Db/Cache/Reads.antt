-- ===== src/Db/Cache/Reads.antt =====
-- What `Get` of pkg/db/cache_sync.go gives after `Set` and `Delete`.
use mmo_server.Common.{
  ◌≡◌, refl, ap, ◌∙◌, false, List, [], ◌∷◌, Option, none, some, Str, str_key, lookup,
  lookup-insert_self,
}
use mmo_server.Db.Cache.{
  EntityData, Content, DirtyEntry, deleted, WriteOptions, CacheSync, Storage, format_cache_key,
  format_dirty_key, put_dirty, entry_of, fetched, select_one, get_stored, get_content, get_uncached,
  get,
}
use mmo_server.Db.Cache.Many.{delete}

module _ {S : Type 0} (env : Storage S) where
  get_uncached-dirty :
      (cs : CacheSync) (type id : Str) (s : S) (e : DirtyEntry)
      → lookup (format_dirty_key type id) cs.dirty_entries ≡ some e
      → get_uncached env cs type id s ≡ get_content env cs type id e.content s
  unfolding get_uncached
  get_uncached-dirty cs type id s e h = rw (h, get_uncached) refl

  get-missed :
      (cs : CacheSync) (type id : Str) (s : S)
      → env.cache_get (format_cache_key type id) s ≡ none
      → get env cs type id s ≡ get_uncached env cs type id s
  unfolding get
  get-missed cs type id s h = rw (h, get) refl

  get-put_dirty :
      (cs : CacheSync) (type id : Str) (c : Content) (opts : WriteOptions) (s : S)
      → env.cache_get (format_cache_key type id) s ≡ none
      → get env (put_dirty cs (entry_of type id c opts)) type id s
        ≡ get_content env (put_dirty cs (entry_of type id c opts)) type id c s
  unfolding put_dirty
  get-put_dirty cs type id c opts s h =
      get-missed _ type id s h
      ∙ get_uncached-dirty (put_dirty cs (entry_of type id c opts)) type id s
          (entry_of type id c opts)
          (lookup-insert_self (format_dirty_key type id) (entry_of type id c opts) cs.dirty_entries)

  fetched-result :
      (q : S × Option (List EntityData)) (cs cs' : CacheSync) (key : Str)
      → (fetched env cs key q).2 ≡ (fetched env cs' key q).2
  fetched-result (s, none) cs cs' key = refl
  fetched-result (s, some []) cs cs' key = refl
  fetched-result (s, some (row ∷ rows)) cs cs' key = refl

  delete-later :
      (cs : CacheSync) (type id : Str) (opts : WriteOptions) (s : S)
      → opts.immediate ≡ false
      → (delete env cs type id opts s).0 ≡ put_dirty cs (entry_of type id deleted opts)
  unfolding delete
  delete-later cs type id opts s h = rw h refl

  -- After a `Delete` that was not immediate, a `Get` that the cache does not answer asks the database
  -- and gives what it has, a row that still waits for its deletion too, which it caches again.
  pub get-delete :
      (cs : CacheSync) (type id : Str) (opts : WriteOptions) (s s' : S)
      → opts.immediate ≡ false
      → env.cache_get (format_cache_key type id) s' ≡ none
      → (get env (delete env cs type id opts s).0 type id s').2 ≡ (get_stored env cs type id s').2
  unfolding get_stored
  get-delete cs type id opts s s' h e =
      ap (λ c. (get env c type id s').2) (delete-later cs type id opts s h)
      ∙ ap (λ r. r.2) (get-put_dirty cs type id deleted opts s' e)
      ∙ fetched-result (env.query (select_one type) (id ∷ []) s') _ _ (format_cache_key type id)
