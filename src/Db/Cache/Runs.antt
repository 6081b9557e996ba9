-- ===== src/Db/Cache/Runs.antt =====
-- What becomes of a dirty entry of pkg/db/cache_sync.go while other calls are made and while the
-- entries are flushed.
use mmo_server.Common.{
  ◌<◌, ◌≡◌, ◌≢◌, ◌⊎◌, inl, inr, refl, ap, ◌∙◌, Bool, true, false, List, [], ◌∷◌, Option, none, some,
  if_neg, Bool-cases, Option-cases, Str, Str_discrete, str_key, lookup, lookup-insert, arith,
}
use mmo_server.Db.Cache.{
  EntityData, Content, DirtyEntry, updated, deleted, WriteOptions, CacheSync, Storage,
  format_cache_key, format_dirty_key, put_dirty, entry_of, fetched, select_one, get_stored,
  get_content, get_uncached, get,
}
use mmo_server.Db.Cache.Flush.{flush, mark_pending}
use mmo_server.Db.Cache.Many.{set, delete, set_cached}
use mmo_server.Db.Cache.Dirty.{Written}
use mmo_server.Db.Cache.Pending.{marked, flush-falls, config-flush}

-- Two states that differ in their counters at most.
abbrev SameEntries : CacheSync → CacheSync → Type 0
SameEntries cs cs' = (cs'.dirty_entries ≡ cs.dirty_entries) × (cs'.config ≡ cs.config)

module _ {S : Type 0} (env : Storage S) where
  -- Calls for other entities, reads of any and flushes, whatever the cache and the database hold and
  -- answer at each of them.
  pub data Later (type id : Str) (start : CacheSync) : CacheSync → Type 0 where
    stays : Later type id start start
    set_other :
        {cs : CacheSync}
        → Later type id start cs
        → (type' id' : Str) (x : EntityData) (opts : WriteOptions) (s : S)
        → format_dirty_key type' id' ≢ format_dirty_key type id
        → Later type id start (set env cs type' id' x opts s).0
    delete_other :
        {cs : CacheSync}
        → Later type id start cs
        → (type' id' : Str) (opts : WriteOptions) (s : S)
        → format_dirty_key type' id' ≢ format_dirty_key type id
        → Later type id start (delete env cs type' id' opts s).0
    gets :
        {cs : CacheSync}
        → Later type id start cs
        → (type' id' : Str) (s : S) → Later type id start (get env cs type' id' s).0
    flushes :
        {cs : CacheSync} → Later type id start cs → (s : S) → Later type id start (flush env cs s).0

  -- The entry waits with the content, or it has been written.
  pub data Kept (k : Str) (c : Content) (cs : CacheSync) : Type 0 where
    waiting : (e : DirtyEntry) → lookup k cs.dirty_entries ≡ some e → e.content ≡ c → Kept k c cs
    flushed : lookup k cs.dirty_entries ≡ none → Written env k → Kept k c cs

  Kept-same :
      (k : Str) (c : Content) (cs cs' : CacheSync)
      → lookup k cs'.dirty_entries ≡ lookup k cs.dirty_entries
      → Kept k c cs
      → Kept k c cs'
  Kept-same k c cs cs' q (waiting e h d) = waiting e (q ∙ h) d
  Kept-same k c cs cs' q (flushed h w) = flushed (q ∙ h) w

  fetched-SameEntries :
      (q : S × Option (List EntityData)) (cs : CacheSync) (key : Str)
      → SameEntries cs (fetched env cs key q).0
  fetched-SameEntries (s, none) cs key = (refl, refl)
  fetched-SameEntries (s, some []) cs key = (refl, refl)
  fetched-SameEntries (s, some (row ∷ rows)) cs key = (refl, refl)

  get_stored-SameEntries :
      (cs : CacheSync) (type id : Str) (s : S) → SameEntries cs (get_stored env cs type id s).0
  unfolding get_stored
  get_stored-SameEntries cs type id s =
      fetched-SameEntries (env.query (select_one type) (id ∷ []) s) _ (format_cache_key type id)

  get_content-SameEntries :
      (cs : CacheSync) (type id : Str) (c : Content) (s : S)
      → SameEntries cs (get_content env cs type id c s).0
  get_content-SameEntries cs type id deleted s = get_stored-SameEntries cs type id s
  get_content-SameEntries cs type id (updated x) s = (refl, refl)

  get_uncached-SameEntries :
      (cs : CacheSync) (type id : Str) (s : S) → SameEntries cs (get_uncached env cs type id s).0
  unfolding get_uncached
  get_uncached-SameEntries cs type id s =
      elim (Option-cases (lookup (format_dirty_key type id) cs.dirty_entries)) [
        | inl n ↦ rw (n, get_uncached) (get_stored-SameEntries cs type id s)
        | inr (e, h) ↦ rw (h, get_uncached) (get_content-SameEntries cs type id e.content s)
      ]

  get-SameEntries :
      (cs : CacheSync) (type id : Str) (s : S) → SameEntries cs (get env cs type id s).0
  unfolding get
  get-SameEntries cs type id s = elim (Option-cases (env.cache_get (format_cache_key type id) s)) [
    | inl n ↦ rw (n, get) (get_uncached-SameEntries cs type id s)
    | inr (x, h) ↦ rw (h, get) (refl, refl)
  ]

  content-mark_pending : (e : DirtyEntry) → (mark_pending e).content ≡ e.content
  content-mark_pending e = ground arith

  -- A call that adds an entry or changes nothing.
  unfoldable Puts : CacheSync → DirtyEntry → CacheSync → Type 0
  Puts cs e cs' = (cs' ≡ cs) ⊎ (cs' ≡ put_dirty cs e)

  set_cached-Puts :
      (cs : CacheSync) (type id : Str) (x : EntityData) (opts : WriteOptions) (r : S × Bool)
      → Puts cs (entry_of type id (updated x) opts) (set_cached env cs type id x opts r).0
  unfolding Puts
  set_cached-Puts cs type id x opts (s, false) = inl refl
  set_cached-Puts cs type id x opts (s, true) = elim (Bool-cases opts.immediate) [
    | inl e ↦ inl (rw e refl)
    | inr e ↦ inr (rw e refl)
  ]

  set-Puts :
      (cs : CacheSync) (type id : Str) (x : EntityData) (opts : WriteOptions) (s : S)
      → Puts cs (entry_of type id (updated x) opts) (set env cs type id x opts s).0
  unfolding set
  set-Puts cs type id x opts s =
      set_cached-Puts cs type id x opts (env.cache_set (format_cache_key type id) x s)

  delete-Puts :
      (cs : CacheSync) (type id : Str) (opts : WriteOptions) (s : S)
      → Puts cs (entry_of type id deleted opts) (delete env cs type id opts s).0
  unfolding delete Puts
  delete-Puts cs type id opts s = elim (Bool-cases opts.immediate) [
    | inl e ↦ inl (rw e refl)
    | inr e ↦ inr (rw e refl)
  ]

  -- What is kept of the entry, with batches that are not empty.
  abbrev pub Holds : Str → Content → CacheSync → Type 0
  Holds k c cs = (0 < cs.config.batch_size) × Kept k c cs

  Puts-Holds :
      (k : Str) (c : Content) (cs cs' : CacheSync) (e : DirtyEntry)
      → format_dirty_key e.entity_type e.entity_id ≢ k
      → Puts cs e cs'
      → Holds k c cs
      → Holds k c cs'
  unfolding Puts put_dirty
  Puts-Holds k c cs cs' e n (inl q) v = rw q v
  Puts-Holds k c cs cs' e n (inr q) (pos, h) =
      let key = format_dirty_key e.entity_type e.entity_id in
      let same : lookup k (put_dirty cs e).dirty_entries ≡ lookup k cs.dirty_entries =
        lookup-insert key k e cs.dirty_entries ∙ if_neg (Str_discrete key k) n _ _ in
      (rw q pos, Kept-same k c cs cs' (ap (λ d. lookup k d.dirty_entries) q ∙ same) h)

  flush-Holds :
      (k : Str) (c : Content) (cs : CacheSync) (s : S) → Holds k c cs → Holds k c (flush env cs s).0
  flush-Holds k c cs s (pos, h) = (
    rw (config-flush env cs s pos) pos,
    elim (flush-falls env cs s k pos) [ inl (gone, w) ↦ flushed gone w | inr q ↦ still q h ],
  )
    where
      still :
          lookup k (flush env cs s).0.dirty_entries ≡ marked (lookup k cs.dirty_entries)
          → Kept k c cs
          → Kept k c (flush env cs s).0
      still q (waiting e l d) =
          waiting (mark_pending e) (q ∙ ap marked l) (content-mark_pending e ∙ d)
      still q (flushed l w) = flushed (q ∙ ap marked l) w

  pub Later-Holds :
      (type id : Str) (c : Content) (start cs : CacheSync)
      → Holds (format_dirty_key type id) c start
      → Later type id start cs
      → Holds (format_dirty_key type id) c cs
  Later-Holds type id c start cs v stays = v
  Later-Holds type id c start cs v (set_other {cs = d} r type' id' x opts s n) =
      Puts-Holds (format_dirty_key type id) c d _ (entry_of type' id' (updated x) opts) n
        (set-Puts d type' id' x opts s) (Later-Holds type id c start d v r)
  Later-Holds type id c start cs v (delete_other {cs = d} r type' id' opts s n) =
      Puts-Holds (format_dirty_key type id) c d _ (entry_of type' id' deleted opts) n
        (delete-Puts d type' id' opts s) (Later-Holds type id c start d v r)
  Later-Holds type id c start cs v (gets {cs = d} r type' id' s) =
      let (entries, config) = get-SameEntries d type' id' s in
      let (pos, h) = Later-Holds type id c start d v r in
      (
        rw config pos,
        Kept-same (format_dirty_key type id) c d _ (ap (lookup (format_dirty_key type id)) entries)
            h,
      )
  Later-Holds type id c start cs v (flushes {cs = d} r s) =
      flush-Holds (format_dirty_key type id) c d s (Later-Holds type id c start d v r)
