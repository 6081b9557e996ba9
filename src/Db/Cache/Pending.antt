-- ===== src/Db/Cache/Pending.antt =====
-- `Flush` of pkg/db/cache_sync.go as a whole.

use mmo_server.Common.{
  ◌<◌, ◌≡◌, ◌≢◌, ◌⊎◌, inl, inr, refl, sym, ap, subst, ◌∙◌, Bool, false, [], ◌∷◌, Option, none, some,
  if◌then◌else◌, Bool-cases, Str, Str_discrete, Dict, str_key, lookup, IsMap, arith,
}
use mmo_server.Db.Cache.{DirtyEntry, CacheSync, Storage}
use mmo_server.Db.Cache.Flush.{is_new, mark_pending, mark_all, new_entries, begin_flush, flush}
use mmo_server.Db.Cache.Dirty.{key_of, among, Reliable, Written}
use mmo_server.Db.Cache.Groups.{flush_entries-Left, flush_entries-Reliable}

-- Every entry is stored under its key.
abbrev pub Keyed : Dict Str DirtyEntry → Type 0
Keyed [] = Unit {0}
Keyed ((key, e) ∷ m) = (key_of e ≡ key) × Keyed m

-- No key twice, every entry under its own, and batches of a positive size.
pub record IsValid (cs : CacheSync) : Type 0 where
  pub keys_map : IsMap cs.dirty_entries
  pub keyed : Keyed cs.dirty_entries
  pub size_pos : 0 < cs.config.batch_size

abbrev pub marked : Option DirtyEntry → Option DirtyEntry
marked none = none
marked (some e) = some (mark_pending e)

lookup-mark_all : (k : Str) (m : Dict Str DirtyEntry) → lookup k (mark_all m) ≡ marked (lookup k m)
unfolding lookup mark_all
lookup-mark_all k [] = refl
lookup-mark_all k ((key, e) ∷ m) = elim (Str_discrete key k) [
  | yes p ↦ ground arith
  | no p ↦ ground (arith, lookup-mark_all k m)
]

abbrev was_new : Option DirtyEntry → Bool
was_new none = false
was_new (some e) = is_new e.status

among-new_entries :
    (k : Str) (m : Dict Str DirtyEntry)
    → IsMap m
    → Keyed m
    → among k (new_entries m) ≡ was_new (lookup k m)
unfolding among lookup new_entries
among-new_entries k [] d h = refl
among-new_entries k ((key, e) ∷ m) d h = elim (Bool-cases (is_new e.status)) [
  | inl n ↦ rw n (elim (Str_discrete key k) [
    | yes p ↦ let same : key_of e ≡ k = h.0 ∙ p in ground (arith, same)
    | no p ↦
        let other : key_of e ≢ k = λ q. p (sym h.0 ∙ q) in
        ground (arith, other, among-new_entries k m d.1 h.1)
  ])
  | inr n ↦ rw n (elim (Str_discrete key k) [
    | yes p ↦
        let gone : lookup k m ≡ none = subst (λ x. lookup x m ≡ none) p d.0 in
        ground (arith, gone, among-new_entries k m d.1 h.1)
    | no p ↦ ground (arith, among-new_entries k m d.1 h.1)
  ])
]

-- Under any key a `Flush` leaves what was there, marked as pending, or it takes it away with a batch
-- that the database took.
pub flush-falls :
    {S : Type 0} (env : Storage S) (cs : CacheSync) (s : S) (k : Str)
    → 0 < cs.config.batch_size
    → ((lookup k (flush env cs s).0.dirty_entries ≡ none) × Written env k)
      ⊎ (lookup k (flush env cs s).0.dirty_entries ≡ marked (lookup k cs.dirty_entries))
unfolding flush
flush-falls env cs s k h =
    let all = flush_entries-Left env k (new_entries cs.dirty_entries) (begin_flush cs) s h in
    elim all.falls [ inl n ↦ inl n | inr q ↦ inr (q ∙ lookup-mark_all k cs.dirty_entries) ]

pub config-flush :
    {S : Type 0} (env : Storage S) (cs : CacheSync) (s : S)
    → 0 < cs.config.batch_size
    → (flush env cs s).0.config ≡ cs.config
unfolding flush
config-flush env cs s h =
    (flush_entries-Left env [] (new_entries cs.dirty_entries) (begin_flush cs) s h).config

-- On valid dirty entries and with a database that takes every statement, a `Flush` takes away the new
-- entries and leaves those that were pending.
pub flush-Reliable :
    {S : Type 0} (env : Storage S) (cs : CacheSync) (s : S) (k : Str) (e : DirtyEntry)
    → IsValid cs
    → Reliable env
    → lookup k cs.dirty_entries ≡ some e
    → lookup k (flush env cs s).0.dirty_entries ≡ (if is_new e.status then none else some e)
unfolding flush
flush-Reliable env cs s k e v r h =
    let all =
      flush_entries-Left env k (new_entries cs.dirty_entries) (begin_flush cs) s v.size_pos in
    let start = lookup-mark_all k cs.dirty_entries ∙ ap marked h in
    let which = among-new_entries k cs.dirty_entries v.keys_map v.keyed ∙ ap was_new h in
    elim (Bool-cases (is_new e.status)) [
      | inr o ↦ all.alone (which ∙ o) ∙ start ∙ rw o refl
      | inl o ↦
          all.gone (flush_entries-Reliable env r (new_entries cs.dirty_entries) (begin_flush cs) s)
            (which ∙ o)
          ∙ rw o refl
    ]
