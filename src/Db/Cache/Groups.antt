-- ===== src/Db/Cache/Groups.antt =====
-- The groups and batches of `Flush` in pkg/db/cache_sync.go cover the new entries.
use native.Mathlib.Nat.{lt-mul-div-succ}
use mmo_server.Common.{
  ℕ, zero, suc, ◌+◌, ◌-◌, ◌*◌, ◌≤◌, ◌<◌, ◌≡◌, refl, ap, subst, ◌∙◌, Bool, true, false, ◌||◌, List,
  [], ◌∷◌, ◌++◌, Option, none, some, if_pos, if_neg, length, length-drop, take, drop, or_empty, Str,
  Str_discrete, Dict, str_key, lookup, insert, arith,
}
use mmo_server.Db.Cache.{DirtyEntry, CacheSync, Storage}
use mmo_server.Db.Cache.Flush.{
  group, batches, batch_count, flush_batches, flush_types, flush_entries,
}
use mmo_server.Db.Cache.Dirty.{
  among, any_among, Left, Left-none, Left-then, Reliable, Written, flush_batches-Left,
  flush_batches-Reliable, and_both, and_true,
}

among-append : (k : Str) (xs ys : List DirtyEntry) → among k (xs ++ ys) ≡ (among k xs || among k ys)
unfolding among
among-append k [] ys = refl
among-append k (x ∷ xs) ys = ground (arith, among-append k xs ys)

among-take-drop :
    (k : Str) (n : ℕ) (es : List DirtyEntry)
    → (among k (take n es) || among k (drop n es)) ≡ among k es
unfolding among
among-take-drop k zero es = refl
among-take-drop k (suc n) [] = refl
among-take-drop k (suc n) (e ∷ es) = ground (arith, among-take-drop k n es)

any_among-batches :
    (k : Str) (count size : ℕ) (es : List DirtyEntry)
    → length es ≤ count * size
    → any_among k (batches count size es) ≡ among k es
unfolding any_among batches
any_among-batches k zero size [] h = unfold among in refl
any_among-batches k zero size (e ∷ es) h = absurd (omega arith)
any_among-batches k (suc count) size es h =
    ap (λ b. among k (take size es) || b)
      (any_among-batches k count size (drop size es) (grind (arith, length-drop size es)))
    ∙ among-take-drop k size es

enough_batches : (n size : ℕ) → 0 < size → n ≤ batch_count n size * size
enough_batches n size h = let big = lt-mul-div-succ (n + size - 1) h in grind (arith, big)

-- Whether one of the entries of the groups has the key.
unfoldable any_group : Str → Dict Str (List DirtyEntry) → Bool
any_group k [] = false
any_group k ((type, es) ∷ m) = among k es || any_group k m

any_group-insert :
    (k : Str) (e : DirtyEntry) (o : Option (List DirtyEntry)) (m : Dict Str (List DirtyEntry))
    → lookup e.entity_type m ≡ o
    → any_group k (insert e.entity_type (or_empty o ++ (e ∷ [])) m)
      ≡ (among k (e ∷ []) || any_group k m)
unfolding any_group insert lookup among
any_group-insert k e none [] q = ground arith
any_group-insert k e (some es) [] q = absurd (cc)
any_group-insert k e o ((type, es) ∷ m) q = elim (Str_discrete type e.entity_type) [
  | yes p ↦
      let here : some es ≡ o = rw (if_pos (Str_discrete type e.entity_type) p) at q in
      subst
        (λ o'.
          any_group k (insert e.entity_type (or_empty o' ++ (e ∷ [])) ((type, es) ∷ m))
          ≡ (among k (e ∷ []) || any_group k ((type, es) ∷ m)))
        here
        (rw (if_pos (Str_discrete type e.entity_type) p)
          (ground (arith, among-append k es (e ∷ []))))
  | no p ↦
      let later : lookup e.entity_type m ≡ o =
        rw (if_neg (Str_discrete type e.entity_type) p) at q in
      rw (if_neg (Str_discrete type e.entity_type) p)
        (ground (arith, any_group-insert k e o m later))
]

any_group_lem :
    (k : Str) (es : List DirtyEntry) (m : Dict Str (List DirtyEntry))
    → any_group k (group es m) ≡ (among k es || any_group k m)
unfolding group
any_group_lem k [] m = unfold among in refl
any_group_lem k (e ∷ es) m =
    any_group_lem k es _
    ∙ ap (λ b. among k es || b) (any_group-insert k e (lookup e.entity_type m) m refl)
    ∙ unfold among in ground arith

module _ {S : Type 0} (env : Storage S) where
  flush_types-fine :
      (m : Dict Str (List DirtyEntry)) (cs : CacheSync) (s : S) (fine : Bool)
      → (flush_types env m cs s fine).2 ≡ true
      → fine ≡ true
  unfolding flush_types
  flush_types-fine [] cs s fine h = h
  flush_types-fine ((type, es) ∷ m) cs s fine h = (and_both _ _ (flush_types-fine m _ _ _ h)).0

  flush_types-Reliable :
      Reliable env
      → (m : Dict Str (List DirtyEntry)) (cs : CacheSync) (s : S) (fine : Bool) → fine ≡ true
      → (flush_types env m cs s fine).2 ≡ true
  unfolding flush_types
  flush_types-Reliable r [] cs s fine h = h
  flush_types-Reliable r ((type, es) ∷ m) cs s fine h =
      let size = cs.config.batch_size in
      let rest = batches (batch_count (length es) size) size es in
      flush_types-Reliable r m _ _ _
        (and_true _ _ h (flush_batches-Reliable env r type rest cs s true refl))

  pub flush_entries-Reliable :
      Reliable env
      → (es : List DirtyEntry) (cs : CacheSync) (s : S) → (flush_entries env es cs s).2 ≡ true
  flush_entries-Reliable r [] cs s = refl
  flush_entries-Reliable r (e ∷ es) cs s = flush_types-Reliable r (group (e ∷ es) []) cs s true refl

  flush_types-Left :
      (k : Str) (m : Dict Str (List DirtyEntry)) (cs : CacheSync) (s : S) (fine : Bool)
      → 0 < cs.config.batch_size
      → Left k
          (any_group k m)
          ((flush_types env m cs s fine).2 ≡ true)
          (Written env k)
          cs
          (flush_types env m cs s fine).0
  unfolding flush_types any_group
  flush_types-Left k [] cs s fine h = Left-none k (fine ≡ true) (Written env k) cs
  flush_types-Left k ((type, es) ∷ m) cs s fine h =
      let size = cs.config.batch_size in
      let rest = batches (batch_count (length es) size) size es in
      let one = flush_batches-Left env k type rest cs s true in
      let whole =
        any_among-batches k (batch_count (length es) size) size es
          (enough_batches (length es) size h) in
      Left-then k (among k es) (any_group k m) _ _ (Written env k) cs _ _
        (λ r. (and_both _ _ (flush_types-fine m _ _ _ r)).1)
        (subst
          (λ b.
            Left k b ((flush_batches env type rest cs s true).2 ≡ true) (Written env k) cs
              (flush_batches env type rest cs s true).0)
          whole one)
        (flush_types-Left k m _ _ _ (rw one.config h))

  pub flush_entries-Left :
      (k : Str) (es : List DirtyEntry) (cs : CacheSync) (s : S)
      → 0 < cs.config.batch_size
      → Left k
          (among k es)
          ((flush_entries env es cs s).2 ≡ true)
          (Written env k)
          cs
          (flush_entries env es cs s).0
  flush_entries-Left k [] cs s h =
      unfold among in Left-none k (◌≡◌ {A = Bool} true true) (Written env k) cs
  flush_entries-Left k (e ∷ es) cs s h =
      let all = flush_types-Left k (group (e ∷ es) []) cs s true h in
      let covered : any_group k (group (e ∷ es) []) ≡ among k (e ∷ es) =
        any_group_lem k (e ∷ es) [] ∙ unfold any_group in ground arith in
      record {
        alone = λ q. all.alone (covered ∙ q);
        gone = λ r q. all.gone r (covered ∙ q);
        falls = all.falls;
        config = all.config;
      }
