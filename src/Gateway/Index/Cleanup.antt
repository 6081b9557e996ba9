-- ===== src/Gateway/Index/Cleanup.antt =====
-- `cleanupInactiveSessions` of pkg/gateway/handler.go: which sessions it leaves.
use mmo_server.Common.{
  ℕ, ◌≡◌, inl, inr, refl, sym, ap, subst, ◌∙◌, [], ◌∷◌, Option, none, some, ite, if_neg,
  if◌then◌else◌, Str, Str_discrete, Dict, str_key, lookup, IsMap, lookup-erase, erase-IsMap,
  Bool-cases, Option-cases, arith,
}
use mmo_server.Gateway.Session.{close}
use mmo_server.Gateway.Manager.{Heap, store, IsExpired?}
use mmo_server.Gateway.Index.{Gateway, clean_session, clean_each, cleanup_inactive_sessions}
use mmo_server.Gateway.Index.Laws.{IsValid, owned, indexed-drop}

-- Two heaps whose sessions differ at most in `closed`.
record Same (h k : Heap) : Type 0 where
  same_id : (q : ℕ) → (h q).id ≡ (k q).id
  same_user : (q : ℕ) → (h q).user_id ≡ (k q).user_id
  same_activity : (q : ℕ) → (h q).last_activity ≡ (k q).last_activity

close-Same : (p : ℕ) (h : Heap) → Same (store p (close (h p)).0 h) h
unfolding store close
close-Same p h = record {
  same_id = λ q. ground arith;
  same_user = λ q. ground arith;
  same_activity = λ q. ground arith;
}

owned-Same : (h k : Heap) (u : Str) (o : Option ℕ) → Same h k → owned h u o ≡ owned k u o
owned-Same h k u none s = refl
owned-Same h k [] (some p) s = refl
owned-Same h k (c ∷ u) (some p) s = ground (arith, s.same_user p)

-- One turn of the loop, on a session that is stored under the ID.
record Cleaned (now ttl : ℕ) (id : Str) (p : ℕ) (g g' : Gateway) : Type 0 where
  valid : IsValid g'
  same : Same g'.heap g.heap
  left :
      (j : Str)
      → lookup j g'.sessions ≡ (
          if IsExpired? now ttl (g.heap p)
          then ite (Str_discrete id j) none (lookup j g.sessions)
          else lookup j g.sessions)

clean_session-Cleaned :
    (now ttl : ℕ) (id : Str) (p : ℕ) (g : Gateway)
    → IsValid g
    → lookup id g.sessions ≡ some p
    → Cleaned now ttl id p g (clean_session now ttl id p g).0
unfolding clean_session
clean_session-Cleaned now ttl id p g v s = elim (Bool-cases (IsExpired? now ttl (g.heap p))) [
  | inr e ↦
      rw (e, clean_session)
        (record {
          valid = v;
          same = record { same_id = λ q. refl; same_user = λ q. refl; same_activity = λ q. refl };
          left = λ j. rw e refl;
        })
  | inl e ↦
      let same = close-Same p g.heap in
      rw (e, clean_session)
        (record {
          valid = record {
            ids_map = erase-IsMap id g.sessions v.ids_map;
            named =
                λ j q t. same.same_id q ∙ ground (arith, lookup-erase id j g.sessions, v.named j q);
            by_user = λ u j.
                indexed-drop g.heap g.sessions_by_user g.sessions (g.heap p).user_id id u j p refl s
                  v.by_user
                ∙ sym (owned-Same _ g.heap u _ same);
          };
          same = same;
          left = λ j. rw e (lookup-erase id j g.sessions);
        })
]

cleaned : ℕ → ℕ → Heap → Option ℕ → Option ℕ → Option ℕ
cleaned now ttl heap none o = o
cleaned now ttl heap (some p) o = if IsExpired? now ttl (heap p) then none else o

cleaned-Same :
    (now ttl : ℕ) (h k : Heap) (o x : Option ℕ)
    → Same h k
    → cleaned now ttl h o x ≡ cleaned now ttl k o x
unfolding cleaned
cleaned-Same now ttl h k none x s = refl
cleaned-Same now ttl h k (some p) x s = ground (arith, s.same_activity p)

cleaned_first :
    (now ttl : ℕ) (heap : Heap) (id j : Str) (p : ℕ) (m : Dict Str ℕ) (x : Option ℕ)
    → lookup id m ≡ none
    → cleaned now ttl heap
        (lookup j m)
        (if IsExpired? now ttl (heap p) then ite (Str_discrete id j) none x else x)
      ≡ cleaned now ttl heap (ite (Str_discrete id j) (some p) (lookup j m)) x
unfolding cleaned
cleaned_first now ttl heap id j p m x e = elim (Str_discrete id j) [
  | yes q ↦
      let gone : lookup j m ≡ none = subst (λ k. lookup k m ≡ none) q e in rw gone (ground arith)
  | no q ↦ rw (if_neg (Str_discrete id j) q) (ground arith)
]

-- What the loop over a part of the sessions leaves.
record Swept (now ttl : ℕ) (m : Dict Str ℕ) (g g' : Gateway) : Type 0 where
  valid : IsValid g'
  left :
      (j : Str) → lookup j g'.sessions ≡ cleaned now ttl g.heap (lookup j m) (lookup j g.sessions)

clean_each-Swept :
    (now ttl : ℕ) (m : Dict Str ℕ) (g : Gateway)
    → IsMap m
    → IsValid g
    → ((j : Str) (p : ℕ) → lookup j m ≡ some p → lookup j g.sessions ≡ some p)
    → Swept now ttl m g (clean_each now ttl m g).0
unfolding clean_each cleaned lookup
clean_each-Swept now ttl [] g d v h = record { valid = v; left = λ j. refl }
clean_each-Swept now ttl ((id, p) ∷ m) g d v h =
    let one = clean_session-Cleaned now ttl id p g v (h id p (ground arith)) in
    let g' = (clean_session now ttl id p g).0 in
    let rest =
      clean_each-Swept now ttl m g' d.1 one.valid
        (λ j q e. one.left j ∙ ground (arith, h j q, d.0)) in
    record {
      valid = rest.valid;
      left = λ j.
          rest.left j
          ∙ cleaned-Same now ttl g'.heap g.heap (lookup j m) (lookup j g'.sessions) one.same
          ∙ ap (cleaned now ttl g.heap (lookup j m)) (one.left j)
          ∙ cleaned_first now ttl g.heap id j p m (lookup j g.sessions) d.0;
    }

-- The session that a cleanup leaves under an ID.
abbrev pub unless_inactive : ℕ → ℕ → Heap → Option ℕ → Option ℕ
unless_inactive now ttl heap none = none
unless_inactive now ttl heap (some p) = if IsExpired? now ttl (heap p) then none else some p

-- `cleanupInactiveSessions` keeps the index in agreement with the sessions, and removes exactly the
-- sessions that have been inactive for longer than the limit.
pub cleanup-IsValid :
    (now ttl : ℕ) (g : Gateway)
    → IsValid g
    → IsValid (cleanup_inactive_sessions now ttl g).0
      × ((id : Str)
          → lookup id (cleanup_inactive_sessions now ttl g).0.sessions
            ≡ unless_inactive now ttl g.heap (lookup id g.sessions))
unfolding cleanup_inactive_sessions cleaned
cleanup-IsValid now ttl g v =
    let all = clean_each-Swept now ttl g.sessions g v.ids_map v (λ j p e. e) in
    (all.valid, λ id. all.left id ∙ ground (arith, Option-cases (lookup id g.sessions)))
