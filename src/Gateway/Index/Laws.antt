-- ===== src/Gateway/Index/Laws.antt =====
-- The index of the sessions of a user in pkg/gateway/handler.go agrees with the sessions.
use mmo_server.Common.{
  or_empty, ℕ, ◌≡◌, inl, inr, refl, sym, ap, subst, ◌∙◌, [], ◌∷◌, Option, none, some, ite, if_pos,
  if_neg, Str, Str_discrete, Dict, str_key, lookup, insert, erase, IsMap, lookup-insert,
  lookup-erase, insert-IsMap, erase-IsMap, Option-cases, arith,
}
use mmo_server.Gateway.Manager.{Heap}
use mmo_server.Gateway.Index.{
  UserSessions, Gateway, join, without, leave, register_session, unregister_session,
}

-- The session of a user under an ID, as the index has it.
abbrev pub indexed : UserSessions → Str → Str → Option ℕ
indexed by user id = lookup id (or_empty (lookup user by))

-- The same, as the sessions have it: no user has the empty name.
abbrev pub owned : Heap → Str → Option ℕ → Option ℕ
owned heap user none = none
owned heap [] (some p) = none
owned heap (c ∷ user) (some p) = ite (Str_discrete (heap p).user_id (c ∷ user)) (some p) none

indexed-without :
    (user : Str) (m : Dict Str ℕ) (by : UserSessions) (u id : Str)
    → indexed (without user m by) u id ≡ ite (Str_discrete user u) (lookup id m) (indexed by u id)
unfolding lookup
indexed-without user [] by u id = ground (arith, lookup-erase user u by)
indexed-without user (e ∷ m) by u id = ground (arith, lookup-insert user u (e ∷ m) by)

indexed-leave :
    (c : ℕ) (user id : Str) (by : UserSessions) (u j : Str)
    → indexed (leave (c ∷ user) id by) u j
      ≡ ite
          (Str_discrete (c ∷ user) u)
          (ite (Str_discrete id j) none (indexed by u j))
          (indexed by u j)
unfolding leave
indexed-leave c user id by u j = elim (Option-cases (lookup (c ∷ user) by)) [
  | inl n ↦ rw (n, leave) (unfold lookup in ground arith)
  | inr (m, s) ↦
      rw (s, leave)
        (indexed-without (c ∷ user) (erase id m) by u j ∙ ground (arith, lookup-erase id j m))
]

indexed-join :
    (c : ℕ) (user id : Str) (p : ℕ) (by : UserSessions) (u j : Str)
    → indexed (join (c ∷ user) id p by) u j
      ≡ ite
          (Str_discrete (c ∷ user) u)
          (ite (Str_discrete id j) (some p) (indexed by u j))
          (indexed by u j)
unfolding join
indexed-join c user id p by u j = ground (
  arith,
  lookup-insert (c ∷ user) u (insert id p (or_empty (lookup (c ∷ user) by))) by,
  lookup-insert id j p (or_empty (lookup (c ∷ user) by)),
)

-- No ID twice, every session stored under its ID, and the index of a user's sessions the one that
-- the sessions' users make.
pub record IsValid (g : Gateway) : Type 0 where
  pub ids_map : IsMap g.sessions
  pub named : (id : Str) (p : ℕ) → lookup id g.sessions ≡ some p → (g.heap p).id ≡ id
  pub by_user :
      (u id : Str) → indexed g.sessions_by_user u id ≡ owned g.heap u (lookup id g.sessions)

pub indexed-drop :
    (heap : Heap) (by : UserSessions) (m : Dict Str ℕ) (user id u j : Str) (p : ℕ)
    → (heap p).user_id ≡ user
    → lookup id m ≡ some p
    → ((v k : Str) → indexed by v k ≡ owned heap v (lookup k m))
    → indexed (leave user id by) u j ≡ owned heap u (lookup j (erase id m))
unfolding leave
indexed-drop heap by m [] id [] j p e s h =
    ground (arith, h [] j, lookup-erase id j m, Option-cases (lookup j m))
indexed-drop heap by m [] id (d ∷ u) j p e s h =
    ground (arith, h (d ∷ u) j, lookup-erase id j m, Option-cases (lookup j m))
indexed-drop heap by m (c ∷ user) id [] j p e s h =
    indexed-leave c user id by [] j
    ∙ ground (arith, h [] j, lookup-erase id j m, Option-cases (lookup j m))
indexed-drop heap by m (c ∷ user) id (d ∷ u) j p e s h =
    indexed-leave c user id by (d ∷ u) j
    ∙ ground (arith, h (d ∷ u) j, lookup-erase id j m, Option-cases (lookup j m))

add_owned :
    (heap : Heap) (x o : Option ℕ) (d : ℕ) (u id j : Str) (p : ℕ)
    → x ≡ owned heap (d ∷ u) o
    → (id ≡ j → o ≡ none)
    → ite (Str_discrete (heap p).user_id (d ∷ u)) (ite (Str_discrete id j) (some p) x) x
      ≡ owned heap (d ∷ u) (ite (Str_discrete id j) (some p) o)
add_owned heap x o d u id j p h free = elim (Str_discrete id j) [
  | yes q ↦ rw (if_pos (Str_discrete id j) q, h, free q) (ground arith)
  | no q ↦ rw (if_neg (Str_discrete id j) q, h) (ground arith)
]

indexed-add :
    (heap : Heap) (by : UserSessions) (m : Dict Str ℕ) (user id u j : Str) (p : ℕ)
    → (heap p).user_id ≡ user
    → lookup id m ≡ none
    → ((v k : Str) → indexed by v k ≡ owned heap v (lookup k m))
    → indexed (join user id p by) u j ≡ owned heap u (lookup j (insert id p m))
unfolding join
indexed-add heap by m [] id [] j p e s h =
    ground (arith, h [] j, lookup-insert id j p m, Option-cases (lookup j m))
indexed-add heap by m [] id (d ∷ u) j p e s h =
    ground (arith, h (d ∷ u) j, lookup-insert id j p m, Option-cases (lookup j m))
indexed-add heap by m (c ∷ user) id [] j p e s h =
    indexed-join c user id p by [] j
    ∙ ground (arith, h [] j, lookup-insert id j p m, Option-cases (lookup j m))
indexed-add heap by m (c ∷ user) id (d ∷ u) j p e h' h =
    indexed-join c user id p by (d ∷ u) j
    ∙ ap
        (λ w.
          ite (Str_discrete w (d ∷ u)) (ite (Str_discrete id j) (some p) (indexed by (d ∷ u) j))
            (indexed by (d ∷ u) j))
        (sym e)
    ∙ add_owned heap (indexed by (d ∷ u) j) (lookup j m) d u id j p (h (d ∷ u) j)
        (λ q. subst (λ k. lookup k m ≡ none) q h')
    ∙ ap (owned heap (d ∷ u)) (sym (lookup-insert id j p m))

register_session-agrees :
    (g : Gateway) (p : ℕ)
    → IsValid g
    → lookup (g.heap p).id g.sessions ≡ none
    → IsValid (register_session g p)
unfolding register_session
register_session-agrees g p v e = record {
  ids_map = insert-IsMap (g.heap p).id p g.sessions v.ids_map;
  named = λ id q s. ground (arith, lookup-insert (g.heap p).id id p g.sessions, v.named id q);
  by_user = λ u id.
      indexed-add g.heap g.sessions_by_user g.sessions (g.heap p).user_id (g.heap p).id u id p refl
        e v.by_user;
}

sessions-register_session :
    (g : Gateway) (p : ℕ) (j : Str)
    → lookup j (register_session g p).sessions
      ≡ ite (Str_discrete (g.heap p).id j) (some p) (lookup j g.sessions)
unfolding register_session
sessions-register_session g p j = lookup-insert (g.heap p).id j p g.sessions

heap-register_session : (g : Gateway) (p : ℕ) → (register_session g p).heap ≡ g.heap
unfolding register_session
heap-register_session g p = refl

-- Registering a session under an ID that is not in use adds it to the sessions, under its ID, and
-- changes none of the others. Every user's sessions in the index are then those of the sessions that
-- have the user, so that those of the new one's user hold it and those of another user are as they
-- were; a session without a user is in no index.
pub register_session-IsValid :
    (g : Gateway) (p : ℕ)
    → IsValid g
    → lookup (g.heap p).id g.sessions ≡ none
    → IsValid (register_session g p)
      × ((j : Str)
          → lookup j (register_session g p).sessions
            ≡ ite (Str_discrete (g.heap p).id j) (some p) (lookup j g.sessions))
      × ((u j : Str)
          → indexed (register_session g p).sessions_by_user u j
            ≡ owned g.heap u (ite (Str_discrete (g.heap p).id j) (some p) (lookup j g.sessions)))
register_session-IsValid g p v e =
    let v' = register_session-agrees g p v e in
    (
      v',
      sessions-register_session g p,
      λ u j.
          v'.by_user u j
          ∙ ap (λ h. owned h u (lookup j (register_session g p).sessions))
              (heap-register_session g p)
          ∙ ap (owned g.heap u) (sessions-register_session g p j),
    )

-- Ending a session removes it from the sessions and from its user's, and nothing else of either.
pub unregister_session-IsValid :
    (g : Gateway) (id : Str)
    → IsValid g
    → IsValid (unregister_session g id)
      × ((j : Str)
          → lookup j (unregister_session g id).sessions
            ≡ ite (Str_discrete id j) none (lookup j g.sessions))
unfolding unregister_session
unregister_session-IsValid g id v = elim (Option-cases (lookup id g.sessions)) [
  | inl n ↦ rw (n, unregister_session) (v, λ j. ground arith)
  | inr (p, s) ↦
      rw (s, unregister_session)
        (
          record {
            ids_map = erase-IsMap id g.sessions v.ids_map;
            named = λ j q e. ground (arith, lookup-erase id j g.sessions, v.named j q);
            by_user = λ u j.
                indexed-drop g.heap g.sessions_by_user g.sessions (g.heap p).user_id id u j p refl s
                  v.by_user;
          },
          λ j. lookup-erase id j g.sessions,
        )
]
