-- ===== src/Gateway/Manager/Laws.antt =====
-- What `SessionManager` of pkg/gateway/session.go holds after each of its operations.

use mmo_server.Common.{
  ℕ, ◌<◌, ◌≡◌, ◌≢◌, inl, inr, refl, some, Str, str_key, lookup, IsMap, lookup-insert, lookup-erase,
  insert-IsMap, erase-IsMap, Option-cases, arith,
}
use mmo_server.Gateway.Manager.{store, SessionManager, remove_session, add_session, get_or_create}

-- No ID twice, and every pointer leads to a session with the ID that it is stored under and was
-- given out before.
pub record IsValid (sm : SessionManager) : Type 0 where
  pub ids_map : IsMap sm.sessions
  pub named :
      (id : Str) (p : ℕ) → lookup id sm.sessions ≡ some p → ((sm.heap p).id ≡ id) × (p < sm.fresh)

pub remove_session-IsValid :
    (sm : SessionManager) (id : Str) → IsValid sm → IsValid (remove_session sm id).0
unfolding remove_session store
remove_session-IsValid sm id v = elim (Option-cases (lookup id sm.sessions)) [
  | inl n ↦ rw (n, remove_session) v
  | inr (p, s) ↦
      rw (s, remove_session)
        (record {
          ids_map = erase-IsMap id sm.sessions v.ids_map;
          named = λ j q e. ground (arith, v.named j q, lookup-erase id j sm.sessions);
        })
]

pub add_session-IsValid :
    (sm : SessionManager) (p : ℕ) → p < sm.fresh → IsValid sm → IsValid (add_session sm p).0
unfolding add_session
add_session-IsValid sm p h v = elim (Option-cases (lookup (sm.heap p).id sm.sessions)) [
  | inr (q, s) ↦ rw (s, add_session) v
  | inl n ↦
      rw (n, add_session)
        (record {
          ids_map = insert-IsMap (sm.heap p).id p sm.sessions v.ids_map;
          named =
              λ j q e. ground (arith, v.named j q, lookup-insert (sm.heap p).id j p sm.sessions);
        })
]

-- On a valid manager `GetOrCreate` returns a session with the ID that was asked for, stored under it
-- and active at that time: the one that was stored, or else a new one. The manager stays valid and
-- what it stores under other IDs is unchanged.
pub get_or_create-get_session :
    (sm : SessionManager) (id : Str) (now : ℕ)
    → IsValid sm
    → IsValid (get_or_create sm id now).0
      × (lookup id (get_or_create sm id now).0.sessions ≡ some (get_or_create sm id now).1)
      × (((get_or_create sm id now).0.heap (get_or_create sm id now).1).id ≡ id)
      × (((get_or_create sm id now).0.heap (get_or_create sm id now).1).last_activity ≡ now)
      × ((j : Str) → j ≢ id → lookup j (get_or_create sm id now).0.sessions ≡ lookup j sm.sessions)
unfolding get_or_create store
get_or_create-get_session sm id now v = elim (Option-cases (lookup id sm.sessions)) [
  | inr (p, s) ↦
      rw (s, get_or_create)
        (
          record { ids_map = v.ids_map; named = λ j q e. ground (arith, v.named j q e) },
          s,
          ground (arith, v.named id p s),
          ground arith,
          λ j n. refl,
        )
  | inl n ↦
      rw (n, get_or_create)
        (
          record {
            ids_map = insert-IsMap id sm.fresh sm.sessions v.ids_map;
            named = λ j q e. ground (arith, v.named j q, lookup-insert id j sm.fresh sm.sessions);
          },
          ground (arith, lookup-insert id id sm.fresh sm.sessions),
          ground arith,
          ground arith,
          λ j ne. ground (arith, lookup-insert id j sm.fresh sm.sessions),
        )
]
