-- ===== src/Gateway/Index.antt =====
-- pkg/gateway/handler.go: the sessions of `GatewayHandler`, by ID and by user. Both maps hold
-- pointers into the heap. The range over the map is over the association list in its order.
pub mod Laws
pub mod Cleanup
mod Tests
use mathlib.Core.List.{foldl}
use mmo_server.Common.{
  or_empty, ℕ, Bool, true, false, List, [], ◌∷◌, ◌++◌, map, Option, none, some, ite, length,
  if◌then◌else◌, Str, Str_discrete, Bytes, Dict, str_key, lookup, insert, erase,
}
use mmo_server.Gateway.Session.{
  Session, ConnectionType, Closing, Network, close, new_session, write_message,
}
use mmo_server.Gateway.Manager.{Heap, store, IsExpired?}

abbrev pub UserSessions : Type 0
UserSessions = Dict Str (Dict Str ℕ)

pub record Gateway : Type 0 where
  pub heap : Heap
  pub sessions : Dict Str ℕ
  pub sessions_by_user : UserSessions

-- `sessionsByUser[user][id] = session` of a session that has a user.
unfoldable pub join : Str → Str → ℕ → UserSessions → UserSessions
join [] id p by = by
join (c ∷ user) id p by = insert (c ∷ user) (insert id p (or_empty (lookup (c ∷ user) by))) by

abbrev pub without : Str → Dict Str ℕ → UserSessions → UserSessions
without user [] by = erase user by
without user (e ∷ m) by = insert user (e ∷ m) by

-- The user's last session takes the user's map with it.
unfoldable pub leave : Str → Str → UserSessions → UserSessions
leave [] id by = by
leave (c ∷ user) id by = elim (lookup (c ∷ user) by) [
  | none ↦ by
  | some m ↦ without (c ∷ user) (erase id m) by
]

unfoldable pub register_session : Gateway → ℕ → Gateway
unfolding join
register_session g p = record g {
  sessions = insert (g.heap p).id p g.sessions;
  sessions_by_user = join (g.heap p).user_id (g.heap p).id p g.sessions_by_user;
}

unfoldable pub unregister_session : Gateway → Str → Gateway
unfolding leave
unregister_session g id = elim (lookup id g.sessions) [
  | none ↦ g
  | some p ↦ record g {
    sessions = erase id g.sessions;
    sessions_by_user = leave (g.heap p).user_id id g.sessions_by_user;
  }
]

-- One turn of the loop of `cleanupInactiveSessions`.
unfoldable pub clean_session : ℕ → ℕ → Str → ℕ → Gateway → Gateway × List Closing
unfolding leave store close
clean_session now ttl id p g =
    if IsExpired? now ttl (g.heap p)
    then (
      record g {
        heap = store p (close (g.heap p)).0 g.heap;
        sessions = erase id g.sessions;
        sessions_by_user = leave (g.heap p).user_id id g.sessions_by_user;
      },
      (close (g.heap p)).1,
    )
    else (g, [])

unfoldable pub clean_each : ℕ → ℕ → Dict Str ℕ → Gateway → Gateway × List Closing
unfolding clean_session
clean_each now ttl [] g = (g, [])
clean_each now ttl ((id, p) ∷ m) g =
    let (g', closed) = clean_session now ttl id p g in
    let (g'', closed') = clean_each now ttl m g' in (g'', closed ++ closed')

-- `cleanupInactiveSessions` at a time.
unfoldable pub cleanup_inactive_sessions : ℕ → ℕ → Gateway → Gateway × List Closing
unfolding clean_each
cleanup_inactive_sessions now ttl g = clean_each now ttl g.sessions g

abbrev pub get_session : Gateway → Str → Option ℕ
get_session g id = lookup id g.sessions

abbrev pub get_session_count : Gateway → ℕ
get_session_count g = length g.sessions

abbrev pub get_user_count : Gateway → ℕ
get_user_count g = length g.sessions_by_user

abbrev pub get_user_sessions : Gateway → Str → List ℕ
get_user_sessions g user = map (λ e. e.1) (or_empty (lookup user g.sessions_by_user))

-- The sessions that are written to, each at the same time; an error of one is only logged.
unfoldable pub broadcast : {S : Type 0} → Network S → ℕ → ℕ → Bytes → List ℕ → Heap → S → Heap × S
unfolding write_message store
broadcast net now type payload [] heap s = (heap, s)
broadcast net now type payload (p ∷ ps) heap s =
    let (x, s', r) = write_message net now type payload (heap p) s in
    broadcast net now type payload ps (store p x heap) s'

-- `BroadcastToUser`; `false` is the error that the user has no sessions.
unfoldable pub broadcast_to_user :
    {S : Type 0} → Network S → ℕ → ℕ → Bytes → Str → Gateway → S → Gateway × S × Bool
unfolding broadcast
broadcast_to_user net now type payload user g s = elim (get_user_sessions g user) [
  | [] ↦ (g, s, false)
  | p ∷ ps ↦
      let (heap, s') = broadcast net now type payload (p ∷ ps) g.heap s in
      (record g { heap = heap }, s', true)
]

-- `BroadcastToAll`
unfoldable pub broadcast_to_all :
    {S : Type 0} → Network S → ℕ → ℕ → Bytes → Gateway → S → Gateway × S
unfolding broadcast
broadcast_to_all net now type payload g s =
    let (heap, s') = broadcast net now type payload (map (λ e. e.1) g.sessions) g.heap s in
    (record g { heap = heap }, s')
