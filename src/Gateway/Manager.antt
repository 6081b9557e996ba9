-- ===== src/Gateway/Manager.antt =====
-- pkg/gateway/session.go: `SessionManager`. The map holds pointers to sessions, so that marking one
-- closed is seen by every holder: a heap gives each pointer its session, and `fresh` the next one.
-- The range over a map is over the association list in its order.
pub mod Laws
pub mod Expiry
mod Tests
use mathlib.Core.List.{foldl}
use mmo_server.Common.{
  ℕ, suc, ◌+◌, ◌-◌, Bool, true, List, [], ◌∷◌, map, Option, none, some, ite, length, ltb,
  if◌then◌else◌, Str, ℕ_discrete, Dict, str_key, lookup, insert, erase,
}
use mmo_server.Gateway.Session.{Session, quic, no_connection, update_last_active_time}

abbrev pub Heap : Type 0
Heap = ℕ → Session

unfoldable pub store : ℕ → Session → Heap → Heap
store p x heap q = ite (ℕ_discrete p q) x (heap q)

pub record SessionManager : Type 0 where
  pub heap : Heap
  pub fresh : ℕ
  pub sessions : Dict Str ℕ
  pub heartbeat_ttl : ℕ

abbrev pub new_session_manager : Heap → ℕ → ℕ → SessionManager
new_session_manager heap fresh ttl = record {
  heap = heap;
  fresh = fresh;
  sessions = [];
  heartbeat_ttl = ttl;
}

pub data ManagerError : Type 0 where
  session_not_found : ManagerError
  session_already_exists : ManagerError

abbrev pub get_session : SessionManager → Str → Option ℕ
get_session sm id = lookup id sm.sessions

abbrev pub get_all_sessions : SessionManager → List ℕ
get_all_sessions sm = map (λ e. e.1) sm.sessions

abbrev pub get_session_count : SessionManager → ℕ
get_session_count sm = length sm.sessions

abbrev pub mark_closed : ℕ → Heap → Heap
mark_closed p heap = store p (record (heap p) { closed = true }) heap

-- `RemoveSession`, with its error if any.
unfoldable pub remove_session : SessionManager → Str → SessionManager × Option ManagerError
unfolding store
remove_session sm id = elim (lookup id sm.sessions) [
  | none ↦ (sm, some session_not_found)
  | some p ↦ (record sm { heap = mark_closed p sm.heap; sessions = erase id sm.sessions }, none)
]

unfoldable pub add_session : SessionManager → ℕ → SessionManager × Option ManagerError
add_session sm p = elim (lookup (sm.heap p).id sm.sessions) [
  | none ↦ (record sm { sessions = insert (sm.heap p).id p sm.sessions }, none)
  | some q ↦ (sm, some session_already_exists)
]

-- `GetOrCreate` at a time.
unfoldable pub get_or_create : SessionManager → Str → ℕ → SessionManager × ℕ
unfolding store
get_or_create sm id now = elim (lookup id sm.sessions) [
  | some p ↦ (record sm { heap = store p (update_last_active_time now (sm.heap p)) sm.heap }, p)
  | none ↦ (
    record sm {
      heap = store sm.fresh (no_connection id quic now) sm.heap;
      fresh = sm.fresh + 1;
      sessions = insert id sm.fresh sm.sessions;
    },
    sm.fresh,
  )
]

-- A clock that reads less than the last activity gives a negative difference.
abbrev pub IsExpired? : ℕ → ℕ → Session → Bool
IsExpired? now ttl x = ltb ttl (now - x.last_activity)

unfoldable pub expired : ℕ → ℕ → Heap → Dict Str ℕ → List Str
expired now ttl heap [] = []
expired now ttl heap ((id, p) ∷ m) =
    let rest = expired now ttl heap m in if IsExpired? now ttl (heap p) then id ∷ rest else rest

unfoldable pub remove_each : SessionManager → List Str → SessionManager
unfolding remove_session
remove_each sm [] = sm
remove_each sm (id ∷ ids) = remove_each (remove_session sm id).0 ids

-- `checkHeartbeats` at a time.
unfoldable pub check_heartbeats : SessionManager → ℕ → SessionManager
unfolding expired remove_each
check_heartbeats sm now = remove_each sm (expired now sm.heartbeat_ttl sm.heap sm.sessions)

-- `Stop`
unfoldable pub stop : SessionManager → SessionManager
unfolding store
stop sm = record sm {
  heap = foldl (λ heap e. mark_closed e.1 heap) sm.heap sm.sessions;
  sessions = [];
}
