-- ===== src/Gateway/Manager/Tests.antt =====
-- The session manager of pkg/gateway/session.go with two sessions, one of them idle for too long.
use mmo_server.Common.{
  ℕ, ◌≡◌, refl, [], ◌∷◌, some, true, Str, Str_discrete, ℕ_discrete, lookup, insert, str_key, erase,
}
use mmo_server.Gateway.Session.{quic, no_connection}
use mmo_server.Gateway.Manager.{
  store, SessionManager, new_session_manager, remove_session, add_session, get_or_create,
  IsExpired?, expired, remove_each, check_heartbeats, session_not_found, session_already_exists,
}
use mmo_server.Gateway.Manager.Laws.{IsValid, get_or_create-get_session}
use mmo_server.Gateway.Manager.Expiry.{view, unless_expired, check_heartbeats-view}

program : Unit {0}
unfolding lookup insert erase Str_discrete ℕ_discrete store remove_session add_session get_or_create
    expired remove_each check_heartbeats view
program = tt

abbrev a : Str
a = b'a' ∷ []

abbrev b : Str
b = b'b' ∷ []

abbrev sm0 : SessionManager
sm0 = new_session_manager (λ p. no_connection [] quic 0) 0 30

abbrev sm1 : SessionManager
sm1 = (get_or_create sm0 a 5).0

abbrev sm2 : SessionManager
sm2 = (get_or_create sm1 b 20).0

sm0-IsValid : IsValid sm0
unfolding program
sm0-IsValid = record { ids_map = tt; named = λ id p e. absurd (cc) }

sm1-IsValid : IsValid sm1
sm1-IsValid = (get_or_create-get_session sm0 a 5 sm0-IsValid).0

sm2-IsValid : IsValid sm2
sm2-IsValid = (get_or_create-get_session sm1 b 20 sm1-IsValid).0

unknown : (remove_session sm2 []).1 ≡ some session_not_found
unfolding program
unknown = refl

in_use : (add_session sm2 0).1 ≡ some session_already_exists
unfolding program
in_use = refl

check_heartbeats-view_example :
    IsValid (check_heartbeats sm2 40)
    × ((id : Str)
        → view (check_heartbeats sm2 40) id ≡ unless_expired 40 sm2.heartbeat_ttl (view sm2 id))
    × ((id : Str) (p : ℕ)
        → lookup id sm2.sessions ≡ some p
        → IsExpired? 40 sm2.heartbeat_ttl (sm2.heap p) ≡ true
        → (check_heartbeats sm2 40).heap p ≡ record (sm2.heap p) { closed = true })
check_heartbeats-view_example = check_heartbeats-view sm2 40 sm2-IsValid

-- The session that is idle for 35 goes, the other stays.
one_left : (check_heartbeats sm2 40).sessions ≡ (b, 1) ∷ []
unfolding program
one_left = refl
