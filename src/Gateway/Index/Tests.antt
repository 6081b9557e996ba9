-- ===== src/Gateway/Index/Tests.antt =====
-- The sessions of the gateway in pkg/gateway/handler.go, with two sessions of one user.
use mmo_server.Common.{
  ◌≡◌, refl, [], ◌∷◌, none, some, ite, Str, Str_discrete, ℕ_discrete, lookup, insert, str_key,
  erase,
}
use mmo_server.Gateway.Session.{quic, no_connection, close, set_user_id}
use mmo_server.Gateway.Manager.{Heap, store}
use mmo_server.Gateway.Index.{
  Gateway, join, leave, register_session, unregister_session, clean_session, clean_each,
  cleanup_inactive_sessions, get_user_sessions, get_user_count,
}
use mmo_server.Gateway.Index.Laws.{
  IsValid, indexed, owned, register_session-IsValid, unregister_session-IsValid,
}
use mmo_server.Gateway.Index.Cleanup.{unless_inactive, cleanup-IsValid}

program : Unit {0}
unfolding lookup insert erase Str_discrete ℕ_discrete store close join leave register_session
    unregister_session clean_session clean_each cleanup_inactive_sessions
program = tt

abbrev user : Str
user = b'u' ∷ []

-- Pointer n is to a session with the ID n, active at the time n.
abbrev heap : Heap
heap p = set_user_id user (no_connection (p ∷ []) quic p)

abbrev g0 : Gateway
g0 = record { heap = heap; sessions = []; sessions_by_user = [] }

abbrev g1 : Gateway
g1 = register_session g0 3

abbrev g2 : Gateway
g2 = register_session g1 4

both : get_user_sessions g2 user ≡ 3 ∷ 4 ∷ []
unfolding program
both = refl

last_one_leaves : get_user_count (unregister_session g1 (3 ∷ [])) ≡ 0
unfolding program
last_one_leaves = refl

g0-IsValid : IsValid g0
unfolding program
g0-IsValid = record { ids_map = tt; named = λ id p e. absurd (cc); by_user = λ u id. refl }

g1-IsValid : IsValid g1
unfolding program
g1-IsValid = (register_session-IsValid g0 3 g0-IsValid refl).0

g2-IsValid : IsValid g2
unfolding program
g2-IsValid = (register_session-IsValid g1 4 g1-IsValid refl).0

register_session-IsValid_example :
    IsValid (register_session g1 4)
    × ((j : Str)
        → lookup j (register_session g1 4).sessions
          ≡ ite (Str_discrete (4 ∷ []) j) (some 4) (lookup j g1.sessions))
    × ((u j : Str)
        → indexed (register_session g1 4).sessions_by_user u j
          ≡ owned heap u (ite (Str_discrete (4 ∷ []) j) (some 4) (lookup j g1.sessions)))
unfolding program
register_session-IsValid_example = register_session-IsValid g1 4 g1-IsValid refl

unregister_session-IsValid_example :
    IsValid (unregister_session g2 (3 ∷ []))
    × ((j : Str)
        → lookup j (unregister_session g2 (3 ∷ [])).sessions
          ≡ ite (Str_discrete (3 ∷ []) j) none (lookup j g2.sessions))
unregister_session-IsValid_example = unregister_session-IsValid g2 (3 ∷ []) g2-IsValid

cleanup-IsValid_example :
    IsValid (cleanup_inactive_sessions 10 6 g2).0
    × ((id : Str)
        → lookup id (cleanup_inactive_sessions 10 6 g2).0.sessions
          ≡ unless_inactive 10 6 g2.heap (lookup id g2.sessions))
cleanup-IsValid_example = cleanup-IsValid 10 6 g2 g2-IsValid
