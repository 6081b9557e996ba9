-- ===== src/Gateway/Session/Tests.antt =====
-- A session of pkg/gateway/session.go.
use mmo_server.Common.{◌≡◌, refl, [], ◌∷◌}
use mmo_server.Gateway.Session.{new_session, web_socket, close, close_ws}

program : Unit {0}
unfolding close
program = tt

web_closed : (close (new_session [] web_socket 4 0)).1 ≡ close_ws 4 ∷ []
unfolding program
web_closed = refl
