-- ===== src/Gateway/Session/Laws.antt =====
-- `Close` of pkg/gateway/session.go.
use mmo_server.Common.{◌≡◌, true, false, [], arith}
use mmo_server.Gateway.Session.{Session, close, connections}

-- `Close` of an open session closes the connections that go with its type, and after it a second
-- `Close` closes nothing. On a session that is marked closed already, as `RemoveSession` marks it, it
-- closes no connection at all.
pub close-close :
    (x : Session)
    → ((close x).0.closed ≡ true)
      × (close (close x).0 ≡ ((close x).0, []))
      × (x.closed ≡ false → (close x).1 ≡ connections x)
      × (x.closed ≡ true → close x ≡ (x, []))
unfolding close
close-close x = (ground arith, ground arith, λ e. ground arith, λ e. ground arith)
