-- ===== src/Gateway/Session.antt =====
-- pkg/gateway/session.go: `Session`. The connections are handles, and what they do (gorilla's
-- websocket, quic-go, the secure connection) is the record `Network` over a state of its own. A time
-- is the number of nanoseconds that a clock reads. Nothing of the repository gives a session the stream
-- that the QUIC branches read and write, so that they end with `no_valid_connection`.
pub mod Laws
mod Tests
use mmo_server.Common.{
  ℕ, ◌+◌, ◌%◌, Bool, true, false, List, [], ◌∷◌, ◌++◌, Option, none, some, length, if◌then◌else◌,
  Str, Bytes, put_u32, get_uint, to_u32,
}

pub data ConnectionType : Type 0 where
  web_socket : ConnectionType
  quic : ConnectionType
  internal : ConnectionType

pub record Session : Type 0 where
  pub id : Str
  pub user_id : Str
  pub connection_type : ConnectionType
  pub last_activity : ℕ
  pub ws_conn : Option ℕ
  pub secure_conn : Option ℕ
  pub quic_conn : Option ℕ
  pub quic_stream : Option ℕ
  pub closed : Bool

abbrev pub no_connection : Str → ConnectionType → ℕ → Session
no_connection id type now = record {
  id = id;
  user_id = [];
  connection_type = type;
  last_activity = now;
  ws_conn = none;
  secure_conn = none;
  quic_conn = none;
  quic_stream = none;
  closed = false;
}

abbrev pub new_session : Str → ConnectionType → ℕ → ℕ → Session
new_session id type conn now = record (no_connection id type now) { ws_conn = some conn }

abbrev pub new_session_with_secure_connection : Str → ConnectionType → ℕ → ℕ → Session
new_session_with_secure_connection id type conn now = record (no_connection id type now) {
  secure_conn = some conn;
}

abbrev pub new_session_with_quic : Str → ConnectionType → ℕ → ℕ → Session
new_session_with_quic id type conn now = record (no_connection id type now) {
  quic_conn = some conn;
}

abbrev pub set_user_id : Str → Session → Session
set_user_id user s = record s { user_id = user }

abbrev pub update_last_active_time : ℕ → Session → Session
update_last_active_time now s = record s { last_activity = now }

pub data Result {ℓ} (A : Type ℓ) : Type ℓ where
  ok : A → Result A
  session_closed : Result A
  no_valid_connection : Result A
  failed : Result A

-- The reads and writes on connections, by handle. `read_full` is the read of encoding/binary, which
-- waits for all of the bytes; `read_some` is one `Read` into a slice of that length, which stays
-- zero after what the read returned. A write tells whether it went well.
pub record Network (S : Type 0) : Type 0 where
  pub ws_read : ℕ → S → S × Option (ℕ × Bytes)
  pub ws_write : ℕ → ℕ → Bytes → S → S × Bool
  pub receive : ℕ → S → S × Option Bytes
  pub send : ℕ → Bytes → S → S × Bool
  pub read_full : ℕ → ℕ → S → S × Option Bytes
  pub read_some : ℕ → ℕ → S → S × Option Bytes
  pub stream_write : ℕ → Bytes → S → S × Bool

-- websocket.BinaryMessage
abbrev pub binary_message : ℕ
binary_message = 2

abbrev pub written : Bool → Result (Unit {0})
written b = if b then ok tt else failed

module _ {S : Type 0} (net : Network S) where
  abbrev pub received : S × Option Bytes → ℕ → S × Result (ℕ × Bytes)
  received (s, none) type = (s, failed)
  received (s, some payload) type = (s, ok (type, payload))

  abbrev pub read_data : ℕ → ℕ → S × Option Bytes → S × Result (ℕ × Bytes)
  read_data c n (s, none) = (s, failed)
  read_data c n (s, some type) = received (net.read_some c n s) (get_uint type)

  abbrev pub read_type : ℕ → S × Option Bytes → S × Result (ℕ × Bytes)
  read_type c (s, none) = (s, failed)
  read_type c (s, some n) = read_data c (get_uint n) (net.read_full c 1 s)

  -- The QUIC branch of `ReadMessage`: length, type and data.
  unfoldable pub read_frame : ℕ → S → S × Result (ℕ × Bytes)
  read_frame c s = read_type c (net.read_full c 4 s)

  abbrev ws_received : S × Option (ℕ × Bytes) → S × Result (ℕ × Bytes)
  ws_received (s, none) = (s, failed)
  ws_received (s, some m) = (s, ok m)

  unfoldable pub read_connection : Session → S → S × Result (ℕ × Bytes)
  unfolding read_frame
  read_connection x s = elim x.connection_type [
    | web_socket ↦ elim x.ws_conn [
      | some c ↦ ws_received (net.ws_read c s)
      | none ↦ elim x.secure_conn [
        | some c ↦ received (net.receive c s) binary_message
        | none ↦ (s, no_valid_connection)
      ]
    ]
    | quic ↦ elim x.quic_stream [ some c ↦ read_frame c s | none ↦ (s, no_valid_connection) ]
    | internal ↦ (s, no_valid_connection)
  ]

  -- `ReadMessage`
  unfoldable pub read_message : ℕ → Session → S → Session × S × Result (ℕ × Bytes)
  unfolding read_connection
  read_message now x s =
      if x.closed
      then (x, s, session_closed)
      else (let (s', r) = read_connection x s in (record x { last_activity = now }, s', r))

  abbrev then_write : ℕ → Bytes → S × Bool → S × Bool
  then_write c b (s, fine) = if fine then net.stream_write c b s else (s, false)

  -- The QUIC branch of `WriteMessage`, which stops at the first write that fails.
  unfoldable pub write_frame : ℕ → ℕ → Bytes → S → S × Bool
  write_frame c type payload s =
      then_write c payload (
        then_write c ((type % 256) ∷ []) (net.stream_write c (put_u32 (to_u32 (length payload))) s))

  abbrev wrote : S × Bool → S × Result (Unit {0})
  wrote (s, b) = (s, written b)

  unfoldable pub write_connection : ℕ → Bytes → Session → S → S × Result (Unit {0})
  unfolding write_frame
  write_connection type payload x s = elim x.connection_type [
    | web_socket ↦ elim x.ws_conn [
      | some c ↦ wrote (net.ws_write c type payload s)
      | none ↦ elim x.secure_conn [
        | some c ↦ wrote (net.send c payload s)
        | none ↦ (s, no_valid_connection)
      ]
    ]
    | quic ↦ elim x.quic_stream [
      | some c ↦ wrote (write_frame c type payload s)
      | none ↦ (s, no_valid_connection)
    ]
    | internal ↦ (s, no_valid_connection)
  ]

  -- `WriteMessage`
  unfoldable pub write_message : ℕ → ℕ → Bytes → Session → S → Session × S × Result (Unit {0})
  unfolding write_connection
  write_message now type payload x s =
      if x.closed
      then (x, s, session_closed)
      else (let (s', r) = write_connection type payload x s in
          (record x { last_activity = now }, s', r))

-- The connections that a call closes.
pub data Closing : Type 0 where
  close_ws : ℕ → Closing
  close_secure : ℕ → Closing
  close_stream : ℕ → Closing
  close_quic : ℕ → Closing

abbrev each {ℓ} : {A : Type ℓ} → (A → Closing) → Option A → List Closing
each f none = []
each f (some c) = f c ∷ []

abbrev pub connections : Session → List Closing
connections x = elim x.connection_type [
  | web_socket ↦ elim x.ws_conn [
    | some c ↦ close_ws c ∷ []
    | none ↦ each close_secure x.secure_conn
  ]
  | quic ↦ each close_stream x.quic_stream ++ each close_quic x.quic_conn
  | internal ↦ []
]

-- `Close`, less the error of the connection's own close.
unfoldable pub close : Session → Session × List Closing
close x = if x.closed then (x, []) else (record x { closed = true }, connections x)
