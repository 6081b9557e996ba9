-- ===== src/Gateway/Messages.antt =====
-- pkg/gateway/handler.go: `handleMessage` and the loop `handleSessionMessages`, over the session, the
-- converter and the router. The service discovery and the load balancer are the router's; the text of
-- an error, whether a response is in time and what the capacity of the message's slice has behind its
-- bytes are arguments.
pub mod Laws
mod Tests
use mmo_server.Common.{
  ℕ, zero, suc, Bool, true, false, List, [], ◌∷◌, Option, none, some, ite, ◌==◌, if◌then◌else◌, Str,
  Str_discrete, Bytes,
}
use mmo_server.Common.Literals.{utf8}
use mmo_server.Protocol.Message.{Message}
use mmo_server.Protocol.Discovery.{ServiceInstance, RouterError}
use mmo_server.Protocol.Discovery
use mmo_server.Protocol.Balancer.{Selection}
use mmo_server.Protocol.Router.{ServiceMap, Reply, reply, refuse, crash, Routed, route}
use mmo_server.Protocol.Converter.{
  FormatType, binary, json, text, protobuf, other_format, ConvertError, Formats, Converted, ok, err,
  panic, to_internal, from_internal,
}
use mmo_server.Protocol.Converter
use mmo_server.Gateway.Session.{
  Session, ConnectionType, web_socket, quic, internal, Network, Closing, close, read_message,
  write_message,
}
use mmo_server.Gateway.Session

-- `protocol.FormatType(msgType)`
abbrev pub format_of : ℕ → FormatType
format_of n =
    if n == 0
    then binary
    else if n == 1
    then json
    else if n == 2
    then text
    else if n == 3
    then protobuf
    else other_format

abbrev pub connection_of : ConnectionType → Converter.ConnectionType
connection_of web_socket = Converter.web_socket
connection_of quic = Converter.quic
connection_of internal = Converter.internal

pub data Handled : Type 0 where
  handled : Handled
  convert_failed : ConvertError → Handled
  route_failed : RouterError → Handled
  respond_failed : ConvertError → Handled
  send_failed : Handled
  panicked : Handled

-- The session's ID, and the gateway as the source where none is given.
abbrev pub addressed : Str → Message → Message
addressed id m = record m {
  session_id = id;
  source_service = ite (Str_discrete m.source_service []) (utf8 "gateway") m.source_service;
}

-- The session, the network and the balancer, and what came of a message.
pub record Turn (S B : Type 0) : Type 0 where
  pub session : Session
  pub network : S
  pub balancer : B
  pub outcome : Handled

abbrev turn : {S B : Type 0} → Session → S → B → Handled → Turn S B
turn x s lb h = record { session = x; network = s; balancer = lb; outcome = h }

module _ {S B : Type 0} (formats : Formats) (net : Network S)
    (get : Str → Discovery.Result (List ServiceInstance))
    (select : B → List ServiceInstance → B × Selection) (services : ServiceMap) (now : ℕ)
    (in_time : Bool) (spare : Bytes) where
  abbrev sent : B → Session × S × Session.Result (Unit {0}) → Turn S B
  sent lb (x, s, Session.ok tt) = turn x s lb handled
  sent lb (x, s, Session.session_closed) = turn x s lb send_failed
  sent lb (x, s, Session.no_valid_connection) = turn x s lb send_failed
  sent lb (x, s, Session.failed) = turn x s lb send_failed

  abbrev answered : ℕ → Session → S → B → Converted Bytes → Turn S B
  answered type x s lb (ok bytes) = sent lb (write_message net now type bytes x s)
  answered type x s lb (err e) = turn x s lb (respond_failed e)
  answered type x s lb panic = turn x s lb panicked

  abbrev routed : ℕ → Session → S → Routed B (Message × ServiceInstance) → Turn S B
  routed type x s r = elim r.result [
    | reply (m, instance_) ↦
        answered type x s r.balancer
          (from_internal formats (connection_of x.connection_type) (format_of type) m)
    | refuse e ↦ turn x s r.balancer (route_failed e)
    | crash ↦ turn x s r.balancer panicked
  ]

  abbrev converted : ℕ → Session → S → B → Converted Message → Turn S B
  converted type x s lb (ok m) =
      routed type x s (route get select services lb (addressed x.id m) now in_time)
  converted type x s lb (err e) = turn x s lb (convert_failed e)
  converted type x s lb panic = turn x s lb panicked

  -- `handleMessage`
  unfoldable pub handle_message : ℕ → Bytes → Session → S → B → Turn S B
  unfolding to_internal from_internal route write_message
  handle_message type bytes x s lb =
      converted type x s lb
        (to_internal formats now spare (connection_of x.connection_type) (format_of type) bytes)

  -- What the loop does once a message has been handled: whether it goes on, and after a panic the
  -- program has ended.
  abbrev reported : ℕ → (Handled → Bytes) → Turn S B → Turn S B × Bool
  reported type error_text t = elim t.outcome [
    | handled ↦ (t, true)
    | panicked ↦ (t, false)
    | _ ↦
        let (x, s, r) = write_message net now type (error_text t.outcome) t.session t.network in
        (turn x s t.balancer t.outcome, elim r [ Session.ok u ↦ true | _ ↦ false ])
  ]

  abbrev read_turn :
      (Handled → Bytes) → B → Session × S × Session.Result (ℕ × Bytes) → Turn S B × Bool
  read_turn error_text lb (x, s, Session.ok (type, bytes)) =
      reported type error_text (handle_message type bytes x s lb)
  read_turn error_text lb (x, s, Session.session_closed) = (turn x s lb handled, false)
  read_turn error_text lb (x, s, Session.no_valid_connection) = (turn x s lb handled, false)
  read_turn error_text lb (x, s, Session.failed) = (turn x s lb handled, false)

  -- A turn of the loop of `handleSessionMessages`; `false` is its end.
  unfoldable pub session_turn : (Handled → Bytes) → Session → S → B → Turn S B × Bool
  unfolding handle_message read_message write_message
  session_turn error_text x s lb = read_turn error_text lb (read_message net now x s)
