-- ===== src/Gateway/Messages/Tests.antt =====
-- pkg/gateway/handler.go with one session of a WebSocket, and a router that knows no service.
use mmo_server.Common.{ℕ, ◌+◌, ◌≡◌, refl, true, [], ◌∷◌, none, some, arith}
use mmo_server.Protocol.Converter.{Formats, unsupported_format}
use mmo_server.Protocol.Discovery
use mmo_server.Protocol.Balancer
use mmo_server.Gateway.Session.{Session, Network, new_session, web_socket}
use mmo_server.Gateway.Messages.{handle_message, convert_failed}
use mmo_server.Gateway.Messages.Laws.{handle_message-refused}

abbrev formats : Formats
formats = record {
  unmarshal_message = λ bs. none;
  unmarshal_string = λ bs. none;
  reformat = λ bs. none;
  marshal_string_message = λ j. none;
  marshal_raw_message = λ j. none;
  unmarshal_any = λ bs. none;
  marshal_any = λ a. none;
  encode_base64 = λ bs. bs;
  decode_base64 = λ bs. some bs;
}

abbrev net : Network ℕ
net = record {
  ws_read = λ c s. (s, none);
  ws_write = λ c type bytes s. (s + 1, true);
  receive = λ c s. (s, none);
  send = λ c bytes s. (s, true);
  read_full = λ c n s. (s, none);
  read_some = λ c n s. (s, none);
  stream_write = λ c bytes s. (s, true);
}

abbrev client : Session
client = new_session (b'c' ∷ []) web_socket 1 0

-- A binary message in the binary form.
handle_message-refused_example :
    handle_message formats net
      (λ name. Discovery.err Discovery.service_not_found)
      (λ (b : ℕ) xs. (b, Balancer.panic))
      []
      5
      true
      []
      2
      (0 ∷ 0 ∷ 1 ∷ 0 ∷ 2 ∷ [])
      client
      0
      7
    ≡ record {
      session = client;
      network = 0;
      balancer = 7;
      outcome = convert_failed unsupported_format;
    }
handle_message-refused_example =
    handle_message-refused formats net (λ name. Discovery.err Discovery.service_not_found)
      (λ (b : ℕ) xs. (b, Balancer.panic)) [] 5 true [] 2 (0 ∷ 0 ∷ 1 ∷ 0 ∷ 2 ∷ []) client 0 7 refl
      (omega arith) (omega arith) (omega arith)
