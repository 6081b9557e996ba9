-- ===== src/Gateway/Messages/Laws.antt =====
-- Which messages pkg/gateway/handler.go takes from a WebSocket.
use mmo_server.Common.{
  ℕ, ◌≡◌, ◌≢◌, ◌⊎◌, inl, inr, refl, ap, ◌∙◌, Bool, false, List, ◌==◌, Bool-cases, Str, Bytes, arith,
}
use mmo_server.Protocol.Discovery.{ServiceInstance}
use mmo_server.Protocol.Discovery
use mmo_server.Protocol.Balancer.{Selection}
use mmo_server.Protocol.Router.{ServiceMap}
use mmo_server.Protocol.Converter.{
  Formats, text, unsupported_format, to_internal, err, convert_web_socket_to_internal, FormatType,
  other_format,
}
use mmo_server.Protocol.Converter
use mmo_server.Gateway.Session.{Session, web_socket, Network}
use mmo_server.Gateway.Messages.{
  convert_failed, connection_of, format_of, converted, handle_message,
}

unread-format :
    (type : ℕ)
    → type ≢ 0
    → type ≢ 1
    → type ≢ 3
    → (format_of type ≡ text) ⊎ (format_of type ≡ other_format)
unread-format type h k l =
    let n0 : (type == 0) ≡ false = ground (arith, h) in
    let n1 : (type == 1) ≡ false = ground (arith, k) in
    let n3 : (type == 3) ≡ false = ground (arith, l) in
    elim (Bool-cases (type == 2)) [
      | inl e ↦ inl (rw (n0, n1, e) refl)
      | inr e ↦ inr (rw (n0, n1, e, n3) refl)
    ]

module _ {S B : Type 0} (formats : Formats) (net : Network S)
    (get : Str → Discovery.Result (List ServiceInstance))
    (select : B → List ServiceInstance → B × Selection) (services : ServiceMap) (now : ℕ)
    (in_time : Bool) (spare : Bytes) where
  refused-format :
      (f : FormatType) (bytes : Bytes)
      → (f ≡ text) ⊎ (f ≡ other_format)
      → to_internal formats now spare Converter.web_socket f bytes ≡ err unsupported_format
  unfolding to_internal convert_web_socket_to_internal
  refused-format f bytes (inl e) = rw e refl
  refused-format f bytes (inr e) = rw e refl

  -- Whatever a message of a WebSocket holds, the gateway refuses it unless its type is 0, 1 or 3, and
  -- changes nothing; the type of binary messages is 2.
  pub handle_message-refused :
      (type : ℕ) (bytes : Bytes) (x : Session) (s : S) (lb : B)
      → x.connection_type ≡ web_socket
      → type ≢ 0
      → type ≢ 1
      → type ≢ 3
      → handle_message formats net get select services now in_time spare type bytes x s lb
        ≡ record {
          session = x;
          network = s;
          balancer = lb;
          outcome = convert_failed unsupported_format;
        }
  unfolding handle_message
  handle_message-refused type bytes x s lb w h k l =
      ap (converted formats net get select services now in_time spare type x s lb) (
        ap (λ c. to_internal formats now spare (connection_of c) (format_of type) bytes) w
        ∙ refused-format (format_of type) bytes (unread-format type h k l))
