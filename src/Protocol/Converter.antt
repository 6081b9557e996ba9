-- ===== src/Protocol/Converter.antt =====
-- pkg/protocol/converter.go: `DefaultProtocolConverter`, between the internal message and what a
-- connection carries. encoding/json, encoding/base64 and the protobuf packages are the record `Formats`,
-- whose `none` is an error. The time that a new message gets is an argument.
pub mod Types
pub mod RoundTrip
mod Tests
use mmo_server.Common.{
  ℕ, zero, suc, ◌+◌, ◌*◌, ◌%◌, ◌^◌, Bool, true, false, ◌&&◌, List, [], ◌∷◌, ◌++◌, Option, none,
  some, length, take, drop, ltb, ◌==◌, if◌then◌else◌, Bytes, to_u16, put_u16, get_uint,
}
use mmo_server.Common.Literals.{utf8}
use mmo_server.Common.Decimal.{decimal, parse_uint}
use mmo_server.Common.Split.{split}
use mmo_server.Common.Ints.{int_rem}
use mmo_server.Protocol.Message.{Message, Outcome, CodecError, new_message, encode, decode}

pub data ConnectionType : Type 0 where
  web_socket : ConnectionType
  quic : ConnectionType
  internal : ConnectionType
  other_connection : ConnectionType

pub data FormatType : Type 0 where
  binary : FormatType
  json : FormatType
  text : FormatType
  protobuf : FormatType
  other_format : FormatType

pub data ConvertError : Type 0 where
  invalid_format : ConvertError
  unsupported_format : ConvertError
  refused : ConvertError
  codec : CodecError → ConvertError

pub data Converted {ℓ} (A : Type ℓ) : Type ℓ where
  ok : A → Converted A
  err : ConvertError → Converted A
  panic : Converted A

-- The structure that is written as JSON; the payload is raw JSON, or a string.
pub record JsonMessage : Type 0 where
  pub service_type : ℕ
  pub message_type : ℕ
  pub flags : ℕ
  pub payload : Bytes
  pub session_id : Bytes

pub record AnyMessage : Type 0 where
  pub type_url : Bytes
  pub value : Bytes

pub record Formats : Type 0 where
  pub unmarshal_message : Bytes → Option JsonMessage
  pub unmarshal_string : Bytes → Option Bytes
  -- `Unmarshal` into any value, and `Marshal` of that.
  pub reformat : Bytes → Option Bytes
  pub marshal_string_message : JsonMessage → Option Bytes
  pub marshal_raw_message : JsonMessage → Option Bytes
  pub unmarshal_any : Bytes → Option AnyMessage
  pub marshal_any : AnyMessage → Option Bytes
  pub encode_base64 : Bytes → Bytes
  pub decode_base64 : Bytes → Option Bytes

abbrev pub or_refused : {A : Type 0} → Option A → Converted A
or_refused none = err refused
or_refused (some x) = ok x

-- An error of a library that is wrapped in `ErrInvalidFormat`.
abbrev pub or_invalid : {A : Type 0} → Option A → Converted A
or_invalid none = err invalid_format
or_invalid (some x) = ok x

infixl 5 ◌>>=◌
abbrev pub ◌>>=◌ : {A B : Type 0} → Converted A → (A → Converted B) → Converted B
ok a >>= f = f a
err e >>= f = err e
panic >>= f = panic

abbrev pub from_outcome : {A : Type 0} → Outcome A → Converted A
from_outcome (Outcome.ok x) = ok x
from_outcome (Outcome.err e) = err (codec e)
from_outcome Outcome.panic = panic

-- `hashString`, from a value on.
unfoldable pub hash_from : ℕ → Bytes → ℕ
hash_from h [] = h
hash_from h (c ∷ cs) = hash_from ((31 * h + c) % 2 ^ 64) cs

abbrev pub hash_string : Bytes → ℕ
hash_string s = hash_from 0 s

-- `uint16(hashString(s) % 65535)`
abbrev pub hashed_type : Bytes → ℕ
hashed_type s = to_u16 (int_rem (hash_string s) 65535)

unfoldable pub service_type_to_name : ℕ → Bytes
unfolding decimal
service_type_to_name n =
    if n == 1
    then utf8 "Gateway"
    else if n == 2
    then utf8 "Chat"
    else if n == 3
    then utf8 "Game"
    else if n == 4
    then utf8 "Auth"
    else utf8 "Service" ++ decimal n

unfoldable pub message_type_to_name : ℕ → Bytes
unfolding decimal
message_type_to_name n =
    if n == 1
    then utf8 "Request"
    else if n == 2
    then utf8 "Response"
    else if n == 3
    then utf8 "Notification"
    else if n == 4
    then utf8 "Error"
    else utf8 "Message" ++ decimal n

abbrev with_flags : ℕ → Message → Message
with_flags flags m = record m { flags = flags }

-- The binary form, which WebSocket and QUIC share.
unfoldable pub read_binary : ℕ → Bytes → Converted Message
unfolding new_message
read_binary now raw =
    if ltb (length raw) 5
    then err invalid_format
    else ok (
        with_flags (get_uint (take 1 raw)) (
          new_message now (get_uint (take 2 (drop 1 raw))) (get_uint (take 2 (drop 3 raw)))
            (drop 5 raw)))

unfoldable pub write_binary : Message → Bytes
write_binary m = m.flags ∷ put_u16 m.service_type ++ put_u16 m.message_type ++ m.payload

-- `len(parts) != 2`
abbrev two_parts : List Bytes → Option (Bytes × Bytes)
two_parts [] = none
two_parts (a ∷ []) = none
two_parts (a ∷ b ∷ []) = some (a, b)
two_parts (a ∷ b ∷ c ∷ parts) = none

-- The types that the URL `host/service.message` stands for.
unfoldable pub named_types : Bytes → Option (ℕ × ℕ)
unfolding split hash_from
named_types url = elim (two_parts (split b'/' url)) [
  | none ↦ none
  | some (host, name) ↦ elim (two_parts (split b'.' name)) [
    | none ↦ none
    | some (service, message) ↦ some (hashed_type service, hashed_type message)
  ]
]

module _ (formats : Formats) (now : ℕ) where
  abbrev json_payload : Bytes → Bytes
  json_payload [] = []
  json_payload (c ∷ raw) = elim (formats.unmarshal_string (c ∷ raw)) [ some s ↦ s | none ↦ c ∷ raw ]

  abbrev from_json : JsonMessage → Message
  from_json j =
      let m = new_message now j.service_type j.message_type (json_payload j.payload) in
      record m { flags = j.flags; session_id = j.session_id }

  abbrev from_any : AnyMessage → Converted Message
  from_any a = elim (named_types a.type_url) [
    | none ↦ err invalid_format
    | some (service, message) ↦ ok (new_message now service message a.value)
  ]

  unfoldable pub convert_web_socket_to_internal : FormatType → Bytes → Converted Message
  unfolding read_binary new_message named_types
  convert_web_socket_to_internal binary raw = read_binary now raw
  convert_web_socket_to_internal json raw =
      or_refused (formats.unmarshal_message raw) >>= λ j. ok (from_json j)
  convert_web_socket_to_internal protobuf raw = or_refused (formats.unmarshal_any raw) >>= from_any
  convert_web_socket_to_internal text raw = err unsupported_format
  convert_web_socket_to_internal other_format raw = err unsupported_format

  abbrev parts_to_internal : List Bytes → Converted Message
  parts_to_internal [] = err invalid_format
  parts_to_internal (a ∷ []) = err invalid_format
  parts_to_internal (a ∷ b ∷ []) = err invalid_format
  parts_to_internal (a ∷ b ∷ c ∷ []) = or_invalid (parse_uint 65536 a) >>= λ service.
      or_invalid (parse_uint 65536 b) >>= λ message.
      or_invalid (formats.decode_base64 c) >>= λ payload.
      ok (new_message now service message payload)
  parts_to_internal (a ∷ b ∷ c ∷ d ∷ parts) = err invalid_format

  unfoldable pub convert_quic_to_internal : FormatType → Bytes → Converted Message
  unfolding read_binary new_message named_types split parse_uint
  convert_quic_to_internal binary raw = read_binary now raw
  convert_quic_to_internal json raw =
      or_invalid (formats.unmarshal_message raw) >>= λ j. ok (from_json j)
  convert_quic_to_internal protobuf raw = or_invalid (formats.unmarshal_any raw) >>= from_any
  convert_quic_to_internal text raw = parts_to_internal (split b':' raw)
  convert_quic_to_internal other_format raw = err unsupported_format

  -- `ToInternal`, with what the capacity of the slice has behind the bytes.
  unfoldable pub to_internal : Bytes → ConnectionType → FormatType → Bytes → Converted Message
  unfolding convert_web_socket_to_internal convert_quic_to_internal decode
  to_internal spare web_socket format raw = convert_web_socket_to_internal format raw
  to_internal spare quic format raw = convert_quic_to_internal format raw
  to_internal spare internal format raw = from_outcome (decode raw spare)
  to_internal spare other_connection format raw = err unsupported_format

module _ (formats : Formats) where
  abbrev to_json : Message → Bytes → JsonMessage
  to_json m payload = record {
    service_type = m.service_type;
    message_type = m.message_type;
    flags = m.flags;
    payload = payload;
    session_id = m.session_id;
  }

  abbrev string_payload : Bytes → Bytes
  string_payload [] = []
  string_payload (c ∷ bs) = elim (formats.unmarshal_string (c ∷ bs)) [ some s ↦ s | none ↦ c ∷ bs ]

  unfoldable pub convert_internal_to_web_socket : FormatType → Message → Converted Bytes
  unfolding write_binary decimal
  convert_internal_to_web_socket binary m = ok (write_binary m)
  convert_internal_to_web_socket json m =
      or_refused (formats.marshal_string_message (to_json m (string_payload m.payload)))
  convert_internal_to_web_socket protobuf m = or_refused (
      formats.marshal_any (record {
        type_url =
            utf8 "type.googleapis.com/service"
            ++ decimal m.service_type
            ++ utf8 ".message"
            ++ decimal m.message_type;
        value = m.payload;
      }))
  convert_internal_to_web_socket text m = err unsupported_format
  convert_internal_to_web_socket other_format m = err unsupported_format

  -- Whether the last byte of a payload, from a byte on, is the given one.
  unfoldable pub ends_with? : ℕ → ℕ → Bytes → Bool
  ends_with? last c [] = c == last
  ends_with? last c (d ∷ bs) = ends_with? last d bs

  unfoldable pub raw_payload : Bytes → Bytes
  unfolding ends_with?
  raw_payload [] = []
  raw_payload (c ∷ bs) =
      if (c == b'{') && ends_with? b'}' c bs
      then (elim (formats.reformat (c ∷ bs)) [ some s ↦ s | none ↦ c ∷ bs ])
      else c ∷ bs

  unfoldable pub convert_internal_to_quic : FormatType → Message → Converted Bytes
  unfolding write_binary decimal service_type_to_name message_type_to_name raw_payload
  convert_internal_to_quic binary m = ok (write_binary m)
  convert_internal_to_quic json m =
      or_refused (formats.marshal_raw_message (to_json m (raw_payload m.payload)))
  convert_internal_to_quic protobuf m = or_refused (
      formats.marshal_any (record {
        type_url =
            utf8 "type.googleapis.com/"
            ++ service_type_to_name m.service_type
            ++ utf8 "."
            ++ message_type_to_name m.message_type;
        value = m.payload;
      }))
  convert_internal_to_quic text m = ok (
      decimal m.service_type
      ++ (b':' ∷ decimal m.message_type ++ (b':' ∷ formats.encode_base64 m.payload)))
  convert_internal_to_quic other_format m = err unsupported_format

  -- `FromInternal`
  unfoldable pub from_internal : ConnectionType → FormatType → Message → Converted Bytes
  unfolding convert_internal_to_web_socket convert_internal_to_quic encode
  from_internal web_socket format m = convert_internal_to_web_socket format m
  from_internal quic format m = convert_internal_to_quic format m
  from_internal internal format m = from_outcome (encode m)
  from_internal other_connection format m = err unsupported_format
