-- ===== src/Protocol/Converter/Tests.antt =====
-- pkg/protocol/converter.go with an encoding of payloads that moves every byte past the colon.
use mmo_server.Common.{
  ◌+◌, ◌-◌, ◌≡◌, refl, true, [], ◌∷◌, map, none, some, if◌then◌else◌, ◌&&◌, ◌==◌, Bytes, nat_key,
  arith,
}
use mmo_server.Common.Ints.{int_rem}
use mmo_server.Common.Decimal.{decimal, digits}
use mmo_server.Common.Split.{split, lacks?}
use mmo_server.Protocol.Message.{Message, IsTyped, new_message}
use mmo_server.Protocol.Converter.{
  Formats, web_socket, quic, protobuf, text, ok, ◌>>=◌, from_internal, to_internal, hash_from,
  named_types, convert_internal_to_web_socket, convert_web_socket_to_internal,
}
use mmo_server.Protocol.Converter.Types.{Processors, register_processor, get_processor}
use mmo_server.Protocol.Converter.RoundTrip.{
  IsBase64, quic_text, carried, to_internal-from_internal, get_processor-register,
}

abbrev shift : Bytes → Bytes
shift bs = map (λ c. c + 59) bs

abbrev back : Bytes → Bytes
back bs = map (λ c. c - 59) bs

-- One message stands for every message of protobuf.
abbrev formats : Formats
formats = record {
  unmarshal_message = λ bs. none;
  unmarshal_string = λ bs. none;
  reformat = λ bs. none;
  marshal_string_message = λ j. none;
  marshal_raw_message = λ j. none;
  unmarshal_any = λ bs. some (record { type_url = bs; value = [] });
  marshal_any = λ a. some a.type_url;
  encode_base64 = shift;
  decode_base64 = λ bs. some (back bs);
}

back-shift : (bs : Bytes) → back (shift bs) ≡ bs
back-shift [] = refl
back-shift (c ∷ bs) = grind (arith, back-shift bs)

lacks?-shift : (bs : Bytes) → lacks? b':' (shift bs) ≡ true
unfolding lacks?
lacks?-shift [] = refl
lacks?-shift (c ∷ bs) = ground (arith, lacks?-shift bs)

formats-IsBase64 : IsBase64 formats
formats-IsBase64 = record { decodes = λ bs. rw (back-shift bs) refl; no_colon = lacks?-shift }

abbrev message : Message
message = record {
  version = 1;
  flags = 4;
  service_type = 1;
  message_type = 2;
  sequence_id = 7;
  timestamp = 0;
  payload_length = 2;
  source_service = [];
  destination_service = [];
  correlation_id = [];
  session_id = [];
  payload = 10 ∷ 20 ∷ [];
}

message-IsTyped : IsTyped message
message-IsTyped = record {
  version_u8 = omega arith;
  flags_u8 = omega arith;
  service_type_u16 = omega arith;
  message_type_u16 = omega arith;
  sequence_id_u32 = omega arith;
  timestamp_u64 = omega arith;
  payload_length_u32 = omega arith;
}

to_internal-from_internal_example :
    (from_internal formats quic text message >>= to_internal formats 9 [] quic text)
    ≡ ok (carried text 9 message)
to_internal-from_internal_example =
    to_internal-from_internal formats 9 [] quic text message quic_text message-IsTyped
      formats-IsBase64

-- The types of a message that goes as protobuf come back as hashes of their names.
types_hashed :
    (from_internal formats web_socket protobuf message
      >>= to_internal formats 9 [] web_socket protobuf)
    ≡ ok (new_message 9 25927 59471 [])
unfolding from_internal to_internal convert_internal_to_web_socket convert_web_socket_to_internal
    new_message named_types split hash_from decimal digits int_rem
types_hashed = refl

abbrev processors : Processors
processors = (65537, 5) ∷ []

get_processor-register_example :
    get_processor (register_processor processors 1 2 6) 1 2
    ≡ (if (1 == 1) && (2 == 2) then some 6 else get_processor processors 1 2)
get_processor-register_example =
    get_processor-register processors 1 2 1 2 6 (omega arith) (omega arith)
