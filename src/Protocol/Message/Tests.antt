-- ===== src/Protocol/Message/Tests.antt =====
-- Runs of the codec of pkg/protocol/message.go, and its theorems at concrete messages.
use mmo_server.Common.{ℕ, ◌≡◌, ◌↔◌, ◌<◌, ◌+◌, ◌≤◌, ◌⊎◌, refl, [], ◌∷◌, length, Bytes, arith}
use mmo_server.Protocol.Message.{
  Message, IsTyped, ok, err, CodecError, total_length, encode, decode, read_field, read_body,
  read_header, short_payload, protocol_version, header_size, max_payload_size,
  max_service_name_size,
}
use mmo_server.Protocol.Message.Layout.{layout}
use mmo_server.Protocol.Message.Encoding.{encode-layout}
use mmo_server.Protocol.Message.RoundTrip.{IsRegular, decode-encode, decode-encode_iff, decode-fits}

codec : Unit {0}
unfolding encode total_length decode read_field read_body read_header
codec = tt

-- A message from "gate" to "game" with two bytes of payload.
abbrev hello : Message
hello = record {
  version = 1;
  flags = 4;
  service_type = 3;
  message_type = 7;
  sequence_id = 9;
  timestamp = 1000;
  payload_length = 2;
  source_service = b'g' ∷ b'a' ∷ b't' ∷ b'e' ∷ [];
  destination_service = b'g' ∷ [];
  correlation_id = [];
  session_id = b's' ∷ [];
  payload = 5 ∷ 6 ∷ [];
}

abbrev hello_bytes : Bytes
hello_bytes = layout hello

hello_encoded : encode hello ≡ ok hello_bytes
unfolding codec
hello_encoded = refl

-- The payload is shorter than the sender's name, and the message cannot be read back.
hello_lost : decode hello_bytes [] ≡ err short_payload
unfolding codec
hello_lost = refl

abbrev two : Message
two = record hello { source_service = b'a' ∷ b'b' ∷ [] }

two_back : decode (layout two) [] ≡ ok two
unfolding codec
two_back = refl

hello-IsTyped : IsTyped hello
hello-IsTyped = omega arith

two-IsRegular : IsRegular two
two-IsRegular = omega arith

hello-IsRegular : IsRegular hello
hello-IsRegular = omega arith

decode-encode_example : decode hello_bytes (1 ∷ []) ≡ err short_payload
decode-encode_example = decode-encode hello hello_bytes (1 ∷ []) hello-IsTyped refl hello_encoded

two_encoded : encode two ≡ ok (layout two)
unfolding codec
two_encoded = refl

decode-encode_iff_example : (decode (layout two) [] ≡ ok two) ↔ (◌≡◌ {A = ℕ} 2 2)
decode-encode_iff_example = decode-encode_iff two two-IsRegular (layout two) [] two_encoded

decode-fits_example :
    (two.version ≡ protocol_version)
    × (length two.payload ≡ two.payload_length)
    × (header_size + (2 + 2) + (2 + 1) + (2 + 0) + (2 + 1) + 2 ≤ length (layout two))
decode-fits_example = decode-fits (layout two) [] two two_back

encode-layout_example :
    ((max_payload_size < length two.payload)
      × (encode two ≡ err (CodecError.payload_too_large (length two.payload))))
    ⊎ ((length two.payload ≤ max_payload_size)
        × (max_service_name_size < length two.source_service)
        × (encode two ≡ err (CodecError.source_name_too_long (length two.source_service))))
    ⊎ ((length two.payload ≤ max_payload_size)
        × (length two.source_service ≤ max_service_name_size)
        × (max_service_name_size < length two.destination_service)
        × (encode two
            ≡ err (CodecError.destination_name_too_long (length two.destination_service))))
    ⊎ ((length two.payload ≤ max_payload_size)
        × (length two.source_service ≤ max_service_name_size)
        × (length two.destination_service ≤ max_service_name_size)
        × (encode two ≡ ok (layout two)))
encode-layout_example = encode-layout two
