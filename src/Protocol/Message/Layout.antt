-- ===== src/Protocol/Message/Layout.antt =====
-- A description of the output of `Encode` (pkg/protocol/message.go) that knows no buffer: the
-- pieces of an encoded message in their order. The two low bytes of the payload length are missing,
-- since the length of the source service name stands in their place.
use mmo_server.Common.{
  ◌/◌, ◌%◌, ◌^◌, ◌∷◌, ◌++◌, [], length, take, Bytes, to_u16, put_u16, put_u32, put_u64,
}
use mmo_server.Protocol.Message.{Message}

-- The bytes 0 to 19.
abbrev pub header_bytes : Message → Bytes
header_bytes m =
    m.version
    ∷ m.flags
    ∷ (put_u16 m.service_type
        ++ (put_u16 m.message_type
            ++ (put_u32 m.sequence_id
                ++ (put_u64 m.timestamp
                    ++ ((m.payload_length / 2 ^ 24 % 256)
                        ∷ (m.payload_length / 65536 % 256)
                        ∷ [])))))

-- What the 16-bit length of a string leaves of it.
abbrev pub clip : Bytes → Bytes
clip s = take (to_u16 (length s)) s

abbrev pub field_bytes : Bytes → Bytes
field_bytes s = put_u16 (to_u16 (length s)) ++ clip s

abbrev pub layout : Message → Bytes
layout m =
    header_bytes m
    ++ (field_bytes m.source_service
        ++ (field_bytes m.destination_service
            ++ (field_bytes m.correlation_id ++ (field_bytes m.session_id ++ m.payload))))
