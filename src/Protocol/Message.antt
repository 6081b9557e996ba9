-- ===== src/Protocol/Message.antt =====
-- pkg/protocol/message.go: the internal message and its binary codec, `Encode` and `Decode`.
-- A Go string is the list of its bytes. `Encode` allocates a buffer and writes slices of it, and a
-- slice out of range is a panic; the writes follow the source's order and offsets, so a later write
-- covers an earlier one where their ranges meet. `Decode` gets a slice with the bytes behind it in
-- its array (`spare`), since a Go slice expression may reach up to the capacity.
pub mod Layout
pub mod Encoding
pub mod Decoding
pub mod RoundTrip
pub mod Flags
mod Tests
use mmo_server.Common.{
  ℕ, ◌+◌, ◌-◌, ◌*◌, ◌≤◌, ◌<◌, ◌≡◌, Bool, true, false, not, List, [], ◌∷◌, ◌++◌, length, take, drop,
  replicate, ltb, leb, ◌==◌, if◌then◌else◌, Bytes, to_u16, to_u32, put_u16, put_u32, put_u64,
  get_uint, IsU8, IsU16, IsU32, IsU64, bit_and, bit_or, bit_xor,
}

abbrev pub protocol_version : ℕ
protocol_version = 1

abbrev pub flag_none : ℕ
flag_none = 0

abbrev pub max_message_size : ℕ
max_message_size = 10 * 1024 * 1024

abbrev pub header_size : ℕ
header_size = 20

abbrev pub max_payload_size : ℕ
max_payload_size = max_message_size - header_size

abbrev pub max_service_name_size : ℕ
max_service_name_size = 32

pub record Message : Type 0 where
  pub version : ℕ
  pub flags : ℕ
  pub service_type : ℕ
  pub message_type : ℕ
  pub sequence_id : ℕ
  pub timestamp : ℕ
  pub payload_length : ℕ
  pub source_service : Bytes
  pub destination_service : Bytes
  pub correlation_id : Bytes
  pub session_id : Bytes
  pub payload : Bytes

-- The ranges of the fields' Go types.
pub record IsTyped (m : Message) : Type 0 where
  pub version_u8 : IsU8 m.version
  pub flags_u8 : IsU8 m.flags
  pub service_type_u16 : IsU16 m.service_type
  pub message_type_u16 : IsU16 m.message_type
  pub sequence_id_u32 : IsU32 m.sequence_id
  pub timestamp_u64 : IsU64 m.timestamp
  pub payload_length_u32 : IsU32 m.payload_length

-- `NewMessage`; the time in microseconds is an argument.
unfoldable pub new_message : ℕ → ℕ → ℕ → Bytes → Message
new_message now service_type message_type payload = record {
  version = protocol_version;
  flags = flag_none;
  service_type = service_type;
  message_type = message_type;
  sequence_id = 0;
  timestamp = now;
  payload_length = to_u32 (length payload);
  source_service = [];
  destination_service = [];
  correlation_id = [];
  session_id = [];
  payload = payload;
}

-- `SetFlag`, `ClearFlag`, `HasFlag`; `^flag` is the complement of a byte.
pub set_flag : Message → ℕ → Message
set_flag m flag = record m { flags = bit_or m.flags flag }

pub clear_flag : Message → ℕ → Message
clear_flag m flag = record m { flags = bit_and m.flags (bit_xor flag 255) }

pub has_flag : Message → ℕ → Bool
has_flag m flag = not (bit_and m.flags flag == 0)

pub data CodecError : Type 0 where
  payload_too_large source_name_too_long destination_name_too_long : ℕ → CodecError
  short_header : CodecError
  unsupported_version : ℕ → CodecError
  short_source_length short_source : CodecError
  short_destination_length short_destination : CodecError
  short_correlation_length short_correlation : CodecError
  short_session_length short_session : CodecError
  short_payload : CodecError

-- A value, an error, or a run-time panic.
pub data Outcome {ℓ} (A : Type ℓ) : Type ℓ where
  ok : A → Outcome A
  err : CodecError → Outcome A
  panic : Outcome A

infixl 5 ◌>>=◌
abbrev pub ◌>>=◌ {ℓ κ} : {A : Type ℓ} {B : Type κ} → Outcome A → (A → Outcome B) → Outcome B
ok a >>= f = f a
err e >>= f = err e
panic >>= f = panic

-- Bytes from `bs` over the front of the second list, as many as both have.
abbrev pub overwrite : Bytes → Bytes → Bytes
overwrite [] ys = ys
overwrite (b ∷ bs) [] = []
overwrite (b ∷ bs) (y ∷ ys) = b ∷ overwrite bs ys

-- `copy(buffer[offset:offset+n], bs)`, also for the writes of `binary.BigEndian`.
pub write_slice : ℕ → ℕ → Bytes → Bytes → Outcome Bytes
write_slice offset n bs buffer =
    if leb (offset + n) (length buffer)
    then ok (take offset buffer ++ overwrite (take n bs) (drop offset buffer))
    else panic

-- The fixed header: the last write covers the bytes 18 to 21.
pub write_header : Message → Bytes → Outcome Bytes
write_header m buffer = do
  b0 ← write_slice 0 1 (m.version ∷ []) buffer
  b1 ← write_slice 1 1 (m.flags ∷ []) b0
  b2 ← write_slice 2 2 (put_u16 m.service_type) b1
  b3 ← write_slice 4 2 (put_u16 m.message_type) b2
  b4 ← write_slice 6 4 (put_u32 m.sequence_id) b3
  b5 ← write_slice 10 8 (put_u64 m.timestamp) b4
  write_slice 18 4 (put_u32 m.payload_length) b5

-- One string with its 16-bit length in front; the new offset is returned with the buffer.
pub write_field : Bytes → ℕ × Bytes → Outcome (ℕ × Bytes)
write_field s (offset, buffer) = do
  let n = to_u16 (length s)
  b1 ← write_slice offset 2 (put_u16 n) buffer
  b2 ← write_slice (offset + 2) n s b1
  ok (offset + 2 + n, b2)

pub total_length : Message → ℕ
total_length m =
    header_size
    + (2 + to_u16 (length m.source_service))
    + (2 + to_u16 (length m.destination_service))
    + (2 + to_u16 (length m.correlation_id))
    + (2 + to_u16 (length m.session_id))
    + length m.payload

-- `copy(buffer[offset:], m.Payload)`.
pub write_payload : Message → ℕ × Bytes → Outcome Bytes
write_payload m (offset, buffer) = write_slice offset (length buffer - offset) m.payload buffer

pub write_message : Message → Outcome Bytes
unfolding total_length
write_message m = do
  b ← write_header m (replicate (total_length m) 0)
  s1 ← write_field m.source_service (header_size, b)
  s2 ← write_field m.destination_service s1
  s3 ← write_field m.correlation_id s2
  s4 ← write_field m.session_id s3
  write_payload m s4

unfoldable pub encode : Message → Outcome Bytes
unfolding write_slice write_header write_field write_payload write_message
encode m =
    if ltb max_payload_size (length m.payload)
    then err (payload_too_large (length m.payload))
    else if ltb max_service_name_size (length m.source_service)
    then err (source_name_too_long (length m.source_service))
    else if ltb max_service_name_size (length m.destination_service)
    then err (destination_name_too_long (length m.destination_service))
    else write_message m

-- `data[offset : offset+n]`, in range.
abbrev pub slice : ℕ → ℕ → Bytes → Bytes
slice offset n bs = take n (drop offset bs)

-- One string with its 16-bit length in front, and the offset behind it.
pub read_field : Bytes → CodecError → CodecError → ℕ → Outcome (Bytes × ℕ)
read_field bs no_length no_string offset =
    let n = get_uint (slice offset 2 bs) in
    if ltb (length bs) (offset + 2)
    then err no_length
    else if ltb (length bs) (offset + 2 + n)
    then err no_string
    else ok (slice (offset + 2) n bs, offset + 2 + n)

-- The part of `Decode` behind the version check, for a header that is read already.
pub read_body : Bytes → Message → Outcome Message
read_body bs m = do
  (source, o1) ← read_field bs short_source_length short_source header_size
  (destination, o2) ← read_field bs short_destination_length short_destination o1
  (correlation, o3) ← read_field bs short_correlation_length short_correlation o2
  (session, o4) ← read_field bs short_session_length short_session o3
  if ltb (length bs) (o4 + m.payload_length)
      then err short_payload
      else ok (record m {
        source_service = source;
        destination_service = destination;
        correlation_id = correlation;
        session_id = session;
        payload = slice o4 m.payload_length bs;
      })

-- The fixed header, read from the slice with the rest of its array behind it.
pub read_header : Bytes → Message
read_header bs = record {
  version = get_uint (slice 0 1 bs);
  flags = get_uint (slice 1 1 bs);
  service_type = get_uint (slice 2 2 bs);
  message_type = get_uint (slice 4 2 bs);
  sequence_id = get_uint (slice 6 4 bs);
  timestamp = get_uint (slice 10 8 bs);
  payload_length = get_uint (slice 18 4 bs);
  source_service = [];
  destination_service = [];
  correlation_id = [];
  session_id = [];
  payload = [];
}

-- `Decode(bs)` for a slice whose array goes on with `spare`.
unfoldable pub decode : Bytes → Bytes → Outcome Message
decode bs spare =
    let m = read_header (bs ++ spare) in
    if ltb (length bs) header_size
    then err short_header
    else if ltb (length (bs ++ spare)) 22
    then panic
    else if m.version == protocol_version
    then read_body bs m
    else err (unsupported_version m.version)
