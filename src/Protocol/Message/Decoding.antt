-- ===== src/Protocol/Message/Decoding.antt =====
-- `Decode` of pkg/protocol/message.go: what it reads from the pieces of an encoded message, and
-- from short input.
use mmo_server.Common.{
  ℕ, ◌+◌, ◌*◌, ◌/◌, ◌≤◌, ◌≡◌, refl, sym, ap, ◌∙◌, [], ◌++◌, append_assoc, length, take,
  length-append, length-take, take-append, drop-append, leb, ==_iff, if◌then◌else◌, le→ltb, Bytes,
  to_u16, put_u16, get_uint, get-put_u16, get-put_u32, get-put_u64, get-put_u32_low, IsU16, arith,
}
use mmo_server.Protocol.Message.{
  Message, IsTyped, CodecError, Outcome, ok, err, slice, read_field, read_body, read_header, decode,
  short_payload, header_size, protocol_version,
}
use mmo_server.Protocol.Message.Layout.{header_bytes, clip, field_bytes, layout}

slice-append :
    (pre s rest : Bytes) (offset n : ℕ)
    → offset ≡ length pre
    → n ≡ length s
    → slice offset n (pre ++ (s ++ rest)) ≡ s
slice-append pre s rest offset n e k =
    rw (drop-append offset pre (s ++ rest) e) (take-append n s rest k)

read_field_present :
    (bs s : Bytes) (e1 e2 : CodecError) (offset n : ℕ)
    → get_uint (slice offset 2 bs) ≡ n
    → slice (offset + 2) n bs ≡ s
    → offset + 2 + n ≤ length bs
    → read_field bs e1 e2 offset ≡ ok (s, offset + 2 + n)
unfolding read_field
read_field_present bs s e1 e2 offset n size body fits =
    rw (size, le→ltb (length bs) (offset + 2) (omega arith), le→ltb _ _ fits, body)

-- A string field behind any prefix is read back.
read_field-append :
    (pre s rest : Bytes) (n : ℕ) (e1 e2 : CodecError) (offset : ℕ)
    → offset ≡ length pre
    → n ≡ length s
    → IsU16 n
    → read_field (pre ++ ((put_u16 n ++ s) ++ rest)) e1 e2 offset ≡ ok (s, offset + 2 + n)
read_field-append pre s rest n e1 e2 offset e k h =
    let bs = pre ++ ((put_u16 n ++ s) ++ rest) in
    let total : length bs ≡ length pre + (2 + length s + length rest) =
      omega (arith, length-append pre ((put_u16 n ++ s) ++ rest), length-append s rest) in
    let size : slice offset 2 bs ≡ put_u16 n =
      slice-append pre (put_u16 n) (s ++ rest) offset 2 e refl in
    let body : slice (offset + 2) n bs ≡ s =
      ap (slice (offset + 2) n) (sym (append_assoc pre (put_u16 n) (s ++ rest)))
      ∙ slice-append (pre ++ put_u16 n) s rest (offset + 2) n
          (omega (arith, length-append pre (put_u16 n))) k in
    read_field_present bs s e1 e2 offset n (ap get_uint size ∙ get-put_u16 n h) body (omega arith)

-- The same for a string as `Encode` writes it, and for the offset behind it.
read_field-field_bytes :
    (pre s rest : Bytes) (e1 e2 : CodecError) (offset : ℕ)
    → offset ≡ length pre
    → read_field (pre ++ (field_bytes s ++ rest)) e1 e2 offset
      ≡ ok (clip s, offset + 2 + to_u16 (length s))
read_field-field_bytes pre s rest e1 e2 offset e =
    read_field-append pre (clip s) rest (to_u16 (length s)) e1 e2 offset e
      (omega (arith, length-take (to_u16 (length s)) s)) (omega arith)

offset-append :
    (pre s : Bytes) (offset : ℕ)
    → offset ≡ length pre
    → offset + 2 + to_u16 (length s) ≡ length (pre ++ field_bytes s)
offset-append pre s offset e =
    omega (arith, length-append pre (field_bytes s), length-take (to_u16 (length s)) s)

-- What `Decode` makes of the strings and the payload of `m`, behind a header `h`.
abbrev pub with_body : Message → Message → Outcome Message
with_body h m =
    if leb h.payload_length (length m.payload)
    then ok (record h {
      source_service = clip m.source_service;
      destination_service = clip m.destination_service;
      correlation_id = clip m.correlation_id;
      session_id = clip m.session_id;
      payload = take h.payload_length m.payload;
    })
    else err short_payload

read_body-layout :
    (pre : Bytes) (h m : Message)
    → 20 ≡ length pre
    → read_body
        (pre
          ++ (field_bytes m.source_service
              ++ (field_bytes m.destination_service
                  ++ (field_bytes m.correlation_id ++ (field_bytes m.session_id ++ m.payload)))))
        h
      ≡ with_body h m
unfolding read_body
read_body-layout pre h m e =
    let f1 = field_bytes m.source_service in
    let f2 = field_bytes m.destination_service in
    let f3 = field_bytes m.correlation_id in
    let f4 = field_bytes m.session_id in
    let e1 = offset-append pre m.source_service 20 e in
    let e2 = offset-append (pre ++ f1) m.destination_service _ e1 in
    let e3 = offset-append (pre ++ f1 ++ f2) m.correlation_id _ e2 in
    let e4 = offset-append (pre ++ f1 ++ f2 ++ f3) m.session_id _ e3 in
    let p4 = pre ++ f1 ++ f2 ++ f3 ++ f4 in
    rw
      (
        read_field-field_bytes pre m.source_service (f2 ++ (f3 ++ (f4 ++ m.payload))) _ _ 20 e,
        ← append_assoc pre f1 (f2 ++ (f3 ++ (f4 ++ m.payload))),
        read_field-field_bytes (pre ++ f1) m.destination_service (f3 ++ (f4 ++ m.payload)) _ _ _ e1,
        ← append_assoc (pre ++ f1) f2 (f3 ++ (f4 ++ m.payload)),
        read_field-field_bytes (pre ++ f1 ++ f2) m.correlation_id (f4 ++ m.payload) _ _ _ e2,
        ← append_assoc (pre ++ f1 ++ f2) f3 (f4 ++ m.payload),
        read_field-field_bytes (pre ++ f1 ++ f2 ++ f3) m.session_id m.payload _ _ _ e3,
        ← append_assoc (pre ++ f1 ++ f2 ++ f3) f4 m.payload,
        drop-append _ p4 m.payload e4,
      )
      (ground (arith, length-append p4 m.payload))

-- The payload length that `Decode` sees: the high half of the one that was written, and the length
-- of the source service name in its low half.
abbrev pub seen_length : Message → ℕ
seen_length m = m.payload_length / 65536 * 65536 + to_u16 (length m.source_service)

abbrev pub seen_header : Message → Message
seen_header m = record m {
  payload_length = seen_length m;
  source_service = [];
  destination_service = [];
  correlation_id = [];
  session_id = [];
  payload = [];
}

read_header-layout :
    (m : Message) (spare : Bytes) → IsTyped m → read_header (layout m ++ spare) ≡ seen_header m
unfolding read_header
read_header-layout m spare t =
    rw
      (
        get-put_u16 m.service_type t.service_type_u16,
        get-put_u16 m.message_type t.message_type_u16,
        get-put_u32 m.sequence_id t.sequence_id_u32,
        get-put_u64 m.timestamp t.timestamp_u64,
        get-put_u32_low m.payload_length (to_u16 (length m.source_service)) t.payload_length_u32
            (omega arith),
      )
      (ground arith)

pub decode-layout :
    (m : Message) (spare : Bytes)
    → IsTyped m
    → m.version ≡ protocol_version
    → decode (layout m) spare ≡ with_body (seen_header m) m
unfolding decode
decode-layout m spare t v =
    rw
      (
        read_header-layout m spare t,
        le→ltb (length (layout m)) header_size (omega arith),
        le→ltb (length (layout m ++ spare)) 22 (omega arith),
        (==_iff m.version protocol_version).1 v,
      )
      (read_body-layout (header_bytes m) (seen_header m) m refl)
