-- ===== src/Protocol/Message/RoundTrip.antt =====
-- `Decode` behind `Encode` (pkg/protocol/message.go), and what `Decode` promises of any input.
use mmo_server.Common.{
  ℕ, ◌+◌, ◌*◌, ◌/◌, ◌%◌, ◌≤◌, ◌≡◌, ◌↔◌, refl, sym, ap, ◌∙◌, ◌++◌, length, take, drop, length-take,
  length-drop, take-enough, leb, if◌then◌else◌, Bytes, to_u16, IsU16, get_uint, arith,
}
use mmo_server.Protocol.Message.{
  Message, IsTyped, Outcome, CodecError, ok, err, panic, ◌>>=◌, encode, decode, read_field,
  read_body, read_header, slice, protocol_version, short_payload, header_size,
  max_service_name_size,
}
use mmo_server.Protocol.Message.Layout.{clip, layout}
use mmo_server.Protocol.Message.Encoding.{encode-layout}
use mmo_server.Protocol.Message.Decoding.{decode-layout}

encode-ok : (m : Message) (bs : Bytes) → encode m ≡ ok bs → bs ≡ layout m
encode-ok m bs e = ground (arith, encode-layout m)

-- What `Decode` returns for the bytes that `Encode` made of a message of the current version, with
-- any bytes behind them in the array. It sees the payload length with the length of the source
-- service name in place of its low 16 bits. If the payload has that many bytes, the message comes
-- back with that payload length, the payload cut there and each string cut to its 16-bit length;
-- else the answer is the error for a short payload.
pub decode-encode :
    (m : Message) (bs spare : Bytes)
    → IsTyped m
    → m.version ≡ protocol_version
    → encode m ≡ ok bs
    → decode bs spare ≡ (
        if leb
          (m.payload_length / 65536 * 65536 + to_u16 (length m.source_service))
          (length m.payload)
        then ok (record m {
          payload_length = m.payload_length / 65536 * 65536 + to_u16 (length m.source_service);
          source_service = clip m.source_service;
          destination_service = clip m.destination_service;
          correlation_id = clip m.correlation_id;
          session_id = clip m.session_id;
          payload =
              take (m.payload_length / 65536 * 65536 + to_u16 (length m.source_service)) m.payload;
        })
        else err short_payload)
decode-encode m bs spare t v e =
    ap (λ b. decode b spare) (encode-ok m bs e) ∙ decode-layout m spare t v

-- A message whose payload length is that of its payload, and whose strings fit their length fields.
pub record IsRegular (m : Message) : Type 0 where
  pub typed : IsTyped m
  pub current : m.version ≡ protocol_version
  pub counted : m.payload_length ≡ length m.payload
  pub correlation_fits : IsU16 (length m.correlation_id)
  pub session_fits : IsU16 (length m.session_id)

clip_short : (s : Bytes) → IsU16 (length s) → clip s ≡ s
clip_short s h = take-enough (to_u16 (length s)) s (omega arith)

name_short :
    (m : Message) (bs : Bytes)
    → encode m ≡ ok bs
    → (length m.source_service ≤ max_service_name_size)
      × (length m.destination_service ≤ max_service_name_size)
name_short m bs e = ground (arith, encode-layout m)

module _ (m : Message) (r : IsRegular m) (bs spare : Bytes) (e : encode m ≡ ok bs) where
  -- For a regular message that `Encode` accepts, `Decode` gives it back exactly when the length of
  -- its source service name is the payload length's remainder modulo 65536.
  pub decode-encode_iff :
      (decode bs spare ≡ ok m) ↔ (length m.source_service ≡ m.payload_length % 65536)
  decode-encode_iff = (there, back)
    where
      names : (length m.source_service ≤ 32) × (length m.destination_service ≤ 32)
      names = name_short m bs e

      there : decode bs spare ≡ ok m → length m.source_service ≡ m.payload_length % 65536
      there h =
          let s = sym (decode-encode m bs spare r.typed r.current e) ∙ h in ground (arith, names.0)

      back : length m.source_service ≡ m.payload_length % 65536 → decode bs spare ≡ ok m
      back h =
          decode-encode m bs spare r.typed r.current e
          ∙ ground (
            arith,
            names.0,
            r.counted,
            clip_short m.source_service (omega (arith, names.0)),
            clip_short m.destination_service (omega (arith, names.1)),
            clip_short m.correlation_id r.correlation_fits,
            clip_short m.session_id r.session_fits,
            take-enough (length m.payload) m.payload (omega arith),
          )

>>=-eq-ok {ℓ κ μ} :
    {A : Type ℓ} {B : Type κ} (P : Type μ) (r : Outcome A) (f : A → Outcome B) {b : B}
    → (r >>= f) ≡ ok b
    → ((a : A) → r ≡ ok a → f a ≡ ok b → P)
    → P
>>=-eq-ok P (ok a) f h k = k a refl h
>>=-eq-ok P (err c) f h k = absurd (cc)
>>=-eq-ok P panic f h k = absurd (cc)

read_field_fits :
    (bs s : Bytes) (e1 e2 : CodecError) (o o' : ℕ)
    → read_field bs e1 e2 o ≡ ok (s, o')
    → (o' ≡ o + 2 + length s) × (o' ≤ length bs) × (s ≡ slice (o + 2) (length s) bs)
unfolding read_field
read_field_fits bs s e1 e2 o o' h =
    let n = get_uint (slice o 2 bs) in
    ground (arith, length-take n (drop (o + 2) bs), length-drop (o + 2) bs)

-- The same of the strings and the payload.
abbrev Fits : Bytes → Message → Type 0
Fits bs m =
    (length m.payload ≡ m.payload_length)
    × (header_size
          + (2 + length m.source_service)
          + (2 + length m.destination_service)
          + (2 + length m.correlation_id)
          + (2 + length m.session_id)
          + length m.payload
        ≤ length bs)

read_body-Fits :
    (bs : Bytes) (h m : Message) → read_body bs h ≡ ok m → Fits bs m × (m.version ≡ h.version)
unfolding read_body
read_body-Fits bs h m e = >>=-eq-ok _ (read_field bs _ _ _) _ e λ (s1, o1) r1 e1.
    >>=-eq-ok _ (read_field bs _ _ _) _ e1 λ (s2, o2) r2 e2.
      >>=-eq-ok _ (read_field bs _ _ _) _ e2 λ (s3, o3) r3 e3.
        >>=-eq-ok _ (read_field bs _ _ _) _ e3 λ (s4, o4) r4 e4. ground (
          arith,
          read_field_fits bs s1 _ _ _ o1 r1,
          read_field_fits bs s2 _ _ _ o2 r2,
          read_field_fits bs s3 _ _ _ o3 r3,
          read_field_fits bs s4 _ _ _ o4 r4,
          length-take h.payload_length (drop o4 bs),
          length-drop o4 bs,
        )

-- A slice that `Decode` accepts has the current version, and holds the 20 bytes of the header, the
-- four strings with two bytes for each length, and a payload of the payload length that was read.
pub decode-fits :
    (bs spare : Bytes) (m : Message)
    → decode bs spare ≡ ok m
    → (m.version ≡ protocol_version)
      × (length m.payload ≡ m.payload_length)
      × (header_size
            + (2 + length m.source_service)
            + (2 + length m.destination_service)
            + (2 + length m.correlation_id)
            + (2 + length m.session_id)
            + length m.payload
          ≤ length bs)
unfolding decode
decode-fits bs spare m h = ground (arith, read_body-Fits bs (read_header (bs ++ spare)) m)
