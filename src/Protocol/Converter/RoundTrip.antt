-- ===== src/Protocol/Converter/RoundTrip.antt =====
-- Messages that go out and come back through pkg/protocol/converter.go.
use mmo_server.Common.{
  ℕ, ◌+◌, ◌≡◌, ◌≢◌, inl, inr, refl, ap, ◌∙◌, true, false, ◌&&◌, [], ◌∷◌, ◌++◌, some, if_pos, if_neg,
  length, ltb, if◌then◌else◌, ◌==◌, Bytes, get-put_u16, IsU16, nat_key, ℕ_discrete, lookup-insert,
  Bool-cases, arith,
}
use mmo_server.Common.Decimal.{decimal, parse_uint-decimal}
use mmo_server.Common.Split.{split, lacks?, split-whole, split-append, lacks?-decimal}
use mmo_server.Protocol.Message.{Message, IsTyped, new_message}
use mmo_server.Protocol.Converter.{
  ConnectionType, FormatType, web_socket, quic, binary, text, ok, Formats, ◌>>=◌, with_flags,
  read_binary, write_binary, parts_to_internal, convert_web_socket_to_internal,
  convert_internal_to_web_socket, convert_quic_to_internal, convert_internal_to_quic, to_internal,
  from_internal,
}
use mmo_server.Protocol.Converter.Types.{
  Processors, make_processor_key, register_processor, get_processor,
}

-- What encoding/base64 does: decoding undoes encoding, and the alphabet has no colon.
pub record IsBase64 (formats : Formats) : Type 0 where
  pub decodes : (bs : Bytes) → formats.decode_base64 (formats.encode_base64 bs) ≡ some bs
  pub no_colon : (bs : Bytes) → lacks? b':' (formats.encode_base64 bs) ≡ true

-- The forms that no package of their own writes.
pub data IsPlain : ConnectionType → FormatType → Type 0 where
  web_socket_binary : IsPlain web_socket binary
  quic_binary : IsPlain quic binary
  quic_text : IsPlain quic text

-- What comes back of a message: a new one with its types and payload, and its flags but for the text
-- form.
abbrev pub carried : FormatType → ℕ → Message → Message
carried text now m = new_message now m.service_type m.message_type m.payload
carried f now m = with_flags m.flags (new_message now m.service_type m.message_type m.payload)

read-write_binary :
    (now : ℕ) (m : Message)
    → IsTyped m
    → read_binary now (write_binary m)
      ≡ ok (with_flags m.flags (new_message now m.service_type m.message_type m.payload))
unfolding read_binary write_binary new_message
read-write_binary now m t =
    rw
      (get-put_u16 m.service_type t.service_type_u16, get-put_u16 m.message_type t.message_type_u16)
      (let flags : 0 + m.flags ≡ m.flags = omega arith in
        let long : ltb (5 + length m.payload) 5 ≡ false = ground arith in
        rw (flags) (ground (arith, long)))

parts-to_internal :
    (formats : Formats) (now : ℕ) (m : Message)
    → IsTyped m
    → IsBase64 formats
    → parts_to_internal formats now
        (decimal m.service_type ∷ decimal m.message_type ∷ formats.encode_base64 m.payload ∷ [])
      ≡ ok (new_message now m.service_type m.message_type m.payload)
parts-to_internal formats now m t b =
    rw
      (
        parse_uint-decimal 65536 m.service_type t.service_type_u16,
        parse_uint-decimal 65536 m.message_type t.message_type_u16,
        b.decodes m.payload,
      )
      refl

split-text :
    (formats : Formats) (m : Message)
    → IsBase64 formats
    → split b':' (
        decimal m.service_type
        ++ (b':' ∷ decimal m.message_type ++ (b':' ∷ formats.encode_base64 m.payload)))
      ≡ decimal m.service_type ∷ decimal m.message_type ∷ formats.encode_base64 m.payload ∷ []
split-text formats m b =
    split-append b':' (decimal m.service_type) _ (lacks?-decimal b':' m.service_type (omega arith))
    ∙ ap (λ parts. decimal m.service_type ∷ parts)
        (split-append b':' (decimal m.message_type) _
            (lacks?-decimal b':' m.message_type (omega arith))
          ∙ ap (λ parts. decimal m.message_type ∷ parts)
              (split-whole b':' (formats.encode_base64 m.payload) (b.no_colon m.payload)))

-- A message whose fields are in the ranges of their types goes out over a WebSocket in the binary form,
-- or over QUIC in the binary form or as text, and comes back by that connection in that form with the
-- types and the payload that it had, and its flags too unless it went as text; base64 can be undone
-- and has no colon. What else a message has does not come back. The other forms of these two and the
-- internal connection, which has the form of `Encode`, are not meant.
pub to_internal-from_internal :
    (formats : Formats) (now : ℕ) (spare : Bytes) (c : ConnectionType) (f : FormatType)
    (m : Message)
    → IsPlain c f
    → IsTyped m
    → IsBase64 formats
    → (from_internal formats c f m >>= to_internal formats now spare c f) ≡ ok (carried f now m)
unfolding from_internal to_internal convert_internal_to_web_socket convert_web_socket_to_internal
    convert_internal_to_quic convert_quic_to_internal
to_internal-from_internal formats now spare c f m web_socket_binary t b = read-write_binary now m t
to_internal-from_internal formats now spare c f m quic_binary t b = read-write_binary now m t
to_internal-from_internal formats now spare c f m quic_text t b =
    ap (parts_to_internal formats now) (split-text formats m b)
    ∙ parts-to_internal formats now m t b

-- The processor that has been registered for the types of a service and of a message, within their
-- ranges, is the one that is found for them, and the others are as they were.
pub get_processor-register :
    (m : Processors) (s t s' t' processor : ℕ)
    → IsU16 t
    → IsU16 t'
    → get_processor (register_processor m s t processor) s' t'
      ≡ (if (s == s') && (t == t') then some processor else get_processor m s' t')
unfolding get_processor register_processor
get_processor-register m s t s' t' processor h k =
    lookup-insert (make_processor_key s t) (make_processor_key s' t') processor m
    ∙ elim (Bool-cases ((s == s') && (t == t'))) [
      | inl e ↦
          let same : make_processor_key s t ≡ make_processor_key s' t' = ground arith in
          rw (e, if_pos (ℕ_discrete _ _) same) refl
      | inr e ↦
          let other : make_processor_key s t ≢ make_processor_key s' t' =
            λ q. absurd (ground (arith, q)) in
          rw (e, if_neg (ℕ_discrete _ _) other) refl
    ]
