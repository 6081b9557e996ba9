-- ===== src/Protocol/Message/Encoding.antt =====
-- `Encode` of pkg/protocol/message.go: the buffer that it fills, step by step.
use mmo_server.Common.{
  ℕ, ◌+◌, ◌⊎◌, Bytes, ◌-◌, ◌≤◌, ◌<◌, ◌≡◌, refl, sym, ap, ◌∙◌, [], ◌∷◌, ◌++◌, append-nil,
  append_assoc, length, take, replicate, length-append, length-take, length-replicate, take-append,
  drop-append, take-enough, replicate_add, le→leb, Bytes, to_u16, put_u16, arith,
}
use mmo_server.Protocol.Message.{
  Message, CodecError, ok, err, ◌>>=◌, overwrite, write_slice, write_header, write_field,
  write_payload, write_message, total_length, encode, header_size, max_payload_size,
  max_service_name_size,
}
use mmo_server.Protocol.Message.Layout.{header_bytes, clip, field_bytes, layout}

overwrite-append :
    (bs old rest : Bytes) → length bs ≡ length old → overwrite bs (old ++ rest) ≡ bs ++ rest
overwrite-append [] [] rest e = refl
overwrite-append [] (y ∷ old) rest e = absurd (omega arith)
overwrite-append (b ∷ bs) [] rest e = absurd (omega arith)
overwrite-append (b ∷ bs) (y ∷ old) rest e = ap (◌∷◌ b) (overwrite-append bs old rest (omega arith))

-- A write replaces what stood at its place, and nothing else.
write_slice-append :
    (pre old rest bs : Bytes) (offset n : ℕ)
    → offset ≡ length pre
    → length (take n bs) ≡ n
    → length old ≡ n
    → write_slice offset n bs (pre ++ (old ++ rest)) ≡ ok (pre ++ (take n bs ++ rest))
unfolding write_slice
write_slice-append pre old rest bs offset n e l k = rw (
  le→leb _ _ fits,
  take-append offset pre (old ++ rest) e,
  drop-append offset pre (old ++ rest) e,
  overwrite-append (take n bs) old rest (l ∙ sym k),
)
  where
    fits : offset + n ≤ length (pre ++ (old ++ rest))
    fits = omega (arith, length-append pre (old ++ rest), length-append old rest)

length-clip : (s : Bytes) → length (clip s) ≡ to_u16 (length s)
length-clip s = omega (arith, length-take (to_u16 (length s)) s)

-- A string field written over bytes of its size.
write_field-append :
    (s pre old rest : Bytes) (offset : ℕ)
    → offset ≡ length pre
    → length old ≡ 2 + to_u16 (length s)
    → write_field s (offset, pre ++ (old ++ rest))
      ≡ ok (offset + 2 + to_u16 (length s), pre ++ (field_bytes s ++ rest))
unfolding write_field
write_field-append s pre (x ∷ y ∷ old) rest offset e l =
    let p = put_u16 (to_u16 (length s)) in
    rw (
      write_slice-append pre (x ∷ y ∷ []) (old ++ rest) p offset 2 e refl refl,
      ← append_assoc pre p (old ++ rest),
      write_slice-append (pre ++ p) old rest s (offset + 2) (to_u16 (length s))
          (omega (arith, length-append pre p)) (length-clip s) (omega arith),
      append_assoc pre p (clip s ++ rest),
    )
write_field-append s pre [] rest offset e l = absurd (omega arith)
write_field-append s pre (x ∷ []) rest offset e l = absurd (omega arith)

offset-append :
    (s pre : Bytes) (offset : ℕ)
    → offset ≡ length pre
    → offset + 2 + to_u16 (length s) ≡ length (pre ++ field_bytes s)
offset-append s pre offset e = omega (arith, length-append pre (field_bytes s), length-clip s)

-- The header over 22 bytes; the last two of them are the low bytes of the payload length.
write_header-append :
    (m : Message) (rest : Bytes)
    → write_header m (replicate 22 0 ++ rest)
      ≡ ok (header_bytes m ++ (put_u16 m.payload_length ++ rest))
unfolding write_header write_slice
write_header-append m rest = ground arith

abbrev z : ℕ → Bytes
z n = replicate n 0

abbrev spot : Bytes → ℕ
spot s = 2 + to_u16 (length s)

-- The four strings and the payload, behind any prefix.
module _ (m : Message) where
  write_payload-append :
      (pre : Bytes) (offset : ℕ)
      → offset ≡ length pre
      → write_payload m (offset, pre ++ z (length m.payload)) ≡ ok (pre ++ m.payload)
  unfolding write_payload
  write_payload-append pre offset e =
      let n = length (pre ++ z (length m.payload)) - offset in
      let l : n ≡ length m.payload = omega (
        arith,
        length-append pre (z (length m.payload)),
        length-replicate {A = ℕ} (length m.payload) 0,
      ) in
      let whole = take-enough n m.payload (omega arith) in
      ap (λ b. write_slice offset n m.payload (pre ++ b)) (sym (append-nil (z (length m.payload))))
      ∙ write_slice-append pre (z (length m.payload)) [] m.payload offset n e
          (omega (arith, ap length whole))
          (omega (arith, length-replicate {A = ℕ} (length m.payload) 0))
      ∙ rw (whole, append-nil m.payload)

  write_strings :
      (pre old : Bytes) (offset : ℕ)
      → offset ≡ length pre
      → length old ≡ spot m.source_service
      → (write_field m.source_service (
        offset,
        pre
            ++ (old
                ++ (z (spot m.destination_service)
                    ++ (z (spot m.correlation_id)
                        ++ (z (spot m.session_id) ++ z (length m.payload))))),
      )
          >>= λ s1. write_field m.destination_service s1 >>= λ s2.
              write_field m.correlation_id s2 >>= λ s3.
              write_field m.session_id s3 >>= λ s4. write_payload m s4)
        ≡ ok (
            pre
            ++ (field_bytes m.source_service
                ++ (field_bytes m.destination_service
                    ++ (field_bytes m.correlation_id ++ (field_bytes m.session_id ++ m.payload)))))
  write_strings pre old offset e l =
      let f1 = field_bytes m.source_service in
      let f2 = field_bytes m.destination_service in
      let f3 = field_bytes m.correlation_id in
      let f4 = field_bytes m.session_id in
      let z2 = z (spot m.destination_service) in
      let z3 = z (spot m.correlation_id) in
      let z4 = z (spot m.session_id) in
      let z5 = z (length m.payload) in
      let e1 = offset-append m.source_service pre offset e in
      let e2 = offset-append m.destination_service (pre ++ f1) _ e1 in
      let e3 = offset-append m.correlation_id (pre ++ f1 ++ f2) _ e2 in
      let e4 = offset-append m.session_id (pre ++ f1 ++ f2 ++ f3) _ e3 in
      rw (
        write_field-append m.source_service pre old (z2 ++ (z3 ++ (z4 ++ z5))) offset e l,
        ← append_assoc pre f1 (z2 ++ (z3 ++ (z4 ++ z5))),
        write_field-append m.destination_service (pre ++ f1) z2 (z3 ++ (z4 ++ z5)) _ e1
            (length-replicate _ 0),
        ← append_assoc (pre ++ f1) f2 (z3 ++ (z4 ++ z5)),
        write_field-append m.correlation_id (pre ++ f1 ++ f2) z3 (z4 ++ z5) _ e2
            (length-replicate _ 0),
        ← append_assoc (pre ++ f1 ++ f2) f3 (z4 ++ z5),
        write_field-append m.session_id (pre ++ f1 ++ f2 ++ f3) z4 z5 _ e3 (length-replicate _ 0),
        ← append_assoc (pre ++ f1 ++ f2 ++ f3) f4 z5,
        write_payload-append (pre ++ f1 ++ f2 ++ f3 ++ f4) _ e4,
        append_assoc (pre ++ f1 ++ f2 ++ f3) f4 m.payload,
        append_assoc (pre ++ f1 ++ f2) f3 (f4 ++ m.payload),
        append_assoc (pre ++ f1) f2 (f3 ++ (f4 ++ m.payload)),
        append_assoc pre f1 (f2 ++ (f3 ++ (f4 ++ m.payload))),
      )

zeros_split :
    (m : Message)
    → z (total_length m)
      ≡ z 22
        ++ (z (to_u16 (length m.source_service))
            ++ (z (spot m.destination_service)
                ++ (z (spot m.correlation_id) ++ (z (spot m.session_id) ++ z (length m.payload)))))
unfolding total_length
zeros_split m =
    let n1 = to_u16 (length m.source_service) in
    let n2 = spot m.destination_service in
    let n3 = spot m.correlation_id in
    let n4 = spot m.session_id in
    let n5 = length m.payload in
    let e : total_length m ≡ 22 + (n1 + (n2 + (n3 + (n4 + n5)))) = omega arith in
    ap z e
    ∙ rw (
      replicate_add {A = ℕ} 22 (n1 + (n2 + (n3 + (n4 + n5)))) 0,
      replicate_add {A = ℕ} n1 (n2 + (n3 + (n4 + n5))) 0,
      replicate_add {A = ℕ} n2 (n3 + (n4 + n5)) 0,
      replicate_add {A = ℕ} n3 (n4 + n5) 0,
      replicate_add {A = ℕ} n4 n5 0,
    )

write_message-layout : (m : Message) → write_message m ≡ ok (layout m)
unfolding write_message
write_message-layout m =
    let z1 = z (to_u16 (length m.source_service)) in
    let rest =
      z (spot m.destination_service)
      ++ (z (spot m.correlation_id) ++ (z (spot m.session_id) ++ z (length m.payload))) in
    rw (zeros_split m, write_header-append m (z1 ++ rest))
      (write_strings m (header_bytes m) (put_u16 m.payload_length ++ z1) header_size refl
        (omega (arith, length-replicate {A = ℕ} (to_u16 (length m.source_service)) 0)))

-- `Encode` never panics. It refuses a payload above `MaxPayloadSize`, then a source and then a
-- destination service name above `MaxServiceNameSize`, each with its length, and otherwise returns
-- the bytes of `layout`, for every message.
pub encode-layout :
    (m : Message)
    → ((max_payload_size < length m.payload)
        × (encode m ≡ err (CodecError.payload_too_large (length m.payload))))
      ⊎ ((length m.payload ≤ max_payload_size)
          × (max_service_name_size < length m.source_service)
          × (encode m ≡ err (CodecError.source_name_too_long (length m.source_service))))
      ⊎ ((length m.payload ≤ max_payload_size)
          × (length m.source_service ≤ max_service_name_size)
          × (max_service_name_size < length m.destination_service)
          × (encode m ≡ err (CodecError.destination_name_too_long (length m.destination_service))))
      ⊎ ((length m.payload ≤ max_payload_size)
          × (length m.source_service ≤ max_service_name_size)
          × (length m.destination_service ≤ max_service_name_size)
          × (encode m ≡ ok (layout m)))
unfolding encode
encode-layout m = ground (arith, write_message-layout m)
