-- ===== src/Security/Exchange.antt =====
-- `Send` and `Receive` of pkg/gateway/secure_connection.go on the same frame. The handshake of the
-- repository is the server's, and the client is not in it.
use mmo_server.Common.{
  ℕ, ◌+◌, ◌^◌, ◌≤◌, ◌<◌, ◌≡◌, refl, ap, ◌∙◌, true, List, [], ◌∷◌, ◌++◌, Option, some, length, Bytes,
  put_u64, put_u32, to_u32, str_key, lookup, arith,
}
use mmo_server.Common.Ints.{int_max}
use mmo_server.Security.{
  Cipher, EncryptedMessage, max_payload_size, nonce_size, encrypt_with_timestamp,
  decrypt_with_timestamp, timed, ◌>>=◌,
}
use mmo_server.Security.Connection.{
  Outside, SecureConnection, body, frame, read_frame, receive_data, receive_encrypted, receive,
  send, decrypted, message_type_data,
}
use mmo_server.Security.RoundTrip.{
  IsCipher, at_time, timed-at_time, encrypt-sealed, decrypt-sealed, read_frame-frame,
}

-- Bytes of ASCII, which encoding/json writes and reads back as they are. In a string that is no valid
-- UTF-8 it changes bytes.
abbrev pub IsAscii : Bytes → Type 0
IsAscii [] = Unit {0}
IsAscii (b ∷ bs) = (b < 128) × IsAscii bs

-- Writing puts a message at the end of those that are on their way, and encoding/json reads back the
-- message that it has written, if the session ID is of ASCII; the bytes of the nonce and the
-- ciphertext it writes in base64.
pub record IsPipe (out : Outside (List (Option Bytes))) : Type 0 where
  pub writes : (m : Bytes) (s : List (Option Bytes)) → out.write m s ≡ (s ++ (some m ∷ []), true)
  pub unmarshals :
      (em : EncryptedMessage)
      → IsAscii em.session_id
      → out.unmarshal_encrypted (out.marshal_encrypted em) ≡ some em

-- The message for a text that is sent at a time.
abbrev pub sealed :
    {K : Type 0} → Cipher K → SecureConnection K → Bytes → Bytes → Bytes → ℕ → EncryptedMessage
sealed c sc key nonce text now = record {
  nonce = nonce;
  ciphertext = c.seal key nonce (put_u64 now ++ put_u32 (to_u32 60) ++ text);
  session_id = sc.session_id;
}

module _ {K : Type 0} (out : Outside (List (Option Bytes))) (c : Cipher K) (p : IsPipe out) where
  send-frame :
      (sc : SecureConnection K) (key nonce text : Bytes) (now : ℕ)
      → sc.is_encrypted ≡ true
      → lookup sc.session_id sc.crypto_manager.session_keys ≡ some key
      → c.valid_key? key ≡ true
      → 12 + length text ≤ max_payload_size
      → (send out c now sc (some nonce) text []).0
        ≡ some (frame message_type_data (out.marshal_encrypted (sealed c sc key nonce text now)))
          ∷ []
  unfolding send encrypt_with_timestamp
  send-frame sc key nonce text now e h v k =
      let made =
        encrypt-sealed c sc.crypto_manager sc.session_id key nonce
          (put_u64 now ++ put_u32 (to_u32 60) ++ text) h v (omega arith) in
      rw (send, e, made, p.writes) refl

  receive-body :
      (sc : SecureConnection K) (message bytes : Bytes) (later : ℕ)
      → read_frame message ≡ body message_type_data bytes
      → (receive_encrypted out c later sc (some message ∷ []) []).2
        ≡ receive_data out c later sc bytes
  unfolding receive_encrypted
  receive-body sc message bytes later h = rw (h, receive_encrypted) refl

  receive-open :
      (sc : SecureConnection K) (incoming : List (Option Bytes)) (later : ℕ)
      → sc.is_encrypted ≡ true
      → receive out c later sc incoming [] ≡ receive_encrypted out c later sc incoming []
  receive-open sc incoming later h = rw (h, receive) refl

  receive_data-marshal :
      (sc : SecureConnection K) (em : EncryptedMessage) (later : ℕ)
      → IsAscii em.session_id
      → receive_data out c later sc (out.marshal_encrypted em)
        ≡ decrypted out c later (decrypt_with_timestamp c later sc.crypto_manager em)
  unfolding receive_data
  receive_data-marshal sc em later ascii = rw (p.unmarshals em ascii, receive_data) refl

  receive-frame :
      (sc : SecureConnection K) (em : EncryptedMessage) (later : ℕ)
      → IsAscii em.session_id
      → 5 + length (out.marshal_encrypted em) < 2 ^ 32
      → (receive_encrypted out c later sc
          (some (frame message_type_data (out.marshal_encrypted em)) ∷ [])
          []).2
        ≡ decrypted out c later (decrypt_with_timestamp c later sc.crypto_manager em)
  receive-frame sc em later ascii small =
      receive-body sc _ _ later (read_frame-frame (out.marshal_encrypted em) small)
      ∙ receive_data-marshal sc em later ascii

  -- The frame that `Send` writes is one that `Receive` takes, of a connection that holds the same key
  -- for the session: it gives the text, up to a minute after it was sent, and an error later. Writing
  -- succeeds, encryption with the key can be undone, and encoding/json reads back what it writes where
  -- the session ID is of ASCII, as this one is. Both connections are encrypted; the key and the nonce
  -- have the right sizes, the clocks are within an int64, and the text leaves room for the 12 bytes in
  -- front; four bytes can tell the length of the message.
  pub receive-send :
      (sc sc' : SecureConnection K) (key nonce text : Bytes) (now later : ℕ)
      → IsCipher c
      → IsAscii sc.session_id
      → sc.is_encrypted ≡ true
      → sc'.is_encrypted ≡ true
      → lookup sc.session_id sc.crypto_manager.session_keys ≡ some key
      → lookup sc.session_id sc'.crypto_manager.session_keys ≡ some key
      → c.valid_key? key ≡ true
      → length nonce ≡ nonce_size
      → 12 + length text ≤ max_payload_size
      → later ≤ int_max
      → now + 60 ≤ int_max
      → 5 + length (out.marshal_encrypted (sealed c sc key nonce text now)) < 2 ^ 32
      → (receive out c later sc' (send out c now sc (some nonce) text []).0 []).2
        ≡ decrypted out c later (at_time now 60 later text)
  unfolding decrypt_with_timestamp
  receive-send sc sc' key nonce text now later i ascii e e' h h' v n k l r small =
      let plain = put_u64 now ++ put_u32 (to_u32 60) ++ text in
      ap (λ incoming. (receive out c later sc' incoming []).2)
        (send-frame sc key nonce text now e h v k)
      ∙ ap (λ x. x.2) (receive-open sc' _ later e')
      ∙ receive-frame sc' _ later ascii small
      ∙ ap (λ x. decrypted out c later (x >>= timed later))
          (decrypt-sealed c sc'.crypto_manager sc.session_id key nonce plain i h' v n)
      ∙ ap (decrypted out c later) (timed-at_time now 60 later text l (omega arith) r)
