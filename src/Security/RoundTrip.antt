-- ===== src/Security/RoundTrip.antt =====
-- What is sent over pkg/gateway/secure_connection.go and pkg/security/crypto.go, and received.
use mmo_server.Common.{
  ℕ, ◌+◌, ◌^◌, ◌≤◌, ◌<◌, ◌≡◌, refl, ap, ◌∙◌, true, false, ◌++◌, some, length, take-enough, ltb,
  if◌then◌else◌, Str, Bytes, put_u64, put_u32, to_u32, get_uint, get-put_u64, get-put_u32, str_key,
  lookup, arith,
}
use mmo_server.Common.Ints.{int_max, int_add_small, int_lt_small}
use mmo_server.Security.{
  Cipher, CryptoManager, Result, ok, err, message_expired, invalid_timestamp, max_payload_size,
  nonce_size, encrypt, encrypt_with_timestamp, decrypt, decrypt_with_timestamp, timed, ◌>>=◌,
}
use mmo_server.Security.Connection.{body, frame, read_frame, message_type_data}

-- What AES-GCM does: what is sealed with a key and a nonce opens with them.
pub record IsCipher {K : Type 0} (c : Cipher K) : Type 0 where
  pub opens : (key nonce text : Bytes) → c.open_text key nonce (c.seal key nonce text) ≡ some text

-- The answer for a text that is encrypted at one time for so many seconds and decrypted at another.
abbrev pub at_time : ℕ → ℕ → ℕ → Bytes → Result Bytes
at_time now ttl later text =
    if ltb (now + ttl) later
    then err message_expired
    else if ltb later now
    then err invalid_timestamp
    else ok text

pub timed-at_time :
    (now ttl later : ℕ) (text : Bytes)
    → later ≤ int_max
    → ttl < 2 ^ 32
    → now + ttl ≤ int_max
    → timed later (put_u64 now ++ put_u32 (to_u32 ttl) ++ text) ≡ at_time now ttl later text
timed-at_time now ttl later text h k l =
    let short : ltb (12 + length text) 12 ≡ false = ground arith in
    let low : to_u32 ttl ≡ ttl = omega arith in
    rw
      (
        low,
        get-put_u64 now (omega arith),
        get-put_u32 ttl k,
        int_add_small now ttl l,
        int_lt_small (now + ttl) later l h,
        int_lt_small later now h (omega arith),
      )
      (ground (arith, short))

module _ {K : Type 0} (c : Cipher K) where
  pub decrypt-sealed :
      (cm : CryptoManager K) (id : Str) (key nonce text : Bytes)
      → IsCipher c
      → lookup id cm.session_keys ≡ some key
      → c.valid_key? key ≡ true
      → length nonce ≡ nonce_size
      → decrypt c cm (record { nonce = nonce; ciphertext = c.seal key nonce text; session_id = id })
        ≡ ok text
  unfolding decrypt
  decrypt-sealed cm id key nonce text i h v n = rw (decrypt, h, v, n, i.opens key nonce text) refl

  pub encrypt-sealed :
      (cm : CryptoManager K) (id : Str) (key nonce text : Bytes)
      → lookup id cm.session_keys ≡ some key
      → c.valid_key? key ≡ true
      → length text ≤ max_payload_size
      → encrypt c cm (some nonce) text id
        ≡ ok (record { nonce = nonce; ciphertext = c.seal key nonce text; session_id = id })
  unfolding encrypt
  encrypt-sealed cm id key nonce text h v k =
      let fits : ltb max_payload_size (length text) ≡ false = ground arith in
      rw (encrypt, fits, h, v) refl

  -- A text that is encrypted with a timestamp is decrypted by whoever has the session's key: as it was
  -- from its time on until its seconds are over, and refused before and after. The clocks and the sum
  -- are within an int64, the seconds within a uint32, the key and the nonce of the right sizes, and the
  -- text leaves room for the 12 bytes in front.
  pub decrypt-encrypt_with_timestamp :
      (cm cm' : CryptoManager K) (id : Str) (key nonce text : Bytes) (now ttl later : ℕ)
      → IsCipher c
      → lookup id cm.session_keys ≡ some key
      → lookup id cm'.session_keys ≡ some key
      → c.valid_key? key ≡ true
      → length nonce ≡ nonce_size
      → 12 + length text ≤ max_payload_size
      → later ≤ int_max
      → ttl < 2 ^ 32
      → now + ttl ≤ int_max
      → (encrypt_with_timestamp c now cm (some nonce) text id ttl
          >>= decrypt_with_timestamp c later cm')
        ≡ at_time now ttl later text
  unfolding encrypt_with_timestamp decrypt_with_timestamp
  decrypt-encrypt_with_timestamp cm cm' id key nonce text now ttl later i h h' v n big p q r =
      ap (λ e. e >>= decrypt_with_timestamp c later cm')
        (encrypt-sealed cm id key nonce (put_u64 now ++ put_u32 (to_u32 ttl) ++ text) h v
          (omega arith))
      ∙ (ap (λ x. x >>= timed later)
            (decrypt-sealed cm' id key nonce (put_u64 now ++ put_u32 (to_u32 ttl) ++ text) i h' v n)
          ∙ timed-at_time now ttl later text p q r)

pub read_frame-frame :
    (bytes : Bytes)
    → 5 + length bytes < 2 ^ 32
    → read_frame (frame message_type_data bytes) ≡ body message_type_data bytes
unfolding read_frame frame
read_frame-frame bytes h =
    let size : get_uint (put_u32 (to_u32 (length bytes))) ≡ length bytes =
      let low : to_u32 (length bytes) ≡ length bytes = omega arith in
      get-put_u32 (to_u32 (length bytes)) (omega arith) ∙ low in
    let whole = take-enough (length bytes) bytes (omega arith) in rw (size) (ground (arith, whole))
