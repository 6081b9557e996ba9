-- ===== src/Security.antt =====
-- pkg/security/crypto.go: `CryptoManager`. AES-GCM, SHA-256 and the elliptic curve are the record
-- `Cipher`; what is drawn at random is an argument, where `none` is an error of the source. A time is
-- the number of seconds of the clock, with the time of the expiration in the same unit.
pub mod Connection
pub mod RoundTrip
pub mod Exchange
mod Tests
use mmo_server.Common.{
  ℕ, ◌+◌, ◌*◌, ◌%◌, ◌^◌, Bool, true, false, List, [], ◌∷◌, ◌++◌, Option, none, some, length, take,
  drop, ltb, ◌==◌, not, if◌then◌else◌, Str, Bytes, put_u64, put_u32, to_u32, get_uint, Dict,
  str_key, lookup, insert, erase,
}
use mmo_server.Common.Ints.{int_add, int_lt, int_neg?}

abbrev pub nonce_size : ℕ
nonce_size = 12

abbrev pub max_payload_size : ℕ
max_payload_size = 16 * 1024 * 1024

abbrev pub default_key_rotation_interval : ℕ
default_key_rotation_interval = 24 * 3600

-- `Seal` and `Open` of AES-GCM with the key, the nonce and the text, where `none` is an error, and the
-- keys that `aes.NewCipher` takes.
-- A private key derives its public one, and a session key with the bytes of the peer's, if these are
-- a point of the curve; the secret may fail.
pub record Cipher (K : Type 0) : Type 0 where
  pub seal : Bytes → Bytes → Bytes → Bytes
  pub open_text : Bytes → Bytes → Bytes → Option Bytes
  pub valid_key? : Bytes → Bool
  pub public_key : K → Bytes
  pub on_curve? : Bytes → Bool
  pub shared_key : K → Bytes → Option Bytes

pub record CryptoManager (K : Type 0) : Type 0 where
  pub session_keys : Dict Str Bytes
  pub private_key : K
  pub key_expiration : ℕ
  pub rotation_period : ℕ

pub record EncryptedMessage : Type 0 where
  pub nonce : Bytes
  pub ciphertext : Bytes
  pub session_id : Str

pub data CryptoError : Type 0 where
  no_random : CryptoError
  invalid_public_key : CryptoError
  no_shared_secret : CryptoError
  payload_too_large : CryptoError
  key_not_found : CryptoError
  cipher_failed : CryptoError
  invalid_nonce_size : CryptoError
  not_authentic : CryptoError
  invalid_format : CryptoError
  message_expired : CryptoError
  invalid_timestamp : CryptoError

pub data Result {ℓ} (A : Type ℓ) : Type ℓ where
  ok : A → Result A
  err : CryptoError → Result A

abbrev pub or_else : {A : Type 0} → CryptoError → Option A → Result A
or_else e none = err e
or_else e (some x) = ok x

infixl 5 ◌>>=◌
abbrev pub ◌>>=◌ : {A B : Type 0} → Result A → (A → Result B) → Result B
ok a >>= f = f a
err e >>= f = err e

-- The interval of the configuration, where nothing or a number that is not positive is given as 0.
abbrev rotation_of : ℕ → ℕ
rotation_of seconds = if seconds == 0 then default_key_rotation_interval else seconds

unfoldable pub new_crypto_manager : {K : Type 0} → ℕ → ℕ → Option K → Result (CryptoManager K)
new_crypto_manager now seconds none = err no_random
new_crypto_manager now seconds (some key) = ok (record {
  session_keys = [];
  private_key = key;
  key_expiration = now + rotation_of seconds;
  rotation_period = rotation_of seconds;
})

module _ {K : Type 0} where
  abbrev pub put_key : Str → Bytes → CryptoManager K → CryptoManager K
  put_key id key cm = record cm { session_keys = insert id key cm.session_keys }

  unfoldable pub generate_session_key :
      CryptoManager K → Str → Option Bytes → CryptoManager K × Result Bytes
  generate_session_key cm id none = (cm, err no_random)
  generate_session_key cm id (some key) = (put_key id key cm, ok key)

  abbrev pub get_session_key : CryptoManager K → Str → Option Bytes
  get_session_key cm id = lookup id cm.session_keys

  unfoldable pub remove_session_key : CryptoManager K → Str → CryptoManager K
  remove_session_key cm id = record cm { session_keys = erase id cm.session_keys }

  -- `RotateKeys`; `false` is its error.
  unfoldable pub rotate_keys : ℕ → CryptoManager K → Option K → CryptoManager K × Bool
  rotate_keys now cm none = (cm, false)
  rotate_keys now cm (some key) =
      (record cm { private_key = key; key_expiration = now + cm.rotation_period }, true)

-- What `DecryptWithTimestamp` makes of a text that has been decrypted.
abbrev pub timed : ℕ → Bytes → Result Bytes
timed now plaintext =
    if ltb (length plaintext) 12
    then err invalid_format
    else (let timestamp = get_uint (take 8 plaintext) in
        let last = int_add timestamp (get_uint (take 4 (drop 8 plaintext))) in
        if int_lt last now
        then err message_expired
        else if int_lt now timestamp
        then err invalid_timestamp
        else ok (drop 12 plaintext))

module _ {K : Type 0} (c : Cipher K) where
  abbrev derived : Str → CryptoManager K → Option Bytes → CryptoManager K × Result Bytes
  derived id cm none = (cm, err no_shared_secret)
  derived id cm (some key) = (put_key id key cm, ok key)

  abbrev derive : Str → Bytes → CryptoManager K × Bool → CryptoManager K × Result Bytes
  derive id peer (cm, rotated) =
      if not rotated
      then (cm, err no_random)
      else if c.on_curve? peer
      then derived id cm (c.shared_key cm.private_key peer)
      else (cm, err invalid_public_key)

  -- `DeriveSharedKey`, with the key that a rotation would draw.
  unfoldable pub derive_shared_key :
      ℕ → CryptoManager K → Str → Bytes → Option K → CryptoManager K × Result Bytes
  unfolding rotate_keys
  derive_shared_key now cm id peer drawn =
      derive id peer (if ltb cm.key_expiration now then rotate_keys now cm drawn else (cm, true))

  abbrev pub get_public_key_bytes : CryptoManager K → Bytes
  get_public_key_bytes cm = c.public_key cm.private_key

  -- `aes.NewCipher`, with the key that it takes.
  abbrev pub keyed : Bytes → Result Bytes
  keyed key = if c.valid_key? key then ok key else err cipher_failed

  -- `Encrypt`, with the nonce that it draws.
  unfoldable pub encrypt : CryptoManager K → Option Bytes → Bytes → Str → Result EncryptedMessage
  encrypt cm nonce plaintext id =
      if ltb max_payload_size (length plaintext)
      then err payload_too_large
      else or_else key_not_found (lookup id cm.session_keys) >>= λ key. keyed key >>= λ k.
          or_else no_random nonce >>= λ n.
          ok (record { nonce = n; ciphertext = c.seal k n plaintext; session_id = id })

  abbrev pub opened : EncryptedMessage → Bytes → Result Bytes
  opened em key =
      if length em.nonce == nonce_size
      then or_else not_authentic (c.open_text key em.nonce em.ciphertext)
      else err invalid_nonce_size

  unfoldable pub decrypt : CryptoManager K → EncryptedMessage → Result Bytes
  decrypt cm em =
      or_else key_not_found (lookup em.session_id cm.session_keys) >>= keyed >>= opened em

  -- `EncryptWithTimestamp`; the time is the pattern of an int64.
  unfoldable pub encrypt_with_timestamp :
      ℕ → CryptoManager K → Option Bytes → Bytes → Str → ℕ → Result EncryptedMessage
  unfolding encrypt
  encrypt_with_timestamp now cm nonce plaintext id ttl =
      encrypt cm nonce (put_u64 now ++ put_u32 (to_u32 ttl) ++ plaintext) id

  unfoldable pub decrypt_with_timestamp : ℕ → CryptoManager K → EncryptedMessage → Result Bytes
  unfolding decrypt int_add
  decrypt_with_timestamp now cm em = decrypt cm em >>= timed now
