-- ===== src/Security/Tests.antt =====
-- pkg/security/crypto.go and pkg/gateway/secure_connection.go with a cipher that adds the length of the key
-- to every byte, and messages written as their parts with the lengths in front.
use mmo_server.Common.{
  ℕ, ◌+◌, ◌-◌, ◌≡◌, refl, ap, ap₂, ◌∙◌, true, List, [], ◌∷◌, ◌++◌, Option, none, some, map, length,
  take, drop, ◌==◌, Str, Str_discrete, Bytes, str_key, lookup, arith,
}
use mmo_server.Security.{
  Cipher, CryptoManager, EncryptedMessage, ok, ◌>>=◌, encrypt_with_timestamp,
  decrypt_with_timestamp,
}
use mmo_server.Security.Connection.{Outside, SecureConnection, send, receive, decrypted}
use mmo_server.Security.RoundTrip.{IsCipher, at_time, decrypt-encrypt_with_timestamp}
use mmo_server.Security.Exchange.{IsPipe, receive-send}

abbrev cipher : Cipher ℕ
cipher = record {
  seal = λ key nonce text. map (λ b. b + length key) text;
  open_text = λ key nonce text. some (map (λ b. b - length key) text);
  valid_key? = λ key. length key == 2;
  public_key = λ k. k ∷ [];
  on_curve? = λ peer. true;
  shared_key = λ k peer. some (k ∷ peer);
}

open-sealed : (n : ℕ) (text : Bytes) → map (λ b. b - n) (map (λ b. b + n) text) ≡ text
open-sealed n [] = refl
open-sealed n (b ∷ text) = grind (arith, open-sealed n text)

cipher-IsCipher : IsCipher cipher
cipher-IsCipher = record { opens = λ key nonce text. ap some (open-sealed (length key) text) }

abbrev key : Bytes
key = 5 ∷ 6 ∷ []

abbrev nonce : Bytes
nonce = 1 ∷ 2 ∷ 3 ∷ 4 ∷ 5 ∷ 6 ∷ 7 ∷ 8 ∷ 9 ∷ 10 ∷ 11 ∷ 12 ∷ []

abbrev id : Str
id = b's' ∷ []

abbrev manager : CryptoManager ℕ
manager = record {
  session_keys = (id, key) ∷ [];
  private_key = 3;
  key_expiration = 1000;
  rotation_period = 100;
}

has_key : lookup id manager.session_keys ≡ some key
unfolding lookup Str_discrete
has_key = refl

decrypt-encrypt_with_timestamp_example :
    (encrypt_with_timestamp cipher 100 manager (some nonce) (7 ∷ 8 ∷ []) id 60
      >>= decrypt_with_timestamp cipher 130 manager)
    ≡ at_time 100 60 130 (7 ∷ 8 ∷ [])
decrypt-encrypt_with_timestamp_example =
    decrypt-encrypt_with_timestamp cipher manager manager id key nonce (7 ∷ 8 ∷ []) 100 60 130
      cipher-IsCipher has_key has_key refl refl (omega arith) (omega arith) (omega arith)
      (omega arith)

-- A message that has been decrypted once is decrypted again.
replayed :
    (at_time 100 60 130 (7 ∷ 8 ∷ []) ≡ ok (7 ∷ 8 ∷ []))
    × (at_time 100 60 140 (7 ∷ 8 ∷ []) ≡ ok (7 ∷ 8 ∷ []))
replayed = (refl, refl)

abbrev marshal : EncryptedMessage → Bytes
marshal em = length em.nonce ∷ length em.ciphertext ∷ (em.nonce ++ (em.ciphertext ++ em.session_id))

abbrev unmarshal : Bytes → Option EncryptedMessage
unmarshal [] = none
unmarshal (n ∷ []) = none
unmarshal (n ∷ k ∷ bs) =
    some (record {
      nonce = take n bs;
      ciphertext = take k (drop n bs);
      session_id = drop k (drop n bs);
    })

abbrev pipe : Outside (List (Option Bytes))
pipe = record {
  write = λ m s. (s ++ (some m ∷ []), true);
  marshal_encrypted = marshal;
  unmarshal_encrypted = unmarshal;
  marshal_handshake = λ h. [];
  unmarshal_handshake = λ bs. none;
  encode_base64 = λ bs. bs;
}

take-front : (xs ys : Bytes) → take (length xs) (xs ++ ys) ≡ xs
take-front [] ys = refl
take-front (x ∷ xs) ys = ap (λ l. x ∷ l) (take-front xs ys)

drop-front : (xs ys : Bytes) → drop (length xs) (xs ++ ys) ≡ ys
drop-front [] ys = refl
drop-front (x ∷ xs) ys = drop-front xs ys

unmarshal-parts :
    (n c i : Bytes)
    → unmarshal (length n ∷ length c ∷ (n ++ (c ++ i)))
      ≡ some (record { nonce = n; ciphertext = c; session_id = i })
unmarshal-parts n c i =
    let behind : drop (length n) (n ++ (c ++ i)) ≡ c ++ i = drop-front n (c ++ i) in
    ap₂
      (λ x y.
        some (record { nonce = x; ciphertext = take (length c) y; session_id = drop (length c) y }))
      (take-front n (c ++ i)) behind
    ∙ ap₂ (λ x y. some (record { nonce = n; ciphertext = x; session_id = y })) (take-front c i)
        (drop-front c i)

unmarshal-marshal : (em : EncryptedMessage) → unmarshal (marshal em) ≡ some em
unmarshal-marshal em = unmarshal-parts em.nonce em.ciphertext em.session_id

pipe-IsPipe : IsPipe pipe
pipe-IsPipe = record { writes = λ m s. refl; unmarshals = λ em ascii. unmarshal-marshal em }

abbrev connection : SecureConnection ℕ
connection = record {
  session_id = id;
  crypto_manager = manager;
  is_encrypted = true;
  handshake_done = true;
}

receive-send_example :
    (receive pipe cipher 130 connection
      (send pipe cipher 100 connection (some nonce) (7 ∷ 8 ∷ []) []).0
      []).2
    ≡ decrypted pipe cipher 130 (at_time 100 60 130 (7 ∷ 8 ∷ []))
receive-send_example =
    receive-send pipe cipher pipe-IsPipe connection connection key nonce (7 ∷ 8 ∷ []) 100 130
      cipher-IsCipher (omega arith, tt) refl refl has_key has_key refl refl (omega arith)
      (omega arith) (omega arith) (omega arith)
