-- ===== src/Security/Connection.antt =====
-- pkg/gateway/secure_connection.go: `SecureWebSocketConnection` over pkg/security/crypto.go. The messages
-- that the peer sends are a list, where `none` is an error of the connection; writing to it is a
-- parameter over a state of its own, and so are encoding/json and encoding/base64.
use mmo_server.Common.{
  ℕ, ◌+◌, ◌%◌, ◌^◌, Bool, true, false, List, [], ◌∷◌, ◌++◌, Option, none, some, ite, length, take,
  drop, ltb, ◌==◌, ◌&&◌, not, ◌⊎◌, inl, inr, if◌then◌else◌, Str, Str_discrete, Bytes, put_u32,
  to_u32, get_uint,
}
use mmo_server.Security.{
  Cipher, CryptoManager, EncryptedMessage, CryptoError, Result, ok, err, encrypt_with_timestamp,
  decrypt_with_timestamp, derive_shared_key, get_public_key_bytes, remove_session_key,
}

abbrev pub message_type_handshake : ℕ
message_type_handshake = 1

abbrev pub message_type_data : ℕ
message_type_data = 2

abbrev pub message_type_ping : ℕ
message_type_ping = 3

abbrev pub message_type_pong : ℕ
message_type_pong = 4

abbrev pub message_type_close : ℕ
message_type_close = 5

abbrev pub message_type_handshake_request : ℕ
message_type_handshake_request = 1

abbrev pub message_type_handshake_response : ℕ
message_type_handshake_response = 2

pub record HandshakeMessage : Type 0 where
  pub type : ℕ
  pub public_key : Str
  pub session_id : Str
  pub timestamp : ℕ
  pub ttl : ℕ
  pub nonce : Str

pub record SecureConnection (K : Type 0) : Type 0 where
  pub session_id : Str
  pub crypto_manager : CryptoManager K
  pub is_encrypted : Bool
  pub handshake_done : Bool

abbrev pub new_secure_connection : {K : Type 0} → CryptoManager K → Str → SecureConnection K
new_secure_connection cm id = record {
  session_id = id;
  crypto_manager = cm;
  is_encrypted = false;
  handshake_done = false;
}

pub record Outside (S : Type 0) : Type 0 where
  pub write : Bytes → S → S × Bool
  pub marshal_encrypted : EncryptedMessage → Bytes
  pub unmarshal_encrypted : Bytes → Option EncryptedMessage
  pub marshal_handshake : HandshakeMessage → Bytes
  pub unmarshal_handshake : Bytes → Option HandshakeMessage
  pub encode_base64 : Bytes → Bytes

pub data Sent : Type 0 where
  sent : Sent
  not_encrypted : Sent
  encrypt_failed : CryptoError → Sent
  write_failed : Sent

-- The type of the message, the length of what follows, and that.
unfoldable pub frame : ℕ → Bytes → Bytes
frame type body = type ∷ put_u32 (to_u32 (length body)) ++ body

-- The message, or why there is none; `waiting` is where the peer has sent no more.
pub data Received : Type 0 where
  received : Bytes → Received
  connection_failed : Received
  message_too_short : Received
  content_too_short : Received
  unmarshal_failed : Received
  decrypt_failed : CryptoError → Received
  pong_failed : Received
  end_of_file : Received
  unknown_type : ℕ → Received
  still_plain : Received
  panic : Received
  waiting : Received

pub data Frame : Type 0 where
  body : ℕ → Bytes → Frame
  bad_frame : Received → Frame

-- `message[5:5+msgLen]` for a data message, whose end is a uint32.
unfoldable pub read_frame : Bytes → Frame
read_frame message =
    let type = get_uint (take 1 message) in
    let end = (5 + get_uint (take 4 (drop 1 message))) % 2 ^ 32 in
    if ltb (length message) 5
    then bad_frame message_too_short
    else if ltb (length message) end
    then bad_frame content_too_short
    else if not (type == message_type_data)
    then body type []
    else if ltb end 5
    then bad_frame panic
    else body type (take (get_uint (take 4 (drop 1 message))) (drop 5 message))

-- Why a handshake ends.
pub data Handshake : Type 0 where
  established : Handshake
  read_failed : Handshake
  bad_request : Handshake
  session_mismatch : Handshake
  derive_failed : CryptoError → Handshake
  response_failed : Handshake
  handshake_panic : Handshake

-- The request of a handshake, `message[6:6+handshakeMsgLen]`, whose end is a uint32.
unfoldable pub read_request : Bytes → Bytes ⊎ Handshake
read_request message =
    let size = get_uint (take 4 (drop 2 message)) in
    let end = (6 + size) % 2 ^ 32 in
    if ltb (length message) 6
    then inr bad_request
    else if not (
        (get_uint (take 1 message) == message_type_handshake)
        && (get_uint (take 1 (drop 1 message)) == message_type_handshake_request))
    then inr bad_request
    else if ltb (length message) end
    then inr bad_request
    else if ltb end 6
    then inr handshake_panic
    else inl (take size (drop 6 message))

module _ {S K : Type 0} (out : Outside S) (c : Cipher K) (now : ℕ) where
  abbrev written : S × Bool → S × Sent
  written (s, fine) = (s, if fine then sent else write_failed)

  abbrev send_encrypted : Result EncryptedMessage → S → S × Sent
  send_encrypted (err e) s = (s, encrypt_failed e)
  send_encrypted (ok em) s =
      written (out.write (frame message_type_data (out.marshal_encrypted em)) s)

  -- `Send`, with the nonce that it draws.
  unfoldable pub send : SecureConnection K → Option Bytes → Bytes → S → S × Sent
  unfolding frame encrypt_with_timestamp
  send sc nonce bytes s =
      if sc.is_encrypted
      then send_encrypted
          (encrypt_with_timestamp c now sc.crypto_manager nonce bytes sc.session_id 60) s
      else (s, not_encrypted)

  abbrev pub decrypted : Result Bytes → Received
  decrypted (ok bytes) = received bytes
  decrypted (err e) = decrypt_failed e

  unfoldable pub receive_data : SecureConnection K → Bytes → Received
  unfolding decrypt_with_timestamp
  receive_data sc bytes = elim (out.unmarshal_encrypted bytes) [
    | none ↦ unmarshal_failed
    | some em ↦ decrypted (decrypt_with_timestamp c now sc.crypto_manager em)
  ]

  -- A message that is no ping.
  abbrev pub last_message : SecureConnection K → ℕ → Bytes → Received
  last_message sc type bytes =
      if type == message_type_data
      then receive_data sc bytes
      else if type == message_type_close
      then end_of_file
      else unknown_type type

  abbrev pong : Bytes
  pong = message_type_pong ∷ 0 ∷ 0 ∷ 0 ∷ 0 ∷ []

  -- `Receive` once the connection is encrypted: the messages that are left, too.
  unfoldable pub receive_encrypted :
      SecureConnection K → List (Option Bytes) → S → S × List (Option Bytes) × Received
  unfolding read_frame receive_data
  receive_encrypted sc [] s = (s, [], waiting)
  receive_encrypted sc (none ∷ rest) s = (s, rest, connection_failed)
  receive_encrypted sc (some message ∷ rest) s =
      let (s', fine) = out.write pong s in
      let more = receive_encrypted sc rest s' in
      elim (read_frame message) [
        | bad_frame e ↦ (s, rest, e)
        | body type bytes ↦
            if type == message_type_ping
            then (if fine then more else (s', rest, pong_failed))
            else (s, rest, last_message sc type bytes)
      ]

  abbrev pub receive :
      SecureConnection K → List (Option Bytes) → S → S × List (Option Bytes) × Received
  receive sc incoming s =
      if sc.is_encrypted then receive_encrypted sc incoming s else (s, incoming, still_plain)

  -- `Close`, less the end of the connection.
  unfoldable pub close : SecureConnection K → S → SecureConnection K × S
  unfolding remove_session_key
  close sc s = (
    record sc { crypto_manager = remove_session_key sc.crypto_manager sc.session_id },
    if sc.is_encrypted then (out.write (message_type_close ∷ 0 ∷ 0 ∷ 0 ∷ 0 ∷ []) s).0 else s,
  )

  abbrev response : SecureConnection K → Str → HandshakeMessage
  response sc nonce = record {
    type = message_type_handshake_response;
    public_key = out.encode_base64 (get_public_key_bytes c sc.crypto_manager);
    session_id = sc.session_id;
    timestamp = now;
    ttl = 60;
    nonce = nonce;
  }

  abbrev respond : SecureConnection K → Str → S × Bool → SecureConnection K × S × Handshake
  respond sc nonce (s, true) =
      (record sc { is_encrypted = true; handshake_done = true }, s, established)
  respond sc nonce (s, false) = (sc, s, response_failed)

  abbrev derived_for :
      SecureConnection K
      → Str
      → S
      → CryptoManager K × Result Bytes
      → SecureConnection K × S × Handshake
  derived_for sc nonce s (cm, err e) = (record sc { crypto_manager = cm }, s, derive_failed e)
  derived_for sc nonce s (cm, ok key) =
      let sc' = record sc { crypto_manager = cm } in
      let bytes = out.marshal_handshake (response sc' nonce) in
      respond sc' nonce (
        out.write
          (message_type_handshake
              ∷ message_type_handshake_response
              ∷ put_u32 (to_u32 (length bytes))
            ++ bytes)
          s)

  abbrev requested :
      SecureConnection K
      → Option K
      → Str
      → S
      → HandshakeMessage
      → SecureConnection K × S × Handshake
  requested sc drawn nonce s req =
      ite (Str_discrete req.session_id sc.session_id)
        (derived_for sc nonce s
          (derive_shared_key c now sc.crypto_manager sc.session_id req.public_key drawn))
        (sc, s, session_mismatch)

  abbrev asked :
      SecureConnection K
      → Option K
      → Str
      → S
      → Bytes ⊎ Handshake
      → SecureConnection K × S × Handshake
  asked sc drawn nonce s (inr e) = (sc, s, e)
  asked sc drawn nonce s (inl bytes) = elim (out.unmarshal_handshake bytes) [
    | none ↦ (sc, s, bad_request)
    | some req ↦ requested sc drawn nonce s req
  ]

  -- `Handshake`, with the message that it reads, the key that a rotation would draw, and the nonce of
  -- its response.
  unfoldable pub handshake :
      SecureConnection K → Option Bytes → Option K → Str → S → SecureConnection K × S × Handshake
  unfolding read_request derive_shared_key
  handshake sc none drawn nonce s =
      if sc.handshake_done then (sc, s, established) else (sc, s, read_failed)
  handshake sc (some message) drawn nonce s =
      if sc.handshake_done
      then (sc, s, established)
      else asked sc drawn nonce s (read_request message)
