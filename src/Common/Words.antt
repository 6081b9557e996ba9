-- ===== src/Common/Words.antt =====
-- Unsigned words as big-endian bytes (encoding/binary.BigEndian), and slices of byte sequences.
-- A byte is a number, and a Go string is the sequence of its bytes.
use Prim.Native.Nat.{ℕ, ◌+◌, ◌*◌, ◌/◌, ◌%◌, ◌^◌, ◌<◌}
use mathlib.Core.Path.{◌≡◌}
use mathlib.Core.List.{List, [], ◌∷◌, foldl}
use native.Mathlib.Omega.{arith}

abbrev pub Bytes : Type 0
Bytes = List ℕ

-- `uint16(v)` and the like.
abbrev pub to_u16 : ℕ → ℕ
to_u16 v = v % 65536

abbrev pub to_u32 : ℕ → ℕ
to_u32 v = v % 2 ^ 32

abbrev pub IsU8 : ℕ → Type 0
IsU8 v = v < 256

abbrev pub IsU16 : ℕ → Type 0
IsU16 v = v < 65536

abbrev pub IsU32 : ℕ → Type 0
IsU32 v = v < 2 ^ 32

abbrev pub IsU64 : ℕ → Type 0
IsU64 v = v < 2 ^ 64

-- `PutUint16`, `PutUint32`, `PutUint64`.
abbrev pub put_u16 : ℕ → Bytes
put_u16 v = (v / 256 % 256) ∷ (v % 256) ∷ []

abbrev pub put_u32 : ℕ → Bytes
put_u32 v = (v / 2 ^ 24 % 256) ∷ (v / 65536 % 256) ∷ (v / 256 % 256) ∷ (v % 256) ∷ []

abbrev pub put_u64 : ℕ → Bytes
put_u64 v =
    (v / 2 ^ 56 % 256) ∷ (v / 2 ^ 48 % 256) ∷ (v / 2 ^ 40 % 256) ∷ (v / 2 ^ 32 % 256) ∷ put_u32 v

-- `Uint16`, `Uint32`, `Uint64`: the bytes of a slice read from the left.
abbrev pub get_uint : Bytes → ℕ
get_uint = foldl (λ acc b. acc * 256 + b) 0

pub get-put_u16 : (v : ℕ) → IsU16 v → get_uint (put_u16 v) ≡ v
get-put_u16 v h = omega arith

pub get-put_u32 : (v : ℕ) → IsU32 v → get_uint (put_u32 v) ≡ v
get-put_u32 v h = omega arith

pub get-put_u64 : (v : ℕ) → IsU64 v → get_uint (put_u64 v) ≡ v
get-put_u64 v h = omega arith

-- What a 32-bit field reads once its two low bytes are overwritten by a 16-bit one.
pub get-put_u32_low :
    (v w : ℕ)
    → IsU32 v
    → IsU16 w
    → get_uint ((v / 2 ^ 24 % 256) ∷ (v / 65536 % 256) ∷ put_u16 w) ≡ v / 65536 * 65536 + w
get-put_u32_low v w h k = omega arith
