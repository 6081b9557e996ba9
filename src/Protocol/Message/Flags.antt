-- ===== src/Protocol/Message/Flags.antt =====
-- The flags of a message: `SetFlag`, `ClearFlag` and `HasFlag` of pkg/protocol/message.go. The laws
-- of the bit operations are tables over all bytes.
use mmo_server.Common.{
  ℕ, ◌<◌, ◌≡◌, ◌≢◌, ◌^◌, refl, Bool, true, false, ◌&&◌, ◌||◌, ◌==◌, bit_and, bit_or, bit_xor, IsU8,
  arith,
}
use mmo_server.Common.Tables.{all_below, all_below_sound}
use mmo_server.Protocol.Message.{Message, set_flag, clear_flag, has_flag}

abbrev own_bit : ℕ → ℕ → Bool
own_bit f x = (bit_and (bit_or x f) f == f) && (bit_and (bit_and x (bit_xor f 255)) f == 0)

own_table : all_below 256 (λ f. all_below 256 (own_bit f)) ≡ true
unfolding all_below
own_table = refl

abbrev other_bits : ℕ → ℕ → ℕ → Bool
other_bits i j x =
    (i == j)
    || ((bit_and (bit_or x (2 ^ i)) (2 ^ j) == bit_and x (2 ^ j))
        && (bit_and (bit_and x (bit_xor (2 ^ i) 255)) (2 ^ j) == bit_and x (2 ^ j)))

other_table : all_below 8 (λ i. all_below 8 (λ j. all_below 256 (other_bits i j))) ≡ true
unfolding all_below
other_table = refl

own : (f x : ℕ) → IsU8 f → IsU8 x → own_bit f x ≡ true
own f x h k =
    all_below_sound 256 (own_bit f) x
      (all_below_sound 256 (λ g. all_below 256 (own_bit g)) f own_table h) k

other : (i j x : ℕ) → i < 8 → j < 8 → IsU8 x → other_bits i j x ≡ true
other i j x hi hj hx =
    all_below_sound 256 (other_bits i j) x
      (all_below_sound 8 (λ b. all_below 256 (other_bits i b)) j
        (all_below_sound 8 (λ a. all_below 8 (λ b. all_below 256 (other_bits a b))) i other_table
          hi)
        hj)
      hx

-- For a flag byte other than 0, `HasFlag` answers true after `SetFlag` and false after `ClearFlag`
-- with the same flag, also where the flag has several bits.
pub has_flag-set_clear :
    (m : Message) (f : ℕ)
    → IsU8 m.flags
    → IsU8 f
    → f ≢ 0
    → (has_flag (set_flag m f) f ≡ true) × (has_flag (clear_flag m f) f ≡ false)
unfolding has_flag set_flag clear_flag
has_flag-set_clear m f hm hf nz = ground (arith, own f m.flags hf hm)

-- Setting or clearing one of the eight single-bit flags changes what `HasFlag` answers for no other
-- single-bit flag.
pub has_flag-set_clear_ne :
    (m : Message) (i j : ℕ)
    → IsU8 m.flags
    → i < 8
    → j < 8
    → i ≢ j
    → (has_flag (set_flag m (2 ^ i)) (2 ^ j) ≡ has_flag m (2 ^ j))
      × (has_flag (clear_flag m (2 ^ i)) (2 ^ j) ≡ has_flag m (2 ^ j))
unfolding has_flag set_flag clear_flag
has_flag-set_clear_ne m i j hm hi hj ne = ground (arith, other i j m.flags hi hj hm)
