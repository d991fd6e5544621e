-- ===== src/Leb128/Signed.antt =====
-- src/core/base.c: the variable-length encoding of signed 64-bit numbers. An `int64_t` is its pattern
-- of 64 bits.
pub mod Groups
pub mod RoundTrip
use otic.Prelude.{
  ℕ, zero, suc, ◌+◌, ◌-◌, ◌*◌, ◌/◌, ◌%◌, ◌^◌, bit_and, bit_or, Bool, true, false, ◌&&◌, ◌||◌,
  Option, none, some, List, [], ◌∷◌, ltb, ◌==◌, if◌then◌else◌,
}

abbrev pub is_negative : ℕ → Bool
is_negative value = ltb (2 ^ 63 - 1) value

-- `value >>= 7u; if (negative) value |= ~0L << (size - 7u)`. What C shifts into a negative value is the
-- implementation's choice; these bits are set either way.
unfoldable pub shift_right : Bool → ℕ → ℕ
shift_right negative value =
    if negative then bit_or (value / 2 ^ 7) (127 * 2 ^ 57) else value / 2 ^ 7

-- The bit of the sign in a group of seven.
unfoldable pub sign_bit : ℕ → ℕ
sign_bit value = bit_and (value % 256) 0x40 / 2 ^ 6

-- The loop of the encoder, with fuel for its rounds.
unfoldable pub encode_signed_loop : ℕ → Bool → ℕ → List ℕ
unfolding shift_right sign_bit
encode_signed_loop zero negative value = []
encode_signed_loop (suc fuel) negative value =
    let byte = bit_and (value % 256) 0x7f in
    let value' = shift_right negative value in
    let rest = encode_signed_loop fuel negative value' in
    if value' == 0 && sign_bit value == 0 || value' == 2 ^ 64 - 1 && sign_bit value == 1
    then byte ∷ []
    else bit_or byte 0x80 ∷ rest

-- `leb128_encode_signed`: 64 bits are ten groups of seven at most.
unfoldable pub encode_signed : ℕ → List ℕ
unfolding encode_signed_loop
encode_signed value = encode_signed_loop 10 (is_negative value) value

-- The bits of the sign above the last group.
unfoldable pub extend : ℕ → ℕ → ℕ → ℕ
unfolding sign_bit
extend value shift byte =
    if ltb shift 64 && sign_bit byte == 1
    then bit_or value ((2 ^ 64 - 1) * 2 ^ shift % 2 ^ 64)
    else value

-- The loop of the decoder. `none` is a read past the end of the data, or a shift by the width or more.
unfoldable pub decode_signed_loop : List ℕ → ℕ → ℕ → Option (ℕ × List ℕ)
unfolding extend
decode_signed_loop [] value shift = none
decode_signed_loop (byte ∷ rest) value shift =
    let value' = bit_or value (bit_and byte 0x7f * 2 ^ shift % 2 ^ 64) in
    let shift' = (shift + 7) % 256 in
    let more = decode_signed_loop rest value' shift' in
    if ltb shift 64
    then (if byte / 2 ^ 7 == 0 then some (extend value' shift' byte, rest) else more)
    else none

-- `leb128_decode_signed`
unfoldable pub decode_signed : List ℕ → Option (ℕ × List ℕ)
unfolding decode_signed_loop
decode_signed encoded_values = decode_signed_loop encoded_values 0 0
