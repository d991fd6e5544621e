-- ===== src/Leb128.antt =====
-- src/core/base.c: the variable-length encoding of unsigned 64-bit numbers, seven bits a byte.
pub mod Encode
pub mod Decode
pub mod Signed
mod Tests
use otic.Prelude.{
  ℕ, zero, suc, ◌+◌, ◌*◌, ◌/◌, ◌%◌, ◌^◌, ◌<◌, bit_and, bit_or, Bool, true, false, Option, none,
  some, List, [], ◌∷◌, ltb, ◌==◌,
}

abbrev pub IsU64 : ℕ → Type 0
IsU64 v = v < 2 ^ 64

-- The rounds of `while (value >= 128)` and the byte after the loop: the bytes written to `dest`,
-- whose number is the result of the C function. The fuel is above the value, which falls.
encode_loop : ℕ → ℕ → List ℕ
encode_loop zero value = []
encode_loop (suc fuel) value = elim (ltb value 128) [
  | true ↦ (value % 256) ∷ []
  | false ↦ (bit_or 0x80 (bit_and value 0x7f) % 256) ∷ encode_loop fuel (value / 2 ^ 7)
]

unfoldable pub encode_unsigned : ℕ → List ℕ
unfolding encode_loop
encode_unsigned value = encode_loop (suc value) value

-- The loop that the comment above the C function gives as its origin.
reference_loop : ℕ → ℕ → List ℕ
reference_loop zero value = []
reference_loop (suc fuel) value =
    let byte = bit_and (value % 256) 0x7f in
    let value' = value / 2 ^ 7 in
    elim (value' == 0) [ true ↦ byte ∷ [] | false ↦ bit_or byte 0x80 ∷ reference_loop fuel value' ]

unfoldable pub reference_encode : ℕ → List ℕ
unfolding reference_loop
reference_encode value = reference_loop (suc value) value

-- `do { *value |= (*ptr & 0x7f) << shift; shift += 7; } while (*ptr++ & 0x80)`: the number and the
-- bytes from `ptr` on. `none` is a read past the end of the data, or a shift by the width or more,
-- which C leaves undefined.
pub decode_loop : List ℕ → ℕ → ℕ → Option (ℕ × List ℕ)
decode_loop [] value shift = none
decode_loop (b ∷ rest) value shift =
    let value' = bit_or value (bit_and b 0x7f * 2 ^ shift % 2 ^ 64) in
    let more = decode_loop rest value' ((shift + 7) % 256) in
    elim (ltb shift 64) [
      | false ↦ none
      | true ↦ elim (bit_and b 0x80 == 0) [ true ↦ some (value', rest) | false ↦ more ]
    ]

unfoldable pub decode_unsigned : List ℕ → Option (ℕ × List ℕ)
unfolding decode_loop
decode_unsigned encoded_values = decode_loop encoded_values 0 0
