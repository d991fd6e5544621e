-- ===== src/Leb128/Tests.antt =====
-- Encodings of concrete numbers, and the theorems at them.
use otic.Prelude.{
  ◌≤◌, ◌<◌, ◌-◌, ◌^◌, none, some, [], ◌∷◌, ◌++◌, length, All, IsByte, ◌≡◌, refl, arith,
}
use otic.Leb128.{encode_unsigned, reference_encode, decode_unsigned}
use otic.Leb128.Signed.{encode_signed, decode_signed}
use otic.Leb128.Signed.RoundTrip.{decode_signed-encode_signed}
use otic.Leb128.Encode.{encode-IsByte, length-encode-le, lt_of_length-encode, encode-eq-reference}
use otic.Leb128.Decode.{decode-encode, OneNumber, decode-OneNumber}

encode_300 : encode_unsigned 300 ≡ 172 ∷ 2 ∷ []
unfolding encode_unsigned
encode_300 = refl

decode_unterminated : decode_unsigned (128 ∷ 255 ∷ []) ≡ none
unfolding decode_unsigned
decode_unterminated = refl

decode-encode_example : decode_unsigned (encode_unsigned 300 ++ (7 ∷ [])) ≡ some (300, 7 ∷ [])
decode-encode_example = decode-encode 300 (7 ∷ []) (omega arith)

decode_300 : decode_unsigned (172 ∷ 2 ∷ 7 ∷ []) ≡ some (300, 7 ∷ [])
unfolding decode_unsigned
decode_300 = refl

decode-OneNumber_example : OneNumber (172 ∷ 2 ∷ 7 ∷ []) (7 ∷ [])
decode-OneNumber_example = decode-OneNumber (172 ∷ 2 ∷ 7 ∷ []) 300 (7 ∷ []) decode_300

encode-eq-reference_example : encode_unsigned 300 ≡ reference_encode 300
encode-eq-reference_example = encode-eq-reference 300

encode-IsByte_example : All IsByte (encode_unsigned 300)
encode-IsByte_example = encode-IsByte 300

length-encode_example : length (encode_unsigned 300) ≤ 2
length-encode_example = length-encode-le 1 300 (omega arith)

lt_of_length_example : 300 < 128 ^ 2
unfolding encode_unsigned
lt_of_length_example = lt_of_length-encode 1 300 (omega arith)

decode_signed-encode_signed_example :
    decode_signed (encode_signed (2 ^ 64 - 300) ++ (1 ∷ [])) ≡ some (2 ^ 64 - 300, 1 ∷ [])
decode_signed-encode_signed_example =
    decode_signed-encode_signed (2 ^ 64 - 300) (1 ∷ []) (omega arith)

-- -300 has two bytes.
two_bytes : encode_signed (2 ^ 64 - 300) ≡ 212 ∷ 125 ∷ []
unfolding encode_signed
two_bytes = refl
